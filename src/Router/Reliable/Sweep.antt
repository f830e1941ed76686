-- ===== src/Router/Reliable/Sweep.antt =====
-- The loop of `tick_retransmissions` as a sweep over the entries it has not visited yet.
use meshtastenstein_rs.Base.{
  ℕ, zero, suc, ◌≡◌, refl, sym, ◌∙◌, inl, inr, none, some, List, [], ◌∷◌, ◌++◌, ltb, if◌then◌else◌,
  Bool-cases, length, length-append, swap_remove_split, rotate, replace_at, get_elem?,
  get_elem?-split, get_elem?-end, append_assoc, arith,
}
use meshtastenstein_rs.NodeDb.{NodeDb}
use meshtastenstein_rs.Router.Reliable.{
  PendingPacket, Tick, retried, visit, resend, give_up, tick_loop, tick_retransmissions,
}

-- what becomes of the entries from the index `i` on
unfoldable pub sweep : ℕ → (ℕ → ℕ) → ℕ → ℕ → List PendingPacket → List PendingPacket
sweep now clock zero i post = post
sweep now clock (suc fuel) i [] = []
sweep now clock (suc fuel) i (p ∷ post) =
    let stays = sweep now clock fuel (suc i) post in
    let goes = sweep now clock fuel i (rotate post) in
    if ltb now p.deadline
    then p ∷ stays
    else if ltb 0 p.retries_left
    then retried (clock i) p ∷ stays
    else goes

pub longer_by_one :
    (i : ℕ) (pre : List PendingPacket) (p : PendingPacket)
    → i ≡ length pre
    → suc i ≡ length (pre ++ (p ∷ []))
longer_by_one i pre p at = omega (arith, at, length-append {A = PendingPacket} pre (p ∷ []))

module _ {P M : Type 0} where
  pub split_again :
      (sent i : ℕ) (pre : List PendingPacket) (p : PendingPacket) (post : List PendingPacket)
      (t : Tick P M)
      → i ≡ length pre
      → t.pending ≡ pre ++ (p ∷ post)
      → (resend sent i p t).pending ≡ (pre ++ (retried sent p ∷ [])) ++ post
  unfolding resend
  split_again sent i pre p post t at split =
      rw (split, at)
        (replace_at pre p (retried sent p) post ∙ sym (append_assoc pre (retried sent p ∷ []) post))

  pub split_done :
      (i : ℕ) (pre : List PendingPacket) (p : PendingPacket) (post : List PendingPacket)
      (t : Tick P M)
      → i ≡ length pre
      → t.pending ≡ pre ++ (p ∷ post)
      → (give_up i p t).pending ≡ pre ++ rotate post
  unfolding give_up
  split_done i pre p post t at split = rw (split, at) (swap_remove_split pre p post)

  tick_loop-sweep :
      (now : ℕ) (clock : ℕ → ℕ) (fuel i : ℕ) (pre post : List PendingPacket) (t : Tick P M)
      → i ≡ length pre
      → t.pending ≡ pre ++ post
      → (tick_loop now clock fuel i t).1.pending ≡ pre ++ sweep now clock fuel i post
  unfolding tick_loop sweep visit resend give_up
  tick_loop-sweep now clock zero i pre post t at split = split
  tick_loop-sweep now clock (suc fuel) i pre [] t at split =
      let ended : get_elem? t.pending i ≡ none = rw (split, at) (get_elem?-end pre) in
      rw (ended, tick_loop) split
  tick_loop-sweep now clock (suc fuel) i pre (p ∷ post) t at split =
      let found : get_elem? t.pending i ≡ some p = rw (split, at) (get_elem?-split pre p post) in
      elim (Bool-cases (ltb now p.deadline)) [
        | inl waits ↦
            rw (found, tick_loop, waits)
              (tick_loop-sweep now clock fuel (suc i) (pre ++ (p ∷ [])) post t
                  (longer_by_one i pre p at) (split ∙ sym (append_assoc pre (p ∷ []) post))
                ∙ append_assoc pre (p ∷ []) (sweep now clock fuel (suc i) post))
        | inr due ↦ elim (Bool-cases (ltb 0 p.retries_left)) [
          | inl again ↦
              rw (found, tick_loop, due, again)
                (tick_loop-sweep now clock fuel (suc i) (pre ++ (retried (clock i) p ∷ [])) post
                    (resend (clock i) i p t) (longer_by_one i pre (retried (clock i) p) at)
                    (split_again (clock i) i pre p post t at split)
                  ∙ append_assoc pre (retried (clock i) p ∷ []) (sweep now clock fuel (suc i) post))
          | inr done ↦
              rw (found, tick_loop, due, done)
                (tick_loop-sweep now clock fuel i pre (rotate post) (give_up i p t) at
                  (split_done i pre p post t at split))
        ]
      ]

  -- The loop has the fuel that it needs: it visits every entry.
  pub tick_retransmissions-sweep :
      (now : ℕ) (clock : ℕ → ℕ) (pending : List PendingPacket) (db : NodeDb P M)
      → (tick_retransmissions now clock pending db).pending
        ≡ sweep now clock (length pending) 0 pending
  unfolding tick_retransmissions
  tick_retransmissions-sweep now clock pending db =
      tick_loop-sweep now clock (length pending) 0 [] pending
        (record { pending = pending; db = db; to_send = []; gave_up = [] }) refl refl
