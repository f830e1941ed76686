-- ===== src/Router/Reliable/Bounds.antt =====
-- The two vectors of `RetransmissionResult` never overflow.
use meshtastenstein_rs.Base.{
  ℕ, zero, suc, ◌+◌, ◌≤◌, ◌<◌, ◌≡◌, refl, sym, ◌∙◌, inl, inr, Bool, ◌&&◌, not, none, some, List, [],
  ◌∷◌, ◌++◌, ltb, if◌then◌else◌, is_some, Bool-cases, Option-cases, length, length-append, retain,
  rotate, count-rotate, length-rotate, get_elem?, get_elem?-split, get_elem?-end, append_assoc,
  unwrap_or, push, arith,
}
use meshtastenstein_rs.NodeDb.{NodeDb}
use meshtastenstein_rs.Router.Reliable.Sweep.{split_again, split_done, longer_by_one}
use meshtastenstein_rs.Router.Reliable.{
  PendingPacket, Tick, queue_size, retry_frame, retried, visit, resend, give_up, tick_loop,
  tick_retransmissions,
}

-- an entry that the tick sends again
unfoldable pub is_retry : ℕ → PendingPacket → Bool
is_retry now p = not (ltb now p.deadline) && ltb 0 p.retries_left

-- an entry whose failure the tick reports
unfoldable pub is_reported : ℕ → PendingPacket → Bool
is_reported now p = not (ltb now p.deadline) && not (ltb 0 p.retries_left) && is_some p.ble_notify

abbrev count : (PendingPacket → Bool) → List PendingPacket → ℕ
count f l = length (retain f l)

length-push_or {ℓ} :
    {A : Type ℓ} (a : A) (xs : List A)
    → length xs < queue_size
    → length (unwrap_or (push queue_size a xs) xs) ≡ suc (length xs)
unfolding push
length-push_or {A = A} a xs room = ground (arith, length-append {A = A} xs (a ∷ []))

module _ {P M : Type 0} where
  length-resend :
      (sent i : ℕ) (p : PendingPacket) (t : Tick P M)
      → length t.to_send < queue_size
      → length (resend sent i p t).to_send ≡ suc (length t.to_send)
  unfolding resend
  length-resend sent i p t room = length-push_or (retry_frame p) t.to_send room

  length-give_up :
      (i : ℕ) (p : PendingPacket) (t : Tick P M)
      → length t.gave_up < queue_size
      → length (give_up i p t).gave_up
        ≡ (if is_some p.ble_notify then suc (length t.gave_up) else length t.gave_up)
  unfolding give_up
  length-give_up i p t room = elim (Option-cases p.ble_notify) [
    | inl silent ↦ rw silent refl
    | inr (dest, notified) ↦ rw notified (length-push_or (dest, p.packet_id) t.gave_up room)
  ]

  gives_resend :
      (sent i : ℕ) (p : PendingPacket) (post : List PendingPacket) (t : Tick P M)
      → length t.gave_up + length (p ∷ post) ≤ queue_size
      → length (resend sent i p t).gave_up + length post ≤ queue_size
  unfolding resend
  gives_resend sent i p post t h = omega arith

  gives_same :
      (sent i : ℕ) (p : PendingPacket) (t : Tick P M) (n : ℕ)
      → length (resend sent i p t).gave_up + n ≡ length t.gave_up + n
  unfolding resend
  gives_same sent i p t n = refl

  sends_give_up :
      (i : ℕ) (p : PendingPacket) (post : List PendingPacket) (t : Tick P M)
      → length t.to_send + length (p ∷ post) ≤ queue_size
      → length (give_up i p t).to_send + length (rotate post) ≤ queue_size
  unfolding give_up
  sends_give_up i p post t h = omega (arith, h, length-rotate post)

  sends_same :
      (i : ℕ) (p : PendingPacket) (post : List PendingPacket) (t : Tick P M)
      (f : PendingPacket → Bool)
      → length (give_up i p t).to_send + count f (rotate post) ≡ length t.to_send + count f post
  unfolding give_up
  sends_same i p post t f = omega (arith, count-rotate f post)

  tick_loop-lengths :
      (now : ℕ) (clock : ℕ → ℕ) (fuel i : ℕ) (pre post : List PendingPacket) (t : Tick P M)
      → i ≡ length pre
      → t.pending ≡ pre ++ post
      → length post ≤ fuel
      → length t.to_send + length post ≤ queue_size
      → length t.gave_up + length post ≤ queue_size
      → (length (tick_loop now clock fuel i t).1.to_send
          ≡ length t.to_send + count (is_retry now) post)
        × (length (tick_loop now clock fuel i t).1.gave_up
            ≡ length t.gave_up + count (is_reported now) post)
  unfolding tick_loop visit retain is_retry is_reported
  tick_loop-lengths now clock zero i pre [] t at split enough sends gives =
      (omega arith, omega arith)
  tick_loop-lengths now clock zero i pre (p ∷ post) t at split enough sends gives =
      absurd (omega arith)
  tick_loop-lengths now clock (suc fuel) i pre [] t at split enough sends gives =
      let ended : get_elem? t.pending i ≡ none = rw (split, at) (get_elem?-end pre) in
      rw (ended, tick_loop) (omega arith, omega arith)
  tick_loop-lengths now clock (suc fuel) i pre (p ∷ post) t at split enough sends gives =
      let found : get_elem? t.pending i ≡ some p = rw (split, at) (get_elem?-split pre p post) in
      elim (Bool-cases (ltb now p.deadline)) [
        | inl waits ↦
            rw (found, tick_loop, waits)
              (tick_loop-lengths now clock fuel (suc i) (pre ++ (p ∷ [])) post t
                (longer_by_one i pre p at) (split ∙ sym (append_assoc pre (p ∷ []) post))
                (omega (arith, enough)) (omega (arith, sends)) (omega (arith, gives)))
        | inr due ↦ elim (Bool-cases (ltb 0 p.retries_left)) [
          | inl again ↦
              let (sent, given) =
                tick_loop-lengths now clock fuel (suc i) (pre ++ (retried (clock i) p ∷ [])) post
                  (resend (clock i) i p t) (longer_by_one i pre (retried (clock i) p) at)
                  (split_again (clock i) i pre p post t at split) (omega (arith, enough))
                  (ground (arith, length-resend (clock i) i p t))
                  (gives_resend (clock i) i p post t gives) in
              rw (found, tick_loop, due, again)
                (
                  ground (arith, sent, length-resend (clock i) i p t),
                  given ∙ gives_same (clock i) i p t (count (is_reported now) post),
                )
          | inr done ↦
              let (sent, given) =
                tick_loop-lengths now clock fuel i pre (rotate post) (give_up i p t) at
                  (split_done i pre p post t at split) (omega (arith, enough, length-rotate post))
                  (sends_give_up i p post t sends)
                  (ground (arith, length-give_up i p t, length-rotate post)) in
              rw (found, tick_loop, due, done)
                (
                  sent ∙ sends_same i p post t (is_retry now),
                  ground (arith, given, length-give_up i p t, count-rotate (is_reported now) post),
                )
        ]
      ]

  -- From a pending queue within its capacity, a tick sends one frame for each entry that is due and
  -- has retries left, and reports one failure for each that is due, has none, and names whom to
  -- notify: neither vector of the result overflows.
  tick-lengths :
      (now : ℕ) (clock : ℕ → ℕ) (pending : List PendingPacket) (db : NodeDb P M)
      → length pending ≤ queue_size
      → (length (tick_retransmissions now clock pending db).to_send
          ≡ length (retain (is_retry now) pending))
        × (length (tick_retransmissions now clock pending db).gave_up
            ≡ length (retain (is_reported now) pending))
  unfolding tick_retransmissions
  tick-lengths now clock pending db room =
      let (sent, given) =
        tick_loop-lengths now clock (length pending) 0 [] pending
          (record { pending = pending; db = db; to_send = []; gave_up = [] }) refl refl
          (omega arith) (omega (arith, room)) (omega (arith, room)) in
      (omega (arith, sent), omega (arith, given))
