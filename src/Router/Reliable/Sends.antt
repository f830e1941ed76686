-- ===== src/Router/Reliable/Sends.antt =====
-- The frames that `tick_retransmissions` sends.
use meshtastenstein_rs.Base.{
  ℕ, zero, suc, ◌+◌, ◌≤◌, ◌<◌, ◌≡◌, refl, sym, ◌∙◌, inl, inr, Bool, true, false, ◌&&◌, not, none,
  some, List, [], ◌∷◌, ◌++◌, ◌==◌, ltb, if◌then◌else◌, Bool-cases, length, length-append, retain,
  retain-append, rotate, count-rotate, length-rotate, get_elem?, get_elem?-split, get_elem?-end,
  append_assoc, unwrap_or, push, arith,
}
use meshtastenstein_rs.Packet.{RadioFrame, frame_header, write_header}
use meshtastenstein_rs.NodeDb.{NodeDb}
use meshtastenstein_rs.Router.Reliable.Sweep.{split_again, split_done, longer_by_one}
use meshtastenstein_rs.Router.Reliable.{
  PendingPacket, Tick, queue_size, flood_frame, retry_frame, retried, visit, resend, give_up,
  tick_loop, tick_retransmissions,
}

-- a frame whose header, if it has one, names no next hop
unfoldable pub flooded : RadioFrame → RadioFrame
flooded f = elim (frame_header f) [ none ↦ f | some h ↦ write_header (record h { next_hop = 0 }) f ]

pub flood_frame-flooded : (f : RadioFrame) → flood_frame f ≡ flooded f
unfolding flood_frame flooded
flood_frame-flooded f = refl

-- an entry that is due, has retries left, and whose frame, as it is sent, has a property
unfoldable pub resends : ℕ → (RadioFrame → Bool) → PendingPacket → Bool
resends now f p =
    not (ltb now p.deadline)
    && ltb 0 p.retries_left
    && f (if p.retries_left == 1 then flooded p.frame else p.frame)

count_of : {A : Type 0} → (A → Bool) → List A → ℕ
count_of f l = length (retain f l)

-- one if the test holds
one_if : Bool → ℕ
one_if b = if b then 1 else 0

count-push_or :
    (f : RadioFrame → Bool) (a : RadioFrame) (xs : List RadioFrame)
    → length xs < queue_size
    → count_of f (unwrap_or (push queue_size a xs) xs) ≡ count_of f xs + one_if (f a)
unfolding push count_of retain one_if
count-push_or f a xs room = ground (
  arith,
  retain-append f xs (a ∷ []),
  length-append {A = RadioFrame} (retain f xs) (retain f (a ∷ [])),
)

length-push_or :
    (a : RadioFrame) (xs : List RadioFrame)
    → length xs < queue_size
    → length (unwrap_or (push queue_size a xs) xs) ≡ suc (length xs)
unfolding push
length-push_or a xs room = ground (arith, length-append {A = RadioFrame} xs (a ∷ []))

-- the frame of a retry, by the number of retries that were left
retry_frame-left :
    (p : PendingPacket)
    → ltb 0 p.retries_left ≡ true
    → retry_frame p ≡ (if p.retries_left == 1 then flooded p.frame else p.frame)
unfolding retry_frame
retry_frame-left p again = rw (sym (flood_frame-flooded p.frame)) (ground (arith, again))

count-waits :
    (now : ℕ) (f : RadioFrame → Bool) (p : PendingPacket) (post : List PendingPacket)
    → ltb now p.deadline ≡ true
    → count_of (resends now f) (p ∷ post) ≡ count_of (resends now f) post
unfolding count_of retain resends
count-waits now f p post waits = rw (waits) refl

count-done :
    (now : ℕ) (f : RadioFrame → Bool) (p : PendingPacket) (post : List PendingPacket)
    → ltb 0 p.retries_left ≡ false
    → count_of (resends now f) (p ∷ post) ≡ count_of (resends now f) post
unfolding count_of retain resends
count-done now f p post done = ground (arith, done)

count-again :
    (now : ℕ) (f : RadioFrame → Bool) (p : PendingPacket) (post : List PendingPacket)
    → ltb now p.deadline ≡ false
    → ltb 0 p.retries_left ≡ true
    → count_of (resends now f) (p ∷ post)
      ≡ one_if (f (retry_frame p)) + count_of (resends now f) post
unfolding count_of retain resends one_if
count-again now f p post due again = rw (due, again, retry_frame-left p again) (ground arith)

count-nothing :
    (f : RadioFrame → Bool) (xs : List RadioFrame) (now : ℕ)
    → count_of f xs ≡ count_of f xs + count_of (resends now f) []
unfolding count_of retain
count-nothing f xs now = omega arith

module _ {P M : Type 0} where
  resend-count :
      (f : RadioFrame → Bool) (sent i : ℕ) (p : PendingPacket) (t : Tick P M)
      → length t.to_send < queue_size
      → (count_of f (resend sent i p t).to_send ≡ count_of f t.to_send + one_if (f (retry_frame p)))
        × (length (resend sent i p t).to_send ≡ suc (length t.to_send))
  unfolding resend
  resend-count f sent i p t room = (
    count-push_or f (retry_frame p) t.to_send room,
    length-push_or (retry_frame p) t.to_send room,
  )

  give_up-to_send : (i : ℕ) (p : PendingPacket) (t : Tick P M) → (give_up i p t).to_send ≡ t.to_send
  unfolding give_up
  give_up-to_send i p t = refl

  same_rest :
      (f : RadioFrame → Bool) (now i : ℕ) (p : PendingPacket) (post : List PendingPacket)
      (t : Tick P M)
      → count_of f (give_up i p t).to_send + count_of (resends now f) (rotate post)
        ≡ count_of f t.to_send + count_of (resends now f) post
  unfolding give_up count_of
  same_rest f now i p post t = omega (arith, count-rotate (resends now f) post)

  tick_loop-to_send :
      (f : RadioFrame → Bool) (now : ℕ) (clock : ℕ → ℕ) (fuel i : ℕ) (pre post : List PendingPacket)
      (t : Tick P M)
      → i ≡ length pre
      → t.pending ≡ pre ++ post
      → length post ≤ fuel
      → length t.to_send + length post ≤ queue_size
      → count_of f (tick_loop now clock fuel i t).1.to_send
        ≡ count_of f t.to_send + count_of (resends now f) post
  unfolding tick_loop visit
  tick_loop-to_send f now clock zero i pre [] t at split enough sends =
      count-nothing f t.to_send now
  tick_loop-to_send f now clock zero i pre (p ∷ post) t at split enough sends = absurd (omega arith)
  tick_loop-to_send f now clock (suc fuel) i pre [] t at split enough sends =
      let ended : get_elem? t.pending i ≡ none = rw (split, at) (get_elem?-end pre) in
      rw (ended, tick_loop) (count-nothing f t.to_send now)
  tick_loop-to_send f now clock (suc fuel) i pre (p ∷ post) t at split enough sends =
      let found : get_elem? t.pending i ≡ some p = rw (split, at) (get_elem?-split pre p post) in
      elim (Bool-cases (ltb now p.deadline)) [
        | inl waits ↦
            rw (found, tick_loop, waits, count-waits now f p post waits)
              (tick_loop-to_send f now clock fuel (suc i) (pre ++ (p ∷ [])) post t
                (longer_by_one i pre p at) (split ∙ sym (append_assoc pre (p ∷ []) post))
                (omega (arith, enough)) (omega (arith, sends)))
        | inr due ↦ elim (Bool-cases (ltb 0 p.retries_left)) [
          | inl again ↦
              let (count, longer) = resend-count f (clock i) i p t (omega (arith, sends)) in
              let rest =
                tick_loop-to_send f now clock fuel (suc i) (pre ++ (retried (clock i) p ∷ [])) post
                  (resend (clock i) i p t) (longer_by_one i pre (retried (clock i) p) at)
                  (split_again (clock i) i pre p post t at split) (omega (arith, enough))
                  (omega (arith, longer, sends)) in
              rw (found, tick_loop, due, again)
                (omega (arith, rest, count, count-again now f p post due again))
          | inr done ↦
              let rest =
                tick_loop-to_send f now clock fuel i pre (rotate post) (give_up i p t) at
                  (split_done i pre p post t at split) (omega (arith, enough, length-rotate post))
                  (rw (give_up-to_send i p t) (omega (arith, sends, length-rotate post))) in
              rw (found, tick_loop, due, done, count-done now f p post done)
                (rest ∙ same_rest f now i p post t)
        ]
      ]

nothing_before :
    (f : RadioFrame → Bool) (l : List PendingPacket) → length (retain f []) + length l ≡ length l
unfolding retain
nothing_before f l = omega arith

-- From a pending queue within its capacity, a tick sends, for each property of frames, as many
-- frames that have it as there are entries that are due, have retries left and are sent as such a
-- frame.
pub tick-to_send :
    {P M : Type 0} (f : RadioFrame → Bool) (now : ℕ) (clock : ℕ → ℕ) (pending : List PendingPacket)
    (db : NodeDb P M)
    → length pending ≤ queue_size
    → length (retain f (tick_retransmissions now clock pending db).to_send)
      ≡ length (retain (resends now f) pending)
unfolding tick_retransmissions count_of
tick-to_send {P} {M} f now clock pending db room =
    let begun : Tick P M = record { pending = pending; db = db; to_send = []; gave_up = [] } in
    let looped =
      tick_loop-to_send f now clock (length pending) 0 [] pending begun refl refl (omega arith)
        (omega (arith, room)) in
    looped ∙ nothing_before f (retain (resends now f) pending)
