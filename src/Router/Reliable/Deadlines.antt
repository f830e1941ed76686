-- ===== src/Router/Reliable/Deadlines.antt =====
-- What `tick_retransmissions` leaves in the pending queue.
use meshtastenstein_rs.Base.{
  ℕ, zero, suc, ◌≤◌, ◌<◌, ◌≡◌, ◌+◌, ◌-◌, Bool, refl, subst, inl, inr, true, false, Option, none,
  some, List, [], ◌∷◌, ◌==◌, ltb, if◌then◌else◌, Bool-cases, length, retain, find, any,
  is_some-find, rotate, length-rotate, Distinct, find-rotate, rotate-Distinct, All, ==_iff, arith,
}
use meshtastenstein_rs.NodeDb.{NodeDb}
use meshtastenstein_rs.Packet.{RadioFrame}
use meshtastenstein_rs.Router.Reliable.{
  PendingPacket, queue_size, flood_frame, retry_frame, retried, tick_retransmissions,
}
use meshtastenstein_rs.Router.Reliable.Sends.{flooded, resends, tick-to_send}
use meshtastenstein_rs.Router.Reliable.Sweep.{sweep, tick_retransmissions-sweep}

abbrev pub Waits : ℕ → PendingPacket → Type 0
Waits now p = now < p.deadline

sent_later :
    (now : ℕ) (clock : ℕ → ℕ) (i : ℕ) (p : PendingPacket)
    → ((j : ℕ) → now ≤ clock j)
    → Waits now (retried (clock i) p)
unfolding retried
sent_later now clock i p later = omega (arith, later i)

sweep-Waits :
    (now : ℕ) (clock : ℕ → ℕ) (fuel i : ℕ) (post : List PendingPacket)
    → ((j : ℕ) → now ≤ clock j)
    → length post ≤ fuel
    → All (Waits now) (sweep now clock fuel i post)
unfolding sweep
sweep-Waits now clock zero i [] later enough = tt
sweep-Waits now clock zero i (p ∷ post) later enough = absurd (omega arith)
sweep-Waits now clock (suc fuel) i [] later enough = tt
sweep-Waits now clock (suc fuel) i (p ∷ post) later enough =
    let stays : All (Waits now) (sweep now clock fuel (suc i) post) =
      sweep-Waits now clock fuel (suc i) post later (omega arith) in
    elim (Bool-cases (ltb now p.deadline)) [
      | inl waits ↦ rw (waits, sweep) (ground arith, stays)
      | inr due ↦ elim (Bool-cases (ltb 0 p.retries_left)) [
        | inl again ↦ rw (due, again, sweep) (sent_later now clock i p later, stays)
        | inr done ↦
            rw (due, done, sweep)
              (sweep-Waits now clock fuel i (rotate post) later (omega (arith, length-rotate post)))
      ]
    ]

-- After a tick no entry of the queue is due, when the clock does not run backwards: the loop visits
-- every entry, and an entry that was due has a new deadline or has been removed.
pub tick-Waits :
    {P M : Type 0} (now : ℕ) (clock : ℕ → ℕ) (pending : List PendingPacket) (db : NodeDb P M)
    → ((j : ℕ) → now ≤ clock j)
    → All (Waits now) (tick_retransmissions now clock pending db).pending
tick-Waits now clock pending db later =
    rw (tick_retransmissions-sweep now clock pending db)
      (sweep-Waits now clock (length pending) 0 pending later (omega arith))

abbrev pub id_of : PendingPacket → ℕ
id_of p = p.packet_id

-- what a tick makes of one entry
unfoldable pub after_tick : ℕ → ℕ → Option PendingPacket → Option PendingPacket
after_tick now sent none = none
after_tick now sent (some p) =
    if ltb now p.deadline
    then some p
    else if ltb 0 p.retries_left
    then some (record p {
      frame = if p.retries_left == 1 then flooded p.frame else p.frame;
      deadline = sent + 5000;
      retries_left = p.retries_left - 1;
    })
    else none

absent_here :
    (p : PendingPacket) (id : ℕ) (post : List PendingPacket)
    → any (λ q. q.packet_id == p.packet_id) post ≡ false
    → (p.packet_id == id) ≡ true
    → any (λ q. q.packet_id == id) post ≡ false
absent_here p id post h e =
    subst (λ k. any (λ q. q.packet_id == k) post ≡ false) ((==_iff p.packet_id id).0 e) h

sweep-find :
    (now sent fuel i id : ℕ) (post : List PendingPacket)
    → Distinct id_of post
    → length post ≤ fuel
    → find (λ p. p.packet_id == id) (sweep now (λ j. sent) fuel i post)
      ≡ after_tick now sent (find (λ p. p.packet_id == id) post)
unfolding sweep find after_tick retried retry_frame flood_frame flooded
sweep-find now sent zero i id [] d enough = refl
sweep-find now sent zero i id (p ∷ post) d enough = absurd (omega arith)
sweep-find now sent (suc fuel) i id [] d enough = refl
sweep-find now sent (suc fuel) i id (p ∷ post) d enough = ground (
  arith,
  sweep-find now sent fuel (suc i) id post d.1 (omega arith),
  sweep-find now sent fuel i id (rotate post) (rotate-Distinct id_of post d.1)
      (omega (arith, length-rotate post)),
  find-rotate id_of id post d.1,
  is_some-find (λ q. q.packet_id == id) post,
  absent_here p id post d.0,
)

-- A tick at `now`, among at most eight entries with distinct packet ids: an entry that is not due
-- stays as it is. One that is due stays while it has retries left, with one retry less and five
-- seconds until the next; with its last retry the frame is the flooded one. It is removed when it
-- has none. The frames that are sent are those of the retries, each as often as there are such
-- entries.
pub find-tick :
    {P M : Type 0} (now sent id : ℕ) (pending : List PendingPacket) (db : NodeDb P M)
    (f : RadioFrame → Bool)
    → Distinct id_of pending
    → length pending ≤ queue_size
    → (find (λ p. p.packet_id == id) (tick_retransmissions now (λ j. sent) pending db).pending
        ≡ after_tick now sent (find (λ p. p.packet_id == id) pending))
      × (length (retain f (tick_retransmissions now (λ j. sent) pending db).to_send)
          ≡ length (retain (resends now f) pending))
find-tick now sent id pending db f d room = (
  rw (tick_retransmissions-sweep now (λ j. sent) pending db)
      (sweep-find now sent (length pending) 0 id pending d (omega arith)),
  tick-to_send f now (λ j. sent) pending db room,
)
