-- ===== src/Relay/Queue.antt =====
-- The queue of pending rebroadcasts of from_radio/mod.rs, and the packets that echo ours.
use meshtastenstein_rs.Base.{
  ℕ, zero, suc, ◌-◌, ◌≤◌, ◌<◌, ◌≡◌, refl, sym, ap, ◌∙◌, inl, inr, none, some, List, [], ◌∷◌, ◌++◌,
  ◌==◌, ltb, if◌then◌else◌, unwrap_or, Bool-cases, Option-cases, length, append_nil, append_assoc,
  All-append, subst, length-append, length-swap_remove, position, find, push, All, Distinct,
  find-swap_remove, is_some-find, is_some-position_from, ==_iff, arith,
}
use meshtastenstein_rs.Router.Reliable.{PendingPacket, queue_size}
use meshtastenstein_rs.Relay.{
  PendingRebroadcast, earliest_from, earliest, room_in, enqueue_rebroadcast, implicit_ack,
}

abbrev pub deadline_at : ℕ → List PendingRebroadcast → ℕ → ℕ
deadline_at d [] i = d
deadline_at d (p ∷ ps) zero = p.deadline
deadline_at d (p ∷ ps) (suc i) = deadline_at d ps i

is_some-earliest : (q : List PendingRebroadcast) → 0 < length q → (i : ℕ) × (earliest q ≡ some i)
unfolding earliest
is_some-earliest [] h = absurd (omega arith)
is_some-earliest (p ∷ ps) h = (earliest_from 0 p.deadline 1 ps, refl)

length-room_in : (q : List PendingRebroadcast) → 0 < length q → length (room_in q) ≡ length q - 1
unfolding room_in
length-room_in q h = let (i, e) = is_some-earliest q h in rw (e, room_in) (length-swap_remove i q)

deadline_at-split :
    (pre : List PendingRebroadcast) (p : PendingRebroadcast) (ps : List PendingRebroadcast)
    → deadline_at 0 (pre ++ (p ∷ ps)) (length pre) ≡ p.deadline
deadline_at-split [] p ps = refl
deadline_at-split (x ∷ pre) p ps = deadline_at-split pre p ps

AtLeast-weaken :
    (b c : ℕ) (ps : List PendingRebroadcast)
    → c ≤ b
    → All (λ p. b ≤ p.deadline) ps
    → All (λ p. c ≤ p.deadline) ps
AtLeast-weaken b c [] h a = tt
AtLeast-weaken b c (p ∷ ps) h a =
    let first : b ≤ p.deadline = a.0 in (omega (arith, h, first), AtLeast-weaken b c ps h a.1)

earliest_from-least :
    (at best i : ℕ) (q pre ps : List PendingRebroadcast)
    → q ≡ pre ++ ps
    → i ≡ length pre
    → deadline_at 0 q at ≡ best
    → All (λ p. best ≤ p.deadline) pre
    → All (λ p. deadline_at 0 q (earliest_from at best i ps) ≤ p.deadline) q
unfolding earliest_from
earliest_from-least at best i q pre [] split here is_best below =
    let whole : q ≡ pre = split ∙ append_nil pre in
    subst (λ l. All (λ p. deadline_at 0 q at ≤ p.deadline) l) (sym whole)
      (AtLeast-weaken best (deadline_at 0 q at) pre (omega (arith, is_best)) below)
earliest_from-least at best i q pre (p ∷ ps) split here is_best below =
    let split' : q ≡ (pre ++ (p ∷ [])) ++ ps = split ∙ sym (append_assoc pre (p ∷ []) ps) in
    let longer : suc i ≡ length (pre ++ (p ∷ [])) =
      omega (arith, here, length-append {A = PendingRebroadcast} pre (p ∷ [])) in
    elim (Bool-cases (ltb p.deadline best)) [
      | inl less ↦
          rw (less, earliest_from)
            (earliest_from-least i p.deadline (suc i) q (pre ++ (p ∷ [])) ps split' longer
              (rw (split, here) (deadline_at-split pre p ps))
              (All-append (λ x. p.deadline ≤ x.deadline) pre (p ∷ [])
                (AtLeast-weaken best p.deadline pre (ground arith) below) (omega arith, tt)))
      | inr more ↦
          rw (more, earliest_from)
            (earliest_from-least at best (suc i) q (pre ++ (p ∷ [])) ps split' longer is_best
              (All-append (λ x. best ≤ x.deadline) pre (p ∷ []) below (ground arith, tt)))
    ]

-- The entry that a full queue loses has the least deadline of the queue.
earliest-least :
    (q : List PendingRebroadcast) (k : ℕ)
    → earliest q ≡ some k
    → All (λ p. deadline_at 0 q k ≤ p.deadline) q
unfolding earliest
earliest-least [] k e = tt
earliest-least (p ∷ ps) k e =
    let at : earliest_from 0 p.deadline 1 ps ≡ k = ap (λ o. unwrap_or o 0) e in
    subst (λ j. All (λ x. deadline_at 0 (p ∷ ps) j ≤ x.deadline) (p ∷ ps)) at
      (earliest_from-least 0 p.deadline 1 (p ∷ ps) (p ∷ []) ps refl refl refl (omega arith, tt))

-- Scheduling always takes the new rebroadcast in, at the end of the queue, which keeps its bound of
-- `queue_size`: the others stay, but that a full queue loses one.
pub enqueue_rebroadcast_takes :
    (entry : PendingRebroadcast) (q : List PendingRebroadcast)
    → length q ≤ queue_size
    → enqueue_rebroadcast entry q
      ≡ (if ltb (length q) queue_size then q else room_in q) ++ (entry ∷ [])
unfolding enqueue_rebroadcast push
enqueue_rebroadcast_takes entry q h = ground (arith, length-room_in q)

-- An echo of our own packet takes the packet off the queue of those that wait for an
-- acknowledgement, and no other, when their ids differ.
find-implicit_ack :
    (m packet_id : ℕ) (pending : List PendingPacket)
    → Distinct (λ p. p.packet_id) pending
    → find (λ p. p.packet_id == m) (implicit_ack packet_id pending)
      ≡ (if packet_id == m then none else find (λ p. p.packet_id == m) pending)
unfolding implicit_ack
find-implicit_ack m packet_id pending d =
    elim (Option-cases (position (λ p. p.packet_id == packet_id) pending)) [
      | inl unknown ↦ ground (
        arith,
        unknown,
        is_some-position_from 0 (λ p. p.packet_id == packet_id) pending,
        is_some-find (λ p. p.packet_id == packet_id) pending,
        ==_iff packet_id m,
      )
      | inr (k, found) ↦
          rw (found, implicit_ack)
            (find-swap_remove (λ p. p.packet_id) m packet_id k pending d found).1
    ]
