-- ===== src/Storage/Drain.antt =====
-- Taking messages out of the buffer.
use meshtastenstein_rs.Base.{
  ℕ, zero, suc, ◌+◌, ◌-◌, ◌%◌, ◌≡◌, ◌<◌, refl, ap, sym, subst, ◌∙◌, true, false, ◌⊎◌, inl, inr,
  Option, none, some, List, [], ◌∷◌, map, ◌==◌, if◌then◌else◌, length, get_or, set, take, drop,
  replicate, splice, length-set, length-take, length-map, get_or-All, All, All-set, take_all-append,
  length-replicate, arith,
}
use meshtastenstein_rs.Packet.{RadioFrame, max_lora_payload_len}
use meshtastenstein_rs.Storage.{
  StorageError, Flash, max_buffered_messages, CachedSlot, empty_slot, NvsStorage, persist_header,
  persist_slot, init_empty, peek, drop_oldest, pop, clear,
}
use meshtastenstein_rs.Storage.Fifo.{
  window, message, IsGoodSlot, IsRingBuffer, queue, length-window, window-set, length-queue,
}

not_zero : (n k : ℕ) → n ≡ suc k → (n == 0) ≡ false
not_zero n k e = ground arith

-- `count` is zero or a successor
count_cases : (n : ℕ) → (n ≡ 0) ⊎ ((k : ℕ) × (n ≡ suc k))
count_cases zero = inl refl
count_cases (suc k) = inr (k, refl)

-- the frame that holds a message
unfoldable pub frame_of : List ℕ → RadioFrame
frame_of m = record { bytes = splice 0 m (replicate max_lora_payload_len 0); len = length m }

-- what the head of a queue is as an answer
unfoldable pub answer : List (List ℕ) → StorageError ⊎ Option RadioFrame
answer [] = inr none
answer (m ∷ q) = inr (some (frame_of m))

module _ {F : Type 0} where
  -- a ring that is not empty begins with the message of its oldest slot
  queue_nonempty :
      (st : NvsStorage F) (k : ℕ)
      → st.count ≡ suc k
      → queue st
        ≡ message (get_or st.slots st.tail empty_slot)
          ∷ map message (window k ((st.tail + 1) % max_buffered_messages) st.slots)
  unfolding queue window
  queue_nonempty st k e = ap (λ n. map message (window n st.tail st.slots)) e

  oldest_good :
      (st : NvsStorage F) (k : ℕ)
      → IsRingBuffer st
      → st.count ≡ suc k
      → IsGoodSlot (get_or st.slots st.tail empty_slot)
  unfolding IsRingBuffer window
  oldest_good st k h e = (subst (λ n. All IsGoodSlot (window n st.tail st.slots)) e h.5).0

  drop_oldest-IsRingBuffer :
      (st : NvsStorage F) (k : ℕ)
      → IsRingBuffer st
      → st.count ≡ suc k
      → IsRingBuffer (drop_oldest st) × (queue (drop_oldest st) ≡ drop 1 (queue st))
  unfolding IsRingBuffer drop_oldest queue window
  drop_oldest-IsRingBuffer st k h e =
      let next : ℕ = (st.tail + 1) % max_buffered_messages in
      let old : CachedSlot = get_or st.slots st.tail empty_slot in
      let gone : CachedSlot = record old { valid = false } in
      let less : st.count - 1 ≡ k = omega (arith, e) in
      let fits : st.tail < length st.slots = omega (arith, h.0, h.3) in
      let same : window k next (set st.slots st.tail gone) ≡ window k next st.slots =
        window-set k next st.tail 9 gone st.slots (omega arith) (omega (arith, h.0))
          (omega (arith, h.1, e)) (omega arith) in
      let now : window (st.count - 1) next (set st.slots st.tail gone) ≡ window k next st.slots =
        ap (λ n. window n next (set st.slots st.tail gone)) less ∙ same in
      let good : All IsGoodSlot (window (suc k) st.tail st.slots) =
        subst (λ n. All IsGoodSlot (window n st.tail st.slots)) e h.5 in
      (
        (
          omega arith,
          omega (arith, h.1),
          omega (arith, h.0, h.1, h.2, e),
          length-set st.slots st.tail gone ∙ h.3,
          All-set _ st.slots st.tail gone h.4 (get_or-All _ st.slots st.tail empty_slot h.4 fits),
          subst (All IsGoodSlot) (sym now) good.1,
        ),
        ap (map message) now ∙ sym (ap (drop 1) (queue_nonempty st k e)),
      )

  peek_oldest :
      (st : NvsStorage F) (k : ℕ) → IsRingBuffer st → st.count ≡ suc k → peek st ≡ answer (queue st)
  unfolding peek answer frame_of message IsGoodSlot
  peek_oldest st k h e =
      let old : CachedSlot = get_or st.slots st.tail empty_slot in
      let good : IsGoodSlot old = oldest_good st k h e in
      let used : (st.count == 0) ≡ false = not_zero st.count k e in
      let width : length (take old.len old.data_bytes) ≡ old.len =
        omega (arith, good.1, good.2, length-take old.len old.data_bytes) in
      rw (used, good.0, queue_nonempty st k e, width)

zero_is : (n : ℕ) → n ≡ 0 → (n == 0) ≡ true
zero_is n e = ground arith

frame_of_message : (m : List ℕ) → take (frame_of m).len (frame_of m).bytes ≡ m
unfolding frame_of
frame_of_message m =
    take_all-append m (drop (0 + length m) (replicate max_lora_payload_len 0)) (length m) refl

All-empty : (n : ℕ) → All (λ s. length s.data_bytes ≡ max_lora_payload_len) (replicate n empty_slot)
unfolding replicate empty_slot
All-empty zero = tt
All-empty (suc n) = (length-replicate {A = ℕ} max_lora_payload_len 0, All-empty n)

module _ {F : Type 0} where
  -- writing to flash leaves the ring in memory as it is
  persisted_ring :
      (nor : Flash F) (i : ℕ) (st : NvsStorage F)
      → IsRingBuffer st
      → IsRingBuffer (persist_header nor (persist_slot nor i st))
  unfolding persist_header persist_slot IsRingBuffer
  persisted_ring nor i st h = h

  persisted_queue :
      (nor : Flash F) (i : ℕ) (st : NvsStorage F)
      → queue (persist_header nor (persist_slot nor i st)) ≡ queue st
  unfolding persist_header persist_slot queue
  persisted_queue nor i st = refl

  empty_queue : (st : NvsStorage F) → st.count ≡ 0 → queue st ≡ []
  unfolding queue window
  empty_queue st e = ap (λ n. map message (window n st.tail st.slots)) e

  -- Looking gives the oldest message of the queue, nothing when the queue is empty, and never an
  -- error.
  pub peek-queue : (st : NvsStorage F) → IsRingBuffer st → peek st ≡ answer (queue st)
  unfolding peek answer
  peek-queue st h = elim (count_cases st.count) [
    | inl none_left ↦ peek_empty st none_left
    | inr (k, e) ↦ peek_oldest st k h e
  ]
    where
      peek_empty : (s : NvsStorage F) → s.count ≡ 0 → peek s ≡ answer (queue s)
      peek_empty s e = rw (empty_queue s e, e)

  -- Removing takes the oldest message off the queue and keeps the ring well formed; on an empty
  -- queue it is refused and nothing changes.
  pub queue-pop :
      (nor : Flash F) (st : NvsStorage F)
      → IsRingBuffer st
      → IsRingBuffer (pop nor st).0
        × (queue (pop nor st).0 ≡ drop 1 (queue st))
        × ((pop nor st).1 ≡ (if length (queue st) == 0 then some StorageError.empty else none))
  unfolding pop
  queue-pop nor st h = elim (count_cases st.count) [
    | inl none_left ↦
        let nothing = empty_queue st none_left in
        let is_zero : (st.count == 0) ≡ true = zero_is st.count none_left in
        rw (is_zero, nothing) (h, refl, refl)
    | inr (k, e) ↦
        let left = drop_oldest-IsRingBuffer st k h e in
        let some_left : (st.count == 0) ≡ false = not_zero st.count k e in
        let some_queued : (length (queue st) == 0) ≡ false =
          not_zero (length (queue st)) k (length-queue st ∙ e) in
        rw (some_left, some_queued)
          (
            persisted_ring nor st.tail (drop_oldest st) left.0,
            persisted_queue nor st.tail (drop_oldest st) ∙ left.1,
            refl,
          )
  ]

  -- what a consumer that looks and then removes is handed, `n` times at most
  drain : Flash F → ℕ → NvsStorage F → List (List ℕ)
  drain nor zero st = []
  drain nor (suc n) st = elim (peek st) [
    | inl e ↦ []
    | inr none ↦ []
    | inr (some frame) ↦ take frame.len frame.bytes ∷ drain nor n (pop nor st).0
  ]

  drain_all :
      (nor : Flash F) (n : ℕ) (st : NvsStorage F)
      → IsRingBuffer st
      → st.count ≡ n
      → drain nor n st ≡ queue st
  unfolding drain answer
  drain_all nor zero st h e = sym (empty_queue st e)
  drain_all nor (suc k) st h e =
      let m : List ℕ = message (get_or st.slots st.tail empty_slot) in
      let q : List (List ℕ) =
        map message (window k ((st.tail + 1) % max_buffered_messages) st.slots) in
      let split : queue st ≡ m ∷ q = queue_nonempty st k e in
      let found : peek st ≡ inr (some (frame_of m)) = peek-queue st h ∙ ap answer split in
      let step = queue-pop nor st h in
      let rest : drain nor k (pop nor st).0 ≡ q =
        drain_all nor k (pop nor st).0 step.0 (
          sym (length-queue (pop nor st).0)
          ∙ (ap length (step.1 ∙ ap (drop 1) split)
              ∙ (length-map message (window k ((st.tail + 1) % max_buffered_messages) st.slots)
                  ∙ length-window k ((st.tail + 1) % max_buffered_messages) st.slots)))
        ∙ (step.1 ∙ ap (drop 1) split) in
      let payload : take (frame_of m).len (frame_of m).bytes ≡ m = frame_of_message m in
      rw (found, drain) (rw (payload, rest) (sym split))

  -- Every message of the buffer is handed out, in the order of the queue, by as many rounds of
  -- looking and removing as it holds.
  drain-queue :
      (nor : Flash F) (st : NvsStorage F) → IsRingBuffer st → drain nor st.count st ≡ queue st
  drain-queue nor st h = drain_all nor st.count st h refl

  -- A cleared buffer is well formed and its queue is empty.
  pub queue-clear :
      (nor : Flash F) (st : NvsStorage F)
      → IsRingBuffer (clear nor st) × (queue (clear nor st) ≡ [])
  unfolding clear init_empty persist_header IsRingBuffer queue window
  queue-clear nor st = (
    (
      omega arith,
      omega arith,
      omega arith,
      length-replicate max_buffered_messages empty_slot,
      All-empty max_buffered_messages,
      tt,
    ),
    refl,
  )
