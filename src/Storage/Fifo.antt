-- ===== src/Storage/Fifo.antt =====
-- The buffer of messages as a queue that drops its oldest message when it is full.
use meshtastenstein_rs.Base.{
  ℕ, zero, suc, ◌+◌, ◌-◌, ◌%◌, ◌≡◌, ◌≢◌, ◌≤◌, ◌<◌, refl, ap, sym, subst, ◌∙◌, true, false, inl, inr,
  Bool-cases, List, [], ◌∷◌, ◌++◌, map, leb, if◌then◌else◌, length, get_or, set, take, drop,
  length-set, length-map, length-take, get_or-set_self, get_or-set_ne, take_all-append, All,
  All-append, All-set, get_or-All, map-append, length-splice, arith,
}
use meshtastenstein_rs.Packet.{RadioFrame, max_lora_payload_len}
use meshtastenstein_rs.Packet.Frame.{IsFrame}
use meshtastenstein_rs.Storage.{
  Flash, max_buffered_messages, CachedSlot, empty_slot, NvsStorage, persist_header, persist_slot,
  make_room, filled_slot, put_frame, add,
}

-- the `n` slots from the slot `t` on, around the ring
unfoldable pub window : ℕ → ℕ → List CachedSlot → List CachedSlot
window zero t slots = []
window (suc n) t slots =
    get_or slots t empty_slot ∷ window n ((t + 1) % max_buffered_messages) slots

-- the message of a slot
unfoldable pub message : CachedSlot → List ℕ
message slot = take slot.len slot.data_bytes

unfoldable pub IsGoodSlot : CachedSlot → Type 0
IsGoodSlot slot =
    (slot.valid ≡ true)
    × (slot.len ≤ max_lora_payload_len)
    × (length slot.data_bytes ≡ max_lora_payload_len)

pub length-window : (n t : ℕ) (slots : List CachedSlot) → length (window n t slots) ≡ n
unfolding window
length-window zero t slots = refl
length-window (suc n) t slots = ap suc (length-window n ((t + 1) % max_buffered_messages) slots)

-- a slot that the window does not reach can change
pub window-set :
    (n t h d : ℕ) (v : CachedSlot) (slots : List CachedSlot)
    → t < max_buffered_messages
    → h ≡ (t + d) % max_buffered_messages
    → n ≤ d
    → d < max_buffered_messages
    → window n t (set slots h v) ≡ window n t slots
unfolding window
window-set zero t h d v slots lt e nd dd = refl
window-set (suc n) t h d v slots lt e nd dd =
    let apart : h ≢ t = λ q. absurd (omega (arith, q)) in
    let here : get_or (set slots h v) t empty_slot ≡ get_or slots t empty_slot =
      get_or-set_ne slots h t v empty_slot apart in
    let rest =
      window-set n ((t + 1) % max_buffered_messages) h (d - 1) v slots (omega arith) (omega arith)
        (omega arith) (omega arith) in
    cc

-- the window that is one slot longer
window_last :
    (n t : ℕ) (slots : List CachedSlot)
    → t < max_buffered_messages
    → window (suc n) t slots
      ≡ window n t slots ++ (get_or slots ((t + n) % max_buffered_messages) empty_slot ∷ [])
unfolding window
window_last zero t slots lt = let e : (t + 0) % max_buffered_messages ≡ t = omega arith in rw (e)
window_last (suc n) t slots lt =
    let next : ℕ = (t + 1) % max_buffered_messages in
    let e : (next + n) % max_buffered_messages ≡ (t + suc n) % max_buffered_messages =
      omega arith in
    ap (λ l. get_or slots t empty_slot ∷ l)
      (window_last n next slots (omega arith)
        ∙ ap (λ i. window n next slots ++ (get_or slots i empty_slot ∷ [])) e)

module _ {F : Type 0} where
  -- The indices are in range and agree with the count, and the slots in use hold messages.
  unfoldable pub IsRingBuffer : NvsStorage F → Type 0
  IsRingBuffer st =
      (st.tail < max_buffered_messages)
      × (st.count ≤ max_buffered_messages)
      × (st.head ≡ (st.tail + st.count) % max_buffered_messages)
      × (length st.slots ≡ max_buffered_messages)
      × All (λ s. length s.data_bytes ≡ max_lora_payload_len) st.slots
      × All IsGoodSlot (window st.count st.tail st.slots)

  -- the messages, the oldest first
  unfoldable pub queue : NvsStorage F → List (List ℕ)
  queue st = map message (window st.count st.tail st.slots)

-- a queue that holds so many messages: the oldest makes room for a new one
unfoldable pub push_bounded {ℓ} : {A : Type ℓ} → List A → A → List A
push_bounded q m = (if leb max_buffered_messages (length q) then drop 1 q else q) ++ (m ∷ [])

reached : (n : ℕ) → n ≡ 10 → leb max_buffered_messages n ≡ true
reached n h = ground arith

reached_back : (n : ℕ) → leb max_buffered_messages n ≡ true → n ≤ max_buffered_messages → n ≡ 10
reached_back n h k = ground arith

below : (n : ℕ) → leb max_buffered_messages n ≡ false → n < max_buffered_messages
below n h = ground arith

module _ {F : Type 0} where
  -- a ring in which there is room, and that queues what `st` would after dropping its oldest
  -- message
  HasRoom : NvsStorage F → NvsStorage F → Type 0
  HasRoom st new =
      IsRingBuffer new
      × (new.count < max_buffered_messages)
      × ((m : List ℕ) → queue new ++ (m ∷ []) ≡ push_bounded (queue st) m)

  pub length-queue : (st : NvsStorage F) → length (queue st) ≡ st.count
  unfolding queue
  length-queue st =
      length-map message (window st.count st.tail st.slots)
      ∙ length-window st.count st.tail st.slots

  full_room :
      (st : NvsStorage F)
      → IsRingBuffer st
      → st.count ≡ 10
      → HasRoom st
          (record st { tail = (st.tail + 1) % max_buffered_messages; count = st.count - 1 })
  unfolding IsRingBuffer HasRoom push_bounded queue window
  full_room st h is_full =
      let next : ℕ = (st.tail + 1) % max_buffered_messages in
      let less : 9 ≡ st.count - 1 = omega (arith, is_full) in
      let good : All IsGoodSlot (window 10 st.tail st.slots) =
        subst (λ n. All IsGoodSlot (window n st.tail st.slots)) is_full h.5 in
      let rest : drop 1 (queue st) ≡ map message (window (st.count - 1) next st.slots) =
        ap (λ n. drop 1 (map message (window n st.tail st.slots))) is_full
        ∙ ap (λ n. map message (window n next st.slots)) less in
      let long : leb max_buffered_messages (length (queue st)) ≡ true =
        reached (length (queue st)) (length-queue st ∙ is_full) in
      (
        (
          omega arith,
          omega (arith, h.1),
          omega (arith, h.2, is_full),
          h.3,
          h.4,
          subst (λ n. All IsGoodSlot (window n next st.slots)) less good.1,
        ),
        omega (arith, is_full),
        λ m. rw (long) (ap (λ q. q ++ (m ∷ [])) (sym rest)),
      )

  make_room-HasRoom : (st : NvsStorage F) → IsRingBuffer st → HasRoom st (make_room st)
  unfolding make_room HasRoom push_bounded IsRingBuffer
  make_room-HasRoom st h = elim (Bool-cases (leb max_buffered_messages st.count)) [
    | inl is_full ↦ rw (is_full) (full_room st h (reached_back st.count is_full h.1))
    | inr has_room ↦
        let short : leb max_buffered_messages (length (queue st)) ≡ false =
          ap (leb max_buffered_messages) (length-queue st) ∙ has_room in
        rw (has_room) (h, below st.count has_room, λ m. rw (short))
  ]

filled_slot-IsGoodSlot :
    (frame : RadioFrame) (old : CachedSlot)
    → IsFrame frame
    → length old.data_bytes ≡ max_lora_payload_len
    → IsGoodSlot (filled_slot frame old)
      × (message (filled_slot frame old) ≡ take frame.len frame.bytes)
unfolding IsGoodSlot message filled_slot
filled_slot-IsGoodSlot frame old f size =
    let src : List ℕ = take frame.len frame.bytes in
    let width : length src ≡ frame.len =
      omega (arith, f.fits, f.array, length-take frame.len frame.bytes) in
    (
      (
        refl,
        f.fits,
        length-splice 0 src old.data_bytes (omega (arith, f.fits, width, size)) ∙ size,
      ),
      take_all-append src (drop (0 + length src) old.data_bytes) frame.len (sym width),
    )

module _ {F : Type 0} where
  put_frame-IsRingBuffer :
      (frame : RadioFrame) (st : NvsStorage F)
      → IsFrame frame
      → IsRingBuffer st
      → st.count < max_buffered_messages
      → IsRingBuffer (put_frame frame st)
        × (queue (put_frame frame st) ≡ queue st ++ (take frame.len frame.bytes ∷ []))
  unfolding put_frame IsRingBuffer queue IsGoodSlot
  put_frame-IsRingBuffer frame st f h room =
      let old : CachedSlot = get_or st.slots st.head empty_slot in
      let v : CachedSlot = filled_slot frame old in
      let slots : List CachedSlot = set st.slots st.head v in
      let fits : st.head < length st.slots = omega (arith, h.2, h.3) in
      let same : window st.count st.tail slots ≡ window st.count st.tail st.slots =
        window-set st.count st.tail st.head st.count v st.slots h.0 h.2 (omega arith) room in
      let longer : window (suc st.count) st.tail slots
          ≡ window st.count st.tail st.slots ++ (v ∷ []) =
        window_last st.count st.tail slots h.0
        ∙ (ap
              (λ l.
                l ++ (get_or slots ((st.tail + st.count) % max_buffered_messages) empty_slot ∷ []))
              same
            ∙ ap (λ x. window st.count st.tail st.slots ++ (x ∷ []))
                (ap (λ i. get_or slots i empty_slot) (sym h.2)
                  ∙ get_or-set_self st.slots st.head v empty_slot fits)) in
      let count_is : suc st.count ≡ st.count + 1 = omega arith in
      let old_size : length old.data_bytes ≡ max_lora_payload_len =
        get_or-All _ st.slots st.head empty_slot h.4 fits in
      let good = filled_slot-IsGoodSlot frame old f old_size in
      let now : window (st.count + 1) st.tail slots ≡ window st.count st.tail st.slots ++ (v ∷ []) =
        ap (λ n. window n st.tail slots) (sym count_is) ∙ longer in
      (
        (
          h.0,
          omega (arith, room),
          omega (arith, h.2),
          length-set st.slots st.head v ∙ h.3,
          All-set _ st.slots st.head v h.4 good.0.2,
          subst (All IsGoodSlot) (sym now)
              (All-append IsGoodSlot (window st.count st.tail st.slots) (v ∷ []) h.5 (good.0, tt)),
        ),
        ap (map message) now
            ∙ (map-append message (window st.count st.tail st.slots) (v ∷ [])
                ∙ ap (λ m. map message (window st.count st.tail st.slots) ++ (m ∷ [])) good.1),
      )

  -- Adding a message keeps the ring well formed and queues the message last; a full queue drops its
  -- oldest message first.
  pub queue-add :
      (nor : Flash F) (frame : RadioFrame) (st : NvsStorage F)
      → IsFrame frame
      → IsRingBuffer st
      → IsRingBuffer (add nor frame st)
        × (queue (add nor frame st) ≡ push_bounded (queue st) (take frame.len frame.bytes))
  unfolding add persist_header persist_slot HasRoom IsRingBuffer queue
  queue-add nor frame st f h =
      let room = make_room-HasRoom st h in
      let put = put_frame-IsRingBuffer frame (make_room st) f room.0 room.1 in
      (put.0, put.1 ∙ room.2 (take frame.len frame.bytes))
