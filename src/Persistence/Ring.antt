-- ===== src/Persistence/Ring.antt =====
-- The round trips of the message ring's header and of a slot's prefix.
use meshtastenstein_rs.Base.{
  ℕ, ◌≡◌, ◌≤◌, ◌<◌, ap, ◌∙◌, Bool, ◌||◌, ◌&&◌, none, some, List, [], ◌∷◌, ltb, leb, if◌then◌else◌,
  length, replicate, slice, length-replicate, to_le, from_le, from_le-to_le, write_fields,
  read_back, arith,
}
use meshtastenstein_rs.Persistence.{
  read_u32, ring_header_size, ring_magic, RingHeader, encode_ring_header, decode_ring_header,
  encode_ring_slot_prefix, decode_ring_slot_prefix,
}

checked {ℓ} :
    {A : Type ℓ}
    → (head tail count capacity : ℕ) (h : A)
    → (if leb capacity head || (leb capacity tail || ltb capacity count) then none else some h)
      ≡ (if ltb head capacity && (ltb tail capacity && leb count capacity) then some h else none)
checked head tail count capacity h = ground arith

-- A header is read back when it lies within the capacity, and refused otherwise.
pub decode_ring_header-encode_ring_header :
    (h : RingHeader) (capacity : ℕ)
    → h.head < 4294967296
    → h.tail < 4294967296
    → h.count < 4294967296
    → decode_ring_header (encode_ring_header h) capacity ≡ (
        if ltb h.head capacity && (ltb h.tail capacity && leb h.count capacity)
        then some h
        else none)
unfolding decode_ring_header encode_ring_header read_u32
decode_ring_header-encode_ring_header h capacity a b c =
    let fields : List (ℕ × List ℕ) =
      (0, to_le 4 ring_magic)
      ∷ (4, to_le 4 h.head)
      ∷ (8, to_le 4 h.tail)
      ∷ (12, to_le 4 h.count)
      ∷ [] in
    let w : List ℕ = write_fields fields (replicate ring_header_size 255) in
    let r =
      read_back 0 fields (replicate ring_header_size 255)
        (ground (arith, length-replicate {A = ℕ} ring_header_size 255)) in
    let magic : from_le (slice 0 4 w) ≡ ring_magic = ap from_le r.0 in
    let head : from_le (slice 4 8 w) ≡ h.head = ap from_le r.1.0 ∙ from_le-to_le 4 h.head a in
    let tail : from_le (slice 8 12 w) ≡ h.tail = ap from_le r.1.1.0 ∙ from_le-to_le 4 h.tail b in
    let count : from_le (slice 12 16 w) ≡ h.count =
      ap from_le r.1.1.1.0 ∙ from_le-to_le 4 h.count c in
    rw (magic, head, tail, count, checked h.head h.tail h.count capacity h)

-- The flag and the length of a slot are read back.
pub decode_ring_slot_prefix-encode_ring_slot_prefix :
    (buf : List ℕ) (valid : Bool) (len : ℕ)
    → 2 ≤ length buf
    → len < 256
    → decode_ring_slot_prefix (encode_ring_slot_prefix buf valid len) ≡ (valid, len)
unfolding decode_ring_slot_prefix encode_ring_slot_prefix
decode_ring_slot_prefix-encode_ring_slot_prefix [] valid len h k = absurd (omega arith)
decode_ring_slot_prefix-encode_ring_slot_prefix (b ∷ []) valid len h k = absurd (omega arith)
decode_ring_slot_prefix-encode_ring_slot_prefix (b ∷ c ∷ bs) valid len h k = ground arith
