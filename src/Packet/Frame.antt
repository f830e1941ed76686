-- ===== src/Packet/Frame.antt =====
-- `RadioFrame` of packet.rs: building, taking apart and rewriting a frame.
use meshtastenstein_rs.Base.{
  ℕ, ◌+◌, ◌-◌, ◌<◌, ◌≤◌, ◌≡◌, refl, ap, sym, ◌∙◌, none, some, List, [], ◌∷◌, ◌++◌, length,
  replicate, take, drop, take_all-append, length-append, length-drop, length-replicate, arith, ltb,
  if◌then◌else◌,
}
use mathlib.Core.List.{append_assoc}
use meshtastenstein_rs.Packet.{
  Header, RadioFrame, header_size, max_lora_payload_len, encode, frame_header, payload, from_parts,
  from_raw, as_bytes, with_rewritten_header, write_header, set_hop_limit,
}
use meshtastenstein_rs.Packet.Flags.{set_hop_limit_reads}
use meshtastenstein_rs.Packet.Codec.{IsHeader, decode-encode, length-encode}

-- The array has its 255 bytes and the length fits it.
pub record IsFrame (f : RadioFrame) : Type 0 where
  pub array : length f.bytes ≡ max_lora_payload_len
  pub fits : f.len ≤ max_lora_payload_len

abbrev pub zeros : List ℕ
zeros = replicate max_lora_payload_len 0

-- What follows the payload in the array.
abbrev pub padding : Header → List ℕ → List ℕ
padding h p = drop (header_size + length p) (encode h ++ drop header_size zeros)

abbrev pub built : Header → List ℕ → RadioFrame
built h p = record { bytes = encode h ++ (p ++ padding h p); len = header_size + length p }

from_parts-built :
    (h : Header) (p : List ℕ)
    → from_parts h p
      ≡ (if ltb max_lora_payload_len (header_size + length p) then none else some (built h p))
unfolding from_parts encode
from_parts-built h p = refl

built-IsFrame :
    (h : Header) (p : List ℕ) → header_size + length p ≤ max_lora_payload_len → IsFrame (built h p)
built-IsFrame h p fits = record {
  array = omega (
    arith,
    length-append (encode h) (p ++ padding h p),
    length-append p (padding h p),
    length-drop (header_size + length p) (encode h ++ drop header_size zeros),
    length-append (encode h) (drop header_size zeros),
    length-drop header_size zeros,
    length-replicate {A = ℕ} max_lora_payload_len 0,
    length-encode h,
  );
  fits = fits;
}

built_header : (h : Header) (p : List ℕ) → IsHeader h → frame_header (built h p) ≡ some h
unfolding frame_header
built_header h p v = ground (arith, decode-encode h (p ++ padding h p) v)

payload-built : (h : Header) (p : List ℕ) → payload (built h p) ≡ p
unfolding payload encode
payload-built h [] = refl
payload-built h (x ∷ p) = ground (
  arith,
  take_all-append (x ∷ p) (padding h (x ∷ p)) (header_size + length (x ∷ p) - header_size)
      (omega arith),
)

as_bytes-built : (h : Header) (p : List ℕ) → as_bytes (built h p) ≡ encode h ++ p
unfolding as_bytes
as_bytes-built h p =
    ap (take (header_size + length p)) (sym (append_assoc (encode h) p (padding h p)))
    ∙ take_all-append (encode h ++ p) (padding h p) (header_size + length p)
        (omega (arith, length-append (encode h) p, length-encode h))

built_of_from_parts :
    (h : Header) (p : List ℕ) (f : RadioFrame)
    → from_parts h p ≡ some f
    → (header_size + length p ≤ max_lora_payload_len) × (f ≡ built h p)
built_of_from_parts h p f e = ground (arith, from_parts-built h p)

pub from_parts_fits :
    (h : Header) (p : List ℕ) (f : RadioFrame)
    → from_parts h p ≡ some f
    → header_size + length p ≤ max_lora_payload_len
from_parts_fits h p f e = (built_of_from_parts h p f e).0

abbrev raw_frame : List ℕ → RadioFrame
raw_frame raw = record { bytes = raw ++ drop (0 + length raw) zeros; len = length raw }

raw_of_from_raw :
    (raw : List ℕ) (f : RadioFrame)
    → from_raw raw ≡ some f
    → (header_size ≤ length raw) × (length raw ≤ max_lora_payload_len) × (f ≡ raw_frame raw)
unfolding from_raw
raw_of_from_raw raw f e = ground arith

raw_frame-IsFrame : (raw : List ℕ) → length raw ≤ max_lora_payload_len → IsFrame (raw_frame raw)
raw_frame-IsFrame raw h = record {
  array = omega (
    arith,
    length-append raw (drop (0 + length raw) zeros),
    length-drop (0 + length raw) zeros,
    length-replicate {A = ℕ} max_lora_payload_len 0,
  );
  fits = h;
}

frame_header_long : (f : RadioFrame) (h : Header) → frame_header f ≡ some h → header_size ≤ f.len
unfolding frame_header
frame_header_long f h e = ground arith

with_rewritten_header-some :
    (limit relay : ℕ) (f : RadioFrame) (h : Header)
    → frame_header f ≡ some h
    → with_rewritten_header limit relay f
      ≡ write_header (record (set_hop_limit limit h) { relay_node = relay }) f
unfolding with_rewritten_header
with_rewritten_header-some limit relay f h e = rw (e, with_rewritten_header)

write_header-IsFrame :
    (h : Header) (f : RadioFrame) → IsFrame f → header_size ≤ f.len → IsFrame (write_header h f)
unfolding write_header encode
write_header-IsFrame h f v long = record {
  array = omega (arith, v.array, v.fits, length-drop header_size f.bytes);
  fits = v.fits;
}

pub write_header_header :
    (h : Header) (f : RadioFrame)
    → IsHeader h
    → header_size ≤ f.len
    → frame_header (write_header h f) ≡ some h
unfolding frame_header write_header
write_header_header h f v long =
    ground (arith, decode-encode h (drop (0 + length (encode h)) f.bytes) v)

pub payload-write_header : (h : Header) (f : RadioFrame) → payload (write_header h f) ≡ payload f
unfolding payload write_header encode
payload-write_header h f = refl

rewritten-IsHeader :
    (limit relay : ℕ) (h : Header)
    → IsHeader h
    → limit < 256
    → relay < 256
    → IsHeader (record (set_hop_limit limit h) { relay_node = relay })
unfolding set_hop_limit
rewritten-IsHeader limit relay h v hl hr =
    let (_, _, _, _, byte, _) = set_hop_limit_reads limit h hl v.flags_u8 in
    record {
      destination_u32 = v.destination_u32;
      sender_u32 = v.sender_u32;
      packet_id_u32 = v.packet_id_u32;
      flags_u8 = byte;
      channel_index_u8 = v.channel_index_u8;
      next_hop_u8 = v.next_hop_u8;
      relay_node_u8 = hr;
    }

-- A frame is built exactly when header and payload fit 255 bytes; it is then well-formed, and its
-- header, its payload and its raw bytes are the ones it was built from.
pub from_parts_reads :
    (h : Header) (p : List ℕ) (f : RadioFrame)
    → IsHeader h
    → from_parts h p ≡ some f
    → IsFrame f × (frame_header f ≡ some h) × (payload f ≡ p) × (as_bytes f ≡ encode h ++ p)
from_parts_reads h p f v e =
    let (fits, is_built) = built_of_from_parts h p f e in
    rw is_built (built-IsFrame h p fits, built_header h p v, payload-built h p, as_bytes-built h p)

pub from_parts_refuses :
    (h : Header) (p : List ℕ)
    → (max_lora_payload_len < header_size + length p → from_parts h p ≡ none)
      × (header_size + length p ≤ max_lora_payload_len
          → (f : RadioFrame) × (from_parts h p ≡ some f))
from_parts_refuses h p = (
  λ long. ground (arith, from_parts-built h p),
  λ fits. (built h p, ground (arith, from_parts-built h p)),
)

-- A frame taken from raw bytes is accepted exactly from 16 to 255 bytes, is then well-formed, and
-- transmits those same bytes.
pub from_raw_reads :
    (raw : List ℕ) (f : RadioFrame)
    → from_raw raw ≡ some f
    → IsFrame f
      × (as_bytes f ≡ raw)
      × (header_size ≤ length raw)
      × (length raw ≤ max_lora_payload_len)
unfolding as_bytes
from_raw_reads raw f e =
    let (low, high, is_raw) = raw_of_from_raw raw f e in
    rw is_raw (raw_frame-IsFrame raw high, take_all-append raw _ (length raw) refl, low, high)

-- Rewriting the header of a well-formed frame keeps the length and the payload; the header then
-- read back is the old one with its hop limit set and its relay replaced.
pub with_rewritten_header_reads :
    (limit relay : ℕ) (f : RadioFrame) (h : Header)
    → IsFrame f
    → frame_header f ≡ some h
    → IsHeader h
    → limit < 256
    → relay < 256
    → let f' = with_rewritten_header limit relay f in
      IsFrame f'
      × (f'.len ≡ f.len)
      × (frame_header f' ≡ some (record (set_hop_limit limit h) { relay_node = relay }))
      × (payload f' ≡ payload f)
unfolding write_header
with_rewritten_header_reads limit relay f h v e vh hl hr =
    let new = rewritten-IsHeader limit relay h vh hl hr in
    rw (with_rewritten_header-some limit relay f h e) (
      write_header-IsFrame _ f v (frame_header_long f h e),
      refl,
      write_header_header _ f new (frame_header_long f h e),
      payload-write_header _ f,
    )
