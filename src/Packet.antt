-- ===== src/Packet.antt =====
-- meshtastenstein-core/src/domain/packet.rs: the 16-byte over-the-air header, its flags byte, and
-- the radio frame. A `u8` or `u32` is a number below 2 ^ 8 or 2 ^ 32 (`IsHeader` in Packet/Codec).
pub mod Flags
pub mod Codec
pub mod Frame
mod Tests
use meshtastenstein_rs.Base.{
  ℕ, ◌+◌, ◌%◌, ◌^◌, ◌<◌, bit_and, bit_or, Bool, true, false, ◌||◌, not, Option, none, some, List,
  [], ◌∷◌, ◌++◌, ◌==◌, ltb, leb, if◌then◌else◌, length, take, drop, splice, slice, replicate, to_le,
  from_le, shr, shl8,
}

abbrev pub header_size : ℕ
header_size = 16

-- constants.rs
abbrev pub max_lora_payload_len : ℕ
max_lora_payload_len = 255

abbrev pub broadcast_addr : ℕ
broadcast_addr = 0xFFFFFFFF

abbrev pub flags_hop_limit_mask : ℕ
flags_hop_limit_mask = 0x07

abbrev pub flags_hop_limit_clear : ℕ
flags_hop_limit_clear = 0b11111000

abbrev pub flags_want_ack_bit : ℕ
flags_want_ack_bit = 0x08

abbrev pub flags_via_mqtt_bit : ℕ
flags_via_mqtt_bit = 0x10

abbrev pub flags_hop_start_shift : ℕ
flags_hop_start_shift = 5

abbrev pub flags_hop_start_mask : ℕ
flags_hop_start_mask = 0x07

-- `PacketHeader`
pub record Header : Type 0 where
  pub destination : ℕ
  pub sender : ℕ
  pub packet_id : ℕ
  pub flags : ℕ
  pub channel_index : ℕ
  pub next_hop : ℕ
  pub relay_node : ℕ

unfoldable pub hop_limit : Header → ℕ
hop_limit h = bit_and (shr h.flags 0) flags_hop_limit_mask

unfoldable pub hop_start : Header → ℕ
hop_start h = bit_and (shr h.flags flags_hop_start_shift) flags_hop_start_mask

unfoldable pub want_ack : Header → Bool
want_ack h = not (bit_and h.flags flags_want_ack_bit == 0)

unfoldable pub via_mqtt : Header → Bool
via_mqtt h = not (bit_and h.flags flags_via_mqtt_bit == 0)

unfoldable pub set_hop_limit : ℕ → Header → Header
set_hop_limit limit h = record h {
  flags =
      bit_or (bit_and h.flags flags_hop_limit_clear) (shl8 (bit_and limit flags_hop_limit_mask) 0);
}

unfoldable pub make_flags : Bool → Bool → ℕ → ℕ → ℕ
make_flags want via limit start =
    let f0 = if want then bit_or 0 flags_want_ack_bit else 0 in
    let f1 = if via then bit_or f0 flags_via_mqtt_bit else f0 in
    let f2 = bit_or f1 (shl8 (bit_and limit flags_hop_limit_mask) 0) in
    bit_or f2 (shl8 (bit_and start flags_hop_start_mask) flags_hop_start_shift)

-- The sixteen bytes in buffer order: offsets 0, 4, 8, 12, 13, 14 and 15.
unfoldable pub encode : Header → List ℕ
encode h =
    to_le 4 h.destination
    ++ (to_le 4 h.sender
        ++ (to_le 4 h.packet_id ++ (h.flags ∷ h.channel_index ∷ h.next_hop ∷ h.relay_node ∷ [])))

unfoldable pub decode : List ℕ → Option Header
decode (d0 ∷ d1 ∷ d2 ∷ d3 ∷ s0 ∷ s1 ∷ s2 ∷ s3 ∷ p0 ∷ p1 ∷ p2 ∷ p3 ∷ f ∷ c ∷ n ∷ r ∷ rest) =
    some (record {
      destination = from_le (d0 ∷ d1 ∷ d2 ∷ d3 ∷ []);
      sender = from_le (s0 ∷ s1 ∷ s2 ∷ s3 ∷ []);
      packet_id = from_le (p0 ∷ p1 ∷ p2 ∷ p3 ∷ []);
      flags = f;
      channel_index = c;
      next_hop = n;
      relay_node = r;
    })
decode _ = none

unfoldable pub is_for_us : ℕ → Header → Bool
is_for_us our_node_num h = h.destination == our_node_num || h.destination == broadcast_addr

-- `RadioFrame`: `bytes` is the field `data`, an array of 255 bytes
pub record RadioFrame : Type 0 where
  pub bytes : List ℕ
  pub len : ℕ

unfoldable pub new_frame : RadioFrame
new_frame = record { bytes = replicate max_lora_payload_len 0; len = 0 }

unfoldable pub frame_header : RadioFrame → Option Header
frame_header f = if leb header_size f.len then decode f.bytes else none

unfoldable pub payload : RadioFrame → List ℕ
payload f = if ltb header_size f.len then slice header_size f.len f.bytes else []

unfoldable pub from_parts : Header → List ℕ → Option RadioFrame
unfolding new_frame
from_parts h encrypted =
    let total_len = header_size + length encrypted in
    let with_header = splice 0 (encode h) new_frame.bytes in
    if ltb max_lora_payload_len total_len
    then none
    else some (record { bytes = splice header_size encrypted with_header; len = total_len })

unfoldable pub from_raw : List ℕ → Option RadioFrame
unfolding new_frame
from_raw raw =
    if ltb (length raw) header_size || ltb max_lora_payload_len (length raw)
    then none
    else some (record { bytes = splice 0 raw new_frame.bytes; len = length raw })

unfoldable pub as_bytes : RadioFrame → List ℕ
as_bytes f = take f.len f.bytes

-- `hdr.encode(&mut buf); frame.data[..HEADER_SIZE].copy_from_slice(&buf)`
unfoldable pub write_header : Header → RadioFrame → RadioFrame
write_header h f = record f { bytes = splice 0 (encode h) f.bytes }

unfoldable pub with_rewritten_header : ℕ → ℕ → RadioFrame → RadioFrame
with_rewritten_header limit relay f = elim (frame_header f) [
  | none ↦ f
  | some h ↦ write_header (record (set_hop_limit limit h) { relay_node = relay }) f
]
