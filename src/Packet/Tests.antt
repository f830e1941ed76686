-- ===== src/Packet/Tests.antt =====
-- Runs of packet.rs on the sample header of its unit tests, and its theorems at concrete inputs.
use meshtastenstein_rs.Base.{
  ℕ, ◌≡◌, refl, true, false, some, List, [], ◌∷◌, ◌++◌, arith, replicate, take,
}
use meshtastenstein_rs.Packet.{
  Header, RadioFrame, make_flags, encode, decode, from_parts, frame_header, payload, as_bytes,
}
use meshtastenstein_rs.Packet.Codec.{IsHeader, decode-encode}
use meshtastenstein_rs.Packet.Frame.{IsFrame, built, from_parts_reads}

abbrev sample : Header
sample = record {
  destination = 0xAABBCCDD;
  sender = 0x11223344;
  packet_id = 0xDEADBEEF;
  flags = 0x6D;
  channel_index = 2;
  next_hop = 0;
  relay_node = 0;
}

sample-IsHeader : IsHeader sample
sample-IsHeader = omega arith

sample_flags : make_flags true false 5 3 ≡ 0x6D
unfolding make_flags
sample_flags = refl

sample_bytes : take 5 (encode sample) ≡ 0xDD ∷ 0xCC ∷ 0xBB ∷ 0xAA ∷ 0x44 ∷ []
unfolding encode
sample_bytes = refl

decode-encode_example : decode (encode sample ++ (1 ∷ [])) ≡ some sample
decode-encode_example = decode-encode sample (1 ∷ []) sample-IsHeader

abbrev sixteen : List ℕ
sixteen = 1 ∷ 0 ∷ 0 ∷ 0 ∷ 2 ∷ 0 ∷ 0 ∷ 0 ∷ 3 ∷ 0 ∷ 0 ∷ 0 ∷ 0x63 ∷ 8 ∷ 0 ∷ 7 ∷ []

abbrev sixteen_header : Header
sixteen_header = record {
  destination = 1;
  sender = 2;
  packet_id = 3;
  flags = 0x63;
  channel_index = 8;
  next_hop = 0;
  relay_node = 7;
}

-- a header and two bytes of payload
abbrev frame : RadioFrame
frame = built sample (7 ∷ 8 ∷ [])

from_parts-frame : from_parts sample (7 ∷ 8 ∷ []) ≡ some frame
unfolding from_parts encode
from_parts-frame = refl

from_parts_reads_example :
    IsFrame frame
    × (frame_header frame ≡ some sample)
    × (payload frame ≡ 7 ∷ 8 ∷ [])
    × (as_bytes frame ≡ encode sample ++ (7 ∷ 8 ∷ []))
from_parts_reads_example =
    from_parts_reads sample (7 ∷ 8 ∷ []) frame sample-IsHeader from_parts-frame

abbrev raw_frame : RadioFrame
raw_frame = record { bytes = sixteen ++ replicate 239 0; len = 16 }
