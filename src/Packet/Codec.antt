-- ===== src/Packet/Codec.antt =====
-- `PacketHeader::encode` and `PacketHeader::decode` of packet.rs.
use meshtastenstein_rs.Base.{
  ℕ, ◌<◌, ◌≤◌, ◌≡◌, refl, ap, none, some, List, [], ◌∷◌, ◌++◌, length, to_le, from_le, byte_range,
  from_le-to_le, IsByte, All, take, unwrap_or, arith,
}
use mathlib.Core.Path.{subst}
use meshtastenstein_rs.Packet.{Header, header_size, encode, decode}

-- The fields are what the Rust types can hold: three `u32` and four `u8`.
pub record IsHeader (h : Header) : Type 0 where
  pub destination_u32 : h.destination < byte_range 4
  pub sender_u32 : h.sender < byte_range 4
  pub packet_id_u32 : h.packet_id < byte_range 4
  pub flags_u8 : h.flags < 256
  pub channel_index_u8 : h.channel_index < 256
  pub next_hop_u8 : h.next_hop < 256
  pub relay_node_u8 : h.relay_node < 256

pub length-encode : (h : Header) → length (encode h) ≡ header_size
unfolding encode
length-encode h = refl

-- Decoding the encoding of a header, whatever bytes follow it, gives the header back.
pub decode-encode : (h : Header) (rest : List ℕ) → IsHeader h → decode (encode h ++ rest) ≡ some h
unfolding encode decode
decode-encode h rest v = rw (
  from_le-to_le 4 h.destination v.destination_u32,
  from_le-to_le 4 h.sender v.sender_u32,
  from_le-to_le 4 h.packet_id v.packet_id_u32,
)

to_le-from_le :
    (a b c d : ℕ)
    → a < 256
    → b < 256
    → c < 256
    → d < 256
    → to_le 4 (from_le (a ∷ b ∷ c ∷ d ∷ [])) ≡ a ∷ b ∷ c ∷ d ∷ []
to_le-from_le a b c d ha hb hc hd = ground arith

-- `decode` refuses exactly the buffers shorter than a header.
pub decode-length :
    (buf : List ℕ)
    → (length buf < header_size → decode buf ≡ none)
      × (header_size ≤ length buf → (h : Header) × (decode buf ≡ some h))
unfolding decode
decode-length (d0 ∷ d1 ∷ d2 ∷ d3 ∷ s0 ∷ s1 ∷ s2 ∷ s3 ∷ p0 ∷ p1 ∷ p2 ∷ p3 ∷ f ∷ c ∷ n ∷ r ∷ rest) =
    (λ short. absurd (omega arith), λ _. (_, refl))
decode-length _ = (λ _. refl, λ enough. absurd (omega arith))

-- Encoding what `decode` read gives the first sixteen bytes of the buffer back, and the header read
-- from bytes has fields in range.
pub encode-decode :
    (buf : List ℕ) (h : Header)
    → All IsByte buf
    → decode buf ≡ some h
    → (encode h ≡ take header_size buf) × IsHeader h
unfolding decode encode
encode-decode (d0 ∷ d1 ∷ d2 ∷ d3 ∷ s0 ∷ s1 ∷ s2 ∷ s3 ∷ p0 ∷ p1 ∷ p2 ∷ p3 ∷ f ∷ c ∷ n ∷ r ∷ rest) h b
      e =
    subst
      (λ x.
        (encode x ≡ d0 ∷ d1 ∷ d2 ∷ d3 ∷ s0 ∷ s1 ∷ s2 ∷ s3 ∷ p0 ∷ p1 ∷ p2 ∷ p3 ∷ f ∷ c ∷ n ∷ r ∷ [])
        × IsHeader x)
      (ap (λ o. unwrap_or o h) e)
      (
        λ i.
            to_le-from_le d0 d1 d2 d3 (omega arith) (omega arith) (omega arith) (omega arith) i
            ++ (to_le-from_le s0 s1 s2 s3 (omega arith) (omega arith) (omega arith) (omega arith) i
                ++ (to_le-from_le p0 p1 p2 p3 (omega arith) (omega arith) (omega arith)
                      (omega arith) i
                    ++ (f ∷ c ∷ n ∷ r ∷ []))),
        omega arith,
      )
encode-decode _ h b e = absurd (cc e)
