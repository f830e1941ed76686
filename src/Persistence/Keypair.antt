-- ===== src/Persistence/Keypair.antt =====
-- The round trips of the bond header and of the key pair of persistence.rs.
use meshtastenstein_rs.Base.{
  ℕ, ◌+◌, ◌≡◌, ap, sym, ◌∙◌, true, none, some, List, [], ◌∷◌, ◌==◌, if◌then◌else◌, length, get_or,
  replicate, slice, length-replicate, to_le, from_le, all, write_fields, read_back, get_or-slice,
  arith,
}
use meshtastenstein_rs.Persistence.{
  read_u32, bond_size, bond_magic, bond_version, bond_magic_valid, init_bond_header, pkc_blob_size,
  pkc_magic, pkc_version, encode_pkc_keypair, decode_pkc_keypair,
}

-- a bond blob of the right size is valid after its header is written
pub bond_magic_valid-init_bond_header :
    (b : List ℕ) → length b ≡ bond_size → bond_magic_valid (init_bond_header b) ≡ true
unfolding bond_magic_valid init_bond_header read_u32
bond_magic_valid-init_bond_header b size =
    let fields : List (ℕ × List ℕ) = (0, to_le 4 bond_magic) ∷ (4, bond_version ∷ []) ∷ [] in
    let w : List ℕ = write_fields fields b in
    let r = read_back 0 fields b (ground (arith, size)) in
    let magic : from_le (slice 0 4 w) ≡ bond_magic = ap from_le r.0 in
    let version : get_or w 4 0 ≡ bond_version = get_or-slice 4 w bond_version 0 r.1.0 in
    ground (arith, magic, version)

-- A key pair that is read back from the blob is the one that was stored, and an all-zero private
-- key, which stands for a key that was not generated, is not read back.
pub decode_pkc_keypair-encode_pkc_keypair :
    (priv_key pub_key : List ℕ)
    → length priv_key ≡ 32
    → length pub_key ≡ 32
    → decode_pkc_keypair (encode_pkc_keypair priv_key pub_key)
      ≡ (if all (λ b. b == 0) priv_key then none else some (priv_key, pub_key))
unfolding decode_pkc_keypair encode_pkc_keypair read_u32
decode_pkc_keypair-encode_pkc_keypair priv_key pub_key h k =
    let fields : List (ℕ × List ℕ) =
      (0, to_le 4 pkc_magic) ∷ (4, pkc_version ∷ []) ∷ (8, priv_key) ∷ (40, pub_key) ∷ [] in
    let w : List ℕ = write_fields fields (replicate pkc_blob_size 0) in
    let r =
      read_back 0 fields (replicate pkc_blob_size 0)
        (ground (arith, h, k, length-replicate {A = ℕ} pkc_blob_size 0)) in
    let magic : from_le (slice 0 4 w) ≡ pkc_magic = ap from_le r.0 in
    let version : get_or w 4 0 ≡ pkc_version = get_or-slice 4 w pkc_version 0 r.1.0 in
    let priv : slice 8 40 w ≡ priv_key = ap (λ n. slice 8 (8 + n) w) (sym h) ∙ r.1.1.0 in
    let publ : slice 40 72 w ≡ pub_key = ap (λ n. slice 40 (40 + n) w) (sym k) ∙ r.1.1.1.0 in
    ground (arith, magic, version, priv, publ)
