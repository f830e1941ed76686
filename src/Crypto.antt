-- ===== src/Crypto.antt =====
-- meshtastenstein-core/src/domain/crypto_psk.rs: the nonce, the key buffer and the AES-CTR pass.
-- The `aes` and `ctr` crates are a parameter: `stream key nonce i` is the byte `i` of the
-- keystream.
pub mod Symmetry
mod Tests
use meshtastenstein_rs.Base.{
  ℕ, zero, suc, ◌+◌, ◌*◌, ◌^◌, min, Bool, true, false, ◌||◌, Option, none, some, List, [], ◌∷◌,
  ◌++◌, ◌==◌, bit_xor, if◌then◌else◌, length, replicate, splice, take, to_le,
}

-- `(packet_id as u64).to_le_bytes()` in bytes 0 to 7, the sender in 8 to 11, zeros after
unfoldable pub build_nonce : ℕ → ℕ → List ℕ
build_nonce packet_id sender =
    splice 8 (to_le 4 sender) (splice 0 (to_le 8 packet_id) (replicate 16 0))

unfoldable pub copy_psk : List ℕ → List ℕ × ℕ
copy_psk psk = let len = min (length psk) 32 in (splice 0 (take len psk) (replicate 32 0), len)

-- `apply_keystream` of the `cipher` crate, from the byte `i` of the keystream
unfoldable pub apply_keystream : (ℕ → ℕ) → ℕ → List ℕ → List ℕ
apply_keystream stream i [] = []
apply_keystream stream i (b ∷ data_bytes) =
    bit_xor b (stream i) ∷ apply_keystream stream (suc i) data_bytes

-- `none` is `Err(CryptoError)`
unfoldable pub crypt_packet : (List ℕ → List ℕ → ℕ → ℕ) → List ℕ → ℕ → ℕ → List ℕ → Option (List ℕ)
crypt_packet stream key packet_id sender bytes =
    if length bytes == 0
    then some bytes
    else if length key == 16 || length key == 32
    then some (apply_keystream (stream key (build_nonce packet_id sender)) 0 bytes)
    else none
