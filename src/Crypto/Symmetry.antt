-- ===== src/Crypto/Symmetry.antt =====
-- That crypt_psk.rs decrypts what it encrypts, and that its nonces differ.
use meshtastenstein_rs.Base.{
  ℕ, suc, ◌^◌, ◌<◌, ◌≡◌, refl, ap, true, some, List, [], ◌∷◌, ◌==◌, bit_xor, ◌⊎◌, inl, inr, sym,
  ◌∙◌, replicate, length, take, drop, All, test_range, in_test_range, ==_iff, from_le,
  from_le-to_le, arith,
}
use meshtastenstein_rs.Crypto.{build_nonce, apply_keystream, crypt_packet}

xor_table : test_range 256 (λ a. test_range 256 (λ b. bit_xor (bit_xor a b) b == a)) ≡ true
unfolding test_range
xor_table = refl

xor_twice : (a b : ℕ) → a < 256 → b < 256 → bit_xor (bit_xor a b) b ≡ a
xor_twice a b ha hb = (==_iff (bit_xor (bit_xor a b) b) a).0 (
    in_test_range 256 (λ y. bit_xor (bit_xor a y) y == a) b
      (in_test_range 256 (λ x. test_range 256 (λ y. bit_xor (bit_xor x y) y == x)) a xor_table ha)
      hb)

apply_keystream_twice :
    (stream : ℕ → ℕ) (i : ℕ) (bytes : List ℕ)
    → ((j : ℕ) → stream j < 256)
    → All (λ b. b < 256) bytes
    → apply_keystream stream i (apply_keystream stream i bytes) ≡ bytes
unfolding apply_keystream
apply_keystream_twice stream i [] s h = refl
apply_keystream_twice stream i (b ∷ bytes) s h =
    rw (xor_twice b (stream i) h.0 (s i))
      (ap (λ t. b ∷ t) (apply_keystream_twice stream (suc i) bytes s h.1))

length-apply_keystream :
    (stream : ℕ → ℕ) (i : ℕ) (bytes : List ℕ)
    → length (apply_keystream stream i bytes) ≡ length bytes
unfolding apply_keystream
length-apply_keystream stream i [] = refl
length-apply_keystream stream i (b ∷ bytes) = ap suc (length-apply_keystream stream (suc i) bytes)

-- A key of 16 or 32 bytes encrypts every packet, to as many bytes, and a second pass with the key,
-- the packet id and the sender gives the bytes back.
pub crypt_packet_twice :
    (stream : List ℕ → List ℕ → ℕ → ℕ) (key : List ℕ) (packet_id sender : ℕ) (bytes : List ℕ)
    → ((k n : List ℕ) (j : ℕ) → stream k n j < 256)
    → (length key ≡ 16) ⊎ (length key ≡ 32)
    → All (λ b. b < 256) bytes
    → (cipher : List ℕ) × (crypt_packet stream key packet_id sender bytes ≡ some cipher)
      × (length cipher ≡ length bytes)
      × (crypt_packet stream key packet_id sender cipher ≡ some bytes)
unfolding crypt_packet
crypt_packet_twice stream key packet_id sender [] s sized h = ([], refl, refl, refl)
crypt_packet_twice stream key packet_id sender (b ∷ bytes) s sized h =
    let pass : List ℕ → List ℕ = apply_keystream (stream key (build_nonce packet_id sender)) 0 in
    (
      pass (b ∷ bytes),
      ground arith,
      length-apply_keystream (stream key (build_nonce packet_id sender)) 0 (b ∷ bytes),
      ground (
        arith,
        length-apply_keystream (stream key (build_nonce packet_id sender)) 0 (b ∷ bytes),
        apply_keystream_twice (stream key (build_nonce packet_id sender)) 0 (b ∷ bytes)
            (s key (build_nonce packet_id sender)) h,
      ),
    )

nonce_id :
    (packet_id sender : ℕ)
    → packet_id < 2 ^ 32
    → from_le (take 8 (build_nonce packet_id sender)) ≡ packet_id
unfolding build_nonce replicate
nonce_id packet_id sender h = from_le-to_le 8 packet_id (omega (arith, h))

nonce_sender :
    (packet_id sender : ℕ)
    → sender < 2 ^ 32
    → from_le (take 4 (drop 8 (build_nonce packet_id sender))) ≡ sender
unfolding build_nonce replicate
nonce_sender packet_id sender h = from_le-to_le 4 sender (omega (arith, h))

-- The nonce has 16 bytes: the packet id in the first eight, the sender in the next four, and zeros.
-- So packets of which the id or the sender differs have different nonces.
pub build_nonce_reads :
    (packet_id sender : ℕ)
    → packet_id < 2 ^ 32
    → sender < 2 ^ 32
    → (length (build_nonce packet_id sender) ≡ 16)
      × (from_le (take 8 (build_nonce packet_id sender)) ≡ packet_id)
      × (from_le (take 4 (drop 8 (build_nonce packet_id sender))) ≡ sender)
      × (drop 12 (build_nonce packet_id sender) ≡ 0 ∷ 0 ∷ 0 ∷ 0 ∷ [])
unfolding build_nonce replicate
build_nonce_reads packet_id sender hp hs =
    (refl, nonce_id packet_id sender hp, nonce_sender packet_id sender hs, refl)

sized_or_empty :
    (stream : List ℕ → List ℕ → ℕ → ℕ) (key : List ℕ) (packet_id sender : ℕ) (bytes cipher : List ℕ)
    → crypt_packet stream key packet_id sender bytes ≡ some cipher
    → ((length key ≡ 16) ⊎ (length key ≡ 32)) ⊎ ((bytes ≡ []) × (cipher ≡ []))
unfolding crypt_packet
sized_or_empty stream key packet_id sender [] cipher e = inr (refl, ground (arith, e))
sized_or_empty stream key packet_id sender (b ∷ bytes) cipher e = inl (ground (arith, e))

empty_stays :
    (stream : List ℕ → List ℕ → ℕ → ℕ) (key : List ℕ) (packet_id sender : ℕ)
    → crypt_packet stream key packet_id sender [] ≡ some []
unfolding crypt_packet
empty_stays stream key packet_id sender = refl

-- Whatever was encrypted, a second pass with the key, the packet id and the sender gives it back.
pub crypt_packet_back :
    (stream : List ℕ → List ℕ → ℕ → ℕ) (key : List ℕ) (packet_id sender : ℕ) (bytes cipher : List ℕ)
    → ((k n : List ℕ) (j : ℕ) → stream k n j < 256)
    → All (λ b. b < 256) bytes
    → crypt_packet stream key packet_id sender bytes ≡ some cipher
    → crypt_packet stream key packet_id sender cipher ≡ some bytes
crypt_packet_back stream key packet_id sender bytes cipher s h e =
    elim (sized_or_empty stream key packet_id sender bytes cipher e) [
      | inl sized ↦
          let (other, made, _, back) =
            crypt_packet_twice stream key packet_id sender bytes s sized h in
          let same : some other ≡ some cipher = sym made ∙ e in
          let is_it : other ≡ cipher = ground (arith, same) in rw (sym is_it) back
      | inr (none_in, none_out) ↦ rw (none_in, none_out) (empty_stays stream key packet_id sender)
    ]
