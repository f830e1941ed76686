-- ===== src/Crypto/Tests.antt =====
-- The nonce and the key buffer on concrete packets.
use meshtastenstein_rs.Base.{◌≡◌, refl, [], ◌∷◌, replicate}
use meshtastenstein_rs.Crypto.{build_nonce, copy_psk}

sample_nonce :
    build_nonce 0x01020304 5 ≡ 4 ∷ 3 ∷ 2 ∷ 1 ∷ 0 ∷ 0 ∷ 0 ∷ 0 ∷ 5 ∷ 0 ∷ 0 ∷ 0 ∷ 0 ∷ 0 ∷ 0 ∷ 0 ∷ []
unfolding build_nonce replicate
sample_nonce = refl

sample_psk : (copy_psk (9 ∷ 8 ∷ [])).1 ≡ 2
unfolding copy_psk
sample_psk = refl
