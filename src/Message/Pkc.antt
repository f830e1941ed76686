-- ===== src/Message/Pkc.antt =====
-- That a payload sealed for a public key is opened with the keys of the two nodes exchanged.
use meshtastenstein_rs.Base.{
  ℕ, ◌+◌, ◌-◌, ◌^◌, ◌≡◌, ◌≤◌, ◌<◌, refl, ap, sym, ◌∙◌, Bool, false, ◌⊎◌, inl, inr, Option, none,
  some, List, [], ◌∷◌, ltb, if◌then◌else◌, length, take, drop, replicate, splice, slice,
  length-replicate, length-drop, take_of_length-le, to_le, from_le, from_le-to_le, Reads, IsLaid,
  write_fields, read_back, length-write_fields, arith,
}
use meshtastenstein_rs.Message.{
  Protocol, PkcError, pkc_overhead, pkc_tag_len, build_pkc_nonce, encrypt_pkc, decrypt_pkc,
}

-- What the AES-CCM crate promises: a body as long as the plaintext, a tag of eight bytes, and that
-- the key and the nonce give the plaintext back.
abbrev pub CcmLaw : Protocol → Type 0
CcmLaw p =
    (key nonce plaintext ct tag : List ℕ)
    → p.ccm_encrypt key nonce plaintext ≡ some (ct, tag)
    → (length ct ≡ length plaintext)
      × (length tag ≡ pkc_tag_len)
      × (p.ccm_decrypt key nonce ct tag ≡ some plaintext)

-- the buffer that `encrypt_pkc` writes
abbrev wire_fields : List ℕ → List ℕ → ℕ → List (ℕ × List ℕ)
wire_fields ct tag extra_nonce =
    (0, ct) ∷ (length ct, tag) ∷ (length ct + pkc_tag_len, to_le 4 extra_nonce) ∷ []

module _ (ct tag : List ℕ) (extra_nonce : ℕ) (sized : length tag ≡ pkc_tag_len) where
  wire : List ℕ
  wire = write_fields (wire_fields ct tag extra_nonce) (replicate (length ct + pkc_overhead) 0)

  laid :
      IsLaid 0
        (length (replicate {A = ℕ} (length ct + pkc_overhead) 0))
        (wire_fields ct tag extra_nonce)
  laid = ground (arith, sized, length-replicate {A = ℕ} (length ct + pkc_overhead) 0)

  length-wire : length wire ≡ length ct + pkc_overhead
  unfolding wire
  length-wire =
      length-write_fields 0 (wire_fields ct tag extra_nonce)
        (replicate (length ct + pkc_overhead) 0) laid
      ∙ length-replicate {A = ℕ} (length ct + pkc_overhead) 0

  wire-Reads : Reads wire (wire_fields ct tag extra_nonce)
  unfolding wire
  wire-Reads =
      read_back 0 (wire_fields ct tag extra_nonce) (replicate (length ct + pkc_overhead) 0) laid

  wire_is :
      (n : ℕ)
      → n ≡ length ct
      → splice
          (n + pkc_tag_len)
          (to_le 4 extra_nonce)
          (splice n tag (splice 0 ct (replicate (n + pkc_overhead) 0)))
        ≡ wire
  unfolding wire write_fields
  wire_is n e = rw (e)

  wire_ct : take (length ct) wire ≡ ct
  wire_ct =
      let width : length ct ≡ (0 + length ct) - 0 = omega arith in
      ap (λ n. take n wire) width ∙ wire-Reads.0

  wire_tag : slice (length ct) (length ct + pkc_tag_len) wire ≡ tag
  wire_tag = ap (λ n. slice (length ct) (length ct + n) wire) (sym sized) ∙ wire-Reads.1.0

  wire_nonce : drop (length ct + pkc_tag_len) wire ≡ to_le 4 extra_nonce
  wire_nonce =
      let k : ℕ = length ct + pkc_tag_len in
      let rest : List ℕ = drop k wire in
      let short : length rest ≤ (k + 4) - k = omega (arith, length-wire, length-drop k wire) in
      sym (take_of_length-le rest ((k + 4) - k) short) ∙ wire-Reads.1.1.0

pub skipped {ℓ} : {A : Type ℓ} {b : Bool} (x y : A) → b ≡ false → (if b then x else y) ≡ y
skipped x y e = rw (e)

pub not_ltb : (m n : ℕ) → n ≤ m → ltb m n ≡ false
not_ltb m n h = ground arith

-- what was sealed, if anything was
sealed_with :
    (o : Option (List ℕ × List ℕ)) (out : List ℕ → List ℕ → List ℕ) (k n : ℕ) (buf : List ℕ)
    → (let r : PkcError ⊎ (List ℕ × ℕ) = elim o [
      | none ↦ inl PkcError.bad_buffer
      | some (ct, tag) ↦ inr (out ct tag, k)
    ] in
        r)
      ≡ inr (buf, n)
    → (ct : List ℕ) × (tag : List ℕ) × (o ≡ some (ct, tag)) × (buf ≡ out ct tag) × (n ≡ k)
sealed_with none out k n buf e = absurd (ground arith)
sealed_with (some (ct, tag)) out k n buf e = (ct, tag, refl, ground (arith, e), ground (arith, e))

module _ (p : Protocol) (ccm : CcmLaw p) where
  sealed_wire :
      (key plaintext buf : List ℕ) (packet_id sender extra_nonce n : ℕ)
      → encrypt_pkc p key packet_id sender extra_nonce plaintext
          (replicate (length plaintext + pkc_overhead) 0)
        ≡ inr (buf, n)
      → (ct : List ℕ) × (tag : List ℕ) × (p.ccm_encrypt key
            (build_pkc_nonce packet_id sender extra_nonce)
            plaintext
          ≡ some (ct, tag))
        × (buf
            ≡ splice (length plaintext + pkc_tag_len) (to_le 4 extra_nonce) (
                splice
                  (length plaintext)
                  tag
                  (splice 0 ct (replicate (length plaintext + pkc_overhead) 0))))
        × (n ≡ length plaintext + pkc_overhead)
  unfolding encrypt_pkc
  sealed_wire key plaintext buf packet_id sender extra_nonce n e =
      let nonce : List ℕ = build_pkc_nonce packet_id sender extra_nonce in
      let long : ltb (length (replicate {A = ℕ} (length plaintext + pkc_overhead) 0))
            (length plaintext + pkc_overhead)
          ≡ false =
        ground (arith, length-replicate {A = ℕ} (length plaintext + pkc_overhead) 0) in
      sealed_with (p.ccm_encrypt key nonce plaintext)
        (λ ct tag. splice (length plaintext + pkc_tag_len) (to_le 4 extra_nonce) (
          splice (length plaintext) tag
            (splice 0 ct (replicate (length plaintext + pkc_overhead) 0))))
        (length plaintext + pkc_overhead) n buf (sym (skipped _ _ long) ∙ e)

  -- A payload that was sealed is opened by the same key, packet id and sender, and is as much
  -- longer than the plaintext as the tag and the nonce are.
  pub decrypt_pkc-encrypt_pkc :
      (key plaintext buf : List ℕ) (packet_id sender extra_nonce n : ℕ)
      → extra_nonce < 2 ^ 32
      → encrypt_pkc p key packet_id sender extra_nonce plaintext
          (replicate (length plaintext + pkc_overhead) 0)
        ≡ inr (buf, n)
      → (length (take n buf) ≡ length plaintext + pkc_overhead)
        × (decrypt_pkc p key packet_id sender (take n buf) (length plaintext) ≡ inr plaintext)
  unfolding decrypt_pkc
  decrypt_pkc-encrypt_pkc key plaintext buf packet_id sender extra_nonce n small e =
      let (ct, tag, enc, is_buf, is_n) =
        sealed_wire key plaintext buf packet_id sender extra_nonce n e in
      let (ct_size, tag_size, dec) =
        ccm key (build_pkc_nonce packet_id sender extra_nonce) plaintext ct tag enc in
      let w : List ℕ = wire ct tag extra_nonce tag_size in
      let same : buf ≡ w =
        is_buf ∙ wire_is ct tag extra_nonce tag_size (length plaintext) (sym ct_size) in
      let long : length w ≡ length ct + pkc_overhead = length-wire ct tag extra_nonce tag_size in
      let sent : take n buf ≡ w =
        ap (take n) same ∙ take_of_length-le w n (omega (arith, is_n, long, ct_size)) in
      let body : length w - pkc_overhead ≡ length ct = omega (arith, long) in
      let nonce_at : length w - 4 ≡ length ct + pkc_tag_len = omega (arith, long) in
      let room = not_ltb (length w) pkc_overhead (omega (arith, long)) in
      let fits =
        not_ltb (length plaintext) (length w - pkc_overhead) (omega (arith, long, ct_size)) in
      let extra : from_le (drop (length w - 4) w) ≡ extra_nonce =
        ap (λ k. from_le (drop k w)) nonce_at
        ∙ (ap from_le (wire_nonce ct tag extra_nonce tag_size)
            ∙ from_le-to_le 4 extra_nonce small) in
      let got_ct : take (length w - pkc_overhead) w ≡ ct =
        ap (λ k. take k w) body ∙ wire_ct ct tag extra_nonce tag_size in
      let got_tag : slice (length w - pkc_overhead) (length w - pkc_overhead + pkc_tag_len) w
          ≡ tag =
        ap (λ k. slice k (k + pkc_tag_len) w) body ∙ wire_tag ct tag extra_nonce tag_size in
      (
        ap length sent ∙ omega (arith, long, ct_size),
        ap (λ b. decrypt_pkc p key packet_id sender b (length plaintext)) sent
            ∙ (skipped _ _ room ∙ (skipped _ _ fits ∙ rw (extra, got_ct, got_tag, dec))),
      )
