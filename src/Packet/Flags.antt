-- ===== src/Packet/Flags.antt =====
-- The flags byte of packet.rs: what each accessor reads back from `make_flags`, and what
-- `set_hop_limit` leaves alone.
use meshtastenstein_rs.Base.{
  ℕ, ◌%◌, ◌<◌, ◌≡◌, refl, Bool, true, false, ◌&&◌, not, ltb, ◌==◌, ==_iff, bit_and, bit_or, shr,
  shl8, test_range, in_test_range, arith, if◌then◌else◌,
}
use meshtastenstein_rs.Packet.{
  Header, hop_limit, hop_start, want_ack, via_mqtt, set_hop_limit, make_flags,
}

-- `==` on Booleans
abbrev pub same : Bool → Bool → Bool
same true b = b
same false b = not b

pub same_sound : (a b : Bool) → same a b ≡ true → a ≡ b
same_sound true true h = refl
same_sound true false h = ground arith
same_sound false true h = ground arith
same_sound false false h = refl

-- The low three bits of a byte.
mask_table : test_range 256 (λ x. bit_and x 7 == x % 8) ≡ true
unfolding test_range
mask_table = refl

pub bit_and_seven : (x : ℕ) → x < 256 → bit_and x 7 ≡ x % 8
bit_and_seven x h = (==_iff _ _).0 (in_test_range 256 _ x mask_table h)

-- The four accessors on a byte built from two masked fields.
abbrev reads : Bool → Bool → ℕ → ℕ → ℕ → Bool
reads w v a b f =
    bit_and (shr f 0) 7 == a
    && bit_and (shr f 5) 7 == b
    && same (not (bit_and f 8 == 0)) w
    && same (not (bit_and f 16 == 0)) v

abbrev packed : Bool → Bool → ℕ → ℕ → ℕ
packed w v a b =
    let f0 = if w then bit_or 0 8 else 0 in
    let f1 = if v then bit_or f0 16 else f0 in bit_or (bit_or f1 (shl8 a 0)) (shl8 b 5)

flags_table :
    (w v : Bool) → test_range 8 (λ a. test_range 8 (λ b. reads w v a b (packed w v a b))) ≡ true
unfolding test_range
flags_table true true = refl
flags_table true false = refl
flags_table false true = refl
flags_table false false = refl

flags_at : (w v : Bool) (a b : ℕ) → a < 8 → b < 8 → reads w v a b (packed w v a b) ≡ true
flags_at w v a b ha hb =
    in_test_range 8 (λ y. reads w v a y (packed w v a y)) b
      (in_test_range 8 (λ x. test_range 8 (λ y. reads w v x y (packed w v x y))) a (flags_table w v)
        ha)
      hb

reads_sound :
    (w v : Bool) (a b f : ℕ)
    → reads w v a b f ≡ true
    → (bit_and (shr f 0) 7 ≡ a)
      × (bit_and (shr f 5) 7 ≡ b)
      × (not (bit_and f 8 == 0) ≡ w)
      × (not (bit_and f 16 == 0) ≡ v)
reads_sound w v a b f h =
    ground (arith, same_sound (not (bit_and f 8 == 0)) w, same_sound (not (bit_and f 16 == 0)) v)

-- `make_flags` on any two bytes is a byte from which the accessors read the Booleans back
-- unchanged, and each hop field modulo 8: neither field can spill into its neighbours.
make_flags_reads :
    (w v : Bool) (limit start : ℕ) (h : Header)
    → limit < 256
    → start < 256
    → h.flags ≡ make_flags w v limit start
    → (hop_limit h ≡ limit % 8) × (hop_start h ≡ start % 8) × (want_ack h ≡ w) × (via_mqtt h ≡ v)
unfolding make_flags hop_limit hop_start want_ack via_mqtt
make_flags_reads w v limit start h hl hs e =
    rw (e, bit_and_seven limit hl, bit_and_seven start hs)
      (reads_sound w v (limit % 8) (start % 8) _
        (flags_at w v (limit % 8) (start % 8) (omega arith) (omega arith)))

-- What `set_hop_limit` does to a byte, for each byte and each masked limit.
abbrev rewritten : ℕ → ℕ → ℕ
rewritten f a = bit_or (bit_and f 248) (shl8 a 0)

abbrev rewrites : ℕ → ℕ → Bool
rewrites f a =
    bit_and (shr (rewritten f a) 0) 7 == a
    && bit_and (shr (rewritten f a) 5) 7 == bit_and (shr f 5) 7
    && bit_and (rewritten f a) 8 == bit_and f 8
    && bit_and (rewritten f a) 16 == bit_and f 16
    && ltb (rewritten f a) 256

rewrite_table : test_range 256 (λ f. test_range 8 (λ a. rewrites f a)) ≡ true
unfolding test_range
rewrite_table = refl

rewrite_at : (f a : ℕ) → f < 256 → a < 8 → rewrites f a ≡ true
rewrite_at f a hf ha =
    in_test_range 8 (rewrites f) a
      (in_test_range 256 (λ x. test_range 8 (rewrites x)) f rewrite_table hf) ha

rewrites_sound :
    (f a : ℕ)
    → rewrites f a ≡ true
    → (bit_and (shr (rewritten f a) 0) 7 ≡ a)
      × (bit_and (shr (rewritten f a) 5) 7 ≡ bit_and (shr f 5) 7)
      × (bit_and (rewritten f a) 8 ≡ bit_and f 8)
      × (bit_and (rewritten f a) 16 ≡ bit_and f 16)
      × (rewritten f a < 256)
rewrites_sound f a h = ground arith

-- `set_hop_limit` stores the limit modulo 8, leaves hop_start and both flag bits as they were, and
-- changes no other header field; the flags stay a byte.
pub set_hop_limit_reads :
    (limit : ℕ) (h : Header)
    → limit < 256
    → h.flags < 256
    → let h' = set_hop_limit limit h in
      (hop_limit h' ≡ limit % 8)
      × (hop_start h' ≡ hop_start h)
      × (want_ack h' ≡ want_ack h)
      × (via_mqtt h' ≡ via_mqtt h)
      × (h'.flags < 256)
      × (record h' { flags = h.flags } ≡ h)
unfolding set_hop_limit hop_limit hop_start want_ack via_mqtt
set_hop_limit_reads limit h hl hf =
    let (low, start, ack, mqtt, byte) =
      rewrites_sound h.flags (limit % 8) (rewrite_at h.flags (limit % 8) hf (omega arith)) in
    rw (bit_and_seven limit hl) (low, start, rw ack, rw mqtt, byte, refl)
