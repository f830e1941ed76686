-- ===== src/Device/NodeId.antt =====
-- That the text of a node's identity names one node number.
use meshtastenstein_rs.Base.{
  ℕ, ◌+◌, ◌-◌, ◌*◌, ◌%◌, ◌^◌, ◌<◌, ◌≡◌, refl, true, List, [], ◌∷◌, ◌==◌, ltb, if◌then◌else◌, length,
  drop, get_or, shr, ==_iff, test_range, in_test_range, arith,
}
use meshtastenstein_rs.Device.{hex_digits, hex_byte, build_node_id_string}

abbrev pub hex_value : ℕ → ℕ
hex_value c = if ltb c 58 then c - 48 else c - 87

-- the number that hexadecimal digits write, after the digits that made `n`
unfoldable pub read_hex : ℕ → List ℕ → ℕ
read_hex n [] = n
read_hex n (c ∷ cs) = read_hex (n * 16 + hex_value c) cs

pair_table :
    test_range 256 (λ b.
      hex_value (get_or hex_digits (shr b 4) 0) * 16 + hex_value (get_or hex_digits (b % 16) 0)
      == b)
    ≡ true
unfolding test_range
pair_table = refl

pair_value :
    (b : ℕ)
    → b < 256
    → hex_value (get_or hex_digits (shr b 4) 0) * 16 + hex_value (get_or hex_digits (b % 16) 0) ≡ b
pair_value b h =
    (==_iff
        (hex_value (get_or hex_digits (shr b 4) 0) * 16 + hex_value (get_or hex_digits (b % 16) 0))
        b).0
      (in_test_range 256
        (λ b.
          hex_value (get_or hex_digits (shr b 4) 0) * 16 + hex_value (get_or hex_digits (b % 16) 0)
          == b)
        b pair_table h)

pair_step :
    (n b : ℕ)
    → b < 256
    → (n * 16 + hex_value (get_or hex_digits (shr b 4) 0)) * 16
        + hex_value (get_or hex_digits (b % 16) 0)
      ≡ n * 256 + b
pair_step n b h = omega (arith, pair_value b h)

-- The node id of a 32-bit number has nine characters, and the eight after the first write the
-- number in hexadecimal: nodes with different numbers have different ids.
pub build_node_id_string_reads :
    (node_num : ℕ)
    → node_num < 2 ^ 32
    → (length (build_node_id_string node_num) ≡ 9)
      × (read_hex 0 (drop 1 (build_node_id_string node_num)) ≡ node_num)
unfolding build_node_id_string hex_byte read_hex
build_node_id_string_reads node_num h =
    let b3 : ℕ = shr node_num 24 % 256 in
    let b2 : ℕ = shr node_num 16 % 256 in
    let b1 : ℕ = shr node_num 8 % 256 in
    let b0 : ℕ = shr node_num 0 % 256 in
    (
      refl,
      rw
          (
            pair_step 0 b3 (omega arith),
            pair_step (0 * 256 + b3) b2 (omega arith),
            pair_step ((0 * 256 + b3) * 256 + b2) b1 (omega arith),
            pair_step (((0 * 256 + b3) * 256 + b2) * 256 + b1) b0 (omega arith),
          )
          (omega (arith, h)),
    )
