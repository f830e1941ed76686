-- ===== src/Battery/Monotone.antt =====
-- The bounds of the charge, and that it follows the voltage.
use meshtastenstein_rs.Base.{
  ℕ, zero, suc, ◌+◌, ◌-◌, ◌≤◌, ◌<◌, ◌≡◌, refl, subst, inl, inr, true, leb, ltb, Bool-cases,
  test_range, in_test_range, arith,
}
use meshtastenstein_rs.Battery.{level_from, voltage_to_level}

steps_table :
    test_range 1201 (λ k. leb (voltage_to_level (3050 + k)) (voltage_to_level (3051 + k))) ≡ true
unfolding test_range voltage_to_level level_from
steps_table = refl

inside : (k : ℕ) → k < 1201 → voltage_to_level (3050 + k) ≤ voltage_to_level (3051 + k)
inside k h =
    let found : leb (voltage_to_level (3050 + k)) (voltage_to_level (3051 + k)) ≡ true =
      in_test_range 1201 (λ j. leb (voltage_to_level (3050 + j)) (voltage_to_level (3051 + j))) k
        steps_table h in
    ground (arith, found)

below : (v : ℕ) → v ≤ 3100 → voltage_to_level v ≡ 0
unfolding voltage_to_level
below v h = ground arith

above : (v : ℕ) → 4200 ≤ v → voltage_to_level v ≡ 100
unfolding voltage_to_level
above v h = ground arith

-- One millivolt more never lowers the charge.
step_up : (v : ℕ) → voltage_to_level v ≤ voltage_to_level (suc v)
step_up v = elim (Bool-cases (ltb v 3050)) [
  | inl low ↦ omega (arith, below v (ground arith))
  | inr more ↦ elim (Bool-cases (ltb v 4251)) [
    | inl middle ↦
        let at : 3050 + (v - 3050) ≡ v = ground arith in
        let next : 3051 + (v - 3050) ≡ suc v = ground arith in
        subst (λ k. voltage_to_level v ≤ voltage_to_level k) next
          (subst (λ k. voltage_to_level k ≤ voltage_to_level (3051 + (v - 3050))) at
            (inside (v - 3050) (ground arith)))
    | inr high ↦ omega (arith, above v (ground arith), above (suc v) (ground arith))
  ]
]

climb : (v d : ℕ) → voltage_to_level v ≤ voltage_to_level (d + v)
climb v zero =
    let same : v ≡ 0 + v = omega arith in
    subst (λ k. voltage_to_level v ≤ voltage_to_level k) same (omega arith)
climb v (suc d) =
    let further : suc (d + v) ≡ suc d + v = omega arith in
    subst (λ k. voltage_to_level v ≤ voltage_to_level k) further
      (omega (arith, climb v d, step_up (d + v)))

-- A higher voltage is never shown as a lower charge, and the charge is at most 100.
pub voltage_to_level_monotone :
    (v w : ℕ) → v ≤ w → (voltage_to_level v ≤ voltage_to_level w) × (voltage_to_level w ≤ 100)
voltage_to_level_monotone v w h =
    let reached : (w - v) + v ≡ w = omega (arith, h) in
    (
      subst (λ k. voltage_to_level v ≤ voltage_to_level k) reached (climb v (w - v)),
      omega (arith, climb w 4200, above (4200 + w) (omega arith)),
    )
