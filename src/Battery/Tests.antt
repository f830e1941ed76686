-- ===== src/Battery/Tests.antt =====
-- Charges at concrete voltages.
use meshtastenstein_rs.Base.{◌≤◌, ◌≡◌, refl, arith}
use meshtastenstein_rs.Battery.{voltage_to_level, level_from}
use meshtastenstein_rs.Battery.Monotone.{voltage_to_level_monotone}

level_at_3700 : voltage_to_level 3700 ≡ 54
unfolding voltage_to_level level_from
level_at_3700 = refl

voltage_to_level_monotone_example :
    (voltage_to_level 3550 ≤ voltage_to_level 3700) × (voltage_to_level 3700 ≤ 100)
voltage_to_level_monotone_example = voltage_to_level_monotone 3550 3700 (omega arith)
