-- ===== src/Battery.antt =====
-- meshtastenstein-core/src/domain/battery.rs: the charge in percent for a voltage in millivolts.
pub mod Monotone
mod Tests
use meshtastenstein_rs.Base.{ℕ, suc, ◌+◌, ◌-◌, ◌*◌, ◌/◌, ◌%◌, List, [], ◌∷◌, leb, if◌then◌else◌}

-- constants.rs
abbrev pub ocv_table : List ℕ
ocv_table = 4200 ∷ 4050 ∷ 3900 ∷ 3800 ∷ 3730 ∷ 3680 ∷ 3630 ∷ 3570 ∷ 3500 ∷ 3400 ∷ 3100 ∷ []

-- `for i in 0..10`, with the table from `OCV_TABLE[i]` on
unfoldable pub level_from : ℕ → ℕ → List ℕ → ℕ
level_from mvolts i [] = 0
level_from mvolts i (v_high ∷ []) = 0
level_from mvolts i (v_high ∷ v_low ∷ table) =
    let pct_high = 100 - i * 10 in
    let pct_low = 100 - (i + 1) * 10 in
    let rest = level_from mvolts (suc i) (v_low ∷ table) in
    if leb v_low mvolts
    then (pct_low + (mvolts - v_low) * (pct_high - pct_low) / (v_high - v_low)) % 256
    else rest

unfoldable pub voltage_to_level : ℕ → ℕ
voltage_to_level mvolts =
    if leb 4200 mvolts then 100 else if leb mvolts 3100 then 0 else level_from mvolts 0 ocv_table
