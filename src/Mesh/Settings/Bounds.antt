-- ===== src/Mesh/Settings/Bounds.antt =====
-- The radio settings that administration can bring about.
use meshtastenstein_rs.Base.{
  ℕ, ◌≡◌, ◌<◌, ◌⊎◌, refl, ◌%◌, min, ◌≢◌, ◌≤◌, Bool-cases, inl, inr, ◌==◌, arith,
}
use meshtastenstein_rs.Radio.{bw_code_to_hz}
use meshtastenstein_rs.Device.{DeviceState}
use meshtastenstein_rs.Message.{max_hop_limit}
use meshtastenstein_rs.Proto.{LoRaConfig, Wire}
use meshtastenstein_rs.Mesh.Settings.{
  clamp_custom_sf, clamp_custom_cr, clamp_custom_bw_hz, apply_lora,
}

clamp_custom_sf-bounds : (sf : ℕ) → (5 ≤ clamp_custom_sf sf) × (clamp_custom_sf sf ≤ 12)
unfolding clamp_custom_sf
clamp_custom_sf-bounds sf = (ground arith, ground arith)

clamp_custom_cr-bounds : (cr : ℕ) → (4 ≤ clamp_custom_cr cr) × (clamp_custom_cr cr ≤ 8)
unfolding clamp_custom_cr
clamp_custom_cr-bounds cr = (ground arith, ground arith)

clamp_custom_bw_hz-ne-zero : (code : ℕ) → clamp_custom_bw_hz code ≢ 0
unfolding clamp_custom_bw_hz
clamp_custom_bw_hz-ne-zero code e = elim (Bool-cases (bw_code_to_hz (code % 65536) == 0)) [
  | inl zero ↦ absurd (ground (arith, e, zero))
  | inr some_hz ↦ absurd (ground (arith, e, some_hz))
]

hops_bound : (asked : ℕ) → min asked max_hop_limit ≤ 7
hops_bound asked = omega arith

-- a value as it was asked for if it lies within bounds, else the default
unfoldable pub Clamped : ℕ → ℕ → ℕ → ℕ → ℕ → Type 0
Clamped low high otherwise asked kept =
    ((low ≤ asked) × (asked ≤ high) × (kept ≡ asked))
    ⊎ (((asked < low) ⊎ (high < asked)) × (kept ≡ otherwise))

clamp_custom_sf-Clamped : (sf : ℕ) → Clamped 5 12 11 sf (clamp_custom_sf sf)
unfolding clamp_custom_sf Clamped
clamp_custom_sf-Clamped sf = ground arith

clamp_custom_cr-Clamped : (cr : ℕ) → Clamped 4 8 5 cr (clamp_custom_cr cr)
unfolding clamp_custom_cr Clamped
clamp_custom_cr-Clamped cr = ground arith

module _ {P M : Type 0} (w : Wire P M) where
  -- Whatever an app sends as radio settings: the device keeps the spreading factor that is asked
  -- for if it is 5 to 12, else 11, and the coding rate if it is 4 to 8, else 5; so they lie in
  -- these ranges. The bandwidth is not zero, and the hops are those asked for, as a byte, but at
  -- most 7.
  pub apply_lora_in_range :
      (l : LoRaConfig) (d : DeviceState)
      → (5 ≤ (apply_lora w l d).custom_sf)
        × ((apply_lora w l d).custom_sf ≤ 12)
        × Clamped 5 12 11 l.spread_factor (apply_lora w l d).custom_sf
        × (4 ≤ (apply_lora w l d).custom_cr)
        × ((apply_lora w l d).custom_cr ≤ 8)
        × Clamped 4 8 5 l.coding_rate (apply_lora w l d).custom_cr
        × ((apply_lora w l d).custom_bw_hz ≢ 0)
        × ((apply_lora w l d).default_hops ≤ 7)
        × ((apply_lora w l d).default_hops ≡ min (l.hop_limit % 256) 7)
  unfolding apply_lora
  apply_lora_in_range l d =
      let (sf_low, sf_high) = clamp_custom_sf-bounds l.spread_factor in
      let (cr_low, cr_high) = clamp_custom_cr-bounds l.coding_rate in
      (
        sf_low,
        sf_high,
        clamp_custom_sf-Clamped l.spread_factor,
        cr_low,
        cr_high,
        clamp_custom_cr-Clamped l.coding_rate,
        clamp_custom_bw_hz-ne-zero l.bandwidth,
        hops_bound (l.hop_limit % 256),
        refl,
      )
