-- ===== src/Radio/Bands.antt =====
-- Where the frequencies of radio_config.rs lie, and the bandwidth codes.
use meshtastenstein_rs.Base.{
  ℕ, zero, suc, ◌+◌, ◌-◌, ◌*◌, ◌/◌, ◌^◌, ◌≤◌, ◌<◌, ◌≡◌, ◌==◌, if◌then◌else◌, arith,
}
use native.Mathlib.Nat.{mul-zero, suc-mul, mul-le-mul_right, div-mul-le_self, mod-lt}
use meshtastenstein_rs.Radio.{
  Region, bw_code_to_hz, bw_hz_to_code, freq_start_hz, freq_end_hz, band_hz, num_channels,
  wrap_channel, frequency_hz,
}

-- A bandwidth code comes back from Hz as it was, but for 1625, which is the Hz of code 1600.
pub bw_hz_to_code-bw_code_to_hz :
    (code : ℕ)
    → code < 2 ^ 16
    → bw_hz_to_code (bw_code_to_hz code) ≡ (if code == 1625 then 1600 else code)
unfolding bw_hz_to_code bw_code_to_hz
bw_hz_to_code-bw_code_to_hz code h = ground arith

bands_open :
    (region : Region) → (freq_start_hz region < freq_end_hz region) × (freq_end_hz region < 2 ^ 32)
unfolding freq_start_hz freq_end_hz
bands_open region = ground arith

num_channels-fit :
    (region : Region) (bw : ℕ)
    → num_channels region bw * bw ≤ freq_end_hz region - freq_start_hz region
unfolding num_channels band_hz
num_channels-fit region zero = ground (arith, mul-zero 0)
num_channels-fit region (suc bw) =
    div-mul-le_self (freq_end_hz region - freq_start_hz region) (suc bw)

wrap_channel_lt : (index n : ℕ) → 0 < n → wrap_channel index n < n
wrap_channel_lt index zero h = absurd (omega arith)
wrap_channel_lt index (suc n) h = mod-lt index {m = suc n} (omega arith)

-- Where the band has room for a channel of the bandwidth, the whole channel lies in the band, for
-- any channel index: half a bandwidth on either side of the carrier; and no frequency passes a
-- `u32`.
pub frequency_hz_in_band :
    (region : Region) (bw channel_index : ℕ)
    → 0 < num_channels region bw
    → (freq_start_hz region + bw / 2 ≤ frequency_hz region bw channel_index)
      × (frequency_hz region bw channel_index + (bw - bw / 2) ≤ freq_end_hz region)
      × (frequency_hz region bw channel_index < 2 ^ 32)
unfolding frequency_hz
frequency_hz_in_band region bw channel_index room =
    let n : ℕ = num_channels region bw in
    let ch : ℕ = wrap_channel channel_index n in
    let inside : suc ch ≤ n = wrap_channel_lt channel_index n room in
    let width : suc ch * bw ≤ n * bw = mul-le-mul_right {m = suc ch} {n = n} bw inside in
    let next : suc ch * bw ≡ ch * bw + bw = suc-mul ch bw in
    let fits : n * bw ≤ freq_end_hz region - freq_start_hz region = num_channels-fit region bw in
    (
      ground (arith, width, next, fits, bands_open region),
      ground (arith, width, next, fits, bands_open region),
      ground (arith, width, next, fits, bands_open region),
    )

-- Where the band has no room for a channel, the carrier is put on the lower edge of the band, and
-- the lower half of what is sent lies outside it.
pub frequency_hz_no_room :
    (region : Region) (bw channel_index : ℕ)
    → num_channels region bw ≡ 0
    → frequency_hz region bw channel_index ≡ freq_start_hz region
unfolding frequency_hz
frequency_hz_no_room region bw channel_index none_fit = ground (arith, none_fit)
