-- ===== src/Radio.antt =====
-- meshtastenstein-core/src/domain/radio_config.rs: regions, modem presets and channel frequencies.
-- `Region` and `ModemPreset` are generated enums; the variants are those of the exhaustive matches
-- in this file. What `try_from` makes of a number is a parameter.
pub mod Preset
pub mod Bands
mod Tests
use meshtastenstein_rs.Base.{
  ℕ, zero, suc, ◌+◌, ◌-◌, ◌*◌, ◌/◌, ◌%◌, ◌^◌, Option, List, [], ◌∷◌, ◌==◌, if◌then◌else◌, unwrap_or,
}

unfoldable pub djb2_from : ℕ → List ℕ → ℕ
djb2_from h [] = h
djb2_from h (b ∷ bs) = djb2_from (((h * 33) % 2 ^ 32 + b) % 2 ^ 32) bs

abbrev pub djb2 : List ℕ → ℕ
djb2 s = djb2_from 5381 s

pub record ModemConfig : Type 0 where
  pub spreading_factor : ℕ
  pub bandwidth_hz : ℕ
  pub coding_rate : ℕ

unfoldable pub bw_code_to_hz : ℕ → ℕ
bw_code_to_hz code =
    if code == 31
    then 31250
    else if code == 62
    then 62500
    else if code == 200
    then 203125
    else if code == 400
    then 406250
    else if code == 800
    then 812500
    else if code == 1600
    then 1625000
    else code * 1000

unfoldable pub bw_hz_to_code : ℕ → ℕ
bw_hz_to_code hz =
    if hz == 31250
    then 31
    else if hz == 62500
    then 62
    else if hz == 203125
    then 200
    else if hz == 406250
    then 400
    else if hz == 812500
    then 800
    else if hz == 1625000
    then 1600
    else (hz / 1000) % 2 ^ 16

pub data Region : Type 0 where
  us : Region
  br902 : Region
  unset : Region
  eu433 : Region
  ua433 : Region
  my433 : Region
  ph433 : Region
  eu868 : Region
  eu_n868 : Region
  cn : Region
  jp : Region
  anz : Region
  anz433 : Region
  ru : Region
  kr : Region
  tw : Region
  th : Region
  in_ : Region
  np865 : Region
  nz865 : Region
  ua868 : Region
  ph868 : Region
  my919 : Region
  sg923 : Region
  eu917 : Region
  ph915 : Region
  kz433 : Region
  kz863 : Region
  lora24 : Region
  eu866 : Region
  eu874 : Region
  itu12m : Region
  itu22m : Region
  itu32m : Region
  itu2125cm : Region
  itu170cm : Region
  itu370cm : Region
  itu270cm : Region

-- `try_from` is the generated conversion
abbrev pub region_from_proto : (ℕ → Option Region) → ℕ → Region
region_from_proto try_from v = unwrap_or (try_from v) Region.eu433

unfoldable pub freq_start_hz : Region → ℕ
freq_start_hz Region.us = 902000000
freq_start_hz Region.br902 = 902000000
freq_start_hz Region.unset = 902000000
freq_start_hz Region.eu433 = 433000000
freq_start_hz Region.ua433 = 433000000
freq_start_hz Region.my433 = 433000000
freq_start_hz Region.ph433 = 433000000
freq_start_hz Region.eu868 = 869400000
freq_start_hz Region.eu_n868 = 869400000
freq_start_hz Region.cn = 470000000
freq_start_hz Region.jp = 920500000
freq_start_hz Region.anz = 915000000
freq_start_hz Region.anz433 = 433050000
freq_start_hz Region.ru = 868700000
freq_start_hz Region.kr = 920000000
freq_start_hz Region.tw = 920000000
freq_start_hz Region.th = 920000000
freq_start_hz Region.in_ = 865000000
freq_start_hz Region.np865 = 865000000
freq_start_hz Region.nz865 = 864000000
freq_start_hz Region.ua868 = 868000000
freq_start_hz Region.ph868 = 868000000
freq_start_hz Region.my919 = 919000000
freq_start_hz Region.sg923 = 917000000
freq_start_hz Region.eu917 = 917000000
freq_start_hz Region.ph915 = 915000000
freq_start_hz Region.kz433 = 433075000
freq_start_hz Region.kz863 = 863000000
freq_start_hz Region.lora24 = 2400000000
freq_start_hz Region.eu866 = 865600000
freq_start_hz Region.eu874 = 874000000
freq_start_hz Region.itu12m = 144000000
freq_start_hz Region.itu22m = 144000000
freq_start_hz Region.itu32m = 144000000
freq_start_hz Region.itu2125cm = 220000000
freq_start_hz Region.itu170cm = 430000000
freq_start_hz Region.itu370cm = 430000000
freq_start_hz Region.itu270cm = 420000000

unfoldable pub freq_end_hz : Region → ℕ
freq_end_hz Region.us = 928000000
freq_end_hz Region.br902 = 907500000
freq_end_hz Region.unset = 928000000
freq_end_hz Region.eu433 = 434000000
freq_end_hz Region.ua433 = 434700000
freq_end_hz Region.my433 = 435000000
freq_end_hz Region.ph433 = 434700000
freq_end_hz Region.eu868 = 869650000
freq_end_hz Region.eu_n868 = 869650000
freq_end_hz Region.cn = 510000000
freq_end_hz Region.jp = 923500000
freq_end_hz Region.anz = 928000000
freq_end_hz Region.anz433 = 434790000
freq_end_hz Region.ru = 869200000
freq_end_hz Region.kr = 923000000
freq_end_hz Region.tw = 925000000
freq_end_hz Region.th = 925000000
freq_end_hz Region.in_ = 867000000
freq_end_hz Region.np865 = 868000000
freq_end_hz Region.nz865 = 868000000
freq_end_hz Region.ua868 = 868600000
freq_end_hz Region.ph868 = 869400000
freq_end_hz Region.my919 = 924000000
freq_end_hz Region.sg923 = 925000000
freq_end_hz Region.eu917 = 918000000
freq_end_hz Region.ph915 = 918000000
freq_end_hz Region.kz433 = 434775000
freq_end_hz Region.kz863 = 868000000
freq_end_hz Region.lora24 = 2483500000
freq_end_hz Region.eu866 = 867600000
freq_end_hz Region.eu874 = 874400000
freq_end_hz Region.itu12m = 146000000
freq_end_hz Region.itu22m = 148000000
freq_end_hz Region.itu32m = 148000000
freq_end_hz Region.itu2125cm = 225000000
freq_end_hz Region.itu170cm = 440000000
freq_end_hz Region.itu370cm = 450000000
freq_end_hz Region.itu270cm = 450000000

unfoldable pub band_hz : Region → ℕ
band_hz region = freq_end_hz region - freq_start_hz region

unfoldable pub num_channels : Region → ℕ → ℕ
num_channels region zero = 0
num_channels region (suc bw) = band_hz region / suc bw

-- the division for a channel count that is not 0
abbrev pub wrap_channel : ℕ → ℕ → ℕ
wrap_channel index zero = 0
wrap_channel index (suc n) = index % suc n

unfoldable pub frequency_hz : Region → ℕ → ℕ → ℕ
frequency_hz region bandwidth_hz channel_index =
    let num_ch = num_channels region bandwidth_hz in
    if num_ch == 0
    then freq_start_hz region
    else (let ch = wrap_channel channel_index num_ch in
        freq_start_hz region + bandwidth_hz / 2 + ch * bandwidth_hz)

-- `duty_cycle_pct`, in tenths of a percent: all the values are exact
unfoldable pub duty_cycle_tenths : Region → ℕ
duty_cycle_tenths Region.us = 1000
duty_cycle_tenths Region.cn = 1000
duty_cycle_tenths Region.jp = 1000
duty_cycle_tenths Region.anz = 1000
duty_cycle_tenths Region.anz433 = 1000
duty_cycle_tenths Region.ru = 1000
duty_cycle_tenths Region.kr = 1000
duty_cycle_tenths Region.tw = 1000
duty_cycle_tenths Region.in_ = 1000
duty_cycle_tenths Region.nz865 = 1000
duty_cycle_tenths Region.my433 = 1000
duty_cycle_tenths Region.my919 = 1000
duty_cycle_tenths Region.sg923 = 1000
duty_cycle_tenths Region.ph433 = 1000
duty_cycle_tenths Region.ph868 = 1000
duty_cycle_tenths Region.ph915 = 1000
duty_cycle_tenths Region.kz433 = 1000
duty_cycle_tenths Region.kz863 = 1000
duty_cycle_tenths Region.np865 = 1000
duty_cycle_tenths Region.br902 = 1000
duty_cycle_tenths Region.lora24 = 1000
duty_cycle_tenths Region.unset = 1000
duty_cycle_tenths Region.itu12m = 1000
duty_cycle_tenths Region.itu22m = 1000
duty_cycle_tenths Region.itu32m = 1000
duty_cycle_tenths Region.itu2125cm = 1000
duty_cycle_tenths Region.itu170cm = 1000
duty_cycle_tenths Region.itu270cm = 1000
duty_cycle_tenths Region.itu370cm = 1000
duty_cycle_tenths Region.eu433 = 100
duty_cycle_tenths Region.th = 100
duty_cycle_tenths Region.ua433 = 100
duty_cycle_tenths Region.eu868 = 10
duty_cycle_tenths Region.ua868 = 10
duty_cycle_tenths Region.eu866 = 25
duty_cycle_tenths Region.eu_n868 = 100
duty_cycle_tenths Region.eu874 = 10
duty_cycle_tenths Region.eu917 = 10
