-- ===== src/Radio/Tests.antt =====
-- Frequencies and bandwidth codes at concrete settings.
use meshtastenstein_rs.Base.{◌+◌, ◌-◌, ◌^◌, ◌/◌, ◌≤◌, ◌<◌, ◌≡◌, refl, arith}
use meshtastenstein_rs.Radio.{
  Region, bw_code_to_hz, bw_hz_to_code, freq_start_hz, freq_end_hz, frequency_hz, num_channels,
  band_hz, djb2_from,
}
use meshtastenstein_rs.Radio.Preset.{
  ModemPreset, default_channel_index, preset_frequency_hz, display_name, config, bandwidth_hz,
}
use meshtastenstein_rs.Radio.Bands.{bw_hz_to_code-bw_code_to_hz, frequency_hz_in_band}

-- EU_433 with LongFast is 433.875 MHz.
eu433_long_fast :
    preset_frequency_hz ModemPreset.long_fast Region.eu433
      (default_channel_index Region.eu433 ModemPreset.long_fast)
    ≡ 433875000
unfolding preset_frequency_hz default_channel_index display_name config bandwidth_hz frequency_hz
    num_channels band_hz freq_start_hz freq_end_hz djb2_from
eu433_long_fast = refl

bw_hz_to_code-bw_code_to_hz_example : bw_hz_to_code (bw_code_to_hz 1625) ≡ 1600
bw_hz_to_code-bw_code_to_hz_example = bw_hz_to_code-bw_code_to_hz 1625 (omega arith)

frequency_hz_in_band_example :
    (freq_start_hz Region.eu433 + 250000 / 2 ≤ frequency_hz Region.eu433 250000 7)
    × (frequency_hz Region.eu433 250000 7 + (250000 - 250000 / 2) ≤ freq_end_hz Region.eu433)
    × (frequency_hz Region.eu433 250000 7 < 2 ^ 32)
unfolding num_channels band_hz freq_start_hz freq_end_hz
frequency_hz_in_band_example = frequency_hz_in_band Region.eu433 250000 7 (omega arith)
