-- ===== src/Radio/Preset.antt =====
-- The modem presets of radio_config.rs.
use meshtastenstein_rs.Base.{ℕ, Option, List, [], ◌∷◌, unwrap_or}
use meshtastenstein_rs.Radio.{ModemConfig, Region, djb2, num_channels, frequency_hz, wrap_channel}

pub data ModemPreset : Type 0 where
  long_fast : ModemPreset
  long_slow : ModemPreset
  very_long_slow : ModemPreset
  medium_slow : ModemPreset
  medium_fast : ModemPreset
  short_slow : ModemPreset
  short_fast : ModemPreset
  long_moderate : ModemPreset
  short_turbo : ModemPreset
  long_turbo : ModemPreset
  lite_fast : ModemPreset
  lite_slow : ModemPreset
  narrow_fast : ModemPreset
  narrow_slow : ModemPreset
  tiny_fast : ModemPreset
  tiny_slow : ModemPreset
  medium_turbo : ModemPreset

-- `try_from` is the generated conversion
abbrev pub preset_from_proto : (ℕ → Option ModemPreset) → ℕ → ModemPreset
preset_from_proto try_from v = unwrap_or (try_from v) ModemPreset.long_fast

unfoldable pub spreading_factor : ModemPreset → ℕ
spreading_factor ModemPreset.long_fast = 11
spreading_factor ModemPreset.long_slow = 12
spreading_factor ModemPreset.very_long_slow = 12
spreading_factor ModemPreset.medium_slow = 11
spreading_factor ModemPreset.medium_fast = 9
spreading_factor ModemPreset.short_slow = 8
spreading_factor ModemPreset.short_fast = 7
spreading_factor ModemPreset.long_moderate = 11
spreading_factor ModemPreset.short_turbo = 7
spreading_factor ModemPreset.long_turbo = 11
spreading_factor ModemPreset.lite_fast = 9
spreading_factor ModemPreset.lite_slow = 10
spreading_factor ModemPreset.narrow_fast = 7
spreading_factor ModemPreset.narrow_slow = 8
spreading_factor ModemPreset.tiny_fast = 7
spreading_factor ModemPreset.tiny_slow = 8
spreading_factor ModemPreset.medium_turbo = 9

unfoldable pub bandwidth_hz : ModemPreset → ℕ
bandwidth_hz ModemPreset.long_fast = 250000
bandwidth_hz ModemPreset.long_slow = 125000
bandwidth_hz ModemPreset.very_long_slow = 62500
bandwidth_hz ModemPreset.medium_slow = 250000
bandwidth_hz ModemPreset.medium_fast = 250000
bandwidth_hz ModemPreset.short_slow = 250000
bandwidth_hz ModemPreset.short_fast = 250000
bandwidth_hz ModemPreset.long_moderate = 125000
bandwidth_hz ModemPreset.short_turbo = 500000
bandwidth_hz ModemPreset.long_turbo = 500000
bandwidth_hz ModemPreset.lite_fast = 125000
bandwidth_hz ModemPreset.lite_slow = 125000
bandwidth_hz ModemPreset.narrow_fast = 62500
bandwidth_hz ModemPreset.narrow_slow = 62500
bandwidth_hz ModemPreset.tiny_fast = 15600
bandwidth_hz ModemPreset.tiny_slow = 15600
bandwidth_hz ModemPreset.medium_turbo = 500000

unfoldable pub coding_rate : ModemPreset → ℕ
coding_rate ModemPreset.long_fast = 5
coding_rate ModemPreset.long_slow = 8
coding_rate ModemPreset.very_long_slow = 8
coding_rate ModemPreset.medium_slow = 8
coding_rate ModemPreset.medium_fast = 5
coding_rate ModemPreset.short_slow = 5
coding_rate ModemPreset.short_fast = 5
coding_rate ModemPreset.long_moderate = 8
coding_rate ModemPreset.short_turbo = 5
coding_rate ModemPreset.long_turbo = 5
coding_rate ModemPreset.lite_fast = 5
coding_rate ModemPreset.lite_slow = 5
coding_rate ModemPreset.narrow_fast = 6
coding_rate ModemPreset.narrow_slow = 6
coding_rate ModemPreset.tiny_fast = 5
coding_rate ModemPreset.tiny_slow = 6
coding_rate ModemPreset.medium_turbo = 5

unfoldable pub config : ModemPreset → ModemConfig
config preset = record {
  spreading_factor = spreading_factor preset;
  bandwidth_hz = bandwidth_hz preset;
  coding_rate = coding_rate preset;
}

-- the ASCII bytes of the name
unfoldable pub display_name : ModemPreset → List ℕ
display_name ModemPreset.long_fast = 76 ∷ 111 ∷ 110 ∷ 103 ∷ 70 ∷ 97 ∷ 115 ∷ 116 ∷ []
display_name ModemPreset.long_slow = 76 ∷ 111 ∷ 110 ∷ 103 ∷ 83 ∷ 108 ∷ 111 ∷ 119 ∷ []
display_name ModemPreset.very_long_slow =
    86 ∷ 101 ∷ 114 ∷ 121 ∷ 76 ∷ 111 ∷ 110 ∷ 103 ∷ 83 ∷ 108 ∷ 111 ∷ 119 ∷ []
display_name ModemPreset.medium_slow = 77 ∷ 101 ∷ 100 ∷ 105 ∷ 117 ∷ 109 ∷ 83 ∷ 108 ∷ 111 ∷ 119 ∷ []
display_name ModemPreset.medium_fast = 77 ∷ 101 ∷ 100 ∷ 105 ∷ 117 ∷ 109 ∷ 70 ∷ 97 ∷ 115 ∷ 116 ∷ []
display_name ModemPreset.short_slow = 83 ∷ 104 ∷ 111 ∷ 114 ∷ 116 ∷ 83 ∷ 108 ∷ 111 ∷ 119 ∷ []
display_name ModemPreset.short_fast = 83 ∷ 104 ∷ 111 ∷ 114 ∷ 116 ∷ 70 ∷ 97 ∷ 115 ∷ 116 ∷ []
display_name ModemPreset.long_moderate = 76 ∷ 111 ∷ 110 ∷ 103 ∷ 77 ∷ 111 ∷ 100 ∷ []
display_name ModemPreset.short_turbo = 83 ∷ 104 ∷ 111 ∷ 114 ∷ 116 ∷ 84 ∷ 117 ∷ 114 ∷ 98 ∷ 111 ∷ []
display_name ModemPreset.long_turbo = 76 ∷ 111 ∷ 110 ∷ 103 ∷ 84 ∷ 117 ∷ 114 ∷ 98 ∷ 111 ∷ []
display_name ModemPreset.lite_fast = 76 ∷ 105 ∷ 116 ∷ 101 ∷ 70 ∷ 97 ∷ 115 ∷ 116 ∷ []
display_name ModemPreset.lite_slow = 76 ∷ 105 ∷ 116 ∷ 101 ∷ 83 ∷ 108 ∷ 111 ∷ 119 ∷ []
display_name ModemPreset.narrow_fast = 78 ∷ 97 ∷ 114 ∷ 114 ∷ 111 ∷ 119 ∷ 70 ∷ 97 ∷ 115 ∷ 116 ∷ []
display_name ModemPreset.narrow_slow = 78 ∷ 97 ∷ 114 ∷ 114 ∷ 111 ∷ 119 ∷ 83 ∷ 108 ∷ 111 ∷ 119 ∷ []
display_name ModemPreset.tiny_fast = 84 ∷ 105 ∷ 110 ∷ 121 ∷ 70 ∷ 97 ∷ 115 ∷ 116 ∷ []
display_name ModemPreset.tiny_slow = 84 ∷ 105 ∷ 110 ∷ 121 ∷ 83 ∷ 108 ∷ 111 ∷ 119 ∷ []
display_name ModemPreset.medium_turbo =
    77 ∷ 101 ∷ 100 ∷ 105 ∷ 117 ∷ 109 ∷ 84 ∷ 117 ∷ 114 ∷ 98 ∷ 111 ∷ []

unfoldable pub default_channel_index : Region → ModemPreset → ℕ
default_channel_index region preset =
    wrap_channel (djb2 (display_name preset)) (num_channels region (config preset).bandwidth_hz)

unfoldable pub preset_num_channels : ModemPreset → Region → ℕ
preset_num_channels preset region = num_channels region (config preset).bandwidth_hz

unfoldable pub preset_frequency_hz : ModemPreset → Region → ℕ → ℕ
preset_frequency_hz preset region channel_index =
    frequency_hz region (config preset).bandwidth_hz channel_index
