-- ===== src/Persistence/Restart.antt =====
-- What the settings are after they are stored, the device restarts and they are read back.
use meshtastenstein_rs.Base.{
  ℕ, ◌+◌, ◌-◌, ◌%◌, ◌≡◌, ◌≢◌, ◌≤◌, ◌<◌, refl, ap, sym, subst, ◌∙◌, Bool, true, not, Bool-cases, inl,
  inr, Option, none, some, List, [], ◌∷◌, ◌++◌, map, ◌==◌, if◌then◌else◌, unwrap_or, length,
  get_elem?, take, replicate, take_all-append, take_of_length-le, length-map, retain, All, arith,
}
use meshtastenstein_rs.Radio.{bw_code_to_hz, bw_hz_to_code}
use meshtastenstein_rs.Radio.Preset.{ModemPreset}
use meshtastenstein_rs.Channels.{ChannelConfig, max_channels, present, is_enabled, get_channel}
use meshtastenstein_rs.Device.{DeviceState}
use meshtastenstein_rs.Persistence.{SavedChannel, SavedConfig, no_channel}
use meshtastenstein_rs.Persistence.Config.{IsSavedChannel, IsSavedConfig}
use meshtastenstein_rs.Persistence.Decoded.{zero_padded-IsPadded}
use meshtastenstein_rs.Persistence.Table.{
  IsIndexed, IsName, IsSaveableChannel, HasChannelCodes, restore_name-zero_padded,
  saved_channel-IsSavedChannel, set_active, restore_channels-active, set_active_has,
}
use meshtastenstein_rs.Persistence.Settings.{
  Conversions, active_channels, saved_channel, saved_config_from_device, restore_channels,
  apply_saved_config,
}

-- A device whose settings the record can hold: the conversions read back what they wrote, the
-- numbers are none that stand for erased bytes, and its channels lie at their own indices.
unfoldable pub IsSaveable : Conversions → DeviceState → Type 0
IsSaveable conv d =
    IsName conv 40 d.long_name
    × IsName conv 5 d.short_name
    × (conv.preset_of (conv.preset_code d.modem_preset) ≡ some d.modem_preset)
    × (conv.role_of (conv.role_code d.role) ≡ some d.role)
    × (bw_code_to_hz (bw_hz_to_code d.custom_bw_hz) ≡ d.custom_bw_hz)
    × (bw_hz_to_code d.custom_bw_hz < 65536)
    × (d.channel_num < 65535)
    × (d.default_hops ≢ 255)
    × HasChannelCodes conv
    × (length d.channels ≡ max_channels)
    × IsIndexed 0 d.channels
    × All (IsSaveableChannel conv) (present d.channels)

-- the settings that a restart keeps
unfoldable pub SameSettings : DeviceState → DeviceState → Type 0
SameSettings d e =
    (e.long_name ≡ d.long_name)
    × (e.short_name ≡ d.short_name)
    × (e.region ≡ d.region)
    × (e.modem_preset ≡ d.modem_preset)
    × (e.use_preset ≡ d.use_preset)
    × (e.custom_sf ≡ d.custom_sf)
    × (e.custom_bw_hz ≡ d.custom_bw_hz)
    × (e.custom_cr ≡ d.custom_cr)
    × (e.channel_num ≡ d.channel_num)
    × (e.default_hops ≡ d.default_hops)
    × (e.tx_enabled ≡ d.tx_enabled)
    × (e.config_ok_to_mqtt ≡ d.config_ok_to_mqtt)
    × (e.role ≡ d.role)
    × ((i : ℕ) (c : ChannelConfig)
        → get_channel i d.channels ≡ some c
        → is_enabled c ≡ true
        → get_channel i e.channels ≡ some c)

length-active_channels :
    (cs : List (Option ChannelConfig)) → length (active_channels cs) ≤ length cs
unfolding active_channels present retain
length-active_channels [] = omega arith
length-active_channels (none ∷ cs) = omega (arith, length-active_channels cs)
length-active_channels (some c ∷ cs) = ground (arith, length-active_channels cs)

active_channels-saveable :
    (conv : Conversions) (cs : List (Option ChannelConfig))
    → All (IsSaveableChannel conv) (present cs)
    → All IsSavedChannel (map (saved_channel conv) (active_channels cs))
unfolding active_channels present retain
active_channels-saveable conv [] h = tt
active_channels-saveable conv (none ∷ cs) h = active_channels-saveable conv cs h
active_channels-saveable conv (some c ∷ cs) h = elim (Bool-cases (is_enabled c)) [
  | inr off ↦ rw (off) (active_channels-saveable conv cs h.1)
  | inl on ↦ rw (on) (saved_channel-IsSavedChannel conv c h.0, active_channels-saveable conv cs h.1)
]

flag_code : Bool → ℕ
flag_code b = if b then 1 else 0

flag_small : (b : Bool) → flag_code b ≢ 255
unfolding flag_code
flag_small b = ground arith

flag_bit : (b : Bool) → flag_code b < 2
unfolding flag_code
flag_bit b = ground arith

flag_back : (b : Bool) → not (flag_code b == 0) ≡ b
unfolding flag_code
flag_back b = ground arith

pub saved_config_from_device-IsSavedConfig :
    (conv : Conversions) (d : DeviceState)
    → IsSaveable conv d
    → IsSavedConfig (saved_config_from_device conv d)
unfolding flag_code saved_config_from_device IsSavedConfig IsSaveable IsName
saved_config_from_device-IsSavedConfig conv d h =
    let active : List ChannelConfig = active_channels d.channels in
    let few : length active ≤ 8 = omega (arith, length-active_channels d.channels, h.9) in
    let all_there : take 8 active ≡ active = take_of_length-le active 8 few in
    let saved : List SavedChannel = map (saved_channel conv) (take 8 active) in
    let count : length saved ≤ 8 =
      omega (arith, few, length-map (saved_channel conv) (take 8 active), ap length all_there) in
    let used : take (length saved) (saved ++ replicate (8 - length saved) no_channel) ≡ saved =
      take_all-append saved (replicate (8 - length saved) no_channel) (length saved) refl in
    let good : All IsSavedChannel saved =
      subst (λ l. All IsSavedChannel (map (saved_channel conv) l)) (sym all_there)
        (active_channels-saveable conv d.channels h.11) in
    (
      zero_padded-IsPadded 40 (length d.long_name % 256) d.long_name (omega (arith, h.0.1))
          (omega (arith, h.0.1)),
      zero_padded-IsPadded 5 (length d.short_name % 256) d.short_name (omega (arith, h.1.1))
          (omega (arith, h.1.1)),
      count,
      ap length used,
      ap (λ l. l ++ replicate (8 - length saved) no_channel) used,
      subst (All IsSavedChannel) (sym used) good,
      h.5,
      omega (arith, h.6),
      h.7,
      flag_small d.tx_enabled,
      flag_bit d.config_ok_to_mqtt,
    )

from_zero : (i : ℕ) → 0 + i ≡ i
from_zero i = omega arith

at_index :
    (i : ℕ) (c : ChannelConfig) (cs : List (Option ChannelConfig))
    → get_channel i cs ≡ some c
    → get_elem? cs i ≡ some (some c)
unfolding get_channel
at_index i c cs at = ground arith

-- Settings that the record can hold are those that a device gets from the record, whatever it had
-- before: the names, the radio's parameters, the role and every enabled channel.
pub saved_config_from_device-SameSettings :
    (conv : Conversions) (d fresh : DeviceState)
    → IsSaveable conv d
    → length fresh.channels ≡ max_channels
    → SameSettings d (apply_saved_config conv (saved_config_from_device conv d) fresh)
unfolding SameSettings IsSaveable apply_saved_config saved_config_from_device flag_code
saved_config_from_device-SameSettings conv d fresh h size =
    let cfg : SavedConfig = saved_config_from_device conv d in
    let e : DeviceState = apply_saved_config conv cfg fresh in
    let active : List ChannelConfig = active_channels d.channels in
    let few : length active ≤ 8 = omega (arith, length-active_channels d.channels, h.9) in
    let all_there : take 8 active ≡ active = take_of_length-le active 8 few in
    let saved : List SavedChannel = map (saved_channel conv) (take 8 active) in
    let used : take (length saved) (saved ++ replicate (8 - length saved) no_channel) ≡ saved =
      take_all-append saved (replicate (8 - length saved) no_channel) (length saved) refl in
    let table : e.channels ≡ set_active d.channels fresh.channels =
      ap (λ l. restore_channels conv l fresh.channels)
        (used ∙ ap (map (saved_channel conv)) all_there)
      ∙ restore_channels-active conv d.channels fresh.channels h.8 h.11 in
    let restored : (i : ℕ) (c : ChannelConfig)
        → get_channel i d.channels ≡ some c
        → is_enabled c ≡ true
        → get_channel i e.channels ≡ some c =
      λ i c at on.
        ap (get_channel i) table
        ∙ subst (λ k. get_channel k (set_active d.channels fresh.channels) ≡ some c) (from_zero i)
            (set_active_has i 0 c d.channels fresh.channels (at_index i c d.channels at) on h.10
              (omega (arith, h.9)) size) in
    (
      restore_name-zero_padded conv 40 d.long_name fresh.long_name h.0 (omega arith),
      restore_name-zero_padded conv 5 d.short_name fresh.short_name h.1 (omega arith),
      refl,
      ap (λ p. unwrap_or p ModemPreset.long_fast) h.2,
      flag_back d.use_preset,
      refl,
      h.4,
      refl,
      omega (arith, h.6),
      refl,
      flag_back d.tx_enabled,
      flag_back d.config_ok_to_mqtt,
      ap (λ r. unwrap_or r conv.default_role) h.3,
      restored,
    )
