-- ===== src/Persistence/Settings.antt =====
-- Between the device's settings and the record that is stored. `str::from_utf8` and the generated
-- conversions of the enums are parameters.
use meshtastenstein_rs.Base.{
  ℕ, ◌%◌, Bool, ◌&&◌, Option, none, some, List, [], ◌∷◌, ◌++◌, map, ◌-◌, ◌==◌, ltb, leb, not,
  if◌then◌else◌, unwrap_or, length, take, replicate, retain,
}
use meshtastenstein_rs.Router.{DeviceRole}
use meshtastenstein_rs.Radio.{bw_code_to_hz, bw_hz_to_code}
use meshtastenstein_rs.Radio.Preset.{ModemPreset, preset_from_proto}
use meshtastenstein_rs.Channels.{ChannelConfig, ChannelRole, present, is_enabled, set_channel}
use meshtastenstein_rs.Device.{DeviceState}
use meshtastenstein_rs.Persistence.{zero_padded, SavedChannel, SavedConfig, no_channel}

-- the conversions that the build generates, and the check of UTF-8
pub record Conversions : Type 0 where
  pub is_utf8 : List ℕ → Bool
  pub role_code : DeviceRole → ℕ
  pub role_of : ℕ → Option DeviceRole
  pub default_role : DeviceRole
  pub preset_code : ModemPreset → ℕ
  pub preset_of : ℕ → Option ModemPreset
  pub channel_role_code : ChannelRole → ℕ

unfoldable pub active_channels : List (Option ChannelConfig) → List ChannelConfig
active_channels channels = retain is_enabled (present channels)

module _ (conv : Conversions) where
  unfoldable pub saved_channel : ChannelConfig → SavedChannel
  saved_channel ch = record {
    index = ch.index;
    role = conv.channel_role_code ch.role;
    psk_len = length ch.psk % 256;
    psk = zero_padded 32 ch.psk;
    name_len = length ch.name % 256;
    name = zero_padded 12 ch.name;
  }

  unfoldable pub saved_config_from_device : DeviceState → SavedConfig
  saved_config_from_device d =
      let saved = map saved_channel (take 8 (active_channels d.channels)) in
      record {
        long_name_len = length d.long_name % 256;
        long_name = zero_padded 40 d.long_name;
        short_name_len = length d.short_name % 256;
        short_name = zero_padded 5 d.short_name;
        region = d.region;
        modem_preset = conv.preset_code d.modem_preset;
        role = conv.role_code d.role;
        num_channels = length saved;
        channels = saved ++ replicate (8 - length saved) no_channel;
        use_preset = if d.use_preset then 1 else 0;
        spread_factor = d.custom_sf;
        bandwidth_code = bw_hz_to_code d.custom_bw_hz;
        coding_rate = d.custom_cr;
        channel_num = d.channel_num % 65536;
        hop_limit = d.default_hops;
        tx_enabled = if d.tx_enabled then 1 else 0;
        config_ok_to_mqtt = if d.config_ok_to_mqtt then 1 else 0;
      }

  -- a name is taken over when it is there and is UTF-8; `push_str` stores nothing that does not fit
  unfoldable pub restore_name : ℕ → ℕ → List ℕ → List ℕ → List ℕ
  restore_name capacity len stored name =
      if ltb 0 len && conv.is_utf8 (take len stored)
      then if leb (length (take len stored)) capacity then take len stored else []
      else name

  unfoldable pub restored_role : ℕ → Option ChannelRole
  restored_role code =
      if code == 1
      then some ChannelRole.primary
      else if code == 2
      then some ChannelRole.secondary
      else none

  unfoldable pub restored_channel : ChannelRole → SavedChannel → ChannelConfig
  restored_channel role sc = record {
    index = sc.index;
    name = if conv.is_utf8 (take sc.name_len sc.name) then take sc.name_len sc.name else [];
    psk = take sc.psk_len sc.psk;
    role = role;
  }

  -- the body of the loop over the stored channels
  unfoldable pub restore_channel :
      SavedChannel → List (Option ChannelConfig) → List (Option ChannelConfig)
  restore_channel sc channels = elim (restored_role sc.role) [
    | none ↦ channels
    | some role ↦ set_channel sc.index (restored_channel role sc) channels
  ]

  unfoldable pub restore_channels :
      List SavedChannel → List (Option ChannelConfig) → List (Option ChannelConfig)
  restore_channels [] channels = channels
  restore_channels (sc ∷ scs) channels = restore_channels scs (restore_channel sc channels)

  unfoldable pub apply_saved_config : SavedConfig → DeviceState → DeviceState
  apply_saved_config saved d = record d {
    long_name = restore_name 40 saved.long_name_len saved.long_name d.long_name;
    short_name = restore_name 5 saved.short_name_len saved.short_name d.short_name;
    region = saved.region;
    modem_preset = preset_from_proto conv.preset_of saved.modem_preset;
    use_preset = not (saved.use_preset == 0);
    custom_sf = saved.spread_factor;
    custom_bw_hz = bw_code_to_hz saved.bandwidth_code;
    custom_cr = saved.coding_rate;
    channel_num = saved.channel_num;
    default_hops = saved.hop_limit;
    tx_enabled = not (saved.tx_enabled == 0);
    config_ok_to_mqtt = not (saved.config_ok_to_mqtt == 0);
    role = unwrap_or (conv.role_of saved.role) conv.default_role;
    channels = restore_channels (take saved.num_channels saved.channels) d.channels;
  }
