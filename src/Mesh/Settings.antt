-- ===== src/Mesh/Settings.antt =====
-- What administration changes in the settings of the device: meshtastenstein-
-- core/src/domain/handlers/admin/set_owner.rs, set_config.rs and set_channel.rs, up to the call
-- that stores them, and `build_lora_config` of get_config.rs.
pub mod Bounds
use meshtastenstein_rs.Base.{
  ℕ, ◌*◌, ◌%◌, min, Bool, true, false, ◌&&◌, ◌||◌, not, Option, none, some, List, [], ◌∷◌, ◌==◌,
  leb, if◌then◌else◌, unwrap_or, length,
}
use meshtastenstein_rs.NodeDb.{User}
use meshtastenstein_rs.Channels.{ChannelRole, ChannelConfig, set_channel}
use meshtastenstein_rs.Radio.{bw_code_to_hz, bw_hz_to_code, region_from_proto}
use meshtastenstein_rs.Radio.Preset.{preset_from_proto}
use meshtastenstein_rs.Device.{DeviceState}
use meshtastenstein_rs.Message.{max_hop_limit}
use meshtastenstein_rs.Persistence.Settings.{Conversions}
use meshtastenstein_rs.Proto.{LoRaConfig, ChannelSettings, Config, Wire}

-- `clear` and `push_str` on a string of bounded capacity: what does not fit is left out whole
unfoldable pub bounded_text : ℕ → List ℕ → List ℕ
bounded_text capacity text = if leb (length text) capacity then text else []

abbrev pub long_name_capacity : ℕ
long_name_capacity = 40

abbrev pub short_name_capacity : ℕ
short_name_capacity = 5

abbrev pub channel_name_capacity : ℕ
channel_name_capacity = 12

abbrev pub custom_sf_default : ℕ
custom_sf_default = 11

abbrev pub custom_cr_default : ℕ
custom_cr_default = 5

abbrev pub custom_bw_default_hz : ℕ
custom_bw_default_hz = 250000

-- constants.rs
abbrev pub lora_tx_power_dbm : ℕ
lora_tx_power_dbm = 22

unfoldable pub clamp_custom_sf : ℕ → ℕ
clamp_custom_sf spread_factor =
    if leb 5 spread_factor && leb spread_factor 12 then spread_factor else custom_sf_default

unfoldable pub clamp_custom_cr : ℕ → ℕ
clamp_custom_cr coding_rate =
    if leb 4 coding_rate && leb coding_rate 8 then coding_rate else custom_cr_default

unfoldable pub clamp_custom_bw_hz : ℕ → ℕ
clamp_custom_bw_hz bandwidth_code =
    let hz = bw_code_to_hz (bandwidth_code % 65536) in if hz == 0 then custom_bw_default_hz else hz

unfoldable pub is_valid_psk_len : ℕ → Bool
is_valid_psk_len len = len == 0 || len == 1 || len == 16 || len == 32

module _ {P M : Type 0} (w : Wire P M) where
  unfoldable pub apply_owner : User → DeviceState → DeviceState
  apply_owner user d = record d {
    long_name =
        if length user.long_name == 0
        then d.long_name
        else bounded_text long_name_capacity user.long_name;
    short_name =
        if length user.short_name == 0
        then d.short_name
        else bounded_text short_name_capacity user.short_name;
    hw_model =
        if not (user.hw_model == 0) && w.is_hw_model user.hw_model
        then user.hw_model
        else d.hw_model;
  }

  -- the arm `Lora` of `set_config::handle`
  unfoldable pub apply_lora : LoRaConfig → DeviceState → DeviceState
  apply_lora l d = record d {
    region = w.region_code (region_from_proto w.region_of (l.region % 256));
    use_preset = l.use_preset;
    modem_preset = preset_from_proto w.conversions.preset_of (l.modem_preset % 256);
    custom_sf = clamp_custom_sf l.spread_factor;
    custom_bw_hz = clamp_custom_bw_hz l.bandwidth;
    custom_cr = clamp_custom_cr l.coding_rate;
    channel_num = l.channel_num;
    default_hops = min (l.hop_limit % 256) max_hop_limit;
    tx_enabled = l.tx_enabled;
    config_ok_to_mqtt = l.config_ok_to_mqtt;
  }

  -- the arm `Device`
  unfoldable pub apply_role : ℕ → DeviceState → DeviceState
  apply_role code d = elim (w.conversions.role_of code) [
    | none ↦ d
    | some role ↦ record d { role = role }
  ]

  unfoldable pub apply_config : Config → DeviceState → DeviceState
  apply_config (Config.device role) d = apply_role role d
  apply_config (Config.lora l) d = apply_lora l d
  apply_config Config.position d = d
  apply_config Config.power d = d
  apply_config Config.network d = d
  apply_config Config.display d = d
  apply_config Config.bluetooth d = d
  apply_config (Config.security public private) d = d
  apply_config Config.session_key d = d
  apply_config Config.device_ui d = d

  unfoldable pub new_channel : ℕ → ChannelSettings → ℕ → ChannelConfig
  new_channel index settings role = record {
    index = index % 256;
    name = bounded_text channel_name_capacity settings.name;
    psk = settings.psk;
    role = unwrap_or (w.channel_role_of role) ChannelRole.secondary;
  }

  -- `none` where the channel is refused
  unfoldable pub apply_channel : ℕ → Option ChannelSettings → ℕ → DeviceState → Option DeviceState
  apply_channel index none role d = none
  apply_channel index (some settings) role d =
      if not (is_valid_psk_len (length settings.psk))
      then none
      else some (record d {
        channels = set_channel (index % 256) (new_channel index settings role) d.channels;
      })

  unfoldable pub build_lora_config : DeviceState → LoRaConfig
  build_lora_config d = record {
    use_preset = d.use_preset;
    modem_preset = w.conversions.preset_code d.modem_preset;
    region = d.region;
    hop_limit = d.default_hops;
    tx_enabled = d.tx_enabled;
    config_ok_to_mqtt = d.config_ok_to_mqtt;
    spread_factor = d.custom_sf;
    bandwidth = bw_hz_to_code d.custom_bw_hz;
    coding_rate = d.custom_cr;
    channel_num = d.channel_num;
    tx_power = lora_tx_power_dbm;
  }
