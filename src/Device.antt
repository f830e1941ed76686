-- ===== src/Device.antt =====
-- meshtastenstein-core/src/domain/device.rs, and the texts of a node's identity in
-- domain/handlers/util.rs. The defaults of the generated enums are parameters. Texts are ASCII
-- bytes.
pub mod NodeId
mod Tests
use meshtastenstein_rs.Base.{
  ℕ, suc, ◌+◌, ◌-◌, ◌*◌, ◌/◌, ◌%◌, Bool, true, false, not, Option, List, [], ◌∷◌, ◌++◌, ◌==◌,
  if◌then◌else◌, get_or, wrapping_add32, max, shr,
}
use meshtastenstein_rs.Router.{DeviceRole}
use meshtastenstein_rs.Channels.{ChannelConfig, new_channels}
use meshtastenstein_rs.Radio.{Region, ModemConfig, region_from_proto, frequency_hz}
use meshtastenstein_rs.Radio.Preset.{ModemPreset, config, default_channel_index}

abbrev pub hex_digits : List ℕ
hex_digits = 48 ∷ 49 ∷ 50 ∷ 51 ∷ 52 ∷ 53 ∷ 54 ∷ 55 ∷ 56 ∷ 57 ∷ 97 ∷ 98 ∷ 99 ∷ 100 ∷ 101 ∷ 102 ∷ []

unfoldable pub hex_byte : ℕ → List ℕ
hex_byte b = get_or hex_digits (shr b 4) 0 ∷ get_or hex_digits (b % 16) 0 ∷ []

-- `'!'`, then the four bytes of the number, the most significant first
unfoldable pub build_node_id_string : ℕ → List ℕ
build_node_id_string node_num =
    33
    ∷ (hex_byte (shr node_num 24 % 256)
        ++ (hex_byte (shr node_num 16 % 256)
            ++ (hex_byte (shr node_num 8 % 256) ++ hex_byte (shr node_num 0 % 256))))

-- the new counter, and the id that is used
unfoldable pub next_from_radio_id : ℕ → ℕ × ℕ
next_from_radio_id id = (max (wrapping_add32 id 1) 1, id)

-- `default_hops` is the field `hop_limit`, `packet_counter` the field `next_packet_id`.
pub record DeviceState : Type 0 where
  pub my_node_num : ℕ
  pub mac : List ℕ
  pub short_name : List ℕ
  pub long_name : List ℕ
  pub hw_model : ℕ
  pub role : DeviceRole
  pub modem_preset : ModemPreset
  pub region : ℕ
  pub use_preset : Bool
  pub custom_sf : ℕ
  pub custom_bw_hz : ℕ
  pub custom_cr : ℕ
  pub channel_num : ℕ
  pub default_hops : ℕ
  pub tx_enabled : Bool
  pub config_ok_to_mqtt : Bool
  pub channels : List (Option ChannelConfig)
  pub packet_counter : ℕ

-- `u32::from_be_bytes([mac[2], mac[3], mac[4], mac[5]])`
unfoldable pub node_num_of_mac : List ℕ → ℕ
node_num_of_mac mac =
    ((get_or mac 2 0 * 256 + get_or mac 3 0) * 256 + get_or mac 4 0) * 256 + get_or mac 5 0

unfoldable pub short_name_of_mac : List ℕ → List ℕ
short_name_of_mac mac = hex_byte (get_or mac 4 0) ++ hex_byte (get_or mac 5 0)

-- "Meshtastic "
abbrev pub long_name_prefix : List ℕ
long_name_prefix = 77 ∷ 101 ∷ 115 ∷ 104 ∷ 116 ∷ 97 ∷ 115 ∷ 116 ∷ 105 ∷ 99 ∷ 32 ∷ []

-- `DeviceState::new`
unfoldable pub new_device : DeviceRole → ModemPreset → List ℕ → DeviceState
new_device default_role default_preset mac = record {
  my_node_num = node_num_of_mac mac;
  mac = mac;
  short_name = short_name_of_mac mac;
  long_name = long_name_prefix ++ short_name_of_mac mac;
  hw_model = 43;
  role = default_role;
  modem_preset = default_preset;
  region = 2;
  use_preset = true;
  custom_sf = 11;
  custom_bw_hz = 250000;
  custom_cr = 5;
  channel_num = 0;
  default_hops = 3;
  tx_enabled = true;
  config_ok_to_mqtt = false;
  channels = new_channels;
  packet_counter = node_num_of_mac mac;
}

unfoldable pub next_packet_id : DeviceState → DeviceState × ℕ
next_packet_id d =
    let next = wrapping_add32 d.packet_counter 1 in (record d { packet_counter = next }, next)

unfoldable pub lora_params : (ℕ → Option Region) → DeviceState → ModemConfig × ℕ
lora_params try_from d =
    let region = region_from_proto try_from d.region in
    let modem_cfg = if d.use_preset then config d.modem_preset else record {
      spreading_factor = d.custom_sf;
      bandwidth_hz = d.custom_bw_hz;
      coding_rate = d.custom_cr;
    } in
    let channel_idx =
      if not (d.channel_num == 0)
      then d.channel_num - 1
      else default_channel_index region d.modem_preset in
    (modem_cfg, frequency_hz region modem_cfg.bandwidth_hz channel_idx)
