-- ===== src/Mesh/Tests/Node.antt =====
-- A node and its surroundings, with the simplest functions for what is generated.
use meshtastenstein_rs.Base.{
  ℕ, true, false, none, some, List, [], ◌∷◌, ◌==◌, if◌then◌else◌, unwrap_or,
}
use meshtastenstein_rs.Packet.{Header, RadioFrame, broadcast_addr, from_parts, new_frame}
use meshtastenstein_rs.NodeDb.{new_db}
use meshtastenstein_rs.Router.{DeviceRole, MeshRouter, new_router}
use meshtastenstein_rs.Channels.{default_primary, hash}
use meshtastenstein_rs.Radio.{Region}
use meshtastenstein_rs.Radio.Preset.{ModemPreset, display_name}
use meshtastenstein_rs.Device.{DeviceState}
use meshtastenstein_rs.Message.{Data}
use meshtastenstein_rs.Storage.{Flash}
use meshtastenstein_rs.Proto.{PortNum, MeshPacket, Floats, Wire, ToRadio}
use meshtastenstein_rs.Mesh.{Moment, MeshCtx}
use meshtastenstein_rs.Mesh.Receive.{RadioMetadata}

abbrev pub text : Data
text = record {
  portnum = 1;
  inner_payload = 72 ∷ [];
  want_response = false;
  request_id = 0;
  reply_id = 0;
  emoji = 0;
  bitfield = none;
}

abbrev pub asked : MeshPacket
asked = record {
  from = 0;
  to = 5;
  channel = 8;
  id = 40;
  rx_time = none;
  rx_snr = 0;
  rx_rssi = none;
  hop_limit = 3;
  hop_start = 3;
  want_ack = true;
  priority = 0;
  public_key = [];
  decoded = some text;
}

abbrev pub port : ℕ → PortNum
port n = if n == 1 then PortNum.text_message_app else PortNum.other_app n

abbrev pub code : PortNum → ℕ
code PortNum.text_message_app = 1
code other = 0

abbrev pub quiet_floats : Floats
quiet_floats = record {
  lt = λ a b. true;
  mul = λ a b. a;
  of_tenths = λ n. n;
  max_channel_util_pct = 40;
  polite_channel_util_pct = 25;
  polite_duty_cycle_fraction = 1;
  channel_util_threshold = 40;
  scaled_interval = λ base n. base;
}

abbrev pub wire : Wire ℕ ℕ
wire = record {
  protocol = record {
    stream = λ key nonce i. 85;
    public_of = λ key. key;
    diffie_hellman = λ a b. [];
    sha256 = λ bytes. bytes;
    ccm_encrypt = λ key nonce plaintext. none;
    ccm_decrypt = λ key nonce ct tag. none;
    encode_data = λ d. 1 ∷ [];
    decode_data = λ bytes. some text;
    text_message_app = 1;
  };
  conversions = record {
    is_utf8 = λ bytes. true;
    role_code = λ r. 0;
    role_of = λ n. some DeviceRole.client;
    default_role = DeviceRole.client;
    preset_code = λ m. 0;
    preset_of = λ n. some ModemPreset.long_fast;
    channel_role_code = λ r. 1;
  };
  floats = quiet_floats;
  region_of = λ n. some Region.eu868;
  region_code = λ r. 3;
  channel_role_of = λ n. none;
  is_hw_model = λ n. true;
  port_of = port;
  port_code = code;
  background = 10;
  encode_from_radio = λ id m. id ∷ [];
  encode_routing = λ e. [];
  is_routing = λ bytes. true;
  decode_user = λ bytes. none;
  encode_user = λ u mac. 1 ∷ [];
  decode_position = λ bytes. none;
  encode_position = λ p. [];
  decode_telemetry = λ bytes. none;
  encode_telemetry = λ n m. 1 ∷ [];
  device_metrics_of = λ a b c d e. a;
  decode_neighbors = λ bytes. none;
  encode_neighbors = λ n ns. [];
  decode_route = λ bytes. none;
  encode_route = λ r. [];
  config_type_of = λ n. none;
  module_config_type_of = λ n. none;
  decode_admin = λ bytes. none;
  encode_admin = λ key m. [];
  decode_to_radio = λ bytes. some (ToRadio.packet asked);
}

abbrev pub no_flash : Flash (List ℕ)
no_flash = record {
  read = λ off n f. none;
  write = λ off bytes f. (f, false);
  erase = λ from to f. (f, false);
}

abbrev pub moment : Moment
moment = record { now = 1000; delay = 50; extra_nonce = 5; random_low = 1; random_high = 2 }

abbrev pub this_device : DeviceState
this_device = record {
  my_node_num = 7;
  mac = [];
  short_name = 65 ∷ [];
  long_name = 65 ∷ 66 ∷ [];
  hw_model = 43;
  role = DeviceRole.client;
  modem_preset = ModemPreset.long_fast;
  region = 3;
  use_preset = true;
  custom_sf = 11;
  custom_bw_hz = 250000;
  custom_cr = 5;
  channel_num = 0;
  default_hops = 3;
  tx_enabled = true;
  config_ok_to_mqtt = true;
  channels = some default_primary ∷ none ∷ none ∷ none ∷ none ∷ none ∷ none ∷ none ∷ [];
  packet_counter = 1;
}

abbrev pub node_with : MeshRouter → MeshCtx ℕ ℕ (List ℕ)
node_with r = record {
  device = this_device;
  node_db = new_db 7;
  storage = record {
    head = 0;
    tail = 0;
    count = 0;
    slots = [];
    flash = [];
    base_offset = 0;
    dirty = false;
  };
  router = r;
  pending_packets = [];
  pending_rebroadcast = [];
  my_position_bytes = [];
  session_passkey = none;
  from_radio_id = 1;
  ble_connected = true;
  last_nodeinfo_tx = none;
  last_position_tx = 0;
  last_lora_telemetry = none;
  last_neighborinfo_tx = none;
  channel_metrics = record { channel_util = 0; air_util_tx = 0 };
  reboot_after_secs = none;
  shutdown_after_secs = none;
  node_id_str = [];
  boot_time = 0;
  pkc_pub_bytes = [];
  pkc_priv_bytes = [];
  to_phone = [];
  ble_free = 64;
  to_lora = [];
  disconnect = false;
  tx_enabled = true;
}

abbrev pub idle : MeshCtx ℕ ℕ (List ℕ)
idle = node_with (new_router 7)

-- a text of node 5 for everyone, under the key of the primary channel
abbrev pub call : Header
call = record {
  destination = broadcast_addr;
  sender = 5;
  packet_id = 100;
  flags = 227;
  channel_index = hash (display_name ModemPreset.long_fast) default_primary;
  next_hop = 0;
  relay_node = 9;
}

abbrev pub framed : Header → RadioFrame
framed h = unwrap_or (from_parts h (9 ∷ 8 ∷ [])) new_frame

abbrev pub signal : RadioMetadata
signal = record { snr = 5; rssi = 60000 }
