-- ===== src/Proto.antt =====
-- The messages that domain/handlers of meshtastenstein-core exchange with the radio and the phone.
-- Their types are generated by the build: here they have the fields and the values that the source
-- names. The conversions, encodings and decodings are the parameters of `Wire`; a float is its bit
-- pattern, and a signed number its two's complement.
use meshtastenstein_rs.Base.{ℕ, Bool, Option, List}
use meshtastenstein_rs.NodeDb.{User}
use meshtastenstein_rs.Router.{DeviceRole}
use meshtastenstein_rs.Radio.{Region}
use meshtastenstein_rs.Channels.{ChannelRole}
use meshtastenstein_rs.Message.{Data, Protocol}
use meshtastenstein_rs.Persistence.Settings.{Conversions}

-- the port numbers that the handlers name
pub data PortNum : Type 0 where
  unknown_app : PortNum
  remote_hardware_app : PortNum
  text_message_app : PortNum
  text_message_compressed_app : PortNum
  position_app : PortNum
  nodeinfo_app : PortNum
  routing_app : PortNum
  admin_app : PortNum
  waypoint_app : PortNum
  telemetry_app : PortNum
  traceroute_app : PortNum
  neighborinfo_app : PortNum
  other_app : ℕ → PortNum

-- the values of `routing::Error` that the handlers name
pub data RoutingError : Type 0 where
  no_error : RoutingError
  pki_unknown_pubkey : RoutingError
  pki_failed : RoutingError
  pki_send_fail_public_key : RoutingError
  max_retransmit : RoutingError

-- `MeshPacket`, with the fields that the source names; `decoded` is `payload_variant`, if that is
-- `Decoded`.
pub record MeshPacket : Type 0 where
  pub from : ℕ
  pub to : ℕ
  pub channel : ℕ
  pub id : ℕ
  pub rx_time : Option ℕ
  pub rx_snr : ℕ
  pub rx_rssi : Option ℕ
  pub hop_limit : ℕ
  pub hop_start : ℕ
  pub want_ack : Bool
  pub priority : ℕ
  pub public_key : List ℕ
  pub decoded : Option Data

-- the `NodeInfo` of another node or of this one
pub record NodeInfo (P : Type 0) : Type 0 where
  pub num : ℕ
  pub user : Option User
  pub position_info : Option P
  pub snr : ℕ
  pub last_heard : ℕ
  pub hops_away : Option ℕ
  pub is_favorite : Bool
  pub is_ignored : Bool
  pub is_muted : Bool

pub record LoRaConfig : Type 0 where
  pub use_preset : Bool
  pub modem_preset : ℕ
  pub region : ℕ
  pub hop_limit : ℕ
  pub tx_enabled : Bool
  pub config_ok_to_mqtt : Bool
  pub spread_factor : ℕ
  pub bandwidth : ℕ
  pub coding_rate : ℕ
  pub channel_num : ℕ
  pub tx_power : ℕ

-- `ChannelSettings`
pub record ChannelSettings : Type 0 where
  pub psk : List ℕ
  pub name : List ℕ

-- `config::PayloadVariant`
pub data Config : Type 0 where
  device : ℕ → Config
  position : Config
  power : Config
  network : Config
  display : Config
  lora : LoRaConfig → Config
  bluetooth : Config
  security : List ℕ → List ℕ → Config
  session_key : Config
  device_ui : Config

-- `module_config::PayloadVariant`, every one with its default
pub data ModuleConfig : Type 0 where
  mqtt : ModuleConfig
  serial : ModuleConfig
  external_notification : ModuleConfig
  store_forward : ModuleConfig
  range_test : ModuleConfig
  telemetry : ModuleConfig
  canned_message : ModuleConfig
  audio : ModuleConfig
  remote_hardware : ModuleConfig
  neighbor_info : ModuleConfig
  ambient_lighting : ModuleConfig
  detection_sensor : ModuleConfig
  paxcounter : ModuleConfig
  status_message : ModuleConfig
  traffic_management : ModuleConfig
  tak : ModuleConfig
  mesh_beacon : ModuleConfig

-- `from_radio::PayloadVariant`
pub data FromRadio (P : Type 0) : Type 0 where
  packet : MeshPacket → FromRadio P
  node_info : NodeInfo P → FromRadio P
  my_info : ℕ → ℕ → FromRadio P
  device_ui : FromRadio P
  metadata : ℕ → DeviceRole → FromRadio P
  region_presets : FromRadio P
  channel : ℕ → Option ChannelSettings → ℕ → FromRadio P
  config : Config → FromRadio P
  module_config : ModuleConfig → FromRadio P
  config_complete_id : ℕ → FromRadio P
  queue_status : ℕ → FromRadio P

-- a message in the queue to the phone: its `data` and `id`
pub record FromRadioMessage : Type 0 where
  pub bytes : List ℕ
  pub id : ℕ

pub record RouteDiscovery : Type 0 where
  pub route : List ℕ
  pub snr_towards : List ℕ

-- `Neighbor`: the node, its signal and when it was heard
pub record Neighbor : Type 0 where
  pub node_id : ℕ
  pub snr : ℕ
  pub last_rx_time : ℕ

-- `SharedContact`
pub record SharedContact : Type 0 where
  pub node_num : ℕ
  pub user : Option User
  pub should_ignore : Bool

-- `admin_message::PayloadVariant`, as far as it is handled; `Channel` is an index, settings and a
-- role
pub data AdminRequest (P : Type 0) : Type 0 where
  get_owner_request : AdminRequest P
  get_config_request : ℕ → AdminRequest P
  get_channel_request : ℕ → AdminRequest P
  get_module_config_request : ℕ → AdminRequest P
  set_owner : User → AdminRequest P
  set_config : Option Config → AdminRequest P
  set_module_config : AdminRequest P
  set_channel : ℕ → Option ChannelSettings → ℕ → AdminRequest P
  set_favorite_node : ℕ → AdminRequest P
  remove_favorite_node : ℕ → AdminRequest P
  set_ignored_node : ℕ → AdminRequest P
  remove_ignored_node : ℕ → AdminRequest P
  toggle_muted_node : ℕ → AdminRequest P
  add_contact : SharedContact → AdminRequest P
  set_fixed_position : P → AdminRequest P
  remove_fixed_position : AdminRequest P
  begin_edit_settings : AdminRequest P
  commit_edit_settings : AdminRequest P
  reboot_seconds : ℕ → AdminRequest P
  factory_reset_config : AdminRequest P
  nodedb_reset : AdminRequest P
  shutdown_seconds : ℕ → AdminRequest P
  remove_by_nodenum : ℕ → AdminRequest P
  unhandled : AdminRequest P

pub data AdminResponse : Type 0 where
  owner : User → AdminResponse
  config : Config → AdminResponse
  channel : ℕ → Option ChannelSettings → ℕ → AdminResponse
  module_config : ModuleConfig → AdminResponse
  begin_edit_settings : AdminResponse
  commit_edit_settings : AdminResponse

-- `AdminMessage` as it is received
pub record AdminMessage (P : Type 0) : Type 0 where
  pub session_passkey : List ℕ
  pub payload_variant : AdminRequest P

-- `to_radio::PayloadVariant`
pub data ToRadio : Type 0 where
  packet : MeshPacket → ToRadio
  want_config_id : ℕ → ToRadio
  heartbeat : ℕ → ToRadio
  disconnect : ToRadio
  other : ToRadio

-- What `f32` does, on bit patterns, and the constants of that type.
pub record Floats : Type 0 where
  pub lt : ℕ → ℕ → Bool
  pub mul : ℕ → ℕ → ℕ
  pub of_tenths : ℕ → ℕ
  pub max_channel_util_pct : ℕ
  pub polite_channel_util_pct : ℕ
  pub polite_duty_cycle_fraction : ℕ
  pub channel_util_threshold : ℕ
  -- `(base as f32 * scale) as u64`, where the scale grows with the number of nodes online
  pub scaled_interval : ℕ → ℕ → ℕ

-- What the generated code gives: the encoding and decoding of messages, and numbers for enums.
pub record Wire (P M : Type 0) : Type 0 where
  pub protocol : Protocol
  pub conversions : Conversions
  pub floats : Floats
  pub region_of : ℕ → Option Region
  pub region_code : Region → ℕ
  pub channel_role_of : ℕ → Option ChannelRole
  pub is_hw_model : ℕ → Bool
  pub port_of : ℕ → PortNum
  pub port_code : PortNum → ℕ
  pub background : ℕ
  pub encode_from_radio : ℕ → FromRadio P → List ℕ
  pub encode_routing : RoutingError → List ℕ
  pub is_routing : List ℕ → Bool
  pub decode_user : List ℕ → Option User
  -- the user and the deprecated field `macaddr`
  pub encode_user : User → List ℕ → List ℕ
  pub decode_position : List ℕ → Option P
  pub encode_position : P → List ℕ
  -- the device metrics of a telemetry message, if it has them
  pub decode_telemetry : List ℕ → Option (Option M)
  pub encode_telemetry : ℕ → M → List ℕ
  -- charge, millivolts, the two channel metrics and the uptime
  pub device_metrics_of : ℕ → ℕ → ℕ → ℕ → ℕ → M
  pub decode_neighbors : List ℕ → Option (List ℕ)
  pub encode_neighbors : ℕ → List Neighbor → List ℕ
  pub decode_route : List ℕ → Option RouteDiscovery
  pub encode_route : RouteDiscovery → List ℕ
  -- `ConfigType`: the part of the settings that a request names, with nothing in it
  pub config_type_of : ℕ → Option Config
  pub module_config_type_of : ℕ → Option ModuleConfig
  pub decode_admin : List ℕ → Option (AdminMessage P)
  -- the session key and the answer
  pub encode_admin : List ℕ → AdminResponse → List ℕ
  pub decode_to_radio : List ℕ → Option ToRadio
