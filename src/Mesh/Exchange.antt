-- ===== src/Mesh/Exchange.antt =====
-- What the phone is sent when it connects: `send_config_exchange`, `send_nodeinfo_exchange` and
-- `replay_stored_frames` of meshtastenstein-core/src/domain/handlers/from_app/mod.rs, and
-- `decode_psk_frame` and `replay_satellite_db` of domain/handlers/util.rs.
pub mod Stages
pub mod Shown
pub mod Complete
pub mod Replay
use meshtastenstein_rs.Base.{
  ℕ, zero, suc, ◌+◌, ◌-◌, ◌*◌, ◌%◌, ◌^◌, Bool, true, false, ◌&&◌, not, ◌⊎◌, inl, inr, Option, none,
  some, List, [], ◌∷◌, ◌++◌, map, ◌==◌, leb, if◌then◌else◌, unwrap_or, map_some, length, take,
  retain,
}
use meshtastenstein_rs.Packet.{Header, RadioFrame, frame_header, payload, broadcast_addr}
use meshtastenstein_rs.NodeDb.{User, NodeEntry, NodeDb, get}
use meshtastenstein_rs.Channels.{ChannelConfig, get_channel, find_by_hash}
use meshtastenstein_rs.Radio.Preset.{display_name}
use meshtastenstein_rs.Device.{DeviceState}
use meshtastenstein_rs.Message.{Data, DecodedPayload, open_channel}
use meshtastenstein_rs.Storage.{Flash, NvsStorage, peek, pop}
use meshtastenstein_rs.Proto.{PortNum, MeshPacket, NodeInfo, FromRadio, Config, ModuleConfig, Wire}
use meshtastenstein_rs.Mesh.{MeshCtx}
use meshtastenstein_rs.Mesh.Send.{
  PacketForwardArgs, default_data, default_packet, forward_to_ble, push_from_radio, node_info_of,
}
use meshtastenstein_rs.Mesh.Settings.{build_lora_config}
use meshtastenstein_rs.Mesh.Admin.{shown_settings, shown_role}

-- constants.rs
abbrev pub min_app_version : ℕ
min_app_version = 30200

abbrev pub config_exchange_max_nodes : ℕ
config_exchange_max_nodes = 10

abbrev pub min_plausible_epoch : ℕ
min_plausible_epoch = 1577836800

abbrev pub module_configs : List ModuleConfig
module_configs =
    ModuleConfig.mqtt ∷ ModuleConfig.serial ∷ ModuleConfig.external_notification
    ∷ ModuleConfig.store_forward ∷ ModuleConfig.range_test ∷ ModuleConfig.telemetry
    ∷ ModuleConfig.canned_message ∷ ModuleConfig.audio ∷ ModuleConfig.remote_hardware
    ∷ ModuleConfig.neighbor_info ∷ ModuleConfig.ambient_lighting ∷ ModuleConfig.detection_sensor
    ∷ ModuleConfig.paxcounter ∷ ModuleConfig.status_message ∷ ModuleConfig.traffic_management
    ∷ ModuleConfig.tak ∷ ModuleConfig.mesh_beacon ∷ []

-- two rounds of a multiplicative hash; zero counts as no id
unfoldable pub make_replay_packet_id : ℕ → ℕ → ℕ → ℕ
make_replay_packet_id num timestamp kind =
    let first = (num * 2654435761 + timestamp) % 2 ^ 32 in
    let h = (first * 2654435761 + kind) % 2 ^ 32 in if h == 0 then 1 else h

unfoldable pub replay_hop_fields : Option ℕ → ℕ → ℕ × ℕ
replay_hop_fields none configured_hop_limit = (0, 0)
replay_hop_fields (some hops) configured_hop_limit =
    (configured_hop_limit, configured_hop_limit - hops)

-- the nodes of the second stage: the first numbers of the database, each looked up again
unfoldable pub shown_nodes : {P M : Type 0} → List (NodeEntry P M) → NodeDb P M → List (FromRadio P)
shown_nodes {P} {M} [] db = []
shown_nodes {P} {M} (e ∷ es) db =
    let rest = shown_nodes es db in
    elim (get e.node_num db) [
      | none ↦ rest
      | some entry ↦ FromRadio.node_info (node_info_of entry) ∷ rest
    ]

module _ {P M : Type 0} (w : Wire P M) where
  -- what the two replayed packets of a node have in common
  unfoldable pub replay_packet : NodeEntry P M → ℕ → PortNum → List ℕ → MeshPacket
  replay_packet entry configured_hop_limit port bytes =
      let (hop_start, hop_limit) = replay_hop_fields entry.hops_away configured_hop_limit in
      record default_packet {
        from = entry.node_num;
        to = broadcast_addr;
        id = make_replay_packet_id entry.node_num entry.last_heard (w.port_code port);
        rx_time = if leb min_plausible_epoch entry.last_heard then some entry.last_heard else none;
        rx_snr = unwrap_or entry.snr 0;
        hop_start = hop_start;
        hop_limit = hop_limit;
        priority = w.background;
        decoded = some (record default_data { portnum = w.port_code port; inner_payload = bytes });
      }

  -- the position of a node, if it is known and another's
  unfoldable pub replay_positions : ℕ → ℕ → List (NodeEntry P M) → List (FromRadio P)
  replay_positions our hops [] = []
  replay_positions our hops (e ∷ es) =
      let rest = replay_positions our hops es in
      if e.node_num == our then rest else elim e.position_info [
        | none ↦ rest
        | some place ↦
            FromRadio.packet (replay_packet e hops PortNum.position_app (w.encode_position place))
            ∷ rest
      ]

  unfoldable pub replay_telemetry : ℕ → ℕ → List (NodeEntry P M) → List (FromRadio P)
  replay_telemetry our hops [] = []
  replay_telemetry our hops (e ∷ es) =
      let rest = replay_telemetry our hops es in
      if e.node_num == our then rest else elim e.device_metrics [
        | none ↦ rest
        | some metrics ↦
            FromRadio.packet
              (replay_packet e hops PortNum.telemetry_app (w.encode_telemetry e.last_heard metrics))
            ∷ rest
      ]

  unfoldable pub channel_message : DeviceState → ℕ → FromRadio P
  channel_message device idx =
      let ch = get_channel idx device.channels in
      FromRadio.channel idx (shown_settings ch) (shown_role w ch)

  -- the decoded payload of a stored frame
  unfoldable pub decode_psk_frame : RadioFrame → DeviceState → Option (Header × Data × ℕ)
  decode_psk_frame frame device = elim (frame_header frame) [
    | none ↦ none
    | some h ↦
        let channel =
          find_by_hash h.channel_index (display_name device.modem_preset) device.channels in
        let channel_index =
          unwrap_or (map_some {A = ChannelConfig} {B = ℕ} (λ c. c.index) channel) 0 in
        elim (open_channel w.protocol channel h (payload frame)) [
          | none ↦ none
          | some bytes ↦ elim (w.protocol.decode_data bytes) [
            | none ↦ none
            | some d ↦ some (h, d, channel_index)
          ]
        ]
  ]

unfoldable pub replay_args : Header → Data → ℕ → PacketForwardArgs
replay_args h d channel_index = record {
  header = h;
  channel_index = channel_index;
  portnum = d.portnum;
  inner_payload = d.inner_payload;
  reply_id = d.reply_id;
  emoji = d.emoji;
  snr = 0;
  rssi = 0;
}

module _ {P M F : Type 0} (w : Wire P M) where
  -- the messages, one after the other
  unfoldable pub push_all : List (FromRadio P) → MeshCtx P M F → MeshCtx P M F
  push_all [] ctx = ctx
  push_all (m ∷ ms) ctx = push_all ms (push_from_radio w m ctx)

  unfoldable pub own_node_info : MeshCtx P M F → NodeInfo P
  own_node_info ctx = record {
    num = ctx.device.my_node_num;
    user = some (record {
      id = ctx.node_id_str;
      long_name = ctx.device.long_name;
      short_name = ctx.device.short_name;
      hw_model = ctx.device.hw_model;
      role = 0;
      public_key = ctx.pkc_pub_bytes;
    });
    position_info = none;
    snr = 0;
    last_heard = 0;
    hops_away = none;
    is_favorite = true;
    is_ignored = false;
    is_muted = false;
  }

  unfoldable pub own_configs : MeshCtx P M F → List Config
  own_configs ctx =
      Config.device (w.conversions.role_code ctx.device.role)
      ∷ Config.position
      ∷ Config.power
      ∷ Config.network
      ∷ Config.display
      ∷ Config.lora (build_lora_config w ctx.device)
      ∷ Config.bluetooth
      ∷ Config.security ctx.pkc_pub_bytes ctx.pkc_priv_bytes
      ∷ Config.session_key
      ∷ Config.device_ui
      ∷ []

  -- the messages of the first stage, in the order in which they are sent
  unfoldable pub config_messages : ℕ → MeshCtx P M F → List (FromRadio P)
  config_messages config_id ctx =
      (FromRadio.my_info ctx.device.my_node_num (1 + length ctx.node_db.nodes)
        ∷ FromRadio.device_ui
        ∷ FromRadio.node_info (own_node_info ctx)
        ∷ FromRadio.metadata ctx.device.hw_model ctx.device.role
        ∷ FromRadio.region_presets
        ∷ [])
      ++ (map (channel_message w ctx.device) (0 ∷ 1 ∷ 2 ∷ 3 ∷ 4 ∷ 5 ∷ 6 ∷ 7 ∷ [])
          ++ (map FromRadio.config (own_configs ctx)
              ++ (map FromRadio.module_config module_configs
                  ++ (FromRadio.config_complete_id config_id ∷ []))))

  unfoldable pub send_config_exchange : ℕ → MeshCtx P M F → MeshCtx P M F
  send_config_exchange config_id ctx = push_all (config_messages config_id ctx) ctx

  unfoldable pub replay_satellite_db : MeshCtx P M F → MeshCtx P M F
  replay_satellite_db ctx =
      let our = ctx.device.my_node_num in
      let hops = ctx.device.default_hops in
      push_all
        (replay_positions w our hops ctx.node_db.nodes
          ++ replay_telemetry w our hops ctx.node_db.nodes)
        ctx

  -- the messages of the second stage, up to the last
  unfoldable pub node_messages : ℕ → MeshCtx P M F → List (FromRadio P)
  node_messages config_id ctx =
      FromRadio.node_info (own_node_info ctx)
      ∷ (shown_nodes (take config_exchange_max_nodes ctx.node_db.nodes) ctx.node_db
          ++ (FromRadio.config_complete_id config_id ∷ []))

  unfoldable pub send_nodeinfo_exchange : ℕ → MeshCtx P M F → MeshCtx P M F
  send_nodeinfo_exchange config_id ctx =
      replay_satellite_db (push_all (node_messages config_id ctx) ctx)

  -- a stored frame for the phone, if it can be decoded
  unfoldable pub replay_frame : RadioFrame → MeshCtx P M F → MeshCtx P M F
  replay_frame frame ctx = elim (decode_psk_frame w frame ctx.device) [
    | none ↦ ctx
    | some (h, d, channel_index) ↦ forward_to_ble w (replay_args h d channel_index) ctx
  ]

-- the stored frame that comes next
unfoldable pub next_stored : {E : Type 0} → E ⊎ Option RadioFrame → Option RadioFrame
next_stored {E} (inl e) = none
next_stored {E} (inr frame) = frame

module _ {P M F : Type 0} (w : Wire P M) (nor : Flash F) where
  -- the loop, with fuel for as many frames as are stored
  unfoldable pub replay_loop : ℕ → MeshCtx P M F → MeshCtx P M F
  replay_loop zero ctx = ctx
  replay_loop (suc fuel) ctx = elim (next_stored (peek ctx.storage)) [
    | none ↦ ctx
    | some frame ↦
        replay_loop fuel (replay_frame w frame (record ctx { storage = (pop nor ctx.storage).0 }))
  ]

  unfoldable pub replay_stored_frames : MeshCtx P M F → MeshCtx P M F
  replay_stored_frames ctx = replay_loop ctx.storage.count ctx
