-- ===== src/Mesh/Periodic.antt =====
-- What the node broadcasts by itself: meshtastenstein-core/src/domain/handlers/periodic.rs, and
-- domain/handlers/outgoing/telemetry.rs. The congestion factor is computed in `f32`: with the
-- number of nodes online it makes up `scaled_interval`.
use meshtastenstein_rs.Base.{
  ℕ, ◌-◌, ◌*◌, ◌/◌, Bool, true, false, ◌&&◌, not, Option, none, some, List, [], ◌∷◌, ◌==◌, ltb, leb,
  if◌then◌else◌, unwrap_or, length,
}
use meshtastenstein_rs.Packet.{broadcast_addr}
use meshtastenstein_rs.NodeDb.{NodeEntry, online_count}
use meshtastenstein_rs.Router.{DeviceRole}
use meshtastenstein_rs.Radio.{region_from_proto}
use meshtastenstein_rs.Device.{next_packet_id}
use meshtastenstein_rs.Proto.{PortNum, MeshPacket, FromRadio, Neighbor, Wire}
use meshtastenstein_rs.Mesh.{Moment, MeshCtx, tx_allowed_polite}
use meshtastenstein_rs.Mesh.Send.{
  default_data, default_packet, lora_send, node_info_payload, push_from_radio,
}

-- constants.rs
abbrev pub nodeinfo_broadcast_interval_ms : ℕ
nodeinfo_broadcast_interval_ms = 10800000

abbrev pub position_broadcast_interval_ms : ℕ
position_broadcast_interval_ms = 900000

abbrev pub telemetry_lora_interval_ms : ℕ
telemetry_lora_interval_ms = 3600000

abbrev pub router_broadcast_interval_ms : ℕ
router_broadcast_interval_ms = 43200000

abbrev pub neighborinfo_broadcast_interval_ms : ℕ
neighborinfo_broadcast_interval_ms = 21600000

abbrev pub two_hours_ms : ℕ
two_hours_ms = 2 * 60 * 60 * 1000

-- `scaled` is the base interval with the congestion factor
unfoldable pub role_scaled_interval_ms : DeviceRole → ℕ → ℕ
role_scaled_interval_ms DeviceRole.repeater scaled = 0
role_scaled_interval_ms DeviceRole.client_hidden scaled = 0
role_scaled_interval_ms DeviceRole.router scaled = router_broadcast_interval_ms
role_scaled_interval_ms DeviceRole.router_client scaled = router_broadcast_interval_ms
role_scaled_interval_ms DeviceRole.client scaled = scaled
role_scaled_interval_ms DeviceRole.client_mute scaled = scaled
role_scaled_interval_ms DeviceRole.router_late scaled = scaled
role_scaled_interval_ms (DeviceRole.other n) scaled = scaled

-- the entries of the other nodes
unfoldable pub neighbors_of : {P M : Type 0} → ℕ → List (NodeEntry P M) → List Neighbor
neighbors_of {P} {M} our [] = []
neighbors_of {P} {M} our (e ∷ es) =
    let rest = neighbors_of our es in
    if e.node_num == our
    then rest
    else record { node_id = e.node_num; snr = unwrap_or e.snr 0; last_rx_time = e.last_heard }
      ∷ rest

-- whether the time since the last broadcast, or else since `start`, has reached the interval
unfoldable pub is_due : ℕ → ℕ → Option ℕ → ℕ → Bool
is_due now interval last start = leb interval (now - unwrap_or last start)

module _ {P M : Type 0} (w : Wire P M) where
  unfoldable pub telemetry_packet : ℕ → ℕ → List ℕ → MeshPacket
  telemetry_packet our packet_id bytes = record default_packet {
    from = our;
    to = broadcast_addr;
    id = packet_id;
    decoded = some (record default_data {
      portnum = w.port_code PortNum.telemetry_app;
      inner_payload = bytes;
    });
  }

module _ {P M F : Type 0} (w : Wire P M) (t : Moment) where
  unfoldable pub interval_ms : ℕ → MeshCtx P M F → ℕ
  interval_ms base_ms ctx =
      role_scaled_interval_ms ctx.device.role
        (w.floats.scaled_interval base_ms (online_count t.now two_hours_ms ctx.node_db))

  unfoldable pub broadcast_nodeinfo : MeshCtx P M F → MeshCtx P M F
  broadcast_nodeinfo ctx =
      let (sent, ok) =
        lora_send w (w.port_code PortNum.nodeinfo_app) (node_info_payload w ctx) broadcast_addr
          false ctx in
      if ok then record sent { last_nodeinfo_tx = some t.now } else sent

  unfoldable pub broadcast_position : MeshCtx P M F → MeshCtx P M F
  broadcast_position ctx =
      let (sent, ok) =
        lora_send w (w.port_code PortNum.position_app) ctx.my_position_bytes broadcast_addr false
          ctx in
      if length ctx.my_position_bytes == 0
      then ctx
      else if ok
      then record sent { last_position_tx = t.now }
      else sent

  unfoldable pub broadcast_neighborinfo : MeshCtx P M F → MeshCtx P M F
  broadcast_neighborinfo ctx =
      let neighbors = neighbors_of ctx.device.my_node_num ctx.node_db.nodes in
      let bytes = w.encode_neighbors ctx.device.my_node_num neighbors in
      let sent =
        (lora_send w (w.port_code PortNum.neighborinfo_app) bytes broadcast_addr false ctx).0 in
      if length neighbors == 0
      then record ctx { last_neighborinfo_tx = some t.now }
      else record sent { last_neighborinfo_tx = some t.now }

  -- the tests of `periodic::dispatch`
  unfoldable pub is_nodeinfo_due : Bool → MeshCtx P M F → Bool
  is_nodeinfo_due polite_ok ctx =
      let interval = interval_ms nodeinfo_broadcast_interval_ms ctx in
      ltb 0 interval && polite_ok && is_due t.now interval ctx.last_nodeinfo_tx 0

  unfoldable pub is_neighborinfo_due : Bool → MeshCtx P M F → Bool
  is_neighborinfo_due polite_ok ctx =
      is_due t.now neighborinfo_broadcast_interval_ms ctx.last_neighborinfo_tx ctx.boot_time
      && polite_ok

  unfoldable pub is_position_due : Bool → MeshCtx P M F → Bool
  is_position_due polite_ok ctx =
      let interval = interval_ms position_broadcast_interval_ms ctx in
      ltb 0 interval
      && polite_ok
      && not (length ctx.my_position_bytes == 0)
      && leb interval (t.now - ctx.last_position_tx)

  -- its three broadcasts, each if it is due
  unfoldable pub nodeinfo_turn : Bool → MeshCtx P M F → MeshCtx P M F
  nodeinfo_turn polite_ok ctx =
      if is_nodeinfo_due polite_ok ctx then broadcast_nodeinfo ctx else ctx

  unfoldable pub neighborinfo_turn : Bool → MeshCtx P M F → MeshCtx P M F
  neighborinfo_turn polite_ok ctx =
      if is_neighborinfo_due polite_ok ctx then broadcast_neighborinfo ctx else ctx

  unfoldable pub position_turn : Bool → MeshCtx P M F → MeshCtx P M F
  position_turn polite_ok ctx =
      if is_position_due polite_ok ctx then broadcast_position ctx else ctx

  unfoldable pub periodic : MeshCtx P M F → MeshCtx P M F
  periodic ctx =
      let polite_ok =
        tx_allowed_polite w.floats ctx.channel_metrics
          (region_from_proto w.region_of ctx.device.region) in
      position_turn polite_ok (neighborinfo_turn polite_ok (nodeinfo_turn polite_ok ctx))

  unfoldable pub telemetry_payload : ℕ → ℕ → MeshCtx P M F → List ℕ
  telemetry_payload battery_level voltage_mv ctx = w.encode_telemetry 0 (
      w.device_metrics_of battery_level voltage_mv ctx.channel_metrics.channel_util
        ctx.channel_metrics.air_util_tx ((t.now - ctx.boot_time) / 1000))

  -- `lora_due`
  unfoldable pub is_telemetry_due : MeshCtx P M F → Bool
  is_telemetry_due ctx =
      let interval = interval_ms telemetry_lora_interval_ms ctx in
      let elapsed : Bool = elim ctx.last_lora_telemetry [
        | none ↦ true
        | some last ↦ leb interval (t.now - last)
      ] in
      ltb 0 interval
      && w.floats.lt ctx.channel_metrics.channel_util w.floats.channel_util_threshold
      && elapsed

  unfoldable pub broadcast_telemetry : List ℕ → MeshCtx P M F → MeshCtx P M F
  broadcast_telemetry bytes ctx =
      let (sent, ok) =
        lora_send w (w.port_code PortNum.telemetry_app) bytes broadcast_addr false ctx in
      if ok then record sent { last_lora_telemetry = some t.now } else sent

  unfoldable pub telemetry_to_mesh : List ℕ → MeshCtx P M F → MeshCtx P M F
  telemetry_to_mesh bytes ctx = if is_telemetry_due ctx then broadcast_telemetry bytes ctx else ctx

  unfoldable pub show_telemetry : List ℕ → MeshCtx P M F → MeshCtx P M F
  show_telemetry bytes ctx =
      let (device, packet_id) = next_packet_id ctx.device in
      push_from_radio w (FromRadio.packet (telemetry_packet w device.my_node_num packet_id bytes))
        (record ctx { device = device })

  unfoldable pub telemetry_to_phone : List ℕ → MeshCtx P M F → MeshCtx P M F
  telemetry_to_phone bytes ctx = if ctx.ble_connected then show_telemetry bytes ctx else ctx

  unfoldable pub send_device_telemetry : ℕ → ℕ → MeshCtx P M F → MeshCtx P M F
  send_device_telemetry battery_level voltage_mv ctx =
      let bytes = telemetry_payload battery_level voltage_mv ctx in
      telemetry_to_phone bytes (telemetry_to_mesh bytes ctx)
