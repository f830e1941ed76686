-- ===== src/Mesh/Receive.antt =====
-- A frame from the radio: `dispatch` of meshtastenstein-core/src/domain/handlers/from_radio/mod.rs,
-- in the order of its layers. The decisions on relaying are those of Relay, decryption that of
-- Message.
pub mod Quiet
use meshtastenstein_rs.Base.{
  ℕ, ◌+◌, ◌-◌, ◌%◌, min, Bool, true, false, ◌&&◌, ◌||◌, not, Option, none, some, List, [], ◌∷◌,
  ◌==◌, ltb, leb, if◌then◌else◌, is_some, length,
}
use meshtastenstein_rs.Packet.{
  Header, RadioFrame, frame_header, hop_limit, hop_start, want_ack, is_for_us,
}
use meshtastenstein_rs.NodeDb.{NodeEntry, NodeDb, get, modify, touch, max_nodes}
use meshtastenstein_rs.Router.{DeviceRole}
use meshtastenstein_rs.Radio.{region_from_proto}
use meshtastenstein_rs.Relay.{
  RelayState, implicit_ack, filter_layer, relay_layer, maybe_relay_opaque,
}
use meshtastenstein_rs.Message.{DecodedPayload, DecryptOutcome, try_decrypt_and_decode}
use meshtastenstein_rs.Storage.{Flash, add}
use meshtastenstein_rs.Proto.{PortNum, RoutingError, Wire}
use meshtastenstein_rs.Mesh.{Moment, MeshCtx, tx_allowed_polite}
use meshtastenstein_rs.Mesh.Send.{
  PacketForwardArgs, forward_to_ble, notify_ble_node_update, send_nodeinfo, send_routing_ack,
  send_routing_error,
}
use meshtastenstein_rs.Mesh.Admin.{on_node_db, admin_dispatch}
use meshtastenstein_rs.Mesh.Ports.{
  InboundPacket, is_throttled, handle_routing, handle_position, handle_telemetry,
  handle_neighbor_info, handle_traceroute, handle_node_info,
}

-- `RadioMetadata`, as bit patterns
pub record RadioMetadata : Type 0 where
  pub snr : ℕ
  pub rssi : ℕ

-- how far the packet came, unless the numbers contradict each other
unfoldable pub hops_travelled : Header → Option ℕ
hops_travelled h =
    if ltb 0 (hop_start h) && leb (hop_limit h) (hop_start h)
    then some (hop_start h - hop_limit h)
    else none

-- `matches!(role, Router | RouterLate)`
unfoldable pub keeps_quiet : DeviceRole → Bool
keeps_quiet DeviceRole.router = true
keeps_quiet DeviceRole.router_late = true
keeps_quiet DeviceRole.client = false
keeps_quiet DeviceRole.client_mute = false
keeps_quiet DeviceRole.client_hidden = false
keeps_quiet DeviceRole.router_client = false
keeps_quiet DeviceRole.repeater = false
keeps_quiet (DeviceRole.other n) = false

unfoldable pub is_text : PortNum → Bool
is_text PortNum.text_message_app = true
is_text PortNum.text_message_compressed_app = true
is_text other = false

unfoldable pub is_admin : PortNum → Bool
is_admin PortNum.admin_app = true
is_admin other = false

unfoldable pub inbound_packet : ℕ → Header → DecodedPayload → ℕ → InboundPacket
inbound_packet our h d snr = record {
  sender = h.sender;
  packet_id = h.packet_id;
  relay_node = h.relay_node;
  inner_payload = d.inner_payload;
  addressed_to_us = is_for_us our h;
  want_response = d.want_response;
  request_id = d.request_id;
  reply_id = d.reply_id;
  emoji = d.emoji;
  channel_idx = d.channel_index;
  snr = snr;
}

unfoldable pub forward_args : Header → DecodedPayload → RadioMetadata → PacketForwardArgs
forward_args h d meta = record {
  header = h;
  channel_index = d.channel_index;
  portnum = d.portnum;
  inner_payload = d.inner_payload;
  reply_id = d.reply_id;
  emoji = d.emoji;
  snr = meta.snr;
  rssi = meta.rssi;
}

module _ {P M : Type 0} where
  -- whether the database has a user for the sender
  unfoldable pub knows_user : ℕ → NodeDb P M → Bool
  knows_user n db = elim (get n db) [ none ↦ false | some e ↦ is_some e.user ]

  -- the entry of the sender, with the distance
  unfoldable pub touch_sender : ℕ → ℕ → Header → NodeDb P M → NodeDb P M
  touch_sender now snr h db =
      modify h.sender (λ e. record e { hops_away = hops_travelled h })
        (touch h.sender 0 (some snr) now db)

module _ {P M F : Type 0} where
  -- the part of the state that the relay decisions change
  unfoldable pub relay_state : MeshCtx P M F → RelayState
  relay_state ctx = record { router = ctx.router; pending = ctx.pending_rebroadcast }

  unfoldable pub with_relay : MeshCtx P M F → RelayState → MeshCtx P M F
  with_relay ctx s = record ctx { router = s.router; pending_rebroadcast = s.pending }

  -- Layer 0
  unfoldable pub own_packet : Header → MeshCtx P M F → MeshCtx P M F
  own_packet h ctx = record ctx { pending_packets = implicit_ack h.packet_id ctx.pending_packets }

module _ {P M F : Type 0} (w : Wire P M) (t : Moment) where
  unfoldable pub maybe_request_nodeinfo : Header → MeshCtx P M F → MeshCtx P M F
  maybe_request_nodeinfo h ctx =
      let region = region_from_proto w.region_of ctx.device.region in
      if keeps_quiet ctx.device.role
        || leb max_nodes (length ctx.node_db.nodes)
        || is_throttled t.now ctx.last_nodeinfo_tx
        || not (tx_allowed_polite w.floats ctx.channel_metrics region)
        || ltb (min (ctx.device.default_hops + 2) 255) (hop_start h - hop_limit h)
      then ctx
      else record (send_nodeinfo w h.sender true ctx) { last_nodeinfo_tx = some t.now }

  -- the sender enters the database, and the phone and the sender are told, if it is new
  unfoldable pub meet_sender : RadioMetadata → Header → MeshCtx P M F → MeshCtx P M F
  meet_sender meta h ctx =
      let is_new_node = not (is_some (get h.sender ctx.node_db)) in
      let touched = on_node_db (touch_sender t.now meta.snr h) ctx in
      let notified = if is_new_node then notify_ble_node_update w h.sender touched else touched in
      if knows_user h.sender notified.node_db then notified else maybe_request_nodeinfo h notified

  -- a packet that could not be decoded
  unfoldable pub undecoded : RadioFrame → Header → DecryptOutcome → MeshCtx P M F → MeshCtx P M F
  undecoded frame h (DecryptOutcome.decoded d) ctx = ctx
  undecoded frame h DecryptOutcome.pki_unknown_pubkey ctx = send_nodeinfo w h.sender false (
      if want_ack h
      then send_routing_error w h.sender h.packet_id RoutingError.pki_unknown_pubkey ctx
      else ctx)
  undecoded frame h DecryptOutcome.dropped ctx =
      if not (h.destination == ctx.device.my_node_num)
      then with_relay ctx (
          maybe_relay_opaque t.now t.delay frame h ctx.device.my_node_num ctx.device.role
            (relay_state ctx))
      else ctx

  -- the acknowledgement of a packet for this node alone
  unfoldable pub acknowledge : Header → DecodedPayload → MeshCtx P M F → MeshCtx P M F
  acknowledge h d ctx =
      if h.destination == ctx.device.my_node_num && want_ack h
      then send_routing_ack w h.sender h.packet_id d.channel_index ctx
      else ctx

  -- Layer 3
  unfoldable pub relay : RadioFrame → Header → MeshCtx P M F → MeshCtx P M F
  relay frame h ctx =
      with_relay ctx
        (relay_layer t.now t.delay frame h ctx.device.my_node_num ctx.device.role (relay_state ctx))

  -- the copy for the phone
  unfoldable pub forward : Header → DecodedPayload → RadioMetadata → MeshCtx P M F → MeshCtx P M F
  forward h d meta ctx =
      if (not (is_admin (w.port_of d.portnum)) || not (is_for_us ctx.device.my_node_num h))
        && ctx.ble_connected
      then forward_to_ble w (forward_args h d meta) ctx
      else ctx

module _ {P M F : Type 0} (w : Wire P M) (nor : Flash F) (t : Moment) where
  -- a text message is kept for the phone that is away
  unfoldable pub keep_text : RadioFrame → DecodedPayload → MeshCtx P M F → MeshCtx P M F
  keep_text frame d ctx =
      if is_text (w.port_of d.portnum) && not ctx.ble_connected
      then record ctx { storage = add nor frame ctx.storage }
      else ctx

  -- Layer 2
  unfoldable pub handle_port : PortNum → InboundPacket → MeshCtx P M F → MeshCtx P M F
  handle_port PortNum.position_app pkt ctx = handle_position w pkt ctx
  handle_port PortNum.nodeinfo_app pkt ctx = handle_node_info w t pkt ctx
  handle_port PortNum.routing_app pkt ctx = handle_routing w pkt ctx
  handle_port PortNum.admin_app pkt ctx =
      if pkt.addressed_to_us
      then admin_dispatch w nor t pkt.sender pkt.packet_id pkt.inner_payload true ctx
      else ctx
  handle_port PortNum.telemetry_app pkt ctx = handle_telemetry w pkt ctx
  handle_port PortNum.traceroute_app pkt ctx = handle_traceroute w pkt ctx
  handle_port PortNum.neighborinfo_app pkt ctx = handle_neighbor_info w pkt ctx
  handle_port other pkt ctx = ctx

  -- a new packet, from the entry of the sender in the database to the rebroadcast
  unfoldable pub process :
      RadioFrame → Header → RadioMetadata → DecodedPayload → MeshCtx P M F → MeshCtx P M F
  process frame h meta d ctx =
      let met = meet_sender w t meta h ctx in
      let kept = keep_text frame d met in
      let handled =
        handle_port (w.port_of d.portnum) (inbound_packet kept.device.my_node_num h d meta.snr)
          kept in
      relay w t frame h (acknowledge w t h d (forward w t h d meta handled))

  -- a decoded packet: Layer 1, and the rest if the filter lets it through
  unfoldable pub receive_decoded :
      RadioFrame → Header → RadioMetadata → DecodedPayload → MeshCtx P M F → MeshCtx P M F
  receive_decoded frame h meta d ctx =
      let (s, goes_on) =
        filter_layer frame h ctx.device.my_node_num ctx.device.role (relay_state ctx) in
      if goes_on then process frame h meta d (with_relay ctx s) else with_relay ctx s

  unfoldable pub receive_foreign :
      RadioFrame → Header → RadioMetadata → DecryptOutcome → MeshCtx P M F → MeshCtx P M F
  receive_foreign frame h meta (DecryptOutcome.decoded d) ctx = receive_decoded frame h meta d ctx
  receive_foreign frame h meta other ctx = undecoded w t frame h other ctx

  unfoldable pub receive : RadioFrame → RadioMetadata → MeshCtx P M F → MeshCtx P M F
  receive frame meta ctx = elim (frame_header frame) [
    | none ↦ ctx
    | some h ↦
        if h.sender == ctx.device.my_node_num
        then own_packet h ctx
        else receive_foreign frame h meta
            (try_decrypt_and_decode w.protocol frame h ctx.device ctx.node_db ctx.pkc_priv_bytes)
            ctx
  ]
