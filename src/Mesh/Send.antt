-- ===== src/Mesh/Send.antt =====
-- What the handlers send: meshtastenstein-core/src/domain/handlers/util.rs and
-- domain/handlers/outgoing/node_info.rs. `try_send` drops a message that finds the queue to the
-- phone full; the phone takes nothing out of it while a handler runs. The radio's queue is awaited.
use meshtastenstein_rs.Base.{
  ℕ, ◌-◌, ◌%◌, Bool, false, not, Option, none, some, List, [], ◌∷◌, ◌++◌, ◌==◌, leb, if◌then◌else◌,
  is_some, unwrap_or, length, any, shr,
}
use meshtastenstein_rs.Packet.{Header, RadioFrame, hop_limit, hop_start, want_ack}
use meshtastenstein_rs.NodeDb.{User, NodeEntry, get}
use meshtastenstein_rs.Radio.{region_from_proto}
use meshtastenstein_rs.Device.{
  DeviceState, hex_byte, build_node_id_string, long_name_prefix, next_from_radio_id, next_packet_id,
}
use meshtastenstein_rs.Message.{Data, TxBuilder, default_builder, build}
use meshtastenstein_rs.Persistence.Settings.{Conversions}
use meshtastenstein_rs.Proto.{
  PortNum, RoutingError, MeshPacket, NodeInfo, FromRadio, FromRadioMessage, Wire,
}
use meshtastenstein_rs.Mesh.{MeshCtx, tx_allowed_impolite}

-- `PacketForwardArgs`
pub record PacketForwardArgs : Type 0 where
  pub header : Header
  pub channel_index : ℕ
  pub portnum : ℕ
  pub inner_payload : List ℕ
  pub reply_id : ℕ
  pub emoji : ℕ
  pub snr : ℕ
  pub rssi : ℕ

-- `Data::default()` and `MeshPacket::default()`
abbrev pub default_data : Data
default_data = record {
  portnum = 0;
  inner_payload = [];
  want_response = false;
  request_id = 0;
  reply_id = 0;
  emoji = 0;
  bitfield = none;
}

abbrev pub default_packet : MeshPacket
default_packet = record {
  from = 0;
  to = 0;
  channel = 0;
  id = 0;
  rx_time = none;
  rx_snr = 0;
  rx_rssi = none;
  hop_limit = 0;
  hop_start = 0;
  want_ack = false;
  priority = 0;
  public_key = [];
  decoded = none;
}

-- the message of `make_from_radio_packet`
unfoldable pub forwarded_packet : PacketForwardArgs → MeshPacket
forwarded_packet args = record default_packet {
  from = args.header.sender;
  to = args.header.destination;
  channel = args.channel_index;
  id = args.header.packet_id;
  rx_snr = args.snr;
  hop_limit = hop_limit args.header;
  hop_start = hop_start args.header;
  want_ack = want_ack args.header;
  rx_rssi = some args.rssi;
  decoded = some (record default_data {
    portnum = args.portnum;
    inner_payload = args.inner_payload;
    reply_id = args.reply_id;
    emoji = args.emoji;
  });
}

-- the user that stands for a node without one: names from the last four digits of its number
unfoldable pub stub_user : ℕ → User
stub_user node_num =
    let short = hex_byte (shr node_num 8 % 256) ++ hex_byte (node_num % 256) in
    record {
      id = build_node_id_string node_num;
      long_name = long_name_prefix ++ short;
      short_name = short;
      hw_model = 0;
      role = 0;
      public_key = [];
    }

-- the user that the phone is shown for a node
unfoldable pub shown_user : {P M : Type 0} → NodeEntry P M → User
shown_user {P} {M} entry =
    let user : User = elim entry.user [
      | none ↦ stub_user entry.node_num
      | some u ↦ record u { id = build_node_id_string entry.node_num }
    ] in
    elim entry.pub_key [ none ↦ user | some key ↦ record user { public_key = key } ]

-- the message of `make_node_info_from_radio`
unfoldable pub node_info_of : {P M : Type 0} → NodeEntry P M → NodeInfo P
node_info_of {P} {M} entry = record {
  num = entry.node_num;
  user = some (shown_user entry);
  position_info = entry.position_info;
  snr = unwrap_or entry.snr 0;
  last_heard = entry.last_heard;
  hops_away = entry.hops_away;
  is_favorite = entry.is_favorite;
  is_ignored = entry.is_ignored;
  is_muted = entry.is_muted;
}

-- `extend_from_slice` into a vector of 512 bytes: what does not fit is left out whole
unfoldable pub bounded_message : List ℕ → List ℕ
bounded_message bytes = if leb (length bytes) 512 then bytes else []

-- the user of `outgoing::node_info::build_payload`
unfoldable pub own_user : Conversions → DeviceState → List ℕ → List ℕ → User
own_user conv device node_id_str pkc_pub = record {
  id = node_id_str;
  long_name = device.long_name;
  short_name = device.short_name;
  hw_model = device.hw_model;
  role = conv.role_code device.role;
  public_key = if any (λ b. not (b == 0)) pkc_pub then pkc_pub else [];
}

module _ {P M : Type 0} (w : Wire P M) where
  -- `encode_from_radio`
  unfoldable pub encode_from_radio : ℕ → FromRadio P → List ℕ
  encode_from_radio id variant = bounded_message (w.encode_from_radio id variant)

  -- `..Default::default()`
  unfoldable pub builder : TxBuilder
  builder = default_builder (w.port_code PortNum.unknown_app)

  unfoldable pub routing_builder : ℕ → ℕ → ℕ → List ℕ → TxBuilder
  routing_builder dest request_id channel_idx bytes = record builder {
    dest = dest;
    portnum = w.port_code PortNum.routing_app;
    inner_payload = bytes;
    channel_idx = some channel_idx;
    request_id = request_id;
  }

  unfoldable pub broadcast_builder : ℕ → List ℕ → ℕ → Bool → TxBuilder
  broadcast_builder portnum bytes dest want_response = record builder {
    dest = dest;
    portnum = portnum;
    inner_payload = bytes;
    want_response = want_response;
  }

  -- the packet of `send_ble_routing_result`
  unfoldable pub routing_result : ℕ → ℕ → RoutingError → ℕ → ℕ → MeshPacket
  routing_result dest request_id error our packet_id = record default_packet {
    from = our;
    to = dest;
    id = packet_id;
    decoded = some (record default_data {
      portnum = w.port_code PortNum.routing_app;
      inner_payload = w.encode_routing error;
      request_id = request_id;
    });
  }

module _ {P M F : Type 0} where
  -- `tx_to_ble.try_send`
  unfoldable pub try_send : FromRadioMessage → MeshCtx P M F → MeshCtx P M F
  try_send msg ctx =
      if ctx.ble_free == 0
      then ctx
      else record ctx { to_phone = ctx.to_phone ++ (msg ∷ []); ble_free = ctx.ble_free - 1 }

  -- `tx_to_lora.send`, for a frame that could be built
  unfoldable pub send_frame : Option RadioFrame → MeshCtx P M F → MeshCtx P M F
  send_frame none ctx = ctx
  send_frame (some frame) ctx = record ctx { to_lora = ctx.to_lora ++ (frame ∷ []) }

  -- the state after a packet id was taken
  unfoldable pub with_next_id : MeshCtx P M F → MeshCtx P M F
  with_next_id ctx = record ctx { device = (next_packet_id ctx.device).0 }

module _ {P M F : Type 0} (w : Wire P M) where
  unfoldable pub push_from_radio : FromRadio P → MeshCtx P M F → MeshCtx P M F
  push_from_radio variant ctx =
      let (next, id) = next_from_radio_id ctx.from_radio_id in
      try_send (record { bytes = encode_from_radio w id variant; id = id })
        (record ctx { from_radio_id = next })

  unfoldable pub forward_to_ble : PacketForwardArgs → MeshCtx P M F → MeshCtx P M F
  forward_to_ble args = push_from_radio (FromRadio.packet (forwarded_packet args))

  -- The id is taken whether or not the node is known.
  unfoldable pub notify_ble_node_update : ℕ → MeshCtx P M F → MeshCtx P M F
  notify_ble_node_update sender ctx = elim (get sender ctx.node_db) [
    | none ↦ record ctx { from_radio_id = (next_from_radio_id ctx.from_radio_id).0 }
    | some entry ↦ push_from_radio (FromRadio.node_info (node_info_of entry)) ctx
  ]

  -- a frame without public-key encryption, under the next packet id
  unfoldable pub next_frame : TxBuilder → MeshCtx P M F → Option RadioFrame
  next_frame tx ctx =
      let (device, packet_id) = next_packet_id ctx.device in
      build w.protocol tx device ctx.node_db packet_id none

  unfoldable pub transmit_next : TxBuilder → MeshCtx P M F → MeshCtx P M F
  transmit_next tx ctx = send_frame (next_frame tx ctx) (with_next_id ctx)

  unfoldable pub send_routing_error : ℕ → ℕ → RoutingError → MeshCtx P M F → MeshCtx P M F
  send_routing_error dest request_id error =
      transmit_next (routing_builder w dest request_id 0 (w.encode_routing error))

  unfoldable pub send_routing_ack : ℕ → ℕ → ℕ → MeshCtx P M F → MeshCtx P M F
  send_routing_ack dest request_id channel_idx =
      transmit_next (routing_builder w dest request_id channel_idx [])

  -- the state, and whether the frame was sent
  unfoldable pub lora_send : ℕ → List ℕ → ℕ → Bool → MeshCtx P M F → MeshCtx P M F × Bool
  lora_send portnum bytes dest want_response ctx =
      let region = region_from_proto w.region_of ctx.device.region in
      let tx = broadcast_builder w portnum bytes dest want_response in
      if not (tx_allowed_impolite w.floats ctx.channel_metrics region)
      then (ctx, false)
      else (transmit_next tx ctx, is_some (next_frame tx ctx))

  unfoldable pub node_info_payload : MeshCtx P M F → List ℕ
  node_info_payload ctx =
      w.encode_user (own_user w.conversions ctx.device ctx.node_id_str ctx.pkc_pub_bytes)
        ctx.device.mac

  unfoldable pub send_nodeinfo : ℕ → Bool → MeshCtx P M F → MeshCtx P M F
  send_nodeinfo dest want_response ctx =
      (lora_send (w.port_code PortNum.nodeinfo_app) (node_info_payload ctx) dest want_response
        ctx).0

  unfoldable pub send_ble_routing_result : ℕ → ℕ → RoutingError → MeshCtx P M F → MeshCtx P M F
  send_ble_routing_result dest request_id error ctx =
      let (device, packet_id) = next_packet_id ctx.device in
      push_from_radio
        (FromRadio.packet (routing_result w dest request_id error device.my_node_num packet_id))
        (record ctx { device = device })

  unfoldable pub send_ble_routing_ack : ℕ → ℕ → MeshCtx P M F → MeshCtx P M F
  send_ble_routing_ack dest request_id =
      send_ble_routing_result dest request_id RoutingError.no_error
