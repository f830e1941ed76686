-- ===== src/Mesh/Ports.antt =====
-- The handlers of the port numbers: the files of
-- meshtastenstein-core/src/domain/handlers/from_radio/ other than mod.rs. Those of text messages,
-- waypoints and remote hardware only log.
use meshtastenstein_rs.Base.{
  ℕ, ◌-◌, ◌*◌, ◌^◌, Bool, false, ◌&&◌, not, Option, none, some, List, [], ◌∷◌, ◌++◌, ◌==◌, ltb,
  if◌then◌else◌, unwrap_or, position, swap_remove, get_elem?,
}
use meshtastenstein_rs.NodeDb.{
  User, NodeDb, update_user, update_pub_key, update_device_metrics, update_position, touch,
}
use meshtastenstein_rs.Router.{learn_route}
use meshtastenstein_rs.Router.Reliable.{PendingPacket}
use meshtastenstein_rs.Message.{TxBuilder}
use meshtastenstein_rs.Proto.{PortNum, RoutingError, RouteDiscovery, Wire}
use meshtastenstein_rs.Mesh.{Moment, MeshCtx}
use meshtastenstein_rs.Mesh.Send.{
  builder, transmit_next, send_nodeinfo, notify_ble_node_update, send_ble_routing_result,
}
use meshtastenstein_rs.Mesh.Admin.{shared_pub_key, on_node_db}

-- constants.rs
abbrev pub nodeinfo_min_interval_ms : ℕ
nodeinfo_min_interval_ms = 300000

-- `InboundPacket`
pub record InboundPacket : Type 0 where
  pub sender : ℕ
  pub packet_id : ℕ
  pub relay_node : ℕ
  pub inner_payload : List ℕ
  pub addressed_to_us : Bool
  pub want_response : Bool
  pub request_id : ℕ
  pub reply_id : ℕ
  pub emoji : ℕ
  pub channel_idx : ℕ
  pub snr : ℕ

-- whether the last introduction is too recent for another
unfoldable pub is_throttled : ℕ → Option ℕ → Bool
is_throttled now none = false
is_throttled now (some last) = ltb (now - last) nodeinfo_min_interval_ms

-- `snr as i32 * 4` for an `i8`, as bit patterns
unfoldable pub quarter_db : ℕ → ℕ
quarter_db snr = if ltb snr 128 then snr * 4 else 2 ^ 32 - (256 - snr) * 4

-- the loop of neighbor_info.rs
unfoldable pub touch_neighbors : {P M : Type 0} → List ℕ → NodeDb P M → NodeDb P M
touch_neighbors {P} {M} [] db = db
touch_neighbors {P} {M} (n ∷ ns) db = touch_neighbors ns (touch n 0 none 0 db)

-- what node_info.rs does to the database
unfoldable pub learn_user : {P M : Type 0} → ℕ → User → NodeDb P M → NodeDb P M
learn_user {P} {M} sender user db = elim (shared_pub_key user) [
  | none ↦ update_user sender user db
  | some key ↦ update_user sender user (update_pub_key sender key db)
]

-- what telemetry.rs does to it
unfoldable pub learn_metrics : {P M : Type 0} → ℕ → Option M → NodeDb P M → NodeDb P M
learn_metrics {P} {M} sender none db = db
learn_metrics {P} {M} sender (some metrics) db = update_device_metrics sender metrics db

-- the waiting packet with the id, and the queue without it
unfoldable pub take_pending : ℕ → List PendingPacket → Option PendingPacket × List PendingPacket
take_pending id pending = elim (position (λ a. a.packet_id == id) pending) [
  | none ↦ (none, pending)
  | some i ↦ (get_elem? pending i, swap_remove i pending)
]

module _ {P M : Type 0} (w : Wire P M) where
  -- the route that traceroute.rs sends back
  unfoldable pub route_reply : InboundPacket → ℕ → RouteDiscovery
  route_reply pkt our =
      let route_disc =
        unwrap_or (w.decode_route pkt.inner_payload) (record { route = []; snr_towards = [] }) in
      record {
        route = route_disc.route ++ (our ∷ []);
        snr_towards = route_disc.snr_towards ++ (quarter_db pkt.snr ∷ []);
      }

  unfoldable pub route_builder : InboundPacket → ℕ → TxBuilder
  route_builder pkt our = record (builder w) {
    dest = pkt.sender;
    portnum = w.port_code PortNum.traceroute_app;
    inner_payload = w.encode_route (route_reply pkt our);
    channel_idx = some pkt.channel_idx;
    request_id = pkt.packet_id;
  }

module _ {P M F : Type 0} (w : Wire P M) where
  -- the answer to the phone that waits for the outcome of a packet
  unfoldable pub report_delivery : Option PendingPacket → MeshCtx P M F → MeshCtx P M F
  report_delivery none ctx = ctx
  report_delivery (some entry) ctx = elim entry.ble_notify [
    | none ↦ ctx
    | some dest ↦ send_ble_routing_result w dest entry.packet_id RoutingError.no_error ctx
  ]

  -- routing.rs, once the payload is a routing message
  unfoldable pub handle_ack : InboundPacket → MeshCtx P M F → MeshCtx P M F
  handle_ack pkt ctx =
      let (entry, waiting) = take_pending pkt.request_id ctx.pending_packets in
      let reported = report_delivery entry (record ctx { pending_packets = waiting }) in
      on_node_db (λ db. (learn_route pkt.sender pkt.relay_node db).0) reported

  unfoldable pub handle_routing : InboundPacket → MeshCtx P M F → MeshCtx P M F
  handle_routing pkt ctx =
      if w.is_routing pkt.inner_payload && not (pkt.request_id == 0)
      then handle_ack pkt ctx
      else ctx

  unfoldable pub handle_position : InboundPacket → MeshCtx P M F → MeshCtx P M F
  handle_position pkt ctx = elim (w.decode_position pkt.inner_payload) [
    | none ↦ ctx
    | some place ↦
        notify_ble_node_update w pkt.sender (on_node_db (update_position pkt.sender place) ctx)
  ]

  unfoldable pub handle_telemetry : InboundPacket → MeshCtx P M F → MeshCtx P M F
  handle_telemetry pkt ctx = elim (w.decode_telemetry pkt.inner_payload) [
    | none ↦ ctx
    | some metrics ↦ on_node_db (learn_metrics pkt.sender metrics) ctx
  ]

  unfoldable pub handle_neighbor_info : InboundPacket → MeshCtx P M F → MeshCtx P M F
  handle_neighbor_info pkt ctx = elim (w.decode_neighbors pkt.inner_payload) [
    | none ↦ ctx
    | some neighbors ↦ on_node_db (touch_neighbors neighbors) ctx
  ]

  unfoldable pub handle_traceroute : InboundPacket → MeshCtx P M F → MeshCtx P M F
  handle_traceroute pkt ctx =
      if pkt.addressed_to_us && pkt.want_response
      then transmit_next w (route_builder w pkt ctx.device.my_node_num) ctx
      else ctx

module _ {P M F : Type 0} (w : Wire P M) (t : Moment) where
  -- the answer of node_info.rs to a request
  unfoldable pub answer_node_info : InboundPacket → MeshCtx P M F → MeshCtx P M F
  answer_node_info pkt ctx =
      if pkt.want_response && not (is_throttled t.now ctx.last_nodeinfo_tx)
      then record (send_nodeinfo w pkt.sender false ctx) { last_nodeinfo_tx = some t.now }
      else ctx

  unfoldable pub handle_node_info : InboundPacket → MeshCtx P M F → MeshCtx P M F
  handle_node_info pkt ctx = elim (w.decode_user pkt.inner_payload) [
    | none ↦ ctx
    | some user ↦
        answer_node_info pkt
          (notify_ble_node_update w pkt.sender (on_node_db (learn_user pkt.sender user) ctx))
  ]
