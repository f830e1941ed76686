-- ===== src/Mesh/Invariant/Ports.antt =====
-- The state after a handler of a port number, handlers/from_radio/.
use meshtastenstein_rs.Base.{
  ℕ, ◌≡◌, ◌≤◌, refl, Bool, false, ◌&&◌, not, Option, none, some, Bool-cases, Option-cases, inl, inr,
  List, ◌==◌, length, length-swap_remove, position, arith,
}
use meshtastenstein_rs.NodeDb.{update_position}
use meshtastenstein_rs.NodeDb.Invariant.{Step, Step-IsNodeDb}
use meshtastenstein_rs.Router.{learn_route}
use meshtastenstein_rs.Router.Reliable.{PendingPacket}
use meshtastenstein_rs.Proto.{Wire}
use meshtastenstein_rs.Mesh.{Moment, MeshCtx}
use meshtastenstein_rs.Mesh.Send.{send_nodeinfo, notify_ble_node_update}
use meshtastenstein_rs.Mesh.Admin.{on_node_db}
use meshtastenstein_rs.Mesh.Ports.{
  InboundPacket, is_throttled, take_pending, learn_user, learn_metrics, touch_neighbors,
  report_delivery, handle_ack, handle_routing, handle_position, handle_telemetry,
  handle_neighbor_info, handle_traceroute, answer_node_info, handle_node_info,
}
use meshtastenstein_rs.Mesh.Core.{
  core, Good, Good-same, Good-on_node_db, core-transmit_next, core-send_nodeinfo,
  core-notify_ble_node_update, core-send_ble_routing_result,
}
use meshtastenstein_rs.Mesh.Invariant.Database.{
  IsNodeDb-touch_neighbors, IsNodeDb-learn_user, IsNodeDb-learn_metrics, IsNodeDb-learn_route,
}

length-take_pending : (id : ℕ) (q : List PendingPacket) → length (take_pending id q).1 ≤ length q
unfolding take_pending
length-take_pending id q = elim (Option-cases (position (λ a. a.packet_id == id) q)) [
  | inl missing ↦ rw (missing, take_pending) (omega arith)
  | inr (i, found) ↦
      rw (found, take_pending) (omega (arith, length-swap_remove {A = PendingPacket} i q))
]

module _ {P M F : Type 0} (w : Wire P M) where
  report_delivery-core :
      (entry : Option PendingPacket) (ctx : MeshCtx P M F)
      → core (report_delivery w entry ctx) ≡ core ctx
  unfolding report_delivery
  report_delivery-core none ctx = refl
  report_delivery-core (some entry) ctx = elim (Option-cases entry.ble_notify) [
    | inl nobody ↦ rw (nobody, report_delivery) refl
    | inr (dest, waits) ↦ rw (waits, report_delivery) (core-send_ble_routing_result w dest _ _ ctx)
  ]

  handle_ack-Good :
      (pkt : InboundPacket) (ctx : MeshCtx P M F) → Good ctx → Good (handle_ack w pkt ctx)
  unfolding handle_ack core
  handle_ack-Good pkt ctx g =
      let (entry, waiting) = take_pending pkt.request_id ctx.pending_packets in
      let taken : MeshCtx P M F = record ctx { pending_packets = waiting } in
      let kept : Good taken = record {
        nodes = g.nodes;
        history = g.history;
        waiting_fit =
            omega (arith, g.waiting_fit, length-take_pending pkt.request_id ctx.pending_packets);
        relays_fit = g.relays_fit;
        place_fits = g.place_fits;
      } in
      let reported : MeshCtx P M F = report_delivery w entry taken in
      Good-on_node_db (λ db. (learn_route pkt.sender pkt.relay_node db).0) reported
        (IsNodeDb-learn_route pkt.sender pkt.relay_node reported.node_db)
        (Good-same reported taken (report_delivery-core entry taken) kept)

  pub handle_routing-Good :
      (pkt : InboundPacket) (ctx : MeshCtx P M F) → Good ctx → Good (handle_routing w pkt ctx)
  unfolding handle_routing
  handle_routing-Good pkt ctx g =
      elim (Bool-cases (w.is_routing pkt.inner_payload && not (pkt.request_id == 0))) [
        | inl ack ↦ rw (ack, handle_routing) (handle_ack-Good pkt ctx g)
        | inr other ↦ rw (other, handle_routing) g
      ]

  notified : (n : ℕ) (ctx : MeshCtx P M F) → Good ctx → Good (notify_ble_node_update w n ctx)
  notified n ctx g =
      Good-same (notify_ble_node_update w n ctx) ctx (core-notify_ble_node_update w n ctx) g

  pub handle_position-Good :
      (pkt : InboundPacket) (ctx : MeshCtx P M F) → Good ctx → Good (handle_position w pkt ctx)
  unfolding handle_position
  handle_position-Good pkt ctx g = elim (Option-cases (w.decode_position pkt.inner_payload)) [
    | inl garbled ↦ rw (garbled, handle_position) g
    | inr (place, read) ↦
        rw (read, handle_position)
          (notified pkt.sender (on_node_db (update_position pkt.sender place) ctx) (
            Good-on_node_db (update_position pkt.sender place) ctx
              (λ h. Step-IsNodeDb (Step.place ctx.node_db pkt.sender place) h) g))
  ]

  pub handle_telemetry-Good :
      (pkt : InboundPacket) (ctx : MeshCtx P M F) → Good ctx → Good (handle_telemetry w pkt ctx)
  unfolding handle_telemetry
  handle_telemetry-Good pkt ctx g = elim (Option-cases (w.decode_telemetry pkt.inner_payload)) [
    | inl garbled ↦ rw (garbled, handle_telemetry) g
    | inr (metrics, read) ↦
        rw (read, handle_telemetry)
          (Good-on_node_db (learn_metrics pkt.sender metrics) ctx
            (IsNodeDb-learn_metrics pkt.sender metrics ctx.node_db) g)
  ]

  pub handle_neighbor_info-Good :
      (pkt : InboundPacket) (ctx : MeshCtx P M F) → Good ctx → Good (handle_neighbor_info w pkt ctx)
  unfolding handle_neighbor_info
  handle_neighbor_info-Good pkt ctx g = elim (Option-cases (w.decode_neighbors pkt.inner_payload)) [
    | inl garbled ↦ rw (garbled, handle_neighbor_info) g
    | inr (ns, read) ↦
        rw (read, handle_neighbor_info)
          (Good-on_node_db (touch_neighbors ns) ctx (IsNodeDb-touch_neighbors ns ctx.node_db) g)
  ]

  pub handle_traceroute-Good :
      (pkt : InboundPacket) (ctx : MeshCtx P M F) → Good ctx → Good (handle_traceroute w pkt ctx)
  unfolding handle_traceroute
  handle_traceroute-Good pkt ctx g = elim (Bool-cases (pkt.addressed_to_us && pkt.want_response)) [
    | inl asked ↦ rw (asked, handle_traceroute) (Good-same _ ctx (core-transmit_next w _ ctx) g)
    | inr other ↦ rw (other, handle_traceroute) g
  ]

module _ {P M F : Type 0} (w : Wire P M) (t : Moment) where
  -- an introduction, with its time
  pub introduced :
      (n : ℕ) (ask : Bool) (ctx : MeshCtx P M F)
      → Good ctx
      → Good (record (send_nodeinfo w n ask ctx) { last_nodeinfo_tx = some t.now })
  unfolding core
  introduced n ask ctx g =
      Good-same (send_nodeinfo w n ask ctx) ctx (core-send_nodeinfo w n ask ctx) g

  answer_node_info-Good :
      (pkt : InboundPacket) (ctx : MeshCtx P M F) → Good ctx → Good (answer_node_info w t pkt ctx)
  unfolding answer_node_info
  answer_node_info-Good pkt ctx g =
      elim (Bool-cases (pkt.want_response && not (is_throttled t.now ctx.last_nodeinfo_tx))) [
        | inl asked ↦ rw (asked, answer_node_info) (introduced pkt.sender false ctx g)
        | inr other ↦ rw (other, answer_node_info) g
      ]

  pub handle_node_info-Good :
      (pkt : InboundPacket) (ctx : MeshCtx P M F) → Good ctx → Good (handle_node_info w t pkt ctx)
  unfolding handle_node_info
  handle_node_info-Good pkt ctx g = elim (Option-cases (w.decode_user pkt.inner_payload)) [
    | inl garbled ↦ rw (garbled, handle_node_info) g
    | inr (user, read) ↦
        rw (read, handle_node_info)
          (answer_node_info-Good pkt _ (
            notified w pkt.sender (on_node_db (learn_user pkt.sender user) ctx) (
              Good-on_node_db (learn_user pkt.sender user) ctx
                (IsNodeDb-learn_user pkt.sender user ctx.node_db) g)))
  ]
