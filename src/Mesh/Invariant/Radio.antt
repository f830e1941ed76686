-- ===== src/Mesh/Invariant/Radio.antt =====
-- The state after a frame from the radio, handlers/from_radio/mod.rs.
use meshtastenstein_rs.Base.{
  ◌-◌, min, ◌+◌, true, false, ◌&&◌, ◌||◌, not, Bool-cases, Option-cases, inl, inr, ◌==◌, ltb, leb,
  is_some, length, if◌then◌else◌,
}
use meshtastenstein_rs.Packet.{
  Header, RadioFrame, frame_header, want_ack, hop_limit, hop_start, is_for_us,
}
use meshtastenstein_rs.NodeDb.{get, max_nodes}
use meshtastenstein_rs.Radio.{region_from_proto}
use meshtastenstein_rs.Relay.{RelayState, filter_layer}
use meshtastenstein_rs.Relay.Bounds.{
  IsRelay, relay_layer-IsRelay, maybe_relay_opaque-IsRelay, filter_layer-IsRelay,
  implicit_ack-bound,
}
use meshtastenstein_rs.Message.{DecodedPayload, DecryptOutcome, try_decrypt_and_decode}
use meshtastenstein_rs.Storage.{Flash}
use meshtastenstein_rs.Proto.{PortNum, RoutingError, Wire}
use meshtastenstein_rs.Mesh.{Moment, MeshCtx, tx_allowed_polite}
use meshtastenstein_rs.Mesh.Send.{
  notify_ble_node_update, send_nodeinfo, send_routing_ack, send_routing_error,
}
use meshtastenstein_rs.Mesh.Admin.{on_node_db}
use meshtastenstein_rs.Mesh.Ports.{InboundPacket, is_throttled}
use meshtastenstein_rs.Mesh.Receive.{
  RadioMetadata, keeps_quiet, is_text, is_admin, inbound_packet, forward_args, relay_state,
  with_relay, own_packet, touch_sender, maybe_request_nodeinfo, knows_user, meet_sender, undecoded,
  acknowledge, relay, forward, keep_text, handle_port, process, receive_decoded, receive_foreign,
  receive,
}
use meshtastenstein_rs.Mesh.Core.{
  core, Good, Good-same, Good-on_node_db, core-transmit_next, core-send_nodeinfo,
  core-notify_ble_node_update, core-forward_to_ble,
}
use meshtastenstein_rs.Mesh.Invariant.Database.{IsNodeDb-touch_sender}
use meshtastenstein_rs.Mesh.Invariant.Admin.{admin_dispatch-Good}
use meshtastenstein_rs.Mesh.Invariant.Ports.{
  introduced, handle_routing-Good, handle_position-Good, handle_telemetry-Good,
  handle_neighbor_info-Good, handle_traceroute-Good, handle_node_info-Good,
}

module _ {P M F : Type 0} where
  Good-relay_state : (ctx : MeshCtx P M F) → Good ctx → IsRelay (relay_state ctx)
  unfolding IsRelay relay_state core
  Good-relay_state ctx g = (g.history, g.relays_fit)

  Good-with_relay :
      (ctx : MeshCtx P M F) (s : RelayState) → IsRelay s → Good ctx → Good (with_relay ctx s)
  unfolding IsRelay with_relay core
  Good-with_relay ctx s (history, fit) g = record {
    nodes = g.nodes;
    history = history;
    waiting_fit = g.waiting_fit;
    relays_fit = fit;
    place_fits = g.place_fits;
  }

  own_packet-Good : (h : Header) (ctx : MeshCtx P M F) → Good ctx → Good (own_packet h ctx)
  unfolding own_packet core
  own_packet-Good h ctx g = record {
    nodes = g.nodes;
    history = g.history;
    waiting_fit = implicit_ack-bound h.packet_id ctx.pending_packets g.waiting_fit;
    relays_fit = g.relays_fit;
    place_fits = g.place_fits;
  }

module _ {P M F : Type 0} (w : Wire P M) (t : Moment) where
  maybe_request_nodeinfo-Good :
      (h : Header) (ctx : MeshCtx P M F) → Good ctx → Good (maybe_request_nodeinfo w t h ctx)
  unfolding maybe_request_nodeinfo
  maybe_request_nodeinfo-Good h ctx g =
      elim (Bool-cases (
        keeps_quiet ctx.device.role
        || leb max_nodes (length ctx.node_db.nodes)
        || is_throttled t.now ctx.last_nodeinfo_tx
        || not (
            tx_allowed_polite w.floats ctx.channel_metrics
              (region_from_proto w.region_of ctx.device.region))
        || ltb (min (ctx.device.default_hops + 2) 255) (hop_start h - hop_limit h))) [
          | inl quiet ↦ rw (quiet, maybe_request_nodeinfo) g
          | inr speaks ↦ rw (speaks, maybe_request_nodeinfo) (introduced w t h.sender true ctx g)
        ]

  meet_sender-Good :
      (meta : RadioMetadata) (h : Header) (ctx : MeshCtx P M F)
      → Good ctx
      → Good (meet_sender w t meta h ctx)
  unfolding meet_sender
  meet_sender-Good meta h ctx g =
      let touched : MeshCtx P M F = on_node_db (touch_sender t.now meta.snr h) ctx in
      let gt : Good touched =
        Good-on_node_db (touch_sender t.now meta.snr h) ctx
          (IsNodeDb-touch_sender t.now meta.snr h ctx.node_db) g in
      let notified : MeshCtx P M F =
        if not (is_some (get h.sender ctx.node_db))
        then notify_ble_node_update w h.sender touched
        else touched in
      let gn : Good notified = elim (Bool-cases (not (is_some (get h.sender ctx.node_db)))) [
        | inl new ↦ rw (new) (
            Good-same (notify_ble_node_update w h.sender touched) touched
              (core-notify_ble_node_update w h.sender touched) gt)
        | inr old ↦ rw (old) gt
      ] in
      elim (Bool-cases (knows_user h.sender notified.node_db)) [
        | inl known ↦ rw (known) gn
        | inr unknown ↦ rw (unknown) (maybe_request_nodeinfo-Good h notified gn)
      ]

  undecoded-Good :
      (frame : RadioFrame) (h : Header) (o : DecryptOutcome) (ctx : MeshCtx P M F)
      → Good ctx
      → Good (undecoded w t frame h o ctx)
  unfolding undecoded send_routing_error
  undecoded-Good frame h (DecryptOutcome.decoded d) ctx g = g
  undecoded-Good frame h DecryptOutcome.pki_unknown_pubkey ctx g =
      let told : MeshCtx P M F =
        if want_ack h
        then send_routing_error w h.sender h.packet_id RoutingError.pki_unknown_pubkey ctx
        else ctx in
      let gt : Good told = elim (Bool-cases (want_ack h)) [
        | inl asked ↦ rw (asked) (Good-same _ ctx (core-transmit_next w _ ctx) g)
        | inr silent ↦ rw (silent) g
      ] in
      Good-same (send_nodeinfo w h.sender false told) told
        (core-send_nodeinfo w h.sender false told) gt
  undecoded-Good frame h DecryptOutcome.dropped ctx g =
      elim (Bool-cases (not (h.destination == ctx.device.my_node_num))) [
        | inl others ↦
            rw (others, undecoded)
              (Good-with_relay ctx _
                (maybe_relay_opaque-IsRelay t.now t.delay frame h ctx.device.my_node_num
                  ctx.device.role (relay_state ctx) (Good-relay_state ctx g))
                g)
        | inr ours ↦ rw (ours, undecoded) g
      ]

  acknowledge-Good :
      (h : Header) (d : DecodedPayload) (ctx : MeshCtx P M F)
      → Good ctx
      → Good (acknowledge w t h d ctx)
  unfolding acknowledge send_routing_ack
  acknowledge-Good h d ctx g =
      elim (Bool-cases (h.destination == ctx.device.my_node_num && want_ack h)) [
        | inl asked ↦ rw (asked) (Good-same _ ctx (core-transmit_next w _ ctx) g)
        | inr silent ↦ rw (silent) g
      ]

  relay-Good :
      (frame : RadioFrame) (h : Header) (ctx : MeshCtx P M F)
      → Good ctx
      → Good (relay w t frame h ctx)
  unfolding relay
  relay-Good frame h ctx g =
      Good-with_relay ctx _
        (relay_layer-IsRelay t.now t.delay frame h ctx.device.my_node_num ctx.device.role
          (relay_state ctx) (Good-relay_state ctx g))
        g

  forward-Good :
      (h : Header) (d : DecodedPayload) (meta : RadioMetadata) (ctx : MeshCtx P M F)
      → Good ctx
      → Good (forward w t h d meta ctx)
  unfolding forward
  forward-Good h d meta ctx g =
      elim (Bool-cases (
        (not (is_admin (w.port_of d.portnum)) || not (is_for_us ctx.device.my_node_num h))
        && ctx.ble_connected)) [
          | inl goes ↦
              rw (goes) (Good-same _ ctx (core-forward_to_ble w (forward_args h d meta) ctx) g)
          | inr stays ↦ rw (stays) g
        ]

module _ {P M F : Type 0} (w : Wire P M) (nor : Flash F) (t : Moment) where
  keep_text-Good :
      (frame : RadioFrame) (d : DecodedPayload) (ctx : MeshCtx P M F)
      → Good ctx
      → Good (keep_text w nor t frame d ctx)
  unfolding keep_text core
  keep_text-Good frame d ctx g =
      elim (Bool-cases (is_text (w.port_of d.portnum) && not ctx.ble_connected)) [
        | inl kept ↦ rw (kept) g
        | inr other ↦ rw (other) g
      ]

  handle_port-Good :
      (port : PortNum) (pkt : InboundPacket) (ctx : MeshCtx P M F)
      → Good ctx
      → Good (handle_port w nor t port pkt ctx)
  unfolding handle_port
  handle_port-Good PortNum.position_app pkt ctx g = handle_position-Good w pkt ctx g
  handle_port-Good PortNum.nodeinfo_app pkt ctx g = handle_node_info-Good w t pkt ctx g
  handle_port-Good PortNum.routing_app pkt ctx g = handle_routing-Good w pkt ctx g
  handle_port-Good PortNum.admin_app pkt ctx g = elim (Bool-cases pkt.addressed_to_us) [
    | inl ours ↦
        rw (ours)
          (admin_dispatch-Good w nor t pkt.sender pkt.packet_id pkt.inner_payload true ctx g)
    | inr others ↦ rw (others) g
  ]
  handle_port-Good PortNum.telemetry_app pkt ctx g = handle_telemetry-Good w pkt ctx g
  handle_port-Good PortNum.traceroute_app pkt ctx g = handle_traceroute-Good w pkt ctx g
  handle_port-Good PortNum.neighborinfo_app pkt ctx g = handle_neighbor_info-Good w pkt ctx g
  handle_port-Good port pkt ctx g = g

  process-Good :
      (frame : RadioFrame) (h : Header) (meta : RadioMetadata) (d : DecodedPayload)
      (ctx : MeshCtx P M F)
      → Good ctx
      → Good (process w nor t frame h meta d ctx)
  unfolding process
  process-Good frame h meta d ctx g =
      let met : MeshCtx P M F = meet_sender w t meta h ctx in
      let kept : MeshCtx P M F = keep_text w nor t frame d met in
      let handled =
        handle_port-Good (w.port_of d.portnum) (inbound_packet kept.device.my_node_num h d meta.snr)
          kept (keep_text-Good frame d met (meet_sender-Good w t meta h ctx g)) in
      relay-Good w t frame h _ (acknowledge-Good w t h d _ (forward-Good w t h d meta _ handled))

  receive_decoded-Good :
      (frame : RadioFrame) (h : Header) (meta : RadioMetadata) (d : DecodedPayload)
      (ctx : MeshCtx P M F)
      → Good ctx
      → Good (receive_decoded w nor t frame h meta d ctx)
  unfolding receive_decoded
  receive_decoded-Good frame h meta d ctx g =
      let filtered =
        filter_layer frame h ctx.device.my_node_num ctx.device.role (relay_state ctx) in
      let after : Good (with_relay ctx filtered.0) =
        Good-with_relay ctx filtered.0
          (filter_layer-IsRelay frame h ctx.device.my_node_num ctx.device.role (relay_state ctx)
            (Good-relay_state ctx g))
          g in
      elim (Bool-cases filtered.1) [
        | inl new ↦ rw (new) (process-Good frame h meta d _ after)
        | inr known ↦ rw (known) after
      ]

  receive_foreign-Good :
      (frame : RadioFrame) (h : Header) (meta : RadioMetadata) (o : DecryptOutcome)
      (ctx : MeshCtx P M F)
      → Good ctx
      → Good (receive_foreign w nor t frame h meta o ctx)
  unfolding receive_foreign
  receive_foreign-Good frame h meta (DecryptOutcome.decoded d) ctx g =
      receive_decoded-Good frame h meta d ctx g
  receive_foreign-Good frame h meta DecryptOutcome.pki_unknown_pubkey ctx g =
      undecoded-Good w t frame h DecryptOutcome.pki_unknown_pubkey ctx g
  receive_foreign-Good frame h meta DecryptOutcome.dropped ctx g =
      undecoded-Good w t frame h DecryptOutcome.dropped ctx g

  pub receive-Good :
      (frame : RadioFrame) (meta : RadioMetadata) (ctx : MeshCtx P M F)
      → Good ctx
      → Good (receive w nor t frame meta ctx)
  unfolding receive
  receive-Good frame meta ctx g = elim (Option-cases (frame_header frame)) [
    | inl short ↦ rw (short, receive) g
    | inr (h, read) ↦
        rw (read, receive)
          (elim (Bool-cases (h.sender == ctx.device.my_node_num)) [
            | inl own ↦ rw (own) (own_packet-Good h ctx g)
            | inr foreign ↦ rw (foreign) (
                receive_foreign-Good frame h meta
                  (try_decrypt_and_decode w.protocol frame h ctx.device ctx.node_db
                    ctx.pkc_priv_bytes)
                  ctx g)
          ])
  ]
