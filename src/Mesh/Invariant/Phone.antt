-- ===== src/Mesh/Invariant/Phone.antt =====
-- The state after a message from the phone, handlers/from_app/mod.rs.
use meshtastenstein_rs.Base.{
  ℕ, zero, suc, ◌≡◌, ◌≤◌, refl, ◌∙◌, false, Option, none, some, Bool-cases, Option-cases, inl, inr,
  List, [], ◌∷◌, ◌==◌, length, push,
}
use meshtastenstein_rs.Packet.{RadioFrame, broadcast_addr}
use meshtastenstein_rs.Router.Reliable.{PendingPacket, queue_size}
use meshtastenstein_rs.Relay.Bounds.{length-push-le}
use meshtastenstein_rs.Message.{Data}
use meshtastenstein_rs.Storage.{Flash, peek, pop}
use meshtastenstein_rs.Proto.{PortNum, RoutingError, MeshPacket, FromRadio, ToRadio, Wire}
use meshtastenstein_rs.Mesh.{Moment, MeshCtx, position_capacity}
use meshtastenstein_rs.Mesh.Send.{
  send_frame, send_ble_routing_result, send_ble_routing_ack, push_from_radio,
}
use meshtastenstein_rs.Mesh.Admin.{admin_dispatch}
use meshtastenstein_rs.Mesh.Transmit.{
  Permit, is_local_admin, kept_position, chosen_id, ota_want_ack, permit, track, send_built,
  send_or_drop, transmit_with, act_on, prepared, transmit_data, run_local_admin, transmit_decoded,
  transmit_from_ble_packet,
}
use meshtastenstein_rs.Mesh.Exchange.{
  push_all, send_config_exchange, replay_satellite_db, send_nodeinfo_exchange, decode_psk_frame,
  replay_args, replay_frame, next_stored, replay_loop, replay_stored_frames,
}
use meshtastenstein_rs.Mesh.Phone.{
  special_nonce_only_nodes, handle_want_config, handle_heartbeat, handle_to_radio, from_app,
}
use meshtastenstein_rs.Mesh.Core.{
  core, Good, Good-same, core-send_frame, core-push_from_radio, core-forward_to_ble,
  core-send_nodeinfo, core-send_ble_routing_result,
}
use meshtastenstein_rs.Mesh.Invariant.Admin.{position_bytes_of-bound, admin_dispatch-Good}

kept_position-bound :
    (port : PortNum) (bytes before : List ℕ)
    → length before ≤ position_capacity
    → length (kept_position port bytes before) ≤ position_capacity
unfolding kept_position
kept_position-bound PortNum.position_app bytes before fits = position_bytes_of-bound bytes
kept_position-bound port bytes before fits = fits

module _ {P M F : Type 0} (w : Wire P M) (t : Moment) where
  told :
      (dest id : ℕ) (error : RoutingError) (ctx : MeshCtx P M F)
      → Good ctx
      → Good (send_ble_routing_result w dest id error ctx)
  told dest id error ctx g =
      Good-same (send_ble_routing_result w dest id error ctx) ctx
        (core-send_ble_routing_result w dest id error ctx) g

  sent : (frame : Option RadioFrame) (ctx : MeshCtx P M F) → Good ctx → Good (send_frame frame ctx)
  sent frame ctx g = Good-same (send_frame frame ctx) ctx (core-send_frame frame ctx) g

  track-Good :
      (pkt : MeshPacket) (entry : PendingPacket) (dest : ℕ) (ctx : MeshCtx P M F)
      → Good ctx
      → Good (track w t pkt entry dest ctx)
  unfolding track send_ble_routing_ack core
  track-Good pkt entry dest ctx g =
      elim (Option-cases (push queue_size entry ctx.pending_packets)) [
        | inl full ↦ rw (full, track) (told dest pkt.id RoutingError.no_error ctx g)
        | inr (grown, room) ↦
            rw (room, track)
              (let kept : Good (record ctx { pending_packets = grown }) = record {
                nodes = g.nodes;
                history = g.history;
                waiting_fit = length-push-le queue_size entry ctx.pending_packets grown room;
                relays_fit = g.relays_fit;
                place_fits = g.place_fits;
              } in
                kept)
      ]

  send_or_drop-Good :
      (pkt : MeshPacket) (d : Data) (id : ℕ) (frame : Option RadioFrame) (ctx : MeshCtx P M F)
      → Good ctx
      → Good (send_or_drop w t pkt d id frame ctx)
  unfolding send_or_drop send_built send_ble_routing_ack
  send_or_drop-Good pkt d id none ctx g = g
  send_or_drop-Good pkt d id (some frame) ctx g = elim (Bool-cases (ota_want_ack w pkt d)) [
    | inl tracked ↦ rw (tracked) (sent (some frame) _ (track-Good pkt _ _ ctx g))
    | inr plain ↦ rw (plain) (
        told _ pkt.id RoutingError.no_error (send_frame (some frame) ctx) (sent (some frame) ctx g))
  ]

  act_on-Good :
      (p : Permit) (pkt : MeshPacket) (d : Data) (id : ℕ) (ctx : MeshCtx P M F)
      → Good ctx
      → Good (act_on w t p pkt d id ctx)
  unfolding act_on transmit_with
  act_on-Good Permit.plain pkt d id ctx g = send_or_drop-Good pkt d id _ ctx g
  act_on-Good Permit.sealed pkt d id ctx g = send_or_drop-Good pkt d id _ ctx g
  act_on-Good Permit.refused pkt d id ctx g = g
  act_on-Good (Permit.reported error) pkt d id ctx g = told pkt.to pkt.id error ctx g

  transmit_data-Good :
      (pkt : MeshPacket) (d : Data) (ctx : MeshCtx P M F)
      → Good ctx
      → Good (transmit_data w t pkt d ctx)
  unfolding transmit_data prepared core
  transmit_data-Good pkt d ctx g =
      let port = w.port_of d.portnum in
      let kept : MeshCtx P M F = record ctx {
        device = (chosen_id pkt ctx.device).0;
        my_position_bytes = kept_position port d.inner_payload ctx.my_position_bytes;
      } in
      let gk : Good kept = record {
        nodes = g.nodes;
        history = g.history;
        waiting_fit = g.waiting_fit;
        relays_fit = g.relays_fit;
        place_fits = kept_position-bound port d.inner_payload ctx.my_position_bytes g.place_fits;
      } in
      act_on-Good (permit pkt port ctx.node_db ctx.pkc_priv_bytes) pkt d
        (chosen_id pkt ctx.device).1 kept gk

module _ {P M F : Type 0} (w : Wire P M) where
  push_all-core :
      (ms : List (FromRadio P)) (ctx : MeshCtx P M F) → core (push_all w ms ctx) ≡ core ctx
  unfolding push_all
  push_all-core [] ctx = refl
  push_all-core (m ∷ ms) ctx =
      push_all-core ms (push_from_radio w m ctx) ∙ core-push_from_radio w m ctx

  replay_frame-core :
      (frame : RadioFrame) (ctx : MeshCtx P M F) → core (replay_frame w frame ctx) ≡ core ctx
  unfolding replay_frame
  replay_frame-core frame ctx = elim (Option-cases (decode_psk_frame w frame ctx.device)) [
    | inl garbled ↦ rw (garbled, replay_frame) refl
    | inr ((h, d, k), read) ↦
        rw (read, replay_frame) (core-forward_to_ble w (replay_args h d k) ctx)
  ]

module _ {P M F : Type 0} (w : Wire P M) (nor : Flash F) (t : Moment) where
  replay_loop-Good : (fuel : ℕ) (ctx : MeshCtx P M F) → Good ctx → Good (replay_loop w nor fuel ctx)
  unfolding replay_loop core
  replay_loop-Good zero ctx g = g
  replay_loop-Good (suc fuel) ctx g = elim (Option-cases (next_stored (peek ctx.storage))) [
    | inl over ↦ rw (over, replay_loop) g
    | inr (frame, more) ↦
        let popped : MeshCtx P M F = record ctx { storage = (pop nor ctx.storage).0 } in
        let gp : Good popped = g in
        rw (more, replay_loop)
          (replay_loop-Good fuel (replay_frame w frame popped)
            (Good-same (replay_frame w frame popped) popped (replay_frame-core w frame popped) gp))
  ]

  handle_want_config-Good :
      (id : ℕ) (ctx : MeshCtx P M F) → Good ctx → Good (handle_want_config w nor t id ctx)
  unfolding handle_want_config replay_stored_frames send_nodeinfo_exchange send_config_exchange
      replay_satellite_db
  handle_want_config-Good id ctx g = elim (Bool-cases (id == special_nonce_only_nodes)) [
    | inl second ↦ rw (second) (
        replay_loop-Good _ _ (
          Good-same (send_nodeinfo_exchange w id ctx) ctx
            (push_all-core w _ _ ∙ push_all-core w _ ctx) g))
    | inr first ↦ rw (first) (
        replay_loop-Good _ _
          (Good-same (send_config_exchange w id ctx) ctx (push_all-core w _ ctx) g))
  ]

  handle_heartbeat-Good :
      (free nonce : ℕ) (ctx : MeshCtx P M F)
      → Good ctx
      → Good (handle_heartbeat w nor t free nonce ctx)
  unfolding handle_heartbeat
  handle_heartbeat-Good free nonce ctx g = elim (Bool-cases (nonce == 1)) [
    | inl ping ↦ rw (ping) (Good-same _ ctx (core-send_nodeinfo w broadcast_addr false ctx) g)
    | inr plain ↦ rw (plain) (Good-same _ ctx (core-push_from_radio w _ ctx) g)
  ]

  transmit_decoded-Good :
      (pkt : MeshPacket) (decoded : Option Data) (ctx : MeshCtx P M F)
      → Good ctx
      → Good (transmit_decoded w nor t pkt decoded ctx)
  unfolding transmit_decoded run_local_admin send_ble_routing_ack
  transmit_decoded-Good pkt none ctx g = g
  transmit_decoded-Good pkt (some d) ctx g =
      elim (Bool-cases (is_local_admin pkt (w.port_of d.portnum) ctx.device.my_node_num)) [
        | inr data_packet ↦ rw (data_packet) (transmit_data-Good w t pkt d ctx g)
        | inl local ↦
            let done : MeshCtx P M F =
              admin_dispatch w nor t pkt.from pkt.id d.inner_payload false ctx in
            let gd : Good done =
              admin_dispatch-Good w nor t pkt.from pkt.id d.inner_payload false ctx g in
            rw (local) (elim (Bool-cases pkt.want_ack) [
              | inl asked ↦ rw (asked) (told w t pkt.from pkt.id RoutingError.no_error done gd)
              | inr silent ↦ rw (silent) gd
            ])
      ]

  handle_to_radio-Good :
      (free : ℕ) (m : ToRadio) (ctx : MeshCtx P M F)
      → Good ctx
      → Good (handle_to_radio w nor t free m ctx)
  unfolding handle_to_radio transmit_from_ble_packet core
  handle_to_radio-Good free (ToRadio.packet pkt) ctx g = transmit_decoded-Good pkt pkt.decoded ctx g
  handle_to_radio-Good free (ToRadio.want_config_id id) ctx g = handle_want_config-Good id ctx g
  handle_to_radio-Good free (ToRadio.heartbeat nonce) ctx g = handle_heartbeat-Good free nonce ctx g
  handle_to_radio-Good free ToRadio.disconnect ctx g = g
  handle_to_radio-Good free ToRadio.other ctx g = g

  pub from_app-Good :
      (free : ℕ) (bytes : List ℕ) (ctx : MeshCtx P M F)
      → Good ctx
      → Good (from_app w nor t free bytes ctx)
  unfolding from_app
  from_app-Good free bytes ctx g = elim (Bool-cases (length bytes == 0)) [
    | inl empty ↦ rw (empty) g
    | inr some_bytes ↦ rw (some_bytes) (elim (Option-cases (w.decode_to_radio bytes)) [
      | inl garbled ↦ rw (garbled) g
      | inr (m, read) ↦ rw (read) (handle_to_radio-Good free m ctx g)
    ])
  ]
