-- ===== src/Mesh/Invariant/Run.antt =====
-- The state after the timers of the node and after a run of the loop in tasks/mesh_task.rs.
use meshtastenstein_rs.Base.{
  ℕ, ◌+◌, ◌-◌, ◌&&◌, Option, none, some, Bool-cases, Option-cases, inl, inr, List, [], ◌∷◌, leb,
  is_some, length-swap_remove, length-map, get_elem?, arith,
}
use meshtastenstein_rs.NodeDb.{NodeEntry, mark_clean}
use meshtastenstein_rs.Router.Reliable.{PendingPacket, extend_pending_deadlines}
use meshtastenstein_rs.Relay.{PendingRebroadcast, earliest}
use meshtastenstein_rs.Storage.{Flash}
use meshtastenstein_rs.Storage.Blobs.{save_node_db}
use meshtastenstein_rs.Proto.{RoutingError, Wire}
use meshtastenstein_rs.Mesh.{Moment, MeshCtx}
use meshtastenstein_rs.Mesh.Send.{send_frame}
use meshtastenstein_rs.Mesh.Periodic.{
  is_telemetry_due, broadcast_telemetry, telemetry_payload, telemetry_to_mesh,
  send_device_telemetry,
}
use meshtastenstein_rs.Mesh.Orchestrator.{
  MeshEvent, Wake, Orchestrator, node_db_flush_interval_ms, retx_airtime_extension_ms, dispatch,
  note_event, send_earliest, send_frames, report_failures, retransmit, flush_node_db,
  debounced_flush, flush_if_dirty, shutdown_with, reboot_with, deferred_shutdown, deferred_reboot,
  handle_event, wake,
}
use meshtastenstein_rs.Mesh.Core.{core, Good, Good-same, core-send_ble_routing_result}
use meshtastenstein_rs.Mesh.Invariant.Database.{tick_retransmissions-kept}
use meshtastenstein_rs.Mesh.Invariant.Radio.{receive-Good}
use meshtastenstein_rs.Mesh.Invariant.Phone.{from_app-Good}
use meshtastenstein_rs.Mesh.Invariant.Periodic.{
  turn, broadcast_telemetry-Good, telemetry_to_phone-Good, periodic-Good,
}

module _ {P M F : Type 0} (w : Wire P M) (nor : Flash F) (t : Moment) where
  dispatch-Good : (e : MeshEvent) (ctx : MeshCtx P M F) → Good ctx → Good (dispatch w nor t e ctx)
  unfolding dispatch core send_device_telemetry telemetry_to_mesh
  dispatch-Good (MeshEvent.lora_rx frame meta) ctx g = receive-Good w nor t frame meta ctx g
  dispatch-Good (MeshEvent.ble_rx free bytes) ctx g = from_app-Good w nor t free bytes ctx g
  dispatch-Good MeshEvent.ble_connected ctx g = g
  dispatch-Good MeshEvent.ble_disconnected ctx g = g
  dispatch-Good (MeshEvent.bond_save bytes) ctx g = g
  dispatch-Good MeshEvent.bond_clear ctx g = g
  dispatch-Good (MeshEvent.battery_update level voltage_mv) ctx g =
      let bytes = telemetry_payload w t level voltage_mv ctx in
      telemetry_to_phone-Good w t bytes (telemetry_to_mesh w t bytes ctx) (
        turn w t (is_telemetry_due w t ctx) (broadcast_telemetry w t bytes ctx) ctx
          (broadcast_telemetry-Good w t bytes ctx g) g)
  dispatch-Good (MeshEvent.channel_util_update c a) ctx g = g
  dispatch-Good MeshEvent.tick ctx g = periodic-Good w t ctx g

module _ {P M F : Type 0} where
  note_event-Good : (e : MeshEvent) (ctx : MeshCtx P M F) → Good ctx → Good (note_event e ctx)
  unfolding note_event core extend_pending_deadlines
  note_event-Good (MeshEvent.lora_rx frame meta) ctx g = record {
    nodes = g.nodes;
    history = g.history;
    waiting_fit = omega (
      arith,
      g.waiting_fit,
      length-map {A = PendingPacket}
          (λ p. record p { deadline = p.deadline + retx_airtime_extension_ms }) ctx.pending_packets,
    );
    relays_fit = g.relays_fit;
    place_fits = g.place_fits;
  }
  note_event-Good e ctx g = g

  send_earliest-Good : (ctx : MeshCtx P M F) → Good ctx → Good (send_earliest ctx)
  unfolding send_earliest core send_frame
  send_earliest-Good ctx g = elim (Option-cases (earliest ctx.pending_rebroadcast)) [
    | inl idle ↦ rw (idle, send_earliest) g
    | inr (idx, due) ↦
        rw (due, send_earliest)
          (elim (Option-cases (get_elem? ctx.pending_rebroadcast idx)) [
            | inl gone ↦ rw (gone) g
            | inr (entry, found) ↦ rw (found) (record {
              nodes = g.nodes;
              history = g.history;
              waiting_fit = g.waiting_fit;
              relays_fit = omega (
                arith,
                g.relays_fit,
                length-swap_remove {A = PendingRebroadcast} idx ctx.pending_rebroadcast,
              );
              place_fits = g.place_fits;
            })
          ])
  ]

module _ {P M F : Type 0} (w : Wire P M) where
  report_failures-Good :
      (failures : List (ℕ × ℕ)) (ctx : MeshCtx P M F)
      → Good ctx
      → Good (report_failures w failures ctx)
  unfolding report_failures
  report_failures-Good [] ctx g = g
  report_failures-Good ((dest, id) ∷ rest) ctx g =
      report_failures-Good rest _
        (Good-same _ ctx (core-send_ble_routing_result w dest id RoutingError.max_retransmit ctx) g)

  retransmit-Good :
      (now : ℕ) (clock : ℕ → ℕ) (ctx : MeshCtx P M F) → Good ctx → Good (retransmit w now clock ctx)
  unfolding retransmit send_frames core
  retransmit-Good now clock ctx g =
      let kept = tick_retransmissions-kept now clock ctx.pending_packets ctx.node_db g.nodes in
      report_failures-Good _ _ (record {
        nodes = kept.0;
        history = g.history;
        waiting_fit = omega (arith, g.waiting_fit, kept.1);
        relays_fit = g.relays_fit;
        place_fits = g.place_fits;
      })

module _ {P M F : Type 0} (w : Wire P M) (nor : Flash F)
    (sort : List (NodeEntry P M) → List (NodeEntry P M)) where
  flush_node_db-Good :
      (t : Moment) (ctx : MeshCtx P M F) → Good ctx → Good (flush_node_db w nor sort t ctx)
  unfolding flush_node_db core mark_clean
  flush_node_db-Good t ctx g =
      elim (Bool-cases (is_some (save_node_db nor sort ctx.node_db ctx.storage).1)) [
        | inl failed ↦ rw (failed) g
        | inr saved ↦ rw (saved) (record {
          nodes = g.nodes;
          history = g.history;
          waiting_fit = g.waiting_fit;
          relays_fit = g.relays_fit;
          place_fits = g.place_fits;
        })
      ]

  debounced_flush-Good :
      (t : Moment) (o : Orchestrator P M F) → Good o.ctx → Good (debounced_flush w nor sort t o).ctx
  unfolding debounced_flush
  debounced_flush-Good t o g =
      elim (Bool-cases
        (o.ctx.node_db.dirty && leb node_db_flush_interval_ms (t.now - o.last_node_db_flush))) [
          | inl due ↦ rw (due) (flush_node_db-Good t o.ctx g)
          | inr early ↦ rw (early) g
        ]

  flush_if_dirty-Good :
      (t : Moment) (ctx : MeshCtx P M F) → Good ctx → Good (flush_if_dirty w nor sort t ctx)
  unfolding flush_if_dirty
  flush_if_dirty-Good t ctx g =
      turn w t ctx.node_db.dirty (flush_node_db w nor sort t ctx) ctx (flush_node_db-Good t ctx g) g

  shutdown_with-Good :
      (t : Moment) (secs : Option ℕ) (o : Orchestrator P M F)
      → Good o.ctx
      → Good (shutdown_with w nor sort t secs o).ctx
  unfolding shutdown_with core
  shutdown_with-Good t none o g = g
  shutdown_with-Good t (some secs) o g = flush_if_dirty-Good t o.ctx g

  reboot_with-Good :
      (t : Moment) (secs : Option ℕ) (o : Orchestrator P M F)
      → Good o.ctx
      → Good (reboot_with w nor sort t secs o).ctx
  unfolding reboot_with core
  reboot_with-Good t none o g = g
  reboot_with-Good t (some secs) o g = g

  wake-Good :
      (t : Moment) (k : Wake) (o : Orchestrator P M F)
      → Good o.ctx
      → Good (wake w nor sort t k o).ctx
  unfolding wake handle_event deferred_shutdown deferred_reboot
  wake-Good t (Wake.event e) o g = reboot_with-Good t _ _ (
      shutdown_with-Good t _ _ (
        debounced_flush-Good t (record o { ctx = dispatch w nor t e (note_event e o.ctx) })
          (dispatch-Good w nor t e (note_event e o.ctx) (note_event-Good e o.ctx g))))
  wake-Good t Wake.rebroadcast_due o g = send_earliest-Good o.ctx g
  wake-Good t (Wake.retransmission_due clock) o g = retransmit-Good w t.now clock o.ctx g

  -- the turns of the loop, each with what is read while it runs
  unfoldable pub run : List (Moment × Wake) → Orchestrator P M F → Orchestrator P M F
  run [] o = o
  run ((t, k) ∷ rest) o = run rest (wake w nor sort t k o)

  -- From a well-formed state, whatever frames, messages of the phone, timers and signals come, in
  -- any order: the database has at most one entry for a number, at most 96 entries and none for a
  -- reserved number; the history of packets is well formed; the packets in wait and the pending
  -- rebroadcasts are at most 8 each, and the position at most 64 bytes.
  pub run-Good :
      (turns : List (Moment × Wake)) (o : Orchestrator P M F) → Good o.ctx → Good (run turns o).ctx
  unfolding run
  run-Good [] o g = g
  run-Good ((t, k) ∷ rest) o g = run-Good rest (wake w nor sort t k o) (wake-Good t k o g)
