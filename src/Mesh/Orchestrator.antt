-- ===== src/Mesh/Orchestrator.antt =====
-- The loop of the orchestrator: `run` and `next_event` of meshtastenstein-
-- core/src/tasks/mesh_task.rs, and `dispatch` of domain/handlers/mod.rs. One turn of the loop is
-- one `Wake`: an event, or one of the two timers. The signals of activity, the statistics and the
-- lamp are left out.
use meshtastenstein_rs.Base.{
  ℕ, ◌-◌, ◌*◌, true, false, ◌&&◌, Option, none, some, List, [], ◌∷◌, ◌++◌, leb, if◌then◌else◌,
  is_some, get_elem?, swap_remove,
}
use meshtastenstein_rs.Packet.{RadioFrame}
use meshtastenstein_rs.NodeDb.{NodeEntry, mark_clean}
use meshtastenstein_rs.Router.Reliable.{extend_pending_deadlines, tick_retransmissions}
use meshtastenstein_rs.Relay.{earliest}
use meshtastenstein_rs.Storage.{Flash}
use meshtastenstein_rs.Storage.Blobs.{save_bond, clear_bond, save_node_db}
use meshtastenstein_rs.Proto.{RoutingError, Wire}
use meshtastenstein_rs.Mesh.{Moment, MeshCtx}
use meshtastenstein_rs.Mesh.Send.{send_frame, send_ble_routing_result}
use meshtastenstein_rs.Mesh.Receive.{RadioMetadata, receive}
use meshtastenstein_rs.Mesh.Phone.{from_app}
use meshtastenstein_rs.Mesh.Periodic.{periodic, send_device_telemetry}

-- constants.rs
abbrev pub node_db_flush_interval_ms : ℕ
node_db_flush_interval_ms = 5 * 60 * 1000

abbrev pub retx_airtime_extension_ms : ℕ
retx_airtime_extension_ms = 100

-- `MeshEvent`; `ble_rx` has the free places of the queue to the radio too
pub data MeshEvent : Type 0 where
  lora_rx : RadioFrame → RadioMetadata → MeshEvent
  ble_rx : ℕ → List ℕ → MeshEvent
  ble_connected : MeshEvent
  ble_disconnected : MeshEvent
  bond_save : List ℕ → MeshEvent
  bond_clear : MeshEvent
  battery_update : ℕ → ℕ → MeshEvent
  channel_util_update : ℕ → ℕ → MeshEvent
  tick : MeshEvent

-- what ends the wait of the loop; the retransmissions read the clock once for each entry
pub data Wake : Type 0 where
  event : MeshEvent → Wake
  rebroadcast_due : Wake
  retransmission_due : (ℕ → ℕ) → Wake

-- `MeshState`, with the signals that the loop gives: the shutdown, and the reboot
pub record Orchestrator (P M F : Type 0) : Type 0 where
  pub ctx : MeshCtx P M F
  pub last_node_db_flush : ℕ
  pub shutdown_cmd : Option ℕ
  pub reboot : Option ℕ

module _ {P M F : Type 0} (w : Wire P M) (nor : Flash F) (t : Moment) where
  unfoldable pub dispatch : MeshEvent → MeshCtx P M F → MeshCtx P M F
  dispatch (MeshEvent.lora_rx frame meta) ctx = receive w nor t frame meta ctx
  dispatch (MeshEvent.ble_rx free bytes) ctx = from_app w nor t free bytes ctx
  dispatch MeshEvent.ble_connected ctx = record ctx { ble_connected = true }
  dispatch MeshEvent.ble_disconnected ctx = record ctx { ble_connected = false }
  dispatch (MeshEvent.bond_save bytes) ctx = record ctx {
    storage = (save_bond nor bytes ctx.storage).0;
  }
  dispatch MeshEvent.bond_clear ctx = record ctx { storage = clear_bond nor ctx.storage }
  dispatch (MeshEvent.battery_update level voltage_mv) ctx =
      send_device_telemetry w t level voltage_mv ctx
  dispatch (MeshEvent.channel_util_update c a) ctx = record ctx {
    channel_metrics = record { channel_util = c; air_util_tx = a };
  }
  dispatch MeshEvent.tick ctx = periodic w t ctx

module _ {P M F : Type 0} where
  -- every frame that arrives gives the packets in wait more time
  unfoldable pub note_event : MeshEvent → MeshCtx P M F → MeshCtx P M F
  note_event (MeshEvent.lora_rx frame meta) ctx = record ctx {
    pending_packets = extend_pending_deadlines retx_airtime_extension_ms ctx.pending_packets;
  }
  note_event other ctx = ctx

  -- the timer of the rebroadcasts: the earliest goes out
  unfoldable pub send_earliest : MeshCtx P M F → MeshCtx P M F
  send_earliest ctx = elim (earliest ctx.pending_rebroadcast) [
    | none ↦ ctx
    | some idx ↦ elim (get_elem? ctx.pending_rebroadcast idx) [
      | none ↦ ctx
      | some entry ↦
          send_frame (some entry.frame)
            (record ctx { pending_rebroadcast = swap_remove idx ctx.pending_rebroadcast })
    ]
  ]

  unfoldable pub send_frames : List RadioFrame → MeshCtx P M F → MeshCtx P M F
  send_frames frames ctx = record ctx { to_lora = ctx.to_lora ++ frames }

module _ {P M F : Type 0} (w : Wire P M) where
  unfoldable pub report_failures : List (ℕ × ℕ) → MeshCtx P M F → MeshCtx P M F
  report_failures [] ctx = ctx
  report_failures ((dest, packet_id) ∷ rest) ctx =
      report_failures rest
        (send_ble_routing_result w dest packet_id RoutingError.max_retransmit ctx)

  -- the timer of the retransmissions
  unfoldable pub retransmit : ℕ → (ℕ → ℕ) → MeshCtx P M F → MeshCtx P M F
  retransmit now clock ctx =
      let result = tick_retransmissions now clock ctx.pending_packets ctx.node_db in
      report_failures result.gave_up (
        send_frames result.to_send
          (record ctx { pending_packets = result.pending; node_db = result.db }))

module _ {P M F : Type 0} (w : Wire P M) (nor : Flash F)
    (sort : List (NodeEntry P M) → List (NodeEntry P M)) (t : Moment) where
  -- the database in flash, and marked clean if that succeeded
  unfoldable pub flush_node_db : MeshCtx P M F → MeshCtx P M F
  flush_node_db ctx =
      let (storage, error) = save_node_db nor sort ctx.node_db ctx.storage in
      record ctx {
        storage = storage;
        node_db = if is_some error then ctx.node_db else mark_clean ctx.node_db;
      }

  unfoldable pub debounced_flush : Orchestrator P M F → Orchestrator P M F
  debounced_flush o =
      if o.ctx.node_db.dirty && leb node_db_flush_interval_ms (t.now - o.last_node_db_flush)
      then record o { ctx = flush_node_db o.ctx; last_node_db_flush = t.now }
      else o

  unfoldable pub flush_if_dirty : MeshCtx P M F → MeshCtx P M F
  flush_if_dirty ctx = if ctx.node_db.dirty then flush_node_db ctx else ctx

  -- a shutdown that was asked for, after a last flush
  unfoldable pub shutdown_with : Option ℕ → Orchestrator P M F → Orchestrator P M F
  shutdown_with none o = o
  shutdown_with (some secs) o = record o {
    ctx = record (flush_if_dirty o.ctx) { shutdown_after_secs = none };
    shutdown_cmd = some secs;
  }

  unfoldable pub reboot_with : Option ℕ → Orchestrator P M F → Orchestrator P M F
  reboot_with none o = o
  reboot_with (some secs) o = record o {
    ctx = record o.ctx { reboot_after_secs = none };
    reboot = some secs;
  }

  unfoldable pub deferred_shutdown : Orchestrator P M F → Orchestrator P M F
  deferred_shutdown o = shutdown_with o.ctx.shutdown_after_secs o

  unfoldable pub deferred_reboot : Orchestrator P M F → Orchestrator P M F
  deferred_reboot o = reboot_with o.ctx.reboot_after_secs o

  unfoldable pub handle_event : MeshEvent → Orchestrator P M F → Orchestrator P M F
  handle_event e o = deferred_reboot (
      deferred_shutdown
        (debounced_flush (record o { ctx = dispatch w nor t e (note_event e o.ctx) })))

  unfoldable pub wake : Wake → Orchestrator P M F → Orchestrator P M F
  wake (Wake.event e) o = handle_event e o
  wake Wake.rebroadcast_due o = record o { ctx = send_earliest o.ctx }
  wake (Wake.retransmission_due clock) o = record o { ctx = retransmit w t.now clock o.ctx }
