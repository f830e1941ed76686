-- ===== src/Mesh/Boot.antt =====
-- The start of the node: `MeshState::new`, and what `run` does before its loop, of
-- meshtastenstein-core/src/tasks/mesh_task.rs.
use meshtastenstein_rs.Base.{ℕ, false, none, List, []}
use meshtastenstein_rs.NodeDb.{new_db}
use meshtastenstein_rs.Router.{new_router}
use meshtastenstein_rs.Radio.Preset.{ModemPreset}
use meshtastenstein_rs.Device.{new_device, build_node_id_string}
use meshtastenstein_rs.Storage.{Flash, NvsStorage}
use meshtastenstein_rs.Storage.Blobs.{load_state, load_node_db}
use meshtastenstein_rs.Proto.{Wire}
use meshtastenstein_rs.Mesh.{Moment, ble_tx_queue_size}
use meshtastenstein_rs.Mesh.Periodic.{broadcast_nodeinfo}
use meshtastenstein_rs.Mesh.Orchestrator.{Orchestrator}

module _ {P M F : Type 0} (w : Wire P M) (nor : Flash F) where
  -- The keys are the private one and the public one; `now` is the clock. The queues are empty, and
  -- nothing was asked for; the boards set the live transmit flag from the stored settings.
  unfoldable pub new_mesh_state :
      ModemPreset → List ℕ → NvsStorage F → List ℕ × List ℕ → ℕ → Orchestrator P M F
  new_mesh_state default_preset mac storage (private, public) now =
      let fresh = new_device w.conversions.default_role default_preset mac in
      let device = load_state nor w.conversions storage fresh in
      let db = load_node_db nor w.conversions.is_utf8 storage (new_db fresh.my_node_num) in
      record {
        ctx = record {
          device = device;
          node_db = db;
          storage = storage;
          router = new_router fresh.my_node_num;
          pending_packets = [];
          pending_rebroadcast = [];
          my_position_bytes = [];
          session_passkey = none;
          from_radio_id = 1;
          ble_connected = false;
          last_nodeinfo_tx = none;
          last_position_tx = now;
          last_lora_telemetry = none;
          last_neighborinfo_tx = none;
          channel_metrics = record { channel_util = 0; air_util_tx = 0 };
          reboot_after_secs = none;
          shutdown_after_secs = none;
          node_id_str = build_node_id_string fresh.my_node_num;
          boot_time = now;
          pkc_pub_bytes = public;
          pkc_priv_bytes = private;
          to_phone = [];
          ble_free = ble_tx_queue_size;
          to_lora = [];
          disconnect = false;
          tx_enabled = device.tx_enabled;
        };
        last_node_db_flush = now;
        shutdown_cmd = none;
        reboot = none;
      }

  -- the announcement, shortly after the start
  unfoldable pub announce : Moment → Orchestrator P M F → Orchestrator P M F
  announce t o = record o { ctx = broadcast_nodeinfo w t o.ctx }
