-- ===== src/Mesh/Invariant/Start.antt =====
-- The state of the node at its start, and from there on.
use meshtastenstein_rs.Base.{ℕ, Bool, Option-cases, inl, inr, List, arith}
use meshtastenstein_rs.NodeDb.{NodeEntry, NodeDb, new_db}
use meshtastenstein_rs.NodeDb.Invariant.{IsNodeDb, Reachable, Reachable-IsNodeDb}
use meshtastenstein_rs.NodeDb.Snapshot.Restore.{restore_snapshot-IsNodeDb}
use meshtastenstein_rs.Router.History.{new_router-IsHistory}
use meshtastenstein_rs.Radio.Preset.{ModemPreset}
use meshtastenstein_rs.Device.{new_device}
use meshtastenstein_rs.Storage.{Flash, NvsStorage}
use meshtastenstein_rs.Storage.Blobs.{load_node_db_internal, load_node_db}
use meshtastenstein_rs.Proto.{Wire}
use meshtastenstein_rs.Mesh.{Moment}
use meshtastenstein_rs.Mesh.Orchestrator.{Wake}
use meshtastenstein_rs.Mesh.Boot.{new_mesh_state, announce}
use meshtastenstein_rs.Mesh.Core.{core, Good}
use meshtastenstein_rs.Mesh.Invariant.Periodic.{broadcast_nodeinfo-Good}
use meshtastenstein_rs.Mesh.Invariant.Run.{run, run-Good}

module _ {P M F : Type 0} (nor : Flash F) where
  load_node_db-IsNodeDb :
      (is_utf8 : List ℕ → Bool) (s : NvsStorage F) (db : NodeDb P M)
      → IsNodeDb db
      → IsNodeDb (load_node_db nor is_utf8 s db)
  unfolding load_node_db
  load_node_db-IsNodeDb is_utf8 s db h = elim (Option-cases (load_node_db_internal nor s)) [
    | inl lost ↦ rw (lost, load_node_db) h
    | inr (buf, read) ↦ rw (read, load_node_db) (restore_snapshot-IsNodeDb is_utf8 buf db h)
  ]

module _ {P M F : Type 0} (w : Wire P M) (nor : Flash F) where
  new_mesh_state-Good :
      (preset : ModemPreset) (mac : List ℕ) (s : NvsStorage F) (keys : List ℕ × List ℕ) (now : ℕ)
      → Good (new_mesh_state w nor preset mac s keys now).ctx
  unfolding new_mesh_state core
  new_mesh_state-Good preset mac s (private, public) now =
      let our : ℕ = (new_device w.conversions.default_role preset mac).my_node_num in
      record {
        nodes =
            load_node_db-IsNodeDb nor w.conversions.is_utf8 s (new_db our)
              (Reachable-IsNodeDb our (new_db our) Reachable.boot);
        history = new_router-IsHistory our;
        waiting_fit = omega arith;
        relays_fit = omega arith;
        place_fits = omega arith;
      }

  -- From the start of the node, whatever its flash holds and whatever frames, messages of the
  -- phone, timers and signals come, in any order: the database has at most one entry for a number,
  -- at most 96 entries and none for a reserved number; the history of packets is well formed; the
  -- packets in wait and the pending rebroadcasts are at most 8 each, and the position at most 64
  -- bytes.
  pub started_run-Good :
      (sort : List (NodeEntry P M) → List (NodeEntry P M)) (preset : ModemPreset) (mac : List ℕ)
      (s : NvsStorage F) (keys : List ℕ × List ℕ) (now : ℕ) (t : Moment)
      (turns : List (Moment × Wake))
      → Good
          (run w nor sort turns (announce w nor t (new_mesh_state w nor preset mac s keys now))).ctx
  unfolding announce
  started_run-Good sort preset mac s keys now t turns =
      let o = new_mesh_state w nor preset mac s keys now in
      run-Good w nor sort turns (announce w nor t o)
        (broadcast_nodeinfo-Good w t o.ctx (new_mesh_state-Good preset mac s keys now))
