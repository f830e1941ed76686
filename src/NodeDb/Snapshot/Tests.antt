-- ===== src/NodeDb/Snapshot/Tests.antt =====
-- Runs of the snapshot on concrete databases.
use meshtastenstein_rs.Base.{
  ℕ, ◌≡◌, refl, ◌≢◌, ◌<◌, Bool, true, false, not, none, some, List, [], ◌∷◌, ◌++◌, map, take,
  retain, any, Distinct, arith,
}
use meshtastenstein_rs.NodeDb.{NodeEntry, NodeDb, is_node}
use meshtastenstein_rs.NodeDb.Invariant.{node_num_of, IsNodeDb, IsNodeList}
use meshtastenstein_rs.NodeDb.Snapshot.{
  max_persisted_nodes, encode_record, decode_record, to_snapshot, restore_snapshot,
}
use meshtastenstein_rs.NodeDb.Snapshot.RoundTrip.{
  persisted, IsKey, IsStorable, decode_record-encode_record,
}
use meshtastenstein_rs.NodeDb.Snapshot.Restore.{restore_snapshot-IsNodeDb}
use meshtastenstein_rs.NodeDb.Snapshot.Reload.{restore_snapshot-to_snapshot}

abbrev node : ℕ → NodeEntry ℕ ℕ
node n = record {
  node_num = n;
  user = some (record {
    id = 33 ∷ [];
    long_name = 65 ∷ 66 ∷ [];
    short_name = 65 ∷ [];
    hw_model = 300;
    role = 1;
    public_key = [];
  });
  position_info = some 5;
  last_heard = 1000;
  snr = some 7;
  hops_away = none;
  device_metrics = none;
  next_hop = 4;
  last_seen_ms = 70000;
  pub_key = none;
  is_favorite = true;
  is_ignored = false;
  is_muted = true;
}

abbrev stored : NodeDb ℕ ℕ
stored = record { nodes = node 8 ∷ node 9 ∷ []; our_node_num = 7; dirty = true }

abbrev anything : List ℕ → Bool
anything bytes = true

abbrev as_it_is : List (NodeEntry ℕ ℕ) → List (NodeEntry ℕ ℕ)
as_it_is nodes = nodes

node-IsStorable : (n : ℕ) → n ≢ 0 → n < 100 → IsStorable (node n)
unfolding IsStorable IsKey
node-IsStorable n h k =
    (h, λ e. absurd (omega (arith, e, k)), omega (arith, k), omega arith, omega arith, tt)

decode_record-encode_record_example :
    decode_record anything (encode_record (node 8)) ≡ some (persisted anything (node 8))
decode_record-encode_record_example =
    decode_record-encode_record anything (node 8)
      (node-IsStorable 8 (λ e. absurd (omega (arith, e))) (omega arith))

stored-Distinct : Distinct node_num_of stored.nodes
unfolding any
stored-Distinct = (refl, (refl, tt))

abbrev started : NodeDb ℕ ℕ
started = record { nodes = []; our_node_num = 7; dirty = false }

started-IsNodeDb : IsNodeDb started
unfolding IsNodeList any
started-IsNodeDb = (tt, omega arith, refl, refl)

restore_snapshot-IsNodeDb_example :
    IsNodeDb (restore_snapshot anything (to_snapshot as_it_is stored) started).0
restore_snapshot-IsNodeDb_example =
    restore_snapshot-IsNodeDb anything (to_snapshot as_it_is stored) started started-IsNodeDb

restore_snapshot-to_snapshot_example :
    restore_snapshot anything (to_snapshot as_it_is stored) started ≡ (
      record started {
        nodes =
            retain (is_node 7) []
            ++ map
                (persisted anything)
                (retain (λ e. not (is_node 7 e)) (take max_persisted_nodes stored.nodes));
        dirty = false;
      },
      true,
    )
restore_snapshot-to_snapshot_example =
    restore_snapshot-to_snapshot anything as_it_is stored started
      (
        node-IsStorable 8 (λ e. absurd (omega (arith, e))) (omega arith),
        (node-IsStorable 9 (λ e. absurd (omega (arith, e))) (omega arith), tt),
      )
      stored-Distinct (omega arith)
