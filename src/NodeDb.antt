-- ===== src/NodeDb.antt =====
-- meshtastenstein-core/src/domain/node_db.rs: the database of known nodes. `Position` and
-- `DeviceMetrics` are generated protobuf types that this file only stores: they are parameters.
-- `get_or_create` and `get_mut` lend a reference to the first entry with the number; here the
-- caller changes that entry by `modify`.
pub mod Lookup
pub mod Invariant
pub mod Touch
pub mod Snapshot
mod Tests
use meshtastenstein_rs.Base.{
  ℕ, ◌-◌, ◌*◌, Bool, true, false, ◌&&◌, ◌||◌, not, Option, none, some, List, [], ◌∷◌, ◌==◌, ltb,
  leb, if◌then◌else◌, is_some, length, position, find, update_first, retain, all, any, swap_remove,
  push,
}
use meshtastenstein_rs.Packet.{broadcast_addr}

-- constants.rs
abbrev pub max_nodes : ℕ
max_nodes = 96

abbrev pub stale_age_secs : ℕ
stale_age_secs = 2 * 60 * 60

-- The fields of the generated `User` message that the source names; texts are their UTF-8 bytes.
pub record User : Type 0 where
  pub id : List ℕ
  pub long_name : List ℕ
  pub short_name : List ℕ
  pub hw_model : ℕ
  pub role : ℕ
  pub public_key : List ℕ

-- `NodeEntry`. `snr` holds the bit pattern of the `i8`.
pub record NodeEntry (P M : Type 0) : Type 0 where
  pub node_num : ℕ
  pub user : Option User
  pub position_info : Option P
  pub last_heard : ℕ
  pub snr : Option ℕ
  pub hops_away : Option ℕ
  pub device_metrics : Option M
  pub next_hop : ℕ
  pub last_seen_ms : ℕ
  pub pub_key : Option (List ℕ)
  pub is_favorite : Bool
  pub is_ignored : Bool
  pub is_muted : Bool

pub record NodeDb (P M : Type 0) : Type 0 where
  pub nodes : List (NodeEntry P M)
  pub our_node_num : ℕ
  pub dirty : Bool

module _ {P M : Type 0} where
  -- `|n| n.node_num == node_num`
  abbrev pub is_node : ℕ → NodeEntry P M → Bool
  is_node n e = e.node_num == n

  unfoldable pub blank_entry : ℕ → NodeEntry P M
  blank_entry n = record {
    node_num = n;
    user = none;
    position_info = none;
    last_heard = 0;
    snr = none;
    hops_away = none;
    device_metrics = none;
    next_hop = 0;
    last_seen_ms = 0;
    pub_key = none;
    is_favorite = false;
    is_ignored = false;
    is_muted = false;
  }

  unfoldable pub new_db : ℕ → NodeDb P M
  new_db our = record { nodes = []; our_node_num = our; dirty = false }

  unfoldable pub mark_clean : NodeDb P M → NodeDb P M
  mark_clean db = record db { dirty = false }

  unfoldable pub mark_dirty : NodeDb P M → NodeDb P M
  mark_dirty db = record db { dirty = true }

  -- The test of `prune_stale` under which an entry stays.
  unfoldable pub is_kept : ℕ → ℕ → ℕ → NodeEntry P M → Bool
  is_kept our now_secs max_age_secs e =
      e.node_num == our || e.last_heard == 0 || leb (now_secs - e.last_heard) max_age_secs

  unfoldable pub prune_stale : ℕ → ℕ → NodeDb P M → NodeDb P M × ℕ
  prune_stale now_secs max_age_secs db =
      let kept = retain (is_kept db.our_node_num now_secs max_age_secs) db.nodes in
      (record db { nodes = kept }, length db.nodes - length kept)

  unfoldable pub get : ℕ → NodeDb P M → Option (NodeEntry P M)
  get n db = find (is_node n) db.nodes

  -- the write through a reference that `get_mut` or `get_or_create` lends
  unfoldable pub modify : ℕ → (NodeEntry P M → NodeEntry P M) → NodeDb P M → NodeDb P M
  modify n f db = record db { nodes = update_first (is_node n) f db.nodes }

  -- `none` where the source returns `None`; else the database that holds the entry lent.
  unfoldable pub get_or_create : ℕ → NodeDb P M → Option (NodeDb P M)
  get_or_create n db =
      if n == 0 || n == broadcast_addr
      then none
      else if is_some (position (is_node n) db.nodes)
      then some db
      else elim (push max_nodes (blank_entry n) db.nodes) [
        | none ↦ none
        | some nodes ↦ some (record db { nodes = nodes; dirty = true })
      ]

  unfoldable pub update_user : ℕ → User → NodeDb P M → NodeDb P M
  update_user n user db = elim (get_or_create n db) [
    | none ↦ db
    | some d ↦ mark_dirty (modify n (λ e. record e { user = some user }) d)
  ]

  unfoldable pub update_pub_key : ℕ → List ℕ → NodeDb P M → NodeDb P M
  update_pub_key n key db = elim (get_or_create n db) [
    | none ↦ db
    | some d ↦ mark_dirty (modify n (λ e. record e { pub_key = some key }) d)
  ]

  unfoldable pub update_device_metrics : ℕ → M → NodeDb P M → NodeDb P M
  update_device_metrics n metrics db = elim (get_or_create n db) [
    | none ↦ db
    | some d ↦ modify n (λ e. record e { device_metrics = some metrics }) d
  ]

  unfoldable pub update_position : ℕ → P → NodeDb P M → NodeDb P M
  update_position n place db = elim (get_or_create n db) [
    | none ↦ db
    | some d ↦ modify n (λ e. record e { position_info = some place }) d
  ]

  -- A change through `get_mut`, and `dirty = true`, if the node is known.
  unfoldable pub change_known : ℕ → (NodeEntry P M → NodeEntry P M) → NodeDb P M → NodeDb P M
  change_known n f db = if is_some (get n db) then mark_dirty (modify n f db) else db

  unfoldable pub set_favorite : ℕ → Bool → NodeDb P M → NodeDb P M
  set_favorite n favorite = change_known n (λ e. record e { is_favorite = favorite })

  unfoldable pub ignore_entry : Bool → NodeEntry P M → NodeEntry P M
  ignore_entry ignored e =
      if ignored
      then record e { is_ignored = true; position_info = none; pub_key = none }
      else record e { is_ignored = false }

  unfoldable pub set_ignored : ℕ → Bool → NodeDb P M → NodeDb P M
  set_ignored n ignored = change_known n (ignore_entry ignored)

  unfoldable pub toggle_muted : ℕ → NodeDb P M → NodeDb P M
  toggle_muted n = change_known n (λ e. record e { is_muted = not e.is_muted })

  unfoldable pub has_pub_key : NodeDb P M → ℕ → Bool
  has_pub_key db n = elim (get n db) [ none ↦ false | some e ↦ is_some e.pub_key ]

  unfoldable pub remove : ℕ → NodeDb P M → NodeDb P M × Bool
  remove n db = elim (position (is_node n) db.nodes) [
    | none ↦ (db, false)
    | some idx ↦ (record db { nodes = swap_remove idx db.nodes; dirty = true }, true)
  ]

  unfoldable pub touch_entry : ℕ → Option ℕ → ℕ → NodeEntry P M → NodeEntry P M
  touch_entry time snr now_ms e = record e {
    last_heard = time;
    snr = if is_some snr then snr else e.snr;
    last_seen_ms = now_ms;
  }

  -- the second half of `touch`
  unfoldable pub insert_touched : ℕ → ℕ → Option ℕ → ℕ → NodeDb P M → NodeDb P M
  insert_touched n time snr now_ms db = elim (get_or_create n db) [
    | none ↦ db
    | some d ↦ modify n (touch_entry time snr now_ms) d
  ]

  unfoldable pub touch : ℕ → ℕ → Option ℕ → ℕ → NodeDb P M → NodeDb P M
  touch n time snr now_ms db =
      let (pruned_db, pruned) = prune_stale time stale_age_secs db in
      if length db.nodes == max_nodes && all (λ e. not (is_node n e)) db.nodes
      then (if ltb 0 pruned then insert_touched n time snr now_ms pruned_db else db)
      else insert_touched n time snr now_ms db

  unfoldable pub online_count : ℕ → ℕ → NodeDb P M → ℕ
  online_count now_ms max_age_ms db =
      length
        (retain (λ e. ltb 0 e.last_seen_ms && leb (now_ms - e.last_seen_ms) max_age_ms) db.nodes)
