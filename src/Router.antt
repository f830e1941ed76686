-- ===== src/Router.antt =====
-- meshtastenstein-core/src/domain/router.rs: the seen-set of authenticated packets, the one of
-- packets relayed opaquely, the flooding and the next-hop decisions. `embassy_time` instants are
-- milliseconds. `DeviceRole` is generated from the protobuf files; of its variants the source names
-- those below, and `other` stands for the rest.
pub mod History
pub mod Flooding
pub mod Opaque
pub mod Memory
pub mod NextHop
pub mod Reliable
mod Tests
use meshtastenstein_rs.Base.{
  ℕ, zero, suc, ◌+◌, ◌-◌, ◌%◌, ◌^◌, min, Bool, true, false, ◌&&◌, ◌||◌, not, Option, none, some,
  List, [], ◌∷◌, ◌==◌, ltb, if◌then◌else◌, is_some, get_or, set, take, replicate, position, any,
}
use meshtastenstein_rs.NodeDb.{NodeEntry, NodeDb, get, get_or_create, modify}

pub data DeviceRole : Type 0 where
  client : DeviceRole
  client_mute : DeviceRole
  client_hidden : DeviceRole
  router : DeviceRole
  router_client : DeviceRole
  router_late : DeviceRole
  repeater : DeviceRole
  other : ℕ → DeviceRole

-- constants.rs
abbrev pub duplicate_ring_size : ℕ
duplicate_ring_size = 200

abbrev pub opaque_seen_ring_size : ℕ
opaque_seen_ring_size = 32

abbrev pub no_next_hop : ℕ
no_next_hop = 0

abbrev pub max_relayers_tracked : ℕ
max_relayers_tracked = 6

pub record PacketRecord : Type 0 where
  pub sender : ℕ
  pub packet_id : ℕ
  pub best_hop_limit : ℕ
  pub relayed_by : List ℕ
  pub relayer_count : ℕ
  pub valid : Bool

-- `PacketRecord::default()`
unfoldable pub no_record : PacketRecord
no_record = record {
  sender = 0;
  packet_id = 0;
  best_hop_limit = 0;
  relayed_by = replicate max_relayers_tracked 0;
  relayer_count = 0;
  valid = false;
}

pub data FilterResult : Type 0 where
  new_packet : FilterResult
  duplicate_drop : FilterResult
  duplicate_upgrade : ℕ → FilterResult
  duplicate_cancel_relay : FilterResult

pub record MeshRouter : Type 0 where
  pub history : List PacketRecord
  pub history_head : ℕ
  pub history_count : ℕ
  pub our_node_num : ℕ
  pub opaque_seen : List (ℕ × ℕ)
  pub opaque_seen_head : ℕ
  pub opaque_seen_count : ℕ

-- `MeshRouter::new`
unfoldable pub new_router : ℕ → MeshRouter
new_router our = record {
  history = replicate duplicate_ring_size no_record;
  history_head = 0;
  history_count = 0;
  our_node_num = our;
  opaque_seen = replicate opaque_seen_ring_size (0, 0);
  opaque_seen_head = 0;
  opaque_seen_count = 0;
}

-- the test in the loop of `find_record`
unfoldable pub is_record : ℕ → ℕ → PacketRecord → Bool
is_record sender packet_id r = r.valid && r.sender == sender && r.packet_id == packet_id

unfoldable pub find_record : ℕ → ℕ → MeshRouter → Option ℕ
find_record sender packet_id r =
    position (is_record sender packet_id) (take (min r.history_count duplicate_ring_size) r.history)

-- the record that `record_packet` writes
abbrev pub fresh_record : ℕ → ℕ → ℕ → PacketRecord
fresh_record sender packet_id hop_limit = record {
  sender = sender;
  packet_id = packet_id;
  best_hop_limit = hop_limit;
  relayed_by = replicate max_relayers_tracked 0;
  relayer_count = 0;
  valid = true;
}

unfoldable pub record_packet : ℕ → ℕ → ℕ → MeshRouter → MeshRouter × ℕ
record_packet sender packet_id hop_limit r =
    let idx = r.history_head in
    (
      record r {
        history = set r.history idx (fresh_record sender packet_id hop_limit);
        history_head = (r.history_head + 1) % duplicate_ring_size;
        history_count =
            if ltb r.history_count duplicate_ring_size
            then suc r.history_count
            else r.history_count;
      },
      idx,
    )

unfoldable pub add_relayer : PacketRecord → ℕ → PacketRecord
add_relayer r relay_node =
    if relay_node == 0 || relay_node == no_next_hop
    then r
    else if any (λ b. b == relay_node)
        (take (min r.relayer_count max_relayers_tracked) r.relayed_by)
    then r
    else if ltb r.relayer_count max_relayers_tracked
    then record r {
      relayed_by = set r.relayed_by r.relayer_count relay_node;
      relayer_count = suc r.relayer_count;
    }
    else r

-- `Self::add_relayer(&mut self.history[idx], relay_node)`
unfoldable pub add_relayer_at : ℕ → ℕ → MeshRouter → MeshRouter
add_relayer_at idx relay_node r = record r {
  history = set r.history idx (add_relayer (get_or r.history idx no_record) relay_node);
}

-- `self.history[idx].best_hop_limit = hop_limit`
unfoldable pub set_best_hop_limit : ℕ → ℕ → MeshRouter → MeshRouter
set_best_hop_limit idx hop_limit r = record r {
  history =
      set r.history idx (record (get_or r.history idx no_record) { best_hop_limit = hop_limit });
}

unfoldable pub is_pair : ℕ → ℕ → ℕ × ℕ → Bool
is_pair sender packet_id k = k.0 == sender && k.1 == packet_id

unfoldable pub should_relay_opaque : ℕ → ℕ → ℕ → ℕ → MeshRouter → MeshRouter × Bool
should_relay_opaque sender packet_id hop_start hop_limit r =
    let is_originator_retransmit = ltb 0 hop_start && hop_start == hop_limit in
    let check_count = min r.opaque_seen_count opaque_seen_ring_size in
    let already_seen = any (is_pair sender packet_id) (take check_count r.opaque_seen) in
    if already_seen && not is_originator_retransmit
    then (r, false)
    else if not already_seen
    then (
      record r {
        opaque_seen = set r.opaque_seen r.opaque_seen_head (sender, packet_id);
        opaque_seen_head = (r.opaque_seen_head + 1) % opaque_seen_ring_size;
        opaque_seen_count =
            if ltb r.opaque_seen_count opaque_seen_ring_size
            then suc r.opaque_seen_count
            else r.opaque_seen_count;
      },
      true,
    )
    else (r, true)

-- `!matches!(role, DeviceRole::Router | DeviceRole::RouterLate)`
unfoldable pub role_allows_cancel : DeviceRole → Bool
role_allows_cancel DeviceRole.router = false
role_allows_cancel DeviceRole.router_late = false
role_allows_cancel DeviceRole.client = true
role_allows_cancel DeviceRole.client_mute = true
role_allows_cancel DeviceRole.client_hidden = true
role_allows_cancel DeviceRole.router_client = true
role_allows_cancel DeviceRole.repeater = true
role_allows_cancel (DeviceRole.other n) = true

-- `pending_hop_limit` is `Some(pending_hl)` with `hop_limit > pending_hl`
unfoldable pub is_upgrade : ℕ → Option ℕ → Bool
is_upgrade hop_limit pending = elim pending [
  | none ↦ false
  | some pending_hl ↦ ltb pending_hl hop_limit
]

-- the branch of `should_filter_received` for a packet that has the record `idx`
unfoldable pub filter_duplicate :
    ℕ → ℕ → ℕ → Option ℕ → DeviceRole → MeshRouter → MeshRouter × FilterResult
filter_duplicate idx hop_limit relay_node pending role r =
    let tracked = add_relayer_at idx relay_node r in
    if is_upgrade hop_limit pending
    then (set_best_hop_limit idx hop_limit tracked, FilterResult.duplicate_upgrade (hop_limit - 1))
    else if role_allows_cancel role
        && not (relay_node == 0)
        && not (relay_node == r.our_node_num % 256)
    then (tracked, FilterResult.duplicate_cancel_relay)
    else (tracked, FilterResult.duplicate_drop)

unfoldable pub should_filter_received :
    ℕ → ℕ → ℕ → ℕ → Option ℕ → DeviceRole → MeshRouter → MeshRouter × FilterResult
should_filter_received sender packet_id hop_limit relay_node pending role r =
    elim (find_record sender packet_id r) [
      | some idx ↦ filter_duplicate idx hop_limit relay_node pending role r
      | none ↦
          let (recorded, idx) = record_packet sender packet_id hop_limit r in
          (add_relayer_at idx relay_node recorded, FilterResult.new_packet)
    ]

unfoldable pub should_rebroadcast : ℕ → ℕ → MeshRouter → Option ℕ
should_rebroadcast hop_limit sender r =
    if sender == r.our_node_num then none else if hop_limit == 0 then none else some (hop_limit - 1)

unfoldable pub get_next_hop : {P M : Type 0} → NodeDb P M → ℕ → ℕ → ℕ
get_next_hop db dest relay_node = elim (get dest db) [
  | none ↦ no_next_hop
  | some entry ↦
      if not (entry.next_hop == no_next_hop) && not (entry.next_hop == relay_node)
      then entry.next_hop
      else no_next_hop
]

-- The entry that `get_or_create` lends is the first with the number: `get` reads it.
unfoldable pub learn_route : {P M : Type 0} → ℕ → ℕ → NodeDb P M → NodeDb P M × Bool
learn_route from relay_node db =
    let next_hop = if not (relay_node == 0) then relay_node else from % 256 in
    if next_hop == no_next_hop then (db, false) else elim (get_or_create from db) [
      | none ↦ (db, false)
      | some d ↦ elim (get from d) [
        | none ↦ (d, false)
        | some entry ↦
            if not (entry.next_hop == next_hop)
            then (modify from (λ e. record e { next_hop = next_hop }) d, true)
            else (d, false)
      ]
    ]

unfoldable pub should_relay_directed : ℕ → ℕ → MeshRouter → Bool
should_relay_directed dest next_hop r =
    dest == r.our_node_num || not (next_hop == no_next_hop) && next_hop == r.our_node_num % 256

unfoldable pub random_below : ℕ → ℕ → ℕ
random_below raw_random zero = 0
random_below raw_random (suc bound) = raw_random % suc bound
