-- ===== src/NodeDb/Snapshot.antt =====
-- The snapshot of the database that node_db.rs keeps in flash. A `&mut` slice of the snapshot is
-- the list of its bytes. `str::from_utf8` and `sort_unstable_by_key` are parameters.
mod RoundTrip
pub mod Restore
mod Reload
mod Tests
use meshtastenstein_rs.Base.{
  ℕ, zero, suc, ◌+◌, ◌*◌, ◌%◌, min, Bool, true, false, ◌&&◌, ◌||◌, not, Option, none, some, List,
  [], ◌∷◌, ◌++◌, ◌==◌, ltb, if◌then◌else◌, is_some, unwrap_or, map_some, length, get_or, take,
  replicate, splice, slice, to_le, from_le, bit_and, bit_or, shl8, retain, any, all, push,
  write_fields,
}
use meshtastenstein_rs.Packet.{broadcast_addr}
use meshtastenstein_rs.NodeDb.{User, NodeEntry, NodeDb, max_nodes, is_node}

abbrev pub max_persisted_nodes : ℕ
max_persisted_nodes = 42

abbrev pub snapshot_record_size : ℕ
snapshot_record_size = 96

abbrev pub snapshot_header_size : ℕ
snapshot_header_size = 16

abbrev pub snapshot_bytes : ℕ
snapshot_bytes = snapshot_header_size + max_persisted_nodes * snapshot_record_size

abbrev pub snapshot_magic : ℕ
snapshot_magic = 0x4e444232

abbrev pub snapshot_version : ℕ
snapshot_version = 2

-- the array of 28 bytes, and how many of them are used
unfoldable pub encode_str_field : Option (List ℕ) → ℕ → List ℕ × ℕ
encode_str_field src max_len =
    let bytes = unwrap_or src [] in
    let n = min (length bytes) max_len in (splice 0 (take n bytes) (replicate 28 0), n)

-- `(a as u8) | ((b as u8) << 1) | ((c as u8) << 2)`
unfoldable pub pack_flags : Bool → Bool → Bool → ℕ
pack_flags a b c =
    bit_or (bit_or (if a then 1 else 0) (shl8 (if b then 1 else 0) 1)) (shl8 (if c then 1 else 0) 2)

unfoldable pub key_fields : Option (List ℕ) → List (ℕ × List ℕ)
key_fields none = []
key_fields (some key) = (64, key) ∷ []

-- `from_utf8(bytes).ok().map(to_string).unwrap_or_default()`
unfoldable pub text_or_empty : (List ℕ → Bool) → List ℕ → List ℕ
text_or_empty is_utf8 bytes = if is_utf8 bytes then bytes else []

-- the user, if a text has bytes or the presence bit is set
unfoldable pub decode_user : Bool → ℕ → ℕ → List ℕ → List ℕ → ℕ → ℕ → Option User
decode_user present_bit sn_len ln_len short_name long_name hw_model role =
    if ltb 0 sn_len || (ltb 0 ln_len || present_bit)
    then some (record {
      id = [];
      long_name = long_name;
      short_name = short_name;
      hw_model = hw_model;
      role = role;
      public_key = [];
    })
    else none

module _ {P M : Type 0} where
  -- the fields before the key
  unfoldable pub main_fields : NodeEntry P M → List (ℕ × List ℕ)
  main_fields n =
      let short =
        encode_str_field (map_some {A = User} {B = List ℕ} (λ u. u.short_name) n.user) 5 in
      let long = encode_str_field (map_some {A = User} {B = List ℕ} (λ u. u.long_name) n.user) 28 in
      (0, to_le 4 n.node_num)
      ∷ (4, to_le 4 n.last_heard)
      ∷ (8, to_le 8 n.last_seen_ms)
      ∷ (16, unwrap_or n.snr 0 ∷ [])
      ∷ (17, unwrap_or n.hops_away 0 ∷ [])
      ∷ (18, n.next_hop ∷ [])
      ∷ (19, pack_flags n.is_favorite n.is_ignored n.is_muted ∷ [])
      ∷ (20, short.1 ∷ [])
      ∷ (21, take 5 short.0)
      ∷ (26, long.1 ∷ [])
      ∷ (27, take 28 long.0)
      ∷ (55, unwrap_or (map_some {A = User} {B = ℕ} (λ u. u.role % 256) n.user) 0 ∷ [])
      ∷ (56, unwrap_or (map_some {A = User} {B = ℕ} (λ u. u.hw_model % 256) n.user) 0 ∷ [])
      ∷ (57, pack_flags (is_some n.snr) (is_some n.hops_away) (is_some n.user) ∷ [])
      ∷ []

  unfoldable pub record_fields : NodeEntry P M → List (ℕ × List ℕ)
  record_fields n = main_fields n ++ key_fields n.pub_key

  -- the record of a node, written over zeros
  unfoldable pub encode_record : NodeEntry P M → List ℕ
  encode_record n = write_fields (record_fields n) (replicate snapshot_record_size 0)

  -- the entry, once its number is known not to be reserved
  unfoldable pub decode_entry : (List ℕ → Bool) → ℕ → List ℕ → NodeEntry P M
  decode_entry is_utf8 node_num buf =
      let presence = get_or buf 57 0 in
      let flags = get_or buf 19 0 in
      let sn_len = min (get_or buf 20 0) 5 in
      let ln_len = min (get_or buf 26 0) 28 in
      record {
        node_num = node_num;
        user =
            decode_user (not (bit_and presence 4 == 0)) sn_len ln_len
              (text_or_empty is_utf8 (slice 21 (21 + sn_len) buf))
              (text_or_empty is_utf8 (slice 27 (27 + ln_len) buf)) (get_or buf 56 0)
              (get_or buf 55 0);
        position_info = none;
        last_heard = from_le (slice 4 8 buf);
        snr = if not (bit_and presence 1 == 0) then some (get_or buf 16 0) else none;
        hops_away = if not (bit_and presence 2 == 0) then some (get_or buf 17 0) else none;
        device_metrics = none;
        next_hop = get_or buf 18 0;
        last_seen_ms = from_le (slice 8 16 buf);
        pub_key =
            if any (λ b. not (b == 0)) (slice 64 96 buf) then some (slice 64 96 buf) else none;
        is_favorite = not (bit_and flags 1 == 0);
        is_ignored = not (bit_and flags 2 == 0);
        is_muted = not (bit_and flags 4 == 0);
      }

  unfoldable pub decode_record : (List ℕ → Bool) → List ℕ → Option (NodeEntry P M)
  decode_record is_utf8 buf =
      let node_num = from_le (slice 0 4 buf) in
      if node_num == 0 || node_num == broadcast_addr
      then none
      else some (decode_entry is_utf8 node_num buf)

  -- the records of `nodes`, from the slot `slot` on
  unfoldable pub slot_fields : ℕ → List (NodeEntry P M) → List (ℕ × List ℕ)
  slot_fields slot [] = []
  slot_fields slot (n ∷ nodes) =
      (snapshot_header_size + slot * snapshot_record_size, encode_record n)
      ∷ slot_fields (suc slot) nodes

  -- `sort` orders the nodes by `last_heard`, the latest first
  unfoldable pub to_snapshot : (List (NodeEntry P M) → List (NodeEntry P M)) → NodeDb P M → List ℕ
  to_snapshot sort db =
      let order = sort db.nodes in
      let count = min (length order) max_persisted_nodes in
      write_fields
        ((0, to_le 4 snapshot_magic)
          ∷ (4, snapshot_version ∷ [])
          ∷ (5, (count % 256) ∷ [])
          ∷ slot_fields 0 (take count order))
        (replicate snapshot_bytes 0)

  -- one slot: the entries that the next slot finds, `none` where the loop breaks
  unfoldable pub restore_slot :
      ℕ → Option (NodeEntry P M) → List (NodeEntry P M) → Option (List (NodeEntry P M))
  restore_slot our none nodes = some nodes
  restore_slot our (some entry) nodes =
      if not (entry.node_num == our) && not (any (is_node entry.node_num) nodes)
      then push max_nodes entry nodes
      else some nodes

  -- `count` slots from the slot `slot` on
  unfoldable pub restore_slots :
      (List ℕ → Bool) → ℕ → ℕ → ℕ → List ℕ → List (NodeEntry P M) → List (NodeEntry P M)
  restore_slots is_utf8 our zero slot buf nodes = nodes
  restore_slots is_utf8 our (suc count) slot buf nodes =
      let off = snapshot_header_size + slot * snapshot_record_size in
      elim (restore_slot our (decode_record is_utf8 (slice off (off + snapshot_record_size) buf))
        nodes) [ none ↦ nodes | some more ↦ restore_slots is_utf8 our count (suc slot) buf more ]

  unfoldable pub restore_snapshot : (List ℕ → Bool) → List ℕ → NodeDb P M → NodeDb P M × Bool
  restore_snapshot is_utf8 buf db =
      if ltb (length buf) snapshot_bytes
      then (db, false)
      else if not (from_le (slice 0 4 buf) == snapshot_magic)
          || not (get_or buf 4 0 == snapshot_version)
      then (db, false)
      else if ltb max_persisted_nodes (get_or buf 5 0)
      then (db, false)
      else (
        record db {
          nodes =
              restore_slots is_utf8 db.our_node_num (get_or buf 5 0) 0 buf
                (retain (is_node db.our_node_num) db.nodes);
          dirty = false;
        },
        true,
      )
