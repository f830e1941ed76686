-- ===== src/NodeDb/Snapshot/Restore.antt =====
-- What `restore_snapshot` makes of any bytes, and of a snapshot that `to_snapshot` wrote.
use meshtastenstein_rs.Base.{
  ℕ, zero, suc, ◌+◌, ◌*◌, ◌≡◌, ◌≢◌, ◌<◌, refl, ap, sym, subst, Bool, true, false, ◌&&◌, ◌||◌, not,
  Bool-cases, Option-cases, inl, inr, Option, none, some, List, [], ◌∷◌, ◌++◌, ◌==◌, if◌then◌else◌,
  length, get_or, slice, length-append, from_le, retain, any, any-append, push, append-Distinct,
  arith,
}
use meshtastenstein_rs.Packet.{broadcast_addr}
use meshtastenstein_rs.NodeDb.{NodeEntry, NodeDb, max_nodes, is_node}
use meshtastenstein_rs.NodeDb.Invariant.{node_num_of, IsNodeList, IsNodeDb, IsNodeList-retain}
use meshtastenstein_rs.NodeDb.Snapshot.{
  snapshot_record_size, snapshot_header_size, decode_entry, decode_record, restore_slot,
  restore_slots, restore_snapshot,
}

none_or {ℓ} :
    {A : Type ℓ} (t : Bool) (x e : A)
    → (if t then none else some x) ≡ some e
    → (t ≡ false) × (x ≡ e)
none_or true x e h = absurd (ground arith)
none_or false x e h = (refl, ground arith)

neither : (n a b : ℕ) → (n == a || n == b) ≡ false → (n ≢ a) × (n ≢ b)
neither n a b h = ground arith

module _ {P M : Type 0} where
  IsNodeList-push :
      (n : NodeEntry P M) (xs ys : List (NodeEntry P M))
      → n.node_num ≢ 0
      → n.node_num ≢ broadcast_addr
      → any (is_node n.node_num) xs ≡ false
      → IsNodeList xs
      → push max_nodes n xs ≡ some ys
      → IsNodeList ys
  unfolding IsNodeList push any
  IsNodeList-push n xs ys nonzero noncast fresh (d, room, zero_free, cast_free) e =
      let fits : length xs < max_nodes = ground arith in
      let same : xs ++ (n ∷ []) ≡ ys = ground arith in
      subst IsNodeList same (
        append-Distinct node_num_of xs n d fresh,
        omega (arith, fits, length-append {A = NodeEntry P M} xs (n ∷ [])),
        ground (arith, any-append (is_node 0) xs (n ∷ [])),
        ground (arith, any-append (is_node broadcast_addr) xs (n ∷ [])),
      )

module _ {P M : Type 0} (is_utf8 : List ℕ → Bool) where
  -- no record decodes to a reserved number
  decode_record_valid :
      (buf : List ℕ) (e : NodeEntry P M)
      → decode_record is_utf8 buf ≡ some e
      → (e.node_num ≢ 0) × (e.node_num ≢ broadcast_addr)
  unfolding decode_record decode_entry
  decode_record_valid buf e h =
      let n : ℕ = from_le (slice 0 4 buf) in
      let (free, same) = none_or (n == 0 || n == broadcast_addr) (decode_entry is_utf8 n buf) e h in
      let is_n : n ≡ e.node_num = ap node_num_of same in
      neither e.node_num 0 broadcast_addr (rw (sym is_n) free)

  IsNodeList-restore_slot :
      (our : ℕ) (o : Option (NodeEntry P M)) (xs ys : List (NodeEntry P M))
      → ((e : NodeEntry P M) → o ≡ some e → (e.node_num ≢ 0) × (e.node_num ≢ broadcast_addr))
      → IsNodeList xs
      → restore_slot our o xs ≡ some ys
      → IsNodeList ys
  unfolding restore_slot
  IsNodeList-restore_slot our none xs ys ok h e = subst IsNodeList (ground arith) h
  IsNodeList-restore_slot our (some n) xs ys ok h e =
      elim (Bool-cases (not (n.node_num == our) && not (any (is_node n.node_num) xs))) [
        | inl enters ↦
            IsNodeList-push n xs ys (ok n refl).0 (ok n refl).1 (ground (arith, enters)) h
              (ground (arith, enters, e))
        | inr stays ↦ subst IsNodeList (ground (arith, stays, e)) h
      ]

  IsNodeList-restore_slots :
      (our count slot : ℕ) (buf : List ℕ) (xs : List (NodeEntry P M))
      → IsNodeList xs
      → IsNodeList (restore_slots is_utf8 our count slot buf xs)
  unfolding restore_slots
  IsNodeList-restore_slots our zero slot buf xs h = h
  IsNodeList-restore_slots our (suc count) slot buf xs h =
      let off : ℕ = snapshot_header_size + slot * snapshot_record_size in
      let o : Option (NodeEntry P M) =
        decode_record is_utf8 (slice off (off + snapshot_record_size) buf) in
      elim (Option-cases (restore_slot our o xs)) [
        | inl stop ↦ rw (stop, restore_slots) h
        | inr (ys, go) ↦
            rw (go, restore_slots)
              (IsNodeList-restore_slots our count (suc slot) buf ys (
                IsNodeList-restore_slot our o xs ys
                  (decode_record_valid (slice off (off + snapshot_record_size) buf)) h go))
      ]

  -- Whatever bytes flash holds, restoring from them leaves one entry for a number, none for a
  -- reserved number, and no more than the capacity.
  pub restore_snapshot-IsNodeDb :
      (buf : List ℕ) (db : NodeDb P M) → IsNodeDb db → IsNodeDb (restore_snapshot is_utf8 buf db).0
  unfolding restore_snapshot
  restore_snapshot-IsNodeDb buf db h =
      let kept : List (NodeEntry P M) = retain (is_node db.our_node_num) db.nodes in
      let good =
        IsNodeList-restore_slots db.our_node_num (get_or buf 5 0) 0 buf kept
          (IsNodeList-retain (is_node db.our_node_num) db.nodes h) in
      ground (arith, good, h)
