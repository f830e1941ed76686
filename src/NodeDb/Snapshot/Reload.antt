-- ===== src/NodeDb/Snapshot/Reload.antt =====
-- What a database that was stored as a snapshot gives when it is restored.
use meshtastenstein_rs.Base.{
  ℕ, zero, suc, ◌+◌, ◌*◌, ◌%◌, ◌≡◌, ◌≤◌, ◌<◌, refl, ap, sym, subst, ◌∙◌, min, Bool, true, false,
  ◌||◌, not, Bool-cases, inl, inr, some, List, [], ◌∷◌, ◌++◌, map, ◌==◌, ltb, length, get_or, take,
  replicate, slice, length-replicate, length-append, length-take, take-min, All-take, to_le,
  from_le, retain, any, any-append, length-retain-le, push, Distinct, append_nil, append_assoc, All,
  Reads, IsLaid, IsLaid-to, IsLaid-from, write_fields, read_back, length-write_fields, get_or-slice,
  arith,
}
use meshtastenstein_rs.NodeDb.{NodeEntry, NodeDb, max_nodes, is_node}
use meshtastenstein_rs.NodeDb.Invariant.{node_num_of}
use meshtastenstein_rs.NodeDb.Snapshot.{
  max_persisted_nodes, snapshot_record_size, snapshot_header_size, snapshot_bytes, snapshot_magic,
  snapshot_version, encode_record, decode_record, slot_fields, to_snapshot, restore_slot,
  restore_slots, restore_snapshot,
}
use meshtastenstein_rs.NodeDb.Snapshot.RoundTrip.{
  persisted, IsStorable, length-encode_record, decode_record-encode_record,
}

in_capacity : (n : ℕ) → n ≤ max_persisted_nodes → ltb max_persisted_nodes n ≡ false
in_capacity n h = ground arith

module _ {P M : Type 0} where
  slot_fields-IsLaid :
      (slot : ℕ) (es : List (NodeEntry P M))
      → All IsStorable es
      → IsLaid
          (snapshot_header_size + slot * snapshot_record_size)
          (snapshot_header_size + (slot + length es) * snapshot_record_size)
          (slot_fields slot es)
  unfolding slot_fields
  slot_fields-IsLaid slot [] h = omega arith
  slot_fields-IsLaid slot (e ∷ es) h =
      let here : ℕ = snapshot_header_size + slot * snapshot_record_size in
      let next : ℕ = snapshot_header_size + suc slot * snapshot_record_size in
      let end : ℕ = snapshot_header_size + (slot + suc (length es)) * snapshot_record_size in
      let one : next ≡ here + length (encode_record e) =
        omega (arith, length-encode_record e h.0) in
      (
        omega arith,
        subst (λ n. IsLaid n end (slot_fields (suc slot) es)) one
            (subst (λ n. IsLaid next n (slot_fields (suc slot) es)) (omega arith)
              (slot_fields-IsLaid (suc slot) es h.1)),
      )

  -- an entry that may be entered: it is not in `nodes`, or it is our own and is skipped
  may_enter : ℕ → List (NodeEntry P M) → NodeEntry P M → Bool
  may_enter our nodes e = e.node_num == our || not (any (is_node e.node_num) nodes)

  may_enter_next :
      (our : ℕ) (nodes es : List (NodeEntry P M)) (n : NodeEntry P M)
      → any (is_node n.node_num) es ≡ false
      → All (λ e. may_enter our nodes e ≡ true) es
      → All (λ e. may_enter our (nodes ++ (n ∷ [])) e ≡ true) es
  unfolding any may_enter
  may_enter_next our nodes [] n other h = tt
  may_enter_next our nodes (e ∷ es) n other h = (
    ground (arith, h.0, any-append (is_node e.node_num) nodes (n ∷ [])),
    may_enter_next our nodes es n (ground arith) h.1,
  )

  may_enter_own :
      (our : ℕ) (nodes : List (NodeEntry P M)) (e : NodeEntry P M)
      → may_enter our (retain (is_node our) nodes) e ≡ true
  unfolding may_enter retain any
  may_enter_own our [] e = ground arith
  may_enter_own our (n ∷ nodes) e = ground (arith, may_enter_own our nodes e)

  may_enter-All :
      (our : ℕ) (nodes es : List (NodeEntry P M))
      → All (λ e. may_enter our (retain (is_node our) nodes) e ≡ true) es
  may_enter-All our nodes [] = tt
  may_enter-All our nodes (e ∷ es) = (may_enter_own our nodes e, may_enter-All our nodes es)

  Distinct-take :
      (n : ℕ) (es : List (NodeEntry P M))
      → Distinct node_num_of es
      → Distinct node_num_of (take n es)
  unfolding any
  Distinct-take zero es h = tt
  Distinct-take (suc n) [] h = tt
  Distinct-take (suc n) (e ∷ es) h =
      (any_take n (λ x. node_num_of x == e.node_num) es h.0, Distinct-take n es h.1)
    where
      any_take :
          (k : ℕ) (p : NodeEntry P M → Bool) (xs : List (NodeEntry P M))
          → any p xs ≡ false
          → any p (take k xs) ≡ false
      any_take zero p xs h = refl
      any_take (suc k) p [] h = refl
      any_take (suc k) p (x ∷ xs) h = ground (arith, any_take k p xs (ground arith))

  restore_slot_own :
      (our : ℕ) (e : NodeEntry P M) (nodes : List (NodeEntry P M))
      → is_node our e ≡ true
      → restore_slot our (some e) nodes ≡ some nodes
  unfolding restore_slot
  restore_slot_own our e nodes own = ground (arith, own)

  restore_slot_other :
      (our : ℕ) (e : NodeEntry P M) (nodes : List (NodeEntry P M))
      → is_node our e ≡ false
      → any (is_node e.node_num) nodes ≡ false
      → length nodes < max_nodes
      → restore_slot our (some e) nodes ≡ some (nodes ++ (e ∷ []))
  unfolding restore_slot push
  restore_slot_other our e nodes other fresh room = ground (arith, other, fresh, room)

module _ {P M : Type 0} (is_utf8 : List ℕ → Bool) where
  restore_slots-All :
      (our slot : ℕ) (buf : List ℕ) (es nodes : List (NodeEntry P M))
      → Reads buf (slot_fields slot es)
      → All IsStorable es
      → Distinct node_num_of es
      → All (λ e. may_enter our nodes e ≡ true) es
      → length nodes + length es ≤ max_nodes
      → restore_slots is_utf8 our (length es) slot buf nodes
        ≡ nodes ++ map (persisted is_utf8) (retain (λ e. not (is_node our e)) es)
  unfolding restore_slots slot_fields retain may_enter persisted
  restore_slots-All our slot buf [] nodes r ok d may room = sym (append_nil nodes)
  restore_slots-All our slot buf (e ∷ es) nodes r ok d may room =
      let off : ℕ = snapshot_header_size + slot * snapshot_record_size in
      let got : slice off (off + snapshot_record_size) buf ≡ encode_record e =
        ap (λ n. slice off (off + n) buf) (sym (length-encode_record e ok.0)) ∙ r.0 in
      let read : decode_record is_utf8 (slice off (off + snapshot_record_size) buf)
          ≡ some (persisted is_utf8 e) =
        ap (decode_record is_utf8) got ∙ decode_record-encode_record is_utf8 e ok.0 in
      let p : NodeEntry P M = persisted is_utf8 e in
      elim (Bool-cases (is_node our e)) [
        | inl own ↦
            let skip : restore_slot our (some p) nodes ≡ some nodes =
              restore_slot_own our p nodes own in
            rw (read, skip, own, restore_slots)
              (restore_slots-All our (suc slot) buf es nodes r.1 ok.1 d.1 may.1 (omega arith))
        | inr other ↦
            let fresh : any (is_node e.node_num) nodes ≡ false = ground (arith, may.0, other) in
            let enter : restore_slot our (some p) nodes ≡ some (nodes ++ (p ∷ [])) =
              restore_slot_other our p nodes other fresh (omega arith) in
            let rest : List (NodeEntry P M) = retain (λ x. not (is_node our x)) es in
            let go =
              restore_slots-All our (suc slot) buf es (nodes ++ (p ∷ [])) r.1 ok.1 d.1
                (may_enter_next our nodes es p d.0 may.1)
                (omega (arith, room, length-append {A = NodeEntry P M} nodes (p ∷ []))) in
            rw (read, enter, other, restore_slots)
              (go ∙ append_assoc nodes (p ∷ []) (map (persisted is_utf8) rest))
      ]

  -- Restoring a snapshot into a database gives the database's own entry and then the entries
  -- stored, in the order stored, other than its own.
  pub restore_snapshot-to_snapshot :
      (sort : List (NodeEntry P M) → List (NodeEntry P M)) (db fresh : NodeDb P M)
      → All IsStorable (sort db.nodes)
      → Distinct node_num_of (sort db.nodes)
      → length fresh.nodes ≤ 54
      → restore_snapshot is_utf8 (to_snapshot sort db) fresh ≡ (
        record fresh {
          nodes =
              retain (is_node fresh.our_node_num) fresh.nodes
              ++ map (persisted is_utf8) (
                  retain
                    (λ e. not (is_node fresh.our_node_num e))
                    (take max_persisted_nodes (sort db.nodes)));
          dirty = false;
        },
        true,
      )
  unfolding restore_snapshot to_snapshot
  restore_snapshot-to_snapshot sort db fresh ok d room =
      let top : List (NodeEntry P M) = take max_persisted_nodes (sort db.nodes) in
      let count : ℕ = min (length (sort db.nodes)) max_persisted_nodes in
      let same : take count (sort db.nodes) ≡ top = take-min max_persisted_nodes (sort db.nodes) in
      let good : All IsStorable top = All-take IsStorable max_persisted_nodes (sort db.nodes) ok in
      let size : length top ≡ count =
        omega (arith, length-take max_persisted_nodes (sort db.nodes)) in
      let fs : List (ℕ × List ℕ) =
        (0, to_le 4 snapshot_magic)
        ∷ (4, snapshot_version ∷ [])
        ∷ (5, (count % 256) ∷ [])
        ∷ slot_fields 0 (take count (sort db.nodes)) in
      let zeros : List ℕ = replicate snapshot_bytes 0 in
      let laid : IsLaid 0 (length zeros) fs = (
        omega arith,
        (
          omega arith,
          (
            omega arith,
            IsLaid-from 6 16 (length zeros) (slot_fields 0 (take count (sort db.nodes)))
                (omega arith)
                (IsLaid-to 16 (16 + (0 + length top) * 96) (length zeros)
                  (slot_fields 0 (take count (sort db.nodes)))
                  (omega (arith, size, length-replicate {A = ℕ} snapshot_bytes 0))
                  (subst (λ l. IsLaid 16 (16 + (0 + length top) * 96) (slot_fields 0 l)) (sym same)
                    (slot_fields-IsLaid 0 top good))),
          ),
        ),
      ) in
      let r : Reads (write_fields fs zeros) fs = read_back 0 fs zeros laid in
      let long : length (write_fields fs zeros) ≡ snapshot_bytes =
        length-write_fields 0 fs zeros laid ∙ length-replicate {A = ℕ} snapshot_bytes 0 in
      let w : List ℕ = write_fields fs zeros in
      let magic : from_le (slice 0 4 w) ≡ snapshot_magic = ap from_le r.0 in
      let version : get_or w 4 0 ≡ snapshot_version = get_or-slice 4 w snapshot_version 0 r.1.0 in
      let kept : List (NodeEntry P M) = retain (is_node fresh.our_node_num) fresh.nodes in
      let counted : get_or w 5 0 ≡ length top =
        get_or-slice 5 w (count % 256) 0 r.1.1.0 ∙ omega (arith, size) in
      let slots =
        restore_slots-All fresh.our_node_num 0 w top kept
          (subst (λ l. Reads w (slot_fields 0 l)) same r.1.1.1) good
          (Distinct-take max_persisted_nodes (sort db.nodes) d)
          (may_enter-All fresh.our_node_num fresh.nodes top)
          (omega (arith, room, size, length-retain-le (is_node fresh.our_node_num) fresh.nodes)) in
      rw (long, magic, version, counted, in_capacity (length top) (omega (arith, size)), slots)
