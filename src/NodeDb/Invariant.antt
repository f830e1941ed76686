-- ===== src/NodeDb/Invariant.antt =====
-- What every operation of node_db.rs keeps true of the database.
use meshtastenstein_rs.Base.{
  ℕ, ◌≤◌, ◌<◌, ◌≡◌, refl, ◌∙◌, sym, ◌≢◌, inl, inr, Bool, true, false, ◌&&◌, not, Option, none, some,
  List, [], ◌∷◌, ◌++◌, ◌==◌, ltb, if◌then◌else◌, is_some, Bool-cases, Option-cases, length,
  position, update_first, retain, any, all, swap_remove, Distinct, any-append, any-update_first,
  update_first-Distinct, any-retain-false, retain-Distinct, append-Distinct, find-swap_remove,
  is_some-find, length-update_first, length-retain-le, length-append, length-swap_remove, arith,
}
use meshtastenstein_rs.Packet.{broadcast_addr}
use meshtastenstein_rs.NodeDb.Lookup.{get_or_create_known, get_or_create_new}
use meshtastenstein_rs.NodeDb.{
  User, NodeEntry, NodeDb, max_nodes, stale_age_secs, is_node, blank_entry, is_kept, new_db,
  prune_stale, modify, get_or_create, get, mark_dirty, mark_clean, update_user, update_pub_key,
  update_device_metrics, update_position, change_known, set_favorite, ignore_entry, set_ignored,
  toggle_muted, remove, touch_entry, insert_touched, touch,
}

module _ {P M : Type 0} where
  abbrev pub node_num_of : NodeEntry P M → ℕ
  node_num_of e = e.node_num

  -- One entry for a number, no more than the capacity, and none for a reserved number.
  unfoldable pub IsNodeList : List (NodeEntry P M) → Type 0
  IsNodeList xs =
      Distinct node_num_of xs
      × (length xs ≤ max_nodes)
      × (any (is_node 0) xs ≡ false)
      × (any (is_node broadcast_addr) xs ≡ false)

  -- a change of an entry that is not of its number
  abbrev pub KeepsNumber : (NodeEntry P M → NodeEntry P M) → Type 0
  KeepsNumber f = (a : NodeEntry P M) → (f a).node_num ≡ a.node_num

  IsNodeList-update_first :
      (n : ℕ) (f : NodeEntry P M → NodeEntry P M) (xs : List (NodeEntry P M))
      → KeepsNumber f
      → IsNodeList xs
      → IsNodeList (update_first (is_node n) f xs)
  unfolding IsNodeList
  IsNodeList-update_first n f xs k (d, room, zero_free, cast_free) = (
    update_first-Distinct node_num_of n f xs k d,
    omega (arith, length-update_first (is_node n) f xs),
    any-update_first node_num_of 0 n f xs k ∙ zero_free,
    any-update_first node_num_of broadcast_addr n f xs k ∙ cast_free,
  )

  pub IsNodeList-retain :
      (p : NodeEntry P M → Bool) (xs : List (NodeEntry P M))
      → IsNodeList xs
      → IsNodeList (retain p xs)
  unfolding IsNodeList
  IsNodeList-retain p xs (d, room, zero_free, cast_free) = (
    retain-Distinct node_num_of p xs d,
    omega (arith, length-retain-le p xs),
    any-retain-false node_num_of 0 p xs zero_free,
    any-retain-false node_num_of broadcast_addr p xs cast_free,
  )

  IsNodeList-append :
      (n : ℕ) (xs : List (NodeEntry P M))
      → n ≢ 0
      → n ≢ broadcast_addr
      → any (is_node n) xs ≡ false
      → length xs < max_nodes
      → IsNodeList xs
      → IsNodeList (xs ++ (blank_entry n ∷ []))
  unfolding IsNodeList any blank_entry
  IsNodeList-append n xs nonzero noncast fresh room (d, _, zero_free, cast_free) = (
    append-Distinct node_num_of xs (blank_entry n) d fresh,
    omega (arith, length-append {A = NodeEntry P M} xs (blank_entry n ∷ [])),
    ground (arith, any-append (is_node 0) xs (blank_entry n ∷ [])),
    ground (arith, any-append (is_node broadcast_addr) xs (blank_entry n ∷ [])),
  )

  absent-swap_remove :
      (m n k : ℕ) (xs : List (NodeEntry P M))
      → Distinct node_num_of xs
      → position (is_node n) xs ≡ some k
      → any (is_node m) xs ≡ false
      → any (is_node m) (swap_remove k xs) ≡ false
  absent-swap_remove m n k xs d at absent = ground (
    arith,
    is_some-find (is_node m) xs,
    is_some-find (is_node m) (swap_remove k xs),
    find-swap_remove node_num_of m n k xs d at,
  )

  IsNodeList-swap_remove :
      (n k : ℕ) (xs : List (NodeEntry P M))
      → position (is_node n) xs ≡ some k
      → IsNodeList xs
      → IsNodeList (swap_remove k xs)
  unfolding IsNodeList
  IsNodeList-swap_remove n k xs at (d, room, zero_free, cast_free) = (
    (find-swap_remove node_num_of n n k xs d at).0,
    omega (arith, length-swap_remove k xs),
    absent-swap_remove 0 n k xs d at zero_free,
    absent-swap_remove broadcast_addr n k xs d at cast_free,
  )

  abbrev pub IsNodeDb : NodeDb P M → Type 0
  IsNodeDb db = IsNodeList db.nodes

  IsNodeDb-get_or_create :
      (n : ℕ) (db d : NodeDb P M) → get_or_create n db ≡ some d → IsNodeDb db → IsNodeDb d
  unfolding get
  IsNodeDb-get_or_create n db d e h = elim (Bool-cases (is_some (get n db))) [
    | inl known ↦ rw (get_or_create_known n db d known e) h
    | inr fresh ↦
        let (same, room, nonzero, noncast) = get_or_create_new n db d fresh e in
        rw same (
          IsNodeList-append n db.nodes nonzero noncast
            (sym (is_some-find (is_node n) db.nodes) ∙ fresh) room h)
  ]

  IsNodeDb-lent :
      (n : ℕ) (f : NodeEntry P M → NodeEntry P M) (db : NodeDb P M) (o : Option (NodeDb P M))
      → KeepsNumber f
      → IsNodeDb db
      → ((d : NodeDb P M) → o ≡ some d → IsNodeDb d)
      → IsNodeDb (elim o [ none ↦ db | some d ↦ modify n f d ])
  unfolding modify
  IsNodeDb-lent n f db none k h lent = h
  IsNodeDb-lent n f db (some d) k h lent = IsNodeList-update_first n f d.nodes k (lent d refl)

  pub IsNodeDb-lent_dirty :
      (n : ℕ) (f : NodeEntry P M → NodeEntry P M) (db : NodeDb P M) (o : Option (NodeDb P M))
      → KeepsNumber f
      → IsNodeDb db
      → ((d : NodeDb P M) → o ≡ some d → IsNodeDb d)
      → IsNodeDb (elim o [ none ↦ db | some d ↦ mark_dirty (modify n f d) ])
  unfolding modify mark_dirty
  IsNodeDb-lent_dirty n f db none k h lent = h
  IsNodeDb-lent_dirty n f db (some d) k h lent = IsNodeList-update_first n f d.nodes k (lent d refl)

  IsNodeDb-change_known :
      (n : ℕ) (f : NodeEntry P M → NodeEntry P M) (db : NodeDb P M)
      → KeepsNumber f
      → IsNodeDb db
      → IsNodeDb (change_known n f db)
  unfolding change_known mark_dirty modify
  IsNodeDb-change_known n f db k h =
      elim (is_some (get n db)) as (λ b. IsNodeDb (if b then mark_dirty (modify n f db) else db)) [
        | true ↦ IsNodeList-update_first n f db.nodes k h
        | false ↦ h
      ]

  ignore_entry-KeepsNumber : (b : Bool) → KeepsNumber (ignore_entry b)
  unfolding ignore_entry
  ignore_entry-KeepsNumber true a = refl
  ignore_entry-KeepsNumber false a = refl

  IsNodeDb-remove : (n : ℕ) (db : NodeDb P M) → IsNodeDb db → IsNodeDb (remove n db).0
  unfolding remove
  IsNodeDb-remove n db h = elim (Option-cases (position (is_node n) db.nodes)) [
    | inl missing ↦ rw (missing, remove) h
    | inr (k, found) ↦ rw (found, remove) (IsNodeList-swap_remove n k db.nodes found h)
  ]

  IsNodeDb-insert_touched :
      (n time : ℕ) (snr : Option ℕ) (now_ms : ℕ) (db : NodeDb P M)
      → IsNodeDb db
      → IsNodeDb (insert_touched n time snr now_ms db)
  unfolding insert_touched touch_entry
  IsNodeDb-insert_touched n time snr now_ms db h =
      IsNodeDb-lent n (touch_entry time snr now_ms) db (get_or_create n db) (λ a. refl) h
        (λ d e. IsNodeDb-get_or_create n db d e h)

  IsNodeDb-prune_stale :
      (now_secs max_age_secs : ℕ) (db : NodeDb P M)
      → IsNodeDb db
      → IsNodeDb (prune_stale now_secs max_age_secs db).0
  unfolding prune_stale
  IsNodeDb-prune_stale now_secs max_age_secs db h =
      IsNodeList-retain (is_kept db.our_node_num now_secs max_age_secs) db.nodes h

  IsNodeDb-if :
      (b : Bool) (d e : NodeDb P M) → IsNodeDb d → IsNodeDb e → IsNodeDb (if b then d else e)
  IsNodeDb-if true d e hd he = hd
  IsNodeDb-if false d e hd he = he

  IsNodeDb-touch :
      (n time : ℕ) (snr : Option ℕ) (now_ms : ℕ) (db : NodeDb P M)
      → IsNodeDb db
      → IsNodeDb (touch n time snr now_ms db)
  unfolding touch
  IsNodeDb-touch n time snr now_ms db h =
      let pruned : NodeDb P M = (prune_stale time stale_age_secs db).0 in
      let in_pruned : IsNodeDb (insert_touched n time snr now_ms pruned) =
        IsNodeDb-insert_touched n time snr now_ms pruned
          (IsNodeDb-prune_stale time stale_age_secs db h) in
      IsNodeDb-if (length db.nodes == max_nodes && all (λ e. not (is_node n e)) db.nodes)
        (if ltb 0 (prune_stale time stale_age_secs db).1
          then insert_touched n time snr now_ms pruned
          else db)
        (insert_touched n time snr now_ms db)
        (IsNodeDb-if (ltb 0 (prune_stale time stale_age_secs db).1)
          (insert_touched n time snr now_ms pruned) db in_pruned h)
        (IsNodeDb-insert_touched n time snr now_ms db h)

  -- The operations that change the database, and the writes of the callers to which `get_mut` and
  -- `get_or_create` lend an entry: they never write its number.
  pub data Step : NodeDb P M → NodeDb P M → Type 0 where
    lend : {db d : NodeDb P M} (n : ℕ) → get_or_create n db ≡ some d → Step db d
    write :
        (db : NodeDb P M) (n : ℕ) (f : NodeEntry P M → NodeEntry P M)
        → KeepsNumber f
        → Step db (modify n f db)
    clean : (db : NodeDb P M) → Step db (mark_clean db)
    user : (db : NodeDb P M) (n : ℕ) (u : User) → Step db (update_user n u db)
    pub_key : (db : NodeDb P M) (n : ℕ) (key : List ℕ) → Step db (update_pub_key n key db)
    metrics : (db : NodeDb P M) (n : ℕ) (m : M) → Step db (update_device_metrics n m db)
    place : (db : NodeDb P M) (n : ℕ) (p : P) → Step db (update_position n p db)
    favorite : (db : NodeDb P M) (n : ℕ) (b : Bool) → Step db (set_favorite n b db)
    ignored : (db : NodeDb P M) (n : ℕ) (b : Bool) → Step db (set_ignored n b db)
    muted : (db : NodeDb P M) (n : ℕ) → Step db (toggle_muted n db)
    removed : (db : NodeDb P M) (n : ℕ) → Step db (remove n db).0
    pruned :
        (db : NodeDb P M) (now_secs max_age_secs : ℕ)
        → Step db (prune_stale now_secs max_age_secs db).0
    touched :
        (db : NodeDb P M) (n time : ℕ) (snr : Option ℕ) (now_ms : ℕ)
        → Step db (touch n time snr now_ms db)

  -- the databases that a run of the firmware can come to from an empty one
  pub data Reachable (our : ℕ) : NodeDb P M → Type 0 where
    boot : Reachable our (new_db our)
    after : {old new : NodeDb P M} → Step old new → Reachable our old → Reachable our new

  pub Step-IsNodeDb : {db d : NodeDb P M} → Step db d → IsNodeDb db → IsNodeDb d
  unfolding mark_clean update_user update_pub_key update_device_metrics update_position set_favorite
      set_ignored toggle_muted modify
  Step-IsNodeDb {db} {d} (lend n e) h = IsNodeDb-get_or_create n db d e h
  Step-IsNodeDb (write db n f k) h = IsNodeList-update_first n f db.nodes k h
  Step-IsNodeDb (clean db) h = h
  Step-IsNodeDb (user db n u) h =
      IsNodeDb-lent_dirty n (λ e. record e { user = some u }) db (get_or_create n db) (λ a. refl) h
        (λ d e. IsNodeDb-get_or_create n db d e h)
  Step-IsNodeDb (pub_key db n key) h =
      IsNodeDb-lent_dirty n (λ e. record e { pub_key = some key }) db (get_or_create n db)
        (λ a. refl) h (λ d e. IsNodeDb-get_or_create n db d e h)
  Step-IsNodeDb (metrics db n m) h =
      IsNodeDb-lent n (λ e. record e { device_metrics = some m }) db (get_or_create n db)
        (λ a. refl) h (λ d e. IsNodeDb-get_or_create n db d e h)
  Step-IsNodeDb (place db n p) h =
      IsNodeDb-lent n (λ e. record e { position_info = some p }) db (get_or_create n db) (λ a. refl)
        h (λ d e. IsNodeDb-get_or_create n db d e h)
  Step-IsNodeDb (favorite db n b) h =
      IsNodeDb-change_known n (λ e. record e { is_favorite = b }) db (λ a. refl) h
  Step-IsNodeDb (ignored db n b) h =
      IsNodeDb-change_known n (ignore_entry b) db (ignore_entry-KeepsNumber b) h
  Step-IsNodeDb (muted db n) h =
      IsNodeDb-change_known n (λ e. record e { is_muted = not e.is_muted }) db (λ a. refl) h
  Step-IsNodeDb (removed db n) h = IsNodeDb-remove n db h
  Step-IsNodeDb (pruned db now_secs max_age_secs) h =
      IsNodeDb-prune_stale now_secs max_age_secs db h
  Step-IsNodeDb (touched db n time snr now_ms) h = IsNodeDb-touch n time snr now_ms db h

  -- Every database that the operations make from an empty one has at most one entry for a number,
  -- at most `max_nodes` entries, and none for the reserved numbers 0 and `broadcast_addr`.
  pub Reachable-IsNodeDb : (our : ℕ) (db : NodeDb P M) → Reachable our db → IsNodeDb db
  unfolding new_db IsNodeList any
  Reachable-IsNodeDb our db boot = (tt, omega arith, refl, refl)
  Reachable-IsNodeDb our db (after s r) = Step-IsNodeDb s (Reachable-IsNodeDb our _ r)
