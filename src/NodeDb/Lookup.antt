-- ===== src/NodeDb/Lookup.antt =====
-- What `NodeDB::get` of node_db.rs returns after each change of the database.
use meshtastenstein_rs.Base.{
  ℕ, ◌+◌, ◌<◌, ◌≡◌, refl, ◌∙◌, sym, ◌≢◌, inl, inr, Bool, true, false, ◌&&◌, ◌||◌, not, Option, none,
  some, List, [], ◌∷◌, ◌++◌, ◌==◌, ltb, leb, ==_iff, if◌then◌else◌, is_some, unwrap_or, Bool-cases,
  Option-cases, length, position, find, push, map_some, filter_some, or_some, Distinct, find-append,
  find-update_first, find-retain, find-swap_remove, is_some-find, is_some-position_from, find_sound,
  arith,
}
use meshtastenstein_rs.Packet.{broadcast_addr}
use meshtastenstein_rs.NodeDb.{
  User, NodeEntry, NodeDb, max_nodes, is_node, blank_entry, is_kept, prune_stale, get, modify,
  get_or_create, mark_dirty, update_user, update_pub_key, change_known, ignore_entry, set_ignored,
  toggle_muted, has_pub_key, remove,
}

module _ {P M : Type 0} where
  -- An entry for the number exists or can be made.
  unfoldable pub accepts : ℕ → NodeDb P M → Bool
  accepts n db =
      not (n == 0 || n == broadcast_addr) && (is_some (get n db) || ltb (length db.nodes) max_nodes)

  -- the entry that a reference from `get_or_create` names
  unfoldable pub entry_or_blank : ℕ → NodeDb P M → NodeEntry P M
  entry_or_blank n db = unwrap_or (get n db) (blank_entry n)

  is_some-position :
      (n : ℕ) (db : NodeDb P M) → is_some (position (is_node n) db.nodes) ≡ is_some (get n db)
  unfolding get
  is_some-position n db =
      is_some-position_from 0 (is_node n) db.nodes ∙ sym (is_some-find (is_node n) db.nodes)

  -- `get_or_create` refuses exactly the numbers that are not accepted.
  pub get_or_create-accepts :
      (n : ℕ) (db : NodeDb P M) → is_some (get_or_create n db) ≡ accepts n db
  unfolding get_or_create accepts push
  get_or_create-accepts n db = ground (arith, is_some-position n db)

  -- the database with a new entry at the end
  abbrev pub with_blank : ℕ → NodeDb P M → NodeDb P M
  with_blank n db = record db { nodes = db.nodes ++ (blank_entry n ∷ []); dirty = true }

  pub get_or_create_known :
      (n : ℕ) (db d : NodeDb P M) → is_some (get n db) ≡ true → get_or_create n db ≡ some d → d ≡ db
  unfolding get_or_create
  get_or_create_known n db d known e = ground (arith, is_some-position n db)

  pub get_or_create_new :
      (n : ℕ) (db d : NodeDb P M)
      → is_some (get n db) ≡ false
      → get_or_create n db ≡ some d
      → (d ≡ with_blank n db) × (length db.nodes < max_nodes) × (n ≢ 0) × (n ≢ broadcast_addr)
  unfolding get_or_create push
  get_or_create_new n db d new e = ground (arith, is_some-position n db)

  get-with_blank :
      (m n : ℕ) (db : NodeDb P M)
      → get m (with_blank n db) ≡ or_some (get m db) (if n == m then some (blank_entry n) else none)
  unfolding get find blank_entry
  get-with_blank m n db = find-append (is_node m) db.nodes (blank_entry n ∷ [])

  pub get-get_or_create :
      (m n : ℕ) (db d : NodeDb P M)
      → get_or_create n db ≡ some d
      → get m d ≡ (if n == m then some (entry_or_blank n db) else get m db)
  unfolding entry_or_blank
  get-get_or_create m n db d e = elim (Bool-cases (is_some (get n db))) [
    | inl known ↦ rw (get_or_create_known n db d known e) (ground arith)
    | inr new ↦ rw ((get_or_create_new n db d new e).0, get-with_blank m n db) (ground arith)
  ]

  pub get-modify :
      (m n : ℕ) (f : NodeEntry P M → NodeEntry P M) (db : NodeDb P M)
      → ((a : NodeEntry P M) → (f a).node_num ≡ a.node_num)
      → get m (modify n f db) ≡ (if n == m then map_some f (get n db) else get m db)
  unfolding get modify
  get-modify m n f db k = find-update_first (λ a. a.node_num) m n f db.nodes k

  -- What every update through `get_or_create` does: it writes to the named entry, made blank first
  -- where it was missing, and to nothing else; a number that is not accepted changes nothing.
  unfoldable pub store : ℕ → (NodeEntry P M → NodeEntry P M) → NodeDb P M → NodeDb P M
  store n f db = elim (get_or_create n db) [ none ↦ db | some d ↦ modify n f d ]

  pub get-store :
      (m n : ℕ) (f : NodeEntry P M → NodeEntry P M) (db : NodeDb P M)
      → ((a : NodeEntry P M) → (f a).node_num ≡ a.node_num)
      → get m (store n f db)
        ≡ (if accepts n db && n == m then some (f (entry_or_blank n db)) else get m db)
  unfolding store
  get-store m n f db k = elim (Option-cases (get_or_create n db)) [
    | inl refused ↦ ground (arith, refused, get_or_create-accepts n db)
    | inr (d, found) ↦ ground (
      arith,
      found,
      get_or_create-accepts n db,
      get-modify m n f d k,
      get-get_or_create m n db d found,
      get-get_or_create n n db d found,
    )
  ]

  -- `dirty` plays no part in a lookup.
  get-mark_dirty :
      (m n : ℕ) (f : NodeEntry P M → NodeEntry P M) (db : NodeDb P M) (o : Option (NodeDb P M))
      → get m (elim o [ none ↦ db | some d ↦ mark_dirty (modify n f d) ])
        ≡ get m (elim o [ none ↦ db | some d ↦ modify n f d ])
  unfolding get mark_dirty
  get-mark_dirty m n f db none = refl
  get-mark_dirty m n f db (some d) = refl

  -- After `update_user` the node's entry carries that user and is otherwise what it was, or blank
  -- if the node was unknown; every other entry is as it was. Reserved numbers, and new numbers when
  -- the database is full, change nothing.
  pub get-update_user :
      (m n : ℕ) (user : User) (db : NodeDb P M)
      → get m (update_user n user db) ≡ (
          if accepts n db && n == m
          then some (record (entry_or_blank n db) { user = some user })
          else get m db)
  unfolding update_user store
  get-update_user m n user db =
      let f : NodeEntry P M → NodeEntry P M = λ e. record e { user = some user } in
      get-mark_dirty m n f db (get_or_create n db) ∙ get-store m n f db (λ a. refl)

  get-update_pub_key :
      (m n : ℕ) (key : List ℕ) (db : NodeDb P M)
      → get m (update_pub_key n key db) ≡ (
          if accepts n db && n == m
          then some (record (entry_or_blank n db) { pub_key = some key })
          else get m db)
  unfolding update_pub_key store
  get-update_pub_key m n key db =
      let f : NodeEntry P M → NodeEntry P M = λ e. record e { pub_key = some key } in
      get-mark_dirty m n f db (get_or_create n db) ∙ get-store m n f db (λ a. refl)

  -- Once a key is stored for a node that the database accepts, `has_pub_key` says so; it says the
  -- same as before of every other node, and of all nodes when the number is not accepted.
  pub has_pub_key-update_pub_key :
      (m n : ℕ) (key : List ℕ) (db : NodeDb P M)
      → has_pub_key (update_pub_key n key db) m ≡ (accepts n db && n == m || has_pub_key db m)
  unfolding has_pub_key
  has_pub_key-update_pub_key m n key db = ground (arith, get-update_pub_key m n key db)

  pub get-change_known :
      (m n : ℕ) (f : NodeEntry P M → NodeEntry P M) (db : NodeDb P M)
      → ((a : NodeEntry P M) → (f a).node_num ≡ a.node_num)
      → get m (change_known n f db) ≡ (if n == m then map_some f (get n db) else get m db)
  unfolding change_known mark_dirty get modify
  get-change_known m n f db k = ground (arith, get-modify m n f db k, ==_iff n m)

  -- `set_ignored` marks the entry of a known node; to ignore it also drops the node's position and
  -- key, and the other fields and all other entries are as they were.
  get-set_ignored :
      (m n : ℕ) (ignored : Bool) (db : NodeDb P M)
      → get m (set_ignored n ignored db) ≡ (
          if n == m
          then map_some {A = NodeEntry P M} {B = NodeEntry P M}
              (λ e. record e {
                is_ignored = ignored;
                position_info = if ignored then none else e.position_info;
                pub_key = if ignored then none else e.pub_key;
              })
              (get n db)
          else get m db)
  unfolding set_ignored ignore_entry
  get-set_ignored m n true db = get-change_known m n (ignore_entry true) db (λ a. refl)
  get-set_ignored m n false db = get-change_known m n (ignore_entry false) db (λ a. refl)

  toggle_entry_twice :
      (o : Option (NodeEntry P M))
      → map_some {A = NodeEntry P M}
          (λ e. record e { is_muted = not e.is_muted })
          (map_some {A = NodeEntry P M} {B = NodeEntry P M}
            (λ e. record e { is_muted = not e.is_muted })
            o)
        ≡ o
  toggle_entry_twice none = refl
  toggle_entry_twice (some e) = ground (arith, Bool-cases e.is_muted)

  -- To toggle the mute of a node twice leaves every lookup as it was.
  pub get-toggle_muted_twice :
      (m n : ℕ) (db : NodeDb P M) → get m (toggle_muted n (toggle_muted n db)) ≡ get m db
  unfolding toggle_muted
  get-toggle_muted_twice m n db =
      let f : NodeEntry P M → NodeEntry P M = λ e. record e { is_muted = not e.is_muted } in
      ground (
        arith,
        get-change_known m n f (change_known n f db) (λ a. refl),
        get-change_known m n f db (λ a. refl),
        get-change_known n n f db (λ a. refl),
        toggle_entry_twice (get n db),
        ==_iff n m,
      )

  -- `remove` finds the node exactly when it is known; afterwards it is unknown, and every other
  -- node has the entry it had, when no two entries of the database have one number.
  pub get-remove :
      (m n : ℕ) (db : NodeDb P M)
      → Distinct (λ e. e.node_num) db.nodes
      → ((remove n db).1 ≡ is_some (get n db))
        × (get m (remove n db).0 ≡ (if n == m then none else get m db))
  unfolding remove get
  get-remove m n db d = elim (Option-cases (position (is_node n) db.nodes)) [
    | inl missing ↦
        rw (missing, remove)
          (
            ground (arith, missing, is_some-position n db),
            ground (arith, missing, is_some-position n db),
          )
    | inr (k, found) ↦
        rw (found, remove)
          (
            ground (arith, found, is_some-position n db),
            (find-swap_remove (λ e. e.node_num) m n k db.nodes d found).1,
          )
  ]

  -- `prune_stale` drops from the lookups exactly the entries that were heard more than the age
  -- before now; our own entry and those never heard with a clock stay.
  pub get-prune_stale :
      (m now_secs max_age_secs : ℕ) (db : NodeDb P M)
      → Distinct (λ e. e.node_num) db.nodes
      → get m (prune_stale now_secs max_age_secs db).0
        ≡ filter_some
            (λ e.
              m == db.our_node_num
              || e.last_heard == 0
              || leb now_secs (e.last_heard + max_age_secs))
            (get m db)
  unfolding prune_stale get is_kept
  get-prune_stale m now_secs max_age_secs db d =
      find-retain (λ e. e.node_num) m (is_kept db.our_node_num now_secs max_age_secs) db.nodes d
      ∙ elim (Option-cases (find (is_node m) db.nodes)) [
        | inl missing ↦ rw missing refl
        | inr (e, found) ↦ rw found (ground (arith, find_sound (is_node m) db.nodes e found))
      ]
