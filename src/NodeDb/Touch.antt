-- ===== src/NodeDb/Touch.antt =====
-- What `NodeDB::touch` of node_db.rs does to the lookups, and to a full database.
use meshtastenstein_rs.Base.{
  ℕ, ◌≤◌, ◌≡◌, refl, ◌∙◌, sym, ap, inl, inr, Bool, true, false, ◌&&◌, not, Option, none, some, List,
  [], ◌∷◌, ◌==◌, ltb, if◌then◌else◌, is_some, Bool-cases, length, retain, any, all, is_some-find,
  find_sound, filter_some, unwrap_or, Option-cases, leb, ◌||◌, ◌+◌, ◌-◌, Distinct, length-retain-le,
  arith,
}
use meshtastenstein_rs.Packet.{broadcast_addr}
use meshtastenstein_rs.NodeDb.{
  NodeEntry, NodeDb, blank_entry, max_nodes, stale_age_secs, is_node, is_kept, prune_stale, get,
  touch_entry, insert_touched, touch,
}
use meshtastenstein_rs.NodeDb.Lookup.{
  get_or_create-accepts, accepts, entry_or_blank, store, get-store, get-prune_stale,
}

module _ {P M : Type 0} where
  all-not :
      (n : ℕ) (xs : List (NodeEntry P M))
      → all (λ e. not (is_node n e)) xs ≡ not (any (is_node n) xs)
  unfolding all any
  all-not n [] = refl
  all-not n (x ∷ xs) = ground (arith, all-not n xs)

  retain-all :
      (p : NodeEntry P M → Bool) (xs : List (NodeEntry P M)) → all p xs ≡ true → retain p xs ≡ xs
  unfolding retain all
  retain-all p [] h = refl
  retain-all p (x ∷ xs) h = ground (arith, retain-all p xs)

  kept_at_zero :
      (our : ℕ) (xs : List (NodeEntry P M)) → all (is_kept our 0 stale_age_secs) xs ≡ true
  unfolding all is_kept
  kept_at_zero our [] = refl
  kept_at_zero our (x ∷ xs) = ground (arith, kept_at_zero our xs)

  retain_no_fewer :
      (p : NodeEntry P M → Bool) (xs : List (NodeEntry P M))
      → length xs ≤ length (retain p xs)
      → retain p xs ≡ xs
  unfolding retain
  retain_no_fewer p [] h = refl
  retain_no_fewer p (x ∷ xs) h = elim (Bool-cases (p x)) [
    | inl kept ↦ rw kept (ap (λ l. x ∷ l) (retain_no_fewer p xs (ground arith)))
    | inr dropped ↦ absurd (ground (arith, length-retain-le p xs))
  ]

  prune_stale_none :
      (now_secs max_age_secs : ℕ) (db : NodeDb P M)
      → ltb 0 (prune_stale now_secs max_age_secs db).1 ≡ false
      → (prune_stale now_secs max_age_secs db).0 ≡ db
  unfolding prune_stale
  prune_stale_none now_secs max_age_secs db h =
      ap (λ l. record db { nodes = l })
        (retain_no_fewer (is_kept db.our_node_num now_secs max_age_secs) db.nodes (
          ground
            (arith, length-retain-le (is_kept db.our_node_num now_secs max_age_secs) db.nodes)))

  -- where the entry is looked for or made: stale entries are dropped first if it needs a new place
  -- and there is none
  unfoldable pub room_for : ℕ → ℕ → NodeDb P M → NodeDb P M
  room_for n time db =
      if length db.nodes == max_nodes && not (is_some (get n db))
      then (prune_stale time stale_age_secs db).0
      else db

  insert_touched_refused :
      (n time : ℕ) (snr : Option ℕ) (now_ms : ℕ) (db : NodeDb P M)
      → accepts n db ≡ false
      → insert_touched n time snr now_ms db ≡ db
  unfolding insert_touched
  insert_touched_refused n time snr now_ms db h = ground (arith, get_or_create-accepts n db)

  get-insert_touched :
      (m n time : ℕ) (snr : Option ℕ) (now_ms : ℕ) (db : NodeDb P M)
      → get m (insert_touched n time snr now_ms db) ≡ (
          if accepts n db && n == m
          then some (touch_entry time snr now_ms (entry_or_blank n db))
          else get m db)
  unfolding insert_touched store touch_entry
  get-insert_touched m n time snr now_ms db =
      get-store m n (touch_entry time snr now_ms) db (λ a. refl)

  needs_room :
      (n : ℕ) (db : NodeDb P M)
      → (length db.nodes == max_nodes && all (λ e. not (is_node n e)) db.nodes)
        ≡ (length db.nodes == max_nodes && not (is_some (get n db)))
  unfolding get
  needs_room n db = ground (arith, all-not n db.nodes, is_some-find (is_node n) db.nodes)

  full_refuses :
      (n : ℕ) (db : NodeDb P M)
      → (length db.nodes == max_nodes && not (is_some (get n db))) ≡ true
      → accepts n db ≡ false
  unfolding accepts
  full_refuses n db h = ground arith

  touch-room_for :
      (m n time : ℕ) (snr : Option ℕ) (now_ms : ℕ) (db : NodeDb P M)
      → get m (touch n time snr now_ms db)
        ≡ get m (insert_touched n time snr now_ms (room_for n time db))
  unfolding touch room_for
  touch-room_for m n time snr now_ms db =
      elim (Bool-cases (length db.nodes == max_nodes && not (is_some (get n db)))) [
        | inl full ↦ elim (Bool-cases (ltb 0 (prune_stale time stale_age_secs db).1)) [
          | inl pruned ↦ ground (arith, full, pruned, needs_room n db)
          | inr stuck ↦
              rw
                (
                  needs_room n db,
                  full,
                  touch,
                  room_for,
                  stuck,
                  prune_stale_none time stale_age_secs db stuck,
                )
                (ap (get m)
                  (sym (insert_touched_refused n time snr now_ms db (full_refuses n db full))))
        ]
        | inr roomy ↦ ground (arith, roomy, needs_room n db)
      ]

  get-touch_found :
      (m n time : ℕ) (snr : Option ℕ) (now_ms : ℕ) (db : NodeDb P M)
      → get m (touch n time snr now_ms db) ≡ (
          if accepts n (room_for n time db) && n == m
          then some (touch_entry time snr now_ms (entry_or_blank n (room_for n time db)))
          else get m (room_for n time db))
  get-touch_found m n time snr now_ms db =
      touch-room_for m n time snr now_ms db
      ∙ get-insert_touched m n time snr now_ms (room_for n time db)

  -- an entry that is our own, was never heard with a clock, or was heard in the last two hours
  unfoldable pub is_recent : ℕ → ℕ → NodeEntry P M → Bool
  is_recent our time e = e.node_num == our || e.last_heard == 0 || leb time (e.last_heard + 7200)

  -- the node is new and there is no place for it
  unfoldable pub no_place : ℕ → NodeDb P M → Bool
  no_place n db = length db.nodes == 96 && not (is_some (get n db))

  -- the node has a number that is not reserved, and is known or there is a place, if need be after
  -- the entries that are not recent are gone
  unfoldable pub admits : ℕ → ℕ → NodeDb P M → Bool
  admits n time db =
      not (n == 0 || n == broadcast_addr)
      && (is_some (get n db)
          || ltb (length db.nodes) 96
          || no_place n db && ltb (length (retain (is_recent db.our_node_num time) db.nodes)) 96)

  retain-recent :
      (our time : ℕ) (xs : List (NodeEntry P M))
      → retain (is_kept our time stale_age_secs) xs ≡ retain (is_recent our time) xs
  unfolding retain is_kept is_recent
  retain-recent our time [] = refl
  retain-recent our time (x ∷ xs) =
      let same : leb (time - x.last_heard) stale_age_secs ≡ leb time (x.last_heard + 7200) =
        ground arith in
      rw (same, retain-recent our time xs) refl

  recent_found :
      (m time : ℕ) (db : NodeDb P M)
      → Distinct (λ e. e.node_num) db.nodes
      → get m (prune_stale time stale_age_secs db).0
        ≡ filter_some (is_recent db.our_node_num time) (get m db)
  unfolding is_recent get
  recent_found m time db d =
      get-prune_stale m time stale_age_secs db d ∙ elim (Option-cases (get m db)) [
        | inl missing ↦ rw missing refl
        | inr (e, found) ↦ rw found (ground (arith, find_sound (is_node m) db.nodes e found))
      ]

  get-room_for :
      (m n time : ℕ) (db : NodeDb P M)
      → Distinct (λ e. e.node_num) db.nodes
      → get m (room_for n time db) ≡ (
          if no_place n db
          then filter_some (is_recent db.our_node_num time) (get m db)
          else get m db)
  unfolding room_for no_place is_recent
  get-room_for m n time db d = elim (Bool-cases (no_place n db)) [
    | inl full ↦ rw (full) (recent_found m time db d)
    | inr roomy ↦ rw (roomy) refl
  ]

  length-pruned :
      (time : ℕ) (db : NodeDb P M)
      → length (prune_stale time stale_age_secs db).0.nodes
        ≡ length (retain (is_recent db.our_node_num time) db.nodes)
  unfolding prune_stale
  length-pruned time db = ap (λ l. length l) (retain-recent db.our_node_num time db.nodes)

  accepts-room_for :
      (n time : ℕ) (db : NodeDb P M)
      → Distinct (λ e. e.node_num) db.nodes
      → accepts n (room_for n time db) ≡ admits n time db
  unfolding accepts admits room_for no_place
  accepts-room_for n time db d = elim (Bool-cases (no_place n db)) [
    | inl full ↦ rw (full, length-pruned time db, recent_found n time db d) (ground (arith, full))
    | inr roomy ↦ rw (roomy) (ground (arith, roomy))
  ]

  entry-room_for :
      (n time : ℕ) (db : NodeDb P M)
      → Distinct (λ e. e.node_num) db.nodes
      → entry_or_blank n (room_for n time db) ≡ unwrap_or (get n db) (blank_entry n)
  unfolding entry_or_blank no_place
  entry-room_for n time db d = ground (arith, get-room_for n n time db d)

  -- a node of which nothing is known but its number
  unfoldable pub unknown_entry : ℕ → NodeEntry P M
  unknown_entry n = record {
    node_num = n;
    user = none;
    position_info = none;
    last_heard = 0;
    snr = none;
    hops_away = none;
    device_metrics = none;
    next_hop = 0;
    last_seen_ms = 0;
    pub_key = none;
    is_favorite = false;
    is_ignored = false;
    is_muted = false;
  }

  -- the entry that a node has after it was heard
  unfoldable pub heard : ℕ → Option ℕ → ℕ → NodeEntry P M → NodeEntry P M
  heard time snr now_ms e = record e {
    last_heard = time;
    snr = elim snr [ none ↦ e.snr | some measured ↦ some measured ];
    last_seen_ms = now_ms;
  }

  blank_unknown : (n : ℕ) → blank_entry {P = P} {M = M} n ≡ unknown_entry n
  unfolding blank_entry unknown_entry
  blank_unknown n = refl

  heard_entry :
      (time : ℕ) (snr : Option ℕ) (now_ms : ℕ) (e : NodeEntry P M)
      → touch_entry time snr now_ms e ≡ heard time snr now_ms e
  unfolding touch_entry heard
  heard_entry time none now_ms e = refl
  heard_entry time (some measured) now_ms e = refl

  -- `touch` in a database with one entry for a number: the node's entry, a blank one if it was new,
  -- carries the times and, if it was measured, the new SNR, else the old one. Every other entry is
  -- as it was, but that, if the node was new and the 96 places were taken, those are gone that are
  -- not our own, were heard with a clock, and not in the last two hours. The node is not admitted
  -- if it has a reserved number, or is new and finds no place.
  pub get-touch :
      (m n time : ℕ) (snr : Option ℕ) (now_ms : ℕ) (db : NodeDb P M)
      → Distinct (λ e. e.node_num) db.nodes
      → get m (touch n time snr now_ms db) ≡ (
          if admits n time db && n == m
          then some (heard time snr now_ms (unwrap_or (get n db) (unknown_entry n)))
          else if no_place n db
          then filter_some (is_recent db.our_node_num time) (get m db)
          else get m db)
  get-touch m n time snr now_ms db d =
      get-touch_found m n time snr now_ms db
      ∙ rw
          (
            accepts-room_for n time db d,
            entry-room_for n time db d,
            get-room_for m n time db d,
            blank_unknown n,
            heard_entry time snr now_ms (unwrap_or (get n db) (unknown_entry n)),
          )
          refl

  -- A full database that does not know the node, touched at the time 0, is left as it is: no entry
  -- is stale, and the node is not admitted.
  pub touch_full_at_zero :
      (n : ℕ) (snr : Option ℕ) (now_ms : ℕ) (db : NodeDb P M)
      → length db.nodes ≡ max_nodes
      → get n db ≡ none
      → touch n 0 snr now_ms db ≡ db
  unfolding touch prune_stale
  touch_full_at_zero n snr now_ms db full unknown = ground (
    arith,
    needs_room n db,
    retain-all (is_kept db.our_node_num 0 stale_age_secs) db.nodes
        (kept_at_zero db.our_node_num db.nodes),
  )
