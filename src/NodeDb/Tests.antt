-- ===== src/NodeDb/Tests.antt =====
-- Runs of node_db.rs on concrete databases.
use meshtastenstein_rs.Base.{
  ℕ, ◌<◌, ◌==◌, arith, retain, filter_some, unwrap_or, zero, suc, ◌≡◌, refl, any, find, true, false,
  ◌&&◌, none, some, List, [], ◌∷◌, if◌then◌else◌, Distinct,
}
use meshtastenstein_rs.NodeDb.{User, NodeEntry, NodeDb, new_db, get, toggle_muted, touch}
use meshtastenstein_rs.NodeDb.Lookup.{get-toggle_muted_twice}
use meshtastenstein_rs.NodeDb.Touch.{
  unknown_entry, is_recent, no_place, admits, heard, get-touch, touch_full_at_zero,
}
use meshtastenstein_rs.NodeDb.Invariant.{IsNodeDb, Step, Reachable, Reachable-IsNodeDb}

abbrev Db : Type 0
Db = NodeDb ℕ ℕ

abbrev empty : Db
empty = record { nodes = []; our_node_num = 7; dirty = false }

abbrev seen : ℕ → ℕ → NodeEntry ℕ ℕ
seen n time = record {
  node_num = n;
  user = none;
  position_info = some 5;
  last_heard = time;
  snr = none;
  hops_away = none;
  device_metrics = none;
  next_hop = 0;
  last_seen_ms = 0;
  pub_key = some (1 ∷ []);
  is_favorite = false;
  is_ignored = false;
  is_muted = false;
}

abbrev three : Db
three = record { nodes = seen 7 10 ∷ seen 8 20 ∷ seen 9 8000 ∷ []; our_node_num = 7; dirty = false }

abbrev alice : User
alice = record {
  id = 33 ∷ [];
  long_name = 65 ∷ [];
  short_name = 66 ∷ [];
  hw_model = 1;
  role = 0;
  public_key = [];
}

three-Distinct : Distinct {A = NodeEntry ℕ ℕ} (λ e. e.node_num) three.nodes
unfolding any
three-Distinct = (refl, (refl, (refl, tt)))

toggled_back : get 9 (toggle_muted 9 (toggle_muted 9 three)) ≡ get 9 three
toggled_back = get-toggle_muted_twice 9 9 three

abbrev crowd : ℕ → List (NodeEntry ℕ ℕ)
crowd zero = []
crowd (suc n) = seen (suc n) 0 ∷ crowd n

abbrev full : Db
full = record { nodes = crowd 96; our_node_num = 1; dirty = false }

touch_full_at_zero_example : touch 200 0 none 50 full ≡ full
unfolding get find
touch_full_at_zero_example = touch_full_at_zero 200 none 50 full refl refl

-- n nodes that were last heard at 50
abbrev stale : ℕ → List (NodeEntry ℕ ℕ)
stale zero = []
stale (suc n) = seen (suc n) 50 ∷ stale n

no_larger : (k n : ℕ) → n < k → any {A = NodeEntry ℕ ℕ} (λ e. e.node_num == k) (stale n) ≡ false
unfolding any
no_larger k zero h = refl
no_larger k (suc n) h = ground (arith, no_larger k n (omega (arith, h)))

stale-Distinct : (n : ℕ) → Distinct {A = NodeEntry ℕ ℕ} (λ e. e.node_num) (stale n)
stale-Distinct zero = tt
stale-Distinct (suc n) = (no_larger (suc n) n (omega arith), stale-Distinct n)

abbrev outdated : Db
outdated = record { nodes = stale 96; our_node_num = 1; dirty = false }

-- A node that is new takes a place of those that were not heard for two hours.
get-touch_example : get 200 (touch 200 9000 (some 3) 77 outdated) ≡ (
    if admits 200 9000 outdated && 200 == 200
    then some (heard 9000 (some 3) 77 (unwrap_or (get 200 outdated) (unknown_entry 200)))
    else if no_place 200 outdated
    then filter_some (is_recent 1 9000) (get 200 outdated)
    else get 200 outdated)
get-touch_example = get-touch 200 200 9000 (some 3) 77 outdated (stale-Distinct 96)

new_node_admitted : admits 200 9000 outdated && no_place 200 outdated ≡ true
unfolding admits no_place get find retain is_recent
new_node_admitted = refl

one : Reachable 7 (touch 5 0 none 9 (new_db {P = ℕ} {M = ℕ} 7))
one = Reachable.after (Step.touched (new_db 7) 5 0 none 9) Reachable.boot

Reachable-IsNodeDb_example : IsNodeDb (touch 5 0 none 9 (new_db {P = ℕ} {M = ℕ} 7))
Reachable-IsNodeDb_example = Reachable-IsNodeDb 7 (touch 5 0 none 9 (new_db 7)) one
