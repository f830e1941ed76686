-- ===== src/Mesh/Exchange/Shown.antt =====
-- The nodes of the second stage: each entry of a database without double numbers is the one that
-- its number finds.
use meshtastenstein_rs.Base.{
  ℕ, zero, suc, ◌≡◌, refl, ap, false, some, List, [], ◌∷◌, map, any, find, take, All, Distinct,
  ==_refl, arith,
}
use meshtastenstein_rs.NodeDb.{NodeEntry, NodeDb, is_node, get}
use meshtastenstein_rs.Proto.{FromRadio}
use meshtastenstein_rs.Mesh.Send.{node_info_of}
use meshtastenstein_rs.Mesh.Exchange.{shown_nodes}

module _ {P M : Type 0} where
  -- an entry is what its number finds
  abbrev FindsItself : List (NodeEntry P M) → NodeEntry P M → Type 0
  FindsItself xs e = find (is_node e.node_num) xs ≡ some e

  find_past :
      (x : NodeEntry P M) (xs ys : List (NodeEntry P M))
      → any (is_node x.node_num) ys ≡ false
      → All (FindsItself xs) ys
      → All (FindsItself (x ∷ xs)) ys
  unfolding any find
  find_past x xs [] absent each = tt
  find_past x xs (y ∷ ys) absent each =
      (ground (arith, absent, each.0), find_past x xs ys (ground (arith, absent)) each.1)

  Distinct-FindsItself :
      (xs : List (NodeEntry P M)) → Distinct (λ e. e.node_num) xs → All (FindsItself xs) xs
  unfolding find
  Distinct-FindsItself [] d = tt
  Distinct-FindsItself (x ∷ xs) d =
      (ground (arith, ==_refl x.node_num), find_past x xs xs d.0 (Distinct-FindsItself xs d.1))

  shown_nodes-each :
      (n : ℕ) (es : List (NodeEntry P M)) (db : NodeDb P M)
      → All (FindsItself db.nodes) es
      → shown_nodes (take n es) db ≡ map (λ e. FromRadio.node_info (node_info_of e)) (take n es)
  unfolding shown_nodes get
  shown_nodes-each zero es db each = refl
  shown_nodes-each (suc n) [] db each = refl
  shown_nodes-each (suc n) (e ∷ es) db each =
      rw (each.0, shown_nodes)
        (ap (λ l. FromRadio.node_info (node_info_of e) ∷ l) (shown_nodes-each n es db each.1))

  pub shown_nodes-map :
      (n : ℕ) (db : NodeDb P M)
      → Distinct (λ e. e.node_num) db.nodes
      → shown_nodes (take n db.nodes) db
        ≡ map (λ e. FromRadio.node_info (node_info_of e)) (take n db.nodes)
  shown_nodes-map n db d = shown_nodes-each n db.nodes db (Distinct-FindsItself db.nodes d)
