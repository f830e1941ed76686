-- ===== src/Router/NextHop.antt =====
-- The next-hop routes of router.rs, and its decisions to relay.
use meshtastenstein_rs.Base.{
  ℕ, ◌+◌, ◌%◌, ◌≡◌, refl, ◌≢◌, ◌↔◌, ◌⊎◌, inl, inr, true, some, ◌==◌, if◌then◌else◌, Option-cases,
  ==_iff, arith,
}
use meshtastenstein_rs.NodeDb.{NodeEntry, NodeDb, get_or_create}
use meshtastenstein_rs.NodeDb.Lookup.{accepts, get_or_create-accepts, get-get_or_create, get-modify}
use meshtastenstein_rs.Router.{
  MeshRouter, no_next_hop, get_next_hop, learn_route, should_rebroadcast, should_relay_directed,
}

-- the relay that an acknowledgement from a node names
abbrev pub heard_via : ℕ → ℕ → ℕ
heard_via from relay_node = if relay_node == 0 then from % 256 else relay_node

module _ {P M : Type 0} where
  -- After an acknowledgement from a sender that the database accepts, if the byte that is learnt is
  -- not 0 (the relay, or the last byte of the sender if no relay is named): packets to the sender
  -- go to that byte, but never back to the node they came from, and the routes to all other nodes
  -- are as they were.
  pub get_next_hop-learn_route :
      (dest from relay_node avoid : ℕ) (db : NodeDb P M)
      → accepts from db ≡ true
      → heard_via from relay_node ≢ 0
      → get_next_hop (learn_route from relay_node db).0 dest avoid ≡ (
          if from == dest
          then if heard_via from relay_node == avoid then no_next_hop else heard_via from relay_node
          else get_next_hop db dest avoid)
  unfolding get_next_hop learn_route
  get_next_hop-learn_route dest from relay_node avoid db accepted named =
      elim (Option-cases (get_or_create from db)) [
        | inl refused ↦ absurd (ground (arith, refused, get_or_create-accepts from db))
        | inr (d, found) ↦
            let f : NodeEntry P M → NodeEntry P M =
              λ e. record e { next_hop = heard_via from relay_node } in
            ground (
              arith,
              found,
              get-get_or_create dest from db d found,
              get-get_or_create from from db d found,
              get-modify dest from f d (λ e. refl),
              get-modify from from f d (λ e. refl),
              ==_iff from dest,
            )
      ]

  -- No route leads back to the relay it is asked for.
  pub get_next_hop_avoids :
      (dest relay_node : ℕ) (db : NodeDb P M)
      → (get_next_hop db dest relay_node ≡ no_next_hop)
        ⊎ (get_next_hop db dest relay_node ≢ relay_node)
  unfolding get_next_hop
  get_next_hop_avoids dest relay_node db = ground arith

-- A packet is rebroadcast with one hop less, unless it is ours or has no hop left: so the copies of
-- a packet that routers pass on have ever fewer hops.
pub rebroadcast_decreases :
    (hop_limit sender new_hop : ℕ) (r : MeshRouter)
    → (should_rebroadcast hop_limit sender r ≡ some new_hop)
      ↔ ((sender ≢ r.our_node_num) × (hop_limit ≡ new_hop + 1))
unfolding should_rebroadcast
rebroadcast_decreases hop_limit sender new_hop r = ground arith

-- A directed packet is passed on by its destination too, else by the node that its next hop names
-- and by no other: with no next hop, by none.
pub relay_directed_when :
    (dest next_hop : ℕ) (r : MeshRouter)
    → (should_relay_directed dest next_hop r ≡ true)
      ↔ ((dest ≡ r.our_node_num) ⊎ ((next_hop ≢ no_next_hop) × (next_hop ≡ r.our_node_num % 256)))
unfolding should_relay_directed
relay_directed_when dest next_hop r = ground arith
