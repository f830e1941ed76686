-- ===== src/Router/Memory.antt =====
-- For how long router.rs knows a packet again.
use meshtastenstein_rs.Base.{
  ℕ, suc, ◌+◌, ◌<◌, ◌≡◌, inl, inr, Bool, true, false, Option, List, [], ◌∷◌, Bool-cases, ==_refl,
  length, any, Recent, Recent-any, Recent-weaken, Recent-enqueue, Recent-enqueue_self, arith,
}
use meshtastenstein_rs.Router.{
  MeshRouter, DeviceRole, duplicate_ring_size, is_pair, should_filter_received,
}
use meshtastenstein_rs.Router.History.{IsHistory, seen, is_seen}
use meshtastenstein_rs.Router.Flooding.{should_filter_received-seen}

-- the arguments of a call of `should_filter_received`
pub record Reception : Type 0 where
  pub sender : ℕ
  pub packet_id : ℕ
  pub hop_limit : ℕ
  pub relay_node : ℕ
  pub pending : Option ℕ
  pub role : DeviceRole

unfoldable pub receive : Reception → MeshRouter → MeshRouter
receive c r =
    (should_filter_received c.sender c.packet_id c.hop_limit c.relay_node c.pending c.role r).0

unfoldable pub receive_all : List Reception → MeshRouter → MeshRouter
receive_all [] r = r
receive_all (c ∷ cs) r = receive_all cs (receive c r)

receive-IsHistory : (c : Reception) (r : MeshRouter) → IsHistory r → IsHistory (receive c r)
unfolding receive
receive-IsHistory c r h =
    (should_filter_received-seen c.sender c.packet_id c.hop_limit c.relay_node c.pending c.role r
      h).0

receive-Recent :
    (p : ℕ × ℕ → Bool) (n : ℕ) (c : Reception) (r : MeshRouter)
    → suc n < duplicate_ring_size
    → IsHistory r
    → Recent p n (seen r)
    → Recent p (suc n) (seen (receive c r))
unfolding receive
receive-Recent p n c r room h near =
    let (_, after) =
      should_filter_received-seen c.sender c.packet_id c.hop_limit c.relay_node c.pending c.role r
        h in
    elim (Bool-cases (is_seen c.sender c.packet_id r)) [
      | inl known ↦ rw (after, known) (Recent-weaken p n (seen r) near)
      | inr new ↦
          rw (after, new)
            (Recent-enqueue p duplicate_ring_size n (c.sender, c.packet_id) (seen r) room near)
    ]

receive_all-Recent :
    (p : ℕ × ℕ → Bool) (n : ℕ) (cs : List Reception) (r : MeshRouter)
    → n + length cs < duplicate_ring_size
    → IsHistory r
    → Recent p n (seen r)
    → any p (seen (receive_all cs r)) ≡ true
unfolding receive_all
receive_all-Recent p n [] r room h near = Recent-any p n (seen r) near
receive_all-Recent p n (c ∷ cs) r room h near =
    receive_all-Recent p (suc n) cs (receive c r) (omega arith) (receive-IsHistory c r h)
      (receive-Recent p n c r (omega arith) h near)

is_pair_self : (sender packet_id : ℕ) → is_pair sender packet_id (sender, packet_id) ≡ true
unfolding is_pair
is_pair_self sender packet_id = ground (arith, ==_refl sender, ==_refl packet_id)

-- From a well-formed history, a packet that was new is known again after any receptions that are
-- fewer than the ring is long.
pub new_is_remembered :
    (c : Reception) (cs : List Reception) (r : MeshRouter)
    → IsHistory r
    → is_seen c.sender c.packet_id r ≡ false
    → length cs < duplicate_ring_size
    → is_seen c.sender c.packet_id (receive_all cs (receive c r)) ≡ true
unfolding receive
new_is_remembered c cs r h new few =
    let p : ℕ × ℕ → Bool = is_pair c.sender c.packet_id in
    let (_, after) =
      should_filter_received-seen c.sender c.packet_id c.hop_limit c.relay_node c.pending c.role r
        h in
    let recorded : Recent p 0 (seen (receive c r)) =
      rw (after, new, receive)
        (Recent-enqueue_self p duplicate_ring_size (c.sender, c.packet_id) (seen r)
          (is_pair_self c.sender c.packet_id)) in
    receive_all-Recent p 0 cs (receive c r) (omega (arith, few)) (receive-IsHistory c r h) recorded
