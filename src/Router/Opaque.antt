-- ===== src/Router/Opaque.antt =====
-- The seen-set of packets relayed opaquely, and that it and the authenticated one do not meet.
use meshtastenstein_rs.Base.{
  ℕ, suc, ◌+◌, ◌%◌, ◌<◌, min, ◌≡◌, refl, inl, inr, Bool, ◌&&◌, ◌||◌, not, Option, List, ◌==◌, ltb,
  if◌then◌else◌, Bool-cases, set, take, any, IsRing, IsRing-write, in_order, in_order-write,
  any-in_order, enqueue, arith,
}
use meshtastenstein_rs.Router.{
  MeshRouter, DeviceRole, opaque_seen_ring_size, is_pair, should_relay_opaque,
  should_filter_received, filter_duplicate, record_packet, add_relayer_at, set_best_hop_limit,
}
use meshtastenstein_rs.Router.History.{seen}

abbrev pub IsOpaqueRing : MeshRouter → Type 0
IsOpaqueRing r = IsRing opaque_seen_ring_size r.opaque_seen_head r.opaque_seen_count r.opaque_seen

-- the opaque packets seen, the oldest first
unfoldable pub opaque_queue : MeshRouter → List (ℕ × ℕ)
opaque_queue r = in_order opaque_seen_ring_size r.opaque_seen_head r.opaque_seen_count r.opaque_seen

abbrev pub is_opaque_seen : ℕ → ℕ → MeshRouter → Bool
is_opaque_seen sender packet_id r = any (is_pair sender packet_id) (opaque_queue r)

next_head :
    (head : ℕ)
    → head < opaque_seen_ring_size
    → (head + 1) % opaque_seen_ring_size
      ≡ (if suc head == opaque_seen_ring_size then 0 else suc head)
next_head head h = ground arith

already_seen :
    (sender packet_id : ℕ) (r : MeshRouter)
    → IsOpaqueRing r
    → any
        (is_pair sender packet_id)
        (take (min r.opaque_seen_count opaque_seen_ring_size) r.opaque_seen)
      ≡ is_opaque_seen sender packet_id r
unfolding opaque_queue
already_seen sender packet_id r ring =
    any-in_order (is_pair sender packet_id) opaque_seen_ring_size r.opaque_seen_head
      r.opaque_seen_count r.opaque_seen ring

-- the router that has noted an opaque packet
unfoldable noted : ℕ → ℕ → MeshRouter → MeshRouter
noted sender packet_id r = record r {
  opaque_seen = set r.opaque_seen r.opaque_seen_head (sender, packet_id);
  opaque_seen_head = (r.opaque_seen_head + 1) % opaque_seen_ring_size;
  opaque_seen_count =
      if ltb r.opaque_seen_count opaque_seen_ring_size
      then suc r.opaque_seen_count
      else r.opaque_seen_count;
}

noted-queue :
    (sender packet_id : ℕ) (r : MeshRouter)
    → IsOpaqueRing r
    → opaque_queue (noted sender packet_id r)
      ≡ enqueue opaque_seen_ring_size (sender, packet_id) (opaque_queue r)
unfolding opaque_queue noted
noted-queue sender packet_id r ring = rw (next_head r.opaque_seen_head ring.1) (
    in_order-write opaque_seen_ring_size r.opaque_seen_head r.opaque_seen_count (sender, packet_id)
      r.opaque_seen ring)

noted-ring :
    (sender packet_id : ℕ) (r : MeshRouter)
    → IsOpaqueRing r
    → IsOpaqueRing (noted sender packet_id r)
unfolding noted
noted-ring sender packet_id r ring = rw (next_head r.opaque_seen_head ring.1) (
    IsRing-write opaque_seen_ring_size r.opaque_seen_head r.opaque_seen_count (sender, packet_id)
      r.opaque_seen ring)

noted-seen : (sender packet_id : ℕ) (r : MeshRouter) → seen (noted sender packet_id r) ≡ seen r
unfolding noted seen
noted-seen sender packet_id r = refl

-- With a well-formed ring, an opaque packet is relayed when it is not in the queue, or when its
-- originator transmits it again (its hop limit is still the positive `hop_start`); the queue takes
-- in exactly the packets it does not hold, and the history of authenticated packets is not touched.
pub relay_opaque_once :
    (sender packet_id hop_start hop_limit : ℕ) (r : MeshRouter)
    → IsOpaqueRing r
    → ((should_relay_opaque sender packet_id hop_start hop_limit r).1
        ≡ (not (is_opaque_seen sender packet_id r) || ltb 0 hop_start && hop_start == hop_limit))
      × (opaque_queue (should_relay_opaque sender packet_id hop_start hop_limit r).0 ≡ (
          if is_opaque_seen sender packet_id r
          then opaque_queue r
          else enqueue opaque_seen_ring_size (sender, packet_id) (opaque_queue r)))
      × IsOpaqueRing (should_relay_opaque sender packet_id hop_start hop_limit r).0
      × ((should_relay_opaque sender packet_id hop_start hop_limit r).0.history ≡ r.history)
      × (seen (should_relay_opaque sender packet_id hop_start hop_limit r).0 ≡ seen r)
unfolding should_relay_opaque noted
relay_opaque_once sender packet_id hop_start hop_limit r ring =
    elim (Bool-cases (is_opaque_seen sender packet_id r)) [
      | inl known ↦
          let same : (should_relay_opaque sender packet_id hop_start hop_limit r).0 ≡ r =
            ground (arith, known, already_seen sender packet_id r ring) in
          rw (same, known)
            (ground (arith, known, already_seen sender packet_id r ring), refl, ring, refl, refl)
      | inr new ↦
          let grown : (should_relay_opaque sender packet_id hop_start hop_limit r).0
              ≡ noted sender packet_id r =
            ground (arith, new, already_seen sender packet_id r ring) in
          rw (grown, new)
            (
              ground (arith, new, already_seen sender packet_id r ring),
              noted-queue sender packet_id r ring,
              noted-ring sender packet_id r ring,
              refl,
              noted-seen sender packet_id r,
            )
    ]

-- The filter of authenticated packets leaves the opaque seen-set as it is.
pub filter_keeps_opaque :
    (sender packet_id hop_limit relay_node : ℕ) (pending : Option ℕ) (role : DeviceRole)
    (r : MeshRouter)
    → opaque_queue (should_filter_received sender packet_id hop_limit relay_node pending role r).0
      ≡ opaque_queue r
unfolding should_filter_received filter_duplicate record_packet add_relayer_at set_best_hop_limit
    opaque_queue
filter_keeps_opaque sender packet_id hop_limit relay_node pending role r = ground arith
