-- ===== src/Router/History.antt =====
-- The authenticated seen-set of router.rs, `history`, as a ring of packet keys.
use meshtastenstein_rs.Base.{
  ℕ, zero, suc, replicate, ◌+◌, ◌%◌, ◌<◌, min, ◌≡◌, refl, subst, ◌∙◌, sym, ap, inl, inr, Bool, true,
  Option, List, [], ◌∷◌, map, ◌==◌, ltb, if◌then◌else◌, is_some, get_or, set, take, any, All,
  All-append, All-set, All-take, length-map, map-set, map-set_back, take-suc-set, take_of_length-le,
  is_some-position_from, IsRing, IsRing-write, in_order, in_order-write, any-in_order, enqueue,
  arith,
}
use meshtastenstein_rs.Router.{
  new_router, PacketRecord, fresh_record, MeshRouter, DeviceRole, duplicate_ring_size, no_record,
  is_record, is_pair, find_record, record_packet, add_relayer, add_relayer_at, set_best_hop_limit,
  filter_duplicate,
}

abbrev pub key_of : PacketRecord → ℕ × ℕ
key_of r = (r.sender, r.packet_id)

abbrev pub is_valid : PacketRecord → Bool
is_valid r = r.valid

-- The history is a ring whose cells in use are valid.
unfoldable pub IsHistory : MeshRouter → Type 0
IsHistory r =
    IsRing duplicate_ring_size r.history_head r.history_count (map key_of r.history)
    × All (λ b. b ≡ true) (take r.history_count (map is_valid r.history))

-- the packets seen, the oldest first
unfoldable pub seen : MeshRouter → List (ℕ × ℕ)
seen r = in_order duplicate_ring_size r.history_head r.history_count (map key_of r.history)

abbrev pub is_seen : ℕ → ℕ → MeshRouter → Bool
is_seen sender packet_id r = any (is_pair sender packet_id) (seen r)

any-keys :
    (sender packet_id n : ℕ) (xs : List PacketRecord)
    → All (λ b. b ≡ true) (take n (map is_valid xs))
    → any (is_record sender packet_id) (take n xs)
      ≡ any (is_pair sender packet_id) (take n (map key_of xs))
unfolding any is_record is_pair
any-keys sender packet_id zero xs h = refl
any-keys sender packet_id (suc n) [] h = refl
any-keys sender packet_id (suc n) (x ∷ xs) h =
    ground (arith, h.0, any-keys sender packet_id n xs h.1)

pub find_record-is_seen :
    (sender packet_id : ℕ) (r : MeshRouter)
    → IsHistory r
    → is_some (find_record sender packet_id r) ≡ is_seen sender packet_id r
unfolding find_record seen IsHistory
find_record-is_seen sender packet_id r (ring, used) =
    let few : min r.history_count duplicate_ring_size ≡ r.history_count = omega (arith, ring.2) in
    rw few (
      is_some-position_from 0 (is_record sender packet_id) (take r.history_count r.history)
      ∙ any-keys sender packet_id r.history_count r.history used
      ∙ ap (λ k. any (is_pair sender packet_id) (take k (map key_of r.history))) (sym few)
      ∙ any-in_order (is_pair sender packet_id) duplicate_ring_size r.history_head r.history_count
          (map key_of r.history) ring)

add_relayer-keeps :
    (r : PacketRecord) (relay_node : ℕ)
    → (key_of (add_relayer r relay_node) ≡ key_of r) × ((add_relayer r relay_node).valid ≡ r.valid)
unfolding add_relayer
add_relayer-keeps r relay_node = ground arith

add_relayer_at-keys :
    (idx relay_node : ℕ) (r : MeshRouter)
    → (map key_of (add_relayer_at idx relay_node r).history ≡ map key_of r.history)
      × (map is_valid (add_relayer_at idx relay_node r).history ≡ map is_valid r.history)
unfolding add_relayer_at
add_relayer_at-keys idx relay_node r =
    let old : PacketRecord = get_or r.history idx no_record in
    (
      map-set_back key_of r.history idx (add_relayer old relay_node) no_record
          (add_relayer-keeps old relay_node).0,
      map-set_back is_valid r.history idx (add_relayer old relay_node) no_record
          (add_relayer-keeps old relay_node).1,
    )

set_best_hop_limit-keys :
    (idx hop_limit : ℕ) (r : MeshRouter)
    → (map key_of (set_best_hop_limit idx hop_limit r).history ≡ map key_of r.history)
      × (map is_valid (set_best_hop_limit idx hop_limit r).history ≡ map is_valid r.history)
unfolding set_best_hop_limit
set_best_hop_limit-keys idx hop_limit r = (
  map-set_back key_of r.history idx
      (record (get_or r.history idx no_record) { best_hop_limit = hop_limit }) no_record refl,
  map-set_back is_valid r.history idx
      (record (get_or r.history idx no_record) { best_hop_limit = hop_limit }) no_record refl,
)

-- Two routers that differ in what the records say beside their keys.
unfoldable pub SameKeys : MeshRouter → MeshRouter → Type 0
SameKeys r s =
    (map key_of r.history ≡ map key_of s.history)
    × (map is_valid r.history ≡ map is_valid s.history)
    × (r.history_head ≡ s.history_head)
    × (r.history_count ≡ s.history_count)
    × (r.our_node_num ≡ s.our_node_num)
    × (r.opaque_seen ≡ s.opaque_seen)
    × (r.opaque_seen_head ≡ s.opaque_seen_head)
    × (r.opaque_seen_count ≡ s.opaque_seen_count)

pub add_relayer_at-SameKeys :
    (idx relay_node : ℕ) (r : MeshRouter) → SameKeys (add_relayer_at idx relay_node r) r
unfolding SameKeys add_relayer_at
add_relayer_at-SameKeys idx relay_node r =
    let (keys, valid) = add_relayer_at-keys idx relay_node r in
    (keys, valid, refl, refl, refl, refl, refl, refl)

best-SameKeys :
    (idx hop_limit relay_node : ℕ) (r : MeshRouter)
    → SameKeys (set_best_hop_limit idx hop_limit (add_relayer_at idx relay_node r)) r
unfolding SameKeys add_relayer_at set_best_hop_limit
best-SameKeys idx hop_limit relay_node r =
    let (keys, valid) = add_relayer_at-keys idx relay_node r in
    let (keys', valid') = set_best_hop_limit-keys idx hop_limit (add_relayer_at idx relay_node r) in
    (keys' ∙ keys, valid' ∙ valid, refl, refl, refl, refl, refl, refl)

pub filter_duplicate-SameKeys :
    (idx hop_limit relay_node : ℕ) (pending : Option ℕ) (role : DeviceRole) (r : MeshRouter)
    → SameKeys (filter_duplicate idx hop_limit relay_node pending role r).0 r
unfolding filter_duplicate
filter_duplicate-SameKeys idx hop_limit relay_node pending role r =
    ground
      (arith, best-SameKeys idx hop_limit relay_node r, add_relayer_at-SameKeys idx relay_node r)

pub SameKeys-seen : (r s : MeshRouter) → SameKeys r s → seen r ≡ seen s
unfolding SameKeys seen
SameKeys-seen r s (keys, valid, head, count, our, pairs, pair_head, pair_count) =
    rw (keys, head, count) refl

pub SameKeys-IsHistory : (r s : MeshRouter) → SameKeys r s → IsHistory s → IsHistory r
unfolding SameKeys IsHistory
SameKeys-IsHistory r s (keys, valid, head, count, our, pairs, pair_head, pair_count) h =
    rw (keys, valid, head, count) h

next_head :
    (head : ℕ)
    → head < duplicate_ring_size
    → (head + 1) % duplicate_ring_size ≡ (if suc head == duplicate_ring_size then 0 else suc head)
next_head head h = ground arith

-- A new record is enqueued.
pub record_packet-seen :
    (sender packet_id hop_limit : ℕ) (r : MeshRouter)
    → IsHistory r
    → seen (record_packet sender packet_id hop_limit r).0
      ≡ enqueue duplicate_ring_size (sender, packet_id) (seen r)
unfolding seen IsHistory record_packet
record_packet-seen sender packet_id hop_limit r (ring, used) =
    rw
      (
        map-set key_of r.history r.history_head (fresh_record sender packet_id hop_limit),
        next_head r.history_head ring.1,
      )
      (in_order-write duplicate_ring_size r.history_head r.history_count (sender, packet_id)
        (map key_of r.history) ring)

used-write :
    (head count : ℕ) (xs : List Bool)
    → IsRing duplicate_ring_size head count xs
    → All (λ b. b ≡ true) (take count xs)
    → All
        (λ b. b ≡ true)
        (take (if ltb count duplicate_ring_size then suc count else count) (set xs head true))
used-write head count xs (size, within, few, inl full) h =
    let stays : (if ltb count duplicate_ring_size then suc count else count) ≡ count =
      ground arith in
    rw stays (
      All-take (λ b. b ≡ true) count (set xs head true)
        (All-set (λ b. b ≡ true) xs head true
          (subst (All (λ b. b ≡ true)) (take_of_length-le xs count (omega (arith, size, full))) h)
          refl))
used-write head count xs (size, within, few, inr partial) h =
    let grows : (if ltb count duplicate_ring_size then suc count else count) ≡ suc head =
      ground arith in
    rw (grows, take-suc-set xs head true (omega arith), partial)
      (All-append (λ b. b ≡ true) (take count xs) (true ∷ []) h (refl, tt))

pub record_packet-IsHistory :
    (sender packet_id hop_limit : ℕ) (r : MeshRouter)
    → IsHistory r
    → IsHistory (record_packet sender packet_id hop_limit r).0
unfolding IsHistory record_packet
record_packet-IsHistory sender packet_id hop_limit r (ring, used) =
    rw
      (
        map-set key_of r.history r.history_head (fresh_record sender packet_id hop_limit),
        map-set is_valid r.history r.history_head (fresh_record sender packet_id hop_limit),
        next_head r.history_head ring.1,
      )
      (
        IsRing-write duplicate_ring_size r.history_head r.history_count (sender, packet_id)
            (map key_of r.history) ring,
        used-write r.history_head r.history_count (map is_valid r.history)
            (
              length-map is_valid r.history ∙ sym (length-map key_of r.history) ∙ ring.0,
              ring.1,
              ring.2,
              ring.3,
            )
            used,
      )

pub new_router-IsHistory : (our : ℕ) → IsHistory (new_router our)
unfolding IsHistory new_router replicate
new_router-IsHistory our = ((refl, omega arith, omega arith, inr refl), tt)
