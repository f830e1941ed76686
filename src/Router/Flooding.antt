-- ===== src/Router/Flooding.antt =====
-- `should_filter_received` of router.rs against a bounded queue of the packets seen last.
use meshtastenstein_rs.Base.{
  ℕ, ◌-◌, ◌%◌, ◌≤◌, ◌<◌, ◌≡◌, ◌≢◌, ◌↔◌, ◌⊎◌, ◌∙◌, inl, inr, true, false, ◌&&◌, ◌||◌, not, Option,
  none, some, ◌==◌, ltb, if◌then◌else◌, Option-cases, enqueue, arith,
}
use meshtastenstein_rs.Router.{
  MeshRouter, DeviceRole, FilterResult, duplicate_ring_size, find_record, record_packet,
  add_relayer_at, role_allows_cancel, is_upgrade, filter_duplicate, should_filter_received,
}
use meshtastenstein_rs.Router.History.{
  IsHistory, seen, is_seen, SameKeys, find_record-is_seen, add_relayer_at-SameKeys,
  filter_duplicate-SameKeys, SameKeys-seen, SameKeys-IsHistory, record_packet-seen,
  record_packet-IsHistory,
}

-- From a well-formed history, a packet that is known leaves the queue as it is; a new one is
-- enqueued, and the oldest of a full queue is forgotten. The history stays well formed.
pub should_filter_received-seen :
    (sender packet_id hop_limit relay_node : ℕ) (pending : Option ℕ) (role : DeviceRole)
    (r : MeshRouter)
    → IsHistory r
    → IsHistory (should_filter_received sender packet_id hop_limit relay_node pending role r).0
      × (seen (should_filter_received sender packet_id hop_limit relay_node pending role r).0 ≡ (
          if is_seen sender packet_id r
          then seen r
          else enqueue duplicate_ring_size (sender, packet_id) (seen r)))
unfolding should_filter_received
should_filter_received-seen sender packet_id hop_limit relay_node pending role r h =
    elim (Option-cases (find_record sender packet_id r)) [
      | inl unknown ↦
          let recorded : MeshRouter = (record_packet sender packet_id hop_limit r).0 in
          let idx : ℕ = (record_packet sender packet_id hop_limit r).1 in
          let same : SameKeys (add_relayer_at idx relay_node recorded) recorded =
            add_relayer_at-SameKeys idx relay_node recorded in
          let new : is_seen sender packet_id r ≡ false =
            ground (arith, unknown, find_record-is_seen sender packet_id r h) in
          rw (unknown, should_filter_received, new)
            (
              SameKeys-IsHistory (add_relayer_at idx relay_node recorded) recorded same
                  (record_packet-IsHistory sender packet_id hop_limit r h),
              SameKeys-seen (add_relayer_at idx relay_node recorded) recorded same
                  ∙ record_packet-seen sender packet_id hop_limit r h,
            )
      | inr (idx, found) ↦
          let after : MeshRouter = (filter_duplicate idx hop_limit relay_node pending role r).0 in
          let same : SameKeys after r =
            filter_duplicate-SameKeys idx hop_limit relay_node pending role r in
          let known : is_seen sender packet_id r ≡ true =
            ground (arith, found, find_record-is_seen sender packet_id r h) in
          rw (found, should_filter_received, known)
            (SameKeys-IsHistory after r same h, SameKeys-seen after r same)
    ]

-- the verdict by the queue of known packets and the hop limit that is pending
pub filter_verdict :
    (sender packet_id hop_limit relay_node : ℕ) (pending : Option ℕ) (role : DeviceRole)
    (r : MeshRouter)
    → IsHistory r
    → (should_filter_received sender packet_id hop_limit relay_node pending role r).1 ≡ (
        if not (is_seen sender packet_id r) then FilterResult.new_packet else elim pending [
          | none ↦
              if role_allows_cancel role
                && not (relay_node == 0 || relay_node == r.our_node_num % 256)
              then FilterResult.duplicate_cancel_relay
              else FilterResult.duplicate_drop
          | some p ↦
              if ltb p hop_limit
              then FilterResult.duplicate_upgrade (hop_limit - 1)
              else if role_allows_cancel role
                  && not (relay_node == 0 || relay_node == r.our_node_num % 256)
              then FilterResult.duplicate_cancel_relay
              else FilterResult.duplicate_drop
        ])
unfolding should_filter_received filter_duplicate is_upgrade
filter_verdict sender packet_id hop_limit relay_node pending role r h =
    ground (arith, find_record-is_seen sender packet_id r h)

-- With a well-formed history, for a packet of any header: it is new exactly when its key is not in
-- the queue of known packets. It is an upgrade to the limit k exactly when its key is known, a
-- rebroadcast with a lower hop limit is pending, and k is one less than the limit of this copy. It
-- cancels the relay exactly when its key is known, no rebroadcast with a lower limit is pending,
-- the role is neither ROUTER nor ROUTER_LATE, and another node relayed it.
pub verdict_when :
    (sender packet_id hop_limit relay_node k : ℕ) (pending : Option ℕ) (role : DeviceRole)
    (r : MeshRouter)
    → IsHistory r
    → (((should_filter_received sender packet_id hop_limit relay_node pending role r).1
          ≡ FilterResult.new_packet)
        ↔ (is_seen sender packet_id r ≡ false))
      × (((should_filter_received sender packet_id hop_limit relay_node pending role r).1
            ≡ FilterResult.duplicate_upgrade k)
          ↔ ((is_seen sender packet_id r ≡ true)
              × ((p : ℕ) × (pending ≡ some p) × (p < hop_limit))
              × (k ≡ hop_limit - 1)))
      × (((should_filter_received sender packet_id hop_limit relay_node pending role r).1
            ≡ FilterResult.duplicate_cancel_relay)
          ↔ ((is_seen sender packet_id r ≡ true)
              × ((pending ≡ none) ⊎ ((p : ℕ) × (pending ≡ some p) × (hop_limit ≤ p)))
              × (role ≢ DeviceRole.router)
              × (role ≢ DeviceRole.router_late)
              × (relay_node ≢ 0)
              × (relay_node ≢ r.our_node_num % 256)))
unfolding role_allows_cancel
verdict_when sender packet_id hop_limit relay_node k none role r h =
    ground (arith, filter_verdict sender packet_id hop_limit relay_node none role r h)
verdict_when sender packet_id hop_limit relay_node k (some p) role r h =
    ground (arith, filter_verdict sender packet_id hop_limit relay_node (some p) role r h)
