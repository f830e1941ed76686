-- ===== src/Relay.antt =====
-- meshtastenstein-core/src/domain/handlers/from_radio/mod.rs: what `dispatch` does to the queue of
-- pending rebroadcasts and to the router's state. Decryption, the handlers of the port numbers and
-- the messages to the phone are not part of it. `delay`, in milliseconds, is what
-- `rebroadcast_delay_ms` computes in floating point: a parameter.
pub mod Queue
pub mod Upgrade
pub mod Decision
pub mod Bounds
mod Tests
use meshtastenstein_rs.Base.{
  ℕ, zero, suc, ◌+◌, ◌-◌, ◌%◌, Bool, true, false, ◌&&◌, ◌||◌, not, Option, none, some, List, [],
  ◌∷◌, ◌==◌, ltb, leb, if◌then◌else◌, is_some, unwrap_or, length, position, find, update_first,
  retain, swap_remove, push,
}
use meshtastenstein_rs.Packet.{
  Header, RadioFrame, frame_header, hop_limit, hop_start, with_rewritten_header, broadcast_addr,
}
use meshtastenstein_rs.Router.{
  MeshRouter, DeviceRole, FilterResult, should_filter_received, should_rebroadcast,
  should_relay_directed, should_relay_opaque,
}
use meshtastenstein_rs.Router.Reliable.{PendingPacket, queue_size}

-- `PendingRebroadcast` of router.rs
pub record PendingRebroadcast : Type 0 where
  pub frame : RadioFrame
  pub deadline : ℕ

-- the parts of `MeshCtx` that the relay decisions change
pub record RelayState : Type 0 where
  pub router : MeshRouter
  pub pending : List PendingRebroadcast

-- Layer 0: the entry of `pending_packets` that an echo of our own packet acknowledges
unfoldable pub implicit_ack : ℕ → List PendingPacket → List PendingPacket
implicit_ack packet_id pending = elim (position (λ a. a.packet_id == packet_id) pending) [
  | none ↦ pending
  | some i ↦ swap_remove i pending
]

-- `p.frame.header()` has the sender and the packet id of the header
unfoldable pub is_same_packet : Header → PendingRebroadcast → Bool
is_same_packet h p = elim (frame_header p.frame) [
  | none ↦ false
  | some ph ↦ ph.sender == h.sender && ph.packet_id == h.packet_id
]

-- the `find_map` over the queue
unfoldable pub pending_hop_limit : Header → List PendingRebroadcast → Option ℕ
pending_hop_limit h [] = none
pending_hop_limit h (p ∷ ps) = elim (frame_header p.frame) [
  | none ↦ pending_hop_limit h ps
  | some ph ↦
      if ph.sender == h.sender && ph.packet_id == h.packet_id
      then some (hop_limit ph)
      else pending_hop_limit h ps
]

-- Layer 1: the queue after the verdict, and whether `dispatch` goes on
unfoldable pub apply_verdict :
    FilterResult
    → RadioFrame
    → Header
    → ℕ
    → List PendingRebroadcast
    → List PendingRebroadcast × Bool
apply_verdict FilterResult.new_packet frame h our q = (q, true)
apply_verdict FilterResult.duplicate_drop frame h our q = (q, false)
apply_verdict (FilterResult.duplicate_upgrade new_hop) frame h our q = (
  update_first (is_same_packet h)
      (λ p. record p { frame = with_rewritten_header new_hop (our % 256) frame }) q,
  false,
)
apply_verdict FilterResult.duplicate_cancel_relay frame h our q =
    (retain (λ p. not (is_same_packet h p)) q, false)

unfoldable pub filter_layer : RadioFrame → Header → ℕ → DeviceRole → RelayState → RelayState × Bool
filter_layer frame h our role s =
    let (router, verdict) =
      should_filter_received h.sender h.packet_id (hop_limit h) h.relay_node
        (pending_hop_limit h s.pending) role s.router in
    let (pending, goes_on) = apply_verdict verdict frame h our s.pending in
    (record { router = router; pending = pending }, goes_on)

unfoldable pub should_rebroadcast_for_role : DeviceRole → Bool
should_rebroadcast_for_role DeviceRole.client_mute = false
should_rebroadcast_for_role DeviceRole.client_hidden = false
should_rebroadcast_for_role DeviceRole.client = true
should_rebroadcast_for_role DeviceRole.router = true
should_rebroadcast_for_role DeviceRole.router_client = true
should_rebroadcast_for_role DeviceRole.router_late = true
should_rebroadcast_for_role DeviceRole.repeater = true
should_rebroadcast_for_role (DeviceRole.other n) = true

-- `enumerate().min_by_key(|(_, p)| p.deadline)`: the first entry with the least deadline, from the
-- index `i` on, where `best` at `at` is the least so far
unfoldable pub earliest_from : ℕ → ℕ → ℕ → List PendingRebroadcast → ℕ
earliest_from at best i [] = at
earliest_from at best i (p ∷ ps) =
    let kept = earliest_from at best (suc i) ps in
    let moved = earliest_from i p.deadline (suc i) ps in if ltb p.deadline best then moved else kept

unfoldable pub earliest : List PendingRebroadcast → Option ℕ
earliest [] = none
earliest (p ∷ ps) = some (earliest_from 0 p.deadline 1 ps)

-- the queue without its earliest entry
unfoldable pub room_in : List PendingRebroadcast → List PendingRebroadcast
room_in q = elim (earliest q) [ none ↦ q | some idx ↦ swap_remove idx q ]

-- the end of `schedule_rebroadcast`: a full queue loses its earliest entry to the new one
unfoldable pub enqueue_rebroadcast :
    PendingRebroadcast → List PendingRebroadcast → List PendingRebroadcast
enqueue_rebroadcast entry q = elim (push queue_size entry q) [
  | some grown ↦ grown
  | none ↦ unwrap_or (push queue_size entry (room_in q)) (room_in q)
]

unfoldable pub schedule_rebroadcast : ℕ → ℕ → RadioFrame → ℕ → ℕ → RelayState → RelayState
schedule_rebroadcast now delay frame our new_hop s = record s {
  pending =
      enqueue_rebroadcast
        (record { frame = with_rewritten_header new_hop (our % 256) frame; deadline = now + delay })
        s.pending;
}

-- Layer 3: the hop limit with which the packet is passed on, if it is
unfoldable pub rebroadcast_hop : DeviceRole → Header → MeshRouter → Option ℕ
rebroadcast_hop role h router =
    if should_rebroadcast_for_role role
    then elim (should_rebroadcast (hop_limit h) h.sender router) [
      | none ↦ none
      | some new_hop ↦
          if not (h.destination == broadcast_addr)
            && not (should_relay_directed h.destination h.next_hop router)
          then none
          else some new_hop
    ]
    else none

unfoldable pub relay_layer : ℕ → ℕ → RadioFrame → Header → ℕ → DeviceRole → RelayState → RelayState
relay_layer now delay frame h our role s = elim (rebroadcast_hop role h s.router) [
  | none ↦ s
  | some new_hop ↦ schedule_rebroadcast now delay frame our new_hop s
]

unfoldable pub maybe_relay_opaque :
    ℕ → ℕ → RadioFrame → Header → ℕ → DeviceRole → RelayState → RelayState
maybe_relay_opaque now delay frame h our role s =
    if not (should_rebroadcast_for_role role) || hop_limit h == 0
    then s
    else (let (router, relays) =
          should_relay_opaque h.sender h.packet_id (hop_start h) (hop_limit h) s.router in
        let noted = record s { router = router } in
        if relays then schedule_rebroadcast now delay frame our (hop_limit h - 1) noted else noted)

-- `final_undecoded_outcome`: true is `PkiUnknownPubkey`, false is `Drop`
unfoldable pub is_unknown_pubkey : Bool → Header → Option (List ℕ) → Bool
is_unknown_pubkey is_unicast_to_us h sender_pub_key =
    h.channel_index == 0 && is_unicast_to_us && not (is_some sender_pub_key)
