-- ===== src/Relay/Bounds.antt =====
-- The history and the queue of rebroadcasts after the relay decisions.
use meshtastenstein_rs.Base.{
  ℕ, ◌-◌, ◌%◌, ◌≤◌, ◌≡◌, inl, inr, not, some, List, [], ◌∷◌, ◌==◌, ◌||◌, unwrap_or, Bool-cases,
  Option-cases, length, length-append, length-update_first, length-retain-le, length-swap_remove,
  push, position, arith,
}
use meshtastenstein_rs.Packet.{Header, RadioFrame, hop_limit, hop_start, with_rewritten_header}
use meshtastenstein_rs.Router.{MeshRouter, DeviceRole, FilterResult, should_relay_opaque}
use meshtastenstein_rs.Router.History.{IsHistory}
use meshtastenstein_rs.Router.Flooding.{should_filter_received-seen}
use meshtastenstein_rs.Router.Reliable.{PendingPacket, queue_size}
use meshtastenstein_rs.Relay.{
  PendingRebroadcast, RelayState, is_same_packet, pending_hop_limit, apply_verdict, filter_layer,
  should_rebroadcast_for_role, earliest, room_in, enqueue_rebroadcast, schedule_rebroadcast,
  rebroadcast_hop, relay_layer, maybe_relay_opaque, implicit_ack,
}

unfoldable pub IsRelay : RelayState → Type 0
IsRelay s = IsHistory s.router × (length s.pending ≤ queue_size)

pub length-push-le {ℓ} :
    {A : Type ℓ} (cap : ℕ) (a : A) (xs grown : List A)
    → push cap a xs ≡ some grown
    → length grown ≤ cap
unfolding push
length-push-le {A = A} cap a xs grown e = ground (arith, length-append {A = A} xs (a ∷ []))

length-room_in-le : (q : List PendingRebroadcast) → length (room_in q) ≤ length q
unfolding room_in
length-room_in-le q = elim (Option-cases (earliest q)) [
  | inl empty ↦ rw (empty, room_in) (omega arith)
  | inr (i, found) ↦
      rw (found, room_in) (omega (arith, length-swap_remove {A = PendingRebroadcast} i q))
]

length-push_or-le :
    (cap : ℕ) (a : PendingRebroadcast) (xs : List PendingRebroadcast)
    → length xs ≤ cap
    → length (unwrap_or (push cap a xs) xs) ≤ cap
unfolding push
length-push_or-le cap a xs h = ground (arith, length-append {A = PendingRebroadcast} xs (a ∷ []))

enqueue_rebroadcast-bound :
    (p : PendingRebroadcast) (q : List PendingRebroadcast)
    → length q ≤ queue_size
    → length (enqueue_rebroadcast p q) ≤ queue_size
unfolding enqueue_rebroadcast
enqueue_rebroadcast-bound p q h = elim (Option-cases (push queue_size p q)) [
  | inl full ↦
      rw (full, enqueue_rebroadcast)
        (length-push_or-le queue_size p (room_in q) (omega (arith, h, length-room_in-le q)))
  | inr (grown, room) ↦ rw (room, enqueue_rebroadcast) (length-push-le queue_size p q grown room)
]

schedule_rebroadcast-IsRelay :
    (now delay : ℕ) (frame : RadioFrame) (our new_hop : ℕ) (s : RelayState)
    → IsRelay s
    → IsRelay (schedule_rebroadcast now delay frame our new_hop s)
unfolding schedule_rebroadcast IsRelay
schedule_rebroadcast-IsRelay now delay frame our new_hop s (history, fit) =
    (history, enqueue_rebroadcast-bound _ s.pending fit)

pub relay_layer-IsRelay :
    (now delay : ℕ) (frame : RadioFrame) (h : Header) (our : ℕ) (role : DeviceRole) (s : RelayState)
    → IsRelay s
    → IsRelay (relay_layer now delay frame h our role s)
unfolding relay_layer
relay_layer-IsRelay now delay frame h our role s k =
    elim (Option-cases (rebroadcast_hop role h s.router)) [
      | inl stays ↦ rw (stays, relay_layer) k
      | inr (new_hop, goes) ↦
          rw (goes, relay_layer) (schedule_rebroadcast-IsRelay now delay frame our new_hop s k)
    ]

-- the memory of opaque packets is no part of the history
should_relay_opaque-IsHistory :
    (sender packet_id start limit : ℕ) (r : MeshRouter)
    → IsHistory r
    → IsHistory (should_relay_opaque sender packet_id start limit r).0
unfolding should_relay_opaque IsHistory
should_relay_opaque-IsHistory sender packet_id start limit r h = ground arith

pub maybe_relay_opaque-IsRelay :
    (now delay : ℕ) (frame : RadioFrame) (h : Header) (our : ℕ) (role : DeviceRole) (s : RelayState)
    → IsRelay s
    → IsRelay (maybe_relay_opaque now delay frame h our role s)
unfolding maybe_relay_opaque IsRelay
maybe_relay_opaque-IsRelay now delay frame h our role s (history, fit) =
    let noted : RelayState = record s {
      router = (should_relay_opaque h.sender h.packet_id (hop_start h) (hop_limit h) s.router).0;
    } in
    let kept : IsRelay noted = (
      should_relay_opaque-IsHistory h.sender h.packet_id (hop_start h) (hop_limit h) s.router
          history,
      fit,
    ) in
    elim (Bool-cases (not (should_rebroadcast_for_role role) || hop_limit h == 0)) [
      | inl quiet ↦ rw (quiet) (history, fit)
      | inr relays ↦
          rw (relays)
            (elim (Bool-cases
              (should_relay_opaque h.sender h.packet_id (hop_start h) (hop_limit h) s.router).1) [
                | inl new ↦
                    rw (new) (
                      schedule_rebroadcast-IsRelay now delay frame our (hop_limit h - 1) noted kept)
                | inr old ↦ rw (old) kept
              ])
    ]

apply_verdict-bound :
    (v : FilterResult) (frame : RadioFrame) (h : Header) (our : ℕ) (q : List PendingRebroadcast)
    → length q ≤ queue_size
    → length (apply_verdict v frame h our q).0 ≤ queue_size
unfolding apply_verdict
apply_verdict-bound FilterResult.new_packet frame h our q fit = fit
apply_verdict-bound FilterResult.duplicate_drop frame h our q fit = fit
apply_verdict-bound (FilterResult.duplicate_upgrade new_hop) frame h our q fit = omega (
  arith,
  fit,
  length-update_first {A = PendingRebroadcast} (is_same_packet h)
      (λ p. record p { frame = with_rewritten_header new_hop (our % 256) frame }) q,
)
apply_verdict-bound FilterResult.duplicate_cancel_relay frame h our q fit =
    omega (arith, fit, length-retain-le {A = PendingRebroadcast} (λ p. not (is_same_packet h p)) q)

pub filter_layer-IsRelay :
    (frame : RadioFrame) (h : Header) (our : ℕ) (role : DeviceRole) (s : RelayState)
    → IsRelay s
    → IsRelay (filter_layer frame h our role s).0
unfolding filter_layer IsRelay
filter_layer-IsRelay frame h our role s (history, fit) = (
  (should_filter_received-seen h.sender h.packet_id (hop_limit h) h.relay_node
      (pending_hop_limit h s.pending) role s.router history).0,
  apply_verdict-bound _ frame h our s.pending fit,
)

pub implicit_ack-bound :
    (id : ℕ) (q : List PendingPacket)
    → length q ≤ queue_size
    → length (implicit_ack id q) ≤ queue_size
unfolding implicit_ack
implicit_ack-bound id q fit = elim (Option-cases (position (λ a. a.packet_id == id) q)) [
  | inl none_waits ↦ rw (none_waits, implicit_ack) fit
  | inr (i, found) ↦
      rw (found, implicit_ack) (omega (arith, fit, length-swap_remove {A = PendingPacket} i q))
]
