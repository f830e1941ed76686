-- ===== src/Router/Tests.antt =====
-- Runs of router.rs on concrete packets.
use meshtastenstein_rs.Base.{
  ℕ, ◌-◌, ◌%◌, ◌<◌, ◌≢◌, ◌↔◌, ◌⊎◌, ltb, length, retain, ◌≤◌, ◌≡◌, refl, inr, Bool, true, false, not,
  ◌||◌, Option, none, some, List, [], ◌∷◌, ◌==◌, if◌then◌else◌, replicate, find, any, in_order,
  enqueue, All, Distinct, arith,
}
use meshtastenstein_rs.Packet.{RadioFrame, new_frame}
use meshtastenstein_rs.NodeDb.{NodeDb, get}
use meshtastenstein_rs.NodeDb.Lookup.{accepts}
use meshtastenstein_rs.Router.{
  MeshRouter, DeviceRole, FilterResult, new_router, should_filter_received, should_relay_opaque,
  get_next_hop, learn_route, duplicate_ring_size, opaque_seen_ring_size,
}
use meshtastenstein_rs.Router.History.{IsHistory, seen, is_seen, new_router-IsHistory}
use meshtastenstein_rs.Router.Flooding.{should_filter_received-seen, verdict_when}
use meshtastenstein_rs.Router.Opaque.{IsOpaqueRing, opaque_queue, is_opaque_seen, relay_opaque_once}
use meshtastenstein_rs.Router.Memory.{Reception, receive, receive_all, new_is_remembered}
use meshtastenstein_rs.Router.NextHop.{get_next_hop-learn_route}
use meshtastenstein_rs.Router.Reliable.{PendingPacket, tick_retransmissions}
use meshtastenstein_rs.Router.Reliable.Sends.{resends}
use meshtastenstein_rs.Router.Reliable.Deadlines.{Waits, tick-Waits, id_of, after_tick, find-tick}

abbrev fresh : MeshRouter
fresh = new_router 7

abbrev second : MeshRouter × FilterResult
second = should_filter_received 5 100 3 9 none DeviceRole.client fresh

should_filter_received-seen_example :
    IsHistory second.0
    × (seen second.0 ≡ (
        if is_seen 5 100 fresh
        then seen fresh
        else enqueue duplicate_ring_size (5, 100) (seen fresh)))
should_filter_received-seen_example =
    should_filter_received-seen 5 100 3 9 none DeviceRole.client fresh (new_router-IsHistory 7)

second-IsHistory : IsHistory second.0
second-IsHistory =
    (should_filter_received-seen 5 100 3 9 none DeviceRole.client fresh (new_router-IsHistory 7)).0

abbrev relay : ℕ
relay = 9

abbrev lower : Option ℕ
lower = some 2

verdict_when_example :
    (((should_filter_received 5 100 4 9 lower DeviceRole.client second.0).1
        ≡ FilterResult.new_packet)
      ↔ (is_seen 5 100 second.0 ≡ false))
    × (((should_filter_received 5 100 4 9 lower DeviceRole.client second.0).1
          ≡ FilterResult.duplicate_upgrade 3)
        ↔ ((is_seen 5 100 second.0 ≡ true) × ((p : ℕ) × (lower ≡ some p) × (p < 4)) × (3 ≡ 4 - 1)))
    × (((should_filter_received 5 100 4 9 lower DeviceRole.client second.0).1
          ≡ FilterResult.duplicate_cancel_relay)
        ↔ ((is_seen 5 100 second.0 ≡ true)
            × ((lower ≡ none) ⊎ ((p : ℕ) × (lower ≡ some p) × (4 ≤ p)))
            × (DeviceRole.client ≢ DeviceRole.router)
            × (DeviceRole.client ≢ DeviceRole.router_late)
            × (relay ≢ 0)
            × (relay ≢ second.0.our_node_num % 256)))
verdict_when_example = verdict_when 5 100 4 9 3 lower DeviceRole.client second.0 second-IsHistory

abbrev call : ℕ → Reception
call n = record {
  sender = 5;
  packet_id = n;
  hop_limit = 3;
  relay_node = 9;
  pending = none;
  role = DeviceRole.router;
}

fresh_new : is_seen 5 100 fresh ≡ false
unfolding seen new_router replicate in_order any
fresh_new = refl

new_is_remembered_example :
    is_seen 5 100 (receive_all (call 101 ∷ call 102 ∷ []) (receive (call 100) fresh)) ≡ true
new_is_remembered_example =
    new_is_remembered (call 100) (call 101 ∷ call 102 ∷ []) fresh (new_router-IsHistory 7) fresh_new
      (omega arith)

fresh-IsOpaqueRing : IsOpaqueRing fresh
unfolding new_router replicate
fresh-IsOpaqueRing = (refl, omega arith, omega arith, inr refl)

abbrev relayed : MeshRouter × Bool
relayed = should_relay_opaque 5 100 3 2 fresh

relay_opaque_once_example :
    (relayed.1 ≡ (not (is_opaque_seen 5 100 fresh) || false))
    × (opaque_queue relayed.0 ≡ (
        if is_opaque_seen 5 100 fresh
        then opaque_queue fresh
        else enqueue opaque_seen_ring_size (5, 100) (opaque_queue fresh)))
    × IsOpaqueRing relayed.0
    × (relayed.0.history ≡ fresh.history)
    × (seen relayed.0 ≡ seen fresh)
relay_opaque_once_example = relay_opaque_once 5 100 3 2 fresh fresh-IsOpaqueRing

abbrev nodes : NodeDb ℕ ℕ
nodes = record { nodes = []; our_node_num = 7; dirty = false }

get_next_hop-learn_route_example : get_next_hop (learn_route 5 9 nodes).0 5 3 ≡ 9
unfolding accepts get find
get_next_hop-learn_route_example =
    get_next_hop-learn_route 5 5 9 3 nodes refl (λ e. omega (arith, e))

abbrev waiting : ℕ → ℕ → ℕ → PendingPacket
waiting id deadline retries = record {
  frame = new_frame;
  packet_id = id;
  dest = 5;
  sender = 7;
  deadline = deadline;
  retries_left = retries;
  is_our_packet = true;
  ble_notify = some 7;
}

abbrev three_waiting : List PendingPacket
three_waiting = waiting 1 50 0 ∷ waiting 2 60 2 ∷ waiting 3 900 1 ∷ []

abbrev hundred : ℕ → ℕ
hundred j = 100

hundred_later : (j : ℕ) → 100 ≤ hundred j
hundred_later j = omega arith

tick-Waits_example : All (Waits 100) (tick_retransmissions 100 hundred three_waiting nodes).pending
tick-Waits_example = tick-Waits 100 hundred three_waiting nodes hundred_later

three_waiting-Distinct : Distinct id_of three_waiting
unfolding any
three_waiting-Distinct = (refl, (refl, (refl, tt)))

abbrev ends_within : RadioFrame → Bool
ends_within f = ltb f.len 100

find-tick_example :
    (find (λ p. p.packet_id == 2) (tick_retransmissions 100 hundred three_waiting nodes).pending
      ≡ after_tick 100 100 (find (λ p. p.packet_id == 2) three_waiting))
    × (length (retain ends_within (tick_retransmissions 100 hundred three_waiting nodes).to_send)
        ≡ length (retain (resends 100 ends_within) three_waiting))
find-tick_example =
    find-tick 100 100 2 three_waiting nodes ends_within three_waiting-Distinct (omega arith)
