-- ===== src/Relay/Tests.antt =====
-- Runs of the relay decisions of from_radio/mod.rs.
use meshtastenstein_rs.Base.{
  ℕ, ◌-◌, ◌%◌, ◌≤◌, ◌<◌, ◌≡◌, ◌≢◌, refl, true, false, none, some, List, [], ◌∷◌, retain, inr,
  splice, replicate, any, in_order, Distinct, arith,
}
use meshtastenstein_rs.Packet.{
  Header, RadioFrame, new_frame, frame_header, decode, encode, hop_limit, broadcast_addr,
}
use meshtastenstein_rs.Packet.Codec.{IsHeader}
use meshtastenstein_rs.Packet.Frame.{IsFrame}
use meshtastenstein_rs.Router.{
  DeviceRole, new_router, should_filter_received, filter_duplicate, record_packet, add_relayer_at,
  set_best_hop_limit,
}
use meshtastenstein_rs.Router.History.{IsHistory, seen, is_seen, new_router-IsHistory}
use meshtastenstein_rs.Router.Flooding.{should_filter_received-seen}
use meshtastenstein_rs.Router.Memory.{Reception, receive, receive_all, new_is_remembered}
use meshtastenstein_rs.Router.Reliable.{PendingPacket}
use meshtastenstein_rs.Relay.{
  PendingRebroadcast, RelayState, earliest, earliest_from, is_same_packet, pending_hop_limit,
  filter_layer,
}
use meshtastenstein_rs.Relay.Upgrade.{filter_layer_upgrades, filter_layer_cancels}

abbrev due : ℕ → PendingRebroadcast
due deadline = record { frame = new_frame; deadline = deadline }

abbrev eight : List PendingRebroadcast
eight = due 9 ∷ due 8 ∷ due 3 ∷ due 7 ∷ due 3 ∷ due 5 ∷ due 6 ∷ due 4 ∷ []

earliest_of_eight : earliest eight ≡ some 2
unfolding earliest earliest_from
earliest_of_eight = refl

abbrev waiting : ℕ → PendingPacket
waiting id = record {
  frame = new_frame;
  packet_id = id;
  dest = 5;
  sender = 7;
  deadline = 50;
  retries_left = 1;
  is_our_packet = true;
  ble_notify = none;
}

two_waiting-Distinct : Distinct {A = PendingPacket} (λ p. p.packet_id) (waiting 1 ∷ waiting 2 ∷ [])
unfolding any
two_waiting-Distinct = (refl, (refl, tt))

-- hop limit 5, hop start 7
abbrev copy : Header
copy = record {
  destination = broadcast_addr;
  sender = 5;
  packet_id = 100;
  flags = 229;
  channel_index = 8;
  next_hop = 0;
  relay_node = 9;
}

-- the same packet with hop limit 2
abbrev earlier : Header
earlier = record copy { flags = 226 }

abbrev framed : Header → RadioFrame
framed h = record { bytes = splice 0 (encode h) (replicate 255 0); len = 16 }

framed-copy-IsFrame : IsFrame (framed copy)
unfolding replicate encode
framed-copy-IsFrame = record { array = refl; fits = omega arith }

copy-IsHeader : IsHeader copy
copy-IsHeader = record {
  destination_u32 = omega arith;
  sender_u32 = omega arith;
  packet_id_u32 = omega arith;
  flags_u8 = omega arith;
  channel_index_u8 = omega arith;
  next_hop_u8 = omega arith;
  relay_node_u8 = omega arith;
}

copy_read : frame_header (framed copy) ≡ some copy
unfolding frame_header decode encode replicate
copy_read = refl

abbrev first_call : Reception
first_call = record {
  sender = 5;
  packet_id = 100;
  hop_limit = 2;
  relay_node = 8;
  pending = none;
  role = DeviceRole.client;
}

abbrev knowing : RelayState
knowing = record {
  router = receive first_call (new_router 7);
  pending = record { frame = framed earlier; deadline = 40 } ∷ [];
}

knowing-IsHistory : IsHistory knowing.router
unfolding receive
knowing-IsHistory =
    (should_filter_received-seen 5 100 2 8 none DeviceRole.client (new_router 7)
      (new_router-IsHistory 7)).0

nothing_seen : is_seen 5 100 (new_router 7) ≡ false
unfolding seen new_router replicate in_order any
nothing_seen = refl

knowing_copy : is_seen 5 100 knowing.router ≡ true
unfolding receive_all
knowing_copy =
    new_is_remembered first_call [] (new_router 7) (new_router-IsHistory 7) nothing_seen
      (omega arith)

pending_two : pending_hop_limit copy knowing.pending ≡ some 2
unfolding pending_hop_limit frame_header decode encode replicate hop_limit
pending_two = refl

two_lower : 2 < hop_limit copy
unfolding hop_limit
two_lower = omega arith

filter_layer_upgrades_example :
    (pending_hop_limit copy (filter_layer (framed copy) copy 7 DeviceRole.client knowing).0.pending
      ≡ some (hop_limit copy - 1))
    × (2 ≤ hop_limit copy - 1)
    × ((filter_layer (framed copy) copy 7 DeviceRole.client knowing).1 ≡ false)
filter_layer_upgrades_example =
    filter_layer_upgrades (framed copy) copy 7 DeviceRole.client knowing 2 knowing-IsHistory
      framed-copy-IsFrame copy_read copy-IsHeader knowing_copy pending_two two_lower

knowing_our : knowing.router.our_node_num ≡ 7
unfolding receive should_filter_received filter_duplicate record_packet add_relayer_at
    set_best_hop_limit new_router
knowing_our = ground arith

knowing_ours : 9 ≢ knowing.router.our_node_num % 256
knowing_ours same = omega (arith, same, knowing_our)

-- another packet
abbrev unrelated : Header
unrelated = record copy { packet_id = 101 }

-- the rebroadcasts of both wait
abbrev crowded : RelayState
crowded = record {
  router = knowing.router;
  pending =
      record { frame = framed copy; deadline = 40 }
      ∷ record { frame = framed unrelated; deadline = 45 }
      ∷ [];
}

pending_five : pending_hop_limit copy crowded.pending ≡ some 5
unfolding pending_hop_limit frame_header decode encode replicate hop_limit
pending_five = refl

five_no_lower : hop_limit copy ≤ 5
unfolding hop_limit
five_no_lower = omega arith

filter_layer_cancels_example :
    (pending_hop_limit copy (filter_layer (framed copy) copy 7 DeviceRole.client crowded).0.pending
      ≡ none)
    × (retain
          (is_same_packet unrelated)
          (filter_layer (framed copy) copy 7 DeviceRole.client crowded).0.pending
        ≡ retain (is_same_packet unrelated) crowded.pending)
    × ((filter_layer (framed copy) copy 7 DeviceRole.client crowded).1 ≡ false)
filter_layer_cancels_example =
    filter_layer_cancels (framed copy) copy unrelated 7 DeviceRole.client crowded knowing-IsHistory
      knowing_copy (inr (5, pending_five, five_no_lower)) (λ e. absurd (ground (arith, e)))
      (λ e. absurd (ground (arith, e))) (λ e. omega (arith, e)) knowing_ours
      (inr (λ e. omega (arith, e)))
