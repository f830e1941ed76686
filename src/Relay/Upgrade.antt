-- ===== src/Relay/Upgrade.antt =====
-- The duplicate that raises the hop limit of a pending rebroadcast in from_radio/mod.rs.
use meshtastenstein_rs.Base.{
  ℕ, ◌-◌, ◌%◌, ◌≤◌, ◌<◌, ◌≡◌, ◌≢◌, ◌⊎◌, inl, inr, Bool-cases, refl, ap, ◌∙◌, true, false, not,
  Option, none, some, List, [], ◌∷◌, ltb, update_first, retain, arith,
}
use meshtastenstein_rs.Packet.{
  Header, RadioFrame, frame_header, hop_limit, set_hop_limit, with_rewritten_header,
}
use meshtastenstein_rs.Packet.Codec.{IsHeader}
use meshtastenstein_rs.Packet.Flags.{bit_and_seven, set_hop_limit_reads}
use meshtastenstein_rs.Packet.Frame.{IsFrame, with_rewritten_header_reads}
use meshtastenstein_rs.Router.{MeshRouter, DeviceRole, FilterResult, should_filter_received}
use meshtastenstein_rs.Router.History.{IsHistory, is_seen}
use meshtastenstein_rs.Router.Flooding.{filter_verdict, verdict_when}
use meshtastenstein_rs.Relay.{
  PendingRebroadcast, RelayState, is_same_packet, pending_hop_limit, apply_verdict, filter_layer,
}

-- the hop limit that the queue holds after its entry for the packet has a new frame
replaced :
    (h nh : Header) (frame : RadioFrame) (old : ℕ) (q : List PendingRebroadcast)
    → frame_header frame ≡ some nh
    → nh.sender ≡ h.sender
    → nh.packet_id ≡ h.packet_id
    → pending_hop_limit h q ≡ some old
    → pending_hop_limit h (update_first (is_same_packet h) (λ p. record p { frame = frame }) q)
      ≡ some (hop_limit nh)
unfolding pending_hop_limit update_first is_same_packet
replaced h nh frame old [] e s i at = absurd (ground arith)
replaced h nh frame old (p ∷ q) e s i at = ground (arith, e, replaced h nh frame old q e s i)

-- Nothing is left of the packet in the queue that a cancelled relay leaves.
retained :
    (h : Header) (q : List PendingRebroadcast)
    → pending_hop_limit h (retain (λ p. not (is_same_packet h p)) q) ≡ none
unfolding pending_hop_limit retain is_same_packet
retained h [] = refl
retained h (p ∷ q) = ground (arith, retained h q)

hop_limit_lt : (h : Header) → h.flags < 256 → hop_limit h < 8
unfolding hop_limit
hop_limit_lt h byte = ground (arith, bit_and_seven h.flags byte)

-- the header of the copy as it is passed on
abbrev raised : ℕ → ℕ → Header → Header
raised limit relay h = record (set_hop_limit limit h) { relay_node = relay }

raised_hop_limit :
    (limit relay : ℕ) (h : Header)
    → h.flags < 256
    → limit < 8
    → hop_limit (raised limit relay h) ≡ limit
unfolding hop_limit
raised_hop_limit limit relay h byte small =
    let read : hop_limit (set_hop_limit limit h) ≡ limit % 8 =
      (set_hop_limit_reads limit h (omega (arith, small)) byte).0 in
    read ∙ omega (arith, small)

upgrade_verdict :
    (h : Header) (role : DeviceRole) (r : MeshRouter) (pending : Option ℕ) (old : ℕ)
    → IsHistory r
    → is_seen h.sender h.packet_id r ≡ true
    → pending ≡ some old
    → old < hop_limit h
    → (should_filter_received h.sender h.packet_id (hop_limit h) h.relay_node pending role r).1
      ≡ FilterResult.duplicate_upgrade (hop_limit h - 1)
upgrade_verdict h role r pending old hist known at more =
    let lower : ltb old (hop_limit h) ≡ true = ground (arith, more) in
    filter_verdict h.sender h.packet_id (hop_limit h) h.relay_node pending role r hist
    ∙ rw (known, at, lower) refl

-- With a well-formed history, a copy of a known packet, in a well-formed frame, that arrives with
-- more hops than the rebroadcast that is pending for it: the rebroadcast goes out with one hop less
-- than the copy, so with no fewer than before, and the copy is not processed again.
pub filter_layer_upgrades :
    (frame : RadioFrame) (h : Header) (our : ℕ) (role : DeviceRole) (s : RelayState) (old : ℕ)
    → IsHistory s.router
    → IsFrame frame
    → frame_header frame ≡ some h
    → IsHeader h
    → is_seen h.sender h.packet_id s.router ≡ true
    → pending_hop_limit h s.pending ≡ some old
    → old < hop_limit h
    → (pending_hop_limit h (filter_layer frame h our role s).0.pending ≡ some (hop_limit h - 1))
      × (old ≤ hop_limit h - 1)
      × ((filter_layer frame h our role s).1 ≡ false)
unfolding filter_layer apply_verdict set_hop_limit
filter_layer_upgrades frame h our role s old hist vf read vh known at more =
    let pending : Option ℕ = pending_hop_limit h s.pending in
    let verdict : (should_filter_received h.sender h.packet_id (hop_limit h) h.relay_node pending
          role s.router).1
        ≡ FilterResult.duplicate_upgrade (hop_limit h - 1) =
      upgrade_verdict h role s.router pending old hist known at more in
    let small : hop_limit h < 8 = hop_limit_lt h vh.flags_u8 in
    let (_, _, header, _) =
      with_rewritten_header_reads (hop_limit h - 1) (our % 256) frame h vf read vh (omega arith)
        (omega arith) in
    rw (verdict, apply_verdict)
      (
        replaced h (raised (hop_limit h - 1) (our % 256) h)
              (with_rewritten_header (hop_limit h - 1) (our % 256) frame) old s.pending header refl
              refl at
            ∙ ap some (raised_hop_limit (hop_limit h - 1) (our % 256) h vh.flags_u8 (omega arith)),
        omega (arith, more),
        refl,
      )

-- two headers that are not of one packet
abbrev pub OtherPacket : Header → Header → Type 0
OtherPacket g h = (g.sender ≢ h.sender) ⊎ (g.packet_id ≢ h.packet_id)

-- a queued rebroadcast is not of two packets
other_kept :
    (g h : Header) (p : PendingRebroadcast)
    → OtherPacket g h
    → is_same_packet g p ≡ true
    → is_same_packet h p ≡ false
unfolding is_same_packet
other_kept g h p other same = ground arith

retained_others :
    (g h : Header) (q : List PendingRebroadcast)
    → OtherPacket g h
    → retain (is_same_packet g) (retain (λ p. not (is_same_packet h p)) q)
      ≡ retain (is_same_packet g) q
unfolding retain
retained_others g h [] other = refl
retained_others g h (p ∷ q) other =
    let rest = retained_others g h q other in
    elim (Bool-cases (is_same_packet h p)) [
      | inl gone ↦ elim (Bool-cases (is_same_packet g p)) [
        | inl same ↦ absurd (ground (arith, gone, other_kept g h p other same))
        | inr differs ↦ rw (gone, differs) rest
      ]
      | inr kept ↦ elim (Bool-cases (is_same_packet g p)) [
        | inl same ↦ rw (kept, same) (ap (λ l. p ∷ l) rest)
        | inr differs ↦ rw (kept, differs) rest
      ]
    ]

-- With a well-formed history, a copy of a known packet that another node relayed, at a node that is
-- neither ROUTER nor ROUTER_LATE, while no rebroadcast of it with a lower hop limit is pending:
-- afterwards no rebroadcast of the packet is pending, those of every other packet are as they were,
-- and the copy is not processed again.
pub filter_layer_cancels :
    (frame : RadioFrame) (h g : Header) (our : ℕ) (role : DeviceRole) (s : RelayState)
    → IsHistory s.router
    → is_seen h.sender h.packet_id s.router ≡ true
    → (pending_hop_limit h s.pending ≡ none)
      ⊎ ((p : ℕ) × (pending_hop_limit h s.pending ≡ some p) × (hop_limit h ≤ p))
    → role ≢ DeviceRole.router
    → role ≢ DeviceRole.router_late
    → h.relay_node ≢ 0
    → h.relay_node ≢ s.router.our_node_num % 256
    → OtherPacket g h
    → (pending_hop_limit h (filter_layer frame h our role s).0.pending ≡ none)
      × (retain (is_same_packet g) (filter_layer frame h our role s).0.pending
          ≡ retain (is_same_packet g) s.pending)
      × ((filter_layer frame h our role s).1 ≡ false)
unfolding filter_layer apply_verdict
filter_layer_cancels frame h g our role s hist known no_lower router late relayed theirs other =
    let pending : Option ℕ = pending_hop_limit h s.pending in
    let verdict : (should_filter_received h.sender h.packet_id (hop_limit h) h.relay_node pending
          role s.router).1
        ≡ FilterResult.duplicate_cancel_relay =
      (verdict_when h.sender h.packet_id (hop_limit h) h.relay_node 0 pending role s.router
          hist).2.1
        (known, no_lower, router, late, relayed, theirs) in
    rw (verdict, apply_verdict) (retained h s.pending, retained_others g h s.pending other, refl)
