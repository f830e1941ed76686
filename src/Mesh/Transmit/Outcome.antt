-- ===== src/Mesh/Transmit/Outcome.antt =====
-- What becomes of a packet that the phone hands over.
use meshtastenstein_rs.Base.{
  ℕ, ◌≡◌, ◌≢◌, ◌<◌, ◌⊎◌, refl, sym, ap, subst, Bool, true, false, ◌&&◌, ◌||◌, not, ◌+◌, ◌==◌, none,
  some, Bool-cases, Option-cases, inl, inr, List, [], ◌∷◌, ◌++◌, ltb, length, push, if◌then◌else◌,
  arith,
}
use meshtastenstein_rs.Packet.{RadioFrame, from_parts, broadcast_addr}
use meshtastenstein_rs.NodeDb.{NodeDb}
use meshtastenstein_rs.Router.Reliable.{PendingPacket, queue_size}
use meshtastenstein_rs.Device.{DeviceState}
use meshtastenstein_rs.Message.{Data, TxBuilder, build, seal, seal_pkc, data_of, outgoing_header}
use meshtastenstein_rs.Storage.{Flash}
use meshtastenstein_rs.Proto.{PortNum, RoutingError, MeshPacket, Wire}
use meshtastenstein_rs.Mesh.{Moment, MeshCtx}
use meshtastenstein_rs.Mesh.Send.{send_frame, send_ble_routing_ack}
use meshtastenstein_rs.Mesh.Transmit.{
  pkc_channel_index, wants_pkc, Permit, pkc_permit, permit, is_text_message, ota_want_ack,
  app_builder, is_local_admin, chosen_id, ack_dest, ack_entry, track, send_built, send_or_drop,
  transmit_with, act_on, prepared, transmit_data, transmit_decoded, transmit_from_ble_packet,
}
use meshtastenstein_rs.Mesh.Transmit.Told.{outcome, told-to_phone, told-to_lora, told-pending}

-- one frame more for the radio, sealed with the key of the receiver and without a channel's hash
unfoldable pub SealedFor :
    {P M F : Type 0}
    → Wire P M
    → Moment
    → MeshPacket
    → Data
    → DeviceState × ℕ
    → MeshCtx P M F
    → MeshCtx P M F
    → Type 0
SealedFor {P} {M} {F} w t pkt d (device, id) before after =
    let tx = app_builder w pkt d in
    (frame : RadioFrame) × (bytes : List ℕ) × (after.to_lora ≡ before.to_lora ++ (frame ∷ []))
    × (seal_pkc w.protocol tx device before.node_db id before.pkc_priv_bytes t.extra_nonce
          (w.protocol.encode_data (data_of tx device))
        ≡ some bytes)
    × (from_parts (outgoing_header tx device before.node_db id 0) bytes ≡ some frame)

module _ {P M : Type 0} (w : Wire P M) where
  build-sealed :
      (tx : TxBuilder) (device : DeviceState) (db : NodeDb P M) (id : ℕ) (priv : List ℕ) (nonce : ℕ)
      (frame : RadioFrame)
      → build w.protocol tx device db id (some (priv, nonce)) ≡ some frame
      → (bytes : List ℕ) × (seal_pkc w.protocol tx device db id priv nonce
            (w.protocol.encode_data (data_of tx device))
          ≡ some bytes)
        × (from_parts (outgoing_header tx device db id 0) bytes ≡ some frame)
  unfolding build seal
  build-sealed tx device db id priv nonce frame e =
      elim (Option-cases (
        seal_pkc w.protocol tx device db id priv nonce
          (w.protocol.encode_data (data_of tx device)))) [
            | inl failed ↦ absurd (ground (arith, e, failed))
            | inr (bytes, made) ↦ (bytes, made, ground (arith, e, made))
          ]

module _ {P M F : Type 0} (w : Wire P M) (t : Moment) where
  track-to_lora :
      (pkt : MeshPacket) (entry : PendingPacket) (dest : ℕ) (ctx : MeshCtx P M F)
      → (track w t pkt entry dest ctx).to_lora ≡ ctx.to_lora
  unfolding track send_ble_routing_ack
  track-to_lora pkt entry dest ctx =
      elim (Option-cases (push queue_size entry ctx.pending_packets)) [
        | inl full ↦ rw (full, track) (told-to_lora w dest pkt.id RoutingError.no_error ctx)
        | inr (grown, room) ↦ rw (room, track) refl
      ]

  -- a frame that was built goes to the radio, once
  send_built-to_lora :
      (pkt : MeshPacket) (d : Data) (id : ℕ) (frame : RadioFrame) (ctx : MeshCtx P M F)
      → (send_built w t pkt d id frame ctx).to_lora ≡ ctx.to_lora ++ (frame ∷ [])
  unfolding send_built send_frame send_ble_routing_ack
  send_built-to_lora pkt d id frame ctx = elim (Bool-cases (ota_want_ack w pkt d)) [
    | inr plain ↦ rw (plain) (told-to_lora w _ pkt.id RoutingError.no_error _)
    | inl tracked ↦ rw (tracked) (ap (λ l. l ++ (frame ∷ [])) (track-to_lora pkt _ _ ctx))
  ]

  act_on-sealed :
      (p : Permit) (pkt : MeshPacket) (d : Data) (id : ℕ) (ctx : MeshCtx P M F)
      → p ≢ Permit.plain
      → ((act_on w t p pkt d id ctx).to_lora ≡ ctx.to_lora)
        ⊎ SealedFor w t pkt d (ctx.device, id) ctx (act_on w t p pkt d id ctx)
  unfolding act_on transmit_with send_or_drop SealedFor
  act_on-sealed Permit.plain pkt d id ctx h = absurd (h refl)
  act_on-sealed Permit.refused pkt d id ctx h = inl refl
  act_on-sealed (Permit.reported error) pkt d id ctx h =
      inl (told-to_lora w pkt.to pkt.id error ctx)
  act_on-sealed Permit.sealed pkt d id ctx h =
      elim (Option-cases (
        build w.protocol (app_builder w pkt d) ctx.device ctx.node_db id
          (some (ctx.pkc_priv_bytes, t.extra_nonce)))) [
            | inl failed ↦ rw (failed) (inl refl)
            | inr (frame, made) ↦
                let (bytes, sealed, framed) =
                  build-sealed w (app_builder w pkt d) ctx.device ctx.node_db id ctx.pkc_priv_bytes
                    t.extra_nonce frame made in
                rw (made)
                  (inr (frame, bytes, send_built-to_lora pkt d id frame ctx, sealed, framed))
          ]

permit-ne-plain :
    {P M : Type 0} (pkt : MeshPacket) (port : PortNum) (db : NodeDb P M) (priv : List ℕ)
    → pkt.channel ≡ pkc_channel_index
    → permit pkt port db priv ≢ Permit.plain
unfolding permit pkc_permit wants_pkc
permit-ne-plain {P} {M} pkt port db priv asked plain = absurd (ground (arith, asked, plain))

module _ {P M F : Type 0} (w : Wire P M) (nor : Flash F) (t : Moment) where
  decoded_is_sealed :
      (pkt : MeshPacket) (d : Data) (ctx : MeshCtx P M F)
      → pkt.channel ≡ pkc_channel_index
      → is_local_admin pkt (w.port_of d.portnum) ctx.device.my_node_num ≡ false
      → ((transmit_decoded w nor t pkt (some d) ctx).to_lora ≡ ctx.to_lora)
        ⊎ SealedFor w t pkt d
            (chosen_id pkt ctx.device)
            (prepared w pkt d ctx)
            (transmit_decoded w nor t pkt (some d) ctx)
  unfolding transmit_decoded transmit_data prepared
  decoded_is_sealed pkt d ctx asked away = rw (away) (
      act_on-sealed w t (permit pkt (w.port_of d.portnum) ctx.node_db ctx.pkc_priv_bytes) pkt d
        (chosen_id pkt ctx.device).1 (prepared w pkt d ctx)
        (permit-ne-plain pkt (w.port_of d.portnum) ctx.node_db ctx.pkc_priv_bytes asked))

  -- A packet for which the phone asks for public-key encryption, and that is no command for this
  -- node: nothing goes to the radio, or one frame does that is sealed with the key of its receiver.
  -- It never goes out under the key of a channel.
  pub pkc_is_not_downgraded :
      (pkt : MeshPacket) (d : Data) (ctx : MeshCtx P M F)
      → pkt.decoded ≡ some d
      → pkt.channel ≡ pkc_channel_index
      → is_local_admin pkt (w.port_of d.portnum) ctx.device.my_node_num ≡ false
      → ((transmit_from_ble_packet w nor t pkt ctx).to_lora ≡ ctx.to_lora)
        ⊎ SealedFor w t pkt d
            (chosen_id pkt ctx.device)
            (prepared w pkt d ctx)
            (transmit_from_ble_packet w nor t pkt ctx)
  unfolding transmit_from_ble_packet
  pkc_is_not_downgraded pkt d ctx read asked away =
      subst
        (λ o.
          ((transmit_decoded w nor t pkt o ctx).to_lora ≡ ctx.to_lora)
          ⊎ SealedFor w t pkt d (chosen_id pkt ctx.device) (prepared w pkt d ctx)
              (transmit_decoded w nor t pkt o ctx))
        (sym read) (decoded_is_sealed pkt d ctx asked away)

-- Whether the outcome of a packet is waited for: it is a text or wants an acknowledgement, it is
-- for one node, and fewer than eight packets wait.
unfoldable pub is_tracked : {P M F : Type 0} → Wire P M → MeshPacket → Data → MeshCtx P M F → Bool
is_tracked {P} {M} {F} w pkt d ctx =
    (pkt.want_ack || d.portnum == w.port_code PortNum.text_message_app)
    && not (pkt.to == broadcast_addr)
    && ltb (length ctx.pending_packets) 8

-- whom a packet of the phone is from: this node, if the phone does not say
unfoldable pub origin : {P M F : Type 0} → MeshPacket → MeshCtx P M F → ℕ
origin {P} {M} {F} pkt ctx = if pkt.from == 0 then ctx.device.my_node_num else pkt.from

-- the packet as it waits: five seconds for the first of three retries
unfoldable pub entry_for :
    {P M F : Type 0} → Moment → MeshPacket → ℕ → RadioFrame → MeshCtx P M F → PendingPacket
entry_for {P} {M} {F} t pkt id frame ctx = record {
  frame = frame;
  packet_id = id;
  dest = pkt.to;
  sender = ctx.device.my_node_num;
  deadline = t.now + 5000;
  retries_left = 3;
  is_our_packet = true;
  ble_notify = some (origin pkt ctx);
}

push-room :
    (entry : PendingPacket) (ps : List PendingPacket)
    → ltb (length ps) queue_size ≡ true
    → push queue_size entry ps ≡ some (ps ++ (entry ∷ []))
unfolding push
push-room entry ps space = rw (space) refl

push-full :
    (entry : PendingPacket) (ps : List PendingPacket)
    → ltb (length ps) queue_size ≡ false
    → push queue_size entry ps ≡ none
unfolding push
push-full entry ps full = rw (full) refl

module _ {P M F : Type 0} (w : Wire P M) (t : Moment) where
  track-noted :
      (pkt : MeshPacket) (entry : PendingPacket) (dest : ℕ) (ctx : MeshCtx P M F)
      → 0 < ctx.ble_free
      → ((track w t pkt entry dest ctx).pending_packets ≡ (
          if ltb (length ctx.pending_packets) queue_size
          then ctx.pending_packets ++ (entry ∷ [])
          else ctx.pending_packets))
        × ((track w t pkt entry dest ctx).to_phone ≡ (
            if ltb (length ctx.pending_packets) queue_size
            then ctx.to_phone
            else ctx.to_phone ++ (outcome w dest pkt.id RoutingError.no_error ctx ∷ [])))
  unfolding send_ble_routing_ack track
  track-noted pkt entry dest ctx room =
      elim (Bool-cases (ltb (length ctx.pending_packets) queue_size)) [
        | inl space ↦
            let room : push queue_size entry ctx.pending_packets
                ≡ some (ctx.pending_packets ++ (entry ∷ [])) =
              push-room entry ctx.pending_packets space in
            rw (space, room, track) (refl, refl)
        | inr full ↦
            let none_left : push queue_size entry ctx.pending_packets ≡ none =
              push-full entry ctx.pending_packets full in
            rw (full, none_left, track)
              (
                told-pending w dest pkt.id RoutingError.no_error ctx,
                told-to_phone w dest pkt.id RoutingError.no_error ctx room,
              )
      ]

  -- A frame that was built for the phone goes to the radio once, and the phone hears of it. If the
  -- packet is a text or wants an acknowledgement, is for one node, and fewer than eight packets
  -- wait, then it waits with three retries, the first in five seconds, and with its origin as the
  -- one to notify, and nothing is said yet. Else the phone is told at once that there was no error,
  -- if there is a place in its queue.
  pub tracked_or_confirmed :
      (pkt : MeshPacket) (d : Data) (id : ℕ) (frame : RadioFrame) (ctx : MeshCtx P M F)
      → 0 < ctx.ble_free
      → ((send_built w t pkt d id frame ctx).to_lora ≡ ctx.to_lora ++ (frame ∷ []))
        × ((send_built w t pkt d id frame ctx).pending_packets ≡ (
            if is_tracked w pkt d ctx
            then ctx.pending_packets ++ (entry_for t pkt id frame ctx ∷ [])
            else ctx.pending_packets))
        × ((send_built w t pkt d id frame ctx).to_phone ≡ (
            if is_tracked w pkt d ctx
            then ctx.to_phone
            else ctx.to_phone
              ++ (outcome w (origin pkt ctx) pkt.id RoutingError.no_error ctx ∷ [])))
  unfolding send_built send_frame send_ble_routing_ack is_tracked origin entry_for outcome ack_entry
      ack_dest ota_want_ack is_text_message
  tracked_or_confirmed pkt d id frame ctx room =
      let sent = send_built-to_lora w t pkt d id frame ctx in
      let (waiting, told) =
        track-noted pkt (entry_for t pkt id frame ctx) (origin pkt ctx) ctx room in
      elim (Bool-cases (ota_want_ack w pkt d)) [
        | inr plain ↦ (
          sent,
          rw (plain) (told-pending w (origin pkt ctx) pkt.id RoutingError.no_error _),
          rw (plain) (told-to_phone w (origin pkt ctx) pkt.id RoutingError.no_error _ room),
        )
        | inl wanted ↦ (sent, rw (wanted) waiting, rw (wanted) told)
      ]
