-- ===== src/Mesh/Receive/Quiet.antt =====
-- What a frame from the radio leaves alone.
use meshtastenstein_rs.Base.{
  ℕ, ◌≡◌, ◌≢◌, ◌⊎◌, refl, true, false, ◌==◌, some, Bool-cases, inl, inr, arith,
}
use meshtastenstein_rs.Packet.{Header, RadioFrame, frame_header, hop_limit}
use meshtastenstein_rs.Router.{DeviceRole}
use meshtastenstein_rs.Router.History.{IsHistory, seen, is_seen}
use meshtastenstein_rs.Router.Flooding.{filter_verdict}
use meshtastenstein_rs.Relay.{RelayState, filter_layer, apply_verdict, pending_hop_limit}
use meshtastenstein_rs.Relay.Decision.{maybe_relay_opaque-seen}
use meshtastenstein_rs.Message.{DecodedPayload, DecryptOutcome, try_decrypt_and_decode}
use meshtastenstein_rs.Storage.{Flash}
use meshtastenstein_rs.Proto.{Wire}
use meshtastenstein_rs.Mesh.{Moment, MeshCtx}
use meshtastenstein_rs.Mesh.Receive.{
  RadioMetadata, relay_state, with_relay, undecoded, receive_decoded, receive_foreign, receive,
}

-- `after` differs from `before` at most in the router and in the queue of rebroadcasts
unfoldable pub OnlyRelays : {P M F : Type 0} → MeshCtx P M F → MeshCtx P M F → Type 0
OnlyRelays {P} {M} {F} before after =
    after ≡ record before { router = after.router; pending_rebroadcast = after.pending_rebroadcast }

-- a known packet does not get past the filter
filter_layer-known :
    (frame : RadioFrame) (h : Header) (our : ℕ) (role : DeviceRole) (s : RelayState)
    → IsHistory s.router
    → is_seen h.sender h.packet_id s.router ≡ true
    → (filter_layer frame h our role s).1 ≡ false
unfolding filter_layer apply_verdict
filter_layer-known frame h our role s hist known =
    let verdict =
      filter_verdict h.sender h.packet_id (hop_limit h) h.relay_node (pending_hop_limit h s.pending)
        role s.router hist in
    ground (arith, verdict, known)

module _ {P M F : Type 0} (w : Wire P M) (nor : Flash F) (t : Moment) where
  receive_decoded-known :
      (frame : RadioFrame) (h : Header) (meta : RadioMetadata) (d : DecodedPayload)
      (ctx : MeshCtx P M F)
      → IsHistory ctx.router
      → is_seen h.sender h.packet_id ctx.router ≡ true
      → OnlyRelays ctx (receive_decoded w nor t frame h meta d ctx)
  unfolding receive_decoded OnlyRelays with_relay relay_state
  receive_decoded-known frame h meta d ctx hist known =
      let stops =
        filter_layer-known frame h ctx.device.my_node_num ctx.device.role (relay_state ctx) hist
          known in
      rw stops refl

  -- a packet of another node
  receive-other :
      (frame : RadioFrame) (h : Header) (meta : RadioMetadata) (ctx : MeshCtx P M F)
      → frame_header frame ≡ some h
      → h.sender ≢ ctx.device.my_node_num
      → receive w nor t frame meta ctx
        ≡ receive_foreign w nor t frame h meta
            (try_decrypt_and_decode w.protocol frame h ctx.device ctx.node_db ctx.pkc_priv_bytes)
            ctx
  unfolding receive
  receive-other frame h meta ctx read foreign =
      let other : (h.sender == ctx.device.my_node_num) ≡ false = ground arith in
      rw (read, receive, other) refl

  undecoded-dropped :
      (frame : RadioFrame) (h : Header) (ctx : MeshCtx P M F)
      → OnlyRelays ctx (undecoded w t frame h DecryptOutcome.dropped ctx)
        × (seen (undecoded w t frame h DecryptOutcome.dropped ctx).router ≡ seen ctx.router)
        × ((h.destination ≢ ctx.device.my_node_num)
            ⊎ (undecoded w t frame h DecryptOutcome.dropped ctx ≡ ctx))
  unfolding undecoded OnlyRelays with_relay relay_state
  undecoded-dropped frame h ctx = elim (Bool-cases (h.destination == ctx.device.my_node_num)) [
    | inl ours ↦ rw (ours, undecoded) (refl, refl, inr refl)
    | inr others ↦
        rw (others, undecoded)
          (
            refl,
            maybe_relay_opaque-seen t.now t.delay frame h ctx.device.my_node_num ctx.device.role
                (relay_state ctx),
            inl (ground arith),
          )
  ]

  -- Of a packet of another node that cannot be decoded and is dropped for that, nothing is changed
  -- but the router and the queue of rebroadcasts, and the history of known packets stays as it is.
  -- If the packet is for this node, nothing is changed at all.
  pub receive-dropped :
      (frame : RadioFrame) (h : Header) (meta : RadioMetadata) (ctx : MeshCtx P M F)
      → frame_header frame ≡ some h
      → h.sender ≢ ctx.device.my_node_num
      → try_decrypt_and_decode w.protocol frame h ctx.device ctx.node_db ctx.pkc_priv_bytes
        ≡ DecryptOutcome.dropped
      → OnlyRelays ctx (receive w nor t frame meta ctx)
        × (seen (receive w nor t frame meta ctx).router ≡ seen ctx.router)
        × ((h.destination ≢ ctx.device.my_node_num) ⊎ (receive w nor t frame meta ctx ≡ ctx))
  unfolding receive_foreign
  receive-dropped frame h meta ctx read foreign drop =
      rw (receive-other frame h meta ctx read foreign) (rw (drop) (undecoded-dropped frame h ctx))

  -- A packet of another node that is already in a well-formed history changes nothing but the
  -- router and the queue of rebroadcasts, if it can be decoded: no message to the phone, no
  -- acknowledgement, no entry in the database.
  pub receive-known :
      (frame : RadioFrame) (h : Header) (meta : RadioMetadata) (d : DecodedPayload)
      (ctx : MeshCtx P M F)
      → frame_header frame ≡ some h
      → h.sender ≢ ctx.device.my_node_num
      → try_decrypt_and_decode w.protocol frame h ctx.device ctx.node_db ctx.pkc_priv_bytes
        ≡ DecryptOutcome.decoded d
      → IsHistory ctx.router
      → is_seen h.sender h.packet_id ctx.router ≡ true
      → OnlyRelays ctx (receive w nor t frame meta ctx)
  unfolding receive_foreign
  receive-known frame h meta d ctx read foreign decode hist known =
      rw (receive-other frame h meta ctx read foreign)
        (rw (decode) (receive_decoded-known frame h meta d ctx hist known))
