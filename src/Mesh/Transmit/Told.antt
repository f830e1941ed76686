-- ===== src/Mesh/Transmit/Told.antt =====
-- How the phone is told of an outcome.
use meshtastenstein_rs.Base.{
  ℕ, ◌≡◌, ◌<◌, refl, false, Bool-cases, some, inl, inr, [], ◌∷◌, ◌++◌, ◌==◌, arith,
}
use meshtastenstein_rs.Device.{next_from_radio_id, next_packet_id}
use meshtastenstein_rs.Proto.{PortNum, RoutingError, MeshPacket, FromRadio, FromRadioMessage, Wire}
use meshtastenstein_rs.Mesh.{MeshCtx}
use meshtastenstein_rs.Mesh.Send.{
  default_data, default_packet, encode_from_radio, push_from_radio, try_send, routing_result,
  send_ble_routing_result,
}

module _ {P M F : Type 0} where
  try_send-to_lora :
      (msg : FromRadioMessage) (ctx : MeshCtx P M F) → (try_send msg ctx).to_lora ≡ ctx.to_lora
  unfolding try_send
  try_send-to_lora msg ctx = elim (Bool-cases (ctx.ble_free == 0)) [
    | inl full ↦ rw (full, try_send) refl
    | inr free ↦ rw (free, try_send) refl
  ]

  try_send-pending :
      (msg : FromRadioMessage) (ctx : MeshCtx P M F)
      → (try_send msg ctx).pending_packets ≡ ctx.pending_packets
  unfolding try_send
  try_send-pending msg ctx = elim (Bool-cases (ctx.ble_free == 0)) [
    | inl full ↦ rw (full, try_send) refl
    | inr free ↦ rw (free, try_send) refl
  ]

  try_send-to_phone :
      (msg : FromRadioMessage) (ctx : MeshCtx P M F)
      → 0 < ctx.ble_free
      → (try_send msg ctx).to_phone ≡ ctx.to_phone ++ (msg ∷ [])
  unfolding try_send
  try_send-to_phone msg ctx room =
      let free : (ctx.ble_free == 0) ≡ false = ground (arith, room) in rw (free, try_send) refl

-- The message by which the phone learns an outcome, from the state in which it is sent: a routing
-- packet of this node under the next packet id, with the error for the packet that is named.
unfoldable pub outcome :
    {P M F : Type 0} → Wire P M → ℕ → ℕ → RoutingError → MeshCtx P M F → FromRadioMessage
outcome {P} {M} {F} w dest id error ctx =
    let packet : MeshPacket = record default_packet {
      from = ctx.device.my_node_num;
      to = dest;
      id = (next_packet_id ctx.device).1;
      decoded = some (record default_data {
        portnum = w.port_code PortNum.routing_app;
        inner_payload = w.encode_routing error;
        request_id = id;
      });
    } in
    record {
      bytes = encode_from_radio w ctx.from_radio_id (FromRadio.packet packet);
      id = ctx.from_radio_id;
    }

module _ {P M F : Type 0} (w : Wire P M) where
  pub told-to_phone :
      (dest id : ℕ) (error : RoutingError) (ctx : MeshCtx P M F)
      → 0 < ctx.ble_free
      → (send_ble_routing_result w dest id error ctx).to_phone
        ≡ ctx.to_phone ++ (outcome w dest id error ctx ∷ [])
  unfolding send_ble_routing_result push_from_radio outcome routing_result next_packet_id
      next_from_radio_id
  told-to_phone dest id error ctx room = try_send-to_phone _ _ room

  pub told-to_lora :
      (dest id : ℕ) (error : RoutingError) (ctx : MeshCtx P M F)
      → (send_ble_routing_result w dest id error ctx).to_lora ≡ ctx.to_lora
  unfolding send_ble_routing_result push_from_radio
  told-to_lora dest id error ctx = try_send-to_lora _ _

  pub told-pending :
      (dest id : ℕ) (error : RoutingError) (ctx : MeshCtx P M F)
      → (send_ble_routing_result w dest id error ctx).pending_packets ≡ ctx.pending_packets
  unfolding send_ble_routing_result push_from_radio
  told-pending dest id error ctx = try_send-pending _ _
