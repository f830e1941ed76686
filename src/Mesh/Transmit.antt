-- ===== src/Mesh/Transmit.antt =====
-- A packet from the phone: `transmit_from_ble_packet` of
-- meshtastenstein-core/src/domain/handlers/from_app/mod.rs, and `portnum_allows_pkc` of
-- domain/crypto_pkc.rs.
pub mod Told
pub mod Outcome
use meshtastenstein_rs.Base.{
  ℕ, ◌+◌, ◌%◌, min, Bool, true, false, ◌&&◌, ◌||◌, not, Option, none, some, List, [], ◌∷◌, ◌==◌,
  leb, if◌then◌else◌, is_some, length, any, push,
}
use meshtastenstein_rs.Packet.{RadioFrame, broadcast_addr}
use meshtastenstein_rs.NodeDb.{NodeDb, has_pub_key}
use meshtastenstein_rs.Router.Reliable.{PendingPacket, queue_size, want_ack_timeout_ms}
use meshtastenstein_rs.Channels.{max_channels}
use meshtastenstein_rs.Device.{DeviceState, next_packet_id}
use meshtastenstein_rs.Message.{Data, TxBuilder, max_hop_limit, build, pub_key_of}
use meshtastenstein_rs.Session.{same_bytes}
use meshtastenstein_rs.Storage.{Flash}
use meshtastenstein_rs.Proto.{PortNum, RoutingError, MeshPacket, Wire}
use meshtastenstein_rs.Mesh.{Moment, MeshCtx}
use meshtastenstein_rs.Mesh.Send.{
  builder, send_frame, send_ble_routing_result, send_ble_routing_ack,
}
use meshtastenstein_rs.Mesh.Admin.{position_bytes_of, admin_dispatch}

-- constants.rs: one past the last channel
abbrev pub pkc_channel_index : ℕ
pkc_channel_index = max_channels

abbrev pub num_reliable_retx : ℕ
num_reliable_retx = 3

unfoldable pub portnum_allows_pkc : PortNum → Bool
portnum_allows_pkc PortNum.traceroute_app = false
portnum_allows_pkc PortNum.nodeinfo_app = false
portnum_allows_pkc PortNum.routing_app = false
portnum_allows_pkc PortNum.position_app = false
portnum_allows_pkc other = true

-- whether the phone asks for public-key encryption
unfoldable pub wants_pkc : MeshPacket → Bool
wants_pkc pkt = pkt.channel == pkc_channel_index

unfoldable pub channel_idx_of : MeshPacket → ℕ
channel_idx_of pkt = if wants_pkc pkt then 0 else pkt.channel % 256

-- How a packet may go out: `plain` under a channel's key, `sealed` under the receiver's, not at
-- all, or not at all with an error for the phone.
pub data Permit : Type 0 where
  plain : Permit
  sealed : Permit
  refused : Permit
  reported : RoutingError → Permit

-- `stored != pkt.public_key.as_slice()`, for a stored key
unfoldable pub is_other_key : List ℕ → Option (List ℕ) → Bool
is_other_key key none = false
is_other_key key (some stored) = not (same_bytes stored key)

unfoldable pub pkc_permit : {P M : Type 0} → MeshPacket → PortNum → NodeDb P M → List ℕ → Permit
pkc_permit {P} {M} pkt port db priv_bytes =
    if not (portnum_allows_pkc port)
    then Permit.refused
    else if pkt.to == broadcast_addr || pkt.to == 0
    then Permit.refused
    else if length pkt.public_key == 32 && is_other_key pkt.public_key (pub_key_of pkt.to db)
    then Permit.reported RoutingError.pki_failed
    else if not (has_pub_key db pkt.to) || not (any (λ b. not (b == 0)) priv_bytes)
    then Permit.reported RoutingError.pki_send_fail_public_key
    else Permit.sealed

unfoldable pub permit : {P M : Type 0} → MeshPacket → PortNum → NodeDb P M → List ℕ → Permit
permit {P} {M} pkt port db priv_bytes =
    if leb max_channels (channel_idx_of pkt) && not (wants_pkc pkt)
    then Permit.refused
    else if wants_pkc pkt
    then pkc_permit pkt port db priv_bytes
    else Permit.plain

module _ {P M : Type 0} (w : Wire P M) where
  unfoldable pub is_text_message : Data → Bool
  is_text_message d = d.portnum == w.port_code PortNum.text_message_app

  -- whether the mesh is asked for an acknowledgement
  unfoldable pub ota_want_ack : MeshPacket → Data → Bool
  ota_want_ack pkt d = (pkt.want_ack || is_text_message d) && not (pkt.to == broadcast_addr)

  unfoldable pub app_builder : MeshPacket → Data → TxBuilder
  app_builder pkt d = record (builder w) {
    dest = pkt.to;
    portnum = d.portnum;
    inner_payload = d.inner_payload;
    channel_idx = some (channel_idx_of pkt);
    want_ack = pkt.want_ack || is_text_message d;
    request_id = d.request_id;
    reply_id = d.reply_id;
    emoji = d.emoji;
    hop_limit = some (min (pkt.hop_limit % 256) max_hop_limit);
  }

-- a command that is for this node
unfoldable pub is_local_admin : MeshPacket → PortNum → ℕ → Bool
is_local_admin pkt PortNum.admin_app our = pkt.to == our || pkt.to == broadcast_addr || pkt.to == 0
is_local_admin pkt other our = false

-- the payload of a position is kept for later broadcasts
unfoldable pub kept_position : PortNum → List ℕ → List ℕ → List ℕ
kept_position PortNum.position_app bytes before = position_bytes_of bytes
kept_position other bytes before = before

-- the state and the id under which the packet goes out
unfoldable pub chosen_id : MeshPacket → DeviceState → DeviceState × ℕ
chosen_id pkt device = if not (pkt.id == 0) then (device, pkt.id) else next_packet_id device

unfoldable pub ack_dest : ℕ → ℕ → ℕ
ack_dest from our = if from == 0 then our else from

unfoldable pub ack_entry : ℕ → RadioFrame → ℕ → ℕ → ℕ → ℕ → PendingPacket
ack_entry now frame packet_id dest our notify = record {
  frame = frame;
  packet_id = packet_id;
  dest = dest;
  sender = our;
  deadline = now + want_ack_timeout_ms;
  retries_left = num_reliable_retx;
  is_our_packet = true;
  ble_notify = some notify;
}

module _ {P M F : Type 0} (w : Wire P M) where
  -- the position and the packet id are noted before it is decided whether the packet goes out
  unfoldable pub prepared : MeshPacket → Data → MeshCtx P M F → MeshCtx P M F
  prepared pkt d ctx = record ctx {
    device = (chosen_id pkt ctx.device).0;
    my_position_bytes = kept_position (w.port_of d.portnum) d.inner_payload ctx.my_position_bytes;
  }

module _ {P M F : Type 0} (w : Wire P M) (t : Moment) where
  -- the packet is tracked until it is acknowledged, or the phone is told at once
  unfoldable pub track : MeshPacket → PendingPacket → ℕ → MeshCtx P M F → MeshCtx P M F
  track pkt entry dest ctx = elim (push queue_size entry ctx.pending_packets) [
    | some grown ↦ record ctx { pending_packets = grown }
    | none ↦ send_ble_routing_ack w dest pkt.id ctx
  ]

  -- a frame that was built
  unfoldable pub send_built : MeshPacket → Data → ℕ → RadioFrame → MeshCtx P M F → MeshCtx P M F
  send_built pkt d packet_id frame ctx =
      let dest = ack_dest pkt.from ctx.device.my_node_num in
      let entry = ack_entry t.now frame packet_id pkt.to ctx.device.my_node_num dest in
      if ota_want_ack w pkt d
      then send_frame (some frame) (track pkt entry dest ctx)
      else send_ble_routing_ack w dest pkt.id (send_frame (some frame) ctx)

  unfoldable pub send_or_drop :
      MeshPacket → Data → ℕ → Option RadioFrame → MeshCtx P M F → MeshCtx P M F
  send_or_drop pkt d packet_id none ctx = ctx
  send_or_drop pkt d packet_id (some frame) ctx = send_built pkt d packet_id frame ctx

  -- the frame, under a channel's key or under the receiver's
  unfoldable pub transmit_with :
      MeshPacket → Data → ℕ → Option (List ℕ × ℕ) → MeshCtx P M F → MeshCtx P M F
  transmit_with pkt d packet_id pkc_keys ctx =
      send_or_drop pkt d packet_id
        (build w.protocol (app_builder w pkt d) ctx.device ctx.node_db packet_id pkc_keys) ctx

  unfoldable pub act_on : Permit → MeshPacket → Data → ℕ → MeshCtx P M F → MeshCtx P M F
  act_on Permit.plain pkt d packet_id ctx = transmit_with pkt d packet_id none ctx
  act_on Permit.sealed pkt d packet_id ctx =
      transmit_with pkt d packet_id (some (ctx.pkc_priv_bytes, t.extra_nonce)) ctx
  act_on Permit.refused pkt d packet_id ctx = ctx
  act_on (Permit.reported error) pkt d packet_id ctx =
      send_ble_routing_result w pkt.to pkt.id error ctx

  -- a packet that goes to the mesh
  unfoldable pub transmit_data : MeshPacket → Data → MeshCtx P M F → MeshCtx P M F
  transmit_data pkt d ctx =
      act_on (permit pkt (w.port_of d.portnum) ctx.node_db ctx.pkc_priv_bytes) pkt d
        (chosen_id pkt ctx.device).1 (prepared w pkt d ctx)

module _ {P M F : Type 0} (w : Wire P M) (nor : Flash F) (t : Moment) where
  -- a command of the phone for this node, and the confirmation that it arrived
  unfoldable pub run_local_admin : MeshPacket → Data → MeshCtx P M F → MeshCtx P M F
  run_local_admin pkt d ctx =
      let done = admin_dispatch w nor t pkt.from pkt.id d.inner_payload false ctx in
      if pkt.want_ack then send_ble_routing_ack w pkt.from pkt.id done else done

  -- `none` is a packet whose payload is not `Decoded`
  unfoldable pub transmit_decoded : MeshPacket → Option Data → MeshCtx P M F → MeshCtx P M F
  transmit_decoded pkt none ctx = ctx
  transmit_decoded pkt (some d) ctx =
      if is_local_admin pkt (w.port_of d.portnum) ctx.device.my_node_num
      then run_local_admin pkt d ctx
      else transmit_data w t pkt d ctx

  unfoldable pub transmit_from_ble_packet : MeshPacket → MeshCtx P M F → MeshCtx P M F
  transmit_from_ble_packet pkt ctx = transmit_decoded pkt pkt.decoded ctx
