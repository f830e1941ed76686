-- ===== src/Mesh/Exchange/Replay.antt =====
-- `replay_stored_frames` of from_app/mod.rs, and the buffer after it.
use meshtastenstein_rs.Base.{
  ℕ, Option, unwrap_or, map_some, arith, ◌≤◌, none, some, Option-cases, inl, inr, List, [], ◌∷◌,
  length,
}
use meshtastenstein_rs.Packet.{
  Header, RadioFrame, frame_header, payload, hop_limit, hop_start, want_ack,
}
use meshtastenstein_rs.Device.{DeviceState}
use meshtastenstein_rs.Channels.{ChannelConfig, find_by_hash}
use meshtastenstein_rs.Radio.Preset.{display_name}
use meshtastenstein_rs.Message.{Data, open_channel}
use meshtastenstein_rs.Storage.{Flash, NvsStorage, pop}
use meshtastenstein_rs.Storage.Drain.{frame_of}
use meshtastenstein_rs.Proto.{MeshPacket, FromRadio, Wire}
use meshtastenstein_rs.Mesh.{MeshCtx}
use meshtastenstein_rs.Mesh.Send.{default_data, default_packet}
use meshtastenstein_rs.Mesh.Exchange.{replay_frame}

-- the packet that a message with this header and content is shown as
unfoldable pub shown_packet : Header → Data → ℕ → MeshPacket
shown_packet h d channel_index = record default_packet {
  from = h.sender;
  to = h.destination;
  channel = channel_index;
  id = h.packet_id;
  hop_limit = hop_limit h;
  hop_start = hop_start h;
  want_ack = want_ack h;
  rx_rssi = some 0;
  decoded = some (record default_data {
    portnum = d.portnum;
    inner_payload = d.inner_payload;
    reply_id = d.reply_id;
    emoji = d.emoji;
  });
}

module _ {P M : Type 0} (w : Wire P M) where
  -- the header and the content of a frame that the key of the channel with its hash opens, with the
  -- index of the channel, or 0 if there is none with this hash
  unfoldable pub opened : RadioFrame → DeviceState → Option (Header × Data × ℕ)
  opened frame device = elim (frame_header frame) [
    | none ↦ none
    | some h ↦
        let channel =
          find_by_hash h.channel_index (display_name device.modem_preset) device.channels in
        elim (open_channel w.protocol channel h (payload frame)) [
          | none ↦ none
          | some bytes ↦ elim (w.protocol.decode_data bytes) [
            | none ↦ none
            | some d ↦
                some
                  (h, d, unwrap_or (map_some {A = ChannelConfig} {B = ℕ} (λ c. c.index) channel) 0)
          ]
        ]
  ]

  -- of the stored messages, those that a key of a channel opens, as packets for the phone
  unfoldable pub readable : List (List ℕ) → DeviceState → List (FromRadio P)
  readable [] device = []
  readable (m ∷ ms) device =
      let rest = readable ms device in
      elim (opened (frame_of m) device) [
        | none ↦ rest
        | some (h, d, channel_index) ↦ FromRadio.packet (shown_packet h d channel_index) ∷ rest
      ]

  pub length-readable-le :
      (q : List (List ℕ)) (device : DeviceState) → length (readable q device) ≤ length q
  unfolding readable
  length-readable-le [] device = omega arith
  length-readable-le (m ∷ ms) device = elim (Option-cases (opened (frame_of m) device)) [
    | inl closed ↦ rw (closed, readable) (omega (arith, length-readable-le ms device))
    | inr (found, read) ↦ rw (read, readable) (omega (arith, length-readable-le ms device))
  ]

module _ {P M F : Type 0} (w : Wire P M) where
  -- the messages shown one after the other
  unfoldable replay_each : List (List ℕ) → MeshCtx P M F → MeshCtx P M F
  replay_each [] ctx = ctx
  replay_each (m ∷ ms) ctx = replay_each ms (replay_frame w (frame_of m) ctx)

  unfoldable drained : Flash F → List (List ℕ) → NvsStorage F → NvsStorage F
  drained nor [] s = s
  drained nor (m ∷ ms) s = drained nor ms (pop nor s).0
