-- ===== src/Message/Channel.antt =====
-- A message that one node builds for a channel and another node decodes, and what no node accepts.
use meshtastenstein_rs.Base.{
  ℕ, suc, ◌≡◌, ◌≢◌, ◌<◌, refl, ap, sym, ◌∙◌, Bool, true, false, ◌&&◌, not, inl, inr, Bool-cases,
  Option, none, some, List, [], ◌∷◌, ◌==◌, ltb, if◌then◌else◌, unwrap_or, map_some, length, take,
  any, All, arith,
}
use meshtastenstein_rs.Packet.{Header, RadioFrame, payload, from_parts, frame_header}
use meshtastenstein_rs.Packet.Codec.{IsHeader}
use meshtastenstein_rs.Packet.Frame.{from_parts_reads}
use meshtastenstein_rs.NodeDb.{NodeDb}
use meshtastenstein_rs.Channels.{ChannelConfig, find_by_hash, hash, is_encrypted, effective_psk}
use meshtastenstein_rs.Radio.Preset.{display_name}
use meshtastenstein_rs.Crypto.{copy_psk, crypt_packet}
use meshtastenstein_rs.Crypto.Symmetry.{crypt_packet_back}
use meshtastenstein_rs.Message.Pkc.{skipped}
use meshtastenstein_rs.Device.{DeviceState}
use meshtastenstein_rs.Message.{
  Data, Protocol, pkc_overhead, DecryptOutcome, TxBuilder, chosen_channel, outgoing_header, data_of,
  decoded_payload, crypt_channel, seal_channel, seal, build, is_pkc_candidate, open_pkc,
  open_channel, open_payload, decode_opened, try_decrypt_and_decode,
}

-- the keystream has bytes, the encoding of the message is of bytes, and decoding undoes it
abbrev pub CodecLaw : Protocol → Data → Type 0
CodecLaw p d =
    ((key nonce : List ℕ) (i : ℕ) → p.stream key nonce i < 256)
    × All (λ b. b < 256) (p.encode_data d)
    × (p.decode_data (p.encode_data d) ≡ some d)

-- two channels that share a key
abbrev pub SameKey : ChannelConfig → ChannelConfig → Type 0
SameKey a b = (effective_psk a ≡ effective_psk b) × (is_encrypted a ≡ is_encrypted b)

pub chosen {ℓ} : {A : Type ℓ} {b : Bool} (x y : A) → b ≡ true → (if b then x else y) ≡ x
chosen x y e = rw (e)

differ : {m n : ℕ} → m ≢ n → (m == n) ≡ false
differ h = ground arith

not_empty : (n : ℕ) → (suc n == 0) ≡ false
not_empty n = ground arith

never : (b c : Bool) → (b && (false && c)) ≡ false
never true c = refl
never false c = refl

-- an optional value that was used, and its use
pub used {ℓ} :
    {A B : Type ℓ} (o : Option A) (f : A → Option B) (b : B)
    → (let r : Option B = elim o [ none ↦ none | some a ↦ f a ] in r) ≡ some b
    → (a : A) × (o ≡ some a) × (f a ≡ some b)
used none f b e = absurd (ground arith)
used (some a) f b e = (a, refl, e)

module _ (p : Protocol) where
  crypt_channel-same :
      (a b : ChannelConfig) (packet_id sender : ℕ) (bytes : List ℕ)
      → SameKey a b
      → crypt_channel p b packet_id sender bytes ≡ crypt_channel p a packet_id sender bytes
  unfolding crypt_channel
  crypt_channel-same a b packet_id sender bytes same = rw (sym same.0, sym same.1)

  -- what a channel's cipher made of some bytes, it undoes
  crypt_channel_back :
      (law : (key nonce : List ℕ) (i : ℕ) → p.stream key nonce i < 256) (a : ChannelConfig)
      (packet_id sender : ℕ) (bytes cipher : List ℕ)
      → All (λ x. x < 256) bytes
      → crypt_channel p a packet_id sender bytes ≡ some cipher
      → crypt_channel p a packet_id sender cipher ≡ some bytes
  unfolding crypt_channel
  crypt_channel_back law a packet_id sender bytes cipher h e = elim (Bool-cases (is_encrypted a)) [
    | inl on ↦
        let key : List ℕ = take (copy_psk (effective_psk a)).1 (copy_psk (effective_psk a)).0 in
        rw (on) (
          crypt_packet_back p.stream key packet_id sender bytes cipher law h
            (sym (chosen _ _ on) ∙ e))
    | inr off ↦
        let plain : some bytes ≡ some cipher = sym (skipped _ _ off) ∙ e in rw (off) (sym plain)
  ]

  open_channel-crypt_channel :
      (a : ChannelConfig) (header : Header) (raw bytes : List ℕ)
      → crypt_channel p a header.packet_id header.sender raw ≡ some bytes
      → open_channel p (some a) header raw ≡ some bytes
  unfolding open_channel crypt_channel crypt_packet
  open_channel-crypt_channel a header [] bytes e = elim (Bool-cases (is_encrypted a)) [
    | inl on ↦ sym (chosen _ _ on) ∙ e
    | inr off ↦ sym (skipped _ _ off) ∙ e
  ]
  open_channel-crypt_channel a header (x ∷ raw) bytes e = skipped _ _ (not_empty (length raw)) ∙ e

  -- the message of a packet for another node
  decode_other :
      (header : Header) (bytes : List ℕ) (index : ℕ) (d : Data)
      → p.decode_data bytes ≡ some d
      → decode_opened p false header none index (some bytes) false
        ≡ DecryptOutcome.decoded (decoded_payload d index)
  unfolding decode_opened
  decode_other header bytes index d is_data =
      rw (is_data, decode_opened) (rw (never (d.portnum == p.text_message_app) true))

  -- a frame of a channel that the receiver has, not addressed to it
  receive_channel :
      {P M : Type 0} (frame : RadioFrame) (header : Header) (device : DeviceState) (db : NodeDb P M)
      (pkc_priv_bytes bytes : List ℕ) (ch : ChannelConfig) (d : Data)
      → find_by_hash header.channel_index (display_name device.modem_preset) device.channels
        ≡ some ch
      → header.destination ≢ device.my_node_num
      → crypt_channel p ch header.packet_id header.sender (payload frame) ≡ some bytes
      → p.decode_data bytes ≡ some d
      → try_decrypt_and_decode p frame header device db pkc_priv_bytes
        ≡ DecryptOutcome.decoded (decoded_payload d ch.index)
  unfolding try_decrypt_and_decode is_pkc_candidate open_pkc open_payload
  receive_channel frame header device db pkc_priv_bytes bytes ch d found other opened is_data =
      let not_us : (header.destination == device.my_node_num) ≡ false = differ other in
      let in_clear = open_channel-crypt_channel ch header (payload frame) bytes opened in
      let none_tried =
        never (header.channel_index == 0)
          (ltb pkc_overhead (length (payload frame)) && any (λ b. not (b == 0)) pkc_priv_bytes) in
      rw (not_us, none_tried, found, in_clear) (decode_other header bytes ch.index d is_data)

  built_from :
      {P M : Type 0} (tx : TxBuilder) (device : DeviceState) (db : NodeDb P M) (packet_id : ℕ)
      (ch : ChannelConfig) (frame : RadioFrame)
      → chosen_channel tx device ≡ some ch
      → build p tx device db packet_id none ≡ some frame
      → (cipher : List ℕ) × (crypt_channel p ch packet_id device.my_node_num
            (p.encode_data (data_of tx device))
          ≡ some cipher)
        × (from_parts
              (outgoing_header tx device db packet_id (hash (display_name device.modem_preset) ch))
              cipher
            ≡ some frame)
  unfolding build seal seal_channel
  built_from tx device db packet_id ch frame is_ch e =
      let h : ℕ = hash (display_name device.modem_preset) ch in
      let plain : List ℕ = p.encode_data (data_of tx device) in
      let assembled : Option ChannelConfig → Option RadioFrame = λ c.
        elim (seal_channel p c packet_id device.my_node_num plain) [
          | none ↦ none
          | some b ↦
              from_parts
                (outgoing_header tx device db packet_id (
                  unwrap_or
                    (map_some {A = ChannelConfig} {B = ℕ} (hash (display_name device.modem_preset))
                      c)
                    0))
                b
        ] in
      used (crypt_channel p ch packet_id device.my_node_num (p.encode_data (data_of tx device)))
        (from_parts (outgoing_header tx device db packet_id h)) frame (sym (ap assembled is_ch) ∙ e)

  -- Whatever a node builds for one of its channels, every other node that has a channel of that
  -- hash with the same key, and is not the one addressed, decodes to the message that was built.
  -- The frame's header is the one that was made for it.
  pub build_received :
      {P M : Type 0} (tx : TxBuilder) (device receiver : DeviceState) (db other_db : NodeDb P M)
      (packet_id : ℕ) (pkc_priv_bytes : List ℕ) (frame : RadioFrame) (ch rch : ChannelConfig)
      → CodecLaw p (data_of tx device)
      → chosen_channel tx device ≡ some ch
      → find_by_hash
          (hash (display_name device.modem_preset) ch)
          (display_name receiver.modem_preset)
          receiver.channels
        ≡ some rch
      → SameKey ch rch
      → IsHeader
          (outgoing_header tx device db packet_id (hash (display_name device.modem_preset) ch))
      → tx.dest ≢ receiver.my_node_num
      → build p tx device db packet_id none ≡ some frame
      → (header : Header) × (header
          ≡ outgoing_header tx device db packet_id (hash (display_name device.modem_preset) ch))
        × (frame_header frame ≡ some header)
        × (try_decrypt_and_decode p frame header receiver other_db pkc_priv_bytes
            ≡ DecryptOutcome.decoded (decoded_payload (data_of tx device) rch.index))
  unfolding build seal seal_channel outgoing_header
  build_received tx device receiver db other_db packet_id pkc_priv_bytes frame ch rch law is_ch
        found same v other e =
      let h : ℕ = hash (display_name device.modem_preset) ch in
      let header : Header = outgoing_header tx device db packet_id h in
      let plain : List ℕ = p.encode_data (data_of tx device) in
      let (cipher, sealed, framed) = built_from tx device db packet_id ch frame is_ch e in
      let (_, head, body, _) = from_parts_reads header cipher frame v framed in
      let opened : crypt_channel p rch packet_id device.my_node_num (payload frame) ≡ some plain =
        ap (crypt_channel p rch packet_id device.my_node_num) body
        ∙ (crypt_channel-same ch rch packet_id device.my_node_num cipher same
            ∙ crypt_channel_back law.0 ch packet_id device.my_node_num plain cipher law.1 sealed) in
      (
        header,
        refl,
        head,
        receive_channel frame header receiver other_db pkc_priv_bytes plain rch (data_of tx device)
            found other opened law.2,
      )
