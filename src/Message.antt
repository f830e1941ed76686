-- ===== src/Message.antt =====
-- How a message becomes a frame and a frame a message: meshtastenstein-
-- core/src/domain/crypto_pkc.rs, domain/tx.rs, and `try_decrypt_and_decode` of
-- domain/handlers/from_radio/mod.rs. The cryptographic crates and the generated protobuf code are
-- the parameters of `Protocol`.
pub mod Pkc
pub mod Channel
mod Direct
mod Tests
use meshtastenstein_rs.Base.{
  ℕ, ◌+◌, ◌-◌, ◌%◌, min, Bool, true, false, ◌&&◌, ◌||◌, not, ◌⊎◌, inl, inr, Option, none, some,
  List, [], ◌∷◌, ◌==◌, ltb, if◌then◌else◌, is_some, unwrap_or, map_some, or_some, length, take,
  drop, replicate, splice, slice, any, to_le, from_le, bit_or,
}
use meshtastenstein_rs.Packet.{Header, RadioFrame, broadcast_addr, make_flags, payload, from_parts}
use meshtastenstein_rs.NodeDb.{NodeEntry, NodeDb, get}
use meshtastenstein_rs.Router.{no_next_hop, get_next_hop}
use meshtastenstein_rs.Channels.{
  ChannelConfig, get_channel, primary_channel, find_by_hash, hash, is_encrypted, effective_psk,
}
use meshtastenstein_rs.Radio.Preset.{display_name}
use meshtastenstein_rs.Crypto.{copy_psk, crypt_packet}
use meshtastenstein_rs.Device.{DeviceState}
use meshtastenstein_rs.Relay.{is_unknown_pubkey}

-- The fields of the generated `Data` message that the source names.
pub record Data : Type 0 where
  pub portnum : ℕ
  pub inner_payload : List ℕ
  pub want_response : Bool
  pub request_id : ℕ
  pub reply_id : ℕ
  pub emoji : ℕ
  pub bitfield : Option ℕ

-- What the crates and the generated code do: the keystream of AES-CTR; X25519, SHA-256 and AES-CCM,
-- which gives the body and the tag; the encoding of `Data` and the number of the text messages'
-- port.
pub record Protocol : Type 0 where
  pub stream : List ℕ → List ℕ → ℕ → ℕ
  pub public_of : List ℕ → List ℕ
  pub diffie_hellman : List ℕ → List ℕ → List ℕ
  pub sha256 : List ℕ → List ℕ
  pub ccm_encrypt : List ℕ → List ℕ → List ℕ → Option (List ℕ × List ℕ)
  pub ccm_decrypt : List ℕ → List ℕ → List ℕ → List ℕ → Option (List ℕ)
  pub encode_data : Data → List ℕ
  pub decode_data : List ℕ → Option Data
  pub text_message_app : ℕ

abbrev pub pkc_tag_len : ℕ
pkc_tag_len = 8

abbrev pub pkc_extra_nonce_len : ℕ
pkc_extra_nonce_len = 4

abbrev pub pkc_overhead : ℕ
pkc_overhead = pkc_tag_len + pkc_extra_nonce_len

-- constants.rs
abbrev pub max_hop_limit : ℕ
max_hop_limit = 7

pub data PkcError : Type 0 where
  bad_tag : PkcError
  bad_buffer : PkcError

unfoldable pub build_pkc_nonce : ℕ → ℕ → ℕ → List ℕ
build_pkc_nonce packet_id sender extra_nonce =
    splice 8 (to_le 4 sender)
      (splice 4 (to_le 4 extra_nonce) (splice 0 (to_le 4 packet_id) (replicate 13 0)))

-- `DecodedPayload`
pub record DecodedPayload : Type 0 where
  pub portnum : ℕ
  pub want_response : Bool
  pub request_id : ℕ
  pub reply_id : ℕ
  pub emoji : ℕ
  pub inner_payload : List ℕ
  pub channel_index : ℕ

pub data DecryptOutcome : Type 0 where
  decoded : DecodedPayload → DecryptOutcome
  pki_unknown_pubkey : DecryptOutcome
  dropped : DecryptOutcome

pub record TxBuilder : Type 0 where
  pub dest : ℕ
  pub portnum : ℕ
  pub inner_payload : List ℕ
  pub channel_idx : Option ℕ
  pub want_ack : Bool
  pub want_response : Bool
  pub request_id : ℕ
  pub reply_id : ℕ
  pub emoji : ℕ
  pub hop_limit : Option ℕ

-- `TxBuilder::default()`; `unknown_app` is the generated number
unfoldable pub default_builder : ℕ → TxBuilder
default_builder unknown_app = record {
  dest = broadcast_addr;
  portnum = unknown_app;
  inner_payload = [];
  channel_idx = none;
  want_ack = false;
  want_response = false;
  request_id = 0;
  reply_id = 0;
  emoji = 0;
  hop_limit = none;
}

-- `self.channel_idx.and_then(|idx| device.channels.get(idx)).or_else(|| device.channels.primary())`
unfoldable pub chosen_channel : TxBuilder → DeviceState → Option ChannelConfig
chosen_channel tx device = elim tx.channel_idx [
  | none ↦ primary_channel device.channels
  | some idx ↦ or_some (get_channel idx device.channels) (primary_channel device.channels)
]

-- the key of a node, `node_db.get(n).and_then(|e| e.pub_key)`
unfoldable pub pub_key_of : {P M : Type 0} → ℕ → NodeDb P M → Option (List ℕ)
pub_key_of {P} {M} n db = elim (get n db) [ none ↦ none | some e ↦ e.pub_key ]

unfoldable pub outgoing_header :
    {P M : Type 0} → TxBuilder → DeviceState → NodeDb P M → ℕ → ℕ → Header
outgoing_header tx device db packet_id channel_hash =
    let is_broadcast = tx.dest == broadcast_addr in
    let hop_limit = min (unwrap_or tx.hop_limit device.default_hops) max_hop_limit in
    record {
      destination = tx.dest;
      sender = device.my_node_num;
      packet_id = packet_id;
      flags = make_flags (tx.want_ack && not is_broadcast) false hop_limit hop_limit;
      channel_index = channel_hash;
      next_hop = if is_broadcast then no_next_hop else get_next_hop db tx.dest 0;
      relay_node = device.my_node_num % 256;
    }

-- `(u32::from(config_ok_to_mqtt) << 0) | (u32::from(want_response) << 1)`
unfoldable pub bitfield_of : Bool → Bool → ℕ
bitfield_of ok_to_mqtt want_response =
    bit_or (if ok_to_mqtt then 1 else 0) (if want_response then 2 else 0)

unfoldable pub data_of : TxBuilder → DeviceState → Data
data_of tx device = record {
  portnum = tx.portnum;
  inner_payload = tx.inner_payload;
  want_response = tx.want_response;
  request_id = tx.request_id;
  reply_id = tx.reply_id;
  emoji = tx.emoji;
  bitfield = some (bitfield_of device.config_ok_to_mqtt tx.want_response);
}

unfoldable pub decoded_payload : Data → ℕ → DecodedPayload
decoded_payload d channel_index = record {
  portnum = d.portnum;
  want_response = d.want_response;
  request_id = d.request_id;
  reply_id = d.reply_id;
  emoji = d.emoji;
  inner_payload = d.inner_payload;
  channel_index = channel_index;
}

unfoldable pub final_undecoded_outcome : Bool → Header → Option (List ℕ) → DecryptOutcome
final_undecoded_outcome is_unicast_to_us header sender_pub_key =
    if is_unknown_pubkey is_unicast_to_us header sender_pub_key
    then DecryptOutcome.pki_unknown_pubkey
    else DecryptOutcome.dropped

module _ (p : Protocol) where
  unfoldable pub derive_shared_key : List ℕ → List ℕ → List ℕ
  derive_shared_key my_secret peer_public = p.sha256 (p.diffie_hellman my_secret peer_public)

  -- the buffer that is written, and how many bytes of it
  unfoldable pub encrypt_pkc : List ℕ → ℕ → ℕ → ℕ → List ℕ → List ℕ → PkcError ⊎ (List ℕ × ℕ)
  encrypt_pkc shared_key packet_id sender extra_nonce plaintext out_buf =
      let needed = length plaintext + pkc_overhead in
      let nonce = build_pkc_nonce packet_id sender extra_nonce in
      let ct_end = length plaintext + pkc_tag_len in
      if ltb (length out_buf) needed
      then inl PkcError.bad_buffer
      else elim (p.ccm_encrypt shared_key nonce plaintext) [
        | none ↦ inl PkcError.bad_buffer
        | some (ct, tag) ↦ inr (
          splice ct_end (to_le 4 extra_nonce) (splice (length plaintext) tag (splice 0 ct out_buf)),
          needed,
        )
      ]

  -- the plaintext that is written to the buffer, of `body_len` bytes
  unfoldable pub decrypt_pkc : List ℕ → ℕ → ℕ → List ℕ → ℕ → PkcError ⊎ List ℕ
  decrypt_pkc shared_key packet_id sender wire out_len =
      let body_len = length wire - pkc_overhead in
      let extra_nonce = from_le (drop (length wire - 4) wire) in
      let ct = take body_len wire in
      let tag = slice body_len (body_len + pkc_tag_len) wire in
      let nonce = build_pkc_nonce packet_id sender extra_nonce in
      if ltb (length wire) pkc_overhead
      then inl PkcError.bad_buffer
      else if ltb out_len body_len
      then inl PkcError.bad_buffer
      else elim (p.ccm_decrypt shared_key nonce ct tag) [
        | none ↦ inl PkcError.bad_tag
        | some plaintext ↦ inr plaintext
      ]

  -- the payload that is sent for a private key and an extra nonce
  unfoldable pub seal_pkc :
      {P M : Type 0}
      → TxBuilder
      → DeviceState
      → NodeDb P M
      → ℕ
      → List ℕ
      → ℕ
      → List ℕ
      → Option (List ℕ)
  seal_pkc tx device db packet_id priv_bytes extra_nonce plaintext = elim (pub_key_of tx.dest db) [
    | none ↦ none
    | some dest_pub_key ↦
        elim (encrypt_pkc (derive_shared_key priv_bytes dest_pub_key) packet_id device.my_node_num
          extra_nonce plaintext (replicate (length plaintext + pkc_overhead) 0)) [
            | inl e ↦ none
            | inr (buf, written) ↦ some (take written buf)
          ]
  ]

  -- a pass of the channel's cipher, if the channel has one
  unfoldable pub crypt_channel : ChannelConfig → ℕ → ℕ → List ℕ → Option (List ℕ)
  crypt_channel ch packet_id sender bytes =
      let (psk_copy, psk_len) = copy_psk (effective_psk ch) in
      if is_encrypted ch
      then crypt_packet p.stream (take psk_len psk_copy) packet_id sender bytes
      else some bytes

  unfoldable pub seal_channel : Option ChannelConfig → ℕ → ℕ → List ℕ → Option (List ℕ)
  seal_channel none packet_id sender bytes = some bytes
  seal_channel (some ch) packet_id sender bytes = crypt_channel ch packet_id sender bytes

  -- what is sent and the channel's hash in the header
  unfoldable pub seal :
      {P M : Type 0}
      → TxBuilder
      → DeviceState
      → NodeDb P M
      → ℕ
      → Option (List ℕ × ℕ)
      → List ℕ
      → Option (List ℕ) × ℕ
  seal tx device db packet_id none plaintext =
      let channel = chosen_channel tx device in
      (
        seal_channel channel packet_id device.my_node_num plaintext,
        unwrap_or
            (map_some {A = ChannelConfig} {B = ℕ} (hash (display_name device.modem_preset)) channel)
            0,
      )
  seal tx device db packet_id (some (priv_bytes, extra_nonce)) plaintext =
      (seal_pkc tx device db packet_id priv_bytes extra_nonce plaintext, 0)

  unfoldable pub build :
      {P M : Type 0}
      → TxBuilder
      → DeviceState
      → NodeDb P M
      → ℕ
      → Option (List ℕ × ℕ)
      → Option RadioFrame
  build tx device db packet_id pkc_keys =
      let (sealed, channel_hash) =
        seal tx device db packet_id pkc_keys (p.encode_data (data_of tx device)) in
      elim sealed [
        | none ↦ none
        | some bytes ↦ from_parts (outgoing_header tx device db packet_id channel_hash) bytes
      ]

  -- `is_pkc_candidate`
  unfoldable pub is_pkc_candidate : Header → ℕ → List ℕ → List ℕ → Bool
  is_pkc_candidate header our raw_payload pkc_priv_bytes =
      header.channel_index == 0
      && (header.destination == our
          && (ltb pkc_overhead (length raw_payload) && any (λ b. not (b == 0)) pkc_priv_bytes))

  -- the attempt with the sender's key, if that is known
  unfoldable pub open_pkc : Header → List ℕ → List ℕ → Option (List ℕ) → Option (List ℕ)
  open_pkc header raw_payload pkc_priv_bytes none = none
  open_pkc header raw_payload pkc_priv_bytes (some peer_pub_key) =
      let plaintext_len = length raw_payload - pkc_overhead in
      if ltb 256 plaintext_len
      then none
      else elim (decrypt_pkc (derive_shared_key pkc_priv_bytes peer_pub_key) header.packet_id
          header.sender raw_payload plaintext_len) [ inl e ↦ none | inr plaintext ↦ some plaintext ]

  -- the attempt with the channel's key
  unfoldable pub open_channel : Option ChannelConfig → Header → List ℕ → Option (List ℕ)
  open_channel none header raw_payload = some raw_payload
  open_channel (some ch) header raw_payload =
      if length raw_payload == 0
      then some raw_payload
      else crypt_channel ch header.packet_id header.sender raw_payload

  -- the opened payload, and whether the sender's key opened it
  unfoldable pub open_payload :
      Option ChannelConfig → Header → List ℕ → Option (List ℕ) → Option (List ℕ) × Bool
  open_payload channel header raw_payload none = (open_channel channel header raw_payload, false)
  open_payload channel header raw_payload (some plaintext) = (some plaintext, true)

  -- the rest of `try_decrypt_and_decode`, from the opened payload on
  unfoldable pub decode_opened :
      Bool → Header → Option (List ℕ) → ℕ → Option (List ℕ) → Bool → DecryptOutcome
  decode_opened is_unicast_to_us header sender_pub_key channel_index none pkc_decrypted =
      final_undecoded_outcome is_unicast_to_us header sender_pub_key
  decode_opened is_unicast_to_us header sender_pub_key channel_index (some bytes) pkc_decrypted =
      elim (p.decode_data bytes) [
        | none ↦ final_undecoded_outcome is_unicast_to_us header sender_pub_key
        | some d ↦
            if d.portnum == p.text_message_app && (is_unicast_to_us && not pkc_decrypted)
            then DecryptOutcome.dropped
            else DecryptOutcome.decoded (decoded_payload d channel_index)
      ]

  unfoldable pub try_decrypt_and_decode :
      {P M : Type 0} → RadioFrame → Header → DeviceState → NodeDb P M → List ℕ → DecryptOutcome
  try_decrypt_and_decode frame header device db pkc_priv_bytes =
      let channel =
        find_by_hash header.channel_index (display_name device.modem_preset) device.channels in
      let channel_index =
        unwrap_or (map_some {A = ChannelConfig} {B = ℕ} (λ c. c.index) channel) 0 in
      let raw_payload = payload frame in
      let is_unicast_to_us = header.destination == device.my_node_num in
      let sender_pub_key =
        if is_pkc_candidate header device.my_node_num raw_payload pkc_priv_bytes
        then pub_key_of header.sender db
        else none in
      let (opened, pkc_decrypted) =
        open_payload channel header raw_payload
          (open_pkc header raw_payload pkc_priv_bytes sender_pub_key) in
      decode_opened is_unicast_to_us header sender_pub_key channel_index opened pkc_decrypted
