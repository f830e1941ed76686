-- ===== src/Message/Tests.antt =====
-- Runs of the building and the decoding of messages.
use meshtastenstein_rs.Base.{
  ℕ, ◌+◌, ◌≡◌, refl, inr, true, false, not, none, some, List, [], ◌∷◌, ◌==◌, unwrap_or, replicate,
  any, find, arith,
}
use meshtastenstein_rs.Packet.{
  Header, RadioFrame, broadcast_addr, encode, from_parts, frame_header, make_flags, new_frame,
  payload,
}
use meshtastenstein_rs.Packet.Codec.{IsHeader}
use meshtastenstein_rs.NodeDb.{NodeDb, get}
use meshtastenstein_rs.Router.{DeviceRole, get_next_hop}
use meshtastenstein_rs.Radio.Preset.{ModemPreset, display_name}
use meshtastenstein_rs.Channels.{
  default_primary, is_sentinel, effective_psk, xor_all, effective_name, hash, is_encrypted, present,
  is_enabled, is_primary, find_by_hash, primary_channel,
}
use meshtastenstein_rs.Crypto.{copy_psk, apply_keystream, crypt_packet}
use meshtastenstein_rs.Device.{DeviceState}
use meshtastenstein_rs.Message.{
  Data, Protocol, DecodedPayload, DecryptOutcome, TxBuilder, pkc_overhead, chosen_channel,
  pub_key_of, outgoing_header, data_of, decoded_payload, crypt_channel, seal_channel, seal_pkc,
  seal, build, derive_shared_key, encrypt_pkc, decrypt_pkc, is_pkc_candidate, open_pkc,
  open_payload, decode_opened, try_decrypt_and_decode,
}
use meshtastenstein_rs.Message.Pkc.{CcmLaw}
use meshtastenstein_rs.Message.Channel.{CodecLaw, build_received}
use meshtastenstein_rs.Message.Direct.{accepted_text_is_sealed, build_received_direct}

abbrev sender : DeviceState
sender = record {
  my_node_num = 7;
  mac = [];
  short_name = 65 ∷ [];
  long_name = 65 ∷ 66 ∷ [];
  hw_model = 43;
  role = DeviceRole.client;
  modem_preset = ModemPreset.long_fast;
  region = 3;
  use_preset = true;
  custom_sf = 11;
  custom_bw_hz = 250000;
  custom_cr = 5;
  channel_num = 0;
  default_hops = 3;
  tx_enabled = true;
  config_ok_to_mqtt = true;
  channels = some default_primary ∷ none ∷ none ∷ none ∷ none ∷ none ∷ none ∷ none ∷ [];
  packet_counter = 1;
}

abbrev receiver : DeviceState
receiver = record sender { my_node_num = 8 }

abbrev flood : TxBuilder
flood = record {
  dest = broadcast_addr;
  portnum = 1;
  inner_payload = 72 ∷ [];
  channel_idx = none;
  want_ack = true;
  want_response = false;
  request_id = 0;
  reply_id = 0;
  emoji = 0;
  hop_limit = none;
}

abbrev direct : TxBuilder
direct = record flood { dest = 8 }

-- the cryptographic crates as the simplest functions that keep their laws, for one message
abbrev protocol_for : Data → Protocol
protocol_for sent = record {
  stream = λ key nonce i. 85;
  public_of = λ key. key;
  diffie_hellman = λ a b. [];
  sha256 = λ bytes. bytes;
  ccm_encrypt = λ key nonce plaintext. some (plaintext, 1 ∷ 2 ∷ 3 ∷ 4 ∷ 5 ∷ 6 ∷ 7 ∷ 8 ∷ []);
  ccm_decrypt = λ key nonce ct tag. some ct;
  encode_data = λ d. 1 ∷ 2 ∷ [];
  decode_data = λ bytes. some sent;
  text_message_app = 1;
}

abbrev pair : ℕ → NodeDb ℕ ℕ
pair our = record {
  nodes =
      (record {
        node_num = 7;
        user = none;
        position_info = none;
        last_heard = 0;
        snr = none;
        hops_away = none;
        device_metrics = none;
        next_hop = 0;
        last_seen_ms = 0;
        pub_key = some (1 ∷ []);
        is_favorite = false;
        is_ignored = false;
        is_muted = false;
      })
      ∷ (record {
        node_num = 8;
        user = none;
        position_info = none;
        last_heard = 0;
        snr = none;
        hops_away = none;
        device_metrics = none;
        next_hop = 0;
        last_seen_ms = 0;
        pub_key = some (2 ∷ []);
        is_favorite = false;
        is_ignored = false;
        is_muted = false;
      })
      ∷ [];
  our_node_num = our;
  dirty = false;
}

abbrev p : Protocol
p = protocol_for (data_of flood sender)

abbrev channel_hash : ℕ
channel_hash = hash (display_name ModemPreset.long_fast) default_primary

abbrev flooded : RadioFrame
flooded = unwrap_or (build p flood sender (pair 7) 99 none) new_frame

flood-CodecLaw : CodecLaw p (data_of flood sender)
flood-CodecLaw = (λ key nonce i. omega arith, (omega arith, (omega arith, tt)), refl)

flood_channel : chosen_channel flood sender ≡ some default_primary
unfolding chosen_channel primary_channel present is_primary find
flood_channel = refl

flood_found :
    find_by_hash channel_hash (display_name receiver.modem_preset) receiver.channels
    ≡ some default_primary
unfolding find_by_hash present is_enabled find hash xor_all effective_name effective_psk is_sentinel
    display_name
flood_found = refl

flood-IsHeader : IsHeader (outgoing_header flood sender (pair 7) 99 channel_hash)
unfolding outgoing_header make_flags hash xor_all effective_name effective_psk is_sentinel
    display_name
flood-IsHeader = record {
  destination_u32 = omega arith;
  sender_u32 = omega arith;
  packet_id_u32 = omega arith;
  flags_u8 = omega arith;
  channel_index_u8 = omega arith;
  next_hop_u8 = omega arith;
  relay_node_u8 = omega arith;
}

flood_built : build p flood sender (pair 7) 99 none ≡ some flooded
unfolding build seal seal_channel crypt_channel chosen_channel primary_channel present is_primary
    find is_encrypted effective_psk is_sentinel copy_psk crypt_packet apply_keystream replicate
    from_parts
flood_built = refl

build_received_example :
    (header : Header) × (header ≡ outgoing_header flood sender (pair 7) 99 channel_hash)
    × (frame_header flooded ≡ some header)
    × (try_decrypt_and_decode p flooded header receiver (pair 8) []
        ≡ DecryptOutcome.decoded (decoded_payload (data_of flood sender) 0))
build_received_example =
    build_received p flood sender receiver (pair 7) (pair 8) 99 [] flooded default_primary
      default_primary flood-CodecLaw flood_channel flood_found (refl, refl) flood-IsHeader
      (λ e. absurd (omega (arith, e))) flood_built

abbrev q : Protocol
q = protocol_for (data_of direct sender)

q-CcmLaw : CcmLaw q
q-CcmLaw = λ key nonce plaintext ct tag e. (ground (arith, e), ground (arith, e), ground (arith, e))

-- the frame that is sealed for the receiver
abbrev sealed_frame : RadioFrame
sealed_frame = unwrap_or (build q direct sender (pair 7) 99 (some (1 ∷ [], 5))) new_frame

direct_knows : pub_key_of direct.dest (pair 7) ≡ some (2 ∷ [])
unfolding pub_key_of get find
direct_knows = refl

direct_known : pub_key_of sender.my_node_num (pair 8) ≡ some (1 ∷ [])
unfolding pub_key_of get find
direct_known = refl

receiver_has_key : any (λ b. not (b == 0)) (2 ∷ []) ≡ true
unfolding any
receiver_has_key = refl

direct-IsHeader : IsHeader (outgoing_header direct sender (pair 7) 99 0)
unfolding outgoing_header make_flags get_next_hop get find
direct-IsHeader = record {
  destination_u32 = omega arith;
  sender_u32 = omega arith;
  packet_id_u32 = omega arith;
  flags_u8 = omega arith;
  channel_index_u8 = omega arith;
  next_hop_u8 = omega arith;
  relay_node_u8 = omega arith;
}

direct_built : build q direct sender (pair 7) 99 (some (1 ∷ [], 5)) ≡ some sealed_frame
unfolding build seal seal_pkc pub_key_of get find encrypt_pkc derive_shared_key replicate from_parts
direct_built = refl

build_received_direct_example :
    (header : Header) × (index : ℕ) × (header ≡ outgoing_header direct sender (pair 7) 99 0)
    × (frame_header sealed_frame ≡ some header)
    × (try_decrypt_and_decode q sealed_frame header receiver (pair 8) (2 ∷ [])
        ≡ DecryptOutcome.decoded (decoded_payload (data_of direct sender) index))
build_received_direct_example =
    build_received_direct q direct sender receiver (pair 7) (pair 8) 99 5 (1 ∷ []) (2 ∷ [])
      sealed_frame q-CcmLaw (λ a b. refl, refl) direct_knows direct_known receiver_has_key refl
      (omega arith) (omega arith) direct-IsHeader direct_built

abbrev wire : List ℕ
wire = replicate (2 + pkc_overhead) 0

abbrev sealed_bytes : List ℕ
sealed_bytes = 1 ∷ 2 ∷ 1 ∷ 2 ∷ 3 ∷ 4 ∷ 5 ∷ 6 ∷ 7 ∷ 8 ∷ 5 ∷ 0 ∷ 0 ∷ 0 ∷ []

sealed_well : encrypt_pkc q (9 ∷ []) 99 7 5 (1 ∷ 2 ∷ []) wire ≡ inr (sealed_bytes, 14)
unfolding encrypt_pkc replicate
sealed_well = refl

abbrev direct_header : Header
direct_header = outgoing_header direct sender (pair 7) 99 0

abbrev text_message : DecodedPayload
text_message = decoded_payload (data_of direct sender) 0

text_decoded :
    try_decrypt_and_decode q sealed_frame direct_header receiver (pair 8) (2 ∷ [])
    ≡ DecryptOutcome.decoded text_message
unfolding try_decrypt_and_decode is_pkc_candidate open_pkc open_payload decode_opened pub_key_of get
    find decrypt_pkc encrypt_pkc derive_shared_key replicate payload outgoing_header from_parts any
    find_by_hash present is_enabled hash xor_all effective_name effective_psk is_sentinel
    display_name build seal seal_pkc decoded_payload data_of encode
text_decoded = refl

accepted_text_is_sealed_example :
    (is_pkc_candidate q direct_header 8 (payload sealed_frame) (2 ∷ []) ≡ true)
    × ((key : List ℕ) × (plaintext : List ℕ) × (pub_key_of direct_header.sender (pair 8) ≡ some key)
        × (open_pkc q direct_header (payload sealed_frame) (2 ∷ []) (some key) ≡ some plaintext))
unfolding outgoing_header decoded_payload data_of
accepted_text_is_sealed_example =
    accepted_text_is_sealed q sealed_frame direct_header receiver (pair 8) (2 ∷ []) text_message
      text_decoded refl refl
