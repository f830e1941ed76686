-- ===== src/Message/Direct.antt =====
-- Messages sealed for one node: they reach it, and no other text message to it is accepted.
use meshtastenstein_rs.Base.{
  ℕ, ◌+◌, ◌-◌, ◌^◌, ◌≡◌, ◌≢◌, ◌≤◌, ◌<◌, refl, ap, sym, ◌∙◌, Bool, true, false, ◌&&◌, not, ◌⊎◌, inl,
  inr, Option, none, some, List, ◌==◌, ltb, if◌then◌else◌, unwrap_or, map_some, length, take,
  replicate, any, arith,
}
use meshtastenstein_rs.Packet.{
  Header, RadioFrame, payload, from_parts, frame_header, max_lora_payload_len, header_size,
}
use meshtastenstein_rs.Packet.Codec.{IsHeader}
use meshtastenstein_rs.Packet.Frame.{from_parts_reads, from_parts_fits}
use meshtastenstein_rs.NodeDb.{NodeDb}
use meshtastenstein_rs.Channels.{ChannelConfig, find_by_hash}
use meshtastenstein_rs.Radio.Preset.{display_name}
use meshtastenstein_rs.Device.{DeviceState}
use meshtastenstein_rs.Message.Pkc.{CcmLaw, skipped, not_ltb, decrypt_pkc-encrypt_pkc}
use meshtastenstein_rs.Message.Channel.{used}
use meshtastenstein_rs.Message.{
  Data, Protocol, DecodedPayload, DecryptOutcome, PkcError, TxBuilder, pkc_overhead, pub_key_of,
  derive_shared_key, encrypt_pkc, decrypt_pkc, outgoing_header, data_of, decoded_payload,
  final_undecoded_outcome, seal_pkc, seal, build, is_pkc_candidate, open_pkc, open_payload,
  decode_opened, try_decrypt_and_decode,
}

-- What X25519 promises, and that decoding the message undoes its encoding.
abbrev pub DirectLaw : Protocol → Data → Type 0
DirectLaw p d =
    ((a b : List ℕ) → p.diffie_hellman a (p.public_of b) ≡ p.diffie_hellman b (p.public_of a))
    × (p.decode_data (p.encode_data d) ≡ some d)

undecoded :
    (unicast : Bool) (header : Header) (key : Option (List ℕ)) (m : DecodedPayload)
    → final_undecoded_outcome unicast header key ≢ DecryptOutcome.decoded m
unfolding final_undecoded_outcome
undecoded unicast header key m e = absurd (ground (arith, e))

accepted_sealed :
    (o : Option Data) (failed : DecryptOutcome) (text : ℕ) (unicast sealed : Bool) (index : ℕ)
    (m : DecodedPayload)
    → (failed ≢ DecryptOutcome.decoded m)
    → (let r : DecryptOutcome = elim o [
      | none ↦ failed
      | some d ↦
          if d.portnum == text && (unicast && not sealed)
          then DecryptOutcome.dropped
          else DecryptOutcome.decoded (decoded_payload d index)
    ] in
        r)
      ≡ DecryptOutcome.decoded m
    → unicast ≡ true
    → m.portnum ≡ text
    → sealed ≡ true
unfolding decoded_payload
accepted_sealed none failed text unicast sealed index m never e us is_text = absurd (never e)
accepted_sealed (some d) failed text unicast true index m never e us is_text = refl
accepted_sealed (some d) failed text unicast false index m never e us is_text =
    absurd (ground (arith, e, us, is_text))

same_number : (m n : ℕ) → m ≡ n → (m == n) ≡ true
same_number m n e = ground (arith, e)

gated {ℓ} :
    {A : Type ℓ} (c : Bool) (o : Option A) (a : A)
    → (if c then o else none) ≡ some a
    → (c ≡ true) × (o ≡ some a)
gated true o a e = (refl, e)
gated false o a e = absurd (ground (arith, e))

module _ (p : Protocol) where
  open_payload_sealed :
      (channel : Option ChannelConfig) (header : Header) (raw : List ℕ) (o : Option (List ℕ))
      → (open_payload p channel header raw o).1 ≡ true
      → (plaintext : List ℕ) × (o ≡ some plaintext)
  unfolding open_payload
  open_payload_sealed channel header raw none e = absurd (ground (arith, e))
  open_payload_sealed channel header raw (some plaintext) e = (plaintext, refl)

  open_pkc_key :
      (header : Header) (raw pkc_priv_bytes plaintext : List ℕ) (key : Option (List ℕ))
      → open_pkc p header raw pkc_priv_bytes key ≡ some plaintext
      → (k : List ℕ) × (key ≡ some k)
        × (open_pkc p header raw pkc_priv_bytes (some k) ≡ some plaintext)
  unfolding open_pkc
  open_pkc_key header raw pkc_priv_bytes plaintext none e = absurd (ground (arith, e))
  open_pkc_key header raw pkc_priv_bytes plaintext (some k) e = (k, refl, e)

  -- a decoded text message to us was opened with the sender's key
  opened_sealed :
      (unicast sealed : Bool) (header : Header) (key opened : Option (List ℕ)) (index : ℕ)
      (m : DecodedPayload)
      → decode_opened p unicast header key index opened sealed ≡ DecryptOutcome.decoded m
      → unicast ≡ true
      → m.portnum ≡ p.text_message_app
      → sealed ≡ true
  unfolding decode_opened final_undecoded_outcome decoded_payload
  opened_sealed unicast sealed header key none index m e us text = absurd (ground (arith, e))
  opened_sealed unicast sealed header key (some bytes) index m e us text =
      accepted_sealed (p.decode_data bytes) (final_undecoded_outcome unicast header key)
        p.text_message_app unicast sealed index m (λ f. absurd (undecoded unicast header key m f)) e
        us text

  -- A text message that is addressed to this node is accepted only when it was sealed: it is a
  -- candidate, the sender's key is known and opened it. One that only a channel's key opens is not.
  pub accepted_text_is_sealed :
      {P M : Type 0} (frame : RadioFrame) (header : Header) (device : DeviceState) (db : NodeDb P M)
      (pkc_priv_bytes : List ℕ) (m : DecodedPayload)
      → try_decrypt_and_decode p frame header device db pkc_priv_bytes ≡ DecryptOutcome.decoded m
      → header.destination ≡ device.my_node_num
      → m.portnum ≡ p.text_message_app
      → (is_pkc_candidate p header device.my_node_num (payload frame) pkc_priv_bytes ≡ true)
        × ((key : List ℕ) × (plaintext : List ℕ) × (pub_key_of header.sender db ≡ some key)
            × (open_pkc p header (payload frame) pkc_priv_bytes (some key) ≡ some plaintext))
  unfolding try_decrypt_and_decode
  accepted_text_is_sealed frame header device db pkc_priv_bytes m e us text =
      let raw : List ℕ = payload frame in
      let channel : Option ChannelConfig =
        find_by_hash header.channel_index (display_name device.modem_preset) device.channels in
      let index : ℕ = unwrap_or (map_some {A = ChannelConfig} {B = ℕ} (λ c. c.index) channel) 0 in
      let key : Option (List ℕ) =
        if is_pkc_candidate p header device.my_node_num raw pkc_priv_bytes
        then pub_key_of header.sender db
        else none in
      let o : Option (List ℕ) × Bool =
        open_payload p channel header raw (open_pkc p header raw pkc_priv_bytes key) in
      let unicast : (header.destination == device.my_node_num) ≡ true =
        same_number header.destination device.my_node_num us in
      let sealed =
        opened_sealed (header.destination == device.my_node_num) o.1 header key o.0 index m e
          unicast text in
      let (plaintext, opened) =
        open_payload_sealed channel header raw (open_pkc p header raw pkc_priv_bytes key) sealed in
      let (k, known, opens) = open_pkc_key header raw pkc_priv_bytes plaintext key opened in
      let (candidate, stored) =
        gated (is_pkc_candidate p header device.my_node_num raw pkc_priv_bytes)
          (pub_key_of header.sender db) k known in
      (candidate, (k, plaintext, stored, opens))

sent_bytes :
    (r : PkcError ⊎ (List ℕ × ℕ)) (wire : List ℕ)
    → (let o : Option (List ℕ) = elim r [
      | inl e ↦ none
      | inr (buf, written) ↦ some (take written buf)
    ] in
        o)
      ≡ some wire
    → (buf : List ℕ) × (n : ℕ) × (r ≡ inr (buf, n)) × (take n buf ≡ wire)
sent_bytes (inl e) wire h = absurd (ground (arith, h))
sent_bytes (inr (buf, n)) wire h = (buf, n, refl, ground (arith, h))

sealed_text : (b : Bool) → (b && (true && not true)) ≡ false
sealed_text true = refl
sealed_text false = refl

longer :
    (raw : List ℕ)
    → {n : ℕ} → length raw ≡ n + pkc_overhead
    → 0 < n
    → ltb pkc_overhead (length raw) ≡ true
longer raw {n} e h = ground (arith, e, h)

module _ (p : Protocol) where
  sealed_from :
      {P M : Type 0} (tx : TxBuilder) (device : DeviceState) (db : NodeDb P M)
      (packet_id extra_nonce : ℕ) (priv_bytes peer : List ℕ) (frame : RadioFrame)
      → pub_key_of tx.dest db ≡ some peer
      → build p tx device db packet_id (some (priv_bytes, extra_nonce)) ≡ some frame
      → (buf : List ℕ) × (n : ℕ) × (encrypt_pkc p
            (derive_shared_key p priv_bytes peer)
            packet_id
            device.my_node_num
            extra_nonce
            (p.encode_data (data_of tx device))
            (replicate (length (p.encode_data (data_of tx device)) + pkc_overhead) 0)
          ≡ inr (buf, n))
        × (from_parts (outgoing_header tx device db packet_id 0) (take n buf) ≡ some frame)
  unfolding build seal seal_pkc
  sealed_from tx device db packet_id extra_nonce priv_bytes peer frame known e =
      let plain : List ℕ = p.encode_data (data_of tx device) in
      let with_key : Option (List ℕ) → Option (List ℕ) = λ k. elim k [
        | none ↦ none
        | some key ↦
            elim (encrypt_pkc p (derive_shared_key p priv_bytes key) packet_id device.my_node_num
              extra_nonce plain (replicate (length plain + pkc_overhead) 0)) [
                | inl e ↦ none
                | inr (buf, written) ↦ some (take written buf)
              ]
      ] in
      let framed : List ℕ → Option RadioFrame =
        from_parts (outgoing_header tx device db packet_id 0) in
      let (wire, is_wire, is_frame) = used (with_key (pub_key_of tx.dest db)) framed frame e in
      let (buf, n, enc, is_it) =
        sent_bytes
          (encrypt_pkc p (derive_shared_key p priv_bytes peer) packet_id device.my_node_num
            extra_nonce plain (replicate (length plain + pkc_overhead) 0))
          wire (sym (ap with_key known) ∙ is_wire) in
      (buf, n, enc, ap framed is_it ∙ is_frame)

  decode_sealed :
      (header : Header) (key : Option (List ℕ)) (bytes : List ℕ) (index : ℕ) (d : Data)
      → p.decode_data bytes ≡ some d
      → decode_opened p true header key index (some bytes) true
        ≡ DecryptOutcome.decoded (decoded_payload d index)
  unfolding decode_opened
  decode_sealed header key bytes index d is_data =
      rw (is_data, decode_opened) (rw (sealed_text (d.portnum == p.text_message_app)))

  open_with_key :
      (header : Header) (raw priv plaintext key : List ℕ)
      → length raw ≡ length plaintext + pkc_overhead
      → length plaintext ≤ 256
      → decrypt_pkc p
          (derive_shared_key p priv key)
          header.packet_id
          header.sender
          raw
          (length plaintext)
        ≡ inr plaintext
      → open_pkc p header raw priv (some key) ≡ some plaintext
  unfolding open_pkc
  open_with_key header raw priv plaintext key size small d =
      let body : length raw - pkc_overhead ≡ length plaintext = omega (arith, size) in
      let here =
        ap (decrypt_pkc p (derive_shared_key p priv key) header.packet_id header.sender raw) body
        ∙ d in
      skipped _ _ (not_ltb 256 (length raw - pkc_overhead) (omega (arith, body, small))) ∙ rw (here)

  -- A message that is sealed for a node and fits a frame reaches it: the node, if it has the
  -- sender's public key, decodes the frame to the message that was built.
  pub build_received_direct :
      {P M : Type 0} (tx : TxBuilder) (device receiver : DeviceState) (db other_db : NodeDb P M)
      (packet_id extra_nonce : ℕ) (priv_bytes other_priv : List ℕ) (frame : RadioFrame)
      → CcmLaw p
      → DirectLaw p (data_of tx device)
      → pub_key_of tx.dest db ≡ some (p.public_of other_priv)
      → pub_key_of device.my_node_num other_db ≡ some (p.public_of priv_bytes)
      → any (λ b. not (b == 0)) other_priv ≡ true
      → receiver.my_node_num ≡ tx.dest
      → 0 < length (p.encode_data (data_of tx device))
      → extra_nonce < 2 ^ 32
      → IsHeader (outgoing_header tx device db packet_id 0)
      → build p tx device db packet_id (some (priv_bytes, extra_nonce)) ≡ some frame
      → (header : Header) × (index : ℕ) × (header ≡ outgoing_header tx device db packet_id 0)
        × (frame_header frame ≡ some header)
        × (try_decrypt_and_decode p frame header receiver other_db other_priv
            ≡ DecryptOutcome.decoded (decoded_payload (data_of tx device) index))
  unfolding try_decrypt_and_decode is_pkc_candidate open_payload outgoing_header derive_shared_key
  build_received_direct tx device receiver db other_db packet_id extra_nonce priv_bytes other_priv
        frame ccm law knows known has_key addressed full small v e =
      let header : Header = outgoing_header tx device db packet_id 0 in
      let plain : List ℕ = p.encode_data (data_of tx device) in
      let (buf, n, enc, framed) =
        sealed_from tx device db packet_id extra_nonce priv_bytes (p.public_of other_priv) frame
          knows e in
      let wire : List ℕ = take n buf in
      let (size, dec) =
        decrypt_pkc-encrypt_pkc p ccm (derive_shared_key p priv_bytes (p.public_of other_priv))
          plain buf packet_id device.my_node_num extra_nonce n small enc in
      let (_, head, body, _) = from_parts_reads header wire frame v framed in
      let fits : header_size + length wire ≤ max_lora_payload_len =
        from_parts_fits header wire frame framed in
      let same_key : derive_shared_key p other_priv (p.public_of priv_bytes)
          ≡ derive_shared_key p priv_bytes (p.public_of other_priv) =
        ap p.sha256 (law.0 other_priv priv_bytes) in
      let dec_back : decrypt_pkc p (derive_shared_key p other_priv (p.public_of priv_bytes))
            packet_id device.my_node_num wire (length plain)
          ≡ inr plain =
        ap (λ k. decrypt_pkc p k packet_id device.my_node_num wire (length plain)) same_key ∙ dec in
      let opened : open_pkc p header (payload frame) other_priv (some (p.public_of priv_bytes))
          ≡ some plain =
        ap (λ raw. open_pkc p header raw other_priv (some (p.public_of priv_bytes))) body
        ∙ open_with_key header wire other_priv plain (p.public_of priv_bytes) size
            (omega (arith, fits, size)) dec_back in
      let unicast : (tx.dest == receiver.my_node_num) ≡ true =
        same_number tx.dest receiver.my_node_num (sym addressed) in
      let long : ltb pkc_overhead (length (payload frame)) ≡ true =
        longer (payload frame) (ap length body ∙ size) full in
      let index : ℕ =
        unwrap_or
          (map_some {A = ChannelConfig} {B = ℕ} (λ c. c.index)
            (find_by_hash 0 (display_name receiver.modem_preset) receiver.channels))
          0 in
      (
        header,
        index,
        refl,
        head,
        rw (unicast, long, has_key, known, opened)
            (decode_sealed header (some (p.public_of priv_bytes)) plain index (data_of tx device)
              law.1),
      )
