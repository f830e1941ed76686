-- ===== src/Mesh/Tests.antt =====
-- Runs of the node: of its loop, of the handlers of the radio and of the phone.
mod Node
use meshtastenstein_rs.Base.{
  ℕ, ◌≡◌, ◌≢◌, ◌≤◌, ◌⊎◌, refl, true, false, none, some, List, [], ◌∷◌, ◌==◌, if◌then◌else◌,
  unwrap_or, replicate, length-replicate, find, any, in_order, arith,
}
use meshtastenstein_rs.Packet.{
  max_lora_payload_len, Header, RadioFrame, broadcast_addr, encode, from_parts, frame_header,
  decode, new_frame, payload,
}
use meshtastenstein_rs.NodeDb.{blank_entry, new_db, get}
use meshtastenstein_rs.NodeDb.Invariant.{Reachable, Reachable-IsNodeDb}
use meshtastenstein_rs.Router.{DeviceRole, MeshRouter, new_router}
use meshtastenstein_rs.Router.History.{IsHistory, seen, is_seen, new_router-IsHistory}
use meshtastenstein_rs.Router.Flooding.{should_filter_received-seen}
use meshtastenstein_rs.Router.Memory.{Reception, receive_all, new_is_remembered}
use meshtastenstein_rs.Channels.{
  default_primary, is_sentinel, effective_psk, xor_all, effective_name, hash, is_encrypted, present,
  is_enabled, find_by_hash,
}
use meshtastenstein_rs.Crypto.{copy_psk, apply_keystream, crypt_packet}
use meshtastenstein_rs.Radio.{Region}
use meshtastenstein_rs.Radio.Preset.{ModemPreset, display_name}
use meshtastenstein_rs.Device.{DeviceState}
use meshtastenstein_rs.Message.{
  Data, DecryptOutcome, decoded_payload, is_pkc_candidate, open_pkc, open_channel, crypt_channel,
  open_payload, decode_opened, try_decrypt_and_decode,
}
use meshtastenstein_rs.Storage.{Flash, add, clear}
use meshtastenstein_rs.Proto.{
  AdminMessage, AdminRequest, PortNum, RoutingError, MeshPacket, LoRaConfig, Floats, Wire, ToRadio,
}
use meshtastenstein_rs.Mesh.{Moment, MeshCtx}
use meshtastenstein_rs.Mesh.Admin.{handle_request, admin_dispatch}
use meshtastenstein_rs.Mesh.Admin.Locked.{IsUnlocking, remote_command_needs_key}
use meshtastenstein_rs.Mesh.Settings.{apply_lora}
use meshtastenstein_rs.Mesh.Settings.Bounds.{Clamped, apply_lora_in_range}
use meshtastenstein_rs.Mesh.Receive.{RadioMetadata, receive}
use meshtastenstein_rs.Mesh.Receive.Quiet.{OnlyRelays, receive-dropped, receive-known}
use meshtastenstein_rs.Mesh.Transmit.{
  is_local_admin, chosen_id, prepared, send_built, transmit_from_ble_packet,
}
use meshtastenstein_rs.Mesh.Transmit.Told.{outcome}
use meshtastenstein_rs.Mesh.Transmit.Outcome.{
  SealedFor, is_tracked, origin, entry_for, pkc_is_not_downgraded, tracked_or_confirmed,
}
use meshtastenstein_rs.Mesh.Orchestrator.{MeshEvent, Wake, Orchestrator}
use meshtastenstein_rs.Mesh.Core.{Good, core}
use meshtastenstein_rs.Mesh.Invariant.Run.{run}
use meshtastenstein_rs.Mesh.Invariant.Start.{started_run-Good}
use meshtastenstein_rs.Mesh.Boot.{new_mesh_state, announce}
use meshtastenstein_rs.Mesh.Tests.Node.{
  text, asked, port, code, quiet_floats, wire, no_flash, moment, this_device, node_with, idle, call,
  framed, signal,
}

abbrev mac_address : List ℕ
mac_address = 0 ∷ 0 ∷ 1 ∷ 2 ∷ 3 ∷ 4 ∷ []

abbrev a_day : List (Moment × Wake)
a_day =
    (moment, Wake.event MeshEvent.ble_connected)
    ∷ (moment, Wake.event (MeshEvent.lora_rx (framed call) signal))
    ∷ (moment, Wake.rebroadcast_due)
    ∷ (moment, Wake.event (MeshEvent.ble_rx 5 []))
    ∷ (moment, Wake.event MeshEvent.tick)
    ∷ (moment, Wake.retransmission_due (λ i. 4000))
    ∷ []

started_run-Good_example :
    Good
      (run wire no_flash
        (λ l. l)
        a_day
        (announce wire no_flash moment (
          new_mesh_state wire no_flash ModemPreset.long_fast mac_address idle.storage
            ([], [])
            0))).ctx
started_run-Good_example =
    started_run-Good wire no_flash (λ l. l) ModemPreset.long_fast mac_address idle.storage ([], [])
      0 moment a_day

abbrev first_call : Reception
first_call = record {
  sender = 5;
  packet_id = 100;
  hop_limit = 2;
  relay_node = 8;
  pending = none;
  role = DeviceRole.client;
}

abbrev knowing : MeshCtx ℕ ℕ (List ℕ)
knowing = node_with (receive_all (first_call ∷ []) (new_router 7))

knowing-IsHistory : IsHistory knowing.router
unfolding receive_all meshtastenstein_rs.Router.Memory.receive
knowing-IsHistory =
    (should_filter_received-seen 5 100 2 8 none DeviceRole.client (new_router 7)
      (new_router-IsHistory 7)).0

nothing_seen : is_seen 5 100 (new_router 7) ≡ false
unfolding seen new_router replicate in_order any
nothing_seen = refl

call_known : is_seen 5 100 knowing.router ≡ true
unfolding receive_all
call_known =
    new_is_remembered first_call [] (new_router 7) (new_router-IsHistory 7) nothing_seen
      (omega arith)

call_read : frame_header (framed call) ≡ some call
unfolding frame_header decode encode replicate from_parts hash xor_all effective_name effective_psk
    is_sentinel display_name
call_read = refl

call_decoded :
    try_decrypt_and_decode wire.protocol (framed call) call this_device knowing.node_db []
    ≡ DecryptOutcome.decoded (decoded_payload text 0)
unfolding try_decrypt_and_decode is_pkc_candidate open_payload decode_opened get find payload
    replicate from_parts any find_by_hash present is_enabled hash xor_all effective_name
    effective_psk is_sentinel display_name decoded_payload encode is_encrypted copy_psk crypt_packet
    apply_keystream open_pkc open_channel crypt_channel
call_decoded = refl

receive-known_example :
    OnlyRelays knowing (receive wire no_flash moment (framed call) signal knowing)
receive-known_example =
    receive-known wire no_flash moment (framed call) call signal (decoded_payload text 0) knowing
      call_read (λ e. absurd (omega (arith, e))) call_decoded knowing-IsHistory call_known

-- the text for this node alone, which is not sealed with a key
abbrev unsealed : Header
unsealed = record call { destination = 7 }

unsealed_read : frame_header (framed unsealed) ≡ some unsealed
unfolding frame_header decode encode replicate from_parts hash xor_all effective_name effective_psk
    is_sentinel display_name
unsealed_read = refl

unsealed_dropped :
    try_decrypt_and_decode wire.protocol (framed unsealed) unsealed this_device idle.node_db []
    ≡ DecryptOutcome.dropped
unfolding try_decrypt_and_decode is_pkc_candidate open_payload decode_opened get find payload
    replicate from_parts any find_by_hash present is_enabled hash xor_all effective_name
    effective_psk is_sentinel display_name decoded_payload encode is_encrypted copy_psk crypt_packet
    apply_keystream open_pkc open_channel crypt_channel
unsealed_dropped = refl

receive-dropped_example :
    OnlyRelays idle (receive wire no_flash moment (framed unsealed) signal idle)
    × (seen (receive wire no_flash moment (framed unsealed) signal idle).router
        ≡ seen (new_router 7))
    × ((unsealed.destination ≢ this_device.my_node_num)
        ⊎ (receive wire no_flash moment (framed unsealed) signal idle ≡ idle))
receive-dropped_example =
    receive-dropped wire no_flash moment (framed unsealed) unsealed signal idle unsealed_read
      (λ e. absurd (omega (arith, e))) unsealed_dropped

pkc_is_not_downgraded_example :
    ((transmit_from_ble_packet wire no_flash moment asked idle).to_lora ≡ [])
    ⊎ SealedFor wire moment asked text
        (chosen_id asked this_device)
        (prepared wire asked text idle)
        (transmit_from_ble_packet wire no_flash moment asked idle)
unfolding is_local_admin
pkc_is_not_downgraded_example =
    pkc_is_not_downgraded wire no_flash moment asked text idle refl refl refl

tracked_or_confirmed_example :
    ((send_built wire moment asked text 40 new_frame idle).to_lora ≡ new_frame ∷ [])
    × ((send_built wire moment asked text 40 new_frame idle).pending_packets ≡ (
        if is_tracked wire asked text idle
        then entry_for moment asked 40 new_frame idle ∷ []
        else []))
    × ((send_built wire moment asked text 40 new_frame idle).to_phone ≡ (
        if is_tracked wire asked text idle
        then []
        else outcome wire (origin asked idle) 40 RoutingError.no_error idle ∷ []))
tracked_or_confirmed_example =
    tracked_or_confirmed wire moment asked text 40 new_frame idle (omega arith)

-- the node with two others in its database
abbrev acquainted : MeshCtx ℕ ℕ (List ℕ)
acquainted = record idle {
  node_db = record { nodes = blank_entry 5 ∷ blank_entry 9 ∷ []; our_node_num = 7; dirty = false };
}

abbrev extreme : LoRaConfig
extreme = record {
  use_preset = false;
  modem_preset = 0;
  region = 3;
  hop_limit = 255;
  tx_enabled = true;
  config_ok_to_mqtt = false;
  spread_factor = 200;
  bandwidth = 0;
  coding_rate = 3;
  channel_num = 0;
  tx_power = 30;
}

apply_lora_in_range_example :
    (5 ≤ (apply_lora wire extreme this_device).custom_sf)
    × ((apply_lora wire extreme this_device).custom_sf ≤ 12)
    × Clamped 5 12 11 200 (apply_lora wire extreme this_device).custom_sf
    × (4 ≤ (apply_lora wire extreme this_device).custom_cr)
    × ((apply_lora wire extreme this_device).custom_cr ≤ 8)
    × Clamped 4 8 5 3 (apply_lora wire extreme this_device).custom_cr
    × ((apply_lora wire extreme this_device).custom_bw_hz ≢ 0)
    × ((apply_lora wire extreme this_device).default_hops ≤ 7)
    × ((apply_lora wire extreme this_device).default_hops ≡ 7)
apply_lora_in_range_example = apply_lora_in_range wire extreme this_device

-- the node with one frame in its buffer
abbrev keeping : MeshCtx ℕ ℕ (List ℕ)
keeping = record idle { storage = add no_flash (framed call) (clear no_flash idle.storage) }

-- the wire on which a command is its key, and asks for a reboot
abbrev admin_wire : Wire ℕ ℕ
admin_wire = record wire {
  decode_admin = λ bytes.
      some (record { session_passkey = bytes; payload_variant = AdminRequest.reboot_seconds 5 });
}

-- the node with a session of half a second
abbrev in_session : MeshCtx ℕ ℕ (List ℕ)
in_session = record idle {
  session_passkey = some (record { key = 1 ∷ 2 ∷ 3 ∷ 4 ∷ 5 ∷ 6 ∷ 7 ∷ 8 ∷ []; issued_at = 500 });
}

-- A command with another key.
remote_command_needs_key_example :
    ((msg : AdminMessage ℕ) × IsUnlocking admin_wire moment (9 ∷ []) in_session msg
      × (admin_dispatch admin_wire no_flash moment 5 40 (9 ∷ []) true in_session
          ≡ handle_request admin_wire no_flash moment 5 40 true msg.payload_variant in_session))
    ⊎ ((¬ ((msg : AdminMessage ℕ) × IsUnlocking admin_wire moment (9 ∷ []) in_session msg))
        × (admin_dispatch admin_wire no_flash moment 5 40 (9 ∷ []) true in_session ≡ in_session))
remote_command_needs_key_example =
    remote_command_needs_key admin_wire no_flash moment 5 40 (9 ∷ []) in_session
