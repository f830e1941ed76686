-- ===== src/Mesh/Phone.antt =====
-- A message from the phone: `dispatch` of
-- meshtastenstein-core/src/domain/handlers/from_app/mod.rs.
use meshtastenstein_rs.Base.{ℕ, true, false, none, some, List, ◌==◌, if◌then◌else◌, length}
use meshtastenstein_rs.Packet.{broadcast_addr}
use meshtastenstein_rs.Storage.{Flash}
use meshtastenstein_rs.Proto.{FromRadio, ToRadio, Wire}
use meshtastenstein_rs.Mesh.{Moment, MeshCtx}
use meshtastenstein_rs.Mesh.Send.{push_from_radio, send_nodeinfo}
use meshtastenstein_rs.Mesh.Transmit.{transmit_from_ble_packet}
use meshtastenstein_rs.Mesh.Exchange.{
  send_config_exchange, send_nodeinfo_exchange, replay_stored_frames,
}

-- constants.rs
abbrev pub special_nonce_only_nodes : ℕ
special_nonce_only_nodes = 69421

module _ {P M F : Type 0} (w : Wire P M) (nor : Flash F) (t : Moment) where
  unfoldable pub handle_want_config : ℕ → MeshCtx P M F → MeshCtx P M F
  handle_want_config id ctx = replay_stored_frames w nor (
      if id == special_nonce_only_nodes
      then send_nodeinfo_exchange w id ctx
      else send_config_exchange w id ctx)

  -- `free` is what `tx_to_lora.free_capacity()` gives
  unfoldable pub handle_heartbeat : ℕ → ℕ → MeshCtx P M F → MeshCtx P M F
  handle_heartbeat free nonce ctx =
      if nonce == 1
      then send_nodeinfo w broadcast_addr false ctx
      else push_from_radio w (FromRadio.queue_status free) ctx

  unfoldable pub handle_to_radio : ℕ → ToRadio → MeshCtx P M F → MeshCtx P M F
  handle_to_radio free (ToRadio.packet pkt) ctx = transmit_from_ble_packet w nor t pkt ctx
  handle_to_radio free (ToRadio.want_config_id id) ctx = handle_want_config id ctx
  handle_to_radio free (ToRadio.heartbeat nonce) ctx = handle_heartbeat free nonce ctx
  handle_to_radio free ToRadio.disconnect ctx = record ctx { disconnect = true }
  handle_to_radio free ToRadio.other ctx = ctx

  unfoldable pub from_app : ℕ → List ℕ → MeshCtx P M F → MeshCtx P M F
  from_app free bytes ctx = if length bytes == 0 then ctx else elim (w.decode_to_radio bytes) [
    | none ↦ ctx
    | some message ↦ handle_to_radio free message ctx
  ]
