-- ===== src/Mesh.antt =====
-- The node as the mesh orchestrator sees it: `MeshCtx` and the transmit gates of
-- meshtastenstein-core/src/domain/context.rs.
pub mod Send
pub mod Settings
pub mod Admin
pub mod Ports
pub mod Receive
pub mod Transmit
pub mod Exchange
pub mod Phone
pub mod Periodic
pub mod Orchestrator
pub mod Boot
pub mod Core
pub mod Invariant
mod Tests
use meshtastenstein_rs.Base.{ℕ, ◌*◌, Bool, true, false, ◌&&◌, Option, List, if◌then◌else◌}
use meshtastenstein_rs.Packet.{Header, RadioFrame}
use meshtastenstein_rs.NodeDb.{User, NodeDb}
use meshtastenstein_rs.Router.{DeviceRole, MeshRouter}
use meshtastenstein_rs.Router.Reliable.{PendingPacket}
use meshtastenstein_rs.Relay.{PendingRebroadcast}
use meshtastenstein_rs.Radio.{Region, duty_cycle_tenths}
use meshtastenstein_rs.Device.{DeviceState}
use meshtastenstein_rs.Session.{SessionPasskey}
use meshtastenstein_rs.Proto.{FromRadioMessage, Floats}
use meshtastenstein_rs.Storage.{Flash, NvsStorage}

-- constants.rs
abbrev pub ble_tx_queue_size : ℕ
ble_tx_queue_size = 64

abbrev pub lora_tx_queue_size : ℕ
lora_tx_queue_size = 5

-- the capacity of `my_position_bytes`
abbrev pub position_capacity : ℕ
position_capacity = 64

-- `ChannelMetrics`
pub record ChannelMetrics : Type 0 where
  pub channel_util : ℕ
  pub air_util_tx : ℕ

module _ (f : Floats) (m : ChannelMetrics) where
  unfoldable pub is_tx_allowed_channel_util : Bool → Bool
  is_tx_allowed_channel_util polite =
      f.lt m.channel_util (if polite then f.polite_channel_util_pct else f.max_channel_util_pct)

  unfoldable pub is_tx_allowed_air_util : Region → Bool → Bool
  is_tx_allowed_air_util region polite =
      let ceiling = f.of_tenths (duty_cycle_tenths region) in
      f.lt m.air_util_tx (if polite then f.mul ceiling f.polite_duty_cycle_fraction else ceiling)

  unfoldable pub tx_allowed_polite : Region → Bool
  tx_allowed_polite region = is_tx_allowed_channel_util true && is_tx_allowed_air_util region true

  unfoldable pub tx_allowed_impolite : Region → Bool
  tx_allowed_impolite region =
      is_tx_allowed_channel_util false && is_tx_allowed_air_util region false

-- What is read while one event is handled: the clock in milliseconds, the jittered delay of a
-- rebroadcast, and three random numbers.
pub record Moment : Type 0 where
  pub now : ℕ
  pub delay : ℕ
  pub extra_nonce : ℕ
  pub random_low : ℕ
  pub random_high : ℕ

-- `MeshCtx`. `to_phone` and `to_lora` are all that was put in the queues `tx_to_ble` and
-- `tx_to_lora`, `ble_free` the places left in the first; the radio's queue waits until it has a
-- place.
pub record MeshCtx (P M F : Type 0) : Type 0 where
  pub device : DeviceState
  pub node_db : NodeDb P M
  pub storage : NvsStorage F
  pub router : MeshRouter
  pub pending_packets : List PendingPacket
  pub pending_rebroadcast : List PendingRebroadcast
  pub my_position_bytes : List ℕ
  pub session_passkey : Option SessionPasskey
  pub from_radio_id : ℕ
  pub ble_connected : Bool
  pub last_nodeinfo_tx : Option ℕ
  pub last_position_tx : ℕ
  pub last_lora_telemetry : Option ℕ
  pub last_neighborinfo_tx : Option ℕ
  pub channel_metrics : ChannelMetrics
  pub reboot_after_secs : Option ℕ
  pub shutdown_after_secs : Option ℕ
  pub node_id_str : List ℕ
  pub boot_time : ℕ
  pub pkc_pub_bytes : List ℕ
  pub pkc_priv_bytes : List ℕ
  pub to_phone : List FromRadioMessage
  pub ble_free : ℕ
  pub to_lora : List RadioFrame
  pub disconnect : Bool
  pub tx_enabled : Bool
