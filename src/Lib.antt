-- ===== src/Lib.antt =====
-- The core logic of a Meshtastic firmware in Rust, meshtastenstein-core. A frame that the radio
-- receives is parsed (domain/packet.rs), decrypted (domain/crypto_psk.rs, with a key from
-- domain/channels.rs), checked for duplicates (domain/router.rs), entered in the database of nodes
-- (domain/node_db.rs) and perhaps passed on (domain/handlers/from_radio/mod.rs); the radio's frequency
-- comes from domain/radio_config.rs. What the phone sends comes by domain/handlers/from_app/mod.rs,
-- what administration asks for by domain/handlers/admin/; tasks/mesh_task.rs turns events and timers
-- into calls of these. The paths here are under meshtastenstein-core/src/.
--
-- Base: booleans, lists, searches, keyed vectors, rings, bytes and bits that the parts share.
-- Packet: domain/packet.rs. `Header` is `PacketHeader`; `RadioFrame.bytes` is the field `data`.
-- NodeDb: domain/node_db.rs, with the snapshot in flash in NodeDb/Snapshot. `get_or_create` and
-- `get_mut` lend a reference; here the caller writes through it by `modify`.
-- Router: domain/router.rs. A method that takes `&mut self` takes the router last and returns the new
-- one. Router/Reliable has `tick_retransmissions`, whose loop runs on fuel, as many steps as there are
-- entries: each step visits one entry or removes one.
-- Relay: what `dispatch` of domain/handlers/from_radio/mod.rs does to the router and to the queue of
-- pending rebroadcasts, layer by layer.
-- Radio: domain/radio_config.rs, with the presets in Radio/Preset.
-- Device: domain/device.rs, and the node ids of domain/handlers/util.rs.
-- Persistence: domain/persistence.rs, the layouts of the records in flash; Persistence/Settings copies
-- the settings of the device into and out of the record.
-- Storage: adapters/generic_nvs_storage.rs and ports/storage.rs: the ring of buffered messages, and in
-- Storage/Blobs the records that are kept one to a sector. The flash driver is the record `Flash`.
-- Message: domain/crypto_pkc.rs, domain/tx.rs, and `try_decrypt_and_decode` of
-- domain/handlers/from_radio/mod.rs: how a message becomes a frame and a frame a message.
-- Session: the session key of remote administration, from domain/context.rs, domain/handlers/util.rs
-- and domain/handlers/admin/mod.rs.
-- Proto: the messages of the generated protobuf code, with the fields that the source names, and the
-- parameters `Wire` and `Floats` for what that code and floating point do.
-- Mesh: the node as a whole. `MeshCtx` is domain/context.rs; Mesh/Send has domain/handlers/util.rs,
-- Mesh/Ports the handlers of the port numbers and Mesh/Receive `dispatch` of from_radio/mod.rs;
-- Mesh/Transmit, Mesh/Exchange and Mesh/Phone have from_app/mod.rs, Mesh/Settings and Mesh/Admin the
-- files of admin/, Mesh/Periodic has periodic.rs, Mesh/Boot and Mesh/Orchestrator have
-- tasks/mesh_task.rs.
-- Channels: domain/channels.rs. Crypto: domain/crypto_psk.rs. Battery: domain/battery.rs.
--
-- Numbers are natural numbers; a machine word keeps its wrap-around where the source can reach it.
-- Times are milliseconds, and every reading of a clock is an argument. The protobuf types and the
-- conversions of their enums are generated by the build: messages that are only stored are type
-- parameters, conversions are arguments. The keystream of the AES crates is an argument with bytes as
-- its only law. The contention delay is computed in floating point and is an argument.
--
-- A queue to the phone or to the radio is the list of all that was put in it. While one event is
-- handled the clock is read once, and the phone's queue is not emptied: `ble_free` counts its places,
-- and a message without one is dropped as `try_send` does. A float is its bit pattern. The loop over
-- stored frames runs on fuel, as many steps as frames are stored: each step removes one.
--
-- A record in flash is the list of its bytes, and a run of `copy_from_slice` is the list of its offsets
-- and bytes, written in order (`write_fields` of Base/Layout).
--
-- Not modelled: the tasks of the radio, the watchdog and the lamp, the drivers, and the board crates,
-- which are input and output, or wait on timers of the runtime. What a second write to flash without
-- an erase leaves there is not modelled either: what is said of the message ring is said of its copy
-- in memory.
pub mod Base
pub mod Packet
pub mod NodeDb
pub mod Router
pub mod Radio
pub mod Channels
pub mod Crypto
pub mod Battery
pub mod Relay
pub mod Device
pub mod Persistence
pub mod Storage
pub mod Proto
pub mod Mesh
pub mod Message
pub mod Session
