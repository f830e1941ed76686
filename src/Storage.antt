-- ===== src/Storage.antt =====
-- meshtastenstein-core/src/adapters/generic_nvs_storage.rs, with the ports of ports/storage.rs and
-- ports/config_storage.rs that it implements. The flash driver is a parameter: a state and its
-- three operations. `Result<(), StorageError>` is an optional error; log messages are left out.
pub mod Fifo
pub mod Drain
pub mod Blobs
mod Saved
mod Tests
use meshtastenstein_rs.Base.{
  ℕ, zero, suc, ◌+◌, ◌-◌, ◌*◌, ◌%◌, Bool, true, false, ◌&&◌, ◌||◌, not, ◌⊎◌, inl, inr, Option, none,
  some, List, [], ◌∷◌, ◌++◌, ◌==◌, ltb, leb, if◌then◌else◌, length, get_or, set, take, replicate,
  splice, slice,
}
use meshtastenstein_rs.Packet.{RadioFrame, new_frame, max_lora_payload_len}
use meshtastenstein_rs.NodeDb.{NodeEntry, NodeDb}
use meshtastenstein_rs.NodeDb.Snapshot.{snapshot_bytes, to_snapshot, restore_snapshot}
use meshtastenstein_rs.Device.{DeviceState}
use meshtastenstein_rs.Persistence.{
  bond_size, bond_magic_valid, pkc_blob_size, encode_pkc_keypair, decode_pkc_keypair, config_size,
  SavedConfig, encode_config, decode_config, ring_header_size, RingHeader, encode_ring_header,
  decode_ring_header, encode_ring_slot_prefix, decode_ring_slot_prefix,
}
use meshtastenstein_rs.Persistence.Settings.{
  Conversions, saved_config_from_device, apply_saved_config,
}

pub data StorageError : Type 0 where
  full : StorageError
  empty : StorageError
  serialization_error : StorageError
  storage_error : StorageError

-- `NorFlash`: `read` gives the bytes or an error; `write` and `erase` say whether they succeeded
pub record Flash (F : Type 0) : Type 0 where
  pub read : ℕ → ℕ → F → Option (List ℕ)
  pub write : ℕ → List ℕ → F → F × Bool
  pub erase : ℕ → ℕ → F → F × Bool

-- constants.rs
abbrev pub max_buffered_messages : ℕ
max_buffered_messages = 10

abbrev pub sector_size : ℕ
sector_size = 4096

abbrev pub config_sector : ℕ
config_sector = 0

abbrev pub bond_sector : ℕ
bond_sector = 1

abbrev pub storage_sector : ℕ
storage_sector = 2

abbrev pub node_db_sector : ℕ
node_db_sector = 3

abbrev pub pkc_sector : ℕ
pkc_sector = 4

abbrev pub slot_flash_size : ℕ
slot_flash_size = 260

pub record CachedSlot : Type 0 where
  pub valid : Bool
  pub len : ℕ
  pub data_bytes : List ℕ

unfoldable pub empty_slot : CachedSlot
empty_slot = record { valid = false; len = 0; data_bytes = replicate max_lora_payload_len 0 }

pub record NvsStorage (F : Type 0) : Type 0 where
  pub head : ℕ
  pub tail : ℕ
  pub count : ℕ
  pub slots : List CachedSlot
  pub flash : F
  pub base_offset : ℕ
  pub dirty : Bool

-- the bytes of one slot
unfoldable pub slot_blob : CachedSlot → List ℕ
slot_blob slot =
    let buf = encode_ring_slot_prefix (replicate slot_flash_size 0) slot.valid slot.len in
    if slot.valid && ltb 0 slot.len then splice 2 (take slot.len slot.data_bytes) buf else buf

-- one slot from what is read at its place
unfoldable pub load_slot : Option (List ℕ) → CachedSlot → CachedSlot
load_slot none slot = record slot { valid = false }
load_slot (some buf) slot =
    let (valid, len) = decode_ring_slot_prefix buf in
    if valid && leb len max_lora_payload_len
    then record slot {
      valid = true;
      len = len;
      data_bytes = splice 0 (slice 2 (2 + len) buf) slot.data_bytes;
    }
    else record slot { valid = false }

-- what the header read from flash gives, if it was read
unfoldable pub load_header : Option (List ℕ) → Option RingHeader
load_header none = none
load_header (some header) = decode_ring_header header max_buffered_messages

-- the frame's bytes over what the slot held
unfoldable pub filled_slot : RadioFrame → CachedSlot → CachedSlot
filled_slot frame slot = record {
  valid = true;
  len = frame.len;
  data_bytes = splice 0 (take frame.len frame.bytes) slot.data_bytes;
}

module _ {F : Type 0} where
  unfoldable pub sector_offset : NvsStorage F → ℕ → ℕ
  sector_offset st sector = st.base_offset + sector * sector_size

  unfoldable pub slot_flash_offset : NvsStorage F → ℕ → ℕ
  slot_flash_offset st index =
      sector_offset st storage_sector + (ring_header_size + index * slot_flash_size)

  -- the space and the indices once a full ring has dropped its oldest message
  unfoldable pub make_room : NvsStorage F → NvsStorage F
  make_room st =
      if leb max_buffered_messages st.count
      then record st { tail = (st.tail + 1) % max_buffered_messages; count = st.count - 1 }
      else st

  unfoldable pub put_frame : RadioFrame → NvsStorage F → NvsStorage F
  put_frame frame st = record st {
    slots = set st.slots st.head (filled_slot frame (get_or st.slots st.head empty_slot));
    head = (st.head + 1) % max_buffered_messages;
    count = st.count + 1;
    dirty = true;
  }

  unfoldable pub peek : NvsStorage F → StorageError ⊎ Option RadioFrame
  peek st =
      let slot = get_or st.slots st.tail empty_slot in
      if st.count == 0
      then inr none
      else if not slot.valid
      then inl StorageError.storage_error
      else inr (
          some (record {
            bytes = splice 0 (take slot.len slot.data_bytes) (replicate max_lora_payload_len 0);
            len = slot.len;
          }))

  unfoldable pub drop_oldest : NvsStorage F → NvsStorage F
  drop_oldest st = record st {
    slots = set st.slots st.tail (record (get_or st.slots st.tail empty_slot) { valid = false });
    tail = (st.tail + 1) % max_buffered_messages;
    count = st.count - 1;
    dirty = true;
  }

  unfoldable pub is_empty : NvsStorage F → Bool
  is_empty st = st.count == 0

  unfoldable pub is_full : NvsStorage F → Bool
  is_full st = leb max_buffered_messages st.count

module _ {F : Type 0} (nor : Flash F) where
  unfoldable pub persist_header : NvsStorage F → NvsStorage F
  persist_header st =
      let header =
        encode_ring_header (record { head = st.head; tail = st.tail; count = st.count }) in
      record st {
        flash = (nor.write (sector_offset st storage_sector) header st.flash).0;
        dirty = false;
      }

  unfoldable pub persist_slot : ℕ → NvsStorage F → NvsStorage F
  persist_slot index st =
      let slot = get_or st.slots index empty_slot in
      record st { flash = (nor.write (slot_flash_offset st index) (slot_blob slot) st.flash).0 }

  unfoldable pub init_empty : NvsStorage F → NvsStorage F
  init_empty st = persist_header (record st {
    head = 0;
    tail = 0;
    count = 0;
    slots = replicate max_buffered_messages empty_slot;
    dirty = true;
  })

  -- `slots`, the first of which has the index `i`
  unfoldable pub load_slots : ℕ → List CachedSlot → NvsStorage F → List CachedSlot
  load_slots i [] st = []
  load_slots i (slot ∷ slots) st =
      load_slot (nor.read (slot_flash_offset st i) slot_flash_size st.flash) slot
      ∷ load_slots (suc i) slots st

  unfoldable pub load_or_init : NvsStorage F → NvsStorage F
  load_or_init st =
      elim (load_header (nor.read (sector_offset st storage_sector) ring_header_size st.flash)) [
        | none ↦ init_empty st
        | some h ↦ record st {
          head = h.head;
          tail = h.tail;
          count = h.count;
          slots = load_slots 0 st.slots st;
        }
      ]

  unfoldable pub new_storage : F → ℕ → NvsStorage F
  new_storage flash base_offset = load_or_init (record {
    head = 0;
    tail = 0;
    count = 0;
    slots = replicate max_buffered_messages empty_slot;
    flash = flash;
    base_offset = base_offset;
    dirty = false;
  })

  unfoldable pub add : RadioFrame → NvsStorage F → NvsStorage F
  add frame st = persist_header (persist_slot st.head (put_frame frame (make_room st)))

  unfoldable pub pop : NvsStorage F → NvsStorage F × Option StorageError
  pop st =
      if st.count == 0
      then (st, some StorageError.empty)
      else (persist_header (persist_slot st.tail (drop_oldest st)), none)

  unfoldable pub clear : NvsStorage F → NvsStorage F
  clear st = init_empty st
