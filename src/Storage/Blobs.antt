-- ===== src/Storage/Blobs.antt =====
-- The records that generic_nvs_storage.rs keeps one to a sector, and its `ConfigStorage`.
use meshtastenstein_rs.Base.{ℕ, ◌+◌, Bool, not, Option, none, some, List, if◌then◌else◌}
use meshtastenstein_rs.NodeDb.{NodeEntry, NodeDb}
use meshtastenstein_rs.NodeDb.Snapshot.{snapshot_bytes, to_snapshot, restore_snapshot}
use meshtastenstein_rs.Device.{DeviceState}
use meshtastenstein_rs.Persistence.{
  bond_size, bond_magic_valid, pkc_blob_size, encode_pkc_keypair, decode_pkc_keypair, config_size,
  SavedConfig, encode_config, decode_config,
}
use meshtastenstein_rs.Persistence.Settings.{
  Conversions, saved_config_from_device, apply_saved_config,
}
use meshtastenstein_rs.Storage.{
  StorageError, Flash, NvsStorage, sector_size, config_sector, bond_sector, node_db_sector,
  pkc_sector, sector_offset,
}

-- the blob is a bond of this version
unfoldable pub accept_bond : Option (List ℕ) → Option (List ℕ)
accept_bond none = none
accept_bond (some buf) = if not (bond_magic_valid buf) then none else some buf

unfoldable pub accept_config : Option (List ℕ) → Option SavedConfig
accept_config none = none
accept_config (some buf) = decode_config buf

unfoldable pub accept_keypair : Option (List ℕ) → Option (List ℕ × List ℕ)
accept_keypair none = none
accept_keypair (some buf) = decode_pkc_keypair buf

module _ {F : Type 0} (nor : Flash F) where
  unfoldable pub erase_sector : ℕ → NvsStorage F → NvsStorage F × Bool
  erase_sector sector st =
      let base = sector_offset st sector in
      let (flash, ok) = nor.erase base (base + sector_size) st.flash in
      (record st { flash = flash }, ok)

  unfoldable pub write_sector : ℕ → List ℕ → NvsStorage F → NvsStorage F × Bool
  write_sector sector bytes st =
      let (flash, ok) = nor.write (sector_offset st sector) bytes st.flash in
      (record st { flash = flash }, ok)

  -- the sector is erased and then written; either can fail
  unfoldable pub save_blob : ℕ → List ℕ → NvsStorage F → NvsStorage F × Option StorageError
  save_blob sector bytes st =
      let erased = erase_sector sector st in
      let written = write_sector sector bytes erased.0 in
      if not erased.1
      then (erased.0, some StorageError.storage_error)
      else (written.0, if written.1 then none else some StorageError.storage_error)

  unfoldable pub load_config : NvsStorage F → Option SavedConfig
  load_config st = accept_config (nor.read (sector_offset st config_sector) config_size st.flash)

  unfoldable pub save_config : SavedConfig → NvsStorage F → NvsStorage F × Option StorageError
  save_config cfg = save_blob config_sector (encode_config cfg)

  unfoldable pub erase_config_internal : NvsStorage F → NvsStorage F
  erase_config_internal st = (erase_sector config_sector st).0

  unfoldable pub load_bond : NvsStorage F → Option (List ℕ)
  load_bond st = accept_bond (nor.read (sector_offset st bond_sector) bond_size st.flash)

  unfoldable pub save_bond : List ℕ → NvsStorage F → NvsStorage F × Option StorageError
  save_bond bytes = save_blob bond_sector bytes

  unfoldable pub clear_bond : NvsStorage F → NvsStorage F
  clear_bond st = (erase_sector bond_sector st).0

  unfoldable pub load_node_db_internal : NvsStorage F → Option (List ℕ)
  load_node_db_internal st = nor.read (sector_offset st node_db_sector) snapshot_bytes st.flash

  unfoldable pub save_node_db_internal : List ℕ → NvsStorage F → NvsStorage F × Option StorageError
  save_node_db_internal bytes = save_blob node_db_sector bytes

  unfoldable pub erase_node_db_internal : NvsStorage F → NvsStorage F
  erase_node_db_internal st = (erase_sector node_db_sector st).0

  unfoldable pub load_pkc_keypair : NvsStorage F → Option (List ℕ × List ℕ)
  load_pkc_keypair st =
      accept_keypair (nor.read (sector_offset st pkc_sector) pkc_blob_size st.flash)

  unfoldable pub save_pkc_keypair :
      List ℕ → List ℕ → NvsStorage F → NvsStorage F × Option StorageError
  save_pkc_keypair priv_key pub_key = save_blob pkc_sector (encode_pkc_keypair priv_key pub_key)

  -- `ConfigStorage`
  unfoldable pub save_state :
      Conversions → DeviceState → NvsStorage F → NvsStorage F × Option StorageError
  save_state conv device = save_config (saved_config_from_device conv device)

  unfoldable pub load_state : Conversions → NvsStorage F → DeviceState → DeviceState
  load_state conv st device = elim (load_config st) [
    | none ↦ device
    | some saved ↦ apply_saved_config conv saved device
  ]

  unfoldable pub erase_config : NvsStorage F → NvsStorage F
  erase_config st = erase_node_db_internal (erase_config_internal st)

  unfoldable pub save_node_db :
      {P M : Type 0}
      → (List (NodeEntry P M) → List (NodeEntry P M))
      → NodeDb P M
      → NvsStorage F
      → NvsStorage F × Option StorageError
  save_node_db sort db = save_node_db_internal (to_snapshot sort db)

  unfoldable pub load_node_db :
      {P M : Type 0} → (List ℕ → Bool) → NvsStorage F → NodeDb P M → NodeDb P M
  load_node_db is_utf8 st db = elim (load_node_db_internal st) [
    | none ↦ db
    | some buf ↦ (restore_snapshot is_utf8 buf db).0
  ]
