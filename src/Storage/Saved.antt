-- ===== src/Storage/Saved.antt =====
-- What is loaded after it was saved. The flash driver's promise is a hypothesis: bytes that were
-- written where an erase had succeeded are read back.
use meshtastenstein_rs.Base.{
  ℕ, ◌+◌, ◌≡◌, refl, ap, sym, ◌∙◌, Bool, true, false, not, Option, none, some, List, if◌then◌else◌,
  length, arith,
}
use meshtastenstein_rs.Channels.{max_channels}
use meshtastenstein_rs.Device.{DeviceState}
use meshtastenstein_rs.Persistence.{SavedConfig, config_size, encode_config}
use meshtastenstein_rs.Persistence.Config.{
  IsSavedConfig, length-encode_config, decode_config-encode_config,
}
use meshtastenstein_rs.Persistence.Settings.{Conversions, saved_config_from_device}
use meshtastenstein_rs.Persistence.Restart.{
  IsSaveable, SameSettings, saved_config_from_device-SameSettings,
  saved_config_from_device-IsSavedConfig,
}
use meshtastenstein_rs.Storage.{
  StorageError, Flash, NvsStorage, sector_size, config_sector, sector_offset,
}
use meshtastenstein_rs.Storage.Blobs.{
  accept_config, erase_sector, write_sector, save_blob, load_config, save_config, save_state,
  load_state,
}

-- What is written into an erased place is read back.
abbrev pub ReadsBack : {F : Type 0} → Flash F → Type 0
ReadsBack {F} nor =
    (from to : ℕ) (bytes : List ℕ) (f : F)
    → (nor.erase from to f).1 ≡ true
    → (nor.write from bytes (nor.erase from to f).0).1 ≡ true
    → nor.read from (length bytes) (nor.write from bytes (nor.erase from to f).0).0 ≡ some bytes

both_succeed :
    {A : Type 0} (x y : A) (e w : Bool)
    → (let r : A × Option StorageError =
          if not e
          then (x, some StorageError.storage_error)
          else (y, if w then none else some StorageError.storage_error) in
        r.1)
      ≡ none
    → (e ≡ true) × (w ≡ true)
both_succeed x y true true h = (refl, refl)
both_succeed x y true false h = absurd (ground arith)
both_succeed x y false w h = absurd (ground arith)

module _ {F : Type 0} (nor : Flash F) where
  -- the driver's state after a sector was written again
  rewritten : ℕ → List ℕ → NvsStorage F → F
  rewritten sector bytes st =
      let base = sector_offset st sector in
      (nor.write base bytes (nor.erase base (base + sector_size) st.flash).0).0

  save_blob_done :
      (sector : ℕ) (bytes : List ℕ) (st : NvsStorage F)
      → ReadsBack nor
      → (save_blob nor sector bytes st).1 ≡ none
      → ((save_blob nor sector bytes st).0 ≡ record st { flash = rewritten sector bytes st })
        × (nor.read (sector_offset st sector) (length bytes) (rewritten sector bytes st)
            ≡ some bytes)
  unfolding save_blob erase_sector write_sector sector_offset rewritten
  save_blob_done sector bytes st law ok =
      let base : ℕ = sector_offset st sector in
      let erased : F × Bool = nor.erase base (base + sector_size) st.flash in
      let written : F × Bool = nor.write base bytes erased.0 in
      let done =
        both_succeed (record st { flash = erased.0 }) (record st { flash = written.0 }) erased.1
          written.1 ok in
      (rw (done.0), law base (base + sector_size) bytes st.flash done.0 done.1)

  -- Settings that were saved without an error are loaded again.
  pub load_config-save_config :
      (cfg : SavedConfig) (st : NvsStorage F)
      → ReadsBack nor
      → IsSavedConfig cfg
      → (save_config nor cfg st).1 ≡ none
      → load_config nor (save_config nor cfg st).0 ≡ some cfg
  unfolding load_config save_config accept_config sector_offset
  load_config-save_config cfg st law h ok =
      let bytes : List ℕ = encode_config cfg in
      let (same, back) = save_blob_done config_sector bytes st law ok in
      let read : nor.read (sector_offset st config_sector) config_size
            (rewritten config_sector bytes st)
          ≡ some bytes =
        ap (λ n. nor.read (sector_offset st config_sector) n (rewritten config_sector bytes st))
          (sym (length-encode_config cfg h))
        ∙ back in
      ap (λ s. load_config nor s) same ∙ (ap accept_config read ∙ decode_config-encode_config cfg h)

  -- A device that saves its settings without an error and starts again, on whatever defaults, has
  -- its names, radio parameters, role and enabled channels as they were.
  pub load_state-save_state :
      (conv : Conversions) (d fresh : DeviceState) (st : NvsStorage F)
      → ReadsBack nor
      → IsSaveable conv d
      → length fresh.channels ≡ max_channels
      → (save_state nor conv d st).1 ≡ none
      → SameSettings d (load_state nor conv (save_state nor conv d st).0 fresh)
  unfolding load_state save_state
  load_state-save_state conv d fresh st law h size ok =
      let cfg : SavedConfig = saved_config_from_device conv d in
      let good : IsSavedConfig cfg = saved_config_from_device-IsSavedConfig conv d h in
      let loaded = load_config-save_config cfg st law good ok in
      rw (loaded, load_state) (saved_config_from_device-SameSettings conv d fresh h size)
