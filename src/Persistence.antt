-- ===== src/Persistence.antt =====
-- meshtastenstein-core/src/domain/persistence.rs: the layouts of the records kept in flash, and the
-- copying of the device's settings into and out of them. A blob is the list of its bytes;
-- `write_fields` is a run of `copy_from_slice`. `str::from_utf8` is a parameter.
mod Keypair
pub mod Config
mod Decoded
pub mod Settings
pub mod Table
pub mod Restart
mod Ring
mod Tests
use meshtastenstein_rs.Base.{
  ℕ, zero, suc, ◌+◌, ◌-◌, ◌*◌, ◌%◌, min, Bool, true, false, ◌&&◌, ◌||◌, not, Option, none, some,
  List, [], ◌∷◌, ◌++◌, ◌==◌, ltb, leb, if◌then◌else◌, length, get_elem?, get_or, set, take,
  replicate, splice, slice, to_le, from_le, all, write_fields,
}

-- `u32::from_le_bytes([buf[off], buf[off + 1], buf[off + 2], buf[off + 3]])`
unfoldable pub read_u32 : ℕ → List ℕ → ℕ
read_u32 off buf = from_le (slice off (off + 4) buf)

-- `let mut array = [0u8; n]; array[..src.len()].copy_from_slice(src)`
unfoldable pub zero_padded : ℕ → List ℕ → List ℕ
zero_padded n src = splice 0 src (replicate n 0)

abbrev pub bond_size : ℕ
bond_size = 48

abbrev pub bond_magic : ℕ
bond_magic = 0x424f4e44

abbrev pub bond_version : ℕ
bond_version = 2

unfoldable pub bond_magic_valid : List ℕ → Bool
bond_magic_valid b = (read_u32 0 b == bond_magic) && (get_or b 4 0 == bond_version)

unfoldable pub init_bond_header : List ℕ → List ℕ
init_bond_header b = write_fields ((0, to_le 4 bond_magic) ∷ (4, bond_version ∷ []) ∷ []) b

abbrev pub pkc_blob_size : ℕ
pkc_blob_size = 72

abbrev pub pkc_magic : ℕ
pkc_magic = 0x504b4331

abbrev pub pkc_version : ℕ
pkc_version = 1

unfoldable pub encode_pkc_keypair : List ℕ → List ℕ → List ℕ
encode_pkc_keypair priv_key pub_key =
    write_fields
      ((0, to_le 4 pkc_magic) ∷ (4, pkc_version ∷ []) ∷ (8, priv_key) ∷ (40, pub_key) ∷ [])
      (replicate pkc_blob_size 0)

unfoldable pub decode_pkc_keypair : List ℕ → Option (List ℕ × List ℕ)
decode_pkc_keypair buf =
    if not (read_u32 0 buf == pkc_magic) || not (get_or buf 4 0 == pkc_version)
    then none
    else if all (λ b. b == 0) (slice 8 40 buf)
    then none
    else some (slice 8 40 buf, slice 40 72 buf)

abbrev pub config_size : ℕ
config_size = 512

abbrev pub config_magic : ℕ
config_magic = 0x4d434647

abbrev pub config_version : ℕ
config_version = 2

pub record SavedChannel : Type 0 where
  pub index : ℕ
  pub role : ℕ
  pub psk_len : ℕ
  pub psk : List ℕ
  pub name_len : ℕ
  pub name : List ℕ

-- constants.rs
abbrev pub default_hop_limit : ℕ
default_hop_limit = 3

-- `SavedChannel::default()`
unfoldable pub no_channel : SavedChannel
no_channel = record {
  index = 0;
  role = 0;
  psk_len = 0;
  psk = replicate 32 0;
  name_len = 0;
  name = replicate 12 0;
}

pub record SavedConfig : Type 0 where
  pub long_name_len : ℕ
  pub long_name : List ℕ
  pub short_name_len : ℕ
  pub short_name : List ℕ
  pub region : ℕ
  pub modem_preset : ℕ
  pub role : ℕ
  pub num_channels : ℕ
  pub channels : List SavedChannel
  pub use_preset : ℕ
  pub spread_factor : ℕ
  pub bandwidth_code : ℕ
  pub coding_rate : ℕ
  pub channel_num : ℕ
  pub hop_limit : ℕ
  pub tx_enabled : ℕ
  pub config_ok_to_mqtt : ℕ

-- what is written before the channels
unfoldable pub front_fields : SavedConfig → List (ℕ × List ℕ)
front_fields cfg =
    (0, to_le 4 config_magic)
    ∷ (4, config_version ∷ [])
    ∷ (5, cfg.long_name_len ∷ [])
    ∷ (6, take cfg.long_name_len cfg.long_name)
    ∷ (46, cfg.short_name_len ∷ [])
    ∷ (47, take cfg.short_name_len cfg.short_name)
    ∷ (52, cfg.region ∷ [])
    ∷ (53, cfg.modem_preset ∷ [])
    ∷ (54, cfg.role ∷ [])
    ∷ (55, cfg.num_channels ∷ [])
    ∷ []

-- one channel at its offset
unfoldable pub channel_fields_at : ℕ → SavedChannel → List (ℕ × List ℕ)
channel_fields_at off ch =
    (off, ch.index ∷ [])
    ∷ (off + 1, ch.role ∷ [])
    ∷ (off + 2, ch.psk_len ∷ [])
    ∷ (off + 3, take ch.psk_len ch.psk)
    ∷ (off + 35, ch.name_len ∷ [])
    ∷ (off + 36, take ch.name_len ch.name)
    ∷ []

-- `for i in 0..num_channels`, from the channel `i` on
unfoldable pub channel_fields : ℕ → List SavedChannel → List (ℕ × List ℕ)
channel_fields i [] = []
channel_fields i (ch ∷ chs) = channel_fields_at (56 + i * 48) ch ++ channel_fields (suc i) chs

-- what is written after the channels
unfoldable pub back_fields : SavedConfig → List (ℕ × List ℕ)
back_fields cfg =
    (440, cfg.use_preset ∷ [])
    ∷ (441, cfg.spread_factor ∷ [])
    ∷ (442, to_le 2 cfg.bandwidth_code)
    ∷ (444, cfg.coding_rate ∷ [])
    ∷ (445, to_le 2 cfg.channel_num)
    ∷ (447, cfg.hop_limit ∷ [])
    ∷ (448, cfg.tx_enabled ∷ [])
    ∷ (449, cfg.config_ok_to_mqtt ∷ [])
    ∷ []

unfoldable pub config_fields : SavedConfig → List (ℕ × List ℕ)
config_fields cfg =
    front_fields cfg ++ (channel_fields 0 (take cfg.num_channels cfg.channels) ++ back_fields cfg)

unfoldable pub encode_config : SavedConfig → List ℕ
encode_config cfg = write_fields (config_fields cfg) (replicate config_size 255)

-- the body of the loop over the channels
unfoldable pub decode_channel : ℕ → List ℕ → SavedChannel
decode_channel off buf =
    let psk_len = min (get_or buf (off + 2) 0) 32 in
    let name_len = min (get_or buf (off + 35) 0) 12 in
    record {
      index = get_or buf off 0;
      role = get_or buf (off + 1) 0;
      psk_len = psk_len;
      psk = zero_padded 32 (slice (off + 3) (off + 3 + psk_len) buf);
      name_len = name_len;
      name = zero_padded 12 (slice (off + 36) (off + 36 + name_len) buf);
    }

-- `n` channels from the channel `i` on
unfoldable pub decode_channels : ℕ → ℕ → List ℕ → List SavedChannel
decode_channels zero i buf = []
decode_channels (suc n) i buf = decode_channel (56 + i * 48) buf ∷ decode_channels n (suc i) buf

-- the fields once the magic number and the version are known to be right
unfoldable pub decode_fields : List ℕ → SavedConfig
decode_fields buf =
    let long_name_len = min (get_or buf 5 0) 40 in
    let short_name_len = min (get_or buf 46 0) 5 in
    let num_channels = min (get_or buf 55 0) 8 in
    let raw_ch = from_le (slice 445 447 buf) in
    record {
      long_name_len = long_name_len;
      long_name = zero_padded 40 (slice 6 (6 + long_name_len) buf);
      short_name_len = short_name_len;
      short_name = zero_padded 5 (slice 47 (47 + short_name_len) buf);
      region = get_or buf 52 0;
      modem_preset = get_or buf 53 0;
      role = get_or buf 54 0;
      num_channels = num_channels;
      channels = decode_channels num_channels 0 buf ++ replicate (8 - num_channels) no_channel;
      use_preset = get_or buf 440 0;
      spread_factor = get_or buf 441 0;
      bandwidth_code = from_le (slice 442 444 buf);
      coding_rate = get_or buf 444 0;
      channel_num = if raw_ch == 65535 then 0 else raw_ch;
      hop_limit = if get_or buf 447 0 == 255 then default_hop_limit else get_or buf 447 0;
      tx_enabled = if get_or buf 448 0 == 255 then 1 else get_or buf 448 0;
      config_ok_to_mqtt = if get_or buf 449 0 == 1 then 1 else 0;
    }

unfoldable pub decode_config : List ℕ → Option SavedConfig
decode_config buf =
    if not (read_u32 0 buf == config_magic) || not (get_or buf 4 0 == config_version)
    then none
    else some (decode_fields buf)

abbrev pub ring_header_size : ℕ
ring_header_size = 64

abbrev pub ring_magic : ℕ
ring_magic = 0x4d455348

pub record RingHeader : Type 0 where
  pub head : ℕ
  pub tail : ℕ
  pub count : ℕ

unfoldable pub encode_ring_header : RingHeader → List ℕ
encode_ring_header h =
    write_fields
      ((0, to_le 4 ring_magic)
        ∷ (4, to_le 4 h.head)
        ∷ (8, to_le 4 h.tail)
        ∷ (12, to_le 4 h.count)
        ∷ [])
      (replicate ring_header_size 255)

unfoldable pub decode_ring_header : List ℕ → ℕ → Option RingHeader
decode_ring_header buf capacity =
    let head = read_u32 4 buf in
    let tail = read_u32 8 buf in
    let count = read_u32 12 buf in
    if not (read_u32 0 buf == ring_magic)
    then none
    else if leb capacity head || (leb capacity tail || ltb capacity count)
    then none
    else some (record { head = head; tail = tail; count = count })

-- the flag and the length are written into a buffer that holds the data already
unfoldable pub encode_ring_slot_prefix : List ℕ → Bool → ℕ → List ℕ
encode_ring_slot_prefix buf valid len = set (set buf 0 (if valid then 1 else 0)) 1 (len % 256)

unfoldable pub decode_ring_slot_prefix : List ℕ → Bool × ℕ
decode_ring_slot_prefix buf = (get_or buf 0 0 == 1, get_or buf 1 0)
