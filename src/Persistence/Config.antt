-- ===== src/Persistence/Config.antt =====
-- The round trip of the settings: what persistence.rs decodes from an encoded record.
use meshtastenstein_rs.Base.{
  ℕ, suc, ◌+◌, ◌*◌, ◌-◌, ◌≡◌, ◌≢◌, ◌≤◌, ◌<◌, refl, ap, sym, subst, ◌∙◌, min, some, List, [], ◌∷◌,
  ◌++◌, ◌==◌, if◌then◌else◌, length, get_or, take, replicate, slice, length-replicate, length-take,
  from_le, from_le-to_le, All, Reads, All-left, All-right, IsLaid, IsLaid-append, IsLaid-to,
  length-write_fields, read_back, read_prefix, get_or-slice, arith,
}
use meshtastenstein_rs.Persistence.{
  read_u32, zero_padded, config_size, config_magic, config_version, default_hop_limit, SavedChannel,
  SavedConfig, no_channel, front_fields, channel_fields_at, channel_fields, back_fields,
  config_fields, encode_config, decode_channel, decode_channels, decode_fields, decode_config,
}

-- an array of `n` bytes whose first `k` are used and whose other bytes are zero
unfoldable pub IsPadded : ℕ → ℕ → List ℕ → Type 0
IsPadded n k xs = (k ≤ n) × (length xs ≡ n) × (zero_padded n (take k xs) ≡ xs)

unfoldable pub IsSavedChannel : SavedChannel → Type 0
IsSavedChannel ch = IsPadded 32 ch.psk_len ch.psk × IsPadded 12 ch.name_len ch.name

-- The records that `encode_config` is given: lengths within their arrays, unused slots blank, and
-- no value that stands for an erased byte.
unfoldable pub IsSavedConfig : SavedConfig → Type 0
IsSavedConfig cfg =
    IsPadded 40 cfg.long_name_len cfg.long_name
    × IsPadded 5 cfg.short_name_len cfg.short_name
    × (cfg.num_channels ≤ 8)
    × (length (take cfg.num_channels cfg.channels) ≡ cfg.num_channels)
    × (take cfg.num_channels cfg.channels ++ replicate (8 - cfg.num_channels) no_channel
        ≡ cfg.channels)
    × All IsSavedChannel (take cfg.num_channels cfg.channels)
    × (cfg.bandwidth_code < 65536)
    × (cfg.channel_num < 65535)
    × (cfg.hop_limit ≢ 255)
    × (cfg.tx_enabled ≢ 255)
    × (cfg.config_ok_to_mqtt < 2)

-- an array is read back from its used part
read_padded :
    (n k off : ℕ) (xs w : List ℕ)
    → IsPadded n k xs
    → slice off (off + length (take k xs)) w ≡ take k xs
    → zero_padded n (slice off (off + min k n) w) ≡ xs
unfolding IsPadded
read_padded n k off xs w (h, size, blank) r =
    ap (zero_padded n)
      (read_prefix off k (min k n) xs w (omega (arith, h, size)) (omega (arith, h)) r)
    ∙ blank

decode_channel-Reads :
    (off : ℕ) (ch : SavedChannel) (w : List ℕ)
    → IsSavedChannel ch
    → Reads w (channel_fields_at off ch)
    → decode_channel off w ≡ ch
unfolding decode_channel channel_fields_at IsSavedChannel IsPadded
decode_channel-Reads off ch w (hp, hn) (i, (r, (pl, (p, (nl, (n, e)))))) =
    let index = get_or-slice off w ch.index 0 i in
    let role = get_or-slice (off + 1) w ch.role 0 r in
    let psk_len = get_or-slice (off + 2) w ch.psk_len 0 pl in
    let name_len = get_or-slice (off + 35) w ch.name_len 0 nl in
    let psk = read_padded 32 ch.psk_len (off + 3) ch.psk w hp p in
    let name = read_padded 12 ch.name_len (off + 36) ch.name w hn n in
    let psk_fits : min ch.psk_len 32 ≡ ch.psk_len = omega (arith, hp.0) in
    let name_fits : min ch.name_len 12 ≡ ch.name_len = omega (arith, hn.0) in
    rw (index, role, psk_len, name_len, psk, name, psk_fits, name_fits)

channel_fields_at-IsLaid :
    (off : ℕ) (ch : SavedChannel)
    → IsSavedChannel ch
    → IsLaid off (off + 48) (channel_fields_at off ch)
unfolding channel_fields_at IsSavedChannel IsPadded
channel_fields_at-IsLaid off ch (hp, hn) =
    ground (arith, hp.0, hn.0, length-take ch.psk_len ch.psk, length-take ch.name_len ch.name)

channel_fields-IsLaid :
    (i : ℕ) (chs : List SavedChannel)
    → All IsSavedChannel chs
    → IsLaid (56 + i * 48) (56 + (i + length chs) * 48) (channel_fields i chs)
unfolding channel_fields
channel_fields-IsLaid i [] h = omega arith
channel_fields-IsLaid i (ch ∷ chs) (h, hs) =
    IsLaid-append (56 + i * 48) (56 + suc i * 48) (56 + (i + length (ch ∷ chs)) * 48)
      (channel_fields_at (56 + i * 48) ch) (channel_fields (suc i) chs)
      (subst (λ n. IsLaid (56 + i * 48) n (channel_fields_at (56 + i * 48) ch)) (omega arith)
        (channel_fields_at-IsLaid (56 + i * 48) ch h))
      (subst (λ n. IsLaid (56 + suc i * 48) n (channel_fields (suc i) chs)) (omega arith)
        (channel_fields-IsLaid (suc i) chs hs))

decode_channels-Reads :
    (i : ℕ) (chs : List SavedChannel) (w : List ℕ)
    → All IsSavedChannel chs
    → Reads w (channel_fields i chs)
    → decode_channels (length chs) i w ≡ chs
unfolding decode_channels channel_fields
decode_channels-Reads i [] w h r = refl
decode_channels-Reads i (ch ∷ chs) w (h, hs) r =
    let here =
      decode_channel-Reads (56 + i * 48) ch w h
        (All-left _ (channel_fields_at (56 + i * 48) ch) (channel_fields (suc i) chs) r) in
    let rest =
      decode_channels-Reads (suc i) chs w hs
        (All-right _ (channel_fields_at (56 + i * 48) ch) (channel_fields (suc i) chs) r) in
    cc

front_fields-IsLaid : (cfg : SavedConfig) → IsSavedConfig cfg → IsLaid 0 56 (front_fields cfg)
unfolding front_fields IsSavedConfig IsPadded
front_fields-IsLaid cfg h = ground (
  arith,
  h.0.0,
  h.1.0,
  length-take cfg.long_name_len cfg.long_name,
  length-take cfg.short_name_len cfg.short_name,
)

back_fields-IsLaid : (cfg : SavedConfig) → IsLaid 440 config_size (back_fields cfg)
unfolding back_fields
back_fields-IsLaid cfg = ground arith

channels-IsLaid :
    (n : ℕ) (chs : List SavedChannel)
    → n ≤ 8
    → length chs ≡ n
    → All IsSavedChannel chs
    → IsLaid 56 440 (channel_fields 0 chs)
channels-IsLaid n chs few size h =
    IsLaid-to 56 (56 + (0 + length chs) * 48) 440 (channel_fields 0 chs) (omega (arith, few, size))
      (channel_fields-IsLaid 0 chs h)

config_fields-IsLaid :
    (cfg : SavedConfig) → IsSavedConfig cfg → IsLaid 0 config_size (config_fields cfg)
unfolding config_fields IsSavedConfig
config_fields-IsLaid cfg h =
    let few : cfg.num_channels ≤ 8 = h.2 in
    let channels : List SavedChannel = take cfg.num_channels cfg.channels in
    IsLaid-append 0 56 config_size (front_fields cfg) (channel_fields 0 channels ++ back_fields cfg)
      (front_fields-IsLaid cfg h)
      (IsLaid-append 56 440 config_size (channel_fields 0 channels) (back_fields cfg)
        (channels-IsLaid cfg.num_channels channels few h.3 h.5) (back_fields-IsLaid cfg))

config-Reads :
    (cfg : SavedConfig) → IsSavedConfig cfg → Reads (encode_config cfg) (config_fields cfg)
unfolding encode_config
config-Reads cfg h = read_back 0 (config_fields cfg) (replicate config_size 255) (
    subst (λ n. IsLaid 0 n (config_fields cfg)) (sym (length-replicate config_size 255))
      (config_fields-IsLaid cfg h))

kept : (n erased d : ℕ) → n ≢ erased → (if n == erased then d else n) ≡ n
kept n erased d h = ground arith

flag : (n : ℕ) → n < 2 → (if n == 1 then 1 else 0) ≡ n
flag n h = ground arith

pub length-encode_config :
    (cfg : SavedConfig) → IsSavedConfig cfg → length (encode_config cfg) ≡ config_size
unfolding encode_config
length-encode_config cfg h =
    length-write_fields 0 (config_fields cfg) (replicate config_size 255) (
      subst (λ n. IsLaid 0 n (config_fields cfg)) (sym (length-replicate config_size 255))
        (config_fields-IsLaid cfg h))
    ∙ length-replicate config_size 255

-- Settings that are stored are read back unchanged.
pub decode_config-encode_config :
    (cfg : SavedConfig) → IsSavedConfig cfg → decode_config (encode_config cfg) ≡ some cfg
unfolding decode_config read_u32 decode_fields front_fields back_fields config_fields IsSavedConfig
    IsPadded
decode_config-encode_config cfg h =
    let w : List ℕ = encode_config cfg in
    let channels : List SavedChannel = take cfg.num_channels cfg.channels in
    let reads : Reads w (config_fields cfg) = config-Reads cfg h in
    let after : Reads w (channel_fields 0 channels ++ back_fields cfg) =
      All-right _ (front_fields cfg) (channel_fields 0 channels ++ back_fields cfg) reads in
    let front : Reads w (front_fields cfg) =
      All-left _ (front_fields cfg) (channel_fields 0 channels ++ back_fields cfg) reads in
    let middle : Reads w (channel_fields 0 channels) =
      All-left _ (channel_fields 0 channels) (back_fields cfg) after in
    let back : Reads w (back_fields cfg) =
      All-right _ (channel_fields 0 channels) (back_fields cfg) after in
    let (magic, (version, (ll, (l, (sl, (s, (region, (preset, (role, (count, e)))))))))) = front in
    let (preset_used, (sf, (bw, (cr, (num, (hops, (tx, (mqtt, e2)))))))) = back in
    let long_fits : min cfg.long_name_len 40 ≡ cfg.long_name_len = omega (arith, h.0.0) in
    let short_fits : min cfg.short_name_len 5 ≡ cfg.short_name_len = omega (arith, h.1.0) in
    let count_fits : min cfg.num_channels 8 ≡ cfg.num_channels = omega (arith, h.2) in
    let chans : decode_channels cfg.num_channels 0 w ≡ channels =
      ap (λ n. decode_channels n 0 w) (sym h.3) ∙ decode_channels-Reads 0 channels w h.5 middle in
    let num_is : from_le (slice 445 447 w) ≡ cfg.channel_num =
      ap from_le num ∙ from_le-to_le 2 cfg.channel_num (omega (arith, h.7)) in
    let bw_is : from_le (slice 442 444 w) ≡ cfg.bandwidth_code =
      ap from_le bw ∙ from_le-to_le 2 cfg.bandwidth_code h.6 in
    let num_kept : (if cfg.channel_num == 65535 then 0 else cfg.channel_num) ≡ cfg.channel_num =
      kept cfg.channel_num 65535 0 (λ e. absurd (omega (arith, h.7, e))) in
    let hops_kept : (if cfg.hop_limit == 255 then default_hop_limit else cfg.hop_limit)
        ≡ cfg.hop_limit =
      kept cfg.hop_limit 255 default_hop_limit h.8 in
    let tx_kept : (if cfg.tx_enabled == 255 then 1 else cfg.tx_enabled) ≡ cfg.tx_enabled =
      kept cfg.tx_enabled 255 1 h.9 in
    let mqtt_kept : (if cfg.config_ok_to_mqtt == 1 then 1 else 0) ≡ cfg.config_ok_to_mqtt =
      flag cfg.config_ok_to_mqtt h.10 in
    let fields : decode_fields w ≡ cfg = rw (
      get_or-slice 5 w cfg.long_name_len 0 ll,
      get_or-slice 46 w cfg.short_name_len 0 sl,
      get_or-slice 52 w cfg.region 0 region,
      get_or-slice 53 w cfg.modem_preset 0 preset,
      get_or-slice 54 w cfg.role 0 role,
      get_or-slice 55 w cfg.num_channels 0 count,
      get_or-slice 440 w cfg.use_preset 0 preset_used,
      get_or-slice 441 w cfg.spread_factor 0 sf,
      get_or-slice 444 w cfg.coding_rate 0 cr,
      get_or-slice 447 w cfg.hop_limit 0 hops,
      get_or-slice 448 w cfg.tx_enabled 0 tx,
      get_or-slice 449 w cfg.config_ok_to_mqtt 0 mqtt,
      num_is,
      bw_is,
      num_kept,
      hops_kept,
      tx_kept,
      mqtt_kept,
      read_padded 40 cfg.long_name_len 6 cfg.long_name w h.0 l,
      read_padded 5 cfg.short_name_len 47 cfg.short_name w h.1 s,
      long_fits,
      short_fits,
      count_fits,
      chans,
      h.4,
    ) in
    let magic_is : from_le (slice 0 4 w) ≡ config_magic = ap from_le magic in
    let version_is : get_or w 4 0 ≡ config_version = get_or-slice 4 w config_version 0 version in
    ground (arith, magic_is, version_is, fields)
