-- ===== src/Persistence/Decoded.antt =====
-- What persistence.rs decodes from any blob, damaged or foreign ones included.
use meshtastenstein_rs.Base.{
  ℕ, zero, suc, ◌+◌, ◌*◌, ◌-◌, ◌≡◌, ◌≢◌, ◌≤◌, ◌<◌, refl, ap, sym, subst, ◌∙◌, min, some, List, ◌++◌,
  ◌==◌, if◌then◌else◌, length, get_or, take, drop, replicate, slice, length-replicate, length-take,
  length-drop, take_all-append, IsByte, byte_range, from_le, from_le-lt, All, All-take, All-drop,
  length-splice, arith,
}
use meshtastenstein_rs.Persistence.{
  zero_padded, config_size, default_hop_limit, SavedChannel, SavedConfig, no_channel, encode_config,
  decode_channel, decode_channels, decode_fields, decode_config,
}
use meshtastenstein_rs.Persistence.Config.{
  IsPadded, IsSavedChannel, IsSavedConfig, decode_config-encode_config,
}

length-slice :
    (off k : ℕ) (buf : List ℕ) → off + k ≤ length buf → length (slice off (off + k) buf) ≡ k
length-slice off k buf h =
    omega (arith, h, length-take ((off + k) - off) (drop off buf), length-drop off buf)

pub zero_padded-IsPadded :
    (n k : ℕ) (xs : List ℕ) → k ≤ n → length xs ≡ k → IsPadded n k (zero_padded n xs)
unfolding IsPadded zero_padded
zero_padded-IsPadded n k xs h size = (
  h,
  length-splice 0 xs (replicate n 0) (omega (arith, h, size, length-replicate {A = ℕ} n 0))
      ∙ length-replicate {A = ℕ} n 0,
  ap (zero_padded n)
      (take_all-append xs (drop (0 + length xs) (replicate n 0)) k (omega (arith, size))),
)

-- an array read with its length in bounds
slice-IsPadded :
    (n off b : ℕ) (buf : List ℕ)
    → off + n ≤ length buf
    → IsPadded n (min b n) (zero_padded n (slice off (off + min b n) buf))
slice-IsPadded n off b buf h =
    zero_padded-IsPadded n (min b n) (slice off (off + min b n) buf) (omega arith)
      (length-slice off (min b n) buf (omega (arith, h)))

decode_channel-IsSavedChannel :
    (off : ℕ) (buf : List ℕ) → off + 48 ≤ length buf → IsSavedChannel (decode_channel off buf)
unfolding decode_channel IsSavedChannel
decode_channel-IsSavedChannel off buf h = (
  slice-IsPadded 32 (off + 3) (get_or buf (off + 2) 0) buf (omega (arith, h)),
  slice-IsPadded 12 (off + 36) (get_or buf (off + 35) 0) buf (omega (arith, h)),
)

decode_channels-IsSavedChannel :
    (n i : ℕ) (buf : List ℕ)
    → 56 + (i + n) * 48 ≤ length buf
    → All IsSavedChannel (decode_channels n i buf)
unfolding decode_channels
decode_channels-IsSavedChannel zero i buf h = tt
decode_channels-IsSavedChannel (suc n) i buf h = (
  decode_channel-IsSavedChannel (56 + i * 48) buf (omega (arith, h)),
  decode_channels-IsSavedChannel n (suc i) buf (omega (arith, h)),
)

length-decode_channels : (n i : ℕ) (buf : List ℕ) → length (decode_channels n i buf) ≡ n
unfolding decode_channels
length-decode_channels zero i buf = refl
length-decode_channels (suc n) i buf = ap suc (length-decode_channels n (suc i) buf)

read_u16-lt :
    (off : ℕ) (buf : List ℕ)
    → All IsByte buf
    → off + 2 ≤ length buf
    → from_le (slice off (off + 2) buf) < 65536
read_u16-lt off buf bytes h =
    let got : List ℕ = slice off (off + 2) buf in
    let small =
      from_le-lt got
        (All-take IsByte ((off + 2) - off) (drop off buf) (All-drop IsByte off buf bytes)) in
    subst (λ k. from_le got < byte_range k) (length-slice off 2 buf h) small

in_u16 : (n : ℕ) → n < 65536 → (if n == 65535 then 0 else n) < 65535
in_u16 n h = ground arith

is_flag : (n : ℕ) → (if n == 1 then 1 else 0) < 2
is_flag n = ground arith

defaulted : (n erased d : ℕ) → d ≢ erased → (if n == erased then d else n) ≢ erased
defaulted n erased d h = ground arith

decode_fields-IsSavedConfig :
    (buf : List ℕ) → length buf ≡ config_size → All IsByte buf → IsSavedConfig (decode_fields buf)
unfolding decode_fields IsSavedConfig
decode_fields-IsSavedConfig buf size bytes =
    let n : ℕ = min (get_or buf 55 0) 8 in
    let found : List SavedChannel = decode_channels n 0 buf in
    let count : length found ≡ n = length-decode_channels n 0 buf in
    let used : take n (found ++ replicate (8 - n) no_channel) ≡ found =
      take_all-append found (replicate (8 - n) no_channel) n (sym count) in
    (
      slice-IsPadded 40 6 (get_or buf 5 0) buf (omega (arith, size)),
      slice-IsPadded 5 47 (get_or buf 46 0) buf (omega (arith, size)),
      omega arith,
      ap length used ∙ count,
      ap (λ l. l ++ replicate (8 - n) no_channel) used,
      subst (All IsSavedChannel) (sym used)
          (decode_channels-IsSavedChannel n 0 buf (omega (arith, size))),
      read_u16-lt 442 buf bytes (omega (arith, size)),
      in_u16 (from_le (slice 445 447 buf)) (read_u16-lt 445 buf bytes (omega (arith, size))),
      defaulted (get_or buf 447 0) 255 default_hop_limit (λ e. absurd (omega (arith, e))),
      defaulted (get_or buf 448 0) 255 1 (λ e. absurd (omega (arith, e))),
      is_flag (get_or buf 449 0),
    )

-- Whatever 512 bytes are found in flash, settings that are decoded are well formed: lengths within
-- their arrays, unused bytes and channels blank, and no value left that stands for an erased byte.
pub decode_config-IsSavedConfig :
    (buf : List ℕ) (cfg : SavedConfig)
    → length buf ≡ config_size
    → All IsByte buf
    → decode_config buf ≡ some cfg
    → IsSavedConfig cfg
unfolding decode_config
decode_config-IsSavedConfig buf cfg size bytes e =
    let is_decoded : decode_fields buf ≡ cfg = ground (arith, e) in
    subst IsSavedConfig is_decoded (decode_fields-IsSavedConfig buf size bytes)

-- Decoding and storing again loses nothing: the second reading gives the settings of the first.
pub decode_config-twice :
    (buf : List ℕ) (cfg : SavedConfig)
    → length buf ≡ config_size
    → All IsByte buf
    → decode_config buf ≡ some cfg
    → decode_config (encode_config cfg) ≡ some cfg
decode_config-twice buf cfg size bytes e =
    decode_config-encode_config cfg (decode_config-IsSavedConfig buf cfg size bytes e)
