-- ===== src/Persistence/Table.antt =====
-- The channel table that is restored from the stored channels.
use meshtastenstein_rs.Base.{
  ℕ, zero, suc, ◌+◌, ◌%◌, ◌≡◌, ◌≢◌, ◌≤◌, ◌<◌, refl, ap, sym, subst, ◌∙◌, true, Bool-cases, inl, inr,
  Option, none, some, List, [], ◌∷◌, map, if◌then◌else◌, length, get_elem?, take, drop, replicate,
  take_all-append, length-set, retain, All, arith,
}
use meshtastenstein_rs.Channels.{
  ChannelConfig, ChannelRole, max_channels, present, is_enabled, get_channel, set_channel,
}
use meshtastenstein_rs.Channels.Lookup.{get_channel-set_channel}
use meshtastenstein_rs.Persistence.{zero_padded, SavedChannel}
use meshtastenstein_rs.Persistence.Config.{IsSavedChannel}
use meshtastenstein_rs.Persistence.Decoded.{zero_padded-IsPadded}
use meshtastenstein_rs.Persistence.Settings.{
  Conversions, active_channels, saved_channel, restore_name, restored_role, restored_channel,
  restore_channel, restore_channels,
}

-- the channels of a table lie at their own indices, from `j` on
abbrev pub IsIndexed : ℕ → List (Option ChannelConfig) → Type 0
IsIndexed j [] = Unit
IsIndexed j (none ∷ cs) = IsIndexed (suc j) cs
IsIndexed j (some c ∷ cs) = (c.index ≡ j) × IsIndexed (suc j) cs

-- a name that is there, fits and is UTF-8
unfoldable pub IsName : Conversions → ℕ → List ℕ → Type 0
IsName conv capacity name =
    (0 < length name) × (length name ≤ capacity) × (conv.is_utf8 name ≡ true)

unfoldable pub IsSaveableChannel : Conversions → ChannelConfig → Type 0
IsSaveableChannel conv c = (length c.psk ≤ 32) × (length c.name ≤ 12) × (conv.is_utf8 c.name ≡ true)

-- the codes that the record's comments give to the roles of a channel
unfoldable pub HasChannelCodes : Conversions → Type 0
HasChannelCodes conv =
    (conv.channel_role_code ChannelRole.primary ≡ 1)
    × (conv.channel_role_code ChannelRole.secondary ≡ 2)

pub read_zero_padded : (n : ℕ) (xs : List ℕ) → take (length xs) (zero_padded n xs) ≡ xs
unfolding zero_padded
read_zero_padded n xs = take_all-append xs (drop (0 + length xs) (replicate n 0)) (length xs) refl

pub restore_name-zero_padded :
    (conv : Conversions) (capacity : ℕ) (name old : List ℕ)
    → IsName conv capacity name
    → capacity ≤ 255
    → restore_name conv capacity (length name % 256) (zero_padded capacity name) old ≡ name
unfolding restore_name IsName
restore_name-zero_padded conv capacity name old h k =
    let small : length name % 256 ≡ length name = omega (arith, h.1, k) in
    rw (small, read_zero_padded capacity name, h.2) (ground (arith, h.0, h.1))

pub saved_channel-IsSavedChannel :
    (conv : Conversions) (c : ChannelConfig)
    → IsSaveableChannel conv c
    → IsSavedChannel (saved_channel conv c)
unfolding saved_channel IsSavedChannel IsSaveableChannel
saved_channel-IsSavedChannel conv c h = (
  zero_padded-IsPadded 32 (length c.psk % 256) c.psk (omega (arith, h.0)) (omega (arith, h.0)),
  zero_padded-IsPadded 12 (length c.name % 256) c.name (omega (arith, h.1)) (omega (arith, h.1)),
)

pub restored_channel-saved_channel :
    (conv : Conversions) (c : ChannelConfig)
    → IsSaveableChannel conv c
    → restored_channel conv c.role (saved_channel conv c) ≡ c
unfolding restored_channel saved_channel IsSaveableChannel
restored_channel-saved_channel conv c h =
    let psk_small : length c.psk % 256 ≡ length c.psk = omega (arith, h.0) in
    let name_small : length c.name % 256 ≡ length c.name = omega (arith, h.1) in
    rw (psk_small, name_small, read_zero_padded 32 c.psk, read_zero_padded 12 c.name, h.2)

pub restored_role-channel_role_code :
    (conv : Conversions) (r : ChannelRole)
    → HasChannelCodes conv
    → r ≢ ChannelRole.disabled
    → restored_role conv (conv.channel_role_code r) ≡ some r
unfolding restored_role HasChannelCodes
restored_role-channel_role_code conv ChannelRole.disabled codes h = absurd (h refl)
restored_role-channel_role_code conv ChannelRole.primary codes h = ground (arith, codes.0)
restored_role-channel_role_code conv ChannelRole.secondary codes h = ground (arith, codes.1)

pub restore_channel-saved_channel :
    (conv : Conversions) (c : ChannelConfig) (channels : List (Option ChannelConfig))
    → HasChannelCodes conv
    → IsSaveableChannel conv c
    → is_enabled c ≡ true
    → restore_channel conv (saved_channel conv c) channels ≡ set_channel c.index c channels
unfolding restore_channel saved_channel is_enabled
restore_channel-saved_channel conv c channels codes h on =
    let enabled : c.role ≢ ChannelRole.disabled = ground (arith, on) in
    rw (restored_role-channel_role_code conv c.role codes enabled, restore_channel)
      (rw (restored_channel-saved_channel conv c h, restore_channel))

-- the enabled channels of one table set in another
unfoldable pub set_active :
    List (Option ChannelConfig) → List (Option ChannelConfig) → List (Option ChannelConfig)
set_active [] table = table
set_active (none ∷ cs) table = set_active cs table
set_active (some c ∷ cs) table =
    set_active cs (if is_enabled c then set_channel c.index c table else table)

pub restore_channels-active :
    (conv : Conversions) (cs table : List (Option ChannelConfig))
    → HasChannelCodes conv
    → All (IsSaveableChannel conv) (present cs)
    → restore_channels conv (map (saved_channel conv) (active_channels cs)) table
      ≡ set_active cs table
unfolding restore_channels active_channels present retain set_active
restore_channels-active conv [] table codes ok = refl
restore_channels-active conv (none ∷ cs) table codes ok =
    restore_channels-active conv cs table codes ok
restore_channels-active conv (some c ∷ cs) table codes ok = elim (Bool-cases (is_enabled c)) [
  | inr off ↦ rw (off) (restore_channels-active conv cs table codes ok.1)
  | inl on ↦
      let next : List (Option ChannelConfig) = set_channel c.index c table in
      let step = restore_channel-saved_channel conv c table codes ok.0 on in
      let rest : List SavedChannel = map (saved_channel conv) (active_channels cs) in
      let go : restore_channels conv rest (restore_channel conv (saved_channel conv c) table)
          ≡ set_active cs next =
        ap (restore_channels conv rest) step ∙ restore_channels-active conv cs next codes ok.1 in
      rw (on) go
]

pub length-set_channel :
    (n : ℕ) (c : ChannelConfig) (table : List (Option ChannelConfig))
    → length (set_channel n c table) ≡ length table
unfolding set_channel
length-set_channel n c table = ground (arith, length-set table n (some c))

-- channels of later indices leave a channel alone
pub set_active_later :
    (m j : ℕ) (cs table : List (Option ChannelConfig))
    → m < j
    → IsIndexed j cs
    → length table ≡ max_channels
    → get_channel m (set_active cs table) ≡ get_channel m table
unfolding set_active
set_active_later m j [] table lt ix size = refl
set_active_later m j (none ∷ cs) table lt ix size =
    set_active_later m (suc j) cs table (omega arith) ix size
set_active_later m j (some c ∷ cs) table lt ix size = elim (Bool-cases (is_enabled c)) [
  | inr off ↦ rw (off) (set_active_later m (suc j) cs table (omega arith) ix.1 size)
  | inl on ↦
      let next : List (Option ChannelConfig) = set_channel c.index c table in
      let other : get_channel m next ≡ get_channel m table =
        get_channel-set_channel m c.index c table size ∙ ground (arith, ix.0) in
      rw (on) (
        set_active_later m (suc j) cs next (omega arith) ix.1
          (length-set_channel c.index c table ∙ size)
        ∙ other)
]

-- an enabled channel is found at its index
pub set_active_has :
    (i j : ℕ) (c : ChannelConfig) (cs table : List (Option ChannelConfig))
    → get_elem? cs i ≡ some (some c)
    → is_enabled c ≡ true
    → IsIndexed j cs
    → j + length cs ≤ max_channels
    → length table ≡ max_channels
    → get_channel (j + i) (set_active cs table) ≡ some c
unfolding set_active
set_active_has i j c [] table at on ix fits size = absurd (ground arith)
set_active_has zero j c (none ∷ cs) table at on ix fits size = absurd (ground arith)
set_active_has (suc i) j c (none ∷ cs) table at on ix fits size =
    subst (λ k. get_channel k (set_active cs table) ≡ some c) (omega arith)
      (set_active_has i (suc j) c cs table at on ix (omega arith) size)
set_active_has zero j c (some d ∷ cs) table at on ix fits size =
    let same : c ≡ d = ground (arith, at) in
    let next : List (Option ChannelConfig) = set_channel c.index c table in
    let here : get_channel j next ≡ some c =
      get_channel-set_channel j c.index c table size ∙ ground (arith, same, ix.0) in
    let later =
      set_active_later j (suc j) cs next (omega arith) ix.1
        (length-set_channel c.index c table ∙ size) in
    rw (sym same, on)
      (subst (λ k. get_channel k (set_active cs next) ≡ some c) (omega arith) (later ∙ here))
set_active_has (suc i) j c (some d ∷ cs) table at on ix fits size =
    let next : List (Option ChannelConfig) =
      if is_enabled d then set_channel d.index d table else table in
    subst (λ k. get_channel k (set_active cs next) ≡ some c) (omega arith)
      (set_active_has i (suc j) c cs next at on ix.1 (omega arith)
        (ground (arith, length-set_channel d.index d table, size)))
