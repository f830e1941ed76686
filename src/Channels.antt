-- ===== src/Channels.antt =====
-- meshtastenstein-core/src/domain/channels.rs: the channel table, its keys and its hashes. Names
-- are their UTF-8 bytes. `ChannelRole` is a generated enum; its variants are those that the source
-- names.
pub mod Lookup
mod Tests
use meshtastenstein_rs.Base.{
  ℕ, zero, suc, ◌+◌, Bool, true, false, ◌&&◌, not, Option, none, some, List, [], ◌∷◌, ◌==◌, ltb,
  bit_xor, if◌then◌else◌, unwrap_or, length, get_elem?, set, replicate, find,
}

pub data ChannelRole : Type 0 where
  disabled : ChannelRole
  primary : ChannelRole
  secondary : ChannelRole

abbrev pub max_channels : ℕ
max_channels = 8

-- constants.rs
abbrev pub default_psk : List ℕ
default_psk =
    0xd4 ∷ 0xf1 ∷ 0xbb ∷ 0x3a ∷ 0x20 ∷ 0x29 ∷ 0x07 ∷ 0x59 ∷ 0xf0 ∷ 0xbc ∷ 0xff ∷ 0xab ∷ 0xcf ∷ 0x4e
    ∷ 0x69 ∷ 0x01 ∷ []

pub record ChannelConfig : Type 0 where
  pub index : ℕ
  pub name : List ℕ
  pub psk : List ℕ
  pub role : ChannelRole

abbrev pub default_primary : ChannelConfig
default_primary = record { index = 0; name = []; psk = 1 ∷ []; role = ChannelRole.primary }

-- `self.psk.len() == 1 && self.psk[0] == 0x01`
unfoldable pub is_sentinel : List ℕ → Bool
is_sentinel [] = false
is_sentinel (b ∷ []) = b == 1
is_sentinel (b ∷ c ∷ bs) = false

unfoldable pub effective_psk : ChannelConfig → List ℕ
effective_psk c = if is_sentinel c.psk then default_psk else c.psk

-- `for &b in bytes { h ^= b; }`
unfoldable pub xor_all : ℕ → List ℕ → ℕ
xor_all h [] = h
xor_all h (b ∷ bs) = xor_all (bit_xor h b) bs

unfoldable pub effective_name : List ℕ → List ℕ → List ℕ
effective_name [] preset_name = preset_name
effective_name (b ∷ name) preset_name = b ∷ name

unfoldable pub hash : List ℕ → ChannelConfig → ℕ
hash preset_name c = xor_all (xor_all 0 (effective_name c.name preset_name)) (effective_psk c)

unfoldable pub is_encrypted : ChannelConfig → Bool
is_encrypted c = not (length c.psk == 0)

unfoldable pub new_channels : List (Option ChannelConfig)
new_channels = set (replicate max_channels none) 0 (some default_primary)

-- `ChannelSet::get`; `get_mut` lends the same element
unfoldable pub get_channel : ℕ → List (Option ChannelConfig) → Option ChannelConfig
get_channel index channels = unwrap_or (get_elem? channels index) none

unfoldable pub set_channel :
    ℕ → ChannelConfig → List (Option ChannelConfig) → List (Option ChannelConfig)
set_channel index c channels =
    if ltb index max_channels then set channels index (some c) else channels

-- `iter().flatten()`
unfoldable pub present : List (Option ChannelConfig) → List ChannelConfig
present [] = []
present (none ∷ cs) = present cs
present (some c ∷ cs) = c ∷ present cs

-- `c.role != ChannelRole::Disabled`
unfoldable pub is_enabled : ChannelConfig → Bool
is_enabled c = elim c.role [
  | ChannelRole.disabled ↦ false
  | ChannelRole.primary ↦ true
  | ChannelRole.secondary ↦ true
]

unfoldable pub is_primary : ChannelConfig → Bool
is_primary c = elim c.role [
  | ChannelRole.disabled ↦ false
  | ChannelRole.primary ↦ true
  | ChannelRole.secondary ↦ false
]

unfoldable pub find_by_hash : ℕ → List ℕ → List (Option ChannelConfig) → Option ChannelConfig
find_by_hash h preset_name channels =
    find (λ c. is_enabled c && hash preset_name c == h) (present channels)

unfoldable pub primary_channel : List (Option ChannelConfig) → Option ChannelConfig
primary_channel channels = find is_primary (present channels)
