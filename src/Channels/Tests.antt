-- ===== src/Channels/Tests.antt =====
-- Lookups in concrete channel tables.
use meshtastenstein_rs.Base.{ℕ, ◌≡◌, refl, none, some, List, [], ◌∷◌, replicate, find}
use meshtastenstein_rs.Channels.{
  ChannelConfig, ChannelRole, default_primary, new_channels, get_channel, find_by_hash, hash,
  present, is_enabled, effective_psk, effective_name, is_sentinel, xor_all,
}

abbrev long_fast : List ℕ
long_fast = 76 ∷ 111 ∷ 110 ∷ 103 ∷ 70 ∷ 97 ∷ 115 ∷ 116 ∷ []

abbrev admin : ChannelConfig
admin = record { index = 1; name = 97 ∷ []; psk = []; role = ChannelRole.secondary }

-- The hash of the default channel under the LongFast preset is 8.
hash-long_fast : hash long_fast default_primary ≡ 8
unfolding hash effective_psk effective_name is_sentinel xor_all
hash-long_fast = refl

found : find_by_hash 8 long_fast new_channels ≡ some default_primary
unfolding find_by_hash find present is_enabled hash effective_psk effective_name is_sentinel xor_all
    new_channels replicate
found = refl

missed : find_by_hash 9 long_fast new_channels ≡ none
unfolding find_by_hash find present is_enabled hash effective_psk effective_name is_sentinel xor_all
    new_channels replicate
missed = refl

first : get_channel 0 new_channels ≡ some default_primary
unfolding get_channel new_channels replicate
first = refl
