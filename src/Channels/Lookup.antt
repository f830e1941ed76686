-- ===== src/Channels/Lookup.antt =====
-- What the lookups of channels.rs find.
use meshtastenstein_rs.Base.{
  ℕ, zero, suc, ◌≡◌, ◌≢◌, refl, ◌⊎◌, inl, inr, Bool, false, ◌&&◌, Option, none, some, List, [], ◌∷◌,
  ◌==◌, ltb, if◌then◌else◌, Bool-cases, length, get_elem?, set, find, find_sound, arith,
}
use meshtastenstein_rs.Channels.{
  ChannelConfig, ChannelRole, max_channels, default_psk, is_sentinel, effective_psk, hash,
  get_channel, set_channel, present, is_enabled, find_by_hash,
}

get_elem?-set {ℓ} :
    {A : Type ℓ} (m n : ℕ) (v : A) (xs : List A)
    → get_elem? (set xs n v) m ≡ (if n == m && ltb n (length xs) then some v else get_elem? xs m)
get_elem?-set m n v [] = ground arith
get_elem?-set zero zero v (x ∷ xs) = ground arith
get_elem?-set (suc m) zero v (x ∷ xs) = ground arith
get_elem?-set zero (suc n) v (x ∷ xs) = ground arith
get_elem?-set (suc m) (suc n) v (x ∷ xs) = ground (arith, get_elem?-set m n v xs)

-- In a table of `max_channels` slots, the channel set at an index is the one got there, all others
-- are as they were, and an index out of range changes nothing.
pub get_channel-set_channel :
    (m n : ℕ) (c : ChannelConfig) (channels : List (Option ChannelConfig))
    → length channels ≡ max_channels
    → get_channel m (set_channel n c channels)
      ≡ (if ltb n max_channels && n == m then some c else get_channel m channels)
unfolding get_channel set_channel
get_channel-set_channel m n c channels size = ground (arith, get_elem?-set m n (some c) channels)

-- The single-byte key 1 and the default key it stands for give one hash: nodes that store either
-- hear each other.
pub hash_sentinel :
    (preset_name : List ℕ) (c : ChannelConfig)
    → hash preset_name (record c { psk = 1 ∷ [] })
      ≡ hash preset_name (record c { psk = default_psk })
unfolding hash effective_psk is_sentinel
hash_sentinel preset_name c = refl

find-present :
    (p : ChannelConfig → Bool) (channels : List (Option ChannelConfig)) (c : ChannelConfig)
    → find p (present channels) ≡ some c
    → (i : ℕ) × (get_channel i channels ≡ some c)
unfolding find present get_channel
find-present p [] c e = absurd (ground arith)
find-present p (none ∷ cs) c e = let (i, at) = find-present p cs c e in (suc i, at)
find-present p (some d ∷ cs) c e = elim (Bool-cases (p d)) [
  | inl yes_d ↦ (0, ground arith)
  | inr no_d ↦ let (i, at) = find-present p cs c (ground arith) in (suc i, at)
]

missed-present :
    (p : ChannelConfig → Bool) (channels : List (Option ChannelConfig)) (c : ChannelConfig) (i : ℕ)
    → find p (present channels) ≡ none
    → get_channel i channels ≡ some c
    → p c ≡ false
unfolding find present get_channel
missed-present p [] c i e at = absurd (ground arith)
missed-present p (none ∷ cs) c zero e at = absurd (ground arith)
missed-present p (none ∷ cs) c (suc i) e at = missed-present p cs c i e at
missed-present p (some d ∷ cs) c zero e at = ground arith
missed-present p (some d ∷ cs) c (suc i) e at = missed-present p cs c i (ground arith) at

-- The channel found by a hash is one of the table, enabled, and has that hash.
find_by_hash_sound :
    (h : ℕ) (preset_name : List ℕ) (channels : List (Option ChannelConfig)) (c : ChannelConfig)
    → find_by_hash h preset_name channels ≡ some c
    → (hash preset_name c ≡ h)
      × (c.role ≢ ChannelRole.disabled)
      × ((i : ℕ) × (get_channel i channels ≡ some c))
unfolding find_by_hash is_enabled
find_by_hash_sound h preset_name channels c e = (
  ground (arith, find_sound (λ c. is_enabled c && hash preset_name c == h) (present channels) c e),
  ground (arith, find_sound (λ c. is_enabled c && hash preset_name c == h) (present channels) c e),
  find-present (λ c. is_enabled c && hash preset_name c == h) channels c e,
)

-- A hash finds nothing only when no enabled channel of the table has it.
pub find_by_hash_complete :
    (h i : ℕ) (preset_name : List ℕ) (channels : List (Option ChannelConfig)) (c : ChannelConfig)
    → find_by_hash h preset_name channels ≡ none
    → get_channel i channels ≡ some c
    → (c.role ≡ ChannelRole.disabled) ⊎ (hash preset_name c ≢ h)
unfolding find_by_hash is_enabled
find_by_hash_complete h i preset_name channels c e at =
    ground (arith, missed-present (λ c. is_enabled c && hash preset_name c == h) channels c i e at)
