-- ===== src/Persistence/Tests.antt =====
-- Runs of persistence.rs on concrete records.
use meshtastenstein_rs.Base.{
  ℕ, ◌≡◌, refl, true, some, List, [], ◌∷◌, ltb, replicate, all, All, IsByte, write_fields, arith,
}
use meshtastenstein_rs.Persistence.{
  zero_padded, SavedChannel, SavedConfig, no_channel, front_fields, channel_fields_at,
  channel_fields, back_fields, config_fields, encode_config, decode_config,
}
use meshtastenstein_rs.Persistence.Config.{
  IsPadded, IsSavedChannel, IsSavedConfig, length-encode_config, decode_config-encode_config,
}
use meshtastenstein_rs.Persistence.Decoded.{decode_config-IsSavedConfig}

abbrev sample_channel : SavedChannel
sample_channel = record {
  index = 0;
  role = 1;
  psk_len = 1;
  psk = zero_padded 32 (1 ∷ []);
  name_len = 2;
  name = zero_padded 12 (76 ∷ 70 ∷ []);
}

abbrev sample : SavedConfig
sample = record {
  long_name_len = 3;
  long_name = zero_padded 40 (65 ∷ 66 ∷ 67 ∷ []);
  short_name_len = 1;
  short_name = zero_padded 5 (65 ∷ []);
  region = 3;
  modem_preset = 0;
  role = 0;
  num_channels = 1;
  channels = sample_channel ∷ replicate 7 no_channel;
  use_preset = 1;
  spread_factor = 11;
  bandwidth_code = 250;
  coding_rate = 5;
  channel_num = 0;
  hop_limit = 3;
  tx_enabled = 1;
  config_ok_to_mqtt = 0;
}

sample-IsSavedConfig : IsSavedConfig sample
unfolding IsSavedConfig IsSavedChannel IsPadded zero_padded replicate
sample-IsSavedConfig = (
  (omega arith, refl, refl),
  (omega arith, refl, refl),
  omega arith,
  refl,
  refl,
  (((omega arith, refl, refl), (omega arith, refl, refl)), tt),
  omega arith,
  omega arith,
  λ e. absurd (omega (arith, e)),
  λ e. absurd (omega (arith, e)),
  omega arith,
)

decode_config-encode_config_example : decode_config (encode_config sample) ≡ some sample
decode_config-encode_config_example = decode_config-encode_config sample sample-IsSavedConfig

all_bytes : (xs : List ℕ) → all (λ b. ltb b 256) xs ≡ true → All IsByte xs
unfolding all
all_bytes [] h = tt
all_bytes (x ∷ xs) h = (ground (arith, h), all_bytes xs (ground (arith, h)))

sample_bytes : all (λ b. ltb b 256) (encode_config sample) ≡ true
unfolding all encode_config config_fields front_fields channel_fields channel_fields_at back_fields
    write_fields zero_padded replicate
sample_bytes = refl

decode_config-IsSavedConfig_example : IsSavedConfig sample
decode_config-IsSavedConfig_example =
    decode_config-IsSavedConfig (encode_config sample) sample
      (length-encode_config sample sample-IsSavedConfig)
      (all_bytes (encode_config sample) sample_bytes)
      (decode_config-encode_config sample sample-IsSavedConfig)
