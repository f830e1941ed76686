-- ===== src/Mesh/Exchange/Stages.antt =====
-- The two stages of the exchange on connecting, message by message.
use meshtastenstein_rs.Base.{
  ℕ, ◌+◌, ◌≡◌, refl, inl, inr, Option-cases, true, false, Option, none, some, List, [], ◌∷◌, ◌++◌,
  map, length, take, get_elem?, unwrap_or,
}
use meshtastenstein_rs.NodeDb.{NodeEntry}
use meshtastenstein_rs.Channels.{ChannelConfig, get_channel}
use meshtastenstein_rs.Radio.{bw_hz_to_code}
use meshtastenstein_rs.Device.{DeviceState}
use meshtastenstein_rs.Proto.{LoRaConfig, NodeInfo, FromRadio, Config, ModuleConfig, Wire}
use meshtastenstein_rs.Mesh.{MeshCtx}
use meshtastenstein_rs.Mesh.Send.{shown_user}
use meshtastenstein_rs.Mesh.Settings.{build_lora_config}
use meshtastenstein_rs.Mesh.Admin.{shown_settings, shown_role}
use meshtastenstein_rs.Mesh.Exchange.{channel_message, own_node_info, own_configs, config_messages}

-- the node as it shows itself to the phone
unfoldable pub self_info : {P M F : Type 0} → MeshCtx P M F → NodeInfo P
self_info {P} {M} {F} ctx = record {
  num = ctx.device.my_node_num;
  user = some (record {
    id = ctx.node_id_str;
    long_name = ctx.device.long_name;
    short_name = ctx.device.short_name;
    hw_model = ctx.device.hw_model;
    role = 0;
    public_key = ctx.pkc_pub_bytes;
  });
  position_info = none;
  snr = 0;
  last_heard = 0;
  hops_away = none;
  is_favorite = true;
  is_ignored = false;
  is_muted = false;
}

-- another node as it is shown to the phone
unfoldable pub entry_info : {P M : Type 0} → NodeEntry P M → NodeInfo P
entry_info {P} {M} entry = record {
  num = entry.node_num;
  user = some (shown_user entry);
  position_info = entry.position_info;
  snr = unwrap_or entry.snr 0;
  last_heard = entry.last_heard;
  hops_away = entry.hops_away;
  is_favorite = entry.is_favorite;
  is_ignored = entry.is_ignored;
  is_muted = entry.is_muted;
}

module _ {P M : Type 0} (w : Wire P M) where
  -- the settings of the radio, at 22 dBm
  unfoldable pub radio_settings : DeviceState → LoRaConfig
  radio_settings d = record {
    use_preset = d.use_preset;
    modem_preset = w.conversions.preset_code d.modem_preset;
    region = d.region;
    hop_limit = d.default_hops;
    tx_enabled = d.tx_enabled;
    config_ok_to_mqtt = d.config_ok_to_mqtt;
    spread_factor = d.custom_sf;
    bandwidth = bw_hz_to_code d.custom_bw_hz;
    coding_rate = d.custom_cr;
    channel_num = d.channel_num;
    tx_power = 22;
  }

  -- what a slot of the channel table is shown as
  unfoldable pub slot_message : ℕ → Option ChannelConfig → FromRadio P
  slot_message idx none = FromRadio.channel idx none 0
  slot_message idx (some ch) =
      FromRadio.channel idx (some (record { psk = ch.psk; name = ch.name }))
        (w.conversions.channel_role_code ch.role)

  unfoldable pub slot_at : ℕ → DeviceState → FromRadio P
  slot_at idx device = slot_message idx (unwrap_or (get_elem? device.channels idx) none)

  channel_message-slot :
      (device : DeviceState) (idx : ℕ) → channel_message w device idx ≡ slot_at idx device
  unfolding channel_message slot_message slot_at shown_settings shown_role get_channel
  channel_message-slot device idx =
      elim (Option-cases (unwrap_or (get_elem? device.channels idx) none)) [
        | inl empty ↦ rw (empty) refl
        | inr (ch, taken) ↦ rw (taken) refl
      ]

module _ {P M F : Type 0} (w : Wire P M) where
  -- the 41 messages of the first stage
  unfoldable pub first_stage : ℕ → MeshCtx P M F → List (FromRadio P)
  first_stage config_id ctx =
      FromRadio.my_info ctx.device.my_node_num (1 + length ctx.node_db.nodes)
      ∷ FromRadio.device_ui
      ∷ FromRadio.node_info (self_info ctx)
      ∷ FromRadio.metadata ctx.device.hw_model ctx.device.role
      ∷ FromRadio.region_presets
      ∷ slot_at w 0 ctx.device
      ∷ slot_at w 1 ctx.device
      ∷ slot_at w 2 ctx.device
      ∷ slot_at w 3 ctx.device
      ∷ slot_at w 4 ctx.device
      ∷ slot_at w 5 ctx.device
      ∷ slot_at w 6 ctx.device
      ∷ slot_at w 7 ctx.device
      ∷ FromRadio.config (Config.device (w.conversions.role_code ctx.device.role))
      ∷ FromRadio.config Config.position
      ∷ FromRadio.config Config.power
      ∷ FromRadio.config Config.network
      ∷ FromRadio.config Config.display
      ∷ FromRadio.config (Config.lora (radio_settings w ctx.device))
      ∷ FromRadio.config Config.bluetooth
      ∷ FromRadio.config (Config.security ctx.pkc_pub_bytes ctx.pkc_priv_bytes)
      ∷ FromRadio.config Config.session_key
      ∷ FromRadio.config Config.device_ui
      ∷ FromRadio.module_config ModuleConfig.mqtt
      ∷ FromRadio.module_config ModuleConfig.serial
      ∷ FromRadio.module_config ModuleConfig.external_notification
      ∷ FromRadio.module_config ModuleConfig.store_forward
      ∷ FromRadio.module_config ModuleConfig.range_test
      ∷ FromRadio.module_config ModuleConfig.telemetry
      ∷ FromRadio.module_config ModuleConfig.canned_message
      ∷ FromRadio.module_config ModuleConfig.audio
      ∷ FromRadio.module_config ModuleConfig.remote_hardware
      ∷ FromRadio.module_config ModuleConfig.neighbor_info
      ∷ FromRadio.module_config ModuleConfig.ambient_lighting
      ∷ FromRadio.module_config ModuleConfig.detection_sensor
      ∷ FromRadio.module_config ModuleConfig.paxcounter
      ∷ FromRadio.module_config ModuleConfig.status_message
      ∷ FromRadio.module_config ModuleConfig.traffic_management
      ∷ FromRadio.module_config ModuleConfig.tak
      ∷ FromRadio.module_config ModuleConfig.mesh_beacon
      ∷ FromRadio.config_complete_id config_id
      ∷ []

  pub config_messages-first_stage :
      (id : ℕ) (ctx : MeshCtx P M F) → config_messages w id ctx ≡ first_stage id ctx
  unfolding config_messages own_configs build_lora_config radio_settings first_stage own_node_info
      self_info
  config_messages-first_stage id ctx =
      rw
        (
          channel_message-slot w ctx.device 0,
          channel_message-slot w ctx.device 1,
          channel_message-slot w ctx.device 2,
          channel_message-slot w ctx.device 3,
          channel_message-slot w ctx.device 4,
          channel_message-slot w ctx.device 5,
          channel_message-slot w ctx.device 6,
          channel_message-slot w ctx.device 7,
        )
        refl

  -- the messages of the second stage: this node, the first ten of the database, and the end
  unfoldable pub second_stage : ℕ → MeshCtx P M F → List (FromRadio P)
  second_stage config_id ctx =
      FromRadio.node_info (self_info ctx)
      ∷ (map {A = NodeEntry P M} (λ e. FromRadio.node_info (entry_info e))
            (take 10 ctx.node_db.nodes)
          ++ (FromRadio.config_complete_id config_id ∷ []))
