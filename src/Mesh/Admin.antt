-- ===== src/Mesh/Admin.antt =====
-- Administration: meshtastenstein-core/src/domain/handlers/admin/mod.rs, with get_owner.rs,
-- get_config.rs, get_channel.rs, get_module_config.rs, misc.rs and node_actions.rs. The settings
-- themselves are changed in Mesh/Settings, and the session key is that of Session.
pub mod Locked
use meshtastenstein_rs.Base.{
  ℕ, ◌-◌, ◌%◌, Bool, true, false, ◌&&◌, not, Option, none, some, List, [], ◌∷◌, ◌++◌, ◌==◌, leb,
  if◌then◌else◌, length, any,
}
use meshtastenstein_rs.NodeDb.{
  User, NodeDb, new_db, get_or_create, modify, mark_dirty, update_pub_key, set_favorite,
  set_ignored, toggle_muted, remove,
}
use meshtastenstein_rs.Channels.{ChannelConfig, get_channel}
use meshtastenstein_rs.Device.{DeviceState, next_from_radio_id, next_packet_id}
use meshtastenstein_rs.Message.{TxBuilder}
use meshtastenstein_rs.Storage.{Flash}
use meshtastenstein_rs.Storage.Blobs.{save_state, erase_config, clear_bond}
use meshtastenstein_rs.Session.{ensure_session_passkey, response_key, is_authorized}
use meshtastenstein_rs.Proto.{
  PortNum, MeshPacket, FromRadio, FromRadioMessage, ChannelSettings, Config, ModuleConfig,
  SharedContact, AdminRequest, AdminResponse, Wire,
}
use meshtastenstein_rs.Mesh.{Moment, MeshCtx, position_capacity}
use meshtastenstein_rs.Mesh.Send.{
  default_data, default_packet, builder, transmit_next, encode_from_radio,
}
use meshtastenstein_rs.Mesh.Settings.{apply_owner, apply_config, apply_channel, build_lora_config}

-- a key of 32 bytes that is not all zero
unfoldable pub shared_pub_key : User → Option (List ℕ)
shared_pub_key user =
    if length user.public_key == 32 && any (λ b. not (b == 0)) user.public_key
    then some user.public_key
    else none

-- `clear` and `extend_from_slice` on `my_position_bytes`
unfoldable pub position_bytes_of : List ℕ → List ℕ
position_bytes_of bytes = if leb (length bytes) position_capacity then bytes else []

-- the channel as the phone is told of it: index, settings and role
unfoldable pub shown_settings : Option ChannelConfig → Option ChannelSettings
shown_settings none = none
shown_settings (some ch) = some (record { psk = ch.psk; name = ch.name })

unfoldable pub module_config_answer : ModuleConfig → Option ModuleConfig
module_config_answer ModuleConfig.traffic_management = none
module_config_answer ModuleConfig.tak = none
module_config_answer ModuleConfig.mesh_beacon = none
module_config_answer other = some other

unfoldable pub live_tx_enabled : Config → Bool → Bool
live_tx_enabled (Config.lora l) before = l.tx_enabled
live_tx_enabled other before = before

module _ {P M : Type 0} where
  -- what `AddContact` does to the database, from the entry that was lent on
  unfoldable pub add_contact_to : SharedContact → User → NodeDb P M → NodeDb P M
  add_contact_to contact user db =
      let entered = modify contact.node_num (λ e. record e { user = some user }) db in
      let keyed : NodeDb P M = elim (shared_pub_key user) [
        | none ↦ entered
        | some key ↦ update_pub_key contact.node_num key entered
      ] in
      let marked = mark_dirty keyed in
      if contact.should_ignore
      then set_favorite contact.node_num false (set_ignored contact.node_num true marked)
      else set_favorite contact.node_num true marked

  unfoldable pub add_contact : SharedContact → NodeDb P M → NodeDb P M
  add_contact contact db = elim contact.user [
    | none ↦ db
    | some user ↦ elim (get_or_create contact.node_num db) [
      | none ↦ db
      | some lent ↦ add_contact_to contact user lent
    ]
  ]

module _ {P M : Type 0} (w : Wire P M) where
  unfoldable pub shown_role : Option ChannelConfig → ℕ
  shown_role none = 0
  shown_role (some ch) = w.conversions.channel_role_code ch.role

  unfoldable pub config_answer : Config → DeviceState → Config
  config_answer (Config.device role) d = Config.device (w.conversions.role_code d.role)
  config_answer (Config.lora l) d = Config.lora (build_lora_config w d)
  config_answer Config.position d = Config.position
  config_answer Config.power d = Config.power
  config_answer Config.network d = Config.network
  config_answer Config.display d = Config.display
  config_answer Config.bluetooth d = Config.bluetooth
  config_answer (Config.security public private) d = Config.security [] []
  config_answer Config.session_key d = Config.session_key
  config_answer Config.device_ui d = Config.device_ui

module _ {P M : Type 0} (w : Wire P M) (requester req_pkt_id : ℕ) where
  unfoldable pub admin_builder : List ℕ → TxBuilder
  admin_builder bytes = record (builder w) {
    dest = requester;
    portnum = w.port_code PortNum.admin_app;
    inner_payload = bytes;
    request_id = req_pkt_id;
  }

  unfoldable pub admin_packet : ℕ → ℕ → List ℕ → MeshPacket
  admin_packet our packet_id bytes = record default_packet {
    from = our;
    to = requester;
    id = packet_id;
    decoded = some (record default_data {
      portnum = w.port_code PortNum.admin_app;
      inner_payload = bytes;
      request_id = req_pkt_id;
    });
  }

module _ {P M F : Type 0} where
  -- a change of the database
  abbrev pub on_node_db : (NodeDb P M → NodeDb P M) → MeshCtx P M F → MeshCtx P M F
  on_node_db f ctx = record ctx { node_db = f ctx.node_db }

  -- `tx_to_ble.send`, which waits until the queue has a place
  unfoldable pub await_send : FromRadioMessage → MeshCtx P M F → MeshCtx P M F
  await_send msg ctx = record ctx {
    to_phone = ctx.to_phone ++ (msg ∷ []);
    ble_free = ctx.ble_free - 1;
  }

module _ {P M F : Type 0} (w : Wire P M) (nor : Flash F) where
  -- the new settings, in memory and in flash; an error of the flash is only logged
  unfoldable pub save_device : DeviceState → MeshCtx P M F → MeshCtx P M F
  save_device device ctx = record ctx {
    device = device;
    storage = (save_state nor w.conversions device ctx.storage).0;
  }

  unfoldable pub set_config : Option Config → MeshCtx P M F → MeshCtx P M F
  set_config none ctx = ctx
  set_config (some cfg) ctx = record (save_device (apply_config w cfg ctx.device) ctx) {
    tx_enabled = live_tx_enabled cfg ctx.tx_enabled;
  }

  unfoldable pub admin_set_channel : ℕ → Option ChannelSettings → ℕ → MeshCtx P M F → MeshCtx P M F
  admin_set_channel index settings role ctx =
      elim (apply_channel w index settings role ctx.device) [
        | none ↦ ctx
        | some device ↦ save_device device ctx
      ]

  unfoldable pub factory_reset : MeshCtx P M F → MeshCtx P M F
  factory_reset ctx = record ctx {
    storage = clear_bond nor (erase_config nor ctx.storage);
    reboot_after_secs = some 2;
  }

module _ {P M F : Type 0} (w : Wire P M) (t : Moment) (requester req_pkt_id : ℕ)
    (via_lora : Bool) where
  unfoldable pub answer_phone : List ℕ → MeshCtx P M F → MeshCtx P M F
  answer_phone bytes ctx =
      let (device, packet_id) = next_packet_id ctx.device in
      let (next, id) = next_from_radio_id ctx.from_radio_id in
      let variant =
        FromRadio.packet (admin_packet w requester req_pkt_id device.my_node_num packet_id bytes) in
      await_send (record { bytes = encode_from_radio w id variant; id = id })
        (record ctx { device = device; from_radio_id = next })

  unfoldable pub send_admin_response : AdminResponse → MeshCtx P M F → MeshCtx P M F
  send_admin_response answer ctx =
      let session = ensure_session_passkey t.now t.random_low t.random_high ctx.session_passkey in
      let bytes = w.encode_admin (response_key session) answer in
      let issued = record ctx { session_passkey = session } in
      if via_lora
      then transmit_next w (admin_builder w requester req_pkt_id bytes) issued
      else answer_phone bytes issued

  unfoldable pub get_owner : MeshCtx P M F → MeshCtx P M F
  get_owner ctx =
      send_admin_response
        (AdminResponse.owner (record {
          id = ctx.node_id_str;
          long_name = ctx.device.long_name;
          short_name = ctx.device.short_name;
          hw_model = ctx.device.hw_model;
          role = 0;
          public_key = [];
        }))
        ctx

  unfoldable pub get_config : Option Config → MeshCtx P M F → MeshCtx P M F
  get_config none ctx = ctx
  get_config (some kind) ctx =
      send_admin_response (AdminResponse.config (config_answer w kind ctx.device)) ctx

  unfoldable pub get_module_config : Option ModuleConfig → MeshCtx P M F → MeshCtx P M F
  get_module_config none ctx = ctx
  get_module_config (some kind) ctx = elim (module_config_answer kind) [
    | none ↦ ctx
    | some answer ↦ send_admin_response (AdminResponse.module_config answer) ctx
  ]

  unfoldable pub admin_get_channel : ℕ → MeshCtx P M F → MeshCtx P M F
  admin_get_channel idx_plus_1 ctx =
      let idx = (idx_plus_1 - 1) % 256 in
      let ch = get_channel idx ctx.device.channels in
      send_admin_response (AdminResponse.channel idx (shown_settings ch) (shown_role w ch)) ctx

module _ {P M F : Type 0} (w : Wire P M) (nor : Flash F) (t : Moment) where
  -- the arms of the `match` on the payload
  unfoldable pub handle_request : ℕ → ℕ → Bool → AdminRequest P → MeshCtx P M F → MeshCtx P M F
  handle_request requester id lora AdminRequest.get_owner_request ctx =
      get_owner w t requester id lora ctx
  handle_request requester id lora (AdminRequest.get_config_request kind) ctx =
      get_config w t requester id lora (w.config_type_of kind) ctx
  handle_request requester id lora (AdminRequest.get_channel_request idx_plus_1) ctx =
      admin_get_channel w t requester id lora idx_plus_1 ctx
  handle_request requester id lora (AdminRequest.get_module_config_request kind) ctx =
      get_module_config w t requester id lora (w.module_config_type_of kind) ctx
  handle_request requester id lora (AdminRequest.set_owner user) ctx =
      save_device w nor (apply_owner w user ctx.device) ctx
  handle_request requester id lora (AdminRequest.set_config cfg) ctx = set_config w nor cfg ctx
  handle_request requester id lora AdminRequest.set_module_config ctx = ctx
  handle_request requester id lora (AdminRequest.set_channel index settings role) ctx =
      admin_set_channel w nor index settings role ctx
  handle_request requester id lora (AdminRequest.set_favorite_node n) ctx =
      on_node_db (set_favorite n true) ctx
  handle_request requester id lora (AdminRequest.remove_favorite_node n) ctx =
      on_node_db (set_favorite n false) ctx
  handle_request requester id lora (AdminRequest.set_ignored_node n) ctx =
      on_node_db (set_ignored n true) ctx
  handle_request requester id lora (AdminRequest.remove_ignored_node n) ctx =
      on_node_db (set_ignored n false) ctx
  handle_request requester id lora (AdminRequest.toggle_muted_node n) ctx =
      on_node_db (toggle_muted n) ctx
  handle_request requester id lora (AdminRequest.add_contact contact) ctx =
      on_node_db (add_contact contact) ctx
  handle_request requester id lora (AdminRequest.set_fixed_position place) ctx = record ctx {
    my_position_bytes = position_bytes_of (w.encode_position place);
  }
  handle_request requester id lora AdminRequest.remove_fixed_position ctx = record ctx {
    my_position_bytes = [];
  }
  handle_request requester id lora AdminRequest.begin_edit_settings ctx =
      send_admin_response w t requester id lora AdminResponse.begin_edit_settings ctx
  handle_request requester id lora AdminRequest.commit_edit_settings ctx =
      send_admin_response w t requester id lora AdminResponse.commit_edit_settings ctx
  handle_request requester id lora (AdminRequest.reboot_seconds secs) ctx = record ctx {
    reboot_after_secs = some secs;
  }
  handle_request requester id lora AdminRequest.factory_reset_config ctx = factory_reset w nor ctx
  handle_request requester id lora AdminRequest.nodedb_reset ctx =
      on_node_db (λ db. new_db ctx.device.my_node_num) ctx
  handle_request requester id lora (AdminRequest.shutdown_seconds secs) ctx = record ctx {
    shutdown_after_secs = some secs;
  }
  handle_request requester id lora (AdminRequest.remove_by_nodenum n) ctx =
      on_node_db (λ db. (remove n db).0) ctx
  handle_request requester id lora AdminRequest.unhandled ctx = ctx

  -- `admin::dispatch`
  unfoldable pub admin_dispatch : ℕ → ℕ → List ℕ → Bool → MeshCtx P M F → MeshCtx P M F
  admin_dispatch requester req_pkt_id admin_bytes via_lora ctx = elim (w.decode_admin admin_bytes) [
    | none ↦ ctx
    | some msg ↦
        if is_authorized t.now via_lora msg.session_passkey ctx.session_passkey
        then handle_request requester req_pkt_id via_lora msg.payload_variant ctx
        else ctx
  ]
