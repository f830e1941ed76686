-- ===== src/Mesh/Invariant/Admin.antt =====
-- The state after a command of administration, handlers/admin/.
use meshtastenstein_rs.Base.{
  ℕ, ◌≡◌, ◌≤◌, refl, Bool, true, false, Option, none, some, Bool-cases, Option-cases, inl, inr,
  List, [], length, arith,
}
use meshtastenstein_rs.NodeDb.{new_db, set_favorite, set_ignored, toggle_muted, remove}
use meshtastenstein_rs.NodeDb.Invariant.{Step, Step-IsNodeDb, Reachable, Reachable-IsNodeDb}
use meshtastenstein_rs.Session.{is_authorized}
use meshtastenstein_rs.Storage.{Flash}
use meshtastenstein_rs.Proto.{
  ChannelSettings, Config, ModuleConfig, AdminRequest, AdminResponse, Wire,
}
use meshtastenstein_rs.Mesh.{Moment, MeshCtx, position_capacity}
use meshtastenstein_rs.Mesh.Settings.{apply_channel}
use meshtastenstein_rs.Mesh.Admin.{
  position_bytes_of, add_contact, module_config_answer, await_send, save_device, set_config,
  admin_set_channel, factory_reset, answer_phone, send_admin_response, get_owner, get_config,
  get_module_config, admin_get_channel, handle_request, admin_dispatch,
}
use meshtastenstein_rs.Mesh.Core.{core, Good, Good-same, Good-on_node_db, core-transmit_next}
use meshtastenstein_rs.Mesh.Invariant.Database.{IsNodeDb-add_contact}

pub position_bytes_of-bound :
    (bytes : List ℕ) → length (position_bytes_of bytes) ≤ position_capacity
unfolding position_bytes_of
position_bytes_of-bound bytes = ground arith

module _ {P M F : Type 0} (w : Wire P M) (t : Moment) (requester id : ℕ) (lora : Bool) where
  core-send_admin_response :
      (answer : AdminResponse) (ctx : MeshCtx P M F)
      → core (send_admin_response w t requester id lora answer ctx) ≡ core ctx
  unfolding send_admin_response answer_phone await_send core
  core-send_admin_response answer ctx = elim (Bool-cases lora) [
    | inl far ↦ rw (far) (core-transmit_next w _ _)
    | inr near ↦ rw (near) refl
  ]

module _ {P M F : Type 0} (w : Wire P M) (nor : Flash F) (t : Moment) where
  set_config-core :
      (cfg : Option Config) (ctx : MeshCtx P M F) → core (set_config w nor cfg ctx) ≡ core ctx
  unfolding set_config save_device core
  set_config-core none ctx = refl
  set_config-core (some cfg) ctx = refl

  set_channel-core :
      (index : ℕ) (settings : Option ChannelSettings) (role : ℕ) (ctx : MeshCtx P M F)
      → core (admin_set_channel w nor index settings role ctx) ≡ core ctx
  unfolding admin_set_channel save_device core
  set_channel-core index settings role ctx =
      elim (Option-cases (apply_channel w index settings role ctx.device)) [
        | inl refused ↦ rw (refused, admin_set_channel) refl
        | inr (device, set) ↦ rw (set, admin_set_channel) refl
      ]

  answered :
      (requester id : ℕ) (lora : Bool) (answer : AdminResponse) (ctx : MeshCtx P M F)
      → Good ctx
      → Good (send_admin_response w t requester id lora answer ctx)
  answered requester id lora answer ctx g =
      Good-same (send_admin_response w t requester id lora answer ctx) ctx
        (core-send_admin_response w t requester id lora answer ctx) g

  get_config-Good :
      (requester id : ℕ) (lora : Bool) (kind : Option Config) (ctx : MeshCtx P M F)
      → Good ctx
      → Good (get_config w t requester id lora kind ctx)
  unfolding get_config
  get_config-Good requester id lora none ctx g = g
  get_config-Good requester id lora (some kind) ctx g = answered requester id lora _ ctx g

  get_module_config-Good :
      (requester id : ℕ) (lora : Bool) (kind : Option ModuleConfig) (ctx : MeshCtx P M F)
      → Good ctx
      → Good (get_module_config w t requester id lora kind ctx)
  unfolding get_module_config
  get_module_config-Good requester id lora none ctx g = g
  get_module_config-Good requester id lora (some kind) ctx g =
      elim (Option-cases (module_config_answer kind)) [
        | inl missing ↦ rw (missing, get_module_config) g
        | inr (answer, given) ↦
            rw (given, get_module_config)
              (answered requester id lora (AdminResponse.module_config answer) ctx g)
      ]

  with_place :
      (bytes : List ℕ) (ctx : MeshCtx P M F)
      → length bytes ≤ position_capacity
      → Good ctx
      → Good (record ctx { my_position_bytes = bytes })
  unfolding core
  with_place bytes ctx fits g = record {
    nodes = g.nodes;
    history = g.history;
    waiting_fit = g.waiting_fit;
    relays_fit = g.relays_fit;
    place_fits = fits;
  }

  -- whatever the request is
  handle_request-Good :
      (requester id : ℕ) (lora : Bool) (request : AdminRequest P) (ctx : MeshCtx P M F)
      → Good ctx
      → Good (handle_request w nor t requester id lora request ctx)
  unfolding handle_request get_owner admin_get_channel save_device factory_reset core
  handle_request-Good q id lora AdminRequest.get_owner_request ctx g = answered q id lora _ ctx g
  handle_request-Good q id lora (AdminRequest.get_config_request kind) ctx g =
      get_config-Good q id lora (w.config_type_of kind) ctx g
  handle_request-Good q id lora (AdminRequest.get_channel_request idx) ctx g =
      answered q id lora _ ctx g
  handle_request-Good q id lora (AdminRequest.get_module_config_request kind) ctx g =
      get_module_config-Good q id lora (w.module_config_type_of kind) ctx g
  handle_request-Good q id lora (AdminRequest.set_owner user) ctx g = g
  handle_request-Good q id lora (AdminRequest.set_config cfg) ctx g =
      Good-same (set_config w nor cfg ctx) ctx (set_config-core cfg ctx) g
  handle_request-Good q id lora AdminRequest.set_module_config ctx g = g
  handle_request-Good q id lora (AdminRequest.set_channel index settings role) ctx g =
      Good-same (admin_set_channel w nor index settings role ctx) ctx
        (set_channel-core index settings role ctx) g
  handle_request-Good q id lora (AdminRequest.set_favorite_node n) ctx g =
      Good-on_node_db (set_favorite n true) ctx
        (λ h. Step-IsNodeDb (Step.favorite ctx.node_db n true) h) g
  handle_request-Good q id lora (AdminRequest.remove_favorite_node n) ctx g =
      Good-on_node_db (set_favorite n false) ctx
        (λ h. Step-IsNodeDb (Step.favorite ctx.node_db n false) h) g
  handle_request-Good q id lora (AdminRequest.set_ignored_node n) ctx g =
      Good-on_node_db (set_ignored n true) ctx
        (λ h. Step-IsNodeDb (Step.ignored ctx.node_db n true) h) g
  handle_request-Good q id lora (AdminRequest.remove_ignored_node n) ctx g =
      Good-on_node_db (set_ignored n false) ctx
        (λ h. Step-IsNodeDb (Step.ignored ctx.node_db n false) h) g
  handle_request-Good q id lora (AdminRequest.toggle_muted_node n) ctx g =
      Good-on_node_db (toggle_muted n) ctx (λ h. Step-IsNodeDb (Step.muted ctx.node_db n) h) g
  handle_request-Good q id lora (AdminRequest.add_contact contact) ctx g =
      Good-on_node_db (add_contact contact) ctx (IsNodeDb-add_contact contact ctx.node_db) g
  handle_request-Good q id lora (AdminRequest.set_fixed_position place) ctx g =
      with_place (position_bytes_of (w.encode_position place)) ctx (position_bytes_of-bound _) g
  handle_request-Good q id lora AdminRequest.remove_fixed_position ctx g =
      with_place [] ctx (omega arith) g
  handle_request-Good q id lora AdminRequest.begin_edit_settings ctx g = answered q id lora _ ctx g
  handle_request-Good q id lora AdminRequest.commit_edit_settings ctx g = answered q id lora _ ctx g
  handle_request-Good q id lora (AdminRequest.reboot_seconds secs) ctx g = g
  handle_request-Good q id lora AdminRequest.factory_reset_config ctx g = g
  handle_request-Good q id lora AdminRequest.nodedb_reset ctx g =
      Good-on_node_db (λ db. new_db ctx.device.my_node_num) ctx
        (λ h. Reachable-IsNodeDb ctx.device.my_node_num _ Reachable.boot) g
  handle_request-Good q id lora (AdminRequest.shutdown_seconds secs) ctx g = g
  handle_request-Good q id lora (AdminRequest.remove_by_nodenum n) ctx g =
      Good-on_node_db (λ db. (remove n db).0) ctx
        (λ h. Step-IsNodeDb (Step.removed ctx.node_db n) h) g
  handle_request-Good q id lora AdminRequest.unhandled ctx g = g

  pub admin_dispatch-Good :
      (requester id : ℕ) (bytes : List ℕ) (lora : Bool) (ctx : MeshCtx P M F)
      → Good ctx
      → Good (admin_dispatch w nor t requester id bytes lora ctx)
  unfolding admin_dispatch
  admin_dispatch-Good requester id bytes lora ctx g = elim (Option-cases (w.decode_admin bytes)) [
    | inl garbled ↦ rw (garbled, admin_dispatch) g
    | inr (msg, read) ↦
        rw (read, admin_dispatch)
          (elim (Bool-cases (is_authorized t.now lora msg.session_passkey ctx.session_passkey)) [
            | inl allowed ↦
                rw (allowed) (handle_request-Good requester id lora msg.payload_variant ctx g)
            | inr denied ↦ rw (denied) g
          ])
  ]
