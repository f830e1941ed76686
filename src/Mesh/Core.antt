-- ===== src/Mesh/Core.antt =====
-- The parts of the state on which the node's decisions rest, before and after sending.
use meshtastenstein_rs.Base.{
  ℕ, ◌≡◌, ◌≤◌, refl, sym, subst, Bool, Option, none, some, Bool-cases, Option-cases, inl, inr, List,
  ◌==◌, length,
}
use meshtastenstein_rs.Packet.{RadioFrame}
use meshtastenstein_rs.NodeDb.{NodeDb, get}
use meshtastenstein_rs.NodeDb.Invariant.{IsNodeDb}
use meshtastenstein_rs.Router.{MeshRouter}
use meshtastenstein_rs.Router.History.{IsHistory}
use meshtastenstein_rs.Router.Reliable.{PendingPacket, queue_size}
use meshtastenstein_rs.Relay.{PendingRebroadcast}
use meshtastenstein_rs.Radio.{region_from_proto}
use meshtastenstein_rs.Message.{TxBuilder}
use meshtastenstein_rs.Proto.{RoutingError, FromRadio, FromRadioMessage, Wire}
use meshtastenstein_rs.Mesh.{MeshCtx, position_capacity, tx_allowed_impolite}
use meshtastenstein_rs.Mesh.Send.{
  PacketForwardArgs, try_send, push_from_radio, forward_to_ble, notify_ble_node_update, send_frame,
  with_next_id, next_frame, transmit_next, lora_send, send_nodeinfo, send_ble_routing_result,
}
use meshtastenstein_rs.Mesh.Admin.{on_node_db}

pub record Core (P M : Type 0) : Type 0 where
  pub db : NodeDb P M
  pub router : MeshRouter
  pub waiting : List PendingPacket
  pub relays : List PendingRebroadcast
  pub place : List ℕ

-- The database and the history are well formed, and no queue holds more than its capacity.
pub record IsCore {P M : Type 0} (c : Core P M) : Type 0 where
  pub nodes : IsNodeDb c.db
  pub history : IsHistory c.router
  pub waiting_fit : length c.waiting ≤ queue_size
  pub relays_fit : length c.relays ≤ queue_size
  pub place_fits : length c.place ≤ position_capacity

module _ {P M F : Type 0} where
  unfoldable pub core : MeshCtx P M F → Core P M
  core ctx = record {
    db = ctx.node_db;
    router = ctx.router;
    waiting = ctx.pending_packets;
    relays = ctx.pending_rebroadcast;
    place = ctx.my_position_bytes;
  }

  core-try_send :
      (msg : FromRadioMessage) (ctx : MeshCtx P M F) → core (try_send msg ctx) ≡ core ctx
  unfolding core try_send
  core-try_send msg ctx = elim (Bool-cases (ctx.ble_free == 0)) [
    | inl full ↦ rw (full, try_send) refl
    | inr free ↦ rw (free, try_send) refl
  ]

  pub core-send_frame :
      (frame : Option RadioFrame) (ctx : MeshCtx P M F) → core (send_frame frame ctx) ≡ core ctx
  unfolding core send_frame
  core-send_frame none ctx = refl
  core-send_frame (some frame) ctx = refl

module _ {P M F : Type 0} (w : Wire P M) where
  pub core-push_from_radio :
      (variant : FromRadio P) (ctx : MeshCtx P M F)
      → core (push_from_radio w variant ctx) ≡ core ctx
  unfolding push_from_radio core
  core-push_from_radio variant ctx = core-try_send _ _

  pub core-forward_to_ble :
      (args : PacketForwardArgs) (ctx : MeshCtx P M F) → core (forward_to_ble w args ctx) ≡ core ctx
  unfolding forward_to_ble
  core-forward_to_ble args ctx = core-push_from_radio _ ctx

  pub core-notify_ble_node_update :
      (n : ℕ) (ctx : MeshCtx P M F) → core (notify_ble_node_update w n ctx) ≡ core ctx
  unfolding notify_ble_node_update core
  core-notify_ble_node_update n ctx = elim (Option-cases (get n ctx.node_db)) [
    | inl unknown ↦ rw (unknown, notify_ble_node_update) refl
    | inr (e, known) ↦ rw (known, notify_ble_node_update) (core-push_from_radio _ ctx)
  ]

  pub core-transmit_next :
      (tx : TxBuilder) (ctx : MeshCtx P M F) → core (transmit_next w tx ctx) ≡ core ctx
  unfolding transmit_next with_next_id core
  core-transmit_next tx ctx = core-send_frame (next_frame w tx ctx) (with_next_id ctx)

  pub core-lora_send :
      (portnum : ℕ) (bytes : List ℕ) (dest : ℕ) (want_response : Bool) (ctx : MeshCtx P M F)
      → core (lora_send w portnum bytes dest want_response ctx).0 ≡ core ctx
  unfolding lora_send
  core-lora_send portnum bytes dest want_response ctx =
      elim (Bool-cases (
        tx_allowed_impolite w.floats ctx.channel_metrics
          (region_from_proto w.region_of ctx.device.region))) [
            | inl allowed ↦ rw (allowed, lora_send) (core-transmit_next _ ctx)
            | inr above ↦ rw (above, lora_send) refl
          ]

  pub core-send_nodeinfo :
      (dest : ℕ) (want_response : Bool) (ctx : MeshCtx P M F)
      → core (send_nodeinfo w dest want_response ctx) ≡ core ctx
  unfolding send_nodeinfo
  core-send_nodeinfo dest want_response ctx = core-lora_send _ _ dest want_response ctx

  pub core-send_ble_routing_result :
      (dest request_id : ℕ) (error : RoutingError) (ctx : MeshCtx P M F)
      → core (send_ble_routing_result w dest request_id error ctx) ≡ core ctx
  unfolding send_ble_routing_result core
  core-send_ble_routing_result dest request_id error ctx = core-push_from_radio _ _

-- what every reachable state of the node has
abbrev pub Good : {P M F : Type 0} → MeshCtx P M F → Type 0
Good {P} {M} {F} ctx = IsCore (core ctx)

module _ {P M F : Type 0} where
  pub Good-same : (a b : MeshCtx P M F) → core a ≡ core b → Good b → Good a
  Good-same a b e g = subst (λ c. IsCore c) (sym e) g

  -- a change of the database that keeps it well formed
  pub Good-on_node_db :
      (f : NodeDb P M → NodeDb P M) (ctx : MeshCtx P M F)
      → (IsNodeDb ctx.node_db → IsNodeDb (f ctx.node_db))
      → Good ctx
      → Good (on_node_db f ctx)
  unfolding core
  Good-on_node_db f ctx keeps g = record {
    nodes = keeps g.nodes;
    history = g.history;
    waiting_fit = g.waiting_fit;
    relays_fit = g.relays_fit;
    place_fits = g.place_fits;
  }
