-- ===== src/Mesh/Invariant/Periodic.antt =====
-- The state after the node's own broadcasts, handlers/periodic.rs.
use meshtastenstein_rs.Base.{
  ℕ, ◌≡◌, Bool, true, false, Bool-cases, inl, inr, List, ◌==◌, length, if◌then◌else◌,
}
use meshtastenstein_rs.Packet.{broadcast_addr}
use meshtastenstein_rs.Radio.{region_from_proto}
use meshtastenstein_rs.Proto.{PortNum, Wire}
use meshtastenstein_rs.Mesh.{Moment, MeshCtx, tx_allowed_polite}
use meshtastenstein_rs.Mesh.Send.{lora_send, node_info_payload}
use meshtastenstein_rs.Mesh.Periodic.{
  neighbors_of, is_nodeinfo_due, is_neighborinfo_due, is_position_due, broadcast_telemetry,
  broadcast_nodeinfo, broadcast_position, broadcast_neighborinfo, nodeinfo_turn, neighborinfo_turn,
  position_turn, periodic, show_telemetry, telemetry_to_phone,
}
use meshtastenstein_rs.Mesh.Core.{core, Good, Good-same, core-push_from_radio, core-lora_send}

module _ {P M F : Type 0} (w : Wire P M) (t : Moment) where
  lora_sent :
      (portnum : ℕ) (bytes : List ℕ) (ctx : MeshCtx P M F)
      → Good ctx
      → Good (lora_send w portnum bytes broadcast_addr false ctx).0
  lora_sent portnum bytes ctx g =
      Good-same (lora_send w portnum bytes broadcast_addr false ctx).0 ctx
        (core-lora_send w portnum bytes broadcast_addr false ctx) g

  pub broadcast_nodeinfo-Good : (ctx : MeshCtx P M F) → Good ctx → Good (broadcast_nodeinfo w t ctx)
  unfolding broadcast_nodeinfo core
  broadcast_nodeinfo-Good ctx g =
      let gs = lora_sent (w.port_code PortNum.nodeinfo_app) (node_info_payload w ctx) ctx g in
      elim (Bool-cases
        (lora_send w (w.port_code PortNum.nodeinfo_app) (node_info_payload w ctx) broadcast_addr
          false ctx).1) [ inl ok ↦ rw (ok) gs | inr lost ↦ rw (lost) gs ]

  broadcast_position-Good : (ctx : MeshCtx P M F) → Good ctx → Good (broadcast_position w t ctx)
  unfolding broadcast_position core
  broadcast_position-Good ctx g =
      let gs = lora_sent (w.port_code PortNum.position_app) ctx.my_position_bytes ctx g in
      elim (Bool-cases (length ctx.my_position_bytes == 0)) [
        | inl unset ↦ rw (unset) g
        | inr set ↦
            rw (set)
              (elim (Bool-cases
                (lora_send w (w.port_code PortNum.position_app) ctx.my_position_bytes broadcast_addr
                  false ctx).1) [ inl ok ↦ rw (ok) gs | inr lost ↦ rw (lost) gs ])
      ]

  broadcast_neighborinfo-Good :
      (ctx : MeshCtx P M F) → Good ctx → Good (broadcast_neighborinfo w t ctx)
  unfolding broadcast_neighborinfo core
  broadcast_neighborinfo-Good ctx g =
      let gs = lora_sent (w.port_code PortNum.neighborinfo_app) _ ctx g in
      elim (Bool-cases (length (neighbors_of ctx.device.my_node_num ctx.node_db.nodes) == 0)) [
        | inl alone ↦ rw (alone) g
        | inr among ↦ rw (among) gs
      ]

  pub turn : (b : Bool) (x y : MeshCtx P M F) → Good x → Good y → Good (if b then x else y)
  turn true x y gx gy = gx
  turn false x y gx gy = gy

  pub periodic-Good : (ctx : MeshCtx P M F) → Good ctx → Good (periodic w t ctx)
  unfolding periodic nodeinfo_turn neighborinfo_turn position_turn
  periodic-Good ctx g =
      let polite_ok : Bool =
        tx_allowed_polite w.floats ctx.channel_metrics
          (region_from_proto w.region_of ctx.device.region) in
      let first : MeshCtx P M F = nodeinfo_turn w t polite_ok ctx in
      let g1 : Good first =
        turn (is_nodeinfo_due w t polite_ok ctx) (broadcast_nodeinfo w t ctx) ctx
          (broadcast_nodeinfo-Good ctx g) g in
      let second : MeshCtx P M F = neighborinfo_turn w t polite_ok first in
      let g2 : Good second =
        turn (is_neighborinfo_due w t polite_ok first) (broadcast_neighborinfo w t first) first
          (broadcast_neighborinfo-Good first g1) g1 in
      turn (is_position_due w t polite_ok second) (broadcast_position w t second) second
        (broadcast_position-Good second g2) g2

  pub broadcast_telemetry-Good :
      (bytes : List ℕ) (ctx : MeshCtx P M F) → Good ctx → Good (broadcast_telemetry w t bytes ctx)
  unfolding broadcast_telemetry core
  broadcast_telemetry-Good bytes ctx g =
      let gs = lora_sent (w.port_code PortNum.telemetry_app) bytes ctx g in
      elim (Bool-cases
        (lora_send w (w.port_code PortNum.telemetry_app) bytes broadcast_addr false ctx).1) [
          | inl ok ↦ rw (ok) gs
          | inr lost ↦ rw (lost) gs
        ]

  core-show_telemetry :
      (bytes : List ℕ) (ctx : MeshCtx P M F) → core (show_telemetry w t bytes ctx) ≡ core ctx
  unfolding show_telemetry core
  core-show_telemetry bytes ctx = core-push_from_radio w _ _

  pub telemetry_to_phone-Good :
      (bytes : List ℕ) (ctx : MeshCtx P M F) → Good ctx → Good (telemetry_to_phone w t bytes ctx)
  unfolding telemetry_to_phone
  telemetry_to_phone-Good bytes ctx g =
      turn ctx.ble_connected (show_telemetry w t bytes ctx) ctx
        (Good-same (show_telemetry w t bytes ctx) ctx (core-show_telemetry bytes ctx) g) g
