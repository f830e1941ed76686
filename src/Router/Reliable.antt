-- ===== src/Router/Reliable.antt =====
-- The reliable layer of router.rs: the packets that wait for an acknowledgement, and
-- `tick_retransmissions`. The source reads the clock when the tick begins and again when it sends
-- an entry; `clock i` is that second reading for the entry at index `i`, in milliseconds.
pub mod Sweep
pub mod Sends
pub mod Deadlines
pub mod Bounds
use meshtastenstein_rs.Base.{
  ℕ, zero, suc, ◌+◌, ◌-◌, Bool, true, false, Option, none, some, List, [], ◌∷◌, map, ◌==◌, ltb,
  if◌then◌else◌, length, get_elem?, set, swap_remove, push, unwrap_or,
}
use meshtastenstein_rs.Packet.{RadioFrame, Header, frame_header, write_header}
use meshtastenstein_rs.NodeDb.{NodeDb, modify}
use meshtastenstein_rs.Router.{no_next_hop}

-- constants.rs
abbrev pub want_ack_timeout_ms : ℕ
want_ack_timeout_ms = 5000

-- the capacity of the pending queue, and of the two vectors of the result
abbrev pub queue_size : ℕ
queue_size = 8

pub record PendingPacket : Type 0 where
  pub frame : RadioFrame
  pub packet_id : ℕ
  pub dest : ℕ
  pub sender : ℕ
  pub deadline : ℕ
  pub retries_left : ℕ
  pub is_our_packet : Bool
  pub ble_notify : Option ℕ

-- the pending queue, the node database, and `RetransmissionResult`, while the tick runs
pub record Tick (P M : Type 0) : Type 0 where
  pub pending : List PendingPacket
  pub db : NodeDb P M
  pub to_send : List RadioFrame
  pub gave_up : List (ℕ × ℕ)

unfoldable pub extend_pending_deadlines : ℕ → List PendingPacket → List PendingPacket
extend_pending_deadlines extension =
    map {A = PendingPacket} (λ p. record p { deadline = p.deadline + extension })

-- the frame of the last retry: flooded, with no next hop in its header
unfoldable pub flood_frame : RadioFrame → RadioFrame
flood_frame f = elim (frame_header f) [
  | none ↦ f
  | some h ↦ write_header (record h { next_hop = no_next_hop }) f
]

unfoldable pub retry_frame : PendingPacket → RadioFrame
retry_frame p = if p.retries_left - 1 == 0 then flood_frame p.frame else p.frame

-- the entry after a retry
unfoldable pub retried : ℕ → PendingPacket → PendingPacket
retried sent p = record p {
  frame = retry_frame p;
  deadline = sent + want_ack_timeout_ms;
  retries_left = p.retries_left - 1;
}

module _ {P M : Type 0} where
  -- a full `to_send` refuses the frame, which is then lost
  unfoldable pub resend : ℕ → ℕ → PendingPacket → Tick P M → Tick P M
  resend sent i p t = record {
    pending = set t.pending i (retried sent p);
    db =
        if p.retries_left - 1 == 0
        then modify p.dest (λ e. record e { next_hop = no_next_hop }) t.db
        else t.db;
    to_send = unwrap_or (push queue_size (retry_frame p) t.to_send) t.to_send;
    gave_up = t.gave_up;
  }

  unfoldable pub give_up : ℕ → PendingPacket → Tick P M → Tick P M
  give_up i p t = record t {
    pending = swap_remove i t.pending;
    gave_up = elim p.ble_notify [
      | none ↦ t.gave_up
      | some notify_dest ↦
          unwrap_or (push queue_size (notify_dest, p.packet_id) t.gave_up) t.gave_up
    ];
  }

  -- the body of the loop on the entry `p` at the index `i`, with the next index
  unfoldable pub visit : ℕ → (ℕ → ℕ) → ℕ → PendingPacket → Tick P M → ℕ × Tick P M
  visit now clock i p t =
      if ltb now p.deadline
      then (suc i, t)
      else if ltb 0 p.retries_left
      then (suc i, resend (clock i) i p t)
      else (i, give_up i p t)

  -- `while i < pending.len()`, at most `fuel` times
  unfoldable pub tick_loop : ℕ → (ℕ → ℕ) → ℕ → ℕ → Tick P M → ℕ × Tick P M
  tick_loop now clock zero i t = (i, t)
  tick_loop now clock (suc fuel) i t = elim (get_elem? t.pending i) [
    | none ↦ (i, t)
    | some p ↦ let (next, after) = visit now clock i p t in tick_loop now clock fuel next after
  ]

  unfoldable pub tick_retransmissions : ℕ → (ℕ → ℕ) → List PendingPacket → NodeDb P M → Tick P M
  tick_retransmissions now clock pending db =
      (tick_loop now clock (length pending) 0
        (record { pending = pending; db = db; to_send = []; gave_up = [] })).1
