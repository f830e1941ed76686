-- ===== src/Mesh/Invariant/Database.antt =====
-- The database after what the handlers do to it.
use meshtastenstein_rs.Base.{
  ℕ, zero, suc, ◌-◌, ◌%◌, ◌≤◌, refl, Bool, true, false, not, Option, none, some, Bool-cases,
  Option-cases, inl, inr, List, [], ◌∷◌, ◌==◌, ltb, length, length-set, length-swap_remove,
  get_elem?, if◌then◌else◌, arith,
}
use meshtastenstein_rs.Packet.{Header}
use meshtastenstein_rs.NodeDb.{
  User, NodeDb, get, get_or_create, modify, mark_dirty, touch, update_pub_key, set_favorite,
  set_ignored,
}
use meshtastenstein_rs.NodeDb.Invariant.{IsNodeDb, Step, Step-IsNodeDb}
use meshtastenstein_rs.Router.{no_next_hop, learn_route}
use meshtastenstein_rs.Router.Reliable.{
  PendingPacket, Tick, retried, visit, resend, give_up, tick_loop, tick_retransmissions,
}
use meshtastenstein_rs.Proto.{SharedContact}
use meshtastenstein_rs.Mesh.Admin.{shared_pub_key, add_contact, add_contact_to}
use meshtastenstein_rs.Mesh.Ports.{touch_neighbors, learn_user, learn_metrics}
use meshtastenstein_rs.Mesh.Receive.{hops_travelled, touch_sender}

module _ {P M : Type 0} where
  pub IsNodeDb-touch_neighbors :
      (ns : List ℕ) (db : NodeDb P M) → IsNodeDb db → IsNodeDb (touch_neighbors ns db)
  unfolding touch_neighbors
  IsNodeDb-touch_neighbors [] db h = h
  IsNodeDb-touch_neighbors (n ∷ ns) db h =
      IsNodeDb-touch_neighbors ns (touch n 0 none 0 db)
        (Step-IsNodeDb (Step.touched db n 0 none 0) h)

  pub IsNodeDb-learn_user :
      (n : ℕ) (user : User) (db : NodeDb P M) → IsNodeDb db → IsNodeDb (learn_user n user db)
  unfolding learn_user
  IsNodeDb-learn_user n user db h = elim (Option-cases (shared_pub_key user)) [
    | inl missing ↦ rw (missing, learn_user) (Step-IsNodeDb (Step.user db n user) h)
    | inr (key, given) ↦
        rw (given, learn_user)
          (Step-IsNodeDb (Step.user (update_pub_key n key db) n user)
            (Step-IsNodeDb (Step.pub_key db n key) h))
  ]

  pub IsNodeDb-learn_metrics :
      (n : ℕ) (metrics : Option M) (db : NodeDb P M)
      → IsNodeDb db
      → IsNodeDb (learn_metrics n metrics db)
  unfolding learn_metrics
  IsNodeDb-learn_metrics n none db h = h
  IsNodeDb-learn_metrics n (some metrics) db h = Step-IsNodeDb (Step.metrics db n metrics) h

  pub IsNodeDb-touch_sender :
      (now snr : ℕ) (h : Header) (db : NodeDb P M)
      → IsNodeDb db
      → IsNodeDb (touch_sender now snr h db)
  unfolding touch_sender
  IsNodeDb-touch_sender now snr h db k =
      Step-IsNodeDb
        (Step.write (touch h.sender 0 (some snr) now db) h.sender
          (λ e. record e { hops_away = hops_travelled h }) (λ e. refl))
        (Step-IsNodeDb (Step.touched db h.sender 0 (some snr) now) k)

  IsNodeDb-add_contact_to :
      (contact : SharedContact) (user : User) (db : NodeDb P M)
      → IsNodeDb db
      → IsNodeDb (add_contact_to contact user db)
  unfolding add_contact_to mark_dirty
  IsNodeDb-add_contact_to contact user db h =
      let n = contact.node_num in
      let entered : NodeDb P M = modify n (λ e. record e { user = some user }) db in
      let he : IsNodeDb entered =
        Step-IsNodeDb (Step.write db n (λ e. record e { user = some user }) (λ e. refl)) h in
      let finish : (d : NodeDb P M)
          → IsNodeDb d
          → IsNodeDb (
              if contact.should_ignore
              then set_favorite n false (set_ignored n true (mark_dirty d))
              else set_favorite n true (mark_dirty d)) =
        λ d k. elim (Bool-cases contact.should_ignore) [
          | inl ignored ↦ rw (ignored) (
              Step-IsNodeDb (Step.favorite (set_ignored n true (mark_dirty d)) n false)
                (Step-IsNodeDb (Step.ignored (mark_dirty d) n true) k))
          | inr heeded ↦ rw (heeded) (Step-IsNodeDb (Step.favorite (mark_dirty d) n true) k)
        ] in
      elim (Option-cases (shared_pub_key user)) [
        | inl missing ↦ rw (missing) (finish entered he)
        | inr (key, given) ↦
            rw (given) (
              finish (update_pub_key n key entered) (Step-IsNodeDb (Step.pub_key entered n key) he))
      ]

  pub IsNodeDb-add_contact :
      (contact : SharedContact) (db : NodeDb P M) → IsNodeDb db → IsNodeDb (add_contact contact db)
  unfolding add_contact
  IsNodeDb-add_contact contact db h = elim (Option-cases contact.user) [
    | inl nobody ↦ rw (nobody, add_contact) h
    | inr (user, named) ↦ elim (Option-cases (get_or_create contact.node_num db)) [
      | inl refused ↦ rw (named, refused, add_contact) h
      | inr (lent, e) ↦
          rw (named, e, add_contact)
            (IsNodeDb-add_contact_to contact user lent
              (Step-IsNodeDb (Step.lend contact.node_num e) h))
    ]
  ]

  -- the write of a next hop, once an entry is lent
  learnt :
      (from hop : ℕ) (db d : NodeDb P M)
      → IsNodeDb d
      → IsNodeDb
          (elim (get from d) as (λ x. NodeDb P M × Bool) [
            | none ↦ (d, false)
            | some entry ↦
                if not (entry.next_hop == hop)
                then (modify from (λ e. record e { next_hop = hop }) d, true)
                else (d, false)
          ]).0
  learnt from hop db d k = elim (Option-cases (get from d)) [
    | inl gone ↦ rw (gone) k
    | inr (entry, found) ↦ rw (found) (elim (Bool-cases (not (entry.next_hop == hop))) [
      | inl new ↦
          rw (new)
            (Step-IsNodeDb (Step.write d from (λ e. record e { next_hop = hop }) (λ e. refl)) k)
      | inr same ↦ rw (same) k
    ])
  ]

  pub IsNodeDb-learn_route :
      (from relay_node : ℕ) (db : NodeDb P M)
      → IsNodeDb db
      → IsNodeDb (learn_route from relay_node db).0
  unfolding learn_route
  IsNodeDb-learn_route from relay_node db h =
      let hop : ℕ = if not (relay_node == 0) then relay_node else from % 256 in
      elim (Bool-cases (hop == no_next_hop)) [
        | inl nowhere ↦ rw (nowhere) h
        | inr somewhere ↦ rw (somewhere) (elim (Option-cases (get_or_create from db)) [
          | inl refused ↦ rw (refused) h
          | inr (d, e) ↦ rw (e) (learnt from hop db d (Step-IsNodeDb (Step.lend from e) h))
        ])
      ]

  rerouted :
      (p : PendingPacket) (t : Tick P M)
      → IsNodeDb t.db
      → IsNodeDb (
          if p.retries_left - 1 == 0
          then modify p.dest (λ e. record e { next_hop = no_next_hop }) t.db
          else t.db)
  rerouted p t h = elim (Bool-cases (p.retries_left - 1 == 0)) [
    | inl last ↦ rw (last) (
        Step-IsNodeDb
          (Step.write t.db p.dest (λ e. record e { next_hop = no_next_hop }) (λ e. refl)) h)
    | inr more ↦ rw (more) h
  ]

  -- a tick keeps the database, and never makes the queue longer
  visit-kept :
      (now : ℕ) (clock : ℕ → ℕ) (i : ℕ) (p : PendingPacket) (t : Tick P M) (k : ℕ)
      → IsNodeDb t.db
      → length t.pending ≤ k
      → IsNodeDb (visit now clock i p t).1.db × (length (visit now clock i p t).1.pending ≤ k)
  unfolding visit resend give_up
  visit-kept now clock i p t k h fit = elim (Bool-cases (ltb now p.deadline)) [
    | inl early ↦ rw (early) (h, fit)
    | inr due ↦ rw (due) (elim (Bool-cases (ltb 0 p.retries_left)) [
      | inl again ↦ rw (again) (
        rerouted p t h,
        omega (arith, fit, length-set {A = PendingPacket} t.pending i (retried (clock i) p)),
      )
      | inr over ↦
          rw (over) (h, omega (arith, fit, length-swap_remove {A = PendingPacket} i t.pending))
    ])
  ]

  tick_loop-kept :
      (now : ℕ) (clock : ℕ → ℕ) (fuel i : ℕ) (t : Tick P M) (k : ℕ)
      → IsNodeDb t.db
      → length t.pending ≤ k
      → IsNodeDb (tick_loop now clock fuel i t).1.db
        × (length (tick_loop now clock fuel i t).1.pending ≤ k)
  unfolding tick_loop
  tick_loop-kept now clock zero i t k h fit = (h, fit)
  tick_loop-kept now clock (suc fuel) i t k h fit = elim (Option-cases (get_elem? t.pending i)) [
    | inl past ↦ rw (past, tick_loop) (h, fit)
    | inr (p, here) ↦
        let (h', fit') = visit-kept now clock i p t k h fit in
        rw (here, tick_loop)
          (tick_loop-kept now clock fuel (visit now clock i p t).0 (visit now clock i p t).1 k h'
            fit')
  ]

  pub tick_retransmissions-kept :
      (now : ℕ) (clock : ℕ → ℕ) (pending : List PendingPacket) (db : NodeDb P M)
      → IsNodeDb db
      → IsNodeDb (tick_retransmissions now clock pending db).db
        × (length (tick_retransmissions now clock pending db).pending ≤ length pending)
  unfolding tick_retransmissions
  tick_retransmissions-kept now clock pending db h =
      tick_loop-kept now clock (length pending) 0
        (record { pending = pending; db = db; to_send = []; gave_up = [] }) (length pending) h
        (omega arith)
