-- ===== src/Mesh/Admin/Locked.antt =====
-- What a command over LoRa needs to have any effect: the check at the head of `dispatch` in
-- domain/handlers/admin/mod.rs.
use meshtastenstein_rs.Base.{
  ℕ, ◌-◌, ◌≡◌, ◌<◌, ◌⊎◌, ap, refl, inl, inr, true, false, Option, none, some, List, [], ◌∷◌,
  Bool-cases, Option-cases, length, arith,
}
use meshtastenstein_rs.Session.{
  SessionPasskey, is_expired, same_bytes, matches_session, is_authorized,
}
use meshtastenstein_rs.Session.Validity.{same_bytes_refl}
use meshtastenstein_rs.Storage.{Flash}
use meshtastenstein_rs.Proto.{AdminMessage, Wire}
use meshtastenstein_rs.Mesh.{Moment, MeshCtx}
use meshtastenstein_rs.Mesh.Admin.{handle_request, admin_dispatch}

same_bytes_same : (a b : List ℕ) → same_bytes a b ≡ true → a ≡ b
unfolding same_bytes
same_bytes_same [] [] e = refl
same_bytes_same [] (c ∷ cs) e = absurd (ground (arith, e))
same_bytes_same (b ∷ bs) [] e = absurd (ground (arith, e))
same_bytes_same (b ∷ bs) (c ∷ cs) e = ground (arith, e, same_bytes_same bs cs)

-- a session whose key this is, and that is not yet 300 seconds old
abbrev pub Unlocks : ℕ → List ℕ → Option SessionPasskey → Type 0
Unlocks now key session =
    (s : SessionPasskey) × (session ≡ some s)
    × (key ≡ s.key)
    × (0 < length key)
    × (now - s.issued_at < 300000)

authorized-Unlocks :
    (now : ℕ) (key : List ℕ) (session : Option SessionPasskey)
    → is_authorized now true key session ≡ true
    → Unlocks now key session
unfolding is_authorized matches_session is_expired
authorized-Unlocks now key none e = absurd (ground (arith, e))
authorized-Unlocks now key (some s) e =
    (s, refl, same_bytes_same key s.key (ground (arith, e)), ground (arith, e), ground (arith, e))

authorized-unlocked :
    (now : ℕ) (key : List ℕ) (session : Option SessionPasskey)
    → Unlocks now key session
    → is_authorized now true key session ≡ true
unfolding is_authorized matches_session is_expired
authorized-unlocked now key none (s, there, same, full, young) = absurd (ground (arith, there))
authorized-unlocked now key (some held) (s, there, same, full, young) =
    ground (arith, there, same, full, young, same_bytes_refl s.key)

module _ {P M F : Type 0} (w : Wire P M) (t : Moment) where
  -- a command that can be decoded and carries the key of the session that there is
  unfoldable pub IsUnlocking : List ℕ → MeshCtx P M F → AdminMessage P → Type 0
  IsUnlocking bytes ctx msg =
      (w.decode_admin bytes ≡ some msg) × Unlocks t.now msg.session_passkey ctx.session_passkey

  refused_locked :
      (bytes : List ℕ) (msg : AdminMessage P) (ctx : MeshCtx P M F)
      → w.decode_admin bytes ≡ some msg
      → is_authorized t.now true msg.session_passkey ctx.session_passkey ≡ false
      → ¬ ((m : AdminMessage P) × IsUnlocking bytes ctx m)
  unfolding IsUnlocking
  refused_locked bytes msg ctx read refused (m, (read_as, key)) =
      let allowed : is_authorized t.now true m.session_passkey ctx.session_passkey ≡ true =
        authorized-unlocked t.now m.session_passkey ctx.session_passkey key in
      let same : msg ≡ m = ground (arith, read, read_as) in
      absurd (ground (arith, refused, ap (λ x. x.session_passkey) same, allowed))

  unread_locked :
      (bytes : List ℕ) (ctx : MeshCtx P M F)
      → w.decode_admin bytes ≡ none
      → ¬ ((m : AdminMessage P) × IsUnlocking bytes ctx m)
  unfolding IsUnlocking
  unread_locked bytes ctx unread (m, (read_as, key)) = absurd (ground (arith, unread, read_as))

module _ {P M F : Type 0} (w : Wire P M) (nor : Flash F) (t : Moment) where
  -- A command over LoRa is carried out if it can be decoded and carries the key of the session that
  -- there is, which is not empty and was issued less than 300 seconds ago. Any other changes
  -- nothing of the node, whatever it asks for.
  pub remote_command_needs_key :
      (requester id : ℕ) (bytes : List ℕ) (ctx : MeshCtx P M F)
      → ((msg : AdminMessage P) × IsUnlocking w t bytes ctx msg
          × (admin_dispatch w nor t requester id bytes true ctx
              ≡ handle_request w nor t requester id true msg.payload_variant ctx))
        ⊎ ((¬ ((msg : AdminMessage P) × IsUnlocking w t bytes ctx msg))
            × (admin_dispatch w nor t requester id bytes true ctx ≡ ctx))
  unfolding admin_dispatch IsUnlocking
  remote_command_needs_key requester id bytes ctx = elim (Option-cases (w.decode_admin bytes)) [
    | inl unread ↦ inr (unread_locked w t bytes ctx unread, rw (unread, admin_dispatch) refl)
    | inr (msg, read) ↦
        elim (Bool-cases (is_authorized t.now true msg.session_passkey ctx.session_passkey)) [
          | inl allowed ↦ inl (
            msg,
            (read, authorized-Unlocks t.now msg.session_passkey ctx.session_passkey allowed),
            rw (read, allowed, admin_dispatch) refl,
          )
          | inr refused ↦ inr (
            refused_locked w t bytes msg ctx read refused,
            rw (read, refused, admin_dispatch) refl,
          )
        ]
  ]
