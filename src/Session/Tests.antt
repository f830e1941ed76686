-- ===== src/Session/Tests.antt =====
-- A session over time.
use meshtastenstein_rs.Base.{◌≡◌, refl, true, some, [], ◌∷◌, arith}
use meshtastenstein_rs.Session.{SessionPasskey, ensure_session_passkey, response_key, is_authorized}
use meshtastenstein_rs.Session.Validity.{IsSession, issued_is_accepted}

abbrev old : SessionPasskey
old = record { key = 1 ∷ 2 ∷ 3 ∷ 4 ∷ 5 ∷ 6 ∷ 7 ∷ 8 ∷ []; issued_at = 1000 }

old-IsSession : IsSession 200000 (some old)
unfolding IsSession
old-IsSession = (omega arith, refl)

issued_is_accepted_example :
    is_authorized 340000 true
      (response_key (ensure_session_passkey 200000 11 12 (some old)))
      (ensure_session_passkey 200000 11 12 (some old))
    ≡ true
issued_is_accepted_example =
    issued_is_accepted 200000 340000 11 12 (some old) old-IsSession (omega arith)
