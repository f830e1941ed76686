-- ===== src/Session/Validity.antt =====
-- For how long a key that was sent is accepted.
use meshtastenstein_rs.Base.{
  ℕ, ◌+◌, ◌-◌, ◌≡◌, ◌≤◌, ◌<◌, refl, true, Bool-cases, inl, inr, Option, none, some, List, [], ◌∷◌,
  ==_refl, leb, length, arith,
}
use meshtastenstein_rs.Session.{
  SessionPasskey, refresh, is_expired, needs_refresh, needs_new, fresh_passkey,
  ensure_session_passkey, response_key, same_bytes, matches_session, is_authorized,
}

pub same_bytes_refl : (bs : List ℕ) → same_bytes bs bs ≡ true
unfolding same_bytes
same_bytes_refl [] = refl
same_bytes_refl (b ∷ bs) = ground (arith, ==_refl b, same_bytes_refl bs)

-- a session that was issued in the past and has a key of eight bytes
unfoldable pub IsSession : ℕ → Option SessionPasskey → Type 0
IsSession now none = Unit
IsSession now (some s) = (s.issued_at ≤ now) × (length s.key ≡ 8)

-- a session issued less than `refresh` ago lets its own key through for that long
accepted :
    (now later : ℕ) (s : SessionPasskey)
    → now - s.issued_at < refresh
    → length s.key ≡ 8
    → later < now + refresh
    → is_authorized later true s.key (some s) ≡ true
unfolding is_authorized matches_session is_expired
accepted now later s young size soon = ground (arith, size, same_bytes_refl s.key)

-- The key that a response carries is accepted for less than 150 seconds from then on, as long as
-- the session is the one that this response left, so that no later response has made another key;
-- whatever session there was before: a new key is made when the old one would not last so long.
pub issued_is_accepted :
    (now later r1 r2 : ℕ) (session : Option SessionPasskey)
    → IsSession now session
    → later < now + refresh
    → is_authorized later true
        (response_key (ensure_session_passkey now r1 r2 session))
        (ensure_session_passkey now r1 r2 session)
      ≡ true
unfolding ensure_session_passkey needs_new needs_refresh response_key IsSession fresh_passkey
issued_is_accepted now later r1 r2 none h soon =
    accepted now later (fresh_passkey now r1 r2) (omega arith) refl soon
issued_is_accepted now later r1 r2 (some s) h soon =
    elim (Bool-cases (leb refresh (now - s.issued_at))) [
      | inl old ↦ rw (old) (accepted now later (fresh_passkey now r1 r2) (omega arith) refl soon)
      | inr young ↦ rw (young) (accepted now later s (ground (arith, young)) h.1 soon)
    ]
