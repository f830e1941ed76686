-- ===== src/Session.antt =====
-- The session key of remote administration: `SessionPasskey` of meshtastenstein-
-- core/src/domain/context.rs, `ensure_session_passkey` of domain/handlers/util.rs, and the check
-- and the response in domain/handlers/admin/mod.rs. Times are milliseconds; the clock and the
-- entropy are arguments.
pub mod Validity
mod Tests
use meshtastenstein_rs.Base.{
  ℕ, ◌-◌, ◌*◌, Bool, true, false, ◌&&◌, not, Option, none, some, List, [], ◌∷◌, ◌++◌, ◌==◌, leb,
  if◌then◌else◌, length, to_le,
}

pub record SessionPasskey : Type 0 where
  pub key : List ℕ
  pub issued_at : ℕ

abbrev pub expiry : ℕ
expiry = 300 * 1000

abbrev pub refresh : ℕ
refresh = 150 * 1000

unfoldable pub is_expired : ℕ → SessionPasskey → Bool
is_expired now s = leb expiry (now - s.issued_at)

unfoldable pub needs_refresh : ℕ → SessionPasskey → Bool
needs_refresh now s = leb refresh (now - s.issued_at)

unfoldable pub needs_new : ℕ → Option SessionPasskey → Bool
needs_new now none = true
needs_new now (some existing) = needs_refresh now existing

-- `r1` and `r2` are what the entropy source gives
unfoldable pub fresh_passkey : ℕ → ℕ → ℕ → SessionPasskey
fresh_passkey now r1 r2 = record { key = to_le 4 r1 ++ to_le 4 r2; issued_at = now }

unfoldable pub ensure_session_passkey : ℕ → ℕ → ℕ → Option SessionPasskey → Option SessionPasskey
ensure_session_passkey now r1 r2 session =
    if needs_new now session then some (fresh_passkey now r1 r2) else session

-- the key that a response carries
unfoldable pub response_key : Option SessionPasskey → List ℕ
response_key none = []
response_key (some s) = s.key

-- `==` on bytes
unfoldable pub same_bytes : List ℕ → List ℕ → Bool
same_bytes [] [] = true
same_bytes [] (c ∷ cs) = false
same_bytes (b ∷ bs) [] = false
same_bytes (b ∷ bs) (c ∷ cs) = b == c && same_bytes bs cs

-- the arms of the `match` after the empty key: `true` lets the command through
unfoldable pub matches_session : ℕ → List ℕ → Option SessionPasskey → Bool
matches_session now passkey none = false
matches_session now passkey (some s) = if is_expired now s then false else same_bytes passkey s.key

-- the check of a command at the time `now`
unfoldable pub is_authorized : ℕ → Bool → List ℕ → Option SessionPasskey → Bool
is_authorized now via_lora passkey session =
    if via_lora
    then (if length passkey == 0 then false else matches_session now passkey session)
    else true
