-- ===== src/Relay/Decision.antt =====
-- When from_radio/mod.rs passes a packet on.
use meshtastenstein_rs.Base.{ℕ, ◌≡◌, arith}
use meshtastenstein_rs.Packet.{Header, RadioFrame}
use meshtastenstein_rs.Router.{DeviceRole, should_relay_opaque}
use meshtastenstein_rs.Router.History.{seen}
use meshtastenstein_rs.Relay.{RelayState, schedule_rebroadcast, maybe_relay_opaque}

-- A packet that could not be authenticated never changes the history of those that were, whatever
-- the outcome.
pub maybe_relay_opaque-seen :
    (now delay : ℕ) (frame : RadioFrame) (h : Header) (our : ℕ) (role : DeviceRole) (s : RelayState)
    → seen (maybe_relay_opaque now delay frame h our role s).router ≡ seen s.router
unfolding maybe_relay_opaque schedule_rebroadcast should_relay_opaque seen
maybe_relay_opaque-seen now delay frame h our role s = ground arith
