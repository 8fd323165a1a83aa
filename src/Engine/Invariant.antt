-- ===== src/Engine/Invariant.antt =====
-- src/engine.rs: what holds of the engine between two events.
pub mod Base
pub mod Candidates
pub mod Authenticate
pub mod Network
pub mod Settings
pub mod Updates
pub mod Calls
pub mod Loop
pub mod Run
use sysu_netauth.Common.{
  ℕ, ◌<◌, ◌^◌, ◌≡◌, Bool, true, false, Option, none, some, List, [], ◌==◌, is_some,
}
use sysu_netauth.Engine.Types.{authenticating, authenticated, state_eq, Session, Engine}

-- An open session, or a running check, belongs to the current generation.
abbrev pub session_fresh : Option Session → ℕ → Bool
session_fresh none g = true
session_fresh (some s) g = s.generation == g

abbrev pub probe_fresh : Option ℕ → ℕ → Bool
probe_fresh none g = true
probe_fresh (some p) g = p == g

pub record Inv (e : Engine) : Type 0 where
  pub session_current : session_fresh e.session e.generation ≡ true
  pub probe_current : probe_fresh e.probe e.generation ≡ true
  pub session_adapter : is_some e.session ≡ true → is_some e.snapshot.adapter ≡ true
  pub handshake_session : is_some e.handshake_deadline ≡ true → is_some e.session ≡ true
  pub start_session : is_some e.start_deadline ≡ true → is_some e.session ≡ true
  pub probe_state : is_some e.probe ≡ true → e.snapshot.state ≡ authenticating
  pub offline_internet :
      state_eq e.snapshot.state authenticated ≡ false → e.snapshot.internet ≡ false
  pub offline_since :
      state_eq e.snapshot.state authenticated ≡ false → e.snapshot.authenticated_at ≡ none
  pub asleep_session : e.suspended ≡ true → e.session ≡ none
  pub asleep_probe : e.suspended ≡ true → e.probe ≡ none
  pub asleep_retry : e.suspended ≡ true → e.retry ≡ none
  pub asleep_candidates : e.suspended ≡ true → e.candidates ≡ []
  pub asleep_adapter : e.suspended ≡ true → e.snapshot.adapter ≡ none
  pub manual_session : e.manual_disconnect ≡ true → e.session ≡ none
  pub manual_retry : e.manual_disconnect ≡ true → e.retry ≡ none
  pub manual_candidates : e.manual_disconnect ≡ true → e.candidates ≡ []
  pub generation_bound : e.generation < 2 ^ 64
  pub attempt_bound : e.retry_attempt < 2 ^ 32
