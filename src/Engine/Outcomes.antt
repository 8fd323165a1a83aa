-- ===== src/Engine/Outcomes.antt =====
-- src/engine.rs: what a failure comes to.
use Prim.Native.String.{◌++◌ as append}
use sysu_netauth.Common.{
  inl, inr, ◌≡◌, ◌+◌, ◌-◌, ◌^◌, min, true, false, none, some, List, [], ◌∷◌, arith, refl, ap,
  Result, ok, err, Bool-cases, Result-cases, String, not, ◌||◌, is_some, is_empty, is_ok,
}
use sysu_netauth.Config.{validate_auth}
use sysu_netauth.Platform.{Adapter}
use sysu_netauth.Engine.Types.{idle, failed as failed_state, Engine, Env, from_secs}
use sysu_netauth.Engine.Base.{status, invalidate, used}
use sysu_netauth.Engine.Candidates.{
  backoff, started, start_sent, start_session, open_candidates, next_candidate, schedule, give_up,
  resume_with, forget_success, failed,
}
use sysu_netauth.Engine.Invariant.Base.{status-Framed, status-state}

-- The engine is not left waiting for nothing: a handshake runs, a retry is armed, or it has failed.
pub data Settles (e : Engine) : Type 0 where
  trying : is_some e.session ≡ true → is_some e.handshake_deadline ≡ true → Settles e
  retrying : is_some e.retry ≡ true → Settles e
  stuck : e.snapshot.state ≡ failed_state → Settles e

module _ (env : Env) where
  schedule-Settles : (m : String) (e : Engine) → Settles (schedule env m e)
  unfolding schedule
  schedule-Settles m e = retrying (
      ap is_some
        (status-Framed idle (append m "，等待重试") (record e {
          calls = e.calls + 1;
          retry_attempt = min (e.retry_attempt + 1) (2 ^ 32 - 1);
          retry =
              some
                (env.instant e.calls + from_secs (backoff e.retry_attempt e.config.retry_interval));
        })).same_retry)

  give_up-Settles : (m : String) (e : Engine) → Settles (give_up env m e)
  unfolding give_up
  give_up-Settles m e =
      elim (Bool-cases (
        e.manual_disconnect
        || e.suspended
        || not e.config.auto_auth
        || not (is_ok (validate_auth env.encode e.config)))) [
          | inl p ↦ rw (p, give_up) (stuck (status-state failed_state m e))
          | inr p ↦ rw (p, give_up) (schedule-Settles m e)
        ]

  started-Settles : (a : Adapter) (e : Engine) → Settles (started env a e)
  unfolding started status
  started-Settles a e = trying (ground arith) (ground arith)

  sent-Settles :
      (a : Adapter) (e : Engine) (r : Result (Unit {0}))
      → Settles (resume_with env (start_sent env a e r))
  unfolding start_sent
  sent-Settles a e (ok _) = started-Settles a e
  sent-Settles a e (err x) = give_up-Settles x e

  -- No candidate at all is for the callers to see.
  open_candidates-Settles :
      (as' : List Adapter) (e : Engine)
      → is_empty as' ≡ false
      → Settles (resume_with env (open_candidates env as' e))
  unfolding open_candidates start_session
  open_candidates-Settles [] e p = ground arith
  open_candidates-Settles (a ∷ []) e p =
      let e' = record (invalidate e) { candidates = [] } in
      elim (Result-cases (env.open_session e'.calls a e'.generation)) [
        | inl (_, q) ↦ rw (q, open_candidates) (sent-Settles a _ _)
        | inr (x, q) ↦ rw (q, open_candidates) (give_up-Settles x _)
      ]
  open_candidates-Settles (a ∷ b ∷ rest) e p =
      let e' = record (invalidate e) { candidates = b ∷ rest } in
      elim (Result-cases (env.open_session e'.calls a e'.generation)) [
        | inl (_, q) ↦ rw (q, open_candidates) (sent-Settles a _ _)
        | inr (x, q) ↦ rw (q, open_candidates) (open_candidates-Settles (b ∷ rest) (used e') refl)
      ]

  -- After a failure, in any state and for any message, a handshake with a deadline is under way, a
  -- retry is armed, or the state is failed.
  pub failed-Settles : (m : String) (e : Engine) → Settles (failed env m e)
  unfolding failed next_candidate
  failed-Settles m e =
      let e' = invalidate (record (forget_success env e) { retry = none }) in
      elim (Bool-cases (is_empty e'.candidates)) [
        | inl p ↦ rw (p, failed) (give_up-Settles m e')
        | inr p ↦ rw (p, failed) (open_candidates-Settles e'.candidates e' p)
      ]
