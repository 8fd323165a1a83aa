-- ===== src/Engine/Saving.antt =====
-- src/engine.rs: what saving the settings does to the settings in use.
use Prim.Native.String.{◌++◌ as append}
use sysu_netauth.Common.{
  inl, inr, ◌≡◌, ◌⊎◌, ◌∙◌, ◌+◌, ◌-◌, ◌^◌, min, Bool, true, false, none, some, [], arith, refl,
  Result, ok, err, Bool-cases, Result-cases, String, not, ◌&&◌, ◌||◌, is_ok, is_empty,
  if◌then◌else◌,
}
use sysu_netauth.Config.{Config, validate, validate_auth}
use sysu_netauth.Protocol.{gbk}
use sysu_netauth.Engine.Types.{
  idle, failed as failed_state, State, state_eq, authenticated, Engine, Env, M, from_secs,
}
use sysu_netauth.Engine.Base.{publish, status, invalidate, after}
use sysu_netauth.Engine.Candidates.{
  refresh_adapters, select, next_candidate, reset_candidates, login, authenticate, backoff,
  schedule, give_up, resume_with, forget_success, failed, or_failed,
}
use sysu_netauth.Engine.Settings.{account_changed, adopted, restarted, apply_config, write_config}
use sysu_netauth.Engine.Invariant.Base.{status-Framed, publish-Framed}
use sysu_netauth.Engine.Invariant.Candidates.{
  SameFlags, open_candidates-SameFlags, refresh_adapters-SameFlags,
}

same_trans : {a b c : Engine} → SameFlags a b → SameFlags b c → SameFlags a c
same_trans h k = record {
  suspended = k.suspended ∙ h.suspended;
  manual = k.manual ∙ h.manual;
  config = k.config ∙ h.config;
}

same_refl : {a : Engine} → SameFlags a a
same_refl = record { suspended = refl; manual = refl; config = refl }

after-SameFlags {ℓ κ} :
    {A : Type ℓ} {B : Type κ} {e : Engine} (r : Engine × Result A) (f : A → M B)
    → SameFlags e r.0
    → ((a : A) (e' : Engine) → SameFlags e' (f a e').0)
    → SameFlags e (after r f).0
after-SameFlags (e', ok a) f h k = same_trans h (k a e')
after-SameFlags (e', err x) f h k = h

status-SameFlags : (s : State) (m : String) (e : Engine) → SameFlags e (status s m e)
status-SameFlags s m e =
    let f = status-Framed s m e in
    record { suspended = f.same_suspended; manual = f.same_manual; config = f.same_config }

module _ (env : Env) where
  login-SameFlags : (e : Engine) → SameFlags e (login env e).0
  unfolding login next_candidate
  login-SameFlags e =
      after-SameFlags (e, validate_auth env.encode e.config) _ same_refl
        λ _ e0.
          after-SameFlags (e0, gbk env.encode e.config.username) _ same_refl
            λ username e1.
              let e1' = record e1 { username = username } in
              after-SameFlags (e1', gbk env.encode e.config.password) _
                (record { suspended = refl; manual = refl; config = refl })
                λ password e2.
                  let e2' = record e2 { password = password } in
                  let k = refresh_adapters-SameFlags env e2' in
                  after-SameFlags (refresh_adapters env e2') _
                    (record { suspended = k.suspended; manual = k.manual; config = k.config })
                    λ _ e3.
                      let j =
                        open_candidates-SameFlags env (select e3)
                          (record e3 { candidates = select e3 }) in
                      record { suspended = j.suspended; manual = j.manual; config = j.config }

  authenticate-SameFlags : (e : Engine) → SameFlags e (authenticate env e).0
  unfolding authenticate invalidate
  authenticate-SameFlags e =
      let k = login-SameFlags (reset_candidates env e) in
      let awake : SameFlags e (login env (reset_candidates env e)).0 = record {
        suspended = k.suspended;
        manual = k.manual;
        config = k.config;
      } in
      either e.suspended awake
    where
      either :
          (b : Bool)
          → SameFlags e (login env (reset_candidates env e)).0
          → SameFlags e
              (if◌then◌else◌ {A = Engine × Result (Unit {0})} b
                (e, err "系统休眠中")
                (login env (reset_candidates env e))).0
      either true k = same_refl
      either false k = k

  give_up-SameFlags : (m : String) (e : Engine) → SameFlags e (give_up env m e)
  unfolding give_up schedule
  give_up-SameFlags m e =
      elim (Bool-cases (
        e.manual_disconnect
        || e.suspended
        || not e.config.auto_auth
        || not (is_ok (validate_auth env.encode e.config)))) [
          | inl p ↦ rw (p, give_up) (status-SameFlags failed_state m e)
          | inr p ↦
              rw (p, give_up)
                (let k = status-SameFlags idle (append m "，等待重试") (record e {
                  calls = e.calls + 1;
                  retry_attempt = min (e.retry_attempt + 1) (2 ^ 32 - 1);
                  retry = some (
                      env.instant e.calls
                      + from_secs (backoff e.retry_attempt e.config.retry_interval));
                }) in
                  record { suspended = k.suspended; manual = k.manual; config = k.config })
        ]

  resume-SameFlags :
      {e : Engine} (r : Engine × Result (Unit {0}))
      → SameFlags e r.0
      → SameFlags e (resume_with env r)
  resume-SameFlags (e', ok _) k = k
  resume-SameFlags (e', err x) k = same_trans k (give_up-SameFlags x e')

  forget-SameFlags :
      (b : Bool) (e : Engine)
      → SameFlags e (
          invalidate (record (if b then record e { retry_attempt = 0; candidates = [] } else e) {
            retry = none;
          }))
  unfolding invalidate
  forget-SameFlags true e = record { suspended = refl; manual = refl; config = refl }
  forget-SameFlags false e = record { suspended = refl; manual = refl; config = refl }

  failed-SameFlags : (m : String) (e : Engine) → SameFlags e (failed env m e)
  unfolding failed next_candidate
  failed-SameFlags m e =
      let e' = invalidate (record (forget_success env e) { retry = none }) in
      let k = forget-SameFlags (state_eq e.snapshot.state authenticated) e in
      elim (Bool-cases (is_empty e'.candidates)) [
        | inl p ↦ rw (p, failed) (same_trans k (give_up-SameFlags m e'))
        | inr p ↦
            rw (p, failed)
              (same_trans k (
                resume-SameFlags (next_candidate env e')
                  (open_candidates-SameFlags env e'.candidates e')))
      ]

  or_failed-SameFlags :
      {e : Engine} (r : Engine × Result (Unit {0}))
      → SameFlags e r.0
      → SameFlags e (or_failed env r)
  or_failed-SameFlags (e', ok _) k = k
  or_failed-SameFlags (e', err x) k = same_trans k (failed-SameFlags x e')

  restarted-SameFlags :
      (changed enabled : Bool) (e : Engine) → SameFlags e (restarted env changed enabled e)
  unfolding restarted
  restarted-SameFlags changed enabled e =
      elim (Bool-cases (
        (changed || enabled && not (state_eq e.snapshot.state authenticated))
        && e.config.auto_auth
        && not e.manual_disconnect
        && not e.suspended)) [
          | inl p ↦
              rw (p, restarted)
                (or_failed-SameFlags (authenticate env e) (authenticate-SameFlags e))
          | inr p ↦ rw (p, restarted) same_refl
        ]

  adopted-config :
      (changed enabled : Bool) (c : Config) (e : Engine)
      → (adopted env changed enabled c e).config ≡ c
  unfolding adopted invalidate status publish
  adopted-config changed enabled c e = ground arith

  pub apply_config-config : (c : Config) (e : Engine) → (apply_config env c e).config ≡ c
  unfolding apply_config
  apply_config-config c e =
      let changed = account_changed env e.config c in
      let enabled = not e.config.auto_auth && c.auto_auth in
      let e' = adopted env changed enabled c e in
      (publish-Framed (restarted env changed enabled e')).same_config
      ∙ (restarted-SameFlags changed enabled e').config
      ∙ adopted-config changed enabled c e

  write_config-config : (c : Config) (e : Engine) → (write_config env c e).0.config ≡ e.config
  unfolding write_config
  write_config-config c e = elim (Result-cases (validate env.encode c)) [
    | inl (_, p) ↦ rw (p, write_config) refl
    | inr (x, p) ↦ rw (p, write_config) refl
  ]

  -- Either the settings are valid, written, and the ones in use, or the ones in use are the old ones.
  abbrev pub Saved : Config → Engine → Engine × Result (Unit {0}) → Type 0
  Saved c e r =
      ((r.1 ≡ ok tt)
        × (r.0.config ≡ c)
        × (validate env.encode c ≡ ok tt)
        × (env.write_file e.calls ≡ ok tt))
      ⊎ ((is_ok r.1 ≡ false) × (r.0.config ≡ e.config))
