-- ===== src/Engine/Invariant/Settings.antt =====
-- src/engine.rs: connecting, disconnecting and new settings keep the invariant.
use sysu_netauth.Common.{
  ℕ, inl, inr, ◌≡◌, Bool, true, false, Option, none, some, [], arith, refl, sym, Result, ok, err,
  Bool-cases, Result-cases, if◌then◌else◌, subst, String, not, ◌&&◌, ◌||◌,
}
use sysu_netauth.Config.{Config, validate}
use sysu_netauth.Platform.{Adapter}
use sysu_netauth.Engine.Types.{authenticated, state_eq, Session, Engine, Env, failed}
use sysu_netauth.Engine.Base.{invalidate}
use sysu_netauth.Engine.Candidates.{authenticate}
use sysu_netauth.Engine.Settings.{
  inspected, requested, connect, logoff_frame, logoff, adopted, restarted, apply_config, configure,
  write_config, applied, save_config, reloaded_with, reload_version, reload_changed_config, bool_ne,
}
use sysu_netauth.Engine.Invariant.{Inv}
use sysu_netauth.Engine.Invariant.Base.{publish-Inv, status-Inv_quiet, used-Inv, act-Inv, after-Inv}
use sysu_netauth.Engine.Invariant.Candidates.{or_failed-Inv}
use sysu_netauth.Engine.Invariant.Authenticate.{authenticate-Inv}

module _ (env : Env) where
  inspected-Inv :
      (r : Engine × Result (Unit {0})) → Inv r.0 → r.0.probe ≡ none → Inv (inspected env r).0
  unfolding inspected
  inspected-Inv (e, ok _) h q = publish-Inv h
  inspected-Inv (e, err x) h q = publish-Inv (status-Inv_quiet failed x h q)

  requested-Inv : {e : Engine} → Inv e → Inv (requested env e)
  unfolding requested
  requested-Inv h = ground arith

  requested_wanted : (e : Engine) → (requested env e).manual_disconnect ≡ false
  unfolding requested
  requested_wanted e = refl

  pub connect-Inv : {e : Engine} → Inv e → Inv (connect env e).0
  unfolding connect
  connect-Inv {e} h = elim (Bool-cases e.suspended) [
    | inl s ↦
        subst
          (λ b.
            Inv
              (if b
                then (e, err "系统休眠中")
                else inspected env (authenticate env (requested env e))).0)
          (sym s) h
    | inr s ↦
        subst
          (λ b.
            Inv
              (if b
                then (e, err "系统休眠中")
                else inspected env (authenticate env (requested env e))).0)
          (sym s)
          (let (v, q) = authenticate-Inv env (requested-Inv h) (requested_wanted e) in
            inspected-Inv _ v q)
  ]

  logged_off-Inv :
      (s : Option Session) (a : Option Adapter) {e : Engine}
      → Inv e
      → Inv (
          invalidate
            (logoff_frame env s a
              (record e { manual_disconnect = true; retry = none; candidates = [] })).0)
  unfolding logoff_frame invalidate
  logged_off-Inv none a h = ground arith
  logged_off-Inv (some s) none h = ground arith
  logged_off-Inv (some s) (some a) h = ground arith

  pub logoff-Inv : {e : Engine} → Inv e → Inv (logoff env e).0
  unfolding logoff invalidate
  logoff-Inv {e} h = status-Inv_quiet _ _ (logged_off-Inv e.session e.snapshot.adapter h) refl

  merged-Inv :
      (c : Config) {n : ℕ} (enabled auto : Bool) {e : Engine}
      → Inv e
      → n ≡ (if enabled then 0 else e.retry_attempt)
      → Inv (record e { config = c; retry_attempt = n; retry = if auto then e.retry else none })
  merged-Inv c true true h p = ground arith
  merged-Inv c true false h p = ground arith
  merged-Inv c false true h p = ground arith
  merged-Inv c false false h p = ground arith

  changed-Inv :
      {e : Engine} → Inv e → Inv (record (invalidate e) { retry = none; retry_attempt = 0 })
  unfolding invalidate
  changed-Inv h = ground arith

  adopted-Inv :
      (changed enabled : Bool) (c : Config) {e : Engine}
      → Inv e
      → Inv (adopted env changed enabled c e)
  unfolding adopted invalidate
  adopted-Inv true enabled c h =
      status-Inv_quiet _ _ (changed-Inv (merged-Inv c enabled c.auto_auth h refl)) refl
  adopted-Inv false enabled c h = merged-Inv c enabled c.auto_auth h refl

  restarted-Inv :
      (changed enabled : Bool) {e : Engine} → Inv e → Inv (restarted env changed enabled e)
  unfolding restarted
  restarted-Inv changed enabled {e} h =
      elim (Bool-cases (
        (changed || enabled && not (state_eq e.snapshot.state authenticated))
        && e.config.auto_auth
        && not e.manual_disconnect
        && not e.suspended)) [
          | inl p ↦
              rw (p, restarted) (or_failed-Inv env _ (authenticate-Inv env h (ground arith)).0)
          | inr p ↦ rw (p, restarted) h
        ]

  pub apply_config-Inv : (c : Config) {e : Engine} → Inv e → Inv (apply_config env c e)
  unfolding apply_config
  apply_config-Inv c h = publish-Inv (restarted-Inv _ _ (adopted-Inv _ _ c h))

  configure-Inv : (c : Config) {e : Engine} → Inv e → Inv (configure env c e).0
  unfolding configure
  configure-Inv c {e} h =
      elim (Bool-cases (env.is_windows && bool_ne env c.service_mode e.config.service_mode)) [
        | inl p ↦ rw (p, configure) (used-Inv (act-Inv _ h))
        | inr p ↦ rw (p, configure) h
      ]

  write_config-Inv : (c : Config) {e : Engine} → Inv e → Inv (write_config env c e).0
  unfolding write_config
  write_config-Inv c {e} h = elim (Result-cases (validate env.encode c)) [
    | inl (_, p) ↦ rw (p, write_config) (act-Inv _ (used-Inv h))
    | inr (x, p) ↦ rw (p, write_config) h
  ]

  given-Inv : (c : Config) {e : Engine} → Inv e → Inv (record e { config = c })
  given-Inv c h = ground arith

  applied-Inv : (c : Config) (b : Bool) {e : Engine} → Inv e → Inv (applied env c b e).0
  unfolding applied
  applied-Inv c true h = connect-Inv (given-Inv c h)
  applied-Inv c false h = apply_config-Inv c h

  pub save_config-Inv : (c : Config) (b : Bool) {e : Engine} → Inv e → Inv (save_config env c b e).0
  unfolding save_config
  save_config-Inv c b {e} h =
      after-Inv (e, validate env.encode c) _ h
        λ _ e1 h1. after-Inv (write_config env c e1) _ (write_config-Inv c h1) λ _ e2 h2.
          after-Inv (configure env c e2) _ (configure-Inv c h2) λ _ e3 h3. applied-Inv c b h3

  versioned-Inv :
      {v : Option (ℕ × ℕ)} {x : Option String} {e : Engine}
      → Inv e
      → Inv (record e { config_version = v; config_error = x })
  versioned-Inv h = ground arith

  failing-Inv : {x : Option String} {e : Engine} → Inv e → Inv (record e { config_error = x })
  failing-Inv h = ground arith

  known-Inv : (b : Bool) {e e' : Engine} → Inv e → Inv e' → Inv (if b then e else e')
  known-Inv true h h' = h
  known-Inv false h h' = h'

  reloaded_with-Inv :
      (v : ℕ × ℕ) (r : Result Config) {e : Engine} → Inv e → Inv (reloaded_with env v r e)
  unfolding reloaded_with
  reloaded_with-Inv v (ok c) h = versioned-Inv (apply_config-Inv c h)
  reloaded_with-Inv v (err x) {e} h = failing-Inv (known-Inv _ h (act-Inv _ h))

  reload_version-Inv : (v : Option (ℕ × ℕ)) {e : Engine} → Inv e → Inv (reload_version env v e)
  unfolding reload_version
  reload_version-Inv none h = h
  reload_version-Inv (some v) {e} h = known-Inv _ h (reloaded_with-Inv v _ (used-Inv h))

  pub reload_changed_config-Inv : {e : Engine} → Inv e → Inv (reload_changed_config env e)
  unfolding reload_changed_config
  reload_changed_config-Inv h = reload_version-Inv _ (used-Inv h)
