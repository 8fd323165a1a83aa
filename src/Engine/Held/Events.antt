-- ===== src/Engine/Held/Events.antt =====
-- src/engine.rs: applying settings and checking for releases respect a disconnect.
use sysu_netauth.Common.{
  ℕ, inl, inr, ◌≡◌, ◌+◌, ◌-◌, ◌∙◌, Bool, true, false, Option, none, some, arith, refl, sym, ap,
  Result, ok, err, Bool-cases, Result-cases, if◌then◌else◌, not, ◌&&◌, is_none, is_some_and, ensure,
}
use sysu_netauth.Config.{Config, validate, load}
use sysu_netauth.Update.{Update}
use text.Mathlib.Text.{◌==◌ as str_eq}
use sysu_netauth.Engine.Types.{idle, Engine, Env, from_secs}
use sysu_netauth.Engine.Base.{publish, invalidate, used}
use sysu_netauth.Engine.Settings.{
  account_changed, adopted, restarted, apply_config, configure, write_config, applied, save_config,
  reloaded_with, version_known, reload_version, reload_changed_config,
}
use sysu_netauth.Engine.Updates.{
  manual_check, marked_checking, start_update, announced, found_update, failed_update, merged,
  saved_update, update_result,
}
use sysu_netauth.Engine.Held.{
  frames, Held, Held-refl, Held-trans, status-Held, publish-Held, after-Held,
}

module _ (env : Env) where
  adopted-Held :
      (changed enabled : Bool) (c : Config) (e : Engine) → Held e (adopted env changed enabled c e)
  unfolding adopted invalidate
  adopted-Held false enabled c e = record { wish = refl; silent = refl }
  adopted-Held true enabled c e =
      let k =
        status-Held idle "认证配置已更改"
          (record (invalidate (record e {
            config = c;
            retry_attempt = if enabled then 0 else e.retry_attempt;
            retry = if c.auto_auth then e.retry else none;
          })) { retry = none; retry_attempt = 0 }) in
      record { wish = k.wish; silent = k.silent }

  restarted_off :
      (changed enabled : Bool) (e : Engine)
      → e.manual_disconnect ≡ true
      → restarted env changed enabled e ≡ e
  unfolding restarted
  restarted_off changed enabled e w = ground arith

  pub apply_config-Held :
      (c : Config) (e : Engine) → e.manual_disconnect ≡ true → Held e (apply_config env c e)
  unfolding apply_config
  apply_config-Held c e w =
      let changed = account_changed env e.config c in
      let enabled = not e.config.auto_auth && c.auto_auth in
      let k = adopted-Held changed enabled c e in
      rw (restarted_off changed enabled (adopted env changed enabled c e) (k.wish ∙ w))
        (Held-trans k (publish-Held _))

  configure-Held : (c : Config) (e : Engine) → Held e (configure env c e).0
  unfolding configure frames
  configure-Held c e = ground arith

  write_config-Held : (c : Config) (e : Engine) → Held e (write_config env c e).0
  unfolding write_config frames
  write_config-Held c e = elim (Result-cases (validate env.encode c)) [
    | inl (_, p) ↦ rw (p, write_config) (record { wish = refl; silent = refl })
    | inr (x, p) ↦ rw (p, write_config) Held-refl
  ]

  pub save_config-Held :
      (c : Config) (e : Engine) → e.manual_disconnect ≡ true → Held e (save_config env c false e).0
  unfolding save_config applied
  save_config-Held c e w =
      after-Held (e, validate env.encode c) _ Held-refl
        λ _ e0 p0.
          let w0 = ap (λ x. x.manual_disconnect) (sym p0) ∙ w in
          let k1 = write_config-Held c e0 in
          after-Held (write_config env c e0) _ k1 λ _ e1 p1.
            let w1 = ap (λ x. x.manual_disconnect) (sym p1) ∙ k1.wish ∙ w0 in
            let k2 = configure-Held c e1 in
            after-Held (configure env c e1) _ k2 λ _ e2 p2.
              apply_config-Held c e2 (ap (λ x. x.manual_disconnect) (sym p2) ∙ k2.wish ∙ w1)

  reloaded_with-Held :
      (v : ℕ × ℕ) (r : Result Config) (e : Engine)
      → e.manual_disconnect ≡ true
      → Held e (reloaded_with env v r e)
  unfolding reloaded_with frames
  reloaded_with-Held v (ok c) e w =
      let k = apply_config-Held c e w in record { wish = k.wish; silent = k.silent }
  reloaded_with-Held v (err x) e w =
      elim (Bool-cases (is_some_and (λ m. str_eq m x) e.config_error)) [
        | inl p ↦ rw (p, reloaded_with) (record { wish = refl; silent = refl })
        | inr p ↦ rw (p, reloaded_with) (record { wish = refl; silent = refl })
      ]

  reload_version-Held :
      (v : Option (ℕ × ℕ)) (e : Engine)
      → e.manual_disconnect ≡ true
      → Held e (reload_version env v e)
  unfolding reload_version
  reload_version-Held none e w = Held-refl
  reload_version-Held (some v) e w =
      let k = reloaded_with-Held v (load env.encode (env.read_config e.calls)) (used e) w in
      elim (Bool-cases (is_none e.config_error && version_known env e.config_version v)) [
        | inl p ↦ rw (p, reload_version) Held-refl
        | inr p ↦ rw (p, reload_version) (record { wish = k.wish; silent = k.silent })
      ]

  pub reload-Held : (e : Engine) → e.manual_disconnect ≡ true → Held e (reload_changed_config env e)
  unfolding reload_changed_config
  reload-Held e w =
      let k = reload_version-Held (env.file_version e.calls) (used e) w in
      record { wish = k.wish; silent = k.silent }

  manual_check-Held : (e : Engine) → Held e (manual_check env e).0
  unfolding manual_check
  manual_check-Held e = ground arith

  marked-Held : (e : Engine) → Held e (marked_checking env e)
  unfolding marked_checking publish
  marked-Held e = record { wish = refl; silent = refl }

  check_first-Held :
      (manual : Bool) (e : Engine)
      → Held e ((if manual then manual_check env else (λ e. (e, ok tt))) e).0
  check_first-Held true e = manual_check-Held e
  check_first-Held false e = Held-refl

  pub start_update-Held : (manual : Bool) (e : Engine) → Held e (start_update env manual e).0
  unfolding start_update frames
  start_update-Held manual e =
      after-Held (e, ensure (not e.snapshot.update.checking) "update check already running") _
        Held-refl
        λ _ e0 p0.
          after-Held ((if manual then manual_check env else (λ e. (e, ok tt))) e0) _
            (check_first-Held manual e0)
            λ _ e1 p1. let k = marked-Held e1 in record { wish = k.wish; silent = k.silent }

  merged-Held : (now : ℕ) (r : Result Update) (e : Engine) → Held e (merged env now r e)
  unfolding merged found_update failed_update announced frames
  merged-Held now (ok u) e = ground arith
  merged-Held now (err x) e = record { wish = refl; silent = refl }

  saved_update-Held : (e : Engine) → Held e (saved_update env e)
  unfolding saved_update frames
  saved_update-Held e = elim (Result-cases (env.write_file e.calls)) [
    | inl (_, p) ↦ rw (p, saved_update) (record { wish = refl; silent = refl })
    | inr (x, p) ↦ rw (p, saved_update) (record { wish = refl; silent = refl })
  ]

  pub update_result-Held : (r : Result Update) (e : Engine) → Held e (update_result env r e)
  unfolding update_result
  update_result-Held r e =
      let k = merged-Held (env.clock e.calls) r (used e) in
      let e' = merged env (env.clock e.calls) r (used e) in
      let armed = record e' {
        calls = e'.calls + 1;
        update_deadline =
            env.instant e'.calls + from_secs (e'.snapshot.update.next_check_at - env.clock e.calls);
      } in
      let j = saved_update-Held armed in
      Held-trans (record { wish = j.wish ∙ k.wish; silent = j.silent ∙ k.silent })
        (publish-Held (saved_update env armed))
