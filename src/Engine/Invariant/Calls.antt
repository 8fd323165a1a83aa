-- ===== src/Engine/Invariant/Calls.antt =====
-- src/engine.rs: the calls of clients keep the invariant.
use sysu_netauth.Common.{
  inl, inr, true, false, Option, none, some, arith, Result, ok, err, Bool-cases, if◌then◌else◌, sym,
  subst,
}
use sysu_netauth.Config.{Config, apply, load}
use sysu_netauth.Engine.Types.{
  Subscription, Action, status, watch, interfaces, authenticate, logoff, get_config, preferences,
  diagnostics, set_preferences, set_config, connect, reload_config, check_update,
  set_update_preferences, Reply, Call, Engine, Env, saved,
}
use sysu_netauth.Engine.Base.{used}
use sysu_netauth.Engine.Candidates.{refresh_adapters}
use sysu_netauth.Engine.Settings as Settings
use sysu_netauth.Engine.Updates.{start_update}
use sysu_netauth.Engine.Settings.{apply_config, save_config}
use sysu_netauth.Engine.Calls.{perform, then_reply, subscribed, answered, on_call}
use sysu_netauth.Engine.Invariant.{Inv}
use sysu_netauth.Engine.Invariant.Base.{used-Inv, act-Inv, after-Inv}
use sysu_netauth.Engine.Invariant.Candidates.{refresh_adapters-Inv}
use sysu_netauth.Engine.Invariant.Settings.{
  connect-Inv, logoff-Inv, apply_config-Inv, save_config-Inv,
}
use sysu_netauth.Engine.Invariant.Updates.{start_update-Inv}

module _ (env : Env) where
  saves :
      (c : Config) {e : Engine}
      → Inv e
      → Inv (then_reply env (save_config env c false) (λ _. saved) e).0
  saves c {e} h =
      after-Inv (save_config env c false e) _ (save_config-Inv env c false h) λ _ e' h'. h'

  pub perform-Inv : (a : Action) {e : Engine} → Inv e → Inv (perform env a e).0
  unfolding perform
  perform-Inv status h = h
  perform-Inv watch h = h
  perform-Inv interfaces {e} h =
      after-Inv (refresh_adapters env e) _ (refresh_adapters-Inv env h) λ _ e' h'. h'
  perform-Inv preferences h = h
  perform-Inv diagnostics {e} h =
      after-Inv (used e, env.read_log e.calls) _ (used-Inv h) λ _ e' h'. h'
  perform-Inv get_config h = h
  perform-Inv authenticate {e} h =
      after-Inv (Settings.connect env e) _ (connect-Inv env h) λ _ e' h'. h'
  perform-Inv logoff {e} h = after-Inv (Settings.logoff env e) _ (logoff-Inv env h) λ _ e' h'. h'
  perform-Inv (set_preferences p) {e} h = saves (apply p e.config) h
  perform-Inv (set_config c) h = saves c h
  perform-Inv (connect c) {e} h = elim (Bool-cases e.suspended) [
    | inl s ↦
        subst
          (λ b.
            Inv
              (if b
                then (e, err "系统休眠中")
                else then_reply env (save_config env c true) (λ e'. Reply.snapshot e'.snapshot)
                    e).0)
          (sym s) h
    | inr s ↦
        subst
          (λ b.
            Inv
              (if b
                then (e, err "系统休眠中")
                else then_reply env (save_config env c true) (λ e'. Reply.snapshot e'.snapshot)
                    e).0)
          (sym s)
          (after-Inv (save_config env c true e) _ (save_config-Inv env c true h) λ _ e' h'. h')
  ]
  perform-Inv reload_config {e} h =
      after-Inv (used e, load env.encode (env.read_config e.calls)) _ (used-Inv h)
        λ c e' h'. apply_config-Inv env c h'
  perform-Inv check_update {e} h =
      after-Inv (start_update env true e) _ (start_update-Inv env true h) λ _ e' h'. h'
  perform-Inv (set_update_preferences a b) {e} h =
      saves (record (e.config) { auto_update_check = a; update_notify = b }) h

  subscribed-Inv : (s : Option Subscription) {e : Engine} → Inv e → Inv (subscribed env s e)
  unfolding subscribed
  subscribed-Inv none h = h
  subscribed-Inv (some s) h = ground arith

  answered-Inv : (c : Call) (r : Engine × Result Reply) → Inv r.0 → Inv (answered env c r)
  unfolding answered
  answered-Inv c (e, ok r) h = subscribed-Inv c.updates (act-Inv _ h)
  answered-Inv c (e, err x) h = act-Inv _ h

  pub on_call-Inv : (c : Call) {e : Engine} → Inv e → Inv (on_call env c e)
  unfolding on_call
  on_call-Inv c h = answered-Inv c _ (perform-Inv c.action h)
