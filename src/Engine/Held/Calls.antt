-- ===== src/Engine/Held/Calls.antt =====
-- src/engine.rs: every call but `authenticate` and `connect` respects a disconnect.
use sysu_netauth.Common.{
  ◌≡◌, ◌∙◌, Bool, true, false, Option, none, some, [], arith, refl, sym, ap, Result, ok, err,
}
use sysu_netauth.Config.{load, apply}
use sysu_netauth.Engine.Types as T
use sysu_netauth.Engine.Types.{
  State, idle, authenticated, state_eq, Session, Subscription, Event, Action, Call, Engine, Env, M,
  from_secs, Reply,
}
use sysu_netauth.Engine.Base.{invalidate, used, act, after}
use sysu_netauth.Engine.Candidates.{refresh_adapters}
use sysu_netauth.Engine.Settings.{logoff, logoff_frame, save_config}
use sysu_netauth.Engine.Updates.{start_update}
use sysu_netauth.Engine.Calls.{perform, subscribed, answered, on_call}
use sysu_netauth.Engine.Invariant.{Inv}
use sysu_netauth.Engine.Held.{frames, Held, Held-refl, Held-trans, status-Held, after-Held}
use sysu_netauth.Engine.Held.Events.{save_config-Held, apply_config-Held, start_update-Held}
use sysu_netauth.Engine.Held.Network.{refresh_adapters-Held}

module _ (env : Env) where
  subscribed-Held : (s : Option Subscription) (e : Engine) → Held e (subscribed env s e)
  unfolding subscribed
  subscribed-Held none e = Held-refl
  subscribed-Held (some s) e = record { wish = refl; silent = refl }

  pub answered-Held :
      {e : Engine} (c : Call) (r : Engine × Result Reply) → Held e r.0 → Held e (answered env c r)
  unfolding answered frames
  answered-Held c (e', ok x) k =
      let j =
        subscribed-Held c.updates (act (T.replied (record { id = c.id; result = ok x })) e') in
      Held-trans k (record { wish = j.wish; silent = j.silent })
  answered-Held c (e', err x) k = Held-trans k (record { wish = refl; silent = refl })

  then-Held {ℓ} :
      {A : Type ℓ} {e : Engine} (r : Engine × Result A) (reply : A → Engine → Reply)
      → Held e r.0
      → Held e (after r (λ a e'. (e', ok (reply a e')))).0
  then-Held r reply k = after-Held r _ k λ _ e' _. Held-refl

  -- The calls that do not ask for a connection.
  abbrev pub asks_to_connect : Action → Bool
  asks_to_connect T.authenticate = true
  asks_to_connect (T.connect c) = true
  asks_to_connect _ = false

  logoff-Held : {e : Engine} → Inv e → e.manual_disconnect ≡ true → Held e (logoff env e).0
  unfolding logoff logoff_frame invalidate
  logoff-Held {e} h w =
      rw (h.manual_session w, logoff_frame)
        (let e' = record e { manual_disconnect = true; retry = none; candidates = [] } in
          let k = status-Held idle "已断开" (invalidate e') in
          record { wish = k.wish ∙ sym w; silent = k.silent })

  pub perform-Held :
      (a : Action) {e : Engine}
      → Inv e
      → e.manual_disconnect ≡ true
      → asks_to_connect a ≡ false
      → Held e (perform env a e).0
  unfolding perform
  perform-Held T.status h w q = Held-refl
  perform-Held T.watch h w q = Held-refl
  perform-Held T.interfaces {e} h w q =
      then-Held (refresh_adapters env e) _ (refresh_adapters-Held env e)
  perform-Held T.preferences h w q = Held-refl
  perform-Held T.diagnostics {e} h w q =
      then-Held (used e, env.read_log e.calls) _ (record { wish = refl; silent = refl })
  perform-Held T.get_config h w q = Held-refl
  perform-Held T.authenticate h w q = ground arith
  perform-Held T.logoff {e} h w q = then-Held (logoff env e) _ (logoff-Held h w)
  perform-Held (T.connect c) h w q = ground arith
  perform-Held (T.set_preferences patch) {e} h w q =
      then-Held (save_config env (apply patch e.config) false e) _ (save_config-Held env _ e w)
  perform-Held (T.set_config c) {e} h w q =
      then-Held (save_config env c false e) _ (save_config-Held env c e w)
  perform-Held T.reload_config {e} h w q =
      after-Held (used e, load env.encode (env.read_config e.calls)) _
        (record { wish = refl; silent = refl })
        λ c e' p. apply_config-Held env c e' (ap (λ x. x.manual_disconnect) (sym p) ∙ w)
  perform-Held T.check_update {e} h w q =
      then-Held (start_update env true e) _ (start_update-Held env true e)
  perform-Held (T.set_update_preferences auto_check notify) {e} h w q =
      then-Held
        (save_config env
          (record (e.config) { auto_update_check = auto_check; update_notify = notify }) false e)
        _ (save_config-Held env _ e w)

  pub on_call-Held :
      (c : Call) {e : Engine}
      → Inv e
      → e.manual_disconnect ≡ true
      → asks_to_connect c.action ≡ false
      → Held e (on_call env c e)
  unfolding on_call
  on_call-Held c {e} h w q = answered-Held c (perform env c.action e) (perform-Held c.action h w q)
