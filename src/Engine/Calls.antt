-- ===== src/Engine/Calls.antt =====
-- src/engine.rs: the calls of clients, `Engine::call`.
use sysu_netauth.Common.{
  if◌then◌else◌, true, false, Option, none, some, [], ◌∷◌, ◌++◌, filter, Result, ok, err,
}
use sysu_netauth.Config.{Config, apply, load}
use sysu_netauth.Engine.Types.{
  Subscription, Preferences, Action, status, watch, interfaces, authenticate, logoff, get_config,
  preferences, diagnostics, set_preferences, set_config, connect, reload_config, check_update,
  set_update_preferences, Reply, snapshot, adapters, settings, config, log, saved, reloaded,
  checking, Call, replied, Engine, Env, M,
}
use sysu_netauth.Engine.Base.{exec, gets, ask, after, used, act}
use sysu_netauth.Engine.Candidates.{refresh_adapters}
use sysu_netauth.Engine.Settings as Settings
use sysu_netauth.Engine.Settings.{save_config, apply_config}
use sysu_netauth.Engine.Updates.{start_update}

abbrev pub shown_preferences : Config → Preferences
shown_preferences c = record {
  iface = c.iface;
  iface_mode = c.iface_mode;
  auto_auth = c.auto_auth;
  retry_interval = c.retry_interval;
  service_mode = c.service_mode;
  launch_gui_on_login = c.launch_gui_on_login;
  hide_window_on_login = c.hide_window_on_login;
  desktop_notify = c.desktop_notify;
  auto_update_check = c.auto_update_check;
  update_notify = c.update_notify;
}

module _ (env : Env) where
  -- What runs before the answer is made, and the answer.
  abbrev pub then_reply : M (Unit {0}) → (Engine → Reply) → M Reply
  then_reply m r e = after (m e) (λ _. gets r)

  unfoldable pub perform : Action → M Reply
  perform status e = gets (λ e. snapshot e.snapshot) e
  perform watch e = gets (λ e. snapshot e.snapshot) e
  perform interfaces e = then_reply (refresh_adapters env) (λ e. adapters e.adapters) e
  perform preferences e = gets (λ e. settings (shown_preferences e.config)) e
  perform diagnostics e =
      after (ask env.read_log e) (λ text. gets (λ e'. log e'.snapshot.state text))
  perform get_config e = gets (λ e. config e.config) e
  perform authenticate e = then_reply (Settings.connect env) (λ e. snapshot e.snapshot) e
  perform logoff e = then_reply (Settings.logoff env) (λ e. snapshot e.snapshot) e
  perform (set_preferences patch) e =
      then_reply (save_config env (apply patch e.config) false) (λ _. saved) e
  perform (set_config c) e = then_reply (save_config env c false) (λ _. saved) e
  perform (connect c) e =
      if e.suspended
      then (e, err "系统休眠中")
      else then_reply (save_config env c true) (λ e'. snapshot e'.snapshot) e
  perform reload_config e =
      after (used e, load env.encode (env.read_config e.calls))
        (λ c. then_reply (exec (apply_config env c)) (λ _. reloaded))
  perform check_update e = then_reply (start_update env true) (λ _. checking) e
  perform (set_update_preferences auto_check notify) e =
      then_reply
        (save_config env
          (record (e.config) { auto_update_check = auto_check; update_notify = notify }) false)
        (λ _. saved) e

  -- A watcher is added once its first answer is sent; those that are gone are dropped.
  unfoldable pub subscribed : Option Subscription → Engine → Engine
  subscribed none e = e
  subscribed (some s) e = record e { subscribers = filter (λ w. w.alive) e.subscribers ++ s ∷ [] }

  unfoldable pub answered : Call → Engine × Result Reply → Engine
  answered c (e, ok r) =
      subscribed c.updates (act (replied (record { id = c.id; result = ok r })) e)
  answered c (e, err x) = act (replied (record { id = c.id; result = err x })) e

  unfoldable pub on_call : Call → Engine → Engine
  on_call c e = answered c (perform c.action e)
