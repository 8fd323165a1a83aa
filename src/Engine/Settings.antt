-- ===== src/Engine/Settings.antt =====
-- src/engine.rs: connecting, disconnecting, and applying, saving and reloading the settings.
use Prim.Native.String.{◌++◌ as append}
use text.Mathlib.Text.{◌==◌ as str_eq}
use sysu_netauth.Common.{
  ℕ, ◌+◌, ◌%◌, ◌^◌, max, Bool, true, false, not, ◌&&◌, ◌||◌, Option, none, some, [], ◌==◌,
  if◌then◌else◌, is_none, Result, ok, err, is_some_and,
}
use sysu_netauth.Config.{Config, validate, load, save}
use sysu_netauth.Platform.{Adapter}
use sysu_netauth.Protocol.{control}
use sysu_netauth.Engine.Types.{
  idle, authenticated, failed as failed_state, state_eq, Session, sent, logged, wrote_config,
  configured_service, Engine, Env, M,
}
use sysu_netauth.Engine.Base.{◌>>◌, lift, ask, used, act, publish, status, invalidate}
use sysu_netauth.Engine.Candidates.{authenticate, or_failed}

module _ (env : Env) where
  unfoldable pub inspected : Engine × Result (Unit {0}) → Engine × Result (Unit {0})
  inspected (e, ok _) = (publish e, ok tt)
  inspected (e, err x) = (publish (status failed_state x e), err x)

  unfoldable pub requested : Engine → Engine
  requested e = record e {
    snapshot = record (e.snapshot) {
      connection_request = max ((e.snapshot.connection_request + 1) % 2 ^ 64) 1;
    };
    manual_disconnect = false;
    retry_attempt = 0;
  }

  unfoldable pub connect : M (Unit {0})
  connect e = if e.suspended then (e, err "系统休眠中") else inspected (authenticate env (requested e))

  unfoldable pub logoff_frame : Option Session → Option Adapter → M (Unit {0})
  logoff_frame none a e = (e, ok tt)
  logoff_frame (some s) none e = (e, ok tt)
  logoff_frame (some s) (some a) e =
      let frame = control a.mac 2 in (act (sent frame) (used e), env.send_frame e.calls frame)

  -- The session ends and the message is set whether or not the logoff frame was sent.
  unfoldable pub logoff : M (Unit {0})
  logoff e =
      let e' = record e { manual_disconnect = true; retry = none; candidates = [] } in
      let (e'', result) = logoff_frame e'.session e'.snapshot.adapter e' in
      (status idle "已断开" (invalidate e''), result)

  abbrev pub account_changed : Config → Config → Bool
  account_changed old new =
      not (str_eq old.username new.username)
      || not (str_eq old.password new.password)
      || not (str_eq old.iface new.iface)
      || not (str_eq old.iface_mode new.iface_mode)

  -- The new settings, before any authentication.
  unfoldable pub adopted : Bool → Bool → Config → Engine → Engine
  adopted changed enabled config e =
      let e1 = record e {
        config = config;
        retry_attempt = if enabled then 0 else e.retry_attempt;
        retry = if config.auto_auth then e.retry else none;
      } in
      if changed
      then status idle "认证配置已更改" (record (invalidate e1) { retry = none; retry_attempt = 0 })
      else e1

  unfoldable pub restarted : Bool → Bool → Engine → Engine
  restarted changed enabled e =
      if (changed || enabled && not (state_eq e.snapshot.state authenticated))
        && e.config.auto_auth
        && not e.manual_disconnect
        && not e.suspended
      then or_failed env (authenticate env e)
      else e

  unfoldable pub apply_config : Config → Engine → Engine
  apply_config config e =
      let changed = account_changed e.config config in
      let enabled = not e.config.auto_auth && config.auto_auth in
      publish (restarted changed enabled (adopted changed enabled config e))

  abbrev pub bool_ne : Bool → Bool → Bool
  bool_ne true b = not b
  bool_ne false b = b

  unfoldable pub configure : Config → M (Unit {0})
  configure config e =
      if env.is_windows && bool_ne config.service_mode e.config.service_mode
      then ask env.configure_service (act (configured_service config.service_mode) e)
      else (e, ok tt)

  -- `config::save`, whose write is recorded once the settings are known to be valid.
  unfoldable pub write_config : Config → M (Unit {0})
  write_config config e = elim (validate env.encode config) [
    | ok _ ↦ (act (wrote_config config) (used e), save env.encode config (env.write_file e.calls))
    | err x ↦ (e, err x)
  ]

  unfoldable pub applied : Config → Bool → M (Unit {0})
  applied config true e = connect (record e { config = config })
  applied config false e = (apply_config config e, ok tt)

  unfoldable pub save_config : Config → Bool → M (Unit {0})
  save_config config then_connect = do
    lift (validate env.encode config)
    write_config config
    configure config
    applied config then_connect

  unfoldable pub version_known : Option (ℕ × ℕ) → ℕ × ℕ → Bool
  version_known none v = false
  version_known (some (m, n)) (m', n') = (m == m') && (n == n')

  unfoldable pub reloaded_with : ℕ × ℕ → Result Config → Engine → Engine
  reloaded_with v (ok config) e = record (apply_config config e) {
    config_version = some v;
    config_error = none;
  }
  reloaded_with v (err x) e =
      let known = is_some_and (λ m. str_eq m x) e.config_error in
      let e' =
        if known
        then e
        else act (logged (append "config reload failed; retaining current settings: " x)) e in
      record e' { config_error = some x }

  unfoldable pub reload_version : Option (ℕ × ℕ) → Engine → Engine
  reload_version none e = e
  reload_version (some v) e =
      if is_none e.config_error && version_known e.config_version v
      then e
      else reloaded_with v (load env.encode (env.read_config e.calls)) (used e)

  unfoldable pub reload_changed_config : Engine → Engine
  reload_changed_config e = reload_version (env.file_version e.calls) (used e)
