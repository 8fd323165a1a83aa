-- ===== src/Engine/Network.antt =====
-- src/engine.rs: frames from the capture, changes of the adapters, and power events.
use Prim.Native.String.{◌++◌ as append}
use text.Mathlib.Text.{◌==◌ as str_eq}
use sysu_netauth.Common.{
  ℕ, ◌+◌, Bool, true, false, not, ◌&&◌, ◌||◌, Option, none, some, List, [], ◌==◌, if◌then◌else◌,
  any, find, is_some, is_none, Result, ok, err, is_ok,
}
use sysu_netauth.Authentication.{Exchange, ignore, response, success, failure, receive}
use sysu_netauth.Config.{validate_auth}
use sysu_netauth.Platform.{Adapter, candidate, adapter_eq}
use sysu_netauth.Protocol.{Packet, parse}
use sysu_netauth.Engine.Types.{
  idle, authenticating, authenticated, state_eq, PowerEvent, suspend, resume, Session, sent, probed,
  logged, logged_peer, Engine, Env, M, from_secs,
}
use sysu_netauth.Engine.Base.{exec, after, used, act, publish, status, invalidate, set_adapter}
use sysu_netauth.Engine.Candidates.{refresh_adapters, authenticate, failed, or_failed}

module _ (env : Env) where
  -- `if let Some(session) = &self.session { session.capture.send(&bytes)?; }`
  unfoldable pub send_on : Option Session → List ℕ → M (Unit {0})
  send_on none bytes e = (e, ok tt)
  send_on (some session) bytes e = (act (sent bytes) (used e), env.send_frame e.calls bytes)

  unfoldable pub noted : Bool → Packet → Engine → Engine
  noted changed p e =
      let e' = if changed then act (logged_peer p.source) e else e in
      record e' { start_deadline = none }

  -- The first success after a handshake starts the check of the connection.
  unfoldable pub probing : M (Unit {0})
  probing e =
      let e' = status authenticating "已完成 EAP，验证互联网连通性" e in
      elim (env.start_probe e'.calls) [
        | ok _ ↦
            (record (act (probed e'.generation) (used e')) { probe = some e'.generation }, ok tt)
        | err x ↦ (used e', err x)
      ]

  unfoldable pub succeeded : M (Unit {0})
  succeeded e =
      let e' = record e { handshake_deadline = none; start_deadline = none } in
      if not (state_eq e'.snapshot.state authenticated) && is_none e'.probe
      then probing e'
      else (e', ok tt)

  unfoldable pub exchanged : Packet → Result Exchange → M (Unit {0})
  exchanged p (err x) e = (e, err x)
  exchanged p (ok ignore) e = (e, ok tt)
  exchanged p (ok (response bytes changed)) e =
      after (send_on e.session bytes e) (λ _. exec (noted changed p))
  exchanged p (ok success) e = succeeded e
  exchanged p (ok failure) e = (failed env "EAP 认证失败" e, ok tt)

  abbrev pub online : Engine → Bool
  online e = state_eq e.snapshot.state authenticated || is_some e.probe

  unfoldable pub parsed : Adapter → Option Packet → M (Unit {0})
  parsed a none e = (e, ok tt)
  parsed a (some p) e =
      let (peer, x) = receive env.md5 e.peer a.mac p e.username e.password (online e) in
      exchanged p x (record e { peer = peer })

  unfoldable pub on_adapter : Option Adapter → List ℕ → M (Unit {0})
  on_adapter none raw e = (e, ok tt)
  on_adapter (some a) raw e = parsed a (parse raw) e

  unfoldable pub packet : ℕ → List ℕ → M (Unit {0})
  packet generation raw e =
      if not (generation == e.generation) then (e, ok tt) else on_adapter e.snapshot.adapter raw e

  -- The retry of an adapter that came back, unless one is pending or unwanted.
  unfoldable pub reconnect : M (Unit {0})
  reconnect e =
      if e.config.auto_auth
        && not e.manual_disconnect
        && is_none e.session
        && is_none e.retry
        && is_ok (validate_auth env.encode e.config)
      then authenticate env e
      else (e, ok tt)

  unfoldable pub updated_adapter : Adapter → Adapter → Engine → Engine
  updated_adapter active found e =
      if adapter_eq found active then e else publish (set_adapter (some found) e)

  unfoldable pub lost_adapter : Engine → Engine
  lost_adapter e = status idle "网卡已断开" (record (set_adapter none (invalidate e)) { retry = none })

  -- What the new adapter list says of the active one.
  unfoldable pub follow_active : Adapter → Option Adapter → M (Unit {0})
  follow_active active none e = reconnect (lost_adapter e)
  follow_active active (some found) e =
      let e' = updated_adapter active found e in
      if is_some e'.session then (e', ok tt) else reconnect e'

  unfoldable pub check_active : Option Adapter → M (Unit {0})
  check_active none e = reconnect e
  check_active (some active) e =
      follow_active active (find (λ a. str_eq a.id active.id && candidate a) e.adapters) e

  unfoldable pub refreshed : Bool → Engine × Result (Unit {0}) → Engine × Result (Unit {0})
  refreshed previous_media (e, err x) =
      (act (logged (append "adapter refresh failed; retaining current session: " x)) e, ok tt)
  refreshed previous_media (e, ok _) =
      let e' =
        if not previous_media && any candidate e.adapters
        then record e { retry_attempt = 0 }
        else e in
      check_active e'.snapshot.adapter e'

  unfoldable pub network_changed : M (Unit {0})
  network_changed e =
      if e.suspended
      then (e, ok tt)
      else refreshed (any candidate e.adapters) (refresh_adapters env e)

  unfoldable pub drain_network : Engine → Engine
  drain_network e =
      let e' = record e { network_pending = false } in
      if e.network_pending then or_failed env (network_changed e') else e'

  unfoldable pub power_reset : Engine → Engine
  power_reset e = record (set_adapter none (invalidate e)) {
    candidates = [];
    retry = none;
    retry_attempt = 0;
  }

  unfoldable pub woken : Engine → Engine
  woken e =
      if e.config.auto_auth && not e.manual_disconnect
      then status idle "系统已恢复，等待网卡就绪后重新认证" (record e {
        calls = e.calls + 1;
        suspended = false;
        retry = some (env.instant e.calls + from_secs 2);
      })
      else status idle "系统已恢复，自动认证未启用或已手动断开" (record e { suspended = false })

  unfoldable pub on_power : Option PowerEvent → Engine → Engine
  on_power none e = e
  on_power (some suspend) e = status idle "系统休眠，等待恢复" (record (power_reset e) { suspended = true })
  on_power (some resume) e = woken (power_reset e)

  unfoldable pub drain_power : Engine → Engine
  drain_power e = on_power e.power_pending (record e { power_pending = none })
