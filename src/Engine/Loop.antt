-- ===== src/Engine/Loop.antt =====
-- src/engine.rs: deadlines, the handler of events, and the main loop.
use Prim.Native.String.{◌++◌ as append}
use text.Mathlib.Text.{◌==◌ as str_eq}
use sysu_netauth.Common.{
  ℕ, ◌+◌, ◌-◌, min, Bool, true, false, not, ◌&&◌, Option, none, some, [], leb, ◌==◌, if◌then◌else◌,
  find, is_some_and, Result, ok, err,
}
use sysu_netauth.Platform.{Adapter}
use sysu_netauth.Protocol.{control}
use sysu_netauth.Engine.Types.{
  authenticated, stopped, Session, Event, network_changed, connectivity, stop, call, packet,
  capture_error, power_changed, update, sent, logged, printed, wrote_cache, Engine, Env, M,
  from_secs, reconcile_interval,
}
use sysu_netauth.Engine.Base.{exec, after, used, act, publish, status, invalidate, set_adapter}
use sysu_netauth.Engine.Candidates.{refresh_adapters, authenticate, failed, or_failed}
use sysu_netauth.Engine.Network as Network
use sysu_netauth.Engine.Network.{drain_network, drain_power}
use sysu_netauth.Engine.Settings.{reload_changed_config}
use sysu_netauth.Engine.Updates.{start_update, update_result}
use sysu_netauth.Engine.Calls.{on_call}

-- `deadline.is_some_and(|d| d <= now)`
abbrev pub due : Option ℕ → ℕ → Bool
due deadline now = is_some_and (λ d. leb d now) deadline

abbrev pub earlier : Option ℕ → Option ℕ → Option ℕ
earlier none b = b
earlier (some a) none = some a
earlier (some a) (some b) = some (min a b)

-- The deadline that the loop waits for: the least of those that are armed.
unfoldable pub next_deadline : Engine → Option ℕ
next_deadline e =
    let update_check =
      if e.config.auto_update_check && not e.snapshot.update.checking
      then some e.update_deadline
      else none in
    earlier e.retry (
      earlier e.handshake_deadline
        (earlier e.start_deadline (earlier (some e.reconcile_deadline) update_check)))

-- `timeout`, at the instant `now`; `none` waits without a limit.
unfoldable pub timeout : ℕ → Engine → Option ℕ
timeout now e =
    if e.suspended then none else elim (next_deadline e) [ none ↦ none | some d ↦ some (d - now) ]

module _ (env : Env) where
  -- The steps of `tick`, in order.
  unfoldable pub reconcile : ℕ → Engine → Engine
  reconcile now e =
      if leb e.reconcile_deadline now
      then (let e' = or_failed env (Network.network_changed env (reload_changed_config env e)) in
          record e' {
            calls = e'.calls + 1;
            reconcile_deadline = env.instant e'.calls + reconcile_interval;
          })
      else e

  unfoldable pub check_handshake : ℕ → Engine → Engine
  check_handshake now e = if due e.handshake_deadline now then failed env "认证超时" e else e

  -- The EAPOL-Start that is sent again; on an error the tick ends early.
  unfoldable pub resend : Option Session → Option Adapter → M (Unit {0})
  resend none a e = (e, ok tt)
  resend (some s) none e = (e, ok tt)
  resend (some s) (some a) e =
      let frame = control a.mac 1 in (act (sent frame) (used e), env.send_frame e.calls frame)

  unfoldable pub check_start : ℕ → M (Unit {0})
  check_start now e =
      if due e.start_deadline now
      then after (resend e.session e.snapshot.adapter e)
          (λ _. exec (λ e'. record e' { start_deadline = some (now + from_secs 1) }))
      else (e, ok tt)

  unfoldable pub check_retry : ℕ → Engine → Engine
  check_retry now e =
      if due e.retry now then or_failed env (authenticate env (record e { retry = none })) else e

  unfoldable pub update_started : ℕ → Engine × Result (Unit {0}) → Engine
  update_started now (e, ok _) = e
  update_started now (e, err x) =
      act (printed (append "update: " x)) (record e { update_deadline = now + from_secs 1800 })

  unfoldable pub check_update : ℕ → Engine → Engine
  check_update now e =
      if e.config.auto_update_check && leb e.update_deadline now && not e.snapshot.update.checking
      then update_started now (start_update env false e)
      else e

  -- A failed resend is a failure of the session, and the other deadlines wait for the next tick.
  unfoldable pub resent : ℕ → Engine × Result (Unit {0}) → Engine
  resent now (e, ok _) = check_update now (check_retry now e)
  resent now (e, err x) = failed env x e

  unfoldable pub awake : Engine → Engine
  awake e =
      let now = env.instant e.calls in
      resent now (check_start now (check_handshake now (reconcile now (used e))))

  unfoldable pub tick : Engine → Engine
  tick e =
      if e.stop_pending
      then e
      else (let e' = drain_network env (drain_power env e) in if e'.suspended then e' else awake e')

  unfoldable pub halt : Engine → Engine
  halt e = status stopped "服务已停止" (invalidate e)

  -- The adapter that worked is remembered.
  unfoldable pub cached : Option Adapter → Engine → Engine
  cached none e = e
  cached (some a) e =
      let e' =
        act (wrote_cache a.id)
          (record e { calls = e.calls + 1; cache = record { last_success_id = a.id } }) in
      elim (env.write_file e.calls) [ ok _ ↦ e' | err x ↦ act (printed (append "cache: " x)) e' ]

  -- The active adapter's entry is renewed from the list.
  unfoldable pub renewed : Option Adapter → Engine → Engine
  renewed none e = e
  renewed (some active) e = elim (find (λ a. str_eq a.id active.id) e.adapters) [
    | none ↦ e
    | some found ↦ set_adapter (some found) e
  ]

  unfoldable pub went_online : Engine → Engine
  went_online e = publish (
      act (logged "authenticated; Internet reachable") (record e {
        calls = e.calls + 1;
        snapshot = record (e.snapshot) {
          state = authenticated;
          message = "已认证，互联网连通";
          internet = true;
          authenticated_at = some (env.clock e.calls);
        };
      }))

  unfoldable pub reachable : Engine → Engine
  reachable e =
      let e1 = record e { candidates = []; retry_attempt = 0; retry = none } in
      let e2 = cached e1.snapshot.adapter e1 in
      let e3 = (refresh_adapters env e2).0 in went_online (renewed e3.snapshot.adapter e3)

  unfoldable pub on_connectivity : Bool → Engine → Engine
  on_connectivity success e =
      let e' = record e { probe = none } in
      if success then reachable e' else failed env "EAP 成功但无法访问互联网" e'

  -- `match event`
  unfoldable pub dispatch : Event → Engine → Engine × Bool
  dispatch stop e = (halt e, false)
  dispatch (packet g bytes) e = (or_failed env (Network.packet env g bytes e), true)
  dispatch (capture_error g x) e = (if g == e.generation then failed env x e else e, true)
  dispatch power_changed e = (e, true)
  dispatch network_changed e =
      (or_failed env (Network.network_changed env (record e { network_pending = false })), true)
  dispatch (connectivity g success) e =
      (if g == e.generation then on_connectivity success e else e, true)
  dispatch (update result) e = (update_result env result e, true)
  dispatch (call c) e = (on_call env c e, true)

  abbrev pub is_stop : Event → Bool
  is_stop stop = true
  is_stop _ = false

  abbrev pub is_network : Event → Bool
  is_network network_changed = true
  is_network _ = false

  -- Pending power and network notices come before the event, save for a stop.
  unfoldable pub drained : Event → Engine → Engine
  drained event e =
      if is_stop event
      then e
      else (let e' = drain_power env e in if is_network event then e' else drain_network env e')

  unfoldable pub handle : Event → Engine → Engine × Bool
  handle event e =
      if e.stop_pending
      then (halt (record e { stop_pending = false }), false)
      else dispatch event (drained event e)
