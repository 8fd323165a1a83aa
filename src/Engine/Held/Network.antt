-- ===== src/Engine/Held/Network.antt =====
-- src/engine.rs: failures, frames, adapter changes and power events respect a disconnect.
use Prim.Native.String.{◌++◌ as append}
use sysu_netauth.Common.{
  min, ◌+◌, ◌-◌, ◌^◌, ℕ, inl, inr, ◌≡◌, ◌∙◌, Bool, true, false, Option, none, some, List, arith,
  refl, ap, Result, ok, err, Bool-cases, Result-cases, if◌then◌else◌, String, not, ◌&&◌, ◌||◌, ◌==◌,
  is_none, is_some, is_empty, is_ok, any,
}
use sysu_netauth.Authentication.{Exchange, ignore, response, success, failure}
use sysu_netauth.Config.{validate_auth}
use sysu_netauth.Platform.{Adapter, candidate}
use sysu_netauth.Protocol.{Packet, parse}
use sysu_netauth.Engine.Types.{
  idle, failed as failed_state, authenticated, authenticating, from_secs, state_eq, PowerEvent,
  suspend, resume, Engine, Env,
}
use sysu_netauth.Engine.Base.{publish, status, invalidate, set_adapter, used}
use sysu_netauth.Engine.Candidates.{
  set_adapters, refresh_adapters, backoff, give_up, schedule, failed, or_failed,
}
use sysu_netauth.Engine.Network.{
  send_on, noted, probing, succeeded, exchanged, parsed, on_adapter, packet, reconnect,
  updated_adapter, lost_adapter, follow_active, check_active, refreshed, network_changed,
  power_reset, woken, on_power, drain_power,
}
use sysu_netauth.Engine.Invariant.{Inv}
use sysu_netauth.Engine.Invariant.Candidates.{cleared, cleared-Inv}
use sysu_netauth.Engine.Held.{frames, Held, Held-refl, Held-trans, status-Held, after-Held}

pub either-Held :
    {e : Engine} (b : Bool) {x y : Engine} → Held e x → Held e y → Held e (if b then x else y)
either-Held true h k = h
either-Held false h k = k

module _ (env : Env) where
  schedule-Held : (m : String) (e : Engine) → Held e (schedule env m e)
  unfolding schedule
  schedule-Held m e =
      let k = status-Held idle (append m "，等待重试") (record e {
        calls = e.calls + 1;
        retry_attempt = min (e.retry_attempt + 1) (2 ^ 32 - 1);
        retry =
            some
              (env.instant e.calls + from_secs (backoff e.retry_attempt e.config.retry_interval));
      }) in
      record { wish = k.wish; silent = k.silent }

  abbrev given_up : Engine → Bool
  given_up e =
      e.manual_disconnect
      || e.suspended
      || not e.config.auto_auth
      || not (is_ok (validate_auth env.encode e.config))

  give_up-Held : (m : String) (e : Engine) → Held e (give_up env m e)
  unfolding give_up
  give_up-Held m e = elim (Bool-cases (given_up e)) [
    | inl p ↦ rw (p, give_up) (status-Held failed_state m e)
    | inr p ↦ rw (p, give_up) (schedule-Held m e)
  ]

  cleared-Held : (e : Engine) → Held e (cleared env e)
  unfolding cleared invalidate
  cleared-Held e = ground arith

  pub failed-Held :
      (m : String) {e : Engine} → Inv e → e.manual_disconnect ≡ true → Held e (failed env m e)
  unfolding failed cleared
  failed-Held m {e} h w =
      let c = cleared-Held e in
      let none_left : is_empty (cleared env e).candidates ≡ true =
        ap is_empty ((cleared-Inv env h).0.manual_candidates (c.wish ∙ w)) in
      rw (none_left, failed) (Held-trans c (give_up-Held m _))

  pub or_failed-Held :
      {e : Engine} (r : Engine × Result (Unit {0}))
      → Inv r.0
      → r.0.manual_disconnect ≡ true
      → Held e r.0
      → Held e (or_failed env r)
  or_failed-Held (e', ok _) h w k = k
  or_failed-Held (e', err x) h w k = Held-trans k (failed-Held x h w)

  set_adapters-Held : (found : List Adapter) (e : Engine) → Held e (set_adapters found e)
  unfolding set_adapters publish
  set_adapters-Held found e = ground arith

  pub refresh_adapters-Held : (e : Engine) → Held e (refresh_adapters env e).0
  unfolding refresh_adapters
  refresh_adapters-Held e =
      after-Held (used e, env.list_adapters e.calls) _ (record { wish = refl; silent = refl })
        λ found e' p. set_adapters-Held found e'

  reconnect_off : (e : Engine) → e.manual_disconnect ≡ true → reconnect env e ≡ (e, ok tt)
  unfolding reconnect
  reconnect_off e w = ground arith

  send_on_off :
      (bytes : List ℕ) (e : Engine) → e.session ≡ none → send_on env e.session bytes e ≡ (e, ok tt)
  unfolding send_on
  send_on_off bytes e n = rw n refl

  noted-Held : (changed : Bool) (p : Packet) (e : Engine) → Held e (noted env changed p e)
  unfolding noted frames
  noted-Held true p e = record { wish = refl; silent = refl }
  noted-Held false p e = record { wish = refl; silent = refl }

  probing-Held : (e : Engine) → Held e (probing env e).0
  unfolding probing frames
  probing-Held e =
      let e' = status authenticating "已完成 EAP，验证互联网连通性" e in
      let k = status-Held authenticating "已完成 EAP，验证互联网连通性" e in
      elim (Result-cases (env.start_probe e'.calls)) [
        | inl (_, p) ↦ rw (p, probing) (record { wish = k.wish; silent = k.silent })
        | inr (x, p) ↦ rw (p, probing) (record { wish = k.wish; silent = k.silent })
      ]

  succeeded-Held : (e : Engine) → Held e (succeeded env e).0
  unfolding succeeded
  succeeded-Held e =
      let e' = record e { handshake_deadline = none; start_deadline = none } in
      elim (Bool-cases (not (state_eq e'.snapshot.state authenticated) && is_none e'.probe)) [
        | inl p ↦
            rw (p, succeeded)
              (let k = probing-Held e' in record { wish = k.wish; silent = k.silent })
        | inr p ↦ rw (p, succeeded) (record { wish = refl; silent = refl })
      ]

  exchanged-Held :
      (p : Packet) (x : Result Exchange) {e : Engine}
      → Inv e
      → e.manual_disconnect ≡ true
      → Held e (exchanged env p x e).0
  unfolding exchanged
  exchanged-Held p (err x) h w = Held-refl
  exchanged-Held p (ok ignore) h w = Held-refl
  exchanged-Held p (ok (response bytes changed)) {e} h w =
      rw (send_on_off bytes e (h.manual_session w), exchanged) (noted-Held changed p e)
  exchanged-Held p (ok success) {e} h w = succeeded-Held e
  exchanged-Held p (ok failure) h w = failed-Held _ h w

  paired-Inv : (q : Option (List ℕ)) {e : Engine} → Inv e → Inv (record e { peer = q })
  paired-Inv q h = ground arith

  on_adapter-Held :
      (a : Option Adapter) (raw : List ℕ) {e : Engine}
      → Inv e
      → e.manual_disconnect ≡ true
      → Held e (on_adapter env a raw e).0
  unfolding on_adapter parsed
  on_adapter-Held none raw h w = Held-refl
  on_adapter-Held (some a) raw {e} h w = read (parse raw)
    where
      read : (p : Option Packet) → Held e (parsed env a p e).0
      read none = Held-refl
      read (some p) =
          let k = exchanged-Held p _ (paired-Inv _ h) w in
          record { wish = k.wish; silent = k.silent }

  pub packet-Held :
      (g : ℕ) (raw : List ℕ) {e : Engine}
      → Inv e
      → e.manual_disconnect ≡ true
      → Held e (packet env g raw e).0
  unfolding packet
  packet-Held g raw {e} h w = elim (Bool-cases (g == e.generation)) [
    | inl p ↦ rw (p, packet) (on_adapter-Held e.snapshot.adapter raw h w)
    | inr p ↦ rw (p, packet) Held-refl
  ]

  updated_adapter-Held :
      (active found : Adapter) (e : Engine) → Held e (updated_adapter env active found e)
  unfolding updated_adapter publish
  updated_adapter-Held active found e = ground arith

  lost_adapter-Held : (e : Engine) → Held e (lost_adapter env e)
  unfolding lost_adapter invalidate
  lost_adapter-Held e =
      let k =
        status-Held idle "网卡已断开" (record (set_adapter none (invalidate e)) { retry = none }) in
      record { wish = k.wish; silent = k.silent }

  settle-Held :
      {e e' : Engine} → Held e e' → e.manual_disconnect ≡ true → Held e (reconnect env e').0
  settle-Held {e} {e'} k w = rw (reconnect_off e' (k.wish ∙ w)) k

  follow_active-Held :
      (active : Adapter) (found : Option Adapter) (e : Engine)
      → e.manual_disconnect ≡ true
      → Held e (follow_active env active found e).0
  unfolding follow_active
  follow_active-Held active none e w = settle-Held (lost_adapter-Held e) w
  follow_active-Held active (some found) e w =
      let e' = updated_adapter env active found e in
      let k = updated_adapter-Held active found e in
      elim (Bool-cases (is_some e'.session)) [
        | inl p ↦ rw (p, follow_active) k
        | inr p ↦ rw (p, follow_active) (settle-Held k w)
      ]

  check_active-Held :
      (a : Option Adapter) (e : Engine)
      → e.manual_disconnect ≡ true
      → Held e (check_active env a e).0
  unfolding check_active
  check_active-Held none e w = settle-Held Held-refl w
  check_active-Held (some a) e w = follow_active-Held a _ e w

  refreshed-Held :
      {e : Engine} (b : Bool) (r : Engine × Result (Unit {0}))
      → r.0.manual_disconnect ≡ true
      → Held e r.0
      → Held e (refreshed env b r).0
  unfolding refreshed frames
  refreshed-Held b (e', err x) w k = record { wish = k.wish; silent = k.silent }
  refreshed-Held {e} b (e', ok _) w k = reset (not b && any candidate e'.adapters)
    where
      reset :
          (c : Bool)
          → let x = if c then record e' { retry_attempt = 0 } else e' in
            Held e (check_active env x.snapshot.adapter x).0
      reset true =
          let j = check_active-Held _ (record e' { retry_attempt = 0 }) w in
          Held-trans k (record { wish = j.wish; silent = j.silent })
      reset false = Held-trans k (check_active-Held _ e' w)

  either_pair-Held :
      {e : Engine} (b : Bool) (r r' : Engine × Result (Unit {0}))
      → Held e r.0
      → Held e r'.0
      → Held e (if b then r else r').0
  either_pair-Held true r r' h k = h
  either_pair-Held false r r' h k = k

  pub network_changed-Held :
      (e : Engine) → e.manual_disconnect ≡ true → Held e (network_changed env e).0
  unfolding network_changed
  network_changed-Held e w =
      let k = refresh_adapters-Held e in
      either_pair-Held e.suspended (e, ok tt) _ Held-refl
        (refreshed-Held _ (refresh_adapters env e) (k.wish ∙ w) k)

  reset-Held : (e : Engine) → Held e (power_reset env e)
  unfolding power_reset invalidate
  reset-Held e = record { wish = refl; silent = refl }

  woken-Held : (e : Engine) → Held e (woken env e)
  unfolding woken
  woken-Held e = elim (Bool-cases (e.config.auto_auth && not e.manual_disconnect)) [
    | inl p ↦
        rw (p, woken)
          (let k = status-Held idle "系统已恢复，等待网卡就绪后重新认证" (record e {
            calls = e.calls + 1;
            suspended = false;
            retry = some (env.instant e.calls + from_secs 2);
          }) in
            record { wish = k.wish; silent = k.silent })
    | inr p ↦
        rw (p, woken)
          (let k = status-Held idle "系统已恢复，自动认证未启用或已手动断开" (record e { suspended = false }) in
            record { wish = k.wish; silent = k.silent })
  ]

  on_power-Held : (p : Option PowerEvent) (e : Engine) → Held e (on_power env p e)
  unfolding on_power
  on_power-Held none e = Held-refl
  on_power-Held (some suspend) e =
      let k = status-Held idle "系统休眠，等待恢复" (record (power_reset env e) { suspended = true }) in
      Held-trans (reset-Held e) (record { wish = k.wish; silent = k.silent })
  on_power-Held (some resume) e = Held-trans (reset-Held e) (woken-Held (power_reset env e))

  pub drain_power-Held : (e : Engine) → Held e (drain_power env e)
  unfolding drain_power
  drain_power-Held e =
      let k = on_power-Held e.power_pending (record e { power_pending = none }) in
      record { wish = k.wish; silent = k.silent }
