-- ===== src/Engine/Invariant/Network.antt =====
-- src/engine.rs: frames, adapter changes and power events keep the invariant.
use sysu_netauth.Common.{
  ℕ, inl, inr, ◌≡◌, ◌∙◌, Bool, true, false, Option, none, some, List, arith, refl, sym, Result, ok,
  err, Bool-cases, Result-cases, if◌then◌else◌, subst, String, is_some, is_none, not, ◌&&◌, ◌==◌,
  is_ok, any,
}
use sysu_netauth.Authentication.{Exchange, ignore, response, success, failure}
use sysu_netauth.Config.{validate_auth}
use sysu_netauth.Platform.{Adapter, candidate, adapter_eq}
use sysu_netauth.Protocol.{Packet, parse}
use sysu_netauth.Engine.Types.{
  authenticating, authenticated, state_eq, PowerEvent, suspend, resume, Session, Engine, Env,
}
use sysu_netauth.Engine.Base.{after, status, invalidate, set_adapter}
use sysu_netauth.Engine.Candidates.{refresh_adapters, or_failed}
use sysu_netauth.Engine.Network.{
  send_on, noted, probing, succeeded, exchanged, parsed, on_adapter, packet, reconnect,
  updated_adapter, lost_adapter, follow_active, check_active, refreshed, network_changed,
  drain_network, power_reset, woken, on_power, drain_power,
}
use sysu_netauth.Engine.Invariant.{Inv}
use sysu_netauth.Engine.Invariant.Base.{
  publish-Inv, status-Inv, status-Inv_quiet, used-Inv, act-Inv, status-Framed, status-state,
}
use sysu_netauth.Engine.Invariant.Candidates.{
  refresh_adapters-Inv, refresh_adapters-SameFlags, failed-Inv, or_failed-Inv,
}
use sysu_netauth.Engine.Invariant.Authenticate.{authenticate-Inv}

module _ (env : Env) where
  send_on-Inv :
      (s : Option Session) (bytes : List ℕ) {e : Engine} → Inv e → Inv (send_on env s bytes e).0
  unfolding send_on
  send_on-Inv none bytes h = h
  send_on-Inv (some s) bytes h = act-Inv _ (used-Inv h)

  noted-Inv : (changed : Bool) (p : Packet) {e : Engine} → Inv e → Inv (noted env changed p e)
  unfolding noted
  noted-Inv true p h = ground arith
  noted-Inv false p h = ground arith

  watching-Inv :
      {e : Engine}
      → Inv e
      → e.suspended ≡ false
      → e.snapshot.state ≡ authenticating
      → Inv (record e { probe = some e.generation })
  watching-Inv h s a = ground arith

  probing-Inv : {e : Engine} → Inv e → e.suspended ≡ false → Inv (probing env e).0
  unfolding probing
  probing-Inv {e} h s =
      let m : String = "已完成 EAP，验证互联网连通性" in
      let e' = status authenticating m e in
      let h' = status-Inv authenticating m h (λ _. refl) in
      let f = status-Framed authenticating m e in
      elim (Result-cases (env.start_probe e'.calls)) [
        | inl (_, p) ↦
            rw (p, probing)
              (watching-Inv (act-Inv _ (used-Inv h')) (f.same_suspended ∙ s)
                (status-state authenticating m e))
        | inr (x, p) ↦ rw (p, probing) (used-Inv h')
      ]

  undated-Inv :
      {e : Engine} → Inv e → Inv (record e { handshake_deadline = none; start_deadline = none })
  undated-Inv h = ground arith

  succeeded-Inv : {e : Engine} → Inv e → e.suspended ≡ false → Inv (succeeded env e).0
  unfolding succeeded
  succeeded-Inv {e} h s =
      let e' = record e { handshake_deadline = none; start_deadline = none } in
      elim (Bool-cases (not (state_eq e'.snapshot.state authenticated) && is_none e'.probe)) [
        | inl p ↦ rw (p, succeeded) (probing-Inv (undated-Inv h) s)
        | inr p ↦ rw (p, succeeded) (undated-Inv h)
      ]

  after_send-Inv :
      (changed : Bool) (p : Packet) (r : Engine × Result (Unit {0}))
      → Inv r.0
      → Inv (after {0, 0} r (λ _ e. (noted env changed p e, ok tt))).0
  after_send-Inv changed p (e, ok _) h = noted-Inv changed p h
  after_send-Inv changed p (e, err x) h = h

  exchanged-Inv :
      (p : Packet) (x : Result Exchange) {e : Engine}
      → Inv e
      → e.suspended ≡ false
      → Inv (exchanged env p x e).0
  unfolding exchanged
  exchanged-Inv p (err x) h s = h
  exchanged-Inv p (ok ignore) h s = h
  exchanged-Inv p (ok (response bytes changed)) {e} h s =
      after_send-Inv changed p (send_on env e.session bytes e) (send_on-Inv e.session bytes h)
  exchanged-Inv p (ok success) h s = succeeded-Inv h s
  exchanged-Inv p (ok failure) h s = failed-Inv env _ h

  paired-Inv : (q : Option (List ℕ)) {e : Engine} → Inv e → Inv (record e { peer = q })
  paired-Inv q h = ground arith

  on_adapter-Inv :
      (a : Option Adapter) (raw : List ℕ) {e : Engine}
      → Inv e
      → (is_some a ≡ true → e.suspended ≡ false)
      → Inv (on_adapter env a raw e).0
  unfolding on_adapter parsed
  on_adapter-Inv none raw h s = h
  on_adapter-Inv (some a) raw {e} h s = read (parse raw)
    where
      read : (p : Option Packet) → Inv (parsed env a p e).0
      read none = h
      read (some p) = exchanged-Inv p _ (paired-Inv _ h) (s refl)

  awake_of_adapter : {e : Engine} → Inv e → is_some e.snapshot.adapter ≡ true → e.suspended ≡ false
  awake_of_adapter h p = ground arith

  pub packet-Inv : (g : ℕ) (raw : List ℕ) {e : Engine} → Inv e → Inv (packet env g raw e).0
  unfolding packet
  packet-Inv g raw {e} h = elim (Bool-cases (g == e.generation)) [
    | inl p ↦ rw (p, packet) (on_adapter-Inv e.snapshot.adapter raw h (awake_of_adapter h))
    | inr p ↦ rw (p, packet) h
  ]

  pub reconnect-Inv : {e : Engine} → Inv e → Inv (reconnect env e).0
  unfolding reconnect
  reconnect-Inv {e} h =
      elim (Bool-cases (
        e.config.auto_auth
        && not e.manual_disconnect
        && is_none e.session
        && is_none e.retry
        && is_ok (validate_auth env.encode e.config))) [
          | inl p ↦ rw (p, reconnect) (authenticate-Inv env h (ground arith)).0
          | inr p ↦ rw (p, reconnect) h
        ]

  moved-Inv :
      (a : Adapter) {e : Engine} → Inv e → e.suspended ≡ false → Inv (set_adapter (some a) e)
  moved-Inv a h s = ground arith

  updated_adapter-Inv :
      (active found : Adapter) {e : Engine}
      → Inv e
      → e.suspended ≡ false
      → Inv (updated_adapter env active found e)
  unfolding updated_adapter
  updated_adapter-Inv active found {e} h s = elim (Bool-cases (adapter_eq found active)) [
    | inl p ↦ rw (p, updated_adapter) h
    | inr p ↦ rw (p, updated_adapter) (publish-Inv (moved-Inv found h s))
  ]

  unplugged-Inv :
      {e : Engine} → Inv e → Inv (record (set_adapter none (invalidate e)) { retry = none })
  unfolding invalidate
  unplugged-Inv h = ground arith

  lost_adapter-Inv : {e : Engine} → Inv e → Inv (lost_adapter env e)
  unfolding lost_adapter invalidate
  lost_adapter-Inv h = status-Inv_quiet _ _ (unplugged-Inv h) refl

  follow_active-Inv :
      (active : Adapter) (found : Option Adapter) {e : Engine}
      → Inv e
      → e.suspended ≡ false
      → Inv (follow_active env active found e).0
  unfolding follow_active
  follow_active-Inv active none h s = reconnect-Inv (lost_adapter-Inv h)
  follow_active-Inv active (some found) {e} h s =
      let e' = updated_adapter env active found e in
      let h' = updated_adapter-Inv active found h s in
      elim (Bool-cases (is_some e'.session)) [
        | inl p ↦ rw (p, follow_active) h'
        | inr p ↦ rw (p, follow_active) (reconnect-Inv h')
      ]

  check_active-Inv :
      (a : Option Adapter) {e : Engine} → Inv e → e.suspended ≡ false → Inv (check_active env a e).0
  unfolding check_active
  check_active-Inv none h s = reconnect-Inv h
  check_active-Inv (some a) h s = follow_active-Inv a _ h s

  fresh_media-Inv :
      (b : Bool) {e : Engine}
      → Inv e
      → e.suspended ≡ false
      → let e' = if b then record e { retry_attempt = 0 } else e in Inv e' × (e'.suspended ≡ false)
  fresh_media-Inv true h s = (ground arith, s)
  fresh_media-Inv false h s = (h, s)

  refreshed-Inv :
      (b : Bool) (r : Engine × Result (Unit {0}))
      → Inv r.0
      → r.0.suspended ≡ false
      → Inv (refreshed env b r).0
  unfolding refreshed
  refreshed-Inv b (e, err x) h s = act-Inv _ h
  refreshed-Inv b (e, ok _) h s =
      let (h', s') = fresh_media-Inv (not b && any candidate e.adapters) h s in
      check_active-Inv _ h' s'

  pub network_changed-Inv : {e : Engine} → Inv e → Inv (network_changed env e).0
  unfolding network_changed
  network_changed-Inv {e} h = elim (Bool-cases e.suspended) [
    | inl s ↦
        subst
          (λ b.
            Inv
              (if b
                then (e, ok tt)
                else refreshed env (any candidate e.adapters) (refresh_adapters env e)).0)
          (sym s) h
    | inr s ↦
        subst
          (λ b.
            Inv
              (if b
                then (e, ok tt)
                else refreshed env (any candidate e.adapters) (refresh_adapters env e)).0)
          (sym s)
          (refreshed-Inv _ (refresh_adapters env e) (refresh_adapters-Inv env h)
            ((refresh_adapters-SameFlags env e).suspended ∙ s))
  ]

  quieted-Inv : {e : Engine} → Inv e → Inv (record e { network_pending = false })
  quieted-Inv h = ground arith

  pub drain_network-Inv : {e : Engine} → Inv e → Inv (drain_network env e)
  unfolding drain_network
  drain_network-Inv {e} h =
      let e' = record e { network_pending = false } in
      elim (Bool-cases e.network_pending) [
        | inl p ↦
            subst (λ b. Inv (if b then or_failed env (network_changed env e') else e')) (sym p)
              (or_failed-Inv env _ (network_changed-Inv (quieted-Inv h)))
        | inr p ↦
            subst (λ b. Inv (if b then or_failed env (network_changed env e') else e')) (sym p)
              (quieted-Inv h)
      ]

  slept-Inv : {b : Bool} {e : Engine} → Inv e → Inv (record (power_reset env e) { suspended = b })
  unfolding power_reset invalidate
  slept-Inv h = ground arith

  armed-Inv :
      {c r : ℕ} {e : Engine}
      → Inv e
      → e.manual_disconnect ≡ false
      → Inv (record (power_reset env e) { calls = c; suspended = false; retry = some r })
  unfolding power_reset invalidate
  armed-Inv h m = ground arith

  woken-Inv : {e : Engine} → Inv e → Inv (woken env (power_reset env e))
  unfolding woken power_reset invalidate
  woken-Inv {e} h = elim (Bool-cases (e.config.auto_auth && not e.manual_disconnect)) [
    | inl p ↦ rw (p, woken) (status-Inv_quiet _ _ (armed-Inv h (ground arith)) refl)
    | inr p ↦ rw (p, woken) (status-Inv_quiet _ _ (slept-Inv h) refl)
  ]

  on_power-Inv : (p : Option PowerEvent) {e : Engine} → Inv e → Inv (on_power env p e)
  unfolding on_power power_reset invalidate
  on_power-Inv none h = h
  on_power-Inv (some suspend) h = status-Inv_quiet _ _ (slept-Inv h) refl
  on_power-Inv (some resume) h = woken-Inv h

  unpowered-Inv : {e : Engine} → Inv e → Inv (record e { power_pending = none })
  unpowered-Inv h = ground arith

  pub drain_power-Inv : {e : Engine} → Inv e → Inv (drain_power env e)
  unfolding drain_power
  drain_power-Inv {e} h = on_power-Inv e.power_pending (unpowered-Inv h)
