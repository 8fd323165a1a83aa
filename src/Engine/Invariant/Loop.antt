-- ===== src/Engine/Invariant/Loop.antt =====
-- src/engine.rs: every event, every tick and every run keep the invariant.
use text.Mathlib.Text.{◌==◌ as str_eq}
use sysu_netauth.Common.{
  ℕ, inl, inr, ◌≡◌, ◌∙◌, Bool, true, false, Option, none, some, [], arith, refl, sym, ap, Result,
  ok, err, Bool-cases, Result-cases, Option-cases, if◌then◌else◌, subst, String, is_some, leb, find,
}
use sysu_netauth.Config.{Cache}
use sysu_netauth.Platform.{Adapter}
use sysu_netauth.Engine.Types.{
  authenticated, stopped, Session, Event, network_changed, connectivity, stop, call, packet,
  capture_error, power_changed, update, Engine, Env,
}
use sysu_netauth.Engine.Base.{after, invalidate, set_adapter}
use sysu_netauth.Engine.Candidates.{refresh_adapters}
use sysu_netauth.Engine.Loop.{
  due, reconcile, check_handshake, resend, check_start, check_retry, update_started, check_update,
  resent, awake, tick, halt, cached, renewed, went_online, reachable, on_connectivity, dispatch,
  is_stop, is_network, drained, handle,
}
use sysu_netauth.Engine.Invariant.{Inv}
use sysu_netauth.Engine.Invariant.Base.{
  publish-Inv, status-Inv_quiet, invalidate-Inv, used-Inv, act-Inv,
}
use sysu_netauth.Engine.Invariant.Candidates.{
  refresh_adapters-Inv, refresh_adapters-probe, failed-Inv, or_failed-Inv,
}
use sysu_netauth.Engine.Invariant.Authenticate.{authenticate-Inv}
use sysu_netauth.Engine.Invariant.Network.{
  packet-Inv, network_changed-Inv, drain_network-Inv, drain_power-Inv,
}
use sysu_netauth.Engine.Invariant.Settings.{reload_changed_config-Inv}
use sysu_netauth.Engine.Invariant.Updates.{start_update-Inv, update_result-Inv}
use sysu_netauth.Engine.Invariant.Calls.{on_call-Inv}

pub either-Inv : (b : Bool) {e e' : Engine} → Inv e → Inv e' → Inv (if b then e else e')
either-Inv true h h' = h
either-Inv false h h' = h'

module _ (env : Env) where
  timed-Inv : {c d : ℕ} {e : Engine} → Inv e → Inv (record e { calls = c; reconcile_deadline = d })
  timed-Inv h = ground arith

  pub reconcile-Inv : (now : ℕ) {e : Engine} → Inv e → Inv (reconcile env now e)
  unfolding reconcile
  reconcile-Inv now {e} h =
      either-Inv (leb e.reconcile_deadline now)
        (timed-Inv
          (or_failed-Inv env _ (network_changed-Inv env (reload_changed_config-Inv env h))))
        h

  pub check_handshake-Inv : (now : ℕ) {e : Engine} → Inv e → Inv (check_handshake env now e)
  unfolding check_handshake
  check_handshake-Inv now {e} h = either-Inv (due e.handshake_deadline now) (failed-Inv env _ h) h

  pub resend-Inv :
      (s : Option Session) (a : Option Adapter) {e : Engine} → Inv e → Inv (resend env s a e).0
  unfolding resend
  resend-Inv none a h = h
  resend-Inv (some s) none h = h
  resend-Inv (some s) (some a) h = act-Inv _ (used-Inv h)

  resend-session :
      (s : Option Session) (a : Option Adapter) (e : Engine)
      → (resend env s a e).0.session ≡ e.session
  unfolding resend
  resend-session none a e = refl
  resend-session (some s) none e = refl
  resend-session (some s) (some a) e = refl

  restart-Inv :
      {d : ℕ} {e : Engine}
      → Inv e
      → is_some e.session ≡ true
      → Inv (record e { start_deadline = some d })
  restart-Inv h p = ground arith

  rearmed-Inv :
      (d : ℕ) (r : Engine × Result (Unit {0}))
      → Inv r.0
      → is_some r.0.session ≡ true
      → Inv (after {0, 0} r (λ _ e. (record e { start_deadline = some d }, ok tt))).0
  rearmed-Inv d (e, ok _) h p = restart-Inv h p
  rearmed-Inv d (e, err x) h p = h

  pub check_start-Inv : (now : ℕ) {e : Engine} → Inv e → Inv (check_start env now e).0
  unfolding check_start
  check_start-Inv now {e} h = elim (Bool-cases (due e.start_deadline now)) [
    | inl p ↦
        rw (p, check_start)
          (rearmed-Inv _ (resend env e.session e.snapshot.adapter e)
            (resend-Inv e.session e.snapshot.adapter h)
            (ap is_some (resend-session e.session e.snapshot.adapter e)
              ∙ h.start_session (ground arith)))
    | inr p ↦ rw (p, check_start) h
  ]

  pub retried-Inv : {e : Engine} → Inv e → Inv (record e { retry = none })
  retried-Inv h = ground arith

  check_retry-Inv : (now : ℕ) {e : Engine} → Inv e → Inv (check_retry env now e)
  unfolding check_retry
  check_retry-Inv now {e} h = elim (Bool-cases (due e.retry now)) [
    | inl p ↦
        rw (p, check_retry)
          (or_failed-Inv env _ (authenticate-Inv env (retried-Inv h) (ground arith)).0)
    | inr p ↦ rw (p, check_retry) h
  ]

  delayed-Inv : {d : ℕ} {e : Engine} → Inv e → Inv (record e { update_deadline = d })
  delayed-Inv h = ground arith

  update_started-Inv :
      (now : ℕ) (r : Engine × Result (Unit {0})) → Inv r.0 → Inv (update_started env now r)
  unfolding update_started
  update_started-Inv now (e, ok _) h = h
  update_started-Inv now (e, err x) h = act-Inv _ (delayed-Inv h)

  check_update-Inv : (now : ℕ) {e : Engine} → Inv e → Inv (check_update env now e)
  unfolding check_update
  check_update-Inv now {e} h =
      either-Inv _ (update_started-Inv now _ (start_update-Inv env false h)) h

  resent-Inv : (now : ℕ) (r : Engine × Result (Unit {0})) → Inv r.0 → Inv (resent env now r)
  unfolding resent
  resent-Inv now (e, ok _) h = check_update-Inv now (check_retry-Inv now h)
  resent-Inv now (e, err x) h = failed-Inv env x h

  pub tick-Inv : {e : Engine} → Inv e → Inv (tick env e)
  unfolding tick awake
  tick-Inv {e} h =
      let h' = drain_network-Inv env (drain_power-Inv env h) in
      either-Inv e.stop_pending h (
        either-Inv _ h' (
          resent-Inv _ _
            (check_start-Inv _ (check_handshake-Inv _ (reconcile-Inv _ (used-Inv h'))))))

  halt-Inv : {e : Engine} → Inv e → Inv (halt env e)
  unfolding halt invalidate
  halt-Inv h = status-Inv_quiet stopped _ (invalidate-Inv h) refl

  online-Inv :
      {c : ℕ} {m : String} {t : Option ℕ} {e : Engine}
      → Inv e
      → e.probe ≡ none
      → Inv (record e {
        calls = c;
        snapshot = record (e.snapshot) {
          state = authenticated;
          message = m;
          internet = true;
          authenticated_at = t;
        };
      })
  online-Inv h q = ground arith

  remembered-Inv :
      {c : ℕ} {k : Cache} {e : Engine} → Inv e → Inv (record e { calls = c; cache = k })
  remembered-Inv h = ground arith

  cached-Inv : (a : Option Adapter) {e : Engine} → Inv e → Inv (cached env a e)
  unfolding cached
  cached-Inv none h = h
  cached-Inv (some a) {e} h = elim (Result-cases (env.write_file e.calls)) [
    | inl (_, p) ↦ rw (p, cached) (act-Inv _ (remembered-Inv h))
    | inr (x, p) ↦ rw (p, cached) (act-Inv _ (act-Inv _ (remembered-Inv h)))
  ]

  pub offline-Inv : {e : Engine} → Inv e → Inv (record e { probe = none })
  offline-Inv h = ground arith

  settled-Inv :
      {e : Engine} → Inv e → Inv (record e { candidates = []; retry_attempt = 0; retry = none })
  settled-Inv h = ground arith

  cached-probe : (a : Option Adapter) (e : Engine) → (cached env a e).probe ≡ e.probe
  unfolding cached
  cached-probe none e = refl
  cached-probe (some a) e = elim (Result-cases (env.write_file e.calls)) [
    | inl (_, p) ↦ rw (p, cached) refl
    | inr (x, p) ↦ rw (p, cached) refl
  ]

  moved-Inv :
      (found : Adapter) {a : Adapter} {e : Engine}
      → Inv e
      → e.snapshot.adapter ≡ some a
      → Inv (set_adapter (some found) e)
  moved-Inv found h p = ground arith

  renewed-Inv :
      (a : Option Adapter) {e : Engine}
      → Inv e
      → e.snapshot.adapter ≡ a
      → e.probe ≡ none
      → Inv (renewed env a e) × ((renewed env a e).probe ≡ none)
  unfolding renewed
  renewed-Inv none h p q = (h, q)
  renewed-Inv (some a) {e} h p q = elim (Option-cases (find (λ b. str_eq b.id a.id) e.adapters)) [
    | inl n ↦ rw (n, renewed) (h, q)
    | inr (found, n) ↦ rw (n, renewed) (moved-Inv found h p, q)
  ]

  went_online-Inv : {e : Engine} → Inv e → e.probe ≡ none → Inv (went_online env e)
  unfolding went_online
  went_online-Inv h q = publish-Inv (act-Inv _ (online-Inv h q))

  reachable-Inv : {e : Engine} → Inv e → e.probe ≡ none → Inv (reachable env e)
  unfolding reachable
  reachable-Inv {e} h q =
      let e1 = record e { candidates = []; retry_attempt = 0; retry = none } in
      let e2 = cached env e1.snapshot.adapter e1 in
      let e3 = (refresh_adapters env e2).0 in
      let h3 = refresh_adapters-Inv env (cached-Inv e1.snapshot.adapter (settled-Inv h)) in
      let q3 = refresh_adapters-probe env e2 ∙ cached-probe e1.snapshot.adapter e1 ∙ q in
      let (h4, q4) = renewed-Inv e3.snapshot.adapter h3 refl q3 in went_online-Inv h4 q4

  pub on_connectivity-Inv : (b : Bool) {e : Engine} → Inv e → Inv (on_connectivity env b e)
  unfolding on_connectivity
  on_connectivity-Inv true h = reachable-Inv (offline-Inv h) refl
  on_connectivity-Inv false h = failed-Inv env _ (offline-Inv h)

  pub quieted-Inv : {e : Engine} → Inv e → Inv (record e { network_pending = false })
  quieted-Inv h = ground arith

  dispatch-Inv : (event : Event) {e : Engine} → Inv e → Inv (dispatch env event e).0
  unfolding dispatch
  dispatch-Inv stop h = halt-Inv h
  dispatch-Inv (packet g bytes) h = or_failed-Inv env _ (packet-Inv env g bytes h)
  dispatch-Inv (capture_error g x) h = either-Inv _ (failed-Inv env x h) h
  dispatch-Inv power_changed h = h
  dispatch-Inv network_changed h = or_failed-Inv env _ (network_changed-Inv env (quieted-Inv h))
  dispatch-Inv (connectivity g b) h = either-Inv _ (on_connectivity-Inv b h) h
  dispatch-Inv (update r) h = update_result-Inv env r h
  dispatch-Inv (call c) h = on_call-Inv env c h

  pub drained-Inv : (event : Event) {e : Engine} → Inv e → Inv (drained env event e)
  unfolding drained
  drained-Inv event h =
      let h' = drain_power-Inv env h in
      either-Inv (is_stop env event) h
        (either-Inv (is_network env event) h' (drain_network-Inv env h'))

  pub unstopped-Inv : {e : Engine} → Inv e → Inv (record e { stop_pending = false })
  unstopped-Inv h = ground arith

  -- Every event, in every state, whatever the environment answers, keeps the invariant.
  pub handle-Inv : (event : Event) {e : Engine} → Inv e → Inv (handle env event e).0
  unfolding handle
  handle-Inv event {e} h = elim (Bool-cases e.stop_pending) [
    | inl p ↦
        subst
          (λ b.
            Inv
              (if b
                then (halt env (record e { stop_pending = false }), false)
                else dispatch env event (drained env event e)).0)
          (sym p) (halt-Inv (unstopped-Inv h))
    | inr p ↦
        subst
          (λ b.
            Inv
              (if b
                then (halt env (record e { stop_pending = false }), false)
                else dispatch env event (drained env event e)).0)
          (sym p) (dispatch-Inv event (drained-Inv event h))
  ]
