-- ===== src/Engine/Held/Tick.antt =====
-- src/engine.rs: the deadlines of a tick respect a disconnect.
use sysu_netauth.Common.{
  ℕ, inl, inr, ◌≡◌, ◌∙◌, Bool, true, false, arith, refl, Result, ok, err, Bool-cases, if◌then◌else◌,
  not, ◌&&◌, leb,
}
use sysu_netauth.Engine.Types.{stopped, Engine, Env}
use sysu_netauth.Engine.Base.{invalidate, used}
use sysu_netauth.Engine.Candidates.{or_failed}
use sysu_netauth.Engine.Network.{drain_network, drain_power, network_changed}
use sysu_netauth.Engine.Settings.{reload_changed_config}
use sysu_netauth.Engine.Updates.{start_update}
use sysu_netauth.Engine.Loop.{
  due, reconcile, check_handshake, check_start, check_retry, update_started, check_update, resent,
  awake, tick, halt,
}
use sysu_netauth.Engine.Invariant.{Inv}
use sysu_netauth.Engine.Held.{frames, Held, Held-refl, Held-trans, status-Held, invalidate-Held}
use sysu_netauth.Engine.Held.Events.{start_update-Held, reload-Held}
use sysu_netauth.Engine.Held.Network.{
  failed-Held, or_failed-Held, network_changed-Held, drain_power-Held, either-Held,
}
use sysu_netauth.Engine.Invariant.Base.{used-Inv}
use sysu_netauth.Engine.Invariant.Network.{network_changed-Inv, drain_network-Inv, drain_power-Inv}
use sysu_netauth.Engine.Invariant.Settings.{reload_changed_config-Inv}
use sysu_netauth.Engine.Invariant.Loop.{reconcile-Inv, check_handshake-Inv, quieted-Inv}

module _ (env : Env) where
  pub halt-Held : (e : Engine) → Held e (halt env e)
  unfolding halt
  halt-Held e = Held-trans (invalidate-Held e) (status-Held stopped "服务已停止" (invalidate e))

  pub drain_network-Held :
      {e : Engine} → Inv e → e.manual_disconnect ≡ true → Held e (drain_network env e)
  unfolding drain_network
  drain_network-Held {e} h w = drained_if e.network_pending
    where
      quiet : Engine
      quiet = record e { network_pending = false }

      drained_if :
          (b : Bool) → Held e (if b then or_failed env (network_changed env quiet) else quiet)
      drained_if true =
          let k = network_changed-Held env quiet w in
          or_failed-Held env _ (network_changed-Inv env (quieted-Inv env h)) (k.wish ∙ w)
            (record { wish = k.wish; silent = k.silent })
      drained_if false = record { wish = refl; silent = refl }

  reconcile-Held :
      (now : ℕ) {e : Engine} → Inv e → e.manual_disconnect ≡ true → Held e (reconcile env now e)
  unfolding reconcile
  reconcile-Held now {e} h w =
      let j = reload-Held env e w in
      let k = network_changed-Held env (reload_changed_config env e) (j.wish ∙ w) in
      let i = network_changed-Inv env (reload_changed_config-Inv env h) in
      let l = or_failed-Held env _ i (k.wish ∙ j.wish ∙ w) (Held-trans j k) in
      elim (Bool-cases (leb e.reconcile_deadline now)) [
        | inl p ↦ rw (p, reconcile) (record { wish = l.wish; silent = l.silent })
        | inr p ↦ rw (p, reconcile) Held-refl
      ]

  check_handshake-Held :
      (now : ℕ) {e : Engine}
      → Inv e
      → e.manual_disconnect ≡ true
      → Held e (check_handshake env now e)
  unfolding check_handshake
  check_handshake-Held now {e} h w =
      either-Held (due e.handshake_deadline now) (failed-Held env "认证超时" h w) Held-refl

  check_start_off :
      (now : ℕ) {e : Engine}
      → Inv e
      → e.manual_disconnect ≡ true
      → check_start env now e ≡ (e, ok tt)
  unfolding check_start
  check_start_off now h w = ground arith

  check_retry_off :
      (now : ℕ) {e : Engine} → Inv e → e.manual_disconnect ≡ true → check_retry env now e ≡ e
  unfolding check_retry
  check_retry_off now h w = ground arith

  update_started-Held :
      {e : Engine} (now : ℕ) (r : Engine × Result (Unit {0}))
      → Held e r.0
      → Held e (update_started env now r)
  unfolding update_started frames
  update_started-Held now (e', ok _) k = k
  update_started-Held now (e', err x) k = Held-trans k (record { wish = refl; silent = refl })

  check_update-Held : (now : ℕ) (e : Engine) → Held e (check_update env now e)
  unfolding check_update
  check_update-Held now e =
      let k = update_started-Held now (start_update env false e) (start_update-Held env false e) in
      elim (Bool-cases (
        e.config.auto_update_check
        && leb e.update_deadline now
        && not e.snapshot.update.checking)) [
          | inl p ↦ rw (p, check_update) k
          | inr p ↦ rw (p, check_update) Held-refl
        ]

  awake-Held : {e : Engine} → Inv e → e.manual_disconnect ≡ true → Held e (awake env e)
  unfolding awake resent
  awake-Held {e} h w =
      let now = env.instant e.calls in
      let e1 = reconcile env now (used e) in
      let h1 = reconcile-Inv env now (used-Inv h) in
      let k1 = reconcile-Held now (used-Inv h) w in
      let e2 = check_handshake env now e1 in
      let h2 = check_handshake-Inv env now h1 in
      let k2 = check_handshake-Held now h1 (k1.wish ∙ w) in
      let w2 = k2.wish ∙ k1.wish ∙ w in
      let k3 = check_update-Held now e2 in
      rw (check_start_off now h2 w2, check_retry_off now h2 w2)
        (record { wish = k3.wish ∙ k2.wish ∙ k1.wish; silent = k3.silent ∙ k2.silent ∙ k1.silent })

  -- While the invariant holds and the user wants to be disconnected, a tick opens no capture, sends
  -- no frame and leaves the wish standing.
  pub tick-Held : {e : Engine} → Inv e → e.manual_disconnect ≡ true → Held e (tick env e)
  unfolding tick
  tick-Held {e} h w =
      let k1 = drain_power-Held env e in
      let h1 = drain_power-Inv env h in
      let k2 = drain_network-Held h1 (k1.wish ∙ w) in
      let e2 = drain_network env (drain_power env e) in
      let k3 = awake-Held (drain_network-Inv env h1) (k2.wish ∙ k1.wish ∙ w) in
      let k = Held-trans k1 k2 in
      either-Held e.stop_pending Held-refl (either-Held e2.suspended k (Held-trans k k3))
