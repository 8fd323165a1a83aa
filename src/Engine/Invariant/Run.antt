-- ===== src/Engine/Invariant/Run.antt =====
-- src/engine.rs: the invariant holds after any run of the service.
use sysu_netauth.Common.{
  inl, inr, ◌≡◌, ◌∙◌, Bool, true, false, Option, none, some, List, [], ◌∷◌, arith, refl, Result, ok,
  err, Bool-cases, Option-cases, if◌then◌else◌, String, not, ◌&&◌, is_none,
}
use sysu_netauth.Config.{Cache}
use sysu_netauth.Update.{Update}
use sysu_netauth.Engine.Types.{stop, PowerEvent, suspend, resume, Engine, Env}
use sysu_netauth.Engine.Base.{used, invalidate}
use sysu_netauth.Engine.Candidates.{refresh_adapters}
use sysu_netauth.Engine.Network.{drain_power, on_power, power_reset, woken}
use sysu_netauth.Engine.Loop.{timeout, tick, handle}
use sysu_netauth.Engine.Run.{
  Receipt, received, timed_out, disconnected, Notice, power, network, stopping, notified, Input,
  receipt, notice, new, started_with, start, turn, advance, loop, run,
}
use sysu_netauth.Engine.Invariant.{Inv}
use sysu_netauth.Engine.Invariant.Base.{used-Inv, status-Framed}
use sysu_netauth.Engine.Invariant.Candidates.{
  refresh_adapters-Inv, refresh_adapters-SameFlags, failed-Inv, or_failed-Inv,
}
use sysu_netauth.Engine.Invariant.Authenticate.{authenticate-Inv}
use sysu_netauth.Engine.Invariant.Network.{drain_power-Inv}
use sysu_netauth.Engine.Invariant.Loop.{handle-Inv, tick-Inv, either-Inv}

module _ (env : Env) where
  pub new-Inv : (cache : Option Cache) (u : Option (String × Update)) → Inv (new env cache u)
  unfolding new
  new-Inv cache u = ground arith

  started_with-Inv :
      (r : Engine × Result (Unit {0}))
      → Inv r.0
      → r.0.manual_disconnect ≡ false
      → Inv (started_with env r)
  unfolding started_with
  started_with-Inv (e, ok _) h m =
      either-Inv e.config.auto_auth (or_failed-Inv env _ (authenticate-Inv env h m).0) h
  started_with-Inv (e, err x) h m = failed-Inv env x h

  start-Inv : {e : Engine} → Inv e → e.manual_disconnect ≡ false → Inv (start env e)
  unfolding start
  start-Inv {e} h m =
      started_with-Inv (refresh_adapters env e) (refresh_adapters-Inv env h)
        ((refresh_adapters-SameFlags env e).manual ∙ m)

  notified-Inv : (n : Notice) {e : Engine} → Inv e → Inv (notified n e)
  unfolding notified
  notified-Inv (power p) h = ground arith
  notified-Inv network h = ground arith
  notified-Inv stopping h = ground arith

  followed-Inv :
      (r : Engine × Bool)
      → Inv r.0
      → Inv (if◌then◌else◌ {A = Engine × Bool} r.1 (tick env r.0, true) (r.0, false)).0
  followed-Inv (e, true) h = tick-Inv env h
  followed-Inv (e, false) h = h

  turn-Inv : (r : Receipt) {e : Engine} → Inv e → Inv (turn env r e).0
  unfolding turn
  turn-Inv (received event) {e} h =
      followed-Inv (handle env event (used e)) (handle-Inv env event (used-Inv h))
  turn-Inv timed_out {e} h = elim (Option-cases (timeout (env.instant e.calls) e)) [
    | inl p ↦ rw (p, turn) (used-Inv h)
    | inr (t, p) ↦ rw (p, turn) (tick-Inv env (used-Inv h))
  ]
  turn-Inv disconnected h = used-Inv h

  advance-Inv : (i : Input) {e : Engine} → Inv e → Inv (advance env i e).0
  unfolding advance
  advance-Inv (receipt r) h = turn-Inv r h
  advance-Inv (notice n) h = notified-Inv n h

  stopped-Inv :
      (b : Bool) {e : Engine} (r : Engine × Bool)
      → Inv e
      → Inv r.0
      → Inv (if◌then◌else◌ {A = Engine × Bool} b r (e, false)).0
  stopped-Inv true r h h' = h'
  stopped-Inv false r h h' = h

  chosen-Inv : (b : Bool) (r r' : Engine × Bool) → Inv r.0 → Inv r'.0 → Inv (if b then r else r').0
  chosen-Inv true r r' h h' = h
  chosen-Inv false r r' h h' = h'

  loop-Inv : (is : List Input) {e : Engine} → Inv e → Inv (loop env is e).0
  unfolding loop
  loop-Inv [] h = h
  loop-Inv (i ∷ is) {e} h =
      let h' = advance-Inv i h in
      stopped-Inv (advance env i e).1 (loop env is (advance env i e).0) h' (loop-Inv is h')

  power-manual :
      (p : Option PowerEvent) (e : Engine)
      → (on_power env p e).manual_disconnect ≡ e.manual_disconnect
  unfolding on_power power_reset woken invalidate
  power-manual none e = refl
  power-manual (some suspend) e = (status-Framed _ _ _).same_manual
  power-manual (some resume) e = elim (Bool-cases (e.config.auto_auth && not e.manual_disconnect)) [
    | inl p ↦ rw (p, woken) (status-Framed _ _ _).same_manual
    | inr p ↦ rw (p, woken) (status-Framed _ _ _).same_manual
  ]

  -- `run` starts an engine that nobody disconnected; whatever the queue and the callbacks bring,
  -- and whatever the environment answers, the invariant holds at every point of the run.
  pub run-Inv :
      (is : List Input) {e : Engine} → Inv e → e.manual_disconnect ≡ false → Inv (run env is e).0
  unfolding run drain_power
  run-Inv is {e} h m =
      let e' = drain_power env e in
      let h' = drain_power-Inv env h in
      let m' = power-manual e.power_pending (record e { power_pending = none }) ∙ m in
      let begun = loop env is (start env e') in
      let resumed = loop env is e' in
      let fresh = not e'.suspended && is_none e'.retry in
      chosen-Inv e.stop_pending ((handle env stop e).0, false) (if fresh then begun else resumed)
        (handle-Inv env stop h)
        (chosen-Inv fresh begun resumed (loop-Inv is (start-Inv h' m')) (loop-Inv is h'))

  -- From its creation on, whatever was stored, whatever the queue and the callbacks bring, and
  -- whatever the environment answers, the service keeps the invariant at every point of its run.
  pub run-new-Inv :
      (is : List Input) (cache : Option Cache) (cached : Option (String × Update))
      → Inv (run env is (new env cache cached)).0
  unfolding new
  run-new-Inv is cache cached = run-Inv is (new-Inv cache cached) refl
