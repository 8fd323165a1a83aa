-- ===== src/Engine/Held/Loop.antt =====
-- src/engine.rs: the handler of events respects a disconnect.
use sysu_netauth.Common.{
  inl, inr, ◌≡◌, ◌∙◌, Bool, true, false, Option, none, some, [], refl, Option-cases, Result-cases,
  if◌then◌else◌, ◌==◌, find,
}
use sysu_netauth.Platform.{Adapter}
use text.Mathlib.Text.{◌==◌ as str_eq}
use sysu_netauth.Engine.Types.{
  Event, network_changed as network_changed_event, connectivity, stop, call, packet, capture_error,
  power_changed, update, Engine, Env,
}
use sysu_netauth.Engine.Base.{publish}
use sysu_netauth.Engine.Candidates.{refresh_adapters}
use sysu_netauth.Engine.Loop.{
  cached, renewed, went_online, reachable, on_connectivity, dispatch, is_stop, is_network, drained,
  handle, halt,
}
use sysu_netauth.Engine.Invariant.{Inv}
use sysu_netauth.Engine.Held.{frames, Held, Held-refl, Held-trans}
use sysu_netauth.Engine.Held.Events.{update_result-Held}
use sysu_netauth.Engine.Held.Network.{
  failed-Held, or_failed-Held, packet-Held, network_changed-Held, drain_power-Held,
  refresh_adapters-Held, either-Held,
}
use sysu_netauth.Engine.Held.Calls.{asks_to_connect, on_call-Held}
use sysu_netauth.Engine.Invariant.Network.{packet-Inv, network_changed-Inv, drain_power-Inv}
use sysu_netauth.Engine.Invariant.Loop.{quieted-Inv, offline-Inv, drained-Inv}
use sysu_netauth.Engine.Held.Tick.{halt-Held, drain_network-Held}

module _ (env : Env) where
  went_online-Held : (e : Engine) → Held e (went_online env e)
  unfolding went_online frames publish
  went_online-Held e = record { wish = refl; silent = refl }

  cached-Held : (a : Option Adapter) (e : Engine) → Held e (cached env a e)
  unfolding cached frames
  cached-Held none e = Held-refl
  cached-Held (some a) e = elim (Result-cases (env.write_file e.calls)) [
    | inl (_, p) ↦ rw (p, cached) (record { wish = refl; silent = refl })
    | inr (x, p) ↦ rw (p, cached) (record { wish = refl; silent = refl })
  ]

  renewed-Held : (a : Option Adapter) (e : Engine) → Held e (renewed env a e)
  unfolding renewed
  renewed-Held none e = Held-refl
  renewed-Held (some a) e = elim (Option-cases (find (λ b. str_eq b.id a.id) e.adapters)) [
    | inl n ↦ rw (n, renewed) Held-refl
    | inr (found, n) ↦ rw (n, renewed) (record { wish = refl; silent = refl })
  ]

  reachable-Held : (e : Engine) → Held e (reachable env e)
  unfolding reachable
  reachable-Held e =
      let e1 = record e { candidates = []; retry_attempt = 0; retry = none } in
      let e2 = cached env e1.snapshot.adapter e1 in
      let e3 = (refresh_adapters env e2).0 in
      let k = Held-trans (cached-Held e1.snapshot.adapter e1) (refresh_adapters-Held env e2) in
      let j =
        Held-trans k (Held-trans (renewed-Held e3.snapshot.adapter e3) (went_online-Held _)) in
      record { wish = j.wish; silent = j.silent }

  on_connectivity-Held :
      (b : Bool) {e : Engine}
      → Inv e
      → e.manual_disconnect ≡ true
      → Held e (on_connectivity env b e)
  unfolding on_connectivity
  on_connectivity-Held true {e} h w =
      let k = reachable-Held (record e { probe = none }) in
      record { wish = k.wish; silent = k.silent }
  on_connectivity-Held false {e} h w =
      let k = failed-Held env "EAP 成功但无法访问互联网" (offline-Inv env h) w in
      record { wish = k.wish; silent = k.silent }

  -- An event that makes the engine connect: a client asks for it.
  abbrev pub is_request : Event → Bool
  is_request (call c) = asks_to_connect env c.action
  is_request _ = false

  dispatch-Held :
      (event : Event) {e : Engine}
      → Inv e
      → e.manual_disconnect ≡ true
      → is_request event ≡ false
      → Held e (dispatch env event e).0
  unfolding dispatch
  dispatch-Held stop {e} h w q = halt-Held env e
  dispatch-Held (packet g bytes) h w q =
      let k = packet-Held env g bytes h w in
      or_failed-Held env _ (packet-Inv env g bytes h) (k.wish ∙ w) k
  dispatch-Held (capture_error g x) {e} h w q =
      either-Held (g == e.generation) (failed-Held env x h w) Held-refl
  dispatch-Held power_changed h w q = Held-refl
  dispatch-Held network_changed_event {e} h w q =
      let k = network_changed-Held env (record e { network_pending = false }) w in
      or_failed-Held env _ (network_changed-Inv env (quieted-Inv env h)) (k.wish ∙ w)
        (record { wish = k.wish; silent = k.silent })
  dispatch-Held (connectivity g b) {e} h w q =
      either-Held (g == e.generation) (on_connectivity-Held b h w) Held-refl
  dispatch-Held (update r) {e} h w q = update_result-Held env r e
  dispatch-Held (call c) h w q = on_call-Held env c h w q

  drained-Held :
      (event : Event) {e : Engine}
      → Inv e
      → e.manual_disconnect ≡ true
      → Held e (drained env event e)
  unfolding drained
  drained-Held event {e} h w =
      let k = drain_power-Held env e in
      let j = drain_network-Held env (drain_power-Inv env h) (k.wish ∙ w) in
      either-Held (is_stop env event) Held-refl
        (either-Held (is_network env event) k (Held-trans k j))

  -- While the invariant holds and the user wants to be disconnected, an event other than a request
  -- to connect, whatever it
  -- is, opens no capture, sends no frame and leaves the wish standing.
  pub handle-Held :
      (event : Event) {e : Engine}
      → Inv e
      → e.manual_disconnect ≡ true
      → is_request event ≡ false
      → Held e (handle env event e).0
  unfolding handle
  handle-Held event {e} h w q =
      let k = drained-Held event h w in
      let j = halt-Held env (record e { stop_pending = false }) in
      let stop_now : Held e (halt env (record e { stop_pending = false })) = record {
        wish = j.wish;
        silent = j.silent;
      } in
      either_stop e.stop_pending false _ stop_now
        (Held-trans k (dispatch-Held event (drained-Inv env event h) (k.wish ∙ w) q))
    where
      either_stop :
          (b s t : Bool) {x y : Engine}
          → Held e x
          → Held e y
          → Held e (if◌then◌else◌ {A = Engine × Bool} b (x, s) (y, t)).0
      either_stop true s t m n = m
      either_stop false s t m n = n
