-- ===== src/Engine/Base.antt =====
-- src/engine.rs: publishing snapshots, changing the state, and dropping a session.
use Prim.Native.String.{◌++◌ as append}
use text.Mathlib.Text.{◌==◌ as str_eq}
use sysu_netauth.Common.{
  ℕ, ◌+◌, ◌%◌, ◌^◌, false, ◌&&◌, Option, none, List, [], ◌∷◌, ◌++◌, ltb, if◌then◌else◌, length,
  Result, ok, err, String,
}
use sysu_netauth.Platform.{Adapter}
use sysu_netauth.Engine.Types.{
  State, authenticated, state_eq, state_debug, Snapshot, Subscription, Effect, logged, Engine, M,
}

-- `do` blocks over fallible methods.
infixl 5 ◌>>=◌ ◌>>◌
abbrev pub after {ℓ κ} :
    {A : Type ℓ} {B : Type κ} → Engine × Result A → (A → M B) → Engine × Result B
after (e, ok a) f = f a e
after (e, err x) f = (e, err x)

abbrev pub ◌>>=◌ {ℓ κ} : {A : Type ℓ} {B : Type κ} → M A → (A → M B) → M B
◌>>=◌ m f e = after (m e) f

abbrev pub ◌>>◌ {ℓ} : {B : Type ℓ} → M (Unit {0}) → M B → M B
◌>>◌ m k e = after (m e) (λ _. k)

-- A method that cannot fail, a value of the state, and a plain result.
abbrev pub exec : (Engine → Engine) → M (Unit {0})
exec f e = (f e, ok tt)

abbrev pub gets {ℓ} : {A : Type ℓ} → (Engine → A) → M A
gets f e = (e, ok (f e))

abbrev pub lift {ℓ} : {A : Type ℓ} → Result A → M A
lift r e = (e, r)

-- One more answer of the environment is used.
abbrev pub used : Engine → Engine
used e = record e { calls = e.calls + 1 }

abbrev pub act : Effect → Engine → Engine
act x e = record e { trace = x ∷ e.trace }

-- A question to the environment that may fail.
abbrev pub ask {ℓ} : {A : Type ℓ} → (ℕ → Result A) → M A
ask f e = (used e, f e.calls)

-- Eight snapshots fit a watcher's channel; who is gone or full is dropped.
abbrev pub capacity : ℕ
capacity = 8

unfoldable pub deliver : Snapshot → List Subscription → List Subscription
deliver s [] = []
deliver s (w ∷ ws) =
    if w.alive && w.connected && ltb (length w.pending) capacity
    then record w { pending = w.pending ++ s ∷ [] } ∷ deliver s ws
    else deliver s ws

-- The watchers that are given up: their flag, which the threads that serve them read, is cleared.
unfoldable pub let_go : List Subscription → List Subscription
let_go [] = []
let_go (w ∷ ws) =
    if w.alive && w.connected && ltb (length w.pending) capacity
    then let_go ws
    else record w { alive = false } ∷ let_go ws

unfoldable pub publish : Engine → Engine
publish e = record e {
  snapshot = shown;
  subscribers = deliver shown e.subscribers;
  dropped = e.dropped ++ let_go e.subscribers;
}
  where
    shown : Snapshot
    shown = record (e.snapshot) {
      update_notify = e.config.update_notify;
      suspended = e.suspended;
      manual_disconnect = e.manual_disconnect;
    }

unfoldable pub settled : State → String → Snapshot → Snapshot
settled s m shown =
    let online = state_eq s authenticated in
    record shown {
      state = s;
      message = m;
      authenticated_at = if online then shown.authenticated_at else none;
      internet = if online then shown.internet else false;
    }

unfoldable pub status : State → String → Engine → Engine
unfolding publish settled
status s m e =
    if state_eq e.snapshot.state s && str_eq e.snapshot.message m
    then e
    else publish (
        act (logged (append (state_debug s) (append ": " m)))
          (record e { snapshot = settled s m e.snapshot }))

unfoldable pub invalidate : Engine → Engine
invalidate e = record e {
  generation = (e.generation + 1) % 2 ^ 64;
  probe = none;
  session = none;
  peer = none;
  handshake_deadline = none;
  start_deadline = none;
}

abbrev pub set_adapter : Option Adapter → Engine → Engine
set_adapter a e = record e { snapshot = record (e.snapshot) { adapter = a } }
