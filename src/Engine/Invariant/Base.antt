-- ===== src/Engine/Invariant/Base.antt =====
-- src/engine.rs: publishing, changing the state and dropping the session keep the invariant.
use sysu_netauth.Common.{◌≡◌, true, none, arith, is_some, String, Result, ok, err}
use sysu_netauth.Engine.Types.{State, authenticating, Effect, Engine, M}
use sysu_netauth.Engine.Base.{publish, status, invalidate, set_adapter, used, act, after}
use sysu_netauth.Engine.Invariant.{Inv}

pub publish-Inv : {e : Engine} → Inv e → Inv (publish e)
unfolding publish
publish-Inv h = ground arith

pub status-Inv :
    (s : State) (m : String) {e : Engine}
    → Inv e
    → (is_some e.probe ≡ true → s ≡ authenticating)
    → Inv (status s m e)
unfolding status
status-Inv s m h p = ground arith

-- With no check running the state may be any.
pub status-Inv_quiet :
    (s : State) (m : String) {e : Engine} → Inv e → e.probe ≡ none → Inv (status s m e)
status-Inv_quiet s m {e} h q = status-Inv s m h (ground arith)

pub invalidate-Inv : {e : Engine} → Inv e → Inv (invalidate e)
unfolding invalidate
invalidate-Inv h = ground arith

pub used-Inv : {e : Engine} → Inv e → Inv (used e)
used-Inv h = ground arith

pub act-Inv : (x : Effect) {e : Engine} → Inv e → Inv (act x e)
act-Inv x h = ground arith

pub detached-Inv : {e : Engine} → Inv e → Inv (set_adapter none (invalidate e))
unfolding invalidate
detached-Inv h = ground arith

-- What a change of the state leaves alone.
pub record Framed (e e' : Engine) : Type 0 where
  pub same_probe : e'.probe ≡ e.probe
  pub same_session : e'.session ≡ e.session
  pub same_generation : e'.generation ≡ e.generation
  pub same_suspended : e'.suspended ≡ e.suspended
  pub same_manual : e'.manual_disconnect ≡ e.manual_disconnect
  pub same_config : e'.config ≡ e.config
  pub same_retry : e'.retry ≡ e.retry
  pub same_candidates : e'.candidates ≡ e.candidates
  pub same_adapter : e'.snapshot.adapter ≡ e.snapshot.adapter
  pub same_adapters : e'.adapters ≡ e.adapters

pub status-Framed : (s : State) (m : String) (e : Engine) → Framed e (status s m e)
unfolding status
status-Framed s m e = ground arith

pub publish-Framed : (e : Engine) → Framed e (publish e)
unfolding publish
publish-Framed e = ground arith

pub status-state : (s : State) (m : String) (e : Engine) → (status s m e).snapshot.state ≡ s
unfolding status
status-state s m e = ground arith

-- A chain of fallible steps keeps what each step keeps.
pub after-Inv {ℓ κ} :
    {A : Type ℓ} {B : Type κ} (r : Engine × Result A) (f : A → M B)
    → Inv r.0
    → ((a : A) (e : Engine) → Inv e → Inv (f a e).0)
    → Inv (after r f).0
after-Inv (e, ok a) f h k = k a e h
after-Inv (e, err x) f h k = h
