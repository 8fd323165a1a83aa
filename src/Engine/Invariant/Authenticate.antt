-- ===== src/Engine/Invariant/Authenticate.antt =====
-- src/engine.rs: `authenticate` keeps the invariant, whatever it comes to.
use sysu_netauth.Common.{
  ℕ, inl, inr, ◌≡◌, ◌∙◌, true, false, none, List, arith, refl, Result, ok, err, Bool-cases,
  if◌then◌else◌, subst, sym,
}
use sysu_netauth.Config.{validate_auth}
use sysu_netauth.Protocol.{gbk}
use sysu_netauth.Engine.Types.{Engine, Env, M}
use sysu_netauth.Engine.Base.{after, invalidate}
use sysu_netauth.Engine.Candidates.{refresh_adapters, login, authenticate, reset_candidates, select}
use sysu_netauth.Engine.Invariant.{Inv}
use sysu_netauth.Engine.Invariant.Candidates.{
  Ready, next_candidate-Ready, refresh_adapters-Inv, refresh_adapters-SameFlags,
  refresh_adapters-probe,
}

module _ (env : Env) where
  after-Ready {ℓ κ} :
      {A : Type ℓ} {B : Type κ} (r : Engine × Result A) (f : A → M B)
      → Ready env r.0
      → ((a : A) (e : Engine) → Ready env e → Ready env (f a e).0)
      → Ready env (after r f).0
  after-Ready (e, ok a) f h k = k a e h
  after-Ready (e, err x) f h k = h

  reset-Ready :
      {e : Engine}
      → Inv e
      → e.suspended ≡ false
      → e.manual_disconnect ≡ false
      → Ready env (reset_candidates env e)
  unfolding invalidate
  reset-Ready h s m = record { inv = ground arith; awake = s; wanted = m; no_probe = refl }

  refresh_adapters-Ready : {e : Engine} → Ready env e → Ready env (refresh_adapters env e).0
  refresh_adapters-Ready {e} r =
      let f = refresh_adapters-SameFlags env e in
      record {
        inv = refresh_adapters-Inv env r.inv;
        awake = f.suspended ∙ r.awake;
        wanted = f.manual ∙ r.wanted;
        no_probe = refresh_adapters-probe env e ∙ r.no_probe;
      }

  named-Ready :
      (name : List ℕ) {e : Engine} → Ready env e → Ready env (record e { username = name })
  named-Ready name r = record {
    inv = ground arith;
    awake = r.awake;
    wanted = r.wanted;
    no_probe = r.no_probe;
  }

  keyed-Ready : (key : List ℕ) {e : Engine} → Ready env e → Ready env (record e { password = key })
  keyed-Ready key r = record {
    inv = ground arith;
    awake = r.awake;
    wanted = r.wanted;
    no_probe = r.no_probe;
  }

  chosen-Ready : {e : Engine} → Ready env e → Ready env (record e { candidates = select e })
  chosen-Ready r = record {
    inv = ground arith;
    awake = r.awake;
    wanted = r.wanted;
    no_probe = r.no_probe;
  }

  login-Ready : {e : Engine} → Ready env e → Ready env (login env e).0
  unfolding login
  login-Ready {e} r =
      after-Ready (e, validate_auth env.encode e.config) _ r
        λ _ e1 r1.
          after-Ready (e1, gbk env.encode e.config.username) _ r1
            λ name e2 r2.
              after-Ready (record e2 { username = name }, gbk env.encode e.config.password) _
                (named-Ready name r2)
                λ key e3 r3.
                  after-Ready (refresh_adapters env (record e3 { password = key })) _
                    (refresh_adapters-Ready (keyed-Ready key r3))
                    λ _ e4 r4. next_candidate-Ready env (chosen-Ready r4)

  -- An awake engine that is not disconnected stays so, and no check runs afterwards.
  pub authenticate-Ready :
      {e : Engine}
      → Inv e
      → e.suspended ≡ false
      → e.manual_disconnect ≡ false
      → Ready env (authenticate env e).0
  unfolding authenticate
  authenticate-Ready {e} h s m =
      subst (λ b. Ready env (if b then (e, err "系统休眠中") else login env (reset_candidates env e)).0)
        (sym s) (login-Ready (reset-Ready h s m))

  asleep-authenticate : (e : Engine) → e.suspended ≡ true → authenticate env e ≡ (e, err "系统休眠中")
  unfolding authenticate
  asleep-authenticate e s = ground arith

  -- From any state that is not disconnected by the user.
  pub authenticate-Inv :
      {e : Engine}
      → Inv e
      → e.manual_disconnect ≡ false
      → Inv (authenticate env e).0 × ((authenticate env e).0.probe ≡ none)
  authenticate-Inv {e} h m = elim (Bool-cases e.suspended) [
    | inl s ↦ rw (asleep-authenticate e s) (h, h.asleep_probe s)
    | inr s ↦ let r = authenticate-Ready h s m in (r.inv, r.no_probe)
  ]
