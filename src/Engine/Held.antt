-- ===== src/Engine/Held.antt =====
-- src/engine.rs: a disconnect by the user holds. While `manual_disconnect` is set, no event and no
-- tick opens a capture or sends a frame, until a client asks to connect.
pub mod Network
pub mod Events
pub mod Calls
pub mod Tick
pub mod Loop
use sysu_netauth.Common.{
  ℕ, suc, inl, inr, ◌≡◌, ◌∙◌, Bool, true, false, Option, none, some, List, [], ◌∷◌, arith, refl,
  sym, Result, ok, err, Bool-cases, Option-cases, Result-cases, if◌then◌else◌, String, not, ◌&&◌,
  is_none,
}
use sysu_netauth.Engine.Types.{
  Effect, opened, sent, probed, logged, logged_peer, printed, wrote_config, wrote_cache,
  wrote_update, configured_service, spawned_update, replied, State, Engine, Env, M,
}
use sysu_netauth.Engine.Base.{publish, status, invalidate, set_adapter, used, act, after}

-- How many captures were opened and frames sent so far.
abbrev pub frame_of : Effect → ℕ → ℕ
frame_of (opened a g) n = suc n
frame_of (sent bytes) n = suc n
frame_of _ n = n

unfoldable pub frames : List Effect → ℕ
frames [] = 0
frames (x ∷ xs) = frame_of x (frames xs)

-- From `e` to `e'` nothing was sent, and the user's wish still stands.
pub record Held (e e' : Engine) : Type 0 where
  pub wish : e'.manual_disconnect ≡ e.manual_disconnect
  pub silent : frames e'.trace ≡ frames e.trace

pub Held-refl : {e : Engine} → Held e e
Held-refl = record { wish = refl; silent = refl }

pub Held-trans : {a b c : Engine} → Held a b → Held b c → Held a c
Held-trans h k = record { wish = k.wish ∙ h.wish; silent = k.silent ∙ h.silent }

pub status-Held : (s : State) (m : String) (e : Engine) → Held e (status s m e)
unfolding status frames
status-Held s m e = ground arith

pub publish-Held : (e : Engine) → Held e (publish e)
unfolding publish
publish-Held e = record { wish = refl; silent = refl }

pub invalidate-Held : (e : Engine) → Held e (invalidate e)
unfolding invalidate
invalidate-Held e = record { wish = refl; silent = refl }

-- A chain of steps each of which is silent where the invariant `P` holds.
pub after-Held {ℓ κ} :
    {A : Type ℓ} {B : Type κ} {e : Engine} (r : Engine × Result A) (f : A → M B)
    → Held e r.0
    → ((a : A) (e' : Engine) → r.0 ≡ e' → Held e' (f a e').0)
    → Held e (after r f).0
after-Held (e', ok a) f h k = Held-trans h (k a e' refl)
after-Held (e', err x) f h k = h
