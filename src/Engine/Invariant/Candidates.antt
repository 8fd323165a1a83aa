-- ===== src/Engine/Invariant/Candidates.antt =====
-- src/engine.rs: opening a candidate, authenticating and failing keep the invariant.
use sysu_netauth.Common.{
  ◌≡◌, ◌∙◌, inl, inr, false, none, some, List, [], ◌∷◌, arith, String, refl, Result, ok, err,
  is_empty, ◌^◌, Bool-cases, if◌then◌else◌, Result-cases, ℕ, not, ◌||◌, ◌+◌, ◌-◌, min, is_ok,
}
use sysu_netauth.Config.{validate_auth}
use sysu_netauth.Platform.{Adapter}
use sysu_netauth.Protocol.{control}
use sysu_netauth.Engine.Types.{authenticating, Engine, Env, opened, idle}
use sysu_netauth.Engine.Base.{publish, status, invalidate, set_adapter, used, act, settled}
use sysu_netauth.Engine.Candidates.{
  started, start_sent, start_session, set_adapters, refresh_adapters, open_candidates,
  next_candidate, give_up, schedule, forget_success, resume_with, failed, or_failed,
}
use sysu_netauth.Engine.Invariant.{Inv}
use sysu_netauth.Engine.Invariant.Base.{
  status-Inv_quiet, used-Inv, act-Inv, detached-Inv, status-Framed,
}

-- The flags that no operation below the calls of clients and the power events changes.
pub record SameFlags (e e' : Engine) : Type 0 where
  pub suspended : e'.suspended ≡ e.suspended
  pub manual : e'.manual_disconnect ≡ e.manual_disconnect
  pub config : e'.config ≡ e.config

pub set_adapters-Inv : (found : List Adapter) {e : Engine} → Inv e → Inv (set_adapters found e)
unfolding set_adapters publish
set_adapters-Inv found h = ground arith

module _ (env : Env) where
  -- A refresh touches the adapter list alone.
  pub refresh_adapters-Inv : {e : Engine} → Inv e → Inv (refresh_adapters env e).0
  unfolding refresh_adapters set_adapters publish
  refresh_adapters-Inv h = ground arith

  pub refresh_adapters-SameFlags : (e : Engine) → SameFlags e (refresh_adapters env e).0
  unfolding refresh_adapters set_adapters publish
  refresh_adapters-SameFlags e = ground arith

  pub refresh_adapters-probe : (e : Engine) → (refresh_adapters env e).0.probe ≡ e.probe
  unfolding refresh_adapters set_adapters publish
  refresh_adapters-probe e = ground arith

  started-Inv :
      (a : Adapter) {e : Engine}
      → Inv e
      → e.suspended ≡ false
      → e.manual_disconnect ≡ false
      → e.probe ≡ none
      → Inv (started env a e) × ((started env a e).probe ≡ none)
  unfolding started status settled publish
  started-Inv a h s m p = ground arith

  start_sent-Inv :
      (a : Adapter) (r : Result (Unit {0})) {e : Engine}
      → Inv e
      → e.suspended ≡ false
      → e.manual_disconnect ≡ false
      → e.probe ≡ none
      → Inv (start_sent env a e r).0 × ((start_sent env a e r).0.probe ≡ none)
  unfolding start_sent
  start_sent-Inv a (ok _) h s m p = started-Inv a h s m p
  start_sent-Inv a (err x) h s m p = (h, p)

  start_session-Inv :
      (a : Adapter) {e : Engine}
      → Inv e
      → e.suspended ≡ false
      → e.manual_disconnect ≡ false
      → e.probe ≡ none
      → Inv (start_session env a e).0 × ((start_session env a e).0.probe ≡ none)
  unfolding start_session
  start_session-Inv a {e} h s m p = start_sent-Inv a _ (act-Inv _ (used-Inv h)) s m p

  -- What stays of an engine that drops its session and goes to the next candidates.
  dropped-Inv :
      (rest : List Adapter) {e : Engine}
      → Inv e
      → e.suspended ≡ false
      → e.manual_disconnect ≡ false
      → Inv (record (invalidate e) { candidates = rest })
  unfolding invalidate
  dropped-Inv rest h s m = ground arith

  passed_over :
      (x : String) (rest : List Adapter) {e : Engine}
      → Inv e
      → e.probe ≡ none
      → Inv (open_candidates env rest e).0 × ((open_candidates env rest e).0.probe ≡ none)
      → let r = if is_empty rest then (e, err x) else open_candidates env rest e in
        Inv r.0 × (r.0.probe ≡ none)
  passed_over x [] h p ih = (h, p)
  passed_over x (b ∷ bs) h p ih = ih

  pub open_candidates-Inv :
      (as' : List Adapter) {e : Engine}
      → Inv e
      → e.suspended ≡ false
      → e.manual_disconnect ≡ false
      → Inv (open_candidates env as' e).0 × ((open_candidates env as' e).0.probe ≡ none)
  unfolding open_candidates invalidate
  open_candidates-Inv [] {e} h s m =
      let bare = set_adapter none (invalidate e) in
      (
        status-Inv_quiet _ _ (detached-Inv h) refl,
        ground (arith, status-Framed idle "等待已连接的有线网卡" bare),
      )
  open_candidates-Inv (a ∷ rest) {e} h s m =
      let e' = record (invalidate e) { candidates = rest } in
      let ready = dropped-Inv rest h s m in
      elim (Result-cases (env.open_session e'.calls a e'.generation)) [
        | inl (_, p) ↦
            rw (p, open_candidates)
              (start_session-Inv a (act-Inv (opened a e'.generation) (used-Inv ready)) s m refl)
        | inr (x, p) ↦
            rw (p, open_candidates)
              (passed_over x rest (used-Inv ready) refl
                (open_candidates-Inv rest (used-Inv ready) s m))
      ]

  started-SameFlags : (a : Adapter) (e : Engine) → SameFlags e (started env a e)
  unfolding started
  started-SameFlags a e =
      let f = status-Framed authenticating "正在认证" _ in
      record { suspended = f.same_suspended; manual = f.same_manual; config = f.same_config }

  start_sent-SameFlags :
      (a : Adapter) (e : Engine) (r : Result (Unit {0})) → SameFlags e (start_sent env a e r).0
  unfolding start_sent
  start_sent-SameFlags a e (ok _) = started-SameFlags a e
  start_sent-SameFlags a e (err x) = record { suspended = refl; manual = refl; config = refl }

  start_session-SameFlags : (a : Adapter) (e : Engine) → SameFlags e (start_session env a e).0
  unfolding start_session
  start_session-SameFlags a e =
      let f = start_sent-SameFlags a _ (env.send_frame e.calls (control a.mac 1)) in
      record { suspended = f.suspended; manual = f.manual; config = f.config }

  passed_over_flags :
      (x : String) (rest : List Adapter) (e : Engine)
      → SameFlags e (open_candidates env rest e).0
      → SameFlags e (if is_empty rest then (e, err x) else open_candidates env rest e).0
  passed_over_flags x [] e f = record { suspended = refl; manual = refl; config = refl }
  passed_over_flags x (b ∷ bs) e f = f

  pub open_candidates-SameFlags :
      (as' : List Adapter) (e : Engine) → SameFlags e (open_candidates env as' e).0
  unfolding open_candidates invalidate
  open_candidates-SameFlags [] e =
      let f = status-Framed idle "等待已连接的有线网卡" _ in
      record { suspended = f.same_suspended; manual = f.same_manual; config = f.same_config }
  open_candidates-SameFlags (a ∷ rest) e =
      let e' = record (invalidate e) { candidates = rest } in
      elim (Result-cases (env.open_session e'.calls a e'.generation)) [
        | inl (_, p) ↦
            rw (p, open_candidates)
              (let f = start_session-SameFlags a (act (opened a e'.generation) (used e')) in
                record { suspended = f.suspended; manual = f.manual; config = f.config })
        | inr (x, p) ↦
            rw (p, open_candidates)
              (let f =
                  passed_over_flags x rest (used e') (open_candidates-SameFlags rest (used e')) in
                record { suspended = f.suspended; manual = f.manual; config = f.config })
      ]

  -- An engine that may open a session, with no check running.
  pub record Ready (e : Engine) : Type 0 where
    pub inv : Inv e
    pub awake : e.suspended ≡ false
    pub wanted : e.manual_disconnect ≡ false
    pub no_probe : e.probe ≡ none

  pub next_candidate-Ready : {e : Engine} → Ready e → Ready (next_candidate env e).0
  unfolding next_candidate
  next_candidate-Ready {e} r =
      let (v, q) = open_candidates-Inv e.candidates r.inv r.awake r.wanted in
      let f = open_candidates-SameFlags e.candidates e in
      record { inv = v; awake = f.suspended ∙ r.awake; wanted = f.manual ∙ r.wanted; no_probe = q }

  schedule-Inv :
      (m : String) {e : Engine}
      → Inv e
      → e.probe ≡ none
      → e.suspended ≡ false
      → e.manual_disconnect ≡ false
      → Inv (schedule env m e)
  unfolding schedule
  schedule-Inv m {e} h q s d = status-Inv_quiet _ _ (armed-Inv h s d) q
    where
      armed-Inv :
          {c r : ℕ} {e : Engine}
          → Inv e
          → e.suspended ≡ false
          → e.manual_disconnect ≡ false
          → Inv (record e {
            calls = c;
            retry_attempt = min (e.retry_attempt + 1) (2 ^ 32 - 1);
            retry = some r;
          })
      armed-Inv h s d = ground arith

  -- No candidate is left: the failure is shown, or a retry is armed.
  pub give_up-Inv : (m : String) {e : Engine} → Inv e → e.probe ≡ none → Inv (give_up env m e)
  unfolding give_up schedule
  give_up-Inv m {e} h q =
      elim (Bool-cases (
        e.manual_disconnect
        || e.suspended
        || not e.config.auto_auth
        || not (is_ok (validate_auth env.encode e.config)))) [
          | inl shown ↦ rw (shown, give_up) (status-Inv_quiet _ _ h q)
          | inr retried ↦ rw (retried, give_up) (schedule-Inv m h q (ground arith) (ground arith))
        ]

  resume_with-Inv :
      (r : Engine × Result (Unit {0})) → Inv r.0 → r.0.probe ≡ none → Inv (resume_with env r)
  resume_with-Inv (e, ok _) h q = h
  resume_with-Inv (e, err x) h q = give_up-Inv x h q

  -- Before the next candidate is tried, the session is gone and the retry cancelled.
  unfoldable pub cleared : Engine → Engine
  cleared e = invalidate (record (forget_success env e) { retry = none })

  pub cleared-Inv : {e : Engine} → Inv e → Inv (cleared e) × ((cleared e).probe ≡ none)
  unfolding cleared invalidate
  cleared-Inv h = ground arith

  more_candidates :
      (e : Engine)
      → Inv e
      → is_empty e.candidates ≡ false
      → (e.suspended ≡ false) × (e.manual_disconnect ≡ false)
  more_candidates e h more = ground arith

  pub failed-Inv : (m : String) {e : Engine} → Inv e → Inv (failed env m e)
  unfolding failed cleared next_candidate
  failed-Inv m {e} h =
      let (v, q) = cleared-Inv h in
      elim (Bool-cases (is_empty (cleared e).candidates)) [
        | inl last ↦ rw (last, failed) (give_up-Inv m v q)
        | inr more ↦
            rw (more, failed)
              (let (awake, wanted) = more_candidates (cleared e) v more in
                let (v', q') = open_candidates-Inv (cleared e).candidates v awake wanted in
                resume_with-Inv _ v' q')
      ]

  pub or_failed-Inv : (r : Engine × Result (Unit {0})) → Inv r.0 → Inv (or_failed env r)
  or_failed-Inv (e, ok _) h = h
  or_failed-Inv (e, err x) h = failed-Inv x h
