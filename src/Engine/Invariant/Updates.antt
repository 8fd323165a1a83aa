-- ===== src/Engine/Invariant/Updates.antt =====
-- src/engine.rs: release checks keep the invariant.
use sysu_netauth.Common.{
  ℕ, inl, inr, Bool, true, false, Option, none, some, arith, Result, ok, err, Result-cases,
  Bool-cases, if◌then◌else◌, String, not, ensure,
}
use sysu_netauth.Update.{Update}
use sysu_netauth.Engine.Types.{Engine, Env, spawned_update}
use sysu_netauth.Engine.Updates.{
  set_update, log_some, cooled, manual_check, marked_checking, start_update, announced,
  found_update, failed_update, merged, saved_update, update_result,
}
use sysu_netauth.Engine.Invariant.{Inv}
use sysu_netauth.Engine.Invariant.Base.{publish-Inv, used-Inv, act-Inv, after-Inv}

set_update-Inv : (u : Update) {e : Engine} → Inv e → Inv (set_update u e)
set_update-Inv u h = ground arith

log_some-Inv : (m : Option String) {e : Engine} → Inv e → Inv (log_some m e)
log_some-Inv none h = h
log_some-Inv (some m) h = act-Inv _ h

module _ (env : Env) where
  timed-Inv :
      {c : ℕ} {t : Option ℕ} {e : Engine}
      → Inv e
      → Inv (record e { calls = c; last_manual_update = t })
  timed-Inv h = ground arith

  manual_check-Inv : {e : Engine} → Inv e → Inv (manual_check env e).0
  unfolding manual_check
  manual_check-Inv {e} h =
      elim (Bool-cases (cooled env e.last_manual_update (env.instant e.calls))) [
        | inl p ↦ rw (p, manual_check) (timed-Inv h)
        | inr p ↦ rw (p, manual_check) (used-Inv h)
      ]

  asked_for-Inv :
      (manual : Bool) {e : Engine}
      → Inv e
      → Inv ((if manual then manual_check env else λ e'. (e', ok tt)) e).0
  asked_for-Inv true h = manual_check-Inv h
  asked_for-Inv false h = h

  marked_checking-Inv : {e : Engine} → Inv e → Inv (marked_checking env e)
  unfolding marked_checking
  marked_checking-Inv h = publish-Inv (set_update-Inv _ h)

  pub start_update-Inv : (manual : Bool) {e : Engine} → Inv e → Inv (start_update env manual e).0
  unfolding start_update
  start_update-Inv manual {e} h =
      after-Inv (e, ensure (not e.snapshot.update.checking) "update check already running") _ h
        λ _ e1 h1.
          after-Inv ((if manual then manual_check env else λ e'. (e', ok tt)) e1) _
            (asked_for-Inv manual h1)
            λ _ e2 h2. used-Inv (act-Inv spawned_update (marked_checking-Inv h2))

  logged-Inv : (b : Bool) {e e' : Engine} → Inv e → Inv e' → Inv (if b then e else e')
  logged-Inv true h h' = h
  logged-Inv false h h' = h'

  merged-Inv : (now : ℕ) (r : Result Update) {e : Engine} → Inv e → Inv (merged env now r e)
  unfolding merged found_update failed_update announced
  merged-Inv now (ok u) h = set_update-Inv _ (logged-Inv _ (log_some-Inv _ h) h)
  merged-Inv now (err x) h = set_update-Inv _ (act-Inv _ h)

  saved_update-Inv : {e : Engine} → Inv e → Inv (saved_update env e)
  unfolding saved_update
  saved_update-Inv {e} h = elim (Result-cases (env.write_file e.calls)) [
    | inl (_, p) ↦ rw (p, saved_update) (act-Inv _ (used-Inv h))
    | inr (x, p) ↦ rw (p, saved_update) (act-Inv _ (act-Inv _ (used-Inv h)))
  ]

  dated-Inv : {c d : ℕ} {e : Engine} → Inv e → Inv (record e { calls = c; update_deadline = d })
  dated-Inv h = ground arith

  pub update_result-Inv : (r : Result Update) {e : Engine} → Inv e → Inv (update_result env r e)
  unfolding update_result
  update_result-Inv r h = publish-Inv (saved_update-Inv (dated-Inv (merged-Inv _ r (used-Inv h))))
