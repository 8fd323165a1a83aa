-- ===== src/Engine/Updates.antt =====
-- src/engine.rs: release checks.
use Prim.Native.String.{◌++◌ as append}
use text.Mathlib.Text.{◌==◌ as str_eq}
use sysu_netauth.Common.{
  ℕ, ◌+◌, ◌-◌, ◌%◌, ◌^◌, min, Bool, true, false, not, ◌||◌, Option, none, some, leb, if◌then◌else◌,
  Result, ok, err, String, ensure,
}
use sysu_netauth.Update.{Update, announcement, retain_newer_release, failure_delay}
use sysu_netauth.Engine.Types.{
  logged, printed, wrote_update, spawned_update, Engine, Env, M, from_secs,
}
use sysu_netauth.Engine.Base.{◌>>=◌, ◌>>◌, exec, gets, lift, ask, used, act, publish}

abbrev pub set_update : Update → Engine → Engine
set_update u e = record e { snapshot = record (e.snapshot) { update = u } }

abbrev pub log_some : Option String → Engine → Engine
log_some none e = e
log_some (some m) e = act (logged m) e

module _ (env : Env) where
  -- A manual check at most once a minute.
  unfoldable pub cooled : Option ℕ → ℕ → Bool
  cooled none now = true
  cooled (some t) now = leb (from_secs 60) (now - t)

  unfoldable pub manual_check : M (Unit {0})
  manual_check e =
      if cooled e.last_manual_update (env.instant e.calls)
      then (
        record e { calls = e.calls + 2; last_manual_update = some (env.instant (e.calls + 1)) },
        ok tt,
      )
      else (used e, err "update check cooling down")

  unfoldable pub marked_checking : Engine → Engine
  marked_checking e = publish (set_update (record (e.snapshot.update) { checking = true }) e)

  unfoldable pub start_update : Bool → M (Unit {0})
  start_update manual = do
    checking ← gets (λ e. e.snapshot.update.checking)
    lift (ensure (not checking) "update check already running")
    (if manual then manual_check else exec (λ e. e))
    exec marked_checking
    exec (act spawned_update)
    ask env.spawn

  -- A release that was not known before is logged.
  unfoldable pub announced : Update → Engine → Engine
  announced u e =
      if not e.snapshot.update.available
        || not (str_eq u.latest_version e.snapshot.update.latest_version)
      then log_some (announcement u) e
      else e

  unfoldable pub found_update : ℕ → Update → Engine → Engine
  found_update now u e =
      let newest = retain_newer_release env.version u e.snapshot.update in
      set_update (record newest { next_check_at = now + 86400 + env.process_id % 1800 })
        (announced newest e)

  unfoldable pub failed_update : ℕ → String → Engine → Engine
  failed_update now x e =
      let u = e.snapshot.update in
      let count = min (u.failure_count + 1) (2 ^ 32 - 1) in
      set_update
        (record u {
          failure_count = count;
          checked_at = now;
          next_check_at = now + failure_delay count;
          error = x;
          checking = false;
        })
        (act (logged (append "update check failed: " x)) e)

  unfoldable pub merged : ℕ → Result Update → Engine → Engine
  merged now (ok u) e = found_update now u e
  merged now (err x) e = failed_update now x e

  -- A write of the cache that fails is only reported.
  unfoldable pub saved_update : Engine → Engine
  saved_update e =
      let e' = act (wrote_update e.snapshot.update) (used e) in
      elim (env.write_file e.calls) [
        | ok _ ↦ e'
        | err x ↦ act (printed (append "update state: " x)) e'
      ]

  unfoldable pub update_result : Result Update → Engine → Engine
  update_result result e =
      let now = env.clock e.calls in
      let e' = merged now result (used e) in
      publish (
        saved_update (record e' {
          calls = e'.calls + 1;
          update_deadline =
              env.instant e'.calls + from_secs (e'.snapshot.update.next_check_at - now);
        }))
