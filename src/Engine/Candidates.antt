-- ===== src/Engine/Candidates.antt =====
-- src/engine.rs: choosing adapters, opening a session on one, and what happens on a failure.
use Prim.Native.String.{◌++◌ as append}
use text.Mathlib.Text.{◌==◌ as str_eq}
use sysu_netauth.Common.{
  ℕ, ◌+◌, ◌-◌, ◌*◌, ◌^◌, min, Bool, not, ◌&&◌, ◌||◌, none, some, List, [], ◌∷◌, if◌then◌else◌,
  filter, is_empty, Result, ok, err, is_ok, String,
}
use sysu_netauth.Common.Integers.{ltb_ℤ}
use sysu_netauth.Config.{validate_auth}
use sysu_netauth.Platform.{Adapter, candidate, adapters_eq}
use sysu_netauth.Protocol.{control, gbk}
use sysu_netauth.Engine.Types.{
  idle, authenticating, authenticated, failed as failed_state, state_eq, opened, sent, Engine, Env,
  M, from_secs,
}
use sysu_netauth.Engine.Base.{
  ◌>>=◌, ◌>>◌, exec, gets, lift, ask, used, act, publish, status, invalidate, set_adapter,
}

unfoldable pub set_adapters : List Adapter → Engine → Engine
set_adapters found e =
    if adapters_eq e.adapters found
    then e
    else publish
        (record e { adapters = found; snapshot = record (e.snapshot) { adapters = found } })

-- The key is (is the last that worked, score), both reversed: `before a b` says that a's key is smaller.
unfoldable pub before : String → Adapter → Adapter → Bool
before last a b =
    let a_last = str_eq a.id last in
    let b_last = str_eq b.id last in
    a_last && not b_last || (not (not a_last && b_last) && ltb_ℤ b.score a.score)

-- A stable sort: an element goes before the first one whose key is not smaller.
unfoldable pub insert : String → Adapter → List Adapter → List Adapter
insert last a [] = a ∷ []
insert last a (b ∷ bs) = if before last b a then b ∷ insert last a bs else a ∷ b ∷ bs

unfoldable pub sort : String → List Adapter → List Adapter
sort last [] = []
sort last (a ∷ as') = insert last a (sort last as')

abbrev pub selectable : Engine → Adapter → Bool
selectable e a =
    candidate a && (not (str_eq e.config.iface_mode "manual") || str_eq a.id e.config.iface)

unfoldable pub select : Engine → List Adapter
select e = sort e.cache.last_success_id (filter (selectable e) e.adapters)

-- `3 << min(attempt, 12)`, capped by the retry interval.
unfoldable pub backoff : ℕ → ℕ → ℕ
backoff attempt interval = min (3 * 2 ^ min attempt 12) interval

module _ (env : Env) where
  unfoldable pub refresh_adapters : M (Unit {0})
  refresh_adapters = do found ← ask env.list_adapters; exec (set_adapters found)

  -- The open session becomes the engine's once the EAPOL-Start is on its way.
  unfoldable pub started : Adapter → Engine → Engine
  started a e =
      let now = env.instant e.calls in
      let again = env.instant (e.calls + 1) in
      status authenticating "正在认证" (
        set_adapter (some a) (record e {
          calls = e.calls + 2;
          session = some (record { adapter = a; generation = e.generation });
          handshake_deadline = some (now + from_secs 10);
          start_deadline = some (again + from_secs 1);
        }))

  unfoldable pub start_sent : Adapter → Engine → Result (Unit {0}) → Engine × Result (Unit {0})
  start_sent a e (ok _) = (started a e, ok tt)
  start_sent a e (err x) = (e, err x)

  unfoldable pub start_session : Adapter → M (Unit {0})
  start_session a e =
      let frame = control a.mac 1 in
      start_sent a (act (sent frame) (used e)) (env.send_frame e.calls frame)

  -- `next_candidate`, by recursion on `self.candidates`.
  unfoldable pub open_candidates : List Adapter → M (Unit {0})
  open_candidates [] e = (status idle "等待已连接的有线网卡" (set_adapter none (invalidate e)), ok tt)
  open_candidates (a ∷ rest) e =
      let e' = record (invalidate e) { candidates = rest } in
      elim (env.open_session e'.calls a e'.generation) [
        | ok _ ↦ start_session a (act (opened a e'.generation) (used e'))
        | err x ↦ (if is_empty rest then (used e', err x) else open_candidates rest (used e'))
      ]

  unfoldable pub next_candidate : M (Unit {0})
  next_candidate e = open_candidates e.candidates e

  abbrev pub reset_candidates : Engine → Engine
  reset_candidates e = record (invalidate (record e { retry = none })) { candidates = [] }

  -- What follows once the engine is known to be awake and its session is dropped.
  unfoldable pub login : M (Unit {0})
  login = do
    config ← gets (λ e. e.config)
    lift (validate_auth env.encode config)
    username ← lift (gbk env.encode config.username)
    exec (λ e. record e { username = username })
    password ← lift (gbk env.encode config.password)
    exec (λ e. record e { password = password })
    refresh_adapters
    exec (λ e. record e { candidates = select e })
    next_candidate

  unfoldable pub authenticate : M (Unit {0})
  authenticate e = if e.suspended then (e, err "系统休眠中") else login (reset_candidates e)

  -- The retry is armed, each time later than the time before.
  unfoldable pub schedule : String → Engine → Engine
  schedule m e = status idle (append m "，等待重试") (record e {
    calls = e.calls + 1;
    retry_attempt = min (e.retry_attempt + 1) (2 ^ 32 - 1);
    retry =
        some (env.instant e.calls + from_secs (backoff e.retry_attempt e.config.retry_interval));
  })

  -- No candidate is left.
  unfoldable pub give_up : String → Engine → Engine
  give_up m e =
      if e.manual_disconnect
        || e.suspended
        || not e.config.auto_auth
        || not (is_ok (validate_auth env.encode e.config))
      then status failed_state m e
      else schedule m e

  abbrev pub resume_with : Engine × Result (Unit {0}) → Engine
  resume_with (e, ok _) = e
  resume_with (e, err x) = give_up x e

  abbrev pub forget_success : Engine → Engine
  forget_success e =
      if state_eq e.snapshot.state authenticated
      then record e { retry_attempt = 0; candidates = [] }
      else e

  unfoldable pub failed : String → Engine → Engine
  failed m e =
      let e' = invalidate (record (forget_success e) { retry = none }) in
      if is_empty e'.candidates then give_up m e' else resume_with (next_candidate e')

  -- `if let Err(e) = … { self.failed(&e.to_string()); }`
  abbrev pub or_failed : Engine × Result (Unit {0}) → Engine
  or_failed (e, ok _) = e
  or_failed (e, err x) = failed x e
