-- ===== src/Engine/Run.antt =====
-- src/engine.rs: the start of the service and the main loop over what the queue delivers.
use Prim.Native.String.{◌++◌ as append}
use text.Mathlib.Text.{◌==◌ as str_eq}
use sysu_netauth.Common.{
  ℕ, ◌+◌, ◌-◌, ◌%◌, ◌*◌, min, Bool, true, false, not, ◌&&◌, Option, none, some, List, [], ◌∷◌, ltb,
  if◌then◌else◌, is_none, Result, ok, err, String,
}
use sysu_netauth.Config.{Config, Cache, load, default}
use sysu_netauth.Update.{Update, for_current_version}
use sysu_netauth.Update as Update
use sysu_netauth.Engine.Types.{
  idle, Event, stop, PowerEvent, Engine, Env, from_secs, reconcile_interval,
}
use sysu_netauth.Engine.Base.{used}
use sysu_netauth.Engine.Candidates.{refresh_adapters, authenticate, failed, or_failed}
use sysu_netauth.Engine.Network.{drain_power}
use sysu_netauth.Engine.Loop.{timeout, tick, handle}

-- `update_state.json`, if it was read: the version that wrote it, and the release.
unfoldable pub load_cache : String → Option (String × Update) → Update
load_cache current none = Update.default
load_cache current (some (client, u)) =
    if str_eq client current then for_current_version u current else Update.default

abbrev pub loaded_config : Result Config → Config
loaded_config (ok c) = c
loaded_config (err x) = default

abbrev pub load_error : Result Config → Option String
load_error (ok c) = none
load_error (err x) = some (append "Configuration unavailable: " x)

abbrev pub or_message : Option String → String → String
or_message none m = m
or_message (some x) m = x

-- What `mpsc::Receiver` delivers to one wait.
pub data Receipt : Type 0 where
  received : Event → Receipt
  timed_out disconnected : Receipt

-- `PowerNotifier::notify` and `Signal::notify` latch their condition; the wakeup that they try to
-- queue, if there is room, is one more event.
pub data Notice : Type 0 where
  power : PowerEvent → Notice
  network stopping : Notice

unfoldable pub notified : Notice → Engine → Engine
notified (power p) e = record e { power_pending = some p }
notified network e = record e { network_pending = true }
notified stopping e = record e { stop_pending = true }

-- What happens at one point of a run: a wait of the loop ends, or a callback comes in.
pub data Input : Type 0 where
  receipt : Receipt → Input
  notice : Notice → Input

module _ (env : Env) where
  -- The delay of the first release check: what is left of the last, or two to five minutes.
  unfoldable pub first_check : ℕ → ℕ → ℕ → ℕ
  first_check next now now' =
      if ltb now next then min (next - now') (7 * 86400) else 120 + env.process_id % 180

  unfoldable pub new : Option Cache → Option (String × Update) → Engine
  new cache cached_update =
      let initial_version = env.file_version 0 in
      let loaded = load env.encode (env.read_config 1) in
      let config = loaded_config loaded in
      let u = load_cache env.version cached_update in
      let now = env.instant 2 in
      record {
        config = config;
        snapshot = record {
          state = idle;
          suspended = false;
          manual_disconnect = false;
          connection_request = 0;
          message = or_message (load_error loaded) "待命";
          adapter = none;
          adapters = [];
          authenticated_at = none;
          internet = false;
          update = u;
          update_notify = config.update_notify;
        };
        cache = elim cache [ none ↦ record { last_success_id = "" } | some c ↦ c ];
        power_pending = none;
        network_pending = false;
        stop_pending = false;
        suspended = false;
        generation = 0;
        session = none;
        probe = none;
        username = [];
        password = [];
        adapters = [];
        candidates = [];
        peer = none;
        manual_disconnect = false;
        retry = none;
        retry_attempt = 0;
        handshake_deadline = none;
        start_deadline = none;
        subscribers = [];
        dropped = [];
        update_deadline = now + from_secs (first_check u.next_check_at (env.clock 3) (env.clock 4));
        last_manual_update = none;
        reconcile_deadline = now + reconcile_interval;
        config_version = elim (load_error loaded) [ none ↦ initial_version | some x ↦ none ];
        config_error = load_error loaded;
        calls = 5;
        trace = [];
      }

  unfoldable pub started_with : Engine × Result (Unit {0}) → Engine
  started_with (e, err x) = failed env x e
  started_with (e, ok _) = if e.config.auto_auth then or_failed env (authenticate env e) else e

  unfoldable pub start : Engine → Engine
  start e = started_with (refresh_adapters env e)

  -- One turn of the loop: `false` leaves it. A wait with no limit does not time out.
  unfoldable pub turn : Receipt → Engine → Engine × Bool
  turn (received event) e =
      let (e', more) = handle env event (used e) in
      if more then (tick env e', true) else (e', false)
  turn timed_out e = elim (timeout (env.instant e.calls) e) [
    | none ↦ (used e, true)
    | some t ↦ (tick env (used e), true)
  ]
  turn disconnected e = (used e, false)

  unfoldable pub advance : Input → Engine → Engine × Bool
  advance (receipt r) e = turn r e
  advance (notice n) e = (notified n e, true)

  unfoldable pub loop : List Input → Engine → Engine × Bool
  loop [] e = (e, true)
  loop (i ∷ is) e =
      let (e', more) = advance i e in let rest = loop is e' in if more then rest else (e', false)

  unfoldable pub run : List Input → Engine → Engine × Bool
  run is e =
      if e.stop_pending
      then ((handle env stop e).0, false)
      else (let e' = drain_power env e in
          if not e'.suspended && is_none e'.retry then loop is (start e') else loop is e')
