-- ===== src/Engine/Types.antt =====
-- src/engine.rs and src/ipc.rs: the state of the engine, its events, and the calls of clients.
-- Instants and durations are numbers of nanoseconds, the wall clock counts seconds.
use sysu_netauth.Common.{ℕ, ◌*◌, Bool, Option, List, Result, String, ◌==◌}
use sysu_netauth.Config.{Config, Cache, PreferencesPatch, FileRead}
use sysu_netauth.Platform.{Adapter}
use sysu_netauth.Protocol.{Encoder, Md5}
use sysu_netauth.Update.{Update}

abbrev pub from_secs : ℕ → ℕ
from_secs n = n * 1_000_000_000

abbrev pub reconcile_interval : ℕ
reconcile_interval = from_secs 5

pub data State : Type 0 where
  idle authenticating authenticated failed stopped : State

abbrev state_rank : State → ℕ
state_rank idle = 0
state_rank authenticating = 1
state_rank authenticated = 2
state_rank failed = 3
state_rank stopped = 4

abbrev pub state_eq : State → State → Bool
state_eq s t = state_rank s == state_rank t

-- The derived `Debug`.
abbrev pub state_debug : State → String
state_debug idle = "Idle"
state_debug authenticating = "Authenticating"
state_debug authenticated = "Authenticated"
state_debug failed = "Failed"
state_debug stopped = "Stopped"

pub data PowerEvent : Type 0 where
  suspend resume : PowerEvent

pub record Snapshot : Type 0 where
  pub state : State
  pub suspended : Bool
  pub manual_disconnect : Bool
  pub connection_request : ℕ
  pub message : String
  pub adapter : Option Adapter
  pub adapters : List Adapter
  pub authenticated_at : Option ℕ
  pub internet : Bool
  pub update : Update
  pub update_notify : Bool

-- An open capture: the adapter it was opened on, and the generation its packets carry.
pub record Session : Type 0 where
  pub adapter : Adapter
  pub generation : ℕ

-- A watcher's bounded channel: the snapshots not yet read, whether the watcher still lives, and
-- whether the receiving end is still there.
pub record Subscription : Type 0 where
  pub alive : Bool
  pub connected : Bool
  pub pending : List Snapshot

-- The settings that `preferences` shows: all but the credentials.
pub record Preferences : Type 0 where
  pub iface : String
  pub iface_mode : String
  pub auto_auth : Bool
  pub retry_interval : ℕ
  pub service_mode : Bool
  pub launch_gui_on_login : Bool
  pub hide_window_on_login : Bool
  pub desktop_notify : Bool
  pub auto_update_check : Bool
  pub update_notify : Bool

pub data Action : Type 0 where
  status watch interfaces authenticate logoff get_config preferences diagnostics : Action
  set_preferences : PreferencesPatch → Action
  set_config connect : Config → Action
  reload_config check_update : Action
  set_update_preferences : Bool → Bool → Action

-- The JSON values that the engine answers with.
pub data Reply : Type 0 where
  snapshot : Snapshot → Reply
  adapters : List Adapter → Reply
  settings : Preferences → Reply
  config : Config → Reply
  log : State → String → Reply
  saved reloaded checking : Reply

-- `Response`: the request's number, and the data or the error's text.
pub record Response : Type 0 where
  pub id : ℕ
  pub result : Result Reply

pub record Call : Type 0 where
  pub id : ℕ
  pub action : Action
  pub updates : Option Subscription

pub data Event : Type 0 where
  packet : ℕ → List ℕ → Event
  capture_error : ℕ → String → Event
  network_changed power_changed : Event
  connectivity : ℕ → Bool → Event
  update : Result Update → Event
  call : Call → Event
  stop : Event

-- What the engine does to the world outside.
pub data Effect : Type 0 where
  opened : Adapter → ℕ → Effect
  sent : List ℕ → Effect
  probed : ℕ → Effect
  logged : String → Effect
  logged_peer : List ℕ → Effect
  printed : String → Effect
  wrote_config : Config → Effect
  wrote_cache : String → Effect
  wrote_update : Update → Effect
  configured_service : Bool → Effect
  spawned_update : Effect
  replied : Response → Effect

pub record Engine : Type 0 where
  pub config : Config
  pub snapshot : Snapshot
  pub cache : Cache
  pub power_pending : Option PowerEvent
  pub network_pending : Bool
  pub stop_pending : Bool
  pub suspended : Bool
  pub generation : ℕ
  pub session : Option Session
  pub probe : Option ℕ
  pub username : List ℕ
  pub password : List ℕ
  pub adapters : List Adapter
  pub candidates : List Adapter
  pub peer : Option (List ℕ)
  pub manual_disconnect : Bool
  pub retry : Option ℕ
  pub retry_attempt : ℕ
  pub handshake_deadline : Option ℕ
  pub start_deadline : Option ℕ
  pub subscribers : List Subscription
  pub dropped : List Subscription
  pub update_deadline : ℕ
  pub last_manual_update : Option ℕ
  pub reconcile_deadline : ℕ
  pub config_version : Option (ℕ × ℕ)
  pub config_error : Option String
  -- How many answers of the environment were used, and what was done to it, the latest first.
  pub calls : ℕ
  pub trace : List Effect

-- The environment: for the n-th question that the engine asks, the answer. Any such functions are
-- allowed, so a theorem over all of them holds for every behaviour of the platform.
pub record Env : Type 0 where
  pub instant : ℕ → ℕ
  pub clock : ℕ → ℕ
  pub list_adapters : ℕ → Result (List Adapter)
  pub open_session : ℕ → Adapter → ℕ → Result (Unit {0})
  pub send_frame : ℕ → List ℕ → Result (Unit {0})
  pub start_probe : ℕ → Result (Unit {0})
  pub spawn : ℕ → Result (Unit {0})
  pub file_version : ℕ → Option (ℕ × ℕ)
  pub read_config : ℕ → FileRead
  pub write_file : ℕ → Result (Unit {0})
  pub read_log : ℕ → Result String
  pub configure_service : ℕ → Result (Unit {0})
  pub is_windows : Bool
  pub process_id : ℕ
  pub version : String
  pub encode : Encoder
  pub md5 : Md5

-- A method that may fail returns the new state in either case.
abbrev pub M {ℓ} : Type ℓ → Type ℓ
M A = Engine → Engine × Result A
