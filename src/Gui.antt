-- ===== src/Gui.antt =====
-- src/gui.rs: the state behind the window: the settings it shows, the account it is changing, and the
-- queues between it and the two threads. Drawing is not modelled; `form` is what the controls hold.
pub mod System
pub mod Waiting
pub mod Locked
pub mod Runs
use text.Mathlib.Text.{◌==◌ as str_eq}
use sysu_netauth.Common.{
  ℕ, zero, suc, ◌+◌, Bool, true, false, not, ◌&&◌, ◌||◌, Option, none, some, List, [], ◌∷◌, ◌++◌,
  leb, ltb, ◌==◌, if◌then◌else◌, length, drop, is_none, is_some, is_some_and, find, Result, ok, err,
  ◌>>=◌, ◌>>◌, ensure, String,
}
use sysu_netauth.Config.{Config, PreferencesPatch, validate, validate_auth}
use sysu_netauth.Protocol.{Encoder}
use sysu_netauth.Platform.{Adapter, adapters_eq}
use sysu_netauth.Adapters.{refresh, selection}
use sysu_netauth.Engine.Types.{
  State, authenticating, state_eq, Snapshot, Action, get_config, set_preferences, connect, logoff,
  check_update, diagnostics,
}
use sysu_netauth.Notifications.{
  StateNotifications, Notice, observe, connect_requested, cancel_connect_request,
}

abbrev pub connect_id : ℕ
connect_id = 102

abbrev pub preferences_id : ℕ
preferences_id = 119

-- What the controls hold. The selected adapter is known by its identifier, none where no listed one
-- is selected.
pub record Form : Type 0 where
  pub username : String
  pub password : String
  pub manual : Bool
  pub selected : Option String
  pub auto_auth : Bool
  pub launches : Bool
  pub hidden : Bool
  pub notifies : Bool
  pub auto_update : Bool
  pub update_notify : Bool

pub record Task : Type 0 where
  pub id : ℕ
  pub action : Action

-- A reply carries the settings, where its data are settings.
pub data UiEvent : Type 0 where
  reply : ℕ → Result (Option Config) → UiEvent
  snapshot : Snapshot → UiEvent
  disconnected : String → UiEvent

pub record Window : Type 0 where
  pub form : Form
  pub adapters : List Adapter
  pub config : Config
  pub previous_account : Option Config
  pub preference_pending : Bool
  pub last_snapshot : Option Snapshot
  pub notices : StateNotifications
  pub subscription_connected : Bool
  pub tasks : List Task
  pub events : List UiEvent

abbrev pub task_limit : ℕ
task_limit = 16

abbrev pub event_limit : ℕ
event_limit = 32

-- `sync_channel(16)`: a full queue refuses the task.
unfoldable pub task : Task → Window → Window × Bool
task t w =
    if ltb (length w.tasks) task_limit
    then (record w { tasks = w.tasks ++ (t ∷ []) }, true)
    else (w, false)

-- A full queue of events loses its oldest.
unfoldable pub post : UiEvent → List UiEvent → List UiEvent
post e q = (if leb event_limit (length q) then drop 1 q else q) ++ (e ∷ [])

-- The choice of an adapter is offered only while the user chooses by hand.
abbrev pub choose : Bool → List Adapter → String → Option String
choose manual items preferred =
    if manual && is_some (selection items preferred) then some preferred else none

-- The controls of the preferences and of the account, filled from the settings.
unfoldable pub populate_preferences : Window → Window
populate_preferences w = record w {
  form = record w.form {
    auto_auth = w.config.auto_auth;
    launches = w.config.launch_gui_on_login;
    hidden = w.config.hide_window_on_login;
    notifies = w.config.desktop_notify;
    auto_update = w.config.auto_update_check;
    update_notify = w.config.update_notify;
  };
}

unfoldable pub populate : Window → Window
populate w = populate_preferences (record w {
  form = record w.form {
    username = w.config.username;
    password = w.config.password;
    manual = str_eq w.config.iface_mode "manual";
    selected = choose (str_eq w.config.iface_mode "manual") w.adapters w.config.iface;
  };
})

abbrev pub or_empty : Option String → String
or_empty none = ""
or_empty (some id) = id

-- The settings that the controls hold, before they are checked.
unfoldable pub collected : Form → Config → Config
collected f old = record {
  username = f.username;
  password = f.password;
  iface = if f.manual then or_empty f.selected else old.iface;
  iface_mode = if f.manual then "manual" else "auto";
  auto_auth = f.auto_auth;
  retry_interval = old.retry_interval;
  service_mode = true;
  launch_gui_on_login = f.launches;
  hide_window_on_login = f.hidden;
  desktop_notify = f.notifies;
  auto_update_check = f.auto_update;
  update_notify = f.update_notify;
}

unfoldable pub collect : Encoder → Form → Config → Result Config
collect encode f old = do
  validate encode (collected f old)
  ensure
      (not (str_eq (collected f old).iface_mode "manual")
        || not (str_eq (collected f old).iface ""))
      "请选择有线网卡"
  ok (collected f old)

abbrev pub taken_back : Option Config → Window → Window
taken_back none w = w
taken_back (some old) w = record w { config = old; previous_account = none }

-- The connect request is taken back when the queue refuses it.
abbrev pub connect_asked : Config → Window × Bool → Window
connect_asked c (w, true) = w
connect_asked c (w, false) =
    let b = taken_back w.previous_account w in
    record b { notices = cancel_connect_request b.notices }

abbrev pub connect_with : Window → Result Config → Window
connect_with w (err e) = w
connect_with w (ok c) = connect_asked c (
    task (record { id = connect_id; action = connect c })
      (record w {
        previous_account = some w.config;
        config = c;
        notices = connect_requested w.notices;
      }))

abbrev pub is_authenticating : Option Snapshot → Bool
is_authenticating = is_some_and (λ s. state_eq s.state authenticating)

unfoldable pub may_connect : Window → Bool
may_connect w =
    is_none w.previous_account
    && not w.preference_pending
    && not (is_authenticating w.last_snapshot)

unfoldable pub connect_command : Encoder → Window → Window
connect_command encode w =
    if may_connect w
    then connect_with w
        (collect encode w.form w.config >>= λ c. validate_auth encode c >>= λ u. ok c)
    else w

abbrev pub preference_asked : Window × Bool → Window
preference_asked (w, true) = record w { preference_pending = true }
preference_asked (w, false) = populate_preferences w

unfoldable pub change_preference : PreferencesPatch → Window → Window
change_preference p w =
    if w.preference_pending
    then w
    else preference_asked (task (record { id = preferences_id; action = set_preferences p }) w)

-- The other commands that ask the service.
unfoldable pub other_command : Task → Window → Window
other_command t w = (task t w).0

abbrev pub connect_failed : Window → Window
connect_failed w =
    let b =
      (task (record { id = preferences_id; action = get_config })
        (taken_back w.previous_account w)).0 in
    record b { notices = cancel_connect_request b.notices }

abbrev pub preferences_ended : Window → Window
preferences_ended w = populate_preferences (record w { preference_pending = false })

abbrev pub with_config : Option Config → Window → Window
with_config none w = w
with_config (some c) w = record w { config = c }

abbrev pub loaded : Option Config → Window → Window
loaded none w = w
loaded (some c) w = populate (record w { config = c })

unfoldable pub on_reply : ℕ → Result (Option Config) → Window → Window
on_reply id (err e) w =
    let b = if id == preferences_id then preferences_ended w else w in
    if id == connect_id then connect_failed b else b
on_reply id (ok value) w =
    let b = if id == connect_id then record w { previous_account = none } else w in
    if id == preferences_id
    then populate_preferences (with_config value (record b { preference_pending = false }))
    else if id == 1
    then loaded value b
    else b

abbrev pub chosen_adapter : Option String → List Adapter → Option Adapter
chosen_adapter none items = none
chosen_adapter (some id) items = find (λ a. str_eq a.id id) items

abbrev pub preferred_id : Option Adapter → String → String
preferred_id none old = old
preferred_id (some a) old = a.id

unfoldable pub refresh_adapters : List Adapter → Window → Window
refresh_adapters all w =
    let selected = if w.form.manual then chosen_adapter w.form.selected w.adapters else none in
    let items = refresh all selected in
    if adapters_eq w.adapters items then w else record w {
      adapters = items;
      form = record w.form {
        selected = choose w.form.manual items (preferred_id selected w.config.iface);
      };
    }

-- The user switches between the choice by hand and the automatic one.
unfoldable pub manual_command : Bool → Window → Window
manual_command manual w = record w {
  form = record w.form { manual = manual; selected = choose manual w.adapters w.config.iface };
}

unfoldable pub update_snapshot : ℕ → Snapshot → Window → Window
update_snapshot now s w =
    let b = refresh_adapters s.adapters (record w { subscription_connected = true }) in
    record b {
      notices =
          (observe s.state (s.suspended || s.manual_disconnect) b.config.desktop_notify now
            b.notices).0;
      last_snapshot = some s;
    }

unfoldable pub on_event : ℕ → UiEvent → Window → Window
on_event now (reply id r) w = on_reply id r w
on_event now (snapshot s) w = update_snapshot now s w
on_event now (disconnected e) w = record w { subscription_connected = false }

unfoldable pub on_events : ℕ → List UiEvent → Window → Window
on_events now [] w = w
on_events now (e ∷ es) w = on_events now es (on_event now e w)

-- `mem::take`
unfoldable pub events : ℕ → Window → Window
events now w = on_events now w.events (record w { events = [] })
