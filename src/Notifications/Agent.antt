-- ===== src/Notifications/Agent.antt =====
-- src/notify.rs: the notification assistant. What the desktop and the clock answer while an event is
-- handled, and the stored states of the user interface, are arguments; what it shows is a list.
use text.Mathlib.Text.{◌==◌ as str_eq}
use sysu_netauth.Common.{
  ℕ, ◌+◌, ◌-◌, ◌/◌, min, max, Bool, true, false, not, ◌&&◌, ◌||◌, Option, none, some, List, [], ◌∷◌,
  ◌++◌, ◌==◌, if◌then◌else◌, is_some_and, String,
}
use sysu_netauth.Engine.Types.{Snapshot}
use sysu_netauth.Update.{Update, announcement}
use sysu_netauth.Notifications.{
  Notice, message, StateNotifications, service_connect_requested, poll, observe, deadline,
}

pub data Event : Type 0 where
  status : Snapshot → Bool → Event
  unavailable : Event

-- The answers of `Shell_NotifyIconW` for an icon that is added and for a balloon.
pub record Shell : Type 0 where
  pub adds : Bool
  pub modifies : Bool

pub record Turn : Type 0 where
  pub notice_shell : Shell
  pub update_shell : Shell
  pub observed_at : ℕ
  pub scheduled_at : ℕ
  pub ignored_version : Option String
  pub reads : Bool
  pub ui_notified : Option String
  pub writes : Bool

-- What was put on the screen; a click opens the address, or the window where there is none.
pub record Balloon : Type 0 where
  pub title : String
  pub body : String
  pub url : Option String

-- `timer` is the outage timer, and `submitted` all that was shown so far.
pub record Agent : Type 0 where
  pub icon_added : Bool
  pub notices : StateNotifications
  pub enabled : Bool
  pub connected : Bool
  pub connection_request : Option ℕ
  pub update_url : Option String
  pub timer : Option ℕ
  pub submitted : List Balloon

-- The assistant, and the version in its file `notification_state.json`.
pub record Desk : Type 0 where
  pub agent : Agent
  pub file : Option String

unfoldable pub remove_icon : Agent → Agent
remove_icon a = record a { icon_added = false }

abbrev pub submit : Bool → Balloon → Agent → Agent × Bool
submit false n a = (remove_icon a, false)
submit true n a = (record a { submitted = a.submitted ++ (n ∷ []) }, true)

abbrev pub try_submit : Bool → Bool → Balloon → Agent → Agent × Bool
try_submit false modifies n a = (a, false)
try_submit true modifies n a = submit modifies n a

unfoldable pub show : Shell → String → String → Option String → Agent → Agent × Bool
show s title body url a =
    let added = a.icon_added || s.adds in
    try_submit added s.modifies (record { title = title; body = body; url = url })
      (record a { update_url = url; icon_added = added })

abbrev pub u32_max : ℕ
u32_max = 4294967295

-- Milliseconds until a deadline, rounded up, from 10 on.
abbrev pub until : ℕ → ℕ → ℕ
until due now = min (max ((due - now) / 1_000_000 + 1) 10) u32_max

abbrev pub timer_for : Option ℕ → ℕ → Option ℕ
timer_for none now = none
timer_for (some due) now = some (until due now)

unfoldable pub schedule : ℕ → Agent → Agent
schedule now a = record a {
  timer = if a.connected then timer_for (deadline a.enabled a.notices) now else none;
}

abbrev pub show_notice : Shell → Option Notice → String → Agent → Agent
show_notice s none text a = a
show_notice s (some n) text a = (show s "SYSU NetAuth" (message n text) none a).0

abbrev pub stored : Option String → String → Bool
stored o v = is_some_and (λ w. str_eq w v) o

-- A file that cannot be read counts as one without a version; `ui_notified` is what reading
-- `ui_state.json` gives.
unfoldable pub update_was_notified : Turn → Option String → String → Bool
update_was_notified t file v = (t.reads && stored file v) || stored t.ui_notified v

abbrev pub remember : Bool → Bool → String → Option String → Option String
remember sent writes v file = if sent && writes then some v else file

abbrev pub announce : Turn → Update → Option String → Desk → Desk
announce t u none d = d
announce t u (some text) d =
    let r = show t.update_shell "SYSU NetAuth 更新" text (some u.release_url) d.agent in
    record { agent = r.0; file = remember r.1 t.writes u.latest_version d.file }

unfoldable pub may_announce : Turn → Snapshot → Option String → Bool
may_announce t s file =
    s.update_notify
    && s.update.available
    && not (stored t.ignored_version s.update.latest_version)
    && not (update_was_notified t file s.update.latest_version)

unfoldable pub announce_update : Turn → Snapshot → Desk → Desk
announce_update t s d =
    if may_announce t s d.file then announce t s.update (announcement s.update) d else d

abbrev pub is_asked : Option ℕ → ℕ → Bool
is_asked old new = is_some_and (λ o. not (o == new)) old && not (new == 0)

-- What the service was asked is noted first.
unfoldable pub with_request : Snapshot → Bool → Agent → Agent
with_request s enabled a = record a {
  notices =
      if is_asked a.connection_request s.connection_request
      then service_connect_requested s.state a.notices
      else a.notices;
  connection_request = some s.connection_request;
  enabled = enabled;
  connected = true;
}

unfoldable pub handle_status : Turn → Snapshot → Bool → Desk → Desk
handle_status t s enabled d =
    let b = with_request s enabled d.agent in
    let r = observe s.state (s.suspended || s.manual_disconnect) enabled t.observed_at b.notices in
    announce_update t s (record {
      agent =
          schedule t.scheduled_at
            (show_notice t.notice_shell r.1 s.message (record b { notices = r.0 }));
      file = d.file;
    })

unfoldable pub handle : Turn → Event → Desk → Desk
handle t (status s enabled) d = handle_status t s enabled d
handle t unavailable d = record {
  agent =
      schedule t.scheduled_at (record (d.agent) { connection_request = none; connected = false });
  file = d.file;
}

-- `receive` empties the queue.
unfoldable pub receive : List (Turn × Event) → Desk → Desk
receive [] d = d
receive ((t, e) ∷ es) d = receive es (handle t e d)

-- The outage timer's message.
unfoldable pub on_outage_timer : Turn → Agent → Agent
on_outage_timer t a =
    let r = poll a.enabled t.observed_at a.notices in
    schedule t.scheduled_at (show_notice t.notice_shell r.1 "" (record a { notices = r.0 }))

-- A click on the balloon: the address to open.
unfoldable pub click : Agent → Agent × Option String
click a = (remove_icon (record a { update_url = none }), a.update_url)
