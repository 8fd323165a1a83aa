-- ===== src/Tests/Windows.antt =====
-- src/gui.rs, src/gui/adapters.rs and src/bin/cli.rs: theorems at concrete inputs.
use sysu_netauth.Common.{
  ℕ, zero, suc, ◌≡◌, ◌⊎◌, true, false, none, some, List, [], ◌∷◌, ◌++◌, ok, refl, arith, is_some,
  if◌then◌else◌,
}
use sysu_netauth.Platform.{Adapter}
use sysu_netauth.Protocol.{parse, answer, response}
use sysu_netauth.Common.Bytes.{bytes_eq}
use sysu_netauth.Update.Text.{codes}
use sysu_netauth.Authentication.{receive, addressed_to, code_arm, request_arm}
use sysu_netauth.Engine.Types.{packet, connectivity}
use sysu_netauth.Notifications as Notifications
use sysu_netauth.Adapters.{refresh, unplugged}
use sysu_netauth.Adapters.Kept.{has_id, wired, Selects, refresh-Selects}
use sysu_netauth.Gui.{
  Form, Window, UiEvent, reply, disconnected, post, may_connect, connect_command, events,
  connect_id,
}
use sysu_netauth.Gui.System.{
  System, connects, handles, here, next, asked, answers_waiting, under_way,
}
use sysu_netauth.Gui.Runs.{IsIdle, calm, after, Calm-under_way, Reach-may_connect}
use sysu_netauth.Cli.{Turn, received, wait, one_turn, on_event, on_packet, on_exchange, restart}
use sysu_netauth.Cli.Direct.{Trial, Account, Machine, context, fresh_attempt, attempt}
use sysu_netauth.Cli.Passes.{IsTimed, received_count}
use sysu_netauth.Cli.Ended.{InTime, attempt_some}
use sysu_netauth.Tests.World.{station, server, lan, slow, account, world}

refresh-Selects_example :
    (a : Adapter) × (a.id ≡ slow.id)
    × Selects (refresh (lan ∷ []) (some slow)) slow.id a
    × ((Selects (wired (lan ∷ [])) slow.id a × (refresh (lan ∷ []) (some slow) ≡ wired (lan ∷ [])))
        ⊎ ((has_id slow.id (wired (lan ∷ [])) ≡ false)
            × (a ≡ unplugged slow)
            × (refresh (lan ∷ []) (some slow) ≡ wired (lan ∷ []) ++ (unplugged slow ∷ []))))
refresh-Selects_example = refresh-Selects (lan ∷ []) slow

abbrev form : Form
form = record {
  username = "student";
  password = "secret";
  manual = false;
  selected = none;
  auto_auth = true;
  launches = false;
  hidden = true;
  notifies = false;
  auto_update = true;
  update_notify = true;
}

abbrev window : Window
window = record {
  form = form;
  adapters = lan ∷ [];
  config = account;
  previous_account = none;
  preference_pending = false;
  last_snapshot = none;
  notices = Notifications.default;
  subscription_connected = true;
  tasks = [];
  events = [];
}

abbrev idle : System
idle = record { window = window; working = none }

idle-IsIdle : IsIdle idle
unfolding under_way asked answers_waiting
idle-IsIdle = record { account = refl; nothing = refl }

abbrev clicked : System
clicked = record { window = connect_command world.encode window; working = none }

Calm-under_way_example :
    under_way clicked ≡ (if is_some clicked.window.previous_account then 1 else 0)
Calm-under_way_example =
    Calm-under_way world.encode idle clicked idle-IsIdle (after calm (omega arith) (connects idle))

abbrev posted : ℕ → List UiEvent → List UiEvent
posted zero q = q
posted (suc n) q = posted n (post (disconnected "service stopped") q)

-- The reply to a request to connect, and thirty-two events before the window looks.
abbrev flooded : System
flooded = record {
  window = record window {
    previous_account = some account;
    events = posted 32 (reply connect_id (ok none) ∷ []);
  };
  working = none;
}

flooded_lost : under_way flooded ≡ 0
unfolding under_way asked answers_waiting post
flooded_lost = refl

abbrev later : System
later = record { window = events 5 flooded.window; working = none }

Reach-may_connect_example :
    (is_some later.window.previous_account ≡ true)
    × (under_way later ≡ 0)
    × (may_connect later.window ≡ false)
Reach-may_connect_example =
    Reach-may_connect world.encode flooded later refl flooded_lost (next here (handles flooded 5))

abbrev pass : Turn
pass = record {
  started_at = 0;
  interrupted = false;
  waited_at = 0;
  delay = 0;
  queued = none;
  sends = ok tt;
  probes = ok tt;
  tested_at = 0;
  restarts = ok tt;
  restarted_at = 0;
}

abbrev identity_request : List ℕ
identity_request = station ++ (server ++ (136 ∷ 142 ∷ 1 ∷ 0 ∷ 0 ∷ 5 ∷ 1 ∷ 5 ∷ 0 ∷ 5 ∷ 1 ∷ []))

abbrev eap_accept : List ℕ
eap_accept = station ++ (server ++ (136 ∷ 142 ∷ 1 ∷ 0 ∷ 0 ∷ 4 ∷ 3 ∷ 5 ∷ 0 ∷ 4 ∷ []))

abbrev trial : ℕ → Trial
trial n = record {
  opened = ok tt;
  first_sends = ok tt;
  begins_at = 0;
  now = 0;
  passes =
      record pass { queued = some (packet 1 identity_request) }
      ∷ record pass { queued = some (packet 1 eap_accept) }
      ∷ record pass { queued = some (connectivity 1 true) }
      ∷ [];
}

abbrev machine : Machine
machine = record {
  is_admin = true;
  lock = ok tt;
  adapters = ok (lan ∷ []);
  prompt = ok "";
  signals = ok tt;
}

abbrev ready : List Adapter × Account
ready = (
  lan ∷ [],
  record {
    digest = world.md5;
    user = codes "student";
    secret = codes "secret";
    probes = false;
    seconds = 30;
  },
)

-- A pass after the deadline.
abbrev over : Turn
over = record pass {
  started_at = 2_000_000_000;
  waited_at = 2_000_000_000;
  tested_at = 2_000_000_000;
  restarted_at = 2_000_000_000;
}

-- An attempt of two seconds: nothing for a second, a request after half a millisecond, and silence.
abbrev short_trial : Trial
short_trial = record {
  opened = ok tt;
  first_sends = ok tt;
  begins_at = 0;
  now = 0;
  passes =
      record pass { tested_at = 1_000_000_000; restarted_at = 1_000_000_000 }
      ∷ record pass {
        started_at = 1_000_000_000;
        waited_at = 1_000_000_000;
        delay = 500_000;
        queued = some (packet 1 identity_request);
        tested_at = 1_001_000_000;
        restarted_at = 1_001_000_000;
      }
      ∷ record pass {
        started_at = 1_001_000_000;
        waited_at = 1_001_000_000;
        tested_at = 2_000_000_000;
        restarted_at = 2_000_000_000;
      }
      ∷ over
      ∷ over
      ∷ [];
}

abbrev hasty : Account
hasty = record {
  digest = world.md5;
  user = codes "student";
  secret = codes "secret";
  probes = false;
  seconds = 2;
}

short-IsTimed :
    IsTimed
      (context hasty lan 0 short_trial.begins_at)
      short_trial.passes
      short_trial.now
      (fresh_attempt short_trial.now)
unfolding IsTimed one_turn received wait on_event on_packet on_exchange restart parse receive
    addressed_to code_arm request_arm answer response bytes_eq
short-IsTimed = (
  omega arith,
  omega arith,
  omega arith,
  omega arith,
  (
    omega arith,
    omega arith,
    omega arith,
    omega arith,
    (
      omega arith,
      omega arith,
      omega arith,
      omega arith,
      (omega arith, omega arith, omega arith, omega arith, tt),
    ),
  ),
)

short_events :
    received_count
      (context hasty lan 0 short_trial.begins_at)
      short_trial.passes
      (fresh_attempt short_trial.now)
    ≡ 1
unfolding received_count one_turn received wait on_event on_packet on_exchange restart parse receive
    addressed_to code_arm request_arm answer response bytes_eq
short_events = refl

attempt_some_example :
    (is_some (attempt hasty lan 0 short_trial) ≡ true)
    × InTime
        (context hasty lan 0 short_trial.begins_at)
        short_trial.passes
        (fresh_attempt short_trial.now)
attempt_some_example =
    attempt_some hasty lan 0 short_trial (omega arith) short-IsTimed
      (let e = short_events in omega (arith, e))
