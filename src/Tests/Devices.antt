-- ===== src/Tests/Devices.antt =====
-- src/platform, src/config.rs, src/notify.rs and src/diagnostics.rs: theorems at concrete inputs.
use sysu_netauth.Common.{
  ◌+◌, ◌*◌, ℕ, ◌≡◌, ◌≤◌, true, false, none, some, List, [], ◌∷◌, ◌++◌, ok, err, refl, arith,
  is_some, replicate, filter,
}
use sysu_netauth.Platform.Bpf.Records.{Captured, Fits, Stamp}
use sysu_netauth.Platform.Bpf.Drain.{drain, AllFit, drain_some}
use sysu_netauth.Platform.Capture.{
  Turn, retry, receive_times, holding, used_up, answered_all, receive_times-holding,
}
use sysu_netauth.Platform.Session.{
  sent, full, Attempt, forward, told, Accepts, Begins, forward-Begins, forward-told,
}
use sysu_netauth.Platform.Capture.{Receipt}
use sysu_netauth.Config.Storage.{Files, WriteAnswers, renames, atomic_write, line_feed}
use sysu_netauth.Config.Storage.Whole.{whole_text, IsSafe, atomic_write-IsSafe}
use sysu_netauth.Engine.Types.{from_secs, idle}
use sysu_netauth.Engine.Types as Types
use sysu_netauth.Notifications.{Outage, poll, disconnected}
use sysu_netauth.Notifications.Agent.{
  Agent, Desk, Shell, Turn as Answered, Event, status, unavailable, schedule, receive,
}
use sysu_netauth.Notifications.Once.{schedule-poll, AllSame, updates_shown, receive_once}
use sysu_netauth.Diagnostics.{
  redacted, width, replace, after_line, exported, redact, tail, is_shown, size, export_limit, Calls,
  line, log_limit, write_record,
}
use sysu_netauth.Diagnostics.Export.{IsLine, Ends, size-exported, exported_newest}
use sysu_netauth.Diagnostics.Rotation.{Within, write_record-Within}
use sysu_netauth.Tests.World.{fresh}

-- A time stamp of September 2025, its seconds and microseconds.
abbrev stamp : Stamp
stamp = record { s0 = 0; s1 = 222; s2 = 200; s3 = 104; u0 = 64; u1 = 66; u2 = 15; u3 = 0 }

abbrev hello : Captured
hello = record { stamp = stamp; extra = 0 ∷ 0 ∷ []; packet = 1 ∷ 2 ∷ 3 ∷ []; padding = 7 ∷ [] }

abbrev world_packet : Captured
world_packet = record {
  stamp = record stamp { u0 = 65 };
  extra = [];
  packet = 9 ∷ [];
  padding = 8 ∷ [];
}

hello_fit : AllFit (hello ∷ [])
unfolding AllFit
hello_fit = (record { small = omega arith; short = omega arith; padded = refl }, tt)

world_packet-Fits : Fits world_packet
world_packet-Fits = record { small = omega arith; short = omega arith; padded = refl }

abbrev quiet : Turn
quiet = record { signalled = false; readable = ok true; reading = retry }

receive_times-holding_example :
    receive_times 2 (holding [] (hello ∷ []) world_packet (7 ∷ [])) (quiet ∷ quiet ∷ [])
    ≡ (answered_all (hello ∷ world_packet ∷ []), used_up [] (hello ∷ []) world_packet (7 ∷ []), [])
receive_times-holding_example =
    receive_times-holding [] (hello ∷ []) world_packet (7 ∷ []) (quiet ∷ quiet ∷ []) [] hello_fit
      world_packet-Fits (refl, (refl, tt)) refl

drain_some_example : is_some (drain 3 (replicate 40 255) 0) ≡ true
drain_some_example = drain_some 2 (replicate 40 255) 0 (omega arith)

abbrev receipts : List Receipt
receipts = ok (some (1 ∷ [])) ∷ ok (some (2 ∷ [])) ∷ err "capture closed" ∷ []

abbrev crowded : List Attempt
crowded = full true ∷ sent ∷ sent ∷ full true ∷ full true ∷ sent ∷ []

forward-Begins_example : Begins (forward 4 receipts (sent ∷ full false ∷ []) []) (told 4 receipts)
forward-Begins_example = forward-Begins 4 receipts (sent ∷ full false ∷ []) []

crowded-Accepts : Accepts crowded 3
unfolding Accepts
crowded-Accepts = tt

forward-told_example : forward 4 receipts crowded [] ≡ told 4 receipts
unfolding told
forward-told_example = forward-told 4 receipts crowded [] crowded-Accepts

-- The rename fails.
abbrev no_rename : WriteAnswers
no_rename = record {
  parent = true;
  created = ok tt;
  opened = ok tt;
  encoded = ok tt;
  newline = ok tt;
  synced = ok tt;
  replacing = renames (err "permission denied") (ok tt);
  removed = true;
}

abbrev settings_file : Files
settings_file = record { target = some (1 ∷ []); temporary = none }

abbrev pieces : List (List ℕ)
pieces = (123 ∷ []) ∷ (125 ∷ []) ∷ []

atomic_write-IsSafe_example :
    IsSafe
      (some (1 ∷ []))
      (whole_text pieces ++ line_feed)
      (atomic_write no_rename pieces settings_file)
atomic_write-IsSafe_example = atomic_write-IsSafe no_rename pieces settings_file

abbrev posted : List ℕ
posted = 1 ∷ 2 ∷ 3 ∷ []

abbrev outage : Outage
outage = record { since = from_secs 1; warned = false }

abbrev assistant : Agent
assistant = record {
  icon_added = false;
  notices = record { previous = some idle; manual_connect = false; outage = some outage };
  enabled = true;
  connected = true;
  connection_request = none;
  update_url = none;
  timer = none;
  submitted = [];
}

schedule-poll_example :
    (ms : ℕ) × ((schedule (from_secs 2) assistant).timer ≡ some ms)
    × (from_secs 2 + ms * 1_000_000 ≤ from_secs 7
        → (poll true (from_secs 7) assistant.notices).1 ≡ some disconnected)
schedule-poll_example =
    schedule-poll assistant outage (from_secs 2) (from_secs 7) refl refl refl refl (omega arith)

abbrev desk : Desk
desk = record { agent = assistant; file = none }

abbrev shell : Shell
shell = record { adds = true; modifies = true }

abbrev turn : Answered
turn = record {
  notice_shell = shell;
  update_shell = shell;
  observed_at = from_secs 3;
  scheduled_at = from_secs 3;
  ignored_version = none;
  reads = true;
  ui_notified = none;
  writes = true;
}

abbrev offer : Types.Snapshot
offer = record fresh.snapshot {
  update = record fresh.snapshot.update {
    latest_version = "1.3.0";
    release_url = "https://gitee.com/a/b";
    available = true;
  };
  update_notify = true;
}

abbrev statuses : List (Answered × Event)
statuses = (turn, status offer true) ∷ (turn, unavailable) ∷ (turn, status offer true) ∷ []

statuses_same : AllSame "1.3.0" statuses
unfolding AllSame
statuses_same = ((refl, refl, refl), (tt, ((refl, refl, refl), tt)))

receive_once_example :
    updates_shown (receive statuses desk).agent.submitted ≤ updates_shown desk.agent.submitted + 1
receive_once_example = receive_once "1.3.0" statuses desk statuses_same

-- A log of one line with the password "pw".
abbrev one_log : List ℕ
one_log = 112 ∷ 119 ∷ 32 ∷ 111 ∷ 107 ∷ 10 ∷ []

newest_line :
    Ends
      (32 ∷ 111 ∷ 107 ∷ 10 ∷ [])
      (filter is_shown (redact (117 ∷ []) (112 ∷ 119 ∷ []) (tail one_log)))
unfolding redact size width replace tail after_line
newest_line = (redacted, refl)

exported_newest_example :
    Ends (32 ∷ 111 ∷ 107 ∷ 10 ∷ []) (exported (λ bytes. bytes) (117 ∷ []) (112 ∷ 119 ∷ []) one_log)
unfolding IsLine size width
exported_newest_example =
    exported_newest (λ bytes. bytes) (117 ∷ []) (112 ∷ 119 ∷ []) one_log (32 ∷ 111 ∷ 107 ∷ 10 ∷ [])
      (omega arith) (omega arith) newest_line

-- 40,000 bytes without a line feed.
size-exported_example :
    size (exported (λ bytes. bytes) (117 ∷ []) (112 ∷ 119 ∷ []) (replicate 40000 120))
    ≤ export_limit
size-exported_example =
    size-exported (λ bytes. bytes) (117 ∷ []) (112 ∷ 119 ∷ []) (replicate 40000 120)

abbrev no_rotation : Calls
no_rotation = record {
  creates = true;
  measures = true;
  finds = true;
  removes = false;
  renames = true;
  opens = true;
  write_size = 3;
}

write_record-Within_example : Within (log_limit + 10) (
    write_record no_rotation
      (49 ∷ [])
      (120 ∷ 10 ∷ [])
      (record { log = some (1 ∷ []); rotated = some [] }))
unfolding line
write_record-Within_example =
    write_record-Within (log_limit + 10) no_rotation (49 ∷ []) (120 ∷ 10 ∷ [])
      (record { log = some (1 ∷ []); rotated = some [] }) refl (omega arith)
      (record { log = omega arith; rotated = omega arith })
