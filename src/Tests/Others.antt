-- ===== src/Tests/Others.antt =====
-- src/gui/notifications.rs, src/update.rs and src/connectivity.rs: theorems at concrete inputs.
use sysu_netauth.Engine.Signals.{Signal}
use sysu_netauth.Update.{release_hosts, changelog_url}
use sysu_netauth.Common.{
  ℕ, ◌≡◌, ◌≤◌, ◌⊎◌, ◌↔◌, Bool, true, false, none, some, List, [], ◌∷◌, Result, ok, err, refl,
  if◌then◌else◌, ◌==◌,
}
use sysu_netauth.Engine.Types.{idle, authenticating, failed, from_secs}
use sysu_netauth.Notifications.{StateNotifications}
use sysu_netauth.Notifications.Outages.{Step, seen, polled, warnings, budget, warnings_bound}
use sysu_netauth.Update.{Update}
use sysu_netauth.Update as Update
use sysu_netauth.Update.Feed.{newest_of, merged_sources}
use sysu_netauth.Update.Sources.{Among, NoneNewer, newest_of-Among}
use sysu_netauth.Update.Version.{version, parse_parts, version_gt}
use sysu_netauth.Connectivity.{check_with, Answers, check_with_iff}

-- The connection was lost one second ago.
abbrev lost : StateNotifications
lost = record {
  previous = some idle;
  manual_connect = false;
  outage = some (record { since = from_secs 1; warned = false });
}

abbrev evening : List Step
evening =
    seen authenticating false true (from_secs 3)
    ∷ polled true (from_secs 6)
    ∷ seen failed false true (from_secs 7)
    ∷ polled true (from_secs 9)
    ∷ []

warnings_bound_example : warnings evening lost ≤ budget lost.outage
warnings_bound_example = warnings_bound evening lost refl refl

abbrev older_release : Update
older_release = record Update.default { latest_version = "1.2.0" }

abbrev newer_release : Update
newer_release = record Update.default { latest_version = "1.3.0" }

abbrev answers_of_sources : List (Result Update)
answers_of_sources = ok older_release ∷ err "github: timeout" ∷ ok newer_release ∷ []

newest_chosen : merged_sources (newest_of answers_of_sources none []) ≡ ok newer_release
unfolding merged_sources newest_of version parse_parts version_gt
newest_chosen = refl

newest_of-Among_example :
    Among newer_release answers_of_sources × NoneNewer newer_release answers_of_sources
newest_of-Among_example = newest_of-Among answers_of_sources [] newer_release newest_chosen

-- Only the second target answers, in the second round.
abbrev second_round : ℕ → List ℕ → Bool
second_round round [] = false
second_round round (a ∷ rest) = if round == 1 then a == 114 else false

abbrev patient : ℕ → Bool
patient round = true

check_with_iff_example : (check_with second_round patient ≡ true) ↔ (
    Answers second_round 0
    ⊎ ((patient 0 ≡ true)
        × (Answers second_round 1 ⊎ ((patient 1 ≡ true) × Answers second_round 2))))
check_with_iff_example = check_with_iff second_round patient

abbrev offered : Update
offered = record newer_release { available = true; release_url = "https://gitee.com/a/b" }

-- A link that goes up and down three times while the queue is full.
abbrev link : Signal
link = record { pending = false; events = record { queued = 64; room = 64 } }
