-- ===== src/Notifications.antt =====
-- src/gui/notifications.rs: which desktop notice a change of the connection's state deserves.
-- Instants count nanoseconds.
pub mod Agent
pub mod Once
pub mod Outages
pub mod Posting
use sysu_netauth.Common.{
  ℕ, ◌+◌, ◌-◌, Bool, true, false, not, ◌&&◌, ◌||◌, Option, none, some, leb, if◌then◌else◌, is_none,
  is_some_and, String,
}
use sysu_netauth.Engine.Types.{State, authenticating, authenticated, failed, state_eq, from_secs}

abbrev pub outage_delay : ℕ
outage_delay = from_secs 5

pub data Notice : Type 0 where
  current_state disconnected recovered : Notice

unfoldable pub message : Notice → String → String
message current_state current_status = current_status
message disconnected current_status = "连接已中断，请检查网络或认证设置"
message recovered current_status = "连接已恢复，互联网连通"

pub record Outage : Type 0 where
  pub since : ℕ
  pub warned : Bool

pub record StateNotifications : Type 0 where
  pub previous : Option State
  pub manual_connect : Bool
  pub outage : Option Outage

abbrev pub default : StateNotifications
default = record { previous = none; manual_connect = false; outage = none }

unfoldable pub connect_requested : StateNotifications → StateNotifications
connect_requested n = record n { manual_connect = true }

unfoldable pub service_connect_requested : State → StateNotifications → StateNotifications
service_connect_requested current n =
    let asked = connect_requested n in
    if state_eq current authenticated || state_eq current failed
    then record asked { previous = some authenticating }
    else asked

unfoldable pub cancel_connect_request : StateNotifications → StateNotifications
cancel_connect_request n = record n { manual_connect = false }

abbrev pub was : Option State → State → Bool
was previous s = is_some_and (λ p. state_eq p s) previous

-- `duration_since` is zero where the clock would go back.
abbrev pub lasted : Outage → ℕ → Bool
lasted o now = leb outage_delay (now - o.since)

unfoldable pub poll_outage :
    Option Outage → Bool → ℕ → StateNotifications → StateNotifications × Option Notice
poll_outage none enabled now n = (n, none)
poll_outage (some o) enabled now n =
    if not enabled || o.warned || not (lasted o now)
    then (n, none)
    else (record n { outage = some (record o { warned = true }) }, some disconnected)

unfoldable pub poll : Bool → ℕ → StateNotifications → StateNotifications × Option Notice
poll enabled now n = poll_outage n.outage enabled now n

-- The notice of a connection that came up.
unfoldable pub arrival : Bool → Option Outage → ℕ → Option Notice
arrival true outage now = some current_state
arrival false none now = some current_state
arrival false (some o) now = if lasted o now then some recovered else none

-- `previous` is the state before, `n` already holds the current one.
unfoldable pub observe_online :
    Option State → Bool → ℕ → StateNotifications → StateNotifications × Option Notice
observe_online previous enabled now n =
    let ended = record n { outage = none } in
    if is_none previous || was previous authenticated then (ended, none) else (
      record ended { manual_connect = false },
      if enabled then arrival n.manual_connect n.outage now else none,
    )

unfoldable pub observe_offline :
    Option State → State → Bool → ℕ → StateNotifications → StateNotifications × Option Notice
observe_offline previous current enabled now n =
    let lost = was previous authenticated && not n.manual_connect in
    let n' =
      if lost then record n { outage = some (record { since = now; warned = false }) } else n in
    let fails =
      is_none n'.outage
      && state_eq current failed
      && is_some_and (λ p. not (state_eq p failed)) previous in
    if fails
    then (record n' { manual_connect = false }, if enabled then some current_state else none)
    else poll enabled now n'

unfoldable pub observe :
    State → Bool → Bool → ℕ → StateNotifications → StateNotifications × Option Notice
observe current paused enabled now n =
    let n' = record n { previous = some current } in
    if paused
    then (record n' { outage = none; manual_connect = false }, none)
    else if state_eq current authenticated
    then observe_online n.previous enabled now n'
    else observe_offline n.previous current enabled now n'

unfoldable pub deadline : Bool → StateNotifications → Option ℕ
deadline enabled n = elim n.outage [
  | none ↦ none
  | some o ↦ (if enabled && not o.warned then some (o.since + outage_delay) else none)
]
