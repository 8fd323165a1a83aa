-- ===== src/Notifications/Outages.antt =====
-- src/gui/notifications.rs: one warning per outage, and never before it lasted five seconds.
use sysu_netauth.Common.{
  ℕ, inl, inr, ◌≡◌, ◌≤◌, ◌+◌, Bool, true, false, not, ◌&&◌, ◌||◌, Option, none, some, List, [], ◌∷◌,
  arith, refl, leb, if◌then◌else◌, is_none, is_some_and, Bool-cases,
}
use sysu_netauth.Engine.Types.{State, authenticated, failed, state_eq}
use sysu_netauth.Notifications.{
  Notice, current_state, disconnected, Outage, StateNotifications, connect_requested,
  service_connect_requested, cancel_connect_request, was, lasted, poll_outage, poll,
  observe_offline, observe, deadline,
}

-- While the engine is watched: a state is seen, the deadline is polled, or the user acts.
pub data Step : Type 0 where
  seen : State → Bool → Bool → ℕ → Step
  polled : Bool → ℕ → Step
  asked : Step
  asked_service : State → Step
  cancelled : Step

unfoldable pub step : Step → StateNotifications → StateNotifications × Option Notice
step (seen current paused enabled now) n = observe current paused enabled now n
step (polled enabled now) n = poll enabled now n
step asked n = (connect_requested n, none)
step (asked_service current) n = (service_connect_requested current n, none)
step cancelled n = (cancel_connect_request n, none)

-- Does the step see the connection up?
abbrev pub sees_online : Step → Bool
sees_online (seen current paused enabled now) = state_eq current authenticated
sees_online _ = false

abbrev pub any_online : List Step → Bool
any_online [] = false
any_online (x ∷ xs) = sees_online x || any_online xs

abbrev pub is_warning : Option Notice → ℕ
is_warning (some disconnected) = 1
is_warning _ = 0

-- How many warnings of a lost connection a run of steps gives.
unfoldable pub warnings : List Step → StateNotifications → ℕ
warnings [] n = 0
warnings (x ∷ xs) n = let (n', notice) = step x n in is_warning notice + warnings xs n'

-- The warnings that are still to come without the connection coming up again.
abbrev pub budget : Option Outage → ℕ
budget none = 0
budget (some o) = if o.warned then 0 else 1

abbrev Spends : StateNotifications → StateNotifications × Option Notice → Type 0
Spends n r =
    (is_warning r.1 + budget r.0.outage ≤ budget n.outage)
    × (was r.0.previous authenticated ≡ false)

poll_outage-Spends :
    (o : Option Outage) (enabled : Bool) (now : ℕ) (n : StateNotifications)
    → n.outage ≡ o
    → was n.previous authenticated ≡ false
    → Spends n (poll_outage o enabled now n)
unfolding poll_outage
poll_outage-Spends none enabled now n p q = (ground arith, q)
poll_outage-Spends (some o) enabled now n p q =
    elim (Bool-cases (not enabled || o.warned || not (lasted o now))) [
      | inl c ↦ rw (c, poll_outage) (ground arith, q)
      | inr c ↦ rw (c, poll_outage, p) (ground arith, q)
    ]

poll-Spends :
    (enabled : Bool) (now : ℕ) (n : StateNotifications)
    → was n.previous authenticated ≡ false
    → Spends n (poll enabled now n)
unfolding poll
poll-Spends enabled now n q = poll_outage-Spends n.outage enabled now n refl q

offline-Spends :
    (before : Option State) (current : State) (enabled : Bool) (now : ℕ) (n : StateNotifications)
    → was before authenticated ≡ false
    → was n.previous authenticated ≡ false
    → Spends n (observe_offline before current enabled now n)
unfolding observe_offline
offline-Spends before current enabled now n p q =
    elim (Bool-cases (
      is_none n.outage
      && state_eq current failed
      && is_some_and (λ s. not (state_eq s failed)) before)) [
        | inl c ↦ rw (p, c, observe_offline) (quiet enabled, q)
        | inr c ↦ rw (p, c, observe_offline) (poll-Spends enabled now n q)
      ]
  where
    quiet :
        (b : Bool)
        → is_warning (if b then some current_state else none) + budget n.outage ≤ budget n.outage
    quiet true = omega arith
    quiet false = omega arith

observe-Spends :
    (current : State) (paused enabled : Bool) (now : ℕ) (n : StateNotifications)
    → was n.previous authenticated ≡ false
    → state_eq current authenticated ≡ false
    → Spends n (observe current paused enabled now n)
unfolding observe
observe-Spends current true enabled now n p q = (omega arith, q)
observe-Spends current false enabled now n p q =
    rw (q, observe)
      (offline-Spends n.previous current enabled now (record n { previous = some current }) p q)

step-Spends :
    (x : Step) (n : StateNotifications)
    → was n.previous authenticated ≡ false
    → sees_online x ≡ false
    → Spends n (step x n)
unfolding step connect_requested service_connect_requested cancel_connect_request
step-Spends (seen current paused enabled now) n p q =
    observe-Spends current paused enabled now n p q
step-Spends (polled enabled now) n p q = poll-Spends enabled now n p
step-Spends asked n p q = (omega arith, p)
step-Spends (asked_service current) n p q = ground arith
step-Spends cancelled n p q = (omega arith, p)

split_or : (a b : Bool) → a || b ≡ false → (a ≡ false) × (b ≡ false)
split_or true b h = ground arith
split_or false b h = (refl, h)

-- As long as the connection does not come up again, whatever states are seen, however often the
-- deadline is polled and whatever the user asks for, at most one warning is given, and none if no
-- outage is under way or it was warned of.
pub warnings_bound :
    (xs : List Step) (n : StateNotifications)
    → was n.previous authenticated ≡ false
    → any_online xs ≡ false
    → warnings xs n ≤ budget n.outage
unfolding warnings
warnings_bound [] n p q = ground arith
warnings_bound (x ∷ xs) n p q =
    let (here, later) = split_or (sees_online x) (any_online xs) q in
    let (spent, offline) = step-Spends x n p here in
    omega (arith, spent, warnings_bound xs (step x n).0 offline later)

-- The next deadline says exactly when a poll warns: not before it, and from it on.
pub poll-deadline :
    (enabled : Bool) (now : ℕ) (n : StateNotifications)
    → (poll enabled now n).1
      ≡ (if is_some_and (λ d. leb d now) (deadline enabled n) then some disconnected else none)
unfolding poll poll_outage deadline
poll-deadline enabled now n = ground arith
