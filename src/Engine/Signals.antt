-- ===== src/Engine/Signals.antt =====
-- src/engine.rs: `Signal` and `PowerNotifier`, which callbacks use to reach the engine through a
-- bounded queue. The queue is the number of events in it and its capacity.
use sysu_netauth.Common.{
  ℕ, zero, suc, ◌+◌, ◌≡◌, ◌≤◌, Bool, true, false, Option, none, some, ltb, if◌then◌else◌, arith,
  refl,
}
use sysu_netauth.Engine.Types.{PowerEvent}

pub record Queue : Type 0 where
  pub queued : ℕ
  pub room : ℕ

-- `SyncSender::try_send`: an event that finds no room is lost.
unfoldable pub try_send : Queue → Queue
try_send q = if ltb q.queued q.room then record q { queued = q.queued + 1 } else q

-- `Signal`: its latch and the queue it wakes the engine through.
pub record Signal : Type 0 where
  pub pending : Bool
  pub events : Queue

unfoldable pub notify : Signal → Signal
notify s = if s.pending then s else record { pending = true; events = try_send s.events }

unfoldable pub take : Signal → Signal × Bool
take s = (record s { pending = false }, s.pending)

-- `PowerNotifier`: the latest power event, and a wakeup for each.
pub record PowerNotifier : Type 0 where
  pub pending : Option PowerEvent
  pub events : Queue

unfoldable pub notify_power : PowerEvent → PowerNotifier → PowerNotifier
notify_power p s = record { pending = some p; events = try_send s.events }

unfoldable pub take_power : PowerNotifier → PowerNotifier × Option PowerEvent
take_power s = (record s { pending = none }, s.pending)

-- A burst of notices.
abbrev pub notify_times : ℕ → Signal → Signal
notify_times zero s = s
notify_times (suc n) s = notify_times n (notify s)

notify_latched : (n : ℕ) (s : Signal) → s.pending ≡ true → notify_times n s ≡ s
unfolding notify
notify_latched zero s p = refl
notify_latched (suc n) s p = let q : notify s ≡ s = ground arith in rw q (notify_latched n s p)

-- However many notices come in a burst, and however full the queue is, the engine takes the signal
-- once, finds nothing more after that, and at most one wakeup was queued.
pub take-notify :
    (n : ℕ) (s : Signal)
    → let t = notify_times (suc n) s in
      ((take t).1 ≡ true) × ((take (take t).0).1 ≡ false) × (t.events.queued ≤ s.events.queued + 1)
unfolding take notify try_send
take-notify n s = rw (notify_latched n (notify s) (latched s)) (latched s, refl, few s)
  where
    latched : (x : Signal) → (notify x).pending ≡ true
    latched x = ground arith

    few : (x : Signal) → (notify x).events.queued ≤ x.events.queued + 1
    few x = ground arith

-- Of several power events the engine takes the last one, and takes it once.
pub take_power-notify_power :
    (p q : PowerEvent) (s : PowerNotifier)
    → let t = notify_power q (notify_power p s) in
      ((take_power t).1 ≡ some q) × ((take_power (take_power t).0).1 ≡ none)
unfolding take_power notify_power
take_power-notify_power p q s = (refl, refl)
