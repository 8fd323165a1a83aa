-- ===== src/Tests/Service.antt =====
-- src/engine.rs: theorems at concrete states and events.
use sysu_netauth.Common.{
  ◌&&◌, ℕ, ◌≡◌, ◌≢◌, ◌<◌, ◌^◌, Bool, true, false, none, some, List, [], ◌∷◌, refl, arith,
}
use sysu_netauth.Platform.{Adapter}
use sysu_netauth.Engine.Types.{Engine, packet, network_changed, suspend, resume}
use sysu_netauth.Engine.Base.{publish, invalidate, status}
use sysu_netauth.Engine.Candidates.{failed, select}
use sysu_netauth.Engine.Settings.{logoff, logoff_frame}
use sysu_netauth.Engine.Loop.{handle, tick, timeout}
use sysu_netauth.Engine.Run.{new, run, Input, receipt, notice, received, timed_out, power, network}
use sysu_netauth.Engine.Invariant.{Inv}
use sysu_netauth.Engine.Invariant.Run.{new-Inv, run-new-Inv}
use sysu_netauth.Engine.Invariant.Settings.{logoff-Inv}
use sysu_netauth.Engine.Held.{Held}
use sysu_netauth.Engine.Held.Tick.{tick-Held}
use sysu_netauth.Engine.Held.Loop.{handle-Held}
use sysu_netauth.Engine.Deadlines.{Wakes, timeout-Wakes}
use sysu_netauth.Engine.Outcomes.{Settles, failed-Settles}
use sysu_netauth.Engine.Ranking.{Ordered}
use sysu_netauth.Engine.Selection.{count, is_usable, select-Ordered}
use sysu_netauth.Engine.Subscribers.{Delivered, publish-Delivered}
use sysu_netauth.Tests.World.{world, fresh, lan, slow}

-- A night: the network changes, the machine sleeps and wakes, a frame and a timeout come in.
abbrev night : List Input
night =
    notice network
    ∷ receipt (received network_changed)
    ∷ notice (power suspend)
    ∷ receipt timed_out
    ∷ notice (power resume)
    ∷ receipt (received (packet 1 (1 ∷ 2 ∷ [])))
    ∷ receipt timed_out
    ∷ []

run-new-Inv_example : Inv (run world night fresh).0
run-new-Inv_example = run-new-Inv world night none none

-- An engine that its user disconnected.
abbrev down : Engine
down = (logoff world fresh).0

down-Inv : Inv down
down-Inv = logoff-Inv world (new-Inv world none none)

down_manual : down.manual_disconnect ≡ true
unfolding logoff logoff_frame new invalidate status publish
down_manual = ground arith

handle-Held_example : Held down (handle world network_changed down).0
handle-Held_example = handle-Held world network_changed down-Inv down_manual refl

tick-Held_example : Held down (tick world down)
tick-Held_example = tick-Held world down-Inv down_manual

-- An adapter is left to try when the first one fails.
abbrev two_candidates : Engine
two_candidates = record fresh { candidates = lan ∷ slow ∷ [] }

failed-Settles_example : Settles (failed world "认证超时" two_candidates)
failed-Settles_example = failed-Settles world "认证超时" two_candidates

fresh_generation : 7 ≢ fresh.generation
unfolding new
fresh_generation = ground arith

fresh_bound : fresh.generation < 2 ^ 64
unfolding new
fresh_bound = omega arith

fresh_awake : fresh.suspended ≡ false
unfolding new
fresh_awake = refl

timeout-Wakes_example :
    (t : ℕ) × (timeout 3_000_000_000 fresh ≡ some t) × Wakes 3_000_000_000 fresh t
timeout-Wakes_example = timeout-Wakes 3_000_000_000 fresh fresh_awake

-- Two adapters are plugged in, and the slower one worked last.
abbrev two_adapters : Engine
two_adapters = record fresh {
  adapters = lan ∷ slow ∷ [];
  cache = record { last_success_id = "usb-1" };
}

select-Ordered_example :
    Ordered two_adapters.cache.last_success_id (select two_adapters)
    × ((p : Adapter → Bool)
        → count p (select two_adapters)
          ≡ count (λ a. is_usable two_adapters a && p a) two_adapters.adapters)
select-Ordered_example = select-Ordered two_adapters

abbrev watched : Engine
watched = record fresh {
  subscribers =
      record { alive = true; connected = true; pending = [] }
      ∷ record { alive = false; connected = true; pending = [] }
      ∷ [];
}

publish-Delivered_example :
    Delivered (publish watched).snapshot watched.subscribers (publish watched).subscribers
publish-Delivered_example = publish-Delivered watched
