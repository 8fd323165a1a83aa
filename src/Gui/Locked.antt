-- ===== src/Gui/Locked.antt =====
-- src/gui.rs: the account stays locked exactly while its request is under way, unless an event is lost.
use sysu_netauth.Common.{ℕ, ◌+◌, ◌≡◌, ◌⊎◌, ◌∙◌, true, false, List, [], ◌∷◌, arith, refl, inl, inr}
use sysu_netauth.Gui.{
  UiEvent, reply, snapshot, disconnected, Window, update_snapshot, on_event, on_events,
}
use sysu_netauth.Gui.System.{asked, is_connect_reply, answers_waiting}
use sysu_netauth.Gui.Waiting.{Keeps, locked, Unlocks, on_reply-cases, refresh_adapters-Keeps}

-- An answer to the request unlocks, another event keeps.
Cases : UiEvent → Window → Window → Type 0
Cases e w v =
    ((is_connect_reply e ≡ false) × Keeps w v) ⊎ ((is_connect_reply e ≡ true) × Unlocks w v)

on_event-Cases : (now : ℕ) (e : UiEvent) (w : Window) → Cases e w (on_event now e w)
unfolding on_event update_snapshot Cases
on_event-Cases now (reply id r) w = on_reply-cases id r w
on_event-Cases now (snapshot s) w =
    let k = refresh_adapters-Keeps s.adapters (record w { subscription_connected = true }) in
    inl (refl, record { account = k.account; requests = k.requests; replies = k.replies })
on_event-Cases now (disconnected e) w =
    inl (refl, record { account = refl; requests = refl; replies = refl })

-- Those that wait, `k` in work, those in `es` being handled, and `d` that were lost.
abbrev pub Accounted : ℕ → ℕ → List UiEvent → Window → Type 0
Accounted d k es w = asked w.tasks + k + answers_waiting es + d ≡ locked w

Cases-Accounted :
    (d k : ℕ) (e : UiEvent) (es : List UiEvent) (w v : Window)
    → Cases e w v
    → Accounted d k (e ∷ es) w
    → Accounted d k es v
unfolding Cases answers_waiting
Cases-Accounted d k e es w v (inl c) h =
    let a = c.1.account in let r = c.1.requests in ground (arith)
Cases-Accounted d k e es w v (inr c) h = let a = c.1 in ground (arith)

pub on_events-Accounted :
    (d k now : ℕ) (es : List UiEvent) (w : Window)
    → Accounted d k es w
    → Accounted d k [] (on_events now es w)
unfolding on_events
on_events-Accounted d k now [] w h = h
on_events-Accounted d k now (e ∷ es) w h =
    on_events-Accounted d k now es (on_event now e w)
      (Cases-Accounted d k e es w (on_event now e w) (on_event-Cases now e w) h)

Cases-events : (e : UiEvent) (w v : Window) → Cases e w v → v.events ≡ w.events
unfolding Cases
Cases-events e w v (inl c) = c.1.replies
Cases-events e w v (inr c) = c.1.2

pub on_events_events :
    (now : ℕ) (es : List UiEvent) (w : Window) → (on_events now es w).events ≡ w.events
unfolding on_events
on_events_events now [] w = refl
on_events_events now (e ∷ es) w =
    on_events_events now es (on_event now e w)
    ∙ Cases-events e w (on_event now e w) (on_event-Cases now e w)
