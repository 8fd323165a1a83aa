-- ===== src/Gui/Runs.antt =====
-- src/gui.rs: all runs of the window and its threads.
use sysu_netauth.Common.{
  ℕ, ◌-◌, ◌+◌, if◌then◌else◌, ◌≡◌, ◌≤◌, ◌<◌, Bool, true, false, Option, none, some, List, [], ◌∷◌,
  length, is_some, arith, refl, ap, inl, inr,
}
use sysu_netauth.Protocol.{Encoder}
use sysu_netauth.Gui.{
  Task, UiEvent, reply, snapshot, disconnected, Window, event_limit, task, post, may_connect,
  connect_command, change_preference, other_command, manual_command, events,
}
use sysu_netauth.Gui.System.{
  System, with_event, Step, edit, switch, connects, changes, asks, handles, takes, replies, updates,
  drops, Reach, here, next, one_if, asked, is_connect_reply, answers_waiting, in_work, under_way,
}
use sysu_netauth.Gui.Waiting.{
  Keeps, locked, Locks, connect_command-cases, change_preference-Keeps, task-Keeps,
  answers_waiting-post, answers_waiting-post_room,
}
use sysu_netauth.Gui.Locked.{on_events-Accounted, on_events_events}

-- The lock counts the requests under way and those that were lost.
abbrev pub Lacks : ℕ → System → Type 0
Lacks d s = under_way s + d ≡ locked s.window

-- A step loses no more than it did, and nothing while the queue has room.
abbrev pub Onward : ℕ → System → System → Type 0
Onward d s t = (n : ℕ) × (d ≤ n) × Lacks n t × (length s.window.events < event_limit → n ≡ d)

Keeps-Onward :
    (d : ℕ) (s : System) (v : Window)
    → Keeps s.window v
    → Lacks d s
    → Onward d s (record s { window = v })
unfolding under_way
Keeps-Onward d s v k h =
    let a = k.account in
    let r = k.requests in
    let e = ap answers_waiting k.replies in
    let b = ap one_if a in (d, omega arith, omega (arith, r, e, b, h), λ q. refl)

Locks-Onward :
    (d : ℕ) (s : System) (v : Window)
    → Locks s.window v
    → Lacks d s
    → Onward d s (record s { window = v })
unfolding under_way
Locks-Onward d s v k h =
    let a = ap one_if k.0 in
    let b = ap one_if k.1 in
    let e = ap answers_waiting k.3 in (d, omega arith, omega (arith, a, b, k.2, e, h), λ q. refl)

post-Onward :
    (d : ℕ) (s : System) (e : UiEvent) (w : Option Task)
    → one_if (is_connect_reply e) + in_work w ≡ in_work s.working
    → Lacks d s
    → Onward d s (record s { window = with_event e s.window; working = w })
unfolding under_way
post-Onward d s e w k h =
    let q : List UiEvent = s.window.events in
    let p = answers_waiting-post e q in
    (
      d + (answers_waiting q + one_if (is_connect_reply e) - answers_waiting (post e q)),
      omega arith,
      omega (arith, p, k, h),
      λ r. omega (arith, answers_waiting-post_room e q r),
    )

events-Onward :
    (d : ℕ) (s : System) (now : ℕ)
    → Lacks d s
    → Onward d s (record s { window = events now s.window })
unfolding under_way events answers_waiting
events-Onward d s now h =
    let w : Window = record s.window { events = [] } in
    let a = on_events-Accounted d (in_work s.working) now s.window.events w (omega (arith, h)) in
    let b = ap answers_waiting (on_events_events now s.window.events w) in
    (d, omega arith, omega (arith, a, b), λ q. refl)

takes-Onward :
    (d : ℕ) (s : System) (t : Task) (ts : List Task)
    → s.working ≡ none
    → s.window.tasks ≡ t ∷ ts
    → Lacks d s
    → Onward d s (record s { window = record s.window { tasks = ts }; working = some t })
unfolding under_way asked
takes-Onward d s t ts n e h =
    let a = ap in_work n in
    let b = ap asked e in (d, omega arith, omega (arith, a, b, h), λ q. refl)

Step-Onward : (encode : Encoder) (d : ℕ) {s t : System} → Step encode s t → Lacks d s → Onward d s t
unfolding manual_command other_command
Step-Onward encode d (edit s f) h =
    Keeps-Onward d s (record s.window { form = f })
      (record { account = refl; requests = refl; replies = refl }) h
Step-Onward encode d (switch s m) h =
    Keeps-Onward d s (manual_command m s.window)
      (record { account = refl; requests = refl; replies = refl }) h
Step-Onward encode d (connects s) h = elim (connect_command-cases encode s.window) [
  | inl k ↦ Keeps-Onward d s (connect_command encode s.window) k h
  | inr k ↦ Locks-Onward d s (connect_command encode s.window) k h
]
Step-Onward encode d (changes s p) h =
    Keeps-Onward d s (change_preference p s.window) (change_preference-Keeps p s.window) h
Step-Onward encode d (asks s t e) h =
    Keeps-Onward d s (task t s.window).0 (task-Keeps t s.window e) h
Step-Onward encode d (handles s now) h = events-Onward d s now h
Step-Onward encode d (takes s t ts n e) h = takes-Onward d s t ts n e h
Step-Onward encode d (replies s t r e) h =
    let w = ap in_work e in post-Onward d s (reply t.id r) none (omega (arith, w)) h
Step-Onward encode d (updates s n) h = post-Onward d s (snapshot n) s.working (omega arith) h
Step-Onward encode d (drops s e) h = post-Onward d s (disconnected e) s.working (omega arith) h

-- A run in which the queue of events is never full before a step.
pub data Calm (encode : Encoder) (s : System) : System → Type 0 where
  calm : Calm encode s s
  after :
      {t u : System}
      → Calm encode s t
      → length t.window.events < event_limit
      → Step encode t u
      → Calm encode s u

Calm-Lacks : (encode : Encoder) (d : ℕ) {s t : System} → Lacks d s → Calm encode s t → Lacks d t
Calm-Lacks encode d h calm = h
Calm-Lacks encode d h (after r l p) =
    let i = Step-Onward encode d p (Calm-Lacks encode d h r) in
    let e = i.3 l in omega (arith, e, i.2)

Reach-Onward :
    (encode : Encoder) (d : ℕ) {s t : System}
    → Lacks d s
    → Reach encode s t
    → (n : ℕ) × (d ≤ n) × Lacks n t
Reach-Onward encode d h here = (d, omega arith, h)
Reach-Onward encode d h (next r p) =
    let i = Reach-Onward encode d h r in
    let j = Step-Onward encode i.0 p i.2 in (j.0, omega (arith, i.1, j.1), j.2)

-- A window that waits for nothing.
pub record IsIdle (s : System) : Type 0 where
  pub account : is_some s.window.previous_account ≡ false
  pub nothing : under_way s ≡ 0

one_lost : (b : Bool) (n d : ℕ) → 1 ≤ d → n + d ≡ one_if b → (b ≡ true) × (n ≡ 0)
one_lost true n d h e = (refl, omega (arith, h, e))
one_lost false n d h e = absurd (omega (arith, h, e))

-- From an idle window on, while the queue of window events is never full before a step, the account is
-- locked exactly while one request to connect, or the reply to it, is under way.
pub Calm-under_way :
    (encode : Encoder) (s t : System)
    → IsIdle s
    → Calm encode s t
    → under_way t ≡ (if is_some t.window.previous_account then 1 else 0)
Calm-under_way encode s t i r =
    let a = ap one_if i.account in
    let h : Lacks 0 s = omega (arith, a, i.nothing) in
    let k = Calm-Lacks encode 0 h r in ground (arith)

-- Once the reply to a request to connect was lost, the account stays locked for ever: no run brings
-- the window back to where it could connect.
pub Reach-may_connect :
    (encode : Encoder) (s t : System)
    → is_some s.window.previous_account ≡ true
    → under_way s ≡ 0
    → Reach encode s t
    → (is_some t.window.previous_account ≡ true)
      × (under_way t ≡ 0)
      × (may_connect t.window ≡ false)
unfolding may_connect
Reach-may_connect encode s t l u r =
    let a = ap one_if l in
    let i = Reach-Onward encode 1 (omega (arith, a, u)) r in
    let k = one_lost (is_some t.window.previous_account) (under_way t) i.0 i.1 i.2 in
    let b : is_some t.window.previous_account ≡ true = k.0 in (b, k.1, ground (arith))
