-- ===== src/Notifications/Once.antt =====
-- src/notify.rs: the outage timer is set so that the warning is due when it fires, and an update is
-- shown once.
use text.Mathlib.TextEquality.{eq_iff}
use sysu_netauth.Common.{
  ℕ, ◌+◌, ◌-◌, ◌*◌, ◌≡◌, ◌≤◌, ◌⊎◌, ◌≢◌, Bool, true, false, ◌&&◌, ◌||◌, Option, none, some, List, [],
  ◌∷◌, ◌++◌, leb, if◌then◌else◌, is_some, String, le→leb, arith, refl, sym, subst, inl, inr,
  Bool-cases,
}
use sysu_netauth.Engine.Types.{Snapshot}
use sysu_netauth.Update.{Update, announcement}
use sysu_netauth.Notifications.{
  Notice, disconnected, message, Outage, StateNotifications, poll, poll_outage, observe, deadline,
  outage_delay,
}
use sysu_netauth.Notifications.Agent.{
  Event, status, unavailable, Shell, Turn, Balloon, Agent, Desk, remove_icon, submit, try_submit,
  show, until, schedule, show_notice, stored, update_was_notified, announce, may_announce,
  announce_update, with_request, handle_status, handle, receive,
}

deadline_due :
    (n : StateNotifications) (o : Outage)
    → n.outage ≡ some o
    → o.warned ≡ false
    → deadline true n ≡ some (o.since + outage_delay)
unfolding deadline
deadline_due n o p w = ground (arith)

-- While the assistant is connected, notifications are on and an outage that began no later than now was
-- not yet warned of, a timer is set, and a poll at its end or later gives the warning.
pub schedule-poll :
    (a : Agent) (o : Outage) (now later : ℕ)
    → a.connected ≡ true
    → a.enabled ≡ true
    → a.notices.outage ≡ some o
    → o.warned ≡ false
    → o.since ≤ now
    → (ms : ℕ) × ((schedule now a).timer ≡ some ms)
      × (now + ms * 1_000_000 ≤ later → (poll true later a.notices).1 ≡ some disconnected)
unfolding schedule poll poll_outage
schedule-poll a o now later c e p w s = (
  until (o.since + outage_delay) now,
  simp (c, e, deadline_due a.notices o p w) refl,
  λ h.
      let d : outage_delay ≤ later - o.since = omega (arith, h, s) in
      let l : leb outage_delay (later - o.since) ≡ true = le→leb outage_delay (later - o.since) d in
      simp (p, w, l) refl,
)

abbrev is_update : Balloon → Bool
is_update b = is_some b.url

unfoldable pub updates_shown : List Balloon → ℕ
updates_shown [] = 0
updates_shown (b ∷ bs) = (if is_update b then 1 else 0) + updates_shown bs

updates_shown-append :
    (xs ys : List Balloon) → updates_shown (xs ++ ys) ≡ updates_shown xs + updates_shown ys
unfolding updates_shown
updates_shown-append [] ys = omega arith
updates_shown-append (x ∷ xs) ys = omega (arith, updates_shown-append xs ys)

-- What showing a balloon does to the count.
abbrev Shown : Option String → Agent → Agent × Bool → Type 0
Shown u a r =
    updates_shown r.0.submitted ≡ updates_shown a.submitted + (if r.1 && is_some u then 1 else 0)

submit-Shown : (m : Bool) (b : Balloon) (a : Agent) → Shown b.url a (submit m b a)
unfolding updates_shown remove_icon
submit-Shown false b a = omega arith
submit-Shown true b a = ground (arith, updates_shown-append a.submitted (b ∷ []))

try_submit-Shown :
    (added m : Bool) (b : Balloon) (a : Agent) → Shown b.url a (try_submit added m b a)
try_submit-Shown false m b a = omega arith
try_submit-Shown true m b a = submit-Shown m b a

show-Shown : (s : Shell) (t x : String) (u : Option String) (a : Agent) → Shown u a (show s t x u a)
unfolding show
show-Shown s t x u a =
    let c : Agent = record a { update_url = u; icon_added = a.icon_added || s.adds } in
    try_submit-Shown (a.icon_added || s.adds) s.modifies (record { title = t; body = x; url = u }) c

-- At most so many updates were shown before, and one more only for the stored version.
abbrev AtMost : ℕ → String → Desk → Type 0
AtMost n v d =
    (updates_shown d.agent.submitted ≤ n)
    ⊎ ((updates_shown d.agent.submitted ≤ n + 1) × (d.file ≡ some v))

show_notice-AtMost :
    (n : ℕ) (v : String) (s : Shell) (o : Option Notice) (x : String) (a : Agent)
    (file : Option String)
    → AtMost n v (record { agent = a; file = file })
    → AtMost n v (record { agent = show_notice s o x a; file = file })
show_notice-AtMost n v s none x a file h = h
show_notice-AtMost n v s (some o) x a file h =
    let c = show-Shown s "SYSU NetAuth" (message o x) none a in ground (arith)

stored_none : (o : Option String) (v : String) → stored o v ≡ false → o ≢ some v
stored_none none v e p = cc
stored_none (some w) v e p = let g : w ≡ v = cc in let h = (eq_iff w v).1 g in cc

announce-AtMost :
    (n : ℕ) (t : Turn) (u : Update) (o : Option String) (d : Desk)
    → t.writes ≡ true
    → stored d.file u.latest_version ≡ false
    → AtMost n u.latest_version d
    → AtMost n u.latest_version (announce t u o d)
announce-AtMost n t u none d w e h = h
announce-AtMost n t u (some text) d w e h =
    let c = show-Shown t.update_shell "SYSU NetAuth 更新" text (some u.release_url) d.agent in
    let q = stored_none d.file u.latest_version e in ground (arith)

may_announce-stored :
    (t : Turn) (s : Snapshot) (file : Option String)
    → t.reads ≡ true
    → may_announce t s file ≡ true
    → stored file s.update.latest_version ≡ false
unfolding may_announce update_was_notified
may_announce-stored t s file g m = ground (arith)

announce_update-AtMost :
    (n : ℕ) (t : Turn) (s : Snapshot) (v : String) (d : Desk)
    → t.reads ≡ true
    → t.writes ≡ true
    → s.update.latest_version ≡ v
    → AtMost n v d
    → AtMost n v (announce_update t s d)
unfolding announce_update
announce_update-AtMost n t s v d g w e h =
    let l : String = s.update.latest_version in
    let x : Desk = announce t s.update (announcement s.update) d in
    let k : AtMost n l d = subst (λ u. AtMost n u d) (sym e) h in
    subst (λ u. AtMost n u (if may_announce t s d.file then x else d)) e
      (elim (Bool-cases (may_announce t s d.file)) [
        | inl m ↦
            subst (λ b. AtMost n l (if b then x else d)) (sym m)
              (announce-AtMost n t s.update (announcement s.update) d w
                (may_announce-stored t s d.file g m) k)
        | inr m ↦ subst (λ b. AtMost n l (if b then x else d)) (sym m) k
      ])

schedule-AtMost :
    (n : ℕ) (v : String) (now : ℕ) (a : Agent) (file : Option String)
    → AtMost n v (record { agent = a; file = file })
    → AtMost n v (record { agent = schedule now a; file = file })
unfolding schedule
schedule-AtMost n v now a file h = h

-- The version on offer does not change, and the file can be read and written.
abbrev pub SameUpdate : String → Turn × Event → Type 0
SameUpdate v (t, status s enabled) =
    (t.reads ≡ true) × (t.writes ≡ true) × (s.update.latest_version ≡ v)
SameUpdate v (t, unavailable) = Unit

unfoldable pub AllSame : String → List (Turn × Event) → Type 0
AllSame v [] = Unit
AllSame v (e ∷ es) = SameUpdate v e × AllSame v es

handle-AtMost :
    (n : ℕ) (v : String) (t : Turn) (e : Event) (d : Desk)
    → SameUpdate v (t, e)
    → AtMost n v d
    → AtMost n v (handle t e d)
unfolding handle handle_status with_request
handle-AtMost n v t unavailable d q h =
    schedule-AtMost n v t.scheduled_at
      (record (d.agent) { connection_request = none; connected = false }) d.file h
handle-AtMost n v t (status s enabled) d q h =
    let b : Agent = with_request s enabled d.agent in
    let r = observe s.state (s.suspended || s.manual_disconnect) enabled t.observed_at b.notices in
    let c : Agent = record b { notices = r.0 } in
    let x : Agent = show_notice t.notice_shell r.1 s.message c in
    announce_update-AtMost n t s v (record { agent = schedule t.scheduled_at x; file = d.file }) q.0
      q.1 q.2
      (schedule-AtMost n v t.scheduled_at x d.file
        (show_notice-AtMost n v t.notice_shell r.1 s.message c d.file h))

receive-AtMost :
    (n : ℕ) (v : String) (es : List (Turn × Event)) (d : Desk)
    → AllSame v es
    → AtMost n v d
    → AtMost n v (receive es d)
unfolding receive AllSame
receive-AtMost n v [] d q h = h
receive-AtMost n v ((t, e) ∷ es) d q h =
    receive-AtMost n v es (handle t e d) q.1 (handle-AtMost n v t e d q.0 h)

-- While every status offers the same version and the assistant's file can be read and written, any
-- number of events shows at most one update more.
pub receive_once :
    (v : String) (es : List (Turn × Event)) (d : Desk)
    → AllSame v es
    → updates_shown (receive es d).agent.submitted ≤ updates_shown d.agent.submitted + 1
receive_once v es d q =
    elim (receive-AtMost (updates_shown d.agent.submitted) v es d q (inl (omega arith))) [
      | inl h ↦ omega (arith, h)
      | inr h ↦ omega (arith, h.0)
    ]
