-- ===== src/Cli/Ended.antt =====
-- src/bin/cli.rs: an attempt ends.
use sysu_netauth.Common.{
  ℕ, zero, suc, ◌+◌, min, ◌≡◌, ◌≤◌, ◌⊎◌, true, false, Option, none, some, List, [], ◌∷◌, Result, ok,
  err, leb, ltb, ◌&&◌, is_none, is_some, length, if◌then◌else◌, arith, refl, inl, inr, Bool-cases,
}
use sysu_netauth.Engine.Types.{Event, from_secs}
use sysu_netauth.Cli.{
  Turn, Attempt, gives_up, After, going, continuing, done, Context, wait, received, on_event,
  start_again, restart, one_turn, turns, next_turn,
}
use sysu_netauth.Cli.Direct.{Account, Trial, fresh_attempt, context, attempt}
use sysu_netauth.Platform.{Adapter}
use sysu_netauth.Cli.Passes.{
  ended_at, OfAfter, IsTimed, count_after, received_count, Later, one_turn-Later,
}

-- After a pass without an event: the deadline is over, or a start was sent and a second less is left.
abbrev Ticks : Context → ℕ → ℕ → After → Type 0
Ticks c n now (done v) = Unit
Ticks c n now (going b) =
    (c.deadline ≤ now) ⊎ ((m : ℕ) × (n ≡ suc m) × (c.deadline ≤ b.next_start + from_secs m))
Ticks c n now (continuing b) =
    (c.deadline ≤ now) ⊎ ((m : ℕ) × (n ≡ suc m) × (c.deadline ≤ b.next_start + from_secs m))

-- Without an event the whole time is waited.
none-ended_at :
    (c : Context) (t : Turn) (a : Attempt)
    → received c t a ≡ none
    → min c.deadline (if is_none a.peer then a.next_start else c.deadline) ≤ ended_at c t a
unfolding received wait
none-ended_at c t a e = ground (arith)

start_again-Ticks :
    (c : Context) (n now : ℕ) (a : Attempt) (r : Result (Unit {0}))
    → c.deadline ≤ a.next_start + from_secs n
    → a.next_start ≤ now
    → Ticks c n now (start_again r now a)
start_again-Ticks c n now a (err e) h k = tt
start_again-Ticks c zero now a (ok u) h k = inl (omega (arith, h, k))
start_again-Ticks c (suc m) now a (ok u) h k = inr (m, refl, omega (arith, h, k))

restart-Ticks :
    (c : Context) (n : ℕ) (t : Turn) (a : Attempt)
    → c.deadline ≤ a.next_start + from_secs n
    → min c.deadline (if is_none a.peer then a.next_start else c.deadline) ≤ t.tested_at
    → t.tested_at ≤ t.restarted_at
    → Ticks c n t.restarted_at (restart t (going a))
unfolding restart
restart-Ticks c n t a h k l = elim (Bool-cases (is_none a.peer && leb a.next_start t.tested_at)) [
  | inl e ↦
      let s : a.next_start ≤ t.restarted_at = ground (arith) in
      simp e (start_again-Ticks c n t.restarted_at a t.restarts h s)
  | inr e ↦ let d : c.deadline ≤ t.restarted_at = ground (arith) in simp e (inl d)
]

one_turn-Ticks :
    (c : Context) (n : ℕ) (t : Turn) (a : Attempt)
    → received c t a ≡ none
    → c.deadline ≤ a.next_start + from_secs n
    → ended_at c t a ≤ t.tested_at
    → t.tested_at ≤ t.restarted_at
    → Ticks c n t.restarted_at (one_turn c t a)
unfolding one_turn on_event
one_turn-Ticks c n t a e h k l =
    let w = none-ended_at c t a e in
    let r = restart-Ticks c n t a h (omega (arith, w, k)) l in
    elim (Bool-cases (ltb t.started_at c.deadline)) [
      | inl p ↦ elim (Bool-cases t.interrupted) [
        | inl q ↦ simp (p, q) tt
        | inr q ↦ simp (p, q, e) r
      ]
      | inr p ↦ simp p tt
    ]

late_turn :
    (c : Context) (t : Turn) (a : Attempt)
    → c.deadline ≤ t.started_at
    → one_turn c t a ≡ done (gives_up "authentication timed out")
unfolding one_turn
late_turn c t a h = let e : ltb t.started_at c.deadline ≡ false = ground (arith) in simp e refl

late_some :
    (c : Context) (ts : List Turn) (now : ℕ) (a : Attempt)
    → IsTimed c ts now a
    → c.deadline ≤ now
    → 1 ≤ length ts
    → is_some (turns c ts a) ≡ true
unfolding turns IsTimed
late_some c [] now a i h l = absurd (omega (arith, l))
late_some c (t ∷ ts) now a i h l = let b = i.0 in simp (late_turn c t a (omega (arith, b, h))) refl

-- The rest of the passes after one that received an event, and after one that received none.
after_event :
    (c : Context) (n now : ℕ) (ts : List Turn) (a : Attempt) (r : After)
    → ((b : Attempt)
        → IsTimed c ts now b
        → c.deadline ≤ b.next_start + from_secs n
        → received_count c ts b + n + 2 ≤ length ts
        → is_some (turns c ts b) ≡ true)
    → Later a r
    → OfAfter (IsTimed c ts now) r
    → c.deadline ≤ a.next_start + from_secs n
    → count_after r (received_count c ts) + n + 2 ≤ length ts
    → is_some (next_turn r (turns c ts)) ≡ true
after_event c n now ts a (done v) f g i h l = refl
after_event c n now ts a (going b) f g i h l = f b i (omega (arith, g, h)) l
after_event c n now ts a (continuing b) f g i h l = f b i (omega (arith, g, h)) l

after_wait :
    (c : Context) (n now : ℕ) (ts : List Turn) (r : After)
    → ((m : ℕ) (b : Attempt)
        → IsTimed c ts now b
        → c.deadline ≤ b.next_start + from_secs m
        → received_count c ts b + m + 2 ≤ length ts
        → is_some (turns c ts b) ≡ true)
    → Ticks c n now r
    → OfAfter (IsTimed c ts now) r
    → count_after r (received_count c ts) + n + 2 ≤ suc (length ts)
    → is_some (next_turn r (turns c ts)) ≡ true
after_wait c n now ts (done v) f g i l = refl
after_wait c n now ts (going b) f g i l = elim g [
  | inl d ↦ late_some c ts now b i d (omega (arith, l))
  | inr d ↦ let e = d.1 in f d.0 b i d.2 (omega (arith, l, e))
]
after_wait c n now ts (continuing b) f g i l = elim g [
  | inl d ↦ late_some c ts now b i d (omega (arith, l))
  | inr d ↦ let e = d.1 in f d.0 b i d.2 (omega (arith, l, e))
]

turns_some :
    (c : Context) (ts : List Turn) (n now : ℕ) (a : Attempt)
    → IsTimed c ts now a
    → c.deadline ≤ a.next_start + from_secs n
    → received_count c ts a + n + 2 ≤ length ts
    → is_some (turns c ts a) ≡ true
unfolding turns IsTimed received_count
turns_some c [] n now a i h l = absurd (omega (arith, l))
turns_some c (t ∷ ts) n now a i h l = elim (Bool-cases (is_some (received c t a))) [
  | inl e ↦
      let m : count_after (one_turn c t a) (received_count c ts) + n + 2 ≤ length ts =
        ground (arith) in
      after_event c n t.restarted_at ts a (one_turn c t a) (λ b. turns_some c ts n t.restarted_at b)
        (one_turn-Later c t a i.3) i.4 h m
  | inr e ↦
      let m : count_after (one_turn c t a) (received_count c ts) + n + 2 ≤ suc (length ts) =
        ground (arith) in
      after_wait c n t.restarted_at ts (one_turn c t a) (λ m b. turns_some c ts m t.restarted_at b)
        (one_turn-Ticks c n t a (is_none_of (received c t a) e) h i.2 i.3) i.4 m
]
  where
    is_none_of : (o : Option Event) → is_some o ≡ false → o ≡ none
    is_none_of none e = refl
    is_none_of (some x) e = absurd (cc)

-- No wait of the attempt goes on past the deadline.
unfoldable pub InTime : Context → List Turn → Attempt → Type 0
InTime c [] a = Unit
InTime c (t ∷ ts) a =
    ((ended_at c t a ≤ c.deadline) ⊎ (ended_at c t a ≤ t.waited_at))
    × OfAfter (InTime c ts) (one_turn c t a)

ended_at_bound :
    (c : Context) (t : Turn) (a : Attempt)
    → (ended_at c t a ≤ c.deadline) ⊎ (ended_at c t a ≤ t.waited_at)
unfolding wait
ended_at_bound c t a = elim (Bool-cases (ltb t.waited_at c.deadline)) [
  | inl e ↦ inl (ground (arith))
  | inr e ↦ inr (ground (arith))
]

every-OfAfter : (P : Attempt → Type 0) (r : After) → ((b : Attempt) → P b) → OfAfter P r
every-OfAfter P (done v) f = tt
every-OfAfter P (going b) f = f b
every-OfAfter P (continuing b) f = f b

turns-InTime : (c : Context) (ts : List Turn) (a : Attempt) → InTime c ts a
unfolding InTime
turns-InTime c [] a = tt
turns-InTime c (t ∷ ts) a =
    (ended_at_bound c t a, every-OfAfter (InTime c ts) (one_turn c t a) (turns-InTime c ts))

-- With a clock that does not go back and waits that last until the event or the whole time, an attempt
-- ends after at most one pass for each event that it receives, one for each second of its time and two
-- more; and no wait of it lasts past the deadline, but for one that is over at once.
pub attempt_some :
    (u : Account) (a : Adapter) (index : ℕ) (t : Trial)
    → t.begins_at ≤ t.now
    → IsTimed (context u a index t.begins_at) t.passes t.now (fresh_attempt t.now)
    → received_count (context u a index t.begins_at) t.passes (fresh_attempt t.now) + u.seconds + 2
      ≤ length t.passes
    → (is_some (attempt u a index t) ≡ true)
      × InTime (context u a index t.begins_at) t.passes (fresh_attempt t.now)
unfolding attempt
attempt_some u a index t h i l =
    let c : Context = context u a index t.begins_at in
    let f : Attempt = fresh_attempt t.now in
    (turns_some c t.passes u.seconds t.now f i (omega (arith, h)) l, turns-InTime c t.passes f)
