-- ===== src/Cli/Passes.antt =====
-- src/bin/cli.rs: the clock of an attempt, the events that its passes receive, and its next start.
use sysu_netauth.Common.{
  ℕ, ◌+◌, min, ◌≡◌, ◌≤◌, Bool, true, false, Option, none, some, List, [], ◌∷◌, Result, ok, err, leb,
  ltb, ◌&&◌, is_none, is_some, if◌then◌else◌, ◌==◌, arith, refl, inl, inr, Bool-cases,
}
use sysu_netauth.Engine.Types.{
  Event, packet, capture_error, network_changed, power_changed, connectivity, update, call, stop,
}
use sysu_netauth.Protocol.{Packet, parse}
use sysu_netauth.Authentication.{
  Exchange, ignore, response, success, failure, receive, addressed_to,
}
use sysu_netauth.Cli.{
  Turn, Attempt, gives_up, found_server, connected, After, going, continuing, done, Context, wait,
  received, after_call, on_exchange, on_packet, on_event, start_again, restart, one_turn,
}

-- When the wait of a pass is over: with the event, or after the whole time.
abbrev pub ended_at : Context → Turn → Attempt → ℕ
ended_at c t a =
    let most = wait c a t.waited_at in
    t.waited_at + (if is_some t.queued then min t.delay most else most)

abbrev pub OfAfter : (Attempt → Type 0) → After → Type 0
OfAfter P (done v) = Unit
OfAfter P (going b) = P b
OfAfter P (continuing b) = P b

-- The clock does not go back: from the end of the last pass over the start, the wait and its end, the
-- test for another start and that start to the next pass.
unfoldable pub IsTimed : Context → List Turn → ℕ → Attempt → Type 0
IsTimed c [] now a = Unit
IsTimed c (t ∷ ts) now a =
    (now ≤ t.started_at)
    × (t.started_at ≤ t.waited_at)
    × (ended_at c t a ≤ t.tested_at)
    × (t.tested_at ≤ t.restarted_at)
    × OfAfter (IsTimed c ts t.restarted_at) (one_turn c t a)

abbrev pub count_after : After → (Attempt → ℕ) → ℕ
count_after (done v) rest = 0
count_after (going b) rest = rest b
count_after (continuing b) rest = rest b

-- How many passes receive an event before the attempt ends.
unfoldable pub received_count : Context → List Turn → Attempt → ℕ
received_count c [] a = 0
received_count c (t ∷ ts) a =
    (if is_some (received c t a) then 1 else 0) + count_after (one_turn c t a) (received_count c ts)

-- The next start moves only when a start is sent.
abbrev Keeps : Attempt → After → Type 0
Keeps a (done v) = Unit
Keeps a (going b) = b.next_start ≡ a.next_start
Keeps a (continuing b) = b.next_start ≡ a.next_start

if-Keeps :
    (a : Attempt) (b : Bool) (x y : After) → Keeps a x → Keeps a y → Keeps a (if b then x else y)
if-Keeps a true x y h k = h
if-Keeps a false x y h k = k

after_call-Keeps :
    (a b : Attempt) (r : Result (Unit {0})) → b.next_start ≡ a.next_start → Keeps a (after_call r b)
after_call-Keeps a b (ok u) h = h
after_call-Keeps a b (err e) h = tt

on_exchange-Keeps :
    (t : Turn) (a b : Attempt) (r : Result Exchange)
    → b.next_start ≡ a.next_start
    → Keeps a (on_exchange t b r)
unfolding on_exchange
on_exchange-Keeps t a b (err e) h = tt
on_exchange-Keeps t a b (ok ignore) h = h
on_exchange-Keeps t a b (ok (response bytes changed)) h = after_call-Keeps a b t.sends h
on_exchange-Keeps t a b (ok failure) h = tt
on_exchange-Keeps t a b (ok success) h =
    let n : Attempt = record b { eap_success = true; checking = true } in
    if-Keeps a b.eap_success (going b) (after_call t.probes n) h (after_call-Keeps a n t.probes h)

on_packet-Keeps :
    (c : Context) (t : Turn) (a : Attempt) (o : Option Packet) → Keeps a (on_packet c t a o)
unfolding on_packet
on_packet-Keeps c t a none = refl
on_packet-Keeps c t a (some p) =
    let r = receive c.md5 a.peer c.mac p c.username c.password a.eap_success in
    let b : Attempt = record a { peer = r.0 } in
    if-Keeps a (c.probe && (p.code == 1) && addressed_to p c.mac) (done (found_server p.source))
      (on_exchange t b r.1) tt (on_exchange-Keeps t a b r.1 refl)

on_event-Keeps :
    (c : Context) (t : Turn) (a : Attempt) (o : Option Event) → Keeps a (on_event c t a o)
unfolding on_event
on_event-Keeps c t a none = refl
on_event-Keeps c t a (some (packet g bytes)) =
    if-Keeps a (g == c.generation) (on_packet c t a (parse bytes)) (going a)
      (on_packet-Keeps c t a (parse bytes)) refl
on_event-Keeps c t a (some (connectivity g true)) =
    if-Keeps a (g == c.generation) (done connected) (going a) tt refl
on_event-Keeps c t a (some (connectivity g false)) =
    if-Keeps a (g == c.generation) (done (gives_up "EAP succeeded but Internet is unreachable"))
      (going a) tt refl
on_event-Keeps c t a (some (capture_error g e)) =
    if-Keeps a (g == c.generation) (done (gives_up e)) (going a) tt refl
on_event-Keeps c t a (some stop) = tt
on_event-Keeps c t a (some network_changed) = refl
on_event-Keeps c t a (some power_changed) = refl
on_event-Keeps c t a (some (update r)) = refl
on_event-Keeps c t a (some (call r)) = refl

-- The next start never moves back.
abbrev pub Later : Attempt → After → Type 0
Later a (done v) = Unit
Later a (going b) = a.next_start ≤ b.next_start
Later a (continuing b) = a.next_start ≤ b.next_start

start_again-Later :
    (a b : Attempt) (r : Result (Unit {0})) (now : ℕ)
    → a.next_start ≤ now
    → Later a (start_again r now b)
start_again-Later a b (err e) now h = tt
start_again-Later a b (ok u) now h = omega (arith, h)

restart-Later :
    (t : Turn) (a : Attempt) (r : After)
    → t.tested_at ≤ t.restarted_at
    → Keeps a r
    → Later a (restart t r)
unfolding restart
restart-Later t a (done v) h k = tt
restart-Later t a (continuing b) h k = omega (arith, k)
restart-Later t a (going b) h k =
    elim (Bool-cases (is_none b.peer && leb b.next_start t.tested_at)) [
      | inl e ↦
          let l : a.next_start ≤ t.restarted_at = ground (arith) in
          simp e (start_again-Later a b t.restarts t.restarted_at l)
      | inr e ↦ let l : a.next_start ≤ b.next_start = omega (arith, k) in simp e l
    ]

pub one_turn-Later :
    (c : Context) (t : Turn) (a : Attempt) → t.tested_at ≤ t.restarted_at → Later a (one_turn c t a)
unfolding one_turn
one_turn-Later c t a h =
    let r =
      restart-Later t a (on_event c t a (received c t a)) h
        (on_event-Keeps c t a (received c t a)) in
    elim (Bool-cases (ltb t.started_at c.deadline)) [
      | inl p ↦ elim (Bool-cases t.interrupted) [ inl q ↦ simp (p, q) tt | inr q ↦ simp (p, q) r ]
      | inr p ↦ simp p tt
    ]
