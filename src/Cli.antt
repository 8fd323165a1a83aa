-- ===== src/Cli.antt =====
-- src/bin/cli.rs: the direct authentication of the command line, without the service. A turn is one
-- pass of the loop: the clock, the next event of the queue and after how long it is there, and what
-- sending and starting come to.
pub mod Accepted
pub mod Connected
pub mod Direct
pub mod Ended
pub mod Passes
use text.Mathlib.Text.{◌==◌ as str_eq}
use sysu_netauth.Common.{
  ℕ, zero, suc, ◌+◌, ◌-◌, min, Bool, true, false, not, ◌&&◌, ◌||◌, Option, none, some, List, [],
  ◌∷◌, ltb, leb, ◌==◌, if◌then◌else◌, is_none, is_empty, filter, Result, ok, err, ◌>>=◌, ◌>>◌,
  ensure, String,
}
use sysu_netauth.Engine.Types.{Event, packet, capture_error, connectivity, stop, from_secs}
use sysu_netauth.Platform.{Adapter, candidate}
use sysu_netauth.Protocol.{Packet, Md5, Encoder, parse, gbk}
use sysu_netauth.Authentication.{
  Exchange, ignore, response, success, failure, addressed_to, receive,
}

pub record Turn : Type 0 where
  pub started_at : ℕ
  pub interrupted : Bool
  pub waited_at : ℕ
  pub delay : ℕ
  pub queued : Option Event
  pub sends : Result (Unit {0})
  pub probes : Result (Unit {0})
  pub tested_at : ℕ
  pub restarts : Result (Unit {0})
  pub restarted_at : ℕ

-- The variables of the loop.
pub record Attempt : Type 0 where
  pub peer : Option (List ℕ)
  pub eap_success : Bool
  pub checking : Bool
  pub next_start : ℕ

-- How the loop ends: connected, a server found, an error returned, or the next adapter.
pub data Verdict : Type 0 where
  connected : Verdict
  found_server : List ℕ → Verdict
  fails : String → Verdict
  gives_up : String → Verdict

-- After an event the loop goes on, with the test for another start or past it, or ends.
pub data After : Type 0 where
  going : Attempt → After
  continuing : Attempt → After
  done : Verdict → After

pub record Context : Type 0 where
  pub md5 : Md5
  pub mac : List ℕ
  pub username : List ℕ
  pub password : List ℕ
  pub probe : Bool
  pub generation : ℕ
  pub deadline : ℕ

-- Until the next start while no server was heard, and never past the deadline.
unfoldable pub wait : Context → Attempt → ℕ → ℕ
wait c a now = min c.deadline (if is_none a.peer then a.next_start else c.deadline) - now

-- `recv_timeout`: the event, if it is there in time.
unfoldable pub received : Context → Turn → Attempt → Option Event
received c t a = if leb t.delay (wait c a t.waited_at) then t.queued else none

abbrev pub after_call : Result (Unit {0}) → Attempt → After
after_call (ok u) a = going a
after_call (err e) a = done (fails e)

unfoldable pub on_exchange : Turn → Attempt → Result Exchange → After
on_exchange t a (err e) = done (fails e)
on_exchange t a (ok ignore) = going a
on_exchange t a (ok (response bytes changed)) = after_call t.sends a
on_exchange t a (ok failure) = done (gives_up "EAP authentication rejected")
on_exchange t a (ok success) =
    if a.eap_success
    then going a
    else after_call t.probes (record a { eap_success = true; checking = true })

unfoldable pub on_packet : Context → Turn → Attempt → Option Packet → After
on_packet c t a none = continuing a
on_packet c t a (some p) =
    let r = receive c.md5 a.peer c.mac p c.username c.password a.eap_success in
    if c.probe && (p.code == 1) && addressed_to p c.mac
    then done (found_server p.source)
    else on_exchange t (record a { peer = r.0 }) r.1

unfoldable pub on_event : Context → Turn → Attempt → Option Event → After
on_event c t a none = going a
on_event c t a (some (packet g bytes)) =
    if g == c.generation then on_packet c t a (parse bytes) else going a
on_event c t a (some (connectivity g reachable)) =
    if g == c.generation
    then (if reachable
        then done connected
        else done (gives_up "EAP succeeded but Internet is unreachable"))
    else going a
on_event c t a (some (capture_error g e)) = if g == c.generation then done (gives_up e) else going a
on_event c t a (some stop) = done (fails "interrupted")
on_event c t a (some other) = going a

-- Another start while no server was heard.
abbrev pub start_again : Result (Unit {0}) → ℕ → Attempt → After
start_again (err e) now a = done (fails e)
start_again (ok u) now a = continuing (record a { next_start = now + from_secs 1 })

unfoldable pub restart : Turn → After → After
restart t (done v) = done v
restart t (continuing a) = continuing a
restart t (going a) =
    if is_none a.peer && leb a.next_start t.tested_at
    then start_again t.restarts t.restarted_at a
    else continuing a

unfoldable pub one_turn : Context → Turn → Attempt → After
one_turn c t a =
    if not (ltb t.started_at c.deadline)
    then done (gives_up "authentication timed out")
    else if t.interrupted
    then done (fails "interrupted")
    else restart t (on_event c t a (received c t a))

-- No verdict while the turns are used up before the loop ends.
abbrev pub next_turn : After → (Attempt → Option Verdict) → Option Verdict
next_turn (done v) go_on = some v
next_turn (going a) go_on = go_on a
next_turn (continuing a) go_on = go_on a

unfoldable pub turns : Context → List Turn → Attempt → Option Verdict
turns c [] a = none
turns c (t ∷ ts) a = next_turn (one_turn c t a) (turns c ts)

-- The candidates that the user's choice of an interface leaves.
abbrev pub is_chosen : Option String → Adapter → Bool
is_chosen none a = true
is_chosen (some name) a = str_eq a.name name || str_eq a.id name

unfoldable pub chosen : Option String → List Adapter → List Adapter
chosen iface = filter (λ a. candidate a && is_chosen iface a)
