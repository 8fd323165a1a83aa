-- ===== src/Cli/Accepted.antt =====
-- src/bin/cli.rs: what a success of the command line stands on.
use sysu_netauth.Common.{
  ℕ, ◌≡◌, ◌⊎◌, Bool, true, false, not, ◌&&◌, Option, none, some, List, [], ◌∷◌, Result, ok, err,
  ltb, leb, ◌==◌, if◌then◌else◌, arith, refl, inl, inr, is_none, subst, ==_iff,
}
use sysu_netauth.Engine.Types.{
  Event, packet, capture_error, network_changed, power_changed, connectivity, update, call, stop,
}
use sysu_netauth.Protocol.{Packet, parse, answer, Md5, pae}
use sysu_netauth.Authentication.{
  Exchange, ignore, response, success, failure, addressed_to, receive, code_arm, request_arm,
  peer_changed,
}
use sysu_netauth.Authentication.Pinning.{receive-Passes}
use sysu_netauth.Cli.{
  Turn, Attempt, connected, found_server, fails, gives_up, received, After, going, continuing, done,
  Context, after_call, on_exchange, on_packet, on_event, start_again, restart, one_turn, turns,
  next_turn,
}

-- A pass that receives a success of the handshake on the adapter's own session, addressed to the
-- adapter or to the PAE group.
pub record HeardAt (c : Context) (t : Turn) : Type 0 where
  pub bytes : List ℕ
  pub heard : Packet
  pub during : Attempt
  pub arrived : received c t during ≡ some (packet c.generation bytes)
  pub parses : parse bytes ≡ some heard
  pub addressed : addressed_to heard c.mac ≡ true
  pub accepts : heard.code ≡ 3

unfoldable pub Heard : Context → List Turn → Type 0
Heard c [] = ⊥
Heard c (t ∷ ts) = HeardAt c t ⊎ Heard c ts

abbrev Good : Context → Turn → Attempt → After → Type 0
Good c t a (done connected) = received c t a ≡ some (connectivity c.generation true)
Good c t a (done (found_server m)) = Unit
Good c t a (done (fails e)) = Unit
Good c t a (done (gives_up e)) = Unit
Good c t a (going b) = (b.checking ≡ a.checking) ⊎ HeardAt c t
Good c t a (continuing b) = (b.checking ≡ a.checking) ⊎ HeardAt c t

if-Good :
    (c : Context) (t : Turn) (a : Attempt) (b : Bool) (x y : After)
    → (b ≡ true → Good c t a x)
    → Good c t a y
    → Good c t a (if b then x else y)
if-Good c t a true x y h k = h refl
if-Good c t a false x y h k = k

start_again-Good :
    (c : Context) (t : Turn) (a b : Attempt) (r : Result (Unit {0})) (now : ℕ)
    → Good c t a (going b)
    → Good c t a (start_again r now b)
start_again-Good c t a b (err e) now g = tt
start_again-Good c t a b (ok u) now g = g

restart-Good :
    (c : Context) (t : Turn) (a : Attempt) (r : After) → Good c t a r → Good c t a (restart t r)
unfolding restart
restart-Good c t a (done v) g = g
restart-Good c t a (continuing b) g = g
restart-Good c t a (going b) g =
    if-Good c t a (is_none b.peer && leb b.next_start t.tested_at)
      (start_again t.restarts t.restarted_at b) (continuing b)
      (λ h. start_again-Good c t a b t.restarts t.restarted_at g) g

after_call-Good :
    (c : Context) (t : Turn) (a b : Attempt) (r : Result (Unit {0}))
    → Good c t a (going b)
    → Good c t a (after_call r b)
after_call-Good c t a b (ok u) g = g
after_call-Good c t a b (err e) g = tt

on_exchange-Good :
    (c : Context) (t : Turn) (a b : Attempt) (r : Result Exchange)
    → b.checking ≡ a.checking
    → (r ≡ ok success → HeardAt c t)
    → Good c t a (on_exchange t b r)
unfolding on_exchange
on_exchange-Good c t a b (err e) g h = tt
on_exchange-Good c t a b (ok ignore) g h = inl g
on_exchange-Good c t a b (ok (response bytes changed)) g h = after_call-Good c t a b t.sends (inl g)
on_exchange-Good c t a b (ok failure) g h = tt
on_exchange-Good c t a b (ok success) g h =
    let n : Attempt = record b { eap_success = true; checking = true } in
    if-Good c t a b.eap_success (going b) (after_call t.probes n) (λ e. inl g)
      (after_call-Good c t a n t.probes (inr (h refl)))

code_arm_success :
    (peer : Option (List ℕ)) (p : Packet) (changed : Bool) (reply : Result (Option (List ℕ)))
    → (code_arm peer p changed reply).1 ≡ ok success
    → p.code ≡ 3
unfolding code_arm request_arm
code_arm_success peer p changed (err e) h = ground (arith)
code_arm_success peer p changed (ok none) h = ground (arith)
code_arm_success peer p changed (ok (some bytes)) h = ground (arith)

receive_success :
    (md5 : Md5) (peer : Option (List ℕ)) (local : List ℕ) (p : Packet) (user secret : List ℕ)
    (online : Bool)
    → (receive md5 peer local p user secret online).1 ≡ ok success
    → (addressed_to p local ≡ true) × (p.code ≡ 3)
receive_success md5 peer local p user secret online h =
    let reply = answer md5 local (if online then pae else p.source) p user secret in
    ground (
      arith,
      receive-Passes md5 peer local p user secret online,
      code_arm_success peer p (peer_changed peer p) reply,
    )

on_packet-Good :
    (c : Context) (t : Turn) (a : Attempt) (bytes : List ℕ) (o : Option Packet)
    → received c t a ≡ some (packet c.generation bytes)
    → parse bytes ≡ o
    → Good c t a (on_packet c t a o)
unfolding on_packet
on_packet-Good c t a bytes none q e = inl refl
on_packet-Good c t a bytes (some p) q e =
    let r = receive c.md5 a.peer c.mac p c.username c.password a.eap_success in
    let b : Attempt = record a { peer = r.0 } in
    if-Good c t a (c.probe && (p.code == 1) && addressed_to p c.mac) (done (found_server p.source))
      (on_exchange t b r.1) (λ h. tt)
      (on_exchange-Good c t a b r.1 refl (λ h.
        let k = receive_success c.md5 a.peer c.mac p c.username c.password a.eap_success h in
        record {
          bytes = bytes;
          heard = p;
          during = a;
          arrived = q;
          parses = e;
          addressed = k.0;
          accepts = k.1;
        }))

reached :
    (c : Context) (t : Turn) (a : Attempt) (g : ℕ) (b : Bool)
    → received c t a ≡ some (connectivity g b)
    → (g == c.generation) ≡ true
    → Good c t a
        (if b then done connected else done (gives_up "EAP succeeded but Internet is unreachable"))
reached c t a g true q e =
    subst (λ n. received c t a ≡ some (connectivity n true)) ((==_iff g c.generation).0 e) q
reached c t a g false q e = tt

on_event-Good :
    (c : Context) (t : Turn) (a : Attempt) (o : Option Event)
    → received c t a ≡ o
    → Good c t a (on_event c t a o)
unfolding on_event
on_event-Good c t a none q = inl refl
on_event-Good c t a (some (packet g bytes)) q =
    if-Good c t a (g == c.generation) (on_packet c t a (parse bytes)) (going a)
      (λ e.
        on_packet-Good c t a bytes (parse bytes)
          (subst (λ n. received c t a ≡ some (packet n bytes)) ((==_iff g c.generation).0 e) q)
          refl)
      (inl refl)
on_event-Good c t a (some (connectivity g b)) q =
    if-Good c t a (g == c.generation)
      (if b then done connected else done (gives_up "EAP succeeded but Internet is unreachable"))
      (going a) (reached c t a g b q) (inl refl)
on_event-Good c t a (some (capture_error g e)) q =
    if-Good c t a (g == c.generation) (done (gives_up e)) (going a) (λ h. tt) (inl refl)
on_event-Good c t a (some stop) q = tt
on_event-Good c t a (some network_changed) q = inl refl
on_event-Good c t a (some power_changed) q = inl refl
on_event-Good c t a (some (update r)) q = inl refl
on_event-Good c t a (some (call r)) q = inl refl

one_turn-Good : (c : Context) (t : Turn) (a : Attempt) → Good c t a (one_turn c t a)
unfolding one_turn
one_turn-Good c t a =
    if-Good c t a (not (ltb t.started_at c.deadline)) (done (gives_up "authentication timed out"))
      (if t.interrupted
        then done (fails "interrupted")
        else restart t (on_event c t a (received c t a)))
      (λ h. tt)
      (if-Good c t a t.interrupted (done (fails "interrupted"))
        (restart t (on_event c t a (received c t a))) (λ h. tt)
        (restart-Good c t a (on_event c t a (received c t a))
          (on_event-Good c t a (received c t a) refl)))

-- An answer of the reachability check comes only while one was started on this session.
abbrev HonestAfter : (Attempt → Type 0) → After → Type 0
HonestAfter P (done v) = Unit
HonestAfter P (going b) = P b
HonestAfter P (continuing b) = P b

unfoldable pub Honest : Context → List Turn → Attempt → Type 0
Honest c [] a = Unit
Honest c (t ∷ ts) a =
    (received c t a ≡ some (connectivity c.generation true) → a.checking ≡ true)
    × HonestAfter (Honest c ts) (one_turn c t a)

unroll :
    (c : Context) (t : Turn) (ts : List Turn) (a : Attempt) (r : After)
    → Good c t a r
    → (received c t a ≡ some (connectivity c.generation true) → a.checking ≡ true)
    → HonestAfter (Honest c ts) r
    → ((b : Attempt)
        → Honest c ts b
        → turns c ts b ≡ some connected
        → (b.checking ≡ true) ⊎ Heard c ts)
    → next_turn r (turns c ts) ≡ some connected
    → (a.checking ≡ true) ⊎ Heard c (t ∷ ts)
unfolding Heard
unroll c t ts a (done connected) g h k i e = inl (h g)
unroll c t ts a (done (found_server m)) g h k i e = absurd (cc)
unroll c t ts a (done (fails x)) g h k i e = absurd (cc)
unroll c t ts a (done (gives_up x)) g h k i e = absurd (cc)
unroll c t ts a (going b) g h k i e = elim (i b k e) [
  | inl p ↦ elim g [ inl q ↦ inl (cc) | inr q ↦ inr (inl q) ]
  | inr p ↦ inr (inr p)
]
unroll c t ts a (continuing b) g h k i e = elim (i b k e) [
  | inl p ↦ elim g [ inl q ↦ inl (cc) | inr q ↦ inr (inl q) ]
  | inr p ↦ inr (inr p)
]

pub turns-Heard :
    (c : Context) (ts : List Turn) (a : Attempt)
    → Honest c ts a
    → turns c ts a ≡ some connected
    → (a.checking ≡ true) ⊎ Heard c ts
unfolding turns Honest
turns-Heard c [] a h e = absurd (cc)
turns-Heard c (t ∷ ts) a h e =
    unroll c t ts a (one_turn c t a) (one_turn-Good c t a) h.0 h.1 (λ b k q. turns-Heard c ts b k q)
      e
