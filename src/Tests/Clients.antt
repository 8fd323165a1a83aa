-- ===== src/Tests/Clients.antt =====
-- src/ipc.rs: theorems at concrete inputs.
use sysu_netauth.Common.{
  ◌+◌, ℕ, suc, ◌≡◌, ◌≤◌, ◌<◌, Bool, true, false, Option, none, some, List, [], ◌∷◌, Result, ok, err,
  String, refl, subst, zero, arith, length, ◌==◌,
}
use sysu_netauth.Engine.Types.{
  Action, watch as watching, status, interfaces, authenticate, logoff, get_config, preferences,
  diagnostics, set_preferences, set_config, connect, reload_config, check_update,
  set_update_preferences,
}
use sysu_netauth.Ipc.{
  Json, Request, Response, Sink, success_response, write_frame, write_all, read_frame, read_exact,
}
use sysu_netauth.Ipc.Frames.{Parses}
use sysu_netauth.Ipc.Server.{Answer, replied, Notice, serve, push}
use sysu_netauth.Ipc.Client.{watch}
use sysu_netauth.Ipc.Watching.{news, watch-serve}
use sysu_netauth.Ipc.Clients.{
  Clients, accepting, checked, counted, limit, starting, admit, count, spawn, spawn_fails, Reach,
  here, next, Reach-bound, Reach-shut,
}

-- A text format in which requests to watch, answers without an error and numbers can be written.
abbrev request_bytes : Action → ℕ → ℕ → Result (List ℕ)
request_bytes watching v i = ok (v ∷ i ∷ [])
request_bytes other v i = err "unsupported"

abbrev request_of : List ℕ → Result Request
request_of (v ∷ (i ∷ [])) = ok (record { version = v; id = i; action = watching })
request_of other = err "invalid"

abbrev requests : Json Request
requests = record { to_vec = λ r. request_bytes r.action r.version r.id; from_slice = request_of }

abbrev bit : Bool → ℕ
bit true = 1
bit false = 0

abbrev response_bytes : Option String → ℕ → ℕ → Bool → ℕ → Result (List ℕ)
response_bytes none v i b c = ok (v ∷ i ∷ bit b ∷ c ∷ [])
response_bytes (some e) v i b c = err "unsupported"

abbrev response_of : List ℕ → Result (Response ℕ)
response_of (v ∷ (i ∷ (b ∷ (c ∷ [])))) =
    ok (record { version = v; id = i; is_ok = b == 1; error = none; content = c })
response_of other = err "invalid"

abbrev responses : Json (Response ℕ)
responses = record {
  to_vec = λ r. response_bytes r.error r.version r.id r.is_ok r.content;
  from_slice = response_of;
}

abbrev number_of : List ℕ → Result ℕ
number_of (n ∷ []) = ok n
number_of other = err "invalid"

abbrev numbers : Json ℕ
numbers = record { to_vec = λ n. ok (n ∷ []); from_slice = number_of }

numbers-Parses : Parses numbers
numbers-Parses = record {
  back = λ v bs e. let k : v ∷ [] ≡ bs = cc in subst (λ l. number_of l ≡ ok v) k refl;
  filled = λ v bs e. let k : v ∷ [] ≡ bs = cc in subst (λ l. 0 < length l) k (omega arith);
}

request_back :
    (a : Action) (v i : ℕ) (bs : List ℕ)
    → request_bytes a v i ≡ ok bs
    → (v ∷ i ∷ [] ≡ bs)
      × (request_of (v ∷ i ∷ []) ≡ ok (record { version = v; id = i; action = a }))
request_back watching v i bs e = (cc, refl)
request_back status v i bs e = absurd (cc)
request_back interfaces v i bs e = absurd (cc)
request_back authenticate v i bs e = absurd (cc)
request_back logoff v i bs e = absurd (cc)
request_back get_config v i bs e = absurd (cc)
request_back preferences v i bs e = absurd (cc)
request_back diagnostics v i bs e = absurd (cc)
request_back (set_preferences p) v i bs e = absurd (cc)
request_back (set_config c) v i bs e = absurd (cc)
request_back (connect c) v i bs e = absurd (cc)
request_back reload_config v i bs e = absurd (cc)
request_back check_update v i bs e = absurd (cc)
request_back (set_update_preferences a b) v i bs e = absurd (cc)

requests-Parses : Parses requests
requests-Parses = record {
  back = λ v bs e.
      let k = request_back v.action v.version v.id bs e in subst (λ l. request_of l ≡ ok v) k.0 k.1;
  filled = λ v bs e.
      let k = request_back v.action v.version v.id bs e in
      subst (λ l. 0 < length l) k.0 (omega arith);
}

bit_back : (b : Bool) → (bit b == 1) ≡ b
bit_back true = refl
bit_back false = refl

response_back :
    (o : Option String) (v i : ℕ) (b : Bool) (c : ℕ) (bs : List ℕ)
    → response_bytes o v i b c ≡ ok bs
    → (v ∷ i ∷ bit b ∷ c ∷ [] ≡ bs)
      × (response_of (v ∷ i ∷ bit b ∷ c ∷ [])
          ≡ ok (record { version = v; id = i; is_ok = b; error = o; content = c }))
response_back none v i b c bs e = (cc, rw (bit_back b) refl)
response_back (some x) v i b c bs e = absurd (cc)

responses-Parses : Parses responses
responses-Parses = record {
  back = λ r bs e.
      let k = response_back r.error r.version r.id r.is_ok r.content bs e in
      subst (λ l. response_of l ≡ ok r) k.0 k.1;
  filled = λ r bs e.
      let k = response_back r.error r.version r.id r.is_ok r.content bs e in
      subst (λ l. 0 < length l) k.0 (omega arith);
}

abbrev socket : Sink
socket = record { out = []; room = 1000; flush = ok tt }

abbrev notices : List (Notice ℕ)
notices = record { alive = true; update = some 8 } ∷ record { alive = true; update = some 9 } ∷ []

abbrev engine : Request → Answer ℕ
engine r = replied (success_response 1 7)

abbrev asked_socket : Sink
asked_socket = (write_frame requests socket (record { version = 1; id = 1; action = watching })).0

abbrev served : Sink
served = (serve requests responses numbers 0 asked_socket.out engine (ok tt) notices socket).0

served_ok :
    serve requests responses numbers 0 asked_socket.out engine (ok tt) notices socket
    ≡ (served, ok tt)
unfolding serve write_frame write_all read_frame read_exact push
served_ok = refl

watch-serve_example :
    watch requests responses numbers (λ n. ok n) socket served.out (λ n. ok tt)
    ≡ some (7 ∷ news notices, "failed to fill whole buffer")
unfolding write_frame write_all
watch-serve_example =
    watch-serve requests responses numbers (λ n. ok n) 0 socket asked_socket engine
      (success_response 1 7) 7 notices socket served (λ n. ok tt) requests-Parses responses-Parses
      numbers-Parses refl refl refl refl refl refl served_ok (λ n. refl)

-- One client is served, and the thread of the next cannot be started.
abbrev one_client : Clients
one_client = record { at = accepting; active = 1; serving = 1; lost = 0 }

one_client_reached : Reach starting one_client
one_client_reached =
    next
      (next (next here (admit starting refl (omega arith)))
        (count (record starting { at = checked }) refl))
      (spawn (record starting { at = counted; active = 1 }) refl)

Reach-bound_example : one_client.serving + one_client.lost ≤ limit
Reach-bound_example = Reach-bound one_client one_client_reached

abbrev lost_after : ℕ → Clients
lost_after n = record { at = accepting; active = n; serving = 0; lost = n }

lose_one : (n : ℕ) → n < limit → Reach starting (lost_after n) → Reach starting (lost_after (n + 1))
lose_one n h r =
    next
      (next (next r (admit (lost_after n) refl h))
        (count (record (lost_after n) { at = checked }) refl))
      (spawn_fails (record (lost_after n) { at = counted; active = n + 1 }) refl)

lose_all : (n : ℕ) → n ≤ limit → Reach starting (lost_after n)
lose_all zero h = here
lose_all (suc n) h =
    subst (λ m. Reach starting (lost_after m)) (omega arith)
      (lose_one n (omega (arith, h)) (lose_all n (omega (arith, h))))

Reach-shut_example : ((lost_after 16).serving ≡ 0) × (limit ≤ (lost_after 16).active)
Reach-shut_example =
    Reach-shut (lost_after 16) (lost_after 16) (lose_all 16 (omega arith)) (omega arith) here
