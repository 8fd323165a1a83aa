-- ===== src/Ipc/Server.antt =====
-- src/ipc.rs: the service's side: one client's connection.
use sysu_netauth.Common.{
  ℕ, Bool, true, false, ◌&&◌, Option, none, some, List, [], ◌∷◌, ◌==◌, if◌then◌else◌, Result, ok,
  err,
}
use sysu_netauth.Engine.Types.{Action, watch as watching}
use sysu_netauth.Ipc.{Json, Request, Response, Sink, write_frame, read_frame, and_then, refused}

-- What becomes of the call that is handed to the engine.
pub data Answer (Value : Type 0) : Type 0 where
  busy : Answer Value
  late : Answer Value
  replied : Response Value → Answer Value

-- What the loop finds: whether the client is still there, and the next notification.
pub record Notice (Snapshot : Type 0) : Type 0 where
  pub alive : Bool
  pub update : Option Snapshot

abbrev pub is_watch : Action → Bool
is_watch watching = true
is_watch other = false

module _ {Value Snapshot : Type 0} (requests : Json Request) (responses : Json (Response Value))
    (snapshots : Json Snapshot) (null : Value) where
  abbrev pub pushed :
      Bool → Option Snapshot → Sink → (Sink → Sink × Result (Unit {0})) → Sink × Result (Unit {0})
  pushed false u sink again = (sink, ok tt)
  pushed true none sink again = (sink, ok tt)
  pushed true (some v) sink again = and_then (write_frame snapshots sink v) again

  -- The loop of a watch; the list ends where the channel does.
  unfoldable pub push : List (Notice Snapshot) → Sink → Sink × Result (Unit {0})
  push [] sink = (sink, ok tt)
  push (n ∷ ns) sink = pushed n.alive n.update sink (push ns)

  -- The disconnect watcher is started before the loop.
  abbrev pub start_watch :
      Result (Unit {0}) → List (Notice Snapshot) → Sink → Sink × Result (Unit {0})
  start_watch (err e) ns sink = (sink, err e)
  start_watch (ok u) ns sink = push ns sink

  abbrev pub on_answer :
      Request
      → Answer Value
      → Result (Unit {0})
      → List (Notice Snapshot)
      → Sink
      → Sink × Result (Unit {0})
  on_answer r busy started ns sink = (sink, err "service busy")
  on_answer r late started ns sink = (sink, err "timed out waiting on channel")
  on_answer r (replied a) started ns sink =
      and_then (write_frame responses sink a)
        (λ t. if is_watch r.action && a.is_ok then start_watch started ns t else (t, ok tt))

  abbrev pub on_request :
      Result (Request × List ℕ)
      → (Request → Answer Value)
      → Result (Unit {0})
      → List (Notice Snapshot)
      → Sink
      → Sink × Result (Unit {0})
  on_request (err e) answer started ns sink = (sink, err e)
  on_request (ok r) answer started ns sink =
      if r.0.version == 1
      then on_answer r.0 (answer r.0) started ns sink
      else and_then
          (write_frame responses sink (refused null r.0.id "unsupported protocol version"))
          (λ t. (t, ok tt))

  unfoldable pub serve :
      List ℕ
      → (Request → Answer Value)
      → Result (Unit {0})
      → List (Notice Snapshot)
      → Sink
      → Sink × Result (Unit {0})
  serve stream answer started ns sink =
      on_request (read_frame requests stream) answer started ns sink
