-- ===== src/Ipc/Client.antt =====
-- src/ipc.rs: the client's side. What the service sends is the stream that the client reads.
use sysu_netauth.Common.{
  ℕ, zero, suc, ◌&&◌, Option, none, some, List, [], ◌∷◌, ◌==◌, length, Result, ok, err, ◌>>=◌, ◌>>◌,
  ensure, String,
}
use sysu_netauth.Engine.Types.{Action, watch as watching}
use sysu_netauth.Ipc.{Json, Request, Response, Sink, write_frame, read_frame}

abbrev pub text_or : Option String → String → String
text_or none d = d
text_or (some e) d = e

module _ {Value Snapshot : Type 0} (requests : Json Request) (responses : Json (Response Value))
    (snapshots : Json Snapshot) (from_value : Value → Result Snapshot) where
  -- The two checks of `request` on the answer.
  abbrev pub accept : Response Value → Result (Response Value)
  accept r = do
    ensure ((r.version == 1) && (r.id == 1)) "incompatible service response"
    ensure r.is_ok (text_or r.error "service error")
    ok r

  unfoldable pub request : Sink → List ℕ → Action → Result (Response Value)
  request sink stream action = do
    (write_frame requests sink (record { version = 1; id = 1; action = action })).1
    response ← read_frame responses stream
    accept response.0

  -- The snapshots that the callback was given, and the error that ended the watch.
  abbrev pub Watched : Type 0
  Watched = List Snapshot × String

  abbrev pub called : Snapshot → Result (Unit {0}) → Option Watched → Option Watched
  called s (err e) rest = some (s ∷ [], e)
  called s (ok u) none = none
  called s (ok u) (some w) = some (s ∷ w.0, w.1)

  abbrev pub followed :
      (Snapshot → Result (Unit {0})) → Result (Snapshot × List ℕ) → Option Watched → Option Watched
  followed callback (err e) rest = some ([], e)
  followed callback (ok r) rest = called r.0 (callback r.0) rest

  abbrev pub stream_after : Result (Snapshot × List ℕ) → List ℕ
  stream_after (err e) = []
  stream_after (ok r) = r.1

  -- The loop of `watch`. No result when the fuel is used up.
  unfoldable pub follow : ℕ → (Snapshot → Result (Unit {0})) → List ℕ → Option Watched
  follow zero callback stream = none
  follow (suc fuel) callback stream =
      let next = read_frame snapshots stream in
      let rest = follow fuel callback (stream_after next) in followed callback next rest

  abbrev pub opened : (Snapshot → Result (Unit {0})) → Result (Snapshot × List ℕ) → Option Watched
  opened callback (err e) = some ([], e)
  opened callback (ok r) = called r.0 (callback r.0) (follow (suc (length r.1)) callback r.1)

  abbrev pub first_snapshot : Sink → List ℕ → Result (Snapshot × List ℕ)
  first_snapshot sink stream = do
    (write_frame requests sink (record { version = 1; id = 1; action = watching })).1
    first ← read_frame responses stream
    ensure first.0.is_ok "watch rejected"
    snapshot ← from_value first.0.content
    ok (snapshot, first.1)

  unfoldable pub watch : Sink → List ℕ → (Snapshot → Result (Unit {0})) → Option Watched
  watch sink stream callback = opened callback (first_snapshot sink stream)
