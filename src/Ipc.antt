-- ===== src/Ipc.antt =====
-- src/ipc.rs: the frames of the control protocol, its requests and responses. JSON is a library's:
-- an encoder and a decoder are arguments. A stream is the bytes that are left to read; a sink
-- takes a number of bytes before its writes fail.
pub mod Client
pub mod Clients
pub mod Server
pub mod Watching
pub mod Frames
use sysu_netauth.Common.{
  ℕ, zero, suc, ◌+◌, ◌-◌, ◌*◌, ◌/◌, ◌%◌, ◌≡◌, ◌≤◌, ◌<◌, Bool, true, false, not, ◌&&◌, Option, none,
  some, List, [], ◌∷◌, ◌++◌, leb, ltb, ◌==◌, if◌then◌else◌, length, get_or, drop, take, Result, ok,
  err, ◌>>=◌, ◌>>◌, ensure, String,
}
use sysu_netauth.Engine.Types.{Action}

abbrev pub max_message : ℕ
max_message = 65536

-- `serde_json::to_vec` and `serde_json::from_slice` at a type.
pub record Json (A : Type 0) : Type 0 where
  pub to_vec : A → Result (List ℕ)
  pub from_slice : List ℕ → Result A

pub record Request : Type 0 where
  pub version : ℕ
  pub id : ℕ
  pub action : Action

pub record Response (Value : Type 0) : Type 0 where
  pub version : ℕ
  pub id : ℕ
  pub is_ok : Bool
  pub error : Option String
  pub content : Value

abbrev pub success_response : {Value : Type 0} → ℕ → Value → Response Value
success_response id v = record { version = 1; id = id; is_ok = true; error = none; content = v }

-- `null` is the value of an answer that has none.
abbrev pub refused : {Value : Type 0} → Value → ℕ → String → Response Value
refused null id e = record { version = 1; id = id; is_ok = false; error = some e; content = null }

pub record Sink : Type 0 where
  pub out : List ℕ
  pub room : ℕ
  pub flush : Result (Unit {0})

unfoldable pub write_all : Sink → List ℕ → Sink × Result (Unit {0})
write_all s bs =
    if leb (length bs) s.room
    then (record { out = s.out ++ bs; room = s.room - length bs; flush = s.flush }, ok tt)
    else (record { out = s.out ++ take s.room bs; room = 0; flush = s.flush }, err "write failed")

abbrev pub and_then :
    Sink × Result (Unit {0}) → (Sink → Sink × Result (Unit {0})) → Sink × Result (Unit {0})
and_then (s, ok u) f = f s
and_then (s, err e) f = (s, err e)

abbrev pub to_be32 : ℕ → List ℕ
to_be32 n = n / 16777216 % 256 ∷ n / 65536 % 256 ∷ n / 256 % 256 ∷ n % 256 ∷ []

abbrev pub from_be32 : List ℕ → ℕ
from_be32 p = get_or p 0 0 * 16777216 + get_or p 1 0 * 65536 + get_or p 2 0 * 256 + get_or p 3 0

abbrev pub write_bytes : Sink → Result (List ℕ) → Sink × Result (Unit {0})
write_bytes s (err e) = (s, err e)
write_bytes s (ok bs) =
    if leb (length bs) max_message
    then and_then (write_all s (to_be32 (length bs)))
        (λ t. and_then (write_all t bs) (λ u. (u, u.flush)))
    else (s, err "IPC message too large")

unfoldable pub write_frame : {A : Type 0} → Json A → Sink → A → Sink × Result (Unit {0})
write_frame j s v = write_bytes s (j.to_vec v)

unfoldable pub read_exact : ℕ → List ℕ → Result (List ℕ × List ℕ)
read_exact n s =
    if leb n (length s) then ok (take n s, drop n s) else err "failed to fill whole buffer"

-- The value, and what is left of the stream.
unfoldable pub read_frame : {A : Type 0} → Json A → List ℕ → Result (A × List ℕ)
read_frame j s = do
  prefix ← read_exact 4 s
  ensure (ltb 0 (from_be32 prefix.0) && leb (from_be32 prefix.0) max_message)
      "invalid IPC frame length"
  bytes ← read_exact (from_be32 prefix.0) prefix.1
  value ← j.from_slice bytes.0
  ok (value, bytes.1)
