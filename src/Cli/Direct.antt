-- ===== src/Cli/Direct.antt =====
-- src/bin/cli.rs: the adapters that the direct authentication tries, one after the other.
use sysu_netauth.Common.{
  ℕ, ◌+◌, Bool, true, false, not, ◌&&◌, Option, none, some, List, [], ◌∷◌, leb, is_empty, Result,
  ok, err, ◌>>=◌, ◌>>◌, ensure, String,
}
use sysu_netauth.Engine.Types.{from_secs}
use sysu_netauth.Platform.{Adapter}
use sysu_netauth.Protocol.{Md5, Encoder, gbk}
use sysu_netauth.Cli.{
  Turn, Attempt, Verdict, Context, turns, chosen, connected, found_server, fails, gives_up,
}

-- One adapter's session: opening it, the first start, and the turns that follow.
pub record Trial : Type 0 where
  pub opened : Result (Unit {0})
  pub first_sends : Result (Unit {0})
  pub begins_at : ℕ
  pub now : ℕ
  pub passes : List Turn

-- What is printed: the connected adapter, or the server that a probe found.
pub data Output : Type 0 where
  shown : Adapter → Output
  server : Adapter → List ℕ → Output

pub record Account : Type 0 where
  pub digest : Md5
  pub user : List ℕ
  pub secret : List ℕ
  pub probes : Bool
  pub seconds : ℕ

abbrev pub fresh_attempt : ℕ → Attempt
fresh_attempt now = record {
  peer = none;
  eap_success = false;
  checking = false;
  next_start = now + from_secs 1;
}

abbrev pub context : Account → Adapter → ℕ → ℕ → Context
context u a index now = record {
  md5 = u.digest;
  mac = a.mac;
  username = u.user;
  password = u.secret;
  probe = u.probes;
  generation = index + 1;
  deadline = now + from_secs u.seconds;
}

unfoldable pub attempt : Account → Adapter → ℕ → Trial → Option Verdict
attempt u a index t = turns (context u a index t.begins_at) t.passes (fresh_attempt t.now)

-- The next adapter is tried after a failure, with the failure's text.
abbrev pub concluded :
    Adapter → Option Verdict → (String → Option (Result Output)) → Option (Result Output)
concluded a none next = none
concluded a (some connected) next = some (ok (shown a))
concluded a (some (found_server m)) next = some (ok (server a m))
concluded a (some (fails e)) next = some (err e)
concluded a (some (gives_up e)) next = next e

abbrev pub tried :
    Adapter
    → Trial
    → Option Verdict
    → (String → Option (Result Output))
    → Result (Unit {0})
    → Result (Unit {0})
    → Option (Result Output)
tried a t v next (err e) started = next e
tried a t v next (ok u) (err e) = some (err e)
tried a t v next (ok u) (ok w) = concluded a v next

unfoldable pub try_each : Account → (ℕ → Trial) → List Adapter → ℕ → String → Option (Result Output)
try_each u trial [] index last = some (err last)
try_each u trial (a ∷ as') index last =
    tried a (trial index) (attempt u a index (trial index)) (try_each u trial as' (index + 1))
      (trial index).opened (trial index).first_sends

pub record Machine : Type 0 where
  pub is_admin : Bool
  pub lock : Result (Unit {0})
  pub adapters : Result (List Adapter)
  pub prompt : Result String
  pub signals : Result (Unit {0})

abbrev pub entered : Option String → Result String → Result String
entered none prompt = prompt
entered (some text) prompt = ok text

abbrev pub text_of : Option String → String
text_of none = ""
text_of (some text) = text

abbrev pub password_of : Encoder → Bool → Option String → Result String → Result (List ℕ)
password_of encode true password prompt = ok []
password_of encode false password prompt = entered password prompt >>= gbk encode

abbrev pub run_result :
    Result (List Adapter × Account)
    → (List Adapter → Account → Option (Result Output))
    → Option (Result Output)
run_result (err e) go_on = some (err e)
run_result (ok r) go_on = go_on r.0 r.1

-- The checks before any frame is sent.
unfoldable pub prepared :
    Machine
    → Encoder
    → Md5
    → Option String
    → Option String
    → Option String
    → ℕ
    → Bool
    → Result (List Adapter × Account)
prepared m encode md5 iface username password seconds probe = do
  ensure m.is_admin "direct packet access requires administrator/root privileges"
  ensure (leb 1 seconds && leb seconds 3600) "timeout must be 1–3600 seconds"
  m.lock
  all ← m.adapters
  ensure (not (is_empty (chosen iface all))) "no matching connected Ethernet adapter"
  user ← gbk encode (text_of username)
  secret ← password_of encode probe password m.prompt
  m.signals
  ok (
    chosen iface all,
    record { digest = md5; user = user; secret = secret; probes = probe; seconds = seconds },
  )

unfoldable pub direct :
    Machine
    → Encoder
    → Md5
    → (ℕ → Trial)
    → Option String
    → Option String
    → Option String
    → ℕ
    → Bool
    → Option (Result Output)
direct m encode md5 trial iface username password seconds probe =
    run_result (prepared m encode md5 iface username password seconds probe)
      (λ as' u. try_each u trial as' 0 "no EAP server response")
