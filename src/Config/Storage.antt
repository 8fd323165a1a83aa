-- ===== src/Config/Storage.antt =====
-- src/config.rs: how a file is replaced, as the states of the directory after each system call. A
-- crash leaves one of these states. The answers of the calls, and the text that the JSON library
-- writes, piece by piece, are arguments.
pub mod Whole
use sysu_netauth.Common.{
  ℕ, zero, suc, ◌+◌, ◌≡◌, ◌⊎◌, inl, inr, Bool, true, false, Option, none, some, List, [], ◌∷◌, ◌++◌,
  take, leb, length, Result, ok, err, ◌>>=◌, ◌>>◌, ensure, if◌then◌else◌, String, refl, sym, ap,
  ◌∙◌, is_some,
}
use sysu_netauth.Config.{Config, FileRead, missing, unreadable, found}
use mathlib.Core.List.{append_assoc, append-nil}

-- The file and the temporary file beside it.
pub record Files : Type 0 where
  pub target : Option (List ℕ)
  pub temporary : Option (List ℕ)

-- What a run went through, where it ended, and what it returned.
pub record Outcome : Type 0 where
  pub seen : List Files
  pub files : Files
  pub result : Result (Unit {0})

-- How the new file takes the place of the old one.
pub data Replacing : Type 0 where
  renames : Result (Unit {0}) → Result (Unit {0}) → Replacing
  moves : List (Result (Unit {0})) → Replacing

pub record WriteAnswers : Type 0 where
  pub parent : Bool
  pub created : Result (Unit {0})
  pub opened : Result (Unit {0})
  pub encoded : Result (Unit {0})
  pub newline : Result (Unit {0})
  pub synced : Result (Unit {0})
  pub replacing : Replacing
  pub removed : Bool

-- A call left the files so; go on unless it failed.
abbrev pub system_call : Files → Result (Unit {0}) → (Files → Outcome) → Outcome
system_call s (err e) go_on = record { seen = s ∷ []; files = s; result = err e }
system_call s (ok u) go_on =
    let o = go_on s in record { seen = s ∷ o.seen; files = o.files; result = o.result }

abbrev pub return : Files → Result (Unit {0}) → Outcome
return s r = record { seen = []; files = s; result = r }

abbrev pub add : Option (List ℕ) → List ℕ → Option (List ℕ)
add none bs = none
add (some t) bs = some (t ++ bs)

abbrev pub append_to : Files → List ℕ → Files
append_to s bs = record { target = s.target; temporary = add s.temporary bs }

-- `create_new` fails on a file that is there.
abbrev pub open_new : Files → Result (Unit {0}) → Option (List ℕ) → (Files → Outcome) → Outcome
open_new s r (some t) go_on = system_call s (err "File exists") go_on
open_new s (err e) none go_on = system_call s (err e) go_on
open_new s (ok u) none go_on =
    system_call (record { target = s.target; temporary = some [] }) (ok u) go_on

unfoldable pub write_pieces : Files → List (List ℕ) → (Files → Outcome) → Outcome
write_pieces s [] go_on = go_on s
write_pieces s (p ∷ ps) go_on = system_call (append_to s p) (ok tt) (λ t. write_pieces t ps go_on)

-- A rename or a move puts the temporary file in the other's place.
abbrev pub renamed : Files → Files
renamed s = record { target = s.temporary; temporary = none }

abbrev pub try_move : Files → Result (Unit {0}) → (String → Outcome) → Outcome
try_move s (ok u) again = system_call (renamed s) (ok u) (λ t. return t (ok tt))
try_move s (err e) again = again e

unfoldable pub move_times : Files → List (Result (Unit {0})) → String → Outcome
move_times s [] last = return s (err last)
move_times s (r ∷ rs) last = try_move s r (move_times s rs)

unfoldable pub replace : Replacing → Files → Outcome
replace (renames (err e) d) s = system_call s (err e) (λ t. return t (ok tt))
replace (renames (ok u) d) s =
    system_call (renamed s) (ok u) (λ t. system_call t d (λ r. return r (ok tt)))
replace (moves rs) s = move_times s (take 5 rs) "replace failed"

-- `b"\n"`
abbrev pub line_feed : List ℕ
line_feed = 10 ∷ []

abbrev pub end_line : Files → Result (Unit {0}) → (Files → Outcome) → Outcome
end_line s (err e) go_on = system_call s (err e) go_on
end_line s (ok u) go_on = system_call (append_to s line_feed) (ok u) go_on

unfoldable pub write_new : WriteAnswers → List (List ℕ) → Files → Outcome
write_new a pieces s = open_new s a.opened s.temporary (λ t. write_pieces t pieces (λ u.
    system_call u a.encoded
      (λ v. end_line v a.newline (λ w. system_call w a.synced (replace a.replacing)))))

-- The temporary file is removed at the end, whatever happened.
abbrev pub cleaned : Bool → Files → Files
cleaned true s = record { target = s.target; temporary = none }
cleaned false s = s

abbrev pub clean_up : Bool → Outcome → Outcome
clean_up removed o =
    let s = cleaned removed o.files in
    record { seen = o.seen ++ (s ∷ []); files = s; result = o.result }

unfoldable pub atomic_write : WriteAnswers → List (List ℕ) → Files → Outcome
atomic_write a pieces s =
    if a.parent
    then system_call s a.created (λ t. clean_up a.removed (write_new a pieces t))
    else return s (err "missing parent directory")

abbrev pub data_limit : ℕ
data_limit = 65536

abbrev pub as_read : Result Config → FileRead
as_read (ok c) = found c
as_read (err e) = unreadable e

-- `read` of the settings, after `exists` of `load`.
unfoldable pub read : (List ℕ → Result Config) → Option (List ℕ) → FileRead
read parse none = missing
read parse (some bs) =
    if leb (length bs) data_limit then as_read (parse bs) else unreadable "data file exceeds 64 KiB"
