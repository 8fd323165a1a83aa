-- ===== src/Diagnostics.antt =====
-- src/diagnostics.rs: the log file and the part of it that is exported. A file and a message are bytes,
-- a text is a list of characters.
pub mod Export
pub mod Rotation
use sysu_netauth.Common.{
  ℕ, zero, suc, ◌+◌, ◌-◌, ◌*◌, ◌≡◌, ◌≤◌, Bool, true, false, not, ◌&&◌, ◌||◌, Option, none, some,
  List, [], ◌∷◌, ◌++◌, map, leb, ltb, ◌==◌, if◌then◌else◌, length, drop, take, filter, is_empty,
  Result, ok, err, String,
}
use sysu_netauth.Platform.{starts_with}
use sysu_netauth.Update.Text.{codes}

abbrev pub log_limit : ℕ
log_limit = 512 * 1024

abbrev pub tail_limit : ℕ
tail_limit = 32768

abbrev pub export_limit : ℕ
export_limit = 28 * 1024

-- `service.log` and `service.log.1`
pub record Logs : Type 0 where
  pub log : Option (List ℕ)
  pub rotated : Option (List ℕ)

-- What the file system answers: `measures` to `fs::metadata` of the log, and `finds` to `exists` of a
-- rotated log that is there. The write comes with what it wrote: all of the line or less.
pub record Calls : Type 0 where
  pub creates : Bool
  pub measures : Bool
  pub finds : Bool
  pub removes : Bool
  pub renames : Bool
  pub opens : Bool
  pub write_size : ℕ

abbrev pub contents : Option (List ℕ) → List ℕ
contents none = []
contents (some bs) = bs

-- A log whose size cannot be read counts as not full.
unfoldable pub is_full : Calls → Option (List ℕ) → Bool
is_full c none = false
is_full c (some bs) = c.measures && ltb log_limit (length bs)

-- The files, and whether all calls so far succeeded; an error is printed and ends the run.
abbrev pub move_log : Calls → Logs → Logs × Bool
move_log c l = if c.renames then (record { log = none; rotated = l.log }, true) else (l, false)

abbrev pub rotate_over : Calls → Logs → Option (List ℕ) → Logs × Bool
rotate_over c l none = move_log c l
rotate_over c l (some old) =
    if c.finds
    then (if c.removes then move_log c (record { log = l.log; rotated = none }) else (l, false))
    else move_log c l

unfoldable pub rotate : Calls → Logs → Logs × Bool
rotate c l = if is_full c l.log then rotate_over c l l.rotated else (l, true)

-- `'\r'` and `'\n'` become spaces.
abbrev pub one_line : ℕ → ℕ
one_line b = if (b == 13) || (b == 10) then 32 else b

unfoldable pub line : List ℕ → List ℕ → List ℕ
line now message = now ++ (32 ∷ (map one_line message ++ (10 ∷ [])))

abbrev pub append_line : Calls → List ℕ → Logs × Bool → Logs
append_line c text (l, false) = l
append_line c text (l, true) =
    if c.opens
    then record { log = some (contents l.log ++ take c.write_size text); rotated = l.rotated }
    else l

unfoldable pub write_record : Calls → List ℕ → List ℕ → Logs → Logs
write_record c now message l =
    if c.creates then append_line c (line now message) (rotate c l) else l

-- The bytes of a character in UTF-8.
unfoldable pub width : ℕ → ℕ
width c = if ltb c 128 then 1 else if ltb c 2048 then 2 else if ltb c 65536 then 3 else 4

unfoldable pub size : List ℕ → ℕ
size [] = 0
size (c ∷ cs) = width c + size cs

abbrev pub redacted : List ℕ
redacted = codes "[redacted]"

-- `str::replace`: `skip` characters are left of the last match.
unfoldable pub replace : List ℕ → ℕ → List ℕ → List ℕ
replace secret skip [] = []
replace secret (suc skip) (c ∷ cs) = replace secret skip cs
replace secret zero (c ∷ cs) =
    let m = starts_with secret (c ∷ cs) in
    let rest = replace secret (if m then length secret - 1 else 0) cs in
    if m then redacted ++ rest else c ∷ rest

abbrev pub hide : List ℕ → List ℕ → List ℕ
hide secret text = if is_empty secret then text else replace secret zero text

-- Longest first; the sort is stable.
unfoldable pub redact : List ℕ → List ℕ → List ℕ → List ℕ
redact username password text =
    if leb (size password) (size username)
    then hide password (hide username text)
    else hide username (hide password text)

-- `char::is_control_char`
abbrev pub is_control_char : ℕ → Bool
is_control_char c = ltb c 32 || (leb 127 c && leb c 159)

abbrev pub is_shown : ℕ → Bool
is_shown c = not (is_control_char c) || (c == 10) || (c == 9)

-- From the first character boundary after so many bytes.
unfoldable pub skip_bytes : ℕ → List ℕ → List ℕ
skip_bytes n [] = []
skip_bytes n (c ∷ cs) = let rest = skip_bytes (n - width c) cs in if n == 0 then c ∷ cs else rest

-- What follows the first line feed.
unfoldable pub after_line : List ℕ → Option (List ℕ)
after_line [] = none
after_line (c ∷ cs) = if c == 10 then some cs else after_line cs

abbrev pub whole_lines : List ℕ → Option (List ℕ) → List ℕ
whole_lines text none = text
whole_lines text (some []) = text
whole_lines text (some (c ∷ cs)) = c ∷ cs

unfoldable pub shorten : List ℕ → List ℕ
shorten text =
    if ltb export_limit (size text)
    then (let late = skip_bytes (size text - export_limit) text in
        whole_lines late (after_line late))
    else text

abbrev pub or_nothing : Option (List ℕ) → List ℕ
or_nothing none = []
or_nothing (some bs) = bs

-- The last 32 KiB, without the line that they cut.
unfoldable pub tail : List ℕ → List ℕ
tail file =
    let start = length file - tail_limit in
    let bytes = take tail_limit (drop start file) in
    if ltb 0 start then or_nothing (after_line bytes) else bytes

-- An absent log is an empty text. `lossy` is `String::from_utf8_lossy`.
unfoldable pub exported : (List ℕ → List ℕ) → List ℕ → List ℕ → List ℕ → List ℕ
exported lossy username password file =
    shorten (filter is_shown (redact username password (lossy (tail file))))

unfoldable pub export_log :
    (List ℕ → List ℕ) → List ℕ → List ℕ → Result (Option (List ℕ)) → Result (List ℕ)
export_log lossy username password (err e) = err e
export_log lossy username password (ok none) = ok []
export_log lossy username password (ok (some file)) = ok (exported lossy username password file)
