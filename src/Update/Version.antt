-- ===== src/Update/Version.antt =====
-- src/update.rs: version numbers. A text is a list of code points.
use sysu_netauth.Common.{
  ℕ, ◌+◌, ◌*◌, ◌-◌, Bool, true, false, not, ◌&&◌, ◌||◌, Option, none, some, List, [], ◌∷◌, leb, ltb,
  ◌==◌, if◌then◌else◌, Result, ok, err, ◌>>=◌, ◌>>◌, ensure, is_empty,
}
use sysu_netauth.Common.Bytes.{bytes_eq}
use sysu_netauth.Update.Text.{trim, split, split_once, is_digit, all, codes}

-- `[u32; 3]`
pub record Version : Type 0 where
  pub major : ℕ
  pub minor : ℕ
  pub patch : ℕ

-- The order of arrays is lexicographic.
unfoldable pub version_gt : Version → Version → Bool
version_gt a b =
    ltb b.major a.major
    || (a.major == b.major) && (ltb b.minor a.minor || (a.minor == b.minor) && ltb b.patch a.patch)

unfoldable pub version_eq : Version → Version → Bool
version_eq a b = (a.major == b.major) && (a.minor == b.minor) && (a.patch == b.patch)

-- `None` is below every `Some`.
abbrev pub option_gt : Option Version → Option Version → Bool
option_gt none b = false
option_gt (some a) none = true
option_gt (some a) (some b) = version_gt a b

unfoldable pub decimal_from : ℕ → List ℕ → ℕ
decimal_from acc [] = acc
decimal_from acc (c ∷ cs) = decimal_from (acc * 10 + (c - b'0')) cs

-- `str::parse::<u32>` of a text of digits
unfoldable pub parse_u32 : List ℕ → Result ℕ
unfolding decimal_from
parse_u32 part =
    let n = decimal_from 0 part in
    if ltb n 0x1_0000_0000 then ok n else err "number too large to fit in target type"

-- A part of a version: at least one digit, and only digits.
abbrev pub is_part : List ℕ → Bool
is_part part = not (is_empty part) && all is_digit part

unfoldable pub parse_parts : List (List ℕ) → Result (List ℕ)
unfolding parse_u32
parse_parts [] = ok []
parse_parts (p ∷ ps) = do n ← parse_u32 p; ns ← parse_parts ps; ok (n ∷ ns)

-- `values.len() == 3 && values.iter().all(|v| *v <= 999999)`
three : List ℕ → Result Version
three (a ∷ b ∷ c ∷ []) =
    if leb a 999999 && leb b 999999 && leb c 999999
    then ok (record { major = a; minor = b; patch = c })
    else err "invalid version"
three values = err "invalid version"

-- `value.strip_prefix('v').unwrap_or(value)`
abbrev pub strip_v : List ℕ → List ℕ
strip_v [] = []
strip_v (c ∷ cs) = if c == b'v' then cs else c ∷ cs

unfoldable pub version : List ℕ → Result Version
unfolding three trim split
version value = do
  let parts = split b'.' (strip_v (trim value))
  ensure (all is_part parts) "invalid version"
  values ← parse_parts parts
  three values

abbrev is_stage : List ℕ → Bool
is_stage stage =
    bytes_eq stage (codes "alpha") || bytes_eq stage (codes "beta") || bytes_eq stage (codes "rc")

-- The suffix after the dash: a stage, a dot, and a number.
prerelease : List ℕ → Option (List ℕ × List ℕ) → Result (Version × Bool)
prerelease core none = err "invalid prerelease"
prerelease core (some (stage, serial)) = do
  ensure (is_stage stage) "invalid prerelease stage"
  ensure (is_part serial) "invalid prerelease number"
  v ← version core
  ok (v, true)

installed_from : List ℕ → Option (List ℕ × List ℕ) → Result (Version × Bool)
unfolding prerelease split_once
installed_from value none = do v ← version value; ok (v, false)
installed_from value (some (core, suffix)) = prerelease core (split_once b'.' suffix)

unfoldable pub installed_version : List ℕ → Result (Version × Bool)
unfolding installed_from split_once
installed_version value = installed_from value (split_once b'-' value)

unfoldable pub available_for : List ℕ → List ℕ → Result Bool
available_for candidate current = do
  stable ← version candidate
  installed ← installed_version current
  ok (version_gt stable installed.0 || version_eq stable installed.0 && installed.1)
