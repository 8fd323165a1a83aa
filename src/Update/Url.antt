-- ===== src/Update/Url.antt =====
-- src/update.rs: which URLs are trusted, and the download that follows redirects hop by hop.
use sysu_netauth.Common.{
  ℕ, ◌+◌, zero, suc, Bool, true, false, not, ◌&&◌, ◌||◌, Option, none, some, List, [], ◌∷◌, ◌++◌,
  leb, ltb, ◌==◌, if◌then◌else◌, Result, ok, err, any, drop,
}
use sysu_netauth.Common.Bytes.{bytes_eq}
use sysu_netauth.Update.Text.{codes}

-- `str::strip_prefix` with a text
unfoldable pub strip_prefix : List ℕ → List ℕ → Option (List ℕ)
strip_prefix [] url = some url
strip_prefix (p ∷ ps) [] = none
strip_prefix (p ∷ ps) (c ∷ cs) = if p == c then strip_prefix ps cs else none

-- `split(['/', '?', '#']).next()`
unfoldable pub until_delimiter : List ℕ → List ℕ
until_delimiter [] = []
until_delimiter (c ∷ cs) =
    if (c == b'/') || (c == b'?') || (c == b'#') then [] else c ∷ until_delimiter cs

-- `host.strip_suffix(":443").unwrap_or(host)`
unfoldable pub strip_port : List ℕ → List ℕ
strip_port [] = []
strip_port (c ∷ cs) = if bytes_eq (c ∷ cs) (codes ":443") then [] else c ∷ strip_port cs

-- `char::is_control`: the category Cc
abbrev pub is_control : ℕ → Bool
is_control c = ltb c 32 || leb 127 c && leb c 159

abbrev lower : ℕ → ℕ
lower c = if leb b'A' c && leb c b'Z' then c + 32 else c

-- `eq_ignore_ascii_case`
unfoldable pub eq_ignore_ascii_case : List ℕ → List ℕ → Bool
eq_ignore_ascii_case [] [] = true
eq_ignore_ascii_case [] (y ∷ ys) = false
eq_ignore_ascii_case (x ∷ xs) [] = false
eq_ignore_ascii_case (x ∷ xs) (y ∷ ys) = (lower x == lower y) && eq_ignore_ascii_case xs ys

trusted_tail : List ℕ → List (List ℕ) → Option (List ℕ) → Bool
trusted_tail url hosts none = false
trusted_tail url hosts (some tail) =
    let host = strip_port (until_delimiter tail) in
    not (any (λ c. is_control c || (c == 0x5c)) url) && any (λ h. eq_ignore_ascii_case host h) hosts

unfoldable pub safe_url : List ℕ → List (List ℕ) → Bool
unfolding trusted_tail strip_prefix until_delimiter strip_port eq_ignore_ascii_case
safe_url url hosts = trusted_tail url hosts (strip_prefix (codes "https://") url)

pub data Download : Type 0 where
  body : List ℕ → Download
  redirect : List ℕ → Download

-- The UTF-8 length of a text.
abbrev utf8_size : ℕ → ℕ
utf8_size c = if ltb c 0x80 then 1 else if ltb c 0x800 then 2 else if ltb c 0x10000 then 3 else 4

abbrev pub byte_length : List ℕ → ℕ
byte_length [] = 0
byte_length (c ∷ cs) = utf8_size c + byte_length cs

-- `split('/').next()`
until_slash : List ℕ → List ℕ
until_slash [] = []
until_slash (c ∷ cs) = if c == b'/' then [] else c ∷ until_slash cs

-- A location that starts with one slash stays on the host of the current URL.
pub resolve : List ℕ → List ℕ → List ℕ
unfolding until_slash
resolve current [] = []
resolve current (c ∷ []) =
    if c == b'/' then codes "https://" ++ (until_slash (drop 8 current) ++ (c ∷ [])) else c ∷ []
resolve current (c ∷ d ∷ rest) =
    if (c == b'/') && not (d == b'/')
    then codes "https://" ++ (until_slash (drop 8 current) ++ (c ∷ d ∷ rest))
    else c ∷ d ∷ rest

-- What the loop asked for, and what came of it.
pub record Downloaded : Type 0 where
  pub requested : List (List ℕ)
  pub result : Result (List ℕ)

abbrev also : List ℕ → Downloaded → Downloaded
also url d = record d { requested = url ∷ d.requested }

-- `for hop in 0..=3`, with the hops left and the number of this one. `request n` is the answer of
-- the native client to the n-th request; a redirect on the last hop is refused.
unfoldable pub download_from :
    (ℕ → List ℕ → Result Download) → List (List ℕ) → ℕ → ℕ → List ℕ → Downloaded
unfolding resolve
download_from request hosts zero hop current = record { requested = []; result = err "unreachable" }
download_from request hosts (suc left) hop current =
    let follow = λ (location : List ℕ).
      download_from request hosts left (hop + 1) (resolve current location) in
    if not (safe_url current hosts)
    then record { requested = []; result = err "untrusted download URL" }
    else also current (elim (request hop current) [
      | err e ↦ record { requested = []; result = err e }
      | ok (body bytes) ↦ record { requested = []; result = ok bytes }
      | ok (redirect location) ↦
          (if ltb hop 3 && leb (byte_length location) 8192
            then follow location
            else record { requested = []; result = err "too many or invalid HTTPS redirects" })
    ])

unfoldable pub download : (ℕ → List ℕ → Result Download) → List (List ℕ) → List ℕ → Downloaded
unfolding download_from
download request hosts url = download_from request hosts 4 0 url
