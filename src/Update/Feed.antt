-- ===== src/Update/Feed.antt =====
-- src/update.rs: the manifest of a source, and the merge of what the sources answer. The JSON
-- reader is a crate, and so a parameter: it gives the fields that the code looks at.
use Prim.Native.String.{◌++◌ as append, count}
use Prim.Native.Char.{code}
use text.Mathlib.Text.{◌==◌ as str_eq}
use sysu_netauth.Common.{
  ℕ, ◌&&◌, Option, none, some, List, [], ◌∷◌, ◌++◌, leb, ◌==◌, if◌then◌else◌, Result, ok, err,
  ◌>>=◌, ◌>>◌, ensure, String, to_option, length, is_some_and, map,
}
use sysu_netauth.Update.{Update, default, release_hosts}
use sysu_netauth.Update.Text.{codes}
use sysu_netauth.Update.Version.{Version, version, option_gt, available_for}
use sysu_netauth.Update.Url.{safe_url}

-- The fields of the JSON value, where they are there with the type that is asked for.
pub record Manifest : Type 0 where
  pub schema_version : Option ℕ
  pub channel : Option String
  pub version : Option String
  pub release_url : Option String
  pub summary : Option String

abbrev pub text_or : Option String → String → String
text_or none other = other
text_or (some text) other = text

-- `trim_start_matches('v')`
unfoldable pub trim_start_v : String → String
trim_start_v String.[] = String.[]
trim_start_v (String.◌∷◌ c s) =
    let rest = trim_start_v s in if code c == b'v' then rest else String.◌∷◌ c s

module _ (decode : List ℕ → Result Manifest) (current : String) (now : ℕ) where
  unfoldable pub parse : List ℕ → String → Result Update
  parse bytes source = do
    ensure (leb (length bytes) 65536) "manifest too large"
    v ← decode bytes
    ensure
        (is_some_and (λ n. n == 1) v.schema_version && str_eq (text_or v.channel "stable") "stable")
        "unsupported manifest"
    newer ← available_for (codes (text_or v.version "")) (codes current)
    ensure (safe_url (codes (text_or v.release_url "")) release_hosts) "untrusted release URL"
    ensure (leb (count (text_or v.summary "")) 500) "summary too long"
    ok (record default {
      latest_version = trim_start_v (text_or v.version "");
      release_url = text_or v.release_url "";
      summary = text_or v.summary "";
      source = source;
      available = newer;
      checked_at = now;
    })

-- The sources: a name, a URL and the host that may answer.
abbrev pub sources : List (String × String × String)
sources =
    (
      "gitee", "https://gitee.com/LoveElysia1314/sysu-netauth/raw/main/updates/release.json",
      "gitee.com",
    )
    ∷ (
      "github",
      "https://raw.githubusercontent.com/LoveElysia1314/sysu-netauth/main/updates/release.json",
      "raw.githubusercontent.com",
    )
    ∷ []

abbrev pub allowed_hosts : String → List String
allowed_hosts host =
    if str_eq host "gitee.com" then host ∷ "raw.giteeusercontent.com" ∷ [] else host ∷ []

abbrev pub release_version : Update → Option Version
release_version u = to_option (version (codes u.latest_version))

-- The loop over the results: the first of the newest releases, and the errors in order.
unfoldable pub newest_of :
    List (Result Update) → Option Update → List String → Option Update × List String
newest_of [] newest errors = (newest, errors)
newest_of (err e ∷ rest) newest errors = newest_of rest newest (errors ++ (e ∷ []))
newest_of (ok u ∷ rest) none errors = newest_of rest (some u) errors
newest_of (ok u ∷ rest) (some known) errors =
    newest_of rest
      (some (if option_gt (release_version u) (release_version known) then u else known)) errors

unfoldable pub joined : List String → String
joined [] = ""
joined (e ∷ []) = e
joined (e ∷ f ∷ rest) = append e (append "; " (joined (f ∷ rest)))

unfoldable pub merged_sources : Option Update × List String → Result Update
merged_sources (some u, errors) = ok u
merged_sources (none, errors) = err (joined errors)

-- `with_context(|| name)`, shown by `{:#}`
abbrev pub named : String → Result Update → Result Update
named name (ok u) = ok u
named name (err e) = err (append name (append ": " e))

-- Each source is fetched by a thread of its own; the results come in the order of the sources.
unfoldable pub fetch_with :
    (List ℕ → Result Manifest)
    → String
    → ℕ
    → (String → List String → ℕ → Result (List ℕ))
    → Result Update
fetch_with decode current now fetcher = merged_sources (
    newest_of
      (map
        (λ s.
          named s.0
            (fetcher s.1 (allowed_hosts s.2) 65536 >>= λ bytes. parse decode current now bytes s.0))
        sources)
      none [])
