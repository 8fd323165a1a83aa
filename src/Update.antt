-- ===== src/Update.antt =====
-- src/update.rs: the record of a release check and its methods.
use Prim.Native.String.{◌++◌ as append, count}
use text.Mathlib.Text.{◌==◌ as str_eq}
pub mod Text
pub mod Version
pub mod Url
pub mod Trust
pub mod Order
pub mod Retention
pub mod Feed
pub mod Sources
use sysu_netauth.Common.{
  ℕ, ◌-◌, Bool, true, false, not, ◌&&◌, ◌||◌, Option, none, some, List, [], ◌∷◌, leb, ltb,
  if◌then◌else◌, Result, ok, err, ◌>>=◌, ◌>>◌, ensure, String, to_option, get_or, min,
}
use Version.{version, available_for, option_gt}
use Text.{codes}
use Url.{safe_url}

pub record Update : Type 0 where
  pub latest_version : String
  pub release_url : String
  pub summary : String
  pub source : String
  pub checked_at : ℕ
  pub next_check_at : ℕ
  pub failure_count : ℕ
  pub error : String
  pub available : Bool
  pub checking : Bool

abbrev pub default : Update
default = record {
  latest_version = "";
  release_url = "";
  summary = "";
  source = "";
  checked_at = 0;
  next_check_at = 0;
  failure_count = 0;
  error = "";
  available = false;
  checking = false;
}

abbrev pub release_hosts : List (List ℕ)
release_hosts = codes "github.com" ∷ codes "gitee.com" ∷ []

unfoldable pub announcement : Update → Option String
announcement u =
    if u.available && safe_url (codes u.release_url) release_hosts
    then some (append "发现正式版更新 " (append u.latest_version (append "：" u.release_url)))
    else none

-- The check of a cached release.
cached_release : Update → String → Result Bool
cached_release u current = do
  available ← available_for (codes u.latest_version) (codes current)
  ensure (safe_url (codes u.release_url) release_hosts) "untrusted cached release URL"
  ensure (leb (count u.summary) 500) "cached summary too long"
  ok available

checked : Update → Result Bool → Update
checked u (ok available) = record u { checking = false; available = available }
checked u (err e) = default

unfoldable pub for_current_version : Update → String → Update
unfolding cached_release checked
for_current_version u current =
    if str_eq u.latest_version ""
    then record u { checking = false; available = false }
    else checked u (cached_release u current)

-- `current` is the build's `VERSION`.
unfoldable pub retain_newer_release : String → Update → Update → Update
retain_newer_release current u earlier =
    let previous = for_current_version earlier current in
    if option_gt (to_option (version (codes previous.latest_version)))
      (to_option (version (codes u.latest_version)))
    then record u {
      latest_version = previous.latest_version;
      release_url = previous.release_url;
      summary = previous.summary;
      source = previous.source;
      available = previous.available;
    }
    else u

unfoldable pub failure_delay : ℕ → ℕ
failure_delay count = get_or (1800 ∷ 7200 ∷ 21600 ∷ 86400 ∷ []) (min (count - 1) 3) 0

-- The page that the front end opens: the release on offer, or the page of the running version.
unfoldable pub changelog_url : Update → String → String → String
changelog_url u current ignored =
    if u.available
      && not (str_eq u.latest_version ignored)
      && safe_url (codes u.release_url) release_hosts
    then u.release_url
    else append "https://github.com/LoveElysia1314/sysu-netauth/releases/tag/v" current
