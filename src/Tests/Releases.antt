-- ===== src/Tests/Releases.antt =====
-- src/update.rs and src/config.rs: theorems at concrete releases and settings.
use sysu_netauth.Common.{
  ℕ, zero, suc, ◌≡◌, ◌↔◌, true, false, none, some, List, [], ◌∷◌, Result, ok, refl, is_ok,
  to_option,
}
use sysu_netauth.Common.Bytes.{bytes_eq}
use sysu_netauth.Protocol.{gbk}
use sysu_netauth.Config.{validate, PreferencesPatch, found, load}
use sysu_netauth.Config.Validation.{Valid, validate_iff}
use sysu_netauth.Update.{Update, release_hosts, for_current_version, retain_newer_release}
use sysu_netauth.Update as Update
use sysu_netauth.Update.Text.{codes}
use sysu_netauth.Update.Version.{
  Version, version, parse_parts, version_gt, option_gt, available_for, installed_version,
}
use sysu_netauth.Update.Retention.{
  Offered, for_current_version-Offered, retain_newer_release-newest,
}
use sysu_netauth.Update.Trust.{AllSafe, download-AllSafe}
use sysu_netauth.Update.Url.{safe_url, Download, body, redirect, download}
use sysu_netauth.Tests.World.{world, account}

abbrev url : List ℕ
url = codes "https://github.com/a/b"

-- A server that redirects twice, then delivers.
abbrev redirects : ℕ → List ℕ → Result Download
redirects zero asked = ok (redirect (codes "/c"))
redirects (suc zero) asked = ok (redirect (codes "https://gitee.com/d"))
redirects (suc (suc n)) asked = ok (body (1 ∷ []))

download-AllSafe_example : AllSafe release_hosts 4 (download redirects release_hosts url).requested
download-AllSafe_example = download-AllSafe redirects release_hosts url

abbrev v1 : Version
v1 = record { major = 1; minor = 9; patch = 0 }

abbrev v2 : Version
v2 = record { major = 1; minor = 10; patch = 0 }

abbrev v3 : Version
v3 = record { major = 2; minor = 0; patch = 0 }

abbrev release : Update
release = record Update.default {
  latest_version = "1.3.0";
  release_url = "https://github.com/a/b/releases/tag/v1.3.0";
  summary = "fixes";
}

release_offered : (for_current_version release "1.2.0").available ≡ true
unfolding for_current_version available_for version parse_parts installed_version safe_url bytes_eq
    version_gt
release_offered = refl

for_current_version-Offered_example : Offered (for_current_version release "1.2.0") "1.2.0"
for_current_version-Offered_example = for_current_version-Offered release "1.2.0" release_offered

abbrev checked_again : Update
checked_again = record release { latest_version = "1.2.9"; checked_at = 9 }

retain_newer_release-newest_example :
    let r = retain_newer_release "1.2.0" checked_again release in
    (option_gt
        (to_option (version (codes checked_again.latest_version)))
        (to_option (version (codes r.latest_version)))
      ≡ false)
    × (option_gt
          (to_option (version (codes (for_current_version release "1.2.0").latest_version)))
          (to_option (version (codes r.latest_version)))
        ≡ false)
    × (r.checked_at ≡ checked_again.checked_at)
retain_newer_release-newest_example = retain_newer_release-newest "1.2.0" checked_again release

validate_iff_example : (is_ok (validate world.encode account) ≡ true) ↔ Valid world.encode account
validate_iff_example = validate_iff world.encode account

account_loads : load world.encode (found account) ≡ ok account
unfolding load validate gbk
account_loads = refl

abbrev quiet : PreferencesPatch
quiet = record {
  auto_auth = some false;
  launch_gui_on_login = none;
  hide_window_on_login = none;
  desktop_notify = none;
  auto_update_check = some false;
  update_notify = none;
}
