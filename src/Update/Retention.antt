-- ===== src/Update/Retention.antt =====
-- src/update.rs: what is kept of an earlier check.
use text.Mathlib.Text.{◌==◌ as str_eq}
use Prim.Native.String.{count, ◌++◌ as append}
use sysu_netauth.Common.{
  ◌⊎◌, ◌&&◌, not, inl, inr, ◌≡◌, Bool, true, false, Option, none, some, arith, refl, ap, ◌∙◌,
  Bool-cases, Result-cases, ok, String, leb, to_option,
}
use sysu_netauth.Update.{
  changelog_url, Update, release_hosts, cached_release, checked, for_current_version,
  retain_newer_release,
}
use sysu_netauth.Update.Text.{codes}
use sysu_netauth.Update.Version.{Version, version, version_gt, option_gt, available_for}
use sysu_netauth.Update.Url.{safe_url}
use sysu_netauth.Update.Order.{gt_asym}

option_irrefl : (a : Option Version) → option_gt a a ≡ false
unfolding version_gt
option_irrefl none = refl
option_irrefl (some a) = ground arith

option_asym : (a b : Option Version) → option_gt a b ≡ true → option_gt b a ≡ false
option_asym none b h = ground arith
option_asym (some a) none h = refl
option_asym (some a) (some b) h = gt_asym a b h

-- A release that is offered: newer than the program, at a trusted address, with a short summary.
pub record Offered (u : Update) (current : String) : Type 0 where
  pub newer : available_for (codes u.latest_version) (codes current) ≡ ok true
  pub trusted : safe_url (codes u.release_url) release_hosts ≡ true
  pub short : leb (count u.summary) 500 ≡ true
  pub settled : u.checking ≡ false

release-Offered :
    (u : Update) (current : String) (a : Bool)
    → available_for (codes u.latest_version) (codes current) ≡ ok a
    → safe_url (codes u.release_url) release_hosts ≡ true
    → leb (count u.summary) 500 ≡ true
    → a ≡ true
    → Offered (record u { checking = false; available = a }) current
release-Offered u current a p b c q = record {
  newer = p ∙ ap ok q;
  trusted = b;
  short = c;
  settled = refl;
}

-- A cached check that is still offered after a start is newer than the program that runs, from a
-- trusted address and with a summary of at most 500 characters, and no check is under way.
pub for_current_version-Offered :
    (u : Update) (current : String)
    → (for_current_version u current).available ≡ true
    → Offered (for_current_version u current) current
unfolding for_current_version cached_release checked
for_current_version-Offered u current = elim (Bool-cases (str_eq u.latest_version "")) [
  | inl p ↦ rw (p, for_current_version) (λ q. ground arith)
  | inr p ↦ elim (Result-cases (available_for (codes u.latest_version) (codes current))) [
    | inr (e, a) ↦ rw (p, for_current_version, cached_release, a) (λ q. ground arith)
    | inl (a, pa) ↦ elim (Bool-cases (safe_url (codes u.release_url) release_hosts)) [
      | inr b ↦ rw (p, for_current_version, cached_release, pa, b) (λ q. ground arith)
      | inl b ↦ elim (Bool-cases (leb (count u.summary) 500)) [
        | inr c ↦ rw (p, for_current_version, cached_release, pa, b, c) (λ q. ground arith)
        | inl c ↦
            rw (p, for_current_version, cached_release, pa, b, c)
              (release-Offered u current a pa b c)
      ]
    ]
  ]
]

-- What is known after a check is no older than what the check found, nor than what was known before
-- and is still valid; and the time of the check is the new one.
pub retain_newer_release-newest :
    (current : String) (u earlier : Update)
    → let r = retain_newer_release current u earlier in
      (option_gt
          (to_option (version (codes u.latest_version)))
          (to_option (version (codes r.latest_version)))
        ≡ false)
      × (option_gt
            (to_option (version (codes (for_current_version earlier current).latest_version)))
            (to_option (version (codes r.latest_version)))
          ≡ false)
      × (r.checked_at ≡ u.checked_at)
unfolding retain_newer_release
retain_newer_release-newest current u earlier =
    let p = to_option (version (codes (for_current_version earlier current).latest_version)) in
    let q = to_option (version (codes u.latest_version)) in
    elim (Bool-cases (option_gt p q)) [
      | inl g ↦ rw (g, retain_newer_release) (option_asym p q g, option_irrefl p, refl)
      | inr g ↦ rw (g, retain_newer_release) (option_irrefl q, g, refl)
    ]

-- The page that is opened is the one of the running version, or a release on offer at a trusted
-- address that the user does not ignore.
pub changelog_url-trusted :
    (u : Update) (current ignored : String)
    → (changelog_url u current ignored
        ≡ append "https://github.com/LoveElysia1314/sysu-netauth/releases/tag/v" current)
      ⊎ ((changelog_url u current ignored ≡ u.release_url)
          × (u.available ≡ true)
          × (str_eq u.latest_version ignored ≡ false)
          × (safe_url (codes u.release_url) release_hosts ≡ true))
unfolding changelog_url
changelog_url-trusted u current ignored =
    elim (Bool-cases (
      u.available
      && not (str_eq u.latest_version ignored)
      && safe_url (codes u.release_url) release_hosts)) [
        | inl p ↦ inr (ground arith, ground arith, ground arith, ground arith)
        | inr p ↦ inl (ground arith)
      ]
