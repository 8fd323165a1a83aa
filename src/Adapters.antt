-- ===== src/Adapters.antt =====
-- src/gui/adapters.rs: the adapters that the window offers.
pub mod Kept
use text.Mathlib.Text.{◌==◌ as str_eq}
use text.Mathlib.TextEquality.{eq_iff}
use sysu_netauth.Common.{
  ℕ, zero, suc, ◌+◌, ◌≡◌, ◌⊎◌, Bool, true, false, not, ◌&&◌, Option, none, some, List, [], ◌∷◌,
  ◌++◌, any, filter, if◌then◌else◌, refl, arith, inl, inr, Bool-cases, sym, ap, subst, String,
}
use sysu_netauth.Platform.{Adapter}

-- An adapter that is gone stays in the list, without its addresses.
abbrev pub unplugged : Adapter → Adapter
unplugged a = record a { up = false; ipv4 = ""; gateway = ""; dns = "" }

abbrev pub with_selected : List Adapter → Option Adapter → List Adapter
with_selected items none = items
with_selected items (some s) =
    if any (λ a. str_eq a.id s.id) items then items else items ++ (unplugged s ∷ [])

unfoldable pub refresh : List Adapter → Option Adapter → List Adapter
refresh all selected = with_selected (filter (λ a. a.ethernet) all) selected

abbrev pub next_position : Option ℕ → Option ℕ
next_position none = none
next_position (some i) = some (suc i)

-- `iter().position`
unfoldable pub selection : List Adapter → String → Option ℕ
selection [] preferred = none
selection (a ∷ as') preferred =
    let rest = selection as' preferred in
    if str_eq a.id preferred then some 0 else next_position rest

unfoldable pub item : List Adapter → ℕ → Option Adapter
item [] i = none
item (a ∷ as') zero = some a
item (a ∷ as') (suc i) = item as' i
