-- ===== src/Engine/Selection.antt =====
-- src/engine.rs, `select`: which adapters are tried, and in which order.
use text.Mathlib.Text.{◌==◌ as str_eq}
use sysu_netauth.Common.{
  ℕ, suc, inl, inr, ◌≡◌, ◌∙◌, Bool, true, false, List, [], ◌∷◌, arith, refl, ap, Bool-cases, String,
  not, ◌&&◌, filter, if◌then◌else◌,
}
use sysu_netauth.Common.Bytes.{bytes_eq}
use sysu_netauth.Platform.{Adapter, candidate}
use sysu_netauth.Engine.Types.{Engine}
use sysu_netauth.Engine.Candidates.{before, insert, sort, select, selectable}
use sysu_netauth.Engine.Ranking.{Ordered, sort-Ordered}

-- How often a test holds in a list: two lists with the same counts for every test hold the same
-- adapters equally often.
abbrev pub count : (Adapter → Bool) → List Adapter → ℕ
count p [] = 0
count p (x ∷ xs) = if p x then suc (count p xs) else count p xs

-- An up Ethernet adapter with an address, and the chosen one where the choice is manual.
abbrev pub is_usable : Engine → Adapter → Bool
is_usable e a =
    a.ethernet
    && a.up
    && not (bytes_eq a.mac (0 ∷ 0 ∷ 0 ∷ 0 ∷ 0 ∷ 0 ∷ []))
    && (if str_eq e.config.iface_mode "manual" then str_eq a.id e.config.iface else true)

count-insert :
    (last : String) (p : Adapter → Bool) (a : Adapter) (xs : List Adapter)
    → count p (insert last a xs) ≡ count p (a ∷ xs)
unfolding insert
count-insert last p a [] = refl
count-insert last p a (b ∷ bs) =
    let ih = count-insert last p a bs in
    elim (Bool-cases (before last b a)) [
      | inl q ↦ rw (q, ih) (swap (p a) (p b) (count p bs))
      | inr q ↦ rw q refl
    ]
  where
    swap :
        (x y : Bool) (n : ℕ)
        → (if y then suc (if x then suc n else n) else (if x then suc n else n))
          ≡ (if x then suc (if y then suc n else n) else (if y then suc n else n))
    swap true true n = refl
    swap true false n = refl
    swap false y n = refl

count-sort :
    (last : String) (p : Adapter → Bool) (xs : List Adapter) → count p (sort last xs) ≡ count p xs
unfolding sort
count-sort last p [] = refl
count-sort last p (a ∷ as') =
    count-insert last p a (sort last as')
    ∙ ap (λ n. if p a then suc n else n) (count-sort last p as')

selectable_usable : (e : Engine) (a : Adapter) → selectable e a ≡ is_usable e a
unfolding candidate
selectable_usable e a = elim (Bool-cases (str_eq e.config.iface_mode "manual")) [
  | inl p ↦ ground (arith)
  | inr p ↦ ground (arith)
]

count-filter :
    (e : Engine) (p : Adapter → Bool) (xs : List Adapter)
    → count p (filter (selectable e) xs) ≡ count (λ a. is_usable e a && p a) xs
count-filter e p [] = refl
count-filter e p (a ∷ as') =
    let i = count-filter e p as' in
    let u = selectable_usable e a in
    elim (Bool-cases (is_usable e a)) [ inl q ↦ simp (u, q, i) refl | inr q ↦ simp (u, q, i) refl ]

-- The candidates are the Ethernet adapters that are up and have an address, with a manual choice only
-- the chosen one, each as often as it is listed. One with the identifier that worked last comes before
-- all without it, and among those with it, and among those without it, no score is lower than a later
-- one.
pub select-Ordered :
    (e : Engine)
    → Ordered e.cache.last_success_id (select e)
      × ((p : Adapter → Bool) → count p (select e) ≡ count (λ a. is_usable e a && p a) e.adapters)
unfolding select
select-Ordered e = (
  sort-Ordered _ _,
  λ p.
      count-sort e.cache.last_success_id p (filter (selectable e) e.adapters)
      ∙ count-filter e p e.adapters,
)
