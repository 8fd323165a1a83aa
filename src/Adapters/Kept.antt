-- ===== src/Adapters/Kept.antt =====
-- src/gui/adapters.rs: the selected adapter stays selected when the list changes.
use text.Mathlib.Text.{◌==◌ as str_eq}
use text.Mathlib.TextEquality.{eq_iff}
use sysu_netauth.Common.{
  ℕ, suc, ◌≡◌, ◌⊎◌, Bool, true, false, some, List, [], ◌∷◌, ◌++◌, any, filter, refl, arith, inl,
  inr, Bool-cases, String,
}
use sysu_netauth.Platform.{Adapter}
use sysu_netauth.Adapters.{unplugged, refresh, selection, item}

abbrev pub has_id : String → List Adapter → Bool
has_id id = any (λ a. str_eq a.id id)

-- The position that is selected holds the adapter.
abbrev pub Selects : List Adapter → String → Adapter → Type 0
Selects items id a = (i : ℕ) × (selection items id ≡ some i) × (item items i ≡ some a)

later-Selects :
    (b : Adapter) (bs : List Adapter) (id : String) (a : Adapter)
    → str_eq b.id id ≡ false
    → Selects bs id a
    → Selects (b ∷ bs) id a
unfolding selection item
later-Selects b bs id a e s = (suc s.0, simp (e, s.1) refl, s.2)

has_id-Selects :
    (items : List Adapter) (id : String)
    → has_id id items ≡ true
    → (a : Adapter) × (a.id ≡ id) × Selects items id a
unfolding selection item
has_id-Selects [] id h = absurd (cc)
has_id-Selects (b ∷ bs) id h = elim (Bool-cases (str_eq b.id id)) [
  | inl e ↦ (b, (eq_iff b.id id).0 e, (0, simp e refl, refl))
  | inr e ↦
      let i = has_id-Selects bs id (ground (arith)) in (i.0, i.1, later-Selects b bs id i.0 e i.2)
]

appended-Selects :
    (items : List Adapter) (g : Adapter) (id : String)
    → has_id id items ≡ false
    → g.id ≡ id
    → Selects (items ++ (g ∷ [])) id g
unfolding selection item
appended-Selects [] g id h e = (0, simp ((eq_iff g.id id).1 e) refl, refl)
appended-Selects (b ∷ bs) g id h e =
    later-Selects b (bs ++ (g ∷ [])) id g (ground (arith))
      (appended-Selects bs g id (ground (arith)) e)

abbrev pub wired : List Adapter → List Adapter
wired = filter (λ b. b.ethernet)

-- After a refresh the position of the selected adapter's identifier holds an adapter with this
-- identifier. Where an Ethernet adapter has it, this is the first such one, and the list is the
-- Ethernet adapters and no more; otherwise it is the placeholder, and the list is the Ethernet adapters
-- with the placeholder after them.
pub refresh-Selects :
    (all : List Adapter) (s : Adapter)
    → (a : Adapter) × (a.id ≡ s.id)
      × Selects (refresh all (some s)) s.id a
      × ((Selects (wired all) s.id a × (refresh all (some s) ≡ wired all))
          ⊎ ((has_id s.id (wired all) ≡ false)
              × (a ≡ unplugged s)
              × (refresh all (some s) ≡ wired all ++ (unplugged s ∷ []))))
unfolding refresh
refresh-Selects all s = elim (Bool-cases (has_id s.id (wired all))) [
  | inl h ↦
      let i = has_id-Selects (wired all) s.id h in (i.0, i.1, simp h i.2, inl (i.2, simp h refl))
  | inr h ↦ (
    unplugged s,
    refl,
    simp h (appended-Selects (wired all) (unplugged s) s.id h refl),
    inr (h, refl, simp h refl),
  )
]
