-- ===== src/Engine/Ranking.antt =====
-- src/engine.rs, `select`: the order in which adapters are tried.
use text.Mathlib.Text.{◌==◌ as str_eq}
use text.Mathlib.TextEquality.{eq_iff}
use sysu_netauth.Common.{
  inl, inr, ◌≡◌, ◌≢◌, ◌⊎◌, Bool, true, false, List, [], ◌∷◌, arith, refl, sym, subst, Bool-cases,
  String, not, ◌&&◌, ◌||◌,
}
use sysu_netauth.Common.Integers.{ℤ, pos, negsuc, ltb_ℤ}
use sysu_netauth.Platform.{Adapter}
use sysu_netauth.Engine.Candidates.{before, insert, sort}

-- Both are the adapter that worked last, or none is.
abbrev pub SameRank : String → Adapter → Adapter → Type 0
SameRank last a b = ((a.id ≡ last) × (b.id ≡ last)) ⊎ ((a.id ≢ last) × (b.id ≢ last))

-- The one that worked last comes first, and of two others (or equals) the one with no lower score.
abbrev pub Precedes : String → Adapter → Adapter → Type 0
Precedes last a b =
    ((a.id ≡ last) × (b.id ≢ last)) ⊎ (SameRank last a b × (ltb_ℤ a.score b.score ≡ false))

-- Each adapter precedes the next one.
pub data Chain (last : String) : List Adapter → Type 0 where
  none_left : Chain last []
  one : (a : Adapter) → Chain last (a ∷ [])
  next :
      (a b : Adapter) (rest : List Adapter)
      → Precedes last a b
      → Chain last (b ∷ rest)
      → Chain last (a ∷ b ∷ rest)

asym_ℤ : (a b : ℤ) → ltb_ℤ a b ≡ true → ltb_ℤ b a ≡ false
asym_ℤ (pos a) (pos b) h = ground arith
asym_ℤ (pos a) (negsuc b) h = ground arith
asym_ℤ (negsuc a) (pos b) h = ground arith
asym_ℤ (negsuc a) (negsuc b) h = ground arith

asym_key :
    (x y s t : Bool)
    → (s ≡ true → t ≡ false)
    → x && not y || (not (not x && y) && s) ≡ true
    → y && not x || (not (not y && x) && t) ≡ false
asym_key true true s t h p = ground arith
asym_key true false s t h p = refl
asym_key false true s t h p = ground arith
asym_key false false s t h p = ground arith

before_asym : (last : String) (a b : Adapter) → before last a b ≡ true → before last b a ≡ false
unfolding before
before_asym last a b p =
    asym_key (str_eq a.id last) (str_eq b.id last) (ltb_ℤ b.score a.score) (ltb_ℤ a.score b.score)
      (asym_ℤ b.score a.score) p

unlike : (x y : String) → str_eq x y ≡ false → x ≢ y
unlike x y p q = let t = (eq_iff x y).1 q in absurd (cc)

not_before-Precedes : (last : String) (a b : Adapter) → before last b a ≡ false → Precedes last a b
unfolding before
not_before-Precedes last a b p = elim (Bool-cases (str_eq a.id last)) [
  | inl x ↦ elim (Bool-cases (str_eq b.id last)) [
    | inl y ↦ inr (inl ((eq_iff a.id last).0 x, (eq_iff b.id last).0 y), ground (arith))
    | inr y ↦ inl ((eq_iff a.id last).0 x, unlike b.id last y)
  ]
  | inr x ↦ elim (Bool-cases (str_eq b.id last)) [
    | inl y ↦ absurd (ground (arith))
    | inr y ↦ inr (inr (unlike a.id last x, unlike b.id last y), ground (arith))
  ]
]

insert_past :
    (last : String) (a b : Adapter) (bs : List Adapter)
    → before last b a ≡ true
    → insert last a (b ∷ bs) ≡ b ∷ insert last a bs
unfolding insert
insert_past last a b bs p = rw p refl

insert_here :
    (last : String) (a b : Adapter) (bs : List Adapter)
    → before last b a ≡ false
    → insert last a (b ∷ bs) ≡ a ∷ b ∷ bs
unfolding insert
insert_here last a b bs p = rw p refl

insert-Chain :
    (last : String) (a : Adapter) (xs : List Adapter)
    → Chain last xs
    → Chain last (insert last a xs)
unfolding insert
insert-Chain last a [] h = one a
insert-Chain last a (b ∷ []) h = elim (Bool-cases (before last b a)) [
  | inl p ↦ rw p (next b a [] (not_before-Precedes last b a (before_asym last b a p)) (one a))
  | inr p ↦ rw p (next a b [] (not_before-Precedes last a b p) h)
]
insert-Chain last a (b ∷ c ∷ rest) (next _ _ _ q h) = elim (Bool-cases (before last b a)) [
  | inl p ↦ rw p (below (insert-Chain last a (c ∷ rest) h) p)
  | inr p ↦ rw p (next a b (c ∷ rest) (not_before-Precedes last a b p) (next b c rest q h))
]
  where
    below :
        Chain last (insert last a (c ∷ rest))
        → before last b a ≡ true
        → Chain last (b ∷ insert last a (c ∷ rest))
    below k p = elim (Bool-cases (before last c a)) [
      | inl r ↦
          subst (λ xs. Chain last (b ∷ xs)) (sym (insert_past last a c rest r))
            (next b c (insert last a rest) q
              (subst (λ xs. Chain last xs) (insert_past last a c rest r) k))
      | inr r ↦
          subst (λ xs. Chain last (b ∷ xs)) (sym (insert_here last a c rest r))
            (next b a (c ∷ rest) (not_before-Precedes last b a (before_asym last b a p))
              (next a c rest (not_before-Precedes last a c r) h))
    ]

sort-Chain : (last : String) (xs : List Adapter) → Chain last (sort last xs)
unfolding sort
sort-Chain last [] = none_left
sort-Chain last (a ∷ as') = insert-Chain last a (sort last as') (sort-Chain last as')

-- Every adapter precedes all that come after it.
unfoldable pub AllAfter : String → Adapter → List Adapter → Type 0
AllAfter last a [] = Unit
AllAfter last a (b ∷ bs) = Precedes last a b × AllAfter last a bs

unfoldable pub Ordered : String → List Adapter → Type 0
Ordered last [] = Unit
Ordered last (a ∷ as') = AllAfter last a as' × Ordered last as'

not_lower : (a b c : ℤ) → ltb_ℤ a b ≡ false → ltb_ℤ b c ≡ false → ltb_ℤ a c ≡ false
not_lower (pos a) (pos b) (pos c) h k = ground arith
not_lower (pos a) (pos b) (negsuc c) h k = ground arith
not_lower (pos a) (negsuc b) (pos c) h k = ground arith
not_lower (pos a) (negsuc b) (negsuc c) h k = ground arith
not_lower (negsuc a) (pos b) (pos c) h k = ground arith
not_lower (negsuc a) (pos b) (negsuc c) h k = ground arith
not_lower (negsuc a) (negsuc b) (pos c) h k = ground arith
not_lower (negsuc a) (negsuc b) (negsuc c) h k = ground arith

Precedes-Precedes :
    (last : String) (a b c : Adapter) → Precedes last a b → Precedes last b c → Precedes last a c
Precedes-Precedes last a b c (inl p) (inl q) = absurd (p.1 q.0)
Precedes-Precedes last a b c (inl p) (inr (inl r, s)) = absurd (p.1 r.0)
Precedes-Precedes last a b c (inl p) (inr (inr r, s)) = inl (p.0, r.1)
Precedes-Precedes last a b c (inr (inl p, s)) (inl q) = inl (p.0, q.1)
Precedes-Precedes last a b c (inr (inr p, s)) (inl q) = absurd (p.1 q.0)
Precedes-Precedes last a b c (inr (inl p, s)) (inr (inl q, t)) =
    inr (inl (p.0, q.1), not_lower a.score b.score c.score s t)
Precedes-Precedes last a b c (inr (inl p, s)) (inr (inr q, t)) = absurd (q.0 p.1)
Precedes-Precedes last a b c (inr (inr p, s)) (inr (inl q, t)) = absurd (p.1 q.0)
Precedes-Precedes last a b c (inr (inr p, s)) (inr (inr q, t)) =
    inr (inr (p.0, q.1), not_lower a.score b.score c.score s t)

Precedes-AllAfter :
    (last : String) (a b : Adapter) (xs : List Adapter)
    → Precedes last a b
    → AllAfter last b xs
    → AllAfter last a xs
unfolding AllAfter
Precedes-AllAfter last a b [] p h = tt
Precedes-AllAfter last a b (c ∷ cs) p h =
    (Precedes-Precedes last a b c p h.0, Precedes-AllAfter last a b cs p h.1)

Chain-Ordered : (last : String) (xs : List Adapter) → Chain last xs → Ordered last xs
unfolding Ordered AllAfter
Chain-Ordered last [] h = tt
Chain-Ordered last (a ∷ []) h = (tt, tt)
Chain-Ordered last (a ∷ b ∷ rest) (next _ _ _ p h) =
    let i = Chain-Ordered last (b ∷ rest) h in ((p, Precedes-AllAfter last a b rest p i.0), i)

pub sort-Ordered : (last : String) (xs : List Adapter) → Ordered last (sort last xs)
sort-Ordered last xs = Chain-Ordered last (sort last xs) (sort-Chain last xs)
