-- ===== src/Update/Sources.antt =====
-- src/update.rs: what the merge of the sources chooses.
use sysu_netauth.Common.{
  inl, inr, ◌≡◌, ◌⊎◌, ◌∙◌, true, false, Option, none, some, List, [], ◌∷◌, ◌++◌, if◌then◌else◌,
  Result, ok, err, String, arith, refl, sym, ap, subst, Bool-cases,
}
use sysu_netauth.Update.{Update}
use sysu_netauth.Update.Version.{Version, version_gt, option_gt}
use sysu_netauth.Update.Feed.{release_version, newest_of, merged_sources}

-- No release of the list is newer than `u`.
pub data NoneNewer (u : Update) : List (Result Update) → Type 0 where
  none_left : NoneNewer u []
  failed :
      (e : String) (rest : List (Result Update)) → NoneNewer u rest → NoneNewer u (err e ∷ rest)
  older :
      (v : Update) (rest : List (Result Update))
      → option_gt (release_version v) (release_version u) ≡ false
      → NoneNewer u rest
      → NoneNewer u (ok v ∷ rest)

-- The list has the release `u`.
pub data Among (u : Update) : List (Result Update) → Type 0 where
  here : (rest : List (Result Update)) → Among u (ok u ∷ rest)
  there : (r : Result Update) (rest : List (Result Update)) → Among u rest → Among u (r ∷ rest)

-- A version that is not above one that is not above a third is not above the third.
gt_through :
    (a b c : Option Version) → option_gt a b ≡ false → option_gt b c ≡ false → option_gt a c ≡ false
unfolding version_gt
gt_through none b c p q = refl
gt_through (some a) none c p q = ground arith
gt_through (some a) (some b) none p q = ground arith
gt_through (some a) (some b) (some c) p q = ground arith

gt_not_back : (a b : Option Version) → option_gt a b ≡ true → option_gt b a ≡ false
unfolding version_gt
gt_not_back none b p = ground arith
gt_not_back (some a) none p = refl
gt_not_back (some a) (some b) p = ground arith

gt_irreflexive : (a : Option Version) → option_gt a a ≡ false
unfolding version_gt
gt_irreflexive none = refl
gt_irreflexive (some a) = ground arith

-- What the loop keeps of `known` and of the rest.
Kept : Update → Update → List (Result Update) → Type 0
Kept u known rest =
    NoneNewer u rest
    × (option_gt (release_version known) (release_version u) ≡ false)
    × ((known ≡ u) ⊎ Among u rest)

newest_of-Kept :
    (rest : List (Result Update)) (known u : Update) (errors : List String)
    → (newest_of rest (some known) errors).0 ≡ some u
    → Kept u known rest
unfolding newest_of Kept
newest_of-Kept [] known u errors h =
    let same : known ≡ u = ground arith in
    (
      none_left,
      subst (λ w. option_gt (release_version known) (release_version w) ≡ false) same
          (gt_irreflexive _),
      inl same,
    )
newest_of-Kept (err e ∷ rest) known u errors h =
    let (none_newer, least, where_from) = newest_of-Kept rest known u (errors ++ (e ∷ [])) h in
    (failed e rest none_newer, least, later where_from)
  where
    later : (known ≡ u) ⊎ Among u rest → (known ≡ u) ⊎ Among u (err e ∷ rest)
    later (inl p) = inl p
    later (inr p) = inr (there (err e) rest p)
newest_of-Kept (ok v ∷ rest) known u errors h =
    elim (Bool-cases (option_gt (release_version v) (release_version known))) [
      | inl g ↦
          let (none_newer, least, where_from) =
            newest_of-Kept rest v u errors
              (ap (λ b. (newest_of rest (some (if b then v else known)) errors).0) (sym g) ∙ h) in
          (
            older v rest least none_newer,
            gt_through _ _ _ (gt_not_back _ _ g) least,
            inr (moved where_from),
          )
      | inr g ↦
          let (none_newer, least, where_from) =
            newest_of-Kept rest known u errors
              (ap (λ b. (newest_of rest (some (if b then v else known)) errors).0) (sym g) ∙ h) in
          (older v rest (gt_through _ _ _ g least) none_newer, least, later where_from)
    ]
  where
    moved : (v ≡ u) ⊎ Among u rest → Among u (ok v ∷ rest)
    moved (inl p) = subst (λ w. Among u (ok w ∷ rest)) (sym p) (here rest)
    moved (inr p) = there (ok v) rest p

    later : (known ≡ u) ⊎ Among u rest → (known ≡ u) ⊎ Among u (ok v ∷ rest)
    later (inl p) = inl p
    later (inr p) = inr (there (ok v) rest p)

-- The release that the merge of the sources gives is one that a source gave, and no source gave a
-- newer one.
pub newest_of-Among :
    (results : List (Result Update)) (errors : List String) (u : Update)
    → merged_sources (newest_of results none errors) ≡ ok u
    → Among u results × NoneNewer u results
unfolding newest_of merged_sources Kept
newest_of-Among [] errors u h = ground arith
newest_of-Among (err e ∷ rest) errors u h =
    let (among, none_newer) = newest_of-Among rest (errors ++ (e ∷ [])) u h in
    (there (err e) rest among, failed e rest none_newer)
newest_of-Among (ok v ∷ rest) errors u h =
    let (none_newer, least, where_from) =
      newest_of-Kept rest v u errors (given (newest_of rest (some v) errors) h) in
    (placed where_from, older v rest least none_newer)
  where
    given : (r : Option Update × List String) → merged_sources r ≡ ok u → r.0 ≡ some u
    given (none, es) p = ground arith
    given (some w, es) p = ground arith

    placed : (v ≡ u) ⊎ Among u rest → Among u (ok v ∷ rest)
    placed (inl p) = subst (λ w. Among u (ok w ∷ rest)) (sym p) (here rest)
    placed (inr p) = there (ok v) rest p
