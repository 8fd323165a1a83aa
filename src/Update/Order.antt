-- ===== src/Update/Order.antt =====
-- src/update.rs: the order of versions.
use sysu_netauth.Common.{inl, inr, ◌≡◌, true, false, arith, Bool-cases}
use sysu_netauth.Update.Version.{Version, version_gt}

-- How two versions compare.
pub data Compared (a b : Version) : Type 0 where
  above : version_gt a b ≡ true → version_gt b a ≡ false → Compared a b
  same : a ≡ b → version_gt a b ≡ false → version_gt b a ≡ false → Compared a b
  below : version_gt a b ≡ false → version_gt b a ≡ true → Compared a b

pub gt_asym : (a b : Version) → version_gt a b ≡ true → version_gt b a ≡ false
unfolding version_gt
gt_asym a b h = ground arith

gt_total : (a b : Version) → version_gt a b ≡ false → version_gt b a ≡ false → a ≡ b
unfolding version_gt
gt_total a b h k = ground arith

-- Of two versions one is greater, or they are equal and neither is.
pub version_gt-Compared : (a b : Version) → Compared a b
version_gt-Compared a b = elim (Bool-cases (version_gt a b)) [
  | inl p ↦ above p (gt_asym a b p)
  | inr p ↦ elim (Bool-cases (version_gt b a)) [
    | inl q ↦ below p q
    | inr q ↦ same (gt_total a b p q) p q
  ]
]

-- A version above one that is above a third is above the third.
pub version_gt_trans :
    (a b c : Version) → version_gt a b ≡ true → version_gt b c ≡ true → version_gt a c ≡ true
unfolding version_gt
version_gt_trans a b c h k = ground arith
