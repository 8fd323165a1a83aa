-- ===== src/Notifications/Posting.antt =====
-- src/notify.rs: the queue between the subscription and the assistant's window, and the delays of the
-- subscription.
use sysu_netauth.Common.{
  ℕ, zero, suc, ◌-◌, ◌*◌, ◌≡◌, ◌≤◌, ◌<◌, ◌∙◌, min, Bool, false, List, [], ◌∷◌, ◌++◌, drop, length,
  ◌==◌, if◌then◌else◌, arith, refl, sym, ap, length-append, length-drop, Bool-cases, inl, inr, leb,
  leb→le,
}
use mathlib.Core.List.{append_assoc, append-nil}

abbrev pub queue_limit : ℕ
queue_limit = 32

-- A full queue loses its oldest event.
unfoldable pub post : {A : Type 0} → A → List A → List A
post e q = (if length q == queue_limit then drop 1 q else q) ++ (e ∷ [])

unfoldable pub post_all : {A : Type 0} → List A → List A → List A
post_all [] q = q
post_all (e ∷ es) q = post_all es (post e q)

-- The last events of all.
unfoldable pub newest : {A : Type 0} → List A → List A
newest l = drop (length l - queue_limit) l

drop-suc : {A : Type 0} (n : ℕ) (l : List A) → drop 1 (drop n l) ≡ drop (suc n) l
drop-suc zero l = refl
drop-suc (suc n) [] = refl
drop-suc (suc n) (x ∷ l) = drop-suc n l

drop_before : {A : Type 0} (n : ℕ) (l r : List A) → n ≤ length l → drop n (l ++ r) ≡ drop n l ++ r
drop_before zero l r h = refl
drop_before (suc n) [] r h = absurd (omega (arith, h))
drop_before (suc n) (x ∷ l) r h = drop_before n l r (omega (arith, h))

length-newest : {A : Type 0} (l : List A) → length (newest l) ≡ min (length l) queue_limit
unfolding newest
length-newest l = omega (arith, length-drop (length l - queue_limit) l)

post-newest : {A : Type 0} (e : A) (l : List A) → post e (newest l) ≡ newest (l ++ (e ∷ []))
unfolding post newest
post-newest e l =
    let n : ℕ = length l in
    let k = length-drop (n - queue_limit) l in
    let a = length-append l (e ∷ []) in
    elim (Bool-cases (leb queue_limit n)) [
      | inl h ↦
          let g : queue_limit ≤ n = leb→le queue_limit n h in
          let f : length (drop (n - queue_limit) l) ≡ queue_limit = omega (arith, k, g) in
          let m : length (l ++ (e ∷ [])) - queue_limit ≡ suc (n - queue_limit) =
            omega (arith, a, g) in
          let b = drop_before (suc (n - queue_limit)) l (e ∷ []) (omega (arith, g)) in
          rw (f, m, b, drop-suc (n - queue_limit) l) refl
      | inr h ↦
          let g : n < queue_limit = ground (arith) in
          let z : n - queue_limit ≡ 0 = omega (arith, g) in
          let m : length (l ++ (e ∷ [])) - queue_limit ≡ 0 = omega (arith, a, g) in
          let f : (n == queue_limit) ≡ false = ground (arith) in rw (z, m, f) refl
    ]

post_all-after : {A : Type 0} (es l : List A) → post_all es (newest l) ≡ newest (l ++ es)
unfolding post_all
post_all-after [] l = ap newest (sym (append-nil l))
post_all-after (e ∷ es) l =
    ap (post_all es) (post-newest e l)
    ∙ post_all-after es (l ++ (e ∷ []))
    ∙ ap newest (append_assoc l (e ∷ []) es)

-- However many events are posted before the window looks, the queue holds exactly the last thirty-two,
-- oldest first.
pub post_all-newest : {A : Type 0} (es : List A) → post_all es [] ≡ newest es
unfolding newest
post_all-newest es = post_all-after es []

-- The loop of the subscription: the waits in seconds, where each round says whether it was given a
-- snapshot.
unfoldable pub waits : List Bool → ℕ → List ℕ
waits [] delay = []
waits (given ∷ rounds) delay =
    let d = if given then 1 else delay in d ∷ waits rounds (min (d * 2) 30)
