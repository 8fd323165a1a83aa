-- ===== src/Ipc/Frames.antt =====
-- src/ipc.rs: a frame that was written is read back, and what a frame that was read looked like.
use sysu_netauth.Common.{
  ℕ, ◌/◌, ◌%◌, ◌≡◌, ◌≤◌, ◌<◌, ◌∙◌, true, ◌&&◌, List, [], ◌∷◌, ◌++◌, leb, ltb, length, Result, ok,
  err, arith, refl, sym, ap, subst, take-append, drop-append, length-append, Result-cases, inl, inr,
}
use mathlib.Core.List.{append_assoc}
use sysu_netauth.Ipc.{
  Json, Sink, max_message, write_all, and_then, to_be32, from_be32, write_bytes, write_frame,
  read_exact, read_frame,
}

-- What the client relies on: a value's text is not empty and is parsed back.
pub record Parses {A : Type 0} (j : Json A) : Type 0 where
  pub back : (v : A) (bs : List ℕ) → j.to_vec v ≡ ok bs → j.from_slice bs ≡ ok v
  pub filled : (v : A) (bs : List ℕ) → j.to_vec v ≡ ok bs → 0 < length bs

abbrev pub frame_of : List ℕ → List ℕ
frame_of bs = to_be32 (length bs) ++ bs

-- A value's frame.
pub record IsFrame {A : Type 0} (j : Json A) (v : A) (f : List ℕ) : Type 0 where
  pub text : List ℕ
  pub encoded : j.to_vec v ≡ ok text
  pub small : length text ≤ max_message
  pub framed : f ≡ frame_of text

write_all_ok :
    (s : Sink) (bs : List ℕ) → (write_all s bs).1 ≡ ok tt → (write_all s bs).0.out ≡ s.out ++ bs
unfolding write_all
write_all_ok s bs e = ground (arith)

-- Both steps succeed.
pub and_then_ok :
    (r : Sink × Result (Unit {0})) (f : Sink → Sink × Result (Unit {0})) (t : Sink)
    → and_then r f ≡ (t, ok tt)
    → (r.1 ≡ ok tt) × (f r.0 ≡ (t, ok tt))
and_then_ok (s, ok tt) f t e = (refl, e)
and_then_ok (s, err x) f t e = absurd (cc)

from_be32-to_be32 : (n : ℕ) → n ≤ max_message → from_be32 (to_be32 n) ≡ n
from_be32-to_be32 n h = omega arith

read_exact-append : (xs ys : List ℕ) → read_exact (length xs) (xs ++ ys) ≡ ok (xs, ys)
unfolding read_exact
read_exact-append xs ys =
    let l : leb (length xs) (length (xs ++ ys)) ≡ true = ground (arith, length-append xs ys) in
    rw (l, take-append xs ys, drop-append xs ys) refl

read_four :
    (a b c d : ℕ) (ys : List ℕ) → read_exact 4 (a ∷ b ∷ c ∷ d ∷ ys) ≡ ok (a ∷ b ∷ c ∷ d ∷ [], ys)
unfolding read_exact
read_four a b c d ys =
    let l : leb 4 (length (a ∷ b ∷ c ∷ d ∷ ys)) ≡ true = ground (arith) in rw l refl

read_frame_text :
    {A : Type 0} (j : Json A) (v : A) (bs rest : List ℕ)
    → 0 < length bs
    → length bs ≤ max_message
    → j.from_slice bs ≡ ok v
    → read_frame j (frame_of bs ++ rest) ≡ ok (v, rest)
unfolding read_frame
read_frame_text j v bs rest l k e =
    let n : ℕ = length bs in
    let p =
      read_four (n / 16777216 % 256) (n / 65536 % 256) (n / 256 % 256) (n % 256) (bs ++ rest) in
    let q : (ltb 0 n && leb n max_message) ≡ true = ground (arith) in
    rw (p, from_be32-to_be32 n k, q, read_exact-append bs rest, e) refl

pub read_frame-frame :
    {A : Type 0} (j : Json A) (v : A) (f rest : List ℕ)
    → Parses j
    → IsFrame j v f
    → read_frame j (f ++ rest) ≡ ok (v, rest)
read_frame-frame j v f rest p h = rw (h.framed) (
    read_frame_text j v h.text rest (p.filled v h.text h.encoded) h.small
      (p.back v h.text h.encoded))

write_bytes_ok :
    (s t : Sink) (bs : List ℕ)
    → write_bytes s (ok bs) ≡ (t, ok tt)
    → (length bs ≤ max_message) × (t.out ≡ s.out ++ frame_of bs)
write_bytes_ok s t bs e =
    let k : leb (length bs) max_message ≡ true = ground (arith) in
    let c : List ℕ = to_be32 (length bs) in
    let g : and_then (write_all s c) (λ t. and_then (write_all t bs) (λ u. (u, u.flush)))
        ≡ (t, ok tt) =
      ground (arith) in
    let a = and_then_ok (write_all s c) (λ t. and_then (write_all t bs) (λ u. (u, u.flush))) t g in
    let r : Sink = (write_all s c).0 in
    let b = and_then_ok (write_all r bs) (λ u. (u, u.flush)) t a.1 in
    let x = write_all_ok s c a.0 in
    let y = write_all_ok r bs b.0 in
    let z : (write_all r bs).0 ≡ t = ap (λ (q : Sink × Result (Unit {0})). q.0) b.1 in
    (
      ground (arith),
      sym (ap (λ (u : Sink). u.out) z) ∙ y ∙ ap (λ l. l ++ bs) x ∙ append_assoc s.out c bs,
    )

-- A write that succeeds puts one frame behind what was written before.
pub write_frame_ok :
    {A : Type 0} (j : Json A) (s t : Sink) (v : A)
    → write_frame j s v ≡ (t, ok tt)
    → (f : List ℕ) × IsFrame j v f × (t.out ≡ s.out ++ f)
unfolding write_frame
write_frame_ok j s t v e = elim (Result-cases (j.to_vec v)) [
  | inl h ↦
      let k = subst (λ r. write_bytes s r ≡ (t, ok tt)) h.1 e in
      let w = write_bytes_ok s t h.0 k in
      (frame_of h.0, record { text = h.0; encoded = h.1; small = w.0; framed = refl }, w.1)
  | inr h ↦ let k = subst (λ r. write_bytes s r ≡ (t, ok tt)) h.1 e in absurd (cc)
]
