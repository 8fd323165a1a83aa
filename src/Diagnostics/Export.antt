-- ===== src/Diagnostics/Export.antt =====
-- src/diagnostics.rs: the exported log is short, and its newest line is whole.
use sysu_netauth.Common.{
  ℕ, ◌+◌, ◌-◌, ◌≡◌, ◌≤◌, ◌∙◌, ◌⊎◌, false, Option, none, some, List, [], ◌∷◌, ◌++◌, ltb, ◌==◌, arith,
  refl, sym, ap, subst, Bool-cases, inl, inr, filter,
}
use mathlib.Core.Logic.{◌≢◌}
use sysu_netauth.Diagnostics.{
  width, size, skip_bytes, after_line, whole_lines, shorten, export_limit, is_shown, redact, tail,
  exported,
}

-- The text ends with this.
abbrev pub Ends : List ℕ → List ℕ → Type 0
Ends s text = (before : List ℕ) × (text ≡ before ++ s)

size-append : (xs ys : List ℕ) → size (xs ++ ys) ≡ size xs + size ys
unfolding size
size-append [] ys = omega arith
size-append (x ∷ xs) ys = omega (arith, size-append xs ys)

width_least : (c : ℕ) → 1 ≤ width c
unfolding width
width_least c = ground (arith)

skip_zero : (text : List ℕ) → skip_bytes 0 text ≡ text
unfolding skip_bytes
skip_zero [] = refl
skip_zero (c ∷ cs) = refl

size-skip_bytes : (n : ℕ) (text : List ℕ) → size (skip_bytes n text) ≤ size text - n
unfolding size skip_bytes
size-skip_bytes n [] = omega arith
size-skip_bytes n (c ∷ cs) = let i = size-skip_bytes (n - width c) cs in ground (arith)

-- What stands after so many bytes is not skipped.
skip_bytes-Ends :
    (n : ℕ) (before s : List ℕ) → n ≤ size before → Ends s (skip_bytes n (before ++ s))
unfolding size skip_bytes
skip_bytes-Ends n [] s h =
    let z : n ≡ 0 = omega (arith, h) in ([], subst (λ m. skip_bytes m s ≡ s) (sym z) (skip_zero s))
skip_bytes-Ends n (c ∷ cs) s h = elim (Bool-cases (n == 0)) [
  | inl e ↦ (c ∷ cs, simp e refl)
  | inr e ↦ let i = skip_bytes-Ends (n - width c) cs s (omega (arith, h)) in (i.0, simp e (i.1))
]

-- A line, and the line feed that ends it.
unfoldable pub IsLine : List ℕ → Type 0
IsLine [] = ⊥
IsLine (c ∷ []) = c ≡ 10
IsLine (c ∷ (d ∷ cs)) = (c ≢ 10) × IsLine (d ∷ cs)

after_line-IsLine : (s : List ℕ) → IsLine s → after_line s ≡ some []
unfolding after_line IsLine
after_line-IsLine [] h = elim h [ ]
after_line-IsLine (c ∷ []) h = ground (arith)
after_line-IsLine (c ∷ (d ∷ cs)) h =
    let i = after_line-IsLine (d ∷ cs) h.1 in
    let e : (c == 10) ≡ false = let k = h.0 in ground (arith) in simp e i

-- What follows a line feed ends with the line, or is empty.
after_line-Ends :
    (before s : List ℕ)
    → IsLine s
    → (after_line (before ++ s) ≡ some [])
      ⊎ ((rest : List ℕ) × (after_line (before ++ s) ≡ some rest) × Ends s rest)
unfolding after_line
after_line-Ends [] s h = inl (after_line-IsLine s h)
after_line-Ends (c ∷ cs) s h = elim (Bool-cases (c == 10)) [
  | inl e ↦ inr (cs ++ s, simp e refl, (cs, refl))
  | inr e ↦ simp e (after_line-Ends cs s h)
]

whole_lines-Ends :
    (s text rest : List ℕ) → Ends s text → Ends s rest → Ends s (whole_lines text (some rest))
whole_lines-Ends s text [] a b = a
whole_lines-Ends s text (c ∷ cs) a b = b

size-after_line : (text rest : List ℕ) → after_line text ≡ some rest → size rest ≤ size text
unfolding after_line size
size-after_line [] rest e = absurd (cc)
size-after_line (c ∷ cs) rest e = elim (Bool-cases (c == 10)) [
  | inl h ↦ let k : cs ≡ rest = ground (arith) in let l = ap size k in omega (arith, l)
  | inr h ↦ let i = size-after_line cs rest (ground (arith)) in omega (arith, i)
]

size-whole_lines :
    (text : List ℕ) (o : Option (List ℕ))
    → after_line text ≡ o
    → size (whole_lines text o) ≤ size text
size-whole_lines text none e = omega arith
size-whole_lines text (some []) e = omega arith
size-whole_lines text (some (c ∷ cs)) e = size-after_line text (c ∷ cs) e

size-shorten : (text : List ℕ) → size (shorten text) ≤ export_limit
unfolding shorten
size-shorten text =
    let late : List ℕ = skip_bytes (size text - export_limit) text in
    let a = size-whole_lines late (after_line late) refl in
    let b = size-skip_bytes (size text - export_limit) text in ground (arith, a, b)

late_line : (late s : List ℕ) → Ends s late → IsLine s → Ends s (whole_lines late (after_line late))
late_line late s e h =
    let cases : (after_line late ≡ some [])
        ⊎ ((rest : List ℕ) × (after_line late ≡ some rest) × Ends s rest) =
      subst
        (λ l.
          (after_line l ≡ some []) ⊎ ((rest : List ℕ) × (after_line l ≡ some rest) × Ends s rest))
        (sym e.1) (after_line-Ends e.0 s h) in
    elim cases [
      | inl p ↦ subst (λ o. Ends s (whole_lines late o)) (sym p) e
      | inr p ↦
          subst (λ o. Ends s (whole_lines late o)) (sym p.1) (whole_lines-Ends s late p.0 e p.2)
    ]

shorten-Ends :
    (text s : List ℕ) → IsLine s → size s ≤ export_limit → Ends s text → Ends s (shorten text)
unfolding shorten
shorten-Ends text s h k e =
    let n : ℕ = size text - export_limit in
    let a : size text ≡ size e.0 + size s = ap size e.1 ∙ size-append e.0 s in
    let late : Ends s (skip_bytes n text) =
      subst (λ l. Ends s (skip_bytes n l)) (sym e.1)
        (skip_bytes-Ends n e.0 s (omega (arith, a, k))) in
    elim (Bool-cases (ltb export_limit (size text))) [
      | inl p ↦ simp p (late_line (skip_bytes n text) s late h)
      | inr p ↦ simp p e
    ]

-- Whatever the log holds, what is exported of it has at most 28 KiB in UTF-8.
pub size-exported :
    (lossy : List ℕ → List ℕ) (username password file : List ℕ)
    → size (exported lossy username password file) ≤ export_limit
unfolding exported
size-exported lossy username password file =
    size-shorten (filter is_shown (redact username password (lossy (tail file))))

-- When the redacted text of the last 32 KiB ends with a line that is closed by a line feed and has at
-- most 28 KiB, what is exported ends with this whole line.
pub exported_newest :
    (lossy : List ℕ → List ℕ) (username password file s : List ℕ)
    → IsLine s
    → size s ≤ export_limit
    → Ends s (filter is_shown (redact username password (lossy (tail file))))
    → Ends s (exported lossy username password file)
unfolding exported
exported_newest lossy username password file s h k e =
    shorten-Ends (filter is_shown (redact username password (lossy (tail file)))) s h k e
