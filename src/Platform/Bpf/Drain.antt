-- ===== src/Platform/Bpf/Drain.antt =====
-- src/platform/bpf.rs: all the frames of a buffer, as the calls of `next_frame` hand them out until
-- the buffer is used up or a record is refused.
use sysu_netauth.Common.{
  ℕ, zero, suc, ◌+◌, ◌-◌, ◌*◌, ◌≡◌, ◌≤◌, ◌<◌, ◌∙◌, true, false, Option, none, some, List, [], ◌∷◌,
  ◌++◌, leb, length, drop, Result, ok, err, arith, refl, sym, ap, length-append, take-append,
  drop-append, is_some, Bool-cases, inl, inr, map,
}
use mathlib.Core.List.{append_assoc, append-nil}
use sysu_netauth.Common.Bytes.{slice}
use sysu_netauth.Platform.Bpf.{align, header, record_end, taken, next_frame}
use sysu_netauth.Platform.Bpf.Records.{
  Captured, Fits, body, record_of, length-body, record_end-body, to_le16, to_le32, stamp_bytes,
}

-- The frames so far, and how the last call ended.
abbrev pub Frames : Type 0
Frames = List (List ℕ) × Result (Unit {0})

abbrev pub first : List ℕ → Option Frames → Option Frames
first p none = none
first p (some (l, e)) = some (p ∷ l, e)

abbrev pub handed_out : Result (Option (List ℕ)) → Option Frames → Option Frames
handed_out (err e) rest = some ([], err e)
handed_out (ok none) rest = some ([], ok tt)
handed_out (ok (some p)) rest = first p rest

-- No result when the calls are used up.
unfoldable pub drain : ℕ → List ℕ → ℕ → Option Frames
drain zero bytes offset = none
drain (suc calls) bytes offset =
    let rest = drain calls bytes (next_frame bytes offset).0 in
    handed_out (next_frame bytes offset).1 rest

record_end_least : (r : List ℕ) (n : ℕ) → record_end r ≡ ok n → 18 ≤ n
unfolding record_end
record_end_least r n e = ground (arith)

taken_least :
    (r : List ℕ) (o n : ℕ) (p : List ℕ) (t : Result ℕ)
    → ((n : ℕ) → t ≡ ok n → 18 ≤ n)
    → taken r o t ≡ (n, ok (some p))
    → o + 20 ≤ n
unfolding taken
taken_least r o n p (err e) h q = ground (arith)
taken_least r o n p (ok m) h q = let g = h m refl in ground (arith)

-- Each frame takes twenty bytes or more, and starts inside of the buffer.
pub next_frame_least :
    (b : List ℕ) (o n : ℕ) (p : List ℕ)
    → next_frame b o ≡ (n, ok (some p))
    → (o < length b) × (o + 20 ≤ n)
unfolding next_frame
next_frame_least b o n p e = elim (Bool-cases (leb (length b) o)) [
  | inl h ↦ ground (arith)
  | inr h ↦ (
    ground (arith),
    taken_least (drop o b) o n p (record_end (drop o b)) (record_end_least (drop o b))
        (ground (arith)),
  )
]

first_some : (p : List ℕ) (r : Option Frames) → is_some r ≡ true → is_some (first p r) ≡ true
first_some p none e = e
first_some p (some (l, x)) e = refl

handed_out-some :
    (r : Result (Option (List ℕ))) (rest : Option Frames)
    → ((p : List ℕ) → r ≡ ok (some p) → is_some rest ≡ true)
    → is_some (handed_out r rest) ≡ true
handed_out-some (err e) rest h = refl
handed_out-some (ok none) rest h = refl
handed_out-some (ok (some p)) rest h = first_some p rest (h p refl)

-- Whatever bytes a buffer holds, it is used up or refused after at most one call for each twenty bytes
-- that are left, and one more.
pub drain_some :
    (calls : ℕ) (b : List ℕ) (o : ℕ)
    → length b ≤ o + 20 * calls
    → is_some (drain (suc calls) b o) ≡ true
unfolding drain
drain_some zero b o h = handed_out-some (next_frame b o).1 (drain zero b (next_frame b o).0) (λ p e.
    let g = next_frame_least b o (next_frame b o).0 p (ap (λ r. ((next_frame b o).0, r)) e) in
    ground (arith))
drain_some (suc f) b o h =
    handed_out-some (next_frame b o).1 (drain (suc f) b (next_frame b o).0) (λ p e.
      let g = next_frame_least b o (next_frame b o).0 p (ap (λ r. ((next_frame b o).0, r)) e) in
      drain_some f b (next_frame b o).0 (omega (arith, g.0, g.1)))

header-body :
    (c : Captured) (rest : List ℕ) → Fits c → header (body c ++ rest) ≡ 18 + length c.extra
unfolding body
header-body c rest h = let t = h.short in ground (arith)

-- The middle one of three lists.
slice_middle :
    (xs ys zs : List ℕ) (a b : ℕ)
    → a ≡ length xs
    → b ≡ length xs + length ys
    → slice (xs ++ (ys ++ zs)) a b ≡ ys
slice_middle xs ys zs a b p q =
    let d = drop-append xs (ys ++ zs) in
    let t = take-append ys zs in let e : b - a ≡ length ys = omega (arith, p, q) in rw (e, p, d) t

head_of : Captured → List ℕ
head_of c =
    stamp_bytes c.stamp
    ++ (to_le32 (length c.packet)
        ++ (to_le32 (length c.packet) ++ (to_le16 (18 + length c.extra) ++ c.extra)))

slice-body :
    (c : Captured) (rest : List ℕ)
    → slice (body c ++ rest) (18 + length c.extra) (18 + length c.extra + length c.packet)
      ≡ c.packet
unfolding body head_of
slice-body c rest =
    let e : body c ++ rest ≡ head_of c ++ (c.packet ++ rest) = simp (append_assoc) refl in
    rw e (
      slice_middle (head_of c) c.packet rest (18 + length c.extra)
        (18 + length c.extra + length c.packet) (omega arith) (omega arith))

-- One record, with what follows it, is read back.
taken-body :
    (c : Captured) (rest : List ℕ) (o : ℕ)
    → Fits c
    → taken (body c ++ rest) o (record_end (body c ++ rest))
      ≡ (o + align (18 + length c.extra + length c.packet), ok (some c.packet))
unfolding taken
taken-body c rest o h = rw (record_end-body c rest h, header-body c rest h, slice-body c rest) refl

-- The last record of a buffer, without padding.
pub next_frame-body :
    (before : List ℕ) (c : Captured)
    → Fits c
    → next_frame (before ++ body c) (length before)
      ≡ (length before + align (18 + length c.extra + length c.packet), ok (some c.packet))
unfolding next_frame
next_frame-body before c h =
    let g : leb (length (before ++ body c)) (length before) ≡ false =
      ground (arith, length-append before (body c), length-body c) in
    let e : body c ++ [] ≡ body c = append-nil (body c) in
    let t : taken (body c) (length before) (record_end (body c))
        ≡ (length before + align (18 + length c.extra + length c.packet), ok (some c.packet)) =
      rw (← e) (taken-body c [] (length before) h) in
    rw (g, drop-append before (body c), t) refl

pub next_frame-record :
    (before : List ℕ) (c : Captured) (rest : List ℕ)
    → Fits c
    → next_frame (before ++ (record_of c ++ rest)) (length before)
      ≡ (length (before ++ record_of c), ok (some c.packet))
unfolding next_frame record_of
next_frame-record before c rest h =
    let n : ℕ = 18 + length c.extra + length c.packet in
    let pad : List ℕ = c.padding in
    let a : (body c ++ pad) ++ rest ≡ body c ++ (pad ++ rest) = append_assoc (body c) pad rest in
    let g : leb (length (before ++ (body c ++ (pad ++ rest)))) (length before) ≡ false = ground (
      arith,
      length-append before (body c ++ (pad ++ rest)),
      length-append (body c) (pad ++ rest),
      length-body c,
    ) in
    let l : length (before ++ (body c ++ pad)) ≡ length before + align n = omega (
      arith,
      length-append before (body c ++ pad),
      length-append (body c) pad,
      length-body c,
      h.padded,
    ) in
    rw
      (
        a,
        g,
        drop-append before (body c ++ (pad ++ rest)),
        taken-body c (pad ++ rest) (length before) h,
        l,
      )
      refl

unfoldable pub records : List Captured → List ℕ
records [] = []
records (c ∷ cs) = record_of c ++ records cs

unfoldable pub AllFit : List Captured → Type 0
AllFit [] = Unit
AllFit (c ∷ cs) = Fits c × AllFit cs

abbrev pub packets : List Captured → List (List ℕ)
packets = map (λ c. c.packet)

pub next_frame_end : (b : List ℕ) → next_frame b (length b) ≡ (length b, ok none)
unfolding next_frame
next_frame_end b = ground (arith)

drain_step :
    (calls : ℕ) (b : List ℕ) (o n : ℕ) (p : List ℕ)
    → next_frame b o ≡ (n, ok (some p))
    → drain (suc calls) b o ≡ first p (drain calls b n)
unfolding drain
drain_step calls b o n p e = rw e refl

drain_stop : (calls : ℕ) (b : List ℕ) → drain (suc calls) b (length b) ≡ some ([], ok tt)
unfolding drain
drain_stop calls b = rw (next_frame_end b) refl

drain-after :
    (before : List ℕ) (cs : List Captured)
    → AllFit cs
    → drain (suc (length cs)) (before ++ records cs) (length before) ≡ some (packets cs, ok tt)
unfolding records AllFit
drain-after before [] h = rw append-nil (drain_stop zero before)
drain-after before (c ∷ cs) h =
    let b : List ℕ = before ++ (record_of c ++ records cs) in
    let s =
      drain_step (suc (length cs)) b (length before) (length (before ++ record_of c)) c.packet
        (next_frame-record before c (records cs) h.0) in
    let a : b ≡ (before ++ record_of c) ++ records cs =
      sym (append_assoc before (record_of c) (records cs)) in
    let i : drain (suc (length cs)) b (length (before ++ record_of c)) ≡ some (packets cs, ok tt) =
      rw a (drain-after (before ++ record_of c) cs h.1) in
    s ∙ ap (first c.packet) i

-- A buffer of records gives their packets in order, without their headers and padding.
pub drain-records :
    (cs : List Captured)
    → AllFit cs
    → drain (suc (length cs)) (records cs) 0 ≡ some (packets cs, ok tt)
drain-records cs h = drain-after [] cs h
