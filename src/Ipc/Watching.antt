-- ===== src/Ipc/Watching.antt =====
-- src/ipc.rs: what a client sees of a watch that the service serves.
use sysu_netauth.Common.{
  ℕ, zero, suc, ◌≡◌, ◌≤◌, ◌<◌, ◌∙◌, Bool, true, false, Option, none, some, List, [], ◌∷◌, ◌++◌,
  length, Result, ok, err, refl, sym, ap, subst, arith, length-append,
}
use mathlib.Core.List.{append_assoc, append-nil}
use sysu_netauth.Engine.Types.{watch as watching}
use sysu_netauth.Ipc.{Json, Request, Response, Sink, write_frame, read_frame, and_then, read_exact}
use sysu_netauth.Ipc.Frames.{Parses, IsFrame, read_frame-frame, write_frame_ok, and_then_ok}
use sysu_netauth.Ipc.Server.{Answer, replied, Notice, pushed, push, serve}
use sysu_netauth.Ipc.Client.{follow, watch}

-- What the loop pushes: the notifications up to the first that ends it.
abbrev pub handed : {S : Type 0} → Bool → Option S → List S → List S
handed false u rest = []
handed true none rest = []
handed true (some v) rest = v ∷ rest

unfoldable pub news : {S : Type 0} → List (Notice S) → List S
news [] = []
news (n ∷ ns) = handed n.alive n.update (news ns)

-- A stream that is made of the frames of some values.
unfoldable pub AreFrames : {A : Type 0} → Json A → List A → List ℕ → Type 0
AreFrames j [] s = s ≡ []
AreFrames j (v ∷ vs) s =
    (f : List ℕ) × (rest : List ℕ) × IsFrame j v f × (s ≡ f ++ rest) × AreFrames j vs rest

module _ {Value Snapshot : Type 0} (requests : Json Request) (responses : Json (Response Value))
    (snapshots : Json Snapshot) (null : Value) where
  -- What is pushed from `s` to `t`: the frames of these values.
  abbrev Adds : List Snapshot → Sink → Sink → Type 0
  Adds vs s t = (out : List ℕ) × (t.out ≡ s.out ++ out) × AreFrames snapshots vs out

  nothing-Adds :
      (s t : Sink) → ◌≡◌ {A = Sink × Result (Unit {0})} (s, ok tt) (t, ok tt) → Adds [] s t
  unfolding AreFrames
  nothing-Adds s t e =
      ([], sym (ap (λ (r : Sink × Result (Unit {0})). r.0.out) e) ∙ sym (append-nil s.out), refl)

  pushed-Adds :
      (b : Bool) (u : Option Snapshot) (s t : Sink) (again : Sink → Sink × Result (Unit {0}))
      (vs : List Snapshot)
      → ((r : Sink) → again r ≡ (t, ok tt) → Adds vs r t)
      → pushed requests responses snapshots null b u s again ≡ (t, ok tt)
      → Adds (handed b u vs) s t
  unfolding AreFrames
  pushed-Adds false u s t again vs h e = nothing-Adds s t e
  pushed-Adds true none s t again vs h e = nothing-Adds s t e
  pushed-Adds true (some v) s t again vs h e =
      let w : Sink × Result (Unit {0}) = write_frame snapshots s v in
      let a = and_then_ok w again t e in
      let f = write_frame_ok snapshots s w.0 v (ap (λ z. (w.0, z)) a.0) in
      let r = h w.0 a.1 in
      (
        f.0 ++ r.0,
        r.1 ∙ ap (λ l. l ++ r.0) f.2 ∙ append_assoc s.out f.0 r.0,
        (f.0, r.0, f.1, refl, r.2),
      )

  push-Adds :
      (ns : List (Notice Snapshot)) (s t : Sink)
      → push requests responses snapshots null ns s ≡ (t, ok tt)
      → Adds (news ns) s t
  unfolding push news
  push-Adds [] s t e = nothing-Adds s t e
  push-Adds (n ∷ ns) s t e =
      pushed-Adds n.alive n.update s t (push requests responses snapshots null ns) (news ns)
        (λ r. push-Adds ns r t) e

read_end : {A : Type 0} (j : Json A) → read_frame j [] ≡ err "failed to fill whole buffer"
unfolding read_frame read_exact
read_end j = refl

IsFrame-least : {A : Type 0} (j : Json A) (v : A) (f : List ℕ) → IsFrame j v f → 4 ≤ length f
IsFrame-least j v f h = let e = ap length h.framed in omega (arith, e)

AreFrames-least :
    {A : Type 0} (j : Json A) (vs : List A) (s : List ℕ) → AreFrames j vs s → length vs ≤ length s
unfolding AreFrames
AreFrames-least j [] s h = omega arith
AreFrames-least j (v ∷ vs) s h =
    let i = AreFrames-least j vs h.1 h.4 in
    let l = IsFrame-least j v h.0 h.2 in
    let e = ap length h.3 in omega (arith, i, l, e, length-append h.0 h.1)

module _ {Value Snapshot : Type 0} (requests : Json Request) (responses : Json (Response Value))
    (snapshots : Json Snapshot) (from_value : Value → Result Snapshot) where
  follow-frames :
      (vs : List Snapshot) (s : List ℕ) (fuel : ℕ) (callback : Snapshot → Result (Unit {0}))
      → Parses snapshots
      → ((v : Snapshot) → callback v ≡ ok tt)
      → AreFrames snapshots vs s
      → length vs < fuel
      → follow requests responses snapshots from_value fuel callback s
        ≡ some (vs, "failed to fill whole buffer")
  unfolding follow AreFrames
  follow-frames vs s zero callback p c h l = absurd (omega (arith, l))
  follow-frames [] s (suc fuel) callback p c h l = rw (h, read_end snapshots) refl
  follow-frames (v ∷ vs) s (suc fuel) callback p c h l =
      let k : length vs < fuel = omega (arith, l) in
      let i = follow-frames vs h.1 fuel callback p c h.4 k in
      rw (h.3, read_frame-frame snapshots v h.0 h.1 p h.2, i, c v) refl

asked : Request
asked = record { version = 1; id = 1; action = watching }

module _ {Value Snapshot : Type 0} (requests : Json Request) (responses : Json (Response Value))
    (snapshots : Json Snapshot) (from_value : Value → Result Snapshot) (null : Value) where
  -- The answer's frame, and those of the news.
  serve-Adds :
      (f : List ℕ) (answer : Request → Answer Value) (a : Response Value)
      (ns : List (Notice Snapshot)) (s t : Sink)
      → Parses requests
      → IsFrame requests asked f
      → answer asked ≡ replied a
      → a.is_ok ≡ true
      → serve requests responses snapshots null f answer (ok tt) ns s ≡ (t, ok tt)
      → (fa : List ℕ) × (out : List ℕ) × IsFrame responses a fa
        × (t.out ≡ (s.out ++ fa) ++ out)
        × AreFrames snapshots (news ns) out
  unfolding serve asked
  serve-Adds f answer a ns s t p h e g q =
      let r : read_frame requests f ≡ ok (asked, []) =
        subst (λ l. read_frame requests l ≡ ok (asked, [])) (append-nil f)
          (read_frame-frame requests asked f [] p h) in
      let w : Sink × Result (Unit {0}) = write_frame responses s a in
      let m : serve requests responses snapshots null f answer (ok tt) ns s
          ≡ and_then (write_frame responses s a) (push requests responses snapshots null ns) =
        rw (r, e, g) refl in
      let k : and_then w (push requests responses snapshots null ns) ≡ (t, ok tt) = sym m ∙ q in
      let x = and_then_ok w (push requests responses snapshots null ns) t k in
      let y = write_frame_ok responses s w.0 a (ap (λ z. (w.0, z)) x.0) in
      let z = push-Adds requests responses snapshots null ns w.0 t x.1 in
      (y.0, z.0, y.1, z.1 ∙ ap (λ l. l ++ z.0) y.2, z.2)

  -- A client that asks to watch, is served without an error and never refuses a snapshot, is given the
  -- snapshot of the answer and then exactly the news of the loop, in order, until the stream ends. The
  -- request, the answer and the snapshots are parsed back from their texts.
  pub watch-serve :
      (c d : Sink) (answer : Request → Answer Value) (a : Response Value) (v : Snapshot)
      (ns : List (Notice Snapshot)) (s t : Sink) (callback : Snapshot → Result (Unit {0}))
      → Parses requests
      → Parses responses
      → Parses snapshots
      → c.out ≡ []
      → s.out ≡ []
      → write_frame requests c (record { version = 1; id = 1; action = watching }) ≡ (d, ok tt)
      → answer (record { version = 1; id = 1; action = watching }) ≡ replied a
      → a.is_ok ≡ true
      → from_value a.content ≡ ok v
      → serve requests responses snapshots null d.out answer (ok tt) ns s ≡ (t, ok tt)
      → ((u : Snapshot) → callback u ≡ ok tt)
      → watch requests responses snapshots from_value c t.out callback
        ≡ some (v ∷ news ns, "failed to fill whole buffer")
  unfolding watch asked
  watch-serve c d answer a v ns s t callback p q r ce se w e g m k h =
      let f = write_frame_ok requests c d asked w in
      let fd : d.out ≡ f.0 = f.2 ∙ ap (λ l. l ++ f.0) ce in
      let z = serve-Adds f.0 answer a ns s t p f.1 e g (
        subst (λ l. serve requests responses snapshots null l answer (ok tt) ns s ≡ (t, ok tt)) fd
          k) in
      let o : t.out ≡ z.0 ++ z.1 = z.3 ∙ ap (λ l. (l ++ z.0) ++ z.1) se in
      let n = AreFrames-least snapshots (news ns) z.1 z.4 in
      let i =
        follow-frames requests responses snapshots from_value (news ns) z.1 (suc (length z.1))
          callback r h z.4 (omega (arith, n)) in
      rw (w, o, read_frame-frame responses a z.0 z.1 q z.2, g, m, h, i) refl
