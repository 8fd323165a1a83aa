-- ===== src/Config/Storage/Whole.antt =====
-- src/config.rs: whatever fails, and wherever a run of `atomic_write` is cut off, the file is whole.
use sysu_netauth.Common.{
  ℕ, ◌≤◌, arith, ◌≡◌, ◌⊎◌, inl, inr, Bool, true, false, Option, none, some, List, [], ◌∷◌, ◌++◌,
  take, leb, length, Result, ok, err, String, refl, sym, ap, ◌∙◌, Bool-cases,
}
use mathlib.Core.List.{append_assoc, append-nil}
use sysu_netauth.Protocol.{Encoder}
use sysu_netauth.Config.{Config, load, validate}
use sysu_netauth.Config.Storage.{
  data_limit, read, Files, Outcome, Replacing, renames, moves, WriteAnswers, system_call, return,
  add, append_to, open_new, write_pieces, renamed, move_times, replace, line_feed, end_line,
  write_new, cleaned, clean_up, atomic_write,
}

-- All the text that the pieces make.
unfoldable pub whole_text : List (List ℕ) → List ℕ
whole_text [] = []
whole_text (p ∷ ps) = p ++ whole_text ps

abbrev pub Throughout : (Files → Type 0) → List Files → Type 0
Throughout P [] = Unit
Throughout P (s ∷ ss) = P s × Throughout P ss

Throughout-append :
    (P : Files → Type 0) (xs ys : List Files)
    → Throughout P xs
    → Throughout P ys
    → Throughout P (xs ++ ys)
Throughout-append P [] ys a b = b
Throughout-append P (x ∷ xs) ys a b = (a.0, Throughout-append P xs ys a.1 b)

module _ (old : Option (List ℕ)) (new : List ℕ) where
  abbrev pub Whole : Files → Type 0
  Whole s = (s.target ≡ old) ⊎ (s.target ≡ some new)

  pub record IsSafe (o : Outcome) : Type 0 where
    pub along : Throughout Whole o.seen
    pub last : Whole o.files
    pub written : o.result ≡ ok tt → o.files.target ≡ some new

  system_call-IsSafe :
      (s : Files) (r : Result (Unit {0})) (go_on : Files → Outcome)
      → Whole s
      → (r ≡ ok tt → IsSafe (go_on s))
      → IsSafe (system_call s r go_on)
  system_call-IsSafe s (err e) go_on w h = record {
    along = (w, tt);
    last = w;
    written = λ q. absurd (cc);
  }
  system_call-IsSafe s (ok tt) go_on w h =
      let i = h refl in record { along = (w, i.along); last = i.last; written = i.written }

  return-IsSafe : (s : Files) → s.target ≡ some new → IsSafe (return s (ok tt))
  return-IsSafe s h = record { along = tt; last = inr h; written = λ q. h }

  failed-IsSafe : (s : Files) (e : String) → Whole s → IsSafe (return s (err e))
  failed-IsSafe s e w = record { along = tt; last = w; written = λ q. absurd (cc) }

  module _ (s : Files) (t : s.target ≡ old) (n : s.temporary ≡ some new) where
    move_times-IsSafe :
        (rs : List (Result (Unit {0}))) (last : String) → IsSafe (move_times s rs last)
    unfolding move_times
    move_times-IsSafe [] last = failed-IsSafe s last (inl t)
    move_times-IsSafe (ok tt ∷ rs) last =
        system_call-IsSafe (renamed s) (ok tt) (λ t. return t (ok tt)) (inr n)
          (λ q. return-IsSafe (renamed s) n)
    move_times-IsSafe (err e ∷ rs) last = move_times-IsSafe rs e

    replace-IsSafe : (r : Replacing) → IsSafe (replace r s)
    unfolding replace
    replace-IsSafe (renames (err e) d) =
        system_call-IsSafe s (err e) (λ t. return t (ok tt)) (inl t) (λ q. absurd (cc))
    replace-IsSafe (renames (ok tt) d) =
        system_call-IsSafe (renamed s) (ok tt) (λ t. system_call t d (λ r. return r (ok tt)))
          (inr n)
          (λ q.
            system_call-IsSafe (renamed s) d (λ r. return r (ok tt)) (inr n)
              (λ p. return-IsSafe (renamed s) n))
    replace-IsSafe (moves rs) = move_times-IsSafe (take 5 rs) "replace failed"

  -- Writing the text: the old file stays until the text is complete.
  Holds : List ℕ → Files → Type 0
  Holds t s = (s.target ≡ old) × (s.temporary ≡ some t)

  write_pieces-IsSafe :
      (ps : List (List ℕ)) (t : List ℕ) (s : Files) (go_on : Files → Outcome)
      → Holds t s
      → ((u : Files) → Holds (t ++ whole_text ps) u → IsSafe (go_on u))
      → IsSafe (write_pieces s ps go_on)
  unfolding write_pieces whole_text Holds
  write_pieces-IsSafe [] t s go_on h k = k s (h.0, h.1 ∙ ap some (sym (append-nil t)))
  write_pieces-IsSafe (p ∷ ps) t s go_on h k =
      let a : (append_to s p).temporary ≡ some (t ++ p) = ap (λ o. add o p) h.1 in
      system_call-IsSafe (append_to s p) (ok tt) (λ u. write_pieces u ps go_on) (inl h.0)
        (λ q.
          write_pieces-IsSafe ps (t ++ p) (append_to s p) go_on (h.0, a)
            (λ u g. k u (g.0, g.1 ∙ ap some (append_assoc t p (whole_text ps)))))

  end_line-IsSafe :
      (t : List ℕ) (s : Files) (r : Result (Unit {0})) (go_on : Files → Outcome)
      → Holds t s
      → ((u : Files) → Holds (t ++ line_feed) u → IsSafe (go_on u))
      → IsSafe (end_line s r go_on)
  unfolding Holds
  end_line-IsSafe t s (err e) go_on h k =
      system_call-IsSafe s (err e) go_on (inl h.0) (λ q. absurd (cc))
  end_line-IsSafe t s (ok tt) go_on h k =
      let u : Files = append_to s line_feed in
      system_call-IsSafe u (ok tt) go_on (inl h.0) (λ q. k u (h.0, ap (λ o. add o line_feed) h.1))

  open_new-IsSafe :
      (s : Files) (r : Result (Unit {0})) (o : Option (List ℕ)) (go_on : Files → Outcome)
      → s.target ≡ old
      → ((u : Files) → Holds [] u → IsSafe (go_on u))
      → IsSafe (open_new s r o go_on)
  unfolding Holds
  open_new-IsSafe s r (some t) go_on h k =
      system_call-IsSafe s (err "File exists") go_on (inl h) (λ q. absurd (cc))
  open_new-IsSafe s (err e) none go_on h k =
      system_call-IsSafe s (err e) go_on (inl h) (λ q. absurd (cc))
  open_new-IsSafe s (ok tt) none go_on h k =
      let u : Files = record { target = s.target; temporary = some [] } in
      system_call-IsSafe u (ok tt) go_on (inl h) (λ q. k u (h, refl))

  write_new-IsSafe :
      (a : WriteAnswers) (ps : List (List ℕ)) (s : Files)
      → s.target ≡ old
      → whole_text ps ++ line_feed ≡ new
      → IsSafe (write_new a ps s)
  unfolding write_new Holds
  write_new-IsSafe a ps s h e =
      let sync : Files → Outcome = λ w. system_call w a.synced (replace a.replacing) in
      let line : Files → Outcome = λ v. end_line v a.newline sync in
      let encode : Files → Outcome = λ u. system_call u a.encoded line in
      let text : Files → Outcome = λ t. write_pieces t ps encode in
      open_new-IsSafe s a.opened s.temporary text h (λ t k.
        write_pieces-IsSafe ps [] t encode k (λ u k.
          system_call-IsSafe u a.encoded line (inl k.0) (λ q.
            end_line-IsSafe (whole_text ps) u a.newline sync k (λ w k.
              system_call-IsSafe w a.synced (replace a.replacing) (inl k.0)
                (λ q. replace-IsSafe w k.0 (k.1 ∙ ap some e) a.replacing)))))

  clean_up-IsSafe : (removed : Bool) (o : Outcome) → IsSafe o → IsSafe (clean_up removed o)
  clean_up-IsSafe true o i = record {
    along = Throughout-append Whole o.seen (cleaned true o.files ∷ []) i.along (i.last, tt);
    last = i.last;
    written = i.written;
  }
  clean_up-IsSafe false o i = record {
    along = Throughout-append Whole o.seen (cleaned false o.files ∷ []) i.along (i.last, tt);
    last = i.last;
    written = i.written;
  }

-- Whichever calls fail, after each call the file is the old one or the whole new text, and it is the
-- new text when the run succeeds.
pub atomic_write-IsSafe :
    (a : WriteAnswers) (ps : List (List ℕ)) (s : Files)
    → IsSafe s.target (whole_text ps ++ line_feed) (atomic_write a ps s)
unfolding atomic_write write_new
atomic_write-IsSafe a ps s =
    let new : List ℕ = whole_text ps ++ line_feed in
    let w = write_new-IsSafe s.target new a ps s refl refl in
    elim (Bool-cases a.parent) [
      | inl h ↦ rw h (
          system_call-IsSafe s.target new s a.created (λ t. clean_up a.removed (write_new a ps t))
            (inl refl) (λ q. clean_up-IsSafe s.target new a.removed (write_new a ps s) w))
      | inr h ↦ rw h (failed-IsSafe s.target new s "missing parent directory" (inl refl))
    ]

-- What was written without an error is what is loaded the next time.
pub load-atomic_write :
    (encode : Encoder) (parse : List ℕ → Result Config) (a : WriteAnswers) (ps : List (List ℕ))
    (s : Files) (c : Config)
    → (atomic_write a ps s).result ≡ ok tt
    → parse (whole_text ps ++ line_feed) ≡ ok c
    → length (whole_text ps ++ line_feed) ≤ data_limit
    → validate encode c ≡ ok tt
    → load encode (read parse (atomic_write a ps s).files.target) ≡ ok c
unfolding load read
load-atomic_write encode parse a ps s c r p l v =
    let w = (atomic_write-IsSafe a ps s).written r in
    let k : leb (length (whole_text ps ++ line_feed)) data_limit ≡ true = ground (arith) in
    rw (w, k, p, v) refl
