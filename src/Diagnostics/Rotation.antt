-- ===== src/Diagnostics/Rotation.antt =====
-- src/diagnostics.rs: the size of the log files.
use sysu_netauth.Common.{
  ℕ, ◌+◌, ◌≡◌, ◌≤◌, Bool, true, false, Option, none, some, List, length, take, arith, refl,
  length-append, length-take, Bool-cases, inl, inr,
}
use sysu_netauth.Diagnostics.{
  Logs, Calls, contents, is_full, log_limit, move_log, rotate_over, rotate, line, append_line,
  write_record,
}

-- Both files are at most so long.
pub record Within (n : ℕ) (l : Logs) : Type 0 where
  pub log : length (contents l.log) ≤ n
  pub rotated : length (contents l.rotated) ≤ n

-- A log that may be written to is not over the limit.
abbrev Ready : ℕ → Logs × Bool → Type 0
Ready n r = Within n r.0 × (r.1 ≡ true → length (contents r.0.log) ≤ log_limit)

move_log-Ready : (n : ℕ) (c : Calls) (l : Logs) → Within n l → Ready n (move_log c l)
move_log-Ready n c l w =
    let a = w.log in
    let b = w.rotated in
    elim (Bool-cases c.renames) [
      | inl h ↦ simp h (record { log = omega arith; rotated = a }, λ e. omega arith)
      | inr h ↦ simp h (w, λ e. absurd (cc))
    ]

rotate_over-Ready :
    (n : ℕ) (c : Calls) (l : Logs) (r : Option (List ℕ)) → Within n l → Ready n (rotate_over c l r)
rotate_over-Ready n c l none w = move_log-Ready n c l w
rotate_over-Ready n c l (some old) w = elim (Bool-cases c.finds) [
  | inl f ↦ elim (Bool-cases c.removes) [
    | inl h ↦
        simp (f, h)
          (move_log-Ready n c (record { log = l.log; rotated = none })
            (record { log = w.log; rotated = omega arith }))
    | inr h ↦ simp (f, h) (w, λ e. absurd (cc))
  ]
  | inr f ↦ simp f (move_log-Ready n c l w)
]

not_full :
    (c : Calls) (o : Option (List ℕ))
    → c.measures ≡ true
    → is_full c o ≡ false
    → length (contents o) ≤ log_limit
unfolding is_full
not_full c none m e = omega arith
not_full c (some bs) m e = ground (arith)

rotate-Ready :
    (n : ℕ) (c : Calls) (l : Logs) → c.measures ≡ true → Within n l → Ready n (rotate c l)
unfolding rotate
rotate-Ready n c l m w = elim (Bool-cases (is_full c l.log)) [
  | inl h ↦ simp h (rotate_over-Ready n c l l.rotated w)
  | inr h ↦ simp h (w, λ e. not_full c l.log m h)
]

append_line-Within :
    (n : ℕ) (c : Calls) (text : List ℕ) (r : Logs × Bool)
    → log_limit + length text ≤ n
    → Ready n r
    → Within n (append_line c text r)
append_line-Within n c text (l, false) k h = h.0
append_line-Within n c text (l, true) k h = elim (Bool-cases c.opens) [
  | inl e ↦
      let b = h.1 refl in
      let t = length-take c.write_size text in
      let a = length-append (contents l.log) (take c.write_size text) in
      simp e (record { log = omega (arith, a, t, b, k); rotated = h.0.rotated })
  | inr e ↦ simp e h.0
]

-- When the size of the log can be read, and whichever of the other calls fail, writing a record keeps
-- both log files within any bound that they are within and that is at least 512 KiB and the new line.
pub write_record-Within :
    (n : ℕ) (c : Calls) (now message : List ℕ) (l : Logs)
    → c.measures ≡ true
    → log_limit + length (line now message) ≤ n
    → Within n l
    → Within n (write_record c now message l)
unfolding write_record
write_record-Within n c now message l m k w = elim (Bool-cases c.creates) [
  | inl e ↦
      simp e (append_line-Within n c (line now message) (rotate c l) k (rotate-Ready n c l m w))
  | inr e ↦ simp e w
]
