-- ===== src/Engine/Deadlines.antt =====
-- src/engine.rs: how long a retry waits, and when the loop wakes.
use sysu_netauth.Common.{
  ℕ, zero, suc, ◌≡◌, ◌≤◌, ◌+◌, ◌-◌, ◌*◌, ◌^◌, min, Bool, true, false, Option, none, some, arith,
  refl, ap, ◌∙◌, not, ◌&&◌, leb, le→leb, if◌then◌else◌,
}
use sysu_netauth.Engine.Types.{Engine}
use sysu_netauth.Engine.Candidates.{backoff}
use sysu_netauth.Engine.Loop.{earlier, next_deadline, timeout}

pow_positive : (n : ℕ) → 1 ≤ 2 ^ n
pow_positive zero = omega arith
pow_positive (suc n) = omega (arith, pow_positive n)

pow_mono : (m n : ℕ) → m ≤ n → 2 ^ m ≤ 2 ^ n
pow_mono zero n h = pow_positive n
pow_mono (suc m) zero h = omega arith
pow_mono (suc m) (suc n) h = omega (arith, pow_mono m n (omega arith))

capped : (interval k : ℕ) → k ≡ 12 → min (3 * 2 ^ k) interval ≡ min 12288 interval
capped interval k h = rw h refl

-- The wait never exceeds the interval that is set, is three seconds or the interval at least, and
-- from the twelfth attempt on it is the interval, or 12288 seconds.
pub backoff-Bounds :
    (attempt interval : ℕ)
    → (min 3 interval ≤ backoff attempt interval)
      × (backoff attempt interval ≤ interval)
      × (backoff (attempt + 12) interval ≡ min 12288 interval)
unfolding backoff
backoff-Bounds attempt interval = (
  omega (arith, pow_positive (min attempt 12)),
  omega arith,
  capped interval (min (attempt + 12) 12) (omega arith),
)

-- A later attempt never waits less.
pub backoff_mono : (a b interval : ℕ) → a ≤ b → backoff a interval ≤ backoff b interval
unfolding backoff
backoff_mono a b interval h = omega (arith, pow_mono (min a 12) (min b 12) (omega arith))

-- A wait of `t` from `now` on does not pass the deadline, if there is one.
abbrev pub in_time : ℕ → ℕ → Option ℕ → Bool
in_time now t none = true
in_time now t (some d) = leb t (d - now)

-- The deadline of the next release check, unless checks are off or one is under way.
abbrev pub update_check : Engine → Option ℕ
update_check e =
    if e.config.auto_update_check && not e.snapshot.update.checking
    then some e.update_deadline
    else none

-- A wait that ends by every deadline that is armed.
pub record Wakes (now : ℕ) (e : Engine) (t : ℕ) : Type 0 where
  pub for_retry : in_time now t e.retry ≡ true
  pub for_handshake : in_time now t e.handshake_deadline ≡ true
  pub for_start : in_time now t e.start_deadline ≡ true
  pub for_reconcile : t ≤ e.reconcile_deadline - now
  pub for_update : in_time now t (update_check e) ≡ true

in_time_from :
    (now t c : ℕ) (o : Option ℕ)
    → ((d : ℕ) → o ≡ some d → c ≤ d)
    → t ≤ c - now
    → in_time now t o ≡ true
in_time_from now t c none h k = refl
in_time_from now t c (some d) h k = le→leb t (d - now) (omega (arith, h d refl))

earlier-some :
    (a : Option ℕ) (b : ℕ)
    → (c : ℕ) × (earlier a (some b) ≡ some c) × (c ≤ b) × ((d : ℕ) → a ≡ some d → c ≤ d)
earlier-some none b = (b, refl, omega arith, λ d p. ground arith)
earlier-some (some a) b = (min a b, refl, omega arith, λ d p. ground arith)

some-earlier :
    (a : ℕ) (b : Option ℕ)
    → (c : ℕ) × (earlier (some a) b ≡ some c) × (c ≤ a) × ((d : ℕ) → b ≡ some d → c ≤ d)
some-earlier a none = (a, refl, omega arith, λ d p. ground arith)
some-earlier a (some b) = (min a b, refl, omega arith, λ d p. ground arith)

-- An engine that is awake never waits without a limit, and never past a deadline that is armed.
pub timeout-Wakes :
    (now : ℕ) (e : Engine)
    → e.suspended ≡ false
    → (t : ℕ) × (timeout now e ≡ some t) × Wakes now e t
unfolding timeout next_deadline
timeout-Wakes now e p =
    let (t, q, w) = awake in (t, ap (λ b. if b then none else deadline) p ∙ q, w)
  where
    remaining : Option ℕ → Option ℕ
    remaining o = elim o [ none ↦ none | some d ↦ some (d - now) ]

    deadline : Option ℕ
    deadline = remaining (next_deadline e)

    awake : (t : ℕ) × (deadline ≡ some t) × Wakes now e t
    awake =
        let (c1, p1, r1, u1) = some-earlier e.reconcile_deadline (update_check e) in
        let (c2, p2, r2, u2) = earlier-some e.start_deadline c1 in
        let (c3, p3, r3, u3) = earlier-some e.handshake_deadline c2 in
        let (c4, p4, r4, u4) = earlier-some e.retry c3 in
        let t = c4 - now in
        let next : next_deadline e ≡ some c4 =
          ap (earlier e.retry)
            (ap (earlier e.handshake_deadline) (ap (earlier e.start_deadline) p1 ∙ p2) ∙ p3)
          ∙ p4 in
        (
          t,
          ap remaining next,
          record {
            for_retry = in_time_from now t c4 e.retry u4 (omega arith);
            for_handshake = in_time_from now t c3 e.handshake_deadline u3 (omega (arith, r4));
            for_start = in_time_from now t c2 e.start_deadline u2 (omega (arith, r3, r4));
            for_reconcile = omega (arith, r1, r2, r3, r4);
            for_update = in_time_from now t c1 (update_check e) u1 (omega (arith, r2, r3, r4));
          },
        )
