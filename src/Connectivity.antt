-- ===== src/Connectivity.antt =====
-- src/connectivity.rs: the rounds of pings that decide whether the Internet is reachable. `ping`
-- and `wait` are the platform's, asked once per round and target, and once between two rounds.
pub mod Probe
use sysu_netauth.Common.{
  ℕ, zero, suc, ◌+◌, ◌≡◌, ◌↔◌, ◌⊎◌, Bool, true, false, not, ◌&&◌, List, [], ◌∷◌, ltb, if◌then◌else◌,
  any, arith,
}

abbrev pub targets : List (List ℕ)
targets = (119 ∷ 29 ∷ 29 ∷ 29 ∷ []) ∷ (114 ∷ 114 ∷ 114 ∷ 114 ∷ []) ∷ []

-- `for round in 0..3`, with the rounds left and the number of this one.
unfoldable pub rounds : (ℕ → List ℕ → Bool) → (ℕ → Bool) → ℕ → ℕ → Bool
rounds ping wait zero round = false
rounds ping wait (suc left) round =
    let rest = rounds ping wait left (round + 1) in
    if any (ping round) targets
    then true
    else if ltb round 2 && not (wait round)
    then false
    else rest

unfoldable pub check_with : (ℕ → List ℕ → Bool) → (ℕ → Bool) → Bool
check_with ping wait = rounds ping wait 3 0

-- A target answers in the round.
abbrev pub Answers : (ℕ → List ℕ → Bool) → ℕ → Type 0
Answers ping round =
    (ping round (119 ∷ 29 ∷ 29 ∷ 29 ∷ []) ≡ true) ⊎ (ping round (114 ∷ 114 ∷ 114 ∷ 114 ∷ []) ≡ true)

-- The Internet counts as reachable exactly when a target answers in one of the three rounds, and
-- no wait before that round was cancelled.
pub check_with_iff :
    (ping : ℕ → List ℕ → Bool) (wait : ℕ → Bool)
    → (check_with ping wait ≡ true)
      ↔ (Answers ping 0 ⊎ ((wait 0 ≡ true) × (Answers ping 1 ⊎ ((wait 1 ≡ true) × Answers ping 2))))
unfolding check_with rounds
check_with_iff ping wait = ground arith
