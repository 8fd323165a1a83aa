-- ===== src/Cli/Connected.antt =====
-- src/bin/cli.rs: the adapter that the command line reports as connected.
use sysu_netauth.Common.{ℕ, ◌+◌, ◌≡◌, ◌⊎◌, List, [], ◌∷◌}
use sysu_netauth.Platform.{Adapter}
use sysu_netauth.Cli.Direct.{Trial, Account, fresh_attempt, context}
use sysu_netauth.Cli.Accepted.{Heard, Honest}

unfoldable pub Listed : Adapter → List Adapter → Type 0
Listed a [] = ⊥
Listed a (b ∷ bs) = (a ≡ b) ⊎ Listed a bs

-- The adapter is one of these, and a session of it received a success.
abbrev pub Stands : Account → (ℕ → Trial) → List Adapter → Adapter → Type 0
Stands u trial as' a =
    Listed a as' × ((i : ℕ) × Heard (context u a i (trial i).begins_at) (trial i).passes)

-- No session is told of a check that it did not start.
unfoldable pub AllHonest : Account → (ℕ → Trial) → List Adapter → ℕ → Type 0
AllHonest u trial [] index = Unit
AllHonest u trial (a ∷ as') index =
    Honest (context u a index (trial index).begins_at) (trial index).passes
      (fresh_attempt (trial index).now)
    × AllHonest u trial as' (index + 1)
