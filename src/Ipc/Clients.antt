-- ===== src/Ipc/Clients.antt =====
-- src/ipc.rs: the count of clients that the listener and the clients' threads share, as the steps
-- that each of them takes in any order.
use sysu_netauth.Common.{ℕ, ◌+◌, ◌-◌, ◌≡◌, ◌≤◌, ◌<◌, arith, refl}

-- Where the listener is: before the test, after it, and after the count was raised.
pub data At : Type 0 where
  accepting checked counted : At

-- `lost` counts the threads that could not be started.
pub record Clients : Type 0 where
  pub at : At
  pub active : ℕ
  pub serving : ℕ
  pub lost : ℕ

abbrev pub limit : ℕ
limit = 16

abbrev pub starting : Clients
starting = record { at = accepting; active = 0; serving = 0; lost = 0 }

-- A thread that ends drops its `Count`; one that never started has none.
pub data Step : Clients → Clients → Type 0 where
  turn_away : (c : Clients) → c.at ≡ accepting → limit ≤ c.active → Step c c
  admit : (c : Clients) → c.at ≡ accepting → c.active < limit → Step c (record c { at = checked })
  count : (c : Clients) → c.at ≡ checked → Step c (record c { at = counted; active = c.active + 1 })
  spawn :
      (c : Clients) → c.at ≡ counted → Step c (record c { at = accepting; serving = c.serving + 1 })
  spawn_fails :
      (c : Clients) → c.at ≡ counted → Step c (record c { at = accepting; lost = c.lost + 1 })
  finish :
      (c : Clients)
      → 0 < c.serving
      → Step c (record c { active = c.active - 1; serving = c.serving - 1 })

pub data Reach (c : Clients) : Clients → Type 0 where
  here : Reach c c
  next : {d e : Clients} → Reach c d → Step d e → Reach c e

abbrev pub on_way : At → ℕ
on_way accepting = 0
on_way checked = 0
on_way counted = 1

abbrev pub claimed : At → ℕ
claimed accepting = 0
claimed checked = 1
claimed counted = 0

-- The count is of those that are served, those that were lost, and the one on its way.
pub record IsCounted (c : Clients) : Type 0 where
  pub sum : c.active ≡ c.serving + c.lost + on_way c.at
  pub few : c.active + claimed c.at ≤ limit

Step-IsCounted : {c d : Clients} → Step c d → IsCounted c → IsCounted d
Step-IsCounted (turn_away c p h) i = i
Step-IsCounted (admit c p h) i = let a = i.sum in let b = i.few in ground (arith)
Step-IsCounted (count c p) i = let a = i.sum in let b = i.few in ground (arith)
Step-IsCounted (spawn c p) i = let a = i.sum in let b = i.few in ground (arith)
Step-IsCounted (spawn_fails c p) i = let a = i.sum in let b = i.few in ground (arith)
Step-IsCounted (finish c h) i = let a = i.sum in let b = i.few in ground (arith)

Reach-IsCounted : {c d : Clients} → Reach c d → IsCounted c → IsCounted d
Reach-IsCounted here i = i
Reach-IsCounted (next r s) i = Step-IsCounted s (Reach-IsCounted r i)

starting-IsCounted : IsCounted starting
starting-IsCounted = record { sum = refl; few = omega arith }

-- In whatever order the listener and the threads take their steps, at most sixteen clients are served,
-- those counted in whose thread never started.
pub Reach-bound : (c : Clients) → Reach starting c → c.serving + c.lost ≤ limit
Reach-bound c r = let i = Reach-IsCounted r starting-IsCounted in omega (arith, i.sum, i.few)

Step_lost : {c d : Clients} → Step c d → c.lost ≤ d.lost
Step_lost (turn_away c p h) = omega arith
Step_lost (admit c p h) = omega arith
Step_lost (count c p) = omega arith
Step_lost (spawn c p) = omega arith
Step_lost (spawn_fails c p) = omega arith
Step_lost (finish c h) = omega arith

Reach-lost : {c d : Clients} → Reach c d → c.lost ≤ d.lost
Reach-lost here = omega arith
Reach-lost (next r s) = let a = Reach-lost r in let b = Step_lost s in omega (arith, a, b)

-- A thread that cannot be started keeps its place: once that happened sixteen times, no client is
-- served any more, and the count stays at the limit.
pub Reach-shut :
    (c d : Clients)
    → Reach starting c
    → limit ≤ c.lost
    → Reach c d
    → (d.serving ≡ 0) × (limit ≤ d.active)
Reach-shut c d r h q =
    let i = Reach-IsCounted q (Reach-IsCounted r starting-IsCounted) in
    let l = Reach-lost q in (omega (arith, i.sum, i.few, l), omega (arith, i.sum, i.few, l))
