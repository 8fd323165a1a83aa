-- ===== src/Engine/Subscribers.antt =====
-- src/engine.rs, `publish`: what a watcher receives.
use sysu_netauth.Common.{
  inl, inr, ◌≡◌, ◌⊎◌, ◌≤◌, Bool, true, false, List, [], ◌∷◌, ◌++◌, arith, refl, Bool-cases, ◌&&◌,
  ltb, ltb→lt, length, length-append,
}
use sysu_netauth.Engine.Types.{Snapshot, Subscription, Engine}
use sysu_netauth.Engine.Base.{capacity, deliver, publish}

-- What a delivery of the snapshot `s` makes of the watchers: one that is gone or full is dropped,
-- every other one has `s` last in a queue that fits the channel.
pub data Delivered (s : Snapshot) : List Subscription → List Subscription → Type 0 where
  done : Delivered s [] []
  gone :
      (w : Subscription) (ws vs : List Subscription)
      → (w.alive && w.connected ≡ false) ⊎ (capacity ≤ length w.pending)
      → Delivered s ws vs
      → Delivered s (w ∷ ws) vs
  told :
      (w v : Subscription) (ws vs : List Subscription)
      → v.pending ≡ w.pending ++ (s ∷ [])
      → length v.pending ≤ capacity
      → v.alive && v.connected ≡ true
      → Delivered s ws vs
      → Delivered s (w ∷ ws) (v ∷ vs)

and_true : (a b c : Bool) → a && b && c ≡ true → (a && b ≡ true) × (c ≡ true)
and_true true true c h = (refl, h)
and_true true false c h = ground arith
and_true false b c h = ground arith

and_false : (a b c : Bool) → a && b && c ≡ false → (a && b ≡ false) ⊎ (c ≡ false)
and_false true true c h = inr h
and_false true false c h = inl refl
and_false false b c h = inl refl

full :
    (w : Subscription)
    → (w.alive && w.connected ≡ false) ⊎ (ltb (length w.pending) capacity ≡ false)
    → (w.alive && w.connected ≡ false) ⊎ (capacity ≤ length w.pending)
full w (inl p) = inl p
full w (inr p) = inr (ground arith)

deliver-Delivered : (s : Snapshot) (ws : List Subscription) → Delivered s ws (deliver s ws)
unfolding deliver
deliver-Delivered s [] = done
deliver-Delivered s (w ∷ ws) =
    let ready = w.alive && w.connected && ltb (length w.pending) capacity in
    elim (Bool-cases ready) [
      | inl p ↦
          let (lives, room) = and_true w.alive w.connected _ p in
          rw p (
            told w (record w { pending = w.pending ++ (s ∷ []) }) ws (deliver s ws) refl
              (omega
                (arith, length-append w.pending (s ∷ []), ltb→lt (length w.pending) capacity room))
              lives (deliver-Delivered s ws))
      | inr p ↦ rw p (
          gone w ws (deliver s ws) (full w (and_false w.alive w.connected _ p))
            (deliver-Delivered s ws))
    ]

-- Publishing drops the watchers that are gone or full; every other one has the engine's new
-- snapshot last in its queue, which holds eight at most.
pub publish-Delivered :
    (e : Engine) → Delivered (publish e).snapshot e.subscribers (publish e).subscribers
unfolding publish
publish-Delivered e = deliver-Delivered _ e.subscribers
