-- ===== src/Platform/Session.antt =====
-- src/platform/mod.rs: the thread that carries what a capture receives to the engine. An attempt is
-- what `try_send` answers, a full queue with the outcome of the wait that follows it.
use sysu_netauth.Common.{
  ℕ, zero, suc, ◌⊎◌, inl, inr, ◌≡◌, ◌∙◌, Bool, true, false, Option, none, some, List, [], ◌∷◌, ◌++◌,
  length, ok, err, refl, sym,
}
use mathlib.Core.List.{append_assoc, append-nil}
use sysu_netauth.Engine.Types.{Event, packet, capture_error}
use sysu_netauth.Platform.Capture.{Receipt}

pub data Attempt : Type 0 where
  sent : Attempt
  disconnected : Attempt
  full : Bool → Attempt

-- The answer is missing while the event still waits; `queue` is all that the engine was ever sent.
pub record Delivery : Type 0 where
  pub delivered : Option Bool
  pub queue : List Event
  pub left : List Attempt

unfoldable pub deliver : Event → List Attempt → List Event → Delivery
deliver e [] q = record { delivered = none; queue = q; left = [] }
deliver e (sent ∷ as') q = record { delivered = some true; queue = q ++ (e ∷ []); left = as' }
deliver e (disconnected ∷ as') q = record { delivered = some false; queue = q; left = as' }
deliver e (full false ∷ as') q = record { delivered = some false; queue = q; left = as' }
deliver e (full true ∷ as') q = deliver e as' q

abbrev pub carry_on : Option Bool → List Event → List Event → List Event
carry_on (some true) q again = again
carry_on (some false) q again = q
carry_on none q again = q

-- The loop of `Session::open` over what the capture receives: all that the engine was sent.
unfoldable pub forward : ℕ → List Receipt → List Attempt → List Event → List Event
forward g [] as' q = q
forward g (ok (some bytes) ∷ rs) as' q =
    let d = deliver (packet g bytes) as' q in
    let again = forward g rs d.left d.queue in carry_on d.delivered d.queue again
forward g (ok none ∷ rs) as' q = q
forward g (err e ∷ rs) as' q = (deliver (capture_error g e) as' q).queue

-- What there is to tell: every packet until the capture stops, or its error.
unfoldable pub told : ℕ → List Receipt → List Event
told g [] = []
told g (ok (some bytes) ∷ rs) = packet g bytes ∷ told g rs
told g (ok none ∷ rs) = []
told g (err e ∷ rs) = capture_error g e ∷ []

abbrev is_sent : Option Bool → Bool
is_sent (some b) = b
is_sent none = false

deliver-cases :
    (e : Event) (as' : List Attempt) (q : List Event)
    → ((is_sent (deliver e as' q).delivered ≡ true) × ((deliver e as' q).queue ≡ q ++ (e ∷ [])))
      ⊎ ((is_sent (deliver e as' q).delivered ≡ false) × ((deliver e as' q).queue ≡ q))
unfolding deliver
deliver-cases e [] q = inr (refl, refl)
deliver-cases e (sent ∷ as') q = inl (refl, refl)
deliver-cases e (disconnected ∷ as') q = inr (refl, refl)
deliver-cases e (full false ∷ as') q = inr (refl, refl)
deliver-cases e (full true ∷ as') q = deliver-cases e as' q

-- The queue is open, nobody cancels, and it takes so many events.
unfoldable pub Accepts : List Attempt → ℕ → Type 0
Accepts as' zero = Unit
Accepts [] (suc n) = ⊥
Accepts (sent ∷ as') (suc n) = Accepts as' n
Accepts (disconnected ∷ as') (suc n) = ⊥
Accepts (full false ∷ as') (suc n) = ⊥
Accepts (full true ∷ as') (suc n) = Accepts as' (suc n)

deliver_accepted :
    (e : Event) (as' : List Attempt) (q : List Event) (n : ℕ)
    → Accepts as' (suc n)
    → ((deliver e as' q).delivered ≡ some true)
      × ((deliver e as' q).queue ≡ q ++ (e ∷ []))
      × Accepts (deliver e as' q).left n
unfolding deliver Accepts
deliver_accepted e [] q n h = elim h [ ]
deliver_accepted e (disconnected ∷ as') q n h = elim h [ ]
deliver_accepted e (full false ∷ as') q n h = elim h [ ]
deliver_accepted e (sent ∷ as') q n h = (refl, refl, h)
deliver_accepted e (full true ∷ as') q n h = deliver_accepted e as' q n h

-- Of all that there is to tell, a first part is sent, or it all is.
abbrev pub Begins : List Event → List Event → Type 0
Begins l all = (rest : List Event) × (l ++ rest ≡ all)

carry-Begins :
    (o : Option Bool) (q l all : List Event)
    → ((is_sent o ≡ true) × Begins l all) ⊎ ((is_sent o ≡ false) × Begins q all)
    → Begins (carry_on o q l) all
carry-Begins (some true) q l all (inl h) = h.1
carry-Begins (some false) q l all (inl h) = absurd (cc)
carry-Begins none q l all (inl h) = absurd (cc)
carry-Begins (some true) q l all (inr h) = absurd (cc)
carry-Begins (some false) q l all (inr h) = h.1
carry-Begins none q l all (inr h) = h.1

-- Whatever becomes of the queue, the engine is sent a first part of what the capture received, in order
-- and each once, behind what it was sent before.
pub forward-Begins :
    (g : ℕ) (rs : List Receipt) (as' : List Attempt) (q : List Event)
    → Begins (forward g rs as' q) (q ++ told g rs)
unfolding forward told
forward-Begins g [] as' q = ([], refl)
forward-Begins g (ok none ∷ rs) as' q = ([], refl)
forward-Begins g (err e ∷ rs) as' q = elim (deliver-cases (capture_error g e) as' q) [
  | inl h ↦ ([], rw (h.1) (append-nil (q ++ (capture_error g e ∷ []))))
  | inr h ↦ (capture_error g e ∷ [], rw (h.1) refl)
]
forward-Begins g (ok (some b) ∷ rs) as' q =
    let d : Delivery = deliver (packet g b) as' q in
    let i = forward-Begins g rs d.left d.queue in
    carry-Begins d.delivered d.queue (forward g rs d.left d.queue) (q ++ (packet g b ∷ told g rs))
      (elim (deliver-cases (packet g b) as' q) [
        | inl h ↦ inl (h.0, (i.0, i.1 ∙ rw (h.1) (append_assoc q (packet g b ∷ []) (told g rs))))
        | inr h ↦ inr (h.0, (packet g b ∷ told g rs, rw (h.1) refl))
      ])

-- While the queue is open, nobody cancels and there is room in the end, however often it was full, the
-- engine is sent every packet and the error that ended the capture, in order and once.
pub forward-told :
    (g : ℕ) (rs : List Receipt) (as' : List Attempt) (q : List Event)
    → Accepts as' (length (told g rs))
    → forward g rs as' q ≡ q ++ told g rs
unfolding forward told
forward-told g [] as' q h = sym (append-nil q)
forward-told g (ok none ∷ rs) as' q h = sym (append-nil q)
forward-told g (err e ∷ rs) as' q h = (deliver_accepted (capture_error g e) as' q 0 h).1
forward-told g (ok (some b) ∷ rs) as' q h =
    let s = deliver_accepted (packet g b) as' q (length (told g rs)) h in
    let d : Delivery = deliver (packet g b) as' q in
    let i = forward-told g rs d.left d.queue s.2 in
    rw (s.0) (i ∙ rw (s.1) (append_assoc q (packet g b ∷ []) (told g rs)))
