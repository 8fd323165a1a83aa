-- ===== src/Connectivity/Probe.antt =====
-- src/connectivity.rs: the thread of a check, and the event that it delivers.
use sysu_netauth.Common.{
  ℕ, ◌≡◌, ◌⊎◌, inl, inr, Bool, true, false, List, [], ◌∷◌, ◌++◌, if◌then◌else◌, refl,
}
use sysu_netauth.Connectivity.{check_with}
use sysu_netauth.Engine.Types.{Event, connectivity}
use sysu_netauth.Platform.Session.{Attempt, sent, disconnected, full, deliver}

-- `active` is whether the check was not cancelled when its rounds were over.
unfoldable pub run_probe :
    (ℕ → List ℕ → Bool) → (ℕ → Bool) → Bool → ℕ → List Attempt → List Event → List Event
run_probe ping wait active generation attempts queue =
    if active
    then (deliver (connectivity generation (check_with ping wait)) attempts queue).queue
    else queue

delivered_once :
    (e : Event) (as' : List Attempt) (q : List Event)
    → ((deliver e as' q).queue ≡ q) ⊎ ((deliver e as' q).queue ≡ q ++ (e ∷ []))
unfolding deliver
delivered_once e [] q = inl refl
delivered_once e (sent ∷ as') q = inr refl
delivered_once e (disconnected ∷ as') q = inl refl
delivered_once e (full false ∷ as') q = inl refl
delivered_once e (full true ∷ as') q = delivered_once e as' q

-- A check tells the engine its result once or, when it was cancelled or the queue was closed, nothing;
-- it is nothing when it was cancelled before its end.
pub run_probe_once :
    (ping : ℕ → List ℕ → Bool) (wait : ℕ → Bool) (active : Bool) (generation : ℕ)
    (attempts : List Attempt) (queue : List Event)
    → (run_probe ping wait active generation attempts queue ≡ queue)
      ⊎ ((active ≡ true)
          × (run_probe ping wait active generation attempts queue
              ≡ queue ++ (connectivity generation (check_with ping wait) ∷ [])))
unfolding run_probe
run_probe_once ping wait true generation attempts queue =
    elim (delivered_once (connectivity generation (check_with ping wait)) attempts queue) [
      | inl e ↦ inl e
      | inr e ↦ inr (refl, e)
    ]
run_probe_once ping wait false generation attempts queue = inl refl
