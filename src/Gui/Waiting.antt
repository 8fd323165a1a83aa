-- ===== src/Gui/Waiting.antt =====
-- src/gui.rs: the account that is being changed, and the request that it waits for.
use sysu_netauth.Common.{
  ℕ, ◌+◌, ◌≡◌, ◌≤◌, ◌<◌, ◌⊎◌, ◌∙◌, Bool, true, false, Option, none, some, List, [], ◌∷◌, ◌++◌, ltb,
  ◌==◌, if◌then◌else◌, length, is_some, Result, ok, err, arith, refl, sym, Bool-cases, inl, inr,
  ◌>>=◌,
}
use sysu_netauth.Config.{Config, PreferencesPatch, validate_auth}
use sysu_netauth.Protocol.{Encoder}
use sysu_netauth.Engine.Types.{set_preferences, connect, get_config}
use sysu_netauth.Platform.{Adapter, adapters_eq}
use sysu_netauth.Adapters.{refresh}
use sysu_netauth.Gui.{
  chosen_adapter, connect_id, preferences_id, Task, UiEvent, Window, event_limit, task, post,
  populate, populate_preferences, taken_back, connect_with, collect, may_connect, connect_command,
  preference_asked, change_preference, connect_failed, with_config, loaded, on_reply,
  refresh_adapters,
}
use sysu_netauth.Gui.System.{one_if, asked, is_connect_reply, answers_waiting}

asked-append : (xs ys : List Task) → asked (xs ++ ys) ≡ asked xs + asked ys
unfolding asked
asked-append [] ys = omega arith
asked-append (x ∷ xs) ys = omega (arith, asked-append xs ys)

answers_waiting-append :
    (xs ys : List UiEvent) → answers_waiting (xs ++ ys) ≡ answers_waiting xs + answers_waiting ys
unfolding answers_waiting
answers_waiting-append [] ys = omega arith
answers_waiting-append (x ∷ xs) ys = omega (arith, answers_waiting-append xs ys)

-- A full queue may lose an answer, but gains none.
pub answers_waiting-post :
    (e : UiEvent) (q : List UiEvent)
    → answers_waiting (post e q) ≤ answers_waiting q + one_if (is_connect_reply e)
unfolding post answers_waiting
answers_waiting-post e [] = ground (arith)
answers_waiting-post e (x ∷ xs) =
    ground (arith, answers_waiting-append (x ∷ xs) (e ∷ []), answers_waiting-append xs (e ∷ []))

pub answers_waiting-post_room :
    (e : UiEvent) (q : List UiEvent)
    → length q < event_limit
    → answers_waiting (post e q) ≡ answers_waiting q + one_if (is_connect_reply e)
unfolding post answers_waiting
answers_waiting-post_room e q h = ground (arith, answers_waiting-append q (e ∷ []))

-- What a step of the window does to the locked account and to the requests.
pub record Keeps (w v : Window) : Type 0 where
  pub account : is_some v.previous_account ≡ is_some w.previous_account
  pub requests : asked v.tasks ≡ asked w.tasks
  pub replies : v.events ≡ w.events

abbrev pub locked : Window → ℕ
locked w = one_if (is_some w.previous_account)

pub task-Keeps : (t : Task) (w : Window) → (t.id == connect_id) ≡ false → Keeps w (task t w).0
unfolding task asked
task-Keeps t w h = elim (Bool-cases (ltb (length w.tasks) 16)) [
  | inl e ↦ simp e (record {
    account = refl;
    requests = ground (arith, asked-append w.tasks (t ∷ []));
    replies = refl;
  })
  | inr e ↦ simp e (record { account = refl; requests = refl; replies = refl })
]

Keeps-trans : (u v w : Window) → Keeps u v → Keeps v w → Keeps u w
Keeps-trans u v w a b = record {
  account = b.account ∙ a.account;
  requests = b.requests ∙ a.requests;
  replies = b.replies ∙ a.replies;
}

same-Keeps : (w : Window) → Keeps w w
same-Keeps w = record { account = refl; requests = refl; replies = refl }

populate_preferences-Keeps : (w : Window) → Keeps w (populate_preferences w)
unfolding populate_preferences
populate_preferences-Keeps w = record { account = refl; requests = refl; replies = refl }

populate-Keeps : (w : Window) → Keeps w (populate w)
unfolding populate populate_preferences
populate-Keeps w = record { account = refl; requests = refl; replies = refl }

preference_asked-Keeps : (r : Window × Bool) → Keeps r.0 (preference_asked r)
preference_asked-Keeps (w, true) = record { account = refl; requests = refl; replies = refl }
preference_asked-Keeps (w, false) = populate_preferences-Keeps w

pub change_preference-Keeps : (p : PreferencesPatch) (w : Window) → Keeps w (change_preference p w)
unfolding change_preference
change_preference-Keeps p w = elim (Bool-cases w.preference_pending) [
  | inl e ↦ simp e (same-Keeps w)
  | inr e ↦
      let t : Task = record { id = preferences_id; action = set_preferences p } in
      simp e (
        Keeps-trans w (task t w).0 (preference_asked (task t w)) (task-Keeps t w refl)
          (preference_asked-Keeps (task t w)))
]

pub refresh_adapters-Keeps : (all : List Adapter) (w : Window) → Keeps w (refresh_adapters all w)
unfolding refresh_adapters
refresh_adapters-Keeps all w =
    let selected = if w.form.manual then chosen_adapter w.form.selected w.adapters else none in
    elim (Bool-cases (adapters_eq w.adapters (refresh all selected))) [
      | inl e ↦ simp e (same-Keeps w)
      | inr e ↦ simp e (record { account = refl; requests = refl; replies = refl })
    ]

-- A request to connect is made only from a window that is not locked, and locks it.
abbrev pub Locks : Window → Window → Type 0
Locks w v =
    (is_some w.previous_account ≡ false)
    × (is_some v.previous_account ≡ true)
    × (asked v.tasks ≡ asked w.tasks + 1)
    × (v.events ≡ w.events)

connect_with-cases :
    (w : Window) (r : Result Config)
    → is_some w.previous_account ≡ false
    → Keeps w (connect_with w r) ⊎ Locks w (connect_with w r)
unfolding task asked
connect_with-cases w (err e) h = inl (same-Keeps w)
connect_with-cases w (ok c) h = elim (Bool-cases (ltb (length w.tasks) 16)) [
  | inl e ↦ simp e (
      inr
        (h, refl, asked-append w.tasks (record { id = connect_id; action = connect c } ∷ []), refl))
  | inr e ↦ simp e (inl (record { account = sym h; requests = refl; replies = refl }))
]

pub connect_command-cases :
    (encode : Encoder) (w : Window)
    → Keeps w (connect_command encode w) ⊎ Locks w (connect_command encode w)
unfolding connect_command may_connect
connect_command-cases encode w =
    let r : Result Config =
      collect encode w.form w.config >>= λ c. validate_auth encode c >>= λ u. ok c in
    elim (Bool-cases (may_connect w)) [
      | inl e ↦ simp e (connect_with-cases w r (ground (arith)))
      | inr e ↦ simp e (inl (same-Keeps w))
    ]

-- A reply to the request ends the lock, whatever it says; nothing else does.
abbrev pub Unlocks : Window → Window → Type 0
Unlocks w v =
    (is_some v.previous_account ≡ false) × (asked v.tasks ≡ asked w.tasks) × (v.events ≡ w.events)

taken_back-Unlocks :
    (o : Option Config) (w : Window) → w.previous_account ≡ o → Unlocks w (taken_back o w)
taken_back-Unlocks none w e = (simp e refl, refl, refl)
taken_back-Unlocks (some c) w e = (refl, refl, refl)

loaded-Keeps : (o : Option Config) (w : Window) → Keeps w (loaded o w)
loaded-Keeps none w = same-Keeps w
loaded-Keeps (some c) w =
    let k = populate-Keeps (record w { config = c }) in
    record { account = k.account; requests = k.requests; replies = k.replies }

with_config-Keeps : (o : Option Config) (w : Window) → Keeps w (with_config o w)
with_config-Keeps none w = same-Keeps w
with_config-Keeps (some c) w = record { account = refl; requests = refl; replies = refl }

connect_failed-Unlocks : (w : Window) → Unlocks w (connect_failed w)
connect_failed-Unlocks w =
    let t : Task = record { id = preferences_id; action = get_config } in
    let b : Window = taken_back w.previous_account w in
    let u = taken_back-Unlocks w.previous_account w refl in
    let k = task-Keeps t b refl in (k.account ∙ u.0, k.requests ∙ u.1, k.replies ∙ u.2)

pub on_reply-cases :
    (id : ℕ) (r : Result (Option Config)) (w : Window)
    → (((id == connect_id) ≡ false) × Keeps w (on_reply id r w))
      ⊎ (((id == connect_id) ≡ true) × Unlocks w (on_reply id r w))
unfolding on_reply
on_reply-cases id (err x) w = elim (Bool-cases (id == connect_id)) [
  | inl e ↦
      let p : (id == preferences_id) ≡ false = ground (arith) in
      inr (e, simp (e, p) (connect_failed-Unlocks w))
  | inr e ↦ elim (Bool-cases (id == preferences_id)) [
    | inl p ↦
        let k = populate_preferences-Keeps (record w { preference_pending = false }) in
        inl (
          e,
          simp (e, p) (record { account = k.account; requests = k.requests; replies = k.replies }),
        )
    | inr p ↦ inl (e, simp (e, p) (same-Keeps w))
  ]
]
on_reply-cases id (ok v) w = elim (Bool-cases (id == connect_id)) [
  | inl e ↦
      let p : (id == preferences_id) ≡ false = ground (arith) in
      let q : (id == 1) ≡ false = ground (arith) in inr (e, simp (e, p, q) (refl, refl, refl))
  | inr e ↦ elim (Bool-cases (id == preferences_id)) [
    | inl p ↦
        let b : Window = with_config v (record w { preference_pending = false }) in
        let c = with_config-Keeps v (record w { preference_pending = false }) in
        let k = populate_preferences-Keeps b in
        inl (
          e,
          simp (e, p)
              (record {
                account = k.account ∙ c.account;
                requests = k.requests ∙ c.requests;
                replies = k.replies ∙ c.replies;
              }),
        )
    | inr p ↦ elim (Bool-cases (id == 1)) [
      | inl q ↦ inl (e, simp (e, p, q) (loaded-Keeps v w))
      | inr q ↦ inl (e, simp (e, p, q) (same-Keeps w))
    ]
  ]
]
