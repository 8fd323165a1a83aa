-- ===== src/Gui/System.antt =====
-- src/gui.rs: the window, the thread that asks the service and the one that watches it, as steps in
-- any order. What the service answers, and what the user types and chooses, is arbitrary.
use sysu_netauth.Common.{
  ℕ, ◌+◌, ◌≡◌, Bool, true, false, Option, none, some, List, [], ◌∷◌, ◌==◌, Result, String,
}
use sysu_netauth.Config.{Config, PreferencesPatch}
use sysu_netauth.Protocol.{Encoder}
use sysu_netauth.Engine.Types.{Snapshot}
use sysu_netauth.Gui.{
  connect_id, Form, Task, UiEvent, reply, snapshot, disconnected, Window, post, connect_command,
  change_preference, other_command, manual_command, events,
}

pub record System : Type 0 where
  pub window : Window
  pub working : Option Task

abbrev pub with_event : UiEvent → Window → Window
with_event e w = record w { events = post e w.events }

pub data Step (encode : Encoder) : System → System → Type 0 where
  edit :
      (s : System) (f : Form) → Step encode s (record s { window = record s.window { form = f } })
  switch :
      (s : System) (manual : Bool)
      → Step encode s (record s { window = manual_command manual s.window })
  connects : (s : System) → Step encode s (record s { window = connect_command encode s.window })
  changes :
      (s : System) (p : PreferencesPatch)
      → Step encode s (record s { window = change_preference p s.window })
  asks :
      (s : System) (t : Task)
      → (t.id == connect_id) ≡ false
      → Step encode s (record s { window = other_command t s.window })
  handles : (s : System) (now : ℕ) → Step encode s (record s { window = events now s.window })
  takes :
      (s : System) (t : Task) (ts : List Task)
      → s.working ≡ none
      → s.window.tasks ≡ t ∷ ts
      → Step encode s (record s { window = record s.window { tasks = ts }; working = some t })
  replies :
      (s : System) (t : Task) (r : Result (Option Config))
      → s.working ≡ some t
      → Step encode s (record s { window = with_event (reply t.id r) s.window; working = none })
  updates :
      (s : System) (n : Snapshot)
      → Step encode s (record s { window = with_event (snapshot n) s.window })
  drops :
      (s : System) (e : String)
      → Step encode s (record s { window = with_event (disconnected e) s.window })

pub data Reach (encode : Encoder) (s : System) : System → Type 0 where
  here : Reach encode s s
  next : {t u : System} → Reach encode s t → Step encode t u → Reach encode s u

-- The requests to connect that wait, and the replies to them.
abbrev pub one_if : Bool → ℕ
one_if true = 1
one_if false = 0

unfoldable pub asked : List Task → ℕ
asked [] = 0
asked (t ∷ ts) = one_if (t.id == connect_id) + asked ts

abbrev pub is_connect_reply : UiEvent → Bool
is_connect_reply (reply id r) = id == connect_id
is_connect_reply (snapshot s) = false
is_connect_reply (disconnected e) = false

unfoldable pub answers_waiting : List UiEvent → ℕ
answers_waiting [] = 0
answers_waiting (e ∷ es) = one_if (is_connect_reply e) + answers_waiting es

abbrev pub in_work : Option Task → ℕ
in_work none = 0
in_work (some t) = one_if (t.id == connect_id)

unfoldable pub under_way : System → ℕ
under_way s = asked s.window.tasks + in_work s.working + answers_waiting s.window.events
