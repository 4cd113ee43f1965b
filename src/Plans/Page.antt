-- ===== src/Plans/Page.antt =====
-- web/src/pages/PlansPage.tsx: the page with the forms that it mounts.
pub mod Leak
pub mod View
use restic_ui.Base.{ℕ, Bool, true, false, not, ◌&&◌, Option, none, some, List, [], ◌∷◌, is_some}
use mathlib.Core.Option
use restic_ui.Types.{Plan}
use restic_ui.Plans.Form.{FormState, Fields, Action, act, initial}
use restic_ui.Plans.Form.Submit.{Request, request_of}

-- A `PlanForm` that edits a plan: its property `existing`, and its state. React keeps the state of
-- an element that stands in the same place, has the same type and no key, as this one.
pub record Editor : Type 0 where
  pub existing : Plan
  pub form : FormState

-- The variables of `useState`, each with the form that is mounted while it is set.
pub record Page : Type 0 where
  pub adding : Option FormState
  pub editing : Option Editor

abbrev pub closed : Page
closed = record { adding = none; editing = none }

pub data Event : Type 0 where
  press_add add_done edit_done : Event
  press_edit : Plan → Event
  in_add in_edit : Action → Event

-- What is mounted when `editing` is set to a plan.
abbrev pub edit : Plan → Option Editor → Editor
edit p none = record { existing = p; form = initial (some p) }
edit p (some e) = record { existing = p; form = e.form }

abbrev pub in_editor : Action → Editor → Editor
in_editor a e = record e { form = act a e.form }

-- `setAdding(true)` mounts a form that stays if it is there.
abbrev pub open_add : Option FormState → FormState
open_add none = initial none
open_add (some s) = s

unfoldable pub handle : Event → Page → Page
handle press_add s = record s { adding = some (open_add s.adding) }
handle add_done s = record s { adding = none }
handle edit_done s = record s { editing = none }
handle (press_edit p) s = record s { editing = some (edit p s.editing) }
handle (in_add a) s = record s { adding = Option.map (act a) s.adding }
handle (in_edit a) s = record s { editing = Option.map (in_editor a) s.editing }

unfoldable pub run : List Event → Page → Page
unfolding handle
run [] s = s
run (e ∷ events) s = run events (handle e s)

-- What the editing form sends when it is saved.
unfoldable pub save_request : Fields → Page → Option Request
unfolding request_of
save_request f s = Option.map (λ e. request_of (some e.existing) f e.form) s.editing

-- Whether "Add plan" is shown.
abbrev pub shows_add : Page → Bool
shows_add s = not (is_some s.adding) && not (is_some s.editing)
