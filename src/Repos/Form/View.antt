-- ===== src/Repos/Form/View.antt =====
-- web/src/components/repos/RepoForm.tsx: what the form shows, and the inputs that React keeps.
use restic_ui.Base.{Bool, Option, none, some, List, [], ◌∷◌, if◌then◌else◌, map}
use restic_ui.Base.Text.{Text, text_eq, is_empty}
use restic_ui.Types.{BackendType}
use restic_ui.Plans.Form.{custom}
use restic_ui.Repos.Form.{RepoForm, is_busy}
use restic_ui.Repos.Form.Inputs.{Input, backend_label, mounted, button_text}
use restic_ui.Repos.Card.Schedule.{check_presets, cron_hint}

-- The handlers of the inputs that have a variable of `useState`.
pub data Change : Type 0 where
  choose_backend : BackendType → Change
  choose_schedule type_cron : Text → Change
  tick_init : Bool → Change

unfoldable pub change : Change → RepoForm → RepoForm
change (choose_backend b) s = record s { backend = b }
change (choose_schedule v) s = record s { check_preset = v }
change (type_cron v) s = record s { check_cron = v }
change (tick_init b) s = record s { auto_init = b }

-- `Object.entries(BACKEND_LABELS)`
abbrev pub backends : List BackendType
backends = BackendType.local_path ∷ BackendType.s3 ∷ BackendType.sftp ∷ BackendType.rclone ∷ []

-- The field for a cron expression, with the line under it.
pub record CronField : Type 0 where
  pub value : Text
  pub hint : Option Text

pub record FormView : Type 0 where
  pub backends : List Text
  pub inputs : List Input
  pub schedules : List Text
  pub cron_field : Option CronField
  pub init_ticked : Bool
  pub alert : Option Text
  pub submit : Text
  pub spinner : Bool
  pub cancel_disabled : Bool

unfoldable pub form_view : RepoForm → FormView
form_view s = record {
  backends = map backend_label backends;
  inputs = mounted s.backend;
  schedules = map (λ p. p.label) check_presets;
  cron_field =
      if text_eq s.check_preset custom
      then some (record { value = s.check_cron; hint = cron_hint s.check_cron })
      else none;
  init_ticked = s.auto_init;
  alert = if is_empty s.error then none else some s.error;
  submit = button_text s.phase;
  spinner = is_busy s.phase;
  cancel_disabled = is_busy s.phase;
}
