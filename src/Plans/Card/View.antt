-- ===== src/Plans/Card/View.antt =====
-- web/src/pages/PlansPage.tsx: what a plan's card shows.
use restic_ui.Base.{ℕ, Bool, not, Option, none, some, List, [], ◌∷◌, ◌++◌, if◌then◌else◌}
use restic_ui.Base.Text.{Text, codes, is_empty}
use restic_ui.Types.{Plan, Operation, OpProgress}
use restic_ui.Operations.Console.{Bar, progress_bar}
use restic_ui.Plans.Card.{Card, schedule_line, shows_started, shows_progress}

-- `list.join(separator)`
unfoldable pub join : Text → List Text → Text
join sep [] = []
join sep (x ∷ []) = x
join sep (x ∷ y ∷ xs) = x ++ (sep ++ join sep (y ∷ xs))

-- A list that is shown unless it is empty.
abbrev pub unless_nil : Text → Text → List Text → Option Text
unless_nil prefix sep [] = none
unless_nil prefix sep (x ∷ xs) = some (prefix ++ join sep (x ∷ xs))

-- The next run, which stands behind a schedule only; `when` is `formatWhen`.
abbrev pub next_text : (Text → Text) → Option Text → Option Text
next_text when none = none
next_text when (some t) =
    if is_empty t then none else some (codes "(next: " ++ (when t ++ codes ")"))

abbrev pub next_run_text : (Text → Text) → Plan → Option Text
next_run_text when p = if is_empty p.schedule_cron then none else next_text when p.next_run

-- The buttons beside the name.
pub data Buttons : Type 0 where
  bin delete_or_keep : Buttons

pub record CardView : Type 0 where
  pub is_dimmed : Bool
  pub name : Text
  pub target : Text
  pub schedule : Text
  pub next_run : Option Text
  pub tags : Option Text
  pub is_enabled : Bool
  pub buttons : Buttons
  pub sources : Text
  pub excludes : Option Text
  pub run_disabled : Bool
  pub notice : Option Text
  pub bar : Option (Option Bar)

unfoldable pub card_view :
    (when : Text → Text)
    → (run_pending : Bool) → Option (List Operation)
    → Option OpProgress
    → Plan
    → Card
    → CardView
unfolding join shows_started shows_progress schedule_line progress_bar
card_view when run_pending ops progress p s = record {
  is_dimmed = not p.enabled;
  name = p.name;
  target = codes "→ " ++ p.repo_name;
  schedule = schedule_line p;
  next_run = next_run_text when p;
  tags = unless_nil (codes "tags: ") (codes ", ") p.tags;
  is_enabled = p.enabled;
  buttons = if s.confirm_delete then delete_or_keep else bin;
  sources = join (codes "  ·  ") p.sources;
  excludes = unless_nil [] (codes "  ·  ") p.excludes;
  run_disabled = run_pending;
  notice =
      if shows_started ops p s
      then some (codes "Backup started — follow it on the Operations page.")
      else none;
  bar = if shows_progress ops p s then some (progress_bar progress) else none;
}

-- What ticking "Enabled" gives to `setEnabled.mutate`.
pub record SetEnabled : Type 0 where
  pub id : ℕ
  pub enabled : Bool

abbrev pub tick_enabled : Plan → Bool → SetEnabled
tick_enabled p checked = record { id = p.id; enabled = checked }
