-- ===== src/Plans/Form/Tests.antt =====
-- The form of a plan and its panels on small inputs.
use restic_ui.Base.{◌≡◌, refl, true, false, none, some, List, [], ◌∷◌}
use restic_ui.Base.Text.{codes, decimal}
use restic_ui.Session.Requests.{value, thrown}
use restic_ui.Plans.Form.{FormState, Fields, Bucket, keep, no_retention, no_options}
use restic_ui.Plans.Form.Submit.{plan_input, preview_disabled}
use restic_ui.Plans.Form.Chips.{act_all}
use restic_ui.Plans.Form.Panels.{
  Editing, Server, Event, edit, press_dry_run, unused, previewed, edits_of, previewed-stale,
}
use restic_ui.Plans.Form.View.{retention_fields, cron_field}

-- The form of a new plan with a repository, a source and a retention.
abbrev filled : FormState
filled = record {
  sources = codes "/srv" ∷ [];
  excludes = [];
  tags = [];
  preset = [];
  custom_cron = [];
  browsing = false;
  manual_path = [];
  exclude_input = [];
  tag_input = [];
  error = [];
  retention = record no_retention { keep_daily = some 7 };
  prune = true;
  repo_id = some 3;
  options = no_options;
}

abbrev editing : Editing
editing = record { form = filled; preview = unused; dry_run = unused }

abbrev no_groups : Server
no_groups = record { retention_preview = λ b. value []; dry_run = λ b. thrown }

abbrev fields : Fields
fields = record { name = codes "srv"; enabled = true; notify_muted = false }

-- Fewer snapshots are to be kept while the answer is under way and after it.
abbrev fewer : List Event
fewer = edit (keep Bucket.daily (some 2)) ∷ press_dry_run ∷ []

abbrev fewest : List Event
fewest = edit (keep Bucket.daily (some 1)) ∷ []

enabled : preview_disabled false filled ≡ false
unfolding preview_disabled
enabled = refl

previewed-stale_example :
    ((previewed no_groups fewer fewest editing).preview.shown ≡ some [])
    × (plan_input fields (previewed no_groups fewer fewest editing).form
        ≡ plan_input fields (act_all (edits_of fewest) (act_all (edits_of fewer) filled)))
previewed-stale_example =
    previewed-stale no_groups fewer fewest editing fields [] (refl, (refl, tt)) (refl, tt) enabled
      refl

seven_daily :
    retention_fields filled
    ≡ (codes "Last", [])
      ∷ (codes "Daily", codes "7")
      ∷ (codes "Weekly", [])
      ∷ (codes "Monthly", [])
      ∷ (codes "Yearly", [])
      ∷ []
unfolding retention_fields decimal
seven_daily = refl

no_cron : cron_field filled ≡ none
unfolding cron_field
no_cron = refl
