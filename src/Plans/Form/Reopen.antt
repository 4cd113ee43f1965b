-- ===== src/Plans/Form/Reopen.antt =====
-- web/src/components/plans/PlanForm.tsx: a plan that is opened again, and what the back end keeps
-- of it (internal/plan/plan.go).
use restic_ui.Base.{
  ℕ, zero, suc, Bool, true, false, Option, none, some, ◌≡◌, refl, ◌∙◌, if◌then◌else◌, or_else,
  Bool-cases, inl, inr, arith,
}
use restic_ui.Base.Text.{Text, text_eq, text_eq_refl}
use restic_ui.Base.Text.Trim.{trim}
use restic_ui.Types.{Plan, PlanInput, Retention}
use restic_ui.Plans.Form.{
  initial, initial_fields, Fields, no_retention, custom, act, check_prune, preset_of,
}
use restic_ui.Plans.Form.Submit.{plan_input, has_retention, schedule_of, is_positive}

-- The plan's own contents, as a body of a request.
abbrev pub contents : Plan → PlanInput
contents p = record {
  name = p.name;
  repo_id = p.repo_id;
  sources = p.sources;
  excludes = p.excludes;
  tags = p.tags;
  schedule_cron = p.schedule_cron;
  retention = p.retention;
  options = p.options;
  enabled = p.enabled;
  notify_muted = p.notify_muted;
}

-- The retention of a plan as the form shows it: pruning is on unless the plan says otherwise.
abbrev pub shown_retention : Retention → Retention
shown_retention r =
    if has_retention r then record r { prune = some (or_else r.prune true) } else no_retention

preset_of-other : (cron : Text) → text_eq (preset_of cron) custom ≡ false → preset_of cron ≡ cron
preset_of-other cron h = ground (arith, text_eq_refl custom)

schedule_of-initial :
    (p : Plan)
    → trim p.schedule_cron ≡ p.schedule_cron
    → schedule_of (initial (some p)) ≡ p.schedule_cron
unfolding initial
schedule_of-initial p h = elim (Bool-cases (text_eq (preset_of p.schedule_cron) custom)) [
  | inl e ↦ rw e h
  | inr e ↦ rw e (preset_of-other p.schedule_cron e)
]

-- A plan whose name and schedule have no white space at their ends, opened in the form and saved as
-- it is, is sent with the contents it has. Only its retention changes: pruning is on if the plan
-- does not say, and without a rule that keeps something the retention is empty.
pub plan_input-initial :
    (p : Plan)
    → trim p.name ≡ p.name
    → trim p.schedule_cron ≡ p.schedule_cron
    → plan_input (initial_fields (some p)) (initial (some p))
      ≡ record (contents p) { retention = shown_retention p.retention }
unfolding plan_input initial initial_fields
plan_input-initial p name_ok cron_ok = cc (schedule_of-initial p cron_ok)

-- A number and a flag under a tag with `omitempty`: 0 and `false` are left out of the JSON.
abbrev pub omit_zero : Option ℕ → Option ℕ
omit_zero none = none
omit_zero (some zero) = none
omit_zero (some (suc n)) = some (suc n)

abbrev pub omit_false : Option Bool → Option Bool
omit_false none = none
omit_false (some false) = none
omit_false (some true) = some true

-- A retention that went to the back end and came back.
unfoldable pub stored : Retention → Retention
stored r = record {
  keep_last = omit_zero r.keep_last;
  keep_hourly = omit_zero r.keep_hourly;
  keep_daily = omit_zero r.keep_daily;
  keep_weekly = omit_zero r.keep_weekly;
  keep_monthly = omit_zero r.keep_monthly;
  keep_yearly = omit_zero r.keep_yearly;
  prune = omit_false r.prune;
}

is_positive-omit_zero : (n : Option ℕ) → is_positive (omit_zero n) ≡ is_positive n
is_positive-omit_zero none = refl
is_positive-omit_zero (some zero) = refl
is_positive-omit_zero (some (suc n)) = refl

has_retention-stored : (r : Retention) → has_retention (stored r) ≡ has_retention r
unfolding has_retention stored
has_retention-stored r = rw (
  is_positive-omit_zero r.keep_last,
  is_positive-omit_zero r.keep_hourly,
  is_positive-omit_zero r.keep_daily,
  is_positive-omit_zero r.keep_weekly,
  is_positive-omit_zero r.keep_monthly,
  is_positive-omit_zero r.keep_yearly,
)

-- A plan after the retention of a request was stored.
abbrev pub with_stored : PlanInput → Plan → Plan
with_stored input p = record p { retention = stored input.retention }

has_retention-prune :
    (r : Retention) (b : Option Bool) → has_retention (record r { prune = b }) ≡ has_retention r
unfolding has_retention
has_retention-prune r b = refl

kept-stored :
    (r : Retention)
    → has_retention r ≡ true
    → has_retention (stored (record r { prune = some false })) ≡ true
kept-stored r h =
    has_retention-stored (record r { prune = some false }) ∙ has_retention-prune r (some false) ∙ h

-- If "Prune after forget" is unticked for a plan with a retention and the form is saved, the form
-- shows it ticked when the stored plan is opened again, and saving that as it is turns pruning on.
pub plan_input-forgets_prune :
    (p : Plan) (f g : Fields)
    → has_retention p.retention ≡ true
    → let sent = plan_input f (act (check_prune false) (initial (some p))) in
      let reopened = initial (some (with_stored sent p)) in
      (sent.retention.prune ≡ some false)
      × (reopened.prune ≡ true)
      × ((plan_input g reopened).retention.prune ≡ some true)
plan_input-forgets_prune p f g h =
    unfold plan_input initial act in
    rw (h, kept-stored p.retention h) (unfold stored in (refl, refl, refl))
