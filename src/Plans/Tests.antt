-- ===== src/Plans/Tests.antt =====
-- The plans' part on small inputs.
use restic_ui.Base.{◌≡◌, ◌≢◌, refl, true, false, none, some, List, [], ◌∷◌, ◌++◌, map, arith}
use restic_ui.Base.Text.{codes, decimal}
use restic_ui.Base.Text.Trim.{trim, is_space}
use restic_ui.Plans.Form.Previews.{
  preview_text, kept_from, removed, snapshots_of, kept_from-removed,
}
use restic_ui.Base.{◌+◌, length}
use restic_ui.Types.{ForgetGroup, ForgetSnapshot, Plan, Operation, OpStatus, pos}
use restic_ui.Plans.Form.{
  Fields, Action, initial, initial_fields, act, no_options, no_retention, type_tag, add_tag,
  browse_to, remove_source, check_prune, add_chip, select_first_repo, keep, Bucket,
}
use restic_ui.Plans.Form.Submit.{
  plan_input, has_retention, update, finish_submit, dry_run_disabled, preview_disabled, api_error,
}
use restic_ui.Plans.Form.Chips.{act_all, SendsChips, plan_input-SendsChips}
use restic_ui.Plans.Form.Reopen.{
  contents, shown_retention, with_stored, plan_input-initial, plan_input-forgets_prune,
}
use restic_ui.Plans.Page.{closed, press_edit, in_edit, run, save_request}
use restic_ui.Plans.Page.View.{page_view}
use restic_ui.Plans.Card.View.{card_view}
use restic_ui.Plans.Page.Leak.{save_request-leaks}
use restic_ui.Plans.Card
use restic_ui.Plans.Card.{
  tracked_op, clear_running, run_now, shows_started, live_op, find_op, is_over,
}
use restic_ui.Plans.Card.Follow.{Follows, tracked_op-Follows, shows_started-run_now, rows}

abbrev photos : Plan
photos = record {
  id = 1;
  name = codes "photos";
  repo_id = 4;
  repo_name = codes "nas";
  sources = codes "/sources/photos" ∷ [];
  excludes = [];
  tags = codes "nightly" ∷ [];
  schedule_cron = codes "30 4 * * 1-5";
  retention = record no_retention { keep_daily = some 7; prune = some true };
  options = no_options;
  enabled = true;
  notify_muted = false;
  next_run = none;
  created_at = [];
  updated_at = [];
}

abbrev music : Plan
music = record photos { id = 2; name = codes "music"; sources = codes "/sources/music" ∷ [] }

abbrev fields : Fields
fields = record { name = codes " music "; enabled = true; notify_muted = false }

abbrev clicks : List Action
clicks =
    browse_to (codes "/a")
    ∷ browse_to (codes "/b")
    ∷ browse_to (codes " /a ")
    ∷ remove_source (codes "/b")
    ∷ type_tag (codes " home")
    ∷ add_tag
    ∷ add_tag
    ∷ []

added_once : (act_all clicks (initial none)).sources ≡ codes "/a" ∷ []
unfolding act add_chip trim is_space initial
added_once = refl

tag_trimmed : (act_all clicks (initial none)).tags ≡ codes "home" ∷ []
unfolding act add_chip trim is_space initial
tag_trimmed = refl

custom_shown : (initial (some photos)).preset ≡ codes "custom"
unfolding initial
custom_shown = refl

needs_source :
    dry_run_disabled false (act (remove_source (codes "/sources/photos")) (initial (some photos)))
    ≡ true
unfolding dry_run_disabled act initial
needs_source = refl

can_preview : preview_disabled false (initial (some photos)) ≡ false
unfolding preview_disabled initial
can_preview = refl

zero_keeps_none :
    preview_disabled false (act (keep Bucket.daily (some 0)) (initial (some photos))) ≡ true
unfolding preview_disabled act initial
zero_keeps_none = refl

refused : (finish_submit (api_error (codes "name taken")) (initial none)).1 ≡ false
unfolding finish_submit
refused = refl

no_repos : (select_first_repo none [] (initial none)).repo_id ≡ none
unfolding select_first_repo initial
no_repos = refl

plan_input-SendsChips_example : SendsChips (plan_input fields (act_all clicks (initial none)))
plan_input-SendsChips_example = plan_input-SendsChips none clicks fields tt

name_trimmed : trim photos.name ≡ photos.name
unfolding trim is_space
name_trimmed = refl

cron_trimmed : trim photos.schedule_cron ≡ photos.schedule_cron
unfolding trim is_space
cron_trimmed = refl

plan_input-initial_example :
    plan_input (initial_fields (some photos)) (initial (some photos))
    ≡ record (contents photos) { retention = shown_retention photos.retention }
plan_input-initial_example = plan_input-initial photos name_trimmed cron_trimmed

keeps_some : has_retention photos.retention ≡ true
unfolding has_retention
keeps_some = refl

plan_input-forgets_prune_example :
    let sent = plan_input fields (act (check_prune false) (initial (some photos))) in
    let reopened = initial (some (with_stored sent photos)) in
    (sent.retention.prune ≡ some false)
    × (reopened.prune ≡ true)
    × ((plan_input fields reopened).retention.prune ≡ some true)
plan_input-forgets_prune_example = plan_input-forgets_prune photos fields fields keeps_some

save_request-leaks_example :
    save_request fields
      (run (press_edit photos ∷ (map in_edit clicks ++ press_edit music ∷ [])) closed)
    ≡ some (update 2 (plan_input fields (act_all clicks (initial (some photos)))))
save_request-leaks_example = save_request-leaks photos music clicks fields

abbrev backup : Operation
backup = record {
  id = 9;
  type = codes "backup";
  repo_id = some 4;
  repo_name = none;
  plan_id = some 1;
  plan_name = none;
  status = OpStatus.success;
  started_at = none;
  ended_at = none;
  exit_code = some (pos 0);
  summary = none;
  created_at = [];
}

tracked_op-Follows_example : Follows (rows (some (backup ∷ []))) photos (some 9) (
    tracked_op
      (some (backup ∷ []))
      photos
      (clear_running (some (backup ∷ [])) (record Card.initial { running_op = some 9 })))
tracked_op-Follows_example =
    tracked_op-Follows (some (backup ∷ [])) photos (record Card.initial { running_op = some 9 })

idle : live_op (some (backup ∷ [])) photos ≡ none
unfolding live_op
idle = refl

nine_ne_zero : backup.id ≢ 0
nine_ne_zero = omega arith

shows_started-run_now_case :
    shows_started
      (some (backup ∷ []))
      photos
      (clear_running (some (backup ∷ [])) (run_now (some backup) Card.initial))
    ≡ is_over (find_op (some (backup ∷ [])) 9)
shows_started-run_now_case =
    shows_started-run_now (some (backup ∷ [])) photos backup Card.initial nine_ne_zero idle

abbrev snapshot : ForgetSnapshot
snapshot = record { id = codes "abcdef"; short_id = codes "abc"; time = []; paths = [] }

abbrev group : ForgetGroup
group = record {
  host = codes "nas";
  paths = [];
  tags = none;
  keep = snapshot ∷ [];
  remove = snapshot ∷ snapshot ∷ [];
}

preview_example : preview_text (group ∷ []) ≡ codes "Would keep 1 snapshot and remove 2."
unfolding preview_text decimal
preview_example = refl

group_counted :
    kept_from 0 (group ∷ []) + length (removed (group ∷ [])) ≡ length (snapshots_of (group ∷ []))
group_counted = kept_from-removed (group ∷ [])

two_tags :
    (card_view
      (λ t. t)
      false
      none
      none
      (record photos { tags = codes "a" ∷ codes "b" ∷ [] })
      Card.initial).tags
    ≡ some (codes "tags: a, b")
unfolding card_view
two_tags = refl

only_hint : (page_view false (some []) closed).hint ≡ true
unfolding page_view
only_hint = refl
