-- ===== src/Repos/Card/Buttons.antt =====
-- web/src/components/repos/RepoCard.tsx: the controls of a repository's card: which buttons are
-- enabled, and what a click changes and sends.
use restic_ui.Base.{
  ℕ, Bool, true, false, not, ◌&&◌, Option, none, some, if◌then◌else◌, any, leb, length, is_some,
}
use restic_ui.Base.Text.{Text, text_eq, is_empty}
use restic_ui.Base.Text.Trim.{trim}
use restic_ui.Plans.Form.{custom}
use restic_ui.Repos.Card.{
  Click, Job, Kind, Loaded, RepoCard, System, ask_delete, ask_forget, ask_prune, browse,
  cancel_forget, cancel_prune, check, checks, choose_dest, choose_from, choose_preset, choose_to,
  close_browser, copies, copy, delete, diff, diff_from_val, diff_to_val, diffs, find, finds, forget,
  forgets, is_kind, keep_repo, press_check, press_copy, press_delete, press_diff, press_find,
  press_forget, press_prune, press_save, press_task, prune, prunes, save, shows_rows, snapshots_of,
  task, toggle_row, toggle_snapshots, type_cron, type_pattern,
}

-- A button that sends a request if it is there and enabled.
abbrev pub send_if : Bool → RepoCard → Job → RepoCard → RepoCard × Option Job
send_if enabled after job s = if enabled then (after, some job) else (s, none)

abbrev pub same_text : Text → Option Text → Bool
same_text a none = false
same_text a (some b) = text_eq b a

-- `setBrowsingSnap(browsingSnap === s.id ? null : s.id)`
abbrev pub toggle_snap : Text → Option Text → Option Text
toggle_snap id shown = if same_text id shown then none else some id

abbrev pub copy_if : Bool → Option ℕ → RepoCard → RepoCard × Option Job
copy_if enabled none s = (s, none)
copy_if enabled (some dest) s = send_if enabled s (copy dest) s

-- No request of that kind is in flight.
abbrev pub idle : Kind → System → Bool
idle k sys = not (any (is_kind k) sys.in_flight)

-- Which buttons are there and enabled.
abbrev pub can_prune : System → RepoCard → Bool
can_prune sys s = s.confirm_prune && idle prunes sys

abbrev pub can_save : System → RepoCard → Bool
can_save sys s =
    text_eq s.check_preset custom
    && not sys.save_pending
    && not (is_empty (trim s.check_cron_draft))

abbrev pub can_find : Loaded → System → RepoCard → Bool
can_find env sys s = shows_rows env s && idle finds sys && not (is_empty (trim s.find_pattern))

abbrev pub can_forget : Loaded → System → RepoCard → Text → Bool
can_forget env sys s id = shows_rows env s && same_text id s.confirm_forget && idle forgets sys

abbrev pub can_diff : Loaded → System → RepoCard → Bool
can_diff env sys s =
    s.show_snapshots
    && leb 2 (length (snapshots_of env))
    && idle diffs sys
    && not (text_eq (diff_from_val env s) (diff_to_val env s))

abbrev pub can_copy : Loaded → System → RepoCard → Bool
can_copy env sys s = shows_rows env s && leb 1 (length env.other_repos) && idle copies sys

unfoldable pub click_on : Loaded → System → RepoCard → Click → RepoCard × Option Job
click_on env sys s (press_task t) =
    send_if (not (is_some s.busy_action)) (record s { busy_action = some t; feedback = none })
      (task t) s
click_on env sys s press_check = send_if (idle checks sys) (record s { feedback = none }) check s
click_on env sys s ask_delete = (record s { confirm_delete = true }, none)
click_on env sys s keep_repo = (record s { confirm_delete = false }, none)
click_on env sys s press_delete = send_if s.confirm_delete s delete s
click_on env sys s ask_prune = (record s { confirm_prune = true }, none)
click_on env sys s cancel_prune = (record s { confirm_prune = false }, none)
click_on env sys s press_prune = send_if (can_prune sys s) s prune s
click_on env sys s toggle_snapshots = (record s { show_snapshots = not s.show_snapshots }, none)
click_on env sys s (choose_preset v) =
    send_if (not (text_eq v custom)) (record s { check_preset = v; feedback = none }) (save v)
      (record s { check_preset = v })
click_on env sys s (type_cron v) = (record s { check_cron_draft = v }, none)
click_on env sys s press_save =
    send_if (can_save sys s) (record s { feedback = none }) (save (trim s.check_cron_draft)) s
click_on env sys s (type_pattern v) = (record s { find_pattern = v }, none)
click_on env sys s press_find = send_if (can_find env sys s) s (find (trim s.find_pattern)) s
click_on env sys s (browse id) = (record s { browsing_snap = some id }, none)
click_on env sys s (toggle_row id) =
    (record s { browsing_snap = toggle_snap id s.browsing_snap }, none)
click_on env sys s close_browser = (record s { browsing_snap = none }, none)
click_on env sys s (ask_forget id) = (record s { confirm_forget = some id }, none)
click_on env sys s (press_forget id) = send_if (can_forget env sys s id) s (forget id) s
click_on env sys s cancel_forget = (record s { confirm_forget = none }, none)
click_on env sys s (choose_from v) = (record s { diff_from = v }, none)
click_on env sys s (choose_to v) = (record s { diff_to = v }, none)
click_on env sys s press_diff =
    send_if (can_diff env sys s) s (diff (diff_from_val env s) (diff_to_val env s)) s
click_on env sys s (choose_dest id) = (record s { copy_dest = some id }, none)
click_on env sys s press_copy = copy_if (can_copy env sys s) s.copy_dest s

unfoldable pub click : Loaded → System → Click → RepoCard × Option Job
unfolding click_on
click env sys c = click_on env sys sys.card c
