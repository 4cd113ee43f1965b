-- ===== src/Repos/Card/InFlight/Clicks.antt =====
-- web/src/components/repos/RepoCard.tsx: a click sends no second request of a kind.
use restic_ui.Base.{
  ℕ, Bool, true, false, not, Option, none, some, List, [], ◌∷◌, ◌≡◌, refl, ap, ◌∙◌, any, is_some,
  arith,
}
use restic_ui.Repos.Card.{
  System, Job, Task, task, RepoCard, is_kind, checks, copies, check, prune, delete, forget, save,
  find, diff, copy, press_task, press_check, ask_delete, keep_repo, press_delete, ask_prune,
  cancel_prune, press_prune, toggle_snapshots, choose_preset, type_cron, press_save, type_pattern,
  press_find, browse, toggle_row, close_browser, ask_forget, press_forget, cancel_forget,
  choose_from, choose_to, press_diff, choose_dest, press_copy, Click, Loaded, text_eq, custom, trim,
  diff_from_val, diff_to_val,
}
use restic_ui.Repos.Card.Buttons.{
  send_if, click, click_on, copy_if, idle, can_prune, can_save, can_find, can_forget, can_diff,
  can_copy,
}
use restic_ui.Repos.Card.Run.{sent}
use restic_ui.Repos.Card.InFlight.{IsExclusive, tasks_of, as_list, IsFirst, Ones-cons}

send_if-IsExclusive :
    (sys : System) (enabled : Bool) (after : RepoCard) (job : Job)
    → IsExclusive sys
    → (enabled ≡ true
        → (tasks_of (job ∷ sys.in_flight) ≡ as_list after.busy_action) × IsFirst job sys.in_flight)
    → IsExclusive (sent sys (send_if enabled after job sys.card))
send_if-IsExclusive sys false after job h ok = h
send_if-IsExclusive sys true after job h ok = record {
  busy = (ok refl).0;
  one = Ones-cons job sys.in_flight (ok refl).1 h.one;
}

copy_if-IsExclusive :
    (sys : System) (enabled : Bool) (dest : Option ℕ)
    → IsExclusive sys
    → (enabled ≡ true → any (is_kind copies) sys.in_flight ≡ false)
    → IsExclusive (sent sys (copy_if enabled dest sys.card))
copy_if-IsExclusive sys enabled none h ok = h
copy_if-IsExclusive sys enabled (some dest) h ok =
    send_if-IsExclusive sys enabled sys.card (copy dest) h (λ e. (h.busy, λ single. ok e))

none_busy : (o : Option Task) → not (is_some o) ≡ true → o ≡ none
none_busy none h = refl
none_busy (some t) h = cc h

press_task_busy :
    (t : Task) (jobs : List Job) (o : Option Task)
    → tasks_of jobs ≡ as_list o
    → o ≡ none
    → tasks_of (task t ∷ jobs) ≡ t ∷ []
press_task_busy t jobs o h e = ap (λ l. t ∷ l) (h ∙ ap as_list e)

pub click-IsExclusive :
    (env : Loaded) (sys : System) (c : Click)
    → IsExclusive sys
    → IsExclusive (sent sys (click env sys c))
unfolding click click_on
click-IsExclusive env sys (press_task t) h =
    send_if-IsExclusive sys (not (is_some sys.card.busy_action))
      (record sys.card { busy_action = some t; feedback = none }) (task t) h
      (λ e.
        (press_task_busy t sys.in_flight sys.card.busy_action h.busy (none_busy _ e), λ x. cc x))
click-IsExclusive env sys press_check h =
    send_if-IsExclusive sys (idle checks sys) (record sys.card { feedback = none }) check h
      (λ e. (h.busy, λ x. ground arith))
click-IsExclusive env sys ask_delete h = record { busy = h.busy; one = h.one }
click-IsExclusive env sys keep_repo h = record { busy = h.busy; one = h.one }
click-IsExclusive env sys press_delete h =
    send_if-IsExclusive sys sys.card.confirm_delete sys.card delete h (λ e. (h.busy, λ x. cc x))
click-IsExclusive env sys ask_prune h = record { busy = h.busy; one = h.one }
click-IsExclusive env sys cancel_prune h = record { busy = h.busy; one = h.one }
click-IsExclusive env sys press_prune h =
    send_if-IsExclusive sys (can_prune sys sys.card) sys.card prune h
      (λ e. (h.busy, λ x. ground arith))
click-IsExclusive env sys toggle_snapshots h = record { busy = h.busy; one = h.one }
click-IsExclusive env sys (choose_preset v) h =
    send_if-IsExclusive (record sys { card = record sys.card { check_preset = v } })
      (not (text_eq v custom)) (record sys.card { check_preset = v; feedback = none }) (save v)
      (record { busy = h.busy; one = h.one }) (λ e. (h.busy, λ x. cc x))
click-IsExclusive env sys (type_cron v) h = record { busy = h.busy; one = h.one }
click-IsExclusive env sys press_save h =
    send_if-IsExclusive sys (can_save sys sys.card) (record sys.card { feedback = none })
      (save (trim sys.card.check_cron_draft)) h (λ e. (h.busy, λ x. cc x))
click-IsExclusive env sys (type_pattern v) h = record { busy = h.busy; one = h.one }
click-IsExclusive env sys press_find h =
    send_if-IsExclusive sys (can_find env sys sys.card) sys.card (find (trim sys.card.find_pattern))
      h (λ e. (h.busy, λ x. ground arith))
click-IsExclusive env sys (browse id) h = record { busy = h.busy; one = h.one }
click-IsExclusive env sys (toggle_row id) h = record { busy = h.busy; one = h.one }
click-IsExclusive env sys close_browser h = record { busy = h.busy; one = h.one }
click-IsExclusive env sys (ask_forget id) h = record { busy = h.busy; one = h.one }
click-IsExclusive env sys (press_forget id) h =
    send_if-IsExclusive sys (can_forget env sys sys.card id) sys.card (forget id) h
      (λ e. (h.busy, λ x. ground arith))
click-IsExclusive env sys cancel_forget h = record { busy = h.busy; one = h.one }
click-IsExclusive env sys (choose_from v) h = record { busy = h.busy; one = h.one }
click-IsExclusive env sys (choose_to v) h = record { busy = h.busy; one = h.one }
click-IsExclusive env sys press_diff h =
    send_if-IsExclusive sys (can_diff env sys sys.card) sys.card
      (diff (diff_from_val env sys.card) (diff_to_val env sys.card)) h
      (λ e. (h.busy, λ x. ground arith))
click-IsExclusive env sys (choose_dest id) h = record { busy = h.busy; one = h.one }
click-IsExclusive env sys press_copy h =
    copy_if-IsExclusive sys (can_copy env sys sys.card) sys.card.copy_dest h (λ e. ground arith)
