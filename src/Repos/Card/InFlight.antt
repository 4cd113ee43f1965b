-- ===== src/Repos/Card/InFlight.antt =====
-- web/src/components/repos/RepoCard.tsx: which requests can be under way at once.
pub mod Clicks
pub mod Answers
pub mod Settles
use restic_ui.Base.{
  ℕ, zero, suc, ◌+◌, ◌≤◌, Bool, true, false, not, ◌&&◌, Option, none, some, List, [], ◌∷◌, ◌≡◌,
  refl, ap, sym, ◌∙◌, ◌==◌, if◌then◌else◌, any, filter, length, get_elem?, is_some, subst,
  Bool-cases, inl, inr, arith, ◌++◌, length-append,
}
use restic_ui.Session.Requests.{thrown, Result}
use restic_ui.Types.{Repo}
use restic_ui.Repos.Card.{
  Kind, same_kind, System, Job, Task, task, RepoCard, is_kind, kind_of, tasks, checks, prunes,
  deletes, forgets, saves, finds, diffs, copies, check, prune, delete, forget, save, find, diff,
  copy, press_task, press_check, ask_delete, keep_repo, press_delete, ask_prune, cancel_prune,
  press_prune, toggle_snapshots, choose_preset, type_cron, press_save, type_pattern, press_find,
  browse, toggle_row, close_browser, ask_forget, press_forget, cancel_forget, choose_from,
  choose_to, press_diff, choose_dest, press_copy, Click, Loaded, initial, text_eq, custom, trim,
  diff_from_val, diff_to_val, Text, value, api_error,
}
use restic_ui.Repos.Card.Buttons.{
  send_if, click, click_on, copy_if, idle, can_prune, can_save, can_find, can_forget, can_diff,
  can_copy,
}
use restic_ui.Repos.Card.Run.{
  handle, sent, erase_at, answer, report_copy, settled, Event, run, saved_text, report, start,
  task_text, clicked, answered,
}

abbrev pub task_list : Job → List Task
task_list (task t) = t ∷ []
task_list _ = []

-- The tasks (init, test, unlock) among the requests.
abbrev pub tasks_of : List Job → List Task
tasks_of [] = []
tasks_of (job ∷ jobs) = task_list job ++ tasks_of jobs

abbrev pub as_list : Option Task → List Task
as_list none = []
as_list (some t) = t ∷ []

-- The kinds whose buttons are disabled while one is under way.
abbrev pub is_single : Kind → Bool
is_single tasks = false
is_single saves = false
is_single deletes = false
is_single _ = true

abbrev pub count : Kind → List Job → ℕ
count k jobs = length (filter (is_kind k) jobs)

-- The task that the card shows as busy is the one in flight, and no other one is; of each other kind
-- of request one at most is in flight, but for saves of a schedule and deletions.
pub record IsExclusive (sys : System) : Type 0 where
  pub busy : tasks_of sys.in_flight ≡ as_list sys.card.busy_action
  pub one : (k : Kind) → is_single k ≡ true → count k sys.in_flight ≤ 1

same_kind_eq : (a b : Kind) → same_kind a b ≡ true → a ≡ b
same_kind_eq tasks b h = ground arith
same_kind_eq checks b h = ground arith
same_kind_eq prunes b h = ground arith
same_kind_eq deletes b h = ground arith
same_kind_eq forgets b h = ground arith
same_kind_eq saves b h = ground arith
same_kind_eq finds b h = ground arith
same_kind_eq diffs b h = ground arith
same_kind_eq copies b h = ground arith

count_eq_zero : (k : Kind) (jobs : List Job) → any (is_kind k) jobs ≡ false → count k jobs ≡ 0
count_eq_zero k [] h = refl
count_eq_zero k (job ∷ jobs) h = ground (arith, count_eq_zero k jobs)

abbrev pub Ones : List Job → Type 0
Ones jobs = (k : Kind) → is_single k ≡ true → count k jobs ≤ 1

-- A request of a kind that may be under way once is sent when none is.
abbrev pub IsFirst : Job → List Job → Type 0
IsFirst job jobs = is_single (kind_of job) ≡ true → any (is_kind (kind_of job)) jobs ≡ false

pub Ones-cons : (job : Job) (jobs : List Job) → IsFirst job jobs → Ones jobs → Ones (job ∷ jobs)
Ones-cons job jobs first h k single = elim (Bool-cases (is_kind k job)) [
  | inl e ↦
      let same = same_kind_eq k (kind_of job) e in
      let none_yet =
        subst (λ l. any (is_kind l) jobs ≡ false) (sym same)
          (first (ap is_single (sym same) ∙ single)) in
      ground (arith, count_eq_zero k jobs none_yet)
  | inr e ↦ rw e (h k single)
]
