-- ===== src/Repos/Card/InFlight/Answers.antt =====
-- web/src/components/repos/RepoCard.tsx: an answer ends its request, and whatever happens on the card.
use restic_ui.Base.{
  nil_of_length, ℕ, zero, suc, ◌+◌, ◌≤◌, false, Option, none, some, List, [], ◌∷◌, ◌≡◌, refl, ap,
  sym, ◌∙◌, length, get_elem?, arith, ◌++◌, length-append,
}
use restic_ui.Session.Requests.{thrown, Result}
use restic_ui.Types.{Repo}
use restic_ui.Repos.Card.{
  Kind, System, Job, Task, task, RepoCard, check, prune, delete, forget, save, find, diff, copy,
  Loaded, initial, Text, value, api_error,
}
use restic_ui.Repos.Card.Run.{
  handle, erase_at, answer, report_copy, settled, Event, run, saved_text, report, start, task_text,
  clicked, answered,
}
use restic_ui.Repos.Card.InFlight.{IsExclusive, task_list, tasks_of, as_list, count}
use restic_ui.Repos.Card.InFlight.Clicks.{click-IsExclusive}

pub some_inj : {a b : Job} → some a ≡ some b → a ≡ b
some_inj h = cc h

-- What an answer takes out of the requests.
tasks_of-erase_at :
    (jobs : List Job) (i : ℕ) (job : Job)
    → get_elem? jobs i ≡ some job
    → length (task_list job) + length (tasks_of (erase_at i jobs)) ≡ length (tasks_of jobs)
tasks_of-erase_at [] i job e = cc e
tasks_of-erase_at (x ∷ jobs) zero job e = omega (
  arith,
  length-append (task_list x) (tasks_of jobs),
  ap (λ j. length (task_list j)) (some_inj e),
)
tasks_of-erase_at (x ∷ jobs) (suc i) job e = omega (
  arith,
  length-append (task_list x) (tasks_of (erase_at i jobs)),
  length-append (task_list x) (tasks_of jobs),
  tasks_of-erase_at jobs i job e,
)

count-erase_at : (k : Kind) (jobs : List Job) (i : ℕ) → count k (erase_at i jobs) ≤ count k jobs
count-erase_at k [] i = omega arith
count-erase_at k (x ∷ jobs) zero = ground arith
count-erase_at k (x ∷ jobs) (suc i) = ground (arith, count-erase_at k jobs i)

tasks_of_keep :
    (jobs : List Job) (i : ℕ) (job : Job)
    → get_elem? jobs i ≡ some job
    → task_list job ≡ []
    → tasks_of (erase_at i jobs) ≡ tasks_of jobs
tasks_of_keep [] i job e n = refl
tasks_of_keep (x ∷ jobs) zero job e n =
    ap (λ l. l ++ tasks_of jobs) (sym (ap task_list (some_inj e) ∙ n))
tasks_of_keep (x ∷ jobs) (suc i) job e n = ap (λ l. task_list x ++ l) (tasks_of_keep jobs i job e n)

length-as_list : (o : Option Task) → length (as_list o) ≤ 1
length-as_list none = omega arith
length-as_list (some t) = omega arith

report-busy :
    (text : Text) (r : Result (Unit {0})) (s : RepoCard)
    → (report text r s).busy_action ≡ s.busy_action
report-busy text (value u) s = refl
report-busy text (api_error n m) s = refl
report-busy text thrown s = refl

report_copy-busy :
    (r : Result (Unit {0})) (s : RepoCard) → (report_copy r s).busy_action ≡ s.busy_action
report_copy-busy (value u) s = refl
report_copy-busy (api_error n m) s = refl
report_copy-busy thrown s = refl

-- Only the answer to a task changes which one is busy.
answer-busy :
    (job : Job) (r : Result (Unit {0})) (s : RepoCard)
    → task_list job ≡ []
    → (answer job r s).busy_action ≡ s.busy_action
unfolding answer
answer-busy (task t) r s h = cc h
answer-busy check r s h = report-busy _ r s
answer-busy prune r s h = report-busy _ r (record s { confirm_prune = false })
answer-busy delete r s h = refl
answer-busy (forget id) r s h = report-busy _ r (record s { confirm_forget = none })
answer-busy (save cron) r s h = report-busy (saved_text cron) r s
answer-busy (find pattern) r s h = refl
answer-busy (diff from to) r s h = refl
answer-busy (copy dest) r s h = report_copy-busy r s

answer_task-busy :
    (t : Task) (r : Result (Unit {0})) (s : RepoCard) → (answer (task t) r s).busy_action ≡ none
unfolding answer
answer_task-busy t r s = report-busy (task_text t) r (record s { busy_action = none })

settled-busy_other :
    (sys : System) (i : ℕ) (r : Result (Unit {0})) (job : Job)
    → get_elem? sys.in_flight i ≡ some job
    → tasks_of sys.in_flight ≡ as_list sys.card.busy_action
    → task_list job ≡ []
    → tasks_of (erase_at i sys.in_flight) ≡ as_list (answer job r sys.card).busy_action
settled-busy_other sys i r job e h n =
    tasks_of_keep sys.in_flight i job e n ∙ h ∙ ap as_list (sym (answer-busy job r sys.card n))

settled-busy :
    (sys : System) (i : ℕ) (r : Result (Unit {0})) (job : Job)
    → get_elem? sys.in_flight i ≡ some job
    → tasks_of sys.in_flight ≡ as_list sys.card.busy_action
    → tasks_of (erase_at i sys.in_flight) ≡ as_list (answer job r sys.card).busy_action
settled-busy sys i r (task t) e h =
    nil_of_length (tasks_of (erase_at i sys.in_flight)) (
      omega (
        arith,
        tasks_of-erase_at sys.in_flight i (task t) e,
        ap length h,
        length-as_list sys.card.busy_action,
      ))
    ∙ ap as_list (sym (answer_task-busy t r sys.card))
settled-busy sys i r check e h = settled-busy_other sys i r check e h refl
settled-busy sys i r prune e h = settled-busy_other sys i r prune e h refl
settled-busy sys i r delete e h = settled-busy_other sys i r delete e h refl
settled-busy sys i r (forget id) e h = settled-busy_other sys i r (forget id) e h refl
settled-busy sys i r (save cron) e h = settled-busy_other sys i r (save cron) e h refl
settled-busy sys i r (find pattern) e h = settled-busy_other sys i r (find pattern) e h refl
settled-busy sys i r (diff from to) e h = settled-busy_other sys i r (diff from to) e h refl
settled-busy sys i r (copy dest) e h = settled-busy_other sys i r (copy dest) e h refl

settled-IsExclusive :
    (sys : System) (i : ℕ) (r : Result (Unit {0})) (o : Option Job)
    → get_elem? sys.in_flight i ≡ o
    → IsExclusive sys
    → IsExclusive (settled sys i r o)
settled-IsExclusive sys i r none e h = h
settled-IsExclusive sys i r (some job) e h = record {
  busy = settled-busy sys i r job e h.busy;
  one = λ k single. omega (arith, count-erase_at k sys.in_flight i, h.one k single);
}

handle-IsExclusive :
    (env : Loaded) (e : Event) (sys : System) → IsExclusive sys → IsExclusive (handle env e sys)
unfolding handle
handle-IsExclusive env (clicked c) sys h = click-IsExclusive env sys c h
handle-IsExclusive env (answered i r) sys h =
    settled-IsExclusive sys i r (get_elem? sys.in_flight i) refl h

run-IsExclusive_from :
    (events : List (Loaded × Event)) (sys : System) → IsExclusive sys → IsExclusive (run events sys)
unfolding run
run-IsExclusive_from [] sys h = h
run-IsExclusive_from ((env, e) ∷ events) sys h =
    run-IsExclusive_from events (handle env e sys) (handle-IsExclusive env e sys h)

-- Whatever is clicked on a repository's card, and in whatever order its requests are answered and
-- with what answers: the task (init, test or unlock) that the card shows as busy is the only one in
-- flight, and none is in flight if it shows none; and of the checks, prunes, forgets, searches,
-- comparisons and copies one request each is in flight at most.
pub run-IsExclusive :
    (repo : Repo) (events : List (Loaded × Event)) → IsExclusive (run events (start repo))
run-IsExclusive repo events =
    run-IsExclusive_from events (start repo)
      (unfold start initial in record { busy = refl; one = λ k single. omega arith })
