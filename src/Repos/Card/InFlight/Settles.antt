-- ===== src/Repos/Card/InFlight/Settles.antt =====
-- web/src/components/repos/RepoCard.tsx: once everything is answered, nothing stays busy.
use restic_ui.Base.{
  nil_of_length, ℕ, zero, suc, ◌≤◌, ◌<◌, Bool, true, false, Option, none, some, List, [], ◌∷◌, ◌≡◌,
  refl, ap, ◌∙◌, length, get_elem?, arith, ◌++◌, take, any, Bool-cases, inl, inr,
}
use restic_ui.Session.Requests.{Result}
use restic_ui.Types.{Repo}
use restic_ui.Repos.Card.{System, Job, Task, task, RepoCard, Loaded, is_kind, saves, press_task}
use restic_ui.Repos.Card.Buttons.{click, click_on}
use restic_ui.Repos.Card.Run.{handle, erase_at, sent, settled, Event, run, start, clicked, answered}
use restic_ui.Repos.Card.InFlight.{as_list, tasks_of}
use restic_ui.Repos.Card.InFlight.Answers.{run-IsExclusive, some_inj}

-- Where a save is shown as pending, one is in flight.
abbrev pub IsPending : System → Type 0
IsPending sys = sys.save_pending ≡ true → any (is_kind saves) sys.in_flight ≡ true

any-erase_at_before :
    (p : Job → Bool) (jobs : List Job) (i : ℕ)
    → any p (take i jobs) ≡ true
    → any p (erase_at i jobs) ≡ true
any-erase_at_before p [] zero h = h
any-erase_at_before p [] (suc i) h = h
any-erase_at_before p (x ∷ jobs) zero h = cc h
any-erase_at_before p (x ∷ jobs) (suc i) h = ground (arith, any-erase_at_before p jobs i)

any-erase_at_other :
    (p : Job → Bool) (jobs : List Job) (i : ℕ) (job : Job)
    → get_elem? jobs i ≡ some job
    → p job ≡ false
    → any p jobs ≡ true
    → any p (erase_at i jobs) ≡ true
any-erase_at_other p [] i job e other h = h
any-erase_at_other p (x ∷ jobs) zero job e other h = ground (arith, ap p (some_inj e) ∙ other)
any-erase_at_other p (x ∷ jobs) (suc i) job e other h =
    ground (arith, any-erase_at_other p jobs i job e other)

length-erase_at :
    (jobs : List Job) (i : ℕ) → i < length jobs → suc (length (erase_at i jobs)) ≡ length jobs
length-erase_at [] i h = absurd (omega arith)
length-erase_at (x ∷ jobs) zero h = refl
length-erase_at (x ∷ jobs) (suc i) h = ap suc (length-erase_at jobs i (omega arith))

get_elem?-some :
    (jobs : List Job) (i : ℕ) → i < length jobs → (job : Job) × (get_elem? jobs i ≡ some job)
get_elem?-some [] i h = absurd (omega arith)
get_elem?-some (x ∷ jobs) zero h = (x, refl)
get_elem?-some (x ∷ jobs) (suc i) h = get_elem?-some jobs i (omega arith)

sent-IsPending : (sys : System) (c : RepoCard × Option Job) → IsPending sys → IsPending (sent sys c)
sent-IsPending sys (card, none) h = h
sent-IsPending sys (card, some job) h = elim (Bool-cases (is_kind saves job)) [
  | inl e ↦ λ k. rw e refl
  | inr e ↦ λ k. rw e (h (rw e at k))
]

settled-IsPending :
    (sys : System) (i : ℕ) (r : Result (Unit {0})) (o : Option Job)
    → get_elem? sys.in_flight i ≡ o
    → IsPending sys
    → IsPending (settled sys i r o)
settled-IsPending sys i r none e h = h
settled-IsPending sys i r (some job) e h = λ k.
    elim (Bool-cases (any (is_kind saves) (take i sys.in_flight))) [
      | inl b ↦ any-erase_at_before (is_kind saves) sys.in_flight i b
      | inr b ↦ elim (Bool-cases (is_kind saves job)) [
        | inl s ↦ cc (rw (s, b) at k)
        | inr s ↦ any-erase_at_other (is_kind saves) sys.in_flight i job e s (h (rw s at k))
      ]
    ]

run-IsPending :
    (events : List (Loaded × Event)) (sys : System) → IsPending sys → IsPending (run events sys)
unfolding run handle
run-IsPending [] sys h = h
run-IsPending ((env, clicked c) ∷ events) sys h =
    run-IsPending events (handle env (clicked c) sys) (sent-IsPending sys (click env sys c) h)
run-IsPending ((env, answered i r) ∷ events) sys h =
    run-IsPending events (handle env (answered i r) sys)
      (settled-IsPending sys i r (get_elem? sys.in_flight i) refl h)

-- An answer to each of `n` requests: at every moment to some request that is still in flight.
abbrev pub Answers : ℕ → List (Loaded × ℕ × Result (Unit {0})) → Type 0
Answers n [] = n ≡ 0
Answers zero (a ∷ rest) = ⊥
Answers (suc n) ((env, i, r) ∷ rest) = (i ≤ n) × Answers n rest

abbrev pub as_events : List (Loaded × ℕ × Result (Unit {0})) → List (Loaded × Event)
as_events [] = []
as_events ((env, i, r) ∷ rest) = (env, answered i r) ∷ as_events rest

length-settled :
    (sys : System) (i : ℕ) (r : Result (Unit {0})) (o : Option Job)
    → get_elem? sys.in_flight i ≡ o
    → i < length sys.in_flight
    → suc (length (settled sys i r o).in_flight) ≡ length sys.in_flight
length-settled sys i r none e h =
    let (job, found) = get_elem?-some sys.in_flight i h in cc (e, found)
length-settled sys i r (some job) e h = length-erase_at sys.in_flight i h

run-Answers :
    (rest : List (Loaded × ℕ × Result (Unit {0}))) (n : ℕ) (sys : System)
    → length sys.in_flight ≡ n
    → Answers n rest
    → (run (as_events rest) sys).in_flight ≡ []
unfolding run handle
run-Answers [] n sys len h = nil_of_length sys.in_flight (len ∙ h)
run-Answers (a ∷ rest) zero sys len h = absurd h
run-Answers ((env, i, r) ∷ rest) (suc n) sys len h =
    run-Answers rest n (handle env (answered i r) sys)
      (omega (
        arith,
        length-settled sys i r (get_elem? sys.in_flight i) refl (omega (arith, h.0, len)),
        len,
      ))
      h.1

busy_none : (jobs : List Job) (o : Option Task) → jobs ≡ [] → tasks_of jobs ≡ as_list o → o ≡ none
busy_none jobs none e h = refl
busy_none jobs (some t) e h = cc (ap tasks_of e, h)

not_pending :
    (pending : Bool) (jobs : List Job)
    → jobs ≡ []
    → (pending ≡ true → any (is_kind saves) jobs ≡ true)
    → pending ≡ false
not_pending true jobs e h = cc (ap (any (is_kind saves)) e, h refl)
not_pending false jobs e h = refl

task_sent :
    (env : Loaded) (sys : System) (t : Task)
    → sys.card.busy_action ≡ none
    → (click env sys (press_task t)).1 ≡ some (task t)
unfolding click click_on
task_sent env sys t e = rw e refl

run-append :
    (es fs : List (Loaded × Event)) (sys : System) → run (es ++ fs) sys ≡ run fs (run es sys)
unfolding run
run-append [] fs sys = refl
run-append ((env, e) ∷ es) fs sys = run-append es fs (handle env e sys)

-- Whatever was clicked on a repository's card: when each request that is then in flight has been
-- answered, in whatever order and with what answers, no request is in flight and the card shows none as
-- under way; a click on "Init", "Test" or "Unlock" then sends its request.
pub run-settles :
    (repo : Repo) (events : List (Loaded × Event)) (answers : List (Loaded × ℕ × Result (Unit {0})))
    (env : Loaded) (t : Task)
    → Answers (length (run events (start repo)).in_flight) answers
    → let sys = run (events ++ as_events answers) (start repo) in
      (sys.in_flight ≡ [])
      × (sys.card.busy_action ≡ none)
      × (sys.save_pending ≡ false)
      × ((click env sys (press_task t)).1 ≡ some (task t))
run-settles repo events answers env t h =
    let sys = run (events ++ as_events answers) (start repo) in
    let settled_all : sys.in_flight ≡ [] =
      ap (λ s. s.in_flight) (run-append events (as_events answers) (start repo))
      ∙ run-Answers answers (length (run events (start repo)).in_flight) (run events (start repo))
          refl h in
    let free =
      busy_none sys.in_flight sys.card.busy_action settled_all
        (run-IsExclusive repo (events ++ as_events answers)).busy in
    (
      settled_all,
      free,
      not_pending sys.save_pending sys.in_flight settled_all
          (run-IsPending (events ++ as_events answers) (start repo) (unfold start in λ e. cc e)),
      task_sent env sys t free,
    )
