-- ===== src/Repos/Card/Run.antt =====
-- web/src/components/repos/RepoCard.tsx: the answers to the card's requests, in any order.
use restic_ui.Base.{
  ℕ, zero, suc, true, false, not, ◌&&◌, Option, none, some, List, [], ◌∷◌, ◌++◌, if◌then◌else◌, any,
  get_elem?, take,
}
use restic_ui.Base.Text.{Text, codes, is_empty}
use restic_ui.Cron.{humanize_cron}
use restic_ui.Types.{Repo}
use restic_ui.Session.Requests.{Result, value, api_error, thrown}
use restic_ui.Repos.Card.{
  Task, init, test, unlock, Job, task, check, prune, forget, save, copy, Tone, good, bad, RepoCard,
  initial, Loaded, System, Click, saves, is_kind,
}
use restic_ui.Repos.Card.Buttons.{click}

abbrev pub say : Tone → Text → RepoCard → RepoCard
say kind text s = record s { feedback = some (record { kind = kind; text = text }) }

-- `setFeedback` behind a request: the text of its success, or of its error.
abbrev pub report : Text → Result (Unit {0}) → RepoCard → RepoCard
report text (value u) s = say good text s
report text (api_error status message) s = say bad message s
report text thrown s = say bad (codes "Request failed") s

abbrev pub task_text : Task → Text
task_text init = codes "Repository initialized."
task_text test = codes "Connection OK — repository reachable and password valid."
task_text unlock = codes "Stale locks removed."

abbrev pub saved_text : Text → Text
saved_text cron =
    if is_empty cron
    then codes "Automatic checks disabled."
    else codes "Auto-check saved: " ++ (humanize_cron cron ++ codes ".")

abbrev pub report_copy : Result (Unit {0}) → RepoCard → RepoCard
report_copy (value u) s = say good (codes "Copy started — see the Operations page.") s
report_copy _ s = s

unfoldable pub answer : Job → Result (Unit {0}) → RepoCard → RepoCard
answer (task t) r s = report (task_text t) r (record s { busy_action = none })
answer check r s = report (codes "Check started — see the Operations page.") r s
answer prune r s =
    report (codes "Prune started — see the Operations page.") r (record s { confirm_prune = false })
answer (save cron) r s = report (saved_text cron) r s
answer (forget id) r s =
    report (codes "Forget started — see the Operations page.") r
      (record s { confirm_forget = none })
answer (copy dest) r s = report_copy r s
answer _ r s = s

pub data Event : Type 0 where
  clicked : Click → Event
  -- The `i`-th request in flight is answered, in whatever order.
  answered : (i : ℕ) → Result (Unit {0}) → Event

abbrev pub erase_at : ℕ → List Job → List Job
erase_at i [] = []
erase_at zero (x ∷ xs) = xs
erase_at (suc i) (x ∷ xs) = x ∷ erase_at i xs

abbrev pub sent : System → RepoCard × Option Job → System
sent sys (card, none) = record sys { card = card }
sent sys (card, some job) = record {
  card = card;
  in_flight = job ∷ sys.in_flight;
  save_pending = if is_kind saves job then true else sys.save_pending;
}

abbrev pub settled : System → ℕ → Result (Unit {0}) → Option Job → System
settled sys i r none = sys
settled sys i r (some job) = record {
  card = answer job r sys.card;
  in_flight = erase_at i sys.in_flight;
  save_pending =
      if is_kind saves job && not (any (is_kind saves) (take i sys.in_flight))
      then false
      else sys.save_pending;
}

unfoldable pub handle : Loaded → Event → System → System
unfolding click answer
handle env (clicked c) sys = sent sys (click env sys c)
handle env (answered i r) sys = settled sys i r (get_elem? sys.in_flight i)

unfoldable pub run : List (Loaded × Event) → System → System
unfolding handle
run [] sys = sys
run ((env, e) ∷ events) sys = run events (handle env e sys)

unfoldable pub start : Repo → System
unfolding initial
start repo = record { card = initial repo; in_flight = []; save_pending = false }
