-- ===== src/Repos/Card/Tests.antt =====
-- A repository's card on small inputs.
use restic_ui.Base.{
  ◌≡◌, refl, true, false, none, some, List, [], ◌∷◌, length, ◌++◌, subst, ℕ, sym, arith,
}
use restic_ui.Base.Text.{Text, codes, decimal, text_eq}
use restic_ui.Repos.Card.{
  Loaded, press_task, press_check, ask_prune, press_prune, choose_preset, press_diff, test, unlock,
  copy, diff, bad, System, task, thrown,
}
use restic_ui.Repos.Card.Buttons.{click}
use restic_ui.Repos.Card.Run.{Event, clicked, answered, run, handle, start, answer, saved_text}
use restic_ui.Repos.Card.InFlight.{IsExclusive}
use restic_ui.Session.Requests.{Method}
use restic_ui.Api.{path_of, method_of, body_of}
use restic_ui.Repos.Card.Requests.{call_of, sent_call}
use restic_ui.Repos.Card.InFlight.Settles.{Answers, as_events, run-settles}
use restic_ui.Repos.Card.InFlight.Answers.{run-IsExclusive}
use restic_ui.Repos.Card.Schedule.{choose_preset_fails}
use restic_ui.Repos.Card.Compare.{press_diff-defaults_and_stale, diff_lines, change, green, cut_off}
use restic_ui.Repos.Card.Snapshots.{found_of, row_of}
use restic_ui.Types.{Repo, BackendType}
use restic_ui.Types.Repositories.{Snapshot}
use restic_ui.Session.Requests.{Result, value, api_error}
use restic_ui.Repos.Form.{no_config, message_of}
use restic_ui.Plans.Form.{custom}

abbrev nas : Repo
nas = record {
  id = 3;
  name = codes "nas";
  backend_type = BackendType.local_path;
  config = record no_config { path = some (codes "/repos/nas") };
  has_secrets = false;
  check_schedule_cron = codes "0 2 * * *";
  next_check = none;
  created_at = [];
  updated_at = [];
}

abbrev snapshot : Text → Snapshot
snapshot id = record {
  id = id;
  short_id = id;
  time = [];
  hostname = codes "nas";
  username = codes "root";
  paths = codes "/a" ∷ codes "/b" ∷ [];
  tags = none;
  summary = none;
}

abbrev two : Loaded
two = record {
  snapshots = some (snapshot (codes "s2") ∷ snapshot (codes "s1") ∷ []);
  other_repos = [];
}

abbrev refused : Result (Unit {0})
refused = api_error 500 (codes "locked")

abbrev busy_day : List (Loaded × Event)
busy_day =
    (two, clicked (press_task test))
    ∷ (two, clicked (press_task unlock))
    ∷ (two, clicked press_check)
    ∷ (two, clicked press_check)
    ∷ (two, clicked ask_prune)
    ∷ (two, clicked press_prune)
    ∷ (two, clicked (choose_preset (codes "0 * * * *")))
    ∷ (two, clicked (choose_preset []))
    ∷ []

five_sent : length (run busy_day (start nas)).in_flight ≡ 5
unfolding run handle click start
five_sent = refl

busy_testing : (run busy_day (start nas)).card.busy_action ≡ some test
unfolding run handle click start
busy_testing = refl

-- The newest save is answered, then the older one.
saves_answered :
    (run (busy_day ++ (two, answered 0 (value tt)) ∷ []) (start nas)).save_pending ≡ false
unfolding run handle click start answer
saves_answered = refl

old_save_answered :
    (run (busy_day ++ (two, answered 1 (value tt)) ∷ []) (start nas)).save_pending ≡ true
unfolding run handle click start answer
old_save_answered = refl

run-IsExclusive_example : IsExclusive (run busy_day (start nas))
run-IsExclusive_example = run-IsExclusive nas busy_day

not_custom : text_eq (codes "0 * * * *") custom ≡ false
not_custom = refl

choose_preset_fails_case :
    let sys =
      run
        ((two, clicked (choose_preset (codes "0 * * * *"))) ∷ (two, answered 0 refused) ∷ [])
        (start nas) in
    (sys.card.check_preset ≡ codes "0 * * * *")
    × (sys.card.feedback ≡ some (record { kind = bad; text = message_of refused }))
    × (sys.in_flight ≡ [])
choose_preset_fails_case =
    choose_preset_fails two two nas (codes "0 * * * *") refused not_custom refl

abbrev comparing : System
comparing = record {
  card = record (start nas).card { show_snapshots = true; diff_from = codes "s0" };
  in_flight = [];
  save_pending = false;
}

stale_choice :
    click two comparing press_diff ≡ (comparing.card, some (diff (codes "s0") (codes "s2")))
unfolding start
stale_choice =
    (press_diff-defaults_and_stale comparing (snapshot (codes "s2")) (snapshot (codes "s1")) [] two
        b's' (b'0' ∷ []) refl refl refl refl).1
      refl (refl, (refl, tt)) refl

last_checks : saved_text [] ≡ codes "Automatic checks disabled."
last_checks = refl

three_hits :
    found_of (record { snapshot = codes "0123456789"; hits = 3; matches = [] })
    ≡ record { snapshot = codes "01234567"; hits = codes "3 hits"; paths = []; more = none }
unfolding found_of decimal
three_hits = refl

joined :
    row_of (λ t. t) (snapshot (codes "s1"))
    ≡ record { short_id = codes "s1"; time = []; hostname = codes "nas"; paths = codes "/a, /b" }
joined = refl

truncated :
    diff_lines (record {
      changes = record { path = codes "/a"; modifier = codes "+" } ∷ [];
      truncated = true;
      stats = none;
    })
    ≡ change green (codes "+") (codes "/a") ∷ cut_off ∷ []
unfolding diff_lines
truncated = refl

abbrev out_of_order : List (Loaded × ℕ × Result (Unit {0}))
out_of_order =
    (two, 2, refused)
    ∷ (two, 0, value tt)
    ∷ (two, 1, thrown)
    ∷ (two, 1, value tt)
    ∷ (two, 0, value tt)
    ∷ []

each_answered : Answers (length (run busy_day (start nas)).in_flight) out_of_order
each_answered = subst (λ n. Answers n out_of_order) (sym five_sent) (omega arith)

run-settles_example :
    let sys = run (busy_day ++ as_events out_of_order) (start nas) in
    (sys.in_flight ≡ [])
    × (sys.card.busy_action ≡ none)
    × (sys.save_pending ≡ false)
    × ((click two sys (press_task unlock)).1 ≡ some (task unlock))
run-settles_example = run-settles nas busy_day out_of_order two unlock each_answered

unlock_call :
    call_of (λ v. v) 12 (task unlock)
    ≡ record { method = Method.post; path = codes "/api/repos/12/unlock"; body = none }
unfolding call_of path_of method_of body_of decimal
unlock_call = refl

diff_call :
    (call_of (λ v. v) 12 (diff (codes "a") (codes "b"))).path
    ≡ codes "/api/repos/12/diff?from=a&to=b"
unfolding call_of decimal
diff_call = refl

copy_carries_token :
    (sent_call (codes "t") (call_of (λ v. v) 12 (copy 4))).csrf_header ≡ some (codes "t")
unfolding sent_call call_of
copy_carries_token = refl

diff_without_token : (sent_call (codes "t") (call_of (λ v. v) 12 (diff [] []))).csrf_header ≡ none
unfolding sent_call call_of
diff_without_token = refl
