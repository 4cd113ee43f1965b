-- ===== src/Repos/Card/Schedule.antt =====
-- web/src/components/repos/RepoCard.tsx and RepoForm.tsx: the schedule of a repository's checks.
use restic_ui.Base.{false, Option, none, some, List, [], ◌∷◌, ◌++◌, ◌≡◌, refl, if◌then◌else◌, map}
use restic_ui.Base.Text.{Text, codes, text_eq, is_empty}
use restic_ui.Base.Text.Trim.{trim}
use restic_ui.Cron.{Preset, schedule_presets, humanize_cron}
use restic_ui.Types.{Repo}
use restic_ui.Plans.Form.{custom}
use restic_ui.Session.Requests.{Result, value, api_error, thrown}
use restic_ui.Repos.Form.{message_of}
use restic_ui.Repos.Form.Submit.{is_value}
use restic_ui.Repos.Card.{Loaded, choose_preset, bad}
use restic_ui.Repos.Card.Buttons.{click}
use restic_ui.Repos.Card.Run.{clicked, answered, handle, run, start, answer}

abbrev relabel : Preset → Preset
relabel p = if is_empty p.value then record p { label = codes "No automatic checks" } else p

-- `CHECK_PRESETS`
abbrev pub check_presets : List Preset
check_presets = map relabel schedule_presets

-- The line under the field for a cron expression, if it is shown.
abbrev pub cron_hint : Text → Option Text
cron_hint cron = if is_empty (trim cron) then none else some (humanize_cron cron)

-- "(next: …)"; `when` is `formatWhen`.
abbrev pub next_check_text : (Text → Text) → Option Text → Text
next_check_text when none = []
next_check_text when (some t) = if is_empty t then [] else codes "(next: " ++ (when t ++ codes ")")

-- When a schedule is chosen from the list, other than "Custom cron…", and saving it fails, the error
-- is reported, but the list goes on to show the schedule that was not saved.
pub choose_preset_fails :
    (env later : Loaded) (repo : Repo) (v : Text) (r : Result (Unit {0}))
    → text_eq v custom ≡ false
    → is_value r ≡ false
    → let sys = run ((env, clicked (choose_preset v)) ∷ (later, answered 0 r) ∷ []) (start repo) in
      (sys.card.check_preset ≡ v)
      × (sys.card.feedback ≡ some (record { kind = bad; text = message_of r }))
      × (sys.in_flight ≡ [])
unfolding run handle click start answer
choose_preset_fails env later repo v (value u) custom_no h = cc h
choose_preset_fails env later repo v (api_error n m) custom_no h = rw custom_no (refl, refl, refl)
choose_preset_fails env later repo v thrown custom_no h = rw custom_no (refl, refl, refl)
