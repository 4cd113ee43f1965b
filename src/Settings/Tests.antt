-- ===== src/Settings/Tests.antt =====
-- The settings on small inputs.
use restic_ui.Base.{◌≡◌, refl, true, false, [], ◌∷◌, List}
use restic_ui.Base.Text.{codes}
use restic_ui.Session.Requests.{value, thrown}
use restic_ui.Settings.Answers.{ShowsAnswers, run-ShowsAnswers}
use restic_ui.Settings.{
  NotifySettings, Event, press_save, saved, loaded, type_url, initial, run, handle, test_disabled,
  Settings,
}

abbrev settings : NotifySettings
settings = record {
  apprise_api_url = codes "http://apprise:8000";
  apprise_urls = [];
  notify_on_success = true;
  notify_on_failure = true;
}

abbrev presses : List Event
presses = press_save ∷ saved thrown ∷ []

kept_typing : (run (loaded settings ∷ type_url [] ∷ presses) initial).form.apprise_api_url ≡ []
unfolding run handle
kept_typing = refl

nothing_to_test : test_disabled false initial ≡ true
unfolding test_disabled
nothing_to_test = refl

-- What is typed while a save is under way is lost when its answer comes.
abbrev typed : Settings
typed = run (loaded settings ∷ type_url (codes "http://a") ∷ press_save ∷ type_url [] ∷ []) initial

abbrev stored : NotifySettings
stored = record settings { apprise_api_url = codes "http://a" }

lost : (run (saved (value stored) ∷ []) typed).form.apprise_api_url ≡ codes "http://a"
unfolding run handle
lost = refl

-- But an answer that equals what is cached leaves it.
left : (run (saved (value settings) ∷ []) typed).form.apprise_api_url ≡ []
unfolding run handle
left = refl

run-ShowsAnswers_example :
    ShowsAnswers (saved (value stored) ∷ presses) typed (run (saved (value stored) ∷ presses) typed)
run-ShowsAnswers_example =
    run-ShowsAnswers (saved (value stored) ∷ presses) typed (refl, (refl, (refl, tt)))
