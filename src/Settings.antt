-- ===== src/Settings.antt =====
-- web/src/pages/SettingsPage.tsx: the form for the notification settings.
pub mod Answers
mod Tests
use restic_ui.Base.{
  Bool, true, false, ◌||◌, Option, none, some, List, [], ◌∷◌, ◌≡◌, refl, All, if◌then◌else◌, not,
  ◌&&◌,
}
use restic_ui.Base.Text.{Text, codes, is_empty, text_eq}
use restic_ui.Session.Requests.{Result, value, api_error, thrown}

pub record NotifySettings : Type 0 where
  pub apprise_api_url : Text
  pub apprise_urls : Text
  pub notify_on_success : Bool
  pub notify_on_failure : Bool

pub data NoticeKind : Type 0 where
  good bad : NoticeKind

pub record Notice : Type 0 where
  pub kind : NoticeKind
  pub text : Text

-- The variables of `useState`, and the entry "settings" of the query cache.
pub record Settings : Type 0 where
  pub form : NotifySettings
  pub notice : Option Notice
  pub cached : Option NotifySettings

abbrev pub initial : Settings
initial = record {
  form = record {
    apprise_api_url = [];
    apprise_urls = [];
    notify_on_success = false;
    notify_on_failure = true;
  };
  notice = none;
  cached = none;
}

abbrev pub same_bool : Bool → Bool → Bool
same_bool true b = b
same_bool false b = not b

unfoldable pub settings_eq : NotifySettings → NotifySettings → Bool
settings_eq a b =
    text_eq a.apprise_api_url b.apprise_api_url
    && text_eq a.apprise_urls b.apprise_urls
    && same_bool a.notify_on_success b.notify_on_success
    && same_bool a.notify_on_failure b.notify_on_failure

unfoldable pub is_cached : NotifySettings → Option NotifySettings → Bool
unfolding settings_eq
is_cached d none = false
is_cached d (some c) = settings_eq c d

-- The query is given data. If they equal those that it has, react-query keeps the old object, so that
-- `settings` does not change and the effect does not run; else the effect copies them into the form.
unfoldable pub set_data : NotifySettings → Settings → Settings
unfolding is_cached
set_data d s = if is_cached d s.cached then s else record s { form = d; cached = some d }

abbrev pub say : NoticeKind → Text → Settings → Settings
say kind text s = record s { notice = some (record { kind = kind; text = text }) }

-- "Save": what is sent, and the page after the answer.
abbrev pub save_body : Settings → NotifySettings
save_body s = s.form

unfoldable pub finish_save : Result NotifySettings → Settings → Settings
unfolding set_data
finish_save (value d) s = say NoticeKind.good (codes "Settings saved.") (set_data d s)
finish_save (api_error status message) s = say NoticeKind.bad message s
finish_save thrown s = say NoticeKind.bad (codes "Save failed") s

unfoldable pub finish_test : Result (Unit {0}) → Settings → Settings
finish_test (value u) s =
    say NoticeKind.good (codes "Test notification sent — check your service.") s
finish_test (api_error status message) s = say NoticeKind.bad message s
finish_test thrown s = say NoticeKind.bad (codes "Test failed") s

-- What happens on the page.
pub data Event : Type 0 where
  loaded : NotifySettings → Event
  type_url type_urls : Text → Event
  check_success check_failure : Bool → Event
  press_save press_test : Event
  saved : Result NotifySettings → Event
  tested : Result (Unit {0}) → Event

unfoldable pub handle : Event → Settings → Settings
unfolding set_data finish_save finish_test
handle (loaded d) s = set_data d s
handle (type_url v) s = record s { form = record s.form { apprise_api_url = v } }
handle (type_urls v) s = record s { form = record s.form { apprise_urls = v } }
handle (check_success v) s = record s { form = record s.form { notify_on_success = v } }
handle (check_failure v) s = record s { form = record s.form { notify_on_failure = v } }
handle press_save s = record s { notice = none }
handle press_test s = record s { notice = none }
handle (saved r) s = finish_save r s
handle (tested r) s = finish_test r s

unfoldable pub run : List Event → Settings → Settings
unfolding handle
run [] s = s
run (e ∷ events) s = run events (handle e s)

-- The `disabled` of "Send test notification".
unfoldable pub test_disabled : Bool → Settings → Bool
test_disabled pending s = pending || is_empty s.form.apprise_api_url

abbrev pub is_edit : Event → Bool
is_edit (type_url v) = true
is_edit (type_urls v) = true
is_edit (check_success v) = true
is_edit (check_failure v) = true
is_edit _ = false
