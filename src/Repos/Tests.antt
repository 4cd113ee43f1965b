-- ===== src/Repos/Tests.antt =====
-- The repositories' part on small inputs.
use restic_ui.Base.{◌≡◌, refl, true, false, none, List, [], ◌∷◌, take, All, map}
use restic_ui.Base.Text.{Text, codes, decimal}
use restic_ui.Base.Text.Trim.{trim, is_space}
use restic_ui.Types.{BackendType, LsNode, Repo, ℤ, pos}
use restic_ui.Session.Requests.{Result, value, api_error}
use restic_ui.Repos.Form
use restic_ui.Repos.Form.{FormData, RepoForm, Phase, config_of, submit, repo_input, is_busy}
use restic_ui.Repos.Form.Submit.{submit_lem, expected_requests, expected_error, succeeds}
use restic_ui.Repos.Form.Inputs.{mounted}
use restic_ui.Repos.Form.View.{form_view, change, choose_backend}
use restic_ui.Repos.Form.Mounted.{restrict, repo_input-restrict}
use restic_ui.Repos.Location.{location_summary, typed_location, location_summary-config_of}
use restic_ui.Repos.Browser
use restic_ui.Repos.Browser.{
  Browser, crumbs, act, go_to, dump_url, split_slash, choose_whole, finish_restore,
}
use restic_ui.Repos.Browser.View.{browser_view}
use restic_ui.Repos.Browser.Crumbs.{IsSegment, path_of, act-go_to}

abbrev port_number : Text → ℤ
port_number v = pos 2222

abbrev inputs : FormData
inputs =
    (codes "name", codes "nas")
    ∷ (codes "host", codes " nas.local ")
    ∷ (codes "sftpPort", codes "2222")
    ∷ (codes "user", codes "me")
    ∷ (codes "path", codes "/tank")
    ∷ (codes "password", codes "secret")
    ∷ []

sftp_location :
    location_summary BackendType.sftp (config_of port_number BackendType.sftp inputs)
    ≡ codes "me@nas.local:/tank"
unfolding location_summary config_of trim is_space
sftp_location = refl

location_summary-config_of_case :
    location_summary BackendType.sftp (config_of port_number BackendType.sftp inputs)
    ≡ typed_location BackendType.sftp inputs
location_summary-config_of_case = location_summary-config_of port_number BackendType.sftp inputs

abbrev created : Repo
created = record {
  id = 3;
  name = codes "nas";
  backend_type = BackendType.sftp;
  config = Form.no_config;
  has_secrets = false;
  check_schedule_cron = [];
  next_check = none;
  created_at = [];
  updated_at = [];
}

abbrev locked : Result (Unit {0})
locked = api_error 500 (codes "locked")

abbrev form : RepoForm
form = record Form.initial { backend = BackendType.sftp }

submit_lem_example :
    ((submit port_number inputs (value created) locked form).sent
      ≡ expected_requests (repo_input port_number inputs form) (value created) true)
    × ((submit port_number inputs (value created) locked form).done
        ≡ succeeds (value created) locked true)
    × ((submit port_number inputs (value created) locked form).form
        ≡ record form { error = expected_error (value created) locked true; phase = Phase.idle })
submit_lem_example = submit_lem port_number inputs (value created) locked form

-- What a browser would send besides if another backend's input stood in the form.
repo_input-restrict_example :
    repo_input port_number
      (restrict (mounted BackendType.sftp) ((codes "bucket", codes "b") ∷ inputs))
      form
    ≡ repo_input port_number ((codes "bucket", codes "b") ∷ inputs) form
repo_input-restrict_example =
    repo_input-restrict port_number ((codes "bucket", codes "b") ∷ inputs) form

bucket_dropped : restrict (mounted BackendType.sftp) ((codes "bucket", codes "b") ∷ inputs) ≡ inputs
bucket_dropped = refl

abbrev photos_2024 : List Text
photos_2024 = codes "photos" ∷ codes "2024" ∷ []

abbrev browser : Browser
browser = record Browser.initial { path = codes "/photos/2024" }

names_ok : All IsSegment photos_2024
names_ok = (
  ((refl, (refl, (refl, (refl, (refl, (refl, tt)))))), refl),
  (((refl, (refl, (refl, (refl, tt)))), refl), tt),
)

act-go_to_example :
    (crumbs browser.path ≡ codes "/" ∷ photos_2024)
    × (act (codes "abc") (go_to 1) browser ≡ record browser { path = path_of (take 1 photos_2024) })
act-go_to_example = act-go_to (codes "abc") photos_2024 1 browser names_ok refl

abbrev photos : LsNode
photos = record {
  name = codes "photos";
  type = codes "dir";
  path = codes "/photos";
  size = 0;
  mtime = [];
}

dump_of_dir :
    dump_url (λ v. v) 3 (codes "abc") photos
    ≡ codes "/api/repos/3/snapshots/abc/dump?path=/photos&dir=1"
unfolding dump_url decimal
dump_of_dir = refl

whole_twice :
    (act (codes "abc") choose_whole (act (codes "abc") choose_whole browser)).restoring ≡ none
unfolding act
whole_twice = refl

not_restored : (finish_restore photos locked browser).notice ≡ codes "locked"
unfolding finish_restore
not_restored = refl

labels :
    (browser_view (λ t. t) (λ t. t) 1 (codes "1234567890") none false browser).crumbs
    ≡ codes "root" ∷ codes "photos" ∷ codes "2024" ∷ []
unfolding browser_view
labels = refl

no_cron_field : (form_view Form.initial).cron_field ≡ none
unfolding form_view
no_cron_field = refl

three_inputs :
    map
      (λ i. i.name)
      (form_view (change (choose_backend BackendType.local_path) Form.initial)).inputs
    ≡ codes "name" ∷ codes "password" ∷ codes "path" ∷ []
unfolding form_view change
three_inputs = refl
