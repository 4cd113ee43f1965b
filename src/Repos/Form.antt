-- ===== src/Repos/Form.antt =====
-- web/src/components/repos/RepoForm.tsx: the state of the form, what it sends, and its two requests.
pub mod Submit
pub mod Inputs
pub mod Mounted
pub mod View
use restic_ui.Base.{
  ℕ, Bool, true, false, not, ◌&&◌, Option, none, some, List, [], ◌∷◌, ◌==◌, if◌then◌else◌, find?,
  or_else, is_some,
}
use mathlib.Core.Option
use restic_ui.Base.Text.{Text, codes, text_eq, is_empty}
use restic_ui.Base.Text.Trim.{trim}
use restic_ui.Types.{ℤ, pos, BackendType, RepoConfig, RepoSecrets, RepoInput, Repo}
use restic_ui.Session.Requests.{Result, value, api_error, thrown}

pub data Phase : Type 0 where
  idle creating initializing : Phase

pub record RepoForm : Type 0 where
  pub backend : BackendType
  pub auto_init : Bool
  pub check_preset : Text
  pub check_cron : Text
  pub error : Text
  pub phase : Phase

abbrev pub initial : RepoForm
initial = record {
  backend = BackendType.local_path;
  auto_init = true;
  check_preset = [];
  check_cron = [];
  error = [];
  phase = Phase.idle;
}

-- The names and values of the inputs that are mounted; `get` gives the first one, or null.
abbrev pub FormData : Type 0
FormData = List (Text × Text)

abbrev pub get : FormData → Text → Option Text
get f k = Option.map (λ e. e.1) (find? (λ e. text_eq e.0 k) f)

-- `(f.get(k) as string | null)?.trim() ?? ""`
abbrev pub str : FormData → Text → Text
str f k = or_else (Option.map trim (get f k)) []

-- `(f.get(k) as string) ?? ""`
abbrev pub raw : FormData → Text → Text
raw f k = or_else (get f k) []

abbrev pub is_on : FormData → Text → Bool
is_on f k = or_else (Option.map (λ v. text_eq v (codes "on")) (get f k)) false

abbrev pub no_config : RepoConfig
no_config = record {
  path = none;
  endpoint = none;
  bucket = none;
  prefix = none;
  region = none;
  access_key_id = none;
  use_http = none;
  host = none;
  port = none;
  user = none;
  remote = none;
}

abbrev pub no_secrets : RepoSecrets
no_secrets = record { secret_access_key = none; private_key = none; rclone_conf = none }

module _ (to_number : Text → ℤ) where
  -- `str("sftpPort") ? Number(str("sftpPort")) : 22`; the browser lets only integers through, also
  -- negative ones.
  abbrev pub port_of : FormData → ℤ
  port_of f =
      if is_empty (str f (codes "sftpPort")) then pos 22 else to_number (str f (codes "sftpPort"))

  unfoldable pub config_of : BackendType → FormData → RepoConfig
  config_of BackendType.local_path f = record no_config { path = some (str f (codes "path")) }
  config_of BackendType.s3 f = record no_config {
    endpoint = some (str f (codes "endpoint"));
    bucket = some (str f (codes "bucket"));
    prefix = some (str f (codes "prefix"));
    region = some (str f (codes "region"));
    access_key_id = some (str f (codes "accessKeyId"));
    use_http = some (is_on f (codes "useHttp"));
  }
  config_of BackendType.sftp f = record no_config {
    host = some (str f (codes "host"));
    port = some (port_of f);
    user = some (str f (codes "user"));
    path = some (str f (codes "path"));
  }
  config_of BackendType.rclone f = record no_config {
    remote = some (str f (codes "remote"));
    path = some (str f (codes "path"));
  }

  unfoldable pub secrets_of : BackendType → FormData → RepoSecrets
  secrets_of BackendType.local_path f = no_secrets
  secrets_of BackendType.s3 f = record no_secrets {
    secret_access_key = some (str f (codes "secretAccessKey"));
  }
  secrets_of BackendType.sftp f = record no_secrets {
    private_key = some (raw f (codes "privateKey"));
  }
  secrets_of BackendType.rclone f = record no_secrets {
    rclone_conf = some (raw f (codes "rcloneConf"));
  }

  unfoldable pub repo_input : FormData → RepoForm → RepoInput
  unfolding config_of secrets_of
  repo_input f s = record {
    name = str f (codes "name");
    backend_type = s.backend;
    config = config_of s.backend f;
    password = str f (codes "password");
    secrets = secrets_of s.backend f;
    check_schedule_cron =
        if text_eq s.check_preset (codes "custom") then trim s.check_cron else s.check_preset;
  }

pub data Request : Type 0 where
  create : RepoInput → Request
  init : (id : ℕ) → Request

-- What `onSubmit` did once it is through: the form, the requests, and whether `onDone` was called.
pub record Outcome : Type 0 where
  pub form : RepoForm
  pub sent : List Request
  pub done : Bool

abbrev pub message_of : {A : Type 0} → Result A → Text
message_of (api_error status message) = message
message_of _ = codes "Request failed"

-- The `catch` and the `finally`.
abbrev failed : Text → RepoForm → List Request → Outcome
failed message s sent = record {
  form = record s { error = message; phase = Phase.idle };
  sent = sent;
  done = false;
}

abbrev finished : RepoForm → List Request → Outcome
finished s sent = record {
  form = record s { error = []; phase = Phase.idle };
  sent = sent;
  done = true;
}

-- The answer to "init", after a repository was created.
abbrev after_init : Result (Unit {0}) → RepoForm → List Request → Outcome
after_init (value u) s sent = finished s sent
after_init (api_error status message) s sent = failed message s sent
after_init thrown s sent = failed (codes "Request failed") s sent

abbrev after_create : RepoInput → Result Repo → Result (Unit {0}) → RepoForm → Outcome
after_create input (value repo) inited s =
    if s.auto_init
    then after_init inited s (create input ∷ init repo.id ∷ [])
    else finished s (create input ∷ [])
after_create input (api_error status message) inited s = failed message s (create input ∷ [])
after_create input thrown inited s = failed (codes "Request failed") s (create input ∷ [])

-- `onSubmit` with the answers that its requests get.
unfoldable pub submit : (Text → ℤ) → FormData → Result Repo → Result (Unit {0}) → RepoForm → Outcome
unfolding repo_input
submit to_number f created inited s = after_create (repo_input to_number f s) created inited s

abbrev pub is_busy : Phase → Bool
is_busy Phase.idle = false
is_busy _ = true
