-- ===== src/Server/Wire/Tests.antt =====
-- Bodies of requests on small inputs.
use restic_ui.Base.{◌≡◌, refl, true, false, none, some, [], ◌∷◌}
use restic_ui.Base.Text.{codes}
use restic_ui.Types.{PlanInput}
use restic_ui.Session.Login.{Credentials}
use restic_ui.Repos.Browser.{RestoreBody}
use restic_ui.Server.Wire.{
  number, member, no_members, object, encode_plan, encode_credentials, encode_restore, plan_type,
  credentials_type, restore_type,
}
use restic_ui.Server.Wire.Conforms.{conforms, encode-conforms, fits, all_fit, plan_numbers}

abbrev input : PlanInput
input = record {
  name = codes "photos";
  repo_id = 4;
  sources = codes "/home" ∷ [];
  excludes = [];
  tags = codes "daily" ∷ [];
  schedule_cron = [];
  retention = record {
    keep_last = some 3;
    keep_hourly = none;
    keep_daily = none;
    keep_weekly = none;
    keep_monthly = none;
    keep_yearly = none;
    prune = some true;
  };
  options = record {
    upload_limit_kib = none;
    download_limit_kib = none;
    exclude_caches = some true;
    one_file_system = none;
  };
  enabled = true;
  notify_muted = false;
}

abbrev ann : Credentials
ann = record { username = codes "ann"; password = codes "secret" }

abbrev restore : RestoreBody
restore = record { snapshot_id = codes "1a2b3c4d"; include_path = []; target = codes "/restore" }

encode-conforms_example :
    (conforms (some plan_type) (encode_plan input) ≡ all_fit (plan_numbers input))
    × (conforms (some credentials_type) (encode_credentials ann) ≡ true)
    × (conforms (some restore_type) (encode_restore restore) ≡ true)
encode-conforms_example = encode-conforms input ann restore

too_large :
    conforms (some plan_type) (encode_plan (record input { repo_id = 100000000000000000000 }))
    ≡ false
unfolding conforms encode_plan fits
too_large = refl

fitting : all_fit (plan_numbers input) ≡ true
unfolding fits plan_numbers
fitting = refl

number_as_name :
    conforms (some credentials_type) (object (member (codes "username") (number 3) no_members))
    ≡ false
unfolding conforms
number_as_name = refl

unknown_name :
    conforms (some credentials_type) (object (member (codes "user") (number 3) no_members)) ≡ false
unfolding conforms
unknown_name = refl
