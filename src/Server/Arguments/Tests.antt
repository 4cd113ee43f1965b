-- ===== src/Server/Arguments/Tests.antt =====
-- Command lines of small plans.
use restic_ui.Base.{
  ◌==◌, ◌||◌, ◌++◌, ◌≡◌, refl, true, false, Option, none, some, List, [], ◌∷◌, if◌then◌else◌, ℕ,
  Bool,
}
use restic_ui.Base.Text.{Text, codes, text_eq, is_empty, decimal}
use restic_ui.Types.{PlanInput}
use restic_ui.Server.Arguments.{
  is_abs, validate, relative_source, bad_tag, backup_args, forget_args,
}
use restic_ui.Server.Arguments.Line.{Line, no_arguments, IsReader, line_of, tag_list}
use restic_ui.Server.Arguments.Read.{read-backup_args}

-- A reader that keeps to the documentation.
data Flag : Type 0 where
  exclude tag upload download : Flag

data Switch : Type 0 where
  caches one_system json : Switch

data Argument : Type 0 where
  word : Argument
  flag : Flag → Argument
  switch : Switch → Argument

abbrev named : Text → Argument
named t =
    if text_eq t (codes "--exclude")
    then flag exclude
    else if text_eq t (codes "--tag")
    then flag tag
    else if text_eq t (codes "--limit-upload")
    then flag upload
    else if text_eq t (codes "--limit-download")
    then flag download
    else if text_eq t (codes "--exclude-caches")
    then switch caches
    else if text_eq t (codes "--one-file-system")
    then switch one_system
    else if text_eq t (codes "--json")
    then switch json
    else word

abbrev argument : Text → Argument
argument t = if is_abs t then word else named t

abbrev awaits : Argument → Option Flag
awaits (flag f) = some f
awaits _ = none

abbrev is_blank_or_tab : ℕ → Bool
is_blank_or_tab c = c == b' ' || c == 9

abbrev put_value : Flag → Text → Line → Line
put_value exclude v l = record l { excludes = v ∷ l.excludes }
put_value tag v l = record l { tags = tag_list is_blank_or_tab v ++ l.tags }
put_value upload v l = record l { upload = some v }
put_value download v l = record l { download = some v }

abbrev put_argument : Argument → Text → Line → Line
put_argument word t l = record l { words = t ∷ l.words }
put_argument (flag f) t l = l
put_argument (switch caches) t l = record l { exclude_caches = true }
put_argument (switch one_system) t l = record l { one_file_system = true }
put_argument (switch json) t l = record l { json = true }

abbrev read_from : Option Flag → List Text → Line
read_from o [] = no_arguments
read_from none (t ∷ rest) = put_argument (argument t) t (read_from (awaits (argument t)) rest)
read_from (some f) (t ∷ rest) = put_value f t (read_from none rest)

reads : IsReader is_blank_or_tab (read_from none)
reads = record {
  ends = refl;
  word = λ t rest h. rw h refl;
  exclude = λ v rest. refl;
  tag = λ v rest h. refl;
  upload = λ v rest h. refl;
  download = λ v rest h. refl;
  exclude_caches = λ rest. refl;
  one_file_system = λ rest. refl;
  json = λ rest. refl;
}

abbrev input : PlanInput
input = record {
  name = codes "photos";
  repo_id = 4;
  sources = codes "/home" ∷ codes "/etc" ∷ [];
  excludes = codes "--json" ∷ [];
  tags = codes "daily" ∷ [];
  schedule_cron = [];
  retention = record {
    keep_last = some 3;
    keep_hourly = none;
    keep_daily = some 0;
    keep_weekly = none;
    keep_monthly = none;
    keep_yearly = none;
    prune = some true;
  };
  options = record {
    upload_limit_kib = some 512;
    download_limit_kib = none;
    exclude_caches = some true;
    one_file_system = none;
  };
  enabled = true;
  notify_muted = false;
}

read-backup_args_example : read_from none (backup_args input) ≡ line_of input
unfolding validate
read-backup_args_example =
    read-backup_args is_blank_or_tab (read_from none) reads is_empty (λ t. true) input refl
      ((refl, refl), tt)

-- What restic would make of a tag with a comma.
two_tags : tag_list is_blank_or_tab (codes "a, b") ≡ codes "a" ∷ codes "b" ∷ []
unfolding tag_list
two_tags = refl

relative_refused :
    validate is_empty (λ t. true) (record input { sources = codes "home" ∷ [] })
    ≡ some (relative_source (codes "home"))
unfolding validate
relative_refused = refl

tag_refused :
    validate is_empty (λ t. true) (record input { tags = codes "a b" ∷ [] })
    ≡ some (bad_tag (codes "a b"))
unfolding validate
tag_refused = refl

retention_line :
    forget_args input
    ≡ some (
        codes "--keep-last"
        ∷ codes "3"
        ∷ codes "--path"
        ∷ codes "/home"
        ∷ codes "--path"
        ∷ codes "/etc"
        ∷ codes "--prune"
        ∷ [])
unfolding forget_args decimal
retention_line = refl
