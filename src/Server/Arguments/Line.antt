-- ===== src/Server/Arguments/Line.antt =====
-- What restic reads from the command line of a backup (runBackup in internal/ops/runner.go).
use restic_ui.Base.{
  ℕ, ◌≡◌, Bool, true, false, Option, none, some, List, [], ◌∷◌, ◌++◌, ◌==◌, ◌&&◌, map, ltb,
  if◌then◌else◌, or_else, All,
}
use restic_ui.Base.Text.{Text, codes, decimal, is_empty}
use restic_ui.Types.{PlanInput}
use restic_ui.Server.Arguments.{is_abs}

-- What a command line says: the words that are no flags and no values of flags, the values of the
-- flags, and which flags without a value there are.
pub record Line : Type 0 where
  pub words : List Text
  pub excludes : List Text
  pub tags : List Text
  pub upload : Option Text
  pub download : Option Text
  pub exclude_caches : Bool
  pub one_file_system : Bool
  pub json : Bool

abbrev pub no_arguments : Line
no_arguments = record {
  words = [];
  excludes = [];
  tags = [];
  upload = none;
  download = none;
  exclude_caches = false;
  one_file_system = false;
  json = false;
}

-- `strings.Split(v, ",")`: the texts between the commas.
abbrev put_first : ℕ → List Text → List Text
put_first c [] = (c ∷ []) ∷ []
put_first c (t ∷ ts) = (c ∷ t) ∷ ts

unfoldable pub split_commas : Text → List Text
split_commas [] = [] ∷ []
split_commas (c ∷ v) =
    let rest = split_commas v in if c == b',' then [] ∷ rest else put_first c rest

-- `strings.TrimSpace`, with the white space of Unicode as a parameter.
unfoldable pub trim_left : (ℕ → Bool) → Text → Text
trim_left is_space [] = []
trim_left is_space (c ∷ t) = let rest = trim_left is_space t in if is_space c then rest else c ∷ t

abbrev put_unless_last : (ℕ → Bool) → ℕ → Text → Text
put_unless_last is_space c rest = if is_space c && is_empty rest then [] else c ∷ rest

unfoldable pub trim_right : (ℕ → Bool) → Text → Text
trim_right is_space [] = []
trim_right is_space (c ∷ t) = put_unless_last is_space c (trim_right is_space t)

unfoldable pub trim_space : (ℕ → Bool) → Text → Text
unfolding trim_left trim_right
trim_space is_space t = trim_right is_space (trim_left is_space t)

-- The tags that an argument of --tag stands for.
unfoldable pub tag_list : (ℕ → Bool) → Text → List Text
unfolding split_commas trim_space
tag_list is_space v = map (trim_space is_space) (split_commas v)

-- Restic's reading of the arguments behind "backup", as its command line is documented: a text that
-- begins with a slash is no flag; --exclude and --tag take the next argument, whatever it is, and
-- can stand there more than once; --tag takes one as `tag[,tag,…]`, and white space is cut off
-- around each of the tags, none of which is empty here; the two limits take one too, and stand there once here.
pub record IsReader (is_space : ℕ → Bool) (read : List Text → Line) : Type 0 where
  pub ends : read [] ≡ no_arguments
  pub word :
      (t : Text) (rest : List Text)
      → is_abs t ≡ true
      → read (t ∷ rest) ≡ record (read rest) { words = t ∷ (read rest).words }
  pub exclude :
      (v : Text) (rest : List Text)
      → read (codes "--exclude" ∷ v ∷ rest)
        ≡ record (read rest) { excludes = v ∷ (read rest).excludes }
  pub tag :
      (v : Text) (rest : List Text)
      → All (λ t. is_empty t ≡ false) (tag_list is_space v)
      → read (codes "--tag" ∷ v ∷ rest)
        ≡ record (read rest) { tags = tag_list is_space v ++ (read rest).tags }
  pub upload :
      (v : Text) (rest : List Text)
      → (read rest).upload ≡ none
      → read (codes "--limit-upload" ∷ v ∷ rest) ≡ record (read rest) { upload = some v }
  pub download :
      (v : Text) (rest : List Text)
      → (read rest).download ≡ none
      → read (codes "--limit-download" ∷ v ∷ rest) ≡ record (read rest) { download = some v }
  pub exclude_caches :
      (rest : List Text)
      → read (codes "--exclude-caches" ∷ rest) ≡ record (read rest) { exclude_caches = true }
  pub one_file_system :
      (rest : List Text)
      → read (codes "--one-file-system" ∷ rest) ≡ record (read rest) { one_file_system = true }
  pub json : (rest : List Text) → read (codes "--json" ∷ rest) ≡ record (read rest) { json = true }

-- A limit of 0 is none.
abbrev pub limit_text : Option ℕ → Option Text
limit_text n = if ltb 0 (or_else n 0) then some (decimal (or_else n 0)) else none

-- What the plan says.
abbrev pub line_of : PlanInput → Line
line_of p = record {
  words = p.sources;
  excludes = p.excludes;
  tags = p.tags;
  upload = limit_text p.options.upload_limit_kib;
  download = limit_text p.options.download_limit_kib;
  exclude_caches = or_else p.options.exclude_caches false;
  one_file_system = or_else p.options.one_file_system false;
  json = true;
}
