-- ===== src/Operations/Table/Rows.antt =====
-- web/src/pages/OperationsPage.tsx: the lists of the filters, the rows and "Load more".
use restic_ui.Base.{
  ℕ, Bool, false, Option, none, some, List, [], ◌∷◌, ◌==◌, if◌then◌else◌, map, flatten, or_else,
}
use restic_ui.Base.Text.{Text, codes, is_empty, decimal}
use restic_ui.Types.{Operation, OpStatus, Plan, Repo}
use restic_ui.Operations.Table.{or_dash, duration}

-- An entry of a list: its value and its text.
abbrev pub Choices : Type 0
Choices = List (Text × Text)

-- `OP_TYPES`
abbrev pub op_types : List Text
op_types =
    codes "backup"
    ∷ codes "restore"
    ∷ codes "prune"
    ∷ codes "check"
    ∷ codes "copy"
    ∷ codes "init"
    ∷ codes "forget"
    ∷ codes "retention"
    ∷ []

-- `OP_STATUSES`
abbrev pub op_statuses : List Text
op_statuses =
    codes "queued"
    ∷ codes "running"
    ∷ codes "success"
    ∷ codes "warning"
    ∷ codes "error"
    ∷ codes "canceled"
    ∷ []

abbrev pub named : Text → Text × Text
named t = (t, t)

abbrev pub type_choices : Choices
type_choices = ([], codes "All types") ∷ map named op_types

abbrev pub status_choices : Choices
status_choices = ([], codes "All statuses") ∷ map named op_statuses

-- `plans` and `repos` may not be loaded yet.
unfoldable pub plan_choices : Option (List Plan) → Choices
plan_choices plans = ([], codes "All plans") ∷ map (λ p. (decimal p.id, p.name)) (or_else plans [])

unfoldable pub repo_choices : Option (List Repo) → Choices
repo_choices repos =
    ([], codes "All repositories") ∷ map (λ r. (decimal r.id, r.name)) (or_else repos [])

-- The value that a list shows: `filters.type ?? ""`, and the same for a number.
abbrev pub shown_text : Option (Option Text) → Text
shown_text (some (some v)) = v
shown_text _ = []

abbrev pub shown_number : Option (Option ℕ) → Text
shown_number (some (some n)) = decimal n
shown_number _ = []

-- The cells of a row; the row that is open has the console of its operation below it.
pub record Row : Type 0 where
  pub id : ℕ
  pub is_open : Bool
  pub type : Text
  pub plan : Text
  pub repo : Text
  pub status : OpStatus
  pub started : Text
  pub duration : Text

abbrev pub is_open_row : ℕ → Option ℕ → Bool
is_open_row id none = false
is_open_row id (some o) = o == id

abbrev pub started_text : (Text → Text) → Option Text → Text
started_text when none = codes "—"
started_text when (some t) = if is_empty t then codes "—" else when t

-- `when` is `formatWhen`, `instant` the milliseconds of a date.
unfoldable pub row_of :
    (when : Text → Text) → (instant : Text → ℕ) → (now : ℕ) → Option ℕ → Operation → Row
row_of when instant now open_id op = record {
  id = op.id;
  is_open = is_open_row op.id open_id;
  type = op.type;
  plan = or_dash op.plan_name;
  repo = or_dash op.repo_name;
  status = op.status;
  started = started_text when op.started_at;
  duration = duration instant now op;
}

-- What stands below the filters: that the first page is awaited, that there is nothing, or the rows
-- with the button "Load more" if there is a next page.
pub data Body : Type 0 where
  loading nothing : Body
  table : List Row → (load_more : Bool) → Body

abbrev pub body_of_rows : Bool → List Row → Body
body_of_rows has_next [] = nothing
body_of_rows has_next (r ∷ rs) = table (r ∷ rs) has_next

-- `data?.pages.flat() ?? []`; no data is a first page that is awaited or has failed.
unfoldable pub body_of :
    (Operation → Row) → (is_loading has_next : Bool) → Option (List (List Operation)) → Body
body_of row is_loading has_next pages =
    if is_loading then loading else body_of_rows has_next (map row (flatten (or_else pages [])))
