-- ===== src/Operations/History.antt =====
-- `useFilteredOperations` of web/src/hooks/useOperations.ts, and what answers it:
-- `handleOpsList` of internal/api/ops_handlers.go and `ListOperations` of internal/ops/runner.go.
-- A request's query string is kept as its parameters; the encoding belongs to the browser and to Go.
pub mod Complete
use restic_ui.Base.{
  ℕ, zero, suc, Bool, true, false, ◌&&◌, ◌||◌, Option, none, some, List, [], ◌∷◌, ltb, leb, ◌==◌,
  if◌then◌else◌, length, take, filter, get_last?, or_else,
}
use mathlib.Core.Option
use restic_ui.Base.Text.{Text, text_eq, is_empty, codes}
use restic_ui.Types.{OpStatus, Operation}
use restic_ui.Operations.Cache.{OpHistoryFilters}

abbrev pub page_size : ℕ
page_size = 50

-- The parameters of `/api/operations`; `none` is one that is not in the query string.
pub record OpQuery : Type 0 where
  pub limit : Option ℕ
  pub type : Option Text
  pub status : Option Text
  pub repo_id : Option ℕ
  pub plan_id : Option ℕ
  pub before_id : Option ℕ

-- `if (x)` for a string or a number that may be undefined: an empty text and 0 are dropped.
abbrev pub truthy_text : Option Text → Option Text
truthy_text none = none
truthy_text (some a) = if is_empty a then none else some a

abbrev pub truthy : Option ℕ → Option ℕ
truthy none = none
truthy (some n) = if n == 0 then none else some n

unfoldable pub page_query : OpHistoryFilters → Option ℕ → OpQuery
page_query filters page_param = record {
  limit = some page_size;
  type = truthy_text filters.type;
  status = truthy_text filters.status;
  repo_id = truthy filters.repo_id;
  plan_id = truthy filters.plan_id;
  before_id = truthy page_param;
}

unfoldable pub get_next_page_param : List Operation → Option ℕ
get_next_page_param last_page =
    if ltb (length last_page) page_size then none else Option.map (λ o. o.id) (get_last? last_page)

-- Go's `OpFilter`; zero values mean "no filter".
pub record OpFilter : Type 0 where
  pub type : Text
  pub status : Text
  pub repo_id : ℕ
  pub plan_id : ℕ
  pub before_id : ℕ
  pub limit : ℕ

-- `q.Get` and the conversions give "" and 0 for a missing parameter.
unfoldable pub filter_of : OpQuery → OpFilter
filter_of q = record {
  type = or_else q.type [];
  status = or_else q.status [];
  repo_id = or_else q.repo_id 0;
  plan_id = or_else q.plan_id 0;
  before_id = or_else q.before_id 0;
  limit = or_else q.limit 0;
}

-- The statuses as the database spells them.
abbrev pub status_name : OpStatus → Text
status_name OpStatus.queued = codes "queued"
status_name OpStatus.running = codes "running"
status_name OpStatus.success = codes "success"
status_name OpStatus.warning = codes "warning"
status_name OpStatus.error = codes "error"
status_name OpStatus.canceled = codes "canceled"

abbrev is_ref : ℕ → Option ℕ → Bool
is_ref n none = false
is_ref n (some m) = m == n

-- The conditions of the `WHERE` clause but the cursor's.
unfoldable pub selects : OpFilter → Operation → Bool
selects f o =
    (is_empty f.type || text_eq o.type f.type)
    && (is_empty f.status || text_eq (status_name o.status) f.status)
    && (f.repo_id == 0 || is_ref f.repo_id o.repo_id)
    && (f.plan_id == 0 || is_ref f.plan_id o.plan_id)

-- The cursor's condition.
abbrev pub is_before : ℕ → Operation → Bool
is_before before_id o = before_id == 0 || ltb o.id before_id

abbrev pub row_limit : ℕ → ℕ
row_limit limit = if limit == 0 || ltb 500 limit then 100 else limit

-- `table` holds the rows of the database in the order of the query, `ORDER BY o.id DESC`.
unfoldable pub list_operations : List Operation → OpFilter → List Operation
list_operations table f =
    take (row_limit f.limit) (filter (λ o. selects f o && is_before f.before_id o) table)

unfoldable pub fetch_page : List Operation → OpHistoryFilters → Option ℕ → List Operation
unfolding list_operations page_query filter_of
fetch_page table filters page_param =
    list_operations table (filter_of (page_query filters page_param))

-- A page, and what is loaded behind it if there is a next cursor.
abbrev pub with_next :
    List Operation → Option ℕ → (ℕ → List (List Operation)) → List (List Operation)
with_next page none more = page ∷ []
with_next page (some id) more = page ∷ more id

-- "Load more" until there is no next page, at most as often as the fuel says.
unfoldable pub load_more : ℕ → List Operation → OpHistoryFilters → Option ℕ → List (List Operation)
unfolding fetch_page get_next_page_param
load_more zero table filters page_param = []
load_more (suc fuel) table filters page_param =
    let page = fetch_page table filters page_param in
    with_next page (get_next_page_param page) (λ id. load_more fuel table filters (some id))
