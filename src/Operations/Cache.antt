-- ===== src/Operations/Cache.antt =====
-- The query cache of web/src/hooks/useOperations.ts, as far as the event stream touches it: the list
-- of operations, the pages of the filtered histories, the logs and the live progress. A query that
-- holds no data is `none`, or missing from its `Dict`; `invalidated` logs the keys that were
-- invalidated, the latest last. The cache itself belongs to @tanstack/react-query, of which this
-- relies on: an updater that returns `undefined` leaves a query without data.
pub mod Upsert
pub mod Pages
use restic_ui.Base.{
  ℕ, Bool, true, false, ◌||◌, Option, none, some, List, [], ◌∷◌, ◌++◌, ◌==◌, if◌then◌else◌,
  set_found,
}
use mathlib.Core.Option
use restic_ui.Base.Text.{Text}
use restic_ui.Base.Dict.{Dict, insert}
use restic_ui.Types.{OpStatus, Operation, LogLine, OpProgress}

pub record OpHistoryFilters : Type 0 where
  pub type : Option Text
  pub status : Option Text
  pub repo_id : Option ℕ
  pub plan_id : Option ℕ

pub record InfiniteData : Type 0 where
  pub pages : List (List Operation)
  pub page_params : List (Option ℕ)

pub record FilteredQuery : Type 0 where
  pub filters : OpHistoryFilters
  pub state : Option InfiniteData

pub data QueryKey : Type 0 where
  operations operations_filtered snapshots repo_stats repo_stats_history plans : QueryKey

pub record QueryCache : Type 0 where
  pub operations : Option (List Operation)
  pub filtered : List FilteredQuery
  pub op_logs : Dict (List LogLine)
  pub op_progress : Dict OpProgress
  pub invalidated : List QueryKey

abbrev pub has_id : ℕ → Operation → Bool
has_id id o = o.id == id

-- The updater of `["operations"]` where there is data.
unfoldable pub upsert : Operation → List Operation → List Operation
upsert op old = elim (set_found (has_id op.id) op old) [ none ↦ op ∷ old | some next ↦ next ]

-- A page, and whether it holds the operation.
unfoldable pub patch_page : Operation → List Operation → List Operation × Bool
patch_page op page = elim (set_found (has_id op.id) op page) [
  | none ↦ (page, false)
  | some next ↦ (next, true)
]

unfoldable pub patch_pages : Operation → List (List Operation) → List (List Operation) × Bool
unfolding patch_page
patch_pages op [] = ([], false)
patch_pages op (page ∷ pages) =
    let (page', here) = patch_page op page in
    let (pages', there) = patch_pages op pages in (page' ∷ pages', here || there)

-- The updater of one filtered history; `changed ? { ...old, pages } : old`.
unfoldable pub patch_data : Operation → Option InfiniteData → Option InfiniteData × Bool
unfolding patch_pages
patch_data op none = (none, false)
patch_data op (some old) =
    let (pages, changed) = patch_pages op old.pages in
    (some (if changed then record old { pages = pages } else old), changed)

-- All filtered histories, and whether one of them holds the operation.
unfoldable pub patch_filtered : Operation → List FilteredQuery → List FilteredQuery × Bool
unfolding patch_data
patch_filtered op [] = ([], false)
patch_filtered op (q ∷ qs) =
    let (state, here) = patch_data op q.state in
    let (qs', there) = patch_filtered op qs in (record q { state = state } ∷ qs', here || there)

-- `op.status !== "running" && op.status !== "queued"`
abbrev pub is_completed : OpStatus → Bool
is_completed OpStatus.running = false
is_completed OpStatus.queued = false
is_completed _ = true

-- The case "op" of the event stream, behind the toast.
unfoldable pub apply_op : Operation → QueryCache → QueryCache
unfolding upsert patch_filtered
apply_op op c =
    let (filtered, matched_anywhere) = patch_filtered op c.filtered in
    record c {
      operations = Option.map (upsert op) c.operations;
      filtered = filtered;
      invalidated =
          (c.invalidated ++ (if matched_anywhere then [] else operations_filtered ∷ []))
          ++ (if is_completed op.status
              then snapshots ∷ repo_stats ∷ repo_stats_history ∷ plans ∷ []
              else []);
    }

-- The logs of an operation grow only where they were loaded.
unfoldable pub append_log : ℕ → LogLine → Dict (List LogLine) → Dict (List LogLine)
append_log id line [] = []
append_log id line ((j, old) ∷ m) =
    if j == id then (j, old ++ line ∷ []) ∷ m else (j, old) ∷ append_log id line m

unfoldable pub apply_log : ℕ → LogLine → QueryCache → QueryCache
unfolding append_log
apply_log id line c = record c { op_logs = append_log id line c.op_logs }

unfoldable pub apply_progress : ℕ → OpProgress → QueryCache → QueryCache
apply_progress id progress c = record c { op_progress = insert id progress c.op_progress }
