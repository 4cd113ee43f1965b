-- ===== src/Operations/Table.antt =====
-- web/src/pages/OperationsPage.tsx: the filters, the open row and the duration of an operation.
pub mod Duration
pub mod Filters
pub mod Rows
mod Tests
use restic_ui.Base.{
  ℕ, ◌+◌, ◌-◌, ◌*◌, ◌/◌, ◌%◌, Bool, true, false, not, ◌&&◌, ◌||◌, Option, none, some, List, [], ◌∷◌,
  ◌++◌, ltb, ◌==◌, if◌then◌else◌, is_some, or_else, flatten,
}
use restic_ui.Base.Text.{Text, codes, is_empty, decimal}
use restic_ui.Types.{Operation, OpStatus}

-- The filters as an object: a key that is absent is `none`, one that is there with the value
-- `undefined` is `some none`.
pub record HistoryFilters : Type 0 where
  pub type : Option (Option Text)
  pub status : Option (Option Text)
  pub plan_id : Option (Option ℕ)
  pub repo_id : Option (Option ℕ)

abbrev pub no_filters_set : HistoryFilters
no_filters_set = record { type = none; status = none; plan_id = none; repo_id = none }

-- The choices of the four lists, with "" for "All …", and the button.
pub data Choice : Type 0 where
  by_type by_status : Text → Choice
  by_plan by_repo : Option ℕ → Choice
  clear : Choice

-- `e.target.value || undefined`
abbrev pub or_undefined : Text → Option Text
or_undefined v = if is_empty v then none else some v

unfoldable pub choose : Choice → HistoryFilters → HistoryFilters
choose (by_type v) f = record f { type = some (or_undefined v) }
choose (by_status v) f = record f { status = some (or_undefined v) }
choose (by_plan v) f = record f { plan_id = some v }
choose (by_repo v) f = record f { repo_id = some v }
choose clear f = no_filters_set

abbrev pub holds {ℓ} : {A : Type ℓ} → (A → Bool) → Option (Option A) → Bool
holds p (some (some a)) = p a
holds p _ = false

-- `filters.type || filters.status || filters.planId || filters.repoId`
unfoldable pub is_filtered : HistoryFilters → Bool
is_filtered f =
    holds (λ v. not (is_empty v)) f.type
    || holds (λ v. not (is_empty v)) f.status
    || holds (λ n. not (n == 0)) f.plan_id
    || holds (λ n. not (n == 0)) f.repo_id

-- `Object.keys(filters).length > 0`
unfoldable pub has_keys : HistoryFilters → Bool
has_keys f = is_some f.type || is_some f.status || is_some f.plan_id || is_some f.repo_id

-- The text under "Nothing has run yet".
unfoldable pub empty_text : HistoryFilters → Text
unfolding has_keys
empty_text f =
    if has_keys f
    then codes "No operations match these filters."
    else codes "Run a backup plan and it will show up here."

-- `setOpen(open === op.id ? null : op.id)`
abbrev pub toggle_row : ℕ → Option ℕ → Option ℕ
toggle_row id none = some id
toggle_row id (some o) = if o == id then none else some id

-- `op.planName || "—"`
abbrev pub or_dash : Option Text → Text
or_dash none = codes "—"
or_dash (some v) = if is_empty v then codes "—" else v

-- `Math.round(ms / 1000)`
abbrev pub round_seconds : ℕ → ℕ
round_seconds ms = (ms + 500) / 1000

-- How long an operation took, in milliseconds between its start and its end (or now), which
-- subtraction does not let fall below 0: whole seconds, or minutes and seconds.
pub data Length : Type 0 where
  seconds : ℕ → Length
  minutes_seconds : ℕ → ℕ → Length

unfoldable pub length_of : (start end : ℕ) → Length
length_of start end =
    if ltb (end - start) 60000
    then seconds (round_seconds (end - start))
    else minutes_seconds ((end - start) / 60000) (round_seconds ((end - start) % 60000))

abbrev pub length_text : Length → Text
length_text (seconds s) = decimal s ++ codes "s"
length_text (minutes_seconds m s) = decimal m ++ (codes "m " ++ (decimal s ++ codes "s"))

-- `op.endedAt ? new Date(op.endedAt) : new Date()`
abbrev pub end_of : (Text → ℕ) → ℕ → Option Text → ℕ
end_of instant now none = now
end_of instant now (some v) = if is_empty v then now else instant v

-- The instants in milliseconds of the operation's texts are the parameter.
unfoldable pub duration : (instant : Text → ℕ) → (now : ℕ) → Operation → Text
unfolding length_of
duration instant now op = elim op.started_at [
  | none ↦ codes "—"
  | some start ↦
      if is_empty start
      then codes "—"
      else length_text (length_of (instant start) (end_of instant now op.ended_at))
]
