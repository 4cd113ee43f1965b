-- ===== src/Operations/Table/Tests.antt =====
-- The table of operations on small inputs.
use restic_ui.Base.{◌∷◌, ◌≡◌, ◌↔◌, refl, false, ◌-◌, ◌+◌, ◌≤◌, ◌%◌, none, some, []}
use restic_ui.Base.Text.{codes, decimal}
use restic_ui.Operations.Table.{
  by_type, Choice, no_filters_set, choose, is_filtered, empty_text, length_of, length_text,
}
use restic_ui.Operations.Table.Rows.{row_of, body_of, nothing}
use restic_ui.Operations.Console.{percent, log_view, no_output}
use restic_ui.Operations.Table.Duration.{length_of_lem, shown_ms, rest}
use restic_ui.Operations.Table.Filters.{choose_all, all_four, empty_text-all_four}

short : length_text (length_of 1000 13400) ≡ codes "12s"
unfolding length_of decimal
short = refl

sixty : length_text (length_of 0 119700) ≡ codes "1m 60s"
unfolding length_of decimal
sixty = refl

negative : length_text (length_of 5000 1000) ≡ codes "0s"
unfolding length_of decimal
negative = refl

length_of_lem_example :
    (shown_ms (length_of 1000 13400) ≤ (13400 - 1000) + 500)
    × ((13400 - 1000) ≤ shown_ms (length_of 1000 13400) + 500)
    × (rest (length_of 1000 13400) ≤ 60)
    × ((rest (length_of 1000 13400) ≡ 60) ↔ (59500 ≤ (13400 - 1000) % 60000))
length_of_lem_example = length_of_lem 1000 13400

empty_text-all_four_case :
    (is_filtered (choose_all all_four (choose (by_type (codes "backup")) no_filters_set)) ≡ false)
    × (empty_text (choose_all all_four (choose (by_type (codes "backup")) no_filters_set))
        ≡ codes "No operations match these filters.")
    × (empty_text (choose Choice.clear (choose (by_type (codes "backup")) no_filters_set))
        ≡ codes "Run a backup plan and it will show up here.")
empty_text-all_four_case = empty_text-all_four (choose (by_type (codes "backup")) no_filters_set)

rounded_percent :
    percent (record {
      percent_done = 666666;
      total_files = 3;
      files_done = 2;
      total_bytes = 3072;
      bytes_done = 2048;
      seconds_left = 1;
      current_file = none;
    })
    ≡ 67
unfolding percent
rounded_percent = refl

no_log : log_view (λ t. t) (some []) ≡ no_output
unfolding log_view
no_log = refl

nothing_found : body_of (row_of (λ t. t) (λ t. 0) 0 none) false false (some ([] ∷ [])) ≡ nothing
unfolding body_of row_of mathlib.Core.List.flatten
nothing_found = refl

-- A first page that could not be fetched looks like an empty history.
fetch_failed : body_of (row_of (λ t. t) (λ t. 0) 0 none) false false none ≡ nothing
unfolding body_of row_of mathlib.Core.List.flatten
fetch_failed = refl
