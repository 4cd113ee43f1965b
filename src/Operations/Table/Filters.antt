-- ===== src/Operations/Table/Filters.antt =====
-- web/src/pages/OperationsPage.tsx: the filters that are set, and what an empty table says.
use restic_ui.Base.{none, List, [], ◌∷◌, ◌≡◌, refl, false}
use restic_ui.Base.Text.{codes}
use restic_ui.Operations.Table.{
  HistoryFilters, Choice, by_type, by_status, by_plan, by_repo, choose, is_filtered, empty_text,
}

abbrev pub choose_all : List Choice → HistoryFilters → HistoryFilters
choose_all [] f = f
choose_all (c ∷ choices) f = choose_all choices (choose c f)

-- "All" in each of the four lists.
abbrev pub all_four : List Choice
all_four = by_type [] ∷ by_status [] ∷ by_plan none ∷ by_repo none ∷ []

-- When each of the four lists is put back to "All", whatever was chosen before, no filter is set, so
-- that "Clear filters" is not shown; but an empty table still says that no operation matches the
-- filters. After "Clear filters" it says so no more.
pub empty_text-all_four :
    (f : HistoryFilters)
    → (is_filtered (choose_all all_four f) ≡ false)
      × (empty_text (choose_all all_four f) ≡ codes "No operations match these filters.")
      × (empty_text (choose Choice.clear f) ≡ codes "Run a backup plan and it will show up here.")
unfolding is_filtered empty_text choose
empty_text-all_four f = (refl, refl, refl)
