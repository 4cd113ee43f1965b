-- ===== src/Operations/Cache/Pages.antt =====
-- The filtered histories after an event.
use restic_ui.Base.{
  ℕ, ◌≡◌, refl, Bool, true, false, Option, none, some, List, [], ◌∷◌, ◌++◌, arith, ◌==◌,
  if◌then◌else◌, map, any, any-append, find?, replace_first, set_found_lem,
}
use restic_ui.Types.{Operation}
use restic_ui.Operations.Cache.{
  InfiniteData, FilteredQuery, QueryCache, operations_filtered, snapshots, repo_stats,
  repo_stats_history, plans, has_id, patch_page, patch_pages, patch_data, patch_filtered,
  is_completed, apply_op,
}
use restic_ui.Operations.Cache.Upsert.{find?-replace_first, map-replace_first}

-- `pages.flat()`
abbrev pub flat : List (List Operation) → List Operation
flat [] = []
flat (page ∷ pages) = page ++ flat pages

-- The rows that a history shows.
abbrev pub rows : Option InfiniteData → List Operation
rows none = []
rows (some d) = flat d.pages

-- The ids of a history, page by page.
abbrev pub ids : Option InfiniteData → Option (List (List ℕ))
ids none = none
ids (some d) = some (map (map (λ o. o.id)) d.pages)

patch_page-eq :
    (op : Operation) (page : List Operation)
    → patch_page op page ≡ (
        if any (has_id op.id) page
        then (replace_first (has_id op.id) op page, true)
        else (page, false))
unfolding patch_page
patch_page-eq op page = ground (arith, set_found_lem (has_id op.id) op page)

find?-append :
    (k : ℕ) (xs ys : List Operation)
    → find? (has_id k) (xs ++ ys)
      ≡ (if any (has_id k) xs then find? (has_id k) xs else find? (has_id k) ys)
find?-append k [] ys = refl
find?-append k (x ∷ xs) ys = ground (arith, find?-append k xs ys)

-- What a look-up of `k` finds in rows where operation `op` was replaced.
abbrev pub after : Operation → ℕ → List Operation → Option Operation
after op k xs =
    if op.id == k then (if any (has_id k) xs then some op else none) else find? (has_id k) xs

-- The first page keeps its ids, so the look-up goes on to the next page as before.
any-replace_first :
    (op : Operation) (k : ℕ) (xs : List Operation)
    → any (has_id k) (replace_first (has_id op.id) op xs) ≡ any (has_id k) xs
any-replace_first op k [] = refl
any-replace_first op k (x ∷ xs) = ground (arith, any-replace_first op k xs)

find?-absent :
    (op : Operation) (k : ℕ) (xs : List Operation)
    → any (has_id op.id) xs ≡ false
    → (op.id == k) ≡ true
    → find? (has_id k) xs ≡ none
find?-absent op k [] h e = refl
find?-absent op k (x ∷ xs) h e = ground (arith, find?-absent op k xs)

any-absent :
    (op : Operation) (k : ℕ) (xs : List Operation)
    → any (has_id op.id) xs ≡ false
    → (op.id == k) ≡ true
    → any (has_id k) xs ≡ false
any-absent op k [] h e = refl
any-absent op k (x ∷ xs) h e = ground (arith, any-absent op k xs)

patch_page_lem :
    (op : Operation) (page : List Operation) (k : ℕ)
    → ((patch_page op page).1 ≡ any (has_id op.id) page)
      × (map (λ o. o.id) (patch_page op page).0 ≡ map (λ o. o.id) page)
      × (find? (has_id k) (patch_page op page).0 ≡ after op k page)
      × (any (has_id k) (patch_page op page).0 ≡ any (has_id k) page)
patch_page_lem op page k = ground (
  arith,
  patch_page-eq op page,
  map-replace_first op page,
  find?-replace_first op k page,
  any-replace_first op k page,
  find?-absent op k page,
  any-absent op k page,
)

-- The pages keep their ids, and the event's operation is shown wherever its id was.
pub record IsPatched (op : Operation) (pages : List (List Operation))
    (result : List (List Operation) × Bool) : Type 0 where
  pub matched : result.1 ≡ any (has_id op.id) (flat pages)
  pub same_ids : map (map (λ o. o.id)) result.0 ≡ map (map (λ o. o.id)) pages
  pub found : (k : ℕ) → find? (has_id k) (flat result.0) ≡ after op k (flat pages)

found_in_both :
    (op : Operation) (k : ℕ) (page page' rest rest' : List Operation)
    → find? (has_id k) page' ≡ after op k page
    → any (has_id k) page' ≡ any (has_id k) page
    → find? (has_id k) rest' ≡ after op k rest
    → find? (has_id k) (page' ++ rest') ≡ after op k (page ++ rest)
found_in_both op k page page' rest rest' e f g =
    ground
      (arith, find?-append k page' rest', find?-append k page rest, any-append (has_id k) page rest)

pub patch_pages-IsPatched :
    (op : Operation) (pages : List (List Operation)) → IsPatched op pages (patch_pages op pages)
unfolding patch_pages
patch_pages-IsPatched op [] = record { matched = refl; same_ids = refl; found = λ k. ground arith }
patch_pages-IsPatched op (page ∷ pages) =
    let ih = patch_pages-IsPatched op pages in
    let (here, same, _, _) = patch_page_lem op page op.id in
    record {
      matched = ground (arith, here, ih.matched, any-append (has_id op.id) page (flat pages));
      same_ids = cc (same, ih.same_ids);
      found = λ k.
          let (_, _, now, stays) = patch_page_lem op page k in
          found_in_both op k page _ (flat pages) _ now stays (ih.found k);
    }

-- What an event does to the filtered histories.
pub record IsFolded (op : Operation) (qs result : List FilteredQuery) : Type 0 where
  pub same_filters : map (λ q. q.filters) result ≡ map (λ q. q.filters) qs
  pub same_ids : map (λ q. ids q.state) result ≡ map (λ q. ids q.state) qs
  pub found :
      (k : ℕ)
      → map (λ q. find? (has_id k) (rows q.state)) result ≡ map (λ q. after op k (rows q.state)) qs

patch_data_lem :
    (op : Operation) (state : Option InfiniteData) (k : ℕ)
    → ((patch_data op state).1 ≡ any (has_id op.id) (rows state))
      × (ids (patch_data op state).0 ≡ ids state)
      × (find? (has_id k) (rows (patch_data op state).0) ≡ after op k (rows state))
unfolding patch_data
patch_data_lem op none k = (refl, refl, ground arith)
patch_data_lem op (some old) k =
    let p = patch_pages-IsPatched op old.pages in
    ground (
      arith,
      p.matched,
      p.same_ids,
      p.found k,
      find?-absent op k (flat old.pages),
      any-absent op k (flat old.pages),
    )

-- Whether a filtered history has a row with the id.
abbrev pub is_listed : ℕ → List FilteredQuery → Bool
is_listed id qs = any (λ q. any (has_id id) (rows q.state)) qs

patch_filtered-matched :
    (op : Operation) (qs : List FilteredQuery) → (patch_filtered op qs).1 ≡ is_listed op.id qs
unfolding patch_filtered
patch_filtered-matched op [] = refl
patch_filtered-matched op (q ∷ qs) =
    let (here, _, _) = patch_data_lem op q.state op.id in
    ground (arith, here, patch_filtered-matched op qs)

patch_filtered-IsFolded :
    (op : Operation) (qs : List FilteredQuery) → IsFolded op qs (patch_filtered op qs).0
unfolding patch_filtered
patch_filtered-IsFolded op [] = record { same_filters = refl; same_ids = refl; found = λ k. refl }
patch_filtered-IsFolded op (q ∷ qs) =
    let ih = patch_filtered-IsFolded op qs in
    let (_, same, _) = patch_data_lem op q.state op.id in
    record {
      same_filters = cc (ih.same_filters);
      same_ids = cc (same, ih.same_ids);
      found = λ k. let (_, _, now) = patch_data_lem op q.state k in cc (now, ih.found k);
    }

-- An operation event leaves the filters, pages and ids of every filtered history as they were, shows
-- the event's operation in each place where a row had its id, and shows every other operation
-- unchanged. The histories are invalidated exactly if none of them had a row with that id, and the
-- snapshots, statistics and plans exactly if the operation is completed. Logs and progress stay.
pub apply_op_lem :
    (op : Operation) (c : QueryCache)
    → IsFolded op c.filtered (apply_op op c).filtered
      × ((apply_op op c).invalidated
          ≡ (c.invalidated ++ (if is_listed op.id c.filtered then [] else operations_filtered ∷ []))
            ++ (if is_completed op.status
                then snapshots ∷ repo_stats ∷ repo_stats_history ∷ plans ∷ []
                else []))
      × ((apply_op op c).op_logs ≡ c.op_logs)
      × ((apply_op op c).op_progress ≡ c.op_progress)
unfolding apply_op
apply_op_lem op c =
    (patch_filtered-IsFolded op c.filtered, cc (patch_filtered-matched op c.filtered), refl, refl)
