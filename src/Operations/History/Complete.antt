-- ===== src/Operations/History/Complete.antt =====
-- Loading more shows the whole history.
use restic_ui.Base.{
  ℕ, zero, suc, ◌≤◌, ◌<◌, ◌≡◌, refl, sym, ap, subst, ◌∙◌, Bool, true, false, ◌&&◌, Option, none,
  some, List, [], ◌∷◌, ◌++◌, arith, ltb, length, take, drop, filter, get_last?, or_else, All,
  append_assoc, append-nil, take-append-drop, All-filter, All-imp, filter-eq_self, length-drop,
  length-take, length-filter, Bool-cases, inl, inr, ◌⊎◌,
}
use mathlib.Core.Option
use restic_ui.Types.{Operation}
use restic_ui.Operations.Cache.{OpHistoryFilters}
use restic_ui.Operations.Cache.Pages.{flat}
use restic_ui.Operations.History.{
  page_size, truthy, page_query, get_next_page_param, filter_of, selects, is_before, fetch_page,
  load_more, with_next,
}

-- The rows come newest first, and ids start at 1.
abbrev pub IsNewestFirst : List Operation → Type 0
IsNewestFirst [] = Unit
IsNewestFirst (o ∷ os) = (0 < o.id) × All (λ p. p.id < o.id) os × IsNewestFirst os

-- The rows that the filters select.
abbrev pub selected : OpHistoryFilters → List Operation → List Operation
selected filters = filter (selects (filter_of (page_query filters none)))

IsNewestFirst-filter :
    (p : Operation → Bool) (os : List Operation) → IsNewestFirst os → IsNewestFirst (filter p os)
IsNewestFirst-filter p [] h = tt
IsNewestFirst-filter p (o ∷ os) h =
    ground (arith, All-filter (λ q. q.id < o.id) p os h.1, IsNewestFirst-filter p os h.2)

filter-and :
    (p q : Operation → Bool) (os : List Operation)
    → filter (λ o. p o && q o) os ≡ filter q (filter p os)
filter-and p q [] = refl
filter-and p q (o ∷ os) = ground (arith, filter-and p q os)

-- What lies below the cursor is kept whole.
filter-below : (n : ℕ) (os : List Operation) → All (λ p. p.id < n) os → filter (is_before n) os ≡ os
filter-below n os h =
    filter-eq_self (is_before n) os
      (All-imp (λ p. p.id < n) (λ p. is_before n p ≡ true) (λ p k. ground arith) os h)

All-last :
    (P : Operation → Type 0) (os ps : List Operation) (o : Operation)
    → All P (os ++ ps)
    → get_last? os ≡ some o
    → P o
All-last P [] ps o h e = cc
All-last P (x ∷ []) ps o h e = let same : x ≡ o = cc in subst P same h.0
All-last P (x ∷ y ∷ os) ps o h e = All-last P (y ∷ os) ps o h.1 e

IsNewestFirst-pos : (os : List Operation) → IsNewestFirst os → All (λ o. 0 < o.id) os
IsNewestFirst-pos [] h = tt
IsNewestFirst-pos (o ∷ os) h = (h.0, IsNewestFirst-pos os h.2)

-- Behind a first part of the history, its last id is the cursor of what is left.
filter-is_before :
    (pre rest : List Operation) (o : Operation)
    → IsNewestFirst (pre ++ rest)
    → get_last? pre ≡ some o
    → filter (is_before o.id) (pre ++ rest) ≡ rest
filter-is_before [] rest o h e = cc
filter-is_before (x ∷ []) rest o h e =
    let same : x.id ≡ o.id = ground arith in
    let skipped : is_before o.id x ≡ false = ground arith in
    rw skipped (filter-below o.id rest (subst (λ n. All (λ p. p.id < n) rest) same h.1))
filter-is_before (x ∷ y ∷ pre) rest o h e =
    let older : o.id < x.id = All-last (λ q. q.id < x.id) (y ∷ pre) rest o h.1 e in
    let named : 0 < o.id =
      All-last (λ q. 0 < q.id) (y ∷ pre) rest o (IsNewestFirst-pos (y ∷ (pre ++ rest)) h.2) e in
    let skipped : is_before o.id x ≡ false = ground arith in
    rw skipped (filter-is_before (y ∷ pre) rest o h.2 e)

-- The cursor for what follows the first part `pre` of a history.
data IsCursor (pre : List Operation) : Option ℕ → Type 0 where
  start : pre ≡ [] → IsCursor pre none
  behind : (o : Operation) → get_last? pre ≡ some o → IsCursor pre (some o.id)

take-all : (n : ℕ) (os : List Operation) → length os ≤ n → take n os ≡ os
take-all zero [] h = refl
take-all zero (o ∷ os) h = absurd (omega arith)
take-all (suc n) [] h = refl
take-all (suc n) (o ∷ os) h = ap (λ l. o ∷ l) (take-all n os (omega arith))

get_last?-append :
    (os ps : List Operation) (o : Operation) → get_last? ps ≡ some o → get_last? (os ++ ps) ≡ some o
get_last?-append [] ps o h = h
get_last?-append (x ∷ []) [] o h = cc
get_last?-append (x ∷ []) (p ∷ ps) o h = h
get_last?-append (x ∷ y ∷ os) ps o h = get_last?-append (y ∷ os) ps o h

get_last?-some :
    (x : Operation) (os : List Operation) → (o : Operation) × (get_last? (x ∷ os) ≡ some o)
get_last?-some x [] = (x, refl)
get_last?-some x (y ∷ os) = get_last?-some y os

module _ (table : List Operation) (filters : OpHistoryFilters) where
  fetch_page-eq :
      (page_param : Option ℕ)
      → fetch_page table filters page_param
        ≡ take page_size
            (filter (is_before (or_else (truthy page_param) 0)) (selected filters table))
  unfolding fetch_page selects
  fetch_page-eq page_param = ap (take page_size) (
      filter-and (selects (filter_of (page_query filters none)))
        (is_before (or_else (truthy page_param) 0)) table)

  -- A page begins where the cursor's first part ends.
  fetch_page-take :
      (pre rest : List Operation) (page_param : Option ℕ)
      → selected filters table ≡ pre ++ rest
      → IsNewestFirst (pre ++ rest)
      → IsCursor pre page_param
      → fetch_page table filters page_param ≡ take page_size rest
  fetch_page-take pre rest page_param split sorted (start e) =
      let only : pre ++ rest ≡ rest = ap (λ l. l ++ rest) e in
      let all : All (λ p. is_before 0 p ≡ true) rest =
        All-imp (λ p. 0 < p.id) (λ p. is_before 0 p ≡ true) (λ p h. refl) rest
          (IsNewestFirst-pos rest (subst IsNewestFirst only sorted)) in
      fetch_page-eq none
      ∙ ap (take page_size) (rw (split ∙ only) (filter-eq_self (is_before 0) rest all))
  fetch_page-take pre rest page_param split sorted (behind o e) =
      let cursor : or_else (truthy (some o.id)) 0 ≡ o.id = ground arith in
      fetch_page-eq (some o.id)
      ∙ ap (take page_size) (rw (cursor, split) (filter-is_before pre rest o sorted e))

  -- The next cursor, or the end.
  next_of :
      (page : List Operation)
      → ((get_next_page_param page ≡ none) × (length page < page_size))
        ⊎ ((o : Operation) × (get_last? page ≡ some o)
            × (get_next_page_param page ≡ some o.id)
            × (page_size ≤ length page))
  unfolding get_next_page_param
  next_of [] = inl (refl, omega arith)
  next_of (x ∷ os) = elim (Bool-cases (ltb (length (x ∷ os)) page_size)) [
    | inl short ↦ inl (rw short, ground arith)
    | inr full ↦
        let (o, last) = get_last?-some x os in
        inr (o, last, rw full (ap (Option.map (λ p. p.id)) last), ground arith)
  ]

  load_more-suc :
      (fuel : ℕ) (page_param : Option ℕ) (page : List Operation)
      → fetch_page table filters page_param ≡ page
      → load_more (suc fuel) table filters page_param
        ≡ with_next page (get_next_page_param page) (λ id. load_more fuel table filters (some id))
  unfolding load_more
  load_more-suc fuel page_param page e =
      ap (λ p. with_next p (get_next_page_param p) (λ id. load_more fuel table filters (some id))) e

  load_more-flat :
      (fuel : ℕ) (pre rest : List Operation) (page_param : Option ℕ)
      → selected filters table ≡ pre ++ rest
      → IsNewestFirst (pre ++ rest)
      → IsCursor pre page_param
      → length rest < fuel
      → flat (load_more fuel table filters page_param) ≡ rest
  load_more-flat zero pre rest page_param split sorted at h = absurd (omega arith)
  load_more-flat (suc fuel) pre rest page_param split sorted at h =
      let now =
        load_more-suc fuel page_param (take page_size rest)
          (fetch_page-take pre rest page_param split sorted at) in
      let page : List Operation = take page_size rest in
      let whole : (pre ++ page) ++ drop page_size rest ≡ pre ++ rest =
        append_assoc pre page (drop page_size rest)
        ∙ ap (λ l. pre ++ l) (take-append-drop page_size rest) in
      elim (next_of page) [
        | inl (stop, short) ↦
            rw (now, stop)
              (append-nil page
                ∙ take-all page_size rest (omega (arith, length-take page_size rest)))
        | inr (o, last, more, full) ↦
            rw
              (
                now,
                more,
                load_more-flat fuel (pre ++ page) (drop page_size rest) (some o.id)
                    (split ∙ sym whole) (subst IsNewestFirst (sym whole) sorted)
                    (behind o (get_last?-append pre page o last))
                    (omega (arith, length-drop page_size rest, length-take page_size rest)),
              )
              (take-append-drop page_size rest)
      ]

-- The pages that "load more" gathers until there is no next one hold, put together, exactly the rows
-- of the database that the filters select, each once and newest first. The table's ids are positive
-- and it is read newest first; one more round than there are rows is enough.
pub load_more_complete :
    (fuel : ℕ) (table : List Operation) (filters : OpHistoryFilters)
    → IsNewestFirst table
    → length table < fuel
    → flat (load_more fuel table filters none) ≡ selected filters table
load_more_complete fuel table filters sorted h =
    load_more-flat table filters fuel [] (selected filters table) none refl
      (IsNewestFirst-filter (selects (filter_of (page_query filters none))) table sorted)
      (start refl)
      (omega (arith, length-filter (selects (filter_of (page_query filters none))) table))
