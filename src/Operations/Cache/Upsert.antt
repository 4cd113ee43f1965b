-- ===== src/Operations/Cache/Upsert.antt =====
-- The list of operations after an event.
use restic_ui.Base.{
  ℕ, ◌≡◌, ◌≢◌, refl, none, some, List, [], ◌∷◌, arith, ◌==◌, if◌then◌else◌, map, any, find?,
  replace_first, set_found_lem,
}
use restic_ui.Types.{Operation}
use restic_ui.Operations.Cache.{has_id, upsert}

-- What looking up `k` finds after the operation with id `id` was replaced.
pub find?-replace_first :
    (op : Operation) (k : ℕ) (xs : List Operation)
    → find? (has_id k) (replace_first (has_id op.id) op xs)
      ≡ (if op.id == k then (if any (has_id k) xs then some op else none) else find? (has_id k) xs)
find?-replace_first op k [] = ground arith
find?-replace_first op k (x ∷ xs) = ground (arith, find?-replace_first op k xs)

pub map-replace_first :
    (op : Operation) (xs : List Operation)
    → map (λ o. o.id) (replace_first (has_id op.id) op xs) ≡ map (λ o. o.id) xs
map-replace_first op [] = refl
map-replace_first op (x ∷ xs) = ground (arith, map-replace_first op xs)

upsert-eq :
    (op : Operation) (old : List Operation)
    → upsert op old
      ≡ (if any (has_id op.id) old then replace_first (has_id op.id) op old else op ∷ old)
unfolding upsert
upsert-eq op old = ground (arith, set_found_lem (has_id op.id) op old)

-- After an event the list of operations holds the event's operation under its id and every other one
-- as before; the ids and their order stay, but that a new operation comes first.
pub upsert_lem :
    (op : Operation) (old : List Operation)
    → (find? (has_id op.id) (upsert op old) ≡ some op)
      × ((k : ℕ) → k ≢ op.id → find? (has_id k) (upsert op old) ≡ find? (has_id k) old)
      × (map (λ o. o.id) (upsert op old)
          ≡ (if any (has_id op.id) old then map (λ o. o.id) old else op.id ∷ map (λ o. o.id) old))
upsert_lem op old = (
  rw (upsert-eq op old) (ground (arith, find?-replace_first op op.id old)),
  λ k ne. rw (upsert-eq op old) (ground (arith, find?-replace_first op k old)),
  rw (upsert-eq op old) (ground (arith, map-replace_first op old)),
)
