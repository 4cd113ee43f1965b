-- ===== src/Toasts/Order.antt =====
-- The ids of shown toasts ascend, and dropping or filtering keeps that.
use restic_ui.Base.{
  ℕ, zero, suc, ◌+◌, ◌≤◌, ◌<◌, Bool, List, [], ◌∷◌, ◌++◌, arith, drop, filter, All,
}
use restic_ui.Toasts.{Toast}

-- The ids of the list ascend, from `lo` at least, and stay below `hi`.
abbrev pub IsAscending : ℕ → List Toast → ℕ → Type 0
IsAscending lo [] hi = lo ≤ hi
IsAscending lo (t ∷ ts) hi = (lo ≤ t.id) × IsAscending (suc t.id) ts hi

pub IsAscending-lower :
    (lo' lo : ℕ) (ts : List Toast) (hi : ℕ)
    → lo' ≤ lo
    → IsAscending lo ts hi
    → IsAscending lo' ts hi
IsAscending-lower lo' lo [] hi h a = omega arith
IsAscending-lower lo' lo (t ∷ ts) hi h a = (omega arith, a.1)

pub IsAscending-drop :
    (n lo : ℕ) (ts : List Toast) (hi : ℕ) → IsAscending lo ts hi → IsAscending lo (drop n ts) hi
IsAscending-drop zero lo ts hi a = a
IsAscending-drop (suc n) lo [] hi a = a
IsAscending-drop (suc n) lo (t ∷ ts) hi a =
    IsAscending-lower lo (suc t.id) (drop n ts) hi (omega arith)
      (IsAscending-drop n (suc t.id) ts hi a.1)

pub IsAscending-filter :
    (p : Toast → Bool) (lo : ℕ) (ts : List Toast) (hi : ℕ)
    → IsAscending lo ts hi
    → IsAscending lo (filter p ts) hi
IsAscending-filter p lo [] hi a = a
IsAscending-filter p lo (t ∷ ts) hi a =
    let rest = IsAscending-filter p (suc t.id) ts hi a.1 in
    ground (arith, IsAscending-lower lo (suc t.id) (filter p ts) hi (omega arith) rest)

pub IsAscending-snoc :
    (lo : ℕ) (ts : List Toast) (t : Toast)
    → IsAscending lo ts t.id
    → IsAscending lo (ts ++ t ∷ []) (t.id + 1)
IsAscending-snoc lo [] t a = omega arith
IsAscending-snoc lo (u ∷ ts) t a = (a.0, IsAscending-snoc (suc u.id) ts t a.1)

pub IsAscending-below :
    (lo : ℕ) (ts : List Toast) (hi : ℕ) → IsAscending lo ts hi → All (λ t. t.id < hi) ts
IsAscending-below lo [] hi a = tt
IsAscending-below lo (t ∷ ts) hi a =
    (IsAscending-bound (suc t.id) ts hi a.1, IsAscending-below (suc t.id) ts hi a.1)
  where
    IsAscending-bound : (lo : ℕ) (ts : List Toast) (hi : ℕ) → IsAscending lo ts hi → lo ≤ hi
    IsAscending-bound lo [] hi a = a
    IsAscending-bound lo (u ∷ us) hi a = omega (arith, IsAscending-bound (suc u.id) us hi a.1)
