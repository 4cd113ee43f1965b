-- ===== src/Base/Lists.antt =====
-- Lists measured and indexed by native numbers, and the array methods of the source that take a
-- Boolean callback (`find`, `findIndex`, `some`, `filter`).
use Prim.Native.Nat.{ℕ, zero, suc, ◌+◌, ◌-◌, ◌≤◌, min}
use mathlib.Core.Path.{◌≡◌, refl, ap}
use mathlib.Core.Bool.{Bool, true, false, ◌||◌}
use mathlib.Core.List.{List, [], ◌∷◌, ◌++◌}
use mathlib.Core.Option
use mathlib.Core.Option.{Option, none, some}
use native.Mathlib.Omega.{arith}
use mathlib.Core.Logic.{inl, inr}
use restic_ui.Base.Tests.{if◌then◌else◌, Bool-cases}

module _ {ℓ} {A : Type ℓ} where
  abbrev pub length : List A → ℕ
  length [] = 0
  length (x ∷ xs) = suc (length xs)

  abbrev pub get_elem? : List A → ℕ → Option A
  get_elem? [] i = none
  get_elem? (x ∷ xs) zero = some x
  get_elem? (x ∷ xs) (suc i) = get_elem? xs i

  -- A write out of bounds changes nothing.
  abbrev pub set : List A → ℕ → A → List A
  set [] i v = []
  set (x ∷ xs) zero v = v ∷ xs
  set (x ∷ xs) (suc i) v = x ∷ set xs i v

  abbrev pub take : ℕ → List A → List A
  take zero xs = []
  take (suc n) [] = []
  take (suc n) (x ∷ xs) = x ∷ take n xs

  abbrev pub drop : ℕ → List A → List A
  drop zero xs = xs
  drop (suc n) [] = []
  drop (suc n) (x ∷ xs) = drop n xs

  abbrev pub get_last? : List A → Option A
  get_last? [] = none
  get_last? (x ∷ []) = some x
  get_last? (x ∷ y ∷ xs) = get_last? (y ∷ xs)

  -- `xs.filter(p)`
  abbrev pub filter : (A → Bool) → List A → List A
  filter p [] = []
  filter p (x ∷ xs) = if p x then x ∷ filter p xs else filter p xs

  -- `xs.some(p)`
  abbrev pub any : (A → Bool) → List A → Bool
  any p [] = false
  any p (x ∷ xs) = p x || any p xs

  -- `xs.find(p)`
  abbrev pub find? : (A → Bool) → List A → Option A
  find? p [] = none
  find? p (x ∷ xs) = if p x then some x else find? p xs

  abbrev pub All {κ} : (A → Type κ) → List A → Type κ
  All P [] = Unit
  All P (x ∷ xs) = P x × All P xs

module _ {ℓ} {A : Type ℓ} where
  pub length-append : (xs ys : List A) → length (xs ++ ys) ≡ length xs + length ys
  length-append [] ys = omega arith
  length-append (x ∷ xs) ys = omega (arith, length-append xs ys)

  pub length-set : (xs : List A) (i : ℕ) (v : A) → length (set xs i v) ≡ length xs
  length-set [] i v = refl
  length-set (x ∷ xs) zero v = refl
  length-set (x ∷ xs) (suc i) v = ap suc (length-set xs i v)

  pub length-take : (n : ℕ) (xs : List A) → length (take n xs) ≡ min n (length xs)
  length-take zero xs = omega arith
  length-take (suc n) [] = omega arith
  length-take (suc n) (x ∷ xs) = omega (arith, length-take n xs)

  pub length-drop : (n : ℕ) (xs : List A) → length (drop n xs) ≡ length xs - n
  length-drop zero xs = omega arith
  length-drop (suc n) [] = omega arith
  length-drop (suc n) (x ∷ xs) = omega (arith, length-drop n xs)

  pub nil_of_length : (xs : List A) → length xs ≡ 0 → xs ≡ []
  nil_of_length [] h = refl
  nil_of_length (x ∷ xs) h = absurd (omega arith)

  pub length-filter : (p : A → Bool) (xs : List A) → length (filter p xs) ≤ length xs
  length-filter p [] = omega arith
  length-filter p (x ∷ xs) = ground (arith, length-filter p xs)

  pub take-append-drop : (n : ℕ) (xs : List A) → take n xs ++ drop n xs ≡ xs
  take-append-drop zero xs = refl
  take-append-drop (suc n) [] = refl
  take-append-drop (suc n) (x ∷ xs) = ap (λ l. x ∷ l) (take-append-drop n xs)

module _ {ℓ κ} {A : Type ℓ} (P : A → Type κ) where
  pub All-append : (xs ys : List A) → All P xs → All P ys → All P (xs ++ ys)
  All-append [] ys h k = k
  All-append (x ∷ xs) ys h k = (h.0, All-append xs ys h.1 k)

  pub All-drop : (n : ℕ) (xs : List A) → All P xs → All P (drop n xs)
  All-drop zero xs h = h
  All-drop (suc n) [] h = h
  All-drop (suc n) (x ∷ xs) h = All-drop n xs h.1

  pub All-filter : (p : A → Bool) (xs : List A) → All P xs → All P (filter p xs)
  All-filter p [] h = h
  All-filter p (x ∷ xs) h = ground (arith, All-filter p xs)

  -- What is left has passed the test too.
  pub All-filter_passes :
      (p : A → Bool) (xs : List A) → All P xs → All (λ x. P x × (p x ≡ true)) (filter p xs)
  All-filter_passes p [] h = tt
  All-filter_passes p (x ∷ xs) h = ground (arith, All-filter_passes p xs)

module _ {ℓ} {A : Type ℓ} where
  pub any-append : (p : A → Bool) (xs ys : List A) → any p (xs ++ ys) ≡ (any p xs || any p ys)
  any-append p [] ys = refl
  any-append p (x ∷ xs) ys = ground (arith, any-append p xs ys)

  -- Where no element passes the test, each one fails it.
  pub All-of_not_any : (p : A → Bool) (xs : List A) → any p xs ≡ false → All (λ x. p x ≡ false) xs
  All-of_not_any p [] h = tt
  All-of_not_any p (x ∷ xs) h = (ground arith, All-of_not_any p xs (ground arith))

  pub any-eq_false : (p : A → Bool) (xs : List A) → All (λ x. p x ≡ false) xs → any p xs ≡ false
  any-eq_false p [] h = refl
  any-eq_false p (x ∷ xs) h = rw (h.0) (any-eq_false p xs h.1)

  -- A filter that every element passes changes nothing.
  pub filter-eq_self : (p : A → Bool) (xs : List A) → All (λ x. p x ≡ true) xs → filter p xs ≡ xs
  filter-eq_self p [] h = refl
  filter-eq_self p (x ∷ xs) h = rw (h.0) (ap (λ l. x ∷ l) (filter-eq_self p xs h.1))

module _ {ℓ κ μ} {A : Type ℓ} (P : A → Type κ) (Q : A → Type μ) where
  pub All-imp : ((x : A) → P x → Q x) → (xs : List A) → All P xs → All Q xs
  All-imp f [] h = tt
  All-imp f (x ∷ xs) h = (f x h.0, All-imp f xs h.1)

module _ {ℓ} {A : Type ℓ} where
  -- Dropping no more than the first part leaves the second one whole.
  pub drop-append : (n : ℕ) (xs ys : List A) → n ≤ length xs → drop n (xs ++ ys) ≡ drop n xs ++ ys
  drop-append zero xs ys h = refl
  drop-append (suc n) [] ys h = elim h [ ]
  drop-append (suc n) (x ∷ xs) ys h = drop-append n xs ys (omega arith)

module _ {ℓ} {A : Type ℓ} where
  -- `xs.findIndex(p)`, with `none` for -1.
  abbrev pub find_index? : (A → Bool) → List A → Option ℕ
  find_index? p [] = none
  find_index? p (x ∷ xs) = if p x then some 0 else Option.map suc (find_index? p xs)

  -- `const i = xs.findIndex(p); if (i >= 0) { next[i] = v }`
  abbrev pub set_found : (A → Bool) → A → List A → Option (List A)
  set_found p v xs = Option.map (λ i. set xs i v) (find_index? p xs)

module _ {ℓ} {A : Type ℓ} where
  -- The list with its first element that passes the test replaced.
  abbrev pub replace_first : (A → Bool) → A → List A → List A
  replace_first p v [] = []
  replace_first p v (x ∷ xs) = if p x then v ∷ xs else x ∷ replace_first p v xs

  set_at-replace_first :
      (p : A → Bool) (v : A) (xs : List A) (o : Option ℕ)
      → o ≡ find_index? p xs
      → Option.map (λ i. set xs i v) o ≡ (if any p xs then some (replace_first p v xs) else none)
  set_at-replace_first p v [] o e = rw e
  set_at-replace_first p v (x ∷ xs) o e =
      ground (arith, set_at-replace_first p v xs (find_index? p xs) refl)

  pub set_found_lem :
      (p : A → Bool) (v : A) (xs : List A)
      → set_found p v xs ≡ (if any p xs then some (replace_first p v xs) else none)
  set_found_lem p v xs = set_at-replace_first p v xs (find_index? p xs) refl

module _ {ℓ κ} {A : Type ℓ} (R : Option A → Type κ) (p : A → Bool) where
  -- To show something of what `find` returns, show it of `none` and of each element that passes.
  pub find?_ind : (xs : List A) → R none → All (λ x. p x ≡ true → R (some x)) xs → R (find? p xs)
  find?_ind [] none_ok h = none_ok
  find?_ind (x ∷ xs) none_ok h = elim (Bool-cases (p x)) [
    | inl e ↦ rw e (h.0 e)
    | inr e ↦ rw e (find?_ind xs none_ok h.1)
  ]
