-- ===== src/Base/Dict.antt =====
-- A `Map` with numbers for keys: an association list that holds a key once.
use restic_ui.Base.Tests.{◌==◌, if◌then◌else◌}
use Prim.Native.Nat.{ℕ}
use mathlib.Core.Path.{◌≡◌}
use mathlib.Core.List.{List, [], ◌∷◌}
use mathlib.Core.Option
use mathlib.Core.Option.{Option, none, some}
use restic_ui.Base.Lists.{find?}
use native.Mathlib.Omega.{arith}

abbrev pub Dict {ℓ} : Type ℓ → Type ℓ
Dict V = List (ℕ × V)

module _ {ℓ} {V : Type ℓ} where
  -- `dict.get(key)`
  abbrev pub lookup : ℕ → Dict V → Option V
  lookup key dict = Option.map (λ entry. entry.1) (find? (λ entry. entry.0 == key) dict)

  -- `dict.set(key, value)`: an old entry keeps its place, a new one comes last.
  abbrev pub insert : ℕ → V → Dict V → Dict V
  insert key value [] = (key, value) ∷ []
  insert key value (entry ∷ dict) =
      if entry.0 == key then (key, value) ∷ dict else entry ∷ insert key value dict

  pub lookup-insert :
      (key asked : ℕ) (value : V) (dict : Dict V)
      → lookup asked (insert key value dict)
        ≡ (if key == asked then some value else lookup asked dict)
  lookup-insert key asked value [] = ground arith
  lookup-insert key asked value (entry ∷ dict) = ground (arith, lookup-insert key asked value dict)
