-- ===== src/Base/Text.antt =====
-- Text as a sequence of code units, with the operations of JavaScript strings that the source uses.
pub mod Trim
use Prim.Native.Char.{code}
use Prim.Native.String.{String}
use restic_ui.Base.Tests.{ltb, ◌==◌, if◌then◌else◌}
use Prim.Native.Nat.{ℕ, zero, suc, ◌+◌, ◌/◌, ◌%◌}
use mathlib.Core.Path.{◌≡◌, refl}
use mathlib.Core.Logic.{◌↔◌}
use mathlib.Core.Bool.{Bool, true, false, ◌&&◌}
use mathlib.Core.List.{List, [], ◌∷◌}
use native.Mathlib.Omega.{arith}

abbrev pub Text : Type 0
Text = List ℕ

-- A literal of the source. `String` has its own `[]` and `∷`.
abbrev pub codes : String → Text
codes String.[] = []
codes (String.◌∷◌ c s) = code c ∷ codes s

-- `a === b`
abbrev pub text_eq : Text → Text → Bool
text_eq [] [] = true
text_eq [] (y ∷ b) = false
text_eq (x ∷ a) [] = false
text_eq (x ∷ a) (y ∷ b) = x == y && text_eq a b

-- Whether a text is empty, which is what makes a string falsy.
abbrev pub is_empty : Text → Bool
is_empty [] = true
is_empty (x ∷ a) = false

pub text_eq_iff : (a b : Text) → (text_eq a b ≡ true) ↔ (a ≡ b)
text_eq_iff [] [] = ground arith
text_eq_iff [] (y ∷ b) = ground arith
text_eq_iff (x ∷ a) [] = ground arith
text_eq_iff (x ∷ a) (y ∷ b) = ground (arith, text_eq_iff a b)

pub text_eq_refl : (a : Text) → text_eq a a ≡ true
text_eq_refl a = (text_eq_iff a a).1 refl

-- The decimal numeral of a number, as `String(n)` gives it.
decimal_from : ℕ → ℕ → Text → Text
decimal_from zero n acc = acc
decimal_from (suc fuel) n acc =
    let rest = decimal_from fuel (n / 10) ((48 + n % 10) ∷ acc) in
    if ltb n 10 then (48 + n) ∷ acc else rest

-- A number has at most as many digits as its size says, so the fuel `n + 1` is enough.
unfoldable pub decimal : ℕ → Text
unfolding decimal_from
decimal n = decimal_from (suc n) n []
