-- ===== src/Types/Bytes/Laws.antt =====
-- What `formatBytes` shows for a whole number of bytes.
use restic_ui.Base.{
  ℕ, zero, suc, ◌+◌, ◌*◌, ◌/◌, ◌%◌, ◌^◌, ◌≤◌, ◌<◌, ◌≡◌, refl, ◌⊎◌, inl, inr, [], ◌∷◌, ◌++◌, arith,
  ltb, leb, Bool-cases, ◌&&◌, if◌then◌else◌, get_elem?, or_else,
}
use native.Mathlib.Nat.{pow-succ', div-add-mod, mod-lt, one-le-pow}
use restic_ui.Base.Text.{Text, decimal}
use restic_ui.Types.Bytes.{units, scale, round, to_fixed_1, format_bytes, whole}

-- The unit that the loop stops at: the largest one that is not above `n`, bytes if there is none.
pub record IsUnit (n : ℕ) (unit : ℕ × ℕ) : Type 0 where
  pub size : unit.0 ≡ 1024 ^ unit.1
  pub listed : unit.1 ≤ 4
  pub reached : (unit.1 ≡ 0) ⊎ (unit.0 ≤ n)
  pub largest : (unit.1 ≡ 4) ⊎ (n < 1024 * unit.0)

scale-IsUnit :
    (left n d i : ℕ) → left + i ≡ 4 → d ≡ 1024 ^ i → (i ≡ 0) ⊎ (d ≤ n) → IsUnit n (scale left n d i)
unfolding scale
scale-IsUnit zero n d i at_end size reached = record {
  size = size;
  listed = omega arith;
  reached = reached;
  largest = inl (omega arith);
}
scale-IsUnit (suc left) n d i at_end size reached = elim (Bool-cases (leb (1024 * d) n)) [
  | inl more ↦ rw more (
      scale-IsUnit left n (1024 * d) (suc i) (omega arith) (rw (size, pow-succ' 1024 i))
        (inr (ground arith)))
  | inr done ↦
      rw done
        (record { size = size; listed = omega arith; reached = reached; largest = ground arith })
]

-- `k` is the integer nearest to `n / d`, the larger one of two.
abbrev pub IsNearest : ℕ → ℕ → ℕ → Type 0
IsNearest k n d = (2 * (k * d) ≤ 2 * n + d) × (2 * n < 2 * (k * d) + d)

round-IsNearest : (n d : ℕ) → 0 < d → IsNearest (round n d) n d
unfolding round
round-IsNearest n d h =
    let q : ℕ = (2 * n + d) / (2 * d) in
    let whole_part : 2 * d * q + (2 * n + d) % (2 * d) ≡ 2 * n + d =
      div-add-mod (2 * n + d) (2 * d) in
    let part : (2 * n + d) % (2 * d) < 2 * d = mod-lt (2 * n + d) (omega arith) in omega arith

-- What is shown for `n` bytes: a numeral, a space and a unit that fits.
pub data Shown (n : ℕ) (s : Text) : Type 0 where
  integer :
      (d i k : ℕ)
      → IsUnit n (d, i)
      → (i ≡ 0) ⊎ (10 * d ≤ n)
      → IsNearest k n d
      → s ≡ decimal k ++ (b' ' ∷ or_else (get_elem? units i) [])
      → Shown n s
  tenths :
      (d i t : ℕ)
      → IsUnit n (d, i)
      → 0 < i
      → n < 10 * d
      → IsNearest t (10 * n) d
      → s ≡ (decimal (t / 10) ++ b'.' ∷ decimal (t % 10)) ++ (b' ' ∷ or_else (get_elem? units i) [])
      → Shown n s

IsUnit-pos : {n d i : ℕ} → IsUnit n (d, i) → 0 < d
IsUnit-pos {i = i} u = omega (arith, one-le-pow i 1024 (omega arith))

show_in :
    (n d i : ℕ)
    → IsUnit n (d, i)
    → Shown n (
        (if ltb n (10 * d) && ltb 0 i then to_fixed_1 n d else decimal (round n d))
        ++ (b' ' ∷ or_else (get_elem? units i) []))
unfolding to_fixed_1
show_in n d i u = elim (Bool-cases (ltb n (10 * d) && ltb 0 i)) [
  | inl small ↦ rw small (
      tenths d i (round (10 * n) d) u (ground arith) (ground arith)
        (round-IsNearest (10 * n) d (IsUnit-pos u)) refl)
  | inr large ↦
      rw large (integer d i (round n d) u (ground arith) (round-IsNearest n d (IsUnit-pos u)) refl)
]

-- formatBytes of `n` bytes shows the largest of the five units that is not above `n` (bytes where
-- there is none), with one decimal where the value is below 10 of a unit above bytes and as an
-- integer otherwise; the numeral is the nearest one, the larger of two.
pub format_bytes-Shown : (n : ℕ) → Shown n (format_bytes (whole n))
unfolding format_bytes
format_bytes-Shown n = show_in n _ _ (scale-IsUnit 4 n 1 0 (omega arith) refl (inl refl))
