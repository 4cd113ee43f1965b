-- ===== src/Types/Bytes.antt =====
-- `formatBytes` of web/src/lib/types.ts. Its argument is a whole number of bytes: the value after
-- `i` divisions is then `n / 1024 ^ i` without rounding, and it is kept as that fraction.
mod Tests
pub mod Laws
use restic_ui.Base.{
  ℕ, zero, suc, ◌+◌, ◌*◌, ◌/◌, ◌%◌, ◌^◌, Bool, ◌&&◌, List, [], ◌∷◌, ◌++◌, ltb, leb, if◌then◌else◌,
  get_elem?, or_else,
}
use restic_ui.Base.Text.{Text, codes, decimal}

-- A JavaScript number as the function meets it.
pub data JsNumber : Type 0 where
  whole : ℕ → JsNumber
  negative not_finite : JsNumber

abbrev pub units : List Text
units = codes "B" ∷ codes "KiB" ∷ codes "MiB" ∷ codes "GiB" ∷ codes "TiB" ∷ []

-- `while (v >= 1024 && i < units.length - 1) { v /= 1024; i++; }`, by recursion on `4 - i`. The
-- value v is n / d.
unfoldable pub scale : ℕ → ℕ → ℕ → ℕ → ℕ × ℕ
scale zero n d i = (d, i)
scale (suc left) n d i =
    let rest = scale left n (1024 * d) (suc i) in if leb (1024 * d) n then rest else (d, i)

-- `Math.round(n / d)`: to the nearest integer, halves upwards.
unfoldable pub round : ℕ → ℕ → ℕ
round n d = (2 * n + d) / (2 * d)

-- `(n / d).toFixed(1)`: tenths are rounded in the same way.
unfoldable pub to_fixed_1 : ℕ → ℕ → Text
unfolding round
to_fixed_1 n d = let t = round (10 * n) d in decimal (t / 10) ++ b'.' ∷ decimal (t % 10)

unfoldable pub format_whole : ℕ → Text
unfolding scale to_fixed_1 round
format_whole n =
    let (d, i) = scale 4 n 1 0 in
    (if ltb n (10 * d) && ltb 0 i then to_fixed_1 n d else decimal (round n d))
    ++ (b' ' ∷ or_else (get_elem? units i) [])

unfoldable pub format_bytes : JsNumber → Text
unfolding format_whole
format_bytes (whole n) = format_whole n
format_bytes _ = codes "—"
