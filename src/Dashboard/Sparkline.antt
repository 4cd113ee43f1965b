-- ===== src/Dashboard/Sparkline.antt =====
-- web/src/components/Sparkline.tsx: the coordinates of a sparkline. The source divides doubles; a
-- coordinate is the exact fraction here.
use restic_ui.Base.{
  ℕ, suc, ◌+◌, ◌-◌, ◌*◌, ◌≤◌, ◌<◌, Option, none, some, List, [], ◌∷◌, ◌==◌, ◌≡◌, refl,
  if◌then◌else◌, leb, length, get_last?, All, All-imp, arith, min, ap,
}

pub record Ratio : Type 0 where
  pub num : ℕ
  pub den : ℕ

pub record Point : Type 0 where
  pub x : Ratio
  pub y : Ratio

abbrev max : ℕ → ℕ → ℕ
max a b = if leb a b then b else a

-- `Math.min(...points)` and `Math.max(...points)`, for a first point and the others.
unfoldable pub least : ℕ → List ℕ → ℕ
least p [] = p
least p (q ∷ ps) = min p (least q ps)

unfoldable pub greatest : ℕ → List ℕ → ℕ
greatest p [] = p
greatest p (q ∷ ps) = max p (greatest q ps)

-- `(i / (points.length - 1)) * W`
abbrev pub x_of : (count i : ℕ) → Ratio
x_of count i = record { num = i * 100; den = count - 1 }

-- `span === 0 ? H / 2 : PAD + (1 - (v - min) / span) * (H - 2 * PAD)`
unfoldable pub y_of : (lo hi v : ℕ) → Ratio
y_of lo hi v =
    if (hi - lo) == 0
    then record { num = 50; den = 1 }
    else record { num = 6 * (hi - lo) + ((hi - lo) - (v - lo)) * 88; den = hi - lo }

unfoldable pub coords_from : (count lo hi i : ℕ) → List ℕ → List Point
unfolding y_of
coords_from count lo hi i [] = []
coords_from count lo hi i (v ∷ vs) =
    record { x = x_of count i; y = y_of lo hi v } ∷ coords_from count lo hi (suc i) vs

-- The polyline, and the dot at its end; nothing is drawn for fewer than two points.
pub record Drawing : Type 0 where
  pub line : List Point
  pub dot : Option Point

unfoldable pub line_of : ℕ → List ℕ → List Point
unfolding coords_from least greatest
line_of p ps = coords_from (length (p ∷ ps)) (least p ps) (greatest p ps) 0 (p ∷ ps)

unfoldable pub sparkline : List ℕ → Option Drawing
unfolding line_of
sparkline [] = none
sparkline (p ∷ []) = none
sparkline (p ∷ q ∷ ps) =
    some (record { line = line_of p (q ∷ ps); dot = get_last? (line_of p (q ∷ ps)) })

-- The fraction lies between `a` and `b`.
abbrev pub Between : ℕ → ℕ → Ratio → Type 0
Between a b r = (0 < r.den) × (a * r.den ≤ r.num) × (r.num ≤ b * r.den)

abbrev pub InBox : Point → Type 0
InBox p = Between 0 100 p.x × Between 6 94 p.y

abbrev Spans : ℕ → ℕ → ℕ → Type 0
Spans lo hi v = (lo ≤ v) × (v ≤ hi)

Spans-wider :
    (lo hi lo' hi' : ℕ) (vs : List ℕ)
    → lo' ≤ lo
    → hi ≤ hi'
    → All (Spans lo hi) vs
    → All (Spans lo' hi') vs
Spans-wider lo hi lo' hi' vs h k s =
    All-imp (Spans lo hi) (Spans lo' hi') (λ v w. (omega arith, omega arith)) vs s

points-Spans : (p : ℕ) (ps : List ℕ) → All (Spans (least p ps) (greatest p ps)) (p ∷ ps)
unfolding least greatest
points-Spans p [] = ((omega arith, omega arith), tt)
points-Spans p (q ∷ ps) = (
  (omega arith, ground arith),
  Spans-wider (least q ps) (greatest q ps) (min p (least q ps)) (max p (greatest q ps)) (q ∷ ps)
      (omega arith) (ground arith) (points-Spans q ps),
)

y_of-Between : (lo hi v : ℕ) → Spans lo hi v → Between 6 94 (y_of lo hi v)
unfolding y_of
y_of-Between lo hi v s = ground arith

coords_from-InBox :
    (count lo hi i : ℕ) (vs : List ℕ)
    → 2 ≤ count
    → i + length vs ≤ count
    → All (Spans lo hi) vs
    → All InBox (coords_from count lo hi i vs)
unfolding coords_from
coords_from-InBox count lo hi i [] two fits s = tt
coords_from-InBox count lo hi i (v ∷ vs) two fits s = (
  ((omega arith, omega arith, omega arith), y_of-Between lo hi v s.0),
  coords_from-InBox count lo hi (suc i) vs two (omega arith) s.1,
)

length-coords_from :
    (count lo hi i : ℕ) (vs : List ℕ) → length (coords_from count lo hi i vs) ≡ length vs
unfolding coords_from
length-coords_from count lo hi i [] = refl
length-coords_from count lo hi i (v ∷ vs) = ap suc (length-coords_from count lo hi (suc i) vs)

y_of_antitone : (lo hi v w : ℕ) → v ≤ w → (y_of lo hi w).num ≤ (y_of lo hi v).num
unfolding y_of
y_of_antitone lo hi v w h = ground arith

-- A sparkline of two values or more is drawn with one point for each value. Each point lies in the
-- box, horizontally from 0 to 100 and vertically from 6 to 94, and of two values
-- `v` and `w`, with `v` not above `w`, `w` does not stand lower on that scale.
pub sparkline-InBox :
    (p q : ℕ) (ps : List ℕ) (v w : ℕ)
    → v ≤ w
    → (d : Drawing) × (sparkline (p ∷ q ∷ ps) ≡ some d)
      × All InBox d.line
      × (length d.line ≡ length (p ∷ q ∷ ps))
      × ((y_of (least p (q ∷ ps)) (greatest p (q ∷ ps)) w).num
          ≤ (y_of (least p (q ∷ ps)) (greatest p (q ∷ ps)) v).num)
unfolding sparkline line_of
sparkline-InBox p q ps v w h = (
  _,
  refl,
  coords_from-InBox (length (p ∷ q ∷ ps)) (least p (q ∷ ps)) (greatest p (q ∷ ps)) 0 (p ∷ q ∷ ps)
      (omega arith) (omega arith) (points-Spans p (q ∷ ps)),
  length-coords_from (length (p ∷ q ∷ ps)) (least p (q ∷ ps)) (greatest p (q ∷ ps)) 0 (p ∷ q ∷ ps),
  y_of_antitone (least p (q ∷ ps)) (greatest p (q ∷ ps)) v w h,
)
