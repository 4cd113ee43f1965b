-- ===== src/Base/Text/Trim.antt =====
-- `trim` and `split(/\s+/)`.
use restic_ui.Base.Tests.{leb, ◌==◌, if◌then◌else◌, Bool-cases}
use restic_ui.Base.Lists.{All}
use Prim.Native.Nat.{ℕ}
use mathlib.Core.Path.{◌≡◌, refl, ap, ◌∙◌}
use mathlib.Core.Logic.{◌≢◌, inl, inr}
use mathlib.Core.Bool.{Bool, true, false, ◌&&◌, ◌||◌}
use mathlib.Core.List.{List, [], ◌∷◌, ◌++◌, append_assoc, append-nil}
use native.Mathlib.Omega.{arith}
use restic_ui.Base.Text.{Text, is_empty}

-- The white space and line ends of ECMAScript.
unfoldable pub is_space : ℕ → Bool
is_space c =
    c == 32
    || (leb 9 c && leb c 13)
    || c == 160
    || c == 0x1680
    || (leb 0x2000 c && leb c 0x200a)
    || c == 0x2028
    || c == 0x2029
    || c == 0x202f
    || c == 0x205f
    || c == 0x3000
    || c == 0xfeff

unfoldable pub trim_start : Text → Text
trim_start [] = []
trim_start (c ∷ s) = if is_space c then trim_start s else c ∷ s

-- A character goes if it is white space and nothing is left behind it.
abbrev cons_trimmed : ℕ → Text → Text
cons_trimmed c rest = if is_space c && is_empty rest then [] else c ∷ rest

unfoldable pub trim_end : Text → Text
trim_end [] = []
trim_end (c ∷ s) = cons_trimmed c (trim_end s)

unfoldable pub trim : Text → Text
unfolding trim_start trim_end
trim s = trim_end (trim_start s)

trim_end_idem : (s : Text) → trim_end (trim_end s) ≡ trim_end s
unfolding trim_end
trim_end_idem [] = refl
trim_end_idem (c ∷ s) = ground (arith, trim_end_idem s)

-- After `trim_start` a text is empty or begins with no white space.
trim_start-space : (c : ℕ) (s : Text) → is_space c ≡ true → trim_start (c ∷ s) ≡ trim_start s
unfolding trim_start
trim_start-space c s h = rw h

trim_start-word : (c : ℕ) (s : Text) → is_space c ≡ false → trim_start (c ∷ s) ≡ c ∷ s
unfolding trim_start
trim_start-word c s h = rw h

trim_end-word : (c : ℕ) (s : Text) → is_space c ≡ false → trim_end (c ∷ s) ≡ c ∷ trim_end s
unfolding trim_end
trim_end-word c s h = rw h

trim_start-trim_end : (s : Text) → trim_start (trim_end (trim_start s)) ≡ trim_end (trim_start s)
trim_start-trim_end [] = unfold trim_start trim_end in refl
trim_start-trim_end (c ∷ s) = elim (Bool-cases (is_space c)) [
  | inl space ↦ rw (trim_start-space c s space) (trim_start-trim_end s)
  | inr word ↦
      rw (trim_start-word c s word, trim_end-word c s word, trim_start-word c (trim_end s) word)
]

pub trim_idem : (s : Text) → trim (trim s) ≡ trim s
unfolding trim
trim_idem s = ap trim_end (trim_start-trim_end s) ∙ trim_end_idem (trim_start s)

-- One scan of `split(/\s+/)`: whether it stands in a separator, and the field read so far.
unfoldable pub split_from : Bool → Text → Text → List Text
split_from gap cur [] = cur ∷ []
split_from false cur (c ∷ s) =
    let close = cur ∷ split_from true [] s in
    let longer = split_from false (cur ++ c ∷ []) s in if is_space c then close else longer
split_from true cur (c ∷ s) =
    let skip = split_from true cur s in
    let start = split_from false (c ∷ []) s in if is_space c then skip else start

unfoldable pub split_spaces : Text → List Text
unfolding split_from
split_spaces s = split_from false [] s

-- A field holds no white space and is not empty.
abbrev pub NoSpace : Text → Type 0
NoSpace s = All (λ c. is_space c ≡ false) s

-- The fields with one space between them.
abbrev pub spaced : List Text → Text
spaced [] = []
spaced (v ∷ ws) = 32 ∷ (v ++ spaced ws)

abbrev pub join_spaces : Text → List Text → Text
join_spaces w ws = w ++ spaced ws

split_from-next :
    (cur : Text) (c : ℕ) (s : Text)
    → is_space c ≡ false
    → split_from false cur (c ∷ s) ≡ split_from false (cur ++ c ∷ []) s
unfolding split_from
split_from-next cur c s h = rw h

split_from-start :
    (c : ℕ) (s : Text)
    → is_space c ≡ false
    → split_from true [] (c ∷ s) ≡ split_from false (c ∷ []) s
unfolding split_from
split_from-start c s h = rw h

split_from-close : (cur s : Text) → split_from false cur (32 ∷ s) ≡ cur ∷ split_from true [] s
unfolding split_from is_space
split_from-close cur s = refl

split_from-word :
    (cur w rest : Text)
    → NoSpace w
    → split_from false cur (w ++ rest) ≡ split_from false (cur ++ w) rest
split_from-word cur [] rest h = rw append-nil
split_from-word cur (c ∷ w) rest h =
    split_from-next cur c (w ++ rest) h.0
    ∙ split_from-word (cur ++ c ∷ []) w rest h.1
    ∙ ap (λ t. split_from false t rest) (append_assoc cur (c ∷ []) w)

abbrev pub IsField : Text → Type 0
IsField v = NoSpace v × (v ≢ [])

-- In a gap a field begins as at the start of the text.
split_from-gap :
    (w rest : Text) → IsField w → split_from true [] (w ++ rest) ≡ split_from false w rest
split_from-gap [] rest h = absurd (h.1 refl)
split_from-gap (c ∷ w) rest h =
    split_from-start c (w ++ rest) h.0.0 ∙ split_from-word (c ∷ []) w rest h.0.1

split_from-nil : (cur : Text) → split_from false cur [] ≡ cur ∷ []
unfolding split_from
split_from-nil cur = refl

split_from-spaced :
    (w : Text) (ws : List Text) → All IsField ws → split_from false w (spaced ws) ≡ w ∷ ws
split_from-spaced w [] h = split_from-nil w
split_from-spaced w (v ∷ ws) h =
    split_from-close w (v ++ spaced ws)
    ∙ ap (λ l. w ∷ l) (split_from-gap v (spaced ws) h.0 ∙ split_from-spaced v ws h.1)

-- Splitting gives back fields that were joined.
pub split_spaces-join_spaces :
    (w : Text) (ws : List Text) → All IsField (w ∷ ws) → split_spaces (join_spaces w ws) ≡ w ∷ ws
unfolding split_spaces
split_spaces-join_spaces w ws h =
    split_from-word [] w (spaced ws) h.0.0 ∙ split_from-spaced w ws h.1

-- Joined fields have no white space at their ends.
trim_start-join_spaces :
    (w : Text) (ws : List Text) → IsField w → trim_start (join_spaces w ws) ≡ join_spaces w ws
trim_start-join_spaces [] ws h = absurd (h.1 refl)
trim_start-join_spaces (c ∷ w) ws h = trim_start-word c (w ++ spaced ws) h.0.0

trim_end-field :
    (w rest : Text) → NoSpace w → trim_end rest ≡ rest → trim_end (w ++ rest) ≡ w ++ rest
trim_end-field [] rest h e = e
trim_end-field (c ∷ w) rest h e =
    trim_end-word c (w ++ rest) h.0 ∙ ap (λ l. c ∷ l) (trim_end-field w rest h.1 e)

trim_end-cons : (c : ℕ) (s : Text) → trim_end (c ∷ s) ≡ cons_trimmed c (trim_end s)
unfolding trim_end
trim_end-cons c s = refl

cons_trimmed-word : (c d : ℕ) (s : Text) → cons_trimmed c (d ∷ s) ≡ c ∷ d ∷ s
cons_trimmed-word c d s = ground arith

trim_end-space : (c d : ℕ) (s : Text) → trim_end (d ∷ s) ≡ d ∷ s → trim_end (c ∷ d ∷ s) ≡ c ∷ d ∷ s
trim_end-space c d s e = trim_end-cons c (d ∷ s) ∙ ap (cons_trimmed c) e ∙ cons_trimmed-word c d s

trim_end-spaced : (ws : List Text) → All IsField ws → trim_end (spaced ws) ≡ spaced ws
trim_end-spaced [] h = unfold trim_end in refl
trim_end-spaced ([] ∷ ws) h = absurd (h.0.1 refl)
trim_end-spaced ((c ∷ v) ∷ ws) h =
    trim_end-space 32 c (v ++ spaced ws)
      (trim_end-field (c ∷ v) (spaced ws) h.0.0 (trim_end-spaced ws h.1))

pub trim-join_spaces :
    (w : Text) (ws : List Text) → All IsField (w ∷ ws) → trim (join_spaces w ws) ≡ join_spaces w ws
unfolding trim
trim-join_spaces w ws h =
    ap trim_end (trim_start-join_spaces w ws h.0)
    ∙ trim_end-field w (spaced ws) h.0.0 (trim_end-spaced ws h.1)
