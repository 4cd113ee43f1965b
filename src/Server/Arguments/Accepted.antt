-- ===== src/Server/Arguments/Accepted.antt =====
-- internal/plan/plan.go: the sources and the tags of a plan that Validate accepts.
use restic_ui.Base.{
  ◌==◌, ℕ, ◌≡◌, refl, Bool, true, false, not, ◌&&◌, Option, none, some, List, [], ◌∷◌, All, arith,
  if◌then◌else◌, Bool-cases, inl, inr, any,
}
use restic_ui.Base.Text.{Text, is_empty}
use restic_ui.Types.{PlanInput}
use restic_ui.Server.Arguments.{
  is_abs, check_sources, Complaint, validate, bad_schedule, check_tags, has_separator,
}
use restic_ui.Server.Arguments.Line.{trim_right, split_commas, tag_list, trim_left, trim_space}

check_sources-abs :
    (sources : List Text) (next : Option Complaint)
    → check_sources sources next ≡ none
    → All (λ s. is_abs s ≡ true) sources
unfolding check_sources
check_sources-abs [] next e = tt
check_sources-abs (s ∷ sources) next e = elim (Bool-cases (is_abs s)) [
  | inl ok ↦ (ok, check_sources-abs sources next (rw ok at e))
  | inr bad ↦ absurd (cc (rw bad at e))
]

pub validate-abs :
    (is_blank can_parse : Text → Bool) (p : PlanInput)
    → validate is_blank can_parse p ≡ none
    → All (λ s. is_abs s ≡ true) p.sources
unfolding validate
validate-abs is_blank can_parse p e =
    let next : Option Complaint =
      if not (is_empty p.schedule_cron) && not (can_parse p.schedule_cron)
      then some bad_schedule
      else check_tags p.tags in
    check_sources-abs p.sources next (ground arith)

-- A tag that the server accepts has no comma and no space; without other white space it is one tag
-- for restic, and the same.
split_commas-plain : (v : Text) → has_separator v ≡ false → split_commas v ≡ v ∷ []
unfolding split_commas
split_commas-plain [] h = refl
split_commas-plain (c ∷ v) h = ground (arith, split_commas-plain v)

-- White space other than a space.
abbrev pub has_other_space : (ℕ → Bool) → Text → Bool
has_other_space is_space t = any (λ c. is_space c && not (c == b' ')) t

-- A text that is not empty and has no white space other than spaces.
abbrev pub IsTag : (ℕ → Bool) → Text → Type 0
IsTag is_space t = (is_empty t ≡ false) × (has_other_space is_space t ≡ false)

trim_left-plain :
    (is_space : ℕ → Bool) (v : Text)
    → has_separator v ≡ false
    → has_other_space is_space v ≡ false
    → trim_left is_space v ≡ v
unfolding trim_left
trim_left-plain is_space [] h k = refl
trim_left-plain is_space (c ∷ v) h k = ground arith

trim_right-plain :
    (is_space : ℕ → Bool) (v : Text)
    → has_separator v ≡ false
    → has_other_space is_space v ≡ false
    → trim_right is_space v ≡ v
unfolding trim_right
trim_right-plain is_space [] h k = refl
trim_right-plain is_space (c ∷ v) h k = ground (arith, trim_right-plain is_space v)

pub tag_list-plain :
    (is_space : ℕ → Bool) (v : Text)
    → has_separator v ≡ false
    → has_other_space is_space v ≡ false
    → tag_list is_space v ≡ v ∷ []
unfolding tag_list trim_space
tag_list-plain is_space v h k =
    rw (split_commas-plain v h, trim_left-plain is_space v h k, trim_right-plain is_space v h k)
      refl

check_tags-plain :
    (tags : List Text) → check_tags tags ≡ none → All (λ t. has_separator t ≡ false) tags
unfolding check_tags
check_tags-plain [] e = tt
check_tags-plain (t ∷ tags) e = elim (Bool-cases (has_separator t)) [
  | inl bad ↦ absurd (cc (rw bad at e))
  | inr ok ↦ (ok, check_tags-plain tags (rw ok at e))
]

check_sources-next :
    (sources : List Text) (next : Option Complaint)
    → check_sources sources next ≡ none
    → next ≡ none
unfolding check_sources
check_sources-next [] next e = e
check_sources-next (s ∷ sources) next e = ground (arith, check_sources-next sources next)

pub validate-plain :
    (is_blank can_parse : Text → Bool) (p : PlanInput)
    → validate is_blank can_parse p ≡ none
    → All (λ t. has_separator t ≡ false) p.tags
unfolding validate
validate-plain is_blank can_parse p e =
    let next : Option Complaint =
      if not (is_empty p.schedule_cron) && not (can_parse p.schedule_cron)
      then some bad_schedule
      else check_tags p.tags in
    let unbroken : next ≡ none = check_sources-next p.sources next (ground arith) in
    check_tags-plain p.tags (ground arith)
