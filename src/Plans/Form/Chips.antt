-- ===== src/Plans/Form/Chips.antt =====
-- web/src/components/plans/PlanForm.tsx: the sources, excludes and tags stay proper lists.
use restic_ui.Base.{
  Bool, true, false, not, ◌&&◌, Option, none, some, List, [], ◌∷◌, ◌++◌, ◌≡◌, ◌≢◌, refl, sym, inl,
  inr, if◌then◌else◌, filter, All, All-append, All-filter, All-imp, All-of_not_any, Bool-cases,
  arith,
}
use restic_ui.Base.Text.{Text, text_eq, text_eq_iff, is_empty}
use restic_ui.Base.Text.Trim.{trim, trim_idem}
use restic_ui.Types.{Plan, PlanInput}
use restic_ui.Plans.Form.{
  FormState, Fields, initial, add_chip, remove_chip, includes, Action, act, type_path, type_exclude,
  type_tag, type_cron, choose_preset, browse_to, add_source, add_exclude, add_tag, toggle_browsing,
  close_browser, remove_source, remove_exclude, remove_tag, choose_repo, limit_upload,
  limit_download, check_caches, check_file_system, check_prune, keep,
}
use restic_ui.Plans.Form.Submit.{plan_input}

-- A chip is not empty and has no white space at its ends.
abbrev IsChip : Text → Type 0
IsChip t = (trim t ≡ t) × (is_empty t ≡ false)

abbrev IsDistinct : List Text → Type 0
IsDistinct [] = Unit
IsDistinct (x ∷ xs) = All (λ y. y ≢ x) xs × IsDistinct xs

abbrev pub IsChips : List Text → Type 0
IsChips xs = All IsChip xs × IsDistinct xs

append-IsDistinct :
    (xs : List Text) (v : Text) → IsDistinct xs → All (λ y. y ≢ v) xs → IsDistinct (xs ++ v ∷ [])
append-IsDistinct [] v h k = (tt, tt)
append-IsDistinct (x ∷ xs) v h k = (
  All-append (λ y. y ≢ x) xs (v ∷ []) h.0 ((λ e. k.0 (sym e)), tt),
  append-IsDistinct xs v h.1 k.1,
)

ne_of_text_eq : (v y : Text) → text_eq y v ≡ false → y ≢ v
ne_of_text_eq v y h e = ground (arith, (text_eq_iff y v).1 e)

filter-IsDistinct : (p : Text → Bool) (xs : List Text) → IsDistinct xs → IsDistinct (filter p xs)
filter-IsDistinct p [] h = tt
filter-IsDistinct p (x ∷ xs) h = elim (Bool-cases (p x)) [
  | inl e ↦ rw e (All-filter (λ y. y ≢ x) p xs h.0, filter-IsDistinct p xs h.1)
  | inr e ↦ rw e (filter-IsDistinct p xs h.1)
]

add_new-IsChips :
    (xs : List Text) (v : Text) (ok : Bool)
    → ok ≡ (not (is_empty v) && not (includes xs v))
    → trim v ≡ v
    → IsChips xs
    → IsChips (if ok then xs ++ v ∷ [] else xs)
add_new-IsChips xs v false e t h = h
add_new-IsChips xs v true e t h = (
  All-append IsChip xs (v ∷ []) h.0 ((t, ground arith), tt),
  append-IsDistinct xs v h.1 (
      All-imp (λ y. text_eq y v ≡ false) (λ y. y ≢ v) (ne_of_text_eq v) xs
        (All-of_not_any (λ y. text_eq y v) xs (ground arith))),
)

add_chip-IsChips : (xs : List Text) (input : Text) → IsChips xs → IsChips (add_chip xs input)
unfolding add_chip
add_chip-IsChips xs input h =
    add_new-IsChips xs (trim input) (not (is_empty (trim input)) && not (includes xs (trim input)))
      refl (trim_idem input) h

remove_chip-IsChips : (xs : List Text) (it : Text) → IsChips xs → IsChips (remove_chip xs it)
remove_chip-IsChips xs it h = (
  All-filter IsChip (λ x. not (text_eq x it)) xs h.0,
  filter-IsDistinct (λ x. not (text_eq x it)) xs h.1,
)

abbrev IsValid : FormState → Type 0
IsValid s = IsChips s.sources × IsChips s.excludes × IsChips s.tags

-- A plan that the form edits.
abbrev pub HasChips : Option Plan → Type 0
HasChips none = Unit
HasChips (some p) = IsChips p.sources × IsChips p.excludes × IsChips p.tags

initial-IsValid : (existing : Option Plan) → HasChips existing → IsValid (initial existing)
unfolding initial
initial-IsValid none h = ((tt, tt), (tt, tt), (tt, tt))
initial-IsValid (some p) h = h

act-IsValid : (a : Action) (s : FormState) → IsValid s → IsValid (act a s)
unfolding act
act-IsValid (type_path v) s h = h
act-IsValid (type_exclude v) s h = h
act-IsValid (type_tag v) s h = h
act-IsValid (type_cron v) s h = h
act-IsValid (choose_preset v) s h = h
act-IsValid (browse_to v) s h = (add_chip-IsChips s.sources v h.0, h.1, h.2)
act-IsValid add_source s h = (add_chip-IsChips s.sources s.manual_path h.0, h.1, h.2)
act-IsValid add_exclude s h = (h.0, add_chip-IsChips s.excludes s.exclude_input h.1, h.2)
act-IsValid add_tag s h = (h.0, h.1, add_chip-IsChips s.tags s.tag_input h.2)
act-IsValid toggle_browsing s h = h
act-IsValid close_browser s h = h
act-IsValid (remove_source v) s h = (remove_chip-IsChips s.sources v h.0, h.1, h.2)
act-IsValid (remove_exclude v) s h = (h.0, remove_chip-IsChips s.excludes v h.1, h.2)
act-IsValid (remove_tag v) s h = (h.0, h.1, remove_chip-IsChips s.tags v h.2)
act-IsValid (choose_repo id) s h = h
act-IsValid (limit_upload v) s h = h
act-IsValid (limit_download v) s h = h
act-IsValid (check_caches v) s h = h
act-IsValid (check_file_system v) s h = h
act-IsValid (check_prune v) s h = h
act-IsValid (keep b v) s h = h

abbrev pub act_all : List Action → FormState → FormState
act_all [] s = s
act_all (a ∷ actions) s = act_all actions (act a s)

act_all-IsValid : (actions : List Action) (s : FormState) → IsValid s → IsValid (act_all actions s)
act_all-IsValid [] s h = h
act_all-IsValid (a ∷ actions) s h = act_all-IsValid actions (act a s) (act-IsValid a s h)

-- The body that a form sends.
abbrev pub SendsChips : PlanInput → Type 0
SendsChips input = IsChips input.sources × IsChips input.excludes × IsChips input.tags

-- Whatever a user does to the form of a new plan, or of a plan whose sources, excludes and tags are
-- proper lists, those of the plan that it sends are proper lists: no entry is empty, none begins or
-- ends with white space, and none stands there twice.
pub plan_input-SendsChips :
    (existing : Option Plan) (actions : List Action) (f : Fields)
    → HasChips existing
    → SendsChips (plan_input f (act_all actions (initial existing)))
unfolding plan_input
plan_input-SendsChips existing actions f h =
    act_all-IsValid actions (initial existing) (initial-IsValid existing h)
