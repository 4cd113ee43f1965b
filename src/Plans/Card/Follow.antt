-- ===== src/Plans/Card/Follow.antt =====
-- web/src/pages/PlansPage.tsx: which operation a plan's card follows.
use restic_ui.Base.{
  ◌↔◌, sym, ◌∙◌, subst, ℕ, Bool, true, false, not, Option, none, some, List, [], ◌≡◌, ◌≢◌, refl,
  ◌⊎◌, inl, inr, if◌then◌else◌, All, Bool-cases, arith,
}
use restic_ui.Types.{Plan, Operation}
use restic_ui.Plans.Card.{
  Card, is_live, is_live_of, live_op, tracked_op, find_op, is_over, still_running, clear_running,
  same_plan, is_truthy, shows_started, run_now, by_id, OpStatus,
}
use restic_ui.Plans.Card.First.{IsFirst, find?-cases, All-append_right, IsFirst-unique}

abbrev pub rows : Option (List Operation) → List Operation
rows none = []
rows (some ops) = ops

-- An operation is under way, and it is the plan's.
abbrev pub IsUnderWay : Operation → Type 0
IsUnderWay o = (o.status ≡ OpStatus.queued) ⊎ (o.status ≡ OpStatus.running)

abbrev pub IsActive : Plan → Operation → Type 0
IsActive plan o = (o.plan_id ≡ some plan.id) × IsUnderWay o

-- The list shows the operation with that id as ended.
abbrev pub ShowsEnded : List Operation → ℕ → Type 0
ShowsEnded ops id = (o : Operation) × IsFirst (λ x. x.id ≡ id) ops o × (¬ IsUnderWay o)

-- What a card follows: the plan's first operation that is under way; or, if there is none, the one
-- that was started here, unless the list shows it as ended; or else nothing.
pub data Follows (ops : List Operation) (plan : Plan) (started : Option ℕ) : Option ℕ → Type 0 where
  listed : (o : Operation) → IsFirst (IsActive plan) ops o → Follows ops plan started (some o.id)
  own :
      (id : ℕ)
      → All (λ o. ¬ IsActive plan o) ops
      → started ≡ some id
      → ¬ ShowsEnded ops id
      → Follows ops plan started (some id)
  nothing :
      All (λ o. ¬ IsActive plan o) ops
      → (started ≡ none) ⊎ ((id : ℕ) × (started ≡ some id) × ShowsEnded ops id)
      → Follows ops plan started none

live_tells : (s : OpStatus) → (is_live s ≡ true) ↔ ((s ≡ OpStatus.queued) ⊎ (s ≡ OpStatus.running))
live_tells OpStatus.queued = (λ h. inl refl, λ h. refl)
live_tells OpStatus.running = (λ h. inr refl, λ h. refl)
live_tells OpStatus.success = (λ h. cc h, λ h. elim h [ inl e ↦ cc e | inr e ↦ cc e ])
live_tells OpStatus.warning = (λ h. cc h, λ h. elim h [ inl e ↦ cc e | inr e ↦ cc e ])
live_tells OpStatus.error = (λ h. cc h, λ h. elim h [ inl e ↦ cc e | inr e ↦ cc e ])
live_tells OpStatus.canceled = (λ h. cc h, λ h. elim h [ inl e ↦ cc e | inr e ↦ cc e ])

same_plan_tells : (id : ℕ) (o : Option ℕ) → (same_plan id o ≡ true) ↔ (o ≡ some id)
same_plan_tells id none = (λ h. cc h, λ h. cc h)
same_plan_tells id (some p) = (λ h. ground arith, λ h. ground arith)

is_live_of_tells : (plan : Plan) (o : Operation) → (is_live_of plan o ≡ true) ↔ IsActive plan o
is_live_of_tells plan o = (
  λ h. (
    (same_plan_tells plan.id o.plan_id).0 (ground arith),
    (live_tells o.status).0 (ground arith),
  ),
  λ h. rw ((same_plan_tells plan.id o.plan_id).1 h.0, (live_tells o.status).1 h.1) refl,
)

by_id_tells : (id : ℕ) (o : Operation) → (by_id id o ≡ true) ↔ (o.id ≡ id)
by_id_tells id o = (λ h. ground arith, λ h. ground arith)

live_op-cases :
    (ops : Option (List Operation)) (plan : Plan)
    → ((live_op ops plan ≡ none) × All (λ o. ¬ IsActive plan o) (rows ops))
      ⊎ ((o : Operation) × (live_op ops plan ≡ some o) × IsFirst (IsActive plan) (rows ops) o)
unfolding live_op
live_op-cases none plan = inl (refl, tt)
live_op-cases (some ops) plan =
    find?-cases (IsActive plan) (is_live_of plan) (is_live_of_tells plan) ops

find_op-cases :
    (ops : Option (List Operation)) (id : ℕ)
    → ((find_op ops id ≡ none) × All (λ o. ¬ (o.id ≡ id)) (rows ops))
      ⊎ ((o : Operation) × (find_op ops id ≡ some o) × IsFirst (λ x. x.id ≡ id) (rows ops) o)
unfolding find_op
find_op-cases none id = inl (refl, tt)
find_op-cases (some ops) id = find?-cases (λ x. x.id ≡ id) (by_id id) (by_id_tells id) ops

-- Whether the operation that was started here is over.
is_over-ShowsEnded :
    (ops : Option (List Operation)) (id : ℕ)
    → ((is_over (find_op ops id) ≡ true) × ShowsEnded (rows ops) id)
      ⊎ ((is_over (find_op ops id) ≡ false) × (¬ ShowsEnded (rows ops) id))
is_over-ShowsEnded ops id = elim (find_op-cases ops id) [
  | inl (e, absent) ↦ inr (
    rw e refl,
    λ (o, f, stopped).
        All-append_right (λ x. ¬ (x.id ≡ id)) o f.before f.after
          (subst (All (λ x. ¬ (x.id ≡ id))) f.found absent) f.holds,
  )
  | inr (o, e, f) ↦ elim (Bool-cases (is_live o.status)) [
    | inl up ↦ inr (
      rw (e, up) refl,
      λ (b, g, stopped).
          let same : o ≡ b =
            IsFirst-unique (λ x. x.id ≡ id) o b f.before f.after g.before g.after
              (sym f.found ∙ g.found) f.holds g.holds f.others g.others in
          stopped (subst IsUnderWay same ((live_tells o.status).0 up)),
    )
    | inr down ↦ inl (rw (e, down) refl, (o, f, λ up. cc (down, (live_tells o.status).1 up)))
  ]
]

own-Follows :
    (ops : Option (List Operation)) (plan : Plan) (started : Option ℕ)
    → All (λ o. ¬ IsActive plan o) (rows ops)
    → Follows (rows ops) plan started (still_running ops started)
own-Follows ops plan none h = nothing h (inl refl)
own-Follows ops plan (some id) h = elim (is_over-ShowsEnded ops id) [
  | inl (e, over) ↦ rw e (nothing h (inr (id, refl, over)))
  | inr (e, on) ↦ rw e (own id h refl on)
]

-- Once the card's effect has run it follows the first operation in the list that is the plan's and
-- is queued or running. If there is none, it follows the operation that it started itself, unless
-- the first row with that id shows it as neither queued nor running; and else nothing.
pub tracked_op-Follows :
    (ops : Option (List Operation)) (plan : Plan) (s : Card)
    → Follows (rows ops) plan s.running_op (tracked_op ops plan (clear_running ops s))
unfolding tracked_op clear_running
tracked_op-Follows ops plan s = elim (live_op-cases ops plan) [
  | inl (e, idle) ↦ rw e (own-Follows ops plan s.running_op idle)
  | inr (o, e, f) ↦ rw e (listed o f)
]

message : (id : ℕ) (over : Bool) → id ≢ 0 → not (is_truthy (if over then none else some id)) ≡ over
message id false h = ground arith
message id true h = refl

-- After "Run now" has started an operation, whose id is not 0, and the effect has run, and while
-- the list shows no queued or running operation of the plan, the card says that the backup was
-- started exactly if the list shows the operation as ended.
pub shows_started-run_now :
    (ops : Option (List Operation)) (plan : Plan) (op : Operation) (s : Card)
    → op.id ≢ 0
    → live_op ops plan ≡ none
    → shows_started ops plan (clear_running ops (run_now (some op) s)) ≡ is_over (find_op ops op.id)
unfolding shows_started tracked_op clear_running run_now
shows_started-run_now ops plan op s h idle = rw idle (message op.id (is_over (find_op ops op.id)) h)
