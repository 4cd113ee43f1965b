-- ===== src/Server/Runner/Invariant.antt =====
-- internal/ops/runner.go and commands.go: what holds of the Runner whatever is enqueued, canceled
-- and run, in whatever order the goroutines take their steps.
pub mod Advance
use restic_ui.Base.{
  ℕ, suc, ◌≤◌, ◌≡◌, ◌≢◌, ◌↔◌, ◌⊎◌, refl, sym, ap, ◌∙◌, subst, Bool, true, false, Option, none, some,
  List, [], ◌∷◌, ◌++◌, ◌==◌, if◌then◌else◌, arith, All, All-append, All-imp, Bool-cases,
  Option-cases, inl, inr, append-nil, filter, map,
}
use restic_ui.Types.{OpStatus, Operation}
use restic_ui.Operations.Notify.Once.{statuses}
use restic_ui.Server.Runner.Outcome.{Work, type_of}
use restic_ui.Server.Runner.{
  Target, Turn, Task, Change, Runner, empty, update, queued_task, enqueue, put, step, advance_task,
  canceled_task, cancel, Move, enqueued, advanced, cancel_asked, move, run,
}
use restic_ui.Server.Runner.Local.{
  holds, has_cancel, trail, IsLocal, told_by, step-IsLocal, step-holder, step-repo,
}
use restic_ui.Base.Text.{Text}

pub record IsSound (r : Runner) : Type 0 where
  pub each :
      (k : ℕ) (t : Task)
      → r.tasks k ≡ some t
      → IsLocal k t (r.held t.repo) (r.cancels k) (statuses k r.events)
  pub absent : (k : ℕ) → r.tasks k ≡ none → (r.cancels k ≡ false) × (statuses k r.events ≡ [])
  pub fresh : (k : ℕ) → r.next ≤ k → r.tasks k ≡ none
  pub owned :
      (repo k : ℕ) → r.held repo ≡ some k → (t : Task) × (r.tasks k ≡ some t) × (t.repo ≡ repo)
  pub named : All (λ o. o.type ≢ []) r.events

pub empty-IsSound : IsSound empty
empty-IsSound = record {
  each = λ k t e. absurd (cc e);
  absent = λ k e. (refl, refl);
  fresh = λ k h. refl;
  owned = λ repo k e. absurd (cc e);
  named = tt;
}

pub statuses-append :
    (k : ℕ) (xs ys : List Operation) → statuses k (xs ++ ys) ≡ statuses k xs ++ statuses k ys
statuses-append k [] ys = refl
statuses-append k (x ∷ xs) ys = ground (arith, statuses-append k xs ys)

pub statuses-told_by :
    (k : ℕ) (row : Operation) (ops : List Operation)
    → row.id ≡ k
    → All (λ o. o ≡ row) ops
    → statuses k ops ≡ told_by ops
statuses-told_by k row [] own h = refl
statuses-told_by k row (o ∷ ops) own h =
    ground (arith, statuses-told_by k row ops own h.1, ap (λ (x : Operation). x.id) h.0)

pub statuses-eq_nil :
    (j : ℕ) (row : Operation) (ops : List Operation)
    → row.id ≢ j
    → All (λ o. o ≡ row) ops
    → statuses j ops ≡ []
statuses-eq_nil j row [] other h = refl
statuses-eq_nil j row (o ∷ ops) other h =
    ground (arith, statuses-eq_nil j row ops other h.1, ap (λ (x : Operation). x.id) h.0)

-- Of the mutex only this matters to an operation: whether it has it.
pub IsLocal-moved :
    (k : ℕ) (t : Task) (held held' : Option ℕ) (c c' : Bool) (seen seen' : List OpStatus)
    → (held' ≡ some k) ↔ (held ≡ some k)
    → c' ≡ c
    → seen' ≡ seen
    → IsLocal k t held c seen
    → IsLocal k t held' c' seen'
IsLocal-moved k t held held' c c' seen seen' e same_c same_seen h = record {
  own = h.own;
  named = h.named;
  fitting = h.fitting;
  cancelable = same_c ∙ h.cancelable;
  told = same_seen ∙ h.told;
  holding = λ m. e.1 (h.holding m);
  held_back = λ m. h.held_back (e.0 m);
}

pub update-cases {ℓ} :
    {A : Type ℓ} (f : ℕ → A) (k : ℕ) (v : A) (j : ℕ) (w : A)
    → update f k v j ≡ w
    → ((k ≡ j) × (v ≡ w)) ⊎ ((k ≢ j) × (f j ≡ w))
update-cases f k v j w e = elim (Bool-cases (k == j)) [
  | inl same ↦ inl (ground arith, rw same at e)
  | inr other ↦ inr (ground arith, rw other at e)
]

pub update_ne {ℓ} : {A : Type ℓ} (f : ℕ → A) (k : ℕ) (v : A) (j : ℕ) → k ≢ j → update f k v j ≡ f j
update_ne f k v j h = ground arith

type_of-ne_nil : (w : Work) → type_of w ≢ []
type_of-ne_nil w = ground arith

module _ (r : Runner) (sound : IsSound r) where
  nobody_next : (repo : ℕ) → r.held repo ≢ some r.next
  nobody_next repo e =
      let (t, there, _) = sound.owned repo r.next e in cc (there, sound.fresh r.next (omega arith))

  queued-IsLocal :
      (w : Work) (target : Target) (time : Text)
      → IsLocal r.next
          (queued_task r.next w target time)
          (r.held target.repo)
          (r.cancels r.next)
          (statuses r.next r.events)
  queued-IsLocal w target time =
      let (unset, untold) = sound.absent r.next (sound.fresh r.next (omega arith)) in
      record {
        own = refl;
        named = type_of-ne_nil w;
        fitting = refl;
        cancelable = unset;
        told = untold;
        holding = λ m. absurd (cc m);
        held_back = λ m. absurd (nobody_next target.repo m);
      }

  enqueue-each :
      (w : Work) (target : Target) (time : Text) (k : ℕ) (t : Task)
      → update r.tasks r.next (some (queued_task r.next w target time)) k ≡ some t
      → IsLocal k t (r.held t.repo) (r.cancels k) (statuses k r.events)
  enqueue-each w target time k t e =
      elim (update-cases r.tasks r.next (some (queued_task r.next w target time)) k (some t) e) [
        | inl (same, new) ↦
            let e' : queued_task r.next w target time ≡ t = cc new in
            subst (λ j. IsLocal j t (r.held t.repo) (r.cancels j) (statuses j r.events)) same
              (subst
                (λ u.
                  IsLocal r.next u (r.held u.repo) (r.cancels r.next) (statuses r.next r.events))
                e' (queued-IsLocal w target time))
        | inr (other, old) ↦ sound.each k t old
      ]

  pub enqueue-IsSound :
      (w : Work) (target : Option Target) (time : Text) → IsSound (enqueue w target time r)
  unfolding enqueue
  enqueue-IsSound w none time = sound
  enqueue-IsSound w (some target) time = record {
    each = enqueue-each w target time;
    absent = λ k e. elim (update-cases r.tasks r.next _ k none e) [
      | inl (same, new) ↦ absurd (cc new)
      | inr (other, old) ↦ sound.absent k old
    ];
    fresh =
        λ k h. update_ne r.tasks r.next _ k (omega (arith, h)) ∙ sound.fresh k (omega (arith, h));
    owned = λ repo k e.
        let (t, there, at) = sound.owned repo k e in
        (t, update_ne r.tasks r.next _ k (λ same. nobody_next repo (rw same e)) ∙ there, at);
    named = sound.named;
  }

  -- The runner in which the operation `k` has become `t'`.
  module _ (k : ℕ) (t t' : Task) (there : r.tasks k ≡ some t) where
    pub renewed-IsSound :
        (held' : ℕ → Option ℕ) (cancels' : ℕ → Bool) (events' : List Operation)
        → IsLocal k t' (held' t'.repo) (cancels' k) (statuses k events')
        → ((j : ℕ) (u : Task)
            → j ≢ k
            → r.tasks j ≡ some u
            → IsLocal j u (held' u.repo) (cancels' j) (statuses j events'))
        → ((j : ℕ)
            → j ≢ k
            → (cancels' j ≡ r.cancels j) × (statuses j events' ≡ statuses j r.events))
        → ((repo j : ℕ)
            → held' repo ≡ some j
            → ((j ≢ k) × (r.held repo ≡ some j)) ⊎ ((j ≡ k) × (t'.repo ≡ repo)))
        → All (λ o. o.type ≢ []) events'
        → IsSound (record {
          next = r.next;
          tasks = update r.tasks k (some t');
          held = held';
          cancels = cancels';
          events = events';
        })
    renewed-IsSound held' cancels' events' own others silent owned named = record {
      each = λ j u e. elim (update-cases r.tasks k (some t') j (some u) e) [
        | inl (same, new) ↦
            let e' : t' ≡ u = cc new in
            subst (λ i. IsLocal i u (held' u.repo) (cancels' i) (statuses i events')) same
              (subst (λ v. IsLocal k v (held' v.repo) (cancels' k) (statuses k events')) e' own)
        | inr (other, old) ↦ others j u (λ e. other (sym e)) old
      ];
      absent = λ j e. elim (update-cases r.tasks k (some t') j none e) [
        | inl (same, new) ↦ absurd (cc new)
        | inr (other, old) ↦
            let (c, s) = silent j (λ e. other (sym e)) in
            let (c', s') = sound.absent j old in (c ∙ c', s ∙ s')
      ];
      fresh = λ j h.
          update_ne r.tasks k (some t') j (λ e. cc (there, sound.fresh j h, e)) ∙ sound.fresh j h;
      owned = λ repo j e. elim (owned repo j e) [
        | inl (other, old) ↦
            let (u, has, at) = sound.owned repo j old in
            (u, update_ne r.tasks k (some t') j (λ e. other (sym e)) ∙ has, at)
        | inr (same, at) ↦ (t', ground (arith, same), at)
      ];
      named = named;
    }

  owned_cases :
      (k : ℕ) (t : Task)
      → r.tasks k ≡ some t
      → (repo j : ℕ) → r.held repo ≡ some j
      → ((j ≢ k) × (r.held repo ≡ some j)) ⊎ ((j ≡ k) × (t.repo ≡ repo))
  owned_cases k t there repo j e = elim (Bool-cases (j == k)) [
    | inl same ↦
        let (u, has, at) = sound.owned repo j e in
        let same' : j ≡ k = ground arith in
        let u_t : u ≡ t = cc (has, there, same') in
        inr (same', ap (λ (x : Task). x.repo) (sym u_t) ∙ at)
    | inr other ↦ inl (ground arith, e)
  ]

  canceled-IsLocal :
      (k : ℕ) (t : Task) (held : Option ℕ) (c : Bool) (seen : List OpStatus)
      → IsLocal k t held c seen
      → IsLocal k (record t { canceled = true }) held c seen
  canceled-IsLocal k t held c seen h = record {
    own = h.own;
    named = h.named;
    fitting = h.fitting;
    cancelable = h.cancelable;
    told = h.told;
    holding = h.holding;
    held_back = h.held_back;
  }

  canceled-IsSound :
      (k : ℕ) (o : Option Task)
      → r.tasks k ≡ o
      → r.cancels k ≡ true
      → IsSound (record r { tasks = update r.tasks k (canceled_task o) })
  canceled-IsSound k none e c = absurd (cc (c, (sound.absent k e).0))
  canceled-IsSound k (some t) e c =
      renewed-IsSound k t (record t { canceled = true }) e r.held r.cancels r.events
        (canceled-IsLocal k t _ _ _ (sound.each k t e)) (λ j u other has. sound.each j u has)
        (λ j other. (refl, refl)) (owned_cases k t e) sound.named

  pub cancel-IsSound : (k : ℕ) → IsSound (cancel k r).0
  unfolding cancel
  cancel-IsSound k = elim (Bool-cases (r.cancels k)) [
    | inl c ↦ rw c (canceled-IsSound k (r.tasks k) refl c)
    | inr c ↦ rw c sound
  ]
