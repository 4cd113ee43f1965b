-- ===== src/Plans/Card/First.antt =====
-- web/src/pages/PlansPage.tsx: what `find` finds in the list of operations.
use restic_ui.Base.{
  ◌++◌, ◌↔◌, find?, ap, sym, subst, Bool, true, false, none, some, List, [], ◌∷◌, ◌≡◌, refl, ◌⊎◌,
  inl, inr, All, Bool-cases,
}
use restic_ui.Types.{Operation}

-- The first row of which `P` holds.
pub record IsFirst (P : Operation → Type 0) (ops : List Operation) (o : Operation) : Type 0 where
  pub before : List Operation
  pub after : List Operation
  pub found : ops ≡ before ++ o ∷ after
  pub holds : P o
  pub others : All (λ x. ¬ P x) before

-- A test that says whether `P` holds finds the first row of which it does.
module _ (P : Operation → Type 0) (test : Operation → Bool)
    (tells : (o : Operation) → (test o ≡ true) ↔ P o) where
  refutes : (o : Operation) → test o ≡ false → ¬ P o
  refutes o e p = cc (e, (tells o).1 p)

  pub find?-cases :
      (ops : List Operation)
      → ((find? test ops ≡ none) × All (λ o. ¬ P o) ops)
        ⊎ ((o : Operation) × (find? test ops ≡ some o) × IsFirst P ops o)
  find?-cases [] = inl (refl, tt)
  find?-cases (x ∷ ops) = elim (Bool-cases (test x)) [
    | inl e ↦ inr (
      x,
      rw e refl,
      record { before = []; after = ops; found = refl; holds = (tells x).0 e; others = tt },
    )
    | inr e ↦ elim (find?-cases ops) [
      | inl (none_there, others) ↦ inl (rw e none_there, (refutes x e, others))
      | inr (o, there, f) ↦ inr (
        o,
        rw e there,
        record {
          before = x ∷ f.before;
          after = f.after;
          found = ap (λ l. x ∷ l) f.found;
          holds = f.holds;
          others = (refutes x e, f.others);
        },
      )
    ]
  ]

pub All-append_right :
    (P : Operation → Type 0) (o : Operation) (before after : List Operation)
    → All P (before ++ o ∷ after)
    → P o
All-append_right P o [] after h = h.0
All-append_right P o (x ∷ before) after h = All-append_right P o before after h.1

-- Of one id there is one first row.
pub IsFirst-unique :
    (P : Operation → Type 0) (a b : Operation) (us us' vs vs' : List Operation)
    → us ++ a ∷ us' ≡ vs ++ b ∷ vs'
    → P a
    → P b
    → All (λ x. ¬ P x) us
    → All (λ x. ¬ P x) vs
    → a ≡ b
IsFirst-unique P a b [] us' [] vs' e p q h k = cc e
IsFirst-unique P a b [] us' (y ∷ vs) vs' e p q h k =
    let same : y ≡ a = cc e in absurd (k.0 (subst P (sym same) p))
IsFirst-unique P a b (x ∷ us) us' [] vs' e p q h k =
    let same : x ≡ b = cc e in absurd (h.0 (subst P (sym same) q))
IsFirst-unique P a b (x ∷ us) us' (y ∷ vs) vs' e p q h k =
    IsFirst-unique P a b us us' vs vs' (cc e) p q h.1 k.1
