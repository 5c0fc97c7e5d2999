-- ===== src/Flow/Targets.antt =====
-- Where the transitions of a definition that definition.go has checked may lead.
use xira.Shared.{
  String, Bool, true, false, ◌≡◌, ◌≢◌, refl, sym, ap, ◌∙◌, List, [], ◌∷◌, some, arith, ◌==◌, eq_iff,
  ◌⊎◌, inl, inr, Bool-cases, Memᴰ, if◌then◌else◌,
}
use mathlib.Core.Path.{subst}
use xira.Shared.Result.{Result, ok, err, guard, ◌>>◌}
use xira.Flow.Types.{Branch, Step, Definition}
use xira.Flow.Run.{Run, FlowError}
use xira.Flow.Definition.{
  Accepted, known, leads, validate_branches, validate_step_transitions, validate_targets,
  validate_entrypoints, validate_definition, step_ids, step_by_id,
}
use xira.Flow.Store.{World}
use xira.Flow.Expressions.{eval_when}
use xira.Flow.Kernel.{first_branch, matched, resolve_next}

-- The id is that of a step of the list.
abbrev pub IsStep : List Step → String → Type 0
IsStep steps id = (s : Step) × (step_by_id id steps ≡ some s) × (s.id ≡ id)

pub known-IsStep :
    (id : String) (steps : List Step) → known id (step_ids steps) ≡ true → IsStep steps id
unfolding known step_by_id
known-IsStep id [] h = cc
known-IsStep id (s ∷ rest) h = elim (Bool-cases (s.id == id)) [
  | inl e ↦ rw e (s, refl, ground (arith, eq_iff s.id id))
  | inr e ↦ rw e (known-IsStep id rest (ground (arith, eq_iff s.id id, eq_iff id s.id)))
]

abbrev okay : {A : Type 0} → A → Result FlowError A
okay a = ok a

ok-inj : {A : Type 0} {a b : A} → okay a ≡ ok b → a ≡ b
ok-inj h = cc

pub both-ok :
    {A : Type 0} {a : A} (m : Accepted) (k : Result FlowError A)
    → (m >> k) ≡ ok a
    → (m ≡ ok tt) × (k ≡ ok a)
both-ok (ok _) k h = (refl, h)
both-ok (err e) k h = cc

pub guard-ok : (b : Bool) (e : FlowError) → guard b e ≡ ok tt → b ≡ true
guard-ok true e h = refl
guard-ok false e h = cc

pub validated_targets :
    (def : Definition)
    → validate_definition def ≡ ok tt
    → (validate_targets (step_ids def.steps) def.steps ≡ ok tt)
      × (validate_entrypoints (step_ids def.steps) [] def.entrypoints ≡ ok tt)
unfolding validate_definition
validated_targets def h = (ground arith, ground arith)

targets_of_step :
    (ids : List String) (steps : List Step) (step : Step)
    → validate_targets ids steps ≡ ok tt
    → Memᴰ step steps
    → validate_step_transitions ids step ≡ ok tt
unfolding validate_targets
targets_of_step ids [] step h m = elim m [ ]
targets_of_step ids (s ∷ rest) step h (Memᴰ.head p) =
    ap (validate_step_transitions ids) p ∙ (both-ok _ _ h).0
targets_of_step ids (s ∷ rest) step h (Memᴰ.tail m) =
    targets_of_step ids rest step (both-ok _ _ h).1 m

first_branch-known :
    (w : World) (run : Run) (ids : List String) (bs : List Branch) (next : String)
    → validate_branches ids bs ≡ ok tt
    → first_branch w run bs ≡ ok next
    → next ≢ ""
    → known next ids ≡ true
unfolding validate_branches first_branch
first_branch-known w run ids [] next v h n = elim (n (sym (ok-inj h))) [ ]
first_branch-known w run ids (b ∷ bs) next v h n =
    let (v0, v1) = both-ok _ _ v in
    let (v2, v3) = both-ok _ _ v1 in
    let (v4, v5) = both-ok _ _ v3 in
    by_test (eval_when w run b.condition) (guard-ok _ _ v4) h
      (first_branch-known w run ids bs next v5)
  where
    by_test :
        (x : Result FlowError Bool)
        → known b.next ids ≡ true
        → (elim x [ err e ↦ err e | ok holds ↦ if holds then ok b.next else first_branch w run bs ])
          ≡ ok next
        → (first_branch w run bs ≡ ok next → next ≢ "" → known next ids ≡ true)
        → known next ids ≡ true
    by_test (err e) k q more = cc
    by_test (ok true) k q more = ground arith
    by_test (ok false) k q more = more q n

matched-ok :
    (x : Result FlowError String) (next : String)
    → matched x ≡ ok next
    → (x ≡ ok next) × (next ≢ "")
unfolding matched
matched-ok (err e) next h = cc
matched-ok (ok a) next h = elim (Bool-cases (a == "")) [
  | inl e ↦ cc
  | inr e ↦ (ground arith, λ z. ground (arith, eq_iff a ""))
]

-- In a definition that passes the checks, a transition that is resolved for one of its steps ends
-- the flow or leads to a step of the definition, whatever the run and the policy.
pub resolve_next-IsStep :
    (w : World) (def : Definition) (run : Run) (step : Step) (next : String)
    → validate_definition def ≡ ok tt
    → Memᴰ step def.steps
    → resolve_next w run step ≡ ok next
    → (next ≡ "") ⊎ IsStep def.steps next
unfolding resolve_next validate_step_transitions leads
resolve_next-IsStep w def run step next v m h =
    let t = targets_of_step (step_ids def.steps) def.steps step (validated_targets def v).0 m in
    let (t0, t1) = both-ok _ _ t in
    let (t2, t3) = both-ok _ _ t1 in
    let (t4, t5) = both-ok _ _ t3 in by_branches step.transitions.branches t4 h (guard-ok _ _ t0)
  where
    by_branches :
        (bs : List Branch)
        → validate_branches (step_ids def.steps) bs ≡ ok tt
        → (elim bs [
          | [] ↦ ok step.transitions.on_success
          | b ∷ more ↦ matched (first_branch w run (b ∷ more))
        ])
          ≡ ok next
        → (leads (step_ids def.steps) step.transitions.on_success ≡ true)
        → (next ≡ "") ⊎ IsStep def.steps next
    by_branches [] vb q l = elim (Bool-cases (step.transitions.on_success == "")) [
      | inl e ↦ inl (sym (ok-inj q) ∙ (eq_iff step.transitions.on_success "").0 e)
      | inr e ↦ inr (
          subst (IsStep def.steps) (ok-inj q)
            (known-IsStep step.transitions.on_success def.steps (ground arith)))
    ]
    by_branches (b ∷ bs) vb q l =
        let (f, n) = matched-ok (first_branch w run (b ∷ bs)) next q in
        inr (
          known-IsStep next def.steps
            (first_branch-known w run (step_ids def.steps) (b ∷ bs) next vb f n))
