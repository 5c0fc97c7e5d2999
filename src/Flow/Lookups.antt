-- ===== src/Flow/Lookups.antt =====
-- Lookups by id in a definition that definition.go has checked.
use xira.Shared.{
  String, true, false, ◌≡◌, sym, ap, ◌∙◌, List, [], ◌∷◌, some, arith, ◌==◌, eq_iff, Memᴰ,
}
use xira.Shared.Result.{ok}
use xira.Flow.Types.{Step, Entrypoint, Definition}
use xira.Flow.Definition.{
  known, validate_steps, validate_entrypoints, validate_definition, step_ids, step_by_id,
  entrypoint_in, entrypoint_step, resolve_entrypoint,
}
use xira.Flow.Targets.{known-IsStep, validated_targets}

eq_self : (s t : String) → s ≡ t → (s == t) ≡ true
eq_self s t e = ground (arith, eq_iff s t)

validated_steps :
    (def : Definition) → validate_definition def ≡ ok tt → validate_steps [] def.steps ≡ ok tt
unfolding validate_definition
validated_steps def h = ground arith

step_found :
    (met : List String) (steps : List Step) (step : Step)
    → validate_steps met steps ≡ ok tt
    → Memᴰ step steps
    → (known step.id met ≡ false) × (step_by_id step.id steps ≡ some step)
unfolding validate_steps step_by_id known
step_found met [] step h m = elim m [ ]
step_found met (s ∷ rest) step h (Memᴰ.head p) =
    let fresh : known s.id met ≡ false = ground arith in
    (
      ap (λ (x : Step). known x.id met) p ∙ fresh,
      rw (eq_self s.id step.id (ap (λ (x : Step). x.id) (sym p))) (ap some (sym p)),
    )
step_found met (s ∷ rest) step h (Memᴰ.tail m) =
    let below : validate_steps (s.id ∷ met) rest ≡ ok tt = ground arith in
    let (apart, found) = step_found (s.id ∷ met) rest step below m in
    let other : (s.id == step.id) ≡ false =
      ground (arith, eq_iff s.id step.id, eq_iff step.id s.id) in
    (ground arith, rw other found)

entrypoint_found :
    (ids met : List String) (steps : List Step) (eps : List Entrypoint) (ep : Entrypoint)
    → validate_entrypoints ids met eps ≡ ok tt
    → Memᴰ ep eps
    → (known ep.id met ≡ false)
      × (known ep.start_step ids ≡ true)
      × (entrypoint_in ep.id steps eps ≡ entrypoint_step ep (step_by_id ep.start_step steps))
unfolding validate_entrypoints entrypoint_in known
entrypoint_found ids met steps [] ep h m = elim m [ ]
entrypoint_found ids met steps (x ∷ rest) ep h (Memᴰ.head p) =
    let fresh : known x.id met ≡ false = ground arith in
    let starts : known x.start_step ids ≡ true = ground arith in
    (
      ap (λ (y : Entrypoint). known y.id met) p ∙ fresh,
      ap (λ (y : Entrypoint). known y.start_step ids) p ∙ starts,
      rw (eq_self x.id ep.id (ap (λ (y : Entrypoint). y.id) (sym p)))
          (ap (λ (y : Entrypoint). entrypoint_step y (step_by_id y.start_step steps)) (sym p)),
    )
entrypoint_found ids met steps (x ∷ rest) ep h (Memᴰ.tail m) =
    let below : validate_entrypoints ids (x.id ∷ met) rest ≡ ok tt = ground arith in
    let (apart, starts, found) = entrypoint_found ids (x.id ∷ met) steps rest ep below m in
    let other : (x.id == ep.id) ≡ false = ground (arith, eq_iff x.id ep.id, eq_iff ep.id x.id) in
    (ground arith, starts, rw other found)

-- In a definition that passes the checks, looking up the id of any of its steps finds that step.
pub step_by_id_unique :
    (def : Definition) (step : Step)
    → validate_definition def ≡ ok tt
    → Memᴰ step def.steps
    → step_by_id step.id def.steps ≡ some step
step_by_id_unique def step h m = (step_found [] def.steps step (validated_steps def h) m).1

-- In a definition that passes the checks, resolving the id of any of its entrypoints succeeds, with
-- that entrypoint and the step of the definition that it starts with.
pub resolve_entrypoint-ok :
    (def : Definition) (ep : Entrypoint)
    → validate_definition def ≡ ok tt
    → Memᴰ ep def.entrypoints
    → (s : Step) × (resolve_entrypoint def ep.id ≡ ok (ep, s))
      × (step_by_id ep.start_step def.steps ≡ some s)
      × (s.id ≡ ep.start_step)
unfolding resolve_entrypoint entrypoint_step
resolve_entrypoint-ok def ep h m =
    let (_, starts, found) =
      entrypoint_found (step_ids def.steps) [] def.steps def.entrypoints ep
        (validated_targets def h).1 m in
    let (s, at, same) = known-IsStep ep.start_step def.steps starts in
    (s, found ∙ ap (entrypoint_step ep) at, at, same)
