-- ===== src/Entry/Registry/Resolving.antt =====
-- What a decision of the registry says.
use mathlib.Core.Path.{subst}
use xira.Shared.{
  String, true, Option, none, some, ◌==◌, if◌then◌else◌, ◌≡◌, ◌≢◌, refl, ap, sym, ◌∙◌, arith, inl,
  inr, ◌⊎◌, Bool-cases, eq_iff,
}
use xira.Shared.Strings.{trim}
use xira.Shared.Dict
use xira.Shared.Dict.{string_eq}
use xira.Shared.Result.{Result, ok, err}
use xira.Flow.Run.{InboundContext}
use xira.Entry.Texts.{Texts}
use xira.Entry.Inbound.{normalize_inbound_context}
use xira.Entry.Definition.{Definition, allows_agent, normalize_session_policy}
use xira.Entry.Registry.{
  Registry, ResolveInput, Decision, MatchedBy, ResolveError, resolve, choose, with_agent, and_then,
  match_context, implicit_definition, by_request, by_channel,
}

-- The agent of a decision is one that was asked for and that the entrypoint allows, or, where none
-- was asked for, the entrypoint's own.
abbrev pub IsAgentOf : String → Decision → Type 0
IsAgentOf requested c =
    ((trim requested ≢ "")
      × (c.agent_id ≡ trim requested)
      × (allows_agent (trim requested) c.definition ≡ true))
    ⊎ ((trim requested ≡ "") × (c.agent_id ≡ c.definition.default_agent_id))

-- Where the definition of a decision is from.
abbrev pub IsFrom : Texts → InboundContext → String → Registry → Definition → Type 0
IsFrom x ctx id r d =
    ((id ≢ "") × (Dict.lookup id r.by_id ≡ some d))
    ⊎ ((id ≡ "")
        × ((match_context x ctx r ≡ some d)
            ⊎ ((match_context x ctx r ≡ none)
                × (d ≡ implicit_definition x ctx r.default_agent_id))))

ok_inj : {A : Type 0} {a b : A} → ◌≡◌ {A = Result ResolveError A} (ok a) (ok b) → a ≡ b
ok_inj h = cc

err_not_ok :
    {A : Type 0} {e : ResolveError} {b : A} → ◌≢◌ {A = Result ResolveError A} (err e) (ok b)
err_not_ok h = grind arith

err_ok :
    {A : Type 0} {e : ResolveError} {b : A} {P : Type 0}
    → ◌≡◌ {A = Result ResolveError A} (err e) (ok b)
    → P
err_ok h = absurd (err_not_ok h)

abbrev agent_decision : String → Definition → MatchedBy → Decision
agent_decision agent d by = record {
  definition = d;
  agent_id = agent;
  session_policy = normalize_session_policy d.session_policy;
  matched_by = by;
}

with_agent-IsAgentOf :
    (requested : String) (d : Definition) (by : MatchedBy) (c : Decision)
    → with_agent requested (d, by) ≡ ok c
    → IsAgentOf requested c × (c.definition ≡ d)
unfolding with_agent
with_agent-IsAgentOf requested d by c h = elim (Bool-cases (trim requested == "")) [
  | inl y ↦
      let e : ok (agent_decision d.default_agent_id d by) ≡ ok c = rw y at h in
      subst (λ c. IsAgentOf requested c × (c.definition ≡ d)) (ok_inj e)
        (inr ((eq_iff (trim requested) "").0 y, refl), refl)
  | inr n ↦ elim (Bool-cases (allows_agent (trim requested) d)) [
    | inl a ↦
        let e : ok (agent_decision (trim requested) d MatchedBy.agent_id) ≡ ok c =
          rw a at (rw n at h) in
        subst (λ c. IsAgentOf requested c × (c.definition ≡ d)) (ok_inj e)
          (inl (λ q. grind (arith, eq_iff (trim requested) ""), refl, a), refl)
    | inr a ↦ err_ok (rw a at (rw n at h))
  ]
]

choose-IsFrom :
    (x : Texts) (id : String) (ctx : InboundContext) (r : Registry) (d : Definition)
    (by : MatchedBy)
    → choose x id ctx r ≡ ok (d, by)
    → IsFrom x ctx id r d
unfolding choose
choose-IsFrom x id ctx r d by h = elim (Bool-cases (id == "")) [
  | inl y ↦
      let e : ok (by_channel (implicit_definition x ctx r.default_agent_id) (match_context x ctx r))
          ≡ ok (d, by) =
        rw y at h in
      inr ((eq_iff id "").0 y, from_channel (match_context x ctx r) refl (ok_inj e))
  | inr n ↦
      inl (λ q. grind (arith, eq_iff id ""), from_request (Dict.lookup id r.by_id) refl (rw n at h))
]
  where
    from_channel :
        (o : Option Definition)
        → match_context x ctx r ≡ o
        → by_channel (implicit_definition x ctx r.default_agent_id) o ≡ (d, by)
        → (match_context x ctx r ≡ some d)
          ⊎ ((match_context x ctx r ≡ none) × (d ≡ implicit_definition x ctx r.default_agent_id))
    from_channel none q e = inr (q, sym (ap (λ (p : Definition × MatchedBy). p.0) e))
    from_channel (some f) q e = inl (q ∙ ap (λ (p : Definition × MatchedBy). some p.0) e)

    from_request :
        (o : Option Definition)
        → Dict.lookup id r.by_id ≡ o
        → by_request o ≡ ok (d, by)
        → Dict.lookup id r.by_id ≡ some d
    from_request none q e = err_ok e
    from_request (some f) q e = q ∙ ap (λ (p : Definition × MatchedBy). some p.0) (ok_inj e)

-- The id that a message is resolved by: the request's, or the context's.
abbrev pub asked_id : Texts → ResolveInput → String
asked_id x input =
    if trim input.entrypoint_id == ""
    then (normalize_inbound_context x input.context).entrypoint_id
    else trim input.entrypoint_id

and_then-ok :
    (m : Result ResolveError (Definition × MatchedBy))
    (f : Definition × MatchedBy → Result ResolveError Decision) (c : Decision)
    → and_then m f ≡ ok c
    → (d : Definition) × (by : MatchedBy) × (m ≡ ok (d, by)) × (f (d, by) ≡ ok c)
and_then-ok (ok (d, by)) f c h = (d, by, refl, h)
and_then-ok (err e) f c h = err_ok h

-- A decision is for an agent that was asked for and that its entrypoint allows, or, where none was
-- asked for, for the entrypoint's own. Its entrypoint is the one of the id, where an id is given;
-- else the one that the context is matched to, and the implicit one where there is none.
pub resolve-IsFrom :
    (x : Texts) (input : ResolveInput) (r : Registry) (c : Decision)
    → resolve x input r ≡ ok c
    → IsAgentOf input.requested_agent_id c
      × IsFrom x (normalize_inbound_context x input.context) (asked_id x input) r c.definition
unfolding resolve
resolve-IsFrom x input r c h =
    let ctx : InboundContext = normalize_inbound_context x input.context in
    let (d, by, e, f) =
      and_then-ok (choose x (asked_id x input) ctx r) (with_agent input.requested_agent_id) c h in
    let (agent, q) = with_agent-IsAgentOf input.requested_agent_id d by c f in
    (
      agent,
      subst (IsFrom x ctx (asked_id x input) r) (sym q)
          (choose-IsFrom x (asked_id x input) ctx r d by e),
    )
