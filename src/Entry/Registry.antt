-- ===== src/Entry/Registry.antt =====
-- apps/xira/internal/entrypoints/registry.go: the registry and the choice of an entrypoint. A nil
-- registry is the one made of nothing.
pub mod Matching
pub mod Resolving
use Prim.Native.String as Native
use xira.Shared.{
  ℕ, String, Bool, true, false, not, ◌&&◌, ◌||◌, Option, none, some, List, [], ◌∷◌, ◌++◌, ◌==◌,
  if◌then◌else◌, ltb,
}
use xira.Shared.Strings.{trim}
use xira.Shared.Dict
use xira.Shared.Dict.{Dict, string_eq}
use xira.Shared.Result.{Result, ok, err}
use xira.Flow.Run.{InboundContext}
use xira.Entry.Texts.{Texts}
use xira.Entry.Inbound.{normalize_inbound_context}
use xira.Entry.Definition.{
  Definition, SessionPolicy, normalize_definition, normalize_session_policy, allows_agent, matches,
  match_score,
}

pub record Registry : Type 0 where
  pub default_agent_id : String
  pub definitions : List Definition
  pub by_id : Dict String Definition

-- The loop of `NewRegistry`.
unfoldable pub add_definitions : Texts → List Definition → Registry → Registry
unfolding normalize_definition
add_definitions x [] r = r
add_definitions x (d ∷ ds) r =
    let n = normalize_definition x r.default_agent_id d in
    let next =
      (if n.id == "" || n.channel == "" then r else record r {
        definitions = r.definitions ++ n ∷ [];
        by_id = Dict.insert n.id n r.by_id;
      }) in
    add_definitions x ds next

-- `NewRegistry`
unfoldable pub new_registry : Texts → String → List Definition → Registry
unfolding add_definitions
new_registry x default_agent_id ds =
    let agent = trim default_agent_id in
    add_definitions x ds (record {
      default_agent_id = (if agent == "" then "xira-assistant" else agent);
      definitions = [];
      by_id = [];
    })

-- One round of the loop of `matchContext`, on the best definition so far.
unfoldable pub better : Definition → Option Definition → Option Definition
unfolding match_score
better d none = some d
better d (some best) = if ltb (match_score best) (match_score d) then some d else some best

unfoldable pub best_of :
    Texts → InboundContext → List Definition → Option Definition → Option Definition
unfolding better matches
best_of x ctx [] best = best
best_of x ctx (d ∷ ds) best =
    let next = (if matches x d ctx then better d best else best) in best_of x ctx ds next

-- `matchContext`
unfoldable pub match_context : Texts → InboundContext → Registry → Option Definition
unfolding best_of
match_context x ctx r = best_of x ctx r.definitions none

-- `Definition`
unfoldable pub definition : String → Registry → Option Definition
definition id r = Dict.lookup (trim id) r.by_id

-- `implicitDefinition`
unfoldable pub implicit_definition : Texts → InboundContext → String → Definition
implicit_definition x ctx default_agent_id =
    let name = x.to_lower (trim ctx.channel) in
    let channel = if name == "" then "local" else name in
    record {
      id = Native.◌++◌ channel "-default";
      enabled = false;
      channel = channel;
      account = trim ctx.account;
      app_id = "";
      app_id_env = "";
      bot_id = "";
      token = "";
      token_env = "";
      base_url = "";
      base_url_env = "";
      state_dir = "";
      default_agent_id = default_agent_id;
      allowed_agent_ids = [];
      allowed_sender_ids = [];
      owner_id = "";
      owner_id_type = "";
      session_policy = record { dimensions = "chat" ∷ []; identity_links = [] };
      app_secret = "";
      app_secret_env = "";
      encrypt_key = "";
      encrypt_key_env = "";
      verify_token = "";
      verify_token_env = "";
      is_lark = false;
      allow_runtime_pairing = false;
      data_isolation = false;
      raw_event_diagnostics = none;
    }

pub record ResolveInput : Type 0 where
  pub context : InboundContext
  pub entrypoint_id : String
  pub requested_agent_id : String

pub data MatchedBy : Type 0 where
  implicit request channel agent_id : MatchedBy

pub record Decision : Type 0 where
  pub definition : Definition
  pub agent_id : String
  pub session_policy : SessionPolicy
  pub matched_by : MatchedBy

pub data ResolveError : Type 0 where
  entrypoint_not_found agent_not_allowed : ResolveError

abbrev pub by_request : Option Definition → Result ResolveError (Definition × MatchedBy)
by_request none = err ResolveError.entrypoint_not_found
by_request (some d) = ok (d, MatchedBy.request)

abbrev pub by_channel : Definition → Option Definition → Definition × MatchedBy
by_channel fallback none = (fallback, MatchedBy.implicit)
by_channel fallback (some d) = (d, MatchedBy.channel)

-- The entrypoint of an input, and what it was found by.
unfoldable pub choose :
    Texts → String → InboundContext → Registry → Result ResolveError (Definition × MatchedBy)
unfolding match_context implicit_definition
choose x id ctx r =
    if not (id == "")
    then by_request (Dict.lookup id r.by_id)
    else ok (by_channel (implicit_definition x ctx r.default_agent_id) (match_context x ctx r))

-- The agent that is asked for, or the entrypoint's.
unfoldable pub with_agent : String → Definition × MatchedBy → Result ResolveError Decision
unfolding allows_agent normalize_session_policy
with_agent requested (d, by) =
    let agent = trim requested in
    let policy = normalize_session_policy d.session_policy in
    if not (agent == "")
    then (if not (allows_agent agent d)
        then err ResolveError.agent_not_allowed
        else ok (record {
          definition = d;
          agent_id = agent;
          session_policy = policy;
          matched_by = MatchedBy.agent_id;
        }))
    else ok (record {
      definition = d;
      agent_id = d.default_agent_id;
      session_policy = policy;
      matched_by = by;
    })

abbrev pub and_then :
    Result ResolveError (Definition × MatchedBy)
    → (Definition × MatchedBy → Result ResolveError Decision)
    → Result ResolveError Decision
and_then (ok d) f = f d
and_then (err e) f = err e

-- `Resolve`
unfoldable pub resolve : Texts → ResolveInput → Registry → Result ResolveError Decision
unfolding normalize_inbound_context choose with_agent
resolve x input r =
    let ctx = normalize_inbound_context x input.context in
    let asked = trim input.entrypoint_id in
    let id = if asked == "" then ctx.entrypoint_id else asked in
    and_then (choose x id ctx r) (with_agent input.requested_agent_id)
