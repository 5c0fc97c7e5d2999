-- ===== src/Entry/Tests.antt =====
-- A registry of three entrypoints, messages to it, and the theorems at them.
use xira.Shared.{
  String, Bool, true, false, not, ◌&&◌, ◌||◌, Option, none, some, [], ◌∷◌, ◌==◌, ◌≡◌, ◌↔◌, refl,
}
use xira.Shared.Strings.{trim}
use xira.Shared.Dict
use xira.Shared.Dict.{string_eq}
use xira.Shared.Result.{Result, ok, err}
use xira.Flow.Run.{InboundContext, AddressTarget}
use xira.Runtime.BindCommand.{is_bind_command, cut_prefix, bind_token}
use xira.Entry.Texts.{Texts}
use xira.Entry.Inbound.{
  normalize_inbound_context, normalize_address_targets, parse_address_targets, mentions_from,
  copy_metadata, first_metadata,
}
use xira.Entry.Inbound.Addressing.{addressed_to-normalize_inbound_context}
use xira.Entry.Definition.{Definition, normalize_ids, allows_agent, allows_sender}
use xira.Entry.Registry.{
  Registry, ResolveInput, Decision, MatchedBy, ResolveError, new_registry, resolve, match_context,
  implicit_definition, best_of,
}
use xira.Entry.Registry.Matching.{Best, match_context-Best}
use xira.Entry.Registry.Resolving.{resolve-IsFrom, IsAgentOf, IsFrom, asked_id}
use xira.Entry.Gate as G
use xira.Entry.Gate.{
  gate, MessageInput, OwnerResolver, gate-dispatch, gate-observe, is_addressed, is_trusted,
  authorization_content,
}

abbrev texts : Texts
texts = record {
  to_lower = λ s. s;
  equal_fold = λ s t. s == t;
  path_match = λ p s. if_bad (p == "[") (p == s);
}
  where
    if_bad : Bool → Bool → Option Bool
    if_bad true b = none
    if_bad false b = some b

abbrev context : InboundContext
context = record {
  channel = " feishu ";
  entrypoint_id = "";
  account = "acme";
  channel_app_id = "app";
  bot_id = "";
  chat_id = "c1";
  chat_type = "group";
  chat_name = "";
  topic_id = "";
  space_id = "";
  space_type = "";
  sender_id = "ann";
  sender_id_type = "";
  sender_name = "";
  message_id = "";
  message_type = "";
  original_content = "";
  mentioned = false;
  mention_targets = [];
  addressed_to = [];
  reply_to_message_id = "";
  reply_to_sender_id = "";
  raw = [];
}

abbrev entry : String → String → String → Definition
unfolding implicit_definition
entry id account app = record (implicit_definition texts context "") {
  id = id;
  channel = "feishu";
  account = account;
  app_id = app;
  allowed_agent_ids = " writer " ∷ "" ∷ "writer" ∷ [];
  allowed_sender_ids = "ann" ∷ "[" ∷ [];
}

abbrev registry : Registry
unfolding new_registry entry trim normalize_ids Dict.insert
registry =
    new_registry texts ""
      (entry "any" "" "" ∷ entry "acme" "acme" "" ∷ entry "other" "x" "app" ∷ [])

abbrev input : ResolveInput
input = record { context = context; entrypoint_id = ""; requested_agent_id = "writer " }

id_of : Result ResolveError Decision → String
id_of (ok c) = c.definition.id
id_of (err e) = ""

resolve-input : id_of (resolve texts input registry) ≡ "acme"
unfolding resolve registry match_context best_of trim Dict.lookup Dict.insert copy_metadata id_of
    normalize_ids entry mentions_from allows_agent
resolve-input = refl

abbrev decided : Result ResolveError Decision → Decision
unfolding implicit_definition
decided (ok c) = c
decided (err e) = record {
  definition = implicit_definition texts context "";
  agent_id = "";
  session_policy = (implicit_definition texts context "").session_policy;
  matched_by = MatchedBy.implicit;
}

resolve-some : resolve texts input registry ≡ ok (decided (resolve texts input registry))
unfolding resolve registry match_context best_of trim Dict.lookup Dict.insert copy_metadata
    normalize_ids entry mentions_from allows_agent decided
resolve-some = refl

resolve-IsFrom_example :
    IsAgentOf "writer " (decided (resolve texts input registry))
    × IsFrom texts
        (normalize_inbound_context texts context)
        (asked_id texts input)
        registry
        (decided (resolve texts input registry)).definition
resolve-IsFrom_example =
    resolve-IsFrom texts input registry (decided (resolve texts input registry)) resolve-some

match_context-Best_example :
    Best texts context registry.definitions (match_context texts context registry)
match_context-Best_example = match_context-Best texts context registry

abbrev message : String → Bool → MessageInput
message content mentioned = record {
  channel = "feishu";
  entrypoint_id = "any";
  account = "";
  chat_id = "c1";
  chat_type = "group";
  sender_id = "eve";
  sender_id_type = "";
  sender_name = "";
  chat_name = "";
  mentioned = mentioned;
  mention_targets = [];
  addressed_to = [];
  content = content;
  command_content = "";
  original_content = content;
  message_id = "m1";
  message_type = "";
  metadata = [];
}

abbrev ann_owns : OwnerResolver
ann_owns = some (λ sender id. sender == "ann")

gate-eve :
    (gate texts (message "/bind AAAA" true) (entry "any" "" "") ann_owns ≡ G.Decision.dispatch)
    × (gate texts (message "/bind AAAA" false) (entry "any" "" "") ann_owns ≡ G.Decision.reject)
    × (gate texts (message "hello" true) (entry "any" "" "") ann_owns ≡ G.Decision.reject)
unfolding gate entry allows_sender trim is_bind_command cut_prefix bind_token
gate-eve = (refl, refl, refl)

gate-dispatch_example :
    (gate texts (message "/bind AAAA" true) (entry "any" "" "") ann_owns ≡ G.Decision.dispatch) ↔ (
      is_addressed (message "/bind AAAA" true)
        && (is_trusted texts (message "/bind AAAA" true) (entry "any" "" "") ann_owns
            || is_bind_command (authorization_content (message "/bind AAAA" true)))
      ≡ true)
gate-dispatch_example = gate-dispatch texts (message "/bind AAAA" true) (entry "any" "" "") ann_owns

gate-observe_example :
    (gate texts (message "/bind AAAA" false) (entry "any" "" "") ann_owns ≡ G.Decision.observe) ↔ (
      not (is_addressed (message "/bind AAAA" false))
        && is_trusted texts (message "/bind AAAA" false) (entry "any" "" "") ann_owns
      ≡ true)
gate-observe_example = gate-observe texts (message "/bind AAAA" false) (entry "any" "" "") ann_owns

abbrev addressed_context : InboundContext
addressed_context = record context {
  addressed_to = AddressTarget.other " owner" ∷ AddressTarget.other "x" ∷ AddressTarget.agent ∷ [];
}

addressed_to-normalize_inbound_context_example :
    normalize_address_targets texts (
      parse_address_targets (
        first_metadata
          (normalize_inbound_context texts addressed_context).raw
          ("addressed_to" ∷ [])))
    ≡ (normalize_inbound_context texts addressed_context).addressed_to
addressed_to-normalize_inbound_context_example =
    addressed_to-normalize_inbound_context texts addressed_context refl refl
