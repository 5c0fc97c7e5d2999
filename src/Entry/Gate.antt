-- ===== src/Entry/Gate.antt =====
-- apps/xira/internal/channelrunner/ingest/ingest.go: what becomes of a message. The owner resolver is
-- a function of a sender and an entrypoint, or nil.
use xira.Shared.{
  String, Bool, true, false, not, ◌&&◌, ◌||◌, Option, none, some, List, [], ◌∷◌, ◌==◌,
  if◌then◌else◌, ◌≡◌, arith, ◌↔◌,
}
use xira.Shared.Strings.{trim}
use xira.Shared.Dict.{Dict}
use xira.Flow.Run.{InboundContext, AddressTarget, MentionTarget}
use xira.Runtime.BindCommand.{is_bind_command}
use xira.Entry.Texts.{Texts}
use xira.Entry.Inbound.{target_text, normalize_inbound_context}
use xira.Entry.Definition.{Definition, allows_sender}

pub data Decision : Type 0 where
  dispatch observe reject : Decision

pub record MessageInput : Type 0 where
  pub channel : String
  pub entrypoint_id : String
  pub account : String
  pub chat_id : String
  pub chat_type : String
  pub sender_id : String
  pub sender_id_type : String
  pub sender_name : String
  pub chat_name : String
  pub mentioned : Bool
  pub mention_targets : List MentionTarget
  pub addressed_to : List AddressTarget
  pub content : String
  pub command_content : String
  pub original_content : String
  pub message_id : String
  pub message_type : String
  pub metadata : Dict String String

-- `MessageInput.InboundContext`
unfoldable pub inbound_context : Texts → MessageInput → InboundContext
unfolding normalize_inbound_context
inbound_context x m = normalize_inbound_context x (record {
  channel = m.channel;
  entrypoint_id = m.entrypoint_id;
  account = m.account;
  channel_app_id = "";
  bot_id = "";
  chat_id = m.chat_id;
  chat_type = m.chat_type;
  chat_name = m.chat_name;
  topic_id = "";
  space_id = "";
  space_type = "";
  sender_id = m.sender_id;
  sender_id_type = m.sender_id_type;
  sender_name = m.sender_name;
  message_id = m.message_id;
  message_type = m.message_type;
  original_content = m.original_content;
  mentioned = m.mentioned;
  mention_targets = m.mention_targets;
  addressed_to = m.addressed_to;
  reply_to_message_id = "";
  reply_to_sender_id = "";
  raw = m.metadata;
})

abbrev pub OwnerResolver : Type 0
OwnerResolver = Option (String → String → Bool)

unfoldable pub is_owner : OwnerResolver → String → String → Bool
is_owner none sender id = false
is_owner (some f) sender id = f sender id

-- `isAuthorizedForObserve`
unfoldable pub is_authorized_for_observe : Texts → String → Definition → OwnerResolver → Bool
unfolding is_owner
is_authorized_for_observe x sender d owner = allows_sender x sender d || is_owner owner sender d.id

-- `AuthorizeSender`
unfoldable pub authorize_sender : Texts → String → String → Definition → OwnerResolver → Bool
unfolding is_owner
authorize_sender x sender content d owner =
    is_bind_command content || allows_sender x sender d || is_owner owner sender d.id

-- `hasKnownAddressTarget`
unfoldable pub has_known_address_target : List AddressTarget → Bool
has_known_address_target [] = false
has_known_address_target (t ∷ ts) =
    target_text t == "agent" || target_text t == "owner" || has_known_address_target ts

-- The content that a command is read from.
unfoldable pub authorization_content : MessageInput → String
authorization_content m =
    if not (trim m.command_content == "") then m.command_content else m.content

-- `Gate`
unfoldable pub gate : Texts → MessageInput → Definition → OwnerResolver → Decision
unfolding is_authorized_for_observe authorize_sender has_known_address_target authorization_content
gate x m d owner =
    if m.chat_type == "group" && not m.mentioned && not (has_known_address_target m.addressed_to)
    then (if not (is_authorized_for_observe x m.sender_id d owner)
        then Decision.reject
        else Decision.observe)
    else (if not (authorize_sender x m.sender_id (authorization_content m) d owner)
        then Decision.reject
        else Decision.dispatch)

-- A message to the bot: not in a group, or a mention, or one that addresses the agent or its owner.
abbrev pub is_addressed : MessageInput → Bool
is_addressed m =
    not (m.chat_type == "group") || m.mentioned || has_known_address_target m.addressed_to

-- The sender is one that the entrypoint allows, or its owner.
abbrev pub is_trusted : Texts → MessageInput → Definition → OwnerResolver → Bool
is_trusted x m d owner = allows_sender x m.sender_id d || is_owner owner m.sender_id d.id

-- A turn is started for an addressed message alone, of a trusted sender or with a bind command.
pub gate-dispatch :
    (x : Texts) (m : MessageInput) (d : Definition) (owner : OwnerResolver)
    → (gate x m d owner ≡ Decision.dispatch) ↔ (
        is_addressed m && (is_trusted x m d owner || is_bind_command (authorization_content m))
        ≡ true)
unfolding gate
gate-dispatch x m d owner = ground arith

-- What a stranger writes in a group without addressing the bot is never observed, a bind command
-- neither; what a trusted sender writes there always is.
pub gate-observe :
    (x : Texts) (m : MessageInput) (d : Definition) (owner : OwnerResolver)
    → (gate x m d owner ≡ Decision.observe)
      ↔ (not (is_addressed m) && is_trusted x m d owner ≡ true)
unfolding gate
gate-observe x m d owner = ground arith
