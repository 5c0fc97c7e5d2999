-- ===== src/Entry/Inbound.antt =====
-- apps/xira/internal/channel/types.go: the normal form of an inbound context. A nil map reads as an
-- empty one.
pub mod Addressing
use xira.Shared.{
  String, Bool, true, false, not, ◌&&◌, ◌||◌, Option, none, some, List, [], ◌∷◌, ◌++◌, ◌==◌,
  if◌then◌else◌, map,
}
use xira.Shared.Strings.{trim}
use xira.Shared.Fields.{split, join}
use xira.Shared.Dict
use xira.Shared.Dict.{Dict, string_eq}
use xira.Flow.Run.{InboundContext, MentionTarget, AddressTarget}
use xira.Entry.Texts.{Texts}

-- `copyMetadata`, in the map's order.
unfoldable pub copy_metadata : Dict String String → Dict String String → Dict String String
copy_metadata [] out = out
copy_metadata ((key, value) ∷ m) out = copy_metadata m (Dict.insert (trim key) (trim value) out)

abbrev pub or_blank : Option String → String
or_blank none = ""
or_blank (some s) = s

-- `firstMetadata`
unfoldable pub first_metadata : Dict String String → List String → String
first_metadata m [] = ""
first_metadata m (key ∷ keys) =
    let value = trim (or_blank (Dict.lookup key m)) in
    let rest = first_metadata m keys in if not (value == "") then value else rest

-- `normalizedOrDefault`
unfoldable pub normalized_or_default : Texts → String → String → String
normalized_or_default x value fallback =
    let v = x.to_lower (trim value) in if v == "" then fallback else v

abbrev pub target_text : AddressTarget → String
target_text AddressTarget.agent = "agent"
target_text AddressTarget.owner = "owner"
target_text (AddressTarget.other s) = s

-- `present[name]` after the loop over the targets.
unfoldable pub has_target : Texts → String → List AddressTarget → Bool
has_target x name [] = false
has_target x name (t ∷ ts) = x.to_lower (trim (target_text t)) == name || has_target x name ts

-- `normalizeAddressTargets`
unfoldable pub normalize_address_targets : Texts → List AddressTarget → List AddressTarget
unfolding has_target
normalize_address_targets x ts =
    (if has_target x "agent" ts then AddressTarget.agent ∷ [] else [])
    ++ (if has_target x "owner" ts then AddressTarget.owner ∷ [] else [])

-- `parseAddressTargets`
unfoldable pub parse_address_targets : String → List AddressTarget
unfolding split
parse_address_targets value =
    if trim value == "" then [] else map AddressTarget.other (split 0x2C value)

-- `seen`: some earlier target has the key.
unfoldable pub seen : String × String → List (String × String) → Bool
seen k [] = false
seen k (j ∷ js) = (j.0 == k.0 && j.1 == k.1) || seen k js

unfoldable pub normalize_mention : Texts → MentionTarget → MentionTarget
normalize_mention x t = record {
  key = trim t.key;
  id = trim t.id;
  id_type = x.to_lower (trim t.id_type);
  name = trim t.name;
}

-- `dedupeKey`, as the pair of its parts.
unfoldable pub dedupe_key : MentionTarget → String × String
dedupe_key t = if t.key == "" then (t.id_type, t.id) else ("key", t.key)

unfoldable pub mentions_from :
    Texts → List (String × String) → List MentionTarget → List MentionTarget
unfolding seen normalize_mention dedupe_key
mentions_from x keys [] = []
mentions_from x keys (t ∷ ts) =
    let n = normalize_mention x t in
    let skipped = mentions_from x keys ts in
    let kept = mentions_from x (dedupe_key n ∷ keys) ts in
    if n.id == "" || seen (dedupe_key n) keys then skipped else n ∷ kept

-- `normalizeMentionTargets`
unfoldable pub normalize_mention_targets : Texts → List MentionTarget → List MentionTarget
unfolding mentions_from
normalize_mention_targets x ts = mentions_from x [] ts

-- A value is put under the key, or an empty one is removed.
unfoldable pub put_metadata : String → String → Dict String String → Dict String String
put_metadata key value m = if value == "" then Dict.remove key m else Dict.insert key value m

-- `NormalizeInboundContext`
unfoldable pub normalize_inbound_context : Texts → InboundContext → InboundContext
unfolding copy_metadata first_metadata normalized_or_default normalize_address_targets
    parse_address_targets normalize_mention_targets put_metadata
normalize_inbound_context x ctx =
    let raw = copy_metadata ctx.raw [] in
    let sender = trim ctx.sender_id in
    let sender_id = if sender == "" then "local-user" else sender in
    let chat = trim ctx.chat_id in
    let id_type = x.to_lower (
      trim (
        if trim ctx.sender_id_type == ""
        then first_metadata raw ("sender_id_type" ∷ [])
        else ctx.sender_id_type)) in
    let typed = put_metadata "sender_id_type" id_type raw in
    let addressed = normalize_address_targets x (
      addressed_or ctx.addressed_to
        (parse_address_targets (first_metadata typed ("addressed_to" ∷ [])))) in
    record ctx {
      channel = normalized_or_default x ctx.channel "local";
      entrypoint_id = trim ctx.entrypoint_id;
      account = trim ctx.account;
      channel_app_id = trim ctx.channel_app_id;
      bot_id = trim ctx.bot_id;
      chat_id = (if chat == "" then sender_id else chat);
      chat_type = normalized_or_default x ctx.chat_type "direct";
      chat_name = trim ctx.chat_name;
      topic_id = trim ctx.topic_id;
      space_id = trim ctx.space_id;
      space_type = trim ctx.space_type;
      sender_id = sender_id;
      sender_id_type = id_type;
      sender_name = trim ctx.sender_name;
      message_id = trim ctx.message_id;
      message_type = x.to_lower (trim ctx.message_type);
      mention_targets = normalize_mention_targets x ctx.mention_targets;
      addressed_to = addressed;
      reply_to_message_id = trim ctx.reply_to_message_id;
      reply_to_sender_id = trim ctx.reply_to_sender_id;
      raw = put_metadata "addressed_to" (join "," (map target_text addressed)) typed;
    }
  where
    addressed_or : List AddressTarget → List AddressTarget → List AddressTarget
    addressed_or [] other = other
    addressed_or (t ∷ ts) other = t ∷ ts

-- `NewInboundContextWithEntrypoint`
unfoldable pub new_inbound_context_with_entrypoint :
    Texts → String → String → String → Dict String String → InboundContext
unfolding normalize_inbound_context first_metadata normalized_or_default copy_metadata
new_inbound_context_with_entrypoint x channel entrypoint_id user_id metadata =
    let user = trim user_id in
    let sender = if user == "" then "local-user" else user in
    let entrypoint = trim entrypoint_id in
    let chat = first_metadata metadata ("chat_id" ∷ "room_id" ∷ "conversation_id" ∷ []) in
    let chat_type = first_metadata metadata ("chat_type" ∷ []) in
    normalize_inbound_context x (record {
      channel = normalized_or_default x channel "local";
      entrypoint_id =
          (if entrypoint == ""
            then first_metadata metadata ("entrypoint_id" ∷ "entrypoint" ∷ [])
            else entrypoint);
      account = first_metadata metadata ("account" ∷ "channel_account" ∷ "account_id" ∷ []);
      channel_app_id =
          first_metadata metadata ("channel_app_id" ∷ "app_id" ∷ "application_id" ∷ []);
      bot_id = first_metadata metadata ("bot_id" ∷ "robot_id" ∷ []);
      chat_id = (if chat == "" then sender else chat);
      chat_type = (if chat_type == "" then "direct" else chat_type);
      chat_name = first_metadata metadata ("chat_name" ∷ []);
      topic_id = first_metadata metadata ("topic_id" ∷ "thread_id" ∷ []);
      space_id = first_metadata metadata ("space_id" ∷ "tenant_id" ∷ "workspace_id" ∷ []);
      space_type = first_metadata metadata ("space_type" ∷ []);
      sender_id = sender;
      sender_id_type = "";
      sender_name = first_metadata metadata ("sender_name" ∷ []);
      message_id = first_metadata metadata ("message_id" ∷ []);
      message_type = first_metadata metadata ("message_type" ∷ []);
      original_content = "";
      mentioned = x.equal_fold (first_metadata metadata ("mentioned" ∷ [])) "true";
      mention_targets = [];
      addressed_to = [];
      reply_to_message_id = first_metadata metadata ("reply_to_message_id" ∷ []);
      reply_to_sender_id = first_metadata metadata ("reply_to_sender_id" ∷ []);
      raw = copy_metadata metadata [];
    })

-- `NewInboundContext`
unfoldable pub new_inbound_context : Texts → String → String → Dict String String → InboundContext
unfolding new_inbound_context_with_entrypoint
new_inbound_context x channel user_id metadata =
    new_inbound_context_with_entrypoint x channel "" user_id metadata
