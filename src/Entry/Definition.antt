-- ===== src/Entry/Definition.antt =====
-- apps/xira/internal/entrypoints/registry.go and routing/policy.go: the definition of an entrypoint.
use xira.Shared.{
  ℕ, ◌+◌, String, Bool, true, false, not, ◌&&◌, ◌||◌, Option, none, some, List, [], ◌∷◌, ◌==◌,
  if◌then◌else◌, ltb,
}
use xira.Shared.Strings.{trim}
use xira.Shared.Int.{ℤ, pos, negsuc}
use xira.Shared.Dict.{Dict}
use xira.Shared.Result.{Result, ok, err}
use xira.Flow.Run.{InboundContext}
use xira.Entry.Texts.{Texts}

pub record SessionPolicy : Type 0 where
  pub dimensions : List String
  pub identity_links : Dict String (List String)

pub record RawEventDiagnosticsPolicy : Type 0 where
  pub enabled : Bool
  pub max_bytes : ℤ
  pub retention_hours : ℤ

pub record Definition : Type 0 where
  pub id : String
  pub enabled : Bool
  pub channel : String
  pub account : String
  pub app_id : String
  pub app_id_env : String
  pub bot_id : String
  pub token : String
  pub token_env : String
  pub base_url : String
  pub base_url_env : String
  pub state_dir : String
  pub default_agent_id : String
  pub allowed_agent_ids : List String
  pub allowed_sender_ids : List String
  pub owner_id : String
  pub owner_id_type : String
  pub session_policy : SessionPolicy
  pub app_secret : String
  pub app_secret_env : String
  pub encrypt_key : String
  pub encrypt_key_env : String
  pub verify_token : String
  pub verify_token_env : String
  pub is_lark : Bool
  pub allow_runtime_pairing : Bool
  pub data_isolation : Bool
  pub raw_event_diagnostics : Option RawEventDiagnosticsPolicy

-- `NormalizeSessionPolicy`
unfoldable pub normalize_session_policy : SessionPolicy → SessionPolicy
normalize_session_policy p = record p { dimensions = "chat" ∷ [] }

pub data PolicyError : Type 0 where
  channel_unsupported max_bytes_not_positive retention_not_positive retention_too_large :
      PolicyError

unfoldable pub is_positive : ℤ → Bool
is_positive (pos n) = ltb 0 n
is_positive (negsuc n) = false

-- `int(time.Duration(1<<63-1)/time.Hour)`
abbrev max_retention_hours : ℕ
max_retention_hours = 2562047

unfoldable pub is_too_long : ℤ → Bool
is_too_long (pos n) = ltb max_retention_hours n
is_too_long (negsuc n) = false

unfoldable pub validate_policy :
    Texts → String → RawEventDiagnosticsPolicy → Result PolicyError (Unit {0})
unfolding is_positive is_too_long
validate_policy x channel p =
    if not p.enabled
    then ok tt
    else (if not (x.equal_fold (trim channel) "feishu")
        then err PolicyError.channel_unsupported
        else (if not (is_positive p.max_bytes)
            then err PolicyError.max_bytes_not_positive
            else (if not (is_positive p.retention_hours)
                then err PolicyError.retention_not_positive
                else (if is_too_long p.retention_hours
                    then err PolicyError.retention_too_large
                    else ok tt))))

-- `ValidateRawEventDiagnostics`
unfoldable pub validate_raw_event_diagnostics : Texts → Definition → Result PolicyError (Unit {0})
unfolding validate_policy
validate_raw_event_diagnostics x d = elim d.raw_event_diagnostics [
  | none ↦ ok tt
  | some p ↦ validate_policy x d.channel p
]

unfoldable pub includes : String → List String → Bool
includes s [] = false
includes s (t ∷ ts) = t == s || includes s ts

-- The loops of `normalizeDefinition` over ids: trimmed, none blank, none twice.
unfoldable pub normalize_ids : List String → List String → List String
unfolding includes
normalize_ids seen [] = []
normalize_ids seen (v ∷ vs) =
    let id = trim v in
    let skipped = normalize_ids seen vs in
    let kept = normalize_ids (id ∷ seen) vs in
    if id == "" || includes id seen then skipped else id ∷ kept

-- `normalizeDefinition`
unfoldable pub normalize_definition : Texts → String → Definition → Definition
unfolding normalize_ids normalize_session_policy
normalize_definition x default_agent_id d =
    let agent = trim d.default_agent_id in
    record d {
      id = trim d.id;
      channel = x.to_lower (trim d.channel);
      account = trim d.account;
      app_id = trim d.app_id;
      app_id_env = trim d.app_id_env;
      bot_id = trim d.bot_id;
      token = trim d.token;
      token_env = trim d.token_env;
      base_url = trim d.base_url;
      base_url_env = trim d.base_url_env;
      state_dir = trim d.state_dir;
      default_agent_id = (if agent == "" then default_agent_id else agent);
      allowed_agent_ids = normalize_ids [] d.allowed_agent_ids;
      allowed_sender_ids = normalize_ids [] d.allowed_sender_ids;
      owner_id = trim d.owner_id;
      owner_id_type = x.to_lower (trim d.owner_id_type);
      session_policy = normalize_session_policy d.session_policy;
      app_secret = trim d.app_secret;
      app_secret_env = trim d.app_secret_env;
      encrypt_key = trim d.encrypt_key;
      encrypt_key_env = trim d.encrypt_key_env;
      verify_token = trim d.verify_token;
      verify_token_env = trim d.verify_token_env;
    }

-- `AllowsAgent`
unfoldable pub allows_agent : String → Definition → Bool
unfolding includes
allows_agent agent_id d =
    let id = trim agent_id in
    not (id == "") && (no_ids d.allowed_agent_ids || includes id d.allowed_agent_ids)
  where
    no_ids : List String → Bool
    no_ids [] = true
    no_ids (v ∷ vs) = false

-- The test of one pattern; a malformed one matches nothing.
unfoldable pub pattern_allows : Texts → String → String → Bool
pattern_allows x sender pattern =
    pattern == "*" || elim (x.path_match pattern sender) [ none ↦ false | some b ↦ b ]

unfoldable pub some_allows : Texts → String → List String → Bool
unfolding pattern_allows
some_allows x sender [] = false
some_allows x sender (p ∷ ps) = pattern_allows x sender p || some_allows x sender ps

-- `AllowsSender`
unfoldable pub allows_sender : Texts → String → Definition → Bool
unfolding some_allows
allows_sender x sender_id d =
    let id = trim sender_id in
    not (id == "") && (no_ids d.allowed_sender_ids || some_allows x id d.allowed_sender_ids)
  where
    no_ids : List String → Bool
    no_ids [] = true
    no_ids (v ∷ vs) = false

-- `d.Account != "" && !strings.EqualFold(d.Account, ctx.Account)` and its like, negated.
unfoldable pub field_matches : Texts → String → String → Bool
field_matches x own other = own == "" || x.equal_fold own other

-- `matches`
unfoldable pub matches : Texts → Definition → InboundContext → Bool
unfolding field_matches
matches x d ctx =
    d.channel == ctx.channel
    && field_matches x d.account ctx.account
    && field_matches x d.app_id ctx.channel_app_id
    && field_matches x d.bot_id ctx.bot_id

abbrev one_if_set : String → ℕ
one_if_set s = if s == "" then 0 else 1

-- `matchScore`
unfoldable pub match_score : Definition → ℕ
match_score d = one_if_set d.account + one_if_set d.app_id + one_if_set d.bot_id
