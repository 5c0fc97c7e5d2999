-- ===== src/HumanRequest/Tests.antt =====
-- Runs of the store on concrete inputs, and its theorems at those inputs.
use xira.Shared.{
  String, true, false, ◌≡◌, ◌≢◌, refl, [], ◌∷◌, none, some, select, Memᴰ, eq_iff, arith, ◌+◌, ◌⊎◌,
  Extends,
}
use xira.Shared.Strings.{trim, has_prefix, contains}
use xira.Shared.Dict
use xira.Shared.Dict.{pair_eq}
use xira.Shared.Result.{ok, err}
use xira.HumanRequest.Types.{
  RequestStatus, ResumeStatus, ResponseKind, HumanRequest, HumanResponse, HumanResponseEnvelope,
  ResolveRequest, Error,
}
use xira.HumanRequest.Validate.{
  validate_create, validate_path_id, validate_options, validate_responder_policy,
  normalize_responder_policy, validate_response_kind, seen, validate_exact_response,
}
use xira.HumanRequest.Disk.{
  Disk, load_request, write_request, write_response, list_locked, read_dir, sort_requests,
  sort_insert, listed_before, passes, some_unreadable,
}
use xira.HumanRequest.Store.{
  create, create_new, create_unless, new_request, find_pending_duplicate, first_such,
  is_duplicate_of,
}
use xira.HumanRequest.Transitions.{
  apply_resolve, new_response, resolved_request, same_response_retry, apply_resume_claim,
  claimed_request, stopped_request,
}
use xira.HumanRequest.Operations.{
  resolve, resolve_as, resolve_exact, edit_request, check_call, save, claim_resume, get,
  recover_requests,
}
use xira.HumanRequest.Queries.{list, list_by_chat_key, carries, sole_match, find_by_correlation}
use xira.HumanRequest.Edits.{stored, put}
use xira.HumanRequest.Evolution.{IsFiled, IsOrderly}
use xira.HumanRequest.Lifecycle.{phase, SameQuestion, ◌⟶*◌}
use xira.HumanRequest.Inversion.{IsValidName, CanRead}
use xira.HumanRequest.Histories.{
  Call, History, start, call, History-Follows, request_lives, response_stays,
}
use xira.HumanRequest.Claiming.{claim_resume-true, claim-claim}
use xira.HumanRequest.Answering.{
  resolve_retry, resolve_once, Repeats, IsAuthorized, resolve_exact-IsAuthorized,
}
use xira.HumanRequest.Creating.{get-create, IsAsked}
use xira.HumanRequest.Asking.{HasDedupeKeys, CanReadAll, create-create}
use xira.HumanRequest.Listing.{IsNewestFirst, listing}
use xira.HumanRequest.Finding.{list_by_chat_key-exact, find_by_correlation_unique, all_of}
use xira.HumanRequest.Held.{key, Held}
use xira.HumanRequest.Recovery.{recover_requests_isolates, recovered}
use xira.HumanRequest.Sample.{calm, empty_disk, question, answer, asked}

-- What the runs below compute with.
evaluated : Unit {0}
unfolding create create_new create_unless new_request find_pending_duplicate first_such
    is_duplicate_of validate_create validate_path_id validate_options validate_responder_policy
    normalize_responder_policy validate_response_kind seen trim has_prefix contains load_request
    write_request write_response list_locked read_dir sort_requests sort_insert listed_before passes
    some_unreadable select Dict.lookup Dict.insert resolve resolve_as resolve_exact
    validate_exact_response edit_request check_call save claim_resume get apply_resolve new_response
    resolved_request same_response_retry apply_resume_claim claimed_request list list_by_chat_key
    carries sole_match find_by_correlation
evaluated = tt

create_run : create calm question empty_disk ≡ (ok (new_request calm question), asked)
unfolding evaluated
create_run = refl

empty_disk-IsOrderly : IsOrderly empty_disk
unfolding Dict.lookup
empty_disk-IsOrderly = record { filed = λ ws id r h. cc; unique = tt }

first_ask : History empty_disk asked
first_ask =
    call {d'' = asked} calm (Call.creating question) start (unfold evaluated in refl)
      (unfold evaluated in refl)

asked-IsOrderly : IsOrderly asked
asked-IsOrderly = (History-Follows empty_disk-IsOrderly first_ask).orderly

abbrev asked_request : HumanRequest
asked_request = new_request calm question

abbrev given : HumanResponse
given = new_response calm asked_request answer none

abbrev answered_request : HumanRequest
answered_request = resolved_request asked_request given

abbrev answered : Disk
answered = record {
  requests = (("ws_1", "q1"), answered_request) ∷ [];
  responses = (("ws_1", "hrs_u1"), given) ∷ [];
}

resolve_run : resolve calm answer asked ≡ (ok answered_request, answered)
unfolding evaluated
resolve_run = refl

answering : History asked answered
answering = call {d'' = answered} calm (Call.resolving answer) start tt (unfold evaluated in refl)

answered-IsOrderly : IsOrderly answered
answered-IsOrderly = (History-Follows asked-IsOrderly answering).orderly

abbrev claimed : Disk
claimed = record answered { requests = (("ws_1", "q1"), claimed_request answered_request 100) ∷ [] }

claim_run :
    claim_resume calm "ws_1" "q1" 0 answered
    ≡ (ok (claimed_request answered_request 100, true), claimed)
unfolding evaluated
claim_run = refl

claiming : History answered claimed
claiming =
    call {d'' = claimed} calm (Call.claiming "ws_1" "q1" 0) start tt (unfold evaluated in refl)

readable : CanRead calm "ws_1" "q1"
readable = record { live = refl; readable = refl }

request_lives_example :
    (r' : HumanRequest) × (stored "ws_1" "q1" answered ≡ some r')
    × SameQuestion asked_request r'
    × (phase asked_request ⟶* phase r')
    × Extends asked_request.audit r'.audit
    × IsFiled "ws_1" "q1" r'
unfolding evaluated
request_lives_example = request_lives asked-IsOrderly answering "ws_1" "q1" {r = asked_request} refl

response_stays_example :
    (r' : HumanRequest) × (stored "ws_1" "q1" claimed ≡ some r')
    × (r'.status ≡ RequestStatus.resolved)
    × (r'.response ≡ some given)
    × (r'.resolved_at ≡ some 100)
unfolding evaluated
response_stays_example =
    response_stays answered-IsOrderly claiming "ws_1" "q1" {r = answered_request} refl (λ e. cc)

claim_resume-true_example :
    (r0 : HumanRequest) × (stored "ws_1" "q1" answered ≡ some r0)
    × (r0.status ≡ RequestStatus.resolved)
    × ((r0.resume.status ≡ ResumeStatus.pending) ⊎ (r0.resume.status ≡ ResumeStatus.failed))
    × (stored "ws_1" "q1" claimed ≡ some (claimed_request answered_request 100))
    × ((claimed_request answered_request 100).resume.status ≡ ResumeStatus.running)
    × ((claimed_request answered_request 100).resume.attempts ≡ r0.resume.attempts + 1)
unfolding evaluated
claim_resume-true_example =
    claim_resume-true calm "ws_1" "q1" 0 answered answered-IsOrderly claim_run

claim-claim_example :
    claim_resume calm "ws_1" "q1" 7 claimed
    ≡ (ok (claimed_request answered_request 100, false), claimed)
claim-claim_example =
    claim-claim calm "ws_1" "q1" 0 answered answered-IsOrderly claim_run calm 7 readable

key_given : trim answer.idempotency_key ≢ ""
unfolding trim
key_given = λ e. grind (arith, eq_iff "k" "")

resolve_retry_example : resolve calm answer answered ≡ (ok answered_request, answered)
resolve_retry_example =
    resolve_retry calm answer asked asked-IsOrderly resolve_run key_given calm readable refl

abbrev other_answer : ResolveRequest
other_answer = record answer { message = "no"; idempotency_key = "k2" }

resolve_once_example :
    (Repeats answered_request.response other_answer
      × (resolve calm other_answer answered ≡ (ok answered_request, answered)))
    ⊎ ((¬ Repeats answered_request.response other_answer)
        × (resolve calm other_answer answered ≡ (err Error.conflict, answered)))
unfolding evaluated
resolve_once_example =
    resolve_once calm answer asked asked-IsOrderly resolve_run calm other_answer refl refl readable
      refl refl

abbrev envelope : HumanResponseEnvelope
envelope = record {
  workspace_key = "ws_1";
  request_id = "q1";
  correlation_token = "t1";
  entrypoint_id = "";
  sender_id = "s";
  sender_id_type = "";
  sender_identities = [];
  delivery_message_id = "";
  kind = ResponseKind.answer;
  message = "yes";
  idempotency_key = "k";
  resolved_at = 0;
}

exact_run : resolve_exact calm envelope asked ≡ (ok answered_request, answered)
unfolding evaluated
exact_run = refl

resolve_exact-IsAuthorized_example :
    (r0 : HumanRequest) × (stored "ws_1" "q1" asked ≡ some r0)
    × IsAuthorized calm.to_lower envelope r0 100
unfolding evaluated
resolve_exact-IsAuthorized_example =
    resolve_exact-IsAuthorized calm envelope asked asked-IsOrderly exact_run

name_q1 : IsValidName "ws_1" "q1"
unfolding evaluated
name_q1 = record { workspace = refl; request = refl }

get-create_example :
    (get calm "ws_1" "q1" asked ≡ (ok asked_request, asked)) × IsAsked calm question asked_request
unfolding evaluated
get-create_example = get-create calm question empty_disk refl create_run calm name_q1 readable

question_keys : HasDedupeKeys question
unfolding trim
question_keys = record {
  dedupe_key = λ e. grind (arith, eq_iff "key" "");
  run_id = λ e. grind (arith, eq_iff "run" "");
  tool_call_id = λ e. grind (arith, eq_iff "call" "");
  workspace_key = refl;
}

calm-CanReadAll : CanReadAll calm
calm-CanReadAll = record { live = refl; readable = λ f. refl }

create-create_example :
    (r' : HumanRequest) × (create calm question asked ≡ (ok r', asked))
    × (r'.status ≡ RequestStatus.pending)
    × (is_duplicate_of question r' ≡ true)
create-create_example =
    create-create question question_keys calm empty_disk create_run calm calm-CanReadAll refl

listing_run : list_by_chat_key calm "ws_1" "cli/c/s" asked ≡ (ok (asked_request ∷ []), asked)
unfolding evaluated
listing_run = refl

list_by_chat_key-exact_example :
    (trim "cli/c/s" ≢ "")
    × (asked ≡ asked)
    × IsNewestFirst (asked_request ∷ [])
    × ((r : HumanRequest)
        → Memᴰ r (asked_request ∷ [])
        → (r.status ≡ RequestStatus.pending) × (r.chat_key ≡ trim "cli/c/s"))
    × ((id : String) (r : HumanRequest)
        → stored "ws_1" id asked ≡ some r
        → r.status ≡ RequestStatus.pending
        → r.chat_key ≡ trim "cli/c/s"
        → Memᴰ r (asked_request ∷ []))
list_by_chat_key-exact_example = list_by_chat_key-exact calm "ws_1" "cli/c/s" asked listing_run

correlation_run : find_by_correlation calm "ws_1" "t1" asked ≡ (ok asked_request, asked)
unfolding evaluated
correlation_run = refl

find_by_correlation_unique_example :
    (trim "t1" ≢ "")
    × Memᴰ asked_request (listing (all_of "ws_1") asked)
    × (carries (trim "t1") asked_request ≡ true)
    × ((id : String) (x : HumanRequest)
        → stored "ws_1" id asked ≡ some x
        → carries (trim "t1") x ≡ true
        → x ≡ asked_request)
find_by_correlation_unique_example =
    find_by_correlation_unique calm "ws_1" "t1" asked correlation_run

abbrev running : HumanRequest
running = claimed_request answered_request 100

running-Held : Held claimed (running ∷ [])
unfolding evaluated
running-Held = (refl, tt, tt)

running-IsWritable :
    (d : Disk)
    → write_request calm (recovered running 100) d ≡ (ok tt, put (recovered running 100) d)
unfolding evaluated stopped_request
running-IsWritable d = refl

recover_requests_isolates_example :
    Dict.lookup (key running) (recover_requests calm 100 0 (running ∷ []) claimed).0.requests
    ≡ some (recovered running 100)
unfolding evaluated
recover_requests_isolates_example =
    recover_requests_isolates calm 100 0 (running ∷ []) claimed running (λ j. refl) running-Held
      (Memᴰ.head refl) refl running-IsWritable
