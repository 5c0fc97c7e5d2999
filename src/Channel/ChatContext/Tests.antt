-- ===== src/Channel/ChatContext/Tests.antt =====
-- A chat context under a short script, and its theorems there.
use xira.Shared.{String, true, false, ◌≡◌, ◌≤◌, refl, List, [], ◌∷◌, length, select, Extends, map}
use xira.Shared.Int.{pos, negsuc}
use xira.Shared.Strings.{trim}
use xira.Channel.Events.{
  kind, Event, Body, assistant_status, assistant_final, human_requested, tool_called,
}
use xira.Channel.Render.{render_event, render_event_text, shortened}
use xira.Channel.ChatContext.{
  Policy, Step, new_chat_context, deliver, run, progress_quota_limit, Sent,
}
use xira.Channel.ChatContext.Queueing.{deliver-Extends, length-run, is_critical}
use xira.Channel.ChatContext.Sending.{
  count_sent, count_sent-run, has_repeat, has_repeat-run, sent_key,
}

abbrev event : String → Body → Event
event id b = record {
  message_id = id;
  agent_turn_id = "t1";
  parent_agent_turn_id = "";
  timestamp = 1;
  body = b;
}

-- The shared cap alone.
abbrev policy : Policy
policy = record {
  initial_silence_threshold = 0;
  min_interval = 0;
  max_messages_per_turn = pos 2;
  max_parent_progress_messages_per_turn = pos 0;
  max_child_progress_messages_per_turn = negsuc 0;
  max_chars = pos 4;
}

abbrev as_is : String → String
as_is s = s

abbrev question : Body
question = human_requested (record {
  question = "ok?";
  request_id = "";
  responder_type = "";
  delivery_status = "";
  signal_kind = "";
})

-- A repeat, a third message over the cap, a question that is not counted, and what comes too late.
abbrev steps : List Step
steps =
    Step.delivers (event "1" (assistant_status " abcdef "))
    ∷ Step.delivers (event "2" (assistant_status "abcdef"))
    ∷ Step.delivers (event "3" (tool_called "x"))
    ∷ Step.delivers (event "4" (assistant_status "c"))
    ∷ Step.delivers (event "5" question)
    ∷ Step.sends
    ∷ Step.sends
    ∷ Step.sends
    ∷ Step.delivers (event "6" (assistant_final 3))
    ∷ Step.delivers (event "7" (assistant_status "d"))
    ∷ Step.sends
    ∷ Step.sends
    ∷ Step.sends
    ∷ []

text_of : Sent → String
text_of s = s.message.text

texts-steps :
    map text_of (run as_is steps (new_chat_context true (pos 4) policy)).sent
    ≡ "这里需…" ∷ "调用工…" ∷ "abc…" ∷ []
unfolding run new_chat_context trim shortened render_event_text text_of render_event kind
texts-steps = refl

length-run_example : length (run as_is steps (new_chat_context true (pos 4) policy)).queue ≤ 256
length-run_example = length-run as_is steps true (pos 4) policy

deliver-Extends_example :
    Extends (select is_critical (run as_is steps (new_chat_context true (pos 4) policy)).queue) (
      select is_critical
        (deliver
          (event "8" question)
          (run as_is steps (new_chat_context true (pos 4) policy))).queue)
deliver-Extends_example =
    deliver-Extends (event "8" question) (run as_is steps (new_chat_context true (pos 4) policy))

count_sent-run_example :
    count_sent false (run as_is steps (new_chat_context true (pos 4) policy)).sent ≤ 2
unfolding progress_quota_limit
count_sent-run_example = count_sent-run as_is steps true (pos 4) policy false 1 refl

has_repeat-run_example :
    has_repeat (map sent_key (run as_is steps (new_chat_context true (pos 4) policy)).sent) ≡ false
has_repeat-run_example = has_repeat-run as_is steps true (pos 4) policy
