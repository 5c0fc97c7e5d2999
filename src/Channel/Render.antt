-- ===== src/Channel/Render.antt =====
-- apps/xira/internal/channelrunner/progress/render_event.go: the text of an event. Texts are lists of
-- code points, as Go's runes.
use Prim.Native.String as Native
use xira.Shared.{
  ℕ, zero, suc, String, Bool, not, ◌&&◌, ◌||◌, Option, none, some, ◌==◌, if◌then◌else◌, ltb, ◌-◌,
}
use xira.Shared.Int.{ℤ, pos, negsuc}
use xira.Shared.Strings.{trim, contains}
use xira.Channel.Events.{
  Event, Body, HumanRequested, agent_turn_started, agent_turn_completed, agent_turn_failed,
  agent_turn_canceled, human_requested, human_responded, assistant_status, tool_called, tool_result,
  assistant_final,
}

pub record Message : Type 0 where
  pub event_id : String
  pub kind : String
  pub text : String
  pub level : String

-- utf8.RuneCountInString
unfoldable pub rune_count : String → ℕ
rune_count Native.[] = 0
rune_count (Native.◌∷◌ c s) = suc (rune_count s)

unfoldable pub take_runes : ℕ → String → String
take_runes zero s = ""
take_runes (suc n) Native.[] = ""
take_runes (suc n) (Native.◌∷◌ c s) = Native.◌∷◌ c (take_runes n s)

-- `truncateRunes`, for a positive bound.
unfoldable pub truncate_runes : String → ℕ → String
unfolding rune_count take_runes
truncate_runes s max =
    if not (ltb max (rune_count s)) then s else Native.◌++◌ (take_runes (max - 1) s) "…"

-- `isChildEvent`
unfoldable pub is_child_event : Event → Bool
is_child_event e =
    not (e.parent_agent_turn_id == "") && not (e.parent_agent_turn_id == e.agent_turn_id)

unfoldable pub request_text : HumanRequested → Option (String × String)
request_text r =
    let question = trim r.question in
    if (r.responder_type == "owner" || r.delivery_status == "sent")
      || (not (r.request_id == "") && r.signal_kind == "human.request.created")
    then none
    else (if question == ""
        then some ("这里需要你确认后才能继续。", "run.waiting_human")
        else some (Native.◌++◌ "这里需要你确认后才能继续：" question, "run.waiting_human"))

unfoldable pub failure_text : (String → String) → String → String × String
failure_text to_lower error =
    if contains (to_lower error) "timeout"
    then ("任务超时，我会继续整理已获得的信息。", "agent.delegate.timeout")
    else ("任务没有成功完成，我会改用当前上下文继续处理。", "agent.delegate.failed")

-- `renderEventText`, by `strings.ToLower`; `none` is `ok` false.
unfoldable pub render_event_text : (String → String) → Body → Option (String × String)
unfolding request_text failure_text
render_event_text to_lower (agent_turn_failed k error) = some (failure_text to_lower error)
render_event_text to_lower (human_requested r) = request_text r
render_event_text to_lower (assistant_status text) =
    let t = trim text in if t == "" then none else some (t, "assistant.status")
render_event_text to_lower (tool_called name) =
    let t = trim name in if t == "" then none else some (Native.◌++◌ "调用工具：" t, "tool.called")
render_event_text to_lower (agent_turn_started k) = none
render_event_text to_lower (agent_turn_completed k s) = none
render_event_text to_lower (agent_turn_canceled k r) = none
render_event_text to_lower (human_responded r) = none
render_event_text to_lower (tool_result n) = none
render_event_text to_lower (assistant_final n) = none

-- The bound on the characters; none for a number that is not positive.
unfoldable pub shortened : ℤ → String → String
unfolding truncate_runes
shortened (pos zero) s = s
shortened (pos (suc n)) s = truncate_runes s (suc n)
shortened (negsuc n) s = s

unfoldable pub rendered : ℤ → Event → Option (String × String) → Option Message
unfolding shortened is_child_event
rendered max_chars e none = none
rendered max_chars e (some (text, kind)) = some (record {
  event_id = e.message_id;
  kind = kind;
  text = shortened max_chars (if is_child_event e then Native.◌++◌ "（子任务）" text else text);
  level = "info";
})

-- `RenderEvent`
unfoldable pub render_event : (String → String) → ℤ → Event → Option Message
unfolding rendered render_event_text
render_event to_lower max_chars e = rendered max_chars e (render_event_text to_lower e.body)
