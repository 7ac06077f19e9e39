-- ===== src/Proxy/Sse/Reply.antt =====
-- `build_events_validated` of sse.rs, event by event, and the final response. The clock is an
-- argument, and `none` is the panic of `choices[0]` without choices.
use Prim.Native.String.{◌++◌ as ◌+++◌}
use jesterky.Prelude.{
  ℕ, ◌+◌, Bool, not, ◌||◌, Option, none, some, List, [], ◌∷◌, String, str_eq, if◌then◌else◌, Result,
  err, Dict, is_empty, unwrap_or, ok_or,
}
use jesterky.Prelude.Text.{is_blank, split_once, decimal}
use jesterky.Json.{Value, null, string, array_of}
use jesterky.Json.Object.{value_get}
use jesterky.Proxy.Sse.Defs.{
  SseEvent, SseError, ChatToolCall, ChatMessage, ChatUsage, ChatResponse, primary_message, json,
  index, usage_json, Builder, push, finish_item, missing_completed_response,
}

-- What the whole reply shares.
pub record Reply : Type 0 where
  pub model : String
  pub rid : String
  pub msg_id : String
  pub created : ℕ
  pub usage : ChatUsage

unfoldable pub resp_obj : Reply → String → List Value → Value
unfolding json usage_json
resp_obj r status output = json (
    ("id", string r.rid)
    ∷ ("object", string "response")
    ∷ ("created_at", index r.created)
    ∷ ("model", string r.model)
    ∷ ("status", string status)
    ∷ ("output", array_of output)
    ∷ ("usage", if str_eq status "completed" then usage_json r.usage else null)
    ∷ ("metadata", json [])
    ∷ [])

unfoldable pub text_part : String → Value
unfolding json
text_part text =
    json
      (("type", string "output_text") ∷ ("text", string text) ∷ ("annotations", array_of []) ∷ [])

unfoldable pub message_item : String → String → List Value → Value
unfolding json
message_item msg_id status content = json (
    ("id", string msg_id)
    ∷ ("type", string "message")
    ∷ ("status", string status)
    ∷ ("role", string "assistant")
    ∷ ("content", array_of content)
    ∷ [])

-- The members that the events inside a message item share.
abbrev pub in_message : String → ℕ → Dict Value → Dict Value
in_message msg_id i rest =
    ("item_id", string msg_id) ∷ ("output_index", index i) ∷ ("content_index", index 0) ∷ rest

abbrev pub item_event : ℕ → Value → Dict Value
item_event i item = ("output_index", index i) ∷ ("item", item) ∷ []

unfoldable pub push_delta : String → String → Builder → Builder
unfolding push
push_delta msg_id text b =
    if is_blank text
    then b
    else push "response.output_text.delta"
        (in_message msg_id b.output_index (("delta", string text) ∷ [])) b

-- The block under `if emit_message`.
unfoldable pub push_message : String → String → Builder → Builder
unfolding push push_delta finish_item message_item text_part
push_message msg_id text b0 =
    let i = b0.output_index in
    let item_done = message_item msg_id "completed" (text_part text ∷ []) in
    let b1 =
      push "response.output_item.added" (item_event i (message_item msg_id "in_progress" [])) b0 in
    let b2 =
      push "response.content_part.added" (in_message msg_id i (("part", text_part "") ∷ [])) b1 in
    let b3 = push_delta msg_id text b2 in
    let b4 =
      push "response.output_text.done" (in_message msg_id i (("text", string text) ∷ [])) b3 in
    let b5 =
      push "response.content_part.done" (in_message msg_id i (("part", text_part text) ∷ [])) b4 in
    let b6 = push "response.output_item.done" (item_event i item_done) b5 in
    finish_item item_done b6

-- `"__jns__"`, which joins a namespace and the name of a tool.
abbrev pub name_joint : String
name_joint = "__jns__"

abbrev pub split_or : String → Option (String × String) → Option String × String
split_or full_name none = (none, full_name)
split_or full_name (some (ns, name)) = (some ns, name)

unfoldable pub split_name : String → Option String × String
unfolding split_once
split_name full_name = split_or full_name (split_once name_joint full_name)

abbrev pub optional : Option String → Value
optional none = null
optional (some s) = string s

unfoldable pub call_item : String → String → String → Option String → String → String → Value
unfolding json
call_item fc_id status call_id namespace name arguments = json (
    ("id", string fc_id)
    ∷ ("type", string "function_call")
    ∷ ("status", string status)
    ∷ ("call_id", string call_id)
    ∷ ("name", string name)
    ∷ ("namespace", optional namespace)
    ∷ ("arguments", string arguments)
    ∷ [])

-- One round of the loop over the tool calls.
unfoldable pub push_call : String → ℕ → ChatToolCall → Builder → Builder
unfolding push finish_item call_item split_name
push_call msg_id i call b0 =
    let (namespace, name) = split_name call.name in
    let fc_id = msg_id +++ ("_fc" +++ decimal i) in
    let k = b0.output_index in
    let item_done = call_item fc_id "completed" call.id namespace name call.arguments in
    let b1 =
      push "response.output_item.added"
        (item_event k (call_item fc_id "in_progress" call.id namespace name "")) b0 in
    let b2 =
      push "response.function_call_arguments.delta"
        (("item_id", string fc_id)
          ∷ ("output_index", index k)
          ∷ ("delta", string call.arguments)
          ∷ [])
        b1 in
    let b3 =
      push "response.function_call_arguments.done"
        (("item_id", string fc_id)
          ∷ ("output_index", index k)
          ∷ ("arguments", string call.arguments)
          ∷ [])
        b2 in
    let b4 = push "response.output_item.done" (item_event k item_done) b3 in
    finish_item item_done b4

unfoldable pub push_calls : String → ℕ → List ChatToolCall → Builder → Builder
unfolding push_call
push_calls msg_id i [] b = b
push_calls msg_id i (call ∷ calls) b = push_calls msg_id (i + 1) calls (push_call msg_id i call b)

abbrev pub emits_message : String → List ChatToolCall → Bool
emits_message text tool_calls = is_empty tool_calls || not (is_blank text)

abbrev pub start_builder : Builder
start_builder = record { seq = 0; events = []; output = []; output_index = 0 }

unfoldable pub push_start : Reply → Builder → Builder
unfolding push resp_obj
push_start r b =
    push "response.in_progress" (("response", resp_obj r "in_progress" []) ∷ [])
      (push "response.created" (("response", resp_obj r "in_progress" []) ∷ []) b)

-- The output items, in order.
unfoldable pub push_items : Reply → String → List ChatToolCall → Builder → Builder
unfolding push_calls push_message
push_items r text tool_calls b =
    push_calls r.msg_id 0 tool_calls
      (if emits_message text tool_calls then push_message r.msg_id text b else b)

unfoldable pub push_completed : Reply → Builder → Builder
unfolding push resp_obj
push_completed r b =
    push "response.completed" (("response", resp_obj r "completed" b.output) ∷ []) b

abbrev pub reply_events : Reply → ChatMessage → List SseEvent
unfolding push_items push_start push_completed
reply_events r message =
    (push_completed r (
      push_items r (unwrap_or message.text "") message.tool_calls
        (push_start r start_builder))).events

abbrev pub events_of : Reply → Option ChatMessage → Option (List SseEvent)
events_of r none = none
events_of r (some message) = some (reply_events r message)

abbrev pub reply_of : ℕ → ChatResponse → String → String → String → Reply
reply_of created response model rid msg_id = record {
  model = model;
  rid = rid;
  msg_id = msg_id;
  created = created;
  usage = response.usage;
}

unfoldable pub build_events_validated :
    ℕ → ChatResponse → String → String → String → Option (List SseEvent)
unfolding primary_message push_items push_start push_completed
build_events_validated created response model rid msg_id =
    events_of (reply_of created response model rid msg_id) (primary_message response)

abbrev last_of : List SseEvent → Option SseEvent
last_of [] = none
last_of (e ∷ []) = some e
last_of (e ∷ e' ∷ es) = last_of (e' ∷ es)

-- `data.get("response")` of the last event
abbrev response_of : Option SseEvent → Result SseError Value
response_of none = err missing_completed_response
response_of (some e) = ok_or (value_get "response" e.content) missing_completed_response

abbrev final_of : Option (List SseEvent) → Option (Result SseError Value)
final_of none = none
final_of (some events) = some (response_of (last_of events))

unfoldable pub final_response_object :
    ℕ → ChatResponse → String → String → String → Option (Result SseError Value)
unfolding build_events_validated
final_response_object created response model rid msg_id =
    final_of (build_events_validated created response model rid msg_id)

-- `SseEvent::frame`, where `to_string` is serde's.
unfoldable pub frame : (Value → String) → SseEvent → String
frame to_string e =
    "event: " +++ (e.event_type +++ ("\ndata: " +++ (to_string e.content +++ "\n\n")))
