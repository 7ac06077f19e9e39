-- ===== src/Proxy/Sse/Items.antt =====
-- The items that the client of a reply holds at the end.
use jesterky.Prelude.{
  some_inj, Option-cases, ◌∙◌, ℕ, ◌+◌, ◌%◌, ◌^◌, ◌≡◌, refl, sym, ◌||◌, not, some, List, [], ◌∷◌,
  ◌++◌, String, if◌then◌else◌, length, arith, ap, is_empty, Bool-cases, inl, inr, length-append,
  unwrap_or,
}
use mathlib.Core.List.{append-nil, append_assoc}
use Prim.Native.String.{◌++◌ as ◌+++◌}
use jesterky.Prelude.Text.{is_blank, decimal}
use jesterky.Json.{Value, string, array_of}
use jesterky.Json.Object.{at_key}
use jesterky.Proxy.Sse.Defs.{
  ChatResponse, primary_message, SseEvent, Builder, ChatToolCall, ChatMessage, push, event_of,
  index, finish_item,
}
use jesterky.Proxy.Sse.Reply.{
  build_events_validated, reply_events, events_of, reply_of, Reply, item_event, in_message,
  message_item, text_part, call_item, split_name, push_delta, push_message, push_call, push_calls,
  push_items, push_start, push_completed, resp_obj, emits_message, start_builder,
}
use jesterky.Proxy.Sse.Stream.{
  AtRest, finish-HasRead, opens, closes, part_added, part_done, text_done, delta, arguments_event,
  arguments_done, delta-output,
}
use jesterky.Proxy.Sse.Client.{idle, ended, client_step, client_reads, HasRead, push-HasRead}

finish-AtRest :
    (items : List Value) (i : ℕ) (item : Value) (b : Builder)
    → i ≡ length items % 2 ^ 64
    → HasRead b (idle (items ++ item ∷ []))
    → b.output ≡ items
    → b.output_index ≡ i
    → AtRest (finish_item item b) × ((finish_item item b).output ≡ items ++ item ∷ [])
unfolding finish_item
finish-AtRest items i item b counted h same at = (
  record {
    reads = rw same (finish-HasRead item b (idle (items ++ item ∷ [])) h);
    counted = rw (same, at) (omega (arith, counted, length-append items (item ∷ [])));
  },
  rw same,
)

unfoldable pub message_done : String → String → Value
unfolding message_item
message_done msg_id text = message_item msg_id "completed" (text_part text ∷ [])

-- A block of events adds its item to what the client holds.
abbrev Adds : Value → Builder → Builder → Type 0
Adds item b b' = AtRest b' × (b'.output ≡ b.output ++ item ∷ [])

push_message-Adds :
    (msg_id text : String) (b : Builder)
    → AtRest b
    → Adds (message_done msg_id text) b (push_message msg_id text b)
unfolding push_message message_done
push_message-Adds msg_id text b r =
    let i = b.output_index in
    let items = b.output in
    let b1 =
      push "response.output_item.added" (item_event i (message_item msg_id "in_progress" [])) b in
    let b2 =
      push "response.content_part.added" (in_message msg_id i (("part", text_part "") ∷ [])) b1 in
    let b3 = push_delta msg_id text b2 in
    let b4 =
      push "response.output_text.done" (in_message msg_id i (("text", string text) ∷ [])) b3 in
    let b5 =
      push "response.content_part.done" (in_message msg_id i (("part", text_part text) ∷ [])) b4 in
    let item = message_item msg_id "completed" (text_part text ∷ []) in
    let b6 = push "response.output_item.done" (item_event i item) b5 in
    let h1 = opens items i r.counted (message_item msg_id "in_progress" []) b r.reads in
    let h2 = part_added items i r.counted msg_id (text_part "") b1 h1 in
    let h3 = delta items i r.counted msg_id text b2 (unfold push in refl) h2 in
    let h4 = text_done items i r.counted msg_id (string text) b3 h3 in
    let h5 = part_done items i r.counted msg_id (text_part text) b4 h4 in
    let h6 = closes items i r.counted item b5 h5 in
    finish-AtRest items i item b6 r.counted h6 (unfold push in (delta-output msg_id text b2).0)
      (unfold push in (delta-output msg_id text b2).1)

unfoldable pub call_done : String → ℕ → ChatToolCall → Value
unfolding split_name
call_done msg_id i call =
    let (namespace, name) = split_name call.name in
    call_item (msg_id +++ ("_fc" +++ decimal i)) "completed" call.id namespace name call.arguments

push_call-Adds :
    (msg_id : String) (i : ℕ) (call : ChatToolCall) (b : Builder)
    → AtRest b
    → Adds (call_done msg_id i call) b (push_call msg_id i call b)
unfolding push_call call_done
push_call-Adds msg_id i call b r =
    let k = b.output_index in
    let items = b.output in
    let fc_id = msg_id +++ ("_fc" +++ decimal i) in
    let ns = (split_name call.name).0 in
    let name = (split_name call.name).1 in
    let opened = call_item fc_id "in_progress" call.id ns name "" in
    let item = call_item fc_id "completed" call.id ns name call.arguments in
    let b1 = push "response.output_item.added" (item_event k opened) b in
    let b2 =
      push "response.function_call_arguments.delta"
        (("item_id", string fc_id)
          ∷ ("output_index", index k)
          ∷ ("delta", string call.arguments)
          ∷ [])
        b1 in
    let b3 =
      push "response.function_call_arguments.done"
        (("item_id", string fc_id)
          ∷ ("output_index", index k)
          ∷ ("arguments", string call.arguments)
          ∷ [])
        b2 in
    let b4 = push "response.output_item.done" (item_event k item) b3 in
    let h1 = opens items k r.counted opened b r.reads in
    let h2 = arguments_event items k r.counted fc_id call.arguments b1 h1 in
    let h3 = arguments_done items k r.counted fc_id call.arguments b2 h2 in
    let h4 = closes items k r.counted item b3 h3 in
    finish-AtRest items k item b4 r.counted h4 (unfold push in refl) (unfold push in refl)

-- The items of the tool calls, from the `i`-th on.
unfoldable pub calls_done : String → ℕ → List ChatToolCall → List Value
unfolding call_done
calls_done msg_id i [] = []
calls_done msg_id i (call ∷ calls) = call_done msg_id i call ∷ calls_done msg_id (i + 1) calls

push_calls-AtRest :
    (msg_id : String) (i : ℕ) (calls : List ChatToolCall) (b : Builder)
    → AtRest b
    → AtRest (push_calls msg_id i calls b)
      × ((push_calls msg_id i calls b).output ≡ b.output ++ calls_done msg_id i calls)
unfolding push_calls calls_done
push_calls-AtRest msg_id i [] b r = (r, sym (append-nil b.output))
push_calls-AtRest msg_id i (call ∷ calls) b r =
    let (r', added) = push_call-Adds msg_id i call b r in
    let (r'', rest) = push_calls-AtRest msg_id (i + 1) calls (push_call msg_id i call b) r' in
    (
      r'',
      rest
          ∙ (ap (λ xs. xs ++ calls_done msg_id (i + 1) calls) added
              ∙ append_assoc b.output (call_done msg_id i call ∷ [])
                  (calls_done msg_id (i + 1) calls)),
    )

-- The items of a reply: its text, where it has one or no tool call, and its tool calls in order.
unfoldable pub reply_items : String → String → List ChatToolCall → List Value
unfolding calls_done message_done
reply_items msg_id text calls =
    (if is_empty calls || not (is_blank text) then message_done msg_id text ∷ [] else [])
    ++ calls_done msg_id 0 calls

push_items-AtRest :
    (r : Reply) (text : String) (calls : List ChatToolCall) (b : Builder)
    → AtRest b
    → b.output ≡ []
    → AtRest (push_items r text calls b)
      × ((push_items r text calls b).output ≡ reply_items r.msg_id text calls)
unfolding push_items reply_items
push_items-AtRest r text calls b h none_yet = elim (Bool-cases (emits_message text calls)) [
  | inl yes' ↦ rw yes' (
      let (h', added) = push_message-Adds r.msg_id text b h in
      let (h'', rest) = push_calls-AtRest r.msg_id 0 calls (push_message r.msg_id text b) h' in
      (
        h'',
        rest
            ∙ ap (λ xs. xs ++ calls_done r.msg_id 0 calls)
                (added ∙ ap (λ xs. xs ++ message_done r.msg_id text ∷ []) none_yet),
      ))
  | inr no' ↦ rw no' (
      let (h', rest) = push_calls-AtRest r.msg_id 0 calls b h in
      (h', rest ∙ ap (λ xs. xs ++ calls_done r.msg_id 0 calls) none_yet))
]

start-AtRest :
    (r : Reply) → AtRest (push_start r start_builder) × ((push_start r start_builder).output ≡ [])
unfolding push_start push client_reads event_of
start-AtRest r = (record { reads = refl; counted = refl }, refl)

completes :
    (r : Reply) (b : Builder)
    → AtRest b
    → HasRead (push_completed r b) (ended b.output (resp_obj r "completed" b.output))
unfolding push_completed client_step event_of resp_obj
completes r b h =
    push-HasRead "response.completed" (("response", resp_obj r "completed" b.output) ∷ []) b
      (idle b.output) (ended b.output (resp_obj r "completed" b.output)) h.reads refl

reads_reply :
    (r : Reply) (text : String) (calls : List ChatToolCall)
    → HasRead (push_completed r (push_items r text calls (push_start r start_builder))) (
        ended
          (reply_items r.msg_id text calls)
          (resp_obj r "completed" (reply_items r.msg_id text calls)))
reads_reply r text calls =
    let (s, none_yet) = start-AtRest r in
    let (h, items) = push_items-AtRest r text calls (push_start r start_builder) s none_yet in
    rw (← items) (completes r _ h)

-- A client that follows the protocol reads every stream of a reply to its end and drops nothing: it
-- closes the reply's text, where it has one or no tool call, and then its tool calls in their
-- order, and the completed response has just these items as its output.
pub stream_read :
    (created : ℕ) (response : ChatResponse) (model rid msg_id : String) (events : List SseEvent)
    → build_events_validated created response model rid msg_id ≡ some events
    → (message : ChatMessage) × (completed : Value) × (primary_message response ≡ some message)
      × (client_reads (some (idle [])) events
          ≡ some
              (ended (reply_items msg_id (unwrap_or message.text "") message.tool_calls) completed))
      × (at_key "output" completed
          ≡ array_of (reply_items msg_id (unwrap_or message.text "") message.tool_calls))
unfolding build_events_validated
stream_read created response model rid msg_id events h =
    elim (Option-cases (primary_message response)) [
      | inl missing ↦ absurd (ground (arith, missing, h))
      | inr (message, e) ↦
          let r = reply_of created response model rid msg_id in
          let text = unwrap_or message.text "" in
          let items = reply_items msg_id text message.tool_calls in
          let made : reply_events r message ≡ events = some_inj (ap (events_of r) (sym e) ∙ h) in
          (
            message,
            resp_obj r "completed" items,
            e,
            rw (← made) (reads_reply r text message.tool_calls),
            unfold resp_obj in refl,
          )
    ]
