-- ===== src/Proxy/Sse/Numbers.antt =====
-- The numbers and types that the events of a stream carry.
use text.Mathlib.Text.{is_lt}
use Prim.Native.String.{compare, ◌++◌ as ◌+++◌}
use jesterky.Prelude.{
  some_inj, ℕ, ◌+◌, ◌%◌, ◌^◌, ◌≡◌, refl, sym, ◌∙◌, none, some, List, [], ◌∷◌, ◌++◌, String, str_eq,
  eq_refl, length, length-append, Dict, lookup, arith, ap, Bool-cases, Option-cases, inl, inr,
}
use jesterky.Prelude.{unwrap_or}
use jesterky.Prelude.Text.{is_blank, decimal}
use jesterky.Json.{null, Value, Members, string, empty, member}
use jesterky.Json.Object.{
  at_key, get, put, insert_new, of_dict, entries, get-put, get-of_dict, lookup-entries,
}
use jesterky.Proxy.Sse.Defs.{
  SseEvent, Builder, push, event_of, index, put_all, finish_item, ChatToolCall, ChatResponse,
  primary_message,
}
use jesterky.Proxy.Sse.Reply.{
  push_delta, push_message, push_call, push_calls, push_items, push_start, push_completed,
  emits_message, start_builder, in_message, resp_obj, item_event, message_item, text_part,
  call_item, split_name, Reply, build_events_validated, reply_events, events_of, reply_of,
}

get-put_all_absent :
    (k : String) (d : Dict Value) (m : Members) → lookup k d ≡ none → get k (put_all d m) ≡ get k m
unfolding put_all
get-put_all_absent k [] m h = refl
get-put_all_absent k ((j, v) ∷ d) m h = elim (Bool-cases (str_eq j k)) [
  | inl same ↦ absurd (ground (arith, same, h))
  | inr other ↦
      get-put_all_absent k d (put j v m) (ground (arith, other, h))
      ∙ ground (arith, get-put j k v m, other)
]

-- A member that is inserted anew is the last one under its key.
get-put_all_new :
    (k : String) (v : Value) (d m : Members)
    → get k d ≡ none
    → get k (put_all (entries (insert_new k v d)) m) ≡ some v
unfolding put_all insert_new
get-put_all_new k v empty m h = ground (arith, get-put k k v m, eq_refl k)
get-put_all_new k v (member j w d) m h = elim (Bool-cases (is_lt (compare k j))) [
  | inl before ↦ rw before (
      get-put_all_absent k (entries (member j w d)) (put k v m)
        (lookup-entries k (member j w d) ∙ h)
      ∙ ground (arith, get-put k k v m, eq_refl k))
  | inr after ↦ rw after (get-put_all_new k v d (put j w m) (ground (arith, h)))
]

-- What an event has besides its number says neither its number nor its type.
abbrev pub IsPlain : Dict Value → Type 0
IsPlain rest = (lookup "sequence_number" rest ≡ none) × (lookup "type" rest ≡ none)

put-new : (k : String) (v : Value) (m : Members) → get k m ≡ none → put k v m ≡ insert_new k v m
unfolding put
put-new k v m h = rw h

event-number :
    (ty : String) (rest : Dict Value) (n : ℕ)
    → IsPlain rest
    → at_key "sequence_number" (event_of ty rest n).content ≡ index n
unfolding event_of
event-number ty rest n plain =
    let absent = get-of_dict "sequence_number" rest ∙ plain.0 in
    rw (put-new "sequence_number" (index n) (of_dict rest) absent) (
      ap (λ o. unwrap_or o null)
        (get-put_all_new "sequence_number" (index n) (of_dict rest)
          (member "type" (string ty) empty) absent))

event-type :
    (ty : String) (rest : Dict Value) (n : ℕ)
    → IsPlain rest
    → at_key "type" (event_of ty rest n).content ≡ string ty
unfolding event_of
event-type ty rest n plain =
    let whole = put "sequence_number" (index n) (of_dict rest) in
    let absent =
      lookup-entries "type" whole
      ∙ (get-put "sequence_number" "type" (index n) (of_dict rest)
          ∙ (get-of_dict "type" rest ∙ plain.1)) in
    ap (λ o. unwrap_or o null)
      (get-put_all_absent "type" (entries whole) (member "type" (string ty) empty) absent)

-- The events carry the numbers from `n` on, as a `u64` counts, and their own type.
abbrev pub IsNumbered : ℕ → List SseEvent → Type 0
IsNumbered n [] = Unit
IsNumbered n (e ∷ events) =
    (at_key "sequence_number" e.content ≡ index (n % 2 ^ 64))
    × (at_key "type" e.content ≡ string e.event_type)
    × IsNumbered (n + 1) events

IsNumbered-append :
    (n : ℕ) (es : List SseEvent) (e : SseEvent)
    → IsNumbered n es
    → at_key "sequence_number" e.content ≡ index ((n + length es) % 2 ^ 64)
    → at_key "type" e.content ≡ string e.event_type
    → IsNumbered n (es ++ e ∷ [])
IsNumbered-append n [] e h number type_ =
    (number ∙ ap (λ (m : ℕ). index (m % 2 ^ 64)) (omega arith), type_, tt)
IsNumbered-append n (e' ∷ es) e h number type_ = (
  h.0,
  h.1,
  IsNumbered-append (n + 1) es e h.2 (number ∙ ap (λ (m : ℕ). index (m % 2 ^ 64)) (omega arith))
      type_,
)

record Counts (b : Builder) : Type 0 where
  numbered : IsNumbered 0 b.events
  counted : b.seq ≡ length b.events % 2 ^ 64

event_of-type : (ty : String) (rest : Dict Value) (n : ℕ) → (event_of ty rest n).event_type ≡ ty
unfolding event_of
event_of-type ty rest n = refl

push-Counts :
    (ty : String) (rest : Dict Value) (b : Builder)
    → IsPlain rest
    → Counts b
    → Counts (push ty rest b)
unfolding push
push-Counts ty rest b plain c = record {
  numbered =
      IsNumbered-append 0 b.events (event_of ty rest b.seq) c.numbered
        (event-number ty rest b.seq plain ∙ ap (λ (m : ℕ). index m) (omega (arith, c.counted)))
        (event-type ty rest b.seq plain ∙ ap string (sym (event_of-type ty rest b.seq)));
  counted = omega (arith, c.counted, length-append b.events (event_of ty rest b.seq ∷ []));
}

finish-Counts : (item : Value) (b : Builder) → Counts b → Counts (finish_item item b)
unfolding finish_item
finish-Counts item b c = record { numbered = c.numbered; counted = c.counted }

delta-Counts : (msg_id text : String) (b : Builder) → Counts b → Counts (push_delta msg_id text b)
unfolding push_delta
delta-Counts msg_id text b c = elim (Bool-cases (is_blank text)) [
  | inl blank ↦ rw blank c
  | inr filled ↦ rw filled (
      push-Counts _ (in_message msg_id b.output_index (("delta", string text) ∷ [])) b (refl, refl)
        c)
]

push_message-Counts :
    (msg_id text : String) (b : Builder) → Counts b → Counts (push_message msg_id text b)
unfolding push_message
push_message-Counts msg_id text b c =
    let i = b.output_index in
    let item = message_item msg_id "completed" (text_part text ∷ []) in
    let opened = message_item msg_id "in_progress" [] in
    let in_item = in_message msg_id i in
    let h1 = push-Counts "response.output_item.added" (item_event i opened) b (refl, refl) c in
    let h2 =
      push-Counts "response.content_part.added" (in_item (("part", text_part "") ∷ [])) _
        (refl, refl) h1 in
    let h3 = delta-Counts msg_id text _ h2 in
    let h4 =
      push-Counts "response.output_text.done" (in_item (("text", string text) ∷ [])) _ (refl, refl)
        h3 in
    let h5 =
      push-Counts "response.content_part.done" (in_item (("part", text_part text) ∷ [])) _
        (refl, refl) h4 in
    finish-Counts item _
      (push-Counts "response.output_item.done" (item_event i item) _ (refl, refl) h5)

push_call-Counts :
    (msg_id : String) (i : ℕ) (call : ChatToolCall) (b : Builder)
    → Counts b
    → Counts (push_call msg_id i call b)
unfolding push_call
push_call-Counts msg_id i call b c =
    let k = b.output_index in
    let fc_id = msg_id +++ ("_fc" +++ decimal i) in
    let (ns, name) = split_name call.name in
    let item = call_item fc_id "completed" call.id ns name call.arguments in
    let opened = call_item fc_id "in_progress" call.id ns name "" in
    let said : String → Dict Value = λ key.
      ("item_id", string fc_id) ∷ ("output_index", index k) ∷ (key, string call.arguments) ∷ [] in
    let h1 = push-Counts "response.output_item.added" (item_event k opened) b (refl, refl) c in
    let h2 =
      push-Counts "response.function_call_arguments.delta" (said "delta") _ (refl, refl) h1 in
    let h3 =
      push-Counts "response.function_call_arguments.done" (said "arguments") _ (refl, refl) h2 in
    finish-Counts item _
      (push-Counts "response.output_item.done" (item_event k item) _ (refl, refl) h3)

push_calls-Counts :
    (msg_id : String) (i : ℕ) (calls : List ChatToolCall) (b : Builder)
    → Counts b
    → Counts (push_calls msg_id i calls b)
unfolding push_calls
push_calls-Counts msg_id i [] b c = c
push_calls-Counts msg_id i (call ∷ calls) b c =
    push_calls-Counts msg_id (i + 1) calls (push_call msg_id i call b)
      (push_call-Counts msg_id i call b c)

push_items-Counts :
    (r : Reply) (text : String) (calls : List ChatToolCall) (b : Builder)
    → Counts b
    → Counts (push_items r text calls b)
unfolding push_items
push_items-Counts r text calls b c = elim (Bool-cases (emits_message text calls)) [
  | inl some_text ↦
      rw some_text (push_calls-Counts r.msg_id 0 calls _ (push_message-Counts r.msg_id text b c))
  | inr no_text ↦ rw no_text (push_calls-Counts r.msg_id 0 calls b c)
]

push_start-Counts : (r : Reply) → Counts (push_start r start_builder)
unfolding push_start
push_start-Counts r =
    let started = ("response", resp_obj r "in_progress" []) ∷ [] in
    push-Counts "response.in_progress" started _ (refl, refl)
      (push-Counts "response.created" started start_builder (refl, refl)
        (record { numbered = tt; counted = refl }))

push_completed-Counts : (r : Reply) (b : Builder) → Counts b → Counts (push_completed r b)
unfolding push_completed
push_completed-Counts r b c =
    push-Counts "response.completed" (("response", resp_obj r "completed" b.output) ∷ []) b
      (refl, refl) c

-- The events of every stream carry the numbers 0, 1, 2 and so on, without a gap, as a `u64`
-- counts, and repeat their type inside.
pub stream-IsNumbered :
    (created : ℕ) (response : ChatResponse) (model rid msg_id : String) (events : List SseEvent)
    → build_events_validated created response model rid msg_id ≡ some events
    → IsNumbered 0 events
unfolding build_events_validated
stream-IsNumbered created response model rid msg_id events h =
    elim (Option-cases (primary_message response)) [
      | inl missing ↦ absurd (ground (arith, missing, h))
      | inr (message, e) ↦
          let r = reply_of created response model rid msg_id in
          let text = unwrap_or message.text "" in
          let made : reply_events r message ≡ events = some_inj (ap (events_of r) (sym e) ∙ h) in
          rw (← made)
            (push_completed-Counts r _
              (push_items-Counts r text message.tool_calls _ (push_start-Counts r))).numbered
    ]
