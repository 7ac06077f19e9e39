-- ===== src/Proxy/Sse/Defs.antt =====
-- A chat reply, the events of a Responses stream, and how they are numbered. A value of serde's
-- `Number` stands for an `i64`.
use jesterky.Prelude.{
  ℕ, ◌+◌, ◌%◌, ◌^◌, Option, none, some, List, [], ◌∷◌, ◌++◌, String, if◌then◌else◌, Result, ok, err,
  Dict, is_empty,
}
use jesterky.Json.{Value, Members, string, number, object, Number, pos_int, empty}
use jesterky.Json.Object.{put, of_dict, entries}

pub record SseEvent : Type 0 where
  pub event_type : String
  pub content : Value

pub data SseError : Type 0 where
  schema : String → SseError
  no_choices : SseError
  missing_completed_response : SseError

pub record ChatToolCall : Type 0 where
  pub id : String
  pub name : String
  pub arguments : String

pub record ChatMessage : Type 0 where
  pub text : Option String
  pub tool_calls : List ChatToolCall

pub record ChatUsage : Type 0 where
  pub prompt_tokens : Number
  pub completion_tokens : Number
  pub total_tokens : Number

pub record ChatResponse : Type 0 where
  pub choices : List ChatMessage
  pub usage : ChatUsage

-- `ChatResponse::from_value`, where `parse` is serde's.
abbrev nonempty : Result String ChatResponse → Result SseError ChatResponse
nonempty (err e) = err (schema e)
nonempty (ok parsed) = if is_empty parsed.choices then err no_choices else ok parsed

unfoldable pub from_value :
    (Value → Result String ChatResponse) → Value → Result SseError ChatResponse
from_value parse value = nonempty (parse value)

abbrev pub first {ℓ} : {A : Type ℓ} → List A → Option A
first [] = none
first (x ∷ xs) = some x

-- `&self.choices[0].message`
unfoldable pub primary_message : ChatResponse → Option ChatMessage
primary_message r = first r.choices

-- `json!({..})`
unfoldable pub json : Dict Value → Value
unfolding of_dict
json d = object (of_dict d)

abbrev pub index : ℕ → Value
index n = number (pos_int n)

unfoldable pub usage_json : ChatUsage → Value
unfolding json
usage_json u = json (
    ("input_tokens", number u.prompt_tokens)
    ∷ ("output_tokens", number u.completion_tokens)
    ∷ ("total_tokens", number u.total_tokens)
    ∷ [])

unfoldable pub put_all : Dict Value → Members → Members
put_all [] m = m
put_all ((k, v) ∷ d) m = put_all d (put k v m)

abbrev members_of : Value → Dict Value
members_of (object m) = entries m
members_of _ = []

unfoldable pub merge_type : String → Value → Value
unfolding put_all put
merge_type event_type content =
    object (put_all (members_of content) (put "type" (string event_type) empty))

-- The events so far, the next sequence number, and the items with the next index: the state that
-- the closures `nxt` and `push` and the two loops share.
pub record Builder : Type 0 where
  pub seq : ℕ
  pub events : List SseEvent
  pub output : List Value
  pub output_index : ℕ

unfoldable pub event_of : String → Dict Value → ℕ → SseEvent
unfolding merge_type json
event_of event_type rest seq = record {
  event_type = event_type;
  content = merge_type event_type (json (("sequence_number", index seq) ∷ rest));
}

-- `push(event_type, json!({"sequence_number": nxt(), ..}))`
unfoldable pub push : String → Dict Value → Builder → Builder
unfolding event_of
push event_type rest b = record b {
  seq = (b.seq + 1) % 2 ^ 64;
  events = b.events ++ event_of event_type rest b.seq ∷ [];
}

-- `output.push(item_done); output_index += 1;`
unfoldable pub finish_item : Value → Builder → Builder
finish_item item_done b = record b {
  output = b.output ++ item_done ∷ [];
  output_index = (b.output_index + 1) % 2 ^ 64;
}
