-- ===== src/Proxy/Convert/Chat.antt =====
-- The chat payload that convert.rs builds, and its JSON.
use jesterky.Prelude.{
  Bool, false, Option, none, some, List, [], ◌∷◌, ◌++◌, String, map, if◌then◌else◌, Dict, Result,
  ok,
}
use jesterky.F64.{F64, is_finite}
use jesterky.Json.{Value, Number, float, null, bool, number, string, array_of}
use jesterky.Proxy.Sse.Defs.{json}
use jesterky.Proxy.Convert.Request.{
  ChatRole, ToolChoice, auto, never, required, FunctionSpec, Reasoning, ConvertError,
}

pub record ChatToolCall : Type 0 where
  pub id : String
  pub kind : String
  pub name : String
  pub arguments : String

pub record ChatMessage : Type 0 where
  pub role : ChatRole
  pub content : Value
  pub tool_calls : Option (List ChatToolCall)
  pub tool_call_id : Option String

unfoldable pub text_message : ChatRole → String → ChatMessage
text_message role content = record {
  role = role;
  content = string content;
  tool_calls = none;
  tool_call_id = none;
}

unfoldable pub assistant_tool_call : String → String → String → ChatMessage
assistant_tool_call call_id name arguments = record {
  role = ChatRole.assistant;
  content = null;
  tool_calls =
      some (record { id = call_id; kind = "function"; name = name; arguments = arguments } ∷ []);
  tool_call_id = none;
}

unfoldable pub tool_result : String → String → ChatMessage
tool_result call_id content = record {
  role = ChatRole.tool;
  content = string content;
  tool_calls = none;
  tool_call_id = some call_id;
}

pub record ChatTool : Type 0 where
  pub kind : String
  pub name : String
  pub spec : FunctionSpec

pub record ChatPayload : Type 0 where
  pub model : String
  pub messages : List ChatMessage
  pub stream : Bool
  pub max_tokens : Option Number
  pub temperature : Option F64
  pub reasoning : Option Reasoning
  pub tools : Option (List ChatTool)
  pub tool_choice : Option ToolChoice
  pub parallel_tool_calls : Option Bool
  pub response_format : Option Value

unfoldable pub new_payload : String → ChatPayload
new_payload model = record {
  model = model;
  messages = [];
  stream = false;
  max_tokens = none;
  temperature = none;
  reasoning = none;
  tools = none;
  tool_choice = none;
  parallel_tool_calls = none;
  response_format = none;
}

abbrev role_name : ChatRole → String
role_name ChatRole.system = "system"
role_name ChatRole.user = "user"
role_name ChatRole.assistant = "assistant"
role_name ChatRole.tool = "tool"

-- A member under `skip_serializing_if = "Option::is_none"`.
abbrev when_some {ℓ} : {A : Type ℓ} → String → (A → Value) → Option A → Dict Value
when_some k f none = []
when_some k f (some a) = (k, f a) ∷ []

abbrev or_null {ℓ} : {A : Type ℓ} → (A → Value) → Option A → Value
or_null f none = null
or_null f (some a) = f a

unfoldable pub call_json : ChatToolCall → Value
unfolding json
call_json call = json (
    ("id", string call.id)
    ∷ ("type", string call.kind)
    ∷ ("function", json (("name", string call.name) ∷ ("arguments", string call.arguments) ∷ []))
    ∷ [])

unfoldable pub message_json : ChatMessage → Value
unfolding json call_json
message_json m = json (
    ("role", string (role_name m.role))
      ∷ ("content", m.content)
      ∷ when_some "tool_calls" (λ calls. array_of (map call_json calls)) m.tool_calls
    ++ when_some "tool_call_id" string m.tool_call_id)

unfoldable pub tool_json : ChatTool → Value
unfolding json
tool_json t = json (
    ("type", string t.kind)
    ∷ (
      "function",
      json (
          (("name", string t.name) ∷ ("parameters", t.spec.parameters) ∷ [])
          ++ when_some "description" (λ v. v) t.spec.description
          ++ when_some "strict" (λ v. v) t.spec.strict),
    )
    ∷ [])

abbrev choice_json : ToolChoice → Value
choice_json auto = string "auto"
choice_json never = string "none"
choice_json required = string "required"
choice_json (ToolChoice.function v) = v

-- A `Value` has no NaN and no infinity.
abbrev float_json : F64 → Value
float_json x = if is_finite x then number (float x) else null

abbrev reasoning_json : Reasoning → Value
unfolding json
reasoning_json r = json (("effort", or_null string r.effort) ∷ [])

-- `ChatPayload::into_value`: the derived `Serialize` of string keys does not fail.
unfoldable pub into_value : ChatPayload → Result ConvertError Value
unfolding json message_json tool_json
into_value p = ok (
    json (
      (("model", string p.model)
        ∷ ("messages", array_of (map message_json p.messages))
        ∷ ("stream", bool p.stream)
        ∷ ("reasoning", or_null reasoning_json p.reasoning)
        ∷ [])
      ++ when_some "max_tokens" number p.max_tokens
      ++ when_some "temperature" float_json p.temperature
      ++ when_some "tools" (λ tools. array_of (map tool_json tools)) p.tools
      ++ when_some "tool_choice" choice_json p.tool_choice
      ++ when_some "parallel_tool_calls" bool p.parallel_tool_calls
      ++ when_some "response_format" (λ v. v) p.response_format))
