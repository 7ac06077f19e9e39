-- ===== src/Proxy/Convert/Translate.antt =====
-- `responses_request_to_chat_payload`, step by step in its order. `to_string` prints a value that
-- is no string (`Display`), `schema_text` is `serde_json::to_string`.
use Prim.Native.String.{◌++◌ as ◌+++◌}
use jesterky.Prelude.{
  ltb, Bool, true, false, Option, none, some, List, [], ◌∷◌, ◌++◌, String, map, if◌then◌else◌,
  Result, ok, err, ◌>>=◌,
}
use jesterky.Prelude.Text.{is_blank, trim}
use jesterky.Json.{Value, Number, pos_int, neg_int, float, bool, string}
use jesterky.Proxy.Sse.Defs.{json}
use jesterky.Proxy.Convert.Request.{
  ChatRole, ResponsesContent, parts, ContentPart, plain, input_text, output_text, chat_role,
  InputItem, reasoning_or_trace, Tool, Tools, builtin_name, TextFormat, json_object, json_schema,
  Request, ConvertError, serialization, join_name,
}
use jesterky.Proxy.Convert.Chat.{
  ChatMessage, text_message, assistant_tool_call, tool_result, ChatTool, ChatPayload, new_payload,
  into_value,
}

abbrev part_text : ContentPart → String
part_text (plain s) = s
part_text (input_text s) = s
part_text (output_text s) = s

abbrev parts_text : List ContentPart → String
parts_text [] = ""
parts_text (part ∷ rest) = part_text part +++ parts_text rest

unfoldable pub text_from_content : ResponsesContent → String
text_from_content (ResponsesContent.text s) = s
text_from_content (parts ps) = parts_text ps

abbrev instruction_messages : Option String → List ChatMessage
instruction_messages none = []
instruction_messages (some instructions) =
    if is_blank (trim instructions) then [] else text_message ChatRole.system instructions ∷ []

abbrev output_text_of : (Value → String) → Value → String
output_text_of to_string (string s) = s
output_text_of to_string v = to_string v

-- One round of the loop over the input.
unfoldable pub item_messages : (Value → String) → InputItem → List ChatMessage
unfolding text_message text_from_content chat_role assistant_tool_call tool_result
item_messages to_string (InputItem.text s) = text_message ChatRole.user s ∷ []
item_messages to_string (InputItem.message role content) =
    text_message (chat_role role) (text_from_content content) ∷ []
item_messages to_string (InputItem.function_call call_id name arguments) =
    assistant_tool_call call_id name arguments ∷ []
item_messages to_string (InputItem.function_call_output call_id output) =
    tool_result call_id (output_text_of to_string output) ∷ []
item_messages to_string reasoning_or_trace = []

unfoldable pub input_messages : (Value → String) → List InputItem → List ChatMessage
unfolding item_messages
input_messages to_string [] = []
input_messages to_string (item ∷ items) =
    item_messages to_string item ++ input_messages to_string items

pub record ToolTranslation : Type 0 where
  pub tools : List ChatTool
  pub omitted_custom_names : List String

abbrev allowed_strict : Bool → Option Value → Option Value
allowed_strict true strict = strict
allowed_strict false strict = none

-- `format!("{name}__jns__{}", tool.function.name)`
abbrev pub qualified : String → ChatTool → ChatTool
qualified ns t = record t { name = join_name (some ns) t.name }

abbrev add_tools : ToolTranslation → ToolTranslation → ToolTranslation
add_tools a b = record {
  tools = a.tools ++ b.tools;
  omitted_custom_names = a.omitted_custom_names ++ b.omitted_custom_names;
}

unfoldable mutual
  unfolding builtin_name join_name

  pub chat_tool : Bool → Tool → ToolTranslation
  chat_tool supports (Tool.function name spec) = record {
    tools =
        record {
          kind = "function";
          name = name;
          spec = record spec { strict = allowed_strict supports spec.strict };
        }
        ∷ [];
    omitted_custom_names = [];
  }
  chat_tool supports (Tool.custom name) = record { tools = []; omitted_custom_names = name ∷ [] }
  chat_tool supports (Tool.namespace name ts) =
      let nested = chat_tools supports ts in
      record {
        tools = map (qualified name) nested.tools;
        omitted_custom_names = nested.omitted_custom_names;
      }
  chat_tool supports (Tool.builtin kind) = record {
    tools = [];
    omitted_custom_names = builtin_name kind ∷ [];
  }

  pub chat_tools : Bool → Tools → ToolTranslation
  chat_tools supports Tools.nil = record { tools = []; omitted_custom_names = [] }
  chat_tools supports (Tools.cons t ts) = add_tools (chat_tool supports t) (chat_tools supports ts)

-- `names.join(", ")`
abbrev join_commas : List String → String
join_commas [] = ""
join_commas (s ∷ []) = s
join_commas (s ∷ s' ∷ rest) = s +++ (", " +++ join_commas (s' ∷ rest))

abbrev omitted_messages : List String → List ChatMessage
omitted_messages [] = []
omitted_messages (name ∷ names) =
    text_message ChatRole.system (
      "These Responses custom tools are unavailable through the chat/completions provider route: "
      +++ (join_commas (name ∷ names) +++ "."))
    ∷ []

abbrev pub option_or {ℓ} : {A : Type ℓ} → Option A → Option A → Option A
option_or none b = b
option_or (some a) b = some a

-- `n > 0`
abbrev pub is_positive : Number → Bool
is_positive (pos_int n) = ltb 0 n
is_positive (neg_int n) = false
is_positive (float x) = false

abbrev pub positive : Option Number → Option Number
positive none = none
positive (some n) = if is_positive n then some n else none

abbrev strict_member : Option Bool → List (String × Value)
strict_member none = []
strict_member (some b) = ("strict", bool b) ∷ []

abbrev pub object_format : Value
unfolding json
object_format = json (("type", string "json_object") ∷ [])

abbrev schema_format : String → Value → Option Bool → Value
unfolding json
schema_format name schema strict = json (
    ("type", string "json_schema")
    ∷ ("json_schema", json (("name", string name) ∷ ("schema", schema) ∷ strict_member strict))
    ∷ [])

abbrev schema_prompt : String
schema_prompt =
    "You MUST reply with a single JSON object conforming exactly to this JSON Schema (no prose, no markdown):\n"

abbrev pub with_schema_text : ChatPayload → Result String String → Result ConvertError ChatPayload
with_schema_text p (err e) = err (serialization "response schema" e)
with_schema_text p (ok text) = ok (record p {
  response_format = some object_format;
  messages = text_message ChatRole.system (schema_prompt +++ text) ∷ p.messages;
})

unfoldable pub set_format :
    (Value → Result String String)
    → Bool
    → Option (Option TextFormat)
    → ChatPayload
    → Result ConvertError ChatPayload
unfolding text_message json
set_format schema_text supports none p = ok p
set_format schema_text supports (some none) p = ok p
set_format schema_text supports (some (some TextFormat.text)) p = ok p
set_format schema_text supports (some (some json_object)) p =
    ok (record p { response_format = some object_format })
set_format schema_text true (some (some (json_schema name schema strict))) p =
    ok (record p { response_format = some (schema_format name schema strict) })
set_format schema_text false (some (some (json_schema name schema strict))) p =
    with_schema_text p (schema_text schema)

-- The payload before the tools and the format.
unfoldable pub base_payload : (Value → String) → Request → String → List String → ChatPayload
unfolding new_payload input_messages text_message
base_payload to_string request upstream_model omitted =
    let settings = request.settings in
    record (new_payload upstream_model) {
      messages =
          instruction_messages settings.instructions
          ++ (input_messages to_string request.input ++ omitted_messages omitted);
      reasoning = settings.reasoning;
      max_tokens = positive (option_or settings.max_output_tokens settings.max_tokens);
      temperature = settings.temperature;
    }

abbrev pub with_tools :
    (Value → Result String String)
    → Bool
    → Request
    → ChatPayload
    → List ChatTool
    → Result ConvertError ChatPayload
with_tools schema_text supports request p [] =
    set_format schema_text supports request.settings.format p
with_tools schema_text supports request p (t ∷ ts) = ok (record p {
  tools = some (t ∷ ts);
  tool_choice = request.settings.tool_choice;
  parallel_tool_calls = request.settings.parallel_tool_calls;
})

-- All of the translation but the last serialisation.
unfoldable pub chat_payload :
    (Value → String)
    → (Value → Result String String)
    → Request
    → String
    → Bool
    → Result ConvertError ChatPayload
unfolding base_payload set_format chat_tools
chat_payload to_string schema_text request upstream_model supports =
    let translated = chat_tools supports request.tools in
    with_tools schema_text supports request
      (base_payload to_string request upstream_model translated.omitted_custom_names)
      translated.tools

unfoldable pub responses_request_to_chat_payload :
    (Value → String)
    → (Value → Result String String)
    → Request
    → String
    → Bool
    → Result ConvertError Value
unfolding chat_payload into_value
responses_request_to_chat_payload to_string schema_text request upstream_model supports = do
  chat ← chat_payload to_string schema_text request upstream_model supports
  into_value chat
