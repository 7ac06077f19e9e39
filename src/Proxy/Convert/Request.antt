-- ===== src/Proxy/Convert/Request.antt =====
-- The request as serde reads it (`Raw..`), and as the translation takes it. An `i64` is a `Number`.
use Prim.Native.String.{◌++◌ as ◌+++◌}
use jesterky.Prelude.{
  ◌≡◌, refl, false, Bool, true, Option, none, some, List, String, map, if◌then◌else◌, Result, ok,
  err, unwrap_or, is_some,
}
use jesterky.Prelude.Text.{is_blank, trim}
use jesterky.F64.{F64}
use jesterky.Json.{Value, Number, null, bool, number, string, array, object}
use jesterky.Json.Object.{value_get}
use jesterky.Proxy.Sse.Reply.{name_joint}

-- Its one constructor in the source is the test of `deserialize`.
pub record NonEmptyString : Type 0 where
  pub into_inner : String
  pub filled : is_blank (trim into_inner) ≡ false

abbrev pub judged :
    (value : String) (blank : Bool) → is_blank (trim value) ≡ blank → Result String NonEmptyString
judged value true e = err "must be a non-empty string"
judged value false e = ok (record { into_inner = value; filled = e })

-- `NonEmptyString::deserialize` of a text.
unfoldable pub non_empty : String → Result String NonEmptyString
non_empty value = judged value (is_blank (trim value)) refl

pub data ResponsesRole : Type 0 where
  developer system user assistant : ResponsesRole

pub data ChatRole : Type 0 where
  system user assistant tool : ChatRole

unfoldable pub chat_role : ResponsesRole → ChatRole
chat_role developer = ChatRole.system
chat_role ResponsesRole.system = ChatRole.system
chat_role ResponsesRole.user = ChatRole.user
chat_role ResponsesRole.assistant = ChatRole.assistant

pub data ContentPart : Type 0 where
  plain input_text output_text : String → ContentPart

pub data ResponsesContent : Type 0 where
  text : String → ResponsesContent
  parts : List ContentPart → ResponsesContent

pub data TypedItem : Type 0 where
  message : ResponsesRole → ResponsesContent → TypedItem
  -- call_id, name, namespace, arguments
  function_call : NonEmptyString → NonEmptyString → Option String → NonEmptyString → TypedItem
  function_call_output : NonEmptyString → Value → TypedItem
  reasoning reasoning_summary computer_call computer_call_output : TypedItem

pub data RawInputItem : Type 0 where
  text : String → RawInputItem
  typed : TypedItem → RawInputItem
  untyped_message : ResponsesRole → ResponsesContent → RawInputItem

abbrev typed_of : Result String TypedItem → Result String RawInputItem
typed_of (ok t) = ok (typed t)
typed_of (err e) = err e

abbrev untyped_of : Result String (ResponsesRole × ResponsesContent) → Result String RawInputItem
untyped_of (ok (role, content)) = ok (untyped_message role content)
untyped_of (err e) = err e

-- `RawResponsesInputItem::deserialize`, where serde reads the two derived types.
unfoldable pub raw_item :
    (Value → Result String TypedItem)
    → (Value → Result String (ResponsesRole × ResponsesContent))
    → Value
    → Result String RawInputItem
raw_item typed_from untyped_from (string s) = ok (RawInputItem.text s)
raw_item typed_from untyped_from (object m) =
    if is_some (value_get "type" (object m))
    then typed_of (typed_from (object m))
    else untyped_of (untyped_from (object m))
raw_item typed_from untyped_from null =
    err "Responses input item must be a string or object, got null"
raw_item typed_from untyped_from (bool b) =
    err "Responses input item must be a string or object, got boolean"
raw_item typed_from untyped_from (number n) =
    err "Responses input item must be a string or object, got number"
raw_item typed_from untyped_from (array vs) =
    err "Responses input item must be a string or object, got array"

pub data InputItem : Type 0 where
  text : String → InputItem
  message : ResponsesRole → ResponsesContent → InputItem
  -- call_id, name, arguments
  function_call : String → String → String → InputItem
  function_call_output : String → Value → InputItem
  reasoning_or_trace : InputItem

-- The one name of a tool in a namespace.
unfoldable pub join_name : Option String → String → String
join_name none name = name
join_name (some ns) name = ns +++ (name_joint +++ name)

unfoldable pub item_from_raw : RawInputItem → InputItem
unfolding join_name
item_from_raw (RawInputItem.text s) = InputItem.text s
item_from_raw (untyped_message role content) = InputItem.message role content
item_from_raw (typed (TypedItem.message role content)) = InputItem.message role content
item_from_raw (typed (TypedItem.function_call call_id name namespace arguments)) =
    InputItem.function_call call_id.into_inner (join_name namespace name.into_inner)
      arguments.into_inner
item_from_raw (typed (TypedItem.function_call_output call_id output)) =
    InputItem.function_call_output call_id.into_inner output
item_from_raw (typed reasoning) = reasoning_or_trace
item_from_raw (typed reasoning_summary) = reasoning_or_trace
item_from_raw (typed computer_call) = reasoning_or_trace
item_from_raw (typed computer_call_output) = reasoning_or_trace

pub data BuiltinKind : Type 0 where
  web_search file_search image_generation code_interpreter shell : BuiltinKind
  apply_patch skill computer_use_preview mcp tool_search : BuiltinKind

unfoldable pub builtin_name : BuiltinKind → String
builtin_name web_search = "web_search"
builtin_name file_search = "file_search"
builtin_name image_generation = "image_generation"
builtin_name code_interpreter = "code_interpreter"
builtin_name shell = "shell"
builtin_name apply_patch = "apply_patch"
builtin_name skill = "skill"
builtin_name computer_use_preview = "computer_use_preview"
builtin_name mcp = "mcp"
builtin_name tool_search = "tool_search"

-- What a function tool has besides its name.
pub record FunctionSpec : Type 0 where
  pub description : Option Value
  pub parameters : Value
  pub strict : Option Value

mutual
  pub data RawTool : Type 0 where
    function : NonEmptyString → FunctionSpec → RawTool
    custom : NonEmptyString → Option Value → RawTool
    namespace : NonEmptyString → Option Value → RawTools → RawTool
    builtin : BuiltinKind → RawTool

  -- `Option<Vec<RawResponsesTool>>`
  pub data RawTools : Type 0 where
    absent : RawTools
    nil : RawTools
    cons : RawTool → RawTools → RawTools

mutual
  pub data Tool : Type 0 where
    function : String → FunctionSpec → Tool
    custom : String → Tool
    namespace : String → Tools → Tool
    builtin : BuiltinKind → Tool

  pub data Tools : Type 0 where
    nil : Tools
    cons : Tool → Tools → Tools

unfoldable mutual
  pub tool_from_raw : RawTool → Tool
  tool_from_raw (RawTool.function name spec) = Tool.function name.into_inner spec
  tool_from_raw (RawTool.custom name format) = Tool.custom name.into_inner
  tool_from_raw (RawTool.namespace name description tools) =
      Tool.namespace name.into_inner (tools_from_raw tools)
  tool_from_raw (RawTool.builtin kind) = Tool.builtin kind

  pub tools_from_raw : RawTools → Tools
  tools_from_raw absent = Tools.nil
  tools_from_raw RawTools.nil = Tools.nil
  tools_from_raw (RawTools.cons t ts) = Tools.cons (tool_from_raw t) (tools_from_raw ts)

pub data ToolChoice : Type 0 where
  auto never required : ToolChoice
  function : Value → ToolChoice

pub data TextFormat : Type 0 where
  text json_object : TextFormat
  json_schema : String → Value → Option Bool → TextFormat

-- `Reasoning { effort }`
pub record Reasoning : Type 0 where
  pub effort : Option String

-- What the raw request and the request have in common.
pub record Settings : Type 0 where
  pub instructions : Option String
  pub max_output_tokens : Option Number
  pub max_tokens : Option Number
  pub temperature : Option F64
  pub reasoning : Option Reasoning
  pub stream : Option Bool
  pub tool_choice : Option ToolChoice
  pub parallel_tool_calls : Option Bool
  -- `text`, and its `format`
  pub format : Option (Option TextFormat)

pub record RawRequest : Type 0 where
  pub model : NonEmptyString
  pub input : List RawInputItem
  pub tools : RawTools
  pub settings : Settings

pub record Request : Type 0 where
  pub model : String
  pub input : List InputItem
  pub tools : Tools
  pub settings : Settings

unfoldable pub request_from : RawRequest → Request
unfolding item_from_raw tools_from_raw
request_from raw = record {
  model = raw.model.into_inner;
  input = map item_from_raw raw.input;
  tools = tools_from_raw raw.tools;
  settings = raw.settings;
}

pub data ConvertError : Type 0 where
  invalid_request : String → ConvertError
  serialization : String → String → ConvertError

abbrev request_of : Result String RawRequest → Result ConvertError Request
request_of (ok raw) = ok (request_from raw)
request_of (err detail) = err (invalid_request detail)

-- `ResponsesRequest::from_value`, where `parse` is serde's.
unfoldable pub request_from_value :
    (Value → Result String RawRequest) → Value → Result ConvertError Request
unfolding request_from
request_from_value parse value = request_of (parse value)

-- `self.stream != Some(false)`
unfoldable pub stream_enabled : Request → Bool
stream_enabled request = unwrap_or request.settings.stream true
