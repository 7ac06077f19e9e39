-- ===== src/Tests/ProxyRuns.antt =====
-- Names and streams of the proxy, crates/jesterky-proxy/src/{route,convert,sse}.rs.
use jesterky.Prelude.{
  ◌≡◌, ◌≢◌, refl, true, Option, none, some, [], ◌∷◌, str_eq, ok, err, if◌then◌else◌, unwrap_or,
  List, ◌==◌,
}
use jesterky.Prelude.Text.{strip_prefix, split_once, trim, all_chars}
use jesterky.Json.{Value, pos_int, array_of}
use jesterky.Json.Object.{at_key}
use jesterky.Proxy.Route.Defs.{
  Env, present, not_present, ProviderRoute, ProviderKind, RouteError, resolve_route_checked,
}
use jesterky.Proxy.Route.Laws.{env_only_for-IsExplicit, IsExplicit, resolve-IsSafe, IsSafe}
use jesterky.Proxy.Convert.Names.{split_name-join_name}
use jesterky.Proxy.Convert.Request.{join_name}
use jesterky.Proxy.Sse.Defs.{ChatToolCall, ChatMessage, ChatResponse, SseEvent, primary_message}
use jesterky.Proxy.Sse.Reply.{split_name, build_events_validated}
use jesterky.Proxy.Sse.Items.{stream_read, reply_items}
use jesterky.Proxy.Sse.Numbers.{stream-IsNumbered, IsNumbered}
use jesterky.Proxy.Sse.Client.{client_reads, idle, ended}

abbrev bare : Env
bare key = not_present

abbrev set_up : Env
set_up key =
    if str_eq key "JESTERKY_PROXY_CHAT_URL"
    then present "https://models.example/v1/chat"
    else if str_eq key "JESTERKY_PROXY_KEY_ENV"
    then present "MODELS_KEY_1"
    else if str_eq key "JESTERKY_PROXY_UPSTREAM_MODEL"
    then present "large"
    else not_present

abbrev custom_route : ProviderRoute
custom_route = record {
  provider = ProviderKind.custom;
  chat_url = "https://models.example/v1/chat";
  api_key_env = "MODELS_KEY_1";
  upstream_model = "large";
  supports_json_schema = true;
}

route_resolves : resolve_route_checked set_up "custom/any" ≡ ok (some custom_route)
unfolding resolve_route_checked trim
route_resolves = refl

route_missing :
    resolve_route_checked bare "custom/any"
    ≡ err (RouteError.missing_config "JESTERKY_PROXY_CHAT_URL")
unfolding resolve_route_checked
route_missing = refl

routes_differ : resolve_route_checked set_up "custom/any" ≢ resolve_route_checked bare "custom/any"
routes_differ h = cc (h, route_resolves, route_missing)

env_only_for-IsExplicit_example : IsExplicit "custom/any"
env_only_for-IsExplicit_example = env_only_for-IsExplicit set_up bare "custom/any" routes_differ

resolve-IsSafe_example : IsSafe custom_route
resolve-IsSafe_example = resolve-IsSafe set_up "custom/any" custom_route route_resolves

no_joint : split_once "__jns" "github" ≡ none
unfolding split_once strip_prefix
no_joint = refl

split_name-join_name_example :
    split_name (join_name (some "github") "search__jns__all") ≡ (some "github", "search__jns__all")
split_name-join_name_example = split_name-join_name "github" "search__jns__all" no_joint

abbrev call : ChatToolCall
call = record { id = "call_1"; name = "github__jns__search"; arguments = "{}" }

split_call : split_name "github__jns__search" ≡ (some "github", "search")
unfolding split_name
split_call = refl

abbrev message : ChatMessage
message = record { text = some "Looking."; tool_calls = call ∷ [] }

abbrev response : ChatResponse
response = record {
  choices = message ∷ [];
  usage = record {
    prompt_tokens = pos_int 5;
    completion_tokens = pos_int 7;
    total_tokens = pos_int 12;
  };
}

abbrev events_or_none : Option (List SseEvent) → List SseEvent
events_or_none none = []
events_or_none (some events) = events

abbrev stream : List SseEvent
stream = events_or_none (build_events_validated 1000 response "deepseek" "resp_1" "msg_1")

stream_there : build_events_validated 1000 response "deepseek" "resp_1" "msg_1" ≡ some stream
unfolding build_events_validated
stream_there = refl

stream_read_example :
    (message : ChatMessage) × (completed : Value) × (primary_message response ≡ some message)
    × (client_reads (some (idle [])) stream
        ≡ some
            (ended (reply_items "msg_1" (unwrap_or message.text "") message.tool_calls) completed))
    × (at_key "output" completed
        ≡ array_of (reply_items "msg_1" (unwrap_or message.text "") message.tool_calls))
stream_read_example = stream_read 1000 response "deepseek" "resp_1" "msg_1" stream stream_there

stream-IsNumbered_example : IsNumbered 0 stream
stream-IsNumbered_example =
    stream-IsNumbered 1000 response "deepseek" "resp_1" "msg_1" stream stream_there

-- A newline is one character.
newline_code : all_chars (λ c. c == 10) "\n" ≡ true
newline_code = refl
