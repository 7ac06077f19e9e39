-- ===== src/Proxy/Route/Defs.antt =====
-- From a model id to the endpoint of its provider. The environment is a function of the variable.
use Prim.Native.Char.{code}
use jesterky.Prelude.{
  ℕ, Bool, true, false, ◌&&◌, ◌||◌, ◌==◌, Option, none, some, String, str_eq, if◌then◌else◌, Result,
  ok, err, ◌>>=◌,
}
use jesterky.Prelude.Text.{
  is_blank, trim, strip_prefix, has_prefix, split_once, all_chars, is_ascii_uppercase,
  is_ascii_digit, is_ascii_alphanumeric, to_ascii_lowercase,
}

pub data ProviderKind : Type 0 where
  deep_seek gemini custom : ProviderKind

unfoldable pub as_str : ProviderKind → String
as_str deep_seek = "deepseek"
as_str gemini = "gemini"
as_str custom = "custom"

pub record ProviderRoute : Type 0 where
  pub provider : ProviderKind
  pub chat_url : String
  pub api_key_env : String
  pub upstream_model : String
  pub supports_json_schema : Bool

pub data RouteError : Type 0 where
  missing_config : String → RouteError
  invalid_config : String → String → RouteError

abbrev deepseek_chat_url : String
deepseek_chat_url = "https://api.deepseek.com/v1/chat/completions"

abbrev gemini_chat_url : String
gemini_chat_url = "https://generativelanguage.googleapis.com/v1beta/openai/chat/completions"

pub data ModelRouteId : Type 0 where
  native deep_seek custom unknown : ModelRouteId
  gemini open_router : String → ModelRouteId

abbrev is_native_char : ℕ → Bool
is_native_char c = is_ascii_alphanumeric c || c == b'.' || c == b'-'

abbrev is_native_suffix : Option String → Bool
is_native_suffix none = false
is_native_suffix (some String.[]) = true
is_native_suffix (some (String.◌∷◌ c s)) =
    (code c == b'.' || code c == b'-') && all_chars is_native_char s

unfoldable pub is_native_chatgpt_model : String → Bool
unfolding strip_prefix
is_native_chatgpt_model model = is_native_suffix (strip_prefix "gpt-5" model)

abbrev pub of_namespace : String → String → ModelRouteId
of_namespace namespace upstream =
    if is_blank upstream
    then unknown
    else if str_eq namespace "deepseek"
    then ModelRouteId.deep_seek
    else if str_eq namespace "gemini"
    then ModelRouteId.gemini upstream
    else if str_eq namespace "custom" || str_eq namespace "proxy"
    then ModelRouteId.custom
    else if str_eq namespace "openrouter"
    then open_router upstream
    else unknown

abbrev pub of_parts : String → Option (String × String) → ModelRouteId
of_parts model (some (namespace, upstream)) = of_namespace namespace upstream
of_parts model none = if has_prefix "gemini-" model then ModelRouteId.gemini model else unknown

-- `ModelRouteId::parse`
unfoldable pub parse : String → ModelRouteId
unfolding is_native_chatgpt_model split_once has_prefix
parse model =
    if is_native_chatgpt_model model
    then native
    else if str_eq model "deepseek"
    then ModelRouteId.deep_seek
    else of_parts model (split_once "/" model)

-- `std::env::var`
pub data EnvVar : Type 0 where
  present : String → EnvVar
  not_present not_unicode : EnvVar

abbrev pub Env : Type 0
Env = String → EnvVar

abbrev required : String → EnvVar → Result RouteError String
required key (present value) = if is_blank (trim value) then err (missing_config key) else ok value
required key not_present = err (missing_config key)
required key not_unicode = err (missing_config key)

unfoldable pub required_env : Env → String → Result RouteError String
required_env env key = required key (env key)

abbrev json_schema_key : String
json_schema_key = "JESTERKY_PROXY_JSON_SCHEMA"

abbrev capability : String → Result RouteError Bool
capability value =
    if str_eq value "1" || str_eq value "true" || str_eq value "supported"
    then ok true
    else if str_eq value "0" || str_eq value "false" || str_eq value "unsupported"
    then ok false
    else err (
        invalid_config json_schema_key
          "must be one of 1, true, supported, 0, false, or unsupported")

abbrev schema_of : EnvVar → Result RouteError Bool
schema_of not_present = ok true
schema_of (present value) = capability (to_ascii_lowercase (trim value))
schema_of not_unicode = err (invalid_config json_schema_key "must be valid Unicode")

unfoldable pub custom_json_schema_capability : Env → Result RouteError Bool
custom_json_schema_capability env = schema_of (env json_schema_key)

abbrev pub is_safe_url : String → Bool
is_safe_url url = has_prefix "https://" url || has_prefix "http://127.0.0.1:" url

abbrev pub is_key_char : ℕ → Bool
is_key_char c = is_ascii_uppercase c || is_ascii_digit c || c == b'_'

abbrev demand : Bool → String → String → Result RouteError Unit
demand true key text = ok tt
demand false key text = err (invalid_config key text)

unfoldable pub custom_env_route : Env → Result RouteError ProviderRoute
unfolding required_env custom_json_schema_capability
custom_env_route env = do
  chat_url ← required_env env "JESTERKY_PROXY_CHAT_URL"
  safe ←
      demand (is_safe_url chat_url) "JESTERKY_PROXY_CHAT_URL"
        "must use https:// or loopback http://127.0.0.1:"
  api_key_env ← required_env env "JESTERKY_PROXY_KEY_ENV"
  plain ←
      demand (all_chars is_key_char api_key_env) "JESTERKY_PROXY_KEY_ENV"
        "must contain only uppercase ASCII letters, digits, or underscores"
  upstream_model ← required_env env "JESTERKY_PROXY_UPSTREAM_MODEL"
  supports ← custom_json_schema_capability env
  ok (record {
    provider = ProviderKind.custom;
    chat_url = chat_url;
    api_key_env = api_key_env;
    upstream_model = upstream_model;
    supports_json_schema = supports;
  })

abbrev pub some_route : Result RouteError ProviderRoute → Result RouteError (Option ProviderRoute)
some_route (ok r) = ok (some r)
some_route (err e) = err e

unfoldable pub route_of : Env → ModelRouteId → Result RouteError (Option ProviderRoute)
unfolding custom_env_route
route_of env native = ok none
route_of env unknown = ok none
route_of env ModelRouteId.deep_seek = ok (
    some (record {
      provider = ProviderKind.deep_seek;
      chat_url = deepseek_chat_url;
      api_key_env = "DEEPSEEK_API_KEY";
      upstream_model = "deepseek-chat";
      supports_json_schema = false;
    }))
route_of env (ModelRouteId.gemini upstream_model) = ok (
    some (record {
      provider = ProviderKind.gemini;
      chat_url = gemini_chat_url;
      api_key_env = "GEMINI_API_KEY";
      upstream_model = upstream_model;
      supports_json_schema = true;
    }))
route_of env (open_router upstream_model) = ok (
    some (record {
      provider = ProviderKind.custom;
      chat_url = "https://openrouter.ai/api/v1/chat/completions";
      api_key_env = "OPENROUTER_API_KEY";
      upstream_model = upstream_model;
      supports_json_schema = true;
    }))
route_of env ModelRouteId.custom = some_route (custom_env_route env)

unfoldable pub resolve_route_checked : Env → String → Result RouteError (Option ProviderRoute)
unfolding route_of parse
resolve_route_checked env model = route_of env (parse model)

abbrev flatten : Result RouteError (Option ProviderRoute) → Option ProviderRoute
flatten (ok r) = r
flatten (err e) = none

unfoldable pub resolve_route : Env → String → Option ProviderRoute
unfolding resolve_route_checked
resolve_route env model = flatten (resolve_route_checked env model)
