-- ===== src/Proxy/Server/State.antt =====
-- What a server has and answers. What other processes and libraries do is in `Outside`; the
-- provider may answer by all that it was sent before.
use jesterky.Prelude.{ℕ, Option, none, some, List, String, Result, Dict}
use jesterky.Json.{Value}
use jesterky.Proxy.Files.{Bytes, Paths, Files}
use jesterky.Proxy.Budget.Defs.{BudgetConfig, Ledger}
use jesterky.Proxy.Route.Defs.{ProviderRoute, as_str}
use jesterky.Proxy.Convert.Request.{RawRequest, ConvertError}
use jesterky.Proxy.Sse.Defs.{SseError, ChatResponse}
use jesterky.Proxy.Server.Auth.{HttpMethod}

pub data ErrorCode : Type 0 where
  malformed_request unauthorized not_found invalid_json invalid_responses_request : ErrorCode
  conversion_failed upstream_transport spending_limit upstream_status upstream_json : ErrorCode
  upstream_schema : ErrorCode

pub record ErrorBody : Type 0 where
  pub code : ErrorCode
  pub text : String
  pub provider : Option String
  pub upstream : Option ℕ

-- What is written to the stream.
pub data Answer : Type 0 where
  nothing panicked : Answer
  error : ℕ → ErrorBody → Answer
  json_body : ℕ → Value → Answer
  event_stream : String → Answer

unfoldable pub plain_error : ErrorCode → String → ErrorBody
plain_error code text = record { code = code; text = text; provider = none; upstream = none }

unfoldable pub provider_error : ErrorCode → ProviderRoute → String → ErrorBody
unfolding as_str
provider_error code route text = record {
  code = code;
  text = text;
  provider = some (as_str route.provider);
  upstream = none;
}

unfoldable pub status_error : ProviderRoute → ℕ → String → ErrorBody
unfolding as_str
status_error route status text = record {
  code = upstream_status;
  text = text;
  provider = some (as_str route.provider);
  upstream = some status;
}

-- How the call of the provider ends: no response, a status that is no success with the text of its
-- body, a body that is no JSON, or a value.
pub data Upstream : Type 0 where
  unreachable : String → Upstream
  refused : ℕ → String → Upstream
  not_json : String → Upstream
  replied : Value → Upstream

pub record ServerState : Type 0 where
  pub budget : Option BudgetConfig
  pub route : ProviderRoute
  pub client_credential : String
  pub port : ℕ
  pub codex_model : String

-- What changes: the disk, the signatures, the counter, and what the provider has been sent.
pub record Shared (D : Type 0) : Type 0 where
  pub disk : D
  pub signatures : Dict String
  pub counter : ℕ
  pub sent : List Value

pub record Outside (D : Type 0) : Type 0 where
  pub files : Files D
  pub paths : Paths
  pub ledger_from_slice : Bytes → Result String Ledger
  pub ledger_to_vec : Ledger → Result String Bytes
  pub to_vec : Value → Result String Bytes
  pub body_from_slice : Bytes → Result String Value
  pub parse_request : Value → Result String RawRequest
  pub parse_response : Value → Result String ChatResponse
  pub to_string : Value → String
  pub schema_text : Value → Result String String
  pub convert_text : ConvertError → String
  pub sse_text : SseError → String
  pub as_bytes : String → List ℕ
  pub provider : List Value → Value → Upstream
  pub hex24 : ℕ → ℕ → String
  pub now : ℕ → ℕ

-- A request, where `read_request` reads one.
pub data Incoming : Type 0 where
  closed : Incoming
  malformed : String → Incoming
  request : HttpMethod → String → Option String → Bytes → Incoming
