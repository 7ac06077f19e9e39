-- ===== src/Proxy/Server/Wire.antt =====
-- What a response is on the wire, server.rs: `write_error`, `write_json` and `write_raw` up to the
-- socket.
use Prim.Native.String.{◌++◌ as ◌+++◌}
use jesterky.Prelude.{
  ℕ, Option, none, some, List, [], ◌∷◌, ◌++◌, String, Result, ok, err, str_eq, if◌then◌else◌, ◌==◌,
}
use jesterky.Prelude.Text.{decimal}
use jesterky.Json.{Value, number, string, pos_int}
use jesterky.Proxy.Sse.Defs.{json}
use jesterky.Proxy.Server.Auth.{HttpMethod, get, post}
use jesterky.Proxy.Server.State.{
  ErrorCode, ErrorBody, malformed_request, unauthorized, not_found, invalid_json,
  invalid_responses_request, conversion_failed, upstream_transport, spending_limit, upstream_status,
  upstream_json, upstream_schema,
}

-- `HttpMethod::parse`
unfoldable pub method_of : String → Result String HttpMethod
method_of raw =
    if str_eq raw "GET"
    then ok get
    else if str_eq raw "POST"
    then ok post
    else err ("unsupported HTTP method `" +++ (raw +++ "`"))

-- `#[serde(rename_all = "snake_case")]`
unfoldable pub code_name : ErrorCode → String
code_name malformed_request = "malformed_request"
code_name unauthorized = "unauthorized"
code_name not_found = "not_found"
code_name invalid_json = "invalid_json"
code_name invalid_responses_request = "invalid_responses_request"
code_name conversion_failed = "conversion_failed"
code_name upstream_transport = "upstream_transport"
code_name spending_limit = "spending_limit"
code_name upstream_status = "upstream_status"
code_name upstream_json = "upstream_json"
code_name upstream_schema = "upstream_schema"

abbrev provider_member : Option String → List (String × Value)
provider_member none = []
provider_member (some p) = ("provider", string p) ∷ []

abbrev status_member : Option ℕ → List (String × Value)
status_member none = []
status_member (some n) = ("upstream_status", number (pos_int n)) ∷ []

unfoldable pub error_json : ErrorBody → Value
unfolding json code_name
error_json e = json (
    (
      "error",
      json (
          (("code", string (code_name e.code)) ∷ ("message", string e.text) ∷ [])
          ++ provider_member e.provider
          ++ status_member e.upstream),
    )
    ∷ [])

unfoldable pub reason_phrase : ℕ → String
reason_phrase code =
    if code == 200
    then "OK"
    else if code == 400
    then "Bad Request"
    else if code == 401
    then "Unauthorized"
    else if code == 404
    then "Not Found"
    else if code == 500
    then "Internal Server Error"
    else if code == 502
    then "Bad Gateway"
    else "Error"

unfoldable pub header_lines : List (String × String) → String
header_lines [] = ""
header_lines ((name, value) ∷ headers) =
    name +++ (": " +++ (value +++ ("\r\n" +++ header_lines headers)))

-- The head that `write_raw` writes before a body of `n` bytes.
unfoldable pub response_head : ℕ → String → List (String × String) → ℕ → String
unfolding reason_phrase header_lines decimal
response_head code content_type extra n =
    "HTTP/1.1 "
    +++ (decimal code
        +++ (" "
            +++ (reason_phrase code
                +++ ("\r\nContent-Type: "
                    +++ (content_type
                        +++ ("\r\nContent-Length: "
                            +++ (decimal n
                                +++ ("\r\nConnection: close\r\n"
                                    +++ (header_lines extra +++ "\r\n")))))))))
