-- ===== src/Proxy/Server/Handle.antt =====
-- `handle_connection` and `handle_responses` on a request that is read, step by step.
use Prim.Native.String.{◌++◌ as ◌+++◌}
use jesterky.Prelude.{
  ℕ, ◌+◌, ◌%◌, ◌^◌, Bool, true, false, Option, none, some, List, [], ◌∷◌, String, if◌then◌else◌,
  Result, ok, err,
}
use jesterky.Prelude.Text.{split_once, take_chars}
use jesterky.Json.{Value, object, string, empty}
use jesterky.Proxy.Files.{Bytes}
use jesterky.Proxy.Budget.Defs.{BudgetConfig, Stop, message, panic, reserve}
use jesterky.Proxy.Convert.Request.{Request, request_from_value, stream_enabled}
use jesterky.Proxy.Convert.Translate.{responses_request_to_chat_payload}
use jesterky.Proxy.Sse.Defs.{SseEvent, SseError, ChatResponse, from_value, json}
use jesterky.Proxy.Sse.Reply.{build_events_validated, final_response_object, frame}
use jesterky.Proxy.Server.Auth.{
  ProxyEndpoint, health, models, responses, classify_endpoint, request_is_authorized,
}
use jesterky.Proxy.Server.Catalog.{models_catalog}
use jesterky.Proxy.Server.Signatures.{harvest_signatures, reattach_signatures}
use jesterky.Proxy.Server.State.{
  ErrorCode, Answer, plain_error, provider_error, status_error, Upstream, ServerState, Shared,
  Outside, Incoming, malformed_request, unauthorized, invalid_json, invalid_responses_request,
  conversion_failed, upstream_transport, spending_limit, upstream_json, upstream_schema, nothing,
  panicked, error, json_body, event_stream, unreachable, refused, not_json, replied, closed,
  malformed, request,
}

module _ {D : Type 0} (o : Outside D) (state : ServerState) where
  abbrev pub body_value : Bytes → Result String Value
  body_value [] = ok (object empty)
  body_value (b ∷ bytes) = o.body_from_slice (b ∷ bytes)

  abbrev pub with_error {ℓ} :
      {A E : Type ℓ}
      → Result E A
      → (E → Answer)
      → (A → Result Answer (Value × Request))
      → Result Answer (Value × Request)
  with_error (ok a) f next = next a
  with_error (err e) f next = err (f e)

  -- The request and its chat payload.
  unfoldable pub prepare : Bytes → Result Answer (Value × Request)
  unfolding request_from_value responses_request_to_chat_payload plain_error
  prepare bytes =
      with_error (body_value bytes)
        (λ e. error 400 (plain_error invalid_json ("bad request body: " +++ e)))
        λ body.
          with_error (request_from_value o.parse_request body)
            (λ e. error 400 (plain_error invalid_responses_request (o.convert_text e)))
            λ asked.
              with_error
                (responses_request_to_chat_payload o.to_string o.schema_text asked
                  state.route.upstream_model state.route.supports_json_schema)
                (λ e. error 400 (plain_error conversion_failed (o.convert_text e)))
                λ payload. ok (payload, asked)

  abbrev pub stop_answer : Stop → Answer
  unfolding plain_error
  stop_answer (message e) = error 402 (plain_error spending_limit e)
  stop_answer panic = panicked

  abbrev pub reserved : Result Stop Value × D → Result Answer Value × D
  reserved (ok payload, d) = (ok payload, d)
  reserved (err e, d) = (err (stop_answer e), d)

  -- `if let Some(budget) = &state.budget`
  unfoldable pub reserve_if : Option BudgetConfig → Value → D → Result Answer Value × D
  unfolding reserve
  reserve_if none payload d = (ok payload, d)
  reserve_if (some c) payload d =
      reserved (reserve o.files o.paths o.ledger_from_slice o.ledger_to_vec o.to_vec c payload d)

  abbrev pub frames : List SseEvent → String
  unfolding frame
  frames [] = ""
  frames (e ∷ events) = frame o.to_string e +++ frames events

  abbrev pub schema_error : SseError → Answer
  unfolding provider_error
  schema_error e = error 502 (provider_error upstream_schema state.route (o.sse_text e))

  abbrev pub final_answer : Option (Result SseError Value) → Answer
  final_answer none = panicked
  final_answer (some (ok v)) = json_body 200 v
  final_answer (some (err e)) = schema_error e

  abbrev pub stream_answer : Option (List SseEvent) → Answer
  stream_answer none = panicked
  stream_answer (some events) = event_stream (frames events)

  unfoldable pub reply_answer : ℕ → Request → ChatResponse → Answer
  unfolding build_events_validated final_response_object stream_enabled
  reply_answer n asked response =
      let rid = "resp_" +++ o.hex24 n state.port in
      let msg_id = "msg_" +++ o.hex24 ((n + 1) % 2 ^ 64) state.port in
      if stream_enabled asked
      then stream_answer (build_events_validated (o.now n) response asked.model rid msg_id)
      else final_answer (final_response_object (o.now n) response asked.model rid msg_id)

  unfoldable pub respond_reply :
      Request → Result SseError ChatResponse → Shared D → Answer × Shared D
  unfolding reply_answer
  respond_reply asked (err e) s = (schema_error e, s)
  respond_reply asked (ok response) s =
      (reply_answer s.counter asked response, record s { counter = (s.counter + 1) % 2 ^ 64 })

  unfoldable pub respond_sent : Request → Upstream → Shared D → Answer × Shared D
  unfolding respond_reply harvest_signatures provider_error status_error from_value take_chars
  respond_sent asked (unreachable e) s =
      (error 502 (provider_error upstream_transport state.route ("chat upstream error: " +++ e)), s)
  respond_sent asked (refused code detail) s = (
    error code
        (status_error state.route code ("chat upstream failed: " +++ take_chars 2000 detail)),
    s,
  )
  respond_sent asked (not_json e) s = (
    error 502
        (provider_error upstream_json state.route ("chat upstream returned non-JSON: " +++ e)),
    s,
  )
  respond_sent asked (replied v) s =
      respond_reply asked (from_value o.parse_response v)
        (record s { signatures = harvest_signatures v s.signatures })

  unfoldable pub respond_reserved : Request → Result Answer Value × D → Shared D → Answer × Shared D
  unfolding respond_sent
  respond_reserved asked (err a, d) s = (a, record s { disk = d })
  respond_reserved asked (ok payload, d) s =
      respond_sent asked (o.provider s.sent payload)
        (record s { disk = d; sent = payload ∷ s.sent })

  unfoldable pub respond_prepared : Result Answer (Value × Request) → Shared D → Answer × Shared D
  unfolding respond_reserved reserve_if reattach_signatures
  respond_prepared (err a) s = (a, s)
  respond_prepared (ok (payload, asked)) s =
      respond_reserved asked
        (reserve_if state.budget (reattach_signatures s.signatures payload) s.disk) s

  unfoldable pub handle_responses : Bytes → Shared D → Answer × Shared D
  unfolding respond_prepared prepare
  handle_responses bytes s = respond_prepared (prepare bytes) s

  abbrev pub path_of : String → Option (String × String) → String
  path_of path none = path
  path_of path (some (before, query)) = before

  unfoldable pub unauthorized_answer : Answer
  unfolding plain_error
  unauthorized_answer =
      error 401 (plain_error unauthorized "missing or invalid Jesterky proxy-client capability")

  unfoldable pub at_endpoint : ProxyEndpoint → Bool → Bytes → Shared D → Answer × Shared D
  unfolding handle_responses plain_error json unauthorized_answer models_catalog
  at_endpoint health authorized bytes s = (json_body 200 (json (("status", string "ok") ∷ [])), s)
  at_endpoint models authorized bytes s = (
    if authorized then json_body 200 (models_catalog state.codex_model) else unauthorized_answer,
    s,
  )
  at_endpoint responses false bytes s = (unauthorized_answer, s)
  at_endpoint responses true bytes s = handle_responses bytes s
  at_endpoint ProxyEndpoint.not_found authorized bytes s =
      (error 404 (plain_error ErrorCode.not_found "proxy endpoint not found"), s)

  unfoldable pub handle_connection : Incoming → Shared D → Answer × Shared D
  unfolding at_endpoint classify_endpoint request_is_authorized plain_error split_once
  handle_connection closed s = (nothing, s)
  handle_connection (malformed e) s = (error 400 (plain_error malformed_request e), s)
  handle_connection (request method path authorization bytes) s =
      at_endpoint (classify_endpoint method (path_of path (split_once "?" path)))
        (request_is_authorized o.as_bytes authorization state.client_credential) bytes s
