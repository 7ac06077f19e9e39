-- ===== src/Proxy/Server/Sends.antt =====
-- What the provider is sent, and who has it sent.
use jesterky.Prelude.{
  ◌≡◌, refl, ◌⊎◌, inl, inr, Bool, true, false, List, ◌∷◌, Result, ok, err, Result-cases,
}
use jesterky.Prelude.Text.{split_once}
use jesterky.Json.{Value}
use jesterky.Proxy.Files.{Bytes}
use jesterky.Proxy.Sse.Defs.{SseError, ChatResponse}
use jesterky.Proxy.Convert.Request.{Request}
use jesterky.Proxy.Server.Auth.{
  ProxyEndpoint, health, models, responses, classify_endpoint, request_is_authorized,
}
use jesterky.Proxy.Server.Signatures.{reattach_signatures}
use jesterky.Proxy.Server.Handle.{
  path_of, prepare, reserve_if, respond_reply, respond_sent, respond_reserved, respond_prepared,
  handle_responses, at_endpoint, handle_connection,
}
use jesterky.Proxy.Server.State.{
  Answer, ServerState, Shared, Outside, Upstream, unreachable, refused, not_json, replied, Incoming,
  closed, malformed, request,
}

-- The payloads sent, where a reservation decides on one more.
abbrev pub sent_by : {E : Type 0} → Result E Value → List Value → List Value
sent_by (ok v) sent = v ∷ sent
sent_by (err e) sent = sent

module _ {D : Type 0} (o : Outside D) (state : ServerState) where
  -- The disk and the payloads sent.
  abbrev pub Leaves : D → List Value → Answer × Shared D → Type 0
  Leaves d sent (a, s) = (s.disk ≡ d) × (s.sent ≡ sent)

  respond_reply-Leaves :
      (asked : Request) (r : Result SseError ChatResponse) (s : Shared D)
      → Leaves s.disk s.sent (respond_reply o state asked r s)
  unfolding respond_reply
  respond_reply-Leaves asked (ok response) s = (refl, refl)
  respond_reply-Leaves asked (err e) s = (refl, refl)

  respond_sent-Leaves :
      (asked : Request) (u : Upstream) (s : Shared D)
      → Leaves s.disk s.sent (respond_sent o state asked u s)
  unfolding respond_sent
  respond_sent-Leaves asked (unreachable e) s = (refl, refl)
  respond_sent-Leaves asked (refused code detail) s = (refl, refl)
  respond_sent-Leaves asked (not_json e) s = (refl, refl)
  respond_sent-Leaves asked (replied v) s = respond_reply-Leaves asked _ _

  pub respond_reserved-Leaves :
      (asked : Request) (out : Result Answer Value × D) (s : Shared D)
      → Leaves out.1 (sent_by out.0 s.sent) (respond_reserved o state asked out s)
  unfolding respond_reserved
  respond_reserved-Leaves asked (ok payload, d) s = respond_sent-Leaves asked _ _
  respond_reserved-Leaves asked (err a, d) s = (refl, refl)

  -- A request of an authorised client to the endpoint of responses.
  abbrev pub IsAuthorised : Incoming → Type 0
  IsAuthorised closed = ⊥
  IsAuthorised (malformed e) = ⊥
  IsAuthorised (request method path authorization bytes) =
      (classify_endpoint method (path_of o state path (split_once "?" path)) ≡ responses)
      × (request_is_authorized o.as_bytes authorization state.client_credential ≡ true)

  -- What a call of `handle_responses` leaves: all as it was, or the outcome of one reservation.
  handle_responses-Leaves :
      (bytes : Bytes) (s : Shared D)
      → Leaves s.disk s.sent (handle_responses o state bytes s)
        ⊎ ((payload : Value) × Leaves
              (reserve_if o state state.budget payload s.disk).1
              (sent_by (reserve_if o state state.budget payload s.disk).0 s.sent)
              (handle_responses o state bytes s))
  unfolding handle_responses respond_prepared
  handle_responses-Leaves bytes s = elim (Result-cases (prepare o state bytes)) [
    | inr (a, e) ↦ rw e (inl (refl, refl))
    | inl ((payload, asked), e) ↦ rw e (
        inr (
          reattach_signatures s.signatures payload,
          respond_reserved-Leaves asked
              (reserve_if o state state.budget (reattach_signatures s.signatures payload) s.disk) s,
        ))
  ]

  abbrev pub Outcome : Shared D → Answer × Shared D → Type 0
  Outcome s after =
      Leaves s.disk s.sent after
      ⊎ ((payload : Value) × Leaves (reserve_if o state state.budget payload s.disk).1
            (sent_by (reserve_if o state state.budget payload s.disk).0 s.sent) after)

  at_endpoint-Outcome :
      (endpoint : ProxyEndpoint) (authorised : Bool) (bytes : Bytes) (s : Shared D)
      → Leaves s.disk s.sent (at_endpoint o state endpoint authorised bytes s)
        ⊎ ((endpoint ≡ responses)
            × (authorised ≡ true)
            × Outcome s (at_endpoint o state endpoint authorised bytes s))
  unfolding at_endpoint
  at_endpoint-Outcome health authorised bytes s = inl (refl, refl)
  at_endpoint-Outcome models authorised bytes s = inl (refl, refl)
  at_endpoint-Outcome responses false bytes s = inl (refl, refl)
  at_endpoint-Outcome responses true bytes s = inr (refl, refl, handle_responses-Leaves bytes s)
  at_endpoint-Outcome ProxyEndpoint.not_found authorised bytes s = inl (refl, refl)

  -- A connection leaves the disk and the payloads sent as they were, unless it is an authorised
  -- request for a response; then at most one reservation is made, and the provider is sent its
  -- payload exactly if it passes.
  pub handle_connection_lem :
      (incoming : Incoming) (s : Shared D)
      → Leaves s.disk s.sent (handle_connection o state incoming s)
        ⊎ (IsAuthorised incoming × Outcome s (handle_connection o state incoming s))
  unfolding handle_connection
  handle_connection_lem closed s = inl (refl, refl)
  handle_connection_lem (malformed e) s = inl (refl, refl)
  handle_connection_lem (request method path authorization bytes) s =
      elim (at_endpoint-Outcome
        (classify_endpoint method (path_of o state path (split_once "?" path)))
        (request_is_authorized o.as_bytes authorization state.client_credential) bytes s) [
          | inl same ↦ inl same
          | inr (endpoint, authorised, outcome) ↦ inr ((endpoint, authorised), outcome)
        ]
