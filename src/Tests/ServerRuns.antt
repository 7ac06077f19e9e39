-- ===== src/Tests/ServerRuns.antt =====
-- A server with a budget and its connections, crates/jesterky-proxy/src/server.rs.
use Prim.Native.Char.{code}
use Prim.Native.String.{◌∷◌ as ◌:::◌, [] as no_text}
use text.Mathlib.TextEquality.{Char-path}
use jesterky.Prelude.{
  false, ℕ, ◌≡◌, ◌≤◌, ◌⊎◌, ◌↔◌, refl, true, false, none, some, List, [], ◌∷◌, String, str_eq, ok,
  err, Result, length,
}
use jesterky.Prelude.Text.{is_blank, trim, split_once}
use jesterky.F64.{f64_eq, f64_arithmetic}
use jesterky.F64.Integers.{ceil_u64, floor_u64}
use jesterky.Json.{Value, null, string, object, empty, member, pos_int}
use jesterky.Json.Object.{put, value_get}
use jesterky.Proxy.Budget.Defs.{Charge, cap_micros, over, media}
use jesterky.Proxy.Budget.Spending.{total_micros, total_tokens}
use jesterky.Proxy.Route.Defs.{ProviderKind}
use jesterky.Proxy.Convert.Request.{RawRequest, RawInputItem, RawTools, TextFormat, ConvertError}
use jesterky.Proxy.Convert.Request.{request_from}
use jesterky.Proxy.Convert.Chat.{ChatPayload, new_payload}
use jesterky.Proxy.Convert.Translate.{chat_payload}
use jesterky.Proxy.Convert.Laws.{chat_payload-Fits, Fits}
use jesterky.Proxy.Sse.Defs.{ChatResponse}
use jesterky.Proxy.Server.Auth.{request_is_authorized, post}
use jesterky.Proxy.Server.Authority.{request_is_authorized_lem, Credited}
use jesterky.Proxy.Server.Signatures.{
  ◌&>◌, id_of, harvest_signatures, reattach_signatures, extra_content,
}
use jesterky.Proxy.Server.Harvested.{Each, IsSigned, known, payload_calls}
use jesterky.Proxy.Server.Returned.{signature_returned}
use jesterky.Json.{array_of}
use jesterky.Prelude.{if◌then◌else◌, insert}
use jesterky.Proxy.Server.State.{unauthorized}
use jesterky.Proxy.Server.Wire.{method_of, error_json, response_head}
use jesterky.Json.Object.{at_key}
use jesterky.Proxy.Server.Handle.{handle_connection}
use jesterky.Proxy.Server.State.{ServerState, Shared, Outside, Incoming, request, replied}
use jesterky.Proxy.Server.Sends.{Leaves, IsAuthorised, Outcome, handle_connection_lem}
use jesterky.Proxy.Server.Spent.{started, handles, Paid, sent_within_budget}
use jesterky.Tests.SpendingRuns.{
  Disk, paths, files, config, ledger_to_vec, ledger_from_slice, to_vec, no_files,
  files-IsFileSystem, own_name, keeps_counts,
}

-- The UTF-8 of an ASCII text.
abbrev as_bytes : String → List ℕ
as_bytes no_text = []
as_bytes (c ::: s) = code c ∷ as_bytes s

list_inj : {x y : ℕ} {xs ys : List ℕ} → x ∷ xs ≡ y ∷ ys → (x ≡ y) × (xs ≡ ys)
list_inj h = (cc, cc)

as_bytes-inj : (s t : String) → as_bytes s ≡ as_bytes t → s ≡ t
as_bytes-inj no_text no_text h = refl
as_bytes-inj no_text (d ::: t) h = cc
as_bytes-inj (c ::: s) no_text h = cc
as_bytes-inj (c ::: s) (d ::: t) h =
    let (first, rest) = list_inj h in
    let same = Char-path c d first in let others = as_bytes-inj s t rest in λ i. same i ::: others i

request_is_authorized_lem_example :
    (request_is_authorized as_bytes none "s3cret" ≡ false)
    × ((request_is_authorized as_bytes (some "bEarer s3cret") "s3cret" ≡ true)
        ↔ Credited "s3cret" (split_once " " "bEarer s3cret"))
request_is_authorized_lem_example =
    request_is_authorized_lem as_bytes "bEarer s3cret" "s3cret" as_bytes-inj

abbrev signed_call : Value
unfolding extra_content
signed_call =
    object (member "id" (string "call_1") (member "extra_content" (extra_content "sig") empty))

abbrev in_message : Value → Value
in_message call = object (member "tool_calls" (array_of (call ∷ [])) empty)

abbrev signed_response : Value
signed_response = object (
    member "choices" (array_of (object (member "message" (in_message signed_call) empty) ∷ []))
      empty)

abbrev echoed : Value
echoed = object (
    member "messages"
      (array_of (
        in_message
          (object (member "id" (string "call_1") (member "type" (string "function") empty)))
        ∷ []))
      empty)

signature_returned_example :
    let result = reattach_signatures (harvest_signatures signed_response []) echoed in
    Each
      (λ (call : Value) (call' : Value).
        IsSigned (id_of call &> known signed_response []) call call')
      (payload_calls echoed)
      (payload_calls result)
    × ((k : String)
        → value_get k result
          ≡ (if str_eq "messages" k then value_get "messages" result else value_get k echoed))
signature_returned_example = signature_returned [] signed_response echoed

returned_runs :
    payload_calls (reattach_signatures (harvest_signatures signed_response []) echoed)
    ≡ object (
        member "extra_content"
          (extra_content "sig")
          (member "id" (string "call_1") (member "type" (string "function") empty)))
      ∷ []
unfolding signed_call put insert reattach_signatures harvest_signatures
returned_runs = refl

model_filled : is_blank (trim "deepseek") ≡ false
unfolding trim
model_filled = refl

abbrev raw_request : RawRequest
raw_request = record {
  model = record { into_inner = "deepseek"; filled = model_filled };
  input = RawInputItem.text "Hello." ∷ [];
  tools = RawTools.absent;
  settings = record {
    instructions = none;
    max_output_tokens = none;
    max_tokens = none;
    temperature = none;
    reasoning = none;
    stream = some false;
    tool_choice = none;
    parallel_tool_calls = none;
    format = some (some (TextFormat.json_schema "Answer" (object empty) none));
  };
}

abbrev payload_or_new : Result ConvertError ChatPayload → ChatPayload
payload_or_new (ok p) = p
payload_or_new (err e) = new_payload ""

abbrev chat : ChatPayload
chat =
    payload_or_new
      (chat_payload (λ v. "") (λ v. ok "") (request_from raw_request) "deepseek-chat" false)

chat_made :
    chat_payload (λ v. "") (λ v. ok "") (request_from raw_request) "deepseek-chat" false ≡ ok chat
unfolding chat_payload request_from
chat_made = refl

chat_payload-Fits_example : Fits false chat
chat_payload-Fits_example =
    chat_payload-Fits (λ v. "") (λ v. ok "") (request_from raw_request) "deepseek-chat" false chat
      chat_made

abbrev chat_response : ChatResponse
chat_response = record {
  choices = record { text = some "Hi."; tool_calls = [] } ∷ [];
  usage = record {
    prompt_tokens = pos_int 5;
    completion_tokens = pos_int 7;
    total_tokens = pos_int 12;
  };
}

abbrev outside : Outside Disk
outside = record {
  files = files;
  paths = paths;
  ledger_from_slice = ledger_from_slice;
  ledger_to_vec = ledger_to_vec;
  to_vec = to_vec;
  body_from_slice = λ b. ok (object empty);
  parse_request = λ v. ok raw_request;
  parse_response = λ v. ok chat_response;
  to_string = λ v. "";
  schema_text = λ v. ok "";
  convert_text = λ e. "";
  sse_text = λ e. "";
  as_bytes = as_bytes;
  provider = λ sent v. replied null;
  hex24 = λ n p. "";
  now = λ n. 1000;
}

abbrev state : ServerState
state = record {
  budget = some config;
  route = record {
    provider = ProviderKind.deep_seek;
    chat_url = "https://api.deepseek.com/v1/chat/completions";
    api_key_env = "DEEPSEEK_API_KEY";
    upstream_model = "deepseek-chat";
    supports_json_schema = false;
  };
  client_credential = "s3cret";
  port = 8080;
  codex_model = "deepseek";
}

abbrev fresh : Shared Disk
fresh = record { disk = no_files; signatures = []; counter = 0; sent = [] }

abbrev asked : Incoming
asked = request post "/v1/responses" (some "Bearer s3cret") (b'{' ∷ b'}' ∷ [])

abbrev served : Shared Disk
served = (handle_connection outside state asked fresh).1

-- The payload was sent, and answered.
sends_once : (length served.sent ≡ 1) × (served.counter ≡ 1)
unfolding handle_connection media f64_eq f64_arithmetic ceil_u64 floor_u64
sends_once = (refl, refl)

handle_connection_lem_example :
    Leaves outside state no_files [] (handle_connection outside state asked fresh)
    ⊎ (IsAuthorised outside state asked
        × Outcome outside state fresh (handle_connection outside state asked fresh))
handle_connection_lem_example = handle_connection_lem outside state asked fresh

sent_within_budget_example :
    (charges : List Charge) × Paid outside config served.sent charges
    × (total_micros charges ≤ cap_micros config)
    × (over (some 20000) (total_tokens charges) ≡ false)
sent_within_budget_example =
    sent_within_budget outside state config fresh served refl files-IsFileSystem own_name
      keeps_counts refl refl (handles asked started)

wire_runs :
    (response_head 200 "text/event-stream" (("Cache-Control", "no-cache") ∷ []) 12
      ≡ "HTTP/1.1 200 OK\r\nContent-Type: text/event-stream\r\nContent-Length: 12\r\nConnection: close\r\nCache-Control: no-cache\r\n\r\n")
    × (method_of "POST" ≡ ok post)
    × (at_key "code" (
          at_key "error" (
            error_json
              (record { code = unauthorized; text = ""; provider = none; upstream = none })))
        ≡ string "unauthorized")
unfolding response_head method_of error_json put
wire_runs = (refl, refl, refl)
