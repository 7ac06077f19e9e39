-- ===== src/Proxy/Sse/Client.antt =====
-- A client of the stream, by the rules of the Responses protocol that sse.rs names: an item is
-- opened before anything about it is said, and closed before the response is completed.
use jesterky.Prelude.{
  ℕ, ◌%◌, ◌^◌, ◌≡◌, refl, Bool, false, ◌&&◌, ◌||◌, Option, none, some, List, [], ◌∷◌, ◌++◌, String,
  ◌==◌, str_eq, if◌then◌else◌, length, Dict,
}
use jesterky.Json.{Value, as_u64}
use jesterky.Json.Object.{at_key}
use jesterky.Proxy.Sse.Defs.{SseEvent, Builder, push, event_of}

-- The items that are closed, and whether another one is open; or the completed response.
pub data Client : Type 0 where
  idle inside : List Value → Client
  ended : List Value → Value → Client

-- The event speaks of the item after those that are closed.
abbrev speaks_of : Option ℕ → List Value → Bool
speaks_of none items = false
speaks_of (some i) items = i == length items % 2 ^ 64

abbrev about : SseEvent → List Value → Bool
about e items = speaks_of (as_u64 (at_key "output_index" e.content)) items

abbrev is_about_items : SseEvent → Bool
is_about_items e =
    str_eq e.event_type "response.content_part.added"
    || str_eq e.event_type "response.output_text.delta"
    || str_eq e.event_type "response.output_text.done"
    || str_eq e.event_type "response.content_part.done"
    || str_eq e.event_type "response.function_call_arguments.delta"
    || str_eq e.event_type "response.function_call_arguments.done"

-- `none` where the client would drop the event.
unfoldable pub client_step : Client → SseEvent → Option Client
client_step (idle items) e =
    if str_eq e.event_type "response.created" || str_eq e.event_type "response.in_progress"
    then some (idle items)
    else if str_eq e.event_type "response.output_item.added" && about e items
    then some (inside items)
    else if str_eq e.event_type "response.completed"
    then some (ended items (at_key "response" e.content))
    else none
client_step (inside items) e =
    if is_about_items e && about e items
    then some (inside items)
    else if str_eq e.event_type "response.output_item.done" && about e items
    then some (idle (items ++ at_key "item" e.content ∷ []))
    else none
client_step (ended items response) e = none

abbrev pub and_then : Option Client → (Client → Option Client) → Option Client
and_then none f = none
and_then (some c) f = f c

unfoldable pub client_reads : Option Client → List SseEvent → Option Client
unfolding client_step
client_reads c [] = c
client_reads c (e ∷ events) = client_reads (and_then c (λ c. client_step c e)) events

client_reads-append :
    (c : Option Client) (es : List SseEvent) (e : SseEvent)
    → client_reads c (es ++ e ∷ []) ≡ and_then (client_reads c es) (λ c. client_step c e)
unfolding client_reads
client_reads-append c [] e = refl
client_reads-append c (e' ∷ es) e = client_reads-append (and_then c (λ c. client_step c e')) es e

-- The client that has read the events so far.
abbrev pub HasRead : Builder → Client → Type 0
HasRead b c = client_reads (some (idle [])) b.events ≡ some c

pub push-HasRead :
    (event_type : String) (rest : Dict Value) (b : Builder) (c c' : Client)
    → HasRead b c
    → client_step c (event_of event_type rest b.seq) ≡ some c'
    → HasRead (push event_type rest b) c'
unfolding push
push-HasRead event_type rest b c c' h s =
    rw (client_reads-append (some (idle [])) b.events (event_of event_type rest b.seq), h) s
