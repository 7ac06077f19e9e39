-- ===== src/Proxy/Sse/Stream.antt =====
-- The client reads every stream that `build_events_validated` makes to its end.
use jesterky.Prelude.{
  ℕ, ◌%◌, ◌^◌, ◌≡◌, refl, List, [], ◌∷◌, ◌++◌, String, length, Dict, arith, Bool-cases, inl, inr,
}
use jesterky.Prelude.Text.{is_blank}
use jesterky.Json.{Value, string}
use jesterky.Proxy.Sse.Defs.{Builder, push, event_of, index, finish_item}
use jesterky.Proxy.Sse.Reply.{item_event, in_message, push_delta}
use jesterky.Proxy.Sse.Client.{Client, idle, inside, client_step, HasRead, push-HasRead}

-- The builder whose client has read all, and is at rest after its items.
pub record AtRest (b : Builder) : Type 0 where
  pub reads : HasRead b (idle b.output)
  pub counted : b.output_index ≡ length b.output % 2 ^ 64

pub finish-HasRead :
    (item : Value) (b : Builder) (c : Client) → HasRead b c → HasRead (finish_item item b) c
unfolding finish_item
finish-HasRead item b c h = h

module _ (items : List Value) (i : ℕ) (counted : i ≡ length items % 2 ^ 64) where
  pub opens :
      (item : Value) (b : Builder)
      → HasRead b (idle items)
      → HasRead (push "response.output_item.added" (item_event i item) b) (inside items)
  unfolding client_step event_of
  opens item b h =
      push-HasRead "response.output_item.added" (item_event i item) b (idle items) (inside items) h
        (ground (arith, counted))

  pub closes :
      (item : Value) (b : Builder)
      → HasRead b (inside items)
      → HasRead (push "response.output_item.done" (item_event i item) b) (idle (items ++ item ∷ []))
  unfolding client_step event_of
  closes item b h =
      push-HasRead "response.output_item.done" (item_event i item) b (inside items)
        (idle (items ++ item ∷ [])) h (ground (arith, counted))

  -- The part of a message, before and after its text.
  pub part_added :
      (msg_id : String) (part : Value) (b : Builder)
      → HasRead b (inside items)
      → HasRead
          (push "response.content_part.added" (in_message msg_id i (("part", part) ∷ [])) b)
          (inside items)
  unfolding client_step event_of
  part_added msg_id part b h =
      push-HasRead "response.content_part.added" (in_message msg_id i (("part", part) ∷ [])) b
        (inside items) (inside items) h (ground (arith, counted))

  pub part_done :
      (msg_id : String) (part : Value) (b : Builder)
      → HasRead b (inside items)
      → HasRead
          (push "response.content_part.done" (in_message msg_id i (("part", part) ∷ [])) b)
          (inside items)
  unfolding client_step event_of
  part_done msg_id part b h =
      push-HasRead "response.content_part.done" (in_message msg_id i (("part", part) ∷ [])) b
        (inside items) (inside items) h (ground (arith, counted))

  pub text_done :
      (msg_id : String) (text : Value) (b : Builder)
      → HasRead b (inside items)
      → HasRead
          (push "response.output_text.done" (in_message msg_id i (("text", text) ∷ [])) b)
          (inside items)
  unfolding client_step event_of
  text_done msg_id text b h =
      push-HasRead "response.output_text.done" (in_message msg_id i (("text", text) ∷ [])) b
        (inside items) (inside items) h (ground (arith, counted))

  pub delta :
      (msg_id text : String) (b : Builder)
      → b.output_index ≡ i
      → HasRead b (inside items)
      → HasRead (push_delta msg_id text b) (inside items)
  unfolding client_step event_of push_delta
  delta msg_id text b same h = elim (Bool-cases (is_blank text)) [
    | inl blank ↦ rw blank h
    | inr filled ↦ rw filled (
        push-HasRead "response.output_text.delta"
          (in_message msg_id b.output_index (("delta", string text) ∷ [])) b (inside items)
          (inside items) h (ground (arith, counted, same)))
  ]

  pub arguments_event :
      (fc_id arguments : String) (b : Builder)
      → HasRead b (inside items)
      → HasRead
          (push "response.function_call_arguments.delta"
            (("item_id", string fc_id)
              ∷ ("output_index", index i)
              ∷ ("delta", string arguments)
              ∷ [])
            b)
          (inside items)
  unfolding client_step event_of
  arguments_event fc_id arguments b h =
      push-HasRead "response.function_call_arguments.delta"
        (("item_id", string fc_id) ∷ ("output_index", index i) ∷ ("delta", string arguments) ∷ []) b
        (inside items) (inside items) h (ground (arith, counted))

  pub arguments_done :
      (fc_id arguments : String) (b : Builder)
      → HasRead b (inside items)
      → HasRead
          (push "response.function_call_arguments.done"
            (("item_id", string fc_id)
              ∷ ("output_index", index i)
              ∷ ("arguments", string arguments)
              ∷ [])
            b)
          (inside items)
  unfolding client_step event_of
  arguments_done fc_id arguments b h =
      push-HasRead "response.function_call_arguments.done"
        (("item_id", string fc_id)
          ∷ ("output_index", index i)
          ∷ ("arguments", string arguments)
          ∷ [])
        b (inside items) (inside items) h (ground (arith, counted))

-- What a push and a delta leave alone.
pub push-output :
    (ty : String) (rest : Dict Value) (b : Builder)
    → ((push ty rest b).output ≡ b.output) × ((push ty rest b).output_index ≡ b.output_index)
unfolding push
push-output ty rest b = (refl, refl)

pub delta-output :
    (msg_id text : String) (b : Builder)
    → ((push_delta msg_id text b).output ≡ b.output)
      × ((push_delta msg_id text b).output_index ≡ b.output_index)
unfolding push_delta push
delta-output msg_id text b = ground arith
