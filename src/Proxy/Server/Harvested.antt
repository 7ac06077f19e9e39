-- ===== src/Proxy/Server/Harvested.antt =====
-- Which signatures are known after a response, and on which calls they come back.
use jesterky.Prelude.{
  ◌≡◌, refl, ◌∙◌, ap, Option, none, some, List, [], ◌∷◌, ◌++◌, String, map, str_eq, if◌then◌else◌,
  Dict, lookup,
}
use jesterky.Json.{Value, null, bool, number, string, array, object, to_list, as_array}
use jesterky.Json.Object.{value_get}
use jesterky.Proxy.Sse.Defs.{first}
use jesterky.Proxy.Server.Signatures.{
  ◌&>◌, signature_of, harvest_calls, harvest_found, harvest_signatures, either_sig, last_signature,
  lookup-harvest_calls,
}

abbrev pub items_in : Option Value → List Value
items_in (some (array vs)) = to_list vs
items_in _ = []

abbrev pub calls_of : Option Value → List Value
calls_of none = []
calls_of (some message) = items_in (value_get "tool_calls" message)

abbrev first_calls : List Value → List Value
first_calls [] = []
first_calls (choice ∷ choices) = calls_of (value_get "message" choice)

-- The tool calls of the first choice of a response.
abbrev pub reply_calls : Value → List Value
reply_calls response = first_calls (items_in (value_get "choices" response))

abbrev pub calls_of_all : List Value → List Value
calls_of_all [] = []
calls_of_all (message ∷ messages) = calls_of (some message) ++ calls_of_all messages

-- The tool calls of all the messages of a payload, in order.
abbrev pub payload_calls : Value → List Value
payload_calls payload = calls_of_all (items_in (value_get "messages" payload))

-- The signature that is known of an id: the last in the response, or else the one from before.
abbrev pub known : Value → Dict String → String → Option String
known response store id = either_sig (last_signature id (reply_calls response)) (lookup id store)

-- A call is as it was; or it has this signature, and else the members that it had but for
-- `extra_content`.
abbrev pub IsSigned : Option String → Value → Value → Type 0
IsSigned none call call' = call' ≡ call
IsSigned (some sig) call call' =
    (signature_of call' ≡ some sig)
    × ((k : String)
        → value_get k call' ≡ (
            if str_eq "extra_content" k then value_get "extra_content" call' else value_get k call))

abbrev pub Each : (Value → Value → Type 0) → List Value → List Value → Type 0
Each P [] [] = Unit
Each P (x ∷ xs) (y ∷ ys) = P x y × Each P xs ys
Each P [] (y ∷ ys) = ⊥
Each P (x ∷ xs) [] = ⊥

pub Each-map :
    (P : Value → Value → Type 0) (f : Value → Value)
    → ((x : Value) → P x (f x))
    → (xs : List Value) → Each P xs (map f xs)
Each-map P f h [] = tt
Each-map P f h (x ∷ xs) = (h x, Each-map P f h xs)

pub Each-self :
    (P : Value → Value → Type 0) → ((x : Value) → P x x) → (xs : List Value) → Each P xs xs
Each-self P h [] = tt
Each-self P h (x ∷ xs) = (h x, Each-self P h xs)

-- What is harvested.
found_calls :
    (o : Option Value) (store : Dict String)
    → harvest_found (o &> as_array) store ≡ harvest_calls (items_in o) store
unfolding harvest_calls
found_calls none store = refl
found_calls (some (array vs)) store = refl
found_calls (some null) store = refl
found_calls (some (bool b)) store = refl
found_calls (some (number n)) store = refl
found_calls (some (string s)) store = refl
found_calls (some (object m)) store = refl

found_message :
    (o : Option Value) (store : Dict String)
    → harvest_found (o &> value_get "tool_calls" &> as_array) store
      ≡ harvest_calls (calls_of o) store
unfolding harvest_calls
found_message none store = refl
found_message (some message) store = found_calls (value_get "tool_calls" message) store

found_first :
    (choices : List Value) (store : Dict String)
    → harvest_found
        (first choices &> value_get "message" &> value_get "tool_calls" &> as_array)
        store
      ≡ harvest_calls (first_calls choices) store
unfolding harvest_calls
found_first [] store = refl
found_first (choice ∷ choices) store = found_message (value_get "message" choice) store

found_choices :
    (o : Option Value) (store : Dict String)
    → harvest_found
        (o &> as_array &> first &> value_get "message" &> value_get "tool_calls" &> as_array)
        store
      ≡ harvest_calls (first_calls (items_in o)) store
unfolding harvest_calls
found_choices none store = refl
found_choices (some (array vs)) store = found_first (to_list vs) store
found_choices (some null) store = refl
found_choices (some (bool b)) store = refl
found_choices (some (number n)) store = refl
found_choices (some (string s)) store = refl
found_choices (some (object m)) store = refl

pub lookup-harvest_signatures :
    (response : Value) (store : Dict String) (id : String)
    → lookup id (harvest_signatures response store) ≡ known response store id
unfolding harvest_signatures
lookup-harvest_signatures response store id =
    ap (lookup id) (found_choices (value_get "choices" response) store)
    ∙ lookup-harvest_calls id (reply_calls response) store
