-- ===== src/Proxy/Server/Signatures.antt =====
-- The thought signatures of tool calls, kept between the turns. A mutex is never poisoned here: the
-- blocks under it do not panic.
use jesterky.Prelude.{
  ◌≡◌, refl, ◌∙◌, ap, Option, none, some, List, [], ◌∷◌, String, map, str_eq, if◌then◌else◌, Dict,
  lookup, insert, lookup-insert, is_empty, arith,
}
use jesterky.Json.{Value, Members, string, array, object, to_list, of_list, as_array, as_str}
use jesterky.Json.Object.{value_get, get, put, get-put}
use jesterky.Proxy.Sse.Defs.{first, json}

infixl 5 ◌&>◌
abbrev pub ◌&>◌ : {A B : Type 0} → Option A → (A → Option B) → Option B
none &> f = none
some a &> f = f a

abbrev pub id_of : Value → Option String
id_of call = value_get "id" call &> as_str

abbrev pub signature_of : Value → Option String
signature_of call =
    value_get "extra_content" call &> value_get "google" &> value_get "thought_signature" &> as_str

abbrev store_both : Option String → Option String → Dict String → Dict String
store_both (some id) (some sig) store = insert id sig store
store_both none sig store = store
store_both (some id) none store = store

-- The loop over the calls of a response.
unfoldable pub harvest_calls : List Value → Dict String → Dict String
harvest_calls [] store = store
harvest_calls (call ∷ calls) store =
    harvest_calls calls (store_both (id_of call) (signature_of call) store)

abbrev pub response_calls : Value → Option (List Value)
response_calls response =
    value_get "choices" response
    &> as_array
    &> first
    &> value_get "message"
    &> value_get "tool_calls"
    &> as_array

abbrev pub harvest_found : Option (List Value) → Dict String → Dict String
harvest_found none store = store
harvest_found (some calls) store = harvest_calls calls store

unfoldable pub harvest_signatures : Value → Dict String → Dict String
unfolding harvest_calls
harvest_signatures response store = harvest_found (response_calls response) store

unfoldable pub extra_content : String → Value
unfolding json
extra_content sig = json (("google", json (("thought_signature", string sig) ∷ [])) ∷ [])

abbrev pub attach : Option String → Members → Value
attach none m = object m
attach (some sig) m = object (put "extra_content" (extra_content sig) m)

-- One round of the loop over `calls`: a call without an id stays.
unfoldable pub reattach_call : Dict String → Value → Value
unfolding extra_content
reattach_call store (object m) = attach (id_of (object m) &> λ id. lookup id store) m
reattach_call store v = v

abbrev pub map_array : (Value → Value) → Value → Value
map_array f (array vs) = array (of_list (map f (to_list vs)))
map_array f v = v

abbrev pub update_found : String → (Value → Value) → Members → Option Value → Value
update_found k f m none = object m
update_found k f m (some v) = object (put k (f v) m)

-- `value.get_mut(key)`, and a change of what stands there.
abbrev pub update_key : String → (Value → Value) → Value → Value
update_key k f (object m) = update_found k f m (get k m)
update_key k f v = v

unfoldable pub reattach_message : Dict String → Value → Value
unfolding reattach_call
reattach_message store message = update_key "tool_calls" (map_array (reattach_call store)) message

unfoldable pub reattach_signatures : Dict String → Value → Value
unfolding reattach_message
reattach_signatures store payload =
    if is_empty store
    then payload
    else update_key "messages" (map_array (reattach_message store)) payload

-- The signature of the last of the calls that has this id and a signature.
abbrev pub either_sig : Option String → Option String → Option String
either_sig none s = s
either_sig (some t) s = some t

abbrev own_signature : String → Option String → Option String → Option String
own_signature id none sig = none
own_signature id (some j) sig = if str_eq j id then sig else none

abbrev pub last_signature : String → List Value → Option String
last_signature id [] = none
last_signature id (call ∷ calls) =
    either_sig (last_signature id calls) (own_signature id (id_of call) (signature_of call))

lookup-store_both :
    (id : String) (j sig : Option String) (store : Dict String)
    → lookup id (store_both j sig store) ≡ either_sig (own_signature id j sig) (lookup id store)
lookup-store_both id none sig store = refl
lookup-store_both id (some j) none store = ground arith
lookup-store_both id (some j) (some s) store = ground (arith, lookup-insert j id s store)

either_assoc :
    (a b c : Option String) → either_sig a (either_sig b c) ≡ either_sig (either_sig a b) c
either_assoc none b c = refl
either_assoc (some a) b c = refl

-- After a harvest the store has the last signature of each id, and else what it had.
pub lookup-harvest_calls :
    (id : String) (calls : List Value) (store : Dict String)
    → lookup id (harvest_calls calls store) ≡ either_sig (last_signature id calls) (lookup id store)
unfolding harvest_calls
lookup-harvest_calls id [] store = refl
lookup-harvest_calls id (call ∷ calls) store =
    lookup-harvest_calls id calls (store_both (id_of call) (signature_of call) store)
    ∙ (ap (either_sig (last_signature id calls))
          (lookup-store_both id (id_of call) (signature_of call) store)
        ∙ either_assoc (last_signature id calls) (own_signature id (id_of call) (signature_of call))
            (lookup id store))

pub extra_signature :
    (sig : String)
    → (m : Members) → signature_of (object (put "extra_content" (extra_content sig) m)) ≡ some sig
unfolding extra_content put
extra_signature sig m = rw (get-put "extra_content" "extra_content" (extra_content sig) m) refl
