-- ===== src/Proxy/Server/Returned.antt =====
-- The signatures of a response, on the calls of the payloads after it.
use mathlib.Core.List.{map-append}
use jesterky.Prelude.{
  eq_refl, eq_iff, ◌≡◌, refl, sym, ◌∙◌, ap, Option, none, some, List, [], ◌∷◌, ◌++◌, String, map,
  str_eq, if◌then◌else◌, Dict, lookup, arith, subst,
}
use jesterky.Json.{
  Value, Members, null, bool, number, string, array, object, to_list, to_list-of_list,
}
use jesterky.Json.Object.{value_get, get, put, get-put}
use jesterky.Proxy.Server.Signatures.{
  ◌&>◌, id_of, harvest_signatures, extra_content, attach, reattach_call, map_array, update_found,
  update_key, reattach_message, reattach_signatures, extra_signature,
}
use jesterky.Proxy.Server.Harvested.{
  items_in, calls_of, calls_of_all, payload_calls, known, IsSigned, Each, Each-map, Each-self,
  lookup-harvest_signatures,
}

-- What is reattached.
module _ (store : Dict String) (sig_of : String → Option String)
    (same : (id : String) → lookup id store ≡ sig_of id) where
  abbrev Kept : Value → Value → Type 0
  Kept call call' = IsSigned (id_of call &> sig_of) call call'

  same_sig : (o : Option String) → (o &> λ id. lookup id store) ≡ (o &> sig_of)
  same_sig none = refl
  same_sig (some id) = same id

  attach-IsSigned : (o : Option String) (m : Members) → IsSigned o (object m) (attach o m)
  attach-IsSigned none m = refl
  attach-IsSigned (some sig) m = (
    extra_signature sig m,
    λ k. ground (
      arith,
      get-put "extra_content" k (extra_content sig) m,
      get-put "extra_content" "extra_content" (extra_content sig) m,
    ),
  )

  reattach_call-Kept : (call : Value) → Kept call (reattach_call store call)
  unfolding reattach_call
  reattach_call-Kept (object m) =
      subst (λ o. IsSigned o (object m) (attach (id_of (object m) &> λ id. lookup id store) m))
        (same_sig (id_of (object m)))
        (attach-IsSigned (id_of (object m) &> λ id. lookup id store) m)
  reattach_call-Kept null = refl
  reattach_call-Kept (bool b) = refl
  reattach_call-Kept (number n) = refl
  reattach_call-Kept (string s) = refl
  reattach_call-Kept (array vs) = refl

items-map_array :
    (f : Value → Value) (v : Value) → items_in (some (map_array f v)) ≡ map f (items_in (some v))
items-map_array f (array vs) = to_list-of_list (map f (to_list vs))
items-map_array f null = refl
items-map_array f (bool b) = refl
items-map_array f (number n) = refl
items-map_array f (string s) = refl
items-map_array f (object m) = refl

get-put_here : (k : String) (v : Value) (m : Members) → get k (put k v m) ≡ some v
get-put_here k v m = rw (get-put k k v m, eq_refl k) refl

items-update_found :
    (k : String) (f : Value → Value) (m : Members) (o : Option Value)
    → get k m ≡ o
    → items_in (value_get k (update_found k (map_array f) m o)) ≡ map f (items_in o)
items-update_found k f m none e = rw e refl
items-update_found k f m (some v) e =
    ap items_in (get-put_here k (map_array f v) m) ∙ items-map_array f v

items-update_key :
    (k : String) (f : Value → Value) (v : Value)
    → items_in (value_get k (update_key k (map_array f) v)) ≡ map f (items_in (value_get k v))
items-update_key k f (object m) = items-update_found k f m (get k m) refl
items-update_key k f null = refl
items-update_key k f (bool b) = refl
items-update_key k f (number n) = refl
items-update_key k f (string s) = refl
items-update_key k f (array vs) = refl

others-update_found :
    (k j : String) (f : Value → Value) (m : Members) (o : Option Value)
    → let v = update_found k f m o in
      value_get j v ≡ (if str_eq k j then value_get k v else get j m)
others-update_found k j f m none = ground (arith, eq_iff k j)
others-update_found k j f m (some v) = ground (arith, get-put k j (f v) m, get-put_here k (f v) m)

others-update_key :
    (k j : String) (f : Value → Value) (v : Value)
    → let v' = update_key k f v in
      value_get j v' ≡ (if str_eq k j then value_get k v' else value_get j v)
others-update_key k j f (object m) = others-update_found k j f m (get k m)
others-update_key k j f null = ground arith
others-update_key k j f (bool b) = ground arith
others-update_key k j f (number n) = ground arith
others-update_key k j f (string s) = ground arith
others-update_key k j f (array vs) = ground arith

calls-reattach_message :
    (store : Dict String) (messages : List Value)
    → calls_of_all (map (reattach_message store) messages)
      ≡ map (reattach_call store) (calls_of_all messages)
unfolding reattach_message
calls-reattach_message store [] = refl
calls-reattach_message store (message ∷ messages) =
    (λ i.
      items-update_key "tool_calls" (reattach_call store) message i
      ++ calls-reattach_message store messages i)
    ∙ sym (map-append (reattach_call store) (calls_of (some message)) (calls_of_all messages))

abbrev Result : (String → Option String) → Value → Value → Type 0
Result sig_of payload result =
    Each (λ (call : Value) (call' : Value). IsSigned (id_of call &> sig_of) call call')
      (payload_calls payload) (payload_calls result)
    × ((k : String)
        → value_get k result
          ≡ (if str_eq "messages" k then value_get "messages" result else value_get k payload))

none_known :
    (sig_of : String → Option String)
    → ((id : String) → none ≡ sig_of id)
    → (o : Option String) (call : Value) → IsSigned (o &> sig_of) call call
none_known sig_of none_ none call = refl
none_known sig_of none_ (some id) call = subst (λ o. IsSigned o call call) (none_ id) refl

same_key :
    (k : String) (v : Value)
    → value_get k v ≡ (if str_eq "messages" k then value_get "messages" v else value_get k v)
same_key k v = ground (arith, eq_iff "messages" k)

reattach_signatures-Result :
    (store : Dict String) (sig_of : String → Option String) (payload : Value)
    → ((id : String) → lookup id store ≡ sig_of id)
    → Result sig_of payload (reattach_signatures store payload)
unfolding reattach_signatures
reattach_signatures-Result [] sig_of payload same = (
  Each-self _ (λ call. none_known sig_of same (id_of call) call) (payload_calls payload),
  λ k. same_key k payload,
)
reattach_signatures-Result (entry ∷ rest) sig_of payload same =
    let store = entry ∷ rest in
    let calls =
      ap calls_of_all (items-update_key "messages" (reattach_message store) payload)
      ∙ calls-reattach_message store (items_in (value_get "messages" payload)) in
    (
      subst
          (Each (λ (call : Value) (call' : Value). IsSigned (id_of call &> sig_of) call call')
            (payload_calls payload))
          (sym calls)
          (Each-map _ (reattach_call store) (reattach_call-Kept store sig_of same)
            (payload_calls payload)),
      λ k. others-update_key "messages" k (map_array (reattach_message store)) payload,
    )

-- After the signatures of a response are harvested, reattaching gives every tool call of a payload,
-- in every message, the signature that is known of its id: the last one that the response gives it,
-- or else the one from before. Of such a call only `extra_content` changes, which the signature
-- replaces; a call of which no signature is known stays as it is, and so do the members of the
-- payload other than its messages.
pub signature_returned :
    (store : Dict String) (response payload : Value)
    → let result = reattach_signatures (harvest_signatures response store) payload in
      Each
        (λ (call : Value) (call' : Value). IsSigned (id_of call &> known response store) call call')
        (payload_calls payload)
        (payload_calls result)
      × ((k : String)
          → value_get k result
            ≡ (if str_eq "messages" k then value_get "messages" result else value_get k payload))
signature_returned store response payload =
    reattach_signatures-Result (harvest_signatures response store) (known response store) payload
      (lookup-harvest_signatures response store)
