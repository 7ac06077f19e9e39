-- ===== src/Ledger/Inputs.antt =====
-- `resolve_bindings`: the inputs of a node, name by name.
use jesterky.Prelude.{
  ◌⊎◌, Bool-cases, ◌≡◌, refl, false, some, [], ◌∷◌, String, str_eq, eq_iff, arith, lookup,
  contains_key, IsDistinct, inl, inr, Result-cases, Result, ok, err,
}
use jesterky.Json.{empty, Value, Members, object}
use jesterky.Json.Object.{get, put, get-put}
use jesterky.Ledger.Refs.{LedgerError}
use jesterky.Ledger.State.{Ledger, Ref, Bindings, resolve, resolve_each, resolve_bindings}

-- `b` binds the name `k` to the reference `r`.
abbrev pub Binds : String → Ref → Bindings → Type 0
Binds k r [] = ⊥
Binds k r ((name, s) ∷ b) = ((name ≡ k) × (s ≡ r)) ⊎ Binds k r b

module _ (from_str : String → Result String Value) (l : Ledger) where
  -- Names that the rest of the bindings lacks keep what the loop has gathered.
  gathered :
      (b : Bindings) (acc m : Members) (k : String)
      → resolve_each from_str l b acc ≡ ok m
      → contains_key k b ≡ false
      → get k m ≡ get k acc
  unfolding resolve_each
  gathered [] acc m k h new = ground arith
  gathered ((name, r) ∷ b) acc m k h new = elim (Result-cases (resolve from_str l r)) [
    | inl (v, e) ↦
        ground (arith, e, gathered b (put name v acc) m k, get-put name k v acc, eq_iff name k)
    | inr (error, e) ↦ absurd (ground (arith, e))
  ]

  resolved_each :
      (b : Bindings) (acc m : Members) (k : String) (r : Ref)
      → IsDistinct b
      → resolve_each from_str l b acc ≡ ok m
      → lookup k b ≡ some r
      → (v : Value) × (resolve from_str l r ≡ ok v) × (get k m ≡ some v)
  unfolding resolve_each
  resolved_each [] acc m k r d h found = cc
  resolved_each ((name, s) ∷ b) acc m k r d h found = elim (Result-cases (resolve from_str l s)) [
    | inl (v, e) ↦ elim (Bool-cases (str_eq name k)) [
      | inl same ↦ (
        v,
        ground (arith, e, eq_iff name k, same),
        ground
            (arith, e, same, eq_iff name k, gathered b (put name v acc) m k, get-put name k v acc),
      )
      | inr other ↦ resolved_each b (put name v acc) m k r d.1 (rw e at h) (ground (arith, other))
    ]
    | inr (error, e) ↦ absurd (ground (arith, e))
  ]

  failed_each :
      (b : Bindings) (acc : Members) (e : LedgerError)
      → resolve_each from_str l b acc ≡ err e
      → (k : String) × (r : Ref) × (Binds k r b) × (resolve from_str l r ≡ err e)
  unfolding resolve_each
  failed_each [] acc e h = cc
  failed_each ((name, s) ∷ b) acc e h = elim (Result-cases (resolve from_str l s)) [
    | inl (v, ev) ↦
        let (k, r, there, failed) = failed_each b (put name v acc) e (rw ev at h) in
        (k, r, inr there, failed)
    | inr (error, ee) ↦ (name, s, inl (refl, refl), ground (arith, ee))
  ]

  -- When the bindings resolve, the inputs are an object that holds, under each name, what its
  -- reference resolves to, provided that no name is bound twice.
  pub resolve_bindings_ok :
      (b : Bindings) (inputs : Value) (k : String) (r : Ref)
      → IsDistinct b
      → resolve_bindings from_str l b ≡ ok inputs
      → lookup k b ≡ some r
      → (m : Members) × (v : Value) × (inputs ≡ object m)
        × (resolve from_str l r ≡ ok v)
        × (get k m ≡ some v)
  unfolding resolve_bindings
  resolve_bindings_ok b inputs k r d h found =
      elim (Result-cases (resolve_each from_str l b empty)) [
        | inl (m, e) ↦
            let (v, resolved, there) = resolved_each b empty m k r d e found in
            (m, v, ground (arith, e), resolved, there)
        | inr (error, e) ↦ absurd (ground (arith, e))
      ]

  -- When they do not, one of the references fails with the reported error.
  pub resolve_bindings_error :
      (b : Bindings) (e : LedgerError)
      → resolve_bindings from_str l b ≡ err e
      → (k : String) × (r : Ref) × Binds k r b × (resolve from_str l r ≡ err e)
  unfolding resolve_bindings
  resolve_bindings_error b e h = elim (Result-cases (resolve_each from_str l b empty)) [
    | inl (m, em) ↦ absurd (ground (arith, em))
    | inr (error, ee) ↦ failed_each b empty e (ground (arith, ee))
  ]
