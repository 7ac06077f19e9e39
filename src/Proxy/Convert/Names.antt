-- ===== src/Proxy/Convert/Names.antt =====
-- The names of tools in namespaces, on their way to the provider and back.
use Prim.Native.Char.{Char}
use Prim.Native.String.{String, [], ◌∷◌, ◌++◌}
use text.Mathlib.TextLemmas.{nil-append, cons-append}
use jesterky.Prelude.{err, true, ◌≡◌, refl, ap, inl, inr, none, some, Option-cases, arith}
use mathlib.Core.List.{List}
use jesterky.Prelude.Text.{is_blank, trim, strip_prefix, split_once}
use jesterky.Prelude.Text.Split.{strip_prefix-append}
use jesterky.Proxy.Sse.Reply.{name_joint, split_name, split_or}
use jesterky.Proxy.Convert.Request.{join_name, non_empty}

split_once-front :
    (sep s rest : String) → strip_prefix sep s ≡ some rest → split_once sep s ≡ some ("", rest)
unfolding split_once
split_once-front sep [] rest h = rw h
split_once-front sep (c ∷ s) rest h = rw h

joint_chars : (name : String) → name_joint ++ name ≡ "_" ∷ "_" ∷ "j" ∷ "n" ∷ "s" ∷ "_" ∷ "_" ∷ name
joint_chars name =
    rw
      (
        cons-append "_" "_jns__" name,
        cons-append "_" "jns__" name,
        cons-append "j" "ns__" name,
        cons-append "n" "s__" name,
        cons-append "s" "__" name,
        cons-append "_" "_" name,
        cons-append "_" "" name,
        nil-append name,
      )
      refl

-- The joint does not begin inside a namespace that has no `__jns`.
no_early :
    (c : Char) (s name : String)
    → strip_prefix "__jns" (c ∷ s) ≡ none
    → strip_prefix name_joint (c ∷ (s ++ (name_joint ++ name))) ≡ none
unfolding strip_prefix
no_early c [] name h = rw (nil-append (name_joint ++ name), joint_chars name) (ground arith)
no_early c (d ∷ []) name h =
    rw (cons-append d "" (name_joint ++ name), nil-append (name_joint ++ name), joint_chars name)
      (ground (arith, h))
no_early c (d ∷ (e ∷ [])) name h =
    rw
      (
        cons-append d (e ∷ "") (name_joint ++ name),
        cons-append e "" (name_joint ++ name),
        nil-append (name_joint ++ name),
        joint_chars name,
      )
      (ground (arith, h))
no_early c (d ∷ (e ∷ (f ∷ []))) name h =
    rw
      (
        cons-append d (e ∷ f ∷ "") (name_joint ++ name),
        cons-append e (f ∷ "") (name_joint ++ name),
        cons-append f "" (name_joint ++ name),
        nil-append (name_joint ++ name),
        joint_chars name,
      )
      (ground (arith, h))
no_early c (d ∷ (e ∷ (f ∷ (g ∷ s)))) name h =
    rw
      (
        cons-append d (e ∷ f ∷ g ∷ s) (name_joint ++ name),
        cons-append e (f ∷ g ∷ s) (name_joint ++ name),
        cons-append f (g ∷ s) (name_joint ++ name),
        cons-append g s (name_joint ++ name),
      )
      (ground (arith, h))

split_none :
    (sep : String) (c : Char) (s : String)
    → split_once sep (c ∷ s) ≡ none
    → (strip_prefix sep (c ∷ s) ≡ none) × (split_once sep s ≡ none)
unfolding split_once
split_none sep c s h = elim (Option-cases (strip_prefix sep (c ∷ s))) [
  | inr (rest, e) ↦ absurd (ground (arith, e, h))
  | inl e ↦ elim (Option-cases (split_once sep s)) [
    | inr ((before, after), e') ↦ absurd (ground (arith, e, e', h))
    | inl e' ↦ (e, e')
  ]
]

split_once-later :
    (sep : String) (c : Char) (s before after : String)
    → strip_prefix sep (c ∷ s) ≡ none
    → split_once sep s ≡ some (before, after)
    → split_once sep (c ∷ s) ≡ some (c ∷ before, after)
unfolding split_once
split_once-later sep c s before after h e = rw (h, e) refl

split_joined :
    (ns name : String)
    → split_once "__jns" ns ≡ none
    → split_once name_joint (ns ++ (name_joint ++ name)) ≡ some (ns, name)
split_joined [] name h =
    rw (nil-append (name_joint ++ name))
      (split_once-front name_joint (name_joint ++ name) name (strip_prefix-append name_joint name))
split_joined (c ∷ s) name h =
    let (apart, later) = split_none "__jns" c s h in
    rw (cons-append c s (name_joint ++ name)) (
      split_once-later name_joint c (s ++ (name_joint ++ name)) s name (no_early c s name apart)
        (split_joined s name later))

-- The qualified name of a tool in a namespace without `__jns` is split into that namespace and the
-- tool's own name, whatever that is.
pub split_name-join_name :
    (ns name : String)
    → split_once "__jns" ns ≡ none
    → split_name (join_name (some ns) name) ≡ (some ns, name)
unfolding split_name join_name
split_name-join_name ns name h = ap (split_or (ns ++ (name_joint ++ name))) (split_joined ns name h)

abbrev pub IsRefused : String → Type 0
IsRefused s = (is_blank (trim s) ≡ true) × (non_empty s ≡ err "must be a non-empty string")
