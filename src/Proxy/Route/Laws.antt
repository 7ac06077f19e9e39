-- ===== src/Proxy/Route/Laws.antt =====
-- What routes are given, and which of them the environment decides.
use Prim.Native.Char.{code}
use Prim.Native.String.{◌++◌, ◌∷◌ as ◌:::◌, [] as no_text}
use jesterky.Prelude.{
  ℕ, ◌≤◌, Option-cases, ◌≡◌, refl, sym, ◌⊎◌, inl, inr, ◌≢◌, true, false, Option, none, some, String,
  str_eq, eq_iff, Bool-cases, Result-cases, Result, subst, ok, arith, ap, ◌∙◌,
}
use jesterky.Prelude.Text.{strip_prefix, is_blank, has_prefix, split_once, all_chars}
use jesterky.Prelude.Text.Split.{append-strip_prefix, append-split_once}
use jesterky.Proxy.Route.Defs.{
  ProviderRoute, ModelRouteId, Env, parse, route_of, resolve_route_checked, custom_env_route,
  is_safe_url, is_key_char, native, unknown, open_router, of_parts, of_namespace,
}

-- An id of the form that the documentation gives for routes of the environment.
abbrev pub IsExplicit : String → Type 0
IsExplicit model =
    (rest : String) × (is_blank rest ≡ false)
    × ((model ≡ "custom" ++ ("/" ++ rest)) ⊎ (model ≡ "proxy" ++ ("/" ++ rest)))

custom_namespace :
    (namespace upstream : String)
    → of_namespace namespace upstream ≡ ModelRouteId.custom
    → (is_blank upstream ≡ false) × ((namespace ≡ "custom") ⊎ (namespace ≡ "proxy"))
custom_namespace namespace upstream h = elim (Bool-cases (str_eq namespace "custom")) [
  | inl e ↦ (ground (arith, h), inl ((eq_iff namespace "custom").0 e))
  | inr ne ↦ elim (Bool-cases (str_eq namespace "proxy")) [
    | inl e ↦ (ground (arith, h), inr ((eq_iff namespace "proxy").0 e))
    | inr ne' ↦ absurd (ground (arith, h, ne, ne'))
  ]
]

custom_parts :
    (model : String) (parts : Option (String × String))
    → split_once "/" model ≡ parts
    → of_parts model parts ≡ ModelRouteId.custom
    → IsExplicit model
custom_parts model none e h = absurd (ground arith)
custom_parts model (some (namespace, upstream)) e h =
    let whole = append-split_once "/" model namespace upstream e in
    let (filled, name) = custom_namespace namespace upstream h in
    (
      upstream,
      filled,
      elim name [
        | inl same ↦ inl (sym whole ∙ ap (λ n. n ++ ("/" ++ upstream)) same)
        | inr same ↦ inr (sym whole ∙ ap (λ n. n ++ ("/" ++ upstream)) same)
      ],
    )

parse_custom : (model : String) → parse model ≡ ModelRouteId.custom → IsExplicit model
unfolding parse
parse_custom model h = custom_parts model (split_once "/" model) refl (ground (arith, h))

same_route :
    (env env' : Env) (id : ModelRouteId)
    → id ≢ ModelRouteId.custom
    → route_of env id ≡ route_of env' id
unfolding route_of
same_route env env' native h = refl
same_route env env' ModelRouteId.deep_seek h = refl
same_route env env' ModelRouteId.custom h = absurd (h refl)
same_route env env' unknown h = refl
same_route env env' (ModelRouteId.gemini m) h = refl
same_route env env' (open_router m) h = refl

is_custom : (id : ModelRouteId) → (id ≡ ModelRouteId.custom) ⊎ (id ≢ ModelRouteId.custom)
is_custom ModelRouteId.custom = inl refl
is_custom native = inr (λ e. cc)
is_custom ModelRouteId.deep_seek = inr (λ e. cc)
is_custom unknown = inr (λ e. cc)
is_custom (ModelRouteId.gemini m) = inr (λ e. cc)
is_custom (open_router m) = inr (λ e. cc)

-- A model id resolves alike in every environment, unless it is `custom/` or `proxy/` with something
-- after it.
pub env_only_for-IsExplicit :
    (env env' : Env) (model : String)
    → resolve_route_checked env model ≢ resolve_route_checked env' model
    → IsExplicit model
unfolding resolve_route_checked
env_only_for-IsExplicit env env' model differs = elim (is_custom (parse model)) [
  | inl e ↦ parse_custom model e
  | inr ne ↦ absurd (differs (same_route env env' (parse model) ne))
]

-- The documented forms: an address begins with `https://` or names a port after `http://127.0.0.1:`,
-- and a key variable is made of upper-case ASCII letters, digits and underscores.
abbrev pub Begins : String → String → Type 0
Begins p s = (rest : String) × (p ++ rest ≡ s)

abbrev pub KeyCode : ℕ → Type 0
KeyCode n = ((65 ≤ n) × (n ≤ 90)) ⊎ (((48 ≤ n) × (n ≤ 57)) ⊎ (n ≡ 95))

abbrev pub KeyCodes : String → Type 0
KeyCodes no_text = Unit
KeyCodes (c ::: s) = KeyCode (code c) × KeyCodes s

abbrev pub IsSafe : ProviderRoute → Type 0
IsSafe r =
    (Begins "https://" r.chat_url ⊎ Begins "http://127.0.0.1:" r.chat_url) × KeyCodes r.api_key_env

has_prefix-Begins : (p s : String) → has_prefix p s ≡ true → Begins p s
unfolding has_prefix
has_prefix-Begins p s h = elim (Option-cases (strip_prefix p s)) [
  | inl e ↦ absurd (ground (arith, e, h))
  | inr (rest, e) ↦ (rest, append-strip_prefix p s rest e)
]

url-Begins :
    (url : String) → is_safe_url url ≡ true → Begins "https://" url ⊎ Begins "http://127.0.0.1:" url
url-Begins url h = elim (Bool-cases (has_prefix "https://" url)) [
  | inl e ↦ inl (has_prefix-Begins "https://" url e)
  | inr e ↦ inr (has_prefix-Begins "http://127.0.0.1:" url (ground (arith, e, h)))
]

key_char-KeyCode : (n : ℕ) → is_key_char n ≡ true → KeyCode n
key_char-KeyCode n h = ground arith

chars-KeyCodes : (s : String) → all_chars is_key_char s ≡ true → KeyCodes s
chars-KeyCodes no_text h = tt
chars-KeyCodes (c ::: s) h =
    (key_char-KeyCode (code c) (ground (arith, h)), chars-KeyCodes s (ground (arith, h)))

abbrev IsTested : ProviderRoute → Type 0
IsTested r = (is_safe_url r.chat_url ≡ true) × (all_chars is_key_char r.api_key_env ≡ true)

IsTested-IsSafe : (r : ProviderRoute) → IsTested r → IsSafe r
IsTested-IsSafe r h = (url-Begins r.chat_url h.0, chars-KeyCodes r.api_key_env h.1)

custom-IsSafe : (env : Env) (r : ProviderRoute) → custom_env_route env ≡ ok r → IsSafe r
unfolding custom_env_route
custom-IsSafe env r h = IsTested-IsSafe r (ground (arith, h), ground (arith, h))

route_inj :
    {E A : Type 0} {a b : A} → ◌≡◌ {A = Result E (Option A)} (ok (some a)) (ok (some b)) → a ≡ b
route_inj h = cc

route_of-IsSafe :
    (env : Env) (id : ModelRouteId) (r : ProviderRoute) → route_of env id ≡ ok (some r) → IsSafe r
unfolding route_of has_prefix
route_of-IsSafe env native r h = cc
route_of-IsSafe env unknown r h = cc
route_of-IsSafe env ModelRouteId.deep_seek r h =
    IsTested-IsSafe r (subst IsTested (route_inj h) (refl, refl))
route_of-IsSafe env (ModelRouteId.gemini m) r h =
    IsTested-IsSafe r (subst IsTested (route_inj h) (refl, refl))
route_of-IsSafe env (open_router m) r h =
    IsTested-IsSafe r (subst IsTested (route_inj h) (refl, refl))
route_of-IsSafe env ModelRouteId.custom r h = elim (Result-cases (custom_env_route env)) [
  | inl (r', e) ↦ custom-IsSafe env r (e ∙ ap ok (ground (arith, e, h)))
  | inr (f, e) ↦ absurd (ground (arith, e, h))
]

-- The address of a resolved route begins with `https://` or with `http://127.0.0.1:`, and its key
-- variable has upper-case ASCII letters, digits and underscores only, whatever the environment has.
pub resolve-IsSafe :
    (env : Env) (model : String) (r : ProviderRoute)
    → resolve_route_checked env model ≡ ok (some r)
    → IsSafe r
unfolding resolve_route_checked
resolve-IsSafe env model r h = route_of-IsSafe env (parse model) r h
