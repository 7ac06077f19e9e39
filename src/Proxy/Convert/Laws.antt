-- ===== src/Proxy/Convert/Laws.antt =====
-- What every chat payload of a request satisfies.
use jesterky.Prelude.{
  some_inj, ok_inj, subst, ◌≡◌, ◌≢◌, refl, sym, ap, ◌∙◌, ◌⊎◌, inl, inr, Bool, true, false, Option,
  none, some, List, [], ◌∷◌, ◌++◌, String, map, Result, ok, All, arith, Result-cases, Bool-cases, ℕ,
  ◌+◌, length, length-append, length-map,
}
use jesterky.Json.{Value, Number}
use jesterky.Proxy.Convert.Request.{Tool, Tools, Request, TextFormat, json_object, json_schema}
use jesterky.Proxy.Convert.Chat.{ChatMessage, ChatTool, ChatPayload}
use jesterky.Proxy.Convert.Translate.{
  ToolTranslation, chat_tool, chat_tools, qualified, chat_payload, base_payload, set_format,
  object_format, with_tools, with_schema_text, is_positive, positive, option_or,
}

abbrev IsLoose : ChatTool → Type 0
IsLoose t = t.spec.strict ≡ none

All-append {ℓ κ} :
    {A : Type ℓ} (P : A → Type κ) (xs ys : List A) → All P xs → All P ys → All P (xs ++ ys)
All-append P [] ys h k = k
All-append P (x ∷ xs) ys h k = (h.0, All-append P xs ys h.1 k)

qualified-IsLoose :
    (ns : String) (ts : List ChatTool) → All IsLoose ts → All IsLoose (map (qualified ns) ts)
qualified-IsLoose ns [] h = tt
qualified-IsLoose ns (t ∷ ts) h = (h.0, qualified-IsLoose ns ts h.1)

mutual
  unfolding chat_tools chat_tool

  chat_tool-IsLoose : (t : Tool) → All IsLoose (chat_tool false t).tools
  chat_tool-IsLoose (Tool.function name spec) = (refl, tt)
  chat_tool-IsLoose (Tool.custom name) = tt
  chat_tool-IsLoose (Tool.namespace name ts) =
      qualified-IsLoose name (chat_tools false ts).tools (chat_tools-IsLoose ts)
  chat_tool-IsLoose (Tool.builtin kind) = tt

  chat_tools-IsLoose : (ts : Tools) → All IsLoose (chat_tools false ts).tools
  chat_tools-IsLoose Tools.nil = tt
  chat_tools-IsLoose (Tools.cons t ts) =
      All-append IsLoose (chat_tool false t).tools (chat_tools false ts).tools (chat_tool-IsLoose t)
        (chat_tools-IsLoose ts)

-- The tools of a request without their namespaces.
unfoldable mutual
  pub leaves_of : Tool → ℕ
  leaves_of (Tool.function name spec) = 1
  leaves_of (Tool.custom name) = 1
  leaves_of (Tool.namespace name ts) = leaves ts
  leaves_of (Tool.builtin kind) = 1

  pub leaves : Tools → ℕ
  leaves Tools.nil = 0
  leaves (Tools.cons t ts) = leaves_of t + leaves ts

abbrev Accounts : ToolTranslation → ℕ → Type 0
Accounts a n = length a.tools + length a.omitted_custom_names ≡ n

mutual
  unfolding chat_tools chat_tool leaves leaves_of

  chat_tool-Accounts : (supports : Bool) (t : Tool) → Accounts (chat_tool supports t) (leaves_of t)
  chat_tool-Accounts supports (Tool.function name spec) = refl
  chat_tool-Accounts supports (Tool.custom name) = refl
  chat_tool-Accounts supports (Tool.namespace name ts) = omega (
    arith,
    length-map (qualified name) (chat_tools supports ts).tools,
    chat_tools-Accounts supports ts,
  )
  chat_tool-Accounts supports (Tool.builtin kind) = refl

  chat_tools-Accounts :
      (supports : Bool) (ts : Tools) → Accounts (chat_tools supports ts) (leaves ts)
  chat_tools-Accounts supports Tools.nil = refl
  chat_tools-Accounts supports (Tools.cons t ts) =
      let a = chat_tool supports t in
      let b = chat_tools supports ts in
      omega (
        arith,
        length-append a.tools b.tools,
        length-append a.omitted_custom_names b.omitted_custom_names,
        chat_tool-Accounts supports t,
        chat_tools-Accounts supports ts,
      )

-- Every tool of a request, at any depth of namespaces, is either translated or named among the
-- omitted ones.
pub every_tool_accounted :
    (supports : Bool) (ts : Tools)
    → length (chat_tools supports ts).tools + length (chat_tools supports ts).omitted_custom_names
      ≡ leaves ts
every_tool_accounted supports ts = chat_tools-Accounts supports ts

-- A format that every provider accepts.
abbrev pub IsPlainFormat : Option Value → Type 0
IsPlainFormat f = (f ≡ none) ⊎ (f ≡ some object_format)

-- What a payload asks for fits the provider.
pub record Fits (supports : Bool) (p : ChatPayload) : Type 0 where
  pub no_schema : supports ≡ false → IsPlainFormat p.response_format
  pub no_strict : (ts : List ChatTool) → supports ≡ false → p.tools ≡ some ts → All IsLoose ts
  pub free_to_call : (ts : List ChatTool) → p.tools ≡ some ts → p.response_format ≡ none
  pub some_tokens : (n : Number) → p.max_tokens ≡ some n → is_positive n ≡ true

none-ne-some : {A : Type 0} {a : A} → none ≢ some a
none-ne-some h = cc

positive-is_positive : (o : Option Number) (n : Number) → positive o ≡ some n → is_positive n ≡ true
positive-is_positive none n h = cc
positive-is_positive (some m) n h = elim (Bool-cases (is_positive m)) [
  | inl p ↦ let same : m ≡ n = some_inj (rw p at h) in subst (λ k. is_positive k ≡ true) same p
  | inr np ↦ absurd (ground (arith, np, h))
]

-- A payload that has neither tools nor a format yet.
record IsBare (p : ChatPayload) : Type 0 where
  untooled : p.tools ≡ none
  unformatted : p.response_format ≡ none
  tokens : (n : Number) → p.max_tokens ≡ some n → is_positive n ≡ true

base-IsBare :
    (to_string : Value → String) (request : Request) (upstream_model : String)
    (omitted : List String)
    → IsBare (base_payload to_string request upstream_model omitted)
unfolding base_payload
base-IsBare to_string request upstream_model omitted = record {
  untooled = refl;
  unformatted = refl;
  tokens =
      positive-is_positive
        (option_or request.settings.max_output_tokens request.settings.max_tokens);
}

bare-Fits : (supports : Bool) (p : ChatPayload) → IsBare p → Fits supports p
bare-Fits supports p b = record {
  no_schema = λ e. inl b.unformatted;
  no_strict = λ ts e some_tools. absurd (none-ne-some (sym b.untooled ∙ some_tools));
  free_to_call = λ ts some_tools. b.unformatted;
  some_tokens = b.tokens;
}

-- A format set on a bare payload, with any messages.
formatted-Fits :
    (supports : Bool) (p : ChatPayload) (f : Value) (messages : List ChatMessage)
    → (supports ≡ false → f ≡ object_format)
    → IsBare p
    → Fits supports (record p { response_format = some f; messages = messages })
formatted-Fits supports p f messages plain b = record {
  no_schema = λ e. inr (ap some (plain e));
  no_strict = λ ts e some_tools. absurd (none-ne-some (sym b.untooled ∙ some_tools));
  free_to_call = λ ts some_tools. absurd (none-ne-some (sym b.untooled ∙ some_tools));
  some_tokens = b.tokens;
}

set_format-Fits :
    (schema_text : Value → Result String String) (supports : Bool) (f : Option (Option TextFormat))
    (p p' : ChatPayload)
    → IsBare p
    → set_format schema_text supports f p ≡ ok p'
    → Fits supports p'
unfolding set_format
set_format-Fits schema_text supports none p p' b h =
    subst (Fits supports) (ok_inj h) (bare-Fits supports p b)
set_format-Fits schema_text supports (some none) p p' b h =
    subst (Fits supports) (ok_inj h) (bare-Fits supports p b)
set_format-Fits schema_text supports (some (some TextFormat.text)) p p' b h =
    subst (Fits supports) (ok_inj h) (bare-Fits supports p b)
set_format-Fits schema_text supports (some (some json_object)) p p' b h =
    subst (Fits supports) (ok_inj h)
      (formatted-Fits supports p object_format p.messages (λ e. refl) b)
set_format-Fits schema_text true (some (some (json_schema name schema strict))) p p' b h =
    subst (Fits true) (ok_inj h) (formatted-Fits true p _ p.messages (λ e. cc) b)
set_format-Fits schema_text false (some (some (json_schema name schema strict))) p p' b h =
    elim (Result-cases (schema_text schema)) [
      | inl (text, e) ↦
          subst (Fits false) (ok_inj (ap (with_schema_text p) (sym e) ∙ h))
            (formatted-Fits false p object_format _ (λ e. refl) b)
      | inr (f, e) ↦ absurd (ground (arith, e, h))
    ]

tooled-Fits :
    (schema_text : Value → Result String String) (supports : Bool) (request : Request)
    (p p' : ChatPayload) (ts : List ChatTool)
    → IsBare p
    → (supports ≡ false → All IsLoose ts)
    → with_tools schema_text supports request p ts ≡ ok p'
    → Fits supports p'
tooled-Fits schema_text supports request p p' [] b loose h =
    set_format-Fits schema_text supports request.settings.format p p' b h
tooled-Fits schema_text supports request p p' (t ∷ ts) b loose h =
    subst (Fits supports) (ok_inj h) (record {
      no_schema = λ e. inl b.unformatted;
      no_strict = λ ts' e same. subst (All IsLoose) (some_inj same) (loose e);
      free_to_call = λ ts' same. b.unformatted;
      some_tokens = b.tokens;
    })

-- A payload asks a provider without JSON schemas for none and for no strict tools; it sets no
-- format where the model may call tools; and a limit on the tokens that it sets is positive.
pub chat_payload-Fits :
    (to_string : Value → String) (schema_text : Value → Result String String) (request : Request)
    (upstream_model : String) (supports : Bool) (p : ChatPayload)
    → chat_payload to_string schema_text request upstream_model supports ≡ ok p
    → Fits supports p
unfolding chat_payload
chat_payload-Fits to_string schema_text request upstream_model supports p h =
    let translated = chat_tools supports request.tools in
    tooled-Fits schema_text supports request
      (base_payload to_string request upstream_model translated.omitted_custom_names) p
      translated.tools
      (base-IsBare to_string request upstream_model translated.omitted_custom_names)
      (λ e. rw e (chat_tools-IsLoose request.tools)) h
