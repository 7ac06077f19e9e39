-- ===== src/Proxy/Server/Catalog.antt =====
-- The catalog of models that the client decodes, `models_catalog` of server.rs.
use jesterky.Prelude.{true, false, [], ◌∷◌, String}
use jesterky.Json.{Value, null, bool, number, string, pos_int, array_of}
use jesterky.Proxy.Sse.Defs.{json}

-- Only the two names vary.
catalog_entry : String → Value
unfolding json
catalog_entry model = json (
    ("slug", string model)
    ∷ ("display_name", string model)
    ∷ ("description", string "Served via the jesterky Responses↔chat proxy.")
    ∷ ("context_window", number (pos_int 128000))
    ∷ ("max_context_window", number (pos_int 128000))
    ∷ ("auto_compact_token_limit", null)
    ∷ ("input_modalities", array_of ((string "text") ∷ []))
    ∷ ("supports_parallel_tool_calls", bool true)
    ∷ ("supports_image_detail_original", bool false)
    ∷ ("prefer_websockets", bool false)
    ∷ ("support_verbosity", bool false)
    ∷ ("default_verbosity", string "low")
    ∷ ("apply_patch_tool_type", string "freeform")
    ∷ ("web_search_tool_type", string "text_and_image")
    ∷ ("shell_type", string "shell_command")
    ∷ ("visibility", string "list")
    ∷ ("supported_in_api", bool true)
    ∷ ("minimal_client_version", string "0.0.0")
    ∷ ("priority", number (pos_int 0))
    ∷ ("upgrade", null)
    ∷ ("availability_nux", null)
    ∷ ("reasoning_summary_format", string "experimental")
    ∷ ("default_reasoning_summary", string "none")
    ∷ ("default_reasoning_level", string "medium")
    ∷ (
      "truncation_policy",
      json (("mode", string "tokens") ∷ ("limit", number (pos_int 10000)) ∷ []),
    )
    ∷ (
      "supported_reasoning_levels",
      array_of (
          (json (
            ("effort", string "low")
            ∷ ("description", string "Fast responses with lighter reasoning")
            ∷ []))
          ∷ (json (
              ("effort", string "medium")
              ∷ ("description", string "Balances speed and reasoning depth")
              ∷ []))
          ∷ (json
              (("effort", string "high") ∷ ("description", string "Greater reasoning depth") ∷ []))
          ∷ []),
    )
    ∷ (
      "base_instructions",
      string "You are a coding agent. Use the provided tools to build and verify.",
    )
    ∷ ("supports_reasoning_summaries", bool false)
    ∷ ("supports_search_tool", bool false)
    ∷ ("additional_speed_tiers", array_of [])
    ∷ ("available_in_plans", array_of [])
    ∷ ("experimental_supported_tools", array_of [])
    ∷ ("service_tiers", array_of [])
    ∷ (
      "model_messages",
      json (
          (
            "instructions_template",
            string "You are a coding agent. Use the provided tools to build and verify.",
          )
          ∷ []),
    )
    ∷ [])

unfoldable pub models_catalog : String → Value
unfolding json catalog_entry
models_catalog model = json (("models", array_of (catalog_entry model ∷ [])) ∷ [])
