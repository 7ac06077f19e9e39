-- ===== src/Proxy/Server/Auth.antt =====
-- Endpoints, and the capability that a client has to show. `as_bytes` is the UTF-8 of a text.
use Prim.Native.Nat.{max, bit_or, bit_xor, zero, suc}
use jesterky.Prelude.{
  ℕ, ◌+◌, ◌==◌, Bool, false, not, ◌&&◌, Option, none, some, List, String, str_eq, get_elem?, length,
  unwrap_or, if◌then◌else◌,
}
use jesterky.Prelude.Text.{is_blank, split_once, to_ascii_lowercase, trim_slashes, has_suffix}

pub data HttpMethod : Type 0 where
  get post : HttpMethod

pub data ProxyEndpoint : Type 0 where
  health models responses not_found : ProxyEndpoint

abbrev endpoint_of : HttpMethod → String → ProxyEndpoint
endpoint_of get route =
    if has_suffix "/health" route
    then health
    else if has_suffix "/models" route
    then models
    else not_found
endpoint_of post route = if has_suffix "/responses" route then responses else not_found

unfoldable pub classify_endpoint : HttpMethod → String → ProxyEndpoint
unfolding trim_slashes has_suffix
classify_endpoint method path = endpoint_of method (trim_slashes path)

-- `candidate.get(index).copied().unwrap_or(0)`
abbrev pub byte_at : List ℕ → ℕ → ℕ
byte_at bytes i = unwrap_or (get_elem? bytes i) 0

-- `for index in 0..width`, with the rounds left.
unfoldable pub differences : List ℕ → List ℕ → ℕ → ℕ → ℕ → ℕ
differences candidate expected zero i difference = difference
differences candidate expected (suc rounds) i difference =
    differences candidate expected rounds (i + 1)
      (bit_or difference (bit_xor (byte_at candidate i) (byte_at expected i)))

unfoldable pub constant_time_eq : List ℕ → List ℕ → Bool
unfolding differences
constant_time_eq candidate expected =
    differences candidate expected (max (length candidate) (length expected)) 0
      (bit_xor (length candidate) (length expected))
    == 0

abbrev pub is_bearer : String → Bool
is_bearer scheme = str_eq (to_ascii_lowercase scheme) "bearer"

abbrev pub authorizes : (String → List ℕ) → String → Option (String × String) → Bool
authorizes as_bytes expected none = false
authorizes as_bytes expected (some (scheme, credential)) =
    is_bearer scheme
    && not (is_blank credential)
    && constant_time_eq (as_bytes credential) (as_bytes expected)

unfoldable pub request_is_authorized : (String → List ℕ) → Option String → String → Bool
unfolding split_once to_ascii_lowercase constant_time_eq
request_is_authorized as_bytes none expected = false
request_is_authorized as_bytes (some raw) expected =
    authorizes as_bytes expected (split_once " " raw)
