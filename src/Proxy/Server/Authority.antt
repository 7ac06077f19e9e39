-- ===== src/Proxy/Server/Authority.antt =====
-- Who is authorised.
use Prim.Native.Nat.{max, bit_or, bit_xor, zero, suc}
use jesterky.Prelude.{
  subst, ℕ, ◌+◌, ◌<◌, ==_iff, ◌≡◌, ◌↔◌, refl, ap, true, false, Option, none, some, List, [], ◌∷◌,
  String, length, arith,
}
use jesterky.Prelude.Bits.{bit_or-zero, bit_xor-zero}
use jesterky.Prelude.Text.{is_blank, split_once}
use jesterky.Proxy.Server.Auth.{
  byte_at, differences, constant_time_eq, is_bearer, authorizes, request_is_authorized,
}

abbrev Agree : List ℕ → List ℕ → ℕ → Type 0
Agree a b i = byte_at a i ≡ byte_at b i

Agree-from :
    (a b : List ℕ) (rounds i : ℕ)
    → Agree a b i
    → ((j : ℕ) → j < rounds → Agree a b (i + 1 + j))
    → (j : ℕ) → j < suc rounds
    → Agree a b (i + j)
Agree-from a b rounds i here later zero l = subst (Agree a b) (omega arith) here
Agree-from a b rounds i here later (suc j) l =
    subst (Agree a b) (omega arith) (later j (omega arith))

differences-zero :
    (a b : List ℕ) (rounds i d : ℕ)
    → (differences a b rounds i d ≡ 0)
      ↔ ((d ≡ 0) × ((j : ℕ) → j < rounds → byte_at a (i + j) ≡ byte_at b (i + j)))
unfolding differences
differences-zero a b zero i d = (λ e. (e, λ j h. absurd (omega arith)), λ h. h.0)
differences-zero a b (suc rounds) i d =
    let here = bit_xor (byte_at a i) (byte_at b i) in
    let ih = differences-zero a b rounds (i + 1) (bit_or d here) in
    (
      λ e.
          let (both, later) = ih.0 e in
          let (before, same) = (bit_or-zero d here).0 both in
          (
            before,
            Agree-from a b rounds i ((bit_xor-zero (byte_at a i) (byte_at b i)).0 same) later,
          ),
      λ h. ih.1 (
        (bit_or-zero d here).1 (
          h.0,
          (bit_xor-zero (byte_at a i) (byte_at b i)).1
              (subst (Agree a b) (omega arith) (h.1 0 (omega arith))),
        ),
        λ j l. subst (Agree a b) (omega arith) (h.1 (suc j) (omega arith)),
      ),
    )

same_bytes :
    (a b : List ℕ)
    → length a ≡ length b
    → ((j : ℕ) → j < length a → byte_at a j ≡ byte_at b j)
    → a ≡ b
same_bytes [] [] e h = refl
same_bytes [] (y ∷ b) e h = absurd (omega arith)
same_bytes (x ∷ a) [] e h = absurd (omega arith)
same_bytes (x ∷ a) (y ∷ b) e h =
    let rest = same_bytes a b (omega arith) (λ j l. h (suc j) (omega arith)) in
    let first = h 0 (omega arith) in λ i. first i ∷ rest i

-- `constant_time_eq` is equality of the bytes.
pub constant_time_eq_lem : (a b : List ℕ) → (constant_time_eq a b ≡ true) ↔ (a ≡ b)
unfolding constant_time_eq
constant_time_eq_lem a b =
    let n = max (length a) (length b) in
    let unequal = bit_xor (length a) (length b) in
    let zero_iff = differences-zero a b n 0 unequal in
    (
      λ e.
          let (lengths, bytes) = zero_iff.0 ((==_iff (differences a b n 0 unequal) 0).0 e) in
          let same = (bit_xor-zero (length a) (length b)).0 lengths in
          same_bytes a b same (λ j l. subst (Agree a b) (omega arith) (bytes j (omega arith))),
      λ e. (==_iff (differences a b n 0 unequal) 0).1 (
          zero_iff.1 (
            (bit_xor-zero (length a) (length b)).1 (ap length e),
            λ j l. ap (λ xs. byte_at xs (0 + j)) e,
          )),
    )

abbrev pub Credited : String → Option (String × String) → Type 0
Credited expected parts =
    (scheme : String) × (parts ≡ some (scheme, expected))
    × (is_bearer scheme ≡ true)
    × (is_blank expected ≡ false)

authorizes_lem :
    (as_bytes : String → List ℕ) (expected : String) (parts : Option (String × String))
    → ((s t : String) → as_bytes s ≡ as_bytes t → s ≡ t)
    → (authorizes as_bytes expected parts ≡ true) ↔ Credited expected parts
authorizes_lem as_bytes expected none injective = (λ e. cc, λ h. cc (h.1))
authorizes_lem as_bytes expected (some (scheme, credential)) injective = (
  λ e.
      let equal : constant_time_eq (as_bytes credential) (as_bytes expected) ≡ true =
        ground (arith, e) in
      let same =
        injective credential expected
          ((constant_time_eq_lem (as_bytes credential) (as_bytes expected)).0 equal) in
      (
        scheme,
        ap (λ c. some (scheme, c)) same,
        ground (arith, e),
        subst (λ c. is_blank c ≡ false) same (ground (arith, e)),
      ),
  λ (scheme', e, bearer, filled).
      let same : credential ≡ expected = cc in
      let same_scheme : scheme ≡ scheme' = cc in
      rw (same, same_scheme, bearer, filled)
        ((constant_time_eq_lem (as_bytes expected) (as_bytes expected)).1 refl),
)

-- A request is authorised exactly if it has an authorization whose part before the first space is
-- `bearer` in any case, and whose part after it is the expected credential, which is not empty; for
-- an encoding `as_bytes` that tells texts apart.
pub request_is_authorized_lem :
    (as_bytes : String → List ℕ) (raw expected : String)
    → ((s t : String) → as_bytes s ≡ as_bytes t → s ≡ t)
    → (request_is_authorized as_bytes none expected ≡ false)
      × ((request_is_authorized as_bytes (some raw) expected ≡ true)
          ↔ Credited expected (split_once " " raw))
unfolding request_is_authorized
request_is_authorized_lem as_bytes raw expected injective =
    (refl, authorizes_lem as_bytes expected (split_once " " raw) injective)
