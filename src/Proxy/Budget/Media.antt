-- ===== src/Proxy/Budget/Media.antt =====
-- Which keys of media the test of a payload keeps out.
use jesterky.Prelude.{
  ◌≢◌, ◌≡◌, refl, Bool, true, false, ◌||◌, List, [], ◌∷◌, String, str_eq, eq_iff, arith, ap, ◌∙◌,
  sym, Bool-cases, inl, inr, All,
}
use jesterky.Json.{
  Value, Values, Members, null, bool, number, string, array, object, nil, cons, empty, member,
}
use jesterky.Proxy.Budget.Defs.{is_media_key, any_media_key, media, any_media, any_member_media}

-- Some object inside the value has this key.
unfoldable mutual
  pub mentions : String → Value → Bool
  mentions k null = false
  mentions k (bool b) = false
  mentions k (number n) = false
  mentions k (string s) = false
  mentions k (array vs) = any_mentions k vs
  mentions k (object m) = members_mention k m

  pub any_mentions : String → Values → Bool
  any_mentions k nil = false
  any_mentions k (cons v vs) = mentions k v || any_mentions k vs

  pub members_mention : String → Members → Bool
  members_mention k empty = false
  members_mention k (member j v m) = str_eq j k || mentions k v || members_mention k m

abbrev pub media_keys : List String
media_keys = "image_url" ∷ "input_audio" ∷ "audio" ∷ "video_url" ∷ []

apart : ◌≢◌ {A = Bool} false true
apart h = cc

other_key : (k j : String) → is_media_key k ≡ true → is_media_key j ≡ false → str_eq j k ≡ false
other_key k j h n = elim (Bool-cases (str_eq j k)) [
  | inr e ↦ e
  | inl e ↦ let same = ap is_media_key ((eq_iff j k).0 e) in absurd (apart (sym n ∙ (same ∙ h)))
]

module _ (k : String) (h : is_media_key k ≡ true) where
  mutual
    unfolding mentions any_mentions members_mention media any_media any_member_media

    mentions_none : (v : Value) → media v ≡ false → mentions k v ≡ false
    mentions_none null n = refl
    mentions_none (bool b) n = refl
    mentions_none (number x) n = refl
    mentions_none (string s) n = refl
    mentions_none (array vs) n = any_mentions_none vs n
    mentions_none (object m) n = members_mention_none m (ground (arith, n)) (ground (arith, n))

    any_mentions_none : (vs : Values) → any_media vs ≡ false → any_mentions k vs ≡ false
    any_mentions_none nil n = refl
    any_mentions_none (cons v vs) n =
        ground
          (arith, n, mentions_none v (ground (arith, n)), any_mentions_none vs (ground (arith, n)))

    members_mention_none :
        (m : Members)
        → any_media_key m ≡ false
        → any_member_media m ≡ false
        → members_mention k m ≡ false
    members_mention_none empty keys n = refl
    members_mention_none (member j v m) keys n = ground (
      arith,
      other_key k j h (ground (arith, keys)),
      mentions_none v (ground (arith, n)),
      members_mention_none m (ground (arith, keys)) (ground (arith, n)),
    )

-- A value that passes the test has none of the keys at any depth.
pub text_only : (v : Value) → media v ≡ false → All (λ k. mentions k v ≡ false) media_keys
text_only v n = (
  mentions_none "image_url" refl v n,
  (
    mentions_none "input_audio" refl v n,
    (mentions_none "audio" refl v n, (mentions_none "video_url" refl v n, tt)),
  ),
)
