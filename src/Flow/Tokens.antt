-- ===== src/Flow/Tokens.antt =====
-- What the tokens of a token response are.
use datazoo_oauth.Base.{
  ℕ, ◌+◌, ◌<◌, ◌^◌, ◌≡◌, ◌≢◌, refl, ap, sym, ◌∙◌, ◌↔◌, inl, inr, true, Option, none, some, [], ◌∷◌,
  Bool-cases, Option-cases, Bytes, codes, if◌then◌else◌, leb, arith, ok,
}
use datazoo_oauth.Base.Int.{ℤ, pos}
use datazoo_oauth.OauthTypes.{OauthTokens, is_expired, calculate_expires_after, new_tokens}
use datazoo_oauth.OauthTypes.Expiry.{calculate_expires_after_lem}
use datazoo_oauth.SecretManager.Json.{Yyjson}
use datazoo_oauth.Flow.{parse_token_response, object_tokens, string_member, with_expiry, or_default}

int_value : (y : Yyjson) → Option y.Value → Option ℤ
int_value y none = none
int_value y (some v) = if y.is_int v then some (y.get_int v) else none

-- A member that is an integer.
unfoldable pub int_member : (y : Yyjson) → Bytes → y.Value → Option ℤ
unfolding int_value
int_member y key root = int_value y (y.obj_get root key)

-- A text that is not empty and parses to a JSON object.
unfoldable pub IsObject : (y : Yyjson) → Bytes → y.Value → Type 0
IsObject y text root = (text ≢ []) × (y.read text ≡ some root) × (y.is_obj root ≡ true)

pub parsed_object :
    (y : Yyjson) (text : Bytes) (now : ℕ) (root : y.Value)
    → IsObject y text root
    → parse_token_response y text now ≡ object_tokens y root now
unfolding IsObject parse_token_response object_tokens
parsed_object y [] now root (given, _, _) = absurd (given refl)
parsed_object y (c ∷ s) now root (given, e, o) = rw (parse_token_response, e, o) refl

IsObject-of_ok :
    (y : Yyjson) (text : Bytes) (now : ℕ) (t : OauthTokens)
    → parse_token_response y text now ≡ ok t
    → (root : y.Value) × IsObject y text root × (object_tokens y root now ≡ ok t)
unfolding IsObject parse_token_response
IsObject-of_ok y [] now t h = absurd (cc)
IsObject-of_ok y (c ∷ s) now t h = elim (Option-cases (y.read (c ∷ s))) [
  | inl unread ↦ absurd (ground arith)
  | inr (root, read) ↦ elim (Bool-cases (y.is_obj root)) [
    | inl o ↦ (root, (ground arith, read, o), ground arith)
    | inr other ↦ absurd (ground arith)
  ]
]

-- The tokens before the expiry is computed.
named : (y : Yyjson) → y.Value → Bytes → OauthTokens
named y root token = record new_tokens {
  access_token = token;
  refresh_token = or_default [] (string_member y (codes "refresh_token") root);
  token_type = or_default (codes "Bearer") (string_member y (codes "token_type") root);
  scope = or_default [] (string_member y (codes "scope") root);
}

object_tokens-some :
    (y : Yyjson) (root : y.Value) (now : ℕ) (token : Bytes)
    → string_member y (codes "access_token") root ≡ some token
    → object_tokens y root now
      ≡ ok (with_expiry y (named y root token) (y.obj_get root (codes "expires_in")) now)
unfolding object_tokens named
object_tokens-some y root now token e = rw (object_tokens, e) refl

object_tokens-none :
    (y : Yyjson) (root : y.Value) (now : ℕ) (t : OauthTokens)
    → string_member y (codes "access_token") root ≡ none
    → object_tokens y root now ≢ ok t
unfolding object_tokens
object_tokens-none y root now t e h = ground arith

token_of_object :
    (y : Yyjson) (root : y.Value) (now : ℕ) (t : OauthTokens)
    → object_tokens y root now ≡ ok t
    → (token : Bytes) × (string_member y (codes "access_token") root ≡ some token)
      × (with_expiry y (named y root token) (y.obj_get root (codes "expires_in")) now ≡ t)
token_of_object y root now t h = elim (Option-cases (string_member y (codes "access_token") root)) [
  | inl e ↦ absurd (object_tokens-none y root now t e h)
  | inr (token, e) ↦
      let made = sym (object_tokens-some y root now token e) ∙ h in (token, e, ground arith)
]

-- A response yields tokens exactly if it is not empty, parses to a JSON object, and the object's
-- `access_token` is a string.
pub parse_token_response_iff :
    (y : Yyjson) (text : Bytes) (now : ℕ)
    → ((t : OauthTokens) × (parse_token_response y text now ≡ ok t)) ↔ (
        (root : y.Value) × IsObject y text root
        × ((token : Bytes) × (string_member y (codes "access_token") root ≡ some token)))
parse_token_response_iff y text now = (
  λ (t, h).
      let (root, o, made) = IsObject-of_ok y text now t h in
      let (token, e, _) = token_of_object y root now t made in (root, o, (token, e)),
  λ (root, o, (token, e)). (
    with_expiry y (named y root token) (y.obj_get root (codes "expires_in")) now,
    parsed_object y text now root o ∙ object_tokens-some y root now token e,
  ),
)

with_expiry-same :
    (y : Yyjson) (t : OauthTokens) (v : Option y.Value) (now : ℕ)
    → ((with_expiry y t v now).access_token ≡ t.access_token)
      × ((with_expiry y t v now).token_type ≡ t.token_type)
unfolding with_expiry calculate_expires_after
with_expiry-same y t none now = (refl, refl)
with_expiry-same y t (some v) now = ground arith

with_expiry-none :
    (y : Yyjson) (t : OauthTokens) (v : Option y.Value) (now later : ℕ)
    → t.expires_after ≡ pos 0
    → int_value y v ≡ none
    → is_expired (with_expiry y t v now) later ≡ true
unfolding with_expiry int_value is_expired
with_expiry-none y t none now later fresh e = ground arith
with_expiry-none y t (some v) now later fresh e = ground arith

with_expiry-some :
    (y : Yyjson) (t : OauthTokens) (v : Option y.Value) (now later n : ℕ)
    → int_value y v ≡ some (pos n)
    → 0 < n
    → now + n < 2 ^ 31
    → is_expired (with_expiry y t v now) later ≡ leb (now + n) later
unfolding int_value with_expiry
with_expiry-some y t none now later n e positive small = absurd (cc)
with_expiry-some y t (some v) now later n e positive small = elim (Bool-cases (y.is_int v)) [
  | inl i ↦
      let value : y.get_int v ≡ pos n = ground arith in
      rw (with_expiry, i)
        (calculate_expires_after_lem (record t { expires_in = y.get_int v }) n now later value
          positive small).0
  | inr other ↦ absurd (ground arith)
]

-- The tokens of a JSON object whose lifetime is a positive integer hold its access token, are of
-- type Bearer unless it says otherwise, and expire after exactly that many seconds, if before 2038.
pub parse_token_response-is_expired :
    (y : Yyjson) (text : Bytes) (now later n : ℕ) (root : y.Value) (t : OauthTokens)
    → IsObject y text root
    → int_member y (codes "expires_in") root ≡ some (pos n)
    → 0 < n
    → now + n < 2 ^ 31
    → parse_token_response y text now ≡ ok t
    → (string_member y (codes "access_token") root ≡ some t.access_token)
      × (t.token_type ≡ or_default (codes "Bearer") (string_member y (codes "token_type") root))
      × (is_expired t later ≡ leb (now + n) later)
unfolding int_member named
parse_token_response-is_expired y text now later n root t o lifetime positive small h =
    let (token, e, made) =
      token_of_object y root now t (sym (parsed_object y text now root o) ∙ h) in
    let v = y.obj_get root (codes "expires_in") in
    let base = named y root token in
    let (same_token, same_type) = with_expiry-same y base v now in
    rw (← made) (
      e ∙ ap some (sym same_token),
      same_type,
      with_expiry-some y base v now later n lifetime positive small,
    )

-- Tokens of a JSON object without an integer lifetime count as expired at every time.
pub parse_token_response-no_lifetime :
    (y : Yyjson) (text : Bytes) (now later : ℕ) (root : y.Value) (t : OauthTokens)
    → IsObject y text root
    → int_member y (codes "expires_in") root ≡ none
    → parse_token_response y text now ≡ ok t
    → is_expired t later ≡ true
unfolding int_member named
parse_token_response-no_lifetime y text now later root t o missing h =
    let (token, e, made) =
      token_of_object y root now t (sym (parsed_object y text now root o) ∙ h) in
    rw (← made) (
      with_expiry-none y (named y root token) (y.obj_get root (codes "expires_in")) now later refl
        missing)
