-- ===== src/OauthTypes.antt =====
-- src/oauth2_types.cpp with its header: the configuration, the tokens, and the PKCE utilities.
pub mod Challenge
pub mod Expiry
use Prim.Native.Nat.{bit_and, bit_or}
use datazoo_oauth.Base.{
  ℕ, zero, suc, ◌+◌, ◌-◌, ◌*◌, ◌/◌, ◌%◌, Bool, not, ◌&&◌, ◌||◌, Option, none, some, List, [], ◌∷◌,
  ◌++◌, map, Bytes, codes, leb, ltb, ◌==◌, if◌then◌else◌, get_or, length, take, replicate, is_empty,
  eqb, starts_with, contains, Result,
}
use datazoo_oauth.Base.Bits.{◌<<<◌, ◌>>>◌}
use datazoo_oauth.Base.Int.{ℤ, pos, ◌-ℤ◌, leb_ℤ, ltb_ℤ, to_int32}
use datazoo_oauth.Encoding.{generate_secure_random_token}

pub data GrantType : Type 0 where
  authorization_code client_credentials refresh_token : GrantType

pub data ClientType : Type 0 where
  pre_delivered custom : ClientType

-- `extra_auth_params` is a std::map: the pairs stand in ascending order of their keys.
pub record OauthConfig : Type 0 where
  pub tenant_name : Bytes
  pub data_center : Bytes
  pub client_id : Bytes
  pub client_secret : Bytes
  pub scope : Bytes
  pub redirect_uri : Bytes
  pub authorization_flow : GrantType
  pub custom_client : Bool
  pub custom_auth_url : Bytes
  pub custom_token_url : Bytes
  pub extra_auth_params : List (Bytes × Bytes)

unfoldable pub get_authorization_url : OauthConfig → Bytes
get_authorization_url c =
    if not (is_empty c.custom_auth_url)
    then c.custom_auth_url
    else codes "https://"
      ++ (c.tenant_name
          ++ (codes ".authentication."
              ++ (c.data_center ++ codes ".hana.ondemand.com/oauth/authorize")))

unfoldable pub get_token_url : OauthConfig → Bytes
get_token_url c =
    if not (is_empty c.custom_token_url)
    then c.custom_token_url
    else codes "https://"
      ++ (c.tenant_name
          ++ (codes ".authentication."
              ++ (c.data_center ++ codes ".hana.ondemand.com/oauth/token")))

unfoldable pub get_default_port : OauthConfig → ℕ
get_default_port c = if c.custom_client then 8080 else 65000

unfoldable pub get_client_type : OauthConfig → ClientType
unfolding starts_with contains
get_client_type c =
    if c.custom_client
    then custom
    else if starts_with (codes "sb-") c.client_id && contains (codes "!b") c.client_id
    then pre_delivered
    else if length c.client_id == 36 && contains (codes "-") c.client_id
    then pre_delivered
    else custom

-- `expires_in` and `expires_after` are `int`.
pub record OauthTokens : Type 0 where
  pub access_token : Bytes
  pub refresh_token : Bytes
  pub token_type : Bytes
  pub scope : Bytes
  pub expires_in : ℤ
  pub expires_after : ℤ

abbrev pub new_tokens : OauthTokens
new_tokens = record {
  access_token = [];
  refresh_token = [];
  token_type = [];
  scope = [];
  expires_in = pos 0;
  expires_after = pos 0;
}

abbrev is_zero : ℤ → Bool
is_zero a = leb_ℤ a (pos 0) && leb_ℤ (pos 0) a

-- `now` is the system clock in seconds since the epoch.
unfoldable pub is_expired : OauthTokens → ℕ → Bool
is_expired t now = is_zero t.expires_after || leb_ℤ t.expires_after (pos now)

unfoldable pub needs_refresh : OauthTokens → ℕ → Bool
needs_refresh t now = is_zero t.expires_after || leb_ℤ (t.expires_after -ℤ pos 300) (pos now)

positive_part : ℤ → ℕ
positive_part (pos n) = n
positive_part (ℤ.negsuc n) = 0

unfoldable pub calculate_expires_after : OauthTokens → ℕ → OauthTokens
unfolding positive_part
calculate_expires_after t now =
    if ltb_ℤ (pos 0) t.expires_in
    then record t { expires_after = to_int32 (now + positive_part t.expires_in) }
    else t

-- OAuth2Utils

unfoldable pub generate_code_verifier : (ℕ → Option Bytes) → Result Bytes
generate_code_verifier rand_bytes = generate_secure_random_token rand_bytes 96

unfoldable pub generate_state : (ℕ → Option Bytes) → Result Bytes
generate_state rand_bytes = generate_secure_random_token rand_bytes 24

unfoldable pub validate_state : Bytes → Bytes → Bool
validate_state received expected = eqb received expected

hex_lower : ℕ → ℕ
hex_lower d = if ltb d 10 then b'0' + d else 87 + d

-- Lower-case hexadecimal digits, highest first, for a value below 16 ^ fuel.
to_hex : ℕ → ℕ → Bytes → Bytes
unfolding hex_lower
to_hex zero n out = out
to_hex (suc fuel) n out =
    let more = to_hex fuel (n / 16) (hex_lower (n % 16) ∷ out) in if n == 0 then out else more

pad : ℕ → Bytes → Bytes
pad width s = replicate (width - length s) b'0' ++ s

-- `hasher` is std::hash<std::string>, whose value is a 64-bit word.
unfoldable pub generate_code_challenge : (Bytes → ℕ) → Bytes → Bytes
unfolding to_hex pad
generate_code_challenge hasher code_verifier =
    let hash_str = pad 16 (to_hex 16 (hasher code_verifier) []) in
    if ltb (length hash_str) 64
    then pad 64 hash_str
    else if ltb 64 (length hash_str)
    then take 64 hash_str
    else hash_str

abbrev base64_chars : Bytes
base64_chars = codes "ABCDEFGHIJKLMNOPQRSTUVWXYZabcdefghijklmnopqrstuvwxyz0123456789+/"

pick : ℕ → ℕ
pick i = get_or base64_chars i 0

-- `base64_chars[i & 0x3F]`
base64_char : ℕ → ℕ
unfolding pick
base64_char i = pick (bit_and i 0x3f)

chunk_chars : ℕ → Bytes
unfolding base64_char
chunk_chars chunk =
    base64_char (chunk >>> 18)
    ∷ base64_char (chunk >>> 12)
    ∷ base64_char (chunk >>> 6)
    ∷ base64_char chunk
    ∷ []

-- `for (i = …; i < 30; i += 3)`, with the rounds left.
chunk_loop : ℕ → ℕ → Bytes → Bytes → Bytes
unfolding chunk_chars
chunk_loop zero i hash result = result
chunk_loop (suc rounds) i hash result =
    let chunk =
      bit_or (bit_or (get_or hash i 0 <<< 16) (get_or hash (i + 1) 0 <<< 8))
        (get_or hash (i + 2) 0) in
    chunk_loop rounds (i + 3) hash (result ++ chunk_chars chunk)

last_chars : ℕ → Bytes
unfolding base64_char
last_chars chunk =
    base64_char (chunk >>> 10) ∷ base64_char (chunk >>> 4) ∷ base64_char (chunk <<< 2) ∷ []

url_safe : ℕ → ℕ
url_safe c = let d = if c == b'+' then b'-' else c in if d == b'/' then b'_' else d

-- `sha256` is OpenSSL's digest, 32 bytes.
unfoldable pub generate_code_challenge_s256 : (Bytes → Bytes) → Bytes → Bytes
unfolding chunk_loop last_chars url_safe
generate_code_challenge_s256 sha256 code_verifier =
    let hash = sha256 code_verifier in
    let last = bit_or (get_or hash 30 0 <<< 8) (get_or hash 31 0) in
    map url_safe (chunk_loop 10 0 hash [] ++ last_chars last)
