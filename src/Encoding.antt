-- ===== src/Encoding.antt =====
-- src/oauth2_url_pure.cpp, the encoders: form encoding, base64url of random bytes, HTML escaping.
pub mod Form
pub mod Query
pub mod Token
pub mod Html
use Prim.Native.Nat.{bit_and, bit_or}
use datazoo_oauth.Base.{
  ℕ, ◌+◌, ◌/◌, ◌%◌, Bool, ◌&&◌, ◌||◌, Option, none, some, List, [], ◌∷◌, ◌++◌, Bytes, codes, leb,
  ltb, ◌==◌, if◌then◌else◌, get_or, Result, ok, err, runtime_error,
}
use datazoo_oauth.Base.Bits.{◌<<<◌, ◌>>>◌}

-- RFC 3986 unreserved characters.
abbrev pub is_unreserved : ℕ → Bool
is_unreserved c =
    (leb b'A' c && leb c b'Z')
    || (leb b'a' c && leb c b'z')
    || (leb b'0' c && leb c b'9')
    || c == b'-'
    || c == b'_'
    || c == b'.'
    || c == b'~'

hex_digit : ℕ → ℕ
hex_digit d = if ltb d 10 then b'0' + d else 55 + d

-- One round of the loop of `UrlEncode`.
encode_byte : ℕ → Bytes
unfolding hex_digit
encode_byte c =
    if is_unreserved c
    then c ∷ []
    else if c == b' '
    then b'+' ∷ []
    else b'%' ∷ hex_digit (c / 16) ∷ hex_digit (c % 16) ∷ []

unfoldable pub url_encode : Bytes → Bytes
unfolding encode_byte
url_encode [] = []
url_encode (c ∷ s) = encode_byte c ++ url_encode s

abbrev pub alphabet : Bytes
alphabet = codes "ABCDEFGHIJKLMNOPQRSTUVWXYZabcdefghijklmnopqrstuvwxyz0123456789-_"

unfoldable pub pick : ℕ → ℕ
pick i = get_or alphabet i 0

-- `ALPHABET[i & 0x3F]`
unfoldable pub symbol : ℕ → ℕ
unfolding pick
symbol i = pick (bit_and i 0x3f)

unfoldable pub triple : ℕ → ℕ → ℕ → ℕ
triple byte0 byte1 byte2 = bit_or (bit_or (byte0 <<< 16) (byte1 <<< 8)) byte2

-- The loop of `GenerateSecureRandomToken`, three bytes a round; the last round may have fewer.
unfoldable pub encode_buffer : Bytes → Bytes
unfolding symbol triple
encode_buffer [] = []
encode_buffer (b0 ∷ []) = symbol (triple b0 0 0 >>> 18) ∷ symbol (triple b0 0 0 >>> 12) ∷ []
encode_buffer (b0 ∷ b1 ∷ []) =
    let t = triple b0 b1 0 in symbol (t >>> 18) ∷ symbol (t >>> 12) ∷ symbol (t >>> 6) ∷ []
encode_buffer (b0 ∷ b1 ∷ b2 ∷ rest) =
    let t = triple b0 b1 b2 in
    symbol (t >>> 18) ∷ symbol (t >>> 12) ∷ symbol (t >>> 6) ∷ symbol t ∷ encode_buffer rest

abbrev no_randomness : Bytes
no_randomness =
    codes "Could not obtain cryptographically secure random bytes for an OAuth2 security "
    ++ codes "token (RAND_bytes failed). Refusing to continue with a predictable value."

-- `rand_bytes n` is what RAND_bytes leaves in a buffer of `n` bytes, `none` if it does not return 1.
unfoldable pub generate_secure_random_token : (ℕ → Option Bytes) → ℕ → Result Bytes
generate_secure_random_token rand_bytes num_bytes = elim (rand_bytes num_bytes) [
  | none ↦ err (runtime_error no_randomness)
  | some buffer ↦ ok (encode_buffer buffer)
]

escape_byte : ℕ → Bytes
escape_byte c =
    if c == b'&'
    then codes "&amp;"
    else if c == b'<'
    then codes "&lt;"
    else if c == b'>'
    then codes "&gt;"
    else if c == 34
    then codes "&quot;"
    else if c == 39
    then codes "&#39;"
    else c ∷ []

unfoldable pub escape_html_text : Bytes → Bytes
unfolding escape_byte
escape_html_text [] = []
escape_html_text (c ∷ s) = escape_byte c ++ escape_html_text s
