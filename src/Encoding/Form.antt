-- ===== src/Encoding/Form.antt =====
-- Form encoding against the decoder of application/x-www-form-urlencoded.
use datazoo_oauth.Base.{
  is_empty, false, ℕ, ◌+◌, ◌-◌, ◌*◌, ◌<◌, ◌≡◌, ◌≢◌, refl, ◌&&◌, Option, none, some, [], ◌∷◌, ◌++◌,
  Bytes, IsBytes, All, All-append, leb, ◌==◌, if◌then◌else◌, arith,
}
use datazoo_oauth.Encoding.{hex_digit, encode_byte, url_encode}

-- The value of a hexadecimal digit in either case.
hex_value : ℕ → Option ℕ
hex_value c =
    if leb b'0' c && leb c b'9'
    then some (c - b'0')
    else if leb b'A' c && leb c b'F'
    then some (c - 55)
    else if leb b'a' c && leb c b'f'
    then some (c - 87)
    else none

-- Outside an escape, after its `%`, and after its first digit.
pub data Mode : Type 0 where
  plain percent : Mode
  digit : ℕ → Mode

abbrev push : ℕ → Option Bytes → Option Bytes
push c none = none
push c (some s) = some (c ∷ s)

unfoldable pub url_decode : Mode → Bytes → Option Bytes
unfolding hex_value
url_decode plain [] = some []
url_decode percent [] = none
url_decode (digit h) [] = none
url_decode plain (c ∷ s) =
    let escape = url_decode percent s in
    let rest = url_decode plain s in
    if c == b'%' then escape else if c == b'+' then push b' ' rest else push c rest
url_decode percent (c ∷ s) = elim (hex_value c) [ none ↦ none | some v ↦ url_decode (digit v) s ]
url_decode (digit h) (c ∷ s) = elim (hex_value c) [
  | none ↦ none
  | some v ↦ push (h * 16 + v) (url_decode plain s)
]

hex_value-hex_digit : (d : ℕ) → d < 16 → hex_value (hex_digit d) ≡ some d
unfolding hex_value hex_digit
hex_value-hex_digit d h = ground arith

decode-encode_byte :
    (c : ℕ) (s : Bytes)
    → c < 256
    → url_decode plain (encode_byte c ++ s) ≡ push c (url_decode plain s)
unfolding encode_byte url_decode
decode-encode_byte c s h = ground arith

-- Decoding what `UrlEncode` writes gives the text back, for every byte string.
pub url_decode-url_encode : (s : Bytes) → IsBytes s → url_decode plain (url_encode s) ≡ some s
unfolding url_encode
url_decode-url_encode [] h = unfold url_decode in refl
url_decode-url_encode (c ∷ s) (hc, hs) =
    rw (decode-encode_byte c (url_encode s) hc, url_decode-url_encode s hs)

-- What may stand in an encoded value.
abbrev pub IsSafe : ℕ → Type 0
IsSafe c = (c ≢ b'&') × (c ≢ b'=') × (c ≢ b'#') × (c ≢ b'?') × (32 < c) × (c < 127)

encode_byte-IsSafe : (c : ℕ) → c < 256 → All IsSafe (encode_byte c)
unfolding encode_byte hex_digit
encode_byte-IsSafe c h = ground arith

pub url_encode-IsSafe : (s : Bytes) → IsBytes s → All IsSafe (url_encode s)
unfolding url_encode
url_encode-IsSafe [] h = tt
url_encode-IsSafe (c ∷ s) (hc, hs) =
    All-append IsSafe (encode_byte c) (url_encode s) (encode_byte-IsSafe c hc)
      (url_encode-IsSafe s hs)

encode_byte-HasNoMark :
    (c : ℕ) → c < 256 → All (λ d. (d ≢ b'=') × (d ≢ b'&') × (d ≢ b'"')) (encode_byte c)
unfolding encode_byte hex_digit
encode_byte-HasNoMark c h = ground arith

-- None of the marks by which the redaction of a body finds its places.
pub url_encode-HasNoMark :
    (s : Bytes) → IsBytes s → All (λ d. (d ≢ b'=') × (d ≢ b'&') × (d ≢ b'"')) (url_encode s)
unfolding url_encode
url_encode-HasNoMark [] h = tt
url_encode-HasNoMark (c ∷ s) (hc, hs) =
    All-append (λ d. (d ≢ b'=') × (d ≢ b'&') × (d ≢ b'"')) (encode_byte c) (url_encode s)
      (encode_byte-HasNoMark c hc) (url_encode-HasNoMark s hs)

is_empty-encode_byte : (c : ℕ) (s : Bytes) → is_empty (encode_byte c ++ s) ≡ false
unfolding encode_byte
is_empty-encode_byte c s = ground arith

pub is_empty-url_encode : (s : Bytes) → is_empty (url_encode s) ≡ is_empty s
unfolding url_encode
is_empty-url_encode [] = refl
is_empty-url_encode (c ∷ s) = is_empty-encode_byte c (url_encode s)
