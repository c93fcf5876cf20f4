-- ===== src/Charset/Detection.antt =====
-- Which charsets are ever detected, and what a conversion keeps.
use datazoo_oauth.Base.{
  ℕ, ◌<◌, ◌≡◌, ◌≢◌, refl, ap, sym, ◌∙◌, true, false, Option, some, List, [], ◌∷◌, map, Bytes, All,
  codes, contains, starts_with, Bool-cases, inl, inr, arith, ◌++◌,
}
use datazoo_oauth.Charset.{
  CharsetType, iso8859_1, iso8859_15, windows_1252, utf8, binary, detect_charset_type, from_bytes,
  from_byte_iso8859_15, from_byte_windows_1252, convert, is_binary, to_utf8,
}

starts_with-append : (p q s : Bytes) → starts_with (p ++ q) s ≡ true → starts_with p s ≡ true
unfolding starts_with
starts_with-append [] q s h = refl
starts_with-append (c ∷ p) q [] h = absurd (cc)
starts_with-append (c ∷ p) q (x ∷ s) h = ground (arith, starts_with-append p q s)

contains-append : (p q s : Bytes) → contains (p ++ q) s ≡ true → contains p s ≡ true
unfolding contains
contains-append p q [] h = starts_with-append p q [] h
contains-append p q (x ∷ s) h =
    ground (arith, starts_with-append p q (x ∷ s), contains-append p q s)

-- No content type is ever taken for ISO-8859-15: its label begins with that of ISO-8859-1, which is
-- looked for first.
pub detect_charset_type-iso8859_15 :
    (content_type : Bytes) → detect_charset_type content_type ≢ iso8859_15
unfolding detect_charset_type
detect_charset_type-iso8859_15 content_type h =
    let prefix = contains-append (codes "charset=ISO-8859-1") (codes "5") content_type in
    elim (Bool-cases (contains (codes "charset=ISO-8859-1") content_type)) [
      | inl latin1 ↦ ground (arith, latin1)
      | inr other ↦ elim (Bool-cases (contains (codes "charset=ISO-8859-15") content_type)) [
        | inl latin9 ↦ absurd (let impossible : true ≡ false = sym (prefix latin9) ∙ other in cc)
        | inr neither ↦ ground (arith, other, neither)
      ]
    ]

-- What the library's codecs do with ASCII text: each code point is one byte.
pub record IsAsciiCodec (decode_utf8 : Bytes → Option (List ℕ))
    (encode_utf8 : List ℕ → Option Bytes) : Type 0 where
  pub decodes : (s : Bytes) → All (λ c. c < 128) s → decode_utf8 s ≡ some s
  pub encodes : (s : Bytes) → All (λ c. c < 128) s → encode_utf8 s ≡ some s

byte_iso8859_15-ascii : (c : ℕ) → c < 128 → from_byte_iso8859_15 c ≡ c
unfolding from_byte_iso8859_15
byte_iso8859_15-ascii c h = ground arith

iso8859_15-ascii : (s : Bytes) → All (λ c. c < 128) s → map from_byte_iso8859_15 s ≡ s
iso8859_15-ascii [] h = refl
iso8859_15-ascii (c ∷ s) (hc, hs) =
    let same = byte_iso8859_15-ascii c hc in let rest = iso8859_15-ascii s hs in cc

byte_windows_1252-ascii : (c : ℕ) → c < 128 → from_byte_windows_1252 c ≡ c
unfolding from_byte_windows_1252
byte_windows_1252-ascii c h = ground arith

windows_1252-ascii : (s : Bytes) → All (λ c. c < 128) s → map from_byte_windows_1252 s ≡ s
windows_1252-ascii [] h = refl
windows_1252-ascii (c ∷ s) (hc, hs) =
    let same = byte_windows_1252-ascii c hc in let rest = windows_1252-ascii s hs in cc

from_bytes-ascii :
    (decode_utf8 : Bytes → Option (List ℕ)) (encode_utf8 : List ℕ → Option Bytes)
    (kind : CharsetType) (s : Bytes)
    → IsAsciiCodec decode_utf8 encode_utf8
    → All (λ c. c < 128) s
    → from_bytes decode_utf8 kind s ≡ some s
unfolding from_bytes
from_bytes-ascii decode_utf8 encode_utf8 iso8859_1 s codec h = refl
from_bytes-ascii decode_utf8 encode_utf8 iso8859_15 s codec h = ap some (iso8859_15-ascii s h)
from_bytes-ascii decode_utf8 encode_utf8 windows_1252 s codec h = ap some (windows_1252-ascii s h)
from_bytes-ascii decode_utf8 encode_utf8 utf8 s codec h = codec.decodes s h
from_bytes-ascii decode_utf8 encode_utf8 binary s codec h = codec.decodes s h

-- ASCII content is converted to itself, whatever content type the response states.
pub convert-ascii :
    (decode_utf8 : Bytes → Option (List ℕ)) (encode_utf8 : List ℕ → Option Bytes)
    (content_type s : Bytes)
    → IsAsciiCodec decode_utf8 encode_utf8
    → All (λ c. c < 128) s
    → convert decode_utf8 encode_utf8 content_type s ≡ s
unfolding convert to_utf8
convert-ascii decode_utf8 encode_utf8 content_type [] codec h = refl
convert-ascii decode_utf8 encode_utf8 content_type (c ∷ s) codec h =
    let kind = detect_charset_type content_type in
    let converted : to_utf8 encode_utf8 (from_bytes decode_utf8 kind (c ∷ s)) (c ∷ s) ≡ c ∷ s =
      rw
        (
          from_bytes-ascii decode_utf8 encode_utf8 kind (c ∷ s) codec h,
          to_utf8,
          codec.encodes (c ∷ s) h,
        )
        refl in
    elim (Bool-cases (is_binary kind)) [ inl raw ↦ rw (raw) refl | inr text ↦ rw (text) converted ]
