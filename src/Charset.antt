-- ===== src/Charset.antt =====
-- src/charset_converter.cpp with its header: the charset of a response and its conversion to UTF-8.
-- A wide string is the list of its code points; the two directions of
-- `std::wstring_convert<std::codecvt_utf8<wchar_t>>` are parameters, `none` where they throw.
pub mod Detection
use datazoo_oauth.Base.{
  ℕ, ◌-◌, Bool, true, false, ◌&&◌, ◌||◌, Option, none, some, List, [], ◌∷◌, map, Bytes, codes, leb,
  ◌==◌, if◌then◌else◌, get_or, is_empty, contains,
}

pub data CharsetType : Type 0 where
  iso8859_1 iso8859_15 windows_1252 utf8 binary : CharsetType

any_contained : List Bytes → Bytes → Bool
any_contained [] content = false
any_contained (p ∷ ps) content = contains p content || any_contained ps content

abbrev binary_patterns : List Bytes
binary_patterns =
    codes "application/octet-stream"
    ∷ codes "application/pdf"
    ∷ codes "image/"
    ∷ codes "video/"
    ∷ codes "audio/"
    ∷ codes "font/"
    ∷ []

unfoldable pub is_binary_content_type : Bytes → Bool
unfolding any_contained
is_binary_content_type content_type = any_contained binary_patterns content_type

unfoldable pub detect_charset_type : Bytes → CharsetType
detect_charset_type content_type =
    if is_binary_content_type content_type
    then binary
    else if contains (codes "charset=ISO-8859-1") content_type
    then iso8859_1
    else if contains (codes "charset=ISO-8859-15") content_type
    then iso8859_15
    else if contains (codes "charset=windows-1252") content_type
    then windows_1252
    else if contains (codes "charset=utf-8") content_type
    then utf8
    else utf8

charset_name : CharsetType → Bytes
charset_name iso8859_1 = codes "ISO-8859-1"
charset_name iso8859_15 = codes "ISO-8859-15"
charset_name windows_1252 = codes "windows-1252"
charset_name utf8 = codes "utf-8"
charset_name binary = codes "binary"

-- The members of a converter; the wide-string converter that it keeps for UTF-8 holds no state.
pub record CharsetConverter : Type 0 where
  pub charset_type : CharsetType
  pub charset : Bytes

unfoldable pub new_converter : Bytes → CharsetConverter
unfolding charset_name detect_charset_type
new_converter content_type = record {
  charset_type = detect_charset_type content_type;
  charset = charset_name (detect_charset_type content_type);
}

-- The eight characters in which ISO-8859-15 differs from ISO-8859-1.
unfoldable pub from_byte_iso8859_15 : ℕ → ℕ
from_byte_iso8859_15 c =
    if c == 0xA4
    then 0x20AC
    else if c == 0xA6
    then 0x0160
    else if c == 0xA8
    then 0x0161
    else if c == 0xB4
    then 0x017D
    else if c == 0xB8
    then 0x017E
    else if c == 0xBC
    then 0x0152
    else if c == 0xBD
    then 0x0153
    else if c == 0xBE
    then 0x0178
    else c

abbrev windows_1252_table : List ℕ
windows_1252_table =
    0x20AC ∷ 0x0081 ∷ 0x201A ∷ 0x0192 ∷ 0x201E ∷ 0x2026 ∷ 0x2020 ∷ 0x2021 ∷ 0x02C6 ∷ 0x2030 ∷ 0x0160
    ∷ 0x2039 ∷ 0x0152 ∷ 0x008D ∷ 0x017D ∷ 0x008F ∷ 0x0090 ∷ 0x2018 ∷ 0x2019 ∷ 0x201C ∷ 0x201D
    ∷ 0x2022 ∷ 0x2013 ∷ 0x2014 ∷ 0x02DC ∷ 0x2122 ∷ 0x0161 ∷ 0x203A ∷ 0x0153 ∷ 0x009D ∷ 0x017E
    ∷ 0x0178 ∷ []

unfoldable pub from_byte_windows_1252 : ℕ → ℕ
from_byte_windows_1252 c =
    if leb 0x80 c && leb c 0x9F then get_or windows_1252_table (c - 0x80) 0 else c

unfoldable pub from_bytes : (Bytes → Option (List ℕ)) → CharsetType → Bytes → Option (List ℕ)
from_bytes decode_utf8 iso8859_1 input = some input
from_bytes decode_utf8 iso8859_15 input = some (map from_byte_iso8859_15 input)
from_bytes decode_utf8 windows_1252 input = some (map from_byte_windows_1252 input)
from_bytes decode_utf8 utf8 input = decode_utf8 input
from_bytes decode_utf8 binary input = decode_utf8 input

is_binary : CharsetType → Bool
is_binary binary = true
is_binary iso8859_1 = false
is_binary iso8859_15 = false
is_binary windows_1252 = false
is_binary utf8 = false

-- The text in UTF-8, or the input itself where a conversion throws.
to_utf8 : (List ℕ → Option Bytes) → Option (List ℕ) → Bytes → Bytes
to_utf8 encode_utf8 none input = input
to_utf8 encode_utf8 (some wide) input = elim (encode_utf8 wide) [ none ↦ input | some text ↦ text ]

unfoldable pub convert : (Bytes → Option (List ℕ)) → (List ℕ → Option Bytes) → Bytes → Bytes → Bytes
unfolding is_binary to_utf8
convert decode_utf8 encode_utf8 content_type input =
    let kind = detect_charset_type content_type in
    if is_empty input
    then []
    else if is_binary kind
    then input
    else to_utf8 encode_utf8 (from_bytes decode_utf8 kind input) input
