-- ===== src/Http/Rows.antt =====
-- The values of DuckDB that src/http_client.cpp makes of a response: HttpResponse::ToRow, ToValue, and
-- their names and types. DuckDB's base64, the conversion of the content, which may throw, and `check` are
-- arguments: `check` is the test that DuckDB makes of the text of a VARCHAR, and that throws for a text
-- that is not UTF-8.
pub mod Typing
use datazoo_oauth.Base.{
  ℕ, Bool, ◌||◌, List, [], ◌∷◌, ◌++◌, Bytes, codes, contains, if◌then◌else◌, Result, ok, ◌>>=◌,
  ◌>>◌,
}
use datazoo_oauth.Http.Url
use datazoo_oauth.Http.Headers.{HeaderMap}
use datazoo_oauth.Http.Message
use datazoo_oauth.Http.Message.{HttpResponse}

-- `duckdb::LogicalType`, as far as it is used.
mutual
  pub data LogicalType : Type 0 where
    varchar_type : LogicalType
    integer_type : LogicalType
    map_type : LogicalType → LogicalType → LogicalType
    struct_type : FieldTypes → LogicalType

  pub data FieldTypes : Type 0 where
    no_types : FieldTypes
    field_type : Bytes → LogicalType → FieldTypes → FieldTypes

-- `duckdb::Value`, likewise; a map has its keys and its values as two lists.
mutual
  pub data Value : Type 0 where
    varchar : Bytes → Value
    integer : ℕ → Value
    map : LogicalType → LogicalType → Values → Values → Value
    struct : Members → Value

  pub data Values : Type 0 where
    no_values : Values
    more : Value → Values → Values

  pub data Members : Type 0 where
    no_members : Members
    member : Bytes → Value → Members → Members

unfoldable pub duckdb_header_type : LogicalType
duckdb_header_type = map_type varchar_type varchar_type

unfoldable pub duckdb_response_type : LogicalType
unfolding duckdb_header_type
duckdb_response_type = struct_type (
    field_type (codes "method") varchar_type (
      field_type (codes "status") integer_type (
        field_type (codes "url") varchar_type (
          field_type (codes "headers") duckdb_header_type (
            field_type (codes "content_type") varchar_type
              (field_type (codes "content") varchar_type no_types))))))

unfoldable pub duckdb_response_names : List Bytes
duckdb_response_names =
    codes "method"
    ∷ codes "status"
    ∷ codes "url"
    ∷ codes "headers"
    ∷ codes "content_type"
    ∷ codes "content"
    ∷ []

-- `MapType::KeyType` and `MapType::ValueType`.
key_type : LogicalType → LogicalType
key_type (map_type k v) = k
key_type t = t

value_type : LogicalType → LogicalType
value_type (map_type k v) = v
value_type t = t

-- `duckdb::Value(std::string)`
unfoldable pub new_varchar : (Bytes → Result (Unit {0})) → Bytes → Result Value
new_varchar check s = do _ ← check s; ok (varchar s)

unfoldable pub header_keys : (Bytes → Result (Unit {0})) → HeaderMap → Result Values
unfolding new_varchar
header_keys check [] = ok no_values
header_keys check ((k, v) ∷ hs) = do
  key ← new_varchar check k
  keys ← header_keys check hs
  ok (more key keys)

unfoldable pub header_values : (Bytes → Result (Unit {0})) → HeaderMap → Result Values
unfolding new_varchar
header_values check [] = ok no_values
header_values check ((k, v) ∷ hs) = do
  value ← new_varchar check v
  values ← header_values check hs
  ok (more value values)

unfoldable pub create_header_map : (Bytes → Result (Unit {0})) → HttpResponse → Result Value
unfolding key_type value_type header_keys header_values duckdb_header_type
create_header_map check r = do
  keys ← header_keys check r.headers
  values ← header_values check r.headers
  ok (map (key_type duckdb_header_type) (value_type duckdb_header_type) keys values)

unfoldable pub to_value : (Bytes → Result (Unit {0})) → HttpResponse → Result Value
to_value check r = do
  method ← new_varchar check (Message.to_string r.method)
  url ← new_varchar check (Url.to_string r.url)
  headers ← create_header_map check r
  content_type ← new_varchar check r.content_type
  content ← new_varchar check r.content
  ok (
      struct (
        member (codes "method") method (
          member (codes "status") (integer r.code) (
            member (codes "url") url (
              member (codes "headers") headers (
                member (codes "content_type") content_type
                  (member (codes "content") content no_members)))))))

-- The content types whose content is shown in base64.
is_shown_in_base64 : Bytes → Bool
is_shown_in_base64 content_type =
    contains (codes "application/octet-stream") content_type
    || contains (codes "application/pdf") content_type
    || contains (codes "image/") content_type
    || contains (codes "video/") content_type
    || contains (codes "audio/") content_type
    || contains (codes "font/") content_type

-- `base64` is DuckDB's encoder, `convert` the charset conversion for a content type.
unfoldable pub content_to_return :
    (Bytes → Bytes) → (Bytes → Bytes → Result Bytes) → Bytes → Bytes → Result Bytes
unfolding is_shown_in_base64
content_to_return base64 convert content_type content =
    if is_shown_in_base64 content_type
    then ok (codes "BINARY_CONTENT_BASE64:" ++ base64 content)
    else convert content_type content

unfoldable pub to_row :
    (Bytes → Result (Unit {0}))
    → (Bytes → Bytes)
    → (Bytes → Bytes → Result Bytes)
    → HttpResponse
    → Result Values
to_row check base64 convert r = do
  shown ← content_to_return base64 convert r.content_type r.content
  method ← new_varchar check (Message.to_string r.method)
  url ← new_varchar check (Url.to_string r.url)
  headers ← create_header_map check r
  content_type ← new_varchar check r.content_type
  content ← new_varchar check shown
  ok (
      more method (
        more (integer r.code)
          (more url (more headers (more content_type (more content no_values))))))
