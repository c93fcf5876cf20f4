-- ===== src/SecretManager.antt =====
-- src/oauth2_secret_token_manager.cpp. A DuckDB secret is its map from keys to the texts of the
-- values; yyjson, DuckDB's base64 and the registry of secrets are parameters.
pub mod Json
pub mod Cached
use datazoo_oauth.Base.{
  ℕ, ◌+◌, Bool, true, false, not, ◌&&◌, ◌||◌, Option, none, some, List, [], ◌∷◌, ◌++◌, Bytes, codes,
  ◌==◌, if◌then◌else◌, is_empty, eqb, Result, Error, ok, err, io_exception, invalid_input, ◌>>=◌,
  throw_if, ◌>>◌,
}
use datazoo_oauth.Base.Int.{ℤ, pos, negsuc, pos_part, neg_part, ◌+ℤ◌, ltb_ℤ}
use datazoo_oauth.Base.Decimal.{stoll, to_string}
use datazoo_oauth.Http.Headers.{HeaderMap, find, assign, emplace}
use datazoo_oauth.Http.Message.{HttpRequest, HttpResponse, new_request, post}
use Json.{Yyjson}

-- `case_insensitive_tree_t`, a map like that of the headers.
abbrev pub SecretMap : Type 0
SecretMap = HeaderMap

pub record KeyValueSecret : Type 0 where
  pub name : Bytes
  pub secret_map : SecretMap
  pub redact_keys : List Bytes

pub record RefreshRequest : Type 0 where
  pub token_url : Bytes
  pub content_type : Bytes
  pub post_body : Bytes
  pub use_basic_auth : Bool
  pub basic_auth_username : Bytes
  pub basic_auth_password : Bytes

pub record TokenResponse : Type 0 where
  pub access_token : Bytes
  pub refresh_token : Bytes
  pub expires_in : ℤ

-- The text of a field that is a string.
string_field : (y : Yyjson) → Bytes → y.Value → Option Bytes
string_field y key root = elim (y.obj_get root key) [ none ↦ none | some v ↦ y.get_str v ]

-- `expires_in` is read if it is any number.
number_field : (y : Yyjson) → Bytes → y.Value → ℤ
number_field y key root = elim (y.obj_get root key) [
  | none ↦ pos 0
  | some v ↦ if y.is_num v then y.get_int v else pos 0
]

abbrev or_empty : Option Bytes → Bytes
or_empty none = []
or_empty (some s) = s

unfoldable pub parse_token_response : (y : Yyjson) → Bytes → Bytes → Result TokenResponse
unfolding string_field number_field
parse_token_response y content endpoint = elim (y.read content) [
  | none ↦ err (io_exception (codes "Failed to parse " ++ (endpoint ++ codes " token response")))
  | some root ↦ elim (string_field y (codes "access_token") root) [
    | none ↦
        err
          (io_exception (codes "access_token missing in " ++ (endpoint ++ codes " token response")))
    | some token ↦ ok (record {
      access_token = token;
      refresh_token = or_empty (string_field y (codes "refresh_token") root);
      expires_in = number_field y (codes "expires_in") root;
    })
  ]
]

unfoldable pub parse_token_error_description : (y : Yyjson) → Bytes → Bytes
unfolding string_field
parse_token_error_description y content =
    let found = elim (y.read content) as (λ _. Bytes) [
      | none ↦ []
      | some root ↦ or_empty (string_field y (codes "error_description") root)
    ] in
    if is_empty content then [] else found

-- `HttpClient::SendRequest`, which returns a response or throws; it never returns the null pointer.
-- `content` is `HttpResponse::Content()`, the body after charset conversion.
abbrev pub Endpoint : Type 0
Endpoint = HttpRequest → Result HttpResponse

refresh_http_request : (Bytes → Bytes) → RefreshRequest → HttpRequest → HttpRequest
refresh_http_request base64 q r =
    let accepting = emplace (codes "Accept") (codes "application/json") r.headers in
    let value = base64 (q.basic_auth_username ++ (b':' ∷ q.basic_auth_password)) in
    if q.use_basic_auth
    then record r { headers = emplace (codes "Authorization") (codes "Basic " ++ value) accepting }
    else record r { headers = accepting }

status_error : (y : Yyjson) → RefreshRequest → ℕ → Bytes → Error
unfolding parse_token_error_description
status_error y q code content =
    let details = parse_token_error_description y content in
    io_exception (
      codes "Token endpoint returned HTTP "
      ++ (to_string code
          ++ (codes ": "
              ++ (q.token_url
                  ++ (if is_empty details then [] else codes " (" ++ (details ++ codes ")"))))))

unfoldable pub execute_refresh_request :
    (y : Yyjson)
    → (Bytes → Bytes)
    → (HttpResponse → Bytes)
    → Endpoint
    → RefreshRequest
    → Result TokenResponse
unfolding refresh_http_request status_error parse_token_response
execute_refresh_request y base64 content send q = do
  request ← new_request post q.token_url q.content_type q.post_body
  response ← send (refresh_http_request base64 q request)
  throw_if (not (response.code == 200)) (status_error y q response.code (content response))
  parse_token_response y (content response) q.token_url

-- The expiry is compared with 300 seconds from now.
is_later : Option ℤ → ℕ → Bool
is_later none now = false
is_later (some expiry) now = ltb_ℤ (pos (now + 300)) expiry

expires_later : Option Bytes → ℕ → Bool
unfolding is_later
expires_later none now = false
expires_later (some text) now = is_later (stoll text) now

unfoldable pub has_valid_cached_token : KeyValueSecret → ℕ → Bool
unfolding expires_later
has_valid_cached_token s now = elim (find (codes "access_token") s.secret_map) [
  | none ↦ false
  | some token ↦ not (is_empty token) && expires_later (find (codes "expires_at") s.secret_map) now
]

unfoldable pub get_cached_token : KeyValueSecret → Result Bytes
get_cached_token s = elim (find (codes "access_token") s.secret_map) [
  | none ↦ err (invalid_input (codes "'access_token' not found in secret"))
  | some token ↦ ok token
]

-- A registered secret; `storage` is its `persist_type` and `storage_mode`.
pub record SecretEntry : Type 0 where
  pub secret : KeyValueSecret
  pub storage : ℕ

-- `GetSecretByName` over the registry.
abbrev pub Registry : Type 0
Registry = Bytes → Option SecretEntry

-- `RegisterSecret` with REPLACE_ON_CONFLICT.
unfoldable pub register_secret : Registry → SecretEntry → Registry
register_secret reg e name = if eqb name e.secret.name then some e else reg name

signed_text : ℤ → Bytes
signed_text (pos n) = to_string n
signed_text (negsuc n) = b'-' ∷ to_string (n + 1)

-- The fields that a refresh overlays.
updated_map : SecretMap → Bytes → ℤ → Bytes → ℕ → SecretMap
unfolding signed_text
updated_map m access_token expires_in refresh_token now =
    let with_access = assign (codes "access_token") access_token m in
    let with_refresh =
      if is_empty refresh_token
      then with_access
      else assign (codes "refresh_token") refresh_token with_access in
    assign (codes "expires_at") (signed_text (pos now +ℤ expires_in)) with_refresh

-- A registry holds key-value secrets only, so the cast of the clone succeeds; `RegisterSecret` of DuckDB
-- is taken to succeed.
unfoldable pub update_secret_with_tokens :
    Registry → KeyValueSecret → Bytes → ℤ → Bytes → ℕ → Registry
unfolding updated_map
update_secret_with_tokens reg s access_token expires_in refresh_token now = elim (reg s.name) [
  | none ↦ reg
  | some old ↦
      if is_empty s.name
      then reg
      else register_secret reg (record old {
        secret = record (old.secret) {
          secret_map = updated_map old.secret.secret_map access_token expires_in refresh_token now;
        };
      })
]

-- What `GetToken` does with the endpoint's answer.
keep_tokens : Registry → KeyValueSecret → ℕ → Result TokenResponse → Registry × Result Bytes
keep_tokens reg s now (err e) = (reg, err e)
keep_tokens reg s now (ok acquired) =
    if is_empty acquired.access_token
    then (reg, err (io_exception (codes "Token endpoint response did not contain an access token")))
    else (
      if ltb_ℤ (pos 0) acquired.expires_in
          then update_secret_with_tokens reg s acquired.access_token acquired.expires_in
              acquired.refresh_token now
          else reg,
      ok acquired.access_token,
    )

-- `checked` and `stored` are the times of the two readings of the clock; `acquire` is the endpoint
-- behind `ExecuteRefreshRequest`, with the request that the builder makes of the secret.
unfoldable pub get_token :
    (RefreshRequest → Result TokenResponse)
    → (KeyValueSecret → RefreshRequest)
    → Registry
    → KeyValueSecret
    → ℕ
    → ℕ
    → Registry × Result Bytes
unfolding keep_tokens
get_token acquire build reg s checked stored =
    let fresh = keep_tokens reg s stored (acquire (build s)) in
    if has_valid_cached_token s checked then (reg, get_cached_token s) else fresh

unfoldable pub redact_common_keys : KeyValueSecret → KeyValueSecret
redact_common_keys s = record s {
  redact_keys =
      codes "client_secret" ∷ codes "access_token" ∷ codes "refresh_token" ∷ s.redact_keys;
}
