-- ===== src/Http/Message.antt =====
-- HttpMethod, HttpAuthParams, HttpRequest and HttpResponse.
use datazoo_oauth.Base.{
  ℕ, ◌-◌, Bool, true, false, ◌&&◌, Option, none, some, List, [], ◌∷◌, ◌++◌, map, Bytes, codes, leb,
  if◌then◌else◌, is_empty, length, replicate, eqb, to_lower, Result, ok, err, runtime_error, ◌>>=◌,
}
use datazoo_oauth.Base.Decimal
use datazoo_oauth.Http.Url.{HttpUrl, parse_url}
use datazoo_oauth.Http.Url
use datazoo_oauth.Http.Headers.{HeaderMap, emplace, has_credentials, is_credential_header_name}

pub data HttpMethod : Type 0 where
  undefined get post put delete patch head options trace connect : HttpMethod

unfoldable pub same_method : HttpMethod → HttpMethod → Bool
same_method undefined undefined = true
same_method get get = true
same_method post post = true
same_method put put = true
same_method delete delete = true
same_method patch patch = true
same_method head head = true
same_method options options = true
same_method trace trace = true
same_method connect connect = true
same_method _ _ = false

upper : ℕ → ℕ
upper c = if leb b'a' c && leb c b'z' then c - 32 else c

unfoldable pub from_string : Bytes → Result HttpMethod
unfolding upper
from_string method =
    let m = map upper method in
    if eqb m (codes "GET")
    then ok get
    else if eqb m (codes "POST")
    then ok post
    else if eqb m (codes "PUT")
    then ok put
    else if eqb m (codes "DELETE")
    then ok delete
    else if eqb m (codes "PATCH")
    then ok patch
    else if eqb m (codes "HEAD")
    then ok head
    else if eqb m (codes "OPTIONS")
    then ok options
    else if eqb m (codes "TRACE")
    then ok trace
    else if eqb m (codes "CONNECT")
    then ok connect
    else err (runtime_error (codes "Invalid HTTP method: '" ++ (method ++ codes "'")))

unfoldable pub to_string : HttpMethod → Bytes
to_string get = codes "GET"
to_string post = codes "POST"
to_string put = codes "PUT"
to_string delete = codes "DELETE"
to_string patch = codes "PATCH"
to_string head = codes "HEAD"
to_string options = codes "OPTIONS"
to_string trace = codes "TRACE"
to_string connect = codes "CONNECT"
to_string undefined = codes "UNDEFINED"

pub data AuthType : Type 0 where
  no_auth basic bearer : AuthType

pub record HttpAuthParams : Type 0 where
  pub basic_credentials : Option (Bytes × Bytes)
  pub bearer_token : Option Bytes

auth_type_of : Option (Bytes × Bytes) → Option Bytes → AuthType
auth_type_of (some c) t = basic
auth_type_of none (some t) = bearer
auth_type_of none none = no_auth

unfoldable pub auth_type : HttpAuthParams → AuthType
unfolding auth_type_of
auth_type p = auth_type_of p.basic_credentials p.bearer_token

-- `base64` is DuckDB's encoder.
unfoldable pub basic_credentials_base64 : (Bytes → Bytes) → HttpAuthParams → Option Bytes
basic_credentials_base64 base64 p = elim p.basic_credentials [
  | none ↦ none
  | some (username, password) ↦ some (base64 (username ++ (b':' ∷ password)))
]

creds_to_stars : Bytes → Bytes
creds_to_stars creds = replicate (length creds) b'*'

auth_text : Option (Bytes × Bytes) → Option Bytes → Bytes
unfolding creds_to_stars
auth_text (some (u, p)) t = codes "Basic:" ++ creds_to_stars (u ++ (b':' ∷ p))
auth_text none (some t) = codes "Bearer:" ++ creds_to_stars t
auth_text none none = codes "None"

unfoldable pub auth_params_to_string : HttpAuthParams → Bytes
unfolding auth_text
auth_params_to_string p = auth_text p.basic_credentials p.bearer_token

pub data OdataVersion : Type 0 where
  unknown v2 v4 : OdataVersion

pub record HttpRequest : Type 0 where
  pub method : HttpMethod
  pub url : HttpUrl
  pub headers : HeaderMap
  pub content_type : Bytes
  pub content : Bytes
  pub odata_version : OdataVersion

unfoldable pub new_request : HttpMethod → Bytes → Bytes → Bytes → Result HttpRequest
new_request method url content_type content = do
  u ← parse_url url
  ok (record {
    method = method;
    url = u;
    headers = [];
    content_type = content_type;
    content = content;
    odata_version = v4;
  })

-- The constructor without a body.
unfoldable pub new_bodyless_request : HttpMethod → Bytes → Result HttpRequest
unfolding new_request
new_bodyless_request method url = new_request method url (codes "application/json") []

-- One entry of the MAP argument of `HeadersFromMapArg`.
add_map_entry : HttpRequest → Bytes × Bytes → HttpRequest
add_map_entry r (key, value) =
    if is_empty key
    then r
    else if eqb (to_lower key) (codes "content-type")
    then record r { content_type = value }
    else record r { headers = emplace key value r.headers }

-- The argument, as DuckDB's MAP of texts, `none` if it is NULL.
add_map_entries : HttpRequest → List (Bytes × Bytes) → HttpRequest
unfolding add_map_entry
add_map_entries r [] = r
add_map_entries r (e ∷ es) = add_map_entries (add_map_entry r e) es

unfoldable pub headers_from_map_arg : HttpRequest → Option (List (Bytes × Bytes)) → HttpRequest
unfolding add_map_entries
headers_from_map_arg r none = r
headers_from_map_arg r (some entries) = add_map_entries r entries

add_auth_header :
    (Bytes → Bytes) → HttpRequest → Option (Bytes × Bytes) → Option Bytes → HttpRequest
add_auth_header base64 r (some (u, p)) t = record r {
  headers = emplace (codes "Authorization") (codes "Basic " ++ base64 (u ++ (b':' ∷ p))) r.headers;
}
add_auth_header base64 r none (some t) = record r {
  headers = emplace (codes "Authorization") (codes "Bearer " ++ t) r.headers;
}
add_auth_header base64 r none none = r

unfoldable pub auth_headers_from_params :
    (Bytes → Bytes) → HttpRequest → HttpAuthParams → HttpRequest
unfolding add_auth_header
auth_headers_from_params base64 r p = add_auth_header base64 r p.basic_credentials p.bearer_token

is_v2 : OdataVersion → Bool
is_v2 v2 = true
is_v2 _ = false

unfoldable pub add_odata_version_headers : HttpRequest → HttpRequest
unfolding is_v2
add_odata_version_headers r =
    if is_v2 r.odata_version
    then record r {
      headers = emplace (codes "Accept") (codes "application/json;odata=verbose") (
          emplace (codes "MaxDataServiceVersion") (codes "2.0")
            (emplace (codes "DataServiceVersion") (codes "2.0") r.headers));
    }
    else record r {
      headers = emplace (codes "Accept") (codes "application/json;odata.metadata=minimal") (
          emplace (codes "OData-MaxVersion") (codes "4.0")
            (emplace (codes "OData-Version") (codes "4.0") r.headers));
    }

unfoldable pub carries_credentials : HttpRequest → Bool
carries_credentials r = has_credentials r.headers

-- The loop of `ToCacheKey` over the headers.
credential_material : HeaderMap → Bytes
credential_material [] = []
credential_material ((k, v) ∷ hs) =
    let rest = credential_material hs in
    if is_credential_header_name k then k ++ (0 ∷ (v ++ (10 ∷ rest))) else rest

-- `hash` is std::hash<std::string>.
unfoldable pub to_cache_key : (Bytes → ℕ) → HttpRequest → Bytes
unfolding credential_material
to_cache_key hash r =
    let material = credential_material r.headers in
    to_string r.method
    ++ (b':'
        ∷ (Url.to_string r.url
            ++ (b':'
                ∷ (Decimal.to_string (hash r.content)
                    ++ (if is_empty material
                        then []
                        else b':' ∷ Decimal.to_string (hash material))))))

pub record HttpResponse : Type 0 where
  pub method : HttpMethod
  pub url : HttpUrl
  pub code : ℕ
  pub headers : HeaderMap
  pub content_type : Bytes
  pub content : Bytes

-- httplib's response: `location` and `content_type` are its lookups of those headers, which it
-- also lists.
pub record HttplibResponse : Type 0 where
  pub status : ℕ
  pub headers : List (Bytes × Bytes)
  pub location : Option Bytes
  pub content_type : Bytes
  pub body : Bytes

emplace_all : List (Bytes × Bytes) → HeaderMap → HeaderMap
emplace_all [] hs = hs
emplace_all ((k, v) ∷ rest) hs = emplace_all rest (emplace k v hs)

unfoldable pub from_httplib_response : HttpMethod → HttpUrl → HttplibResponse → HttpResponse
unfolding emplace_all
from_httplib_response method url res = record {
  method = method;
  url = url;
  code = res.status;
  headers = emplace_all res.headers [];
  content_type = res.content_type;
  content = res.body;
}
