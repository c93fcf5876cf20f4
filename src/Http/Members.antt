-- ===== src/Http/Members.antt =====
-- The members of the classes of http_client.hpp that only read or write a field, and the constructors of
-- HttpResponse.
use datazoo_oauth.Base.{ℕ, ◌≡◌, refl, [], List, Bytes, Option}
use datazoo_oauth.Charset.{convert}
use datazoo_oauth.Http.Url.{HttpUrl, is_same_origin}
use datazoo_oauth.Http.Message.{HttpMethod, OdataVersion, HttpRequest, HttpResponse}

-- `HttpUrl::Scheme(value)` and its likes.
unfoldable pub set_scheme : HttpUrl → Bytes → HttpUrl
set_scheme u value = record u { scheme = value }

unfoldable pub set_host : HttpUrl → Bytes → HttpUrl
set_host u value = record u { host = value }

unfoldable pub set_port : HttpUrl → Bytes → HttpUrl
set_port u value = record u { port = value }

unfoldable pub set_path : HttpUrl → Bytes → HttpUrl
set_path u value = record u { path = value }

unfoldable pub set_query : HttpUrl → Bytes → HttpUrl
set_query u value = record u { query = value }

unfoldable pub set_fragment : HttpUrl → Bytes → HttpUrl
set_fragment u value = record u { fragment = value }

unfoldable pub set_username : HttpUrl → Bytes → HttpUrl
set_username u value = record u { username = value }

unfoldable pub set_password : HttpUrl → Bytes → HttpUrl
set_password u value = record u { password = value }

-- `HttpUrl::Scheme()` and its likes.
unfoldable pub get_scheme : HttpUrl → Bytes
get_scheme u = u.scheme

unfoldable pub get_host : HttpUrl → Bytes
get_host u = u.host

unfoldable pub get_port : HttpUrl → Bytes
get_port u = u.port

unfoldable pub get_path : HttpUrl → Bytes
get_path u = u.path

unfoldable pub get_query : HttpUrl → Bytes
get_query u = u.query

unfoldable pub get_fragment : HttpUrl → Bytes
get_fragment u = u.fragment

unfoldable pub get_username : HttpUrl → Bytes
get_username u = u.username

unfoldable pub get_password : HttpUrl → Bytes
get_password u = u.password

unfoldable pub set_odata_version : HttpRequest → OdataVersion → HttpRequest
set_odata_version r version = record r { odata_version = version }

unfoldable pub get_odata_version : HttpRequest → OdataVersion
get_odata_version r = r.odata_version

unfoldable pub new_response : HttpMethod → HttpUrl → ℕ → Bytes → Bytes → HttpResponse
new_response method url code content_type content = record {
  method = method;
  url = url;
  code = code;
  headers = [];
  content_type = content_type;
  content = content;
}

-- The constructor without a body.
unfoldable pub new_empty_response : HttpMethod → HttpUrl → ℕ → HttpResponse
unfolding new_response
new_empty_response method url code = new_response method url code [] []

unfoldable pub response_code : HttpResponse → ℕ
response_code r = r.code

unfoldable pub response_content_type : HttpResponse → Bytes
response_content_type r = r.content_type

-- `HttpResponse::Content()`, with the two directions of the wide-string conversion.
unfoldable pub response_content :
    (Bytes → Option (List ℕ)) → (List ℕ → Option Bytes) → HttpResponse → Bytes
unfolding convert
response_content decode_utf8 encode_utf8 r =
    convert decode_utf8 encode_utf8 r.content_type r.content

-- What is set behind the authority, or of the user, leaves the origin.
pub set_path-origin :
    (u v : HttpUrl) (value : Bytes)
    → (is_same_origin (set_path u value) v ≡ is_same_origin u v)
      × (is_same_origin (set_query u value) v ≡ is_same_origin u v)
      × (is_same_origin (set_fragment u value) v ≡ is_same_origin u v)
      × (is_same_origin (set_username u value) v ≡ is_same_origin u v)
      × (is_same_origin (set_password u value) v ≡ is_same_origin u v)
unfolding is_same_origin set_path set_query set_fragment set_username set_password
set_path-origin u v value = (refl, refl, refl, refl, refl)
