-- ===== src/Http/Execute.antt =====
-- HttpRequest::Execute in src/http_client.cpp: the call of httplib that sends a request. The headers
-- are copied into the multimap of httplib; traces are left out.
pub mod Calls
use datazoo_oauth.Base.{
  Bool, not, Option, none, some, List, [], ◌∷◌, Bytes, codes, if◌then◌else◌, Result, ok, err,
  runtime_error, ◌>>=◌,
}
use datazoo_oauth.Http.Url.{to_path_query}
use datazoo_oauth.Http.Headers.{HeaderMap}
use datazoo_oauth.Http.Message
use datazoo_oauth.Http.Message.{
  HttpMethod, get, post, put, patch, delete, head, HttpRequest, new_bodyless_request,
}
use datazoo_oauth.Http.Wire.{write_verbatim_target}

-- A call of a client of httplib; `body` is the content and its type where the call takes them, and
-- `header_writer` the rewriting of the buffered request line, if one is set.
pub record HttplibCall : Type 0 where
  pub verb : HttpMethod
  pub path : Bytes
  pub headers : List (Bytes × Bytes)
  pub body : Option (Bytes × Bytes)
  pub header_writer : Option (Bytes → Bytes)

unfoldable pub httplib_headers : HttpRequest → List (Bytes × Bytes)
httplib_headers r = r.headers

writer_of : HttpRequest → Bool → Option (Bytes → Bytes)
writer_of r url_encode =
    if not url_encode
    then some (write_verbatim_target (Message.to_string r.method) (to_path_query r.url))
    else none

call_of : HttpRequest → Bool → Option (Bytes × Bytes) → HttplibCall
unfolding writer_of httplib_headers
call_of r url_encode body = record {
  verb = r.method;
  path = to_path_query r.url;
  headers = httplib_headers r;
  body = body;
  header_writer = writer_of r url_encode;
}

dispatch : HttpRequest → Bool → HttpMethod → Result HttplibCall
unfolding call_of
dispatch r url_encode get = ok (call_of r url_encode none)
dispatch r url_encode post = ok (call_of r url_encode (some (r.content, r.content_type)))
dispatch r url_encode put = ok (call_of r url_encode (some (r.content, r.content_type)))
dispatch r url_encode patch = ok (call_of r url_encode (some (r.content, r.content_type)))
dispatch r url_encode delete = ok (call_of r url_encode (some (r.content, r.content_type)))
dispatch r url_encode head = ok (call_of r url_encode none)
dispatch r url_encode method = err (runtime_error (codes "Invalid HTTP method"))

unfoldable pub execute : HttpRequest → Bool → Result HttplibCall
unfolding dispatch
execute r url_encode = dispatch r url_encode r.method

-- `HttpClient::Head` and `HttpClient::Get`, and those of the caching client: the request that
-- `send` is called with.
unfoldable pub head_url : {A : Type 0} → (HttpRequest → Result A) → Bytes → Result A
head_url send url = do request ← new_bodyless_request head url; send request

unfoldable pub get_url : {A : Type 0} → (HttpRequest → Result A) → Bytes → Result A
get_url send url = do request ← new_bodyless_request get url; send request
