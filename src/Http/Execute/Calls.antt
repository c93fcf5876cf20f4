-- ===== src/Http/Execute/Calls.antt =====
-- Which call of httplib a request becomes.
use datazoo_oauth.Base.{◌≡◌, refl, ap, Bool, true, false, none, some, codes, ok, err, runtime_error}
use datazoo_oauth.Http.Url.{to_path_query}
use datazoo_oauth.Http.Message.{HttpMethod, get, post, put, patch, delete, head, HttpRequest}
use datazoo_oauth.Http.Client.{is_sendable}
use datazoo_oauth.Http.Execute.{HttplibCall, execute, dispatch, call_of}

-- GET and HEAD are sent without a body.
abbrev pub sends_body : HttpMethod → Bool
sends_body get = false
sends_body head = false
sends_body _ = true

-- The call has the request's method, path, query and headers, and its body if the method sends one.
pub record IsCallOf (r : HttpRequest) (c : HttplibCall) : Type 0 where
  pub verb : c.verb ≡ r.method
  pub path : c.path ≡ to_path_query r.url
  pub headers : c.headers ≡ r.headers
  pub with_body : sends_body r.method ≡ true → c.body ≡ some (r.content, r.content_type)
  pub without_body : sends_body r.method ≡ false → c.body ≡ none

with_text :
    (r : HttpRequest) (url_encode : Bool)
    → sends_body r.method ≡ true
    → IsCallOf r (call_of r url_encode (some (r.content, r.content_type)))
unfolding call_of
with_text r url_encode h = record {
  verb = refl;
  path = refl;
  headers = refl;
  with_body = λ k. refl;
  without_body = λ k. absurd (cc (h, k));
}

without_text :
    (r : HttpRequest) (url_encode : Bool)
    → sends_body r.method ≡ false
    → IsCallOf r (call_of r url_encode none)
unfolding call_of
without_text r url_encode h = record {
  verb = refl;
  path = refl;
  headers = refl;
  with_body = λ k. absurd (cc (h, k));
  without_body = λ k. refl;
}

dispatch_lem :
    (r : HttpRequest) (url_encode : Bool) (m : HttpMethod)
    → r.method ≡ m
    → (is_sendable m ≡ true → (c : HttplibCall) × (dispatch r url_encode m ≡ ok c) × IsCallOf r c)
      × (is_sendable m ≡ false
          → dispatch r url_encode m ≡ err (runtime_error (codes "Invalid HTTP method")))
unfolding dispatch is_sendable
dispatch_lem r url_encode get e =
    (λ h. (_, refl, without_text r url_encode (ap sends_body e)), λ h. cc)
dispatch_lem r url_encode head e =
    (λ h. (_, refl, without_text r url_encode (ap sends_body e)), λ h. cc)
dispatch_lem r url_encode post e =
    (λ h. (_, refl, with_text r url_encode (ap sends_body e)), λ h. cc)
dispatch_lem r url_encode put e =
    (λ h. (_, refl, with_text r url_encode (ap sends_body e)), λ h. cc)
dispatch_lem r url_encode patch e =
    (λ h. (_, refl, with_text r url_encode (ap sends_body e)), λ h. cc)
dispatch_lem r url_encode delete e =
    (λ h. (_, refl, with_text r url_encode (ap sends_body e)), λ h. cc)
dispatch_lem r url_encode _ e = (λ h. absurd (cc h), λ h. refl)

-- Execute makes exactly one call of httplib for a method that can be sent, with the method, the path
-- and query and the headers of the request and, unless it is GET or HEAD, its content and content
-- type. For any other method it throws. These are the methods that the loop of SendRequest sends.
pub execute_lem :
    (r : HttpRequest) (url_encode : Bool)
    → (is_sendable r.method ≡ true
        → (c : HttplibCall) × (execute r url_encode ≡ ok c) × IsCallOf r c)
      × (is_sendable r.method ≡ false
          → execute r url_encode ≡ err (runtime_error (codes "Invalid HTTP method")))
unfolding execute
execute_lem r url_encode = dispatch_lem r url_encode r.method refl
