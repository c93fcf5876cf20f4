-- ===== src/Http/Client.antt =====
-- HttpClient::SendRequest: retries, and redirects that are followed by hand. The network is a
-- function of the number of requests sent so far and the request. What the C++ leaves in `err` when
-- the exchange throws an IOException is indeterminate; here it is not `Error::Success`. The pauses
-- between tries, the TLS set-up and the traces do not show in the result.
pub mod Total
pub mod Safety
pub mod Hops
pub mod Bodies
pub mod Pauses
pub mod Relative
use datazoo_oauth.Base.{
  ℕ, zero, suc, ◌+◌, ◌*◌, ◌≤◌, ◌<◌, Bool, true, false, not, ◌&&◌, ◌||◌, Option, none, some, List,
  [], ◌∷◌, ◌++◌, Bytes, codes, ltb, leb, ◌==◌, if◌then◌else◌, Result, Error, ok, err, runtime_error,
  io_exception, http_exception,
}
use datazoo_oauth.Base.Decimal
use datazoo_oauth.Http.Url.{
  HttpUrl, is_wire_safe_target, is_same_origin, merge_with_base_url_if_relative,
  summarise_url_for_message,
}
use datazoo_oauth.Http.Url
use datazoo_oauth.Http.Headers.{erase_credentials}
use datazoo_oauth.Http.Message.{
  HttpMethod, get, post, put, patch, delete, head, same_method, HttpRequest, HttpResponse,
  HttplibResponse, from_httplib_response, new_bodyless_request,
}
use datazoo_oauth.Http.Message

-- The fields of HttpParams that SendRequest reads.
pub record HttpParams : Type 0 where
  pub retries : ℕ
  pub max_redirects : ℕ

abbrev pub default_params : HttpParams
default_params = record { retries = 3; max_redirects = 10 }

unfoldable pub is_redirect_status : ℕ → Bool
is_redirect_status status =
    status == 301 || status == 302 || status == 303 || status == 307 || status == 308

-- One exchange: a response, httplib's error with its name, or a DuckDB IOException.
pub data Attempt : Type 0 where
  responded : HttplibResponse → Attempt
  failed : Bytes → Attempt
  threw : Bytes → Attempt

abbrev pub Network : Type 0
Network = ℕ → HttpRequest → Attempt

-- The methods that `Execute` sends.
unfoldable pub is_sendable : HttpMethod → Bool
is_sendable get = true
is_sendable post = true
is_sendable put = true
is_sendable patch = true
is_sendable delete = true
is_sendable head = true
is_sendable _ = false

-- The local variables of the loop, and every request that has been sent, the newest first.
pub record Sending : Type 0 where
  pub request : HttpRequest
  pub n_tries : ℕ
  pub redirect_count : ℕ
  pub sent : List HttpRequest

pub data Next : Type 0 where
  again : Sending → Next
  done : List HttpRequest → Result HttpResponse → Next

abbrev request_text : HttpRequest → Bytes
request_text r = Message.to_string r.method ++ (codes " to '" ++ (Url.to_string r.url ++ codes "'"))

-- What is thrown once the tries are used up.
final_error : Attempt → HttpRequest → Error
final_error (responded res) r = http_exception (
    codes "Request returned HTTP "
    ++ (Decimal.to_string res.status ++ (codes " for HTTP " ++ request_text r)))
final_error (failed e) r = io_exception (e ++ (codes " error for HTTP " ++ request_text r))
final_error (threw e) r = io_exception e

-- `n_tries += 1` and what follows it.
retry : HttpParams → Attempt → Sending → Next
unfolding final_error
retry p a s =
    if leb p.retries (s.n_tries + 1)
    then done s.sent (err (final_error a s.request))
    else again (record s { n_tries = s.n_tries + 1 })

-- The statuses that are tried again.
pub is_transient : ℕ → Bool
is_transient status =
    status == 408 || status == 418 || status == 429 || status == 503 || status == 504

-- `switch (status)`
settle : HttpParams → HttplibResponse → Sending → Next
unfolding retry is_transient
settle p res s =
    if is_transient res.status
    then retry p (responded res) s
    else done s.sent (ok (from_httplib_response s.request.method s.request.url res))

-- 301, 302 and 303 turn any method but GET and HEAD into GET without a body.
pub redirect_method : ℕ → HttpRequest → HttpRequest
redirect_method status r =
    if (status == 301 || status == 302 || status == 303)
      && (not (same_method r.method get) && not (same_method r.method head))
    then record r { method = get; content = []; content_type = [] }
    else r

-- The request after a redirect to a URL that can be sent.
unfoldable pub redirected : ℕ → HttpRequest → HttpUrl → HttpRequest
unfolding redirect_method
redirected status r url = redirect_method status (
    if is_same_origin r.url url
    then record r { url = url }
    else record r { url = url; headers = erase_credentials r.headers })

refusal : HttpUrl → Error
refusal url = io_exception (
    codes "Refusing to follow a redirect to a URL that cannot be sent intact: '"
    ++ (summarise_url_for_message (Url.to_string url)
        ++ codes "'. The Location header contained a control character or a raw space."))

follow_url : ℕ → Sending → HttpUrl → Next
unfolding refusal
follow_url status s url =
    if not (is_wire_safe_target url)
    then done s.sent (err (refusal url))
    else again (record s {
      request = redirected status s.request url;
      n_tries = 0;
      redirect_count = s.redirect_count + 1;
    })

follow : ℕ → Sending → Result HttpUrl → Next
unfolding follow_url
follow status s (ok url) = follow_url status s url
follow status s (err e) = done s.sent (err e)

redirect : HttpParams → (Bytes → Bytes → Bytes) → HttplibResponse → Sending → Option Bytes → Next
unfolding settle follow
redirect p merge_paths res s none = settle p res s
redirect p merge_paths res s (some location) =
    follow res.status s (merge_with_base_url_if_relative merge_paths s.request.url location)

respond : HttpParams → (Bytes → Bytes → Bytes) → HttplibResponse → Sending → Next
unfolding redirect settle is_redirect_status
respond p merge_paths res s =
    if is_redirect_status res.status
    then (if leb p.max_redirects s.redirect_count
        then done s.sent (ok (from_httplib_response s.request.method s.request.url res))
        else redirect p merge_paths res s res.location)
    else settle p res s

receive : HttpParams → (Bytes → Bytes → Bytes) → Sending → Attempt → Next
unfolding respond retry
receive p merge_paths s (responded res) = respond p merge_paths res s
receive p merge_paths s (failed e) = retry p (failed e) s
receive p merge_paths s (threw e) = retry p (threw e) s

-- One round of `while (true)`; the number is that of the requests sent before.
unfoldable pub round : HttpParams → (Bytes → Bytes → Bytes) → Network → ℕ → Sending → Next
unfolding receive is_sendable
round p merge_paths network n s =
    if is_sendable s.request.method
    then receive p merge_paths (record s { sent = s.request ∷ s.sent }) (network n s.request)
    else done s.sent (err (runtime_error (codes "Invalid HTTP method")))

-- The loop, on fuel; `none` if the fuel runs out.
unfoldable pub send_loop :
    HttpParams
    → (Bytes → Bytes → Bytes)
    → Network
    → ℕ
    → ℕ
    → Sending
    → Option (List HttpRequest × Result HttpResponse)
send_loop p merge_paths network zero n s = none
send_loop p merge_paths network (suc fuel) n s = elim (round p merge_paths network n s) [
  | again s' ↦ send_loop p merge_paths network fuel (suc n) s'
  | done sent r ↦ some (sent, r)
]

abbrev pub first : HttpRequest → Sending
first r = record { request = r; n_tries = 0; redirect_count = 0; sent = [] }

-- Enough for every redirect with all its tries.
abbrev pub enough_fuel : HttpParams → ℕ
enough_fuel p = (p.max_redirects + 1) * (p.retries + 1)

unfoldable pub send_request :
    HttpParams
    → (Bytes → Bytes → Bytes)
    → Network
    → HttpRequest
    → Option (List HttpRequest × Result HttpResponse)
unfolding send_loop
send_request p merge_paths network r = send_loop p merge_paths network (enough_fuel p) 0 (first r)
