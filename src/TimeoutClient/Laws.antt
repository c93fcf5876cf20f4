-- ===== src/TimeoutClient/Laws.antt =====
-- Which result a request under a timeout has, and when it returns.
use datazoo_oauth.Base.{
  ℕ, ◌+◌, ◌≤◌, ◌<◌, ◌≡◌, ◌++◌, codes, ◌==◌, if◌then◌else◌, arith, err, ok, runtime_error,
}
use datazoo_oauth.Base.Decimal.{to_string}
use datazoo_oauth.Http.Message.{HttpRequest, HttpResponse}
use datazoo_oauth.TimeoutClient.{TimeoutHttpClient, send_request_with_timeout, send_request}

-- The limit of a request for which `timeout` is asked.
abbrev pub limit : TimeoutHttpClient → ℕ → ℕ
limit c timeout = if timeout == 0 then c.default_timeout else timeout

-- A request that is done within its limit has the client's own result, whether a response or an
-- exception; any other throws that it timed out. The limit is the default where none is asked.
pub send_request_with_timeout_lem :
    (c : TimeoutHttpClient) (now : ℕ) (request : HttpRequest) (timeout : ℕ)
    → ((c.http_client request).0 ≤ limit c timeout
        → (send_request_with_timeout c now request timeout).1 ≡ (c.http_client request).1)
      × (limit c timeout < (c.http_client request).0
          → (send_request_with_timeout c now request timeout).1
            ≡ err (
                runtime_error (
                  codes "HTTP request timed out after "
                  ++ (to_string (limit c timeout) ++ codes "ms"))))
unfolding send_request_with_timeout
send_request_with_timeout_lem c now request timeout = (λ h. ground arith, λ h. ground arith)

-- A timeout cuts nothing short: the call returns when the exchange is over and never before, also
-- where it throws that it timed out.
pub send_request_with_timeout_blocks :
    (c : TimeoutHttpClient) (now : ℕ) (request : HttpRequest) (timeout : ℕ)
    → (send_request_with_timeout c now request timeout).0 ≡ now + (c.http_client request).0
unfolding send_request_with_timeout
send_request_with_timeout_blocks c now request timeout = ground arith

-- A request under the default timeout returns a response only if it is done in time.
pub send_request_within :
    (c : TimeoutHttpClient) (now : ℕ) (request : HttpRequest) (response : HttpResponse)
    → (send_request c now request).1 ≡ ok response
    → ((c.http_client request).0 ≤ c.default_timeout) × ((c.http_client request).1 ≡ ok response)
unfolding send_request
send_request_within c now request response h = ground arith
