-- ===== src/TimeoutClient.antt =====
-- src/timeout_http_client.cpp: a client that gives up on a request. The thread of std::async and the
-- future over it are a finishing time and a result, read on a clock in milliseconds; a call that is
-- ready at the moment the wait ends counts as ready. The client that does the work is a parameter:
-- how long it takes for a request, and its result. A duration is not negative.
pub mod Laws
use datazoo_oauth.Base.{
  ℕ, ◌+◌, Bool, true, false, List, ◌++◌, Bytes, codes, ltb, ◌==◌, if◌then◌else◌, Result, err,
  runtime_error,
}
use datazoo_oauth.Base.Decimal.{to_string}
use datazoo_oauth.Http.Message.{HttpRequest, HttpResponse}

-- `HttpClient::SendRequest`: its duration and its result.
abbrev pub Client : Type 0
Client = HttpRequest → ℕ × Result HttpResponse

pub record TimeoutHttpClient : Type 0 where
  pub http_client : Client
  pub default_timeout : ℕ

abbrev pub new_client : Client → ℕ → TimeoutHttpClient
new_client client timeout = record { http_client = client; default_timeout = timeout }

unfoldable pub set_default_timeout : TimeoutHttpClient → ℕ → TimeoutHttpClient
set_default_timeout c timeout = record c { default_timeout = timeout }

unfoldable pub get_default_timeout : TimeoutHttpClient → ℕ
get_default_timeout c = c.default_timeout

-- A future of std::async: when its thread is done, and with what.
pub record Future : Type 0 where
  pub ready_at : ℕ
  pub value : Result HttpResponse

-- `std::async(std::launch::async, ...)` at the time `now`.
async : Client → ℕ → HttpRequest → Future
async client now request = record {
  ready_at = now + (client request).0;
  value = (client request).1;
}

abbrev later : ℕ → ℕ → ℕ
later a b = if ltb a b then b else a

-- `wait_for`: the time of its return, and whether it is `std::future_status::timeout`.
wait_for : Future → ℕ → ℕ → ℕ × Bool
wait_for f now timeout =
    if ltb (now + timeout) f.ready_at then (now + timeout, true) else (later now f.ready_at, false)

-- The destructor of a future of std::async waits for the thread.
destroy : Future → ℕ → ℕ
destroy f now = later now f.ready_at

timeout_error : ℕ → Result HttpResponse
timeout_error timeout =
    err (runtime_error (codes "HTTP request timed out after " ++ (to_string timeout ++ codes "ms")))

-- What follows the wait: the time at which the call is over, and its result.
conclude : Future → ℕ → ℕ × Bool → ℕ × Result HttpResponse
unfolding destroy timeout_error
conclude f timeout (now, true) = (destroy f now, timeout_error timeout)
conclude f timeout (now, false) = (destroy f now, f.value)

unfoldable pub execute_request_with_timeout :
    TimeoutHttpClient → ℕ → HttpRequest → ℕ → ℕ × Result HttpResponse
unfolding async wait_for conclude
execute_request_with_timeout c now request timeout =
    let future = async c.http_client now request in
    conclude future timeout (wait_for future now timeout)

-- A timeout of zero stands for the default.
unfoldable pub send_request_with_timeout :
    TimeoutHttpClient → ℕ → HttpRequest → ℕ → ℕ × Result HttpResponse
unfolding execute_request_with_timeout
send_request_with_timeout c now request timeout =
    execute_request_with_timeout c now request (if timeout == 0 then c.default_timeout else timeout)

unfoldable pub send_request : TimeoutHttpClient → ℕ → HttpRequest → ℕ × Result HttpResponse
unfolding send_request_with_timeout
send_request c now request = send_request_with_timeout c now request c.default_timeout
