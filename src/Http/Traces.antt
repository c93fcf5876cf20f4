-- ===== src/Http/Traces.antt =====
-- What src/http_client.cpp traces about one exchange: the lines that HttpRequest::Execute writes before
-- and after the call of httplib, and those of the logger that CreateHttplibClient installs. The order of
-- the lines is that of the calls.
pub mod Bodies
pub mod Hides
use datazoo_oauth.Base.{
  ℕ, Bool, true, false, not, ◌&&◌, Option, none, some, List, [], ◌∷◌, ◌++◌, map, Bytes, codes,
  length, take, is_empty, ltb, if◌then◌else◌,
}
use datazoo_oauth.Base.Decimal
use datazoo_oauth.Tracing.{Line, error_line, info_line, debug_line}
use datazoo_oauth.Http.Url.{to_path_query}
use datazoo_oauth.Http.Headers.{HeaderMap, redact_header_value}
use datazoo_oauth.Http.Message
use datazoo_oauth.Http.Message.{HttpRequest, HttplibResponse}
use datazoo_oauth.Http.Client.{Attempt, responded, failed, threw}
use datazoo_oauth.Http.Execute.{httplib_headers}
use datazoo_oauth.Http.Wire.{to_hex_dump}
use datazoo_oauth.Http.Repro.{sql_repro}
use datazoo_oauth.Http.Redaction.{redact_body}

header_line : Bytes → Bytes × Bytes → Line
header_line component (name, value) =
    debug_line component (codes "  " ++ (name ++ (codes ": " ++ redact_header_value name value)))

content_lines : HttpRequest → List Line
content_lines r =
    if is_empty r.content
    then []
    else debug_line (codes "HTTP_REQUEST") (
        codes "Request content ("
        ++ (Decimal.to_string (length r.content) ++ (codes " bytes): " ++ redact_body r.content)))
      ∷ debug_line (codes "HTTP_REQUEST") (codes "Content-Type: " ++ r.content_type)
      ∷ []

-- The request line and the body as they go to the wire.
wire_lines : HttpRequest → List Line
wire_lines r =
    let request_line =
      Message.to_string r.method ++ (codes " " ++ (to_path_query r.url ++ codes " HTTP/1.1")) in
    debug_line (codes "HTTP_WIRE") (codes "=== REQUEST LINE ===")
    ∷ debug_line (codes "HTTP_WIRE") (codes "Request line: " ++ request_line)
    ∷ debug_line (codes "HTTP_WIRE")
        (codes "Request line hex: " ++ to_hex_dump (request_line ++ (13 ∷ 10 ∷ [])) 500)
    ∷ debug_line (codes "HTTP_WIRE") (
        codes "Body to send: "
        ++ (if is_empty r.content then codes "(empty)" else take 200 (redact_body r.content)))
    ∷ debug_line (codes "HTTP_WIRE") (codes "Body hex: " ++ to_hex_dump (redact_body r.content) 500)
    ∷ []

-- Before the call.
unfoldable pub request_lines : HttpRequest → Bool → List Line
unfolding header_line content_lines wire_lines
request_lines r url_encode =
    info_line (codes "HTTP_REQUEST_REPRO")
      (codes "Reproduce with: " ++ sql_repro redact_body r (httplib_headers r) url_encode)
    ∷ info_line (codes "HTTP_REQUEST") (
        codes "Executing "
        ++ (Message.to_string r.method ++ (codes " request to: " ++ to_path_query r.url)))
    ∷ debug_line (codes "HTTP_REQUEST") (codes "Request headers:")
    ∷ (map (header_line (codes "HTTP_REQUEST")) (httplib_headers r)
        ++ (content_lines r ++ wire_lines r))

-- A body, cut to `limit` bytes before it is redacted.
unfoldable pub redacted_prefix : ℕ → Bytes → Bytes
redacted_prefix limit body =
    redact_body (if ltb limit (length body) then take limit body else body)
    ++ (if ltb limit (length body) then codes "..." else [])

-- The logger, which httplib calls with the request and the response; it is installed only if tracing
-- is on.
unfoldable pub logger_lines : HttpRequest → HttplibResponse → List Line
logger_lines r res =
    debug_line (codes "HTTP_WIRE") (codes "=== REQUEST COMPLETE ===")
    ∷ debug_line (codes "HTTP_WIRE")
        (codes "Request: " ++ (Message.to_string r.method ++ (codes " " ++ to_path_query r.url)))
    ∷ debug_line (codes "HTTP_WIRE")
        (codes "Request body length: " ++ Decimal.to_string (length r.content))
    ∷ ((if is_empty r.content
          then []
          else debug_line (codes "HTTP_WIRE")
              (codes "Request body: " ++ redacted_prefix 500 r.content)
            ∷ [])
        ++ (debug_line (codes "HTTP_WIRE") (codes "=== RESPONSE ===")
            ∷ debug_line (codes "HTTP_WIRE")
                (codes "Response status: " ++ Decimal.to_string res.status)
            ∷ debug_line (codes "HTTP_WIRE") (codes "Response content-type: " ++ res.content_type)
            ∷ debug_line (codes "HTTP_WIRE")
                (codes "Response body length: " ++ Decimal.to_string (length res.body))
            ∷ debug_line (codes "HTTP_WIRE")
                (codes "Response body preview: " ++ redacted_prefix 200 res.body)
            ∷ []))

pub max_traced_body_chars : ℕ
max_traced_body_chars = 1000

pub body_lines : Bool → Bytes → List Line
unfolding max_traced_body_chars
body_lines enabled body =
    if not (is_empty body) && enabled
    then debug_line (codes "HTTP_RESPONSE") (
        (if ltb max_traced_body_chars (length body)
          then codes "Response body (truncated): "
          else codes "Response body: ")
        ++ redacted_prefix max_traced_body_chars body)
      ∷ []
    else []

-- After the call; an exception of the call leaves `Execute` before these lines.
unfoldable pub response_lines : Bool → Attempt → List Line
unfolding header_line body_lines
response_lines enabled (threw e) = []
response_lines enabled (failed e) =
    error_line (codes "HTTP_RESPONSE") (codes "Request failed: " ++ e) ∷ []
response_lines enabled (responded res) =
    info_line (codes "HTTP_RESPONSE") (codes "Response status: " ++ Decimal.to_string res.status)
    ∷ debug_line (codes "HTTP_RESPONSE") (codes "Response headers:")
    ∷ (map (header_line (codes "HTTP_RESPONSE")) res.headers
        ++ (debug_line (codes "HTTP_RESPONSE")
              (codes "Response body (" ++ (Decimal.to_string (length res.body) ++ codes " bytes)"))
            ∷ body_lines enabled res.body))

-- The lines of the logger, where httplib has a response for it.
logged : Bool → HttpRequest → Attempt → List Line
logged true r (responded res) = logger_lines r res
logged enabled r a = []

-- All lines of `Execute` for a request that got this answer.
unfoldable pub exchange_lines : Bool → Bool → HttpRequest → Attempt → List Line
unfolding logged
exchange_lines enabled url_encode r a =
    request_lines r url_encode ++ (logged enabled r a ++ response_lines enabled a)
