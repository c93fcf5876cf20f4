-- ===== src/Http/Traces/Hides.antt =====
-- The traces of an exchange do not depend on its secrets.
use datazoo_oauth.Base.{
  ℕ, ◌≡◌, refl, ap, sym, subst, Bool, true, false, List, [], ◌∷◌, ◌++◌, map, Bytes, codes, length,
  take, is_empty-length, ltb, if◌then◌else◌, All,
}
use datazoo_oauth.Base.Decimal
use datazoo_oauth.Tracing.{info_line, debug_line}
use datazoo_oauth.Http.Headers.{HeaderMap}
use datazoo_oauth.Http.Headers.Credentials.{AlikeHeaders, map-alike}
use datazoo_oauth.Http.Message.{HttpRequest, HttplibResponse}
use datazoo_oauth.Http.Client.{Attempt, responded, failed, threw}
use datazoo_oauth.Http.Execute.{httplib_headers}
use datazoo_oauth.Http.Repro.Alike.{sql_repro-alike}
use datazoo_oauth.Http.Redaction.{redact_body}
use datazoo_oauth.Http.Redaction.Form.{form, IsParameter}
use datazoo_oauth.Http.Redaction.Alike.{AlikeParameters}
use datazoo_oauth.Http.Redaction.Cut.{
  length-form-alike, redact_body-take-alike, redact_body-form-alike,
}
use datazoo_oauth.Http.Traces.Bodies.{ShownAlike, AlikeBodies, AlikeBodies-shown}
use datazoo_oauth.Http.Traces.{
  body_lines, max_traced_body_chars, header_line, content_lines, wire_lines, request_lines,
  redacted_prefix, logger_lines, response_lines, logged, exchange_lines,
}

redacted_prefix-alike :
    (limit : ℕ) (c d : Bytes) → ShownAlike c d → redacted_prefix limit c ≡ redacted_prefix limit d
unfolding redacted_prefix
redacted_prefix-alike limit c d h = rw h.size (by_test (ltb limit (length d)))
  where
    by_test :
        (b : Bool)
        → redact_body (if b then take limit c else c) ++ (if b then codes "..." else [])
          ≡ redact_body (if b then take limit d else d) ++ (if b then codes "..." else [])
    by_test true = ap (λ s. s ++ codes "...") (h.cuts limit)
    by_test false = ap (λ s. s ++ []) h.whole

header_lines-alike :
    (component : Bytes) (hs ks : HeaderMap)
    → AlikeHeaders hs ks
    → map (header_line component) hs ≡ map (header_line component) ks
unfolding header_line
header_lines-alike component hs ks h =
    map-alike (λ n v. debug_line component (codes "  " ++ (n ++ (codes ": " ++ v)))) hs ks h

module _ (r : HttpRequest) (ks : HeaderMap) (c : Bytes) (h : ShownAlike r.content c) where
  content_lines-alike : content_lines r ≡ content_lines (record r { headers = ks; content = c })
  unfolding content_lines
  content_lines-alike = λ i.
      if is_empty-length r.content c h.size i
      then []
      else debug_line (codes "HTTP_REQUEST") (
          codes "Request content ("
          ++ (Decimal.to_string (h.size i) ++ (codes " bytes): " ++ h.whole i)))
        ∷ debug_line (codes "HTTP_REQUEST") (codes "Content-Type: " ++ r.content_type)
        ∷ []

  wire_lines-alike : wire_lines r ≡ wire_lines (record r { headers = ks; content = c })
  unfolding wire_lines
  wire_lines-alike = rw (is_empty-length r.content c h.size) (rw h.whole refl)

  request_lines-alike :
      (url_encode : Bool)
      → AlikeHeaders r.headers ks
      → request_lines r url_encode
        ≡ request_lines (record r { headers = ks; content = c }) url_encode
  unfolding request_lines httplib_headers
  request_lines-alike url_encode hs =
      rw (sql_repro-alike redact_body r r.headers ks c url_encode hs h.whole) (
        rw (header_lines-alike (codes "HTTP_REQUEST") r.headers ks hs)
          (rw content_lines-alike (rw wire_lines-alike refl)))

  logger_lines-alike :
      (res res' : HttplibResponse)
      → res.status ≡ res'.status
      → res.content_type ≡ res'.content_type
      → ShownAlike res.body res'.body
      → logger_lines r res ≡ logger_lines (record r { headers = ks; content = c }) res'
  unfolding logger_lines
  logger_lines-alike res res' status kind body = rw (is_empty-length r.content c h.size) (
      rw h.size (
        rw (redacted_prefix-alike 500 r.content c h) (
          rw status (
            rw kind (rw body.size (rw (redacted_prefix-alike 200 res.body res'.body body) refl))))))

-- Answers that differ in the secret part of their credential headers, such as cookies, and in the values
-- of sensitive members of a JSON body only.
abbrev pub AlikeAttempts : Attempt → Attempt → Type 0
AlikeAttempts (responded x) (responded y) =
    (x.status ≡ y.status)
    × (x.content_type ≡ y.content_type)
    × AlikeBodies x.body y.body
    × AlikeHeaders x.headers y.headers
AlikeAttempts (failed e) (failed e') = e ≡ e'
AlikeAttempts (threw e) (threw e') = e ≡ e'
AlikeAttempts _ _ = ⊥

body_lines-alike :
    (enabled : Bool) (c d : Bytes) → ShownAlike c d → body_lines enabled c ≡ body_lines enabled d
unfolding body_lines max_traced_body_chars
body_lines-alike enabled c d h =
    rw (is_empty-length c d h.size) (rw h.size (rw (redacted_prefix-alike 1000 c d h) refl))

response_lines-alike :
    (enabled : Bool) (a b : Attempt)
    → AlikeAttempts a b
    → response_lines enabled a ≡ response_lines enabled b
unfolding response_lines
response_lines-alike enabled (responded x) (responded y) (status, kind, body, hs) =
    let shown = AlikeBodies-shown x.body y.body body in
    (λ i.
      info_line (codes "HTTP_RESPONSE") (codes "Response status: " ++ Decimal.to_string (status i))
      ∷ debug_line (codes "HTTP_RESPONSE") (codes "Response headers:")
      ∷ (header_lines-alike (codes "HTTP_RESPONSE") x.headers y.headers hs i
          ++ (debug_line (codes "HTTP_RESPONSE")
                (codes "Response body (" ++ (Decimal.to_string (shown.size i) ++ codes " bytes)"))
              ∷ body_lines-alike enabled x.body y.body shown i)))
response_lines-alike enabled (responded x) (failed e) h = elim h [ ]
response_lines-alike enabled (responded x) (threw e) h = elim h [ ]
response_lines-alike enabled (failed e) (responded y) h = elim h [ ]
response_lines-alike enabled (failed e) (failed e') h = rw h refl
response_lines-alike enabled (failed e) (threw e') h = elim h [ ]
response_lines-alike enabled (threw e) (responded y) h = elim h [ ]
response_lines-alike enabled (threw e) (failed e') h = elim h [ ]
response_lines-alike enabled (threw e) (threw e') h = refl

logged-alike :
    (enabled : Bool) (r : HttpRequest) (ks : HeaderMap) (c : Bytes) (a b : Attempt)
    → ShownAlike r.content c
    → AlikeAttempts a b
    → logged enabled r a ≡ logged enabled (record r { headers = ks; content = c }) b
unfolding logged
logged-alike true r ks c (responded x) (responded y) h (status, kind, body, hs) =
    logger_lines-alike r ks c h x y status kind (AlikeBodies-shown x.body y.body body)
logged-alike false r ks c (responded x) b h k = refl
logged-alike false r ks c (failed e) b h k = refl
logged-alike false r ks c (threw e) b h k = refl
logged-alike true r ks c (responded x) (failed e) h k = elim k [ ]
logged-alike true r ks c (responded x) (threw e) h k = elim k [ ]
logged-alike true r ks c (failed e) (responded y) h k = elim k [ ]
logged-alike true r ks c (failed e) (failed e') h k = refl
logged-alike true r ks c (failed e) (threw e') h k = refl
logged-alike true r ks c (threw e) (responded y) h k = elim k [ ]
logged-alike true r ks c (threw e) (failed e') h k = refl
logged-alike true r ks c (threw e) (threw e') h k = refl

-- The trace of an exchange hides its secrets. Take a request whose content is a form, and the request
-- with other credentials: headers that differ in the values of credential headers only, behind the
-- first space, and a form that differs in the values of sensitive parameters only, each of the same
-- length. If the two get the same answer, or answers that differ only in the values of such headers and
-- of sensitive members of a JSON body, then the same lines are traced, with tracing on or off, however
-- long the content and the bodies are.
pub exchange_lines_hides :
    (enabled url_encode : Bool) (r : HttpRequest) (ks : HeaderMap) (p q : Bytes × Bytes)
    (ps qs : List (Bytes × Bytes)) (a b : Attempt)
    → r.content ≡ form p ps
    → All IsParameter (p ∷ ps)
    → All IsParameter (q ∷ qs)
    → AlikeParameters (p ∷ ps) (q ∷ qs)
    → AlikeHeaders r.headers ks
    → AlikeAttempts a b
    → exchange_lines enabled url_encode r a
      ≡ exchange_lines enabled url_encode (record r { headers = ks; content = form q qs }) b
unfolding exchange_lines
exchange_lines_hides enabled url_encode r ks p q ps qs a b is_form hp hq h hs answers =
    let shown : ShownAlike r.content (form q qs) =
      subst (λ c. ShownAlike c (form q qs)) (sym is_form)
        (record {
          size = length-form-alike p q ps qs h;
          whole = redact_body-form-alike p q ps qs h hp hq;
          cuts = λ k. redact_body-take-alike p q ps qs h k hp hq;
        }) in
    λ i.
      request_lines-alike r ks (form q qs) shown url_encode hs i
      ++ (logged-alike enabled r ks (form q qs) a b shown answers i
          ++ response_lines-alike enabled a b answers i)
