-- ===== src/Flow/Network.antt =====
-- The flow's own HTTP client: `HttpClient::SendRequest` behind a timeout of 15 seconds, and what the
-- exchange of a code sends through it. The time that a request takes is a parameter.
use datazoo_oauth.Base.{
  ℕ, ◌≤◌, ◌≡◌, ◌≢◌, true, ap, Option, none, some, List, [], Bytes, All, Result, ok, err,
  runtime_error,
}
use datazoo_oauth.Http.Url.{parse_url}
use datazoo_oauth.Http.Url.Origin.{origin}
use datazoo_oauth.Http.Message.{carries_credentials, HttpRequest, HttpResponse}
use datazoo_oauth.Http.Client.{HttpParams, Network, send_request}
use datazoo_oauth.Http.Client.Safety.{StaysAt, send_request-StaysAt}
use datazoo_oauth.Http.Client.Hops.{Trail, send_request-Trail}
use datazoo_oauth.Http.Client.Bodies.{CarriesOrNone, Trail-CarriesOrNone}
use datazoo_oauth.OauthTypes.{
  get_client_type, pre_delivered, OauthConfig, OauthTokens, get_token_url,
}
use datazoo_oauth.SecretManager.Json.{Yyjson}
use datazoo_oauth.TimeoutClient.{TimeoutHttpClient, new_client}
use datazoo_oauth.TimeoutClient
use datazoo_oauth.TimeoutClient.Laws.{send_request_within}
use datazoo_oauth.Flow.{
  Endpoint, token_request, build_token_exchange_post_data, parse_token_response,
  exchange_code_for_tokens,
}
use datazoo_oauth.Flow.Exchange.{exchange_code_for_tokens_steps, token_request_parts}
use datazoo_oauth.Flow.Exchange.Traced.{token_request-carries_credentials}

-- The result of a call of `SendRequest`; its fuel never runs out.
result_of : Option (List HttpRequest × Result HttpResponse) → Result HttpResponse
result_of none = err (runtime_error [])
result_of (some (sent, r)) = r

-- `SendRequest` never returns the null pointer.
not_null : Result HttpResponse → Result (Option HttpResponse)
not_null (ok response) = ok (some response)
not_null (err e) = err e

result_of-eq-ok :
    (out : Option (List HttpRequest × Result HttpResponse)) (response : HttpResponse)
    → result_of out ≡ ok response
    → (sent : List HttpRequest) × (out ≡ some (sent, ok response))
unfolding result_of
result_of-eq-ok none response h = absurd (cc)
result_of-eq-ok (some (sent, r)) response h = (sent, ap (λ x. some (sent, x)) h)

not_null-eq-ok :
    (r : Result HttpResponse) (response : HttpResponse)
    → not_null r ≡ ok (some response)
    → r ≡ ok response
unfolding not_null
not_null-eq-ok (ok x) response h = cc
not_null-eq-ok (err e) response h = absurd (cc)

module _ (p : HttpParams) (mp : Bytes → Bytes → Bytes) (network : Network)
    (duration : HttpRequest → ℕ) where
  -- The member `http_client_` of the flow.
  unfoldable pub http_client : TimeoutHttpClient
  unfolding result_of
  http_client = new_client (λ r. (duration r, result_of (send_request p mp network r))) 15000

  -- The token endpoint, as the flow reaches it at the time `now`.
  unfoldable pub endpoint : ℕ → Endpoint
  unfolding http_client not_null
  endpoint now request = not_null (TimeoutClient.send_request http_client now request).1

  -- A response of the endpoint is one that SendRequest got in time.
  endpoint-ok :
      (now : ℕ) (request : HttpRequest) (response : HttpResponse)
      → endpoint now request ≡ ok (some response)
      → (duration request ≤ 15000)
        × ((sent : List HttpRequest) × (send_request p mp network request
              ≡ some (sent, ok response)))
  unfolding endpoint
  endpoint-ok now request response h =
      let (in_time, got) =
        send_request_within http_client now request response (not_null-eq-ok _ response h) in
      (in_time, result_of-eq-ok (send_request p mp network request) response got)

  -- Over a network, an exchange yields tokens only if the code and the verifier are not empty, and
  -- one call of SendRequest, made with the request that is built of them for the token URL, returned
  -- within 15 seconds a response with status 200 whose content holds these tokens. All that this call
  -- sent is a trail of tries and redirects from that request. Each request of it has the body of the
  -- token request or none; a body goes wherever a redirect with status 307 or 308 leads. A
  -- pre-delivered client's token request carries a credential header, and no request of the trail
  -- with a credential header left the origin of the token URL.
  pub exchange_over_network-ok :
      (y : Yyjson) (base64 : Bytes → Bytes) (content : HttpResponse → Bytes) (config : OauthConfig)
      (now : ℕ) (authorization_code code_verifier : Bytes) (t : OauthTokens)
      → exchange_code_for_tokens y base64 content
          (endpoint now)
          config
          now
          authorization_code
          code_verifier
        ≡ ok t
      → (request : HttpRequest) × (sent : List HttpRequest) × (response : HttpResponse)
        × (authorization_code ≢ [])
        × (code_verifier ≢ [])
        × (token_request base64 config authorization_code code_verifier ≡ ok request)
        × (request.content ≡ build_token_exchange_post_data config authorization_code code_verifier)
        × (parse_url (get_token_url config) ≡ ok request.url)
        × (duration request ≤ 15000)
        × (send_request p mp network request ≡ some (sent, ok response))
        × (response.code ≡ 200)
        × (parse_token_response y (content response) now ≡ ok t)
        × Trail mp network request sent
        × All (CarriesOrNone request.content) sent
        × (get_client_type config ≡ pre_delivered → carries_credentials request ≡ true)
        × All (StaysAt (origin request.url)) sent
  exchange_over_network-ok y base64 content config now code verifier t h =
      let (request, response, some_code, some_verifier, built, answered, good, parsed) =
        exchange_code_for_tokens_steps y base64 content (endpoint now) config now code verifier t
          h in
      let (body, url) = token_request_parts base64 config code verifier request built in
      let (in_time, (sent, e)) = endpoint-ok now request response answered in
      let trail = send_request-Trail p mp network request sent (ok response) e in
      (
        request,
        sent,
        response,
        some_code,
        some_verifier,
        built,
        body,
        url,
        in_time,
        e,
        good,
        parsed,
        trail,
        Trail-CarriesOrNone mp network request sent trail,
        token_request-carries_credentials base64 config code verifier request built,
        send_request-StaysAt p mp network request sent (ok response) e,
      )
