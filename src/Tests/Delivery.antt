-- ===== src/Tests/Delivery.antt =====
-- A flow that succeeds, and an exchange over a network, at concrete requests.
use datazoo_oauth.Base.{
  ◌≤◌, ◌≡◌, ◌≢◌, true, refl, none, some, List, [], ◌∷◌, All, codes, eqb, Result, ok, err, Option,
}
use datazoo_oauth.Http.Url.{parse_url}
use datazoo_oauth.Http.Url.Origin.{origin}
use datazoo_oauth.Http.Message.{
  carries_credentials, HttpRequest, HttpResponse, new_request, from_httplib_response,
}
use datazoo_oauth.Http.Client.{default_params, Network, responded, send_request, round}
use datazoo_oauth.Http.Client.Bodies.{CarriesOrNone}
use datazoo_oauth.Http.Client.Hops.{Trail}
use datazoo_oauth.Http.Client.Safety.{StaysAt}
use datazoo_oauth.Encoding.{encode_buffer, generate_secure_random_token}
use datazoo_oauth.OauthTypes.{
  pre_delivered, get_token_url, get_client_type, calculate_expires_after,
}
use datazoo_oauth.Server.{request, Poll}
use datazoo_oauth.Flow.{
  exchange_code_for_tokens, execute_flow, prepare, generate_code_verifier, generate_state,
  token_request, build_token_exchange_post_data, parse_token_response,
}
use datazoo_oauth.Flow.Delivered.{Grants, execute_flow_delivered}
use datazoo_oauth.Flow.Network.{endpoint, exchange_over_network-ok}
use datazoo_oauth.TimeoutClient
use datazoo_oauth.Tests.Encode.{config, constant_source-IsRandomSource}
use datazoo_oauth.Tests.Network.{with_token}
use datazoo_oauth.Tests.Callback.{get_callback}
use datazoo_oauth.Tests.Exchange.{hour, body, granting, world, server, attempt, tokens, returning}

abbrev pub request_of : Result HttpRequest → HttpRequest
request_of (ok r) = r
request_of (err e) = with_token

abbrev exchange_request : HttpRequest
exchange_request = request_of (token_request (λ s. s) config (codes "c0de") attempt.code_verifier)

granted : Grants hour (λ s. s) body granting config 1000 (codes "c0de") attempt.code_verifier tokens
unfolding token_request new_request parse_url parse_token_response eqb calculate_expires_after
    get_client_type get_token_url encode_buffer
granted = record {
  request_sent = exchange_request;
  response = record {
    method = exchange_request.method;
    url = exchange_request.url;
    code = 200;
    headers = [];
    content_type = [];
    content = codes "{}";
  };
  built = refl;
  answered = refl;
  accepted = refl;
  parsed = refl;
}

abbrev genuine : Poll
genuine = record {
  elapsed = 0;
  activity = request (get_callback (codes "c0de") attempt.state) ∷ [];
}

execute_flow_delivered_example :
    execute_flow hour (λ s. s) body granting (world returning) server config 1000 ≡ some (ok tokens)
unfolding prepare generate_code_verifier generate_state generate_secure_random_token eqb
execute_flow_delivered_example =
    execute_flow_delivered hour (λ s. s) body granting (world returning) server config 1000 attempt
      (codes "c0de") tokens [] [] genuine [] [] (get_callback (codes "c0de") attempt.state)
      constant_source-IsRandomSource constant_source-IsRandomSource refl (λ p. refl) refl refl tt
      refl tt tt refl tt (λ e. cc) granted

-- A network that answers at once with an object, and its exchange.
abbrev answering : Network
answering n r =
    responded
      (record { status = 200; headers = []; content_type = []; body = codes "{}"; location = none })

abbrev sent_of : Option (List HttpRequest × Result HttpResponse) → List HttpRequest
sent_of none = []
sent_of (some out) = out.0

exchange_over_network-ok_example :
    (q : HttpRequest) × (sent : List HttpRequest) × (response : HttpResponse) × (codes "c0de" ≢ [])
    × (codes "ver" ≢ [])
    × (token_request (λ s. s) config (codes "c0de") (codes "ver") ≡ ok q)
    × (q.content ≡ build_token_exchange_post_data config (codes "c0de") (codes "ver"))
    × (parse_url (get_token_url config) ≡ ok q.url)
    × (40 ≤ 15000)
    × (send_request default_params (λ base path. path) answering q ≡ some (sent, ok response))
    × (response.code ≡ 200)
    × (parse_token_response hour (body response) 1000 ≡ ok tokens)
    × Trail (λ base path. path) answering q sent
    × All (CarriesOrNone q.content) sent
    × (get_client_type config ≡ pre_delivered → carries_credentials q ≡ true)
    × All (StaysAt (origin q.url)) sent
unfolding exchange_code_for_tokens token_request new_request parse_url get_token_url endpoint
    TimeoutClient.send_request send_request round get_client_type from_httplib_response
    parse_token_response eqb calculate_expires_after
exchange_over_network-ok_example =
    exchange_over_network-ok default_params (λ base path. path) answering (λ r. 40) hour (λ s. s)
      body config 1000 (codes "c0de") (codes "ver") tokens refl
