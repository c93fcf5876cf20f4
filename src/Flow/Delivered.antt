-- ===== src/Flow/Delivered.antt =====
-- A flow whose redirect arrives and whose token endpoint grants the request.
use datazoo_oauth.Base.{
  ℕ, ◌≡◌, ◌≢◌, refl, ap, ◌∙◌, true, false, Option, some, List, [], ◌∷◌, ◌++◌, Bytes, All, codes,
  ◌==◌, arith, ok,
}
use datazoo_oauth.Base.Int.{ℤ}
use datazoo_oauth.Encoding.Token.{IsRandomSource, generate_secure_random_token_lem}
use datazoo_oauth.OauthTypes.{OauthConfig, OauthTokens}
use datazoo_oauth.Http.Message.{HttpRequest, HttpResponse}
use datazoo_oauth.SecretManager.Json.{Yyjson}
use datazoo_oauth.CallbackHandler.{callback, reset, set_expected_state}
use datazoo_oauth.Server.{Server, Poll, Request, Activity, request, wait_for_code}
use datazoo_oauth.Server.Requests.{OnEvent, event_of}
use datazoo_oauth.Server.Delivery.{IsForeign, IsForged, IsQuiet, wait_for_code_delivered}
use datazoo_oauth.Server.Starting.{listening, listening-Expects, start_and_wait-listening}
use datazoo_oauth.Flow.{
  Attempt, World, prepare, execute_flow, execute_authorization_code_flow, exchange_code_for_tokens,
  token_request, read_tokens, parse_token_response, Endpoint, generate_code_verifier, with_verifier,
  listen, redeem,
}
use datazoo_oauth.Flow.Pkce.{prepare-ok}
use datazoo_oauth.Flow.Forged.{state-given}

verifier-given :
    (source : ℕ → Option Bytes) (verifier : Bytes)
    → IsRandomSource source
    → generate_code_verifier source ≡ ok verifier
    → verifier ≢ []
unfolding generate_code_verifier
verifier-given source verifier random drawn =
    let (size, _, _) = generate_secure_random_token_lem source 48 verifier random drawn in
    λ e. ground (arith, e)

-- What the endpoint must do for the code.
pub record Grants (y : Yyjson) (base64 : Bytes → Bytes) (content : HttpResponse → Bytes)
    (send : Endpoint) (config : OauthConfig) (now : ℕ) (code verifier : Bytes) (t : OauthTokens)
    : Type 0 where
  pub request_sent : HttpRequest
  pub response : HttpResponse
  pub built : token_request base64 config code verifier ≡ ok request_sent
  pub answered : send request_sent ≡ ok (some response)
  pub accepted : response.code ≡ 200
  pub parsed : parse_token_response y (content response) now ≡ ok t

read_granted :
    (y : Yyjson) (content : HttpResponse → Bytes) (now : ℕ) (r : HttpResponse) (t : OauthTokens)
    → r.code ≡ 200
    → parse_token_response y (content r) now ≡ ok t
    → read_tokens y content now (some r) ≡ ok t
unfolding read_tokens
read_granted y content now r t good parsed =
    let fine : (r.code == 200) ≡ true = ground arith in rw (read_tokens, fine) parsed

exchange_granted :
    (y : Yyjson) (base64 : Bytes → Bytes) (content : HttpResponse → Bytes) (send : Endpoint)
    (config : OauthConfig) (now : ℕ) (code verifier : Bytes) (t : OauthTokens)
    → code ≢ []
    → verifier ≢ []
    → Grants y base64 content send config now code verifier t
    → exchange_code_for_tokens y base64 content send config now code verifier ≡ ok t
unfolding exchange_code_for_tokens
exchange_granted y base64 content send config now [] verifier t hc hv g = absurd (hc refl)
exchange_granted y base64 content send config now (c ∷ code) [] t hc hv g = absurd (hv refl)
exchange_granted y base64 content send config now (c ∷ code) (v ∷ verifier) t hc hv g =
    rw (g.built, g.answered) (read_granted y content now g.response t g.accepted g.parsed)

-- A flow succeeds: its listener binds its port on a server without a running thread; the polls within
-- the 60 seconds hear only requests without the flow's state, then one poll hears one request with
-- that state and a code that is not empty, and before the result is read no other request with the
-- state comes; and the token endpoint answers the request built of the code and the flow's verifier
-- with status 200 and content that holds tokens. Then the flow returns these tokens.
pub execute_flow_delivered :
    (y : Yyjson) (base64 : Bytes → Bytes) (content : HttpResponse → Bytes) (send : Endpoint)
    (w : World) (server : Server) (config : OauthConfig) (now : ℕ) (a : Attempt) (code : Bytes)
    (t : OauthTokens) (quiet ps : List Poll) (p : Poll) (before after : List Activity) (r : Request)
    → IsRandomSource w.verifier_bytes
    → IsRandomSource w.state_bytes
    → prepare w.verifier_bytes w.state_bytes w.sha256 config ≡ ok a
    → ((p : ℤ) → w.bind_to_port (codes "localhost") p ≡ true)
    → server.server_thread ≡ false
    → w.polls a ≡ quiet ++ (p ∷ ps)
    → All (IsQuiet a.state) quiet
    → p.activity ≡ before ++ (request r ∷ after)
    → All (IsForeign a.state) before
    → All (IsForeign a.state) after
    → event_of r ≡ callback code a.state ∷ []
    → All (OnEvent (IsForged a.state)) (w.late a)
    → code ≢ []
    → Grants y base64 content send config now code a.code_verifier t
    → execute_flow y base64 content send w server config now ≡ some (ok t)
unfolding execute_flow execute_authorization_code_flow listen with_verifier redeem
    set_expected_state reset
execute_flow_delivered y base64 content send w server config now a code t quiet ps p before after r
      random_verifier random_state prepared bound idle polled q seen fb fa e fl given grants =
    let (made, drawn, _) = prepare-ok w.verifier_bytes w.state_bytes w.sha256 config a prepared in
    let (st_given, bytes) = state-given w.state_bytes a.state random_state drawn in
    let print = w.port_to_string in
    let s = listening server a.state a.port in
    let gets =
      start_and_wait-listening print w.bind_to_port server a.state a.port (w.polls a) (w.late a)
        bound idle
      ∙ ap (λ l. wait_for_code s l (w.late a)) polled
      ∙ wait_for_code_delivered a.state code s quiet ps p before after (w.late a) r
          (listening-Expects server a.state a.port st_given bytes) refl refl refl q seen fb fa e
          fl in
    rw (prepared, gets)
      (ap some (
        exchange_granted y base64 content send config now code a.code_verifier t given
          (verifier-given w.verifier_bytes a.code_verifier random_verifier made) grants))
