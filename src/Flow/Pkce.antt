-- ===== src/Flow/Pkce.antt =====
-- A whole flow: which code, verifier and state its tokens rest on.
use datazoo_oauth.Base.{
  ℕ, ◌≡◌, ◌≢◌, refl, Option, none, some, [], Bytes, arith, Result, ok, err, >>=-eq-ok,
}
use datazoo_oauth.OauthTypes.{OauthConfig, OauthTokens}
use datazoo_oauth.Http.Message.{HttpRequest, HttpResponse}
use datazoo_oauth.SecretManager.Json.{Yyjson}
use datazoo_oauth.Server.{Server, start_and_wait_for_code}
use datazoo_oauth.Flow.{
  Attempt, World, with_verifier, listen, redeem, prepare, execute_authorization_code_flow,
  exchange_code_for_tokens, execute_flow, Endpoint, build_authorization_url,
  generate_code_challenge, build_token_exchange_post_data, parse_token_response,
  generate_code_verifier, generate_state,
}
use datazoo_oauth.Flow.Exchange.{exchange_code_for_tokens-ok}

pub prepare-ok :
    (vb sb : ℕ → Option Bytes) (sha256 : Bytes → Bytes) (config : OauthConfig) (a : Attempt)
    → prepare vb sb sha256 config ≡ ok a
    → (generate_code_verifier vb ≡ ok a.code_verifier)
      × (generate_state sb ≡ ok a.state)
      × (a.auth_url
          ≡ build_authorization_url config (generate_code_challenge sha256 a.code_verifier) a.state)
unfolding prepare
prepare-ok vb sb sha256 config a h =
    let (v, ev, rest) = >>=-eq-ok (generate_code_verifier vb) _ h in
    let (st, es, made) = >>=-eq-ok (generate_state sb) _ rest in ground (arith, ev, es, made)

-- What a flow waits for, once prepared.
waited : World → Server → Attempt → Option (Result Bytes)
waited w server a =
    start_and_wait_for_code w.port_to_string w.bind_to_port server a.state a.port (w.polls a)
      (w.late a)

with_verifier-ok :
    (v : Bytes) (r : Option (Result Bytes)) (verifier code : Bytes)
    → with_verifier v r ≡ some (ok (verifier, code))
    → (v ≡ verifier) × (r ≡ some (ok code))
unfolding with_verifier
with_verifier-ok v none verifier code h = absurd (cc)
with_verifier-ok v (some (err e)) verifier code h = absurd (ground arith)
with_verifier-ok v (some (ok c)) verifier code h = ground arith

listen-ok :
    (w : World) (server : Server) (p : Result Attempt) (verifier code : Bytes)
    → listen w server p ≡ some (ok (verifier, code))
    → (a : Attempt) × (p ≡ ok a)
      × (a.code_verifier ≡ verifier)
      × (waited w server a ≡ some (ok code))
unfolding listen waited
listen-ok w server (err e) verifier code h = absurd (ground arith)
listen-ok w server (ok a) verifier code h =
    let (same, got) = with_verifier-ok a.code_verifier (waited w server a) verifier code h in
    (a, refl, same, got)

redeem-ok :
    (exchange : Bytes → Bytes → Result OauthTokens) (r : Option (Result (Bytes × Bytes)))
    (t : OauthTokens)
    → redeem exchange r ≡ some (ok t)
    → (verifier code : Bytes) × (r ≡ some (ok (verifier, code))) × (exchange code verifier ≡ ok t)
unfolding redeem
redeem-ok exchange none t h = absurd (cc)
redeem-ok exchange (some (err e)) t h = absurd (ground arith)
redeem-ok exchange (some (ok (verifier, code))) t h = (verifier, code, refl, ground arith)

-- The tokens of a flow rest on one attempt: its verifier and its state were drawn for it, its URL asks
-- for the S256 challenge of that verifier under that state, the listener delivered a code, and the
-- endpoint answered, with status 200 and content that holds the tokens, a request whose body is
-- built of that code and that verifier, neither of them empty.
pub execute_flow-ok :
    (y : Yyjson) (base64 : Bytes → Bytes) (content : HttpResponse → Bytes) (send : Endpoint)
    (w : World) (server : Server) (config : OauthConfig) (now : ℕ) (t : OauthTokens)
    → execute_flow y base64 content send w server config now ≡ some (ok t)
    → (a : Attempt) × (code : Bytes) × (generate_code_verifier w.verifier_bytes
        ≡ ok a.code_verifier)
      × (generate_state w.state_bytes ≡ ok a.state)
      × (a.auth_url
          ≡ build_authorization_url config
              (generate_code_challenge w.sha256 a.code_verifier)
              a.state)
      × (start_and_wait_for_code w.port_to_string w.bind_to_port server a.state a.port
            (w.polls a)
            (w.late a)
          ≡ some (ok code))
      × (code ≢ [])
      × (a.code_verifier ≢ [])
      × ((request : HttpRequest) × (response : HttpResponse) × (request.content
            ≡ build_token_exchange_post_data config code a.code_verifier)
          × (send request ≡ ok (some response))
          × (response.code ≡ 200)
          × (parse_token_response y (content response) now ≡ ok t))
unfolding execute_flow execute_authorization_code_flow waited
execute_flow-ok y base64 content send w server config now t h =
    let (verifier, code, flow, exchanged) =
      redeem-ok (exchange_code_for_tokens y base64 content send config now)
        (execute_authorization_code_flow w server config) t h in
    let (a, prepared, same, got) =
      listen-ok w server (prepare w.verifier_bytes w.state_bytes w.sha256 config) verifier code
        flow in
    let (ev, es, url) = prepare-ok w.verifier_bytes w.state_bytes w.sha256 config a prepared in
    let exchanged' : exchange_code_for_tokens y base64 content send config now code a.code_verifier
        ≡ ok t =
      rw (same) exchanged in
    let (nc, nv, sent) =
      exchange_code_for_tokens-ok y base64 content send config now code a.code_verifier t
        exchanged' in
    (a, code, ev, es, url, got, nc, nv, sent)
