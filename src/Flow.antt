-- ===== src/Flow.antt =====
-- src/oauth2_flow_v2.cpp: the authorization-code flow with PKCE. The randomness, OpenSSL's SHA-256,
-- the local listener's socket, what the browser sends to it, yyjson, DuckDB's base64 and the client
-- behind the token endpoint are parameters.
pub mod Exchange
pub mod Tokens
pub mod Pkce
pub mod Forged
pub mod Delivered
pub mod Network
pub mod Launch
pub mod Console
pub mod Object
use datazoo_oauth.Base.{
  ℕ, Bool, true, false, not, ◌&&◌, ◌||◌, Option, none, some, List, [], ◌∷◌, ◌++◌, Bytes, codes,
  ◌==◌, if◌then◌else◌, is_empty, after_first, take_until, Result, Error, ok, err, runtime_error,
  invalid_argument, ◌>>=◌, throw_if, ◌>>◌,
}
use datazoo_oauth.Base.Int.{ℤ, pos}
use datazoo_oauth.Base.Decimal.{stoi, to_string}
use datazoo_oauth.Encoding.{url_encode, generate_secure_random_token}
use datazoo_oauth.OauthTypes.{
  OauthConfig, OauthTokens, ClientType, custom, pre_delivered, get_token_url, get_default_port,
  get_client_type, new_tokens, calculate_expires_after, generate_code_challenge_s256,
}
use datazoo_oauth.AuthUrl.{build_authorization_url_pure}
use datazoo_oauth.Http.Headers.{assign}
use datazoo_oauth.Http.Message.{HttpRequest, HttpResponse, new_request, post}
use datazoo_oauth.SecretManager.Json.{Yyjson}
use datazoo_oauth.Server.{Server, Poll, Activity, start_and_wait_for_code}

unfoldable pub generate_code_verifier : (ℕ → Option Bytes) → Result Bytes
generate_code_verifier rand_bytes = generate_secure_random_token rand_bytes 48

unfoldable pub generate_state : (ℕ → Option Bytes) → Result Bytes
generate_state rand_bytes = generate_secure_random_token rand_bytes 24

-- A copy of `OAuth2Utils::GenerateCodeChallengeS256`.
unfoldable pub generate_code_challenge : (Bytes → Bytes) → Bytes → Bytes
generate_code_challenge sha256 code_verifier = generate_code_challenge_s256 sha256 code_verifier

unfoldable pub build_authorization_url : OauthConfig → Bytes → Bytes → Bytes
build_authorization_url config code_challenge state =
    build_authorization_url_pure config code_challenge state

port_text : Bytes → Bytes
port_text rest = take_until (λ c. (c == b'/') || (c == b'?')) rest

-- The port that stands after `localhost:` in the redirect URI, if it is a number.
unfoldable pub callback_port : OauthConfig → ℤ
unfolding port_text
callback_port config = elim (after_first (codes "localhost:") config.redirect_uri) [
  | none ↦ pos (get_default_port config)
  | some rest ↦ elim (stoi (port_text rest)) [ none ↦ pos (get_default_port config) | some p ↦ p ]
]

-- The members that a flow generates before it listens.
pub record Attempt : Type 0 where
  pub code_verifier : Bytes
  pub state : Bytes
  pub auth_url : Bytes
  pub port : ℤ

-- `verifier_bytes` and `state_bytes` are the two draws from the CSPRNG.
unfoldable pub prepare :
    (ℕ → Option Bytes) → (ℕ → Option Bytes) → (Bytes → Bytes) → OauthConfig → Result Attempt
unfolding callback_port
prepare verifier_bytes state_bytes sha256 config = do
  verifier ← generate_code_verifier verifier_bytes
  st ← generate_state state_bytes
  ok (record {
    code_verifier = verifier;
    state = st;
    auth_url = build_authorization_url config (generate_code_challenge sha256 verifier) st;
    port = callback_port config;
  })

-- What stands outside the flow.
pub record World : Type 0 where
  pub verifier_bytes : ℕ → Option Bytes
  pub state_bytes : ℕ → Option Bytes
  pub sha256 : Bytes → Bytes
  pub port_to_string : ℤ → Bytes
  pub bind_to_port : Bytes → ℤ → Bool
  -- What reaches the listener, which may depend on the URL that the user opened.
  pub polls : Attempt → List Poll
  pub late : Attempt → List Activity

-- The code of a wait, with the verifier that the flow stored.
with_verifier : Bytes → Option (Result Bytes) → Option (Result (Bytes × Bytes))
with_verifier verifier none = none
with_verifier verifier (some (err e)) = some (err e)
with_verifier verifier (some (ok code)) = some (ok (verifier, code))

listen : World → Server → Result Attempt → Option (Result (Bytes × Bytes))
unfolding with_verifier
listen w server (err e) = some (err e)
listen w server (ok a) = with_verifier a.code_verifier (
    start_and_wait_for_code w.port_to_string w.bind_to_port server a.state a.port (w.polls a)
      (w.late a))

-- The verifier that the flow stores, and the code; `none` while the caller still waits.
unfoldable pub execute_authorization_code_flow :
    World → Server → OauthConfig → Option (Result (Bytes × Bytes))
unfolding listen
execute_authorization_code_flow w server config =
    listen w server (prepare w.verifier_bytes w.state_bytes w.sha256 config)

client_params : OauthConfig → ClientType → Bytes
client_params config pre_delivered = []
client_params config custom =
    codes "&client_id="
    ++ (url_encode config.client_id
        ++ (if is_empty config.client_secret
            then []
            else codes "&client_secret=" ++ url_encode config.client_secret))

unfoldable pub build_token_exchange_post_data : OauthConfig → Bytes → Bytes → Bytes
unfolding client_params
build_token_exchange_post_data config authorization_code code_verifier =
    codes "grant_type=authorization_code"
    ++ (codes "&code="
        ++ (url_encode authorization_code
            ++ (codes "&redirect_uri="
                ++ (url_encode config.redirect_uri
                    ++ (codes "&code_verifier="
                        ++ (url_encode code_verifier
                            ++ client_params config (get_client_type config)))))))

-- The text of a member that is a string.
unfoldable pub string_member : (y : Yyjson) → Bytes → y.Value → Option Bytes
string_member y key root = elim (y.obj_get root key) [ none ↦ none | some v ↦ y.get_str v ]

-- `expires_in` is read if it is an integer, and the expiry computed from it.
with_expiry : (y : Yyjson) → OauthTokens → Option y.Value → ℕ → OauthTokens
with_expiry y t none now = t
with_expiry y t (some v) now =
    if y.is_int v then calculate_expires_after (record t { expires_in = y.get_int v }) now else t

abbrev pub or_default : Bytes → Option Bytes → Bytes
or_default d none = d
or_default d (some s) = s

unfoldable pub object_tokens : (y : Yyjson) → y.Value → ℕ → Result OauthTokens
unfolding string_member with_expiry
object_tokens y root now = elim (string_member y (codes "access_token") root) [
  | none ↦ err (runtime_error (codes "Missing or invalid access_token in response"))
  | some token ↦ ok (
      with_expiry y
        (record new_tokens {
          access_token = token;
          refresh_token = or_default [] (string_member y (codes "refresh_token") root);
          token_type = or_default (codes "Bearer") (string_member y (codes "token_type") root);
          scope = or_default [] (string_member y (codes "scope") root);
        })
        (y.obj_get root (codes "expires_in")) now)
]

unfoldable pub parse_token_response : (y : Yyjson) → Bytes → ℕ → Result OauthTokens
unfolding object_tokens
parse_token_response y response_content now =
    let parsed = elim (y.read response_content) as (λ _. Result OauthTokens) [
      | none ↦ err (runtime_error (codes "Failed to parse token response JSON"))
      | some root ↦
          if y.is_obj root
          then object_tokens y root now
          else err (runtime_error (codes "Token response root is not a JSON object"))
    ] in
    if is_empty response_content
    then err (invalid_argument (codes "Token response content is empty"))
    else parsed

-- The client of the token endpoint; `none` for the null pointer.
abbrev pub Endpoint : Type 0
Endpoint = HttpRequest → Result (Option HttpResponse)

add_client_auth : (Bytes → Bytes) → OauthConfig → ClientType → HttpRequest → HttpRequest
add_client_auth base64 config custom r = r
add_client_auth base64 config pre_delivered r = record r {
  headers =
      assign (codes "Authorization")
        (codes "Basic " ++ base64 (config.client_id ++ (b':' ∷ config.client_secret))) r.headers;
}

unfoldable pub token_request : (Bytes → Bytes) → OauthConfig → Bytes → Bytes → Result HttpRequest
unfolding add_client_auth
token_request base64 config authorization_code code_verifier = do
  r ←
      new_request post (get_token_url config) (codes "application/x-www-form-urlencoded")
        (build_token_exchange_post_data config authorization_code code_verifier)
  ok (add_client_auth base64 config (get_client_type config) r)

-- `content` is `HttpResponse::Content()`, the body after charset conversion.
unfoldable pub read_tokens :
    (y : Yyjson) → (HttpResponse → Bytes) → ℕ → Option HttpResponse → Result OauthTokens
read_tokens y content now none =
    err (runtime_error (codes "No response received from token endpoint"))
read_tokens y content now (some response) =
    let parsed = parse_token_response y (content response) now in
    if response.code == 200
    then parsed
    else err (
        runtime_error (
          codes "Token exchange failed with status "
          ++ (to_string response.code ++ (codes ": " ++ content response))))

unfoldable pub exchange_code_for_tokens :
    (y : Yyjson)
    → (Bytes → Bytes)
    → (HttpResponse → Bytes)
    → Endpoint
    → OauthConfig
    → ℕ
    → Bytes
    → Bytes
    → Result OauthTokens
unfolding read_tokens
exchange_code_for_tokens y base64 content send config now authorization_code code_verifier = do
  throw_if (is_empty authorization_code)
      (invalid_argument (codes "Authorization code cannot be empty"))
  throw_if (is_empty code_verifier) (invalid_argument (codes "Code verifier cannot be empty"))
  request ← token_request base64 config authorization_code code_verifier
  response ← send request
  read_tokens y content now response

-- The exchange of the code, if there is one.
redeem :
    (Bytes → Bytes → Result OauthTokens)
    → Option (Result (Bytes × Bytes))
    → Option (Result OauthTokens)
redeem exchange none = none
redeem exchange (some (err e)) = some (err e)
redeem exchange (some (ok (verifier, code))) = some (exchange code verifier)

unfoldable pub execute_flow :
    (y : Yyjson)
    → (Bytes → Bytes)
    → (HttpResponse → Bytes)
    → Endpoint
    → World
    → Server
    → OauthConfig
    → ℕ
    → Option (Result OauthTokens)
unfolding redeem
execute_flow y base64 content send w server config now =
    redeem (exchange_code_for_tokens y base64 content send config now)
      (execute_authorization_code_flow w server config)
