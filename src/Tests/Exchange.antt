-- ===== src/Tests/Exchange.antt =====
-- The flow and the token exchange at a concrete configuration, endpoint and JSON library.
use datazoo_oauth.Base.{
  ℕ, ◌≡◌, ◌≢◌, ◌↔◌, refl, true, false, Bool, Option, none, some, List, [], ◌∷◌, Bytes,
  IsBytes-literal, codes, replicate, after_first, take_until, eqb, starts_with, arith, ok, err,
  runtime_error, if◌then◌else◌,
}
use datazoo_oauth.Base.Int.{ℤ, pos}
use datazoo_oauth.Base.Decimal.{stoi}
use datazoo_oauth.Encoding.{generate_secure_random_token, encode_buffer}
use datazoo_oauth.Encoding.Query.{parse_form}
use datazoo_oauth.OauthTypes.{OauthTokens, get_client_type, get_token_url, calculate_expires_after}
use datazoo_oauth.Http.Url.{parse_url}
use datazoo_oauth.Http.Message.{HttpRequest, HttpResponse, new_request}
use datazoo_oauth.CallbackHandler.{set_expected_state, reset, validate_state, handle_callback}
use datazoo_oauth.SecretManager.Json.{Yyjson}
use datazoo_oauth.Server.{
  Server, Poll, request, start, start_and_wait_for_code, wait_for_code, act, act_all,
  timeout_message,
}
use datazoo_oauth.Flow.{
  Attempt, World, Endpoint, prepare, execute_flow, execute_authorization_code_flow,
  exchange_code_for_tokens, build_token_exchange_post_data, parse_token_response, token_request,
  string_member, callback_port, generate_code_verifier, generate_state, generate_code_challenge,
  build_authorization_url,
}
use datazoo_oauth.Flow.Exchange.{exchange_pairs, build_token_exchange_post_data-parse_form}
use datazoo_oauth.Flow.Tokens.{IsObject, parse_token_response_iff}
use datazoo_oauth.Flow.Pkce.{execute_flow-ok}
use datazoo_oauth.Flow.Forged.{execute_flow_forged}
use datazoo_oauth.Tests.Encode.{
  config, constant_source, constant_source-IsRandomSource, zero_digest,
}
use datazoo_oauth.Tests.Callback.{get_callback, quiet, quiet-Paced, length-quiet, idle}

-- A JSON library that reads every text as one object, with a token and perhaps a lifetime.
pub data Toy : Type 0 where
  object : Toy
  string : Bytes → Toy
  number : ℕ → Toy

abbrev pub is_object : Toy → Bool
is_object object = true
is_object (string s) = false
is_object (number n) = false

abbrev pub is_number : Toy → Bool
is_number (number n) = true
is_number object = false
is_number (string s) = false

abbrev pub text_of : Toy → Option Bytes
text_of (string s) = some s
text_of object = none
text_of (number n) = none

abbrev pub number_of : Toy → ℤ
number_of (number n) = pos n
number_of object = pos 0
number_of (string s) = pos 0

abbrev pub toy : Option Toy → Yyjson
toy lifetime = record {
  Value = Toy;
  read = λ text. some object;
  is_obj = is_object;
  obj_get = λ v key.
      if eqb key (codes "access_token")
      then some (string (codes "tok"))
      else if eqb key (codes "expires_in")
      then lifetime
      else none;
  get_str = text_of;
  is_int = is_number;
  is_num = is_number;
  get_int = number_of;
}

abbrev pub hour : Yyjson
hour = toy (some (number 3600))

abbrev pub tokens : OauthTokens
tokens = record {
  access_token = codes "tok";
  refresh_token = [];
  token_type = codes "Bearer";
  scope = [];
  expires_in = pos 3600;
  expires_after = pos 4600;
}

json-IsObject : IsObject hour (codes "{}") object
unfolding IsObject
json-IsObject = ((λ e. cc), refl, refl)

parse_token_response_iff_example :
    ((t : OauthTokens) × (parse_token_response hour (codes "{}") 1000 ≡ ok t)) ↔ (
      (root : Toy) × IsObject hour (codes "{}") root
      × ((token : Bytes) × (string_member hour (codes "access_token") root ≡ some token)))
parse_token_response_iff_example = parse_token_response_iff hour (codes "{}") 1000

abbrev forever : Yyjson
forever = toy none

build_token_exchange_post_data_example :
    parse_form (build_token_exchange_post_data config (codes "c0de") (codes "ver"))
    ≡ some (
        (codes "grant_type", codes "authorization_code")
        ∷ exchange_pairs config (codes "c0de") (codes "ver"))
build_token_exchange_post_data_example =
    build_token_exchange_post_data-parse_form config (codes "c0de") (codes "ver")
      (IsBytes-literal config.client_id refl) (IsBytes-literal config.client_secret refl)
      (IsBytes-literal config.redirect_uri refl) (IsBytes-literal (codes "c0de") refl)
      (IsBytes-literal (codes "ver") refl)

-- An endpoint that grants every request.
abbrev pub granting : Endpoint
granting r = ok (
    some (record {
      method = r.method;
      url = r.url;
      code = 200;
      headers = [];
      content_type = [];
      content = codes "{}";
    }))

abbrev pub body : HttpResponse → Bytes
body r = r.content

-- A world whose browser comes back at once, and one in which nobody comes.
abbrev pub world : (Attempt → List Poll) → World
world polls = record {
  verifier_bytes = constant_source;
  state_bytes = constant_source;
  sha256 = zero_digest;
  port_to_string = λ p. [];
  bind_to_port = λ host p. true;
  polls = polls;
  late = λ a. [];
}

abbrev pub returning : Attempt → List Poll
returning a =
    record { elapsed = 0; activity = request (get_callback (codes "c0de") a.state) ∷ [] } ∷ []

abbrev pub nobody : Attempt → List Poll
nobody a = quiet 242 0

abbrev pub server : Server
server = record {
  port = pos 65000;
  running = false;
  handler = idle;
  server_instance = none;
  server_thread = false;
}

flow-runs :
    execute_flow hour (λ s. s) body granting (world returning) server config 1000 ≡ some (ok tokens)
unfolding execute_flow execute_authorization_code_flow prepare generate_code_verifier generate_state
    generate_secure_random_token start_and_wait_for_code start wait_for_code act_all act eqb
    handle_callback validate_state set_expected_state reset encode_buffer exchange_code_for_tokens
    token_request new_request parse_url parse_token_response calculate_expires_after get_client_type
    get_token_url callback_port stoi after_first take_until starts_with
flow-runs = refl

execute_flow-ok_example :
    (a : Attempt) × (code : Bytes) × (generate_code_verifier constant_source ≡ ok a.code_verifier)
    × (generate_state constant_source ≡ ok a.state)
    × (a.auth_url
        ≡ build_authorization_url config
            (generate_code_challenge zero_digest a.code_verifier)
            a.state)
    × (start_and_wait_for_code (λ p. []) (λ host p. true) server a.state a.port (returning a) []
        ≡ some (ok code))
    × (code ≢ [])
    × (a.code_verifier ≢ [])
    × ((q : HttpRequest) × (response : HttpResponse) × (q.content
          ≡ build_token_exchange_post_data config code a.code_verifier)
        × (granting q ≡ ok (some response))
        × (response.code ≡ 200)
        × (parse_token_response hour (body response) 1000 ≡ ok tokens))
execute_flow-ok_example =
    execute_flow-ok hour (λ s. s) body granting (world returning) server config 1000 tokens
      flow-runs

abbrev pub attempt : Attempt
attempt = record {
  code_verifier = encode_buffer (replicate 48 251);
  state = encode_buffer (replicate 24 251);
  auth_url =
      build_authorization_url config
        (generate_code_challenge zero_digest (encode_buffer (replicate 48 251)))
        (encode_buffer (replicate 24 251));
  port = callback_port config;
}

execute_flow_forged_example :
    execute_flow hour (λ s. s) body granting (world nobody) server config 1000
    ≡ some (err (runtime_error timeout_message))
unfolding prepare generate_code_verifier generate_state generate_secure_random_token
execute_flow_forged_example =
    execute_flow_forged hour (λ s. s) body granting (world nobody) server config 1000 attempt
      constant_source-IsRandomSource refl (λ p. refl) refl tt tt (quiet-Paced 242 0)
      (omega (arith, length-quiet 242 0))
