-- ===== src/Flow/Exchange/Lines.antt =====
-- All that ExchangeCodeForTokens and ParseTokenResponse in src/oauth2_flow_v2.cpp trace, with the lines
-- of the HTTP layer in between: those that Http.Traces has. The lines of the set-up of the client, of its
-- timeout and of the charset converter, which name servers, durations, charsets and exceptions, are left
-- out.
pub mod Hides
use datazoo_oauth.Base.{
  ℕ, suc, ◌≡◌, ◌≢◌, refl, sym, ◌∙◌, ap, subst, ◌⊎◌, inl, inr, Bool, true, false, ◌||◌, Option, none,
  some, List, [], ◌∷◌, ◌++◌, Bytes, IsBytes, codes, length, is_empty, ◌==◌, if◌then◌else◌, map, All,
  Result, ok, err, Error, runtime_error, invalid_argument, io_exception, invalid_input,
  http_exception, arith,
}
use datazoo_oauth.Base.Int.{ℤ, pos, negsuc}
use datazoo_oauth.Base.Decimal.{to_string}
use datazoo_oauth.Tracing.{Line, error_line, info_line, debug_line}
use datazoo_oauth.OauthTypes.{
  OauthConfig, OauthTokens, ClientType, custom, pre_delivered, get_client_type, get_token_url,
}
use datazoo_oauth.Encoding.{url_encode}
use datazoo_oauth.SecretManager.Json.{Yyjson}
use datazoo_oauth.Http.Message.{HttpRequest, HttpResponse}
use datazoo_oauth.Http.Client.{Attempt}
use datazoo_oauth.Http.Traces.{exchange_lines}
use datazoo_oauth.Http.Traces.Hides.{AlikeAttempts}
use datazoo_oauth.Flow.{
  build_token_exchange_post_data, token_request, string_member, read_tokens, parse_token_response,
}
use datazoo_oauth.Flow.Launch.{message_of}
use datazoo_oauth.Flow.Tokens.{int_member, IsObject}
use datazoo_oauth.Flow.Exchange.Traced.{exchange_lines-token_request}

pub flow_info : Bytes → Line
flow_info = info_line (codes "OAUTH2_FLOW")

pub flow_debug : Bytes → Line
flow_debug = debug_line (codes "OAUTH2_FLOW")

flow_error : Bytes → Line
flow_error = error_line (codes "OAUTH2_FLOW")

-- `std::to_string` of an `int`.
int_text : ℤ → Bytes
int_text (pos n) = to_string n
int_text (negsuc n) = b'-' ∷ to_string (suc n)

-- A line about a member, if it is there.
member_line : Option Bytes → (Bytes → Bytes) → List Line
unfolding flow_debug
member_line none text = []
member_line (some s) text = flow_debug (text s) ∷ []

expiry_line : Option ℤ → List Line
unfolding flow_debug int_text
expiry_line none = []
expiry_line (some n) = flow_debug (codes "Extracted expires_in: " ++ int_text n) ∷ []

-- ParseTokenResponse on the members that it reads.
pub members_lines : Option Bytes → Option Bytes → Option Bytes → Option Bytes → Option ℤ → List Line
unfolding flow_debug flow_info flow_error member_line expiry_line
members_lines none refresh kind scope expires =
    flow_error (codes "Failed to parse token response: Missing or invalid access_token in response")
    ∷ []
members_lines (some token) refresh kind scope expires =
    flow_debug (codes "Extracted access token")
    ∷ (member_line refresh (λ s. codes "Extracted refresh token")
        ++ (member_line kind (λ s. codes "Extracted token type: " ++ s)
            ++ (member_line scope (λ s. codes "Extracted scope: " ++ s)
                ++ (expiry_line expires
                    ++ (flow_info (codes "Successfully parsed token response") ∷ [])))))

pub root_lines : (y : Yyjson) → Option y.Value → List Line
unfolding flow_error members_lines
root_lines y none =
    flow_error (codes "Failed to parse token response: Failed to parse token response JSON") ∷ []
root_lines y (some root) =
    if y.is_obj root
    then members_lines (string_member y (codes "access_token") root)
        (string_member y (codes "refresh_token") root) (string_member y (codes "token_type") root)
        (string_member y (codes "scope") root) (int_member y (codes "expires_in") root)
    else flow_error
        (codes "Failed to parse token response: Token response root is not a JSON object")
      ∷ []

pub parse_lines : (y : Yyjson) → Bytes → List Line
unfolding flow_debug root_lines
parse_lines y response_content =
    flow_debug
      (codes "Parsing token response (" ++ (to_string (length response_content) ++ codes " bytes)"))
    ∷ (if is_empty response_content then [] else root_lines y (y.read response_content))

-- The end of ExchangeCodeForTokens: the last line, or that of its handler.
pub outcome_lines : Result OauthTokens → List Line
unfolding flow_info flow_error message_of
outcome_lines (ok t) = flow_info (codes "Successfully exchanged code for tokens") ∷ []
outcome_lines (err e) = flow_error (codes "Token exchange failed: " ++ message_of e) ∷ []

-- What follows the call of SendRequest.
unfoldable pub answer_lines :
    (y : Yyjson) → (HttpResponse → Bytes) → ℕ → Result (Option HttpResponse) → List Line
unfolding flow_debug flow_info parse_lines outcome_lines
answer_lines y content now (err e) = outcome_lines (err e)
answer_lines y content now (ok none) = outcome_lines (read_tokens y content now none)
answer_lines y content now (ok (some response)) =
    flow_debug (codes "Token exchange response status: " ++ to_string response.code)
    ∷ flow_debug (
        codes "Token exchange response body received ("
        ++ (to_string (length (content response)) ++ codes " bytes)"))
    ∷ ((if response.code == 200
          then flow_info (codes "Token exchange successful, access token received and stored")
            ∷ parse_lines y (content response)
          else [])
        ++ outcome_lines (read_tokens y content now (some response)))

auth_lines : ClientType → List Line
unfolding flow_debug
auth_lines custom = []
auth_lines pre_delivered =
    flow_debug (codes "Added Basic Auth header for pre-delivered client") ∷ []

-- From the request on: `a` is what httplib answered, `answer` what SendRequest gave the flow.
pub sent_lines :
    (y : Yyjson)
    → (HttpResponse → Bytes)
    → Bool
    → Bool
    → ClientType
    → ℕ
    → Result HttpRequest
    → Attempt
    → Result (Option HttpResponse)
    → List Line
unfolding auth_lines outcome_lines
sent_lines y content enabled url_encoded t now (err e) a answer = outcome_lines (err e)
sent_lines y content enabled url_encoded t now (ok r) a answer =
    auth_lines t ++ (exchange_lines enabled url_encoded r a ++ answer_lines y content now answer)

-- ExchangeCodeForTokens, for a token request that httplib answers once.
unfoldable pub token_exchange_lines :
    (y : Yyjson)
    → (Bytes → Bytes)
    → (HttpResponse → Bytes)
    → Bool
    → Bool
    → OauthConfig
    → ℕ
    → Bytes
    → Bytes
    → Attempt
    → Result (Option HttpResponse)
    → List Line
unfolding flow_info flow_debug sent_lines
token_exchange_lines y base64 content enabled url_encoded config now code verifier a answer =
    flow_info (codes "Exchanging authorization code for tokens")
    ∷ (if is_empty code || is_empty verifier
        then []
        else flow_debug (codes "Using PKCE code verifier")
          ∷ flow_debug (codes "Token exchange URL: " ++ get_token_url config)
          ∷ flow_debug (
              codes "Token exchange form body prepared ("
              ++ (to_string (length (build_token_exchange_post_data config code verifier))
                  ++ codes " bytes)"))
          ∷ sent_lines y content enabled url_encoded (get_client_type config) now
              (token_request base64 config code verifier) a answer)
