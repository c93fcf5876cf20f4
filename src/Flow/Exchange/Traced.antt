-- ===== src/Flow/Exchange/Traced.antt =====
-- What the HTTP layer traces of the token request.
use datazoo_oauth.Base.{
  ◌≡◌, true, refl, sym, ◌∙◌, inr, [], map, Bytes, IsBytes, All, codes, length, eqb, to_lower, ok,
  >>=-eq-ok, arith, ap, Bool,
}
use datazoo_oauth.OauthTypes.{
  get_token_url, OauthConfig, ClientType, custom, pre_delivered, get_client_type,
}
use datazoo_oauth.Http.Client.{Attempt}
use datazoo_oauth.Http.Traces.{exchange_lines}
use datazoo_oauth.Http.Traces.Hides.{AlikeAttempts, exchange_lines_hides}
use datazoo_oauth.Flow.Exchange.Parameters.{encoded_pairs-IsParameter, encoded_pair}
use datazoo_oauth.Http.Redaction.Alike.{AlikeParameters}
use datazoo_oauth.Encoding.{url_encode}
use datazoo_oauth.Encoding.Query.{IsPair}
use datazoo_oauth.Http.Url.{HttpUrl, parse_url}
use datazoo_oauth.Http.Headers.{has_credentials, assign, is_credential_header_name, scheme_prefix}
use datazoo_oauth.Http.Headers.Credentials.{AlikeHeaders}
use datazoo_oauth.Http.Message.{carries_credentials, HttpRequest, new_request, post, v4}
use datazoo_oauth.Flow.{add_client_auth, build_token_exchange_post_data, token_request}
use datazoo_oauth.Flow.Exchange.{exchange_pairs}
use datazoo_oauth.Flow.Exchange.Secrets.{
  with_secret, all_pairs, all_pairs-IsPair, all_pairs-alike, body, post_data-body,
}

-- The request for a token URL that is parsed.
request_to : (Bytes → Bytes) → OauthConfig → Bytes → Bytes → HttpUrl → ClientType → HttpRequest
request_to base64 config code verifier url t = add_client_auth base64 config t (record {
  method = post;
  url = url;
  headers = [];
  content_type = codes "application/x-www-form-urlencoded";
  content = build_token_exchange_post_data config code verifier;
  odata_version = v4;
})

token_request-eq-ok :
    (base64 : Bytes → Bytes) (config : OauthConfig) (code verifier : Bytes) (r : HttpRequest)
    → token_request base64 config code verifier ≡ ok r
    → (url : HttpUrl) × (parse_url (get_token_url config) ≡ ok url)
      × (request_to base64 config code verifier url (get_client_type config) ≡ r)
unfolding token_request new_request request_to
token_request-eq-ok base64 config code verifier r h =
    let (q, made, built) =
      >>=-eq-ok
        (new_request post (get_token_url config) (codes "application/x-www-form-urlencoded")
          (build_token_exchange_post_data config code verifier))
        (λ q. ok (add_client_auth base64 config (get_client_type config) q)) h in
    let (url, parsed, rest) = >>=-eq-ok (parse_url (get_token_url config)) _ made in
    (url, parsed, ground arith)

-- The token request of a pre-delivered client carries an Authorization header.
pub token_request-carries_credentials :
    (base64 : Bytes → Bytes) (config : OauthConfig) (code verifier : Bytes) (r : HttpRequest)
    → token_request base64 config code verifier ≡ ok r
    → get_client_type config ≡ pre_delivered
    → carries_credentials r ≡ true
unfolding request_to add_client_auth assign carries_credentials has_credentials
    is_credential_header_name to_lower eqb
token_request-carries_credentials base64 config code verifier r h t =
    let (url, parsed, is_r) = token_request-eq-ok base64 config code verifier r h in
    ap carries_credentials (sym is_r) ∙ rw t refl

add_client_auth-alike :
    (base64 : Bytes → Bytes) (config : OauthConfig) (secret : Bytes) (t : ClientType)
    (r : HttpRequest) (c : Bytes)
    → r.headers ≡ []
    → AlikeHeaders
        (add_client_auth base64 config t r).headers
        (add_client_auth base64 (with_secret config secret) t (record r { content = c })).headers
unfolding add_client_auth assign is_credential_header_name scheme_prefix to_lower eqb
add_client_auth-alike base64 config secret custom r c none = rw none tt
add_client_auth-alike base64 config secret pre_delivered r c none =
    rw none (refl, inr (refl, refl), tt)

-- The two requests, for one parsed token URL.
module _ (base64 : Bytes → Bytes) (config : OauthConfig)
    (secret code verifier code' verifier' : Bytes) (url : HttpUrl) (t : ClientType) where
  other : HttpRequest
  unfolding request_to
  other = request_to base64 (with_secret config secret) code' verifier' url t

  other_lem :
      record (request_to base64 config code verifier url t) {
        headers = other.headers;
        content = body (with_secret config secret) code' verifier';
      }
      ≡ other
  unfolding other request_to add_client_auth
  other_lem = by_type t
    where
      by_type :
          (t : ClientType)
          → record (request_to base64 config code verifier url t) {
            headers = (request_to base64 (with_secret config secret) code' verifier' url t).headers;
            content = body (with_secret config secret) code' verifier';
          }
            ≡ request_to base64 (with_secret config secret) code' verifier' url t
      by_type custom = rw (post_data-body (with_secret config secret) code' verifier') refl
      by_type pre_delivered = rw (post_data-body (with_secret config secret) code' verifier') refl

  request_to_content :
      (request_to base64 config code verifier url t).content ≡ body config code verifier
  unfolding request_to add_client_auth
  request_to_content = by_type t
    where
      by_type :
          (t : ClientType)
          → (request_to base64 config code verifier url t).content ≡ body config code verifier
      by_type custom = post_data-body config code verifier
      by_type pre_delivered = post_data-body config code verifier

  request_to_headers :
      AlikeHeaders (request_to base64 config code verifier url t).headers other.headers
  unfolding request_to other
  request_to_headers = add_client_auth-alike base64 config secret t _ _ refl

  exchange_lines-request_to :
      (enabled url_encoded : Bool) (a b : Attempt)
      → All IsPair (all_pairs config code verifier)
      → All IsPair (all_pairs (with_secret config secret) code' verifier')
      → AlikeParameters
          (map encoded_pair (all_pairs config code verifier))
          (map encoded_pair (all_pairs (with_secret config secret) code' verifier'))
      → AlikeAttempts a b
      → exchange_lines enabled url_encoded (request_to base64 config code verifier url t) a
        ≡ exchange_lines enabled url_encoded other b
  exchange_lines-request_to enabled url_encoded a b plain plain' alike answers =
      exchange_lines_hides enabled url_encoded (request_to base64 config code verifier url t)
        other.headers (encoded_pair (codes "grant_type", codes "authorization_code"))
        (encoded_pair (codes "grant_type", codes "authorization_code"))
        (map encoded_pair (exchange_pairs config code verifier))
        (map encoded_pair (exchange_pairs (with_secret config secret) code' verifier')) a b
        request_to_content (encoded_pairs-IsParameter (all_pairs config code verifier) plain)
        (encoded_pairs-IsParameter (all_pairs (with_secret config secret) code' verifier') plain')
        alike request_to_headers answers
      ∙ ap (λ r. exchange_lines enabled url_encoded r b) other_lem

-- The lines of the HTTP layer about two token requests for one configuration, but for the secrets.
pub exchange_lines-token_request :
    (enabled url_encoded : Bool) (base64 : Bytes → Bytes) (config : OauthConfig)
    (secret code verifier code' verifier' : Bytes) (r r' : HttpRequest) (a b : Attempt)
    → token_request base64 config code verifier ≡ ok r
    → token_request base64 (record config { client_secret = secret }) code' verifier' ≡ ok r'
    → IsBytes config.client_id × IsBytes config.redirect_uri
    → IsBytes config.client_secret × IsBytes code × IsBytes verifier
    → IsBytes secret × IsBytes code' × IsBytes verifier'
    → length (url_encode config.client_secret) ≡ length (url_encode secret)
    → length (url_encode code) ≡ length (url_encode code')
    → length (url_encode verifier) ≡ length (url_encode verifier')
    → AlikeAttempts a b
    → exchange_lines enabled url_encoded r a ≡ exchange_lines enabled url_encoded r' b
unfolding get_token_url get_client_type other
exchange_lines-token_request enabled url_encoded base64 config secret code verifier code' verifier'
      r r' a b made made' (id, uri) (hs, hc, hv) (hs', hc', hv') size_s size_c size_v answers =
    let (url, parsed, is_r) = token_request-eq-ok base64 config code verifier r made in
    let (url', parsed', is_r') =
      token_request-eq-ok base64 (with_secret config secret) code' verifier' r' made' in
    let same : url ≡ url' = cc (parsed, parsed') in
    let t = get_client_type config in
    ap (λ q. exchange_lines enabled url_encoded q a) (sym is_r)
    ∙ exchange_lines-request_to base64 config secret code verifier code' verifier' url t enabled
        url_encoded a b (all_pairs-IsPair config code verifier id hs uri hc hv)
        (all_pairs-IsPair (with_secret config secret) code' verifier' id hs' uri hc' hv')
        (all_pairs-alike config secret code verifier code' verifier' size_s size_c size_v) answers
    ∙ ap
        (λ u.
          exchange_lines enabled url_encoded
            (request_to base64 (with_secret config secret) code' verifier' u t) b)
        same
    ∙ ap (λ q. exchange_lines enabled url_encoded q b) is_r'
