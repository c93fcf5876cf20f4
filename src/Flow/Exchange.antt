-- ===== src/Flow/Exchange.antt =====
-- The body of the token request as the endpoint reads it, and when an exchange yields tokens.
pub mod Parameters
pub mod Secrets
pub mod Traced
pub mod Lines
use datazoo_oauth.Base.{
  ℕ, ◌≡◌, ◌≢◌, refl, ap, sym, ◌∙◌, inl, inr, Option, none, some, List, [], ◌∷◌, ◌++◌, append-nil,
  Bool-cases, Bytes, IsBytes, IsBytes-literal, All, codes, is_empty, if◌then◌else◌, ◌==◌, arith, ok,
  ◌>>=◌, >>=-eq-ok,
}
use datazoo_oauth.Encoding.{url_encode}
use datazoo_oauth.Encoding.Query.{
  parse_form, encode_tail, encode_pairs, IsPair, parse_form-encode_pairs,
}
use datazoo_oauth.OauthTypes.{
  OauthConfig, OauthTokens, ClientType, custom, pre_delivered, get_client_type, get_token_url,
}
use datazoo_oauth.Http.Message.{HttpRequest, HttpResponse, new_request, post}
use datazoo_oauth.Http.Url.{parse_url}
use datazoo_oauth.SecretManager.Json.{Yyjson}
use datazoo_oauth.Flow.{
  client_params, build_token_exchange_post_data, parse_token_response, Endpoint, token_request,
  add_client_auth, exchange_code_for_tokens, read_tokens,
}

-- The client's own parameters; a pre-delivered client has none, it authenticates by a header.
pub client_pairs : OauthConfig → ClientType → List (Bytes × Bytes)
client_pairs config pre_delivered = []
client_pairs config custom =
    (codes "client_id", config.client_id)
    ∷ (if is_empty config.client_secret
        then []
        else (codes "client_secret", config.client_secret) ∷ [])

-- The parameters after `grant_type`, in order.
pub exchange_pairs : OauthConfig → Bytes → Bytes → List (Bytes × Bytes)
exchange_pairs config authorization_code code_verifier =
    (codes "code", authorization_code)
    ∷ (codes "redirect_uri", config.redirect_uri)
    ∷ (codes "code_verifier", code_verifier)
    ∷ client_pairs config (get_client_type config)

secret_lem :
    (secret : Bytes)
    → (if is_empty secret then [] else codes "&client_secret=" ++ url_encode secret)
      ≡ encode_tail (if is_empty secret then [] else (codes "client_secret", secret) ∷ [])
unfolding encode_tail url_encode
secret_lem [] = refl
secret_lem (c ∷ s) = ap (λ t. codes "&client_secret=" ++ t) (sym (append-nil (url_encode (c ∷ s))))

client_params_lem :
    (config : OauthConfig) (t : ClientType)
    → client_params config t ≡ encode_tail (client_pairs config t)
unfolding client_params encode_tail client_pairs url_encode
client_params_lem config pre_delivered = refl
client_params_lem config custom = rw (secret_lem config.client_secret) refl

post_data_lem :
    (config : OauthConfig) (authorization_code code_verifier : Bytes)
    → build_token_exchange_post_data config authorization_code code_verifier
      ≡ encode_pairs
          (codes "grant_type", codes "authorization_code")
          (exchange_pairs config authorization_code code_verifier)
unfolding build_token_exchange_post_data encode_pairs encode_tail exchange_pairs url_encode
post_data_lem config authorization_code code_verifier =
    rw (client_params_lem config (get_client_type config)) refl

client_pairs-IsPair :
    (config : OauthConfig) (t : ClientType)
    → IsBytes config.client_id
    → IsBytes config.client_secret
    → All IsPair (client_pairs config t)
unfolding client_pairs
client_pairs-IsPair config pre_delivered id secret = tt
client_pairs-IsPair config custom id secret = ((IsBytes-literal (codes "client_id") refl, id), rest)
  where
    rest : All IsPair (
        if is_empty config.client_secret
        then []
        else (codes "client_secret", config.client_secret) ∷ [])
    rest = elim (Bool-cases (is_empty config.client_secret)) [
      | inl nothing ↦ rw (nothing) tt
      | inr given ↦ rw (given) ((IsBytes-literal (codes "client_secret") refl, secret), tt)
    ]

-- For a configuration of bytes, the endpoint's form parser reads the body of the token request as
-- exactly the grant type `authorization_code`, the code, the redirect URI, the code verifier and, for
-- a custom client only, the client identifier and the secret if it is not empty.
pub build_token_exchange_post_data-parse_form :
    (config : OauthConfig) (authorization_code code_verifier : Bytes)
    → IsBytes config.client_id
    → IsBytes config.client_secret
    → IsBytes config.redirect_uri
    → IsBytes authorization_code
    → IsBytes code_verifier
    → parse_form (build_token_exchange_post_data config authorization_code code_verifier)
      ≡ some (
          (codes "grant_type", codes "authorization_code")
          ∷ exchange_pairs config authorization_code code_verifier)
unfolding exchange_pairs
build_token_exchange_post_data-parse_form config authorization_code code_verifier id secret uri code
      verifier =
    let first : Bytes × Bytes = (codes "grant_type", codes "authorization_code") in
    let first_pair : IsPair first = (
      IsBytes-literal (codes "grant_type") refl,
      IsBytes-literal (codes "authorization_code") refl,
    ) in
    let code_pair : IsPair (codes "code", authorization_code) =
      (IsBytes-literal (codes "code") refl, code) in
    let uri_pair : IsPair (codes "redirect_uri", config.redirect_uri) =
      (IsBytes-literal (codes "redirect_uri") refl, uri) in
    let verifier_pair : IsPair (codes "code_verifier", code_verifier) =
      (IsBytes-literal (codes "code_verifier") refl, verifier) in
    ap parse_form (post_data_lem config authorization_code code_verifier)
    ∙ parse_form-encode_pairs first (exchange_pairs config authorization_code code_verifier)
        first_pair
        (
          code_pair,
          (
            uri_pair,
            (verifier_pair, client_pairs-IsPair config (get_client_type config) id secret),
          ),
        )

read_tokens-ok :
    (y : Yyjson) (content : HttpResponse → Bytes) (now : ℕ) (r : Option HttpResponse)
    (t : OauthTokens)
    → read_tokens y content now r ≡ ok t
    → (response : HttpResponse) × (r ≡ some response)
      × (response.code ≡ 200)
      × (parse_token_response y (content response) now ≡ ok t)
unfolding read_tokens
read_tokens-ok y content now none t h = absurd (cc)
read_tokens-ok y content now (some response) t h = elim (Bool-cases (response.code == 200)) [
  | inl good ↦ (response, refl, ground arith, ground arith)
  | inr bad ↦ absurd (ground arith)
]

add_client_auth_keeps :
    (base64 : Bytes → Bytes) (config : OauthConfig) (t : ClientType) (r : HttpRequest)
    → ((add_client_auth base64 config t r).content ≡ r.content)
      × ((add_client_auth base64 config t r).url ≡ r.url)
unfolding add_client_auth
add_client_auth_keeps base64 config custom r = (refl, refl)
add_client_auth_keeps base64 config pre_delivered r = (refl, refl)

new_request_parts :
    (url kind body : Bytes) (r : HttpRequest)
    → new_request post url kind body ≡ ok r
    → (r.content ≡ body) × (parse_url url ≡ ok r.url)
unfolding new_request
new_request_parts url kind body r h =
    let (u, parsed, made) = >>=-eq-ok (parse_url url) _ h in
    (ground arith, parsed ∙ ap ok (ground arith))

-- The token request has the body that is built of its code and verifier, and the token URL.
pub token_request_parts :
    (base64 : Bytes → Bytes) (config : OauthConfig) (authorization_code code_verifier : Bytes)
    (q : HttpRequest)
    → token_request base64 config authorization_code code_verifier ≡ ok q
    → (q.content ≡ build_token_exchange_post_data config authorization_code code_verifier)
      × (parse_url (get_token_url config) ≡ ok q.url)
unfolding token_request
token_request_parts base64 config authorization_code code_verifier q h =
    let body = build_token_exchange_post_data config authorization_code code_verifier in
    let kind = codes "application/x-www-form-urlencoded" in
    let (r, made, e) =
      >>=-eq-ok (new_request post (get_token_url config) kind body)
        (λ r. ok (add_client_auth base64 config (get_client_type config) r)) h in
    let same : add_client_auth base64 config (get_client_type config) r ≡ q = ground arith in
    let (kept, there) = add_client_auth_keeps base64 config (get_client_type config) r in
    let (content, url) = new_request_parts (get_token_url config) kind body r made in
    (
      ap (λ (x : HttpRequest). x.content) (sym same) ∙ kept ∙ content,
      url ∙ ap ok (sym there ∙ ap (λ (x : HttpRequest). x.url) same),
    )

-- The steps of an exchange that yields tokens.
pub exchange_code_for_tokens_steps :
    (y : Yyjson) (base64 : Bytes → Bytes) (content : HttpResponse → Bytes) (send : Endpoint)
    (config : OauthConfig) (now : ℕ) (authorization_code code_verifier : Bytes) (t : OauthTokens)
    → exchange_code_for_tokens y base64 content send config now authorization_code code_verifier
      ≡ ok t
    → (request : HttpRequest) × (response : HttpResponse) × (authorization_code ≢ [])
      × (code_verifier ≢ [])
      × (token_request base64 config authorization_code code_verifier ≡ ok request)
      × (send request ≡ ok (some response))
      × (response.code ≡ 200)
      × (parse_token_response y (content response) now ≡ ok t)
unfolding exchange_code_for_tokens
exchange_code_for_tokens_steps y base64 content send config now [] code_verifier t h = absurd (cc)
exchange_code_for_tokens_steps y base64 content send config now (c ∷ code) [] t h = absurd (cc)
exchange_code_for_tokens_steps y base64 content send config now (c ∷ code) (d ∷ verifier) t h =
    let (request, built, rest) =
      >>=-eq-ok (token_request base64 config (c ∷ code) (d ∷ verifier))
        (λ q. send q >>= λ r. read_tokens y content now r) h in
    let (r, sent, read) = >>=-eq-ok (send request) (read_tokens y content now) rest in
    let (response, got, good, parsed) = read_tokens-ok y content now r t read in
    (request, response, ground arith, ground arith, built, sent ∙ ap ok got, good, parsed)

-- An exchange yields tokens only if the code and the verifier are not empty, the one request sent has
-- the body that is built of them, the endpoint answered it with status 200, and the tokens are those
-- that the answer's content holds.
pub exchange_code_for_tokens-ok :
    (y : Yyjson) (base64 : Bytes → Bytes) (content : HttpResponse → Bytes) (send : Endpoint)
    (config : OauthConfig) (now : ℕ) (authorization_code code_verifier : Bytes) (t : OauthTokens)
    → exchange_code_for_tokens y base64 content send config now authorization_code code_verifier
      ≡ ok t
    → (authorization_code ≢ [])
      × (code_verifier ≢ [])
      × ((request : HttpRequest) × (response : HttpResponse) × (request.content
            ≡ build_token_exchange_post_data config authorization_code code_verifier)
          × (send request ≡ ok (some response))
          × (response.code ≡ 200)
          × (parse_token_response y (content response) now ≡ ok t))
exchange_code_for_tokens-ok y base64 content send config now code verifier t h =
    let (request, response, some_code, some_verifier, built, sent, good, parsed) =
      exchange_code_for_tokens_steps y base64 content send config now code verifier t h in
    (
      some_code,
      some_verifier,
      (
        request,
        response,
        (token_request_parts base64 config code verifier request built).0,
        sent,
        good,
        parsed,
      ),
    )
