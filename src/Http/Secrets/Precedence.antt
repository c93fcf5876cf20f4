-- ===== src/Http/Secrets/Precedence.antt =====
-- How a request is authenticated from the secrets for its URL.
use datazoo_oauth.Base.{
  ◌≡◌, refl, ap, sym, Option, none, some, ◌∷◌, ◌++◌, Bytes, codes, Result, ok, >>=-eq-ok, ◌>>=◌,
  ◌⊎◌, inl, inr,
}
use datazoo_oauth.Http.Headers.{emplace}
use datazoo_oauth.Http.Message.{HttpAuthParams, HttpRequest, auth_headers_from_params}
use datazoo_oauth.Http.Secrets.{
  Secret, SecretManager, try_get_value, basic_params, bearer_params, from_duckdb_secrets,
}

-- The Authorization header that the secrets for a URL give.
abbrev pub Authenticates : (Bytes → Bytes) → SecretManager → Bytes → Option Bytes → Type 0
Authenticates base64 manager url none =
    (manager.lookup_secret url (codes "http_basic") ≡ none)
    × (manager.lookup_secret url (codes "http_bearer") ≡ none)
Authenticates base64 manager url (some value) =
    ((secret : Secret) × (username : Bytes) × (password : Bytes) × (manager.lookup_secret url
          (codes "http_basic")
        ≡ some secret)
      × (secret (codes "username") ≡ some username)
      × (secret (codes "password") ≡ some password)
      × (value ≡ codes "Basic " ++ base64 (username ++ (b':' ∷ password))))
    ⊎ ((secret : Secret) × (token : Bytes) × (manager.lookup_secret url (codes "http_basic") ≡ none)
        × (manager.lookup_secret url (codes "http_bearer") ≡ some secret)
        × (secret (codes "token") ≡ some token)
        × (value ≡ codes "Bearer " ++ token))

-- A request with the Authorization header, if there is one.
abbrev pub with_authorization : HttpRequest → Option Bytes → HttpRequest
with_authorization r none = r
with_authorization r (some value) = record r {
  headers = emplace (codes "Authorization") value r.headers;
}

try_get_value-ok :
    (manager : SecretManager) (v : Option Bytes) (name text : Bytes)
    → try_get_value manager v name ≡ ok text
    → v ≡ some text
unfolding try_get_value
try_get_value-ok manager none name text h = absurd (cc)
try_get_value-ok manager (some v) name text h = cc

module _ (base64 : Bytes → Bytes) (manager : SecretManager) (url : Bytes) (r : HttpRequest) where
  Outcome : HttpAuthParams → Type 0
  Outcome p =
      (value : Option Bytes) × Authenticates base64 manager url value
      × (auth_headers_from_params base64 r p ≡ with_authorization r value)

  basic_params-Outcome :
      (secret : Secret) (p : HttpAuthParams)
      → manager.lookup_secret url (codes "http_basic") ≡ some secret
      → basic_params manager secret ≡ ok p
      → Outcome p
  unfolding basic_params auth_headers_from_params Outcome
  basic_params-Outcome secret p found h =
      let (username, got_name, rest) =
        >>=-eq-ok (try_get_value manager (secret (codes "username")) (codes "username"))
          (λ u. try_get_value manager (secret (codes "password")) (codes "password") >>= λ w.
            ok (record { basic_credentials = some (u, w); bearer_token = none }))
          h in
      let (password, got_word, made) =
        >>=-eq-ok (try_get_value manager (secret (codes "password")) (codes "password"))
          (λ w. ok (record { basic_credentials = some (username, w); bearer_token = none })) rest in
      let q : HttpAuthParams = record {
        basic_credentials = some (username, password);
        bearer_token = none;
      } in
      let same : q ≡ p = cc made in
      (
        some (codes "Basic " ++ base64 (username ++ (b':' ∷ password))),
        inl (
          secret,
          username,
          password,
          found,
          try_get_value-ok manager _ _ _ got_name,
          try_get_value-ok manager _ _ _ got_word,
          refl,
        ),
        ap (auth_headers_from_params base64 r) (sym same),
      )

  bearer_params-Outcome :
      (found : Option Secret) (p : HttpAuthParams)
      → manager.lookup_secret url (codes "http_basic") ≡ none
      → manager.lookup_secret url (codes "http_bearer") ≡ found
      → bearer_params manager found ≡ ok p
      → Outcome p
  unfolding bearer_params auth_headers_from_params Outcome
  bearer_params-Outcome none p no_basic found h =
      let q : HttpAuthParams = record { basic_credentials = none; bearer_token = none } in
      let same : q ≡ p = cc h in
      (none, (no_basic, found), ap (auth_headers_from_params base64 r) (sym same))
  bearer_params-Outcome (some secret) p no_basic found h =
      let (token, got, made) =
        >>=-eq-ok (try_get_value manager (secret (codes "token")) (codes "token"))
          (λ t. ok (record { basic_credentials = none; bearer_token = some t })) h in
      let q : HttpAuthParams = record { basic_credentials = none; bearer_token = some token } in
      let same : q ≡ p = cc made in
      (
        some (codes "Bearer " ++ token),
        inr (secret, token, no_basic, found, try_get_value-ok manager _ _ _ got, refl),
        ap (auth_headers_from_params base64 r) (sym same),
      )

-- A request that is authenticated from the secrets for a URL gets no header if no secret matches; it
-- gets the Basic header of the user name and the password if an http_basic secret matches, whatever
-- else does; and the Bearer header of the token if only an http_bearer secret does.
pub from_duckdb_secrets-ok :
    (base64 : Bytes → Bytes) (manager : SecretManager) (url : Bytes) (r : HttpRequest)
    (p : HttpAuthParams)
    → from_duckdb_secrets manager url ≡ ok p
    → (value : Option Bytes) × Authenticates base64 manager url value
      × (auth_headers_from_params base64 r p ≡ with_authorization r value)
unfolding from_duckdb_secrets Outcome
from_duckdb_secrets-ok base64 manager url r p h =
    by_basic (manager.lookup_secret url (codes "http_basic")) refl h
  where
    by_basic :
        (found : Option Secret)
        → manager.lookup_secret url (codes "http_basic") ≡ found
        → elim found as (λ _. Result HttpAuthParams) [
          | some secret ↦ basic_params manager secret
          | none ↦ bearer_params manager (manager.lookup_secret url (codes "http_bearer"))
        ]
          ≡ ok p
        → Outcome base64 manager url r p
    by_basic (some secret) e k = basic_params-Outcome base64 manager url r secret p e k
    by_basic none e k = bearer_params-Outcome base64 manager url r _ p e refl k
