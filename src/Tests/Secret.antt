-- ===== src/Tests/Secret.antt =====
-- The secret token manager at a concrete secret.
use datazoo_oauth.Base.{
  ◌≡◌, ◌≢◌, ◌⊎◌, refl, false, some, [], ◌∷◌, Bytes, codes, eqb, arith, Result, Error, ok, err,
  to_lower,
}
use datazoo_oauth.Base.Int.{pos}
use datazoo_oauth.Http.Headers.{find}
use datazoo_oauth.SecretManager.{
  KeyValueSecret, RefreshRequest, TokenResponse, SecretEntry, Registry, has_valid_cached_token,
  get_token,
}
use datazoo_oauth.SecretManager.Cached.{get_token_lem, get_token_twice, refresh}

abbrev secret : KeyValueSecret
secret = record {
  name = codes "sap";
  secret_map = (codes "refresh_token", codes "r1") ∷ [];
  redact_keys = [];
}

abbrev entry : SecretEntry
entry = record { secret = secret; storage = 1 }

abbrev registry : Registry
registry name = some entry

abbrev granted : TokenResponse
granted = record { access_token = codes "a1"; refresh_token = []; expires_in = pos 3600 }

abbrev granting : RefreshRequest → Result TokenResponse
granting r = ok granted

abbrev failing : RefreshRequest → Result TokenResponse
failing r = err (Error.runtime_error [])

abbrev build : KeyValueSecret → RefreshRequest
build s = record {
  token_url = codes "https://id.example/token";
  content_type = [];
  post_body = [];
  use_basic_auth = false;
  basic_auth_username = [];
  basic_auth_password = [];
}

get_token_example :
    ((t : Bytes) × ((get_token granting build registry secret 1000 1001).1 ≡ ok t) × (t ≢ []))
    ⊎ ((e : Error) × (get_token granting build registry secret 1000 1001 ≡ (registry, err e)))
get_token_example = get_token_lem granting build registry secret 1000 1001

get_token_twice_example :
    (new : SecretEntry) × ((get_token granting build registry secret 1000 1001).0 (codes "sap")
      ≡ some new)
    × (new.storage ≡ 1)
    × (find refresh new.secret.secret_map ≡ some (codes "r1"))
    × (get_token failing build
          (get_token granting build registry secret 1000 1001).0
          new.secret
          2000
          2001
        ≡ ((get_token granting build registry secret 1000 1001).0, ok (codes "a1")))
unfolding has_valid_cached_token find eqb to_lower
get_token_twice_example =
    get_token_twice granting failing build registry secret 1000 1001 2000 2001 3600 granted entry
      refl refl (λ e. cc) refl (omega arith) (λ e. cc) refl refl (omega arith) (omega arith)
