-- ===== src/Http/Secrets.antt =====
-- HttpAuthParams::FromDuckDbSecrets in src/http_client.cpp: which of DuckDB's secrets for a URL
-- authenticates a request. The lookup of secrets is a parameter, and so is what DuckDB throws for a
-- secret without a required value.
pub mod Precedence
use datazoo_oauth.Base.{Option, none, some, Bytes, codes, Result, Error, ok, err, ◌>>=◌}
use datazoo_oauth.Http.Url.{HttpUrl}
use datazoo_oauth.Http.Url
use datazoo_oauth.Http.Message.{HttpAuthParams}

-- A secret's values by name.
abbrev pub Secret : Type 0
Secret = Bytes → Option Bytes

-- `LookupSecret`, by the URL and the type of the secret, and what `TryGetValue` throws.
pub record SecretManager : Type 0 where
  pub lookup_secret : Bytes → Bytes → Option Secret
  pub missing : Bytes → Error

-- `TryGetValue(name, true)`
try_get_value : SecretManager → Option Bytes → Bytes → Result Bytes
try_get_value manager none name = err (manager.missing name)
try_get_value manager (some v) name = ok v

bearer_params : SecretManager → Option Secret → Result HttpAuthParams
unfolding try_get_value
bearer_params manager none = ok (record { basic_credentials = none; bearer_token = none })
bearer_params manager (some secret) = do
  token ← try_get_value manager (secret (codes "token")) (codes "token")
  ok (record { basic_credentials = none; bearer_token = some token })

basic_params : SecretManager → Secret → Result HttpAuthParams
unfolding try_get_value
basic_params manager secret = do
  username ← try_get_value manager (secret (codes "username")) (codes "username")
  password ← try_get_value manager (secret (codes "password")) (codes "password")
  ok (record { basic_credentials = some (username, password); bearer_token = none })

unfoldable pub from_duckdb_secrets : SecretManager → Bytes → Result HttpAuthParams
unfolding basic_params bearer_params
from_duckdb_secrets manager url = elim (manager.lookup_secret url (codes "http_basic")) [
  | some secret ↦ basic_params manager secret
  | none ↦ bearer_params manager (manager.lookup_secret url (codes "http_bearer"))
]

-- The overload for a parsed URL.
unfoldable pub from_duckdb_secrets_of_url : SecretManager → HttpUrl → Result HttpAuthParams
from_duckdb_secrets_of_url manager url = from_duckdb_secrets manager (Url.to_string url)
