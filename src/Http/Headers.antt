-- ===== src/Http/Headers.antt =====
-- `HeaderMap`, a map whose keys are compared without regard to case, and the headers that carry
-- the caller's identity.
pub mod Credentials
pub mod Map
use datazoo_oauth.Base.{
  ℕ, Bool, true, false, not, ◌&&◌, ◌||◌, Option, none, some, List, [], ◌∷◌, ◌++◌, Bytes, codes,
  ◌==◌, if◌then◌else◌, is_empty, eqb, to_lower,
}

abbrev pub HeaderMap : Type 0
HeaderMap = List (Bytes × Bytes)

abbrev pub same_key : Bytes → Bytes → Bool
same_key a b = eqb (to_lower a) (to_lower b)

unfoldable pub find : Bytes → HeaderMap → Option Bytes
find name [] = none
find name ((k, v) ∷ hs) = if same_key k name then some v else find name hs

-- `emplace` does nothing if the key is there.
unfoldable pub emplace : Bytes → Bytes → HeaderMap → HeaderMap
emplace name value [] = (name, value) ∷ []
emplace name value ((k, v) ∷ hs) =
    if same_key k name then (k, v) ∷ hs else (k, v) ∷ emplace name value hs

-- `headers[name] = value`
unfoldable pub assign : Bytes → Bytes → HeaderMap → HeaderMap
assign name value [] = (name, value) ∷ []
assign name value ((k, v) ∷ hs) =
    if same_key k name then (k, value) ∷ hs else (k, v) ∷ assign name value hs

abbrev sensitive_headers : List Bytes
sensitive_headers =
    codes "authorization"
    ∷ codes "proxy-authorization"
    ∷ codes "set-cookie"
    ∷ codes "cookie"
    ∷ codes "x-auth-token"
    ∷ codes "x-api-key"
    ∷ codes "x-access-token"
    ∷ codes "x-csrf-token"
    ∷ codes "apikey"
    ∷ codes "ocp-apim-subscription-key"
    ∷ []

is_member : Bytes → List Bytes → Bool
is_member x [] = false
is_member x (y ∷ ys) = eqb x y || is_member x ys

unfoldable pub is_credential_header_name : Bytes → Bool
unfolding is_member
is_credential_header_name name = is_member (to_lower name) sensitive_headers

-- The part of a value up to and with its first space, if it has one.
unfoldable pub scheme_prefix : Bytes → Option Bytes
scheme_prefix [] = none
scheme_prefix (c ∷ s) =
    if c == 32
    then some (c ∷ [])
    else elim (scheme_prefix s) [ none ↦ none | some p ↦ some (c ∷ p) ]

abbrev stars : Bytes
stars = codes "***"

redact_authorization : Bytes → Bytes
unfolding scheme_prefix
redact_authorization value = elim (scheme_prefix value) [ none ↦ stars | some p ↦ p ++ stars ]

unfoldable pub redact_header_value : Bytes → Bytes → Bytes
unfolding redact_authorization
redact_header_value name value =
    if not (is_credential_header_name name)
    then value
    else if eqb (to_lower name) (codes "authorization")
        || eqb (to_lower name) (codes "proxy-authorization")
    then redact_authorization value
    else stars

-- The erasing loop of a redirect to another origin.
unfoldable pub erase_credentials : HeaderMap → HeaderMap
erase_credentials [] = []
erase_credentials ((k, v) ∷ hs) =
    let rest = erase_credentials hs in if is_credential_header_name k then rest else (k, v) ∷ rest

-- The loop of `HttpRequest::CarriesCredentials`.
unfoldable pub has_credentials : HeaderMap → Bool
has_credentials [] = false
has_credentials ((k, v) ∷ hs) =
    (is_credential_header_name k && not (is_empty v)) || has_credentials hs
