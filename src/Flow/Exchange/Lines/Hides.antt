-- ===== src/Flow/Exchange/Lines/Hides.antt =====
-- The traces of the token exchange do not depend on its secrets.
use datazoo_oauth.Base.{
  ℕ, ◌≡◌, ◌⊎◌, Option, none, some, List, [], ◌∷◌, ◌++◌, Bytes, codes, length, ◌==◌, if◌then◌else◌,
  Result, ok, err, runtime_error,
}
use datazoo_oauth.Base.Decimal.{to_string}
use datazoo_oauth.Tracing.{Line}
use datazoo_oauth.OauthTypes.{OauthTokens}
use datazoo_oauth.SecretManager.Json.{Yyjson}
use datazoo_oauth.Http.Message.{HttpResponse}
use datazoo_oauth.Flow.{string_member, parse_token_response}
use datazoo_oauth.Flow.Tokens.{int_member, IsObject}
use datazoo_oauth.Flow.Exchange.Lines.{
  flow_debug, flow_info, members_lines, parse_lines, outcome_lines,
}

-- Both are there, or neither.
abbrev pub SamePresence : Option Bytes → Option Bytes → Type 0
SamePresence none none = Unit
SamePresence (some s) (some t) = Unit
SamePresence _ _ = ⊥

-- Two token responses that are read alike but for the access and the refresh token.
pub record ReadsAlike (y : Yyjson) (c d : Bytes) : Type 0 where
  pub root : y.Value
  pub root' : y.Value
  pub token : Bytes
  pub token' : Bytes
  pub is_object : IsObject y c root
  pub is_object' : IsObject y d root'
  pub has_token : string_member y (codes "access_token") root ≡ some token
  pub has_token' : string_member y (codes "access_token") root' ≡ some token'
  pub same_refresh :
      SamePresence
        (string_member y (codes "refresh_token") root)
        (string_member y (codes "refresh_token") root')
  pub same_type :
      string_member y (codes "token_type") root ≡ string_member y (codes "token_type") root'
  pub same_scope : string_member y (codes "scope") root ≡ string_member y (codes "scope") root'
  pub same_expiry : int_member y (codes "expires_in") root ≡ int_member y (codes "expires_in") root'

-- What SendRequest gave the flow: the same, or two responses with status 200 that differ in tokens only.
abbrev pub AlikeAnswers :
    (y : Yyjson)
    → (HttpResponse → Bytes)
    → Result (Option HttpResponse)
    → Result (Option HttpResponse)
    → Type 0
AlikeAnswers y content (err e) (err e') = e ≡ e'
AlikeAnswers y content (ok none) (ok none) = Unit
AlikeAnswers y content (ok (some v)) (ok (some w)) =
    (v.code ≡ w.code)
    × ((content v ≡ content w)
        ⊎ ((v.code ≡ 200)
            × (length (content v) ≡ length (content w))
            × ReadsAlike y (content v) (content w)))
AlikeAnswers y content _ _ = ⊥

-- The lines about the members of an object.
abbrev object_lines : (y : Yyjson) → y.Value → List Line
object_lines y root =
    members_lines (string_member y (codes "access_token") root)
      (string_member y (codes "refresh_token") root) (string_member y (codes "token_type") root)
      (string_member y (codes "scope") root) (int_member y (codes "expires_in") root)

size_line : ℕ → Line
unfolding flow_debug
size_line n = flow_debug (codes "Parsing token response (" ++ (to_string n ++ codes " bytes)"))

-- The outcome as it depends on the status and the content.
abbrev read : (y : Yyjson) → ℕ → ℕ → Bytes → Result OauthTokens
read y now code c =
    let parsed = parse_token_response y c now in
    if code == 200
    then parsed
    else err (
        runtime_error
          (codes "Token exchange failed with status " ++ (to_string code ++ (codes ": " ++ c))))

lines_of : (y : Yyjson) → ℕ → ℕ → Bytes → List Line
unfolding flow_debug flow_info
lines_of y now code c =
    flow_debug (codes "Token exchange response status: " ++ to_string code)
    ∷ flow_debug (
        codes "Token exchange response body received ("
        ++ (to_string (length c) ++ codes " bytes)"))
    ∷ ((if code == 200
          then flow_info (codes "Token exchange successful, access token received and stored")
            ∷ parse_lines y c
          else [])
        ++ outcome_lines (read y now code c))
