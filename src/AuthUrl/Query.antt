-- ===== src/AuthUrl/Query.antt =====
-- The query of the authorization URL, as the authorization server reads it.
use datazoo_oauth.Base.{
  ◌≡◌, refl, ap, List, [], ◌∷◌, ◌++◌, some, append_assoc, Bool-cases, inl, inr, Bytes, IsBytes,
  IsBytes-literal, All, codes, is_empty, if◌then◌else◌,
}
use datazoo_oauth.Encoding.{url_encode}
use datazoo_oauth.Encoding.Query.{
  parse_form, encode_tail, encode_pairs, IsPair, parse_form-encode_pairs, IsQueryByte,
  encode_pairs-IsQueryByte,
}
use datazoo_oauth.OauthTypes.{OauthConfig, get_authorization_url}
use datazoo_oauth.AuthUrl.{append_params, build_authorization_url_pure}

-- The parameters after `response_type`, in order.
pub parameters : OauthConfig → Bytes → Bytes → List (Bytes × Bytes)
parameters config code_challenge state =
    (codes "client_id", config.client_id)
      ∷ (codes "redirect_uri", config.redirect_uri)
      ∷ (codes "state", state)
      ∷ (codes "code_challenge", code_challenge)
      ∷ (codes "code_challenge_method", codes "S256")
      ∷ (if is_empty config.scope then [] else (codes "scope", config.scope) ∷ [])
    ++ config.extra_auth_params

append_params_lem : (ps : List (Bytes × Bytes)) → append_params ps ≡ encode_tail ps
unfolding append_params encode_tail
append_params_lem [] = refl
append_params_lem ((k, v) ∷ ps) = rw (append_params_lem ps) refl

-- The URL up to its scope.
around : OauthConfig → Bytes → Bytes → Bytes → Bytes
around config code_challenge state tail =
    get_authorization_url config
    ++ (codes "?response_type=code&client_id="
        ++ (url_encode config.client_id
            ++ (codes "&redirect_uri="
                ++ (url_encode config.redirect_uri
                    ++ (codes "&state="
                        ++ (url_encode state
                            ++ (codes "&code_challenge="
                                ++ (url_encode code_challenge
                                    ++ (codes "&code_challenge_method=S256" ++ tail)))))))))

query_lem :
    (config : OauthConfig) (code_challenge state : Bytes)
    → build_authorization_url_pure config code_challenge state
      ≡ get_authorization_url config
        ++ (b'?'
            ∷ encode_pairs
                (codes "response_type", codes "code")
                (parameters config code_challenge state))
unfolding build_authorization_url_pure encode_pairs encode_tail parameters url_encode around
query_lem config code_challenge state = elim (Bool-cases (is_empty config.scope)) [
  | inl nothing ↦ rw (nothing, append_params_lem config.extra_auth_params) refl
  | inr some_scope ↦
      rw (some_scope, append_params_lem config.extra_auth_params)
        (ap (around config code_challenge state) (
          append_assoc (codes "&scope=") (url_encode config.scope)
            (encode_tail config.extra_auth_params)))
]

parameters-IsPair :
    (config : OauthConfig) (code_challenge state : Bytes)
    → IsBytes config.client_id
    → IsBytes config.redirect_uri
    → IsBytes config.scope
    → All IsPair config.extra_auth_params
    → IsBytes code_challenge
    → IsBytes state
    → All IsPair (parameters config code_challenge state)
unfolding parameters
parameters-IsPair config code_challenge state id uri scope extra challenge st =
    let S256_pair : IsPair (codes "code_challenge_method", codes "S256") =
      (IsBytes-literal (codes "code_challenge_method") refl, IsBytes-literal (codes "S256") refl) in
    let challenge_pair : IsPair (codes "code_challenge", code_challenge) =
      (IsBytes-literal (codes "code_challenge") refl, challenge) in
    let state_pair : IsPair (codes "state", state) = (IsBytes-literal (codes "state") refl, st) in
    let uri_pair : IsPair (codes "redirect_uri", config.redirect_uri) =
      (IsBytes-literal (codes "redirect_uri") refl, uri) in
    let id_pair : IsPair (codes "client_id", config.client_id) =
      (IsBytes-literal (codes "client_id") refl, id) in
    (id_pair, (uri_pair, (state_pair, (challenge_pair, (S256_pair, scope_and_extra)))))
  where
    scope_and_extra : All IsPair (
        (if is_empty config.scope then [] else (codes "scope", config.scope) ∷ [])
        ++ config.extra_auth_params)
    scope_and_extra = elim (Bool-cases (is_empty config.scope)) [
      | inl nothing ↦ rw (nothing) extra
      | inr some_scope ↦ rw (some_scope) ((IsBytes-literal (codes "scope") refl, scope), extra)
    ]

-- For a configuration of bytes, the authorization URL is the authorization endpoint, a `?` and a
-- query that an authorization server's form parser reads as exactly `response_type=code`, the client
-- identifier, the redirect URI, the state, the code challenge, the method S256, the scope if it is
-- not empty, and the extra parameters in their order; the query has no `#`, no second `?`, no space,
-- no control byte and no byte above 126.
pub build_authorization_url_pure-parse_form :
    (config : OauthConfig) (code_challenge state : Bytes)
    → IsBytes config.client_id
    → IsBytes config.redirect_uri
    → IsBytes config.scope
    → All IsPair config.extra_auth_params
    → IsBytes code_challenge
    → IsBytes state
    → (q : Bytes) × (build_authorization_url_pure config code_challenge state
        ≡ get_authorization_url config ++ (b'?' ∷ q))
      × (parse_form q
          ≡ some ((codes "response_type", codes "code") ∷ parameters config code_challenge state))
      × All IsQueryByte q
build_authorization_url_pure-parse_form config code_challenge state id uri scope extra challenge
      st =
    let first : Bytes × Bytes = (codes "response_type", codes "code") in
    let response : IsPair first =
      (IsBytes-literal (codes "response_type") refl, IsBytes-literal (codes "code") refl) in
    let pairs = parameters-IsPair config code_challenge state id uri scope extra challenge st in
    (
      encode_pairs first (parameters config code_challenge state),
      query_lem config code_challenge state,
      parse_form-encode_pairs first (parameters config code_challenge state) response pairs,
      encode_pairs-IsQueryByte first (parameters config code_challenge state) response pairs,
    )
