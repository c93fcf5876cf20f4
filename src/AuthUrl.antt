-- ===== src/AuthUrl.antt =====
-- `BuildAuthorizationUrlPure` of src/oauth2_url_pure.cpp.
pub mod Query
use datazoo_oauth.Base.{List, [], ◌∷◌, ◌++◌, Bytes, codes, is_empty, if◌then◌else◌}
use datazoo_oauth.Encoding.{url_encode}
use datazoo_oauth.OauthTypes.{OauthConfig, get_authorization_url}

-- The loop over `extra_auth_params`.
unfoldable pub append_params : List (Bytes × Bytes) → Bytes
append_params [] = []
append_params ((k, v) ∷ ps) =
    codes "&" ++ (url_encode k ++ (codes "=" ++ (url_encode v ++ append_params ps)))

unfoldable pub build_authorization_url_pure : OauthConfig → Bytes → Bytes → Bytes
unfolding append_params
build_authorization_url_pure config code_challenge state =
    get_authorization_url config
    ++ (codes "?response_type=code"
        ++ (codes "&client_id="
            ++ (url_encode config.client_id
                ++ (codes "&redirect_uri="
                    ++ (url_encode config.redirect_uri
                        ++ (codes "&state="
                            ++ (url_encode state
                                ++ (codes "&code_challenge="
                                    ++ (url_encode code_challenge
                                        ++ (codes "&code_challenge_method=S256"
                                            ++ ((if is_empty config.scope
                                                  then []
                                                  else codes "&scope=" ++ url_encode config.scope)
                                                ++ append_params config.extra_auth_params)))))))))))
