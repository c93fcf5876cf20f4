-- ===== src/Flow/Exchange/Secrets.antt =====
-- The body of the token request as a form, for two secrets, codes and verifiers.
use datazoo_oauth.Base.{
  ◌≡◌, refl, sym, ◌∙◌, inl, inr, Bool-cases, List, ◌∷◌, map, Bytes, IsBytes, IsBytes-literal, All,
  codes, length, is_empty, is_empty-length, eqb,
}
use datazoo_oauth.OauthTypes.{OauthConfig, ClientType, custom, pre_delivered, get_client_type}
use datazoo_oauth.Flow.Exchange.Parameters.{encoded_pair, encode_pairs-form}
use datazoo_oauth.Http.Redaction.Alike.{AlikeParameters}
use datazoo_oauth.Encoding.{url_encode}
use datazoo_oauth.Encoding.Form.{is_empty-url_encode}
use datazoo_oauth.Encoding.Query.{IsPair}
use datazoo_oauth.Http.Redaction.Form.{form}
use datazoo_oauth.Flow.{build_token_exchange_post_data}
use datazoo_oauth.Flow.Exchange.{client_pairs, exchange_pairs, post_data_lem, client_pairs-IsPair}

-- The same configuration with another secret.
abbrev pub with_secret : OauthConfig → Bytes → OauthConfig
with_secret config secret = record config { client_secret = secret }

abbrev pub all_pairs : OauthConfig → Bytes → Bytes → List (Bytes × Bytes)
all_pairs config code verifier =
    (codes "grant_type", codes "authorization_code") ∷ exchange_pairs config code verifier

pub all_pairs-IsPair :
    (config : OauthConfig) (code verifier : Bytes)
    → IsBytes config.client_id
    → IsBytes config.client_secret
    → IsBytes config.redirect_uri
    → IsBytes code
    → IsBytes verifier
    → All IsPair (all_pairs config code verifier)
unfolding exchange_pairs
all_pairs-IsPair config code verifier id secret uri hc hv = (
  (IsBytes-literal (codes "grant_type") refl, IsBytes-literal (codes "authorization_code") refl),
  (
    (IsBytes-literal (codes "code") refl, hc),
    (
      (IsBytes-literal (codes "redirect_uri") refl, uri),
      (
        (IsBytes-literal (codes "code_verifier") refl, hv),
        client_pairs-IsPair config (get_client_type config) id secret,
      ),
    ),
  ),
)

client_pairs-alike :
    (config : OauthConfig) (secret : Bytes) (t : ClientType)
    → length (url_encode config.client_secret) ≡ length (url_encode secret)
    → is_empty config.client_secret ≡ is_empty secret
    → AlikeParameters
        (map encoded_pair (client_pairs config t))
        (map encoded_pair (client_pairs (with_secret config secret) t))
unfolding client_pairs url_encode eqb
client_pairs-alike config secret pre_delivered size same = tt
client_pairs-alike config secret custom size same = elim (Bool-cases (is_empty secret)) [
  | inl nothing ↦ rw same (rw nothing ((refl, refl, inl refl), tt))
  | inr given ↦ rw same (rw given ((refl, refl, inl refl), ((refl, size, inr refl), tt)))
]

pub all_pairs-alike :
    (config : OauthConfig) (secret code verifier code' verifier' : Bytes)
    → length (url_encode config.client_secret) ≡ length (url_encode secret)
    → length (url_encode code) ≡ length (url_encode code')
    → length (url_encode verifier) ≡ length (url_encode verifier')
    → AlikeParameters
        (map encoded_pair (all_pairs config code verifier))
        (map encoded_pair (all_pairs (with_secret config secret) code' verifier'))
unfolding exchange_pairs url_encode eqb get_client_type
all_pairs-alike config secret code verifier code' verifier' hs hc hv = (
  (refl, refl, inl refl),
  (
    (refl, hc, inr refl),
    (
      (refl, refl, inl refl),
      (
        (refl, hv, inr refl),
        client_pairs-alike config secret (get_client_type config) hs (
            sym (is_empty-url_encode config.client_secret)
            ∙ is_empty-length (url_encode config.client_secret) (url_encode secret) hs
            ∙ is_empty-url_encode secret),
      ),
    ),
  ),
)

-- The body of the request as a form.
abbrev pub body : OauthConfig → Bytes → Bytes → Bytes
body config code verifier =
    form (encoded_pair (codes "grant_type", codes "authorization_code"))
      (map encoded_pair (exchange_pairs config code verifier))

pub post_data-body :
    (config : OauthConfig) (code verifier : Bytes)
    → build_token_exchange_post_data config code verifier ≡ body config code verifier
post_data-body config code verifier =
    post_data_lem config code verifier
    ∙ encode_pairs-form (codes "grant_type", codes "authorization_code")
        (exchange_pairs config code verifier)
