-- ===== src/Tests/Encode.antt =====
-- The encodings, the tokens' expiry, the authorization URL and the charsets at concrete inputs.
use datazoo_oauth.Base.{
  ℕ, ◌≡◌, refl, true, Option, none, some, [], ◌∷◌, ◌++◌, Bytes, IsBytes, IsBytes-literal, All,
  codes, length, length-replicate, subst, replicate, leb, arith,
}
use datazoo_oauth.Base.Int.{pos}
use datazoo_oauth.Encoding.{url_encode, generate_secure_random_token, encode_buffer}
use datazoo_oauth.Encoding.Form.{url_decode, plain, url_decode-url_encode}
use datazoo_oauth.Encoding.Html.{rendered, rendered-escape_html_text}
use datazoo_oauth.Encoding.{escape_html_text}
use datazoo_oauth.Encoding.Query.{parse_form, IsQueryByte}
use datazoo_oauth.Encoding.Token.{
  IsRandomSource, IsUnreserved, decode_base64url, generate_secure_random_token_lem,
}
use datazoo_oauth.OauthTypes.{
  OauthConfig, OauthTokens, authorization_code, new_tokens, is_expired, needs_refresh,
  calculate_expires_after, get_authorization_url, generate_code_challenge_s256,
}
use datazoo_oauth.OauthTypes.Expiry.{calculate_expires_after_lem}
use datazoo_oauth.OauthTypes.Challenge.{generate_code_challenge_s256_lem}
use datazoo_oauth.AuthUrl.{build_authorization_url_pure}
use datazoo_oauth.AuthUrl.Query.{parameters, build_authorization_url_pure-parse_form}

abbrev sample : Bytes
sample = codes "a b&c=%"

url_decode-url_encode_example : url_decode plain (url_encode sample) ≡ some sample
url_decode-url_encode_example = url_decode-url_encode sample (IsBytes-literal sample refl)

rendered-escape_html_text_example :
    rendered none (escape_html_text (codes "<b>&'")) ≡ some (codes "<b>&'")
rendered-escape_html_text_example = rendered-escape_html_text (codes "<b>&'")

-- A source of the byte 251.
abbrev pub constant_source : ℕ → Option Bytes
constant_source n = some (replicate n 251)

constant-IsBytes : (n : ℕ) → IsBytes (replicate n 251)
constant-IsBytes ℕ.zero = tt
constant-IsBytes (ℕ.suc n) = (omega arith, constant-IsBytes n)

pub constant_source-IsRandomSource : IsRandomSource constant_source
constant_source-IsRandomSource = record { fills = filled }
  where
    filled : (n : ℕ) (b : Bytes) → constant_source n ≡ some b → (length b ≡ n) × IsBytes b
    filled n b e =
        let made : replicate n 251 ≡ b = cc in
        (rw (← made) (length-replicate n 251), subst IsBytes made (constant-IsBytes n))

generate_secure_random_token_example :
    (length (codes "-_v7") ≡ 4)
    × All IsUnreserved (codes "-_v7")
    × ((b : Bytes) × (constant_source 3 ≡ some b) × (decode_base64url (codes "-_v7") ≡ some b))
unfolding generate_secure_random_token encode_buffer
generate_secure_random_token_example =
    generate_secure_random_token_lem constant_source 3 (codes "-_v7") constant_source-IsRandomSource
      refl

abbrev expiring : OauthTokens
expiring = record new_tokens { access_token = codes "t"; expires_in = pos 3600 }

calculate_expires_after_example :
    (is_expired (calculate_expires_after expiring 1000) 4600 ≡ leb 4600 4600)
    × (needs_refresh (calculate_expires_after expiring 1000) 4600 ≡ leb 4600 4900)
calculate_expires_after_example =
    calculate_expires_after_lem expiring 3600 1000 4600 refl (omega arith) (omega arith)

abbrev pub zero_digest : Bytes → Bytes
zero_digest s = replicate 32 255

generate_code_challenge_s256_example :
    generate_code_challenge_s256 zero_digest (codes "v") ≡ encode_buffer (zero_digest (codes "v"))
generate_code_challenge_s256_example =
    generate_code_challenge_s256_lem zero_digest (codes "v") refl
      (IsBytes-literal (zero_digest (codes "v")) refl)

abbrev pub config : OauthConfig
config = record {
  tenant_name = codes "acme";
  data_center = codes "eu10";
  client_id = codes "my client";
  client_secret = codes "s&t";
  scope = codes "read write";
  redirect_uri = codes "http://localhost:8080/cb";
  authorization_flow = authorization_code;
  custom_client = true;
  custom_auth_url = [];
  custom_token_url = codes "https://id.example/token";
  extra_auth_params = (codes "prompt", codes "login") ∷ [];
}

build_authorization_url_pure_example :
    (q : Bytes) × (build_authorization_url_pure config (codes "ch") (codes "st")
      ≡ get_authorization_url config ++ (b'?' ∷ q))
    × (parse_form q
        ≡ some
            ((codes "response_type", codes "code") ∷ parameters config (codes "ch") (codes "st")))
    × All IsQueryByte q
build_authorization_url_pure_example =
    build_authorization_url_pure-parse_form config (codes "ch") (codes "st")
      (IsBytes-literal config.client_id refl) (IsBytes-literal config.redirect_uri refl)
      (IsBytes-literal config.scope refl)
      ((IsBytes-literal (codes "prompt") refl, IsBytes-literal (codes "login") refl), tt)
      (IsBytes-literal (codes "ch") refl) (IsBytes-literal (codes "st") refl)
