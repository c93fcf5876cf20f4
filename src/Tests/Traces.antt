-- ===== src/Tests/Traces.antt =====
-- The traces, the warnings and the pauses at concrete inputs.
use datazoo_oauth.Base.{
  take, drop, if◌then◌else◌, Result, ok, Option, any, some, List, eqb, Bytes, ℕ, ◌*◌, ◌^◌, ◌≤◌, ◌≡◌,
  ◌⊎◌, true, false, none, List, [], ◌∷◌, codes, length, All, arith,
}
use datazoo_oauth.Tracing.{written, tracing_enabled_at_runtime}
use datazoo_oauth.Http.Message.{HttpResponse, HttpRequest}
use datazoo_oauth.Http.Client.{Attempt, responded, default_params}
use datazoo_oauth.Http.Client.Pauses.{Floats, RetryParams, pauses, IsPause, pauses-IsPause}
use datazoo_oauth.Http.Redaction.Json.{done}
use datazoo_oauth.Http.Redaction.Members.{Member, text, other, plain, json}
use datazoo_oauth.Http.Tls.{
  default_policy, Host, default_connection_params, create_httplib_client, Change, set_verification,
  set_ca_file, apply_all,
}
use datazoo_oauth.Http.Tls.Warnings.{
  Warned, is_warning, changes_lines, setup_lines, setup_lines_warn,
}
use datazoo_oauth.OauthTypes.{OauthConfig}
use datazoo_oauth.Flow.{token_request}
use datazoo_oauth.SecretManager.Json.{Yyjson}
use datazoo_oauth.Base.Int.{pos}
use datazoo_oauth.Tests.Encode.{config}
use datazoo_oauth.Tests.Network.{with_token, redirecting}
use datazoo_oauth.Tests.Delivery.{request_of}

abbrev with_another : OauthConfig
with_another = record config { client_secret = codes "x&y" }

abbrev one : HttpRequest
one = request_of (token_request (λ s. s) config (codes "c0de") (codes "ver"))

abbrev another : HttpRequest
another = request_of (token_request (λ s. s) with_another (codes "dead") (codes "abc"))

-- An answer of the token endpoint, with this token.
abbrev granted : Bytes → List Member
granted token =
    text (codes "access_token") (codes ":") token (codes ",")
    ∷ other (codes "expires_in") (codes ":3600}")
    ∷ []

abbrev answer : Bytes → Attempt
answer token = responded (record {
  status = 200;
  body = json (codes "{") (granted token) (plain done);
  location = none;
  content_type = codes "application/json";
  headers = [];
})

-- A reader that finds the token of such an answer.
abbrev reader : Yyjson
reader = record {
  Value = Bytes;
  read = λ s. some (take 3 (drop 17 s));
  is_obj = λ v. true;
  obj_get = λ v key. if eqb key (codes "access_token") then some v else none;
  get_str = λ v. some v;
  is_int = λ v. false;
  is_num = λ v. false;
  get_int = λ v. pos 0;
}

abbrev received : Bytes → Result (Option HttpResponse)
received token = ok (
    some (record {
      method = one.method;
      url = one.url;
      code = 200;
      headers = [];
      content_type = codes "application/json";
      content = json (codes "{") (granted token) (plain done);
    }))

abbrev switched_off : List Change
switched_off = set_ca_file (codes "/etc/ca.pem") ∷ set_verification false ∷ []

abbrev host : Host
host = record { ssl_cert_file = none; exists = λ file. true }

setup_lines_warn_example :
    (((create_httplib_client
          (apply_all switched_off default_policy)
          host
          default_connection_params
          (codes "https://a")
          true).verify
        ≡ false)
      × Warned true
          (written false (some (codes "1")) (changes_lines default_policy switched_off))
          (written false
            (some (codes "1"))
            (setup_lines (apply_all switched_off default_policy) host (codes "https://a")))
          (codes "https://a"))
    ⊎ (((create_httplib_client
            (apply_all switched_off default_policy)
            host
            default_connection_params
            (codes "https://a")
            true).verify
          ≡ true)
        × (any is_warning (
              written false
                (some (codes "1"))
                (setup_lines (apply_all switched_off default_policy) host (codes "https://a")))
            ≡ false))
unfolding tracing_enabled_at_runtime eqb
setup_lines_warn_example =
    setup_lines_warn false (some (codes "1")) switched_off host default_connection_params
      (codes "https://a") true

-- Whole numbers in the place of floating-point ones.
abbrev whole : Floats
whole = record {
  Float = ℕ;
  of_uint64 = λ n. n;
  pow = λ b e. b ^ e;
  times = λ a b. a * b;
  to_uint64 = λ n. n;
}

abbrev by_default : RetryParams whole
by_default = record { retry_wait_ms = 100; retry_backoff = 4 }

pauses-IsPause_example :
    All
      (IsPause whole by_default default_params (λ a b. b) redirecting)
      (pauses whole by_default default_params (λ a b. b) redirecting with_token)
    × (length (pauses whole by_default default_params (λ a b. b) redirecting with_token) ≤ 11)
pauses-IsPause_example =
    pauses-IsPause whole by_default default_params (λ a b. b) redirecting with_token (omega arith)
