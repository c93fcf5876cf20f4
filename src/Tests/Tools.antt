-- ===== src/Tests/Tools.antt =====
-- The client under a timeout, the browser, the TLS policy and the traces at concrete inputs.
use datazoo_oauth.Base.{
  ◌+◌, ◌≡◌, refl, true, false, none, List, [], ◌∷◌, ◌++◌, map, Bytes, codes, starts_with,
  take_until, arith, err, runtime_error, ◌==◌, if◌then◌else◌,
}
use datazoo_oauth.TimeoutClient.{TimeoutHttpClient, new_client, send_request_with_timeout}
use datazoo_oauth.TimeoutClient.Laws.{send_request_with_timeout_blocks}
use datazoo_oauth.Http.Tls.{
  default_policy, Host, default_connection_params, create_httplib_client, Change, set_verification,
  set_ca_file, apply_all,
}
use datazoo_oauth.Http.Tls.Policy.{
  last_verification, last_ca_file, IsBundle, Gives, create_httplib_client-apply_all,
}
use datazoo_oauth.Http.Redaction.{
  redact_body, redact_fields, redact_field, redact_json, redact_form, split_first, drop_until,
  sensitive_body_fields, is_gap,
}
use datazoo_oauth.Http.Redaction.Form.{form, redacted, redact_body-form}
use datazoo_oauth.Http.Redaction.Json.{in_string}
use datazoo_oauth.Http.Redaction.Members.{
  Ending, valued, hidden_ending, Member, text, other, json, hidden,
}
use datazoo_oauth.Http.Redaction.Members.Shown.{redact_body-json}
use datazoo_oauth.Tests.Network.{with_token}

-- A client that takes 20 seconds and fails.
abbrev slow : TimeoutHttpClient
slow = new_client (λ r. (20000, err (runtime_error (codes "refused")))) 15000

send_request_with_timeout_blocks_example :
    (send_request_with_timeout slow 5 with_token 0).0 ≡ 5 + (slow.http_client with_token).0
send_request_with_timeout_blocks_example = send_request_with_timeout_blocks slow 5 with_token 0

-- Switched off and on again, with a bundle of one's own.
abbrev changes : List Change
changes = set_verification false ∷ set_ca_file (codes "/etc/ca.pem") ∷ set_verification true ∷ []

abbrev host : Host
host = record { ssl_cert_file = none; exists = λ file. true }

create_httplib_client_example :
    ((create_httplib_client
        (apply_all changes default_policy)
        host
        default_connection_params
        (codes "https://a")
        true).verify
      ≡ last_verification true changes)
    × ((bundle : Bytes) × IsBundle (last_ca_file [] changes) host bundle
        × Gives
            (create_httplib_client
              (apply_all changes default_policy)
              host
              default_connection_params
              (codes "https://a")
              true).ca_cert_path
            bundle)
    × ((create_httplib_client
          (apply_all changes default_policy)
          host
          default_connection_params
          (codes "https://a")
          true).follow_location
        ≡ false)
create_httplib_client_example =
    create_httplib_client-apply_all changes host default_connection_params (codes "https://a") true

abbrev grant_type : Bytes × Bytes
grant_type = (codes "grant_type", codes "x")

abbrev secrets : List (Bytes × Bytes)
secrets = (codes "code", codes "c0de") ∷ (codes "client_secret", codes "s3") ∷ []

redact_body_example :
    redact_body (form grant_type secrets)
    ≡ form
        (redacted sensitive_body_fields grant_type)
        (map (redacted sensitive_body_fields) secrets)
redact_body_example = redact_body-form grant_type secrets (omega arith) (omega arith)

-- The token request's secrets are starred in the trace.
redact_body-runs :
    redact_body (codes "grant_type=x&code=c0de&client_secret=s3")
    ≡ codes "grant_type=x&code=***&client_secret=***"
unfolding redact_body redact_fields redact_field redact_json split_first redact_form starts_with
    drop_until take_until
redact_body-runs = refl

-- A member of a JSON body, with the quotes put in for the marks.
abbrev with_quotes : Bytes → Bytes
with_quotes [] = []
with_quotes (c ∷ s) = (if c == b'`' then b'"' else c) ∷ with_quotes s

-- An answer of the token endpoint.
abbrev members : List Member
members =
    text (codes "access_token") (codes ": ") (codes "abc") (codes ",")
    ∷ other (codes "expires_in") (codes ":3600,")
    ∷ text (codes "token_type") (codes ":") (codes "Bearer") (codes ",")
    ∷ []

-- The body is cut in a second token.
abbrev cut_ending : Ending
cut_ending = valued (codes "id_token") (codes ":") (in_string (codes "ey"))

redact_body-json_example :
    redact_body (json (codes "{") members cut_ending)
    ≡ json
        (codes "{")
        (map (hidden sensitive_body_fields) members)
        (hidden_ending sensitive_body_fields cut_ending)
unfolding is_gap
redact_body-json_example =
    redact_body-json (codes "{") members cut_ending (omega arith)
      (
        (
          ((omega arith, (refl, omega arith)), omega arith, omega arith),
          ((omega arith, (refl, omega arith)), omega arith, omega arith),
          refl,
          refl,
        ),
        (
          (((omega arith, (refl, omega arith)), omega arith, omega arith), refl),
          (
            (
              ((omega arith, (refl, omega arith)), omega arith, omega arith),
              ((omega arith, (refl, omega arith)), omega arith, omega arith),
              refl,
              refl,
            ),
            tt,
          ),
        ),
      )
      (
        ((omega arith, (refl, omega arith)), omega arith, omega arith),
        refl,
        omega arith,
        omega arith,
      )

redact_body-runs_json :
    redact_body (with_quotes (codes "{`id_token` : `abc`, `n`: 1}"))
    ≡ with_quotes (codes "{`id_token` : `***`, `n`: 1}")
unfolding redact_body redact_fields redact_field redact_json split_first redact_form starts_with
    drop_until take_until
redact_body-runs_json = refl

-- A value with an escaped quote is starred up to that quote only.
redact_body-runs_escaped :
    redact_body (with_quotes (codes "{`id_token`:`ab" ++ (92 ∷ codes "`cd`}")))
    ≡ with_quotes (codes "{`id_token`:`***`cd`}")
unfolding redact_body redact_fields redact_field redact_json split_first redact_form starts_with
    drop_until take_until
redact_body-runs_escaped = refl
