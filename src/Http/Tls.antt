-- ===== src/Http/Tls.antt =====
-- HttpTlsPolicy and HttpClient::CreateHttplibClient in src/http_client.cpp: the process-wide policy,
-- and how a client of httplib is set up under it. The two flags stand under one mutex, so calls from
-- several threads are a sequence of calls. The environment and the file system are parameters.
pub mod Policy
pub mod Warnings
use datazoo_oauth.Base.{
  ℕ, Bool, true, false, Option, none, some, List, [], ◌∷◌, Bytes, codes, is_empty, if◌then◌else◌,
}

-- The two process-wide variables.
pub record TlsPolicy : Type 0 where
  pub verify : Bool
  pub ca_cert_file : Bytes

abbrev pub default_policy : TlsPolicy
default_policy = record { verify = true; ca_cert_file = [] }

unfoldable pub server_cert_verification_enabled : TlsPolicy → Bool
server_cert_verification_enabled policy = policy.verify

same_flag : Bool → Bool → Bool
same_flag true b = b
same_flag false true = false
same_flag false false = true

-- A call that changes nothing returns early.
unfoldable pub set_server_cert_verification_enabled : Bool → TlsPolicy → TlsPolicy
unfolding same_flag
set_server_cert_verification_enabled enabled policy =
    if same_flag policy.verify enabled then policy else record policy { verify = enabled }

unfoldable pub trusted_ca_cert_file : TlsPolicy → Bytes
trusted_ca_cert_file policy = policy.ca_cert_file

unfoldable pub set_trusted_ca_cert_file : Bytes → TlsPolicy → TlsPolicy
set_trusted_ca_cert_file path policy = record policy { ca_cert_file = path }

abbrev pub candidate_bundles : List Bytes
candidate_bundles =
    codes "/etc/ssl/certs/ca-certificates.crt"
    ∷ codes "/etc/pki/tls/certs/ca-bundle.crt"
    ∷ codes "/etc/ssl/ca-bundle.pem"
    ∷ codes "/etc/pki/tls/cacert.pem"
    ∷ codes "/etc/ssl/cert.pem"
    ∷ []

-- The loop over the candidates.
pub first_that_exists : (Bytes → Bool) → List Bytes → Bytes
first_that_exists exists [] = []
first_that_exists exists (candidate ∷ rest) =
    if exists candidate then candidate else first_that_exists exists rest

-- What the resolution reads: SSL_CERT_FILE, and which files exist.
pub record Host : Type 0 where
  pub ssl_cert_file : Option Bytes
  pub exists : Bytes → Bool

pub resolve_from : (Bytes → Bool) → Option Bytes → Bytes
unfolding first_that_exists
resolve_from exists none = first_that_exists exists candidate_bundles
resolve_from exists (some file) =
    if is_empty file then first_that_exists exists candidate_bundles else file

unfoldable pub resolve_system_ca_cert_file : Host → Bytes
unfolding resolve_from
resolve_system_ca_cert_file host = resolve_from host.exists host.ssl_cert_file

-- The fields of HttpParams that the set-up reads.
pub record ConnectionParams : Type 0 where
  pub timeout : ℕ
  pub keep_alive : Bool
  pub url_encode : Bool

abbrev pub default_connection_params : ConnectionParams
default_connection_params = record { timeout = 30000; keep_alive = true; url_encode = true }

-- What is set on a client of httplib; `ca_cert_path` is `none` where the set-up does not call
-- `set_ca_cert_path`.
pub record HttplibClient : Type 0 where
  pub scheme_host_and_port : Bytes
  pub follow_location : Bool
  pub keep_alive : Bool
  pub ca_cert_path : Option Bytes
  pub verify : Bool
  pub write_timeout : ℕ
  pub read_timeout : ℕ
  pub connection_timeout : ℕ
  pub decompress : Bool
  pub path_encode : Bool
  pub quiet_shutdown : Bool

pub ca_cert_file_of : TlsPolicy → Host → Bytes
ca_cert_file_of policy host =
    if is_empty (trusted_ca_cert_file policy)
    then resolve_system_ca_cert_file host
    else trusted_ca_cert_file policy

pub path_to_set : Bytes → Option Bytes
path_to_set file = if is_empty file then none else some file

-- `tls` tells whether the client has a TLS context.
unfoldable pub create_httplib_client :
    TlsPolicy → Host → ConnectionParams → Bytes → Bool → HttplibClient
unfolding ca_cert_file_of path_to_set trusted_ca_cert_file resolve_system_ca_cert_file
    server_cert_verification_enabled
create_httplib_client policy host params scheme_host_and_port tls = record {
  scheme_host_and_port = scheme_host_and_port;
  follow_location = false;
  keep_alive = params.keep_alive;
  ca_cert_path = path_to_set (ca_cert_file_of policy host);
  verify = server_cert_verification_enabled policy;
  write_timeout = params.timeout;
  read_timeout = params.timeout;
  connection_timeout = params.timeout;
  decompress = true;
  path_encode = params.url_encode;
  quiet_shutdown = tls;
}

-- A call that changes the policy.
pub data Change : Type 0 where
  set_verification : Bool → Change
  set_ca_file : Bytes → Change

apply : Change → TlsPolicy → TlsPolicy
apply (set_verification enabled) policy = set_server_cert_verification_enabled enabled policy
apply (set_ca_file path) policy = set_trusted_ca_cert_file path policy

-- The policy after these calls, the first one first.
unfoldable pub apply_all : List Change → TlsPolicy → TlsPolicy
unfolding apply set_server_cert_verification_enabled set_trusted_ca_cert_file
apply_all [] policy = policy
apply_all (c ∷ cs) policy = apply_all cs (apply c policy)
