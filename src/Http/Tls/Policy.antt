-- ===== src/Http/Tls/Policy.antt =====
-- Under which policy a client is made, after any calls that change it.
use datazoo_oauth.Base.{
  ◌≡◌, ◌≢◌, refl, ◌⊎◌, inl, inr, Bool, true, false, Bool-cases, Option, none, some, List, [], ◌∷◌,
  ◌++◌, Bytes, ap, ◌∙◌, arith, All, is_empty, if◌then◌else◌, subst,
}
use datazoo_oauth.Http.Tls.{
  TlsPolicy, default_policy, Host, ConnectionParams, create_httplib_client, Change,
  set_verification, set_ca_file, apply_all, set_server_cert_verification_enabled,
  set_trusted_ca_cert_file, candidate_bundles, first_that_exists, resolve_from, path_to_set,
  ca_cert_file_of,
}

-- The argument of the last call of either kind, or the default.
abbrev pub last_verification : Bool → List Change → Bool
last_verification b [] = b
last_verification b (set_verification enabled ∷ cs) = last_verification enabled cs
last_verification b (set_ca_file path ∷ cs) = last_verification b cs

abbrev pub last_ca_file : Bytes → List Change → Bytes
last_ca_file f [] = f
last_ca_file f (set_verification enabled ∷ cs) = last_ca_file f cs
last_ca_file f (set_ca_file path ∷ cs) = last_ca_file path cs

set_verification_lem :
    (enabled : Bool) (policy : TlsPolicy)
    → set_server_cert_verification_enabled enabled policy ≡ record policy { verify = enabled }
unfolding set_server_cert_verification_enabled
set_verification_lem enabled policy = by_flag policy.verify enabled refl
  where
    by_flag :
        (old new : Bool)
        → policy.verify ≡ old
        → set_server_cert_verification_enabled new policy ≡ record policy { verify = new }
    by_flag true true e = ground arith
    by_flag true false e = ground arith
    by_flag false true e = ground arith
    by_flag false false e = ground arith

apply_all_lem :
    (cs : List Change) (policy : TlsPolicy)
    → apply_all cs policy ≡ record {
      verify = last_verification policy.verify cs;
      ca_cert_file = last_ca_file policy.ca_cert_file cs;
    }
unfolding apply_all
apply_all_lem [] policy = refl
apply_all_lem (set_verification enabled ∷ cs) policy =
    apply_all_lem cs (set_server_cert_verification_enabled enabled policy)
    ∙ ap
        (λ (q : TlsPolicy). record {
          verify = last_verification q.verify cs;
          ca_cert_file = last_ca_file q.ca_cert_file cs;
        })
        (set_verification_lem enabled policy)
apply_all_lem (set_ca_file path ∷ cs) policy =
    apply_all_lem cs (set_trusted_ca_cert_file path policy)

-- The first file of the list that exists, or no file where none does.
abbrev pub IsFirstThatExists : (Bytes → Bool) → List Bytes → Bytes → Type 0
IsFirstThatExists exists files r =
    ((before : List Bytes) × (after : List Bytes) × (files ≡ before ++ (r ∷ after))
      × All (λ f. exists f ≡ false) before
      × (exists r ≡ true))
    ⊎ ((r ≡ []) × All (λ f. exists f ≡ false) files)

-- The bundle of the platform: the file that SSL_CERT_FILE names, or else a known place.
abbrev pub IsSystemBundle : Host → Bytes → Type 0
IsSystemBundle host r =
    ((host.ssl_cert_file ≡ some r) × (r ≢ []))
    ⊎ (((host.ssl_cert_file ≡ none) ⊎ (host.ssl_cert_file ≡ some []))
        × IsFirstThatExists host.exists candidate_bundles r)

IsFirstThatExists-first_that_exists :
    (exists : Bytes → Bool) (files : List Bytes)
    → IsFirstThatExists exists files (first_that_exists exists files)
unfolding first_that_exists
IsFirstThatExists-first_that_exists exists [] = inr (refl, tt)
IsFirstThatExists-first_that_exists exists (f ∷ files) = elim (Bool-cases (exists f)) [
  | inl here ↦ rw here (inl ([], files, refl, tt, here))
  | inr absent ↦ rw absent (elim (IsFirstThatExists-first_that_exists exists files) [
    | inl (before, after, e, missing, there) ↦
        inl (f ∷ before, after, ap (λ fs. f ∷ fs) e, (absent, missing), there)
    | inr (nothing, missing) ↦ inr (nothing, (refl, missing))
  ])
]

resolve_from-IsSystemBundle :
    (host : Host) (file : Option Bytes)
    → host.ssl_cert_file ≡ file
    → IsSystemBundle host (resolve_from host.exists file)
unfolding resolve_from
resolve_from-IsSystemBundle host none e =
    inr (inl e, IsFirstThatExists-first_that_exists host.exists candidate_bundles)
resolve_from-IsSystemBundle host (some []) e =
    inr (inr e, IsFirstThatExists-first_that_exists host.exists candidate_bundles)
resolve_from-IsSystemBundle host (some (c ∷ file)) e = inl (e, λ h. cc)

-- The bundle is given to httplib unless there is none.
abbrev pub Gives : Option Bytes → Bytes → Type 0
Gives none r = r ≡ []
Gives (some file) r = (file ≡ r) × (r ≢ [])

Gives-path_to_set : (r : Bytes) → Gives (path_to_set r) r
unfolding path_to_set
Gives-path_to_set [] = refl
Gives-path_to_set (c ∷ r) = (refl, λ h. cc)

-- What is given to httplib as the bundle: the file that was set, or else the platform's.
abbrev pub IsBundle : Bytes → Host → Bytes → Type 0
IsBundle trusted host r =
    ((trusted ≢ []) × (r ≡ trusted)) ⊎ ((trusted ≡ []) × IsSystemBundle host r)

IsBundle-ca_cert_file_of :
    (policy : TlsPolicy) (host : Host)
    → IsBundle policy.ca_cert_file host (ca_cert_file_of policy host)
unfolding create_httplib_client
IsBundle-ca_cert_file_of policy host = by_file policy.ca_cert_file
  where
    by_file :
        (file : Bytes)
        → IsBundle file host
            (if is_empty file then resolve_from host.exists host.ssl_cert_file else file)
    by_file [] = inr (refl, resolve_from-IsSystemBundle host host.ssl_cert_file refl)
    by_file (c ∷ file) = inl (λ h. cc, refl)

-- A client that is made after any calls that change the policy verifies the server's certificate
-- unless the last of the calls for it has switched that off; it is given the CA bundle that the last
-- call for it named, and if that is empty the one that SSL_CERT_FILE names, or else the first known
-- place that exists, or none. It never follows a redirect by itself.
pub create_httplib_client-apply_all :
    (cs : List Change) (host : Host) (params : ConnectionParams) (url : Bytes) (tls : Bool)
    → ((create_httplib_client (apply_all cs default_policy) host params url tls).verify
        ≡ last_verification true cs)
      × ((bundle : Bytes) × IsBundle (last_ca_file [] cs) host bundle
          × Gives
              (create_httplib_client (apply_all cs default_policy) host params url tls).ca_cert_path
              bundle)
      × ((create_httplib_client (apply_all cs default_policy) host params url tls).follow_location
          ≡ false)
unfolding create_httplib_client
create_httplib_client-apply_all cs host params url tls = (
  ap (λ (q : TlsPolicy). q.verify) (apply_all_lem cs default_policy),
  (
    ca_cert_file_of (apply_all cs default_policy) host,
    subst (λ f. IsBundle f host (ca_cert_file_of (apply_all cs default_policy) host))
        (ap (λ (q : TlsPolicy). q.ca_cert_file) (apply_all_lem cs default_policy))
        (IsBundle-ca_cert_file_of (apply_all cs default_policy) host),
    Gives-path_to_set (ca_cert_file_of (apply_all cs default_policy) host),
  ),
  refl,
)
