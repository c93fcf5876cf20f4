-- ===== src/Http/Tls/Warnings.antt =====
-- What src/http_client.cpp traces about the TLS policy and the set-up of a client of httplib, as calls of
-- the trace macros (Line); Tracing.written says which of them reach standard error.
use datazoo_oauth.Base.{
  starts_with, eqb_iff, map, ◌≡◌, ◌⊎◌, refl, ◌∙◌, ap, Bool, true, false, ◌||◌, Bool-cases, inl, inr,
  Option, none, some, List, [], ◌∷◌, ◌++◌, Bytes, codes, is_empty, any, eqb, if◌then◌else◌, arith,
}
use datazoo_oauth.Tracing.{
  written, trace_text, is_on, written_on, written_off, Line, info_line, warn_line, debug_line,
}
use datazoo_oauth.Http.Tls.{
  TlsPolicy, default_policy, Host, ConnectionParams, create_httplib_client, Change,
  set_verification, set_ca_file, apply, apply_all, set_server_cert_verification_enabled,
  set_trusted_ca_cert_file, server_cert_verification_enabled, ca_cert_file_of, path_to_set,
  same_flag,
}

-- `SetServerCertVerificationEnabled` and `SetTrustedCaCertFile`, called under this policy.
change_lines : TlsPolicy → Change → List Line
unfolding same_flag
change_lines policy (set_verification enabled) =
    if same_flag policy.verify enabled
    then []
    else if enabled
    then info_line (codes "HTTP_TLS")
        (codes "TLS server certificate verification ENABLED (secure default restored)")
      ∷ []
    else warn_line (codes "HTTP_TLS") (
        codes
          "*** INSECURE *** TLS server certificate verification has been DISABLED for all HTTPS "
        ++ (codes
              "requests. Every OAuth2 token, credential and data payload sent from this session can be "
            ++ codes
                "read and modified by an on-path attacker. Prefer setting a trusted CA bundle instead."))
      ∷ []
change_lines policy (set_ca_file path) =
    info_line (codes "HTTP_TLS") (
      if is_empty path
      then codes "Trusted CA bundle cleared, falling back to the platform trust store"
      else codes "Trusted CA bundle set to: " ++ path)
    ∷ []

unfoldable pub changes_lines : TlsPolicy → List Change → List Line
unfolding change_lines apply same_flag
changes_lines policy [] = []
changes_lines policy (c ∷ cs) = change_lines policy c ++ changes_lines (apply c policy) cs

bundle_lines : Option Bytes → List Line
bundle_lines none = []
bundle_lines (some file) = debug_line (codes "HTTP_TLS") (codes "Using CA bundle: " ++ file) ∷ []

pub insecure_line : Bytes → Line
insecure_line scheme_host_and_port = warn_line (codes "HTTP_TLS") (
    codes "*** INSECURE *** Sending request to "
    ++ (scheme_host_and_port
        ++ (codes " with TLS server certificate verification DISABLED - this connection is not "
            ++ codes "authenticated and can be intercepted.")))

-- `CreateHttplibClient`
unfoldable pub setup_lines : TlsPolicy → Host → Bytes → List Line
unfolding bundle_lines insecure_line
setup_lines policy host scheme_host_and_port =
    bundle_lines (path_to_set (ca_cert_file_of policy host))
    ++ (if server_cert_verification_enabled policy
        then []
        else insecure_line scheme_host_and_port ∷ [])

-- A line is a warning.
abbrev pub warns : List Line → Bool
warns = any (λ l. eqb l.level (codes "WARN"))

warns-append : (ls ms : List Line) → warns (ls ++ ms) ≡ (warns ls || warns ms)
warns-append [] ms = refl
warns-append (l ∷ ls) ms = ground (arith, warns-append ls ms)

-- A call that leaves verification off has warned, or verification was off before.
change_lines_warn :
    (c : Change) (policy : TlsPolicy)
    → (apply c policy).verify ≡ false
    → (policy.verify ≡ false) ⊎ (warns (change_lines policy c) ≡ true)
unfolding apply change_lines set_server_cert_verification_enabled set_trusted_ca_cert_file eqb
change_lines_warn (set_ca_file path) policy off = inl off
change_lines_warn (set_verification enabled) policy off = elim (Bool-cases policy.verify) [
  | inr was_off ↦ inl was_off
  | inl was_on ↦ inr (by_flag enabled was_on off)
]
  where
    by_flag :
        (b : Bool)
        → policy.verify ≡ true
        → (set_server_cert_verification_enabled b policy).verify ≡ false
        → warns (change_lines policy (set_verification b)) ≡ true
    by_flag true was_on off = absurd (ground arith)
    by_flag false was_on off = rw was_on refl

or_true : (b : Bool) → (b || true) ≡ true
or_true true = refl
or_true false = refl

changes_lines_warn :
    (cs : List Change) (policy : TlsPolicy)
    → (apply_all cs policy).verify ≡ false
    → (policy.verify ≡ false) ⊎ (warns (changes_lines policy cs) ≡ true)
unfolding apply_all changes_lines
changes_lines_warn [] policy off = inl off
changes_lines_warn (c ∷ cs) policy off = elim (changes_lines_warn cs (apply c policy) off) [
  | inr later ↦ inr (
      warns-append (change_lines policy c) _
      ∙ ap (λ b. warns (change_lines policy c) || b) later
      ∙ or_true (warns (change_lines policy c)))
  | inl off_then ↦ elim (change_lines_warn c policy off_then) [
    | inl was_off ↦ inl was_off
    | inr warned ↦ inr (
        warns-append (change_lines policy c) _
        ∙ ap (λ b. b || warns (changes_lines (apply c policy) cs)) warned)
  ]
]

-- A text that was written as a warning.
abbrev pub is_warning : Bytes → Bool
is_warning = starts_with (codes "[WARN] ")

is_warning-trace_text :
    (level component message : Bytes)
    → level ≡ codes "WARN"
    → is_warning (trace_text (record { level = level; component = component; message = message }))
      ≡ true
unfolding starts_with
is_warning-trace_text level component message e = rw e refl

any-map_text : (ls : List Line) → warns ls ≡ true → any is_warning (map trace_text ls) ≡ true
any-map_text [] h = absurd (cc)
any-map_text (l ∷ ls) h = elim (Bool-cases (eqb l.level (codes "WARN"))) [
  | inl warning ↦
      ap (λ b. b || any is_warning (map trace_text ls))
        (is_warning-trace_text l.level l.component l.message
          ((eqb_iff l.level (codes "WARN")).0 warning))
  | inr other ↦
      ap (λ b. is_warning (trace_text l) || b) (any-map_text ls (ground arith))
      ∙ or_true (is_warning (trace_text l))
]

map_text-append :
    (ls : List Line) (l : Line)
    → map trace_text (ls ++ (l ∷ [])) ≡ map trace_text ls ++ (trace_text l ∷ [])
map_text-append [] l = refl
map_text-append (x ∷ ls) l = ap (λ texts. trace_text x ∷ texts) (map_text-append ls l)

bundle_lines_unwarned :
    (file : Option Bytes) → any is_warning (map trace_text (bundle_lines file ++ [])) ≡ false
unfolding bundle_lines starts_with
bundle_lines_unwarned none = refl
bundle_lines_unwarned (some file) = refl

-- The calls of the trace macros, whether they write or not.
calls_warn :
    (cs : List Change) (host : Host) (params : ConnectionParams) (server : Bytes) (tls : Bool)
    → (((create_httplib_client (apply_all cs default_policy) host params server tls).verify ≡ false)
        × (warns (changes_lines default_policy cs) ≡ true)
        × ((before : List Line) × (setup_lines (apply_all cs default_policy) host server
              ≡ before ++ (insecure_line server ∷ []))))
      ⊎ (((create_httplib_client (apply_all cs default_policy) host params server tls).verify
            ≡ true)
          × (any is_warning (map trace_text (setup_lines (apply_all cs default_policy) host server))
              ≡ false))
unfolding setup_lines create_httplib_client server_cert_verification_enabled
calls_warn cs host params server tls =
    let policy = apply_all cs default_policy in
    elim (Bool-cases policy.verify) [
      | inl on ↦ inr (on, rw on (bundle_lines_unwarned (path_to_set (ca_cert_file_of policy host))))
      | inr off ↦ inl (
        off,
        elim (changes_lines_warn cs default_policy off) [ inl h ↦ absurd (cc) | inr h ↦ h ],
        (bundle_lines (path_to_set (ca_cert_file_of policy host)), rw off refl),
      )
    ]

-- A client that does not verify certificates, and what was written of it.
abbrev pub Warned : Bool → List Bytes → List Bytes → Bytes → Type 0
Warned on changes setup server =
    ((on ≡ false) × (changes ≡ []) × (setup ≡ []))
    ⊎ ((on ≡ true)
        × (any is_warning changes ≡ true)
        × ((before : List Bytes) × (setup ≡ before ++ (trace_text (insecure_line server) ∷ []))))

-- With tracing on, no client goes without verification in silence. After any calls of the policy, a
-- client that does not verify certificates has been warned of twice on standard error, by one of the
-- calls and by the last line of its set-up, which names the server it is for. With tracing off, as it
-- is by default, nothing is written of such a client. The set-up of a client that verifies writes no
-- warning.
pub setup_lines_warn :
    (to_stderr : Bool) (variable : Option Bytes) (cs : List Change) (host : Host)
    (params : ConnectionParams) (server : Bytes) (tls : Bool)
    → (((create_httplib_client (apply_all cs default_policy) host params server tls).verify ≡ false)
        × Warned
            (is_on to_stderr variable)
            (written to_stderr variable (changes_lines default_policy cs))
            (written to_stderr variable (setup_lines (apply_all cs default_policy) host server))
            server)
      ⊎ (((create_httplib_client (apply_all cs default_policy) host params server tls).verify
            ≡ true)
          × (any is_warning
                (written to_stderr variable (setup_lines (apply_all cs default_policy) host server))
              ≡ false))
setup_lines_warn to_stderr variable cs host params server tls =
    let policy = apply_all cs default_policy in
    elim (Bool-cases (is_on to_stderr variable)) [
      | inl on ↦ elim (calls_warn cs host params server tls) [
        | inl (off, changed, (before, last)) ↦ inl (
          off,
          inr (
            on,
            ap (any is_warning) (written_on to_stderr variable (changes_lines default_policy cs) on)
                ∙ any-map_text (changes_lines default_policy cs) changed,
            (
              map trace_text before,
              written_on to_stderr variable (setup_lines policy host server) on
                  ∙ ap (map trace_text) last
                  ∙ map_text-append before (insecure_line server),
            ),
          ),
        )
        | inr (verifies, quiet) ↦ inr (
          verifies,
          ap (any is_warning) (written_on to_stderr variable (setup_lines policy host server) on)
              ∙ quiet,
        )
      ]
      | inr silent ↦ elim (calls_warn cs host params server tls) [
        | inl (off, changed, last) ↦ inl (
          off,
          inl (
            silent,
            written_off to_stderr variable (changes_lines default_policy cs) silent,
            written_off to_stderr variable (setup_lines policy host server) silent,
          ),
        )
        | inr (verifies, quiet) ↦ inr (
          verifies,
          ap (any is_warning)
              (written_off to_stderr variable (setup_lines policy host server) silent),
        )
      ]
    ]
