-- ===== src/Http/Headers/Credentials.antt =====
-- What erasing and redacting leave.
use datazoo_oauth.Base.{
  ◌≡◌, refl, subst, ap, ◌⊎◌, inl, inr, true, false, [], ◌∷◌, map, Bytes, arith,
}
use datazoo_oauth.Http.Headers.{
  HeaderMap, is_credential_header_name, erase_credentials, has_credentials, redact_header_value,
  redact_authorization, scheme_prefix,
}

pub has_credentials-erase_credentials :
    (hs : HeaderMap) → has_credentials (erase_credentials hs) ≡ false
unfolding has_credentials erase_credentials
has_credentials-erase_credentials [] = refl
has_credentials-erase_credentials ((k, v) ∷ hs) =
    ground (arith, has_credentials-erase_credentials hs)

authorization_hides :
    (v w : Bytes)
    → scheme_prefix v ≡ scheme_prefix w
    → redact_authorization v ≡ redact_authorization w
unfolding redact_authorization
authorization_hides v w e = ground arith

-- A redacted value depends on the secret only up to its first space: two values of a sensitive
-- header with the same text up to there are written to a trace alike.
pub redact_header_value_hides :
    (name v w : Bytes)
    → is_credential_header_name name ≡ true
    → scheme_prefix v ≡ scheme_prefix w
    → redact_header_value name v ≡ redact_header_value name w
unfolding redact_header_value
redact_header_value_hides name v w c e = ground (arith, authorization_hides v w e)

-- Two lists of headers that differ in nothing but the secret part of their credentials.
abbrev pub AlikeHeaders : HeaderMap → HeaderMap → Type 0
AlikeHeaders [] [] = Unit
AlikeHeaders [] (k ∷ ks) = ⊥
AlikeHeaders (h ∷ hs) [] = ⊥
AlikeHeaders ((n, v) ∷ hs) ((m, w) ∷ ks) =
    (n ≡ m)
    × ((v ≡ w) ⊎ ((is_credential_header_name n ≡ true) × (scheme_prefix v ≡ scheme_prefix w)))
    × AlikeHeaders hs ks

pub AlikeHeaders-refl : (hs : HeaderMap) → AlikeHeaders hs hs
AlikeHeaders-refl [] = tt
AlikeHeaders-refl ((n, v) ∷ hs) = (refl, inl refl, AlikeHeaders-refl hs)

pub redact_header_value-alike :
    (n v w : Bytes)
    → (v ≡ w) ⊎ ((is_credential_header_name n ≡ true) × (scheme_prefix v ≡ scheme_prefix w))
    → redact_header_value n v ≡ redact_header_value n w
redact_header_value-alike n v w (inl same) = ap (redact_header_value n) same
redact_header_value-alike n v w (inr (secret, scheme)) =
    redact_header_value_hides n v w secret scheme

-- What is made of each header's name and redacted value is the same for lists that are alike.
pub map-alike :
    {A : Type 0} (f : Bytes → Bytes → A) (hs ks : HeaderMap)
    → AlikeHeaders hs ks
    → map (λ h. f h.0 (redact_header_value h.0 h.1)) hs
      ≡ map (λ h. f h.0 (redact_header_value h.0 h.1)) ks
map-alike f [] [] h = refl
map-alike f [] (k ∷ ks) h = elim h [ ]
map-alike f (k ∷ hs) [] h = elim h [ ]
map-alike f ((n, v) ∷ hs) ((m, w) ∷ ks) (same, value, h) =
    subst
      (λ m.
        map (λ h. f h.0 (redact_header_value h.0 h.1)) ((n, v) ∷ hs)
        ≡ map (λ h. f h.0 (redact_header_value h.0 h.1)) ((m, w) ∷ ks))
      same (λ i. f n (redact_header_value-alike n v w value i) ∷ map-alike f hs ks h i)
