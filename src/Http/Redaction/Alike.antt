-- ===== src/Http/Redaction/Alike.antt =====
-- Form bodies that differ in sensitive values only.
use datazoo_oauth.Base.{
  ◌≡◌, refl, ap, subst, ◌⊎◌, inl, inr, true, List, [], ◌∷◌, ◌++◌, map, Bytes, length, length-append,
  any, arith,
}
use datazoo_oauth.Http.Redaction.{sensitive_body_fields}
use datazoo_oauth.Http.Redaction.Search.{ends_in}
use datazoo_oauth.Http.Redaction.Form.{form_tail, redacted}

abbrev pub IsSensitive : Bytes → Type 0
IsSensitive name = any (λ f. ends_in f name) sensitive_body_fields ≡ true

-- The same name, and values of one length, which differ only under a sensitive name.
abbrev pub AlikeParameter : Bytes × Bytes → Bytes × Bytes → Type 0
AlikeParameter (n, v) (m, w) = (n ≡ m) × (length v ≡ length w) × ((v ≡ w) ⊎ IsSensitive n)

abbrev pub AlikeParameters : List (Bytes × Bytes) → List (Bytes × Bytes) → Type 0
AlikeParameters [] [] = Unit
AlikeParameters [] (q ∷ qs) = ⊥
AlikeParameters (p ∷ ps) [] = ⊥
AlikeParameters (p ∷ ps) (q ∷ qs) = AlikeParameter p q × AlikeParameters ps qs

pub redacted-alike :
    (p q : Bytes × Bytes)
    → AlikeParameter p q
    → redacted sensitive_body_fields p ≡ redacted sensitive_body_fields q
redacted-alike (n, v) (m, w) (same, size, inl equal) =
    λ i. redacted sensitive_body_fields (same i, equal i)
redacted-alike (n, v) (m, w) (same, size, inr secret) =
    subst (λ m. redacted sensitive_body_fields (n, v) ≡ redacted sensitive_body_fields (m, w)) same
      (rw secret refl)

pub map-redacted-alike :
    (ps qs : List (Bytes × Bytes))
    → AlikeParameters ps qs
    → map (redacted sensitive_body_fields) ps ≡ map (redacted sensitive_body_fields) qs
map-redacted-alike [] [] h = refl
map-redacted-alike [] (q ∷ qs) h = elim h [ ]
map-redacted-alike (p ∷ ps) [] h = elim h [ ]
map-redacted-alike (p ∷ ps) (q ∷ qs) (hp, hps) =
    λ i. redacted-alike p q hp i ∷ map-redacted-alike ps qs hps i

pub length-form_tail-alike :
    (ps qs : List (Bytes × Bytes))
    → AlikeParameters ps qs
    → length (form_tail [] ps) ≡ length (form_tail [] qs)
length-form_tail-alike [] [] h = refl
length-form_tail-alike [] (q ∷ qs) h = elim h [ ]
length-form_tail-alike (p ∷ ps) [] h = elim h [ ]
length-form_tail-alike ((n, v) ∷ ps) ((m, w) ∷ qs) ((same, size, value), h) = omega (
  arith,
  ap length same,
  length-append n (b'=' ∷ (v ++ form_tail [] ps)),
  length-append v (form_tail [] ps),
  length-append m (b'=' ∷ (w ++ form_tail [] qs)),
  length-append w (form_tail [] qs),
  length-form_tail-alike ps qs h,
)
