-- ===== src/Http/Redaction/Form.antt =====
-- What RedactBody shows of a form body, such as that of the token request.
use datazoo_oauth.Base.{
  ℕ, zero, suc, ◌≤◌, ◌<◌, ◌≡◌, ◌≢◌, refl, ◌∙◌, ap, sym, subst, Bool-cases, inl, inr, none, List, [],
  ◌∷◌, ◌++◌, map, Bytes, length, length-append, starts_with, All, All-append, arith,
}
use datazoo_oauth.Http.Redaction.{
  split_first, redact_json, redact_field, redact_fields, redact_body, sensitive_body_fields,
}
use datazoo_oauth.Http.Redaction.Search.{IsPlain, IsField, ends_in, shown}
pub use datazoo_oauth.Http.Redaction.Passes.{
  form_tail, open_form, form, IsOpen, IsParameter, redacted,
}
use datazoo_oauth.Http.Redaction.Passes.{
  show, form-Passes, form_tail-Passes, redact_form-IsPlain, IsField-All,
}

-- A text without quotes passes the search for JSON members as it is.
abbrev HasNoQuote : Bytes → Type 0
HasNoQuote = All (λ c. c ≢ b'"')

split_first-HasNoQuote : (q s : Bytes) → HasNoQuote s → split_first (b'"' ∷ q) s ≡ none
unfolding split_first starts_with
split_first-HasNoQuote q [] h = refl
split_first-HasNoQuote q (c ∷ s) (n, h) = ground (arith, split_first-HasNoQuote q s h)

redact_json-HasNoQuote :
    (q : Bytes) (fuel : ℕ) (s : Bytes) → HasNoQuote s → redact_json (b'"' ∷ q) fuel s ≡ s
unfolding redact_json
redact_json-HasNoQuote q zero s h = refl
redact_json-HasNoQuote q (suc fuel) s h = rw (split_first-HasNoQuote q s h, redact_json) refl

IsPlain-HasNoQuote : (s : Bytes) → All IsPlain s → HasNoQuote s
IsPlain-HasNoQuote [] h = tt
IsPlain-HasNoQuote (c ∷ s) ((a, b, q), h) = (q, IsPlain-HasNoQuote s h)

form-HasNoQuote :
    (n v t : Bytes) → IsParameter (n, v) → HasNoQuote t → HasNoQuote (n ++ (b'=' ∷ (v ++ t)))
form-HasNoQuote n v t (hn, hv) ht =
    All-append (λ c. c ≢ b'"') n (b'=' ∷ (v ++ t)) (IsPlain-HasNoQuote n hn)
      (omega arith, All-append (λ c. c ≢ b'"') v t (IsPlain-HasNoQuote v hv) ht)

IsOpen-HasNoQuote : (o : Bytes) → IsOpen o → HasNoQuote o
IsOpen-HasNoQuote [] h = tt
IsOpen-HasNoQuote (c ∷ o) (amp, h) = (omega arith, IsPlain-HasNoQuote o h)

form_tail-HasNoQuote :
    (o : Bytes) (ps : List (Bytes × Bytes))
    → IsOpen o
    → All IsParameter ps
    → HasNoQuote (form_tail o ps)
form_tail-HasNoQuote o [] ho h = IsOpen-HasNoQuote o ho
form_tail-HasNoQuote o ((n, v) ∷ ps) ho (hp, hps) =
    (omega arith, form-HasNoQuote n v (form_tail o ps) hp (form_tail-HasNoQuote o ps ho hps))

show-IsParameter : (f : Bytes) (p : Bytes × Bytes) → IsParameter p → IsParameter (show f p)
show-IsParameter f (n, v) (hn, hv) = elim (Bool-cases (ends_in f n)) [
  | inl t ↦ rw t (hn, omega arith)
  | inr other ↦ rw other (hn, hv)
]

map-show-IsParameter :
    (f : Bytes) (ps : List (Bytes × Bytes)) → All IsParameter ps → All IsParameter (map (show f) ps)
map-show-IsParameter f [] h = tt
map-show-IsParameter f (p ∷ ps) (hp, hps) = (show-IsParameter f p hp, map-show-IsParameter f ps hps)

length-form_tail : (o : Bytes) (ps : List (Bytes × Bytes)) → length ps ≤ length (form_tail o ps)
length-form_tail o [] = omega arith
length-form_tail o ((n, v) ∷ ps) = omega (
  arith,
  length-form_tail o ps,
  length-append n (b'=' ∷ (v ++ form_tail o ps)),
  length-append v (form_tail o ps),
)

length-form :
    (o n v : Bytes) (ps : List (Bytes × Bytes)) → length ps < length (open_form o (n, v) ps)
length-form o n v ps = omega (
  arith,
  length-form_tail o ps,
  length-append n (b'=' ∷ (v ++ form_tail o ps)),
  length-append v (form_tail o ps),
)

redact_field-form :
    (f o : Bytes) (p : Bytes × Bytes) (ps : List (Bytes × Bytes))
    → IsField f
    → IsOpen o
    → IsParameter p
    → All IsParameter ps
    → redact_field f (open_form o p ps) ≡ open_form o (show f p) (map (show f) ps)
unfolding redact_field
redact_field-form f o (n, v) ps hf ho hp hps =
    let pass =
      form-Passes f o hf ho (length (open_form o (n, v) ps)) n v ps hp
        (form_tail-Passes f o hf ho ps hps) (length-form o n v ps) in
    redact_json-HasNoQuote (f ++ (b'"' ∷ [])) _ _ (
      subst HasNoQuote (sym pass) (
        form-HasNoQuote n (shown f n v) (form_tail o (map (show f) ps))
          (show-IsParameter f (n, v) hp)
          (form_tail-HasNoQuote o (map (show f) ps) ho (map-show-IsParameter f ps hps))))
    ∙ pass

redacted-show :
    (f : Bytes) (fs : List Bytes) (p : Bytes × Bytes) → redacted fs (show f p) ≡ redacted (f ∷ fs) p
redacted-show f fs (n, v) = ground arith

map-redacted-show :
    (f : Bytes) (fs : List Bytes) (ps : List (Bytes × Bytes))
    → map (redacted fs) (map (show f) ps) ≡ map (redacted (f ∷ fs)) ps
map-redacted-show f fs [] = refl
map-redacted-show f fs (p ∷ ps) = λ i. redacted-show f fs p i ∷ map-redacted-show f fs ps i

map-redacted-nil : (ps : List (Bytes × Bytes)) → map (redacted []) ps ≡ ps
map-redacted-nil [] = refl
map-redacted-nil ((n, v) ∷ ps) = ap (λ qs. (n, v) ∷ qs) (map-redacted-nil ps)

redact_fields-form :
    (fs : List Bytes) (o : Bytes) (p : Bytes × Bytes) (ps : List (Bytes × Bytes))
    → All IsField fs
    → IsOpen o
    → IsParameter p
    → All IsParameter ps
    → redact_fields fs (open_form o p ps) ≡ open_form o (redacted fs p) (map (redacted fs) ps)
unfolding redact_fields
redact_fields-form [] o (n, v) ps hfs ho hp hps =
    ap (λ qs. open_form o (n, v) qs) (sym (map-redacted-nil ps))
redact_fields-form (f ∷ fs) o p ps (hf, hfs) ho hp hps =
    ap (redact_fields fs) (redact_field-form f o p ps hf ho hp hps)
    ∙ redact_fields-form fs o (show f p) (map (show f) ps) hfs ho (show-IsParameter f p hp)
        (map-show-IsParameter f ps hps)
    ∙ (λ i. open_form o (redacted-show f fs p i) (map-redacted-show f fs ps i))

redact_field-IsPlain : (f s : Bytes) → IsField f → All IsPlain s → redact_field f s ≡ s
unfolding redact_field
redact_field-IsPlain f s hf h =
    let pass = redact_form-IsPlain f s (suc (length s)) (IsField-All f hf) h in
    redact_json-HasNoQuote (f ++ (b'"' ∷ [])) _ _
      (subst HasNoQuote (sym pass) (IsPlain-HasNoQuote s h))
    ∙ pass

redact_fields-IsPlain :
    (fs : List Bytes) (s : Bytes) → All IsField fs → All IsPlain s → redact_fields fs s ≡ s
unfolding redact_fields
redact_fields-IsPlain [] s hfs h = refl
redact_fields-IsPlain (f ∷ fs) s (hf, hfs) h =
    ap (redact_fields fs) (redact_field-IsPlain f s hf h) ∙ redact_fields-IsPlain fs s hfs h

-- The beginning of a name is shown as it is.
pub redact_body-IsPlain : (s : Bytes) → All IsPlain s → redact_body s ≡ s
unfolding redact_body
redact_body-IsPlain s h = redact_fields-IsPlain sensitive_body_fields s (omega arith) h

-- A form body that a cut has ended in the beginning of a name.
pub redact_body-open_form :
    (o : Bytes) (p : Bytes × Bytes) (ps : List (Bytes × Bytes))
    → IsOpen o
    → IsParameter p
    → All IsParameter ps
    → redact_body (open_form o p ps)
      ≡ open_form o (redacted sensitive_body_fields p) (map (redacted sensitive_body_fields) ps)
unfolding redact_body
redact_body-open_form o p ps ho hp hps =
    redact_fields-form sensitive_body_fields o p ps (omega arith) ho hp hps

-- A form body is shown with the value of every parameter replaced by stars whose name ends in a
-- sensitive field, and with every name and every other value as it is, if no name and no value holds
-- `&`, `=` or a quote, as encoded ones do not.
pub redact_body-form :
    (p : Bytes × Bytes) (ps : List (Bytes × Bytes))
    → IsParameter p
    → All IsParameter ps
    → redact_body (form p ps)
      ≡ form (redacted sensitive_body_fields p) (map (redacted sensitive_body_fields) ps)
redact_body-form p ps hp hps = redact_body-open_form [] p ps tt hp hps
