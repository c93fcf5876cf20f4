-- ===== src/Http/Redaction/Members/Shown.antt =====
-- What RedactBody shows of a JSON body, all sensitive fields taken together.
use datazoo_oauth.Base.{
  ◌≡◌, refl, ◌∙◌, ap, sym, Bool, false, ◌||◌, List, [], ◌∷◌, map, Bytes, eqb, All, arith,
}
use datazoo_oauth.Http.Redaction.{redact_fields, redact_body, sensitive_body_fields}
use datazoo_oauth.Http.Redaction.Json.{End, done, in_string, behind, starred_end, IsName}
use datazoo_oauth.Http.Redaction.Members.{
  Member, text, other, Ending, plain, valued, json, IsMember, IsEnding, IsStart, is_any, hidden,
  hidden_ending,
}
use datazoo_oauth.Http.Redaction.Members.Field.{
  map-hidden-IsMember, hidden_ending-IsEnding, starred_end-not, redact_field-json,
}

hidden-hidden :
    (f : Bytes) (fs : List Bytes) (m : Member) → hidden fs (hidden (f ∷ []) m) ≡ hidden (f ∷ fs) m
hidden-hidden f fs (text n g v d) = ground arith
hidden-hidden f fs (other s c) = refl

map-hidden :
    (f : Bytes) (fs : List Bytes) (ms : List Member)
    → map (hidden fs) (map (hidden (f ∷ [])) ms) ≡ map (hidden (f ∷ fs)) ms
map-hidden f fs [] = refl
map-hidden f fs (m ∷ ms) = λ i. hidden-hidden f fs m i ∷ map-hidden f fs ms i

map-hidden-nil : (ms : List Member) → map (hidden []) ms ≡ ms
map-hidden-nil [] = refl
map-hidden-nil (text n g v d ∷ ms) = ap (λ rest. text n g v d ∷ rest) (map-hidden-nil ms)
map-hidden-nil (other s c ∷ ms) = ap (λ rest. other s c ∷ rest) (map-hidden-nil ms)

starred_end-starred_end :
    (a b : Bool) (e : End) → starred_end b (starred_end a e) ≡ starred_end (a || b) e
starred_end-starred_end a b done = refl
starred_end-starred_end a b (in_string t) = ground arith
starred_end-starred_end a b (behind s c) = ground arith

hidden_ending-hidden_ending :
    (f : Bytes) (fs : List Bytes) (x : Ending)
    → hidden_ending fs (hidden_ending (f ∷ []) x) ≡ hidden_ending (f ∷ fs) x
hidden_ending-hidden_ending f fs (plain e) = refl
hidden_ending-hidden_ending f fs (valued n g e) =
    let only : (eqb f n || false) ≡ eqb f n = ground arith in
    ap (valued n g) (
      ap (λ b. starred_end (is_any fs n) (starred_end b e)) only
      ∙ starred_end-starred_end (eqb f n) (is_any fs n) e)

hidden_ending-nil : (x : Ending) → hidden_ending [] x ≡ x
hidden_ending-nil (plain e) = refl
hidden_ending-nil (valued n g e) = ap (valued n g) (starred_end-not e)

redact_fields-json :
    (fs : List Bytes) (start : Bytes) (ms : List Member) (x : Ending)
    → All IsName fs
    → IsStart start
    → All IsMember ms
    → IsEnding x
    → redact_fields fs (json start ms x) ≡ json start (map (hidden fs) ms) (hidden_ending fs x)
unfolding redact_fields
redact_fields-json [] start ms x hfs hs h hx =
    sym (λ i. json start (map-hidden-nil ms i) (hidden_ending-nil x i))
redact_fields-json (f ∷ fs) start ms x (hf, hfs) hs h hx =
    ap (redact_fields fs) (redact_field-json f start ms x hf hs h hx)
    ∙ redact_fields-json fs start (map (hidden (f ∷ [])) ms) (hidden_ending (f ∷ []) x) hfs hs
        (map-hidden-IsMember f ms h) (hidden_ending-IsEnding f x hx)
    ∙ (λ i. json start (map-hidden f fs ms i) (hidden_ending-hidden_ending f fs x i))

sensitive_body_fields-IsName : All IsName sensitive_body_fields
sensitive_body_fields-IsName = (
  (refl, omega arith),
  (
    (refl, omega arith),
    (
      (refl, omega arith),
      (
        (refl, omega arith),
        (
          (refl, omega arith),
          ((refl, omega arith), ((refl, omega arith), ((refl, omega arith), tt))),
        ),
      ),
    ),
  ),
)

-- A JSON body is shown with the value of every member replaced by stars whose name is a sensitive
-- field, and with all else as it is, wherever the body ends, also in the middle of a value, which is
-- starred then as well. No string holds a quote, nothing is an equals sign, only spaces and colons stand
-- between a name and its value, and more than those behind a value and any other string.
pub redact_body-json :
    (start : Bytes) (ms : List Member) (x : Ending)
    → IsStart start
    → All IsMember ms
    → IsEnding x
    → redact_body (json start ms x)
      ≡ json start (map (hidden sensitive_body_fields) ms) (hidden_ending sensitive_body_fields x)
unfolding redact_body
redact_body-json start ms x hs h hx =
    redact_fields-json sensitive_body_fields start ms x sensitive_body_fields-IsName hs h hx
