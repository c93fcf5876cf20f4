-- ===== src/Http/Redaction.antt =====
-- RedactBody in src/http_client.cpp: what the traces show of a body. The two loops over a position in
-- the text are recursions on what follows that position, on fuel: each round passes at least one byte.
pub mod Search
pub mod Passes
pub mod Form
pub mod Alike
pub mod Cut
pub mod Json
pub mod Members
use datazoo_oauth.Base.{
  ℕ, zero, suc, Bool, true, false, ◌||◌, Option, none, some, List, [], ◌∷◌, ◌++◌, Bytes, codes,
  length, drop, take_until, starts_with, ◌==◌, if◌then◌else◌, not,
}

abbrev pub sensitive_body_fields : List Bytes
sensitive_body_fields =
    codes "client_secret"
    ∷ codes "password"
    ∷ codes "access_token"
    ∷ codes "refresh_token"
    ∷ codes "id_token"
    ∷ codes "client_assertion"
    ∷ codes "code"
    ∷ codes "code_verifier"
    ∷ []

abbrev pub stars : Bytes
stars = codes "***"

abbrev pub push : ℕ → Option (Bytes × Bytes) → Option (Bytes × Bytes)
push c none = none
push c (some (before, after)) = some (c ∷ before, after)

-- `find`: what stands before the first place of the pattern, and what follows it.
unfoldable pub split_first : Bytes → Bytes → Option (Bytes × Bytes)
split_first p [] = if starts_with p [] then some ([], []) else none
split_first p (c ∷ s) =
    let rest = push c (split_first p s) in
    if starts_with p (c ∷ s) then some ([], drop (length p) (c ∷ s)) else rest

-- From the first byte that the test picks on.
unfoldable pub drop_until : (ℕ → Bool) → Bytes → Bytes
drop_until stop [] = []
drop_until stop (c ∷ s) = if stop c then c ∷ s else drop_until stop s

-- The pass over `field=VALUE`, up to the next `&`.
unfoldable pub redact_form : Bytes → ℕ → Bytes → Bytes
redact_form prefix zero s = s
redact_form prefix (suc fuel) s = elim (split_first prefix s) [
  | none ↦ s
  | some (before, after) ↦
      before ++ (prefix ++ (stars ++ redact_form prefix fuel (drop_until (λ c. c == b'&') after)))
]

unfoldable pub is_gap : ℕ → Bool
is_gap c = (c == b' ') || (c == b':')

-- What follows the name of a JSON member and the gap; `go` is the rest of the pass.
unfoldable pub json_value : (Bytes → Bytes) → Bytes → Bytes
json_value go [] = []
json_value go (c ∷ s) =
    if c == b'"' then b'"' ∷ (stars ++ go (drop_until (λ d. d == b'"') s)) else go (c ∷ s)

-- The pass over `"field" : "VALUE"`, up to the next quote or to the end.
unfoldable pub redact_json : Bytes → ℕ → Bytes → Bytes
unfolding is_gap json_value
redact_json prefix zero s = s
redact_json prefix (suc fuel) s = elim (split_first prefix s) [
  | none ↦ s
  | some (before, after) ↦
      before
      ++ (prefix
          ++ (take_until (λ c. not (is_gap c)) after
              ++ json_value (redact_json prefix fuel) (drop_until (λ c. not (is_gap c)) after)))
]

unfoldable pub redact_field : Bytes → Bytes → Bytes
redact_field field body =
    let formed = redact_form (field ++ codes "=") (suc (length body)) body in
    redact_json (b'"' ∷ (field ++ (b'"' ∷ []))) (suc (length formed)) formed

unfoldable pub redact_fields : List Bytes → Bytes → Bytes
redact_fields [] body = body
redact_fields (f ∷ fs) body = redact_fields fs (redact_field f body)

unfoldable pub redact_body : Bytes → Bytes
redact_body body = redact_fields sensitive_body_fields body
