-- ===== src/Http/Redaction/Members/Alike.antt =====
-- JSON bodies that differ in sensitive values only are shown alike, whole and cut.
use datazoo_oauth.Base.{
  ℕ, zero, suc, ◌+◌, ◌≡◌, true, refl, ap, sym, ◌∙◌, inl, inr, [], ◌∷◌, ◌++◌, List, map, Bytes,
  length, length-append, take, take_within, take_beyond, place_cases, All, arith,
}
use datazoo_oauth.Http.Redaction.{stars, redact_body, sensitive_body_fields}
use datazoo_oauth.Http.Redaction.Json.{done}
use datazoo_oauth.Http.Redaction.Members.{
  Member, text, other, plain, members_text, json, IsMember, IsStart, is_any, hidden,
}
use datazoo_oauth.Http.Redaction.Members.Shown.{redact_body-json}
use datazoo_oauth.Http.Redaction.Members.Cuts.{
  before, in_it, behind_it, beyond, place, string_text, take-beyond, Concealed, CutAlike,
  CutAlike-eq, CutAlike-nil, CutAlike-other, CutAlike-plain, CutAlike-value,
}

-- Two bodies that differ in values only that are starred.
pub data AlikeMembers : List Member → List Member → Type 0 where
  nil : AlikeMembers [] []
  same : (m : Member) {ms ns : List Member} → AlikeMembers ms ns → AlikeMembers (m ∷ ms) (m ∷ ns)
  secret :
      (n g v w d : Bytes) {ms ns : List Member}
      → is_any sensitive_body_fields n ≡ true
      → length v ≡ length w
      → AlikeMembers ms ns
      → AlikeMembers (text n g v d ∷ ms) (text n g w d ∷ ns)

take_none : (k : ℕ) (s t : Bytes) → k ≡ 0 → CutAlike (take k s) (take k t)
take_none k s t e =
    CutAlike-eq (ap (λ (n : ℕ). take n s) e) (ap (λ (n : ℕ). take n t) e) CutAlike-nil

cut_text :
    (k : ℕ) (n g v w d t u : Bytes)
    → IsMember (text n g v d)
    → IsMember (text n g w d)
    → Concealed n v w
    → ((j : ℕ) → CutAlike (take j t) (take j u))
    → CutAlike
        (take k (string_text n g (string_text v d t)))
        (take k (string_text n g (string_text w d u)))
cut_text k n g v w d t u hv hw h go = elim (place k (length n) (length g)) [
  | before e ↦ take_none k _ _ e
  | in_it j e within ↦
      CutAlike-plain k j n g (string_text v d t) (string_text w d u) (inl (e, within)) hv.0
  | behind_it j e within ↦
      CutAlike-plain k j n g (string_text v d t) (string_text w d u) (inr (e, within)) hv.0
  | beyond j e ↦
      CutAlike-eq (take-beyond k (suc j) n g (string_text v d t) e)
        (take-beyond k (suc j) n g (string_text w d u) e)
        (CutAlike-value j n g v w d t u hv hw h go)
]

cut_other :
    (k : ℕ) (s c t u : Bytes)
    → IsMember (other s c)
    → ((j : ℕ) → CutAlike (take j t) (take j u))
    → CutAlike (take k (string_text s c t)) (take k (string_text s c u))
cut_other k s c t u h go = elim (place k (length s) (length c)) [
  | before e ↦ take_none k _ _ e
  | in_it j e within ↦ CutAlike-plain k j s c t u (inl (e, within)) h.0
  | behind_it j e within ↦ CutAlike-plain k j s c t u (inr (e, within)) h.0
  | beyond j e ↦
      CutAlike-eq (take-beyond k (suc j) s c t e) (take-beyond k (suc j) s c u e)
        (CutAlike-other s c (take (suc j) t) (take (suc j) u) h (go (suc j)))
]

cut_nothing : (k : ℕ) → CutAlike (take k []) (take k [])
cut_nothing zero = CutAlike-nil
cut_nothing (suc k) = CutAlike-nil

abbrev members : List Member → Bytes
members ms = members_text ms (plain done)

cut_members :
    {ms ns : List Member}
    → AlikeMembers ms ns
    → All IsMember ms
    → All IsMember ns
    → (k : ℕ) → CutAlike (take k (members ms)) (take k (members ns))
cut_members nil h h' k = cut_nothing k
cut_members (same (text n g v d) {ms} {ns} alike) (hm, h) (hm', h') k =
    cut_text k n g v v d (members ms) (members ns) hm hm' (record { size = refl; alike = inl refl })
      (cut_members alike h h')
cut_members (same (other s c) {ms} {ns} alike) (hm, h) (hm', h') k =
    cut_other k s c (members ms) (members ns) hm (cut_members alike h h')
cut_members (secret n g v w d {ms} {ns} starred size alike) (hm, h) (hm', h') k =
    cut_text k n g v w d (members ms) (members ns) hm hm'
      (record { size = size; alike = inr starred }) (cut_members alike h h')

length-string_text :
    (s c t : Bytes) → length (string_text s c t) ≡ 2 + length s + length c + length t
length-string_text s c t = omega (arith, length-append s (b'"' ∷ (c ++ t)), length-append c t)

length-members :
    {ms ns : List Member} → AlikeMembers ms ns → length (members ms) ≡ length (members ns)
length-members nil = refl
length-members (same (text n g v d) {ms} {ns} alike) = omega (
  arith,
  length-members alike,
  length-string_text n g (string_text v d (members ms)),
  length-string_text n g (string_text v d (members ns)),
  length-string_text v d (members ms),
  length-string_text v d (members ns),
)
length-members (same (other s c) {ms} {ns} alike) = omega (
  arith,
  length-members alike,
  length-string_text s c (members ms),
  length-string_text s c (members ns),
)
length-members (secret n g v w d {ms} {ns} starred size alike) = omega (
  arith,
  length-members alike,
  length-string_text n g (string_text v d (members ms)),
  length-string_text n g (string_text w d (members ns)),
  length-string_text v d (members ms),
  length-string_text w d (members ns),
)

map-hidden-alike :
    {ms ns : List Member}
    → AlikeMembers ms ns
    → map (hidden sensitive_body_fields) ms ≡ map (hidden sensitive_body_fields) ns
map-hidden-alike nil = refl
map-hidden-alike (same m alike) =
    ap (λ rest. hidden sensitive_body_fields m ∷ rest) (map-hidden-alike alike)
map-hidden-alike (secret n g v w d starred size alike) =
    rw starred (ap (λ rest. text n g stars d ∷ rest) (map-hidden-alike alike))

module _ (start : Bytes) (ms ns : List Member) (hs : IsStart start) (h : All IsMember ms)
    (h' : All IsMember ns) (alike : AlikeMembers ms ns) where
  pub redact_body-json-alike :
      redact_body (json start ms (plain done)) ≡ redact_body (json start ns (plain done))
  redact_body-json-alike =
      redact_body-json start ms (plain done) hs h (tt, tt)
      ∙ ap (λ rest. json start rest (plain done)) (map-hidden-alike alike)
      ∙ sym (redact_body-json start ns (plain done) hs h' (tt, tt))

  redact_body-CutAlike :
      (s t : Bytes) → CutAlike s t → redact_body (start ++ s) ≡ redact_body (start ++ t)
  redact_body-CutAlike s t (k, left, right) =
      ap (λ u. redact_body (start ++ u)) left
      ∙ redact_body-json start k.left k.left_ending hs k.left_IsMember k.left_IsEnding
      ∙ (λ i. json start (k.members_alike i) (k.endings_alike i))
      ∙ sym (redact_body-json start k.right k.right_ending hs k.right_IsMember k.right_IsEnding)
      ∙ ap (λ u. redact_body (start ++ u)) (sym right)

  -- However a JSON body is cut, what is shown of it depends on no byte of a sensitive value.
  pub redact_body-take-json :
      (k : ℕ)
      → redact_body (take k (json start ms (plain done)))
        ≡ redact_body (take k (json start ns (plain done)))
  redact_body-take-json k = elim (place_cases k (length start)) [
    | inl within ↦
        ap redact_body
          (take_within k start (members ms) within ∙ sym (take_within k start (members ns) within))
    | inr (d, e) ↦
        ap redact_body (take_beyond start (members ms) k (suc d) e)
        ∙ redact_body-CutAlike _ _ (cut_members alike h h' (suc d))
        ∙ ap redact_body (sym (take_beyond start (members ns) k (suc d) e))
  ]

  pub length-json-alike : length (json start ms (plain done)) ≡ length (json start ns (plain done))
  length-json-alike = omega (
    arith,
    length-append start (members ms),
    length-append start (members ns),
    length-members alike,
  )
