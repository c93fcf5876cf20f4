-- ===== src/Http/Redaction/Cut.antt =====
-- Form bodies that differ in sensitive values only, cut anywhere.
use datazoo_oauth.Base.{
  ℕ, zero, suc, ◌≡◌, refl, ◌∙◌, ap, sym, subst, ◌⊎◌, inl, inr, List, [], ◌∷◌, ◌++◌, append-nil,
  Bytes, length, take, take_within, take_beyond, All, All-take, place_cases, arith,
}
use datazoo_oauth.Http.Redaction.{redact_body}
use datazoo_oauth.Http.Redaction.Search.{IsPlain}
use datazoo_oauth.Http.Redaction.Form.{
  form_tail, open_form, form, IsOpen, IsParameter, redact_body-open_form,
}
use datazoo_oauth.Http.Redaction.Alike.{
  IsSensitive, AlikeParameter, AlikeParameters, redacted-alike, map-redacted-alike,
  length-form_tail-alike,
}

-- Two texts cut at one place: the same beginning of a name, or two open forms that are alike.
record AlikeForms (s t : Bytes) : Type 0 where
  pub rest : Bytes
  pub first : Bytes × Bytes
  pub others : List (Bytes × Bytes)
  pub first' : Bytes × Bytes
  pub others' : List (Bytes × Bytes)
  pub is_open : IsOpen rest
  pub plain : All IsParameter (first ∷ others)
  pub plain' : All IsParameter (first' ∷ others')
  pub alike : AlikeParameters (first ∷ others) (first' ∷ others')
  pub is_form : s ≡ open_form rest first others
  pub is_form' : t ≡ open_form rest first' others'

record AlikeTails (s t : Bytes) : Type 0 where
  pub rest : Bytes
  pub others : List (Bytes × Bytes)
  pub others' : List (Bytes × Bytes)
  pub is_open : IsOpen rest
  pub plain : All IsParameter others
  pub plain' : All IsParameter others'
  pub alike : AlikeParameters others others'
  pub is_tail : s ≡ form_tail rest others
  pub is_tail' : t ≡ form_tail rest others'

abbrev AlikeCuts : Bytes → Bytes → Type 0
AlikeCuts s t = (All IsPlain s × (s ≡ t)) ⊎ AlikeForms s t

AlikeParameter-take :
    (k : ℕ) (n v w : Bytes)
    → (v ≡ w) ⊎ IsSensitive n
    → length v ≡ length w
    → AlikeParameter (n, take k v) (n, take k w)
AlikeParameter-take k n v w value size = (refl, length-take k v w size, by_value value)
  where
    length-take :
        (k : ℕ) (v w : Bytes) → length v ≡ length w → length (take k v) ≡ length (take k w)
    length-take zero v w h = refl
    length-take (suc k) [] [] h = refl
    length-take (suc k) [] (d ∷ w) h = absurd (omega arith)
    length-take (suc k) (c ∷ v) [] h = absurd (omega arith)
    length-take (suc k) (c ∷ v) (d ∷ w) h = omega (arith, length-take k v w (omega arith))

    by_value : (v ≡ w) ⊎ IsSensitive n → (take k v ≡ take k w) ⊎ IsSensitive n
    by_value (inl equal) = inl (ap (take k) equal)
    by_value (inr secret) = inr secret

-- The cut lies in the value of the first parameter or behind it.
cut_value :
    (k : ℕ) (n v w s t : Bytes)
    → All IsPlain n
    → All IsPlain v
    → All IsPlain w
    → (v ≡ w) ⊎ IsSensitive n
    → length v ≡ length w
    → ((d : ℕ) → AlikeTails (take d s) (take d t))
    → AlikeForms (n ++ (b'=' ∷ take k (v ++ s))) (n ++ (b'=' ∷ take k (w ++ t)))
cut_value k n v w s t hn hv hw value size rest = elim (place_cases k (length v)) [
  | inl within ↦ record {
    rest = [];
    first = (n, take k v);
    others = [];
    first' = (n, take k w);
    others' = [];
    is_open = tt;
    plain = ((hn, All-take IsPlain k v hv), tt);
    plain' = ((hn, All-take IsPlain k w hw), tt);
    alike = (AlikeParameter-take k n v w value size, tt);
    is_form = ap (λ u. n ++ (b'=' ∷ u)) (take_within k v s within ∙ sym (append-nil (take k v)));
    is_form' =
        ap (λ u. n ++ (b'=' ∷ u)) (take_within k w t (omega arith) ∙ sym (append-nil (take k w)));
  }
  | inr (d, beyond) ↦
      let r = rest (suc d) in
      record {
        rest = r.rest;
        first = (n, v);
        others = r.others;
        first' = (n, w);
        others' = r.others';
        is_open = r.is_open;
        plain = ((hn, hv), r.plain);
        plain' = ((hn, hw), r.plain');
        alike = ((refl, size, value), r.alike);
        is_form =
            ap (λ u. n ++ (b'=' ∷ u))
              (take_beyond v s k (suc d) beyond ∙ ap (λ u. v ++ u) r.is_tail);
        is_form' =
            ap (λ u. n ++ (b'=' ∷ u))
              (take_beyond w t k (suc d) (omega arith) ∙ ap (λ u. w ++ u) r.is_tail');
      }
]

cut_parameter :
    (k : ℕ) (n m v w s t : Bytes)
    → IsParameter (n, v)
    → IsParameter (m, w)
    → AlikeParameter (n, v) (m, w)
    → ((d : ℕ) → AlikeTails (take d s) (take d t))
    → AlikeCuts (take k (n ++ (b'=' ∷ (v ++ s)))) (take k (m ++ (b'=' ∷ (w ++ t))))
cut_parameter k n m v w s t (hn, hv) (hm, hw) (same, size, value) rest =
    subst (λ m. AlikeCuts (take k (n ++ (b'=' ∷ (v ++ s)))) (take k (m ++ (b'=' ∷ (w ++ t))))) same
      (elim (place_cases k (length n)) [
        | inl within ↦
            rw (take_within k n (b'=' ∷ (v ++ s)) within)
              (rw (take_within k n (b'=' ∷ (w ++ t)) within) (inl (All-take IsPlain k n hn, refl)))
        | inr (d, beyond) ↦ rw (take_beyond n (b'=' ∷ (v ++ s)) k (suc d) beyond) (
            rw (take_beyond n (b'=' ∷ (w ++ t)) k (suc d) beyond)
              (inr (cut_value d n v w s t hn hv hw value size rest)))
      ])

AlikeCuts-AlikeTails : (s t : Bytes) → AlikeCuts s t → AlikeTails (b'&' ∷ s) (b'&' ∷ t)
AlikeCuts-AlikeTails s t (inl (plain, same)) = record {
  rest = b'&' ∷ s;
  others = [];
  others' = [];
  is_open = (refl, plain);
  plain = tt;
  plain' = tt;
  alike = tt;
  is_tail = refl;
  is_tail' = ap (λ u. b'&' ∷ u) (sym same);
}
AlikeCuts-AlikeTails s t (inr f) = record {
  rest = f.rest;
  others = f.first ∷ f.others;
  others' = f.first' ∷ f.others';
  is_open = f.is_open;
  plain = f.plain;
  plain' = f.plain';
  alike = f.alike;
  is_tail = ap (λ u. b'&' ∷ u) f.is_form;
  is_tail' = ap (λ u. b'&' ∷ u) f.is_form';
}

cut_tails :
    (k : ℕ) (ps qs : List (Bytes × Bytes))
    → All IsParameter ps
    → All IsParameter qs
    → AlikeParameters ps qs
    → AlikeTails (take k (form_tail [] ps)) (take k (form_tail [] qs))
cut_tails zero ps qs hps hqs h = record {
  rest = [];
  others = [];
  others' = [];
  is_open = tt;
  plain = tt;
  plain' = tt;
  alike = tt;
  is_tail = refl;
  is_tail' = refl;
}
cut_tails (suc k) [] [] hps hqs h = record {
  rest = [];
  others = [];
  others' = [];
  is_open = tt;
  plain = tt;
  plain' = tt;
  alike = tt;
  is_tail = refl;
  is_tail' = refl;
}
cut_tails (suc k) [] (q ∷ qs) hps hqs h = elim h [ ]
cut_tails (suc k) (p ∷ ps) [] hps hqs h = elim h [ ]
cut_tails (suc k) ((n, v) ∷ ps) ((m, w) ∷ qs) (hp, hps) (hq, hqs) (h, hs) =
    AlikeCuts-AlikeTails _ _ (
      cut_parameter k n m v w (form_tail [] ps) (form_tail [] qs) hp hq h
        (λ d. cut_tails d ps qs hps hqs hs))

redact_body-AlikeCuts : (s t : Bytes) → AlikeCuts s t → redact_body s ≡ redact_body t
redact_body-AlikeCuts s t (inl (plain, same)) = ap redact_body same
redact_body-AlikeCuts s t (inr f) =
    ap redact_body f.is_form
    ∙ redact_body-open_form f.rest f.first f.others f.is_open f.plain.0 f.plain.1
    ∙ (λ i.
        open_form f.rest (redacted-alike f.first f.first' f.alike.0 i)
          (map-redacted-alike f.others f.others' f.alike.1 i))
    ∙ sym (redact_body-open_form f.rest f.first' f.others' f.is_open f.plain'.0 f.plain'.1)
    ∙ ap redact_body (sym f.is_form')

module _ (p q : Bytes × Bytes) (ps qs : List (Bytes × Bytes))
    (h : AlikeParameters (p ∷ ps) (q ∷ qs)) where
  pub length-form-alike : length (form p ps) ≡ length (form q qs)
  length-form-alike = omega (arith, length-form_tail-alike (p ∷ ps) (q ∷ qs) h)

  -- However a form body is cut, what is shown of it depends on no byte of a sensitive value.
  pub redact_body-take-alike :
      (k : ℕ)
      → All IsParameter (p ∷ ps)
      → All IsParameter (q ∷ qs)
      → redact_body (take k (form p ps)) ≡ redact_body (take k (form q qs))
  redact_body-take-alike k (hp, hps) (hq, hqs) = redact_body-AlikeCuts _ _ (
      cut_parameter k p.0 q.0 p.1 q.1 (form_tail [] ps) (form_tail [] qs) hp hq h.0
        (λ d. cut_tails d ps qs hps hqs h.1))

  pub redact_body-form-alike :
      All IsParameter (p ∷ ps)
      → All IsParameter (q ∷ qs)
      → redact_body (form p ps) ≡ redact_body (form q qs)
  redact_body-form-alike plain plain' = redact_body-AlikeCuts _ _ (
      inr (record {
        rest = [];
        first = p;
        others = ps;
        first' = q;
        others' = qs;
        is_open = tt;
        plain = plain;
        plain' = plain';
        alike = h;
        is_form = refl;
        is_form' = refl;
      }))
