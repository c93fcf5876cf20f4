-- ===== src/Http/Redaction/Passes.antt =====
-- One pass of RedactBody over the parameters of a form body, which a cut may have ended anywhere.
use datazoo_oauth.Base.{
  ℕ, zero, suc, ◌<◌, ◌≡◌, refl, ◌∙◌, ap, subst, false, none, List, [], ◌∷◌, ◌++◌, map, append-nil,
  Bytes, codes, length, starts_with, if◌then◌else◌, All, any, arith,
}
use datazoo_oauth.Http.Redaction.{split_first, redact_form, stars}
use datazoo_oauth.Http.Redaction.Search.{
  IsPlain, IsField, IsTail, ends_in, shown, starts_with-value, redact_form-push,
  redact_form-parameter,
}

-- Parameters, each after `&`, and what stands behind them.
abbrev pub form_tail : Bytes → List (Bytes × Bytes) → Bytes
form_tail o [] = o
form_tail o ((n, v) ∷ ps) = b'&' ∷ (n ++ (b'=' ∷ (v ++ form_tail o ps)))

abbrev pub open_form : Bytes → Bytes × Bytes → List (Bytes × Bytes) → Bytes
open_form o (n, v) ps = n ++ (b'=' ∷ (v ++ form_tail o ps))

-- A form body, as the code writes it: parameters joined by `&`.
abbrev pub form : Bytes × Bytes → List (Bytes × Bytes) → Bytes
form p ps = open_form [] p ps

-- What a cut may leave behind the last parameter: nothing, or the beginning of a name.
abbrev pub IsOpen : Bytes → Type 0
IsOpen [] = Unit
IsOpen (c ∷ s) = (c ≡ b'&') × All IsPlain s

-- Encoded names and values hold none of `&`, `=` and the quote.
abbrev pub IsParameter : Bytes × Bytes → Type 0
IsParameter (n, v) = All IsPlain n × All IsPlain v

abbrev pub show : Bytes → Bytes × Bytes → Bytes × Bytes
show f (n, v) = (n, shown f n v)

-- The parameter with its value starred if its name ends in one of the fields.
abbrev pub redacted : List Bytes → Bytes × Bytes → Bytes × Bytes
redacted fields (n, v) = (n, if any (λ f. ends_in f n) fields then stars else v)

IsOpen-IsTail : (o : Bytes) → IsOpen o → IsTail o
IsOpen-IsTail [] h = tt
IsOpen-IsTail (c ∷ o) h = h.0

pub form_tail-IsTail : (o : Bytes) (ps : List (Bytes × Bytes)) → IsOpen o → IsTail (form_tail o ps)
form_tail-IsTail o [] h = IsOpen-IsTail o h
form_tail-IsTail o (p ∷ ps) h = refl

pub IsField-All : (f : Bytes) → IsField f → All IsPlain f
IsField-All [] h = tt
IsField-All (c ∷ f) h = h

-- A text without `=` holds no `field=`.
split_first-IsPlain :
    (f o : Bytes) → All IsPlain f → All IsPlain o → split_first (f ++ codes "=") o ≡ none
unfolding split_first
split_first-IsPlain [] [] hf ho = unfold starts_with in refl
split_first-IsPlain (c ∷ f) [] hf ho = unfold starts_with in refl
split_first-IsPlain f (c ∷ o) hf (hc, ho) =
    rw
      (subst (λ t. starts_with (f ++ codes "=") t ≡ false) (append-nil (c ∷ o))
        (starts_with-value f (c ∷ o) [] hf (hc, ho) tt))
      (rw (split_first-IsPlain f o hf ho) refl)

pub redact_form-IsPlain :
    (f o : Bytes) (fuel : ℕ)
    → All IsPlain f
    → All IsPlain o
    → redact_form (f ++ codes "=") fuel o ≡ o
unfolding redact_form
redact_form-IsPlain f o zero hf ho = refl
redact_form-IsPlain f o (suc fuel) hf ho = rw (split_first-IsPlain f o hf ho, redact_form) refl

redact_form-IsOpen :
    (f o : Bytes) (fuel : ℕ) → IsField f → IsOpen o → redact_form (f ++ codes "=") fuel o ≡ o
redact_form-IsOpen f [] fuel hf h = redact_form-IsPlain f [] fuel (IsField-All f hf) tt
redact_form-IsOpen f (c ∷ o) zero hf h = unfold redact_form in refl
redact_form-IsOpen f (c ∷ o) (suc fuel) hf (amp, h) =
    let plain : All IsPlain f = IsField-All f hf in
    redact_form-push (f ++ codes "=") (suc fuel) c o (starts_with-value f [] (c ∷ o) plain tt amp)
    ∙ ap (λ s. c ∷ s) (redact_form-IsPlain f o (suc fuel) plain h)

-- One pass over the parameters, with more rounds than there are parameters.
module _ (f o : Bytes) (hf : IsField f) (ho : IsOpen o) where
  pub Passes : List (Bytes × Bytes) → Type 0
  Passes ps =
      (fuel : ℕ)
      → length ps < fuel
      → redact_form (f ++ codes "=") fuel (form_tail o ps) ≡ form_tail o (map (show f) ps)

  pub form-Passes :
      (fuel : ℕ) (n v : Bytes) (ps : List (Bytes × Bytes))
      → IsParameter (n, v)
      → Passes ps
      → length ps < fuel
      → redact_form (f ++ codes "=") (suc fuel) (open_form o (n, v) ps)
        ≡ open_form o (show f (n, v)) (map (show f) ps)
  unfolding Passes
  form-Passes fuel n v ps (hn, hv) rest h =
      redact_form-parameter f fuel n v (form_tail o ps) hf hn hv (form_tail-IsTail o ps ho)
      ∙ ap (λ s. n ++ (b'=' ∷ (shown f n v ++ s)))
          (rest (if ends_in f n then fuel else suc fuel) (ground arith))

  pub form_tail-Passes : (ps : List (Bytes × Bytes)) → All IsParameter ps → Passes ps
  unfolding Passes
  form_tail-Passes [] hps fuel h = redact_form-IsOpen f o fuel hf ho
  form_tail-Passes ((n, v) ∷ ps) hps zero h = elim h [ ]
  form_tail-Passes ((n, v) ∷ ps) (hp, hps) (suc fuel) h =
      redact_form-push (f ++ codes "=") (suc fuel) b'&' (open_form o (n, v) ps)
        (starts_with-value f [] (b'&' ∷ open_form o (n, v) ps) (IsField-All f hf) tt refl)
      ∙ ap (λ s. b'&' ∷ s) (form-Passes fuel n v ps hp (form_tail-Passes ps hps) (omega arith))
