-- ===== src/Http/Redaction/Search.antt =====
-- Where `field=` stands in a form body, and where `"field"` does not.
use datazoo_oauth.Base.{
  ℕ, zero, suc, ◌≡◌, ◌≢◌, refl, subst, ◌∙◌, ap, sym, Bool, true, false, ◌||◌, Bool-cases, inl, inr,
  Option, none, some, [], ◌∷◌, ◌++◌, Bytes, codes, length, drop, drop-append, eqb_refl, starts_with,
  eqb, eqb_iff, ◌==◌, if◌then◌else◌, All, arith, append_assoc,
}
use datazoo_oauth.Http.Redaction.{push, split_first, drop_until, redact_form, stars}

-- A byte of a name or a value: none of the three by which the passes find their places.
abbrev pub IsPlain : ℕ → Type 0
IsPlain c = (c ≢ b'=') × (c ≢ b'&') × (c ≢ b'"')

abbrev pub IsField : Bytes → Type 0
IsField [] = ⊥
IsField (c ∷ f) = IsPlain c × All IsPlain f

-- The end of a body or of a parameter.
abbrev pub IsTail : Bytes → Type 0
IsTail [] = Unit
IsTail (c ∷ s) = c ≡ b'&'

starts_with-name :
    (f x r : Bytes)
    → All IsPlain f
    → All IsPlain x
    → starts_with (f ++ codes "=") (x ++ (b'=' ∷ r)) ≡ eqb f x
unfolding starts_with eqb
starts_with-name [] [] r hf hx = refl
starts_with-name [] (c ∷ x) r hf ((a, b, q), hx) = ground arith
starts_with-name (c ∷ f) [] r ((a, b, q), hf) hx = ground arith
starts_with-name (c ∷ f) (d ∷ x) r (_, hf) (_, hx) = ground (arith, starts_with-name f x r hf hx)

pub starts_with-value :
    (f x t : Bytes)
    → All IsPlain f
    → All IsPlain x
    → IsTail t
    → starts_with (f ++ codes "=") (x ++ t) ≡ false
unfolding starts_with
starts_with-value [] [] [] hf hx ht = refl
starts_with-value [] [] (c ∷ t) hf hx ht = ground arith
starts_with-value [] (c ∷ x) t hf ((a, b, q), hx) ht = ground arith
starts_with-value (c ∷ f) [] [] hf hx ht = refl
starts_with-value (c ∷ f) [] (d ∷ t) ((a, b, q), hf) hx ht = ground arith
starts_with-value (c ∷ f) (d ∷ x) t (_, hf) (_, hx) ht =
    ground (arith, starts_with-value f x t hf hx ht)

pub split_first-push :
    (p : Bytes) (c : ℕ) (s : Bytes)
    → starts_with p (c ∷ s) ≡ false
    → split_first p (c ∷ s) ≡ push c (split_first p s)
unfolding split_first
split_first-push p c s h = rw h refl

pub split_first-here :
    (p : Bytes) (c : ℕ) (s : Bytes)
    → starts_with p (c ∷ s) ≡ true
    → split_first p (c ∷ s) ≡ some ([], drop (length p) (c ∷ s))
unfolding split_first
split_first-here p c s h = rw h refl

-- What a round of the form pass makes of the place that it has found.
abbrev form_round : Bytes → ℕ → Bytes → Option (Bytes × Bytes) → Bytes
form_round p fuel s none = s
form_round p fuel s (some (before, after)) =
    before ++ (p ++ (stars ++ redact_form p fuel (drop_until (λ c. c == b'&') after)))

redact_form-round :
    (p : Bytes) (fuel : ℕ) (s : Bytes) (o : Option (Bytes × Bytes))
    → split_first p s ≡ o
    → redact_form p (suc fuel) s ≡ form_round p fuel s o
unfolding redact_form
redact_form-round p fuel s none e = rw (e, redact_form) refl
redact_form-round p fuel s (some (before, after)) e = rw (e, redact_form) refl

form_round-push :
    (p : Bytes) (fuel : ℕ) (c : ℕ) (s : Bytes) (o : Option (Bytes × Bytes))
    → form_round p fuel (c ∷ s) (push c o) ≡ c ∷ form_round p fuel s o
form_round-push p fuel c s none = refl
form_round-push p fuel c s (some (before, after)) = refl

-- The pass steps over a byte at which the pattern does not start.
pub redact_form-push :
    (p : Bytes) (fuel : ℕ) (c : ℕ) (s : Bytes)
    → starts_with p (c ∷ s) ≡ false
    → redact_form p fuel (c ∷ s) ≡ c ∷ redact_form p fuel s
unfolding redact_form
redact_form-push p zero c s h = refl
redact_form-push p (suc fuel) c s h =
    redact_form-round p fuel (c ∷ s) _ (split_first-push p c s h)
    ∙ form_round-push p fuel c s (split_first p s)
    ∙ ap (λ t. c ∷ t) (sym (redact_form-round p fuel s _ refl))

-- The form pass steps over a value and the `&` behind it.
redact_form-value :
    (f : Bytes) (fuel : ℕ) (v t : Bytes)
    → All IsPlain f
    → All IsPlain v
    → IsTail t
    → redact_form (f ++ codes "=") fuel (v ++ t) ≡ v ++ redact_form (f ++ codes "=") fuel t
redact_form-value f fuel [] t hf hv ht = refl
redact_form-value f fuel (c ∷ v) t hf hv ht =
    redact_form-push (f ++ codes "=") fuel c (v ++ t) (starts_with-value f (c ∷ v) t hf hv ht)
    ∙ ap (λ s. c ∷ s) (redact_form-value f fuel v t hf hv.1 ht)

-- The name ends in the field.
abbrev pub ends_in : Bytes → Bytes → Bool
ends_in f [] = false
ends_in f (c ∷ n) = eqb f (c ∷ n) || ends_in f n

-- The value of a parameter after the form pass for one field.
abbrev pub shown : Bytes → Bytes → Bytes → Bytes
shown f n v = if ends_in f n then stars else v

drop_until-value :
    (v t : Bytes) → All IsPlain v → IsTail t → drop_until (λ c. c == b'&') (v ++ t) ≡ t
unfolding drop_until
drop_until-value [] [] hv ht = refl
drop_until-value [] (c ∷ t) hv ht = ground arith
drop_until-value (c ∷ v) t ((a, b, q), hv) ht = ground (arith, drop_until-value v t hv ht)

-- The form pass at the name that is the field itself.
redact_form-here :
    (f : Bytes) (fuel : ℕ) (v t : Bytes)
    → IsField f
    → All IsPlain v
    → IsTail t
    → redact_form (f ++ codes "=") (suc fuel) (f ++ (b'=' ∷ (v ++ t)))
      ≡ f ++ (b'=' ∷ (stars ++ redact_form (f ++ codes "=") fuel t))
redact_form-here [] fuel v t hf hv ht = elim hf [ ]
redact_form-here (a ∷ f) fuel v t hf hv ht =
    let p = a ∷ (f ++ codes "=") in
    let text = a ∷ (f ++ (b'=' ∷ (v ++ t))) in
    let behind : drop (length p) text ≡ v ++ t =
      ap (drop (length p)) (sym (append_assoc (a ∷ f) (codes "=") (v ++ t)))
      ∙ drop-append p (v ++ t) in
    redact_form-round p fuel text _ (
      split_first-here p a (f ++ (b'=' ∷ (v ++ t)))
        (starts_with-name (a ∷ f) (a ∷ f) (v ++ t) hf hf ∙ eqb_refl (a ∷ f)))
    ∙ ap (λ s. p ++ (stars ++ redact_form p fuel (drop_until (λ c. c == b'&') s))) behind
    ∙ ap (λ s. p ++ (stars ++ redact_form p fuel s)) (drop_until-value v t hv ht)
    ∙ append_assoc (a ∷ f) (codes "=") (stars ++ redact_form p fuel t)

eqb-nil : (a : ℕ) (f : Bytes) → eqb (a ∷ f) [] ≡ false
unfolding eqb
eqb-nil a f = refl

-- The form pass on one parameter: its value is starred exactly if its name ends in the field. A
-- round is left for what follows.
pub redact_form-parameter :
    (f : Bytes) (fuel : ℕ) (n v t : Bytes)
    → IsField f
    → All IsPlain n
    → All IsPlain v
    → IsTail t
    → redact_form (f ++ codes "=") (suc fuel) (n ++ (b'=' ∷ (v ++ t)))
      ≡ n
        ++ (b'='
            ∷ (shown f n v
                ++ redact_form (f ++ codes "=") (if ends_in f n then fuel else suc fuel) t))
redact_form-parameter [] fuel n v t hf hn hv ht = elim hf [ ]
redact_form-parameter (a ∷ f) fuel [] v t hf hn hv ht =
    redact_form-push (a ∷ (f ++ codes "=")) (suc fuel) b'=' (v ++ t)
      (starts_with-name (a ∷ f) [] (v ++ t) hf tt ∙ eqb-nil a f)
    ∙ ap (λ s. b'=' ∷ s) (redact_form-value (a ∷ f) (suc fuel) v t hf hv ht)
redact_form-parameter (a ∷ f) fuel (c ∷ n) v t hf hn hv ht =
    elim (Bool-cases (eqb (a ∷ f) (c ∷ n))) [
      | inl here ↦ rw here (
          subst
            (λ x.
              redact_form (a ∷ (f ++ codes "=")) (suc fuel) (x ++ (b'=' ∷ (v ++ t)))
              ≡ x ++ (b'=' ∷ (stars ++ redact_form (a ∷ (f ++ codes "=")) fuel t)))
            ((eqb_iff (a ∷ f) (c ∷ n)).0 here) (redact_form-here (a ∷ f) fuel v t hf hv ht))
      | inr other ↦ rw other (
          redact_form-push (a ∷ (f ++ codes "=")) (suc fuel) c (n ++ (b'=' ∷ (v ++ t)))
            (starts_with-name (a ∷ f) (c ∷ n) (v ++ t) hf hn ∙ other)
          ∙ ap (λ s. c ∷ s) (redact_form-parameter (a ∷ f) fuel n v t hf hn.1 hv ht))
    ]
