-- ===== src/Http/Redaction/Json/Scan.antt =====
-- One pass of RedactBody over the strings of a JSON body.
use datazoo_oauth.Base.{
  ℕ, zero, suc, ◌<◌, ◌≡◌, subst, refl, ◌∙◌, ap, sym, Bool, true, false, Bool-cases, inl, inr, List,
  [], ◌∷◌, ◌++◌, append_assoc, Bytes, length, drop, drop-append, take_until, starts_with, all, eqb,
  eqb_iff, eqb_refl, ◌==◌, if◌then◌else◌, All, arith,
}
use datazoo_oauth.Http.Redaction.Search.{split_first-here}
use datazoo_oauth.Http.Redaction.{split_first, drop_until, is_gap, json_value, redact_json, stars}
use datazoo_oauth.Http.Redaction.Json.{
  HasNoQuote, IsName, IsBetween, IsBehind, IsText, IsEnd, End, done, in_string, behind, end_text,
  strings, starred, named_after, starred_end, quoted_name, json_rest, redact_json-round,
  redact_json-push, starts_with-string, starts_with-between, starts_with-other, starts_with-open,
  starts_with-behind,
}

name_plain : (f : Bytes) → IsName f → HasNoQuote f
name_plain [] h = elim h [ ]
name_plain (c ∷ f) h = h.1

between_plain : (c : Bytes) → IsBetween c → HasNoQuote c
between_plain [] h = elim h [ ]
between_plain (x ∷ c) h = h.1

behind_plain : (c : Bytes) → IsBehind c → HasNoQuote c
behind_plain [] h = tt
behind_plain (x ∷ c) h = between_plain (x ∷ c) h

module _ (f : Bytes) (hf : IsName f) where
  pass : ℕ → Bytes → Bytes
  pass fuel = redact_json (quoted_name f) fuel

  pass_skip : (fuel : ℕ) (s t : Bytes) → HasNoQuote s → pass fuel (s ++ t) ≡ s ++ pass fuel t
  unfolding pass
  pass_skip fuel [] t h = refl
  pass_skip fuel (c ∷ s) t (hc, hs) =
      redact_json-push (quoted_name f) fuel c (s ++ t) (starts_with-other f c (s ++ t) hc)
      ∙ ap (λ u. c ∷ u) (pass_skip fuel s t hs)

  -- From a closing quote on.
  pass_close :
      (fuel : ℕ) (c t : Bytes)
      → IsBetween c
      → HasNoQuote c
      → pass fuel (b'"' ∷ (c ++ t)) ≡ b'"' ∷ (c ++ pass fuel t)
  unfolding pass
  pass_close fuel c t hc plain =
      redact_json-push (quoted_name f) fuel b'"' (c ++ t) (starts_with-between f c t hf hc)
      ∙ ap (λ u. b'"' ∷ u) (pass_skip fuel c t plain)

  plain_name : HasNoQuote f
  plain_name = name_plain f hf

  starts_with-name_here :
      (t : Bytes) → starts_with (quoted_name f) (b'"' ∷ (f ++ (b'"' ∷ t))) ≡ true
  unfolding starts_with
  starts_with-name_here t = starts_with-string f f t plain_name plain_name ∙ eqb_refl f

  -- The pass at a place of the name.
  pass_name :
      (fuel : ℕ) (t : Bytes)
      → pass (suc fuel) (b'"' ∷ (f ++ (b'"' ∷ t))) ≡ b'"' ∷ (f ++ (b'"' ∷ json_rest (pass fuel) t))
  unfolding pass
  pass_name fuel t =
      redact_json-round (quoted_name f) fuel (b'"' ∷ (f ++ (b'"' ∷ t))) _
        (split_first-here (quoted_name f) b'"' (f ++ (b'"' ∷ t)) at_name)
      ∙ ap (λ u. quoted_name f ++ json_rest (redact_json (quoted_name f) fuel) u) behind
      ∙ ap (λ u. b'"' ∷ u)
          (append_assoc f (b'"' ∷ []) (json_rest (redact_json (quoted_name f) fuel) t))
    where
      at_name : starts_with (quoted_name f) (b'"' ∷ (f ++ (b'"' ∷ t))) ≡ true
      at_name = starts_with-name_here t

      behind : drop (length (f ++ (b'"' ∷ []))) (f ++ (b'"' ∷ t)) ≡ t
      behind =
          ap (drop (length (f ++ (b'"' ∷ [])))) (sym (append_assoc f (b'"' ∷ []) t))
          ∙ drop-append (f ++ (b'"' ∷ [])) t

  -- Between two strings.
  rest_gaps :
      (go : Bytes → Bytes) (c t : Bytes)
      → all is_gap c ≡ true
      → json_rest go (c ++ t) ≡ c ++ json_rest go t
  unfolding take_until drop_until
  rest_gaps go [] t h = refl
  rest_gaps go (x ∷ c) t h = elim (Bool-cases (is_gap x)) [
    | inl gap ↦ rw gap (ap (λ u. x ∷ u) (rest_gaps go c t (ground arith)))
    | inr other ↦ absurd (ground arith)
  ]

  rest_other :
      (go : Bytes → Bytes) (c t : Bytes)
      → ((s u : Bytes) → HasNoQuote s → go (s ++ u) ≡ s ++ go u)
      → HasNoQuote c
      → all is_gap c ≡ false
      → json_rest go (c ++ t) ≡ c ++ go t
  unfolding take_until drop_until json_value
  rest_other go [] t skip hc h = absurd (cc)
  rest_other go (x ∷ c) t skip (hx, hc) h = elim (Bool-cases (is_gap x)) [
    | inl gap ↦ rw gap (ap (λ u. x ∷ u) (rest_other go c t skip hc (ground arith)))
    | inr other ↦
        let unquoted : (x == b'"') ≡ false = ground arith in
        rw other (rw unquoted (skip (x ∷ c) t (hx, hc)))
  ]

  pass_nil : (fuel : ℕ) → pass fuel [] ≡ []
  unfolding pass redact_json split_first starts_with
  pass_nil zero = refl
  pass_nil (suc fuel) = refl

  at_quote : (t u : Bytes) → HasNoQuote t → drop_until (λ d. d == b'"') (t ++ (b'"' ∷ u)) ≡ b'"' ∷ u
  unfolding drop_until
  at_quote [] u h = refl
  at_quote (x ∷ t) u (hx, h) = ground (arith, at_quote t u h)

  -- The value of a member.
  rest_value :
      (go : Bytes → Bytes) (t u : Bytes)
      → HasNoQuote t
      → json_rest go (b'"' ∷ (t ++ (b'"' ∷ u))) ≡ b'"' ∷ (stars ++ go (b'"' ∷ u))
  unfolding take_until drop_until json_value is_gap
  rest_value go t u h = ap (λ v. b'"' ∷ (stars ++ go v)) (at_quote t u h)

  rest_nil : (go : Bytes → Bytes) → json_rest go [] ≡ []
  unfolding take_until drop_until json_value
  rest_nil go = refl

  pass_string :
      (fuel : ℕ) (s u : Bytes)
      → HasNoQuote s
      → eqb f s ≡ false
      → pass fuel (b'"' ∷ (s ++ (b'"' ∷ u))) ≡ b'"' ∷ (s ++ pass fuel (b'"' ∷ u))
  unfolding pass starts_with
  pass_string fuel s u hs other =
      redact_json-push (quoted_name f) fuel b'"' (s ++ (b'"' ∷ u))
        (starts_with-string f s u plain_name hs ∙ other)
      ∙ ap (λ v. b'"' ∷ v) (pass_skip fuel s (b'"' ∷ u) hs)

  -- At the end of the body.
  pass_plain : (fuel : ℕ) (s : Bytes) → HasNoQuote s → pass fuel s ≡ s
  unfolding pass
  pass_plain fuel [] h = pass_nil fuel
  pass_plain fuel (c ∷ s) (hc, hs) =
      redact_json-push (quoted_name f) fuel c s (starts_with-other f c s hc)
      ∙ ap (λ u. c ∷ u) (pass_plain fuel s hs)

  pass_behind : (fuel : ℕ) (c : Bytes) → IsBehind c → pass fuel (b'"' ∷ c) ≡ b'"' ∷ c
  unfolding pass
  pass_behind fuel c h =
      redact_json-push (quoted_name f) fuel b'"' c (starts_with-behind f c hf h)
      ∙ ap (λ u. b'"' ∷ u) (pass_plain fuel c (behind_plain c h))

  pass_open : (fuel : ℕ) (t : Bytes) → HasNoQuote t → pass fuel (b'"' ∷ t) ≡ b'"' ∷ t
  unfolding pass
  pass_open fuel t h =
      redact_json-push (quoted_name f) fuel b'"' t (starts_with-open f t hf h)
      ∙ ap (λ u. b'"' ∷ u) (pass_plain fuel t h)

  rest_plain : (fuel : ℕ) (c : Bytes) → HasNoQuote c → json_rest (pass fuel) c ≡ c
  unfolding take_until drop_until json_value
  rest_plain fuel [] h = refl
  rest_plain fuel (x ∷ c) (hx, hc) = elim (Bool-cases (is_gap x)) [
    | inl gap ↦ rw gap (ap (λ u. x ∷ u) (rest_plain fuel c hc))
    | inr other ↦
        let unquoted : (x == b'"') ≡ false = ground arith in
        rw other (rw unquoted (pass_plain fuel (x ∷ c) (hx, hc)))
  ]

  at_end : (t : Bytes) → HasNoQuote t → drop_until (λ d. d == b'"') t ≡ []
  unfolding drop_until
  at_end [] h = refl
  at_end (x ∷ t) (hx, h) = ground (arith, at_end t h)

  rest_open :
      (fuel : ℕ) (t : Bytes) → HasNoQuote t → json_rest (pass fuel) (b'"' ∷ t) ≡ b'"' ∷ stars
  unfolding take_until drop_until json_value is_gap
  rest_open fuel t h =
      ap (λ v. b'"' ∷ (stars ++ pass fuel v)) (at_end t h)
      ∙ ap (λ v. b'"' ∷ (stars ++ v)) (pass_nil fuel)

  at_name :
      (fuel : ℕ) (s u : Bytes)
      → eqb f s ≡ true
      → pass (suc fuel) (b'"' ∷ (s ++ (b'"' ∷ u))) ≡ b'"' ∷ (s ++ (b'"' ∷ json_rest (pass fuel) u))
  at_name fuel s u same =
      subst
        (λ n.
          pass (suc fuel) (b'"' ∷ (n ++ (b'"' ∷ u)))
          ≡ b'"' ∷ (n ++ (b'"' ∷ json_rest (pass fuel) u)))
        ((eqb_iff f s).0 same) (pass_name fuel u)

  -- The pass, from a string on or from what follows a name.
  scan : Bool → ℕ → Bytes → Bytes
  scan named fuel = if named then json_rest (pass fuel) else pass fuel

  scan-end :
      (named : Bool) (e : End) (fuel : ℕ)
      → IsEnd e
      → scan named (suc fuel) (end_text e) ≡ end_text (starred_end named e)
  unfolding scan
  scan-end false done fuel h = pass_nil (suc fuel)
  scan-end true done fuel h = rest_nil (pass (suc fuel))
  scan-end false (in_string t) fuel h = pass_open (suc fuel) t h
  scan-end true (in_string t) fuel h = rest_open (suc fuel) t h
  scan-end true (behind s c) fuel (hs, hc) =
      rest_value (pass (suc fuel)) s c hs
      ∙ ap (λ u. b'"' ∷ (stars ++ u)) (pass_behind (suc fuel) c hc)
  scan-end false (behind s c) fuel (hs, hc) = elim (Bool-cases (eqb f s)) [
    | inr other ↦
        pass_string (suc fuel) s c hs other
        ∙ ap (λ u. b'"' ∷ (s ++ u)) (pass_behind (suc fuel) c hc)
    | inl same ↦
        at_name fuel s c same
        ∙ ap (λ u. b'"' ∷ (s ++ (b'"' ∷ u))) (rest_plain fuel c (behind_plain c hc))
  ]

  scan-strings :
      (named : Bool) (ps : List (Bytes × Bytes)) (e : End) (fuel : ℕ)
      → All IsText ps
      → IsEnd e
      → length ps < fuel
      → scan named fuel (strings ps e)
        ≡ strings (starred f named ps) (starred_end (named_after f named ps) e)
  unfolding scan
  scan-strings named ps e zero h he enough = absurd (omega arith)
  scan-strings named [] e (suc fuel) h he enough = scan-end named e fuel he
  scan-strings true ((t, d) ∷ ps) e (suc fuel) ((ht, hd), h) he enough =
      rest_value (pass (suc fuel)) t (d ++ strings ps e) ht
      ∙ ap (λ u. b'"' ∷ (stars ++ u))
          (pass_close (suc fuel) d (strings ps e) hd (between_plain d hd))
      ∙ ap (λ u. b'"' ∷ (stars ++ (b'"' ∷ (d ++ u))))
          (scan-strings false ps e (suc fuel) h he (omega arith))
  scan-strings false ((s, c) ∷ ps) e (suc fuel) ((hs, hc), h) he enough =
      elim (Bool-cases (eqb f s)) [
        | inr other ↦
            pass_string (suc fuel) s (c ++ strings ps e) hs other
            ∙ ap (λ u. b'"' ∷ (s ++ u))
                (pass_close (suc fuel) c (strings ps e) hc (between_plain c hc))
            ∙ ap (λ u. b'"' ∷ (s ++ (b'"' ∷ (c ++ u))))
                (scan-strings false ps e (suc fuel) h he (omega arith))
            ∙ rw other refl
        | inl same ↦ elim (Bool-cases (all is_gap c)) [
          | inl gap ↦
              at_name fuel s (c ++ strings ps e) same
              ∙ ap (λ u. b'"' ∷ (s ++ (b'"' ∷ u))) (rest_gaps (pass fuel) c (strings ps e) gap)
              ∙ ap (λ u. b'"' ∷ (s ++ (b'"' ∷ (c ++ u))))
                  (scan-strings true ps e fuel h he (omega arith))
              ∙ rw (same, gap) refl
          | inr text ↦
              at_name fuel s (c ++ strings ps e) same
              ∙ ap (λ u. b'"' ∷ (s ++ (b'"' ∷ u)))
                  (rest_other (pass fuel) c (strings ps e) (pass_skip fuel) (between_plain c hc)
                    text)
              ∙ ap (λ u. b'"' ∷ (s ++ (b'"' ∷ (c ++ u))))
                  (scan-strings false ps e fuel h he (omega arith))
              ∙ rw (same, text) refl
        ]
      ]

pub redact_json-strings :
    (f : Bytes) (fuel : ℕ) (s : Bytes) (ps : List (Bytes × Bytes)) (e : End)
    → IsName f
    → HasNoQuote s
    → All IsText ps
    → IsEnd e
    → length ps < fuel
    → redact_json (quoted_name f) fuel (s ++ strings ps e)
      ≡ s ++ strings (starred f false ps) (starred_end (named_after f false ps) e)
unfolding pass scan
redact_json-strings f fuel s ps e hf hs h he enough =
    pass_skip f hf fuel s (strings ps e) hs
    ∙ ap (λ u. s ++ u) (scan-strings f hf false ps e fuel h he enough)
