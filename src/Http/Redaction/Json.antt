-- ===== src/Http/Redaction/Json.antt =====
-- What RedactBody shows of a JSON body, such as the answer of the token endpoint. A body is read as the
-- strings in quotes and what stands between them.
pub mod Scan
use datazoo_oauth.Base.{
  codes, ℕ, zero, suc, ◌<◌, ◌≡◌, ◌≢◌, subst, eqb_iff, refl, ◌∙◌, ap, sym, Bool, true, false, not,
  ◌&&◌, Bool-cases, inl, inr, Option, none, some, List, [], ◌∷◌, ◌++◌, append_assoc, Bytes, length,
  drop, drop-append, take_until, starts_with, all, eqb, eqb_refl, leb, ◌==◌, if◌then◌else◌, All,
  arith,
}
use datazoo_oauth.Http.Redaction.Search.{split_first-push, split_first-here}
use datazoo_oauth.Http.Redaction.{
  redact_form, push, split_first, drop_until, is_gap, json_value, redact_json, stars,
}

abbrev pub HasNoQuote : Bytes → Type 0
HasNoQuote = All (λ c. c ≢ b'"')

abbrev is_letter : ℕ → Bool
is_letter c = leb b'a' c && leb c b'z'

-- A field's name begins with a letter.
abbrev pub IsName : Bytes → Type 0
IsName [] = ⊥
IsName (c ∷ f) = (is_letter c ≡ true) × HasNoQuote (c ∷ f)

-- What stands between two strings: no quote, and no letter at the front.
abbrev pub IsBetween : Bytes → Type 0
IsBetween [] = ⊥
IsBetween (c ∷ s) = (is_letter c ≡ false) × HasNoQuote (c ∷ s)

-- Where a body ends, as a cut may: behind a string and what follows it, in an open string, or in what
-- follows a string.
pub data End : Type 0 where
  done : End
  in_string : Bytes → End
  behind : Bytes → Bytes → End

abbrev pub end_text : End → Bytes
end_text done = []
end_text (in_string t) = b'"' ∷ t
end_text (behind s c) = b'"' ∷ (s ++ (b'"' ∷ c))

-- Strings, each with what follows it up to the next, and the end.
abbrev pub strings : List (Bytes × Bytes) → End → Bytes
strings [] e = end_text e
strings ((s, c) ∷ ps) e = b'"' ∷ (s ++ (b'"' ∷ (c ++ strings ps e)))

abbrev pub IsBehind : Bytes → Type 0
IsBehind [] = Unit
IsBehind (c ∷ s) = IsBetween (c ∷ s)

abbrev pub IsEnd : End → Type 0
IsEnd done = Unit
IsEnd (in_string t) = HasNoQuote t
IsEnd (behind s c) = HasNoQuote s × IsBehind c

abbrev pub IsText : Bytes × Bytes → Type 0
IsText (s, c) = HasNoQuote s × IsBetween c

-- The string after the name `f` and a colon is starred; `named` says that such a name is just behind.
abbrev pub starred : Bytes → Bool → List (Bytes × Bytes) → List (Bytes × Bytes)
starred f named [] = []
starred f named ((s, c) ∷ ps) =
    (if named then stars else s, c) ∷ starred f (not named && (eqb f s && all is_gap c)) ps

-- Whether such a name is last.
abbrev pub named_after : Bytes → Bool → List (Bytes × Bytes) → Bool
named_after f named [] = named
named_after f named ((s, c) ∷ ps) = named_after f (not named && (eqb f s && all is_gap c)) ps

abbrev pub starred_end : Bool → End → End
starred_end named done = done
starred_end named (in_string t) = in_string (if named then stars else t)
starred_end named (behind s c) = behind (if named then stars else s) c

abbrev pub quoted_name : Bytes → Bytes
quoted_name f = b'"' ∷ (f ++ (b'"' ∷ []))

pub starts_with-string :
    (f s t : Bytes)
    → HasNoQuote f
    → HasNoQuote s
    → starts_with (f ++ (b'"' ∷ [])) (s ++ (b'"' ∷ t)) ≡ eqb f s
unfolding starts_with eqb
starts_with-string [] [] t hf hs = refl
starts_with-string [] (c ∷ s) t hf (h, hs) = ground arith
starts_with-string (c ∷ f) [] t (h, hf) hs = ground arith
starts_with-string (c ∷ f) (d ∷ s) t (_, hf) (_, hs) =
    ground (arith, starts_with-string f s t hf hs)

pub starts_with-between :
    (f c t : Bytes) → IsName f → IsBetween c → starts_with (quoted_name f) (b'"' ∷ (c ++ t)) ≡ false
unfolding starts_with
starts_with-between [] c t hf hc = elim hf [ ]
starts_with-between (a ∷ f) [] t hf hc = elim hc [ ]
starts_with-between (a ∷ f) (c ∷ s) t (ha, hf) (hc, hs) = ground arith

pub starts_with-behind :
    (f c : Bytes) → IsName f → IsBehind c → starts_with (quoted_name f) (b'"' ∷ c) ≡ false
unfolding starts_with
starts_with-behind [] c hf h = elim hf [ ]
starts_with-behind (a ∷ f) [] hf h = refl
starts_with-behind (a ∷ f) (c ∷ s) (ha, hf) (hc, hs) = ground arith

starts_with-unclosed : (f t : Bytes) → HasNoQuote t → starts_with (f ++ (b'"' ∷ [])) t ≡ false
unfolding starts_with
starts_with-unclosed [] [] h = refl
starts_with-unclosed (a ∷ f) [] h = refl
starts_with-unclosed [] (c ∷ t) (hc, h) = ground arith
starts_with-unclosed (a ∷ f) (c ∷ t) (hc, h) = ground (arith, starts_with-unclosed f t h)

pub starts_with-open :
    (f t : Bytes) → IsName f → HasNoQuote t → starts_with (quoted_name f) (b'"' ∷ t) ≡ false
unfolding starts_with
starts_with-open f t hf h = starts_with-unclosed f t h

pub starts_with-other :
    (f : Bytes) (c : ℕ) (t : Bytes) → c ≢ b'"' → starts_with (quoted_name f) (c ∷ t) ≡ false
unfolding starts_with
starts_with-other f c t h = ground arith

-- What follows the place of a name.
abbrev pub json_rest : (Bytes → Bytes) → Bytes → Bytes
json_rest go after =
    take_until (λ c. not (is_gap c)) after ++ json_value go (drop_until (λ c. not (is_gap c)) after)

-- What a round of the JSON pass makes of the place that it has found.
abbrev json_round : Bytes → ℕ → Bytes → Option (Bytes × Bytes) → Bytes
json_round p fuel s none = s
json_round p fuel s (some (before, after)) = before ++ (p ++ json_rest (redact_json p fuel) after)

pub redact_json-round :
    (p : Bytes) (fuel : ℕ) (s : Bytes) (o : Option (Bytes × Bytes))
    → split_first p s ≡ o
    → redact_json p (suc fuel) s ≡ json_round p fuel s o
unfolding redact_json
redact_json-round p fuel s none e = rw (e, redact_json) refl
redact_json-round p fuel s (some (before, after)) e = rw (e, redact_json) refl

json_round-push :
    (p : Bytes) (fuel : ℕ) (c : ℕ) (s : Bytes) (o : Option (Bytes × Bytes))
    → json_round p fuel (c ∷ s) (push c o) ≡ c ∷ json_round p fuel s o
json_round-push p fuel c s none = refl
json_round-push p fuel c s (some (before, after)) = refl

pub redact_json-push :
    (p : Bytes) (fuel : ℕ) (c : ℕ) (s : Bytes)
    → starts_with p (c ∷ s) ≡ false
    → redact_json p fuel (c ∷ s) ≡ c ∷ redact_json p fuel s
redact_json-push p zero c s h = unfold redact_json in refl
redact_json-push p (suc fuel) c s h =
    redact_json-round p fuel (c ∷ s) _ (split_first-push p c s h)
    ∙ json_round-push p fuel c s (split_first p s)
    ∙ ap (λ t. c ∷ t) (sym (redact_json-round p fuel s _ refl))

-- A text without `=` passes the form pass as it is.
abbrev pub HasNoEquals : Bytes → Type 0
HasNoEquals = All (λ c. c ≢ b'=')

starts_with-HasNoEquals : (f s : Bytes) → HasNoEquals s → starts_with (f ++ codes "=") s ≡ false
unfolding starts_with
starts_with-HasNoEquals [] [] h = refl
starts_with-HasNoEquals [] (c ∷ s) (hc, h) = ground arith
starts_with-HasNoEquals (a ∷ f) [] h = refl
starts_with-HasNoEquals (a ∷ f) (c ∷ s) (hc, h) = ground (arith, starts_with-HasNoEquals f s h)

split_first-HasNoEquals : (f s : Bytes) → HasNoEquals s → split_first (f ++ codes "=") s ≡ none
unfolding split_first
split_first-HasNoEquals f [] h = rw (starts_with-HasNoEquals f [] h) refl
split_first-HasNoEquals f (c ∷ s) (hc, h) =
    rw (starts_with-HasNoEquals f (c ∷ s) (hc, h), split_first-HasNoEquals f s h) refl

pub redact_form-HasNoEquals :
    (f : Bytes) (fuel : ℕ) (s : Bytes) → HasNoEquals s → redact_form (f ++ codes "=") fuel s ≡ s
unfolding redact_form
redact_form-HasNoEquals f zero s h = refl
redact_form-HasNoEquals f (suc fuel) s h = rw (split_first-HasNoEquals f s h, redact_form) refl
