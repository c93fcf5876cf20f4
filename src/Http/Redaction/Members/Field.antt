-- ===== src/Http/Redaction/Members/Field.antt =====
-- What RedactBody makes of a JSON body for one field: the form pass leaves it, the other stars the values
-- of the members of that name.
use datazoo_oauth.Base.{
  not, suc, ◌≤◌, ◌≡◌, ◌≢◌, refl, ◌∙◌, ap, Bool, true, false, ◌&&◌, ◌||◌, Bool-cases, inl, inr, List,
  [], ◌∷◌, ◌++◌, map, Bytes, codes, length, length-append, all, eqb, if◌then◌else◌, All, All-append,
  arith,
}
use datazoo_oauth.Http.Redaction.{is_gap, redact_json, redact_form, redact_field, stars}
use datazoo_oauth.Http.Redaction.Json.Scan.{redact_json-strings}
use datazoo_oauth.Http.Redaction.Json.{
  HasNoEquals, IsEnd, End, done, in_string, behind, end_text, named_after, starred_end, IsName,
  IsText, strings, starred, redact_form-HasNoEquals,
}
use datazoo_oauth.Http.Redaction.Members.{
  Member, text, other, Ending, plain, valued, ending_parts, ending_end, parts, members_text, json,
  IsPart, IsMember, EndHasNoEquals, IsEnding, IsStart, hidden, hidden_ending,
}

-- A value is not taken for a name.
value_not_named :
    (f n v g d : Bytes)
    → all is_gap d ≡ false
    → (not (eqb f n && all is_gap g) && (eqb f v && all is_gap d)) ≡ false
value_not_named f n v g d more = ground arith

starred-parts :
    (f : Bytes) (ms : List Member) (rest : List (Bytes × Bytes))
    → All IsMember ms
    → starred f false (parts ms rest) ≡ parts (map (hidden (f ∷ [])) ms) (starred f false rest)
starred-parts f [] rest h = refl
starred-parts f (text n g v d ∷ ms) rest ((hn, hv, gap, more), h) =
    let is_named : (eqb f n && all is_gap g) ≡ (eqb f n || false) = ground arith in
    (λ i.
      (n, g)
      ∷ ((if is_named i then stars else v, d)
          ∷ starred f (value_not_named f n v g d more i) (parts ms rest)))
    ∙ ap (λ ps. (n, g) ∷ ((if eqb f n || false then stars else v, d) ∷ ps))
        (starred-parts f ms rest h)
starred-parts f (other s c ∷ ms) rest ((hs, more), h) =
    let not_named : (eqb f s && all is_gap c) ≡ false = ground arith in
    rw not_named (ap (λ ps. (s, c) ∷ ps) (starred-parts f ms rest h))

named_after-parts :
    (f : Bytes) (ms : List Member) (rest : List (Bytes × Bytes))
    → All IsMember ms
    → named_after f false (parts ms rest) ≡ named_after f false rest
named_after-parts f [] rest h = refl
named_after-parts f (text n g v d ∷ ms) rest ((hn, hv, gap, more), h) =
    ap (λ b. named_after f b (parts ms rest)) (value_not_named f n v g d more)
    ∙ named_after-parts f ms rest h
named_after-parts f (other s c ∷ ms) rest ((hs, more), h) =
    let not_named : (eqb f s && all is_gap c) ≡ false = ground arith in
    ap (λ b. named_after f b (parts ms rest)) not_named ∙ named_after-parts f ms rest h

pub starred_end-not : (e : End) → starred_end false e ≡ e
starred_end-not done = refl
starred_end-not (in_string t) = refl
starred_end-not (behind s c) = refl

starred-members :
    (f : Bytes) (ms : List Member) (x : Ending)
    → All IsMember ms
    → IsEnding x
    → strings
        (starred f false (parts ms (ending_parts x)))
        (starred_end (named_after f false (parts ms (ending_parts x))) (ending_end x))
      ≡ members_text (map (hidden (f ∷ [])) ms) (hidden_ending (f ∷ []) x)
starred-members f ms x h hx =
    (λ i.
      strings (starred-parts f ms (ending_parts x) h i)
        (starred_end (named_after-parts f ms (ending_parts x) h i) (ending_end x)))
    ∙ at_end x hx
  where
    at_end :
        (x : Ending)
        → IsEnding x
        → strings
            (parts (map (hidden (f ∷ [])) ms) (starred f false (ending_parts x)))
            (starred_end (named_after f false (ending_parts x)) (ending_end x))
          ≡ members_text (map (hidden (f ∷ [])) ms) (hidden_ending (f ∷ []) x)
    at_end (plain e) h = ap (strings (parts (map (hidden (f ∷ [])) ms) [])) (starred_end-not e)
    at_end (valued n g e) (hn, gap, he, no_equals) =
        let is_named : (eqb f n && all is_gap g) ≡ (eqb f n || false) = ground arith in
        rw is_named refl

pub hidden_ending-IsEnding :
    (f : Bytes) (x : Ending) → IsEnding x → IsEnding (hidden_ending (f ∷ []) x)
hidden_ending-IsEnding f (plain e) h = h
hidden_ending-IsEnding f (valued n g e) (hn, gap, he, no_equals) =
    let (end, equals) = starred_end-IsEnd (eqb f n || false) e he no_equals in
    (hn, gap, end, equals)
  where
    starred_end-IsEnd :
        (named : Bool) (e : End)
        → IsEnd e
        → EndHasNoEquals e
        → IsEnd (starred_end named e) × EndHasNoEquals (starred_end named e)
    starred_end-IsEnd named done h k = (tt, tt)
    starred_end-IsEnd false (in_string t) h k = (h, k)
    starred_end-IsEnd true (in_string t) h k = (omega arith, omega arith)
    starred_end-IsEnd false (behind s c) h k = (h, k)
    starred_end-IsEnd true (behind s c) h k = ((omega arith, h.1), (omega arith, k.1))

hidden-IsMember : (f : Bytes) (m : Member) → IsMember m → IsMember (hidden (f ∷ []) m)
hidden-IsMember f (text n g v d) (hn, ((hv, hd), ev, ed), gap, more) = elim (Bool-cases (eqb f n)) [
  | inl same ↦ rw same (hn, ((omega arith, hd), omega arith, ed), gap, more)
  | inr differs ↦ rw differs (hn, ((hv, hd), ev, ed), gap, more)
]
hidden-IsMember f (other s c) h = h

pub map-hidden-IsMember :
    (f : Bytes) (ms : List Member) → All IsMember ms → All IsMember (map (hidden (f ∷ [])) ms)
map-hidden-IsMember f [] h = tt
map-hidden-IsMember f (m ∷ ms) (hm, h) = (hidden-IsMember f m hm, map-hidden-IsMember f ms h)

parts-IsText :
    (ms : List Member) (x : Ending)
    → All IsMember ms
    → IsEnding x
    → All IsText (parts ms (ending_parts x)) × IsEnd (ending_end x)
parts-IsText [] (plain e) h hx = (tt, hx.0)
parts-IsText [] (valued n g e) h (hn, gap, he, no_equals) = ((hn.0, tt), he)
parts-IsText (text n g v d ∷ ms) x ((hn, hv, gap, more), h) hx =
    let (texts, end) = parts-IsText ms x h hx in ((hn.0, (hv.0, texts)), end)
parts-IsText (other s c ∷ ms) x ((hs, more), h) hx =
    let (texts, end) = parts-IsText ms x h hx in ((hs.0, texts), end)

part-HasNoEquals :
    (s c t : Bytes) → IsPart (s, c) → HasNoEquals t → HasNoEquals (b'"' ∷ (s ++ (b'"' ∷ (c ++ t))))
part-HasNoEquals s c t (texts, hs, hc) ht = (
  omega arith,
  All-append (λ x. x ≢ b'=') s (b'"' ∷ (c ++ t)) hs
      (omega arith, All-append (λ x. x ≢ b'=') c t hc ht),
)

end-HasNoEquals : (e : End) → EndHasNoEquals e → HasNoEquals (end_text e)
end-HasNoEquals done h = tt
end-HasNoEquals (in_string t) h = (omega arith, h)
end-HasNoEquals (behind s c) (hs, hc) =
    (omega arith, All-append (λ x. x ≢ b'=') s (b'"' ∷ c) hs (omega arith, hc))

members-HasNoEquals :
    (ms : List Member) (x : Ending) → All IsMember ms → IsEnding x → HasNoEquals (members_text ms x)
members-HasNoEquals [] (plain e) h hx = end-HasNoEquals e hx.1
members-HasNoEquals [] (valued n g e) h (hn, gap, he, no_equals) =
    part-HasNoEquals n g (end_text e) hn (end-HasNoEquals e no_equals)
members-HasNoEquals (text n g v d ∷ ms) x ((hn, hv, gap, more), h) hx =
    part-HasNoEquals n g (b'"' ∷ (v ++ (b'"' ∷ (d ++ members_text ms x)))) hn
      (part-HasNoEquals v d (members_text ms x) hv (members-HasNoEquals ms x h hx))
members-HasNoEquals (other s c ∷ ms) x ((hs, more), h) hx =
    part-HasNoEquals s c (members_text ms x) hs (members-HasNoEquals ms x h hx)

length-strings : (ps : List (Bytes × Bytes)) (e : End) → length ps ≤ length (strings ps e)
length-strings [] e = omega arith
length-strings ((s, c) ∷ ps) e = omega (
  arith,
  length-strings ps e,
  length-append s (b'"' ∷ (c ++ strings ps e)),
  length-append c (strings ps e),
)

pub redact_field-json :
    (f start : Bytes) (ms : List Member) (x : Ending)
    → IsName f
    → IsStart start
    → All IsMember ms
    → IsEnding x
    → redact_field f (json start ms x)
      ≡ json start (map (hidden (f ∷ [])) ms) (hidden_ending (f ∷ []) x)
unfolding redact_field
redact_field-json f start ms x hf (quotes, equals) h hx =
    let body = json start ms x in
    let (texts, end) = parts-IsText ms x h hx in
    let unchanged : redact_form (f ++ codes "=") (suc (length body)) body ≡ body =
      redact_form-HasNoEquals f (suc (length body)) body (
        All-append (λ c. c ≢ b'=') start (members_text ms x) equals
          (members-HasNoEquals ms x h hx)) in
    ap (λ b. redact_json (b'"' ∷ (f ++ (b'"' ∷ []))) (suc (length b)) b) unchanged
    ∙ redact_json-strings f (suc (length body)) start (parts ms (ending_parts x)) (ending_end x) hf
        quotes texts end
        (omega (
          arith,
          length-strings (parts ms (ending_parts x)) (ending_end x),
          length-append start (members_text ms x),
        ))
    ∙ ap (λ t. start ++ t) (starred-members f ms x h hx)
