-- ===== src/Http/Redaction/Members/Cuts.antt =====
-- A JSON body that is cut before it is shown, as the traces of responses cut it.
use datazoo_oauth.Base.{
  ℕ, zero, suc, ◌+◌, ◌≤◌, ◌≡◌, ◌≢◌, refl, ap, ◌∙◌, true, inl, inr, ◌⊎◌, List, [], ◌∷◌, ◌++◌, map,
  Bytes, length, take, take_within, take_beyond, place_cases, All, All-take, arith,
}
use datazoo_oauth.Http.Redaction.{sensitive_body_fields}
use datazoo_oauth.Http.Redaction.Json.{
  IsBetween, IsBehind, End, starred_end, done, in_string, behind,
}
use datazoo_oauth.Http.Redaction.Members.{
  Member, text, other, Ending, plain, valued, members_text, IsPart, IsMember, IsEnding, is_any,
  hidden, hidden_ending,
}

-- Where a cut of `k` bytes lies in a string of `a` bytes in quotes and the `b` bytes behind it.
pub data Place (k a b : ℕ) : Type 0 where
  before : k ≡ 0 → Place k a b
  in_it : (j : ℕ) → k ≡ suc j → j ≤ a → Place k a b
  behind_it : (j : ℕ) → k ≡ suc (a + suc j) → j ≤ b → Place k a b
  beyond : (j : ℕ) → k ≡ suc (a + suc (b + suc j)) → Place k a b

pub place : (k a b : ℕ) → Place k a b
place zero a b = before refl
place (suc k) a b = elim (place_cases k a) [
  | inl within ↦ in_it k refl within
  | inr (d, e) ↦ elim (place_cases d b) [
    | inl within ↦ behind_it d (omega arith) within
    | inr (j, e') ↦ beyond j (omega arith)
  ]
]

abbrev pub string_text : Bytes → Bytes → Bytes → Bytes
string_text s c t = b'"' ∷ (s ++ (b'"' ∷ (c ++ t)))

take-in_it :
    (k j : ℕ) (s c t : Bytes)
    → k ≡ suc j
    → j ≤ length s
    → take k (string_text s c t) ≡ b'"' ∷ take j s
take-in_it k j s c t e within =
    ap (λ (n : ℕ). take n (b'"' ∷ (s ++ (b'"' ∷ (c ++ t))))) e
    ∙ ap (λ u. b'"' ∷ u) (take_within j s (b'"' ∷ (c ++ t)) within)

take-behind_it :
    (k j : ℕ) (s c t : Bytes)
    → k ≡ suc (length s + suc j)
    → j ≤ length c
    → take k (string_text s c t) ≡ b'"' ∷ (s ++ (b'"' ∷ take j c))
take-behind_it k j s c t e within =
    ap (λ (n : ℕ). take n (b'"' ∷ (s ++ (b'"' ∷ (c ++ t))))) e
    ∙ ap (λ u. b'"' ∷ u)
        (take_beyond s (b'"' ∷ (c ++ t)) (length s + suc j) (suc j) refl
          ∙ ap (λ u. s ++ (b'"' ∷ u)) (take_within j c t within))

pub take-beyond :
    (k j : ℕ) (s c t : Bytes)
    → k ≡ suc (length s + suc (length c + j))
    → take k (string_text s c t) ≡ string_text s c (take j t)
take-beyond k j s c t e =
    ap (λ (n : ℕ). take n (b'"' ∷ (s ++ (b'"' ∷ (c ++ t))))) e
    ∙ ap (λ u. b'"' ∷ u)
        (take_beyond s (b'"' ∷ (c ++ t)) (length s + suc (length c + j)) (suc (length c + j)) refl
          ∙ ap (λ u. s ++ (b'"' ∷ u)) (take_beyond c t (length c + j) j refl))

IsBehind-take : (j : ℕ) (c : Bytes) → IsBetween c → IsBehind (take j c)
IsBehind-take j [] h = elim h [ ]
IsBehind-take zero (x ∷ c) h = tt
IsBehind-take (suc j) (x ∷ c) (letter, (unquoted, h)) =
    (letter, (unquoted, All-take (λ y. y ≢ b'"') j c h))

-- Two values of one length that are shown alike behind a name.
pub record Concealed (n v w : Bytes) : Type 0 where
  pub size : length v ≡ length w
  pub alike : (v ≡ w) ⊎ (is_any sensitive_body_fields n ≡ true)

-- What is left of two bodies, shown alike.
pub record Cut : Type 0 where
  pub left : List Member
  pub right : List Member
  pub left_ending : Ending
  pub right_ending : Ending
  pub left_IsMember : All IsMember left
  pub left_IsEnding : IsEnding left_ending
  pub right_IsMember : All IsMember right
  pub right_IsEnding : IsEnding right_ending
  pub members_alike :
      map (hidden sensitive_body_fields) left ≡ map (hidden sensitive_body_fields) right
  pub endings_alike :
      hidden_ending sensitive_body_fields left_ending
      ≡ hidden_ending sensitive_body_fields right_ending

abbrev pub CutAlike : Bytes → Bytes → Type 0
CutAlike s t =
    (k : Cut) × (s ≡ members_text k.left k.left_ending) × (t ≡ members_text k.right k.right_ending)

pub CutAlike-eq : {s t s' t' : Bytes} → s ≡ s' → t ≡ t' → CutAlike s' t' → CutAlike s t
CutAlike-eq p q (k, left, right) = (k, p ∙ left, q ∙ right)

CutAlike-ending :
    (x y : Ending)
    → IsEnding x
    → IsEnding y
    → hidden_ending sensitive_body_fields x ≡ hidden_ending sensitive_body_fields y
    → CutAlike (members_text [] x) (members_text [] y)
CutAlike-ending x y hx hy alike = (
  record {
    left = [];
    right = [];
    left_ending = x;
    right_ending = y;
    left_IsMember = tt;
    left_IsEnding = hx;
    right_IsMember = tt;
    right_IsEnding = hy;
    members_alike = refl;
    endings_alike = alike;
  },
  refl,
  refl,
)

pub CutAlike-nil : CutAlike [] []
CutAlike-nil = CutAlike-ending (plain done) (plain done) (tt, tt) (tt, tt) refl

pub CutAlike-other :
    (s c t u : Bytes)
    → IsMember (other s c)
    → CutAlike t u
    → CutAlike (string_text s c t) (string_text s c u)
CutAlike-other s c t u h (k, left, right) = (
  record k {
    left = other s c ∷ k.left;
    right = other s c ∷ k.right;
    left_IsMember = (h, k.left_IsMember);
    right_IsMember = (h, k.right_IsMember);
    members_alike = ap (λ ms. other s c ∷ ms) k.members_alike;
  },
  ap (λ r. b'"' ∷ (s ++ (b'"' ∷ (c ++ r)))) left,
  ap (λ r. b'"' ∷ (s ++ (b'"' ∷ (c ++ r)))) right,
)

hidden-Concealed :
    (n g v w d : Bytes)
    → Concealed n v w
    → hidden sensitive_body_fields (text n g v d) ≡ hidden sensitive_body_fields (text n g w d)
hidden-Concealed n g v w d h = elim h.alike [
  | inl e ↦ ap (λ u. hidden sensitive_body_fields (text n g u d)) e
  | inr starred ↦ rw starred refl
]

CutAlike-text :
    (n g v w d t u : Bytes)
    → IsMember (text n g v d)
    → IsMember (text n g w d)
    → Concealed n v w
    → CutAlike t u
    → CutAlike (string_text n g (string_text v d t)) (string_text n g (string_text w d u))
CutAlike-text n g v w d t u hv hw h (k, left, right) = (
  record k {
    left = text n g v d ∷ k.left;
    right = text n g w d ∷ k.right;
    left_IsMember = (hv, k.left_IsMember);
    right_IsMember = (hw, k.right_IsMember);
    members_alike = λ i. hidden-Concealed n g v w d h i ∷ k.members_alike i;
  },
  ap (λ r. string_text n g (string_text v d r)) left,
  ap (λ r. string_text n g (string_text w d r)) right,
)

-- A cut in a string that is no name of a member, or behind it.
pub CutAlike-plain :
    (k j : ℕ) (s c t u : Bytes)
    → (k ≡ suc j) × (j ≤ length s) ⊎ (k ≡ suc (length s + suc j)) × (j ≤ length c)
    → IsPart (s, c)
    → CutAlike (take k (string_text s c t)) (take k (string_text s c u))
CutAlike-plain k j s c t u (inl (e, within)) ((hs, hc), es, ec) =
    CutAlike-eq (take-in_it k j s c t e within) (take-in_it k j s c u e within) (
      CutAlike-ending (plain (in_string (take j s))) (plain (in_string (take j s)))
        (All-take _ j s hs, All-take _ j s es) (All-take _ j s hs, All-take _ j s es) refl)
CutAlike-plain k j s c t u (inr (e, within)) ((hs, hc), es, ec) =
    let cut : IsEnding (plain (behind s (take j c))) =
      ((hs, IsBehind-take j c hc), (es, All-take _ j c ec)) in
    CutAlike-eq (take-behind_it k j s c t e within) (take-behind_it k j s c u e within)
      (CutAlike-ending (plain (behind s (take j c))) (plain (behind s (take j c))) cut cut refl)

ending-Concealed :
    (n g v w : Bytes) (end : Bytes → End)
    → starred_end true (end v) ≡ starred_end true (end w)
    → Concealed n v w
    → hidden_ending sensitive_body_fields (valued n g (end v))
      ≡ hidden_ending sensitive_body_fields (valued n g (end w))
ending-Concealed n g v w end stars_it h = elim h.alike [
  | inl e ↦ ap (λ u. hidden_ending sensitive_body_fields (valued n g (end u))) e
  | inr starred ↦ ap (valued n g) (rw starred (stars_it))
]

-- A cut in the value of a member, or behind it.
pub CutAlike-value :
    (k : ℕ) (n g v w d t u : Bytes)
    → IsMember (text n g v d)
    → IsMember (text n g w d)
    → Concealed n v w
    → ((j : ℕ) → CutAlike (take j t) (take j u))
    → CutAlike
        (string_text n g (take (suc k) (string_text v d t)))
        (string_text n g (take (suc k) (string_text w d u)))
CutAlike-value k n g v w d t u (hn, ((hv, hd), ev, ed), gap, more)
      (hn', ((hw, hd'), ew, ed'), gap', more') h go =
    let name = string_text n g in
    elim (place (suc k) (length v) (length d)) [
      | before e ↦ absurd (omega arith)
      | in_it j e within ↦
          CutAlike-eq (ap name (take-in_it (suc k) j v d t e within))
            (ap name (take-in_it (suc k) j w d u e (omega (arith, h.size))))
            (CutAlike-ending (valued n g (in_string (take j v))) (valued n g (in_string (take j w)))
              (hn, gap, All-take _ j v hv, All-take _ j v ev)
              (hn, gap, All-take _ j w hw, All-take _ j w ew)
              (ending-Concealed n g v w (λ s. in_string (take j s)) refl h))
      | behind_it j e within ↦
          CutAlike-eq (ap name (take-behind_it (suc k) j v d t e within))
            (ap name (take-behind_it (suc k) j w d u (omega (arith, h.size)) within))
            (CutAlike-ending (valued n g (behind v (take j d))) (valued n g (behind w (take j d)))
              (hn, gap, (hv, IsBehind-take j d hd), (ev, All-take _ j d ed))
              (hn, gap, (hw, IsBehind-take j d hd), (ew, All-take _ j d ed))
              (ending-Concealed n g v w (λ s. behind s (take j d)) refl h))
      | beyond j e ↦
          CutAlike-eq (ap name (take-beyond (suc k) (suc j) v d t e))
            (ap name (take-beyond (suc k) (suc j) w d u (omega (arith, h.size))))
            (CutAlike-text n g v w d (take (suc j) t) (take (suc j) u)
              (hn, ((hv, hd), ev, ed), gap, more) (hn', ((hw, hd'), ew, ed'), gap', more') h
              (go (suc j)))
    ]
