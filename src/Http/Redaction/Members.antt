-- ===== src/Http/Redaction/Members.antt =====
-- What RedactBody shows of a JSON body, member by member.
pub mod Field
pub mod Shown
pub mod Cuts
pub mod Alike
use datazoo_oauth.Base.{
  not, suc, ◌≤◌, ◌≡◌, ◌≢◌, refl, ◌∙◌, ap, sym, Bool, true, false, ◌&&◌, ◌||◌, Bool-cases, inl, inr,
  List, [], ◌∷◌, ◌++◌, map, Bytes, codes, length, length-append, all, eqb, if◌then◌else◌, All,
  All-append, arith,
}
use datazoo_oauth.Http.Redaction.{
  is_gap, redact_json, redact_form, redact_field, redact_fields, redact_body, sensitive_body_fields,
  stars,
}
use datazoo_oauth.Http.Redaction.Json.Scan.{redact_json-strings}
use datazoo_oauth.Http.Redaction.Json.{
  HasNoQuote, HasNoEquals, IsEnd, End, done, in_string, behind, end_text, named_after, starred_end,
  IsName, IsText, strings, starred, redact_form-HasNoEquals,
}

-- A member whose value is a string: the name and what stands behind it, the value and what stands
-- behind it. Any other string, with what stands behind it.
pub data Member : Type 0 where
  text : Bytes → Bytes → Bytes → Bytes → Member
  other : Bytes → Bytes → Member

-- How a body ends: behind a member, or in or behind the value of a name.
pub data Ending : Type 0 where
  plain : End → Ending
  valued : Bytes → Bytes → End → Ending

abbrev pub ending_parts : Ending → List (Bytes × Bytes)
ending_parts (plain e) = []
ending_parts (valued n g e) = (n, g) ∷ []

abbrev pub ending_end : Ending → End
ending_end (plain e) = e
ending_end (valued n g e) = e

abbrev pub parts : List Member → List (Bytes × Bytes) → List (Bytes × Bytes)
parts [] rest = rest
parts (text n g v d ∷ ms) rest = (n, g) ∷ ((v, d) ∷ parts ms rest)
parts (other s c ∷ ms) rest = (s, c) ∷ parts ms rest

abbrev pub members_text : List Member → Ending → Bytes
members_text ms x = strings (parts ms (ending_parts x)) (ending_end x)

-- A body with its members, behind what opens it.
abbrev pub json : Bytes → List Member → Ending → Bytes
json start ms x = start ++ members_text ms x

abbrev pub IsPart : Bytes × Bytes → Type 0
IsPart (s, c) = IsText (s, c) × HasNoEquals s × HasNoEquals c

-- Only spaces and the colon stand between a name and its value, and more behind any other string; no
-- string holds a quote, and nothing is an equals sign.
abbrev pub IsMember : Member → Type 0
IsMember (text n g v d) =
    IsPart (n, g) × IsPart (v, d) × (all is_gap g ≡ true) × (all is_gap d ≡ false)
IsMember (other s c) = IsPart (s, c) × (all is_gap c ≡ false)

abbrev pub EndHasNoEquals : End → Type 0
EndHasNoEquals done = Unit
EndHasNoEquals (in_string t) = HasNoEquals t
EndHasNoEquals (behind s c) = HasNoEquals s × HasNoEquals c

abbrev pub IsEnding : Ending → Type 0
IsEnding (plain e) = IsEnd e × EndHasNoEquals e
IsEnding (valued n g e) = IsPart (n, g) × (all is_gap g ≡ true) × IsEnd e × EndHasNoEquals e

abbrev pub is_any : List Bytes → Bytes → Bool
is_any [] n = false
is_any (f ∷ fs) n = eqb f n || is_any fs n

-- The value of a member whose name is one of the fields is starred.
abbrev pub hidden : List Bytes → Member → Member
hidden fs (text n g v d) = text n g (if is_any fs n then stars else v) d
hidden fs (other s c) = other s c

abbrev pub hidden_ending : List Bytes → Ending → Ending
hidden_ending fs (plain e) = plain e
hidden_ending fs (valued n g e) = valued n g (starred_end (is_any fs n) e)

-- What opens a body.
abbrev pub IsStart : Bytes → Type 0
IsStart s = HasNoQuote s × HasNoEquals s
