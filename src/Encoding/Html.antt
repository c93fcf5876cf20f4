-- ===== src/Encoding/Html.antt =====
-- HTML escaping against a reader of character references.
use datazoo_oauth.Base.{
  ℕ, ◌≡◌, ◌≢◌, refl, Option, none, some, [], ◌∷◌, ◌++◌, Bytes, codes, eqb, All, All-append, ◌==◌,
  if◌then◌else◌, arith,
}
use datazoo_oauth.Encoding.{escape_byte, escape_html_text}

-- The character that a reference `&name;` stands for.
entity : Bytes → Option ℕ
entity name =
    if eqb name (codes "amp")
    then some b'&'
    else if eqb name (codes "lt")
    then some b'<'
    else if eqb name (codes "gt")
    then some b'>'
    else if eqb name (codes "quot")
    then some 34
    else if eqb name (codes "#39")
    then some 39
    else none

abbrev push : ℕ → Option Bytes → Option Bytes
push c none = none
push c (some s) = some (c ∷ s)

-- The text that markup without tags shows, with the reference that is being read, if any.
pub rendered : Option Bytes → Bytes → Option Bytes
unfolding entity eqb
rendered none [] = some []
rendered (some name) [] = none
rendered none (c ∷ s) =
    let reference = rendered (some []) s in
    let rest = rendered none s in
    if c == b'&' then reference else if c == b'<' then none else push c rest
rendered (some name) (c ∷ s) =
    let more = rendered (some (name ++ c ∷ [])) s in
    let rest = rendered none s in
    if c == b';' then elim (entity name) [ none ↦ none | some d ↦ push d rest ] else more

rendered-escape_byte :
    (c : ℕ) (s : Bytes) → rendered none (escape_byte c ++ s) ≡ push c (rendered none s)
unfolding rendered escape_byte
rendered-escape_byte c s = ground arith

-- A browser shows the escaped text as the original, and meets no tag in it.
pub rendered-escape_html_text : (s : Bytes) → rendered none (escape_html_text s) ≡ some s
unfolding escape_html_text
rendered-escape_html_text [] = unfold rendered in refl
rendered-escape_html_text (c ∷ s) =
    rw (rendered-escape_byte c (escape_html_text s), rendered-escape_html_text s)

-- None of the characters that begin or end markup.
abbrev pub IsInert : ℕ → Type 0
IsInert c = (c ≢ b'<') × (c ≢ b'>') × (c ≢ 34) × (c ≢ 39)

escape_byte-IsInert : (c : ℕ) → All IsInert (escape_byte c)
unfolding escape_byte
escape_byte-IsInert c = ground arith

pub escape_html_text-IsInert : (s : Bytes) → All IsInert (escape_html_text s)
unfolding escape_html_text
escape_html_text-IsInert [] = tt
escape_html_text-IsInert (c ∷ s) =
    All-append IsInert (escape_byte c) (escape_html_text s) (escape_byte-IsInert c)
      (escape_html_text-IsInert s)
