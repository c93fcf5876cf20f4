-- ===== src/Http/Repro/Literal.antt =====
-- What DuckDB reads where the command has a literal.
use datazoo_oauth.Base.{
  ℕ, ◌≡◌, ◌≢◌, refl, ◌∙◌, ap, true, false, Bool-cases, inl, inr, Option, none, some, [], ◌∷◌, ◌++◌,
  Bytes, ◌==◌, if◌then◌else◌, arith,
}
use datazoo_oauth.Http.Repro.{quote, escape_sql}

abbrev prepend : ℕ → Option (Bytes × Bytes) → Option (Bytes × Bytes)
prepend c none = none
prepend c (some (s, rest)) = some (c ∷ s, rest)

-- SQL's reading of a literal after its opening quote: two quotes stand for one, and a quote by itself
-- ends it. The text, and what follows.
pub read_literal : Bytes → Option (Bytes × Bytes)
read_literal [] = none
read_literal (c ∷ []) = if c == quote then some ([], []) else none
read_literal (c ∷ (d ∷ s)) = elim (c == quote) [
  | false ↦ prepend c (read_literal (d ∷ s))
  | true ↦ elim (d == quote) [ true ↦ prepend quote (read_literal s) | false ↦ some ([], d ∷ s) ]
]

-- What may follow a literal: nothing, or a byte that is no quote.
abbrev pub EndsLiteral : Bytes → Type 0
EndsLiteral [] = Unit
EndsLiteral (c ∷ s) = c ≢ quote

read_literal-end : (rest : Bytes) → EndsLiteral rest → read_literal (quote ∷ rest) ≡ some ([], rest)
unfolding read_literal
read_literal-end [] h = refl
read_literal-end (c ∷ s) h = ground arith

read_literal-other :
    (c : ℕ) (s : Bytes) → c ≢ quote → s ≢ [] → read_literal (c ∷ s) ≡ prepend c (read_literal s)
unfolding read_literal
read_literal-other c [] h n = absurd (n refl)
read_literal-other c (d ∷ s) h n =
    let other : (c == quote) ≡ false = ground arith in rw (other, read_literal) refl

read_literal-quote :
    (s : Bytes) → read_literal (quote ∷ (quote ∷ s)) ≡ prepend quote (read_literal s)
unfolding read_literal
read_literal-quote s = refl

append-ne-nil : (xs ys : Bytes) (y : ℕ) → (xs ++ (y ∷ ys)) ≢ []
append-ne-nil [] ys y h = cc
append-ne-nil (x ∷ xs) ys y h = cc

-- A literal of the command is read as exactly the text that it quotes, and the reading goes on right
-- behind it, whatever the text holds; so no text of a request ends its literal.
pub read_literal-escape_sql :
    (s rest : Bytes)
    → EndsLiteral rest
    → read_literal (escape_sql s ++ (quote ∷ rest)) ≡ some (s, rest)
unfolding escape_sql
read_literal-escape_sql [] rest h = read_literal-end rest h
read_literal-escape_sql (c ∷ s) rest h = elim (Bool-cases (c == quote)) [
  | inl q ↦
      let same : c ≡ quote = ground arith in
      rw same (
        read_literal-quote (escape_sql s ++ (quote ∷ rest))
        ∙ ap (prepend quote) (read_literal-escape_sql s rest h))
  | inr other ↦ rw other (
      read_literal-other c (escape_sql s ++ (quote ∷ rest)) (ground arith)
        (append-ne-nil (escape_sql s) rest quote)
      ∙ ap (prepend c) (read_literal-escape_sql s rest h))
]
