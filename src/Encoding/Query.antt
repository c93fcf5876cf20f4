-- ===== src/Encoding/Query.antt =====
-- The form parser of application/x-www-form-urlencoded, and the lists of parameters it reads back.
use datazoo_oauth.Base.{
  ℕ, ◌≢◌, ◌≡◌, refl, ap, ◌∙◌, Bool, true, false, Option, none, some, List, [], ◌∷◌, ◌++◌,
  append-nil, map, Bytes, IsBytes, All, All-append, ◌<◌, All-append, ◌<◌, ◌==◌, if◌then◌else◌,
  arith,
}
use datazoo_oauth.Encoding.{url_encode}
use datazoo_oauth.Encoding.Form.{
  url_decode, plain, url_decode-url_encode, IsSafe, url_encode-IsSafe,
}

abbrev Split : Type 0
Split = (Bytes × Bytes) × List (Bytes × Bytes)

push_name : Bytes → Split → Split
push_name n ((m, v), rest) = ((n ++ m, v), rest)

push_value : Bytes → Split → Split
push_value w ((m, v), rest) = ((m, w ++ v), rest)

-- Names end at the first `=`, pairs at `&`.
split : Bool → Bytes → Split
unfolding push_name push_value
split in_value [] = (([], []), [])
split in_value (c ∷ s) =
    let (next, others) = split false s in
    let value = split true s in
    let name = split false s in
    if c == b'&'
    then (([], []), next ∷ others)
    else if in_value
    then push_value (c ∷ []) value
    else if c == b'='
    then value
    else push_name (c ∷ []) name

decode_pair : Bytes × Bytes → Option (Bytes × Bytes)
decode_pair (n, v) = elim (url_decode plain n) [
  | none ↦ none
  | some name ↦ elim (url_decode plain v) [ none ↦ none | some value ↦ some (name, value) ]
]

decode_pairs : List (Bytes × Bytes) → Option (List (Bytes × Bytes))
unfolding decode_pair
decode_pairs [] = some []
decode_pairs (p ∷ ps) = elim (decode_pair p) [
  | none ↦ none
  | some q ↦ elim (decode_pairs ps) [ none ↦ none | some qs ↦ some (q ∷ qs) ]
]

-- The parameters of a query or a form body.
unfoldable pub parse_form : Bytes → Option (List (Bytes × Bytes))
unfolding split decode_pairs
parse_form s = let (first, rest) = split false s in decode_pairs (first ∷ rest)

-- `&k=v` for each parameter.
unfoldable pub encode_tail : List (Bytes × Bytes) → Bytes
encode_tail [] = []
encode_tail ((k, v) ∷ ps) = b'&' ∷ (url_encode k ++ (b'=' ∷ (url_encode v ++ encode_tail ps)))

unfoldable pub encode_pairs : Bytes × Bytes → List (Bytes × Bytes) → Bytes
encode_pairs (k, v) ps = url_encode k ++ (b'=' ∷ (url_encode v ++ encode_tail ps))

abbrev pub IsPair : Bytes × Bytes → Type 0
IsPair p = IsBytes p.0 × IsBytes p.1

encoded : Bytes × Bytes → Bytes × Bytes
encoded p = (url_encode p.0, url_encode p.1)

split-value : (v s : Bytes) → All IsSafe v → split true (v ++ s) ≡ push_value v (split true s)
unfolding split push_value
split-value [] s h = refl
split-value (c ∷ v) s (h, hs) = rw (split-value v s hs) (ground arith)

split-name :
    (n s : Bytes) → All IsSafe n → split false (n ++ (b'=' ∷ s)) ≡ push_name n (split true s)
unfolding split push_name
split-name [] s h = refl
split-name (c ∷ n) s (h, hs) = rw (split-name n s hs) (ground arith)

split-pair :
    (k v s : Bytes)
    → IsBytes k
    → IsBytes v
    → split false (url_encode k ++ (b'=' ∷ (url_encode v ++ s)))
      ≡ push_name (url_encode k) (push_value (url_encode v) (split true s))
split-pair k v s hk hv =
    split-name (url_encode k) (url_encode v ++ s) (url_encode-IsSafe k hk)
    ∙ ap (push_name (url_encode k)) (split-value (url_encode v) s (url_encode-IsSafe v hv))

split-encode_tail :
    (ps : List (Bytes × Bytes))
    → All IsPair ps
    → split true (encode_tail ps) ≡ (([], []), map encoded ps)
unfolding split encode_tail push_name push_value encoded
split-encode_tail [] h = refl
split-encode_tail ((k, v) ∷ ps) ((hk, hv), hs) =
    rw
      (
        split-pair k v (encode_tail ps) hk hv,
        split-encode_tail ps hs,
        append-nil (url_encode k),
        append-nil (url_encode v),
      )
      refl

decode_pair-encoded : (p : Bytes × Bytes) → IsPair p → decode_pair (encoded p) ≡ some p
unfolding encoded decode_pair
decode_pair-encoded p (hk, hv) =
    rw (decode_pair, url_decode-url_encode p.0 hk, url_decode-url_encode p.1 hv) refl

decode_pairs-encoded :
    (ps : List (Bytes × Bytes)) → All IsPair ps → decode_pairs (map encoded ps) ≡ some ps
unfolding decode_pairs
decode_pairs-encoded [] h = refl
decode_pairs-encoded (p ∷ ps) (h, hs) =
    rw (decode_pairs, decode_pair-encoded p h, decode_pairs-encoded ps hs) refl

pub parse_form-encode_pairs :
    (p : Bytes × Bytes) (ps : List (Bytes × Bytes))
    → IsPair p
    → All IsPair ps
    → parse_form (encode_pairs p ps) ≡ some (p ∷ ps)
unfolding parse_form encode_pairs push_name push_value encoded
parse_form-encode_pairs p ps h hs =
    rw
      (
        split-pair p.0 p.1 (encode_tail ps) h.0 h.1,
        split-encode_tail ps hs,
        append-nil (url_encode p.0),
        append-nil (url_encode p.1),
      )
      (decode_pairs-encoded ((p.0, p.1) ∷ ps) (h, hs))

-- What may stand in the query of a URI, without a fragment or a second `?`.
abbrev pub IsQueryByte : ℕ → Type 0
IsQueryByte c = (c ≢ b'#') × (c ≢ b'?') × (32 < c) × (c < 127)

safe-IsQueryByte : (s : Bytes) → All IsSafe s → All IsQueryByte s
safe-IsQueryByte [] h = tt
safe-IsQueryByte (c ∷ s) ((_, _, a, b, d, e), hs) = ((a, b, d, e), safe-IsQueryByte s hs)

query-url_encode : (s : Bytes) → IsBytes s → All IsQueryByte (url_encode s)
query-url_encode s h = safe-IsQueryByte (url_encode s) (url_encode-IsSafe s h)

encode_tail-IsQueryByte :
    (ps : List (Bytes × Bytes)) → All IsPair ps → All IsQueryByte (encode_tail ps)
unfolding encode_tail
encode_tail-IsQueryByte [] h = tt
encode_tail-IsQueryByte ((k, v) ∷ ps) ((hk, hv), hs) =
    let after_value =
      All-append IsQueryByte (url_encode v) (encode_tail ps) (query-url_encode v hv)
        (encode_tail-IsQueryByte ps hs) in
    (
      ground arith,
      All-append IsQueryByte (url_encode k) (b'=' ∷ (url_encode v ++ encode_tail ps))
          (query-url_encode k hk) (ground arith, after_value),
    )

pub encode_pairs-IsQueryByte :
    (p : Bytes × Bytes) (ps : List (Bytes × Bytes))
    → IsPair p
    → All IsPair ps
    → All IsQueryByte (encode_pairs p ps)
unfolding encode_pairs encode_tail
encode_pairs-IsQueryByte p ps h hs = (encode_tail-IsQueryByte (p ∷ ps) (h, hs)).1
