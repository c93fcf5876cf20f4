-- ===== src/Encoding/Token.antt =====
-- Base64url of random bytes: its decoder, its length and its alphabet.
use Prim.Native.Nat.{bit_or}
use datazoo_oauth.Base.{
  ℕ, zero, suc, ◌+◌, ◌-◌, ◌*◌, ◌/◌, ◌%◌, ◌^◌, ◌<◌, ◌≡◌, refl, ap, Bool, true, false, ◌&&◌, Option,
  none, some, [], ◌∷◌, Bytes, IsBytes, All, leb, ◌==◌, if◌then◌else◌, length, arith, ok,
  Option-cases, inl, inr, subst,
}
use datazoo_oauth.Base.Bits.{bit_or_shifted, bit_and_0x3f}
use datazoo_oauth.Encoding.{
  is_unreserved, pick, symbol, triple, encode_buffer, generate_secure_random_token,
}

-- The value of a base64url character (RFC 4648, section 5).
symbol_value : ℕ → Option ℕ
symbol_value c =
    if leb b'A' c && leb c b'Z'
    then some (c - b'A')
    else if leb b'a' c && leb c b'z'
    then some (c - b'a' + 26)
    else if leb b'0' c && leb c b'9'
    then some (c - b'0' + 52)
    else if c == b'-'
    then some 62
    else if c == b'_'
    then some 63
    else none

abbrev bind : Option ℕ → (ℕ → Option Bytes) → Option Bytes
bind none f = none
bind (some v) f = f v

-- Bytes from groups of six bits; no padding.
pub decode_base64url : Bytes → Option Bytes
decode_base64url [] = some []
decode_base64url (c0 ∷ []) = none
decode_base64url (c0 ∷ c1 ∷ []) =
    bind (symbol_value c0) λ v0. bind (symbol_value c1) λ v1. some (((v0 * 64 + v1) / 16) ∷ [])
decode_base64url (c0 ∷ c1 ∷ c2 ∷ []) = bind (symbol_value c0) λ v0. bind (symbol_value c1) λ v1.
    bind (symbol_value c2)
      λ v2. let w = (v0 * 64 + v1) * 64 + v2 in some ((w / 1024) ∷ (w / 4 % 256) ∷ [])
decode_base64url (c0 ∷ c1 ∷ c2 ∷ c3 ∷ rest) =
    let tail = decode_base64url rest in
    bind (symbol_value c0) λ v0. bind (symbol_value c1) λ v1. bind (symbol_value c2) λ v2.
      bind (symbol_value c3) λ v3.
        let w = ((v0 * 64 + v1) * 64 + v2) * 64 + v3 in
        elim tail [ none ↦ none | some bs ↦ some ((w / 65536) ∷ (w / 256 % 256) ∷ (w % 256) ∷ bs) ]

-- A test of every number below a limit.
unfoldable pub all_below : ℕ → (ℕ → Bool) → Bool
all_below (suc limit) test = all_below limit test && test limit
all_below zero test = true

pub all_below_sound :
    (limit : ℕ) (test : ℕ → Bool) (i : ℕ) → i < limit → all_below limit test ≡ true → test i ≡ true
unfolding all_below
all_below_sound (suc limit) test i below passed = ground (arith, all_below_sound limit test i)
all_below_sound zero test i below passed = absurd (omega arith)

is_value : Option ℕ → ℕ → Bool
is_value none v = false
is_value (some w) v = w == v

-- The 64 symbols, checked one by one.
symbol_table :
    all_below 64 (λ i. is_value (symbol_value (pick i)) i && is_unreserved (pick i)) ≡ true
unfolding all_below is_value symbol_value pick
symbol_table = refl

pick_facts : (i : ℕ) → i < 64 → (symbol_value (pick i) ≡ some i) × (is_unreserved (pick i) ≡ true)
unfolding is_value
pick_facts i h = ground (
  arith,
  all_below_sound 64 (λ (i : ℕ). is_value (symbol_value (pick i)) i && is_unreserved (pick i)) i h
      symbol_table,
)

pub symbol_lem : (i : ℕ) → symbol i ≡ pick (i % 64)
unfolding symbol
symbol_lem i = ap pick (bit_and_0x3f i)

symbol_value-symbol : (i : ℕ) → symbol_value (symbol i) ≡ some (i % 64)
symbol_value-symbol i = rw (symbol_lem i) (pick_facts (i % 64) (omega arith)).0

symbol-is_unreserved : (i : ℕ) → is_unreserved (symbol i) ≡ true
symbol-is_unreserved i = rw (symbol_lem i) (pick_facts (i % 64) (omega arith)).1

pub triple_lem : (b0 b1 b2 : ℕ) → b1 < 256 → b2 < 256 → triple b0 b1 b2 ≡ b0 * 65536 + b1 * 256 + b2
unfolding triple
triple_lem b0 b1 b2 h1 h2 =
    rw (bit_or_shifted 16 b0 (b1 * 256) (omega arith))
      (omega (arith, bit_or_shifted 8 (b0 * 256 + b1) b2 (omega arith), regroup))
  where
    regroup : bit_or (b0 * 65536 + b1 * 256) b2 ≡ bit_or ((b0 * 256 + b1) * 256) b2
    regroup = ap (λ (t : ℕ). bit_or t b2) (omega arith)

-- Decoding a token gives the random bytes back: the encoding loses none of them.
decode-encode_buffer : (bs : Bytes) → IsBytes bs → decode_base64url (encode_buffer bs) ≡ some bs
unfolding encode_buffer decode_base64url
decode-encode_buffer [] h = refl
decode-encode_buffer (b0 ∷ []) h =
    let t = triple b0 0 0 in
    ground (
      arith,
      symbol_value-symbol (t / 2 ^ 18),
      symbol_value-symbol (t / 2 ^ 12),
      triple_lem b0 0 0 (omega arith) (omega arith),
    )
decode-encode_buffer (b0 ∷ b1 ∷ []) h =
    let t = triple b0 b1 0 in
    ground (
      arith,
      symbol_value-symbol (t / 2 ^ 18),
      symbol_value-symbol (t / 2 ^ 12),
      symbol_value-symbol (t / 2 ^ 6),
      triple_lem b0 b1 0 (omega arith) (omega arith),
    )
decode-encode_buffer (b0 ∷ b1 ∷ b2 ∷ rest) h =
    let t = triple b0 b1 b2 in
    ground (
      arith,
      symbol_value-symbol (t / 2 ^ 18),
      symbol_value-symbol (t / 2 ^ 12),
      symbol_value-symbol (t / 2 ^ 6),
      symbol_value-symbol t,
      triple_lem b0 b1 b2 (omega arith) (omega arith),
      decode-encode_buffer rest h.1.1.1,
    )

abbrev pub IsUnreserved : ℕ → Type 0
IsUnreserved c = is_unreserved c ≡ true

encode_buffer-IsUnreserved : (bs : Bytes) → All IsUnreserved (encode_buffer bs)
unfolding encode_buffer
encode_buffer-IsUnreserved [] = tt
encode_buffer-IsUnreserved (b0 ∷ []) = search symbol-is_unreserved
encode_buffer-IsUnreserved (b0 ∷ b1 ∷ []) = search symbol-is_unreserved
encode_buffer-IsUnreserved (b0 ∷ b1 ∷ b2 ∷ rest) =
    search (symbol-is_unreserved, encode_buffer-IsUnreserved rest)

-- ceil(8 n / 6) characters.
length-encode_buffer : (bs : Bytes) → length (encode_buffer bs) ≡ (length bs * 4 + 2) / 3
unfolding encode_buffer
length-encode_buffer [] = refl
length-encode_buffer (b0 ∷ []) = refl
length-encode_buffer (b0 ∷ b1 ∷ []) = refl
length-encode_buffer (b0 ∷ b1 ∷ b2 ∷ rest) = omega (arith, length-encode_buffer rest)

-- What RAND_bytes documents: on success it has filled the whole buffer.
pub record IsRandomSource (rand_bytes : ℕ → Option Bytes) : Type 0 where
  pub fills : (n : ℕ) (b : Bytes) → rand_bytes n ≡ some b → (length b ≡ n) × IsBytes b

-- A generated token has the length of `num_bytes` in base64url, is made of unreserved
-- characters, and holds the drawn bytes, all of them.
pub generate_secure_random_token_lem :
    (rand_bytes : ℕ → Option Bytes) (num_bytes : ℕ) (token : Bytes)
    → IsRandomSource rand_bytes
    → generate_secure_random_token rand_bytes num_bytes ≡ ok token
    → (length token ≡ (num_bytes * 4 + 2) / 3)
      × All IsUnreserved token
      × ((b : Bytes) × (rand_bytes num_bytes ≡ some b) × (decode_base64url token ≡ some b))
unfolding generate_secure_random_token
generate_secure_random_token_lem rand_bytes num_bytes token src h =
    elim (Option-cases (rand_bytes num_bytes)) [
      | inl e ↦ absurd (ground arith)
      | inr (b, e) ↦
          let (size, bytes) = src.fills num_bytes b e in
          let made : encode_buffer b ≡ token = ground arith in
          (
            ground (arith, length-encode_buffer b),
            subst (All IsUnreserved) made (encode_buffer-IsUnreserved b),
            (b, e, rw (← made) (decode-encode_buffer b bytes)),
          )
    ]
