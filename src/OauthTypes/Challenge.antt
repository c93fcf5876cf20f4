-- ===== src/OauthTypes/Challenge.antt =====
-- The S256 challenge is base64url of the digest, by the generator's encoder.
use Prim.Native.Nat.{bit_or}
use datazoo_oauth.Base.{
  ℕ, zero, suc, ◌+◌, ◌*◌, ◌%◌, ◌<◌, ◌≡◌, refl, ap, sym, ◌∙◌, true, [], ◌∷◌, ◌++◌, append_assoc,
  append-nil, length-append, map, Bytes, IsBytes, get_or, length, arith, ◌==◌, ==_iff,
}
use datazoo_oauth.Base.Bits.{◌<<<◌, ◌>>>◌, bit_and_0x3f, bit_or_shifted}
use datazoo_oauth.Encoding
use datazoo_oauth.Encoding.{symbol, encode_buffer, triple}
use datazoo_oauth.Encoding.Token.{all_below, all_below_sound, symbol_lem, triple_lem}
use datazoo_oauth.OauthTypes.{
  generate_code_challenge_s256, chunk_loop, chunk_chars, last_chars, url_safe, base64_char, pick,
}

-- The alphabet after the replacement of `+` and `/`, symbol by symbol.
alphabet_table : all_below 64 (λ i. url_safe (pick i) == Encoding.pick i) ≡ true
unfolding all_below url_safe pick Encoding.pick
alphabet_table = refl

base64_char_lem : (i : ℕ) → base64_char i ≡ pick (i % 64)
unfolding base64_char
base64_char_lem i = ap pick (bit_and_0x3f i)

url_safe-base64_char : (i : ℕ) → url_safe (base64_char i) ≡ symbol i
url_safe-base64_char i =
    let same =
      all_below_sound 64 (λ j. url_safe (pick j) == Encoding.pick j) (i % 64) (omega arith)
        alphabet_table in
    ap url_safe (base64_char_lem i)
    ∙ (==_iff (url_safe (pick (i % 64))) (Encoding.pick (i % 64))).0 same
    ∙ sym (symbol_lem i)

-- The groups of three bytes that the loop reads.
groups : ℕ → Bytes → Bytes
groups zero bs = []
groups (suc r) (b0 ∷ b1 ∷ b2 ∷ bs) =
    chunk_chars (bit_or (bit_or (b0 <<< 16) (b1 <<< 8)) b2) ++ groups r bs
groups (suc r) bs = []

get_or-append :
    (xs ys : Bytes) (k i : ℕ) → i ≡ length xs + k → get_or (xs ++ ys) i 0 ≡ get_or ys k 0
get_or-append [] ys k i e = ap (λ j. get_or ys j 0) (omega arith)
get_or-append (x ∷ xs) ys k zero e = absurd (omega arith)
get_or-append (x ∷ xs) ys k (suc i) e = get_or-append xs ys k i (omega arith)

chunk_loop-groups :
    (r i : ℕ) (seen bs out : Bytes)
    → length seen ≡ i
    → length bs ≡ 3 * r + 2
    → chunk_loop r i (seen ++ bs) out ≡ out ++ groups r bs
unfolding chunk_loop groups
chunk_loop-groups zero i seen bs out at size = sym (append-nil out)
chunk_loop-groups (suc r) i seen (b0 ∷ b1 ∷ b2 ∷ bs) out at size =
    let hash = seen ++ (b0 ∷ b1 ∷ b2 ∷ bs) in
    let further =
      chunk_loop-groups r (i + 3) (seen ++ (b0 ∷ b1 ∷ b2 ∷ [])) bs
        (out ++ chunk_chars (bit_or (bit_or (b0 <<< 16) (b1 <<< 8)) b2))
        (omega (arith, length-append seen (b0 ∷ b1 ∷ b2 ∷ []))) (omega arith) in
    rw
      (
        get_or-append seen (b0 ∷ b1 ∷ b2 ∷ bs) 0 i (omega arith),
        get_or-append seen (b0 ∷ b1 ∷ b2 ∷ bs) 1 (i + 1) (omega arith),
        get_or-append seen (b0 ∷ b1 ∷ b2 ∷ bs) 2 (i + 2) (omega arith),
        ← append_assoc seen (b0 ∷ b1 ∷ b2 ∷ []) bs,
      )
      (further
        ∙ append_assoc out (chunk_chars (bit_or (bit_or (b0 <<< 16) (b1 <<< 8)) b2)) (groups r bs))
chunk_loop-groups (suc r) i seen [] out at size = absurd (omega arith)
chunk_loop-groups (suc r) i seen (b0 ∷ []) out at size = absurd (omega arith)
chunk_loop-groups (suc r) i seen (b0 ∷ b1 ∷ []) out at size = absurd (omega arith)

symbol-mod : (i j : ℕ) → i % 64 ≡ j % 64 → symbol i ≡ symbol j
symbol-mod i j e = symbol_lem i ∙ ap Encoding.pick e ∙ sym (symbol_lem j)

char_lem : (i j : ℕ) → i % 64 ≡ j % 64 → url_safe (base64_char i) ≡ symbol j
char_lem i j e = url_safe-base64_char i ∙ symbol-mod i j e

last_chars_lem :
    (b0 b1 : ℕ)
    → b1 < 256
    → map url_safe (last_chars (bit_or (b0 <<< 8) b1)) ≡ encode_buffer (b0 ∷ b1 ∷ [])
unfolding last_chars encode_buffer
last_chars_lem b0 b1 small =
    let chunk = bit_or (b0 <<< 8) b1 in
    let t = triple b0 b1 0 in
    let value : chunk ≡ b0 * 256 + b1 = bit_or_shifted 8 b0 b1 small in
    let wide : t ≡ b0 * 65536 + b1 * 256 + 0 = triple_lem b0 b1 0 small (omega arith) in
    let first = char_lem (chunk >>> 10) (t >>> 18) (omega arith) in
    let second = char_lem (chunk >>> 4) (t >>> 12) (omega arith) in
    let third = char_lem (chunk <<< 2) (t >>> 6) (omega arith) in cc

shift :
    (b0 b1 b2 : ℕ) (bs : Bytes) (r k : ℕ)
    → get_or (b0 ∷ b1 ∷ b2 ∷ bs) (3 * suc r + k) 0 ≡ get_or bs (3 * r + k) 0
shift b0 b1 b2 bs r k =
    get_or-append (b0 ∷ b1 ∷ b2 ∷ []) bs (3 * r + k) (3 * suc r + k) (omega arith)

groups-encode_buffer :
    (r : ℕ) (bs : Bytes)
    → length bs ≡ 3 * r + 2
    → IsBytes bs
    → map url_safe (
        groups r bs
        ++ last_chars (bit_or (get_or bs (3 * r + 0) 0 <<< 8) (get_or bs (3 * r + 1) 0)))
      ≡ encode_buffer bs
unfolding groups chunk_chars encode_buffer
groups-encode_buffer zero (b0 ∷ b1 ∷ []) size (_, small) = last_chars_lem b0 b1 small.0
groups-encode_buffer zero [] size small = absurd (omega arith)
groups-encode_buffer zero (b0 ∷ []) size small = absurd (omega arith)
groups-encode_buffer zero (b0 ∷ b1 ∷ b2 ∷ bs) size small = absurd (omega arith)
groups-encode_buffer (suc r) [] size small = absurd (omega arith)
groups-encode_buffer (suc r) (b0 ∷ []) size small = absurd (omega arith)
groups-encode_buffer (suc r) (b0 ∷ b1 ∷ []) size small = absurd (omega arith)
groups-encode_buffer (suc r) (b0 ∷ b1 ∷ b2 ∷ bs) size (_, (_, (_, small))) =
    let chunk = triple b0 b1 b2 in
    let more = groups-encode_buffer r bs (omega arith) small in
    let shift0 = shift b0 b1 b2 bs r 0 in
    let shift1 = shift b0 b1 b2 bs r 1 in
    let e0 = url_safe-base64_char (chunk >>> 18) in
    let e1 = url_safe-base64_char (chunk >>> 12) in
    let e2 = url_safe-base64_char (chunk >>> 6) in let e3 = url_safe-base64_char chunk in cc

-- For a digest of 32 bytes the S256 challenge is its base64url text without padding, by the encoder
-- that also writes the verifier and the state.
pub generate_code_challenge_s256_lem :
    (sha256 : Bytes → Bytes) (code_verifier : Bytes)
    → length (sha256 code_verifier) ≡ 32
    → IsBytes (sha256 code_verifier)
    → generate_code_challenge_s256 sha256 code_verifier ≡ encode_buffer (sha256 code_verifier)
unfolding generate_code_challenge_s256
generate_code_challenge_s256_lem sha256 code_verifier size bytes =
    let hash = sha256 code_verifier in
    let last = bit_or (get_or hash 30 0 <<< 8) (get_or hash 31 0) in
    ap (λ t. map url_safe (t ++ last_chars last)) (chunk_loop-groups 10 0 [] hash [] refl size)
    ∙ groups-encode_buffer 10 hash size bytes
