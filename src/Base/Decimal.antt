-- ===== src/Base/Decimal.antt =====
-- std::to_string and std::stoll in base 10.
use Prim.Native.Nat.{ℕ, zero, suc, ◌+◌, ◌-◌, ◌*◌, ◌/◌, ◌%◌, ◌^◌, ◌<◌}
use mathlib.Core.Path.{◌≡◌, refl, ap, ◌∙◌}
use mathlib.Core.Logic.{inl, inr}
use mathlib.Core.Bool.{Bool, true, false, ◌&&◌, ◌||◌}
use mathlib.Core.Option.{Option, none, some}
use mathlib.Core.List.{[], ◌∷◌}
use native.Mathlib.Omega.{arith}
use datazoo_oauth.Base.Tests.{leb, ltb, ◌==◌, if◌then◌else◌, Bool-cases}
use datazoo_oauth.Base.Text.{Bytes}
use datazoo_oauth.Base.Int.{ℤ, pos, negsuc}

digits : ℕ → ℕ → Bytes → Bytes
digits zero n out = out
digits (suc fuel) n out =
    let out' = (b'0' + n % 10) ∷ out in
    let more = digits fuel (n / 10) out' in if n / 10 == 0 then out' else more

-- The number of rounds is at most the number.
unfoldable pub to_string : ℕ → Bytes
unfolding digits
to_string n = digits (suc n) n []

abbrev pub is_digit : ℕ → Bool
is_digit c = leb b'0' c && leb c b'9'

-- The digits at the front, read behind the number `acc`.
read_digits : ℕ → Bytes → ℕ
read_digits acc [] = acc
read_digits acc (c ∷ s) = if is_digit c then read_digits (acc * 10 + (c - b'0')) s else acc

-- `isspace` in the "C" locale.
abbrev is_space : ℕ → Bool
is_space c = c == 32 || (leb 9 c && leb c 13)

skip_space : Bytes → Bytes
skip_space [] = []
skip_space (c ∷ s) = if is_space c then skip_space s else c ∷ s

starts_digit : Bytes → Bool
starts_digit [] = false
starts_digit (c ∷ s) = is_digit c

-- `none` is std::invalid_argument or, beyond `limit`, std::out_of_range.
positive : ℕ → Bytes → Option ℤ
positive limit s =
    if starts_digit s && ltb (read_digits 0 s) limit then some (pos (read_digits 0 s)) else none

negative : ℕ → Bytes → Option ℤ
negative limit s =
    if starts_digit s && leb (read_digits 0 s) limit
    then some (if read_digits 0 s == 0 then pos 0 else negsuc (read_digits 0 s - 1))
    else none

signed : ℕ → Bytes → Option ℤ
unfolding positive negative
signed limit [] = none
signed limit (c ∷ s) =
    if c == b'-'
    then negative limit s
    else if c == b'+'
    then positive limit s
    else positive limit (c ∷ s)

unfoldable pub stoll : Bytes → Option ℤ
unfolding signed skip_space starts_digit read_digits
stoll s = signed (2 ^ 63) (skip_space s)

unfoldable pub stoi : Bytes → Option ℤ
unfolding signed skip_space starts_digit read_digits
stoi s = signed (2 ^ 31) (skip_space s)

read_digits-digits :
    (fuel n : ℕ) (out : Bytes) → n < fuel → read_digits 0 (digits fuel n out) ≡ read_digits n out
unfolding read_digits digits
read_digits-digits zero n out h = absurd (omega arith)
read_digits-digits (suc fuel) n out h = elim (Bool-cases (n / 10 == 0)) [
  | inl last ↦ rw last (ground arith)
  | inr more ↦
      rw more
        (read_digits-digits fuel (n / 10) ((b'0' + n % 10) ∷ out) (ground arith) ∙ ground arith)
]

read_digits-nil : (n : ℕ) → read_digits n [] ≡ n
unfolding read_digits
read_digits-nil n = refl

abbrev IsNumber : Bytes → Type 0
IsNumber [] = ⊥
IsNumber (c ∷ s) = is_digit c ≡ true

digits-IsNumber : (fuel n : ℕ) (out : Bytes) → 0 < fuel → IsNumber (digits fuel n out)
unfolding digits
digits-IsNumber zero n out h = absurd (omega arith)
digits-IsNumber (suc zero) n out h = elim (Bool-cases (n / 10 == 0)) [
  | inl last ↦ rw last (ground arith)
  | inr more ↦ rw more (ground arith)
]
digits-IsNumber (suc (suc fuel)) n out h = elim (Bool-cases (n / 10 == 0)) [
  | inl last ↦ rw last (ground arith)
  | inr more ↦ rw more (digits-IsNumber (suc fuel) (n / 10) ((b'0' + n % 10) ∷ out) (omega arith))
]

stoll_number :
    (s : Bytes) → IsNumber s → read_digits 0 s < 2 ^ 63 → stoll s ≡ some (pos (read_digits 0 s))
unfolding stoll
stoll_number [] h b = absurd h
stoll_number (c ∷ s) h b = ground arith

-- A printed number is read back.
pub stoll-to_string : (n : ℕ) → n < 2 ^ 63 → stoll (to_string n) ≡ some (pos n)
stoll-to_string n h =
    let text = digits (suc n) n [] in
    let value : read_digits 0 text ≡ n =
      read_digits-digits (suc n) n [] (omega arith) ∙ read_digits-nil n in
    let fits : read_digits 0 text < 2 ^ 63 = omega arith in
    unfold to_string in
    stoll_number text (digits-IsNumber (suc n) n [] (omega arith)) fits
    ∙ ap (λ v. some (pos v)) value
