-- ===== src/Base/Text.antt =====
-- Byte strings as lists of numbers, with the members of std::string that the code uses.
use Prim.Native.Nat.{ℕ, ◌+◌, ◌<◌}
use Prim.Native.Char.{code}
use Prim.Native.String.{String}
use mathlib.Core.Path.{◌≡◌, refl}
use mathlib.Core.Logic.{◌↔◌}
use mathlib.Core.Bool.{Bool, true, false, ◌&&◌, ◌||◌}
use mathlib.Core.Option.{Option, none, some}
use mathlib.Core.List.{List, [], ◌∷◌, map}
use native.Mathlib.Omega.{arith}
use datazoo_oauth.Base.Tests.{◌==◌, leb, ltb, if◌then◌else◌, ==_iff}
use datazoo_oauth.Base.Lists.{All, all, drop, length}

abbrev pub Bytes : Type 0
Bytes = List ℕ

-- The code points of a literal; these are its bytes when the text is ASCII.
abbrev pub codes : String → Bytes
codes String.[] = []
codes (String.◌∷◌ c s) = code c ∷ codes s

-- Every element is a value of `unsigned char`.
abbrev pub IsBytes : Bytes → Type 0
IsBytes = All (λ c. c < 256)

-- `operator==` of std::string.
unfoldable pub eqb : Bytes → Bytes → Bool
eqb [] [] = true
eqb [] (y ∷ ys) = false
eqb (x ∷ xs) [] = false
eqb (x ∷ xs) (y ∷ ys) = (x == y) && eqb xs ys

pub eqb_iff : (xs ys : Bytes) → (eqb xs ys ≡ true) ↔ (xs ≡ ys)
unfolding eqb
eqb_iff [] [] = (λ _. refl, λ _. refl)
eqb_iff [] (y ∷ ys) = (λ h. cc, λ h. cc)
eqb_iff (x ∷ xs) [] = (λ h. cc, λ h. cc)
eqb_iff (x ∷ xs) (y ∷ ys) = ground (arith, eqb_iff xs ys, ==_iff x y)

pub eqb_refl : (xs : Bytes) → eqb xs xs ≡ true
eqb_refl xs = (eqb_iff xs xs).1 refl

unfoldable pub starts_with : Bytes → Bytes → Bool
starts_with [] s = true
starts_with (x ∷ p) [] = false
starts_with (x ∷ p) (y ∷ s) = (x == y) && starts_with p s

-- `s.find(p) != npos`, with the pattern first.
unfoldable pub contains : Bytes → Bytes → Bool
unfolding starts_with
contains p [] = starts_with p []
contains p (y ∷ s) = starts_with p (y ∷ s) || contains p s

-- What follows the first place of the pattern, if it has one.
unfoldable pub after_first : Bytes → Bytes → Option Bytes
unfolding starts_with
after_first p [] = if starts_with p [] then some [] else none
after_first p (y ∷ s) =
    let rest = after_first p s in
    if starts_with p (y ∷ s) then some (drop (length p) (y ∷ s)) else rest

-- The bytes before the first one that the test picks, all of them if there is none.
unfoldable pub take_until : (ℕ → Bool) → Bytes → Bytes
take_until stop [] = []
take_until stop (c ∷ s) = if stop c then [] else c ∷ take_until stop s

abbrev is_upper : ℕ → Bool
is_upper c = leb b'A' c && leb c b'Z'

-- `std::tolower` in the "C" locale.
unfoldable pub lower : ℕ → ℕ
lower c = if is_upper c then c + 32 else c

unfoldable pub to_lower : Bytes → Bytes
unfolding lower
to_lower s = map lower s

-- A literal's bytes are checked one by one.
pub IsBytes-literal : (s : Bytes) → all (λ c. ltb c 256) s ≡ true → IsBytes s
IsBytes-literal [] h = tt
IsBytes-literal (c ∷ s) h = ground (arith, IsBytes-literal s)
