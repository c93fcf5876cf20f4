-- ===== src/Http/Paths.antt =====
-- HttpUrl::PopPath and HttpUrl::MergePaths in src/http_client.cpp. A std::filesystem::path is its text
-- in POSIX form, read as the C++ standard says: the elements over which a path iterates, `/=`,
-- `is_absolute`, `parent_path` and `lexically_normal`.
pub mod Overlap
use mathlib.Core.List.{reverse}
use datazoo_oauth.Base.{
  ℕ, ◌+◌, Bool, true, false, not, ◌&&◌, ◌||◌, List, [], ◌∷◌, ◌++◌, Bytes, codes, is_empty, eqb,
  length, drop, ◌==◌, if◌then◌else◌,
}
use datazoo_oauth.Http.Url.{HttpUrl}

unfoldable pub is_absolute : Bytes → Bool
is_absolute [] = false
is_absolute (c ∷ s) = c == b'/'

-- The text ends in a separator.
ends_in_separator : Bytes → Bool
ends_in_separator [] = false
ends_in_separator (c ∷ []) = c == b'/'
ends_in_separator (c ∷ (d ∷ s)) = ends_in_separator (d ∷ s)

-- A byte in front of the elements that follow, the first of which it belongs to.
push_byte : ℕ → List Bytes → List Bytes
push_byte c [] = (c ∷ []) ∷ []
push_byte c (e ∷ es) = (c ∷ e) ∷ es

-- The pieces between separators, empty ones included.
split_path : Bytes → List Bytes
unfolding push_byte
split_path [] = [] ∷ []
split_path (c ∷ s) = let rest = split_path s in if c == b'/' then [] ∷ rest else push_byte c rest

names_only : List Bytes → List Bytes
names_only [] = []
names_only (e ∷ es) = if is_empty e then names_only es else e ∷ names_only es

-- The file names of a path.
unfoldable pub names_of : Bytes → List Bytes
unfolding split_path names_only
names_of p = names_only (split_path p)

-- The elements of a path: the root directory, the names, and an empty one behind a last separator.
unfoldable pub parts : Bytes → List Bytes
unfolding names_of is_absolute ends_in_separator
parts p =
    (if is_absolute p then codes "/" ∷ [] else [])
    ++ (names_of p ++ (if not (is_empty (names_of p)) && ends_in_separator p then [] ∷ [] else []))

-- `p /= q`
unfoldable pub append_path : Bytes → Bytes → Bytes
unfolding is_absolute ends_in_separator
append_path p q =
    if is_absolute q
    then q
    else if is_empty p || ends_in_separator p
    then p ++ q
    else p ++ (b'/' ∷ q)

unfoldable pub append_all : Bytes → List Bytes → Bytes
unfolding append_path
append_all p [] = p
append_all p (e ∷ es) = append_all (append_path p e) es

-- The names that are kept, the last one first, and whether the last step left a directory.
normal_step : Bool → List Bytes → Bytes → List Bytes × Bool
normal_step absolute [] e =
    if eqb e (codes ".")
    then ([], true)
    else if eqb e (codes "..")
    then (if absolute then ([], true) else (e ∷ [], false))
    else (e ∷ [], false)
normal_step absolute (t ∷ stack) e =
    if eqb e (codes ".")
    then (t ∷ stack, true)
    else if eqb e (codes "..")
    then (if eqb t (codes "..") then (e ∷ (t ∷ stack), false) else (stack, true))
    else (e ∷ (t ∷ stack), false)

normal_names : Bool → List Bytes × Bool → List Bytes → List Bytes × Bool
unfolding normal_step
normal_names absolute kept [] = kept
normal_names absolute kept (e ∷ es) = normal_names absolute (normal_step absolute kept.0 e) es

-- The names in order, joined by separators; the flag asks for one more at the end.
joined : List Bytes → Bytes → Bytes
joined [] out = out
joined (e ∷ es) out = joined es (if is_empty out then e else e ++ (b'/' ∷ out))

ends_in_dot_dot : List Bytes → Bool
ends_in_dot_dot [] = false
ends_in_dot_dot (t ∷ stack) = eqb t (codes "..")

-- The text of the kept names.
normal_text : Bool → Bool → List Bytes × Bool → Bytes
unfolding joined ends_in_dot_dot
normal_text absolute trailing kept =
    if is_empty kept.0
    then (if absolute then codes "/" else codes ".")
    else (if absolute then codes "/" else [])
      ++ (joined kept.0 []
          ++ (if (trailing || kept.1) && not (ends_in_dot_dot kept.0) then codes "/" else []))

unfoldable pub lexically_normal : Bytes → Bytes
unfolding names_of normal_names normal_text is_absolute ends_in_separator
lexically_normal p =
    if is_empty p
    then []
    else normal_text (is_absolute p) (ends_in_separator p)
        (normal_names (is_absolute p) ([], false) (names_of p))

-- How many leading elements agree.
common : List Bytes → List Bytes → ℕ
common [] rel = 0
common (b ∷ bs) [] = 0
common (b ∷ bs) (r ∷ rel) = if eqb b r then common bs rel + 1 else 0

-- The loop over the places of the base where an overlap may start.
unfoldable pub overlap : List Bytes → List Bytes → ℕ
unfolding common
overlap [] rel = 0
overlap (b ∷ bs) rel =
    let rest = overlap bs rel in
    if common (b ∷ bs) rel == length (b ∷ bs) then common (b ∷ bs) rel else rest

unfoldable pub merge_paths : Bytes → Bytes → Bytes
unfolding is_absolute
merge_paths base_path rel_path =
    if is_absolute rel_path
    then lexically_normal rel_path
    else lexically_normal (
        append_all (append_all [] (parts base_path))
          (drop (overlap (parts base_path) (parts rel_path)) (parts rel_path)))

drop_until : (ℕ → Bool) → Bytes → Bytes
drop_until stop [] = []
drop_until stop (c ∷ s) = if stop c then c ∷ s else drop_until stop s

-- On the text read backwards: without the last element, and without the separators before it unless
-- they are the root directory.
without_last : Bytes → Bytes
unfolding drop_until
without_last backwards =
    let left = drop_until (λ c. c == b'/') backwards in
    if is_empty (drop_until (λ c. not (c == b'/')) left)
    then left
    else drop_until (λ c. not (c == b'/')) left

unfoldable pub parent_path : Bytes → Bytes
unfolding without_last
parent_path p = if is_empty (names_of p) then p else reverse (without_last (reverse p))

unfoldable pub pop_path : HttpUrl → HttpUrl
pop_path url = record url { path = parent_path url.path }
