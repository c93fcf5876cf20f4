-- ===== src/Browser/Session.antt =====
-- When a browser can be opened, by the directories that PATH lists.
use datazoo_oauth.Base.{
  any, ℕ, zero, suc, ◌≡◌, ◌≢◌, refl, ◌∙◌, ap, subst, Bool, true, false, ◌&&◌, ◌||◌, Option, none,
  some, List, [], ◌∷◌, ◌++◌, Bytes, length, length-append, take_until, after_first, starts_with,
  ◌==◌, All, arith, codes, inl, inr, Bool-cases, ◌<◌,
}
use datazoo_oauth.Browser.{
  Environment, is_set, has_opener, path_loop, search_path, can_open_browser,
}

-- The text of PATH for these directories.
abbrev pub join : Bytes → List Bytes → Bytes
join dir [] = dir
join dir (next ∷ dirs) = dir ++ (b':' ∷ join next dirs)

-- A directory that PATH can name.
abbrev pub HasNoColon : Bytes → Type 0
HasNoColon = All (λ c. c ≢ b':')

take_until-colon :
    (dir rest : Bytes)
    → HasNoColon dir
    → (take_until (λ c. c == b':') dir ≡ dir)
      × (take_until (λ c. c == b':') (dir ++ (b':' ∷ rest)) ≡ dir)
unfolding take_until
take_until-colon [] rest h = (refl, refl)
take_until-colon (c ∷ dir) rest (n, h) = ground (arith, take_until-colon dir rest h)

after_first-colon :
    (dir rest : Bytes)
    → HasNoColon dir
    → (after_first (codes ":") dir ≡ none)
      × (after_first (codes ":") (dir ++ (b':' ∷ rest)) ≡ some rest)
unfolding after_first starts_with
after_first-colon [] rest h = (refl, refl)
after_first-colon (c ∷ dir) rest (n, h) = ground (arith, after_first-colon dir rest h)

module _ (access : Bytes → Bool) where
  -- The rest of the search, if there is another directory.
  search_next : ℕ → Option Bytes → Bool
  search_next fuel none = false
  search_next fuel (some rest) = path_loop access fuel rest

  search_lem :
      (fuel : ℕ) (found : Bool) (next : Option Bytes)
      → elim found as (λ _. Bool) [
        | true ↦ true
        | false ↦ elim next as (λ _. Bool) [ none ↦ false | some r ↦ path_loop access fuel r ]
      ]
        ≡ (found || search_next fuel next)
  unfolding search_next
  search_lem fuel true next = refl
  search_lem fuel false none = refl
  search_lem fuel false (some r) = refl

  path_loop-step :
      (fuel : ℕ) (rest dir : Bytes) (next : Option Bytes)
      → take_until (λ c. c == b':') rest ≡ dir
      → after_first (codes ":") rest ≡ next
      → path_loop access (suc fuel) rest ≡ (has_opener access dir || search_next fuel next)
  unfolding path_loop search_next
  path_loop-step fuel rest dir next d n =
      subst (λ x. path_loop access (suc fuel) rest ≡ (has_opener access x || search_next fuel next))
        d
        (subst
          (λ x.
            path_loop access (suc fuel) rest
            ≡ (has_opener access (take_until (λ c. c == b':') rest) || search_next fuel x))
          n
          (search_lem fuel (has_opener access (take_until (λ c. c == b':') rest))
            (after_first (codes ":") rest)))

  path_loop-join :
      (fuel : ℕ) (dir : Bytes) (dirs : List Bytes)
      → HasNoColon dir
      → All HasNoColon dirs
      → length (join dir dirs) < fuel
      → path_loop access fuel (join dir dirs) ≡ any (has_opener access) (dir ∷ dirs)
  unfolding search_next
  path_loop-join zero dir dirs d ds h = elim h [ ]
  path_loop-join (suc fuel) dir [] d ds h =
      path_loop-step fuel dir dir none (take_until-colon dir [] d).0 (after_first-colon dir [] d).0
  path_loop-join (suc fuel) dir (next ∷ dirs) d (n, ds) h =
      path_loop-step fuel (join dir (next ∷ dirs)) dir (some (join next dirs))
        (take_until-colon dir (join next dirs) d).1 (after_first-colon dir (join next dirs) d).1
      ∙ ap (λ b. has_opener access dir || b)
          (path_loop-join fuel next dirs n ds
            (omega (arith, length-append dir (b':' ∷ join next dirs))))

-- With PATH the list of directories `dir ∷ dirs`, a browser can be opened exactly when DISPLAY or
-- WAYLAND_DISPLAY is set to a text that is not empty and one of the directories has a name and holds
-- an executable xdg-open; without PATH, never.
pub can_open_browser_lem :
    (e : Environment)
    → (e.path ≡ none → can_open_browser e ≡ false)
      × ((dir : Bytes) (dirs : List Bytes)
          → HasNoColon dir
          → All HasNoColon dirs
          → e.path ≡ some (join dir dirs)
          → can_open_browser e ≡ (
              (is_set e.display || is_set e.wayland_display)
              && any (has_opener e.access) (dir ∷ dirs)))
unfolding can_open_browser
can_open_browser_lem e = (
  λ h. elim (Bool-cases (is_set e.display || is_set e.wayland_display)) [
    | inl t ↦ rw (t, h, search_path) refl
    | inr f ↦ rw f refl
  ],
  λ dir dirs d ds h. elim (Bool-cases (is_set e.display || is_set e.wayland_display)) [
    | inl t ↦
        rw (t, h, search_path)
          (path_loop-join e.access (suc (length (join dir dirs))) dir dirs d ds (omega arith))
    | inr f ↦ rw f refl
  ],
)
