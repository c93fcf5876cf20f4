-- ===== src/Http/Paths/Overlap.antt =====
-- Merging shares the longest overlap of the two paths.
use datazoo_oauth.Base.{
  ◌≤◌, ◌≡◌, ◌≢◌, refl, sym, ap, ◌∙◌, true, false, Bool-cases, inl, inr, List, [], ◌∷◌, ◌++◌, Bytes,
  eqb, eqb_iff, length, length-append, drop, drop-append, ◌==◌, arith,
}
use datazoo_oauth.Http.Paths.{
  is_absolute, parts, append_all, lexically_normal, common, overlap, merge_paths,
}

-- `base` ends in the elements `shared`, and `rel` starts with them.
abbrev pub Shares : List Bytes → List Bytes → List Bytes → Type 0
Shares base rel shared =
    ((front : List Bytes) × (base ≡ front ++ shared))
    × ((rest : List Bytes) × (rel ≡ shared ++ rest))

-- They are the most elements of which this is true.
abbrev pub SharesMost : List Bytes → List Bytes → List Bytes → Type 0
SharesMost base rel shared =
    Shares base rel shared
    × ((other : List Bytes) → Shares base rel other → length other ≤ length shared)

common-append : (bs rest : List Bytes) → common bs (bs ++ rest) ≡ length bs
unfolding common
common-append [] rest = refl
common-append (b ∷ bs) rest = ground (arith, eqb_iff b b, common-append bs rest)

common-full :
    (bs rel : List Bytes) → common bs rel ≡ length bs → (rest : List Bytes) × (rel ≡ bs ++ rest)
unfolding common
common-full [] rel h = (rel, refl)
common-full (b ∷ bs) [] h = absurd (omega arith)
common-full (b ∷ bs) (r ∷ rel) h = elim (Bool-cases (eqb b r)) [
  | inl same ↦
      let (rest, e) = common-full bs rel (ground arith) in (rest, ground (arith, eqb_iff b r))
  | inr other ↦ absurd (ground arith)
]

Shares-length :
    (base rel shared : List Bytes) → Shares base rel shared → length shared ≤ length base
Shares-length base rel shared ((front, e), _) =
    omega (arith, ap length e, length-append front shared)

-- An overlap that does not start at the first element starts later.
Shares-tail :
    (b : Bytes) (bs rel other : List Bytes)
    → common (b ∷ bs) rel ≢ length (b ∷ bs)
    → Shares (b ∷ bs) rel other
    → Shares bs rel other
Shares-tail b bs rel other differs (([], e), (rest, starts)) = absurd (
    differs
      (ap (common (b ∷ bs)) (starts ∙ ap (λ s. s ++ rest) (sym e)) ∙ common-append (b ∷ bs) rest))
Shares-tail b bs rel other differs ((x ∷ front, e), starts) = ((front, cc e), starts)

overlap-SharesMost :
    (base rel : List Bytes)
    → (shared : List Bytes) × SharesMost base rel shared × (overlap base rel ≡ length shared)
unfolding overlap
overlap-SharesMost [] rel =
    ([], ((([], refl), (rel, refl)), λ other h. Shares-length [] rel other h), refl)
overlap-SharesMost (b ∷ bs) rel = elim (Bool-cases (common (b ∷ bs) rel == length (b ∷ bs))) [
  | inl full ↦ rw full (
      let agree : common (b ∷ bs) rel ≡ length (b ∷ bs) = ground arith in
      (
        b ∷ bs,
        (
          (([], refl), common-full (b ∷ bs) rel agree),
          λ other h. Shares-length (b ∷ bs) rel other h,
        ),
        agree,
      ))
  | inr differs ↦
      let (shared, (((front, e), starts), most), size) = overlap-SharesMost bs rel in
      rw differs (
        shared,
        (
          ((b ∷ front, ap (λ s. b ∷ s) e), starts),
          λ other h. most other (Shares-tail b bs rel other (ground arith) h),
        ),
        size,
      )
]

-- A relative path is merged onto a base by appending to the base what is left of the path behind the
-- most elements that the base ends in and the path starts with, in normal form. An absolute path
-- takes the place of the base, in normal form.
pub merge_paths_lem :
    (base rel : Bytes)
    → (is_absolute rel ≡ true → merge_paths base rel ≡ lexically_normal rel)
      × (is_absolute rel ≡ false
          → (shared : List Bytes) × (rest : List Bytes) × SharesMost (parts base) (parts rel) shared
            × (parts rel ≡ shared ++ rest)
            × (merge_paths base rel
                ≡ lexically_normal (append_all (append_all [] (parts base)) rest)))
unfolding merge_paths
merge_paths_lem base rel = (
  λ absolute. rw absolute refl,
  λ relative.
      let (shared, most, size) = overlap-SharesMost (parts base) (parts rel) in
      let (rest, e) = most.0.1 in
      (
        shared,
        rest,
        most,
        e,
        rw relative (
            ap (λ l. lexically_normal (append_all (append_all [] (parts base)) l))
              (ap (λ k. drop k (parts rel)) size
                ∙ ap (drop (length shared)) e
                ∙ drop-append shared rest)),
      ),
)
