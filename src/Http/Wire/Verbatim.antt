-- ===== src/Http/Wire/Verbatim.antt =====
-- Which request line leaves for the socket.
use datazoo_oauth.Base.{
  ℕ, ◌+◌, ◌-◌, ◌≡◌, refl, true, false, [], ◌∷◌, ◌++◌, Bytes, length, drop-append, get_or,
  length-append, starts_with, eqb_refl, ltb, lt→ltb, Bool, subst, ◌==◌, ◌&&◌, ◌||◌, arith,
  append_assoc,
}
use datazoo_oauth.Http.Wire.{
  http_version_suffix, request_line, expected_prefix, ends_with, is_untouched_request_line,
  write_verbatim_target,
}

starts_with-append : (p s : Bytes) → starts_with p (p ++ s) ≡ true
unfolding starts_with
starts_with-append [] s = refl
starts_with-append (c ∷ p) s = ground (arith, starts_with-append p s)

get_or-append : (p s : Bytes) (c d : ℕ) → get_or (p ++ (c ∷ s)) (length p) d ≡ c
get_or-append [] s c d = refl
get_or-append (x ∷ p) s c d = get_or-append p s c d

ends_with-append : (p s : Bytes) → ends_with s (p ++ s) ≡ true
unfolding ends_with
ends_with-append p s =
    let n : length (p ++ s) - length s ≡ length p = omega (arith, length-append p s) in
    rw (n, drop-append p s) (eqb_refl s)

all_four :
    (a b c d : Bool) → a ≡ true → b ≡ true → c ≡ true → d ≡ true → (a && (b && (c && d))) ≡ true
all_four a b c d p q r t = ground arith

-- A line with a query between the prefix and the version.
with_query :
    (prefix query : Bytes)
    → is_untouched_request_line prefix (prefix ++ (b'?' ∷ (query ++ http_version_suffix))) ≡ true
unfolding is_untouched_request_line
with_query prefix query =
    let line = prefix ++ (b'?' ∷ (query ++ http_version_suffix)) in
    all_four (ltb (length prefix + length http_version_suffix) (length line))
      (starts_with prefix line)
      (get_or line (length prefix) 0 == b'?' || get_or line (length prefix) 0 == b' ')
      (ends_with http_version_suffix line)
      (lt→ltb _ _ (
        omega (
          arith,
          length-append prefix (b'?' ∷ (query ++ http_version_suffix)),
          length-append query http_version_suffix,
        )))
      (starts_with-append prefix (b'?' ∷ (query ++ http_version_suffix)))
      (rw (get_or-append prefix (query ++ http_version_suffix) b'?' 0) refl)
      (subst (λ l. ends_with http_version_suffix l ≡ true)
        (append_assoc prefix (b'?' ∷ query) http_version_suffix)
        (ends_with-append (prefix ++ (b'?' ∷ query)) http_version_suffix))

-- The request line that leaves is the composed one, whatever query httplib has written behind the
-- method and the path of the target. A composed line that httplib left alone stays as it is, and so
-- does every line that starts with another method or path.
pub write_verbatim_target_lem :
    (method target : Bytes)
    → ((query : Bytes)
        → write_verbatim_target method target
            (expected_prefix method target ++ (b'?' ∷ (query ++ http_version_suffix)))
          ≡ request_line method target)
      × (write_verbatim_target method target (request_line method target)
          ≡ request_line method target)
      × ((line : Bytes)
          → starts_with (expected_prefix method target) line ≡ false
          → write_verbatim_target method target line ≡ line)
unfolding write_verbatim_target
write_verbatim_target_lem method target = (
  λ query. rw (with_query (expected_prefix method target) query) refl,
  ground arith,
  λ line other. ground arith,
)
