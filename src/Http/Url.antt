-- ===== src/Http/Url.antt =====
-- HttpUrl: the parser, which is one regular expression, the printers, and the tests on which the
-- treatment of redirects rests.
pub mod Origin
use datazoo_oauth.Base.{
  ℕ, Bool, true, false, not, ◌&&◌, ◌||◌, Option, none, some, List, [], ◌∷◌, ◌++◌, Bytes, codes, leb,
  ltb, ◌==◌, if◌then◌else◌, is_empty, length, take, drop, all, eqb, starts_with, contains, map,
  to_lower, Result, ok, err, runtime_error, ◌>>=◌,
}

pub record HttpUrl : Type 0 where
  pub scheme : Bytes
  pub host : Bytes
  pub port : Bytes
  pub path : Bytes
  pub query : Bytes
  pub fragment : Bytes
  pub username : Bytes
  pub password : Bytes

abbrev pub empty_url : HttpUrl
empty_url = record {
  scheme = [];
  host = [];
  port = [];
  path = [];
  query = [];
  fragment = [];
  username = [];
  password = [];
}

-- Matching with backtracking: what follows in the expression is the continuation.
abbrev Rest : Type 0
Rest = HttpUrl → Bytes → Option HttpUrl

abbrev or_else : Option HttpUrl → Option HttpUrl → Option HttpUrl
or_else (some u) o = some u
or_else none o = o

-- `[class]*`, the longest run first.
many : (ℕ → Bool) → (Bytes → Bytes → Option HttpUrl) → Bytes → Option HttpUrl
many p k [] = k [] []
many p k (c ∷ s) =
    let longer = many p (λ m r. k (c ∷ m) r) s in
    let stop = k [] (c ∷ s) in if p c then or_else longer stop else stop

-- `[class]+`
many1 : (ℕ → Bool) → (Bytes → Bytes → Option HttpUrl) → Bytes → Option HttpUrl
unfolding many
many1 p k [] = none
many1 p k (c ∷ s) = let longer = many p (λ m r. k (c ∷ m) r) s in if p c then longer else none

-- One literal character.
literal : ℕ → (Bytes → Option HttpUrl) → Bytes → Option HttpUrl
literal c k [] = none
literal c k (d ∷ s) = let next = k s in if c == d then next else none

abbrev is_none_of : Bytes → ℕ → Bool
is_none_of cs c = all (λ d. not (c == d)) cs

-- `regex_match` wants the whole text to be matched.
at_end : Rest
at_end u [] = some u
at_end u (c ∷ s) = none

-- `.`
abbrev not_newline : ℕ → Bool
not_newline = is_none_of (10 ∷ 13 ∷ [])

-- `(#.*)?`
match_fragment : Rest
unfolding literal many at_end
match_fragment u s =
    or_else (literal b'#' (many not_newline λ m. at_end (record u { fragment = b'#' ∷ m })) s)
      (at_end u s)

-- `(\?[^#]*)?`
match_query : Rest
unfolding literal many match_fragment
match_query u s =
    or_else
      (literal b'?'
        (many (is_none_of (codes "#")) λ m. match_fragment (record u { query = b'?' ∷ m })) s)
      (match_fragment u s)

-- `([^?#]*)`
match_path : Rest
unfolding many match_query
match_path u = many (is_none_of (codes "?#")) λ m. match_query (record u { path = m })

-- `(?::(\d+))?`
match_port : Rest
unfolding literal many1 match_path
match_port u s =
    or_else
      (literal b':' (many1 (λ c. leb b'0' c && leb c b'9') λ m. match_path (record u { port = m }))
        s)
      (match_path u s)

abbrev host_char : ℕ → Bool
host_char = is_none_of (codes ":/?#")

-- `([^:/?#]+)`
match_host : Rest
unfolding many1 match_port
match_host u = many1 host_char λ m. match_port (record u { host = m })

-- `(?::([^@/?#]*))?@`
match_password : Rest
unfolding literal many match_host
match_password u s =
    or_else
      (literal b':'
        (many (is_none_of (codes "@/?#"))
          λ m. literal b'@' (match_host (record u { password = m })))
        s)
      (literal b'@' (match_host u) s)

-- `(?://(([^:/?#]*)…@)?…)?`
match_authority : Rest
unfolding literal many match_password match_host match_path
match_authority u s =
    or_else
      (literal b'/'
        (literal b'/' λ t.
          or_else (many host_char (λ m. match_password (record u { username = m })) t)
            (match_host u t))
        s)
      (match_path u s)

-- `(?:(https?):)?` with the literal text of the scheme.
match_scheme : Bytes → Rest
unfolding literal match_authority starts_with
match_scheme name u s =
    let after =
      literal b':' (match_authority (record u { scheme = name })) (drop (length name) s) in
    if starts_with name s then after else none

unfoldable pub parse_url : Bytes → Result HttpUrl
unfolding match_scheme match_authority
parse_url url =
    elim (or_else (match_scheme (codes "https") empty_url url)
      (or_else (match_scheme (codes "http") empty_url url) (match_authority empty_url url))) [
        | none ↦ err (runtime_error (codes "Invalid URL, cannot be parsed"))
        | some u ↦ ok u
      ]

unfoldable pub to_scheme_host_and_port : HttpUrl → Bytes
to_scheme_host_and_port u =
    u.scheme ++ (codes "://" ++ (u.host ++ (if is_empty u.port then [] else b':' ∷ u.port)))

unfoldable pub to_path_query : HttpUrl → Bytes
to_path_query u = (if is_empty u.path then codes "/" else u.path) ++ u.query

unfoldable pub to_path_query_fragment : HttpUrl → Bytes
unfolding to_path_query
to_path_query_fragment u = to_path_query u ++ u.fragment

unfoldable pub to_string : HttpUrl → Bytes
unfolding to_scheme_host_and_port to_path_query_fragment
to_string u = to_scheme_host_and_port u ++ to_path_query_fragment u

unfoldable pub equals : HttpUrl → HttpUrl → Bool
equals u v =
    eqb (to_lower u.scheme) (to_lower v.scheme)
    && eqb (to_lower u.host) (to_lower v.host)
    && eqb u.port v.port
    && eqb u.path v.path
    && eqb u.query v.query
    && eqb u.fragment v.fragment
    && eqb u.username v.username
    && eqb u.password v.password

abbrev wire_safe : ℕ → Bool
wire_safe c = not (ltb c 0x20 || c == 0x7f || c == 32)

unfoldable pub is_wire_safe_target : HttpUrl → Bool
unfolding to_scheme_host_and_port to_path_query
is_wire_safe_target u = all wire_safe (to_scheme_host_and_port u ++ to_path_query u)

-- The lambda `effective_port`.
unfoldable pub effective_port : Bytes → Bytes → Bytes
effective_port scheme port =
    if not (is_empty port)
    then port
    else if eqb (to_lower scheme) (codes "https")
    then codes "443"
    else codes "80"

unfoldable pub is_same_origin : HttpUrl → HttpUrl → Bool
unfolding effective_port
is_same_origin u v =
    eqb (to_lower u.scheme) (to_lower v.scheme)
    && eqb (to_lower u.host) (to_lower v.host)
    && eqb (effective_port u.scheme u.port) (effective_port v.scheme v.port)

-- `SummariseUrlForMessage`
unfoldable pub summarise_url_for_message : Bytes → Bytes
summarise_url_for_message url =
    map (λ c. if ltb c 0x20 || c == 0x7f then b'?' else c) (take 120 url)
    ++ (if ltb 120 (length url) then codes "..." else [])

-- Everything up to a character, and what follows it, if it occurs.
cut : ℕ → Bytes → Bytes × Option Bytes
cut c [] = ([], none)
cut c (d ∷ s) = let rest = cut c s in if c == d then ([], some s) else (d ∷ rest.0, rest.1)

-- The second and the third group of `([^?#]*)(?:\?([^#]*))?(?:#(.*))?`.
split_relative : Bytes → Bytes × (Bytes × Option Bytes)
unfolding cut
split_relative s =
    let (front, fragment) = cut b'#' s in
    let (path, query) = cut b'?' front in
    (path, elim query [ none ↦ ([], fragment) | some q ↦ (q, fragment) ])

abbrev has_newline : Option Bytes → Bool
has_newline none = false
has_newline (some s) = not (all not_newline s)

-- The path of a merged URL: absolute, merged with the base's, or the base's.
merged_path : (Bytes → Bytes → Bytes) → HttpUrl → Bytes → Bytes
merged_path merge_paths base [] = base.path
merged_path merge_paths base (c ∷ rel) =
    if c == b'/' then c ∷ rel else merge_paths base.path (c ∷ rel)

merged_fragment : HttpUrl → Option Bytes → Bytes
merged_fragment base none = base.fragment
merged_fragment base (some []) = base.fragment
merged_fragment base (some (c ∷ f)) = b'#' ∷ c ∷ f

-- `merge_paths` stands for `MergePaths`, which is in Http.Paths.
unfoldable pub merge_with_base_url_if_relative :
    (Bytes → Bytes → Bytes) → HttpUrl → Bytes → Result HttpUrl
unfolding split_relative merged_path merged_fragment
merge_with_base_url_if_relative merge_paths base rel =
    let (path, tail) = split_relative rel in
    if is_empty rel
    then ok base
    else if contains (codes "://") rel
    then parse_url rel
    else if has_newline tail.1
    then err (runtime_error (codes "Invalid path, query, or fragment in URL: " ++ rel))
    else ok (record base {
      path = merged_path merge_paths base path;
      query = if is_empty tail.0 then base.query else b'?' ∷ tail.0;
      fragment = merged_fragment base tail.1;
    })
