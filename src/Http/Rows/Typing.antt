-- ===== src/Http/Rows/Typing.antt =====
-- The values are of the types that the code declares for them.
use datazoo_oauth.Base.{
  ◌≡◌, refl, sym, ◌∙◌, ap, subst, Option, none, some, List, [], ◌∷◌, Bytes, codes, eqb,
  if◌then◌else◌, Result, ok, err, ◌>>=◌, >>=-eq-ok, arith,
}
use datazoo_oauth.Base
use datazoo_oauth.Http.Url
use datazoo_oauth.Http.Message
use datazoo_oauth.Http.Headers.{HeaderMap}
use datazoo_oauth.Http.Message.{HttpResponse}
use datazoo_oauth.Http.Rows.{
  LogicalType, varchar_type, integer_type, map_type, struct_type, FieldTypes, no_types, field_type,
  Value, varchar, integer, map, struct, Values, no_values, more, Members, no_members, member,
  key_type, value_type, duckdb_response_type, duckdb_header_type, duckdb_response_names,
  new_varchar, header_keys, header_values, create_header_map, content_to_return, to_value, to_row,
}

-- There is a value for each key.
pub SameLength : Values → Values → Type 0
SameLength no_values no_values = Unit
SameLength (more x keys) (more y values) = SameLength keys values
SameLength _ _ = ⊥

-- A value has a type: the keys and the values of a map have the types of its keys and values, and
-- the members of a struct have its names, in order, and their types.
mutual
  pub HasType : LogicalType → Value → Type 0
  HasType varchar_type (varchar s) = Unit
  HasType integer_type (integer n) = Unit
  HasType (map_type k v) (map k' v' keys values) =
      (k' ≡ k) × (v' ≡ v) × AllHave k keys × AllHave v values × SameLength keys values
  HasType (struct_type types) (struct members) = HaveTypes types members
  HasType _ _ = ⊥

  pub AllHave : LogicalType → Values → Type 0
  AllHave t no_values = Unit
  AllHave t (more x values) = HasType t x × AllHave t values

  pub HaveTypes : FieldTypes → Members → Type 0
  HaveTypes no_types no_members = Unit
  HaveTypes (field_type n t types) (member m x members) =
      (n ≡ m) × HasType t x × HaveTypes types members
  HaveTypes _ _ = ⊥

-- The names and the values of a struct.
abbrev pub names_of : Members → List Bytes
names_of no_members = []
names_of (member n x members) = n ∷ names_of members

abbrev pub values_of : Members → Values
values_of no_members = no_values
values_of (member n x members) = more x (values_of members)

-- The cell of a row under a column name.
abbrev pub cell : Bytes → List Bytes → Values → Option Value
cell name [] row = none
cell name (n ∷ names) no_values = none
cell name (n ∷ names) (more x row) = if eqb name n then some x else cell name names row

abbrev pub texts : List Bytes → Values
texts [] = no_values
texts (s ∷ ss) = more (varchar s) (texts ss)

-- The headers as a map from their names to their values.
abbrev pub header_map : HttpResponse → Value
header_map r =
    map varchar_type varchar_type (texts (Base.map (λ h. h.0) r.headers))
      (texts (Base.map (λ h. h.1) r.headers))

-- What a row has under each of the declared column names.
abbrev pub Shows : HttpResponse → Bytes → Values → Type 0
Shows r shown row =
    (cell (codes "method") duckdb_response_names row ≡ some (varchar (Message.to_string r.method)))
    × (cell (codes "status") duckdb_response_names row ≡ some (integer r.code))
    × (cell (codes "url") duckdb_response_names row ≡ some (varchar (Url.to_string r.url)))
    × (cell (codes "headers") duckdb_response_names row ≡ some (header_map r))
    × (cell (codes "content_type") duckdb_response_names row ≡ some (varchar r.content_type))
    × (cell (codes "content") duckdb_response_names row ≡ some (varchar shown))

AllHave-texts : (ss : List Bytes) → AllHave varchar_type (texts ss)
unfolding AllHave HasType
AllHave-texts [] = tt
AllHave-texts (s ∷ ss) = (tt, AllHave-texts ss)

SameLength-texts :
    (hs : HeaderMap) → SameLength (texts (Base.map (λ h. h.0) hs)) (texts (Base.map (λ h. h.1) hs))
unfolding SameLength
SameLength-texts [] = tt
SameLength-texts (h ∷ hs) = SameLength-texts hs

HasType-header_map : (r : HttpResponse) → HasType duckdb_header_type (header_map r)
unfolding HasType duckdb_header_type
HasType-header_map r = (
  refl,
  refl,
  AllHave-texts (Base.map (λ h. h.0) r.headers),
  AllHave-texts (Base.map (λ h. h.1) r.headers),
  SameLength-texts r.headers,
)

module _ (check : Bytes → Result (Unit {0})) where
  new_varchar-eq-ok : (s : Bytes) (x : Value) → new_varchar check s ≡ ok x → varchar s ≡ x
  unfolding new_varchar
  new_varchar-eq-ok s x h =
      let (u, passed, e) = >>=-eq-ok (check s) (λ _. ok (varchar s)) h in ground arith

  header_keys-eq-ok :
      (hs : HeaderMap) (ks : Values)
      → header_keys check hs ≡ ok ks
      → texts (Base.map (λ h. h.0) hs) ≡ ks
  unfolding header_keys
  header_keys-eq-ok [] ks h = ground arith
  header_keys-eq-ok ((k, v) ∷ hs) ks h =
      let (x, made, h1) = >>=-eq-ok (new_varchar check k) _ h in
      let (xs, rest, h2) = >>=-eq-ok (header_keys check hs) _ h1 in
      (λ i. more (new_varchar-eq-ok k x made i) (header_keys-eq-ok hs xs rest i)) ∙ ground arith

  header_values-eq-ok :
      (hs : HeaderMap) (vs : Values)
      → header_values check hs ≡ ok vs
      → texts (Base.map (λ h. h.1) hs) ≡ vs
  unfolding header_values
  header_values-eq-ok [] vs h = ground arith
  header_values-eq-ok ((k, v) ∷ hs) vs h =
      let (x, made, h1) = >>=-eq-ok (new_varchar check v) _ h in
      let (xs, rest, h2) = >>=-eq-ok (header_values check hs) _ h1 in
      (λ i. more (new_varchar-eq-ok v x made i) (header_values-eq-ok hs xs rest i)) ∙ ground arith

  create_header_map-eq-ok :
      (r : HttpResponse) (x : Value) → create_header_map check r ≡ ok x → header_map r ≡ x
  unfolding create_header_map duckdb_header_type key_type value_type
  create_header_map-eq-ok r x h =
      let (ks, keys, h1) = >>=-eq-ok (header_keys check r.headers) _ h in
      let (vs, values, h2) = >>=-eq-ok (header_values check r.headers) _ h1 in
      (λ i.
        map varchar_type varchar_type (header_keys-eq-ok r.headers ks keys i)
          (header_values-eq-ok r.headers vs values i))
      ∙ ground arith

  -- The values that are made, where no text is refused.
  module _ (base64 : Bytes → Bytes) (convert : Bytes → Bytes → Result Bytes)
      (r : HttpResponse) where
    abbrev plain_members : Bytes → Members
    plain_members shown = member (codes "method") (varchar (Message.to_string r.method)) (
        member (codes "status") (integer r.code) (
          member (codes "url") (varchar (Url.to_string r.url)) (
            member (codes "headers") (header_map r) (
              member (codes "content_type") (varchar r.content_type)
                (member (codes "content") (varchar shown) no_members)))))

    abbrev built : Value → Value → Value → Value → Value → Value
    built method url headers content_type content = struct (
        member (codes "method") method (
          member (codes "status") (integer r.code) (
            member (codes "url") url (
              member (codes "headers") headers (
                member (codes "content_type") content_type
                  (member (codes "content") content no_members))))))

    abbrev chain :
        Result Value → Result Value → Result Value → Result Value → Result Value → Result Value
    chain method url headers content_type content = method >>= λ a.
        url >>= λ b. headers >>= λ c. content_type >>= λ d. content >>= λ e. ok (built a b c d e)

    to_row-eq-ok :
        (row : Values)
        → to_row check base64 convert r ≡ ok row
        → (shown : Bytes) × (content_to_return base64 convert r.content_type r.content ≡ ok shown)
          × (to_value check (record r { content = shown }) ≡ ok (struct (plain_members shown)))
          × (values_of (plain_members shown) ≡ row)
    unfolding to_row to_value create_header_map
    to_row-eq-ok row h =
        let (shown, is_shown, h1) =
          >>=-eq-ok (content_to_return base64 convert r.content_type r.content) _ h in
        let (method, a, h2) = >>=-eq-ok (new_varchar check (Message.to_string r.method)) _ h1 in
        let (url, b, h3) = >>=-eq-ok (new_varchar check (Url.to_string r.url)) _ h2 in
        let (headers, c, h4) = >>=-eq-ok (create_header_map check r) _ h3 in
        let (kind, d, h5) = >>=-eq-ok (new_varchar check r.content_type) _ h4 in
        let (content, e, h6) = >>=-eq-ok (new_varchar check shown) _ h5 in
        let a' = new_varchar-eq-ok (Message.to_string r.method) method a in
        let b' = new_varchar-eq-ok (Url.to_string r.url) url b in
        let c' = create_header_map-eq-ok r headers c in
        let d' = new_varchar-eq-ok r.content_type kind d in
        let e' = new_varchar-eq-ok shown content e in
        (
          shown,
          is_shown,
          (λ i. chain (a i) (b i) (c i) (d i) (e i))
              ∙ sym (λ i. ok (built (a' i) (b' i) (c' i) (d' i) (e' i))),
          (λ i. more (a' i) (
                more (integer r.code)
                  (more (b' i) (more (c' i) (more (d' i) (more (e' i) no_values))))))
              ∙ ground arith,
        )

-- A row that is returned has what the response holds under each of the declared column names: the
-- method's name, the status, the URL, the headers as a map of texts with a value for each name, the
-- content type, and the content in base64 or converted. It is, in the order of these names, what the
-- value of the response with that content holds, and that value is returned too and has the type that
-- is declared for it.
pub to_value-HasType :
    (check : Bytes → Result (Unit {0})) (base64 : Bytes → Bytes)
    (convert : Bytes → Bytes → Result Bytes) (r : HttpResponse) (row : Values)
    → to_row check base64 convert r ≡ ok row
    → (shown : Bytes) × (members : Members) × (content_to_return base64 convert r.content_type
          r.content
        ≡ ok shown)
      × Shows r shown row
      × (to_value check (record r { content = shown }) ≡ ok (struct members))
      × (names_of members ≡ duckdb_response_names)
      × (values_of members ≡ row)
      × HasType duckdb_response_type (struct members)
unfolding HasType HaveTypes duckdb_response_type duckdb_response_names eqb
to_value-HasType check base64 convert r row h =
    let (shown, is_shown, value, is_row) = to_row-eq-ok check base64 convert r row h in
    (
      shown,
      plain_members check base64 convert r shown,
      is_shown,
      subst (Shows r shown) is_row (refl, refl, refl, refl, refl, refl),
      value,
      refl,
      is_row,
      (refl, tt, (refl, tt, (refl, tt, (refl, HasType-header_map r, (refl, tt, (refl, tt, tt)))))),
    )
