-- ===== src/Http/Headers/Map.antt =====
-- Look-up after an assignment, in a map whose keys are compared without regard to case.
use datazoo_oauth.Base.{
  ◌≡◌, refl, Option, none, some, [], ◌∷◌, Bytes, eqb_iff, to_lower, if◌then◌else◌, arith,
}
use datazoo_oauth.Http.Headers.{HeaderMap, same_key, find, assign, emplace}

pub find-assign :
    (j k v : Bytes) (m : HeaderMap)
    → find k (assign j v m) ≡ (if same_key j k then some v else find k m)
unfolding find assign
find-assign j k v [] = refl
find-assign j k v ((i, w) ∷ m) = ground (
  arith,
  eqb_iff (to_lower j) (to_lower k),
  eqb_iff (to_lower i) (to_lower k),
  eqb_iff (to_lower i) (to_lower j),
  find-assign j k v m,
)

pub or_value : Option Bytes → Bytes → Option Bytes
or_value none v = some v
or_value (some w) v = some w

-- `emplace` never replaces a header, and touches no other.
pub find-emplace :
    (j k v : Bytes) (m : HeaderMap)
    → find k (emplace j v m) ≡ (if same_key j k then or_value (find k m) v else find k m)
unfolding find emplace or_value
find-emplace j k v [] = refl
find-emplace j k v ((i, w) ∷ m) = ground (
  arith,
  eqb_iff (to_lower j) (to_lower k),
  eqb_iff (to_lower i) (to_lower k),
  eqb_iff (to_lower i) (to_lower j),
  find-emplace j k v m,
)
