-- ===== src/Http/Cache/Interleaving.antt =====
-- The cache under calls from several threads and its collector: every access holds the mutex, so a
-- run is a sequence of steps in any order and at any times.
use datazoo_oauth.Base.{
  ℕ, ◌+◌, ◌<◌, ◌≡◌, refl, ap, subst, Option, none, some, List, [], ◌∷◌, ◌++◌, Bytes, All, eqb,
  eqb_iff, leb, Bool-cases, inl, inr, arith,
}
use datazoo_oauth.Http.Message.{HttpRequest, HttpResponse, to_cache_key}
use datazoo_oauth.Http.Cache.{
  HttpCache, HttpCacheEntry, find, emplace, live_response, get_cached_response,
  emplace_cache_response, collect_garbage,
}
use datazoo_oauth.Http.Cache.Laws.{IsMap, emplace-IsMap, collect_garbage-IsMap}

-- A call that changes the cache, with its time.
pub data Access : Type 0 where
  stores : HttpRequest → HttpResponse → ℕ → ℕ → Access
  collects : ℕ → Access

pub data Step (hash : Bytes → ℕ) : Access → HttpCache → HttpCache → Type 0 where
  store_step :
      (c : HttpCache) (r : HttpRequest) (response : HttpResponse) (now duration : ℕ)
      → Step hash
          (stores r response now duration)
          c
          (emplace_cache_response hash c r response now duration)
  collect_step : (c : HttpCache) (now : ℕ) → Step hash (collects now) c (collect_garbage now c)

-- The caches that a run can reach, with what was done, the last access first.
pub data Reach (hash : Bytes → ℕ) : List Access → HttpCache → Type 0 where
  start : Reach hash [] []
  next :
      {done : List Access} {a : Access} {c c' : HttpCache}
      → Reach hash done c
      → Step hash a c c'
      → Reach hash (a ∷ done) c'

-- The entry was stored by an access of the run.
pub record IsStored (hash : Bytes → ℕ) (done : List Access) (key : Bytes) (e : HttpCacheEntry)
    : Type 0 where
  pub later : List Access
  pub earlier : List Access
  pub request : HttpRequest
  pub now : ℕ
  pub duration : ℕ
  pub happened : done ≡ later ++ (stores request e.response now duration ∷ earlier)
  pub same_key : key ≡ to_cache_key hash request
  pub until : e.expiry ≡ now + duration

abbrev AllStored : (Bytes → ℕ) → List Access → HttpCache → Type 0
AllStored hash done = All (λ entry. IsStored hash done entry.0 entry.1)

IsStored-cons :
    (hash : Bytes → ℕ) (done : List Access) (a : Access) (key : Bytes) (e : HttpCacheEntry)
    → IsStored hash done key e
    → IsStored hash (a ∷ done) key e
IsStored-cons hash done a key e s = record {
  later = a ∷ s.later;
  earlier = s.earlier;
  request = s.request;
  now = s.now;
  duration = s.duration;
  happened = ap (λ l. a ∷ l) s.happened;
  same_key = s.same_key;
  until = s.until;
}

AllStored-cons :
    (hash : Bytes → ℕ) (done : List Access) (a : Access) (c : HttpCache)
    → AllStored hash done c
    → AllStored hash (a ∷ done) c
AllStored-cons hash done a [] h = tt
AllStored-cons hash done a ((k, e) ∷ c) (s, h) =
    (IsStored-cons hash done a k e s, AllStored-cons hash done a c h)

emplace-All :
    (P : Bytes × HttpCacheEntry → Type 0) (key : Bytes) (e : HttpCacheEntry) (c : HttpCache)
    → P (key, e)
    → All P c
    → All P (emplace key e c)
unfolding emplace
emplace-All P key e [] p h = (p, tt)
emplace-All P key e ((k, old) ∷ c) p (q, h) = elim (Bool-cases (eqb k key)) [
  | inl same ↦ rw same (q, h)
  | inr other ↦ rw other (q, emplace-All P key e c p h)
]

collect_garbage-All :
    (P : Bytes × HttpCacheEntry → Type 0) (now : ℕ) (c : HttpCache)
    → All P c
    → All P (collect_garbage now c)
unfolding collect_garbage
collect_garbage-All P now [] h = tt
collect_garbage-All P now ((k, e) ∷ c) (p, h) = elim (Bool-cases (leb e.expiry now)) [
  | inl over ↦ rw over (collect_garbage-All P now c h)
  | inr live ↦ rw live (p, collect_garbage-All P now c h)
]

find-AllStored :
    (hash : Bytes → ℕ) (done : List Access) (key : Bytes) (c : HttpCache) (e : HttpCacheEntry)
    → AllStored hash done c
    → find key c ≡ some e
    → IsStored hash done key e
unfolding find
find-AllStored hash done key [] e h found = absurd (cc)
find-AllStored hash done key ((k, old) ∷ c) e (s, h) found = elim (Bool-cases (eqb k key)) [
  | inl same ↦
      let here : old ≡ e = ground arith in
      subst (λ x. IsStored hash done key x) here
        (subst (λ x. IsStored hash done x old) ((eqb_iff k key).0 same) s)
  | inr other ↦ find-AllStored hash done key c e h (ground arith)
]

Step-AllStored :
    (hash : Bytes → ℕ) (done : List Access) {a : Access} {c c' : HttpCache}
    → Step hash a c c'
    → AllStored hash done c
    → AllStored hash (a ∷ done) c'
unfolding emplace_cache_response
Step-AllStored hash done (store_step c r response now duration) h =
    emplace-All (λ entry. IsStored hash (stores r response now duration ∷ done) entry.0 entry.1)
      (to_cache_key hash r) (record { response = response; expiry = now + duration }) c
      (record {
        later = [];
        earlier = done;
        request = r;
        now = now;
        duration = duration;
        happened = refl;
        same_key = refl;
        until = refl;
      })
      (AllStored-cons hash done (stores r response now duration) c h)
Step-AllStored hash done (collect_step c now) h =
    collect_garbage-All (λ entry. IsStored hash (collects now ∷ done) entry.0 entry.1) now c
      (AllStored-cons hash done (collects now) c h)

Reach-AllStored :
    (hash : Bytes → ℕ) {done : List Access} {c : HttpCache}
    → Reach hash done c
    → AllStored hash done c
Reach-AllStored hash start = tt
Reach-AllStored hash (next {done} {a} r s) = Step-AllStored hash done s (Reach-AllStored hash r)

Step-IsMap :
    (hash : Bytes → ℕ) {a : Access} {c c' : HttpCache} → Step hash a c c' → IsMap c → IsMap c'
unfolding emplace_cache_response
Step-IsMap hash (store_step c r response now duration) m = emplace-IsMap _ _ c m
Step-IsMap hash (collect_step c now) m = collect_garbage-IsMap now c m

Reach-IsMap : (hash : Bytes → ℕ) {done : List Access} {c : HttpCache} → Reach hash done c → IsMap c
Reach-IsMap hash start = tt
Reach-IsMap hash (next r s) = Step-IsMap hash s (Reach-IsMap hash r)

live_response-eq-some :
    (now : ℕ) (o : Option HttpCacheEntry) (response : HttpResponse)
    → live_response now o ≡ some response
    → (e : HttpCacheEntry) × (o ≡ some e) × (now < e.expiry) × (e.response ≡ response)
unfolding live_response
live_response-eq-some now none response h = absurd (cc)
live_response-eq-some now (some e) response h = (e, refl, ground arith, ground arith)

-- In every cache that calls and passes of the collector can reach, in any order and at any times, no
-- key stands twice, and a response that the cache serves for a request was stored by one of these
-- calls, for a request with the same key, and its time is not over.
pub get_cached_response-Reach :
    (hash : Bytes → ℕ) (done : List Access) (c : HttpCache)
    → Reach hash done c
    → IsMap c
      × ((r : HttpRequest) (response : HttpResponse) (now : ℕ)
          → get_cached_response hash c r now ≡ some response
          → (e : HttpCacheEntry) × (e.response ≡ response)
            × (now < e.expiry)
            × IsStored hash done (to_cache_key hash r) e)
unfolding get_cached_response
get_cached_response-Reach hash done c reached = (
  Reach-IsMap hash reached,
  λ r response now h.
      let (e, found, live, same) =
        live_response-eq-some now (find (to_cache_key hash r) c) response h in
      (
        e,
        same,
        live,
        find-AllStored hash done (to_cache_key hash r) c e (Reach-AllStored hash reached) found,
      ),
)
