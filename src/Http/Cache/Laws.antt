-- ===== src/Http/Cache/Laws.antt =====
-- The cache as a map with expiry.
use datazoo_oauth.Base.{
  ℕ, ◌+◌, ◌≤◌, ◌≡◌, ◌≢◌, refl, Option, none, some, [], ◌∷◌, Bytes, eqb_iff, eqb_refl, if◌then◌else◌,
  ltb, arith,
}
use datazoo_oauth.Http.Message.{HttpRequest, HttpResponse, to_cache_key}
use datazoo_oauth.Http.Cache.{
  HttpCache, HttpCacheEntry, find, emplace, live_response, get_cached_response,
  emplace_cache_response, collect_garbage,
}

or_insert : Option HttpCacheEntry → HttpCacheEntry → Option HttpCacheEntry
or_insert none e = some e
or_insert (some old) e = some old

find-emplace_self :
    (key : Bytes) (e : HttpCacheEntry) (c : HttpCache)
    → find key (emplace key e c) ≡ or_insert (find key c) e
unfolding find emplace or_insert
find-emplace_self key e [] = rw (eqb_refl key)
find-emplace_self key e ((k, old) ∷ c) = ground (arith, find-emplace_self key e c)

pub find-emplace_ne :
    (key other : Bytes) (e : HttpCacheEntry) (c : HttpCache)
    → key ≢ other
    → find other (emplace key e c) ≡ find other c
unfolding find emplace
find-emplace_ne key other e [] h = ground (arith, eqb_iff key other)
find-emplace_ne key other e ((k, old) ∷ c) h =
    ground (arith, eqb_iff k key, eqb_iff k other, find-emplace_ne key other e c h)

-- A response is served until its time is over, and only if its key had no entry before.
pub get_cached_response-emplace :
    (hash : Bytes → ℕ) (c : HttpCache) (r : HttpRequest) (response : HttpResponse)
    (stored duration now : ℕ)
    → find (to_cache_key hash r) c ≡ none
    → get_cached_response hash (emplace_cache_response hash c r response stored duration) r now
      ≡ (if ltb now (stored + duration) then some response else none)
unfolding get_cached_response emplace_cache_response or_insert
get_cached_response-emplace hash c r response stored duration now absent = ground (
  arith,
  find-emplace_self (to_cache_key hash r)
      (record { response = response; expiry = stored + duration }) c,
)

-- An entry that has expired and was not yet collected keeps a newer response out: storing it
-- leaves the request without a cached response at every later time.
pub emplace_cache_response_stale :
    (hash : Bytes → ℕ) (c : HttpCache) (r : HttpRequest) (old : HttpCacheEntry)
    (response : HttpResponse) (stored duration now : ℕ)
    → find (to_cache_key hash r) c ≡ some old
    → old.expiry ≤ stored
    → stored ≤ now
    → get_cached_response hash (emplace_cache_response hash c r response stored duration) r now
      ≡ none
unfolding get_cached_response emplace_cache_response or_insert
emplace_cache_response_stale hash c r old response stored duration now present over later = ground (
  arith,
  find-emplace_self (to_cache_key hash r)
      (record { response = response; expiry = stored + duration }) c,
)

-- The keys are distinct.
abbrev pub IsMap : HttpCache → Type 0
IsMap [] = Unit {0}
IsMap ((k, e) ∷ c) = (find k c ≡ none) × IsMap c

pub emplace-IsMap :
    (key : Bytes) (e : HttpCacheEntry) (c : HttpCache) → IsMap c → IsMap (emplace key e c)
unfolding emplace
emplace-IsMap key e [] m = (unfold find in refl, tt)
emplace-IsMap key e ((k, old) ∷ c) (fresh, m) =
    ground (arith, eqb_iff k key, find-emplace_ne key k e c, emplace-IsMap key e c m)

find-collect_none :
    (key : Bytes) (now : ℕ) (c : HttpCache)
    → find key c ≡ none
    → find key (collect_garbage now c) ≡ none
unfolding find collect_garbage
find-collect_none key now [] h = refl
find-collect_none key now ((k, e) ∷ c) h = ground (arith, find-collect_none key now c)

pub collect_garbage-IsMap : (now : ℕ) (c : HttpCache) → IsMap c → IsMap (collect_garbage now c)
unfolding collect_garbage
collect_garbage-IsMap now [] m = tt
collect_garbage-IsMap now ((k, e) ∷ c) (fresh, m) =
    ground (arith, find-collect_none k now c, collect_garbage-IsMap now c m)

live-collect :
    (key : Bytes) (swept now : ℕ) (c : HttpCache)
    → IsMap c
    → swept ≤ now
    → live_response now (find key (collect_garbage swept c)) ≡ live_response now (find key c)
unfolding find collect_garbage live_response
live-collect key swept now [] m h = refl
live-collect key swept now ((k, e) ∷ c) (fresh, m) h =
    ground (arith, eqb_iff k key, live-collect key swept now c m h, find-collect_none key swept c)

-- Collecting the garbage changes no answer, then or later.
pub get_cached_response-collect_garbage :
    (hash : Bytes → ℕ) (c : HttpCache) (r : HttpRequest) (swept now : ℕ)
    → IsMap c
    → swept ≤ now
    → get_cached_response hash (collect_garbage swept c) r now ≡ get_cached_response hash c r now
unfolding get_cached_response
get_cached_response-collect_garbage hash c r swept now m h =
    live-collect (to_cache_key hash r) swept now c m h
