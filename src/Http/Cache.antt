-- ===== src/Http/Cache.antt =====
-- HttpCache, the process-wide map of responses, and CachingHttpClient. Times are the ticks of the
-- steady clock when they are read; every access holds the mutex. The wrapped client also returns
-- the request as it left it, since `SendRequest` changes it on redirects.
pub mod Laws
pub mod Serving
pub mod Interleaving
pub mod Collector
pub mod CachingClient
use datazoo_oauth.Base.{
  ℕ, ◌+◌, Bool, true, false, not, ◌&&◌, Option, none, some, List, [], ◌∷◌, Bytes, ltb, leb,
  if◌then◌else◌, eqb, Result, ok, err,
}
use datazoo_oauth.Http.Message.{HttpRequest, HttpResponse, to_cache_key, carries_credentials}

pub record HttpCacheEntry : Type 0 where
  pub response : HttpResponse
  pub expiry : ℕ

abbrev pub HttpCache : Type 0
HttpCache = List (Bytes × HttpCacheEntry)

unfoldable pub find : Bytes → HttpCache → Option HttpCacheEntry
find key [] = none
find key ((k, e) ∷ c) = if eqb k key then some e else find key c

-- `cache.emplace` leaves an entry that is there, whatever its age.
unfoldable pub emplace : Bytes → HttpCacheEntry → HttpCache → HttpCache
emplace key entry [] = (key, entry) ∷ []
emplace key entry ((k, e) ∷ c) = if eqb k key then (k, e) ∷ c else (k, e) ∷ emplace key entry c

pub live_response : ℕ → Option HttpCacheEntry → Option HttpResponse
live_response now none = none
live_response now (some e) = if ltb now e.expiry then some e.response else none

unfoldable pub get_cached_response : (Bytes → ℕ) → HttpCache → HttpRequest → ℕ → Option HttpResponse
unfolding live_response
get_cached_response hash c r now = live_response now (find (to_cache_key hash r) c)

unfoldable pub emplace_cache_response :
    (Bytes → ℕ) → HttpCache → HttpRequest → HttpResponse → ℕ → ℕ → HttpCache
emplace_cache_response hash c r response now duration =
    emplace (to_cache_key hash r) (record { response = response; expiry = now + duration }) c

is_live : ℕ → Option HttpCacheEntry → Bool
is_live now none = false
is_live now (some e) = ltb now e.expiry

unfoldable pub is_in_cache : (Bytes → ℕ) → HttpCache → HttpRequest → ℕ → Bool
unfolding is_live
is_in_cache hash c r now = is_live now (find (to_cache_key hash r) c)

-- One pass of `GarbageCollection`.
unfoldable pub collect_garbage : ℕ → HttpCache → HttpCache
collect_garbage now [] = []
collect_garbage now ((k, e) ∷ c) =
    let rest = collect_garbage now c in if leb e.expiry now then rest else (k, e) ∷ rest

abbrev pub Client : Type 0
Client = HttpRequest → HttpRequest × Result HttpResponse

-- What is stored of an answer.
store :
    (Bytes → ℕ)
    → ℕ
    → Bool
    → HttpCache
    → ℕ
    → HttpRequest × Result HttpResponse
    → HttpCache × Result HttpResponse
store hash duration credentials c now (r, err e) = (c, err e)
store hash duration credentials c now (r, ok response) =
    if not credentials && (leb 200 response.code && ltb response.code 300)
    then (emplace_cache_response hash c r response now duration, ok response)
    else (c, ok response)

-- `looked` and `stored` are the times of the look-up and of the insertion.
unfoldable pub send_request :
    (Bytes → ℕ) → ℕ → Client → HttpCache → HttpRequest → ℕ → ℕ → HttpCache × Result HttpResponse
unfolding store
send_request hash duration client c r looked stored =
    let credentials = carries_credentials r in
    let fetched = store hash duration credentials c stored (client r) in
    if credentials then fetched else (elim (get_cached_response hash c r looked) [
      | some response ↦ (c, ok response)
      | none ↦ fetched
    ])
