-- ===== src/Http/Cache/Serving.antt =====
-- The caching client: credentials stay out of the cache, other responses are served again.
use datazoo_oauth.Base.{
  ℕ, ◌+◌, ◌≤◌, ◌<◌, ◌≡◌, refl, ap, true, false, none, some, Bytes, arith, Result, ok, err,
}
use datazoo_oauth.Http.Message.{HttpRequest, HttpResponse, to_cache_key, carries_credentials}
use datazoo_oauth.Http.Cache.{
  HttpCache, Client, find, get_cached_response, emplace_cache_response, store, send_request,
}
use datazoo_oauth.Http.Cache.Laws.{get_cached_response-emplace}

store_credentials :
    (hash : Bytes → ℕ) (duration : ℕ) (c : HttpCache) (now : ℕ)
    (answer : HttpRequest × Result HttpResponse)
    → store hash duration true c now answer ≡ (c, answer.1)
unfolding store
store_credentials hash duration c now (r, err e) = refl
store_credentials hash duration c now (r, ok response) = refl

missed :
    (hash : Bytes → ℕ) (c : HttpCache) (r : HttpRequest) (now : ℕ)
    → find (to_cache_key hash r) c ≡ none
    → get_cached_response hash c r now ≡ none
unfolding get_cached_response
missed hash c r now h = rw h refl

stored_answer :
    (hash : Bytes → ℕ) (duration : ℕ) (c : HttpCache) (now : ℕ) (r : HttpRequest)
    (response : HttpResponse)
    → 200 ≤ response.code
    → response.code < 300
    → store hash duration false c now (r, ok response)
      ≡ (emplace_cache_response hash c r response now duration, ok response)
unfolding store
stored_answer hash duration c now r response lo hi = ground arith

served :
    (hash : Bytes → ℕ) (duration : ℕ) (client : Client) (c : HttpCache) (r : HttpRequest)
    (response : HttpResponse) (looked now : ℕ)
    → carries_credentials r ≡ false
    → get_cached_response hash c r looked ≡ some response
    → send_request hash duration client c r looked now ≡ (c, ok response)
unfolding send_request
served hash duration client c r response looked now nc hit = rw (nc, hit) refl

fetched :
    (hash : Bytes → ℕ) (duration : ℕ) (client : Client) (c : HttpCache) (r : HttpRequest)
    (looked now : ℕ)
    → carries_credentials r ≡ false
    → get_cached_response hash c r looked ≡ none
    → send_request hash duration client c r looked now ≡ store hash duration false c now (client r)
unfolding send_request
fetched hash duration client c r looked now nc miss =
    rw (nc, miss) (ap (λ b. store hash duration b c now (client r)) nc)

-- A request with credentials goes to the network whatever the cache holds, and leaves the cache
-- as it was.
pub send_request-carries_credentials :
    (hash : Bytes → ℕ) (duration : ℕ) (client : Client) (c : HttpCache) (r : HttpRequest)
    (looked stored : ℕ)
    → carries_credentials r ≡ true
    → send_request hash duration client c r looked stored ≡ (c, (client r).1)
unfolding send_request
send_request-carries_credentials hash duration client c r looked stored h =
    rw h (store_credentials hash duration c stored (client r))

-- Two like requests without credentials, the first of which was answered with success and not
-- redirected, and whose key was free: within the duration the second is answered with the same
-- response, by any client.
pub send_request_twice :
    (hash : Bytes → ℕ) (duration : ℕ) (client other : Client) (c : HttpCache) (r : HttpRequest)
    (response : HttpResponse) (looked stored later again : ℕ)
    → carries_credentials r ≡ false
    → find (to_cache_key hash r) c ≡ none
    → client r ≡ (r, ok response)
    → 200 ≤ response.code
    → response.code < 300
    → later < stored + duration
    → (send_request hash duration other
        (send_request hash duration client c r looked stored).0
        r
        later
        again).1
      ≡ ok response
send_request_twice hash duration client other c r response looked stored later again nc absent
      answer lo hi fresh =
    let kept = emplace_cache_response hash c r response stored duration in
    let after_first : (send_request hash duration client c r looked stored).0 ≡ kept = cc (
      fetched hash duration client c r looked stored nc (missed hash c r looked absent),
      stored_answer hash duration c stored r response lo hi,
    ) in
    let hit : get_cached_response hash kept r later ≡ some response =
      ground (arith, get_cached_response-emplace hash c r response stored duration later absent) in
    rw after_first (
      ap (λ (x : HttpCache × Result HttpResponse). x.1)
        (served hash duration other kept r response later again nc hit))
