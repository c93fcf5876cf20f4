-- ===== src/Http/Cache/CachingClient.antt =====
-- CachingHttpClient as an object over the process-wide cache.
use datazoo_oauth.Base.{ℕ, Bool, Bytes, Result, ok, err}
use datazoo_oauth.Http.Message.{HttpRequest, HttpResponse, head, get, new_bodyless_request}
use datazoo_oauth.Http.Cache.{HttpCache, Client, is_in_cache, send_request}

-- The wrapped client and the milliseconds for which a response is kept.
pub record CachingHttpClient : Type 0 where
  pub http_client : Client
  pub cache_duration : ℕ

unfoldable pub new_caching_client : Client → ℕ → CachingHttpClient
new_caching_client client duration = record { http_client = client; cache_duration = duration }

unfoldable pub get_http_client : CachingHttpClient → Client
get_http_client c = c.http_client

module _ (hash : Bytes → ℕ) (c : CachingHttpClient) where
  -- `looked` and `stored` are the times of the look-up and of the insertion.
  unfoldable pub send : HttpCache → HttpRequest → ℕ → ℕ → HttpCache × Result HttpResponse
  send cache r looked stored =
      send_request hash c.cache_duration c.http_client cache r looked stored

  send_to : HttpCache → Result HttpRequest → ℕ → ℕ → HttpCache × Result HttpResponse
  unfolding send
  send_to cache (err e) looked stored = (cache, err e)
  send_to cache (ok r) looked stored = send cache r looked stored

  unfoldable pub head_url : HttpCache → Bytes → ℕ → ℕ → HttpCache × Result HttpResponse
  unfolding send_to
  head_url cache url looked stored = send_to cache (new_bodyless_request head url) looked stored

  unfoldable pub get_url : HttpCache → Bytes → ℕ → ℕ → HttpCache × Result HttpResponse
  unfolding send_to
  get_url cache url looked stored = send_to cache (new_bodyless_request get url) looked stored

  -- `CachingHttpClient::IsInCache`, at the time `now`.
  unfoldable pub is_cached : HttpCache → HttpRequest → ℕ → Bool
  is_cached cache r now = is_in_cache hash cache r now
