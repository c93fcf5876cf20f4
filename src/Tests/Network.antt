-- ===== src/Tests/Network.antt =====
-- The HTTP client, its headers and its cache at concrete requests and networks.
use datazoo_oauth.Base.{
  ◌<◌, ℕ, ◌+◌, ◌*◌, ◌≤◌, ◌≡◌, refl, Option, none, some, List, [], ◌∷◌, Bytes, All, codes, length,
  eqb, arith, Result, ok, err, runtime_error, eqb_refl, contains, to_lower,
}
use datazoo_oauth.Http.Url.{
  HttpUrl, is_same_origin, is_wire_safe_target, merge_with_base_url_if_relative, parse_url,
}
use datazoo_oauth.Http.Url.Origin.{origin}
use datazoo_oauth.Http.Headers.{is_credential_header_name, has_credentials}
use datazoo_oauth.Http.Message.{
  HttpRequest, HttpResponse, get, v4, carries_credentials, to_cache_key, same_method,
}
use datazoo_oauth.Http.Client.{
  default_params, Network, responded, failed, send_request, round, is_redirect_status, redirected,
}
use datazoo_oauth.Http.Client.Total.{send_request_ends}
use datazoo_oauth.Http.Client.Hops.{Trail, send_request-Trail}
use datazoo_oauth.Http.Client.Safety.{StaysAt, send_request-StaysAt, send_request-length}
use datazoo_oauth.Http.Cache.{
  HttpCache, HttpCacheEntry, get_cached_response, emplace_cache_response, collect_garbage,
}
use datazoo_oauth.Http.Cache
use datazoo_oauth.Http.Cache.Interleaving.{
  Access, stores, collects, store_step, collect_step, Reach, start, next, IsStored,
  get_cached_response-Reach,
}
use datazoo_oauth.Http.Cache.Laws.{IsMap, emplace_cache_response_stale}
use datazoo_oauth.Http.Cache.Serving.{send_request-carries_credentials, send_request_twice}

abbrev pub here : HttpUrl
here = record {
  scheme = codes "https";
  host = codes "api.example";
  port = [];
  path = codes "/a";
  query = [];
  fragment = [];
  username = [];
  password = [];
}

abbrev pub with_token : HttpRequest
with_token = record {
  method = get;
  url = here;
  headers = (codes "Authorization", codes "Bearer t") ∷ [];
  content_type = [];
  content = [];
  odata_version = v4;
}

abbrev anonymous : HttpRequest
anonymous = record with_token { headers = [] }

-- The first answer redirects to another host, the second is final.
abbrev pub redirecting : Network
redirecting ℕ.zero r = responded (record {
  status = 302;
  headers = [];
  content_type = [];
  body = [];
  location = some (codes "https://other.example/b");
})
redirecting (ℕ.suc n) r =
    responded
      (record { status = 200; headers = []; content_type = []; body = codes "ok"; location = none })

abbrev exchange : Option (List HttpRequest × Result HttpResponse)
exchange = send_request default_params (λ base path. path) redirecting with_token

abbrev unwrap :
    Option (List HttpRequest × Result HttpResponse) → List HttpRequest × Result HttpResponse
unwrap none = ([], err (runtime_error []))
unwrap (some out) = out

exchange-some : exchange ≡ some ((unwrap exchange).0, (unwrap exchange).1)
unfolding send_request round is_redirect_status redirected merge_with_base_url_if_relative parse_url
    is_wire_safe_target contains same_method is_same_origin eqb to_lower
exchange-some = refl

send_request-StaysAt_example : All (StaysAt (origin here)) (unwrap exchange).0
send_request-StaysAt_example =
    send_request-StaysAt default_params (λ base path. path) redirecting with_token
      (unwrap exchange).0 (unwrap exchange).1 exchange-some

send_request-length_example : length (unwrap exchange).0 ≤ (10 + 1) * 3
send_request-length_example =
    send_request-length default_params (λ base path. path) redirecting with_token
      (unwrap exchange).0 (unwrap exchange).1 (omega arith) exchange-some

send_request-Trail_example : Trail (λ base path. path) redirecting with_token (unwrap exchange).0
send_request-Trail_example =
    send_request-Trail default_params (λ base path. path) redirecting with_token (unwrap exchange).0
      (unwrap exchange).1 exchange-some

-- A network that always fails.
abbrev broken : Network
broken n r = failed (codes "Connection")

send_request_ends_example :
    (out : List HttpRequest × Result HttpResponse) × (send_request default_params
        (λ base path. path)
        broken
        with_token
      ≡ some out)
send_request_ends_example = send_request_ends default_params (λ base path. path) broken with_token

abbrev shouting : HttpUrl
shouting = record here { host = codes "API.example"; port = codes "443" }

abbrev answer : HttpResponse
answer = record {
  method = get;
  url = here;
  code = 200;
  headers = [];
  content_type = [];
  content = codes "ok";
}

abbrev hash : Bytes → ℕ
hash s = length s

abbrev old_entry : HttpCacheEntry
old_entry = record { response = answer; expiry = 3 }

abbrev old_cache : HttpCache
old_cache = (to_cache_key hash anonymous, old_entry) ∷ []

emplace_cache_response_stale_example :
    get_cached_response hash
      (emplace_cache_response hash old_cache anonymous answer 5 30)
      anonymous
      20
    ≡ none
unfolding Cache.find
emplace_cache_response_stale_example =
    emplace_cache_response_stale hash old_cache anonymous old_entry answer 5 30 20
      (rw (eqb_refl (to_cache_key hash anonymous)) refl) (omega arith) (omega arith)

abbrev answering : Cache.Client
answering r = (r, ok answer)

send_request-carries_credentials_example :
    Cache.send_request hash 30 answering old_cache with_token 5 6 ≡ (old_cache, ok answer)
unfolding carries_credentials has_credentials is_credential_header_name eqb to_lower
send_request-carries_credentials_example =
    send_request-carries_credentials hash 30 answering old_cache with_token 5 6 refl

send_request_twice_example :
    (Cache.send_request hash 30
      (λ r. (r, err (runtime_error [])))
      (Cache.send_request hash 30 answering [] anonymous 5 6).0
      anonymous
      20
      21).1
    ≡ ok answer
unfolding carries_credentials has_credentials Cache.find
send_request_twice_example =
    send_request_twice hash 30 answering (λ r. (r, err (runtime_error []))) [] anonymous answer 5 6
      20 21 refl refl refl (omega arith) (omega arith) (omega arith)

-- A response is stored, and the collector passes.
abbrev accesses : List Access
accesses = collects 6 ∷ stores anonymous answer 5 30 ∷ []

abbrev stored_cache : HttpCache
stored_cache = collect_garbage 6 (emplace_cache_response hash [] anonymous answer 5 30)

stored_cache-Reach : Reach hash accesses stored_cache
stored_cache-Reach =
    next (next start (store_step [] anonymous answer 5 30))
      (collect_step (emplace_cache_response hash [] anonymous answer 5 30) 6)

get_cached_response-Reach_example :
    IsMap stored_cache
    × ((r : HttpRequest) (response : HttpResponse) (now : ℕ)
        → get_cached_response hash stored_cache r now ≡ some response
        → (e : HttpCacheEntry) × (e.response ≡ response)
          × (now < e.expiry)
          × IsStored hash accesses (to_cache_key hash r) e)
get_cached_response-Reach_example =
    get_cached_response-Reach hash accesses stored_cache stored_cache-Reach
