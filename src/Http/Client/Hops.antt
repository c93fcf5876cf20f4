-- ===== src/Http/Client/Hops.antt =====
-- The redirect policy of SendRequest by itself, and that the loop follows it: each request that is
-- sent is the one before it again, or what the policy makes of a redirect that answered it.
use datazoo_oauth.Base.{
  ℕ, suc, ◌≡◌, ◌≢◌, ◌↔◌, refl, sym, subst, ap, ◌⊎◌, Bool, true, not, ◌&&◌, ◌||◌, ◌==◌, some, List,
  [], ◌∷◌, Bytes, length, Result, arith,
}
use datazoo_oauth.Http.Url.{HttpUrl, is_wire_safe_target}
use datazoo_oauth.Http.Url.Origin.{origin, is_same_origin_iff}
use datazoo_oauth.Http.Headers.{erase_credentials}
use datazoo_oauth.Http.Message.{HttpMethod, get, head, same_method, HttpRequest, HttpResponse}
use datazoo_oauth.Http.Client.{
  HttpParams, Attempt, Network, Sending, Next, redirected, send_request, first, enough_fuel,
}
use datazoo_oauth.Http.Client.Total.{
  MayRetry, RedirectsTo, tried, moved, ended, Round, sends, refuses,
}
use datazoo_oauth.Http.Client.Safety.{After, loop_rule}

-- The redirects that are followed with a GET.
abbrev pub BecomesGet : ℕ → HttpMethod → Type 0
BecomesGet status method =
    ((status ≡ 301) ⊎ (status ≡ 302) ⊎ (status ≡ 303)) × (method ≢ get) × (method ≢ head)

-- What the policy makes of `r` for a redirect with `status` to `url`.
pub record IsRedirected (status : ℕ) (url : HttpUrl) (r r' : HttpRequest) : Type 0 where
  pub target : r'.url ≡ url
  pub wire_safe : is_wire_safe_target url ≡ true
  pub same_origin : origin r.url ≡ origin url → r'.headers ≡ r.headers
  pub other_origin : origin r.url ≢ origin url → r'.headers ≡ erase_credentials r.headers
  pub without_body :
      BecomesGet status r.method → (r'.method ≡ get) × (r'.content ≡ []) × (r'.content_type ≡ [])
  pub with_body :
      ¬ BecomesGet status r.method
      → (r'.method ≡ r.method) × (r'.content ≡ r.content) × (r'.content_type ≡ r.content_type)
  pub same_protocol : r'.odata_version ≡ r.odata_version

-- The request `r'` may follow `r`, which was answered by `a`.
pub data Hop (mp : Bytes → Bytes → Bytes) (a : Attempt) (r r' : HttpRequest) : Type 0 where
  retried : MayRetry a → r' ≡ r → Hop mp a r r'
  followed :
      (status : ℕ) (url : HttpUrl)
      → RedirectsTo mp a r.url status url
      → IsRedirected status url r r'
      → Hop mp a r r'

-- The requests of a call, the newest first: one hop after the other from the caller's request.
abbrev pub Trail : (Bytes → Bytes → Bytes) → Network → HttpRequest → List HttpRequest → Type 0
Trail mp network start [] = Unit
Trail mp network start (r ∷ []) = r ≡ start
Trail mp network start (r' ∷ (r ∷ before)) =
    Hop mp (network (length before) r) r r' × Trail mp network start (r ∷ before)

same_method-get : (m : HttpMethod) → (same_method m get ≡ true) ↔ (m ≡ get)
unfolding same_method
same_method-get get = (λ _. refl, λ _. refl)
same_method-get _ = (λ h. cc, λ h. cc)

same_method-head : (m : HttpMethod) → (same_method m head ≡ true) ↔ (m ≡ head)
unfolding same_method
same_method-head head = (λ _. refl, λ _. refl)
same_method-head _ = (λ h. cc, λ h. cc)

-- The test of the code.
abbrev pub becomes_get : ℕ → HttpMethod → Bool
becomes_get status m =
    (status == 301 || status == 302 || status == 303)
    && (not (same_method m get) && not (same_method m head))

pub becomes_get→BecomesGet :
    (status : ℕ) (m : HttpMethod) → becomes_get status m ≡ true → BecomesGet status m
becomes_get→BecomesGet status m h =
    (ground arith, ground (arith, same_method-get m), ground (arith, same_method-head m))

pub BecomesGet→becomes_get :
    (status : ℕ) (m : HttpMethod) → BecomesGet status m → becomes_get status m ≡ true
BecomesGet→becomes_get status m (s, g, h) = ground (arith, same_method-get m, same_method-head m)

redirected-IsRedirected :
    (status : ℕ) (r : HttpRequest) (url : HttpUrl)
    → is_wire_safe_target url ≡ true
    → IsRedirected status url r (redirected status r url)
unfolding redirected
redirected-IsRedirected status r url safe = record {
  target = ground arith;
  wire_safe = safe;
  same_origin = λ h. ground (arith, is_same_origin_iff r.url url);
  other_origin = λ h. ground (arith, is_same_origin_iff r.url url);
  without_body = λ h. ground (arith, BecomesGet→becomes_get status r.method h);
  with_body = λ h. ground (
    arith,
    λ (t : becomes_get status r.method ≡ true). h (becomes_get→BecomesGet status r.method t),
  );
  same_protocol = ground arith;
}

-- The loop invariant: the next request extends the trail, and the network counts what was sent.
abbrev OnTrail : (Bytes → Bytes → Bytes) → Network → HttpRequest → ℕ → Sending → Type 0
OnTrail mp network start n s = (n ≡ length s.sent) × Trail mp network start (s.request ∷ s.sent)

Trail-tail :
    (mp : Bytes → Bytes → Bytes) (network : Network) (start r : HttpRequest)
    (before : List HttpRequest)
    → Trail mp network start (r ∷ before)
    → Trail mp network start before
Trail-tail mp network start r [] t = tt
Trail-tail mp network start r (x ∷ before) t = t.1

module _ (mp : Bytes → Bytes → Bytes) (network : Network) (start : HttpRequest) where
  Hop-OnTrail :
      (n : ℕ) (s s' : Sending)
      → OnTrail mp network start n s
      → Hop mp (network n s.request) s.request s'.request
      → s'.sent ≡ s.request ∷ s.sent
      → OnTrail mp network start (suc n) s'
  Hop-OnTrail n s s' (count, trail) hop log = (
    omega (arith, ap length log),
    subst (λ sent. Trail mp network start (s'.request ∷ sent)) (sym log)
        (subst (λ k. Hop mp (network k s.request) s.request s'.request) count hop, trail),
  )

  OnTrail-kept :
      (p : HttpParams) (n : ℕ) (s : Sending) (nx : Next)
      → OnTrail mp network start n s
      → Round p mp network n s nx
      → After (OnTrail mp network start (suc n)) (Trail mp network start) nx
  OnTrail-kept p n s nx (count, trail) (refuses r e) =
      subst (After (OnTrail mp network start (suc n)) (Trail mp network start)) (sym e)
        (Trail-tail mp network start s.request s.sent trail)
  OnTrail-kept p n s nx (count, trail) (sends (ended r)) = trail
  OnTrail-kept p n s nx on (sends (tried s' may _ _ _ same log)) =
      Hop-OnTrail n s s' on (retried may same) log
  OnTrail-kept p n s nx on (sends (moved s' status url asked _ _ _ safe same log)) =
      Hop-OnTrail n s s' on
        (followed status url asked (
          subst (IsRedirected status url s.request) (sym same)
            (redirected-IsRedirected status s.request url safe)))
        log

-- The requests of a call are a trail from the caller's request under the redirect policy: each is
-- the one before it again, after an answer that is tried again, or what the policy makes of a
-- redirect that answered it, with the headers kept within an origin and the credentials erased
-- across origins, and with the method and body kept except where 301, 302 or 303 answered a
-- request that is neither GET nor HEAD.
pub send_request-Trail :
    (p : HttpParams) (mp : Bytes → Bytes → Bytes) (network : Network) (r : HttpRequest)
    (sent : List HttpRequest) (res : Result HttpResponse)
    → send_request p mp network r ≡ some (sent, res)
    → Trail mp network r sent
unfolding send_request
send_request-Trail p mp network r sent res e =
    loop_rule p mp network (OnTrail mp network r) (Trail mp network r) (OnTrail-kept mp network r p)
      (enough_fuel p) 0 (first r) sent res (refl, refl) e
