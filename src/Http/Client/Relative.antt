-- ===== src/Http/Client/Relative.antt =====
-- Redirects by a relative Location stay where they are: the request keeps its origin and its headers.
use datazoo_oauth.Base.{
  ℕ, ◌≡◌, refl, sym, subst, ap, ◌∙◌, false, some, List, Bytes, codes, contains, All, Result, ok,
  arith,
}
use datazoo_oauth.Http.Url.{HttpUrl, merge_with_base_url_if_relative}
use datazoo_oauth.Http.Url.Origin.{origin, is_same_origin_iff}
use datazoo_oauth.Http.Message.{HttpRequest, HttpResponse, HttplibResponse}
use datazoo_oauth.Http.Client.{
  HttpParams, Attempt, responded, failed, threw, Network, Sending, Next, redirected, send_request,
  first, enough_fuel,
}
use datazoo_oauth.Http.Client.Total.{RedirectsTo, tried, moved, ended, Round, sends, refuses}
use datazoo_oauth.Http.Client.Safety.{After, loop_rule, redirected-url, redirected-headers_same}

-- A reference without `://` is merged into the base, which keeps its origin.
pub merge_with_base_url_if_relative-origin :
    (mp : Bytes → Bytes → Bytes) (base url : HttpUrl) (rel : Bytes)
    → contains (codes "://") rel ≡ false
    → merge_with_base_url_if_relative mp base rel ≡ ok url
    → origin url ≡ origin base
unfolding merge_with_base_url_if_relative
merge_with_base_url_if_relative-origin mp base url rel h e = ground arith

-- The network redirects by relative references only.
abbrev pub IsRelative : Network → Type 0
IsRelative network =
    (n : ℕ) (r : HttpRequest) (res : HttplibResponse) (l : Bytes)
    → network n r ≡ responded res
    → res.location ≡ some l
    → contains (codes "://") l ≡ false

module _ (mp : Bytes → Bytes → Bytes) (network : Network) (relative : IsRelative network) where
  RedirectsTo-origin :
      (n : ℕ) (r : HttpRequest) (a : Attempt) (status : ℕ) (url : HttpUrl)
      → network n r ≡ a
      → RedirectsTo mp a r.url status url
      → origin url ≡ origin r.url
  RedirectsTo-origin n r (responded res) status url e (_, _, l, there, merged) =
      merge_with_base_url_if_relative-origin mp r.url url l (relative n r res l e there) merged
  RedirectsTo-origin n r (failed x) status url e asked = absurd asked
  RedirectsTo-origin n r (threw x) status url e asked = absurd asked

  -- The origin and the headers of the caller's request.
  Kept : HttpRequest → HttpRequest → Type 0
  Kept r x = (origin x.url ≡ origin r.url) × (x.headers ≡ r.headers)

  redirected-Kept :
      (r x : HttpRequest) (status : ℕ) (url : HttpUrl)
      → origin url ≡ origin x.url
      → Kept r x
      → Kept r (redirected status x url)
  unfolding Kept
  redirected-Kept r x status url same (o, h) = (
    ap origin (redirected-url status x url) ∙ same ∙ o,
    redirected-headers_same status x url ((is_same_origin_iff x.url url).1 (sym same)) ∙ h,
  )

  Kept-Round :
      (p : HttpParams) (r : HttpRequest) (n : ℕ) (s : Sending) (nx : Next)
      → Kept r s.request × All (Kept r) s.sent
      → Round p mp network n s nx
      → After (λ s'. Kept r s'.request × All (Kept r) s'.sent) (All (Kept r)) nx
  Kept-Round p r n s nx (here, before) (refuses x e) =
      subst (After (λ s'. Kept r s'.request × All (Kept r) s'.sent) (All (Kept r))) (sym e) before
  Kept-Round p r n s nx on (sends (ended x)) = on
  Kept-Round p r n s nx on (sends (tried s' _ _ _ _ same log)) =
      (subst (Kept r) (sym same) on.0, subst (All (Kept r)) (sym log) on)
  Kept-Round p r n s nx on (sends (moved s' status url asked _ _ _ _ same log)) = (
    subst (Kept r) (sym same) (
        redirected-Kept r s.request status url
          (RedirectsTo-origin n s.request (network n s.request) status url refl asked) on.0),
    subst (All (Kept r)) (sym log) on,
  )

  -- If the servers redirect by relative references only, every request of a call of SendRequest goes
  -- to the origin of the caller's request with all of its headers, the credentials among them.
  pub send_request_relative :
      (p : HttpParams) (r : HttpRequest) (sent : List HttpRequest) (res : Result HttpResponse)
      → send_request p mp network r ≡ some (sent, res)
      → All (λ x. (origin x.url ≡ origin r.url) × (x.headers ≡ r.headers)) sent
  unfolding send_request Kept
  send_request_relative p r sent res e =
      loop_rule p mp network (λ n s. Kept r s.request × All (Kept r) s.sent) (All (Kept r))
        (Kept-Round p r) (enough_fuel p) 0 (first r) sent res ((refl, refl), tt) e
