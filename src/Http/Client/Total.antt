-- ===== src/Http/Client/Total.antt =====
-- The loop ends: every round uses up a try or a redirect.
use datazoo_oauth.Base.{
  ℕ, zero, suc, ◌+◌, ◌*◌, ◌≤◌, ◌<◌, ◌≡◌, refl, ◌∙◌, inl, inr, true, Option, none, some, List, ◌∷◌,
  Bytes, Result, ok, err, arith, leb, Bool-cases,
}
use datazoo_oauth.Http.Url.{HttpUrl, merge_with_base_url_if_relative, is_wire_safe_target}
use datazoo_oauth.Http.Message.{HttpRequest, HttpResponse, HttplibResponse}
use datazoo_oauth.Http.Client.{
  HttpParams, Attempt, responded, failed, threw, Network, Sending, Next, again, done, retry, settle,
  redirect, redirected, respond, receive, follow, follow_url, round, send_loop, send_request, first,
  enough_fuel, is_redirect_status, is_transient, is_sendable,
}

-- Another try is owed to a failed exchange and to a status that is tried again.
abbrev pub MayRetry : Attempt → Type 0
MayRetry (responded res) = is_transient res.status ≡ true
MayRetry (failed e) = Unit
MayRetry (threw e) = Unit

-- The answer to a request for `from` is a redirect with this status to this URL.
abbrev pub RedirectsTo : (Bytes → Bytes → Bytes) → Attempt → HttpUrl → ℕ → HttpUrl → Type 0
RedirectsTo mp (responded res) from status url =
    (res.status ≡ status)
    × (is_redirect_status status ≡ true)
    × (l : Bytes) × (res.location ≡ some l)
    × (merge_with_base_url_if_relative mp from l ≡ ok url)
RedirectsTo mp (failed e) from status url = ⊥
RedirectsTo mp (threw e) from status url = ⊥

-- What one round does after the answer `a`, if there is another one.
pub data Progress (p : HttpParams) (mp : Bytes → Bytes → Bytes) (a : Attempt) (s : Sending)
    : Next → Type 0 where
  tried :
      (s' : Sending)
      → MayRetry a
      → s.n_tries + 1 < p.retries
      → s'.n_tries ≡ s.n_tries + 1
      → s'.redirect_count ≡ s.redirect_count
      → s'.request ≡ s.request
      → s'.sent ≡ s.sent
      → Progress p mp a s (again s')
  moved :
      (s' : Sending) (status : ℕ) (url : HttpUrl)
      → RedirectsTo mp a s.request.url status url
      → s.redirect_count < p.max_redirects
      → s'.n_tries ≡ 0
      → s'.redirect_count ≡ s.redirect_count + 1
      → is_wire_safe_target url ≡ true
      → s'.request ≡ redirected status s.request url
      → s'.sent ≡ s.sent
      → Progress p mp a s (again s')
  ended : (r : Result HttpResponse) → Progress p mp a s (done s.sent r)

module _ (p : HttpParams) (mp : Bytes → Bytes → Bytes) (s : Sending) where
  retry-Progress : (a : Attempt) → MayRetry a → Progress p mp a s (retry p a s)
  unfolding retry
  retry-Progress a may = elim (Bool-cases (leb p.retries (s.n_tries + 1))) [
    | inl last ↦ rw last (ended _)
    | inr more ↦ rw more (tried _ may (ground arith) refl refl refl refl)
  ]

  settle-Progress : (res : HttplibResponse) → Progress p mp (responded res) s (settle p res s)
  unfolding settle
  settle-Progress res = elim (Bool-cases (is_transient res.status)) [
    | inl t ↦ rw t (retry-Progress (responded res) t)
    | inr f ↦ rw f (ended _)
  ]

  follow_url-Progress :
      (a : Attempt) (status : ℕ) (url : HttpUrl)
      → RedirectsTo mp a s.request.url status url
      → s.redirect_count < p.max_redirects
      → Progress p mp a s (follow_url status s url)
  unfolding follow_url
  follow_url-Progress a status url asked h = elim (Bool-cases (is_wire_safe_target url)) [
    | inl safe ↦ rw safe (moved _ status url asked h refl refl safe refl refl)
    | inr unsafe ↦ rw unsafe (ended _)
  ]

  follow-Progress :
      (a : Attempt) (status : ℕ) (u : Result HttpUrl)
      → ((url : HttpUrl) → u ≡ ok url → RedirectsTo mp a s.request.url status url)
      → s.redirect_count < p.max_redirects
      → Progress p mp a s (follow status s u)
  unfolding follow
  follow-Progress a status (ok url) asked h = follow_url-Progress a status url (asked url refl) h
  follow-Progress a status (err e) asked h = ended _

  redirect-Progress :
      (res : HttplibResponse) (l : Option Bytes)
      → res.location ≡ l
      → is_redirect_status res.status ≡ true
      → s.redirect_count < p.max_redirects
      → Progress p mp (responded res) s (redirect p mp res s l)
  unfolding redirect
  redirect-Progress res none e t h = settle-Progress res
  redirect-Progress res (some location) e t h =
      follow-Progress (responded res) res.status
        (merge_with_base_url_if_relative mp s.request.url location)
        (λ url u. (refl, t, location, e, u)) h

  respond-Progress : (res : HttplibResponse) → Progress p mp (responded res) s (respond p mp res s)
  unfolding respond
  respond-Progress res = elim (Bool-cases (is_redirect_status res.status)) [
    | inr f ↦ rw f (settle-Progress res)
    | inl t ↦ elim (Bool-cases (leb p.max_redirects s.redirect_count)) [
      | inl most ↦ rw (t, most) (ended _)
      | inr few ↦ rw (t, few) (redirect-Progress res res.location refl t (ground arith))
    ]
  ]

  receive-Progress : (a : Attempt) → Progress p mp a s (receive p mp s a)
  unfolding receive
  receive-Progress (responded res) = respond-Progress res
  receive-Progress (failed e) = retry-Progress (failed e) tt
  receive-Progress (threw e) = retry-Progress (threw e) tt

-- The state once the request of a round is sent.
abbrev pub sending : Sending → Sending
sending s = record s { sent = s.request ∷ s.sent }

pub data Round (p : HttpParams) (mp : Bytes → Bytes → Bytes) (network : Network) (n : ℕ)
    (s : Sending) (nx : Next) : Type 0 where
  sends : Progress p mp (network n s.request) (sending s) nx → Round p mp network n s nx
  refuses : (r : Result HttpResponse) → nx ≡ done s.sent r → Round p mp network n s nx

module _ (p : HttpParams) (mp : Bytes → Bytes → Bytes) (network : Network) where
  pub round-Round : (n : ℕ) (s : Sending) → Round p mp network n s (round p mp network n s)
  unfolding round
  round-Round n s = elim (Bool-cases (is_sendable s.request.method)) [
    | inl can ↦ rw can (sends (receive-Progress p mp (sending s) (network n s.request)))
    | inr cannot ↦ rw cannot (refuses _ refl)
  ]

  pub send_loop-again :
      (fuel n : ℕ) (s s' : Sending)
      → round p mp network n s ≡ again s'
      → send_loop p mp network (suc fuel) n s ≡ send_loop p mp network fuel (suc n) s'
  unfolding send_loop
  send_loop-again fuel n s s' e = rw (e, send_loop) refl

  pub send_loop-done :
      (fuel n : ℕ) (s : Sending) {sent : List HttpRequest} {r : Result HttpResponse}
      → round p mp network n s ≡ done sent r
      → send_loop p mp network (suc fuel) n s ≡ some (sent, r)
  unfolding send_loop
  send_loop-done fuel n s e = rw (e, send_loop) refl

  Ends : ℕ → ℕ → Sending → Type 0
  Ends fuel n s =
      (out : List HttpRequest × Result HttpResponse) × (send_loop p mp network fuel n s ≡ some out)

  -- `k` redirects and `t` tries are left.
  round-Ends :
      (k t fuel n : ℕ) (s : Sending) (nx : Next)
      → p.max_redirects ≤ s.redirect_count + k
      → p.retries ≤ s.n_tries + t
      → k * (p.retries + 1) + t < suc fuel
      → ((k' t' : ℕ) (s' : Sending)
          → p.max_redirects ≤ s'.redirect_count + k'
          → p.retries ≤ s'.n_tries + t'
          → k' * (p.retries + 1) + t' < fuel
          → Ends fuel (suc n) s')
      → round p mp network n s ≡ nx
      → Round p mp network n s nx
      → Ends (suc fuel) n s
  unfolding Ends
  round-Ends k t fuel n s nx a b c rec e (refuses r d) =
      ((s.sent, r), send_loop-done fuel n s (e ∙ d))
  round-Ends k t fuel n s nx a b c rec e (sends (ended r)) = (_, send_loop-done fuel n s e)
  round-Ends k zero fuel n s nx a b c rec e (sends (tried s' _ more tries same _ _)) =
      absurd (omega arith)
  round-Ends k (suc t) fuel n s nx a b c rec e (sends (tried s' _ more tries same _ _)) =
      let (out, r) = rec k t s' (omega arith) (omega arith) (omega arith) in
      (out, send_loop-again fuel n s s' e ∙ r)
  round-Ends zero t fuel n s nx a b c rec e (sends (moved s' _ _ _ few tries count _ _ _)) =
      absurd (omega arith)
  round-Ends (suc k) t fuel n s nx a b c rec e (sends (moved s' _ _ _ few tries count _ _ _)) =
      let (out, r) = rec k p.retries s' (omega arith) (omega arith) (omega arith) in
      (out, send_loop-again fuel n s s' e ∙ r)

  loop-Ends :
      (fuel n k t : ℕ) (s : Sending)
      → p.max_redirects ≤ s.redirect_count + k
      → p.retries ≤ s.n_tries + t
      → k * (p.retries + 1) + t < fuel
      → Ends fuel n s
  loop-Ends zero n k t s a b c = elim c [ ]
  loop-Ends (suc fuel) n k t s a b c =
      round-Ends k t fuel n s _ a b c (λ k' t' s'. loop-Ends fuel (suc n) k' t' s') refl
        (round-Round n s)

  -- The fuel is enough for every network: `SendRequest` returns a response or throws.
  pub send_request_ends :
      (r : HttpRequest)
      → (out : List HttpRequest × Result HttpResponse) × (send_request p mp network r ≡ some out)
  unfolding send_request Ends
  send_request_ends r =
      loop-Ends (enough_fuel p) 0 p.max_redirects p.retries (first r) (omega arith) (omega arith)
        (omega arith)
