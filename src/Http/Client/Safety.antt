-- ===== src/Http/Client/Safety.antt =====
-- What is sent, and to whom: credentials stay at their origin, request lines stay whole, and the
-- number of requests is bounded.
use datazoo_oauth.Base.{
  ℕ, zero, suc, ◌+◌, ◌*◌, ◌≤◌, ◌<◌, ◌≡◌, refl, ap, subst, sym, ◌∙◌, ◌⊎◌, inl, inr, true, false,
  some, List, Bytes, length, All, Result, arith, Bool-cases,
}
use datazoo_oauth.Http.Url.{HttpUrl, is_wire_safe_target, is_same_origin}
use datazoo_oauth.Http.Url.Origin.{origin, is_same_origin_iff}
use datazoo_oauth.Http.Headers.{has_credentials, erase_credentials}
use datazoo_oauth.Http.Headers.Credentials.{has_credentials-erase_credentials}
use datazoo_oauth.Http.Message.{HttpRequest, HttpResponse, carries_credentials}
use datazoo_oauth.Http.Client.{
  HttpParams, Network, Sending, Next, again, done, redirected, round, send_loop, send_request,
  first, enough_fuel,
}
use datazoo_oauth.Http.Client.Total.{
  tried, moved, ended, Round, sends, refuses, round-Round, send_loop-again, send_loop-done,
}

ran_out :
    (p : HttpParams) (mp : Bytes → Bytes → Bytes) (network : Network) (n : ℕ) (s : Sending)
    (out : List HttpRequest × Result HttpResponse)
    → send_loop p mp network zero n s ≡ some out
    → ⊥
unfolding send_loop
ran_out p mp network n s out e = cc

-- What an invariant of the loop and a property of the sent requests say of the end of a round.
abbrev pub After : (Sending → Type 0) → (List HttpRequest → Type 0) → Next → Type 0
After I Q (again s) = I s
After I Q (done sent r) = Q sent

module _ (p : HttpParams) (mp : Bytes → Bytes → Bytes) (network : Network) where
  -- An invariant of the rounds gives a property of everything that was sent.
  module _ (I : ℕ → Sending → Type 0) (Q : List HttpRequest → Type 0)
      (kept : (n : ℕ) (s : Sending) (nx : Next)
        → I n s
        → Round p mp network n s nx
        → After (I (suc n)) Q nx) where
    round_rule :
        (fuel n : ℕ) (s : Sending) (nx : Next) (sent : List HttpRequest) (r : Result HttpResponse)
        → ((s' : Sending)
            → I (suc n) s'
            → send_loop p mp network fuel (suc n) s' ≡ some (sent, r)
            → Q sent)
        → round p mp network n s ≡ nx
        → After (I (suc n)) Q nx
        → send_loop p mp network (suc fuel) n s ≡ some (sent, r)
        → Q sent
    round_rule fuel n s (again s') sent r rec e a h =
        rec s' a (sym (send_loop-again p mp network fuel n s s' e) ∙ h)
    round_rule fuel n s (done sent' r') sent r rec e a h =
        let same : sent' ≡ sent = cc (send_loop-done p mp network fuel n s e) in subst Q same a

    pub loop_rule :
        (fuel n : ℕ) (s : Sending) (sent : List HttpRequest) (r : Result HttpResponse)
        → I n s
        → send_loop p mp network fuel n s ≡ some (sent, r)
        → Q sent
    loop_rule zero n s sent r i e = absurd (ran_out p mp network n s (sent, r) e)
    loop_rule (suc fuel) n s sent r i e =
        round_rule fuel n s (round p mp network n s) sent r (λ s'. loop_rule fuel (suc n) s' sent r)
          refl (kept n s _ i (round-Round p mp network n s)) e

pub redirected-url :
    (status : ℕ) (r : HttpRequest) (url : HttpUrl) → (redirected status r url).url ≡ url
unfolding redirected
redirected-url status r url = ground arith

pub redirected-headers_same :
    (status : ℕ) (r : HttpRequest) (url : HttpUrl)
    → is_same_origin r.url url ≡ true
    → (redirected status r url).headers ≡ r.headers
unfolding redirected
redirected-headers_same status r url h = ground arith

redirected-headers_other :
    (status : ℕ) (r : HttpRequest) (url : HttpUrl)
    → is_same_origin r.url url ≡ false
    → (redirected status r url).headers ≡ erase_credentials r.headers
unfolding redirected
redirected-headers_other status r url h = ground arith

-- A request that carries credentials goes to the origin `o`.
abbrev pub StaysAt : Bytes × Bytes × Bytes → HttpRequest → Type 0
StaysAt o r = carries_credentials r ≡ true → origin r.url ≡ o

redirected-StaysAt :
    (o : Bytes × Bytes × Bytes) (status : ℕ) (r : HttpRequest) (url : HttpUrl)
    → StaysAt o r
    → StaysAt o (redirected status r url)
unfolding carries_credentials
redirected-StaysAt o status r url h c = elim (Bool-cases (is_same_origin r.url url)) [
  | inl same ↦
      ap origin (redirected-url status r url)
      ∙ sym ((is_same_origin_iff r.url url).0 same)
      ∙ h (ap has_credentials (sym (redirected-headers_same status r url same)) ∙ c)
  | inr other ↦ absurd (
      cc (
        has_credentials-erase_credentials r.headers,
        ap has_credentials (redirected-headers_other status r url other),
      ))
]

-- The loop invariant: what is sent, and what is about to be, has the property.
abbrev Always : (HttpRequest → Type 0) → Sending → Type 0
Always P s = P s.request × All P s.sent

-- A property of requests that every redirect keeps holds of all that is sent.
Always-kept :
    (P : HttpRequest → Type 0) (p : HttpParams) (mp : Bytes → Bytes → Bytes) (network : Network)
    → ((status : ℕ) (r : HttpRequest) (url : HttpUrl)
        → is_wire_safe_target url ≡ true
        → P r
        → P (redirected status r url))
    → (n : ℕ) (s : Sending) (nx : Next) → Always P s
    → Round p mp network n s nx
    → After (Always P) (All P) nx
Always-kept P p mp network keep n s nx (here, before) (refuses r e) =
    subst (After (Always P) (All P)) (sym e) before
Always-kept P p mp network keep n s nx (here, before) (sends (ended r)) = (here, before)
Always-kept P p mp network keep n s nx (here, before) (sends (tried s' _ _ _ _ same log)) =
    (subst P (sym same) here, subst (All P) (sym log) (here, before))
Always-kept P p mp network keep n s nx (here, before)
      (sends (moved s' status url _ _ _ _ safe same log)) =
    (
      subst P (sym same) (keep status s.request url safe here),
      subst (All P) (sym log) (here, before),
    )

sent_always :
    (P : HttpRequest → Type 0) (p : HttpParams) (mp : Bytes → Bytes → Bytes) (network : Network)
    (r : HttpRequest) (sent : List HttpRequest) (res : Result HttpResponse)
    → ((status : ℕ) (r : HttpRequest) (url : HttpUrl)
        → is_wire_safe_target url ≡ true
        → P r
        → P (redirected status r url))
    → P r
    → send_request p mp network r ≡ some (sent, res)
    → All P sent
unfolding send_request
sent_always P p mp network r sent res keep start e =
    loop_rule p mp network (λ _. Always P) (All P) (Always-kept P p mp network keep) (enough_fuel p)
      0 (first r) sent res (start, tt) e

-- Whatever the network answers, every request of a call of `SendRequest` that carries credentials
-- goes to the origin of the request that the caller made.
pub send_request-StaysAt :
    (p : HttpParams) (mp : Bytes → Bytes → Bytes) (network : Network) (r : HttpRequest)
    (sent : List HttpRequest) (res : Result HttpResponse)
    → send_request p mp network r ≡ some (sent, res)
    → All (StaysAt (origin r.url)) sent
send_request-StaysAt p mp network r sent res e =
    sent_always (StaysAt (origin r.url)) p mp network r sent res
      (λ status x url _ h. redirected-StaysAt (origin r.url) status x url h) (λ _. refl) e

-- Every request that is sent has the caller's own URL, or one with no control character and no
-- space in its request line and Host header.
pub send_request-is_wire_safe_target :
    (p : HttpParams) (mp : Bytes → Bytes → Bytes) (network : Network) (r : HttpRequest)
    (sent : List HttpRequest) (res : Result HttpResponse)
    → send_request p mp network r ≡ some (sent, res)
    → All (λ x. (x.url ≡ r.url) ⊎ (is_wire_safe_target x.url ≡ true)) sent
send_request-is_wire_safe_target p mp network r sent res e =
    sent_always (λ x. (x.url ≡ r.url) ⊎ (is_wire_safe_target x.url ≡ true)) p mp network r sent res
      (λ status x url safe _.
        inr (subst (λ u. is_wire_safe_target u ≡ true) (sym (redirected-url status x url)) safe))
      (inl refl) e

-- The requests so far are at most `retries` for each redirect, and the tries since.
abbrev Counted : HttpParams → Sending → Type 0
Counted p s =
    (s.n_tries < p.retries)
    × (s.redirect_count ≤ p.max_redirects)
    × (length s.sent ≤ s.redirect_count * p.retries + s.n_tries)

budget_le : (c m r : ℕ) → c ≤ m → c * r + r ≤ (m + 1) * r
budget_le c m r h = grind arith

Counted-kept :
    (p : HttpParams) (mp : Bytes → Bytes → Bytes) (network : Network) (n : ℕ) (s : Sending)
    (nx : Next)
    → Counted p s
    → Round p mp network n s nx
    → After (Counted p) (λ sent. length sent ≤ (p.max_redirects + 1) * p.retries) nx
Counted-kept p mp network n s nx (t, c, l) (refuses r e) =
    subst (After (Counted p) (λ sent. length sent ≤ (p.max_redirects + 1) * p.retries)) (sym e)
      (omega (arith, budget_le s.redirect_count p.max_redirects p.retries c))
Counted-kept p mp network n s nx (t, c, l) (sends (ended r)) =
    omega (arith, budget_le s.redirect_count p.max_redirects p.retries c)
Counted-kept p mp network n s nx (t, c, l) (sends (tried s' _ more tries count _ log)) =
    (omega arith, omega arith, omega (arith, ap length log, ap (λ (t : ℕ). t * p.retries) count))
Counted-kept p mp network n s nx (t, c, l) (sends (moved s' _ _ _ few tries count _ _ log)) =
    (omega arith, omega arith, omega (arith, ap length log, ap (λ (t : ℕ). t * p.retries) count))

-- With at least one try, at most `retries` requests are sent for the caller's URL and for each of
-- at most `max_redirects` redirects.
pub send_request-length :
    (p : HttpParams) (mp : Bytes → Bytes → Bytes) (network : Network) (r : HttpRequest)
    (sent : List HttpRequest) (res : Result HttpResponse)
    → 0 < p.retries
    → send_request p mp network r ≡ some (sent, res)
    → length sent ≤ (p.max_redirects + 1) * p.retries
unfolding send_request
send_request-length p mp network r sent res some_try e =
    loop_rule p mp network (λ _. Counted p)
      (λ sent. length sent ≤ (p.max_redirects + 1) * p.retries) (Counted-kept p mp network)
      (enough_fuel p) 0 (first r) sent res (some_try, omega arith, omega arith) e
