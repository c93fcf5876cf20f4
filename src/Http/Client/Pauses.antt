-- ===== src/Http/Client/Pauses.antt =====
-- The pauses of HttpClient::SendRequest between two tries. Floating-point numbers are a parameter: the
-- type with the operations that CalculateSleepTime calls.
use datazoo_oauth.Base.{
  ℕ, zero, suc, ◌+◌, ◌-◌, ◌*◌, ◌%◌, ◌^◌, ◌≤◌, ◌<◌, ◌≡◌, ap, inl, inr, Bool-cases, List, [], ◌∷◌,
  ◌++◌, Bytes, length, length-append, All, All-append, ltb, if◌then◌else◌, arith,
}
use datazoo_oauth.Http.Message.{HttpRequest}
use datazoo_oauth.Http.Client.{
  HttpParams, Attempt, Network, Sending, Next, again, done, round, first, enough_fuel,
}
use datazoo_oauth.Http.Client.Total.{
  Round, sends, refuses, round-Round, sending, Progress, tried, moved, ended,
}

-- The conversions of `uint64_t` and `float`, `pow`, and the product.
pub record Floats : Type 1 where
  pub Float : Type 0
  pub of_uint64 : ℕ → Float
  pub pow : Float → ℕ → Float
  pub times : Float → Float → Float
  pub to_uint64 : Float → ℕ

-- The fields of HttpParams that the pauses read.
pub record RetryParams (f : Floats) : Type 0 where
  pub retry_wait_ms : ℕ
  pub retry_backoff : f.Float

-- `n_tries - 2` in 64 bits.
two_less : ℕ → ℕ
two_less n = (n + (2 ^ 64 - 2)) % 2 ^ 64

module _ (f : Floats) (retry : RetryParams f) where
  open f use {of_uint64, pow, times, to_uint64}

  -- `retry_wait_ms * pow(retry_backoff, exponent)`, in whole milliseconds.
  abbrev pub backoff_ms : ℕ → ℕ
  backoff_ms exponent =
      to_uint64 (times (of_uint64 retry.retry_wait_ms) (pow retry.retry_backoff exponent))

  pub calculate_sleep_time : ℕ → ℕ
  unfolding two_less
  calculate_sleep_time n_tries = backoff_ms (two_less n_tries)

  -- The pause at the end of a round that is not the last: after a redirect `n_tries` is zero.
  pause : Sending → List ℕ
  pause s = if ltb 1 s.n_tries then calculate_sleep_time s.n_tries ∷ [] else []

  module _ (p : HttpParams) (mp : Bytes → Bytes → Bytes) (network : Network) where
    -- The pauses of the loop, in milliseconds.
    pauses_loop : ℕ → ℕ → Sending → List ℕ
    pauses_loop zero n s = []
    pauses_loop (suc fuel) n s = elim (round p mp network n s) [
      | again s' ↦ pause s' ++ pauses_loop fuel (suc n) s'
      | done sent r ↦ []
    ]

    unfoldable pub pauses : HttpRequest → List ℕ
    unfolding pauses_loop pause calculate_sleep_time
    pauses r = pauses_loop (enough_fuel p) 0 (first r)

    -- A pause of the formula, for an exponent below the number of tries.
    abbrev pub IsPause : ℕ → Type 0
    IsPause t = (e : ℕ) × (e + 2 < p.retries) × (t ≡ backoff_ms e)

    two_less_lem : (n : ℕ) → 1 < n → n < 2 ^ 64 → two_less n ≡ n - 2
    unfolding two_less
    two_less_lem n h small = omega arith

    pause-IsPause :
        (s : Sending) → s.n_tries < p.retries → p.retries < 2 ^ 64 → All IsPause (pause s)
    unfolding pause calculate_sleep_time
    pause-IsPause s h small = elim (Bool-cases (ltb 1 s.n_tries)) [
      | inr few ↦ rw few tt
      | inl more ↦
          let above : 1 < s.n_tries = ground arith in
          rw more (
            (
              s.n_tries - 2,
              omega arith,
              ap backoff_ms (two_less_lem s.n_tries above (omega arith)),
            ),
            tt,
          )
    ]

    -- The pauses that a try still has before it.
    left : ℕ → ℕ
    left n_tries = p.retries - 1 - (if ltb 1 n_tries then n_tries else 1)

    length-pause :
        (s : Sending) (j : ℕ)
        → s.n_tries ≡ j + 1
        → j + 1 < p.retries
        → length (pause s) + left s.n_tries ≤ left j
    unfolding pause left
    length-pause s j e h = ground arith

    pause_none : (s : Sending) → s.n_tries ≡ 0 → (pause s ≡ []) × (left s.n_tries ≡ p.retries - 2)
    unfolding pause left
    pause_none s e = (ground arith, ground arith)

    -- Every pause is of the formula, and there are not too many.
    Bounded : ℕ → ℕ → List ℕ → Type 0
    Bounded k n_tries ts = All IsPause ts × (length ts ≤ k * (p.retries - 2) + left n_tries)

    round-Bounded :
        (k : ℕ) (rest : Sending → List ℕ) (a : Attempt) (s : Sending) (nx : Next)
        → p.retries < 2 ^ 64
        → p.max_redirects ≤ s.redirect_count + k
        → ((k' : ℕ) (s' : Sending)
            → p.max_redirects ≤ s'.redirect_count + k'
            → Bounded k' s'.n_tries (rest s'))
        → Progress p mp a s nx
        → Bounded k s.n_tries
            (elim nx as (λ _. List ℕ) [ again s' ↦ pause s' ++ rest s' | done sent r ↦ [] ])
    unfolding Bounded
    round-Bounded k rest a s nx small b rec (ended r) = (tt, omega arith)
    round-Bounded k rest a s nx small b rec (tried s' _ more tries same _ _) =
        let (formed, few) = rec k s' (omega arith) in
        (
          All-append IsPause (pause s') (rest s') (pause-IsPause s' (omega arith) small) formed,
          omega (arith, length-append (pause s') (rest s'), length-pause s' s.n_tries tries more),
        )
    round-Bounded zero rest a s nx small b rec (moved s' _ _ _ few tries count _ _ _) =
        absurd (omega arith)
    round-Bounded (suc k) rest a s nx small b rec (moved s' _ _ _ few tries count _ _ _) =
        let (formed, bounded) = rec k s' (omega arith) in
        let (nothing, all_left) = pause_none s' tries in rw nothing (formed, grind arith)

    pauses_loop-Bounded :
        (fuel n k : ℕ) (s : Sending)
        → p.retries < 2 ^ 64
        → p.max_redirects ≤ s.redirect_count + k
        → Bounded k s.n_tries (pauses_loop fuel n s)
    unfolding pauses_loop
    pauses_loop-Bounded zero n k s small b = unfold Bounded in (tt, omega arith)
    pauses_loop-Bounded (suc fuel) n k s small b =
        by_round (round p mp network n s) (round-Round p mp network n s)
          (λ k' s' b'. pauses_loop-Bounded fuel (suc n) k' s' small b')
      where
        by_round :
            (nx : Next)
            → Round p mp network n s nx
            → ((k' : ℕ) (s' : Sending)
                → p.max_redirects ≤ s'.redirect_count + k'
                → Bounded k' s'.n_tries (pauses_loop fuel (suc n) s'))
            → Bounded k s.n_tries (elim nx as (λ _. List ℕ) [
              | again s' ↦ pause s' ++ pauses_loop fuel (suc n) s'
              | done sent r ↦ []
            ])
        by_round nx (refuses r d) rec = rw d (unfold Bounded in (tt, omega arith))
        by_round nx (sends progress) rec =
            round-Bounded k (pauses_loop fuel (suc n)) (network n s.request) (sending s) nx small b
              rec progress

    -- A call sleeps at most `retries - 2` times for each of its requests, redirects included: the first
    -- try of a request is repeated at once. Every pause is `retry_wait_ms * retry_backoff ^ e` for an
    -- exponent `e` with `e + 2 < retries`, so the difference of unsigned numbers in the exponent never
    -- wraps around.
    pub pauses-IsPause :
        (r : HttpRequest)
        → p.retries < 2 ^ 64
        → All IsPause (pauses r) × (length (pauses r) ≤ (p.max_redirects + 1) * (p.retries - 2))
    unfolding pauses Bounded left
    pauses-IsPause r small =
        let (formed, few) =
          pauses_loop-Bounded (enough_fuel p) 0 p.max_redirects (first r) small (omega arith) in
        (formed, grind arith)
