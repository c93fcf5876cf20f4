-- ===== src/Browser/Launch.antt =====
-- How the start of a browser ends.
use datazoo_oauth.Base.{
  Option-cases, Bool, false, none, inl, inr, ℕ, zero, suc, ◌+◌, ◌*◌, ◌<◌, ◌≡◌, refl, true, lt→ltb,
  some, Result, ok, arith, ◌∙◌, sym, subst,
}
use datazoo_oauth.Browser.{WaitStatus, running, verdict, poll_loop, open_url_linux}

-- From the time `w` on, `k` polls find the child running.
abbrev pub RunsFrom : (ℕ → WaitStatus) → ℕ → ℕ → Type 0
RunsFrom waitpid w k = (i : ℕ) → i < k → waitpid (w + 50 * i) ≡ running

module _ (waitpid : ℕ → WaitStatus) where
  poll_loop-running :
      (fuel w : ℕ)
      → w < 2000
      → waitpid w ≡ running
      → poll_loop waitpid (suc fuel) w ≡ poll_loop waitpid fuel (w + 50)
  unfolding poll_loop
  poll_loop-running fuel w h e = rw (lt→ltb _ _ h, e, poll_loop) refl

  poll_loop-again :
      (fuel w : ℕ)
      → w < 2000
      → verdict (waitpid w) ≡ none
      → poll_loop waitpid (suc fuel) w ≡ poll_loop waitpid fuel (w + 50)
  unfolding poll_loop
  poll_loop-again fuel w h e = rw (lt→ltb _ _ h, e, poll_loop) refl

  poll_loop-finished :
      (fuel w : ℕ) (r : Result (Unit {0}))
      → w < 2000
      → verdict (waitpid w) ≡ some r
      → poll_loop waitpid (suc fuel) w ≡ some (w, r)
  unfolding poll_loop
  poll_loop-finished fuel w r h e = rw (lt→ltb _ _ h, e, poll_loop) refl

  RunsFrom-first : (w k : ℕ) → RunsFrom waitpid w (suc k) → waitpid w ≡ running
  RunsFrom-first w k runs = subst (λ t. waitpid t ≡ running) (omega arith) (runs 0 (omega arith))

  RunsFrom-next : (w k : ℕ) → RunsFrom waitpid w (suc k) → RunsFrom waitpid (w + 50) k
  RunsFrom-next w k runs i h =
      subst (λ t. waitpid t ≡ running) (omega arith) (runs (i + 1) (omega arith))

  poll_loop_decides :
      (k fuel w : ℕ) (r : Result (Unit {0}))
      → k < fuel
      → w + 50 * k < 2000
      → RunsFrom waitpid w k
      → verdict (waitpid (w + 50 * k)) ≡ some r
      → poll_loop waitpid fuel w ≡ some (w + 50 * k, r)
  poll_loop_decides k zero w r h in_time runs e = elim h [ ]
  poll_loop_decides zero (suc fuel) w r h in_time runs e =
      let here : w + 50 * 0 ≡ w = omega arith in
      subst (λ t. poll_loop waitpid (suc fuel) w ≡ some (t, r)) (sym here)
        (poll_loop-finished fuel w r (omega arith)
          (subst (λ t. verdict (waitpid t) ≡ some r) here e))
  poll_loop_decides (suc k) (suc fuel) w r h in_time runs e =
      let there : w + 50 + 50 * k ≡ w + 50 * suc k = omega arith in
      poll_loop-running fuel w (omega arith) (RunsFrom-first w k runs)
      ∙ subst (λ t. poll_loop waitpid fuel (w + 50) ≡ some (t, r)) there
          (poll_loop_decides k fuel (w + 50) r (omega arith) (omega arith) (RunsFrom-next w k runs)
            (subst (λ t. verdict (waitpid t) ≡ some r) (sym there) e))

  poll_loop_gives_up :
      (k fuel w : ℕ)
      → k < fuel
      → w + 50 * k ≡ 2000
      → RunsFrom waitpid w k
      → poll_loop waitpid fuel w ≡ some (2000, ok tt)
  unfolding poll_loop
  poll_loop_gives_up k zero w h e runs = elim h [ ]
  poll_loop_gives_up zero (suc fuel) w h e runs = let here : w ≡ 2000 = omega arith in rw here refl
  poll_loop_gives_up (suc k) (suc fuel) w h e runs =
      poll_loop-running fuel w (omega arith) (RunsFrom-first w k runs)
      ∙ poll_loop_gives_up k fuel (w + 50) (omega arith) (omega arith) (RunsFrom-next w k runs)

  poll_loop_ends :
      (k fuel w : ℕ)
      → k < fuel
      → w + 50 * k ≡ 2000
      → (out : ℕ × Result (Unit {0})) × (poll_loop waitpid fuel w ≡ some out)
  unfolding poll_loop
  poll_loop_ends k zero w h e = elim h [ ]
  poll_loop_ends zero (suc fuel) w h e = let here : w ≡ 2000 = omega arith in rw here (_, refl)
  poll_loop_ends (suc k) (suc fuel) w h e = elim (Option-cases (verdict (waitpid w))) [
    | inr (r, done) ↦ ((w, r), poll_loop-finished fuel w r (omega arith) done)
    | inl again ↦
        let (out, rest) = poll_loop_ends k fuel (w + 50) (omega arith) (omega arith) in
        (out, poll_loop-again fuel w (omega arith) again ∙ rest)
  ]

  -- Once the child has been forked, the first poll within two seconds that finds it not running
  -- decides the call: exit status 0 is success, any other status and a signal throw, and a child
  -- that waitpid does not know counts as success. A child that runs for all of them is success.
  pub open_url_linux_lem :
      ((k : ℕ) (r : Result (Unit {0}))
        → k < 40
        → RunsFrom waitpid 0 k
        → verdict (waitpid (0 + 50 * k)) ≡ some r
        → open_url_linux true waitpid ≡ some (0 + 50 * k, r))
      × (RunsFrom waitpid 0 40 → open_url_linux true waitpid ≡ some (2000, ok tt))
  unfolding open_url_linux
  open_url_linux_lem = (
    λ k r h runs e. poll_loop_decides k 41 0 r (omega arith) (omega arith) runs e,
    λ runs. poll_loop_gives_up 40 41 0 (omega arith) (omega arith) runs,
  )

-- The launcher ends, whatever the child does.
pub open_url_linux-ends :
    (forked : Bool) (waitpid : ℕ → WaitStatus)
    → (out : ℕ × Result (Unit {0})) × (open_url_linux forked waitpid ≡ some out)
unfolding open_url_linux
open_url_linux-ends false waitpid = (_, refl)
open_url_linux-ends true waitpid = poll_loop_ends waitpid 40 41 0 (omega arith) (omega arith)
