-- ===== src/Browser/Ports.antt =====
-- The port search returns the first port that its test accepts.
use datazoo_oauth.Base.{
  ℕ, zero, suc, ◌+◌, ◌≤◌, ◌<◌, ◌≡◌, refl, ◌⊎◌, inl, inr, Bool, true, false, Bool-cases, Result, ok,
  arith, ◌==◌, ==_iff, subst, sym,
}
use datazoo_oauth.Browser.{port_loop, range_error}

-- No port is accepted from `low` up to `high`.
abbrev pub NoneIn : (ℕ → Bool) → ℕ → ℕ → Type 0
NoneIn available low high = (q : ℕ) → low ≤ q → q < high → available q ≡ false

-- The first of the `left` ports from `port` on that the test accepts, or the error.
abbrev pub FindsFirst : (ℕ → Bool) → ℕ → ℕ → ℕ → Result ℕ → Type 0
FindsFirst available start_port left port r =
    ((p : ℕ) × (r ≡ ok p)
      × (port ≤ p)
      × (p < port + left)
      × (available p ≡ true)
      × NoneIn available port p)
    ⊎ ((r ≡ range_error start_port) × NoneIn available port (port + left))

NoneIn-cons :
    (available : ℕ → Bool) (low high : ℕ)
    → available low ≡ false
    → NoneIn available (low + 1) high
    → NoneIn available low high
NoneIn-cons available low high h rest q a b = elim (Bool-cases (q == low)) [
  | inl same ↦ subst (λ k. available k ≡ false) (sym ((==_iff q low).0 same)) h
  | inr other ↦ rest q (ground arith) b
]

-- Whatever the test of a port says, the search over `left` ports returns the first port that it
-- accepts, and throws the error that names the range exactly when it accepts none of them.
pub port_loop-FindsFirst :
    (available : ℕ → Bool) (start_port left port : ℕ)
    → FindsFirst available start_port left port (port_loop available start_port left port)
unfolding port_loop
port_loop-FindsFirst available start_port zero port = inr (refl, λ q a b. absurd (omega arith))
port_loop-FindsFirst available start_port (suc left) port = elim (Bool-cases (available port)) [
  | inl free ↦
      rw free (inl (port, refl, omega arith, omega arith, free, λ q a b. absurd (omega arith)))
  | inr taken ↦ rw taken (elim (port_loop-FindsFirst available start_port left (port + 1)) [
    | inl (p, e, low, high, free, before) ↦
        inl (p, e, omega arith, omega arith, free, NoneIn-cons available port p taken before)
    | inr (e, all) ↦
        inr (e, NoneIn-cons available port (port + suc left) taken (λ q a b. all q a (omega arith)))
  ])
]
