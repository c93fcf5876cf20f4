-- ===== src/CallbackHandler/Validate.antt =====
-- The comparison of the state in constant time decides equality.
use Prim.Native.Nat.{bit_or, bit_xor}
use datazoo_oauth.Base.{
  ℕ, ◌%◌, ◌≡◌, ◌≢◌, ◌↔◌, refl, true, [], ◌∷◌, Bytes, IsBytes, length, arith, subst, eqb, eqb_iff,
}
use datazoo_oauth.Base.Bits.{bit_xor-eq-zero, bit_xor_self, bit_xor-lt, bit_or-eq-zero}
use datazoo_oauth.CallbackHandler.{CallbackHandler, diff_loop, validate_state}

diff_loop-eq-zero :
    (r e : Bytes) (d : ℕ)
    → length r ≡ length e
    → IsBytes r
    → IsBytes e
    → diff_loop r e d ≡ 0
    → (r ≡ e) × (d ≡ 0)
unfolding diff_loop
diff_loop-eq-zero [] [] d l hr he h = (refl, h)
diff_loop-eq-zero [] (y ∷ e) d l hr he h = absurd (omega arith)
diff_loop-eq-zero (x ∷ r) [] d l hr he h = absurd (omega arith)
diff_loop-eq-zero (x ∷ r) (y ∷ e) d l hr he h =
    let (same, zero_or) =
      diff_loop-eq-zero r e (bit_or d (bit_xor x y % 256)) (omega arith) hr.1 he.1 h in
    let (d0, x0) = bit_or-eq-zero d (bit_xor x y % 256) zero_or in
    let xy : x ≡ y =
      bit_xor-eq-zero x y (omega (arith, bit_xor-lt 8 x y (omega arith) (omega arith))) in
    (cc, d0)

diff_loop_self : (s : Bytes) → diff_loop s s 0 ≡ 0
unfolding diff_loop
diff_loop_self [] = refl
diff_loop_self (x ∷ s) = rw (bit_xor_self x) (diff_loop_self s)

-- A state is accepted exactly when one is expected and it is that one.
pub validate_state_iff :
    (h : CallbackHandler) (s : Bytes)
    → IsBytes h.expected_state
    → IsBytes s
    → (validate_state h s ≡ true) ↔ ((h.expected_state ≢ []) × (s ≡ h.expected_state))
unfolding validate_state
validate_state_iff h s he hs = (
  λ v. ground (arith, diff_loop-eq-zero s h.expected_state 0),
  λ v.
      subst (λ t. validate_state (record h { expected_state = t }) s ≡ true) v.1
        (ground (arith, diff_loop_self s)),
)

-- So under an expected state it is equality of strings.
pub validate_state-eqb :
    (h : CallbackHandler) (s : Bytes)
    → h.expected_state ≢ []
    → IsBytes h.expected_state
    → IsBytes s
    → validate_state h s ≡ eqb s h.expected_state
validate_state-eqb h s given he hs =
    ground (arith, validate_state_iff h s he hs, eqb_iff s h.expected_state)
