-- ===== src/CallbackHandler/Traffic.antt =====
-- What a run of requests, forged ones among them, leaves in the handler.
use datazoo_oauth.Base.{
  ◌≡◌, ◌≢◌, refl, ◌∙◌, ◌⊎◌, inl, inr, Bool, true, false, List, [], ◌∷◌, ◌++◌, Bytes, IsBytes, All,
  eqb, eqb_iff, arith, Bool-cases, sym, ap, subst,
}
use datazoo_oauth.CallbackHandler.{
  CallbackHandler, Event, callback, error, reset, set_expected_state, validate_state,
  handle_callback, handle_error, handle, handle_all,
}
use datazoo_oauth.CallbackHandler.Validate.{validate_state-eqb}

abbrev pub state_of : Event → Bytes
state_of (callback code state) = state
state_of (error e description state) = state

-- The handler of a flow that has just been given its state.
abbrev pub started : Bytes → CallbackHandler → CallbackHandler
started st h = set_expected_state (reset h) st

-- The flow expects the state `st`.
pub record Expects (st : Bytes) (h : CallbackHandler) : Type 0 where
  pub expected : h.expected_state ≡ st
  pub given : st ≢ []
  pub bytes : IsBytes st

pub validate-eqb :
    (st s : Bytes) (h : CallbackHandler) → Expects st h → IsBytes s → validate_state h s ≡ eqb s st
validate-eqb st s h x b =
    validate_state-eqb h s (λ e. x.given (sym x.expected ∙ e))
      (subst IsBytes (sym x.expected) x.bytes) b
    ∙ ap (eqb s) x.expected

-- A request without the expected state changes nothing.
pub handle-forged :
    (st : Bytes) (h : CallbackHandler) (e : Event)
    → Expects st h
    → IsBytes (state_of e)
    → eqb (state_of e) st ≡ false
    → handle h e ≡ h
unfolding handle handle_callback handle_error
handle-forged st h (callback code state) x b f = ground (arith, validate-eqb st state h x b)
handle-forged st h (error e d state) x b f = ground (arith, validate-eqb st state h x b)

pub handle-Expects :
    (st : Bytes) (h : CallbackHandler) (e : Event) → Expects st h → Expects st (handle h e)
unfolding handle handle_callback handle_error
handle-Expects st h (callback code state) x = ground arith
handle-Expects st h (error e d state) x = ground arith

-- No run of requests that lack the expected state delivers a code, ends the flow or changes
-- anything else in the handler.
pub handle_all_forged :
    (st : Bytes) (h : CallbackHandler) (es : List Event)
    → Expects st h
    → All (λ e. IsBytes (state_of e) × (eqb (state_of e) st ≡ false)) es
    → handle_all h es ≡ h
unfolding handle_all
handle_all_forged st h [] x f = refl
handle_all_forged st h (e ∷ es) x ((b, f), fs) =
    rw (handle-forged st h e x b f) (handle_all_forged st h es x fs)

-- A callback that carries the expected state.
abbrev pub is_delivery : Bytes → Event → Bool
is_delivery st (callback code state) = eqb state st
is_delivery st (error e d state) = false

handle-delivery :
    (st : Bytes) (h : CallbackHandler) (code state : Bytes)
    → Expects st h
    → IsBytes state
    → eqb state st ≡ true
    → ((handle h (callback code state)).received_code ≡ code)
      × ((handle h (callback code state)).callback_received ≡ true)
unfolding handle handle_callback
handle-delivery st h code state x b g = ground (arith, validate-eqb st state h x b)

handle_other :
    (st : Bytes) (h : CallbackHandler) (e : Event)
    → Expects st h
    → IsBytes (state_of e)
    → is_delivery st e ≡ false
    → ((handle h e).received_code ≡ h.received_code)
      × ((handle h e).callback_received ≡ h.callback_received)
unfolding handle handle_callback handle_error
handle_other st h (callback code state) x b f = ground (arith, validate-eqb st state h x b)
handle_other st h (error e d state) x b f = ground arith

-- Either the handler has the code it had and no request delivered one, or it has the code of the
-- last request that did.
abbrev Outcome : Bytes → CallbackHandler → List Event → CallbackHandler → Type 0
Outcome st h es h' =
    ((h'.received_code ≡ h.received_code)
      × (h'.callback_received ≡ h.callback_received)
      × All (λ e. is_delivery st e ≡ false) es)
    ⊎ ((before after : List Event) × (code : Bytes) × (es ≡ before ++ (callback code st ∷ after))
        × (h'.received_code ≡ code)
        × All (λ e. is_delivery st e ≡ false) after)

handle_all-Outcome :
    (st : Bytes) (h : CallbackHandler) (es : List Event)
    → Expects st h
    → All (λ e. IsBytes (state_of e)) es
    → Outcome st h es (handle_all h es)
unfolding handle_all
handle_all-Outcome st h [] x b = inl (refl, refl, tt)
handle_all-Outcome st h (callback c s ∷ es) x (b, bs) =
    elim (handle_all-Outcome st (handle h (callback c s)) es (handle-Expects st h (callback c s) x)
      bs) [
        | inl (code, flag, quiet) ↦ elim (Bool-cases (eqb s st)) [
          | inl g ↦ inr (
            [],
            es,
            c,
            ap (λ t. callback c t ∷ es) ((eqb_iff s st).0 g),
            code ∙ (handle-delivery st h c s x b g).0,
            quiet,
          )
          | inr f ↦ inl (
            code ∙ (handle_other st h (callback c s) x b f).0,
            flag ∙ (handle_other st h (callback c s) x b f).1,
            (f, quiet),
          )
        ]
        | inr (before, after, code, split, stored, quiet) ↦
            inr (callback c s ∷ before, after, code, ap (◌∷◌ (callback c s)) split, stored, quiet)
      ]
handle_all-Outcome st h (error e d s ∷ es) x (b, bs) =
    elim (handle_all-Outcome st (handle h (error e d s)) es (handle-Expects st h (error e d s) x)
      bs) [
        | inl (code, flag, quiet) ↦ inl (
          code ∙ (handle_other st h (error e d s) x b refl).0,
          flag ∙ (handle_other st h (error e d s) x b refl).1,
          (refl, quiet),
        )
        | inr (before, after, code, split, stored, quiet) ↦
            inr (error e d s ∷ before, after, code, ap (◌∷◌ (error e d s)) split, stored, quiet)
      ]

pub started-Expects :
    (st : Bytes) (h : CallbackHandler) → st ≢ [] → IsBytes st → Expects st (started st h)
unfolding set_expected_state reset
started-Expects st h given bytes = record { expected = refl; given = given; bytes = bytes }

-- If a flow that was started with the state `st` has received a code, that code came with the
-- state `st`, in the last request that carried a code and that state.
pub handle_all-received_code :
    (st : Bytes) (h : CallbackHandler) (es : List Event)
    → st ≢ []
    → IsBytes st
    → All (λ e. IsBytes (state_of e)) es
    → (handle_all (started st h) es).callback_received ≡ true
    → (before after : List Event) × (es
        ≡ before ++ (callback (handle_all (started st h) es).received_code st ∷ after))
      × All (λ e. is_delivery st e ≡ false) after
unfolding set_expected_state reset
handle_all-received_code st h es given bytes bs done =
    elim (handle_all-Outcome st (started st h) es (started-Expects st h given bytes) bs) [
      | inl (_, flag, _) ↦ absurd (cc)
      | inr (before, after, code, split, stored, quiet) ↦
          (before, after, split ∙ ap (λ c. before ++ (callback c st ∷ after)) (sym stored), quiet)
    ]
