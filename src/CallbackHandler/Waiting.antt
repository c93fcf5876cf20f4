-- ===== src/CallbackHandler/Waiting.antt =====
-- How a wait on the callback handler ends, for every order in which the requests and the waiting caller
-- take the mutex.
use datazoo_oauth.Base.{
  ◌≡◌, ◌≢◌, refl, ◌∙◌, Bool, true, false, ◌||◌, Option, none, some, List, [], ◌∷◌, Bytes, IsBytes,
  codes, All, eqb, if◌then◌else◌, is_empty, arith, Result, ok, err, runtime_error, Bool-cases, inl,
  inr, ap, sym, ◌++◌,
}
use datazoo_oauth.CallbackHandler.{
  CallbackHandler, Event, callback, error, Turn, arrives, tests, reset, set_expected_state, handle,
  handle_callback, handle_error, wait_for, finish_wait, wait_for_code,
}
use datazoo_oauth.CallbackHandler.Traffic.{
  state_of, started, started-Expects, Expects, validate-eqb, handle-Expects, handle-forged,
}

-- The requests that are heard: those before the first test that comes after one with the state `st`,
-- and all of them if there is none. `found` says that one has come.
abbrev pub heard : Bytes → Bool → List Turn → List Event
heard st found [] = []
heard st found (arrives e ∷ ts) = e ∷ heard st (found || eqb (state_of e) st) ts
heard st found (tests ∷ ts) = if found then [] else heard st false ts

-- What the requests with the state `st` have reported, of each kind the last.
pub record Report : Type 0 where
  pub code : Option Bytes
  pub failure : Option Bytes

abbrev pub report : Bytes → Report → Event → Report
report st r (callback code state) = if eqb state st then record r { code = some code } else r
report st r (error e d state) =
    if eqb state st then record r { failure = some (e ++ (codes " - " ++ d)) } else r

abbrev pub reported : Bytes → Report → List Event → Report
reported st r [] = r
reported st r (e ∷ es) = reported st (report st r e) es

abbrev pub nothing : Report
nothing = record { code = none; failure = none }

-- What the waiting caller is told: an error before a code, and a timeout without either.
abbrev pub verdict : Report → Result Bytes
verdict r = elim r.failure [
  | some message ↦
      err (runtime_error (codes "OAuth2 error: " ++ (codes "OAuth2 error: " ++ message)))
  | none ↦ elim r.code [
    | none ↦ err (runtime_error (codes "Timeout waiting for OAuth2 callback"))
    | some code ↦
        if is_empty code
        then err (runtime_error (codes "No authorization code received"))
        else ok code
  ]
]

-- The handler holds what was reported.
HoldsCode : Option Bytes → CallbackHandler → Type 0
HoldsCode none h = h.callback_received ≡ false
HoldsCode (some code) h = (h.callback_received ≡ true) × (h.received_code ≡ code)

HoldsError : Option Bytes → CallbackHandler → Type 0
HoldsError none h = h.has_error ≡ false
HoldsError (some message) h =
    (h.has_error ≡ true) × (h.error_message ≡ codes "OAuth2 error: " ++ message)

abbrev Holds : Report → CallbackHandler → Type 0
Holds r h = HoldsCode r.code h × HoldsError r.failure h

finish_wait-Holds :
    (code failure : Option Bytes) (h : CallbackHandler)
    → Holds (record { code = code; failure = failure }) h
    → finish_wait h ≡ verdict (record { code = code; failure = failure })
unfolding finish_wait HoldsCode HoldsError
finish_wait-Holds none none h (c, f) = ground arith
finish_wait-Holds (some code) none h (c, f) = ground arith
finish_wait-Holds none (some message) h (c, f) = ground arith
finish_wait-Holds (some code) (some message) h (c, f) = ground arith

abbrev with_code : CallbackHandler → Bytes → CallbackHandler
with_code h code = record h { received_code = code; callback_received = true }

abbrev with_error : CallbackHandler → Bytes → CallbackHandler
with_error h message = record h {
  error_message = codes "OAuth2 error: " ++ message;
  has_error = true;
}

HoldsError-with_code :
    (f : Option Bytes) (h : CallbackHandler) (code : Bytes)
    → HoldsError f h
    → HoldsError f (with_code h code)
unfolding HoldsError
HoldsError-with_code none h code holds = holds
HoldsError-with_code (some message) h code holds = holds

HoldsCode-with_error :
    (c : Option Bytes) (h : CallbackHandler) (message : Bytes)
    → HoldsCode c h
    → HoldsCode c (with_error h message)
unfolding HoldsCode
HoldsCode-with_error none h message holds = holds
HoldsCode-with_error (some code) h message holds = holds

handle-callback :
    (st : Bytes) (h : CallbackHandler) (code state : Bytes)
    → Expects st h
    → IsBytes state
    → eqb state st ≡ true
    → handle h (callback code state) ≡ with_code h code
unfolding handle handle_callback
handle-callback st h code state x b g = ground (arith, validate-eqb st state h x b)

handle-error :
    (st : Bytes) (h : CallbackHandler) (e d state : Bytes)
    → Expects st h
    → IsBytes state
    → eqb state st ≡ true
    → handle h (error e d state) ≡ with_error h (e ++ (codes " - " ++ d))
unfolding handle handle_error
handle-error st h e d state x b g = ground (arith, validate-eqb st state h x b)

report-forged :
    (st : Bytes) (r : Report) (e : Event) → eqb (state_of e) st ≡ false → report st r e ≡ r
report-forged st r (callback code state) f = rw f refl
report-forged st r (error e d state) f = rw f refl

or_false : (b : Bool) → b ≡ (b || false)
or_false true = refl
or_false false = refl

or_true : (b : Bool) → true ≡ (b || true)
or_true true = refl
or_true false = refl

-- Some request with the state has come.
abbrev is_done : CallbackHandler → Bool
is_done h = h.callback_received || h.has_error

-- The handler keeps what is reported, and a request with the state ends the wait at the next test.
handle-Holds :
    (st : Bytes) (r : Report) (h : CallbackHandler) (e : Event)
    → Expects st h
    → IsBytes (state_of e)
    → Holds r h
    → Holds (report st r e) (handle h e)
      × (is_done (handle h e) ≡ (is_done h || eqb (state_of e) st))
unfolding HoldsCode HoldsError
handle-Holds st r h (callback code state) x b holds = elim (Bool-cases (eqb state st)) [
  | inr f ↦ rw (handle-forged st h (callback code state) x b f) (rw f (holds, or_false (is_done h)))
  | inl g ↦
      rw (handle-callback st h code state x b g)
        (rw g (((refl, refl), HoldsError-with_code r.failure h code holds.1), or_true (is_done h)))
]
handle-Holds st r h (error e d state) x b holds = elim (Bool-cases (eqb state st)) [
  | inr f ↦ rw (handle-forged st h (error e d state) x b f) (rw f (holds, or_false (is_done h)))
  | inl g ↦ rw (handle-error st h e d state x b g) (
      rw g (
        (HoldsCode-with_error r.code h (e ++ (codes " - " ++ d)) holds.0, (refl, refl)),
        sym (or_true h.callback_received) ∙ or_true (is_done h),
      ))
]

finish-heard :
    (st : Bytes) (h : CallbackHandler) (r : Report) (found : Bool) (ts : List Turn)
    → Expects st h
    → Holds r h
    → is_done h ≡ found
    → All (λ e. IsBytes (state_of e)) (heard st found ts)
    → finish_wait (wait_for h ts) ≡ verdict (reported st r (heard st found ts))
unfolding wait_for
finish-heard st h r found [] x holds done b = finish_wait-Holds r.code r.failure h holds
finish-heard st h r found (arrives e ∷ ts) x holds done (b, bs) =
    let (kept, flag) = handle-Holds st r h e x b holds in
    finish-heard st (handle h e) (report st r e) (found || eqb (state_of e) st) ts
      (handle-Expects st h e x) kept (flag ∙ ap (λ c. c || eqb (state_of e) st) done) bs
finish-heard st h r true (tests ∷ ts) x holds done bs =
    rw done (finish_wait-Holds r.code r.failure h holds)
finish-heard st h r false (tests ∷ ts) x holds done bs =
    rw done (finish-heard st h r false ts x holds done bs)

started-Holds : (st : Bytes) (h : CallbackHandler) → Holds nothing (started st h)
unfolding HoldsCode HoldsError set_expected_state reset
started-Holds st h = (refl, refl)

started_quiet : (st : Bytes) (h : CallbackHandler) → is_done (started st h) ≡ false
unfolding set_expected_state reset
started_quiet st h = refl

-- How a wait on a flow that was started with the state `st` ends, in every order in which requests and
-- the waiting caller take the mutex, requests that came before the wait included: it is decided by the
-- requests up to the caller's first test after one with `st`, or up to the timeout. If one of those
-- with `st` reports an error, the last such error is thrown; otherwise the last code with `st` is
-- returned, or its lack is thrown; and without any request with `st` the timeout is. The states of
-- those requests are byte strings.
pub wait_for_code_lem :
    (st : Bytes) (h : CallbackHandler) (ts : List Turn)
    → st ≢ []
    → IsBytes st
    → All (λ e. IsBytes (state_of e)) (heard st false ts)
    → wait_for_code (started st h) ts ≡ verdict (reported st nothing (heard st false ts))
unfolding wait_for_code
wait_for_code_lem st h ts given bytes bs =
    finish-heard st (started st h) nothing false ts (started-Expects st h given bytes)
      (started-Holds st h) (started_quiet st h) bs
