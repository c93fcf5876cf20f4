-- ===== src/Tests/Callback.antt =====
-- The callback handler and the loopback server at concrete requests.
use datazoo_oauth.Base.{
  ok, ℕ, ◌≡◌, ◌≢◌, ◌↔◌, refl, true, false, some, List, [], ◌∷◌, ◌++◌, Bytes, IsBytes,
  IsBytes-literal, All, codes, length, eqb, eqb_iff, arith, Result, if◌then◌else◌, zero, suc, ◌+◌,
}
use datazoo_oauth.Base.Int.{pos}
use datazoo_oauth.CallbackHandler.Waiting.{heard, reported, nothing, verdict, wait_for_code_lem}
use datazoo_oauth.CallbackHandler.{
  Turn, arrives, tests, CallbackHandler, Event, callback, handle_callback, validate_state,
  wait_for_code, set_expected_state, reset,
}
use datazoo_oauth.CallbackHandler.Validate.{validate_state_iff}
use datazoo_oauth.CallbackHandler.Traffic.{Expects, started, state_of, is_delivery}
use datazoo_oauth.Server.{
  Server, Request, Activity, request, stopping, Poll, serve, act_all, act, unrelated_page,
  timeout_message,
}
use datazoo_oauth.Server
use datazoo_oauth.Server.Requests.{serve_unrelated, OnEvent, events}
use datazoo_oauth.Server.Waiting.{Paced, activities, wait_for_code_ends, wait_for_code-ok}

abbrev pub st : Bytes
st = codes "state"

abbrev pub idle : CallbackHandler
idle = record {
  expected_state = [];
  received_code = [];
  error_message = [];
  callback_received = false;
  has_error = false;
}

st-IsBytes : IsBytes st
st-IsBytes = IsBytes-literal st refl

st-given : st ≢ []
st-given e = cc

pub waiting-Expects : Expects st (started st idle)
unfolding set_expected_state
waiting-Expects = record { expected = refl; given = st-given; bytes = st-IsBytes }

validate_state_example :
    (validate_state (started st idle) st ≡ true)
    ↔ (((started st idle).expected_state ≢ []) × (st ≡ (started st idle).expected_state))
unfolding set_expected_state
validate_state_example = validate_state_iff (started st idle) st st-IsBytes st-IsBytes

-- The caller waits, a second code takes the mutex before the caller, and a third comes too late.
abbrev turns : List Turn
turns =
    tests
    ∷ arrives (callback (codes "evil") (codes "other"))
    ∷ arrives (callback (codes "good") st)
    ∷ arrives (callback (codes "better") st)
    ∷ tests
    ∷ arrives (callback (codes "late") st)
    ∷ []

wait_for_code_example :
    wait_for_code (started st idle) turns ≡ verdict (reported st nothing (heard st false turns))
unfolding eqb
wait_for_code_example =
    wait_for_code_lem st idle turns st-given st-IsBytes
      (IsBytes-literal (codes "other") refl, (st-IsBytes, (st-IsBytes, tt)))

wait_for_code-runs : verdict (reported st nothing (heard st false turns)) ≡ ok (codes "better")
unfolding eqb
wait_for_code-runs = refl

-- A request with a code and a state.
abbrev pub get_callback : Bytes → Bytes → Request
get_callback code state = record {
  path = codes "/callback";
  has_param = λ name. eqb name (codes "code");
  get_param_value = λ name.
      if eqb name (codes "code") then code else if eqb name (codes "state") then state else [];
}

abbrev pub listening : Server
listening = record {
  port = pos 8080;
  running = true;
  handler = started st idle;
  server_instance = some (pos 8080);
  server_thread = true;
}

other-differs : codes "other" ≢ st
unfolding eqb
other-differs e = let h : false ≡ true = (eqb_iff (codes "other") st).1 e in cc

serve_unrelated_example :
    serve listening (get_callback (codes "evil") (codes "other"))
    ≡ (listening, some (record { status = some 400; page = unrelated_page }))
unfolding eqb
serve_unrelated_example =
    serve_unrelated st listening (get_callback (codes "evil") (codes "other")) waiting-Expects
      (IsBytes-literal (codes "other") refl) other-differs refl refl

-- A poll every 250 ms in which nothing happens.
abbrev pub quiet : ℕ → ℕ → List Poll
quiet zero t = []
quiet (suc n) t = record { elapsed = t; activity = [] } ∷ quiet n (t + 250)

pub quiet-Paced : (n t : ℕ) → Paced t (quiet n t)
quiet-Paced zero t = tt
quiet-Paced (suc n) t = (omega arith, quiet-Paced n (t + 250))

pub length-quiet : (n t : ℕ) → length (quiet n t) ≡ n
length-quiet zero t = refl
length-quiet (suc n) t = omega (arith, length-quiet n (t + 250))

wait_for_code_ends_example :
    (r : Result Bytes) × (Server.wait_for_code listening (quiet 242 0) [] ≡ some r)
wait_for_code_ends_example =
    wait_for_code_ends listening (quiet 242 0) [] (quiet-Paced 242 0)
      (omega (arith, length-quiet 242 0))

-- A forged request and then the genuine one.
abbrev busy : List Poll
busy =
    record {
      elapsed = 0;
      activity =
          request (get_callback (codes "evil") (codes "other"))
          ∷ request (get_callback (codes "good") st)
          ∷ [];
    }
    ∷ []

busy-IsBytes : All (OnEvent (λ e. IsBytes (state_of e))) (activities busy)
unfolding eqb
busy-IsBytes = ((IsBytes-literal (codes "other") refl, tt), ((st-IsBytes, tt), tt))

wait_for_code-ok_example :
    (seen unseen : List Activity) × (activities busy ≡ seen ++ unseen)
    × ((before after : List Event) × (events (seen ++ [])
          ≡ before ++ (callback (codes "good") st ∷ after))
        × All (λ e. is_delivery st e ≡ false) after)
unfolding Server.wait_for_code act_all act eqb handle_callback validate_state set_expected_state
    reset
wait_for_code-ok_example =
    wait_for_code-ok st idle listening busy [] (codes "good") st-given st-IsBytes refl busy-IsBytes
      tt refl
