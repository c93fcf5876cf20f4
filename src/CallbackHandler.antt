-- ===== src/CallbackHandler.antt =====
-- src/oauth2_callback_handler.cpp: the callback state of one flow. Every method holds the mutex, so
-- calls from several threads are a sequence of calls; only a wait gives the mutex up in between.
pub mod Validate
pub mod Traffic
pub mod Waiting
use Prim.Native.Nat.{bit_or, bit_xor}
use datazoo_oauth.Base.{
  ℕ, ◌+◌, ◌%◌, Bool, true, false, not, ◌&&◌, ◌||◌, List, [], ◌∷◌, ◌++◌, Bytes, codes, ◌==◌,
  if◌then◌else◌, length, is_empty, Result, ok, err, runtime_error,
}

pub record CallbackHandler : Type 0 where
  pub expected_state : Bytes
  pub received_code : Bytes
  pub error_message : Bytes
  pub callback_received : Bool
  pub has_error : Bool

unfoldable pub reset : CallbackHandler → CallbackHandler
reset h = record {
  expected_state = [];
  received_code = [];
  error_message = [];
  callback_received = false;
  has_error = false;
}

unfoldable pub set_expected_state : CallbackHandler → Bytes → CallbackHandler
set_expected_state h expected = record h { expected_state = expected }

-- `diff |= static_cast<unsigned char>(received[i] ^ expected[i])` over two strings of one length.
diff_loop : Bytes → Bytes → ℕ → ℕ
diff_loop [] expected diff = diff
diff_loop (r ∷ received) [] diff = diff
diff_loop (r ∷ received) (e ∷ expected) diff =
    diff_loop received expected (bit_or diff (bit_xor r e % 256))

unfoldable pub validate_state : CallbackHandler → Bytes → Bool
unfolding diff_loop
validate_state h received =
    if is_empty h.expected_state || not (length received == length h.expected_state)
    then false
    else diff_loop received h.expected_state 0 == 0

unfoldable pub handle_callback : CallbackHandler → Bytes → Bytes → CallbackHandler × Bool
handle_callback h code state =
    if not (validate_state h state)
    then (h, false)
    else (record h { received_code = code; callback_received = true }, true)

unfoldable pub handle_error : CallbackHandler → Bytes → Bytes → Bytes → CallbackHandler × Bool
handle_error h error description state = if not (validate_state h state) then (h, false) else (
  record h {
    error_message = codes "OAuth2 error: " ++ (error ++ (codes " - " ++ description));
    has_error = true;
  },
  true,
)

-- What a request on the callback port does to the handler.
pub data Event : Type 0 where
  callback : Bytes → Bytes → Event
  error : Bytes → Bytes → Bytes → Event

unfoldable pub handle : CallbackHandler → Event → CallbackHandler
handle h (callback code state) = (handle_callback h code state).0
handle h (error e description state) = (handle_error h e description state).0

unfoldable pub handle_all : CallbackHandler → List Event → CallbackHandler
handle_all h [] = h
handle_all h (e ∷ es) = handle_all (handle h e) es

-- What happens while a caller waits: a request takes the mutex, or the waiting caller takes it and tests
-- the predicate, at first, after a notification or without one. A notification wakes the caller, which
-- still has to wait for the mutex: other requests may come first.
pub data Turn : Type 0 where
  arrives : Event → Turn
  tests : Turn

-- `code_cv_.wait_for`, up to the timeout, at which the predicate is tested for the last time.
unfoldable pub wait_for : CallbackHandler → List Turn → CallbackHandler
wait_for h [] = h
wait_for h (arrives e ∷ ts) = wait_for (handle h e) ts
wait_for h (tests ∷ ts) =
    let later = wait_for h ts in if h.callback_received || h.has_error then h else later

finish_wait : CallbackHandler → Result Bytes
finish_wait h =
    if not (h.callback_received || h.has_error)
    then err (runtime_error (codes "Timeout waiting for OAuth2 callback"))
    else if h.has_error
    then err (runtime_error (codes "OAuth2 error: " ++ h.error_message))
    else if h.callback_received && not (is_empty h.received_code)
    then ok h.received_code
    else err (runtime_error (codes "No authorization code received"))

unfoldable pub wait_for_code : CallbackHandler → List Turn → Result Bytes
unfolding finish_wait
wait_for_code h turns = finish_wait (wait_for h turns)

unfoldable pub get_error_message : CallbackHandler → Bytes
get_error_message h = h.error_message

unfoldable pub get_received_code : CallbackHandler → Bytes
get_received_code h = h.received_code
