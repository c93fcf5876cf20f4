-- ===== src/Server.antt =====
-- src/oauth2_server.cpp: the loopback server. A request is seen through httplib's `has_param` and
-- `get_param_value`. The threads appear as the order of the requests and of the polls of the waiting
-- caller. The static markup of a page is its constructor.
pub mod Requests
pub mod Waiting
pub mod Delivery
pub mod Starting
use datazoo_oauth.Base.{
  ℕ, ◌+◌, ◌*◌, Bool, true, false, not, ◌&&◌, ◌||◌, Option, none, some, List, [], ◌∷◌, ◌++◌, Bytes,
  codes, eqb, ltb, if◌then◌else◌, Result, Error, ok, err, runtime_error,
}
use datazoo_oauth.Base.Int.{ℤ, pos, ltb_ℤ}
use datazoo_oauth.Encoding.{escape_html_text}
use datazoo_oauth.CallbackHandler.{
  CallbackHandler, reset, set_expected_state, handle_callback, handle_error,
}

-- httplib's view of a request.
pub record Request : Type 0 where
  pub path : Bytes
  pub has_param : Bytes → Bool
  pub get_param_value : Bytes → Bytes

pub data Page : Type 0 where
  success_page waiting_page unrelated_page : Page
  error_page : Bytes → Page

-- `none` where the handler leaves the status to httplib.
pub record Response : Type 0 where
  pub status : Option ℕ
  pub page : Page

pub record Server : Type 0 where
  pub port : ℤ
  pub running : Bool
  pub handler : CallbackHandler
  pub server_instance : Option ℤ
  pub server_thread : Bool

serve_unrelated_request_page : Response
serve_unrelated_request_page = record { status = some 400; page = unrelated_page }

-- What the error page says about the two query parameters.
error_details : Bytes → Bytes → Bytes
error_details error description =
    codes "<p><span class='error-label'>Error:</span> "
    ++ (escape_html_text error
        ++ (codes "</p>"
            ++ (codes "<p><span class='error-label'>Description:</span> "
                ++ (escape_html_text description ++ codes "</p>"))))

abbrev shown : Page → Response
shown p = record { status = none; page = p }

-- The answer to a request with a code, by the outcome of `HandleCallback`.
answer_code : CallbackHandler × Bool → CallbackHandler × Response
unfolding serve_unrelated_request_page
answer_code (h, true) = (h, shown success_page)
answer_code (h, false) = (h, serve_unrelated_request_page)

-- The answer to a request with an error, by the outcome of `HandleError`.
answer_error : Bytes → Bytes → CallbackHandler × Bool → CallbackHandler × Response
unfolding serve_unrelated_request_page error_details
answer_error error description (h, true) = (h, shown (error_page (error_details error description)))
answer_error error description (h, false) = (h, serve_unrelated_request_page)

-- `oauth_handler`.
unfoldable pub oauth_handler : CallbackHandler → Request → CallbackHandler × Response
unfolding answer_code answer_error
oauth_handler h req =
    let code = req.get_param_value (codes "code") in
    let state = req.get_param_value (codes "state") in
    let error = req.get_param_value (codes "error") in
    let description = req.get_param_value (codes "error_description") in
    if req.has_param (codes "code")
    then answer_code (handle_callback h code state)
    else if req.has_param (codes "error")
    then answer_error error description (handle_error h error description state)
    else (h, shown waiting_page)

-- The two routes that are registered; httplib answers any other path itself.
unfoldable pub serve : Server → Request → Server × Option Response
unfolding oauth_handler
serve s req =
    let answer = oauth_handler s.handler req in
    if eqb req.path (codes "/") || eqb req.path (codes "/callback")
    then (record s { handler = answer.0 }, some answer.1)
    else (s, none)

unfoldable pub new_server : ℤ → CallbackHandler → Server
new_server port h = record {
  port = port;
  running = false;
  handler = h;
  server_instance = none;
  server_thread = false;
}

-- `terminated`: the assignment to a std::thread that is still joinable ends the process.
pub data StartOutcome : Type 0 where
  started : Server → StartOutcome
  threw : Server → Error → StartOutcome
  terminated : StartOutcome

abbrev pub chosen_port : Server → ℤ → ℤ
chosen_port s requested = if ltb_ℤ (pos 0) requested then requested else s.port

-- `to_string` prints the port; `bind_to_port` is httplib's.
unfoldable pub start : (ℤ → Bytes) → (Bytes → ℤ → Bool) → Server → Bytes → ℤ → StartOutcome
start to_string bind_to_port s expected_state requested =
    let p = chosen_port s requested in
    let h = set_expected_state (reset s.handler) expected_state in
    if not (bind_to_port (codes "localhost") p)
    then threw (record s { handler = h; server_instance = none })
        (runtime_error (
          codes "cannot listen on localhost:"
          ++ (to_string p ++ codes " for the OAuth2 redirect (is the port in use?)")))
    else if s.server_thread
    then terminated
    else started
        (record s { handler = h; server_instance = some p; server_thread = true; running = true })

unfoldable pub stop : Server → Server
stop s = record s { running = false; server_instance = none; server_thread = false }

-- What happens between two polls of the waiting caller.
pub data Activity : Type 0 where
  request : Request → Activity
  stopping : Activity

unfoldable pub act : Server → Activity → Server
unfolding serve
act s (request r) = (serve s r).0
act s stopping = record s { running = false }

unfoldable pub act_all : Server → List Activity → Server
act_all s [] = s
act_all s (a ∷ as') = act_all (act s a) as'

-- A test of the loop condition: the milliseconds since the wait began, and what happened before.
pub record Poll : Type 0 where
  pub elapsed : ℕ
  pub activity : List Activity

abbrev timeout_duration : ℕ
timeout_duration = 60 * 1000

abbrev pub is_waiting : Server → Bool
is_waiting s = s.running && (not s.handler.callback_received && not s.handler.has_error)

-- The polling loop; `none` if the polls end while it still waits.
unfoldable pub wait_loop : Server → List Poll → Option Server
wait_loop s [] = none
wait_loop s (p ∷ ps) =
    let s' = act_all s p.activity in
    let rest = wait_loop s' ps in
    if not (is_waiting s')
    then some s'
    else if ltb timeout_duration p.elapsed
    then some s'
    else rest

abbrev pub timeout_message : Bytes
timeout_message =
    codes "Timeout waiting for OAuth2 callback: no redirect reached the local listener. Either "
    ++ (codes "the authorization URL was never opened (on a headless session nothing can open it - "
        ++ (codes
              "the URL is printed above for you to open yourself), or the redirect could not reach "
            ++ codes "this machine's callback port."))

unfoldable pub report : Server → Result Bytes
report s =
    if s.handler.has_error
    then err (runtime_error (codes "OAuth2 error: " ++ s.handler.error_message))
    else if s.handler.callback_received
    then ok s.handler.received_code
    else err (runtime_error timeout_message)

-- `late` is what happens between the end of the loop and the reading of the result.
unfoldable pub wait_for_code : Server → List Poll → List Activity → Option (Result Bytes)
unfolding wait_loop report
wait_for_code s polls late = elim (wait_loop s polls) [
  | none ↦ none
  | some s' ↦ some (report (act_all s' late))
]

-- `StartAndWaitForCode`.
unfoldable pub start_and_wait_for_code :
    (ℤ → Bytes)
    → (Bytes → ℤ → Bool)
    → Server
    → Bytes
    → ℤ
    → List Poll
    → List Activity
    → Option (Result Bytes)
unfolding start
start_and_wait_for_code to_string bind_to_port s expected_state port polls late =
    elim (start to_string bind_to_port s expected_state port) [
      | started s' ↦ wait_for_code s' polls late
      | threw s' e ↦ some (err e)
      | terminated ↦ none
    ]
