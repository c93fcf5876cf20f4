-- ===== src/Flow/Forged.antt =====
-- A flow whose listener only hears requests without the flow's state.
use datazoo_oauth.Base.{
  ◌∙◌, ℕ, ◌≤◌, ◌≡◌, ◌≢◌, refl, true, false, Option, some, List, [], ◌∷◌, length, Bytes, IsBytes,
  All, codes, eqb, arith, ok, err, runtime_error,
}
use datazoo_oauth.Base.Int.{ℤ}
use datazoo_oauth.Encoding.Token.{IsRandomSource, generate_secure_random_token_lem, IsUnreserved}
use datazoo_oauth.OauthTypes.{OauthConfig}
use datazoo_oauth.Http.Message.{HttpResponse}
use datazoo_oauth.SecretManager.Json.{Yyjson}
use datazoo_oauth.CallbackHandler.{reset, set_expected_state}
use datazoo_oauth.CallbackHandler.Traffic.{state_of}
use datazoo_oauth.Server.{Server, Activity, timeout_message}
use datazoo_oauth.Server.Starting.{listening, listening-Expects, start_and_wait-listening}
use datazoo_oauth.Server.Requests.{OnEvent}
use datazoo_oauth.Server.Waiting.{Paced, activities, wait_for_code_forged}
use datazoo_oauth.Flow.{
  Attempt, World, prepare, execute_flow, execute_authorization_code_flow, Endpoint, generate_state,
  with_verifier, listen, redeem,
}
use datazoo_oauth.Flow.Pkce.{prepare-ok}

unreserved-IsBytes : (s : Bytes) → All IsUnreserved s → IsBytes s
unreserved-IsBytes [] h = tt
unreserved-IsBytes (c ∷ s) (u, hs) = (ground arith, unreserved-IsBytes s hs)

pub state-given :
    (source : ℕ → Option Bytes) (st : Bytes)
    → IsRandomSource source
    → generate_state source ≡ ok st
    → (st ≢ []) × IsBytes st
unfolding generate_state
state-given source st random drawn =
    let (size, unreserved, _) = generate_secure_random_token_lem source 24 st random drawn in
    (λ e. ground (arith, e), unreserved-IsBytes st unreserved)

-- The activity brings no request with the state `st`.
abbrev pub Lacks : Bytes → List Activity → Type 0
Lacks st = All (OnEvent (λ e. IsBytes (state_of e) × (eqb (state_of e) st ≡ false)))

-- A flow whose listener binds its port on a server without a running thread, while every request
-- that reaches it lacks the state drawn for the flow, ends with the timeout error after 242 polls
-- at least 250 ms apart, whatever the token endpoint would answer.
pub execute_flow_forged :
    (y : Yyjson) (base64 : Bytes → Bytes) (content : HttpResponse → Bytes) (send : Endpoint)
    (w : World) (server : Server) (config : OauthConfig) (now : ℕ) (a : Attempt)
    → IsRandomSource w.state_bytes
    → prepare w.verifier_bytes w.state_bytes w.sha256 config ≡ ok a
    → ((p : ℤ) → w.bind_to_port (codes "localhost") p ≡ true)
    → server.server_thread ≡ false
    → Lacks a.state (activities (w.polls a))
    → Lacks a.state (w.late a)
    → Paced 0 (w.polls a)
    → 242 ≤ length (w.polls a)
    → execute_flow y base64 content send w server config now
      ≡ some (err (runtime_error timeout_message))
unfolding execute_flow execute_authorization_code_flow listen with_verifier redeem
    set_expected_state reset
execute_flow_forged y base64 content send w server config now a random prepared bound idle lp ll
      pace enough =
    let (_, drawn, _) = prepare-ok w.verifier_bytes w.state_bytes w.sha256 config a prepared in
    let (given, bytes) = state-given w.state_bytes a.state random drawn in
    let print = w.port_to_string in
    let fails =
      start_and_wait-listening print w.bind_to_port server a.state a.port (w.polls a) (w.late a)
        bound idle
      ∙ wait_for_code_forged a.state (listening server a.state a.port) (w.polls a) (w.late a)
          (listening-Expects server a.state a.port given bytes) refl refl lp ll pace enough in
    rw (prepared, fails) refl
