-- ===== src/Flow/Object.antt =====
-- OAuth2FlowV2 as an object: the listener and the verifier that one flow leaves to the next.
pub mod Reuse
use datazoo_oauth.Base.{ℕ, Option, none, some, List, [], Bytes, Result, ok, err}
use datazoo_oauth.Base.Int.{pos}
use datazoo_oauth.CallbackHandler.{CallbackHandler}
use datazoo_oauth.OauthTypes.{OauthConfig, OauthTokens}
use datazoo_oauth.Http.Message.{HttpResponse}
use datazoo_oauth.SecretManager.Json.{Yyjson}
use datazoo_oauth.Server.{
  Server, Activity, StartOutcome, started, threw, terminated, start, act_all, wait_loop, report,
  new_server,
}
use datazoo_oauth.Flow.{
  Endpoint, World, Attempt, generate_code_verifier, generate_state, generate_code_challenge,
  build_authorization_url, callback_port, exchange_code_for_tokens,
}

-- The members of a flow; its HTTP client is `Flow.Network.http_client`.
pub record OauthFlow : Type 0 where
  pub server : Server
  pub stored_code_verifier : Bytes

unfoldable pub new_flow : CallbackHandler → OauthFlow
new_flow handler = record { server = new_server (pos 65000) handler; stored_code_verifier = [] }

-- How a call of a method ends, with the object that it leaves.
pub data Ending (A : Type 0) : Type 0 where
  returned : Result A → OauthFlow → Ending A
  ends_process : Ending A
  still_waits : Ending A

-- `WaitForCode`, which leaves the server as the last activity made it.
waited : OauthFlow → Option Server → List Activity → Ending Bytes
waited flow none late = still_waits
waited flow (some s) late =
    returned (report (act_all s late)) (record flow { server = act_all s late })

listening_on : World → OauthFlow → Attempt → StartOutcome → Ending Bytes
unfolding waited
listening_on w flow a (started s) = waited flow (wait_loop s (w.polls a)) (w.late a)
listening_on w flow a (threw s e) = returned (err e) (record flow { server = s })
listening_on w flow a terminated = ends_process

attempt_of : World → OauthConfig → Bytes → Bytes → Attempt
attempt_of w config verifier st = record {
  code_verifier = verifier;
  state = st;
  auth_url = build_authorization_url config (generate_code_challenge w.sha256 verifier) st;
  port = callback_port config;
}

with_state : World → OauthFlow → OauthConfig → Bytes → Result Bytes → Ending Bytes
unfolding listening_on attempt_of
with_state w flow config verifier (err e) = returned (err e) flow
with_state w flow config verifier (ok st) =
    let a = attempt_of w config verifier st in
    listening_on w flow a (start w.port_to_string w.bind_to_port flow.server a.state a.port)

-- The verifier is stored as soon as it is drawn.
with_verifier_drawn : World → OauthFlow → OauthConfig → Result Bytes → Ending Bytes
unfolding with_state
with_verifier_drawn w flow config (err e) = returned (err e) flow
with_verifier_drawn w flow config (ok verifier) =
    with_state w (record flow { stored_code_verifier = verifier }) config verifier
      (generate_state w.state_bytes)

unfoldable pub authorize : World → OauthFlow → OauthConfig → Ending Bytes
unfolding with_verifier_drawn
authorize w flow config =
    with_verifier_drawn w flow config (generate_code_verifier w.verifier_bytes)

-- `ExecuteFlow` exchanges the code with the stored verifier.
exchanged : (Bytes → Bytes → Result OauthTokens) → Ending Bytes → Ending OauthTokens
exchanged exchange (returned (err e) flow) = returned (err e) flow
exchanged exchange (returned (ok code) flow) =
    returned (exchange code flow.stored_code_verifier) flow
exchanged exchange ends_process = ends_process
exchanged exchange still_waits = still_waits

unfoldable pub execute :
    (y : Yyjson)
    → (Bytes → Bytes)
    → (HttpResponse → Bytes)
    → Endpoint
    → World
    → OauthFlow
    → OauthConfig
    → ℕ
    → Ending OauthTokens
unfolding exchanged
execute y base64 content send w flow config now =
    exchanged (exchange_code_for_tokens y base64 content send config now) (authorize w flow config)

-- What the caller gets, if the call returns.
abbrev pub outcome : {A : Type 0} → Ending A → Option (Result A)
outcome (returned r flow) = some r
outcome ends_process = none
outcome still_waits = none
