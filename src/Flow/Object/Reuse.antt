-- ===== src/Flow/Object/Reuse.antt =====
-- A flow as an object gives what the flow gives, and cannot be used a second time.
use datazoo_oauth.Base.{
  ℕ, ◌≡◌, ◌⊎◌, refl, ◌∙◌, ap, sym, true, false, inl, inr, Option, none, some, Option-cases, List,
  [], ◌∷◌, Bytes, codes, Result, Result-cases, ok, err, arith,
}
use datazoo_oauth.Base.Int.{ℤ}
use datazoo_oauth.OauthTypes.{OauthConfig, OauthTokens}
use datazoo_oauth.Http.Message.{HttpResponse}
use datazoo_oauth.SecretManager.Json.{Yyjson}
use datazoo_oauth.Server.{
  Server, Request, Activity, request, stopping, Poll, StartOutcome, started, threw, terminated,
  start, serve, act, act_all, wait_loop, report, wait_for_code, start_and_wait_for_code,
  chosen_port,
}
use datazoo_oauth.Server.Starting.{listening, start-listening}
use datazoo_oauth.Flow.{
  Endpoint, World, Attempt, prepare, generate_code_verifier, generate_state, callback_port,
  exchange_code_for_tokens, execute_authorization_code_flow, execute_flow, listen, with_verifier,
  redeem,
}
use datazoo_oauth.Flow.Object.{
  OauthFlow, Ending, returned, ends_process, still_waits, waited, listening_on, attempt_of,
  with_state, with_verifier_drawn, authorize, exchanged, execute, outcome,
}

-- The code with the stored verifier, as the flow without an object has it.
code_and_verifier : Ending Bytes → Option (Result (Bytes × Bytes))
code_and_verifier (returned (err e) flow) = some (err e)
code_and_verifier (returned (ok code) flow) = some (ok (flow.stored_code_verifier, code))
code_and_verifier ends_process = none
code_and_verifier still_waits = none

waited_lem :
    (flow : OauthFlow) (s : Server) (ps : List Poll) (late : List Activity)
    → code_and_verifier (waited flow (wait_loop s ps) late)
      ≡ with_verifier flow.stored_code_verifier (wait_for_code s ps late)
unfolding waited wait_for_code with_verifier code_and_verifier
waited_lem flow s ps late = by_loop (wait_loop s ps)
  where
    by_report :
        (r : Result Bytes) (flow' : OauthFlow)
        → flow'.stored_code_verifier ≡ flow.stored_code_verifier
        → code_and_verifier (returned r flow') ≡ with_verifier flow.stored_code_verifier (some r)
    by_report (err e) flow' same = refl
    by_report (ok code) flow' same = ap (λ v. some (ok (v, code))) same

    by_loop :
        (o : Option Server)
        → code_and_verifier (waited flow o late)
          ≡ with_verifier flow.stored_code_verifier (elim o as (λ _. Option (Result Bytes)) [
            | none ↦ none
            | some s' ↦ some (report (act_all s' late))
          ])
    by_loop none = refl
    by_loop (some s') = by_report (report (act_all s' late)) _ refl

listening_on_lem :
    (w : World) (flow : OauthFlow) (a : Attempt)
    → flow.stored_code_verifier ≡ a.code_verifier
    → code_and_verifier
        (listening_on w flow a (start w.port_to_string w.bind_to_port flow.server a.state a.port))
      ≡ listen w flow.server (ok a)
unfolding listening_on listen start_and_wait_for_code
listening_on_lem w flow a same =
    by_start (start w.port_to_string w.bind_to_port flow.server a.state a.port)
  where
    by_start :
        (o : StartOutcome)
        → code_and_verifier (listening_on w flow a o)
          ≡ with_verifier a.code_verifier (elim o as (λ _. Option (Result Bytes)) [
            | started s' ↦ wait_for_code s' (w.polls a) (w.late a)
            | threw s' e ↦ some (err e)
            | terminated ↦ none
          ])
    by_start (started s') =
        waited_lem flow s' (w.polls a) (w.late a)
        ∙ ap (λ v. with_verifier v (wait_for_code s' (w.polls a) (w.late a))) same
    by_start (threw s' e) = unfold code_and_verifier with_verifier in refl
    by_start terminated = unfold code_and_verifier with_verifier in refl

authorize_lem :
    (w : World) (flow : OauthFlow) (config : OauthConfig)
    → code_and_verifier (authorize w flow config)
      ≡ execute_authorization_code_flow w flow.server config
unfolding authorize with_verifier_drawn with_state execute_authorization_code_flow prepare
    attempt_of
authorize_lem w flow config = elim (Result-cases (generate_code_verifier w.verifier_bytes)) [
  | inl (e, failed) ↦ rw failed (unfold code_and_verifier listen in refl)
  | inr (v, drawn) ↦ elim (Result-cases (generate_state w.state_bytes)) [
    | inl (e, failed) ↦ rw drawn (rw failed (unfold code_and_verifier listen in refl))
    | inr (st, drawn_too) ↦ rw drawn (
        rw drawn_too (
          listening_on_lem w (record flow { stored_code_verifier = v }) (attempt_of w config v st)
            refl))
  ]
]

-- The object adds nothing to what the caller gets.
pub execute-execute_flow :
    (y : Yyjson) (base64 : Bytes → Bytes) (content : HttpResponse → Bytes) (send : Endpoint)
    (w : World) (flow : OauthFlow) (config : OauthConfig) (now : ℕ)
    → outcome (execute y base64 content send w flow config now)
      ≡ execute_flow y base64 content send w flow.server config now
unfolding execute execute_flow
execute-execute_flow y base64 content send w flow config now =
    by_ending (authorize w flow config)
    ∙ ap (redeem (exchange_code_for_tokens y base64 content send config now))
        (authorize_lem w flow config)
  where
    by_ending :
        (o : Ending Bytes)
        → outcome (exchanged (exchange_code_for_tokens y base64 content send config now) o)
          ≡ redeem (exchange_code_for_tokens y base64 content send config now) (code_and_verifier o)
    by_ending (returned (err e) f) = unfold exchanged redeem code_and_verifier in refl
    by_ending (returned (ok code) f) = unfold exchanged redeem code_and_verifier in refl
    by_ending ends_process = unfold exchanged redeem code_and_verifier in refl
    by_ending still_waits = unfold exchanged redeem code_and_verifier in refl

-- Nothing that happens during a wait ends the listener's thread.
serve-server_thread : (s : Server) (r : Request) → (serve s r).0.server_thread ≡ s.server_thread
unfolding serve
serve-server_thread s r = ground arith

act_all-server_thread :
    (s : Server) (as' : List Activity) → (act_all s as').server_thread ≡ s.server_thread
unfolding act_all act serve
act_all-server_thread s [] = refl
act_all-server_thread s (stopping ∷ as') = act_all-server_thread (record s { running = false }) as'
act_all-server_thread s (request r ∷ as') =
    act_all-server_thread (serve s r).0 as' ∙ serve-server_thread s r

wait_loop-server_thread :
    (s s' : Server) (ps : List Poll) → wait_loop s ps ≡ some s' → s'.server_thread ≡ s.server_thread
unfolding wait_loop
wait_loop-server_thread s s' [] h = absurd (cc)
wait_loop-server_thread s s' (p ∷ ps) h = ground (
  arith,
  wait_loop-server_thread (act_all s p.activity) s' ps,
  act_all-server_thread s p.activity,
)

-- Every port can be bound, and the two draws succeed.
pub record CanListen (w : World) : Type 0 where
  pub bound : (p : ℤ) → w.bind_to_port (codes "localhost") p ≡ true
  pub verifier : Bytes
  pub drawn : generate_code_verifier w.verifier_bytes ≡ ok verifier
  pub state : Bytes
  pub drawn_too : generate_state w.state_bytes ≡ ok state

waited-server_thread :
    (flow flow' : OauthFlow) (s : Server) (ps : List Poll) (late : List Activity) (r : Result Bytes)
    → waited flow (wait_loop s ps) late ≡ returned r flow'
    → flow'.server.server_thread ≡ s.server_thread
unfolding waited
waited-server_thread flow flow' s ps late r h = by_loop (Option-cases (wait_loop s ps))
  where
    by_loop :
        (wait_loop s ps ≡ none) ⊎ ((s' : Server) × (wait_loop s ps ≡ some s'))
        → flow'.server.server_thread ≡ s.server_thread
    by_loop (inl e) = absurd (cc)
    by_loop (inr (s', e)) =
        let same : act_all s' late ≡ flow'.server = ground arith in
        ap (λ (t : Server). t.server_thread) (sym same)
        ∙ act_all-server_thread s' late
        ∙ wait_loop-server_thread s s' ps e

authorize_started :
    (w : World) (flow : OauthFlow) (config : OauthConfig)
    → (c : CanListen w)
    → authorize w flow config
      ≡ listening_on w
          (record flow { stored_code_verifier = c.verifier })
          (attempt_of w config c.verifier c.state)
          (start w.port_to_string w.bind_to_port flow.server c.state (callback_port config))
unfolding authorize with_verifier_drawn with_state attempt_of
authorize_started w flow config c = rw c.drawn (rw c.drawn_too refl)

authorize-server_thread :
    (w : World) (flow flow' : OauthFlow) (config : OauthConfig) (r : Result Bytes)
    → CanListen w
    → flow.server.server_thread ≡ false
    → authorize w flow config ≡ returned r flow'
    → flow'.server.server_thread ≡ true
unfolding listening_on
authorize-server_thread w flow flow' config r c idle h =
    let a = attempt_of w config c.verifier c.state in
    waited-server_thread (record flow { stored_code_verifier = c.verifier }) flow'
      (listening flow.server c.state (callback_port config)) (w.polls a) (w.late a) r
      (sym (
          authorize_started w flow config c
          ∙ ap (listening_on w (record flow { stored_code_verifier = c.verifier }) a) (
              start-listening w.port_to_string w.bind_to_port flow.server c.state
                (callback_port config) c.bound idle))
        ∙ h)

authorize_again :
    (w : World) (flow : OauthFlow) (config : OauthConfig)
    → CanListen w
    → flow.server.server_thread ≡ true
    → authorize w flow config ≡ ends_process
unfolding start listening_on
authorize_again w flow config c busy =
    authorize_started w flow config c
    ∙ rw (c.bound (chosen_port flow.server (callback_port config))) (rw busy refl)

exchanged-returned :
    (exchange : Bytes → Bytes → Result OauthTokens) (o : Ending Bytes) (r : Result OauthTokens)
    (flow : OauthFlow)
    → exchanged exchange o ≡ returned r flow
    → (code : Result Bytes) × (o ≡ returned code flow)
unfolding exchanged
exchanged-returned exchange (returned (err e) f) r flow h = (err e, ground arith)
exchanged-returned exchange (returned (ok code) f) r flow h = (ok code, ground arith)
exchanged-returned exchange ends_process r flow h = absurd (cc)
exchanged-returned exchange still_waits r flow h = absurd (cc)

-- A flow object serves one flow only. Take an object without a running listener, such as a new one, on
-- which one flow has returned, with tokens or with an error, after its draws from the CSPRNG succeeded
-- and its port was bound. If the draws of a second flow on the object that it left succeed and its port
-- can be bound too, that flow ends the process.
pub execute_twice :
    (y : Yyjson) (base64 : Bytes → Bytes) (content : HttpResponse → Bytes) (send : Endpoint)
    (w w' : World) (flow flow' : OauthFlow) (config config' : OauthConfig) (now now' : ℕ)
    (r : Result OauthTokens)
    → CanListen w
    → CanListen w'
    → flow.server.server_thread ≡ false
    → execute y base64 content send w flow config now ≡ returned r flow'
    → execute y base64 content send w' flow' config' now' ≡ ends_process
unfolding execute exchanged
execute_twice y base64 content send w w' flow flow' config config' now now' r c c' idle h =
    let exchange = exchange_code_for_tokens y base64 content send config now in
    let (code, reached) = exchanged-returned exchange (authorize w flow config) r flow' h in
    let busy = authorize-server_thread w flow flow' config code c idle reached in
    ap (exchanged (exchange_code_for_tokens y base64 content send config' now'))
      (authorize_again w' flow' config' c' busy)
