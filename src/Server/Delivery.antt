-- ===== src/Server/Delivery.antt =====
-- A redirect that arrives in time ends the wait with its code.
use datazoo_oauth.Base.{
  ◌≤◌, ◌≡◌, refl, ap, ◌∙◌, true, false, some, List, [], ◌∷◌, ◌++◌, Bytes, IsBytes, All, eqb,
  eqb_refl, ltb, ok, arith,
}
use datazoo_oauth.CallbackHandler.{
  CallbackHandler, Event, callback, handle, handle_all, handle_callback,
}
use datazoo_oauth.CallbackHandler.Traffic.{Expects, state_of, validate-eqb, handle_all_forged}
use datazoo_oauth.Server.{
  Server, Request, Activity, request, stopping, Poll, serve, act, act_all, wait_loop, report,
  wait_for_code, is_waiting,
}
use datazoo_oauth.Server.Requests.{
  OnEvent, event_of, events, events-All, act_all-handler, serve-handler,
}
use datazoo_oauth.Server.Waiting.{act_all-append, wait_for_code_of_loop}

-- The event lacks the state `st`.
abbrev pub IsForged : Bytes → Event → Type 0
IsForged st e = IsBytes (state_of e) × (eqb (state_of e) st ≡ false)

-- A request that lacks the state `st`; the server is not stopped.
abbrev pub IsForeign : Bytes → Activity → Type 0
IsForeign st (request r) = All (IsForged st) (event_of r)
IsForeign st stopping = ⊥

-- A poll within the 60 seconds, with foreign requests only.
abbrev pub IsQuiet : Bytes → Poll → Type 0
IsQuiet st p = (p.elapsed ≤ 60000) × All (IsForeign st) p.activity

serve-handler_only :
    (s : Server) (r : Request) → (serve s r).0 ≡ record s { handler = (serve s r).0.handler }
unfolding serve
serve-handler_only s r = ground arith

act_foreign :
    (st : Bytes) (s : Server) (r : Request)
    → Expects st s.handler
    → All (IsForged st) (event_of r)
    → (serve s r).0 ≡ s
act_foreign st s r x f =
    serve-handler_only s r
    ∙ ap (λ h. record s { handler = h })
        (serve-handler s r ∙ handle_all_forged st s.handler (event_of r) x f)

act_all_foreign :
    (st : Bytes) (s : Server) (as' : List Activity)
    → Expects st s.handler
    → All (IsForeign st) as'
    → act_all s as' ≡ s
unfolding act_all act
act_all_foreign st s [] x f = refl
act_all_foreign st s (request r ∷ as') x (f, fs) =
    ap (λ t. act_all t as') (act_foreign st s r x f) ∙ act_all_foreign st s as' x fs
act_all_foreign st s (stopping ∷ as') x (f, fs) = absurd f

abbrev delivered : CallbackHandler → Bytes → CallbackHandler
delivered h code = record h { received_code = code; callback_received = true }

handle-delivered :
    (st code : Bytes) (h : CallbackHandler)
    → Expects st h
    → handle h (callback code st) ≡ delivered h code
unfolding handle handle_callback
handle-delivered st code h x = ground (arith, validate-eqb st st h x x.bytes, eqb_refl st)

serve-delivered :
    (st code : Bytes) (s : Server) (r : Request)
    → Expects st s.handler
    → event_of r ≡ callback code st ∷ []
    → (serve s r).0 ≡ record s { handler = delivered s.handler code }
unfolding handle_all
serve-delivered st code s r x e =
    serve-handler_only s r
    ∙ ap (λ h. record s { handler = h })
        (serve-handler s r ∙ ap (handle_all s.handler) e ∙ handle-delivered st code s.handler x)

delivered-Expects :
    (st code : Bytes) (h : CallbackHandler) → Expects st h → Expects st (delivered h code)
delivered-Expects st code h x = record { expected = x.expected; given = x.given; bytes = x.bytes }

-- The requests of one poll, one of them genuine.
act_all-delivered :
    (st code : Bytes) (s : Server) (before after : List Activity) (r : Request)
    → Expects st s.handler
    → All (IsForeign st) before
    → All (IsForeign st) after
    → event_of r ≡ callback code st ∷ []
    → act_all s (before ++ (request r ∷ after)) ≡ record s { handler = delivered s.handler code }
unfolding act_all act
act_all-delivered st code s before after r x fb fa e =
    act_all-append s before (request r ∷ after)
    ∙ ap (λ t. act_all t (request r ∷ after)) (act_all_foreign st s before x fb)
    ∙ ap (λ t. act_all t after) (serve-delivered st code s r x e)
    ∙ act_all_foreign st (record s { handler = delivered s.handler code }) after
        (delivered-Expects st code s.handler x) fa

loop_quiet :
    (st : Bytes) (s : Server) (quiet ps : List Poll)
    → Expects st s.handler
    → is_waiting s ≡ true
    → All (IsQuiet st) quiet
    → wait_loop s (quiet ++ ps) ≡ wait_loop s ps
unfolding wait_loop
loop_quiet st s [] ps x w q = refl
loop_quiet st s (p ∷ quiet) ps x w ((soon, f), q) =
    let under : ltb 60000 p.elapsed ≡ false = ground arith in
    rw (act_all_foreign st s p.activity x f, w, under) (loop_quiet st s quiet ps x w q)

-- The poll that sees the genuine request is the last one.
loop_delivered :
    (st code : Bytes) (s : Server) (p : Poll) (ps : List Poll) (before after : List Activity)
    (r : Request)
    → Expects st s.handler
    → p.activity ≡ before ++ (request r ∷ after)
    → All (IsForeign st) before
    → All (IsForeign st) after
    → event_of r ≡ callback code st ∷ []
    → wait_loop s (p ∷ ps) ≡ some (record s { handler = delivered s.handler code })
unfolding wait_loop
loop_delivered st code s p ps before after r x seen fb fa e =
    let out = ap (act_all s) seen ∙ act_all-delivered st code s before after r x fb fa e in
    let done : is_waiting (record s { handler = delivered s.handler code }) ≡ false =
      ground arith in
    rw (out, done) refl

report_late :
    (st code : Bytes) (s : Server) (late : List Activity)
    → Expects st s.handler
    → s.handler.callback_received ≡ true
    → s.handler.has_error ≡ false
    → s.handler.received_code ≡ code
    → All (OnEvent (IsForged st)) late
    → report (act_all s late) ≡ ok code
unfolding report
report_late st code s late x got fine same f =
    let kept =
      act_all-handler s late
      ∙ handle_all_forged st s.handler (events late) x (events-All (IsForged st) late f) in
    ground (arith, kept)

-- A wait that expects the state `st` and has heard nothing ends with a code, given polls within the
-- 60 seconds whose requests all lack `st`, then a poll with one request that carries the code and
-- `st` and otherwise only requests that lack it, whatever the later polls are and as long as no
-- request with `st` comes before the result is read.
pub wait_for_code_delivered :
    (st code : Bytes) (s : Server) (quiet ps : List Poll) (p : Poll)
    (before after late : List Activity) (r : Request)
    → Expects st s.handler
    → s.running ≡ true
    → s.handler.callback_received ≡ false
    → s.handler.has_error ≡ false
    → All (IsQuiet st) quiet
    → p.activity ≡ before ++ (request r ∷ after)
    → All (IsForeign st) before
    → All (IsForeign st) after
    → event_of r ≡ callback code st ∷ []
    → All (OnEvent (IsForged st)) late
    → wait_for_code s (quiet ++ (p ∷ ps)) late ≡ some (ok code)
wait_for_code_delivered st code s quiet ps p before after late r x runs nc ne q seen fb fa e fl =
    let s' : Server = record s { handler = delivered s.handler code } in
    let waits : is_waiting s ≡ true = ground arith in
    let ends =
      loop_quiet st s quiet (p ∷ ps) x waits q
      ∙ loop_delivered st code s p ps before after r x seen fb fa e in
    wait_for_code_of_loop s s' (quiet ++ (p ∷ ps)) late ends
    ∙ ap some (report_late st code s' late (delivered-Expects st code s.handler x) refl ne refl fl)
