-- ===== src/Server/Waiting.antt =====
-- The polling loop ends, and what it reports.
use datazoo_oauth.Base.{
  ℕ, ◌+◌, ◌*◌, ◌≤◌, ◌<◌, ◌≡◌, ◌≢◌, refl, ap, sym, ◌∙◌, subst, ◌⊎◌, inl, inr, true, false, some,
  List, [], ◌∷◌, ◌++◌, append_assoc, Bytes, IsBytes, All, All-append, All-append_left, eqb, length,
  arith, Result, ok, err, runtime_error, Bool-cases, Option-cases, ltb,
}
use datazoo_oauth.CallbackHandler.{CallbackHandler, Event, callback, handle_all}
use datazoo_oauth.CallbackHandler.Traffic.{
  Expects, state_of, is_delivery, started, handle_all_forged, handle_all-received_code,
}
use datazoo_oauth.Server.{
  Server, Activity, Poll, act, act_all, wait_loop, report, wait_for_code, timeout_message,
  is_waiting,
}
use datazoo_oauth.Server.Requests.{events, act_all-handler, OnEvent, events-All}

-- The caller sleeps 250 ms between two polls: from `t` on, each comes at least that much later.
abbrev pub Paced : ℕ → List Poll → Type 0
Paced t [] = Unit {0}
Paced t (p ∷ ps) = (t ≤ p.elapsed) × Paced (t + 250) ps

loop_step :
    (s : Server) (p : Poll) (ps : List Poll)
    → (wait_loop s (p ∷ ps) ≡ some (act_all s p.activity))
      ⊎ ((is_waiting (act_all s p.activity) ≡ true)
          × (p.elapsed ≤ 60000)
          × (wait_loop s (p ∷ ps) ≡ wait_loop (act_all s p.activity) ps))
unfolding wait_loop
loop_step s p ps = elim (Bool-cases (is_waiting (act_all s p.activity))) [
  | inr done ↦ inl (rw done refl)
  | inl waits ↦ elim (Bool-cases (ltb 60000 p.elapsed)) [
    | inl over ↦ inl (rw (waits, over) refl)
    | inr under ↦ inr (waits, ground arith, rw (waits, under) refl)
  ]
]

loop_ends :
    (s : Server) (ps : List Poll) (t : ℕ)
    → Paced t ps
    → t ≤ 60250
    → 60250 < t + 250 * length ps
    → (s' : Server) × (wait_loop s ps ≡ some s')
loop_ends s [] t pace low enough = absurd (omega arith)
loop_ends s (p ∷ ps) t (here, later) low enough = elim (loop_step s p ps) [
  | inl e ↦ (act_all s p.activity, e)
  | inr (_, under, e) ↦
      let (s', r) =
        loop_ends (act_all s p.activity) ps (t + 250) later (omega arith) (omega arith) in
      (s', e ∙ r)
]

pub wait_for_code_of_loop :
    (s s' : Server) (ps : List Poll) (late : List Activity)
    → wait_loop s ps ≡ some s'
    → wait_for_code s ps late ≡ some (report (act_all s' late))
unfolding wait_for_code
wait_for_code_of_loop s s' ps late e = ground arith

-- 242 polls at least 250 ms apart are enough: the caller of `WaitForCode` gets a result, whatever
-- the requests are.
pub wait_for_code_ends :
    (s : Server) (ps : List Poll) (late : List Activity)
    → Paced 0 ps
    → 242 ≤ length ps
    → (r : Result Bytes) × (wait_for_code s ps late ≡ some r)
wait_for_code_ends s ps late pace enough =
    let (s', e) = loop_ends s ps 0 pace (omega arith) (omega arith) in
    (report (act_all s' late), wait_for_code_of_loop s s' ps late e)

-- Everything that happens in some first polls.
abbrev pub activities : List Poll → List Activity
activities [] = []
activities (p ∷ ps) = p.activity ++ activities ps

pub act_all-append :
    (s : Server) (xs ys : List Activity) → act_all s (xs ++ ys) ≡ act_all (act_all s xs) ys
unfolding act_all
act_all-append s [] ys = refl
act_all-append s (x ∷ xs) ys = act_all-append (act s x) xs ys

-- The server after the loop has seen the activity of some first polls, and no more.
loop_prefix :
    (s s' : Server) (ps : List Poll)
    → wait_loop s ps ≡ some s'
    → (seen unseen : List Activity) × (activities ps ≡ seen ++ unseen) × (s' ≡ act_all s seen)
unfolding wait_loop
loop_prefix s s' [] h = absurd (cc)
loop_prefix s s' (p ∷ ps) h = elim (loop_step s p ps) [
  | inl e ↦ (p.activity, activities ps, refl, cc)
  | inr (_, _, e) ↦
      let (seen, unseen, split, found) = loop_prefix (act_all s p.activity) s' ps (sym e ∙ h) in
      (
        p.activity ++ seen,
        unseen,
        ap (◌++◌ p.activity) split ∙ sym (append_assoc p.activity seen unseen),
        found ∙ sym (act_all-append s p.activity seen),
      )
]

-- A result is what the handler holds after the requests that came before it was read.
wait_for_code_inv :
    (s : Server) (ps : List Poll) (late : List Activity) (r : Result Bytes)
    → wait_for_code s ps late ≡ some r
    → (seen unseen : List Activity) × (activities ps ≡ seen ++ unseen)
      × (r ≡ report (act_all s (seen ++ late)))
unfolding wait_for_code
wait_for_code_inv s ps late r h = elim (Option-cases (wait_loop s ps)) [
  | inl e ↦ absurd (ground arith)
  | inr (s', e) ↦
      let (seen, unseen, split, found) = loop_prefix s s' ps e in
      (
        seen,
        unseen,
        split,
        ground (
          arith,
          ap (λ (t : Server). report (act_all t late)) found,
          ap report (act_all-append s seen late),
        ),
      )
]

report_timeout :
    (s : Server)
    → s.handler.callback_received ≡ false
    → s.handler.has_error ≡ false
    → report s ≡ err (runtime_error timeout_message)
unfolding report
report_timeout s nc ne = ground arith

report-ok :
    (s : Server) (c : Bytes)
    → report s ≡ ok c
    → (s.handler.callback_received ≡ true) × (s.handler.received_code ≡ c)
unfolding report
report-ok s c h = ground arith

-- A predicate on everything that may come before the result is read.
seen-All :
    (P : Event → Type 0) (ps : List Poll) (seen unseen late : List Activity)
    → activities ps ≡ seen ++ unseen
    → All (OnEvent P) (activities ps)
    → All (OnEvent P) late
    → All P (events (seen ++ late))
seen-All P ps seen unseen late split all_polls all_late = events-All P (seen ++ late) (
    All-append (OnEvent P) seen late
      (All-append_left (OnEvent P) seen unseen (subst (All (OnEvent P)) split all_polls)) all_late)

-- A code that `WaitForCode` returns, for a flow started with the state `st`, was delivered with
-- that state: it stands in the last request before the result was read that had a code and `st`.
pub wait_for_code-ok :
    (st : Bytes) (h : CallbackHandler) (s : Server) (ps : List Poll) (late : List Activity)
    (c : Bytes)
    → st ≢ []
    → IsBytes st
    → s.handler ≡ started st h
    → All (OnEvent (λ e. IsBytes (state_of e))) (activities ps)
    → All (OnEvent (λ e. IsBytes (state_of e))) late
    → wait_for_code s ps late ≡ some (ok c)
    → (seen unseen : List Activity) × (activities ps ≡ seen ++ unseen)
      × ((before after : List Event) × (events (seen ++ late) ≡ before ++ (callback c st ∷ after))
          × All (λ e. is_delivery st e ≡ false) after)
wait_for_code-ok st h s ps late c given bytes begun bp bl done =
    let (seen, unseen, split, told) = wait_for_code_inv s ps late (ok c) done in
    let es = events (seen ++ late) in
    let now : (act_all s (seen ++ late)).handler ≡ handle_all (started st h) es =
      act_all-handler s (seen ++ late) ∙ ap (λ x. handle_all x es) begun in
    let (flag, code) = report-ok (act_all s (seen ++ late)) c (sym told) in
    let found =
      handle_all-received_code st h es given bytes
        (seen-All (λ e. IsBytes (state_of e)) ps seen unseen late split bp bl) (cc) in
    let same : (handle_all (started st h) es).received_code ≡ c = cc in
    (
      seen,
      unseen,
      split,
      subst
          (λ x.
            (before after : List Event) × (es ≡ before ++ (callback x st ∷ after))
            × All (λ e. is_delivery st e ≡ false) after)
          same found,
    )

-- While every request lacks the expected state, waiting ends with the timeout error, given 242
-- polls at least 250 ms apart.
pub wait_for_code_forged :
    (st : Bytes) (s : Server) (ps : List Poll) (late : List Activity)
    → Expects st s.handler
    → s.handler.callback_received ≡ false
    → s.handler.has_error ≡ false
    → All (OnEvent (λ e. IsBytes (state_of e) × (eqb (state_of e) st ≡ false))) (activities ps)
    → All (OnEvent (λ e. IsBytes (state_of e) × (eqb (state_of e) st ≡ false))) late
    → Paced 0 ps
    → 242 ≤ length ps
    → wait_for_code s ps late ≡ some (err (runtime_error timeout_message))
wait_for_code_forged st s ps late x nc ne fp fl pace enough =
    let (r, e) = wait_for_code_ends s ps late pace enough in
    let (seen, unseen, split, told) = wait_for_code_inv s ps late r e in
    let es = events (seen ++ late) in
    let kept : (act_all s (seen ++ late)).handler ≡ s.handler =
      act_all-handler s (seen ++ late)
      ∙ handle_all_forged st s.handler es x (
          seen-All (λ e. IsBytes (state_of e) × (eqb (state_of e) st ≡ false)) ps seen unseen late
            split fp fl) in
    e ∙ ap some (told ∙ report_timeout (act_all s (seen ++ late)) (cc) (cc))
