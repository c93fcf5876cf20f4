-- ===== src/Server/Requests.antt =====
-- A request as an event of the callback handler, and the page that answers it.
use datazoo_oauth.Base.{
  ◌≡◌, ◌≢◌, refl, true, false, ◌||◌, some, List, [], ◌∷◌, ◌++◌, Bytes, IsBytes, codes, All,
  All-append, eqb, eqb_iff, ap, sym, ◌∙◌, if◌then◌else◌, arith,
}
use datazoo_oauth.CallbackHandler.{
  CallbackHandler, Event, callback, error, handle, handle_all, handle_callback, handle_error,
}
use datazoo_oauth.CallbackHandler.Traffic.{Expects, validate-eqb}
use datazoo_oauth.Server.{
  Request, Server, Activity, request, stopping, unrelated_page, serve, oauth_handler, act, act_all,
}

-- The event that a request is for the callback handler, if it is one.
abbrev pub event_of : Request → List Event
event_of r =
    if eqb r.path (codes "/") || eqb r.path (codes "/callback")
    then (if r.has_param (codes "code")
        then callback (r.get_param_value (codes "code")) (r.get_param_value (codes "state")) ∷ []
        else if r.has_param (codes "error")
        then error (r.get_param_value (codes "error"))
            (r.get_param_value (codes "error_description")) (r.get_param_value (codes "state"))
          ∷ []
        else [])
    else []

abbrev pub events : List Activity → List Event
events [] = []
events (request r ∷ as') = event_of r ++ events as'
events (stopping ∷ as') = events as'

-- A predicate on the event that a request is, if it is one.
abbrev pub OnEvent : (Event → Type 0) → Activity → Type 0
OnEvent P (request r) = All P (event_of r)
OnEvent P stopping = Unit {0}

pub events-All :
    (P : Event → Type 0) (as' : List Activity) → All (OnEvent P) as' → All P (events as')
events-All P [] h = tt
events-All P (request r ∷ as') (p, h) =
    All-append P (event_of r) (events as') p (events-All P as' h)
events-All P (stopping ∷ as') (p, h) = events-All P as' h

handle_all-append :
    (h : CallbackHandler) (es fs : List Event)
    → handle_all h (es ++ fs) ≡ handle_all (handle_all h es) fs
unfolding handle_all
handle_all-append h [] fs = refl
handle_all-append h (e ∷ es) fs = handle_all-append (handle h e) es fs

pub serve-handler :
    (s : Server) (r : Request) → (serve s r).0.handler ≡ handle_all s.handler (event_of r)
unfolding serve oauth_handler handle_all handle
serve-handler s r = ground arith

-- The server hands every request on to the callback handler, in order.
pub act_all-handler :
    (s : Server) (as' : List Activity) → (act_all s as').handler ≡ handle_all s.handler (events as')
unfolding act_all act handle_all
act_all-handler s [] = refl
act_all-handler s (request r ∷ as') =
    act_all-handler (serve s r).0 as'
    ∙ ap (λ h. handle_all h (events as')) (serve-handler s r)
    ∙ sym (handle_all-append s.handler (event_of r) (events as'))
act_all-handler s (stopping ∷ as') = act_all-handler (record s { running = false }) as'

-- A callback or an error without the expected state is answered with status 400 and the same page
-- whatever it says, and the server is left as it was.
pub serve_unrelated :
    (st : Bytes) (s : Server) (r : Request)
    → Expects st s.handler
    → IsBytes (r.get_param_value (codes "state"))
    → r.get_param_value (codes "state") ≢ st
    → (r.has_param (codes "code") || r.has_param (codes "error")) ≡ true
    → (eqb r.path (codes "/") || eqb r.path (codes "/callback")) ≡ true
    → serve s r ≡ (s, some (record { status = some 400; page = unrelated_page }))
unfolding serve oauth_handler handle_callback handle_error
serve_unrelated st s r x b other asks route = ground (
  arith,
  validate-eqb st (r.get_param_value (codes "state")) s.handler x b,
  eqb_iff (r.get_param_value (codes "state")) st,
)
