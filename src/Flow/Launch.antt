-- ===== src/Flow/Launch.antt =====
-- What the flow does between the start of its listener and its wait: it shows the URL and opens a
-- browser, or explains how to go on without one. The steps are a list; Flow.Console has the texts of the
-- steps.
use datazoo_oauth.Base.{
  ℕ, ◌≡◌, ◌⊎◌, inl, inr, refl, Bool, true, Option, none, some, List, [], ◌∷◌, ◌++◌, Bytes, codes,
  Bool-cases, if◌then◌else◌, Result, Error, ok, err, runtime_error, invalid_argument, io_exception,
  invalid_input, http_exception,
}
use datazoo_oauth.Browser.{Environment, WaitStatus, can_open_browser, open_url_linux}
use datazoo_oauth.Browser.Launch.{open_url_linux-ends}

pub data Step : Type 0 where
  -- `server_->Start`
  listens : Step
  -- `DisplayOAuth2Instructions`, with the URL and whether a browser will open.
  instructs : Bytes → Bool → Step
  -- `OAuth2Browser::OpenUrl` returned.
  opened : Bytes → Step
  -- `ExplainManualAuthorizationStep`, with the URL and the reason.
  explains : Bytes → Bytes → Step
  -- `server_->WaitForCode`
  waits : Step

-- `what()`
unfoldable pub message_of : Error → Bytes
message_of (runtime_error m) = m
message_of (invalid_argument m) = m
message_of (io_exception m) = m
message_of (invalid_input m) = m
message_of (http_exception m) = m

open_outcome : Bytes → Result (Unit {0}) → List Step
unfolding message_of
open_outcome url (ok u) = opened url ∷ []
open_outcome url (err e) = explains url (message_of e) ∷ []

-- `OpenBrowser`; the fuel of the launcher never runs out.
open_browser : Bytes → Option (ℕ × Result (Unit {0})) → List Step
unfolding open_outcome
open_browser url none = []
open_browser url (some (waited, r)) = open_outcome url r

abbrev pub no_session : Bytes
no_session =
    codes "no graphical session was detected (DISPLAY and WAYLAND_DISPLAY are "
    ++ codes "unset, or xdg-open is not installed)"

browser_step : Environment → Bool → (ℕ → WaitStatus) → Bytes → List Step
unfolding open_browser
browser_step env forked waitpid url =
    if can_open_browser env
    then open_browser url (open_url_linux forked waitpid)
    else explains url no_session ∷ []

unfoldable pub launch_steps : Environment → Bool → (ℕ → WaitStatus) → Bytes → List Step
unfolding browser_step
launch_steps env forked waitpid url =
    listens
    ∷ instructs url (can_open_browser env)
    ∷ (browser_step env forked waitpid url ++ (waits ∷ []))

-- A browser has taken the URL.
abbrev pub IsOpened : Environment → Bool → (ℕ → WaitStatus) → Type 0
IsOpened env forked waitpid =
    (can_open_browser env ≡ true)
    × ((waited : ℕ) × (open_url_linux forked waitpid ≡ some (waited, ok tt)))

-- The listener runs before anything is shown, the URL is shown before a browser is tried, and the wait
-- comes last. Either the browser is opened, or the user is told in one step how to open the URL, with
-- the URL and a reason: exactly one of the two.
pub launch_steps_lem :
    (env : Environment) (forked : Bool) (waitpid : ℕ → WaitStatus) (url : Bytes)
    → (IsOpened env forked waitpid
        × (launch_steps env forked waitpid url
            ≡ listens ∷ (instructs url true ∷ (opened url ∷ (waits ∷ [])))))
      ⊎ ((IsOpened env forked waitpid → ⊥)
          × ((reason : Bytes) × (launch_steps env forked waitpid url
                ≡ listens
                  ∷ (instructs url (can_open_browser env) ∷ (explains url reason ∷ (waits ∷ []))))))
unfolding launch_steps
launch_steps_lem env forked waitpid url = elim (Bool-cases (can_open_browser env)) [
  | inr headless ↦ inr ((λ h. cc (headless, h.0)), (no_session, rw headless refl))
  | inl can ↦ by_outcome can (open_url_linux-ends forked waitpid)
]
  where
    by_outcome :
        can_open_browser env ≡ true
        → (out : ℕ × Result (Unit {0})) × (open_url_linux forked waitpid ≡ some out)
        → (IsOpened env forked waitpid
            × (launch_steps env forked waitpid url
                ≡ listens ∷ (instructs url true ∷ (opened url ∷ (waits ∷ [])))))
          ⊎ ((IsOpened env forked waitpid → ⊥)
              × ((reason : Bytes) × (launch_steps env forked waitpid url
                    ≡ listens
                      ∷ (instructs url (can_open_browser env)
                          ∷ (explains url reason ∷ (waits ∷ []))))))
    by_outcome can ((waited, ok u), e) = inl ((can, (waited, e)), rw (can, e) refl)
    by_outcome can ((waited, err x), e) =
        inr ((λ h. cc (e, h.1.1)), (message_of x, rw (can, e) refl))
