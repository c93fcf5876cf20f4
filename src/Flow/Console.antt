-- ===== src/Flow/Console.antt =====
-- The texts that src/oauth2_flow_v2.cpp writes to the console, with the characters beyond ASCII as their
-- code points.
use datazoo_oauth.Base.{
  ℕ, ◌≡◌, ◌⊎◌, inl, inr, ◌∙◌, ap, Bool, true, List, [], ◌∷◌, ◌++◌, append-nil, Bytes, codes,
  if◌then◌else◌,
}
use datazoo_oauth.Browser.{Environment, WaitStatus, can_open_browser}
use datazoo_oauth.Flow.Launch.{
  Step, listens, instructs, opened, explains, waits, IsOpened, launch_steps, launch_steps_lem,
}

-- The digit as an emoji: the variation selector and the enclosing keycap follow it.
abbrev keycap : ℕ → Bytes → Bytes
keycap digit text = digit ∷ (0xFE0F ∷ (0x20E3 ∷ text))

-- A text and the end of its line, and an empty line.
abbrev line : Bytes → Bytes → Bytes
line text rest = text ++ (10 ∷ rest)

abbrev blank : Bytes → Bytes
blank rest = 10 ∷ rest

before_url : Bool → Bytes → Bytes
before_url browser_will_open rest = blank (
    line (codes "🔐  OAuth2 Authentication Required  🔐") (
      line (codes "=====================================") (
        blank (
          line (codes "📋 To complete the authentication:") (
            blank (
              (if browser_will_open
                then line (keycap b'1' (codes " A browser window should open automatically")) (
                    line
                      (keycap b'2' (codes " If it doesn't open, manually copy and paste this URL:"))
                      [])
                else line
                    (keycap b'1' (
                        codes
                          " No browser can be opened from this session - you must open the URL ")
                      ++ codes "yourself")
                    (line (keycap b'2' (codes " Copy and paste this URL into a browser:")) []))
              ++ blank (codes " 🌐  " ++ rest)))))))

after_url : Bytes
after_url = blank (
    blank (
      line (keycap b'3' (codes " Sign in with your identity provider credentials")) (
        line (keycap b'4' (codes " Grant permission to the application")) (
          line (keycap b'5' (codes " You'll be redirected back automatically")) (
            blank (
              line (0x23F1 ∷ (0xFE0F ∷ codes " Timeout: 60 seconds")) (
                line (codes "🔄 Status: Waiting for authorization...") (
                  blank (
                    line
                      (codes "💡 Tip: Make sure to use your company/enterprise browser session, not "
                        ++ codes "private/incognito mode")
                      (blank []))))))))))

unfoldable pub display_oauth2_instructions : Bytes → Bool → Bytes
unfolding before_url after_url
display_oauth2_instructions auth_url browser_will_open =
    before_url browser_will_open (auth_url ++ after_url)

unfoldable pub explain_manual_authorization_step : Bytes → Bytes
explain_manual_authorization_step reason = blank (
    line (codes "!!  Could not open a browser automatically: " ++ reason) (
      line
        (codes "    The callback listener is already running, so opening the URL above "
          ++ codes "yourself still works.")
        (blank (
          line
            (codes "    On a remote or headless machine the redirect goes to localhost, so "
              ++ codes "forward the")
            (line (codes "    callback port first, e.g.  ssh -L 65000:localhost:65000 <host>")
              (blank []))))))

-- What a step of the launch writes.
output : Step → Bytes
output (instructs url browser_will_open) = display_oauth2_instructions url browser_will_open
output (explains url reason) = explain_manual_authorization_step reason
output listens = []
output (opened url) = []
output waits = []

unfoldable pub console : List Step → Bytes
unfolding output
console [] = []
console (s ∷ steps) = output s ++ console steps

-- What the user reads before the wait: the instructions with the URL, which promise a browser exactly
-- if one can be opened, and then nothing more if the browser was opened, or else the explanation of
-- the manual step.
pub console-launch_steps :
    (env : Environment) (forked : Bool) (waitpid : ℕ → WaitStatus) (url : Bytes)
    → (IsOpened env forked waitpid
        × (console (launch_steps env forked waitpid url) ≡ display_oauth2_instructions url true))
      ⊎ ((IsOpened env forked waitpid → ⊥)
          × ((reason : Bytes) × (console (launch_steps env forked waitpid url)
                ≡ display_oauth2_instructions url (can_open_browser env)
                  ++ explain_manual_authorization_step reason)))
unfolding console output
console-launch_steps env forked waitpid url = elim (launch_steps_lem env forked waitpid url) [
  | inl (is_opened, steps) ↦
      inl (is_opened, ap console steps ∙ append-nil (display_oauth2_instructions url true))
  | inr (closed, (reason, steps)) ↦ inr (
    closed,
    (
      reason,
      ap console steps
          ∙ ap (λ s. display_oauth2_instructions url (can_open_browser env) ++ s)
              (append-nil (explain_manual_authorization_step reason)),
    ),
  )
]
