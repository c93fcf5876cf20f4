-- ===== src/OauthTypes/Expiry.antt =====
-- When a token counts as expired, and when it is refreshed.
use datazoo_oauth.Base.{ℕ, ◌+◌, ◌<◌, ◌^◌, ◌≡◌, true, leb, arith}
use datazoo_oauth.Base.Int.{pos}
use datazoo_oauth.OauthTypes.{OauthTokens, is_expired, needs_refresh, calculate_expires_after}

-- A token that has expired is refreshed.
pub is_expired-needs_refresh :
    (t : OauthTokens) (now : ℕ) → is_expired t now ≡ true → needs_refresh t now ≡ true
unfolding is_expired needs_refresh
is_expired-needs_refresh t now h = ground arith

-- Before 2038 a token of `n` seconds expires exactly `n` seconds after it was received, and is
-- refreshed from 300 seconds before that.
pub calculate_expires_after_lem :
    (t : OauthTokens) (n received now : ℕ)
    → t.expires_in ≡ pos n
    → 0 < n
    → received + n < 2 ^ 31
    → (is_expired (calculate_expires_after t received) now ≡ leb (received + n) now)
      × (needs_refresh (calculate_expires_after t received) now ≡ leb (received + n) (now + 300))
unfolding is_expired needs_refresh calculate_expires_after
calculate_expires_after_lem t n received now e p h = ground arith
