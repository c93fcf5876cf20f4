-- ===== src/SecretManager/Cached.antt =====
-- A refreshed token is stored so that the next call finds it, and what a call may return.
use datazoo_oauth.Base.{
  ℕ, ◌+◌, ◌<◌, ◌^◌, ◌≡◌, ◌≢◌, refl, ap, ◌∙◌, ◌⊎◌, inl, inr, true, false, some, [], ◌∷◌, Bytes,
  codes, eqb, eqb_refl, is_empty, if◌then◌else◌, arith, Result, Error, ok, err, io_exception,
  Bool-cases, Option-cases, to_lower,
}
use datazoo_oauth.Base.Int.{ℤ, pos, ltb_ℤ, ◌+ℤ◌}
use datazoo_oauth.Base.Decimal.{stoll-to_string}
use datazoo_oauth.Http.Headers.{find, assign, same_key}
use datazoo_oauth.Http.Headers.Map.{find-assign}
use datazoo_oauth.SecretManager.{
  SecretMap, KeyValueSecret, RefreshRequest, TokenResponse, SecretEntry, Registry,
  has_valid_cached_token, expires_later, get_cached_token, register_secret, updated_map,
  update_secret_with_tokens, keep_tokens, get_token, signed_text,
}

abbrev access : Bytes
access = codes "access_token"

abbrev pub refresh : Bytes
refresh = codes "refresh_token"

abbrev expires : Bytes
expires = codes "expires_at"

keys_differ :
    (same_key expires access ≡ false)
    × (same_key refresh access ≡ false)
    × (same_key expires refresh ≡ false)
    × (same_key access refresh ≡ false)
unfolding to_lower eqb
keys_differ = (refl, refl, refl, refl)

keys_same : (k : Bytes) → same_key k k ≡ true
keys_same k = eqb_refl (to_lower k)

-- What the overlay does to the three keys.
find-updated_map :
    (m : SecretMap) (a r : Bytes) (e : ℤ) (now : ℕ)
    → (find access (updated_map m a e r now) ≡ some a)
      × (find refresh (updated_map m a e r now) ≡ (if is_empty r then find refresh m else some r))
      × (find expires (updated_map m a e r now) ≡ some (signed_text (pos now +ℤ e)))
unfolding updated_map
find-updated_map m a [] e now =
    let text = signed_text (pos now +ℤ e) in
    let m1 = assign access a m in
    (
      find-assign expires access text m1
          ∙ rw (keys_differ.0, find-assign access access a m, keys_same access) refl,
      find-assign expires refresh text m1
          ∙ rw (keys_differ.2, find-assign access refresh a m, keys_differ.3) refl,
      find-assign expires expires text m1 ∙ rw (keys_same expires) refl,
    )
find-updated_map m a (c ∷ r) e now =
    let text = signed_text (pos now +ℤ e) in
    let m1 = assign access a m in
    let m2 = assign refresh (c ∷ r) m1 in
    (
      find-assign expires access text m2
          ∙ rw
              (
                keys_differ.0,
                find-assign refresh access (c ∷ r) m1,
                keys_differ.1,
                find-assign access access a m,
                keys_same access,
              )
              refl,
      find-assign expires refresh text m2
          ∙ rw (keys_differ.2, find-assign refresh refresh (c ∷ r) m1, keys_same refresh) refl,
      find-assign expires expires text m2 ∙ rw (keys_same expires) refl,
    )

valid_lem :
    (s : KeyValueSecret) (now : ℕ)
    → has_valid_cached_token s now ≡ true
    → (t : Bytes) × (get_cached_token s ≡ ok t) × (t ≢ [])
unfolding has_valid_cached_token get_cached_token
valid_lem s now h = elim (Option-cases (find access s.secret_map)) [
  | inl e ↦ absurd (ground arith)
  | inr (t, e) ↦ (t, ground arith, ground arith)
]

kept_lem :
    (reg : Registry) (s : KeyValueSecret) (now : ℕ) (r : Result TokenResponse)
    → ((t : Bytes) × ((keep_tokens reg s now r).1 ≡ ok t) × (t ≢ []))
      ⊎ ((e : Error) × (keep_tokens reg s now r ≡ (reg, err e)))
unfolding keep_tokens
kept_lem reg s now (err e) = inr (e, refl)
kept_lem reg s now (ok acquired) = elim (Bool-cases (is_empty acquired.access_token)) [
  | inl nothing ↦ inr (
    io_exception (codes "Token endpoint response did not contain an access token"),
    rw nothing refl,
  )
  | inr token ↦ inl (acquired.access_token, rw token refl, ground arith)
]

get_token_valid :
    (acquire : RefreshRequest → Result TokenResponse) (build : KeyValueSecret → RefreshRequest)
    (reg : Registry) (s : KeyValueSecret) (checked stored : ℕ)
    → has_valid_cached_token s checked ≡ true
    → get_token acquire build reg s checked stored ≡ (reg, get_cached_token s)
unfolding get_token
get_token_valid acquire build reg s checked stored h = rw h refl

get_token_stale :
    (acquire : RefreshRequest → Result TokenResponse) (build : KeyValueSecret → RefreshRequest)
    (reg : Registry) (s : KeyValueSecret) (checked stored : ℕ)
    → has_valid_cached_token s checked ≡ false
    → get_token acquire build reg s checked stored ≡ keep_tokens reg s stored (acquire (build s))
unfolding get_token
get_token_stale acquire build reg s checked stored h = rw h refl

-- A call of `GetToken` returns a token that is not empty, or throws and stores nothing.
pub get_token_lem :
    (acquire : RefreshRequest → Result TokenResponse) (build : KeyValueSecret → RefreshRequest)
    (reg : Registry) (s : KeyValueSecret) (checked stored : ℕ)
    → ((t : Bytes) × ((get_token acquire build reg s checked stored).1 ≡ ok t) × (t ≢ []))
      ⊎ ((e : Error) × (get_token acquire build reg s checked stored ≡ (reg, err e)))
get_token_lem acquire build reg s checked stored =
    elim (Bool-cases (has_valid_cached_token s checked)) [
      | inl valid ↦
          let (t, found, given) = valid_lem s checked valid in
          rw (get_token_valid acquire build reg s checked stored valid) (inl (t, found, given))
      | inr stale ↦
          rw (get_token_stale acquire build reg s checked stored stale)
            (kept_lem reg s stored (acquire (build s)))
    ]

is_later_of_stored :
    (n now later : ℕ)
    → now + n < 2 ^ 63
    → later + 300 < now + n
    → expires_later (some (signed_text (pos now +ℤ pos n))) later ≡ true
unfolding expires_later signed_text
is_later_of_stored n now later small early = ground (arith, stoll-to_string (now + n) small)

is_empty-eq-false : (xs : Bytes) → xs ≢ [] → is_empty xs ≡ false
is_empty-eq-false [] some_byte = absurd (some_byte refl)
is_empty-eq-false (x ∷ xs) some_byte = refl

-- The secret after a refresh.
abbrev refreshed : SecretEntry → TokenResponse → ℕ → SecretEntry
refreshed old t now = record old {
  secret = record (old.secret) {
    secret_map = updated_map old.secret.secret_map t.access_token t.expires_in t.refresh_token now;
  };
}

update_lem :
    (reg : Registry) (s : KeyValueSecret) (t : TokenResponse) (now : ℕ) (old : SecretEntry)
    → s.name ≢ []
    → reg s.name ≡ some old
    → update_secret_with_tokens reg s t.access_token t.expires_in t.refresh_token now
      ≡ register_secret reg (refreshed old t now)
unfolding update_secret_with_tokens
update_lem reg s t now old named found =
    rw (update_secret_with_tokens, found, is_empty-eq-false s.name named) refl

valid_of_fields :
    (s : KeyValueSecret) (token text : Bytes) (later : ℕ)
    → find access s.secret_map ≡ some token
    → token ≢ []
    → find expires s.secret_map ≡ some text
    → expires_later (some text) later ≡ true
    → (has_valid_cached_token s later ≡ true) × (get_cached_token s ≡ ok token)
unfolding has_valid_cached_token get_cached_token
valid_of_fields s token text later a given x late = (
  rw (has_valid_cached_token, a, is_empty-eq-false token given, x, late) refl,
  rw (get_cached_token, a) refl,
)

refreshed_valid :
    (old : SecretEntry) (t : TokenResponse) (n now later : ℕ)
    → t.access_token ≢ []
    → t.expires_in ≡ pos n
    → now + n < 2 ^ 63
    → later + 300 < now + n
    → (has_valid_cached_token (refreshed old t now).secret later ≡ true)
      × (get_cached_token (refreshed old t now).secret ≡ ok t.access_token)
refreshed_valid old t n now later given e small early =
    let (a, _, x) =
      find-updated_map old.secret.secret_map t.access_token t.refresh_token t.expires_in now in
    valid_of_fields (refreshed old t now).secret t.access_token (signed_text (pos now +ℤ pos n))
      later a given (x ∙ ap (λ z. some (signed_text (pos now +ℤ z))) e)
      (is_later_of_stored n now later small early)

keep_tokens-stores :
    (reg : Registry) (s : KeyValueSecret) (now n : ℕ) (t : TokenResponse) (old : SecretEntry)
    → t.access_token ≢ []
    → t.expires_in ≡ pos n
    → 0 < n
    → s.name ≢ []
    → reg s.name ≡ some old
    → keep_tokens reg s now (ok t) ≡ (register_secret reg (refreshed old t now), ok t.access_token)
unfolding keep_tokens
keep_tokens-stores reg s now n t old given e positive named found =
    let more : ltb_ℤ (pos 0) t.expires_in ≡ true = rw (e) (ground arith) in
    rw (keep_tokens, is_empty-eq-false t.access_token given, more)
      (ap (λ r. (r, ok t.access_token)) (update_lem reg s t now old named found))

-- After `GetToken` refreshed the token of a registered secret that had no valid one, with a positive
-- lifetime of `n` seconds and an expiry that fits 63 bits, the registry holds the new token under the secret's name, in the storage that the secret had, with the
-- refresh token of the response or, where it has none, the old one; and a call of `GetToken` on the
-- registered secret more than 300 seconds before the expiry returns that token without asking the
-- endpoint and leaves the registry as it is.
pub get_token_twice :
    (acquire acquire' : RefreshRequest → Result TokenResponse)
    (build : KeyValueSecret → RefreshRequest) (reg : Registry) (s : KeyValueSecret)
    (checked stored later later' n : ℕ) (t : TokenResponse) (old : SecretEntry)
    → has_valid_cached_token s checked ≡ false
    → acquire (build s) ≡ ok t
    → t.access_token ≢ []
    → t.expires_in ≡ pos n
    → 0 < n
    → s.name ≢ []
    → reg s.name ≡ some old
    → old.secret.name ≡ s.name
    → stored + n < 2 ^ 63
    → later + 300 < stored + n
    → let reg' = (get_token acquire build reg s checked stored).0 in
      (new : SecretEntry) × (reg' s.name ≡ some new)
      × (new.storage ≡ old.storage)
      × (find refresh new.secret.secret_map ≡ (
          if is_empty t.refresh_token
          then find refresh old.secret.secret_map
          else some t.refresh_token))
      × (get_token acquire' build reg' new.secret later later' ≡ (reg', ok t.access_token))
unfolding register_secret
get_token_twice acquire acquire' build reg s checked stored later later' n t old stale answer given
      e positive named found own small early =
    let after =
      get_token_stale acquire build reg s checked stored stale
      ∙ ap (keep_tokens reg s stored) answer
      ∙ keep_tokens-stores reg s stored n t old given e positive named found in
    let new = refreshed old t stored in
    let (valid, token) = refreshed_valid old t n stored later given e small early in
    let (_, r, _) =
      find-updated_map old.secret.secret_map t.access_token t.refresh_token t.expires_in stored in
    rw (after) (
      new,
      rw (own, eqb_refl s.name) refl,
      refl,
      r,
      get_token_valid acquire' build (register_secret reg new) new.secret later later' valid
          ∙ rw (token) refl,
    )
