-- ===== src/Tests/Objects.antt =====
-- Objects over their lifetime: a flow that is used twice, and the cache with its collector.
use datazoo_oauth.Base.{
  ℕ, ◌≡◌, ◌≢◌, ◌⊎◌, refl, true, some, List, [], ◌∷◌, Bytes, replicate, ok, eqb, after_first,
  take_until, starts_with,
}
use datazoo_oauth.Http.Cache.Collector.{
  alive, stopping, gone, finished, CacheObject, new_cache, Event, wakes, stops, step, run,
}
use datazoo_oauth.Http.Cache.Collector.Destructor.{JoinEnds, IsStore, destructor_ends}
use datazoo_oauth.Http.Cache.{collect_garbage}
use datazoo_oauth.Base.Decimal.{stoi}
use datazoo_oauth.Encoding.{encode_buffer, generate_secure_random_token}
use datazoo_oauth.OauthTypes.{OauthTokens, calculate_expires_after, get_client_type, get_token_url}
use datazoo_oauth.CallbackHandler.{handle_callback, validate_state, set_expected_state, reset}
use datazoo_oauth.Http.Url.{parse_url}
use datazoo_oauth.Http.Message.{new_request}
use datazoo_oauth.Server.{
  start_and_wait_for_code, start, wait_for_code, act_all, act, wait_loop, report,
}
use datazoo_oauth.Flow.{
  generate_code_verifier, generate_state, exchange_code_for_tokens, token_request, callback_port,
  parse_token_response,
}
use datazoo_oauth.Flow.Object.{
  OauthFlow, Ending, returned, ends_process, still_waits, execute, authorize,
}
use datazoo_oauth.Flow.Object.Reuse.{CanListen, execute_twice}
use datazoo_oauth.Tests.Encode.{config}
use datazoo_oauth.Tests.Exchange.{hour, body, granting, world, returning, server, tokens}

abbrev verifier : Bytes
verifier = encode_buffer (replicate 48 251)

abbrev fresh : OauthFlow
fresh = record { server = server; stored_code_verifier = [] }

abbrev first_flow : Ending OauthTokens
first_flow = execute hour (λ s. s) body granting (world returning) fresh config 1000

abbrev left_by : {A : Type 0} → Ending A → OauthFlow
left_by (returned r flow) = flow
left_by ends_process = fresh
left_by still_waits = fresh

can_listen : CanListen (world returning)
unfolding generate_code_verifier generate_state generate_secure_random_token
can_listen = record {
  bound = λ p. refl;
  verifier = verifier;
  drawn = refl;
  state = encode_buffer (replicate 24 251);
  drawn_too = refl;
}

execute_twice_example :
    execute hour (λ s. s) body granting (world returning) (left_by first_flow) config 2000
    ≡ ends_process
unfolding execute authorize generate_code_verifier generate_state generate_secure_random_token
    start_and_wait_for_code start wait_for_code act_all act eqb handle_callback validate_state
    set_expected_state reset encode_buffer exchange_code_for_tokens token_request new_request
    parse_url parse_token_response calculate_expires_after get_client_type get_token_url
    callback_port stoi after_first take_until starts_with wait_loop report
execute_twice_example =
    execute_twice hour (λ s. s) body granting (world returning) (world returning) fresh
      (left_by first_flow) config config 1000 2000 (ok tokens) can_listen can_listen refl refl

-- The destructor has begun after one round of the collector.
abbrev life : List Event
life = wakes 10 ∷ stops ∷ []

abbrev stopped : CacheObject
stopped = record new_cache { should_stop = true; stage = stopping }

destructor_ends_example :
    (stopped.stage ≡ stopping → (now : ℕ) → JoinEnds (λ s. 0) now stopped)
    × (stopped.stage ≢ alive
        → (a : Event) (t : CacheObject) → step (λ s. 0) a stopped ≡ some t
        → (t.cache ≡ stopped.cache) ⊎ IsStore (λ s. 0) a stopped.cache t.cache)
    × (stopped.stage ≡ gone → stopped.cleanup_thread ≡ finished)
unfolding run step collect_garbage
destructor_ends_example = destructor_ends (λ s. 0) life stopped refl
