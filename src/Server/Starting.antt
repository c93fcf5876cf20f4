-- ===== src/Server/Starting.antt =====
-- A server that has been started for a flow.
use datazoo_oauth.Base.{◌≡◌, ◌≢◌, refl, true, false, some, List, [], Bool, Bytes, IsBytes, codes}
use datazoo_oauth.Base.Int.{ℤ}
use datazoo_oauth.CallbackHandler.{reset, set_expected_state}
use datazoo_oauth.CallbackHandler.Traffic.{Expects}
use datazoo_oauth.Server.{
  Server, Poll, Activity, started, chosen_port, start, start_and_wait_for_code, wait_for_code,
}

-- The server after `Start` with the state `st`.
abbrev pub listening : Server → Bytes → ℤ → Server
listening server st port = record server {
  handler = set_expected_state (reset server.handler) st;
  server_instance = some (chosen_port server port);
  server_thread = true;
  running = true;
}

pub listening-Expects :
    (server : Server) (st : Bytes) (port : ℤ)
    → st ≢ []
    → IsBytes st
    → Expects st (listening server st port).handler
unfolding set_expected_state
listening-Expects server st port given bytes = record {
  expected = refl;
  given = given;
  bytes = bytes;
}

pub start-listening :
    (print : ℤ → Bytes) (bind : Bytes → ℤ → Bool) (server : Server) (st : Bytes) (port : ℤ)
    → ((p : ℤ) → bind (codes "localhost") p ≡ true)
    → server.server_thread ≡ false
    → start print bind server st port ≡ started (listening server st port)
unfolding start
start-listening print bind server st port bound idle =
    rw (start, bound (chosen_port server port), idle) refl

pub start_and_wait-listening :
    (print : ℤ → Bytes) (bind : Bytes → ℤ → Bool) (server : Server) (st : Bytes) (port : ℤ)
    (ps : List Poll) (late : List Activity)
    → ((p : ℤ) → bind (codes "localhost") p ≡ true)
    → server.server_thread ≡ false
    → start_and_wait_for_code print bind server st port ps late
      ≡ wait_for_code (listening server st port) ps late
unfolding start_and_wait_for_code start
start_and_wait-listening print bind server st port ps late bound idle =
    rw (start_and_wait_for_code, start, bound (chosen_port server port), idle) refl
