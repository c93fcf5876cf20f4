-- ===== src/Lib.antt =====
-- A model of datazoo-oauth2: the OAuth 2.0 authorization-code flow with PKCE, the loopback server that
-- receives the redirect, the HTTP client that carries credentials, and the refresh of tokens that are
-- kept in DuckDB secrets.
--
-- How the parts work together. The flow (src/oauth2_flow_v2.cpp) draws a verifier and a state, builds
-- the authorization URL (src/oauth2_url_pure.cpp), starts the loopback server (src/oauth2_server.cpp)
-- and waits. The server hands each request to the callback handler (src/oauth2_callback_handler.cpp),
-- which only believes requests that carry the state. The flow then sends the code and the verifier to
-- the token endpoint and reads the tokens. Later the secret token manager
-- (src/oauth2_secret_token_manager.cpp) refreshes them through the HTTP client (src/http_client.cpp).
--
-- The files.
-- - Base: the shared helpers. Byte strings are lists of numbers; Base.Errors has the exceptions as
--   values; Base.Int has the integers and the conversion to 32 bits; Base.Decimal has std::to_string,
--   std::stoi and std::stoll; Base.Bits has the bitwise operations.
-- - Encoding: src/oauth2_url_pure.cpp without its URL builder, which is AuthUrl. Encoding.Form and
--   Encoding.Query have the decoder and the form parser of the other side, Encoding.Token the base64url
--   decoder, Encoding.Html what a browser shows.
-- - OauthTypes: src/oauth2_types.cpp; OauthTypes.Challenge is about the S256 challenge and
--   OauthTypes.Expiry about times.
-- - CallbackHandler: src/oauth2_callback_handler.cpp. A run is a list of requests (Event); the mutex
--   makes calls from several threads such a sequence.
-- - Server: src/oauth2_server.cpp. A wait is a list of polls, each with what happened since the one
--   before; Server.Requests relates the server to the handler, Server.Starting is about the start,
--   Server.Waiting and Server.Delivery about the wait.
-- - Http: src/http_client.cpp. Http.Url, Http.Headers, Http.Message, Http.Client (SendRequest) and
--   Http.Cache (HttpCache and CachingHttpClient); Http.Tls is HttpTlsPolicy and the set-up of a client
--   of httplib, Http.Wire the header writer that restores the request target, Http.Redaction and
--   Http.Repro what the traces show. Http.Paths has the merging of paths, Http.Secrets the lookup of
--   credentials in DuckDB, Http.Rows the values of DuckDB, Http.Execute the calls of httplib.
--   Http.Cache.Interleaving has the runs of the cache under several threads, Http.Cache.Collector the
--   thread of its collector from the constructor to the destructor, Http.Client.Hops the policy of
--   redirects and tries by itself, Http.Client.Pauses the pauses between tries. Http.Traces has the
--   lines that are traced about an exchange, Http.Tls.Warnings those about the TLS policy, and
--   Http.Members the setters and getters. Http.Redaction.Form is about form bodies, Http.Redaction.Json
--   and Http.Redaction.Members about JSON bodies, each also where a trace has cut them.
-- - Flow: src/oauth2_flow_v2.cpp. Flow.Exchange and Flow.Tokens are about the token endpoint, Flow.Pkce,
--   Flow.Forged and Flow.Delivered about whole flows; Flow.Network puts the HTTP client under its
--   timeout in the place of the token endpoint; Flow.Launch is about the browser, Flow.Console about the
--   texts on the console, Flow.Object about what one flow leaves to the next. Flow.Exchange.Lines has
--   all that the token exchange traces. CallbackHandler.Waiting is about the wait of a caller.
-- - TimeoutClient: src/timeout_http_client.cpp. A call is a duration and a result.
-- - Browser: src/oauth2_browser.cpp, as it is compiled on Linux.
-- - Tracing: src/include/datazoo/oauth2/tracing.hpp.
-- - SecretManager: src/oauth2_secret_token_manager.cpp; SecretManager.Json has the functions of yyjson
--   that the code calls.
-- - Charset: src/charset_converter.cpp.
-- - Tests: the theorems at concrete inputs.
--
-- Names. A definition has the name of the function or the type that it models, in the spelling of this
-- language: `Http.Client.send_request` is HttpClient::SendRequest.
--
-- Bounds and fuel. The loop of SendRequest runs on (max_redirects + 1) * (retries + 1) rounds, one for
-- each try of each redirect. The wait for a redirect polls every 250 ms for 60 seconds, so
-- 242 polls end it; the wait for the browser polls every 50 ms for 2 seconds, so 41 rounds end it. The
-- search of PATH and the redaction run on one round more than there are bytes. The expiry of a token is
-- a 32-bit integer, with its wrap-around.
--
-- Parameters. What the code calls and does not define is an argument: the network, OpenSSL's RAND_bytes
-- and SHA-256, std::hash, DuckDB's base64, secrets and registry, yyjson, the codecs of the C++ library,
-- floating-point numbers, the clock, the environment and the file system, the child process of the
-- launcher, and the browser with the requests it sends.
--
-- The functions on redirects take the merging of paths as an argument; Http.Paths.merge_paths is the one
-- of the code.
--
-- Not modelled: the markup of the pages, which are constructors, and what the preprocessor leaves out on
-- Linux, the launch of a browser on Windows and macOS. Of the trace lines, those are modelled that tell
-- of requests, responses, the token exchange and the TLS policy; the others name the steps of the code.
-- A failure of DuckDB to register a refreshed secret is left out.
pub mod AuthUrl
pub mod Base
pub mod Browser
pub mod CallbackHandler
pub mod Charset
pub mod Encoding
pub mod Flow
pub mod Http
pub mod OauthTypes
pub mod SecretManager
pub mod Server
pub mod Tests
pub mod TimeoutClient
pub mod Tracing
