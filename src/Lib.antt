-- ===== src/Lib.antt =====
-- The library of shared crates and the auth server of this repository, as far as they keep state or
-- read input of their own.
--
-- Parts, and the files here that model them:
--
-- * RateLimit (crates/rate_limit/src/lib.rs). RateLimit/Attempts is the state of one client under
--   its lock (`Attempts`, `RateLimiter`) and what `check`, `reserve`, `push_failure`, `fail` and
--   `drop` do to it; RateLimit/Entries is the map of clients (`get_or_insert`, `is_stale`,
--   `make_room`, `cleanup_at`); RateLimit/Key is `key`; RateLimit/Wrapper is the trait
--   `WithFailureRateLimit`, where the attempt is a function of the map that also does what all
--   others did meanwhile; RateLimit/Single and RateLimit/StrictSingle describe an attempt of one
--   client without the map. RateLimit/Strict lets the attempts of one client happen in any order, as
--   a step relation with the failures recorded and the reservations alive besides the state.
-- * SecondFactor (auth/server/src/api/login/totp.rs). SecondFactor/Attempts is
--   `SecondFactorAttempts` with `begin`, `end` and `sweep`; SecondFactor/World lets the codes of all
--   users interleave. The lock of a user's recovery codes is a number, a new one per entry made.
-- * Session (auth/server/src/session.rs). Session/Steps has a function for each operation of
--   `Session`, over the record `Store` of Session/Store, which says what `tower_sessions` does. Its
--   storage is taken to work: an error of it is not modelled.
-- * Login (auth/server/src/api/login/totp.rs). Login/Totp is `finish_totp_login`, over the session and
--   the record `Auth` of what the app and the TOTP library answer, and the steps of accepted codes.
--   Login/Local is `login_local_user` (auth/server/src/api/login/local.rs), with the password's hash
--   and the app as parameters.
-- * Validations (auth/server/src/validations.rs, crates/validations/src/lib.rs).
--   Validations/Validator is `StringValidator`, Validations/Accounts what usernames and passwords
--   are checked for.
-- * Exchange (auth/server/src/api/token.rs, auth/client/rs/src/api/token.rs and config.rs,
--   auth/server/src/provider/token_exchange.rs, external.rs and workload.rs). Exchange/Request is the
--   request and its validation; Exchange/Oauth the errors that are answered; Exchange/Token what a
--   token of an issuer has to fulfil, over what the library for JWTs decodes; Exchange/Providers and
--   Exchange/Workloads look for the login provider, or for the trusted issuer and its rule;
--   Exchange/Complete is what follows until the token is issued, with the calls of the app listed in
--   their order, and Exchange/Whole puts these together. A rule that was changed meanwhile is found by
--   reading it again under a lock; Exchange/Candidates describes who is asked for a token.
-- * Workload (auth/server/src/provider/workload.rs). Workload/Glob is `glob_match`, Workload/Claims
--   the lookup of claims and the rules on them.
-- * Locks (auth/server/src/provider/workload.rs). Locks/World is the map of locks by key, which
--   Exchange takes around a rule's user, with the calls that wait for a lock or hold it.
-- * Jwt (auth/server/src/provider/jwt.rs). Jwt/Provider is `JwtProvider`; the signature is the record
--   `Signing`.
-- * Middleware (auth/server/src/middleware.rs, auth/client/rs/src/signature.rs). Middleware/Signature
--   is the text that a request's signature covers, Middleware/Extract the credentials of a request,
--   Middleware/Request the handling of a whole request under the rate limiter, Middleware/Users the
--   user whom the credentials belong to (with a part of `AuthImpl`, auth/server/src/lib.rs).
-- * Manage (auth/server/src/api/manage/mod.rs and middleware.rs). Manage/Attach is `attach_user`, which
--   puts the middleware's parts together for the management API, Manage/Guards what its handler
--   checks of a request before the request is resolved.
-- * LoadCache (auth/server/src/provider/load_cache.rs). LoadCache/Cache is `LoadCache`. A load sees
--   the entries at three points (called, locked, loaded), in any states; the map of locks is left out.
-- * RequestIp (crates/request_ip/src/lib.rs and cidr.rs). RequestIp/Cidr, RequestIp/Policy and
--   RequestIp/Client are `CidrSet` and the whitelist, `TrustedProxies`, and `get_client_ip`. The
--   parsers of `std::net` and `ipnet` are the record `Nets`, without any hypothesis on them.
-- * Config (crates/config/src/merge.rs and env_file.rs). Config/Json has the JSON values,
--   Config/Merge both merges, Config/MergeRules the rule for each key, Config/EnvFile the
--   entries of an env file.
-- * Cache (crates/cache/src/lib.rs). Cache/Timeout is `TimeoutCache`.
-- * Error (crates/error/src/axum.rs) is the error and result type that all of these share, with
--   the notes that an answer is made from, and Net the addresses. The rate limiter uses RequestIp for
--   the address of a request.
-- * Base has the shared helpers: Base/Times (times, windows), Base/Table (hash maps as association
--   lists), Base/Bits (masks), Base/Text (`str` functions on code points), Base/Int (`i64` and its
--   saturating operations), Base/Decimal (numbers as text), Base/Filtered (members and filters as
--   relations), Base/Lists and Base/Tests. The files Tests of each part have runs at concrete inputs.
--
-- Numbers are unbounded, in nanoseconds where they are times (seconds on the session and in tokens,
-- milliseconds at a signature). Where the code saturates, so does the subtraction here; `checked_add`
-- of an `Instant` fails past 2 ^ 63 seconds, `Duration` saturates at 2 ^ 64 seconds, masks have 128
-- bits, and a time of a signature is an `i64`. Loops are structural recursion but for two: the
-- `lookup` of a claim has as much fuel as its path has parts, of which each level uses one at least,
-- and a number is printed with 20 digits, which those of 64 bits have at most. A strict attempt that
-- waits takes the list of its wake-ups.
--
-- Not modelled: the HTTP layer, logging, the tasks and the runtime, memory (capacities), the exact
-- wording of messages, which may be shortened, and the parts of the repository not named above: the
-- logins by an external provider and by passkey, what the requests of the management API do, the
-- clients of OIDC and OAuth providers, the other crates, the clients, the UI and the example.
pub mod Base
pub mod Error
pub mod Net
pub mod RateLimit
pub mod SecondFactor
pub mod Session
pub mod LoadCache
pub mod RequestIp
pub mod Config
pub mod Cache
pub mod Login
pub mod Workload
pub mod Exchange
pub mod Jwt
pub mod Middleware
pub mod Validations
pub mod Locks
pub mod Manage
