-- ===== src/Lib.antt =====
-- Geonosis, an identity provider: a model of the parts that decide who is let in.
--
-- A realm's login is a flow, a graph of nodes that the flow engine (crates/geonosis-flow) compiles,
-- steps through with the answers of the authenticators, and dry-runs for the admin surface. Around an
-- authenticator the lockout (crates/geonosis-authenticators) counts failed attempts. A login ends in
-- an authorization code, which the OAuth engine (crates/geonosis-protocol-oauth) exchanges for tokens
-- against a proof key, with refresh tokens that are rotated. All of them keep their state in the
-- storage (crates/geonosis-storage). The server (crates/geonosis-server) limits the rate of each
-- realm's calls. The SPI host (crates/geonosis-spi-host) says which plugins of an interface run.
--
--   Base            strings, numbers, options, results, hash maps as association lists, list loops
--   Core            crates/geonosis-core/src: subject.rs, token.rs, user.rs, realm.rs, session.rs,
--                   organization.rs, scope.rs in Core.Scope, and client.rs, with its RedirectUri in Core.RedirectUri
--   Flow.Json       the JSON values of guards and locals
--   Flow.Dsl        crates/geonosis-flow/src/dsl.rs, the definition of a flow
--   Flow.State      crates/geonosis-flow/src/state.rs, a flow in progress
--   Flow.Guard      crates/geonosis-flow/src/guard.rs: eval_guard, resolve_path, json_equals
--   Flow.Compile    crates/geonosis-flow/src/compile.rs: compile, and the edge selection
--   Flow.Executor   crates/geonosis-flow/src/executor.rs, authenticator.rs: DefaultExecutor::step
--   Flow.DryRun     crates/geonosis-flow/src/dry_run.rs: dry_run, dry_run_compiled
--   Storage.Tokens  crates/geonosis-storage/src/memory.rs: codes, refresh tokens, device grants
--   Storage.Errors  crates/geonosis-storage/src/error.rs
--   Storage.Directory  memory.rs: realms, users, clients, browser sessions; Storage.Indexed has the
--                   laws of a table with an index by name
--   Storage.Access  memory.rs: roles, groups and their assignments
--   Storage.Orgs    memory.rs: organizations, domains, members, invitations, their roles and policies
--   Storage.Flows   memory.rs: flows, flow states, consents, pushed requests, bindings, agents
--   Storage.Federation  memory.rs: identity providers, broker states and links, SAML name ids
--   Server.DevicePoll  crates/geonosis-server/src/handlers/token.rs: handle_device_code,
--                   issue_user_tokens
--   Server.Password  token.rs: handle_password
--   Server.NameId   login_actions.rs: resolve_persistent_name_id, in two steps
--   Server.AutoJoin  crates/geonosis-server/src/handlers/login_actions.rs: auto_join_org_by_domain
--   OAuth.Bytes     UTF-8 and the operations on u8 that pkce.rs uses
--   OAuth.Pkce      crates/geonosis-protocol-oauth/src/pkce.rs
--   OAuth.Refresh   crates/geonosis-protocol-oauth/src/refresh.rs
--   OAuth.Grants    crates/geonosis-protocol-oauth/src/grants.rs: AuthorizationCodeGrant::exchange
--   Authenticators.BruteForce  crates/geonosis-authenticators/src/brute_force.rs, with get_user and
--                   update_user of memory.rs
--   Server.RateLimit  crates/geonosis-server/src/rate_limit.rs: Bucket, PerRealmRateLimiter
--   SpiHost         crates/geonosis-spi-host/src: registry.rs, router.rs, and dispatch.rs in
--                   SpiHost.WitInterface and SpiHost.Dispatch
--
-- A child of such a module states what it proves; the modules named Examples run the definitions.
--
-- State that the code changes in place is passed: an operation of the storage takes the tables and
-- returns them, a round of the executor's loop takes the flow's state and returns it, with an error
-- too. Fallible code returns a Result. An index out of bounds is `none` or `panicked`.
--
-- Bounds. The worklist of `compile` runs on as much fuel as there are edges, and two more: each edge
-- is pushed at most once. The loop of `step` has no bound in the code; the model's fuel is an
-- argument, and `unfinished` says that it was not enough. The dry run has its own budget of 256
-- rounds. The rate limiter's u64 sums wrap, and one call of it runs alone. The lockout's u32 counter
-- saturates and its casts wrap as in a release build; the level of an authentication wraps as an
-- i32. Instants and durations are natural numbers on one time line.
--
-- From outside, and so arguments: the clock, random ids and secrets, the dispatcher of
-- authenticators, the issuer that signs tokens, equality and number texts of serde_json, SHA-256,
-- base64, the hash of refresh tokens, chrono's conversion of durations, and the text of ids, and the check of a password
-- against its hash.
--
-- Not modelled: serde, metrics, audit events and logging; the SQL backends; the LDAP and profile tables
-- of the in-memory storage; the other HTTP handlers, the WebAssembly runtimes, SAML, LDAP, brokers,
-- themes and the user interfaces. Each method of the in-memory storage runs under its lock and is one step.
pub mod Base
pub mod Flow
pub mod Core
pub mod Storage
pub mod OAuth
pub mod Authenticators
pub mod Server
pub mod SpiHost
