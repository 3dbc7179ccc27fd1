-- ===== src/Lib.antt =====
-- A model of Covert, a server that keeps secrets: access policies, tokens, namespaces, mounts, leases
-- and the key-value engine, with what makes each of them correct.
--
-- A request passes through layers: one decides with the token and its policies whether it is
-- authorised, the router hands it to the backend whose mount path is the longest prefix of its
-- path, and on the way back a lease or a token that the backend grants is registered with the
-- expiration manager, whose worker revokes it through the router when its time is up. All of them
-- keep their state in the tables of one SQLite database, each through a repository.
--
-- Which file models which part of the repository:
--   Policy, Policy/Paths: covert-types/src/policy.rs and the operations of request.rs. `Policy` and
--     `PathPolicy` are the structs, and both `is_authorized` and `batch_is_authorized` their methods.
--     Policy/Parse has `PathPolicy::parse`, its regular expressions written out as searches, and
--     `Operation::from_str`; what Unicode says of a character is a parameter there.
--   Ttl: covert-types/src/ttl.rs, `calculate_ttl`, and `MountConfig` of mount.rs.
--   Kv: backend/covert-kv/src. Kv/Data has the rows and errors, Kv/Secrets and Kv/Config the
--     statements of store/, Kv/Handlers the functions that answer requests, with `step` and `run` for
--     the router of lib.rs.
--   Server/Tables: the rows of covert-server/migrations/encrypted/20221229_init.sql.
--   Namespace: covert-server/src/repos/namespace.rs; `delete_by_id` is its `delete`.
--   Auth: repos/token.rs and layer/auth_service.rs of the server, with `Token::from_str`.
--   Policies: covert-server/src/repos/policy.rs.
--   Entity, Lease, Mount: the repositories of the same names. `Lease.delete_by_id` is `delete`, and
--     Lease/Like is SQLite's LIKE.
--   Router, Router/Dispatch: covert-server/src/router.rs, `resolve` for the choice of the backend and
--     `route` for the whole.
--   Expiration: covert-server/src/expiration_manager, with Expiration/Revocation (the worker's turn
--     is `work`), Expiration/Renewal, and Expiration/Registration for layer/lease_registration.rs.
--   Framework: covert-framework/src, method_router.rs and router.rs: the routes of a backend and the
--     guard of each. A handler that panics is answered as an internal error.
--   Layers: the layers in covert-server/src/layer and their order in lib.rs (`serve` is the stack of
--     `start`), and covert-types/src/request.rs, `Request::new`.
--   System: covert-server/src/system/mount.rs, mounting a backend; System/Unmount is `remove_mount`.
--     System/Routes is the table of routes of system/mod.rs; System/Opening is what unseal.rs and
--     seal.rs do once the pool is open or closed, with both handlers whole; System/Entities, System/Tokens
--     and System/Handlers are the handlers of entity.rs, token.rs and of the other files, and
--     System/Namespaces is the deletion of a namespace with all below it.
--   Config: covert-server/src/config.rs and `recover` of recovery.rs; the machine is a parameter.
--   Userpass: backend/covert-userpass-auth/src, users and passwords; Userpass/Refined holds the
--     handlers against a map from names to hashes.
--   Psql: backend/covert-psql/src, credentials on a PostgreSQL server, with Psql/Text for what it does
--     with texts. The server is a parameter.
--   Migrator: covert-storage/src/migrator.rs, the migrations of a backend.
--   Storage: covert-storage/src/encrypted_pool.rs and storage.rs, the states of the encrypted database.
--   Seal: covert-server/src/repos/seal.rs and system/{initialize,unseal,seal}.rs, the shares of the
--     master key and the handlers that open and close the store. Seal/Stored has what the
--     sharing and the ciphers must satisfy for a key to be recovered.
--   Prelude: shared notation and lemmas; Prelude/Sql has the statements over a table as a list of
--     rows, and Prelude/Exec the handlers that read and write a state and may fail.
--   Examples: a small store, at which the theorems are applied.
--
-- How the code is modelled. A table is the list of its rows, the newest in front (the key shares: the oldest). A statement is a
-- function on that list, and its constraints are tests in front of it: unique keys, foreign keys and
-- CHECKs, with the error that each raises. What was written before a failure stays. Texts are lists
-- of code points, times and durations numbers of nanoseconds, and ids texts that the caller draws.
-- The reading of a clock is an argument, one for each reading of the code. The version of a secret and
-- the failed attempts of a lease are 32-bit numbers, with the wrap-around of a release build; the
-- range of chrono's instants is not modelled. Parameters stand for what is not in the repository:
-- serde_json, chrono's conversion of durations, what sqlx makes of NULL, bcrypt, the ciphers and the
-- sharing of the master key. So do, where requests are only passed on, the handlers of the backends,
-- which are modelled each by itself.
--
-- Fuel has the climb from a namespace to the root (`Namespace.climb`), and the deletion of a namespace
-- with its children (`delete_namespace`), as deep as it is nested. As much as the table has rows is
-- enough in a forest, where a row is numbered below its parent (Namespace/Ranks). The other loops are
-- structural.
--
-- Not modelled: the replication that an unseal starts, the start and stop of the worker, and waiting
-- and notification in it; HTTP, the command line, the SDK and the framework's extraction
-- of arguments by their types, which keep no state; and the rewriting of statements in covert-storage,
-- which works on the syntax tree of an SQL parser from another package. Revocations that run
-- concurrently are run in their order.
pub mod Prelude
pub mod Policy
pub mod Ttl
pub mod Kv
pub mod Server
pub mod Namespace
pub mod Auth
pub mod Lease
pub mod Entity
pub mod Policies
pub mod Mount
pub mod Router
pub mod Framework
pub mod Layers
pub mod Expiration
pub mod Migrator
pub mod Psql
pub mod Userpass
pub mod Storage
pub mod Seal
pub mod System
pub mod Examples
pub mod Config
