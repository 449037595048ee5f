-- ===== src/Lib.antt =====
-- The CrossDesk signaling server (README.md): device sign-in, presence, and the coordination of
-- remote-control sessions over websockets. This library models parts of its C++ core.
--
-- Parts and files:
-- * AuthLimiter.Bucket and AuthLimiter.Verify model DeviceAuthLimiter (src/device_auth_limiter.h and
--   .cpp). `Verify` unlocks while a password is hashed, so it is `reserve`, then `settle`; the
--   step relation of AuthLimiter.Verify.Reach interleaves the calls of several threads.
-- * AuthLimiter.Work models CredentialWorkLimiter of the same files: `admit` is `Admit`.
-- * Transmission.State, Rooms, Connections, Sessions and Snapshots model TransmissionManager
--   (src/transmission_manager.h and .cpp). A function has the name of its method, in snake case;
--   the overloads of `BindGuestToTransmission` are `bind_guest_to_transmission` and
--   `bind_guest_connection`, those of `ReleaseGuestFromTransmission` are
--   `release_guest_from_transmission` and `release_guest_everywhere`, and `get_room_handle` is
--   the `GetWsHandle` of a room. Transmission.Soundness has what holds between operations,
--   and Transmission.Calls puts the operations in any order.
-- * Executor models BoundedExecutor (src/bounded_executor.h); `run_round` is a round of `Run`.
-- * Presence models PresenceManager (src/presence_manager.h and .cpp). The connection that
--   `OnLogin` and the user id that `OnLogin` and `NotifyUserDevices` take are unused there and
--   left out.
-- * Negotiation models SignalNegotiation (src/signal_negotiation.h and .cpp). Negotiation.Json has
--   JSON values, an object as the list of its members; State has the class's state, with the calls
--   that it makes of DeviceDBManager as the record `Database` and its other collaborators as
--   `Environment`; `sent` are the messages it sent. Signals has the relayed signals and the leaves,
--   Passwords `change_password` and `ForgetPasswordChangeResults` with
--   src/device_db_manager/device_password.cpp's `ValidInput`, Work `RunCredentialWork`, Login
--   `CompleteLogin`, Authentication `AuthenticateDevice` and `RegisterDevice`, Handlers the handlers
--   that ask for credentials, Account those of the connection's own account. A handler that starts
--   expensive work is its part up to the work, the work and the continuation, and the handler that
--   composes them. DeviceLogin is src/device_login.cpp; Ed25519 and the random nonce are its
--   `KeyLibrary`. Log lines are left out. `issue_session` is the
--   call of `recovery_`.
-- * SessionRecovery models src/session_recovery.h and .cpp; the statements that it runs are the
--   record `SessionStore`, and `threw` is its std::runtime_error. Keeping puts its calls in any order
--   with those of TransmissionManager.
-- * CredentialQueue models src/credential_queue.h; CredentialQueue.Pump has `Pump`, with the callbacks
--   of the jobs as parameters.
-- * Retention models RetentionPolicy (src/retention_policy.h).
-- * Identity models src/common/controller_identity.h.
-- * Common has the standard library as the program uses it: maps are association lists in
--   iteration order (`set` for unordered maps, `set_ordered` for ordered ones), sets and vectors
--   are lists.
--
-- A method takes the state and returns the new one. The clock is an argument: `now` is read
-- once in a call, in nanoseconds, in SessionRecovery in seconds. A `connection_hdl` is the
-- number of its control block, 0 for the empty one; which handles have expired is an argument
-- of the operations that ask. Counters of failures and verifications stay below the limits, as
-- proved, so their wrap-around does not show; the generation counter wraps at 2 ^ 64. A mutex
-- that one call holds throughout has no trace in the model; `StateLock` has, since it collects
-- and runs notifications.
--
-- Every loop is recursion on a list or over the workers, so there is no fuel, but for the
-- executor's worker, which runs a given number of rounds; one round more than there are waiting
-- jobs is enough after a stop.
--
-- Not modelled: the network server, the database's SQL, the admin interface, notifications and
-- the issue of TURN credentials. JSON texts, hashing, SQLite and websockets are libraries that
-- are not part of the repository. An exception of the JSON library is not modelled either:
-- strings are valid UTF-8.
pub mod Common
pub mod Identity
pub mod AuthLimiter
pub mod Transmission
pub mod Executor
pub mod Presence
pub mod Retention
pub mod Negotiation
pub mod CredentialQueue
pub mod SessionRecovery
