-- ===== src/Lib.antt =====
-- PolyFleet, a controller for small proxy fleets: a model of the controller's core and of its
-- correctness properties.
--
-- The controller (internal/server over internal/store) keeps its state in SQLite. Agents enrol, poll
-- for a desired snapshot, and report traffic, online users and operation results; the store accounts
-- the traffic to users, assignments and nodes, bumps a node's snapshot when a quota state changes,
-- and asks for kicks. The tables are lists of rows (`Schema`), a method is a function from the
-- database to a result and the next database, and a transaction that does not commit leaves its
-- database as it was. The loops are recursions over lists; only the Agent's loop over batches has
-- fuel.
--
-- + Base: the library names in use, tests, results, and tables with their laws.
-- + Calendar: what the store uses of Go's `time` package, on civil times in UTC.
-- + Budget (internal/store/traffic_budget.go): `traffic_cycle_start`, `traffic_cycle_next_start` and
--   `traffic_cycle_boundary` are trafficCycleStart, trafficCycleNextStart and trafficCycleBoundary.
--   `Cycle` and `Next` compare them with the boundaries of the calendar.
-- + RateLimit (internal/server/ratelimit.go): `allow` is rateLimiter.Allow; `Window` has the bound.
-- + Schema (internal/store/migrations): the rows of the tables and the database.
-- + Store.Snapshot (internal/store/node.go, user.go, traffic.go): bumpNodeSnapshot,
--   markAssignmentPending and bumpChangedAssignmentsTx.
-- + Store.Kick (internal/store/traffic.go): requestKickTx, RequestUserKick and EnforceExpiredUsers;
--   `Raised` follows the generations of kicks.
-- + Store.Online (internal/store/traffic.go): RecordOnlineSnapshot. `Tallied` follows its loop
--   over the reported users, `Shows` says what the tables hold afterwards.
-- + Store.Traffic (internal/store/traffic.go): `ingest_traffic_batch` is IngestTrafficBatch; `Account`
--   has the items, `NodeTotals` the node's counters, `Quota` the quota states. `Conservation`, `Steps`,
--   `Ingest` and `Balance` have the proofs. `Store.Frame` says what kicks and snapshots leave alone.
-- + Store.Calibration (internal/store/traffic_budget.go): EffectiveNodeTrafficUsed and
--   CalibrateNodeTraffic.
-- + Store.Alert (internal/store/alert.go, notification.go): upsertAlertTx, resolveAlertTx,
--   AcknowledgeAlert and the queue of notifications; `Effect` says which alerts they change.
-- + Store.Delivery (internal/store/notification.go): RecordNotificationDelivery; `Attempts` counts the
--   attempts of a delivery.
-- + Store.Reconcile (internal/store/alert.go): ReconcileAlerts. `Verdict` says which alerts are due,
--   `Settles` that these are the active ones afterwards, `Frame` what is left alone.
-- + Store.Texts: what the store uses of Go's `strings` and `path`, on bytes.
-- + Store.Operation (internal/store/operation.go): `Queue` has CreateTargetedNodeOperation,
--   CreateNodeOperation and RetryNodeOperation, `Pending` has ListPendingNodeOperations and
--   RetryNodeSync, `Result` has RecordNodeOperationResult. `Steps` is the step relation of all calls
--   that write operations, over what `Progress` says of one; `Report`, `Created`, `Delivered` and
--   `BackupPath` have the properties of single calls.
-- + Store.Secret (internal/cryptoutil/secretbox.go): Seal and Open, around the AEAD of a library.
-- + Store.Agents (internal/store/agent.go, reality.go): `Tokens` has CreateEnrollmentToken, `Enrol`
--   EnrollAgent with the writes of `Invalidate` and the `Capabilities`, `Identity` AuthenticateAgent,
--   `Heartbeat` RecordHeartbeat, `Desired` AcknowledgeDesiredWithMaterial, and `Rotate`
--   RotateVLESSRealityIdentity. `Enrolled`, `Replay`, `Heard` and `Known` follow a token from its
--   enrolment on; `Settles`, `Acknowledged` and `Bumped` follow a version from its snapshot to its
--   acknowledgement.
-- + Store.Users (internal/store/user.go): `Credential` has createUserCredentialTx and the rotations,
--   `Assign` AssignUser and CreateUser, `Remove` UnassignUser and ArchiveUser, `Update` UpdateUser,
--   UpdateAssignment and SetAssignmentEnabled, `Reveal` RevealAssignmentCredential, which `Reveals`
--   compares with what the calls tell. `Access` says whom the database lets in; `Barred`,
--   `Granted`, `Updated` and `Calls` follow a user that is not, through the calls of `Outlives`.
-- + Agent.AuthCache (internal/agent/auth_cache.go): the users that an Agent admits. `Index` says what
--   a verifier finds, `Admits` who signs in, `Versions` which snapshots are taken. `Base64` is
--   what it uses of Go's `encoding/base64`.
-- + Agent (internal/agent/local_store.go): an Agent's own database. `Sample` has recordTrafficSample,
--   with its outbox (the loop over batches has fuel for one item each, and a batch takes at least
--   one); `Conserves` and `Deltas` follow the bytes. `Kicks` has queueKicks, markKicksApplied and
--   recordKickFailure, `Reached` what they keep. A sample's batches are those that the controller's
--   Store.Traffic ingests.
--
-- Byte counts are natural numbers with the source's tests against the largest int64 written out;
-- they are non-negative by the handlers' validation and the schema's checks. Identifiers are
-- numbers, compared as the code compares texts. Errors of the database driver, the JSON documents
-- of snapshots and notifications, HTTP, the web console and the installers are not modelled. The
-- fingerprint of a batch, the UUIDs and random values that are drawn, the parsers of UUIDs and of
-- IP addresses, SHA-256, the AEAD cipher, the hash of a stored snapshot, the JSON of an enrolment's
-- response and of an Agent's cache, and what SQLite makes of sums that its integers do not hold are
-- functions that the methods are given; where a theorem needs a law of them, such as that the cipher
-- opens what it has sealed, the law is a hypothesis. Go's maps are iterated in the order of insertion.
mod Base
pub mod Calendar
pub mod Budget
pub mod RateLimit
pub mod Schema
pub mod Base64
pub mod Store
pub mod Agent
