-- ===== src/Lib.antt =====
-- or3-intern: the parts of the agent service that decide who may do what, the registry of its
-- background jobs, its scheduled jobs and its log.
--
-- The parts and how they interact. A client speaks to the service over a secure connection: frames
-- carry numbers that a replay window lets through once, as does the counter that the store keeps of a
-- session over all its connections; a session's claims name the device's role and
-- capabilities, and each action is classified and authorized by them. An action that runs a program or
-- touches files is evaluated by the approval broker, which lets it run on a token, a policy, an
-- allowlist row or the runner's autopilot, and else puts a request on record that an operator approves,
-- denies or lets expire; an approval issues a token that is taken once. A device gets its access token
-- by a pairing request, whose code it exchanges once, and keeps it until it is rotated or revoked. A
-- scheduled job of the cron service is a schedule, of which the service arms a Go timer or an entry of
-- the cron library, and which runs the job's payload and records its outcome. Work in the background is
-- a job of the registry, whose events its subscribers receive; the bus fans the events of channels and
-- triggers out to theirs. What the parts log goes to a buffer of bounded size.
--
-- Base: lists, numbers, texts, maps (Base.Assoc), file paths and tables of the SQLite store
--   (Base.Table).
-- SecureConn: internal/secureconn, with statements of internal/db/secure_connection_store.go. Replay is
--   ReplayWindow of frame.go, with children for its invariant, for letting each number through once and
--   for its size; Frame is ValidateSecureFrame, EncodeSecureFrame and DecodeSecureFrame; Roles is
--   NormalizeRole and NormalizeCapabilities of certificate.go and hasCapability; Claims is
--   SessionClaims of session.go; Authorization is authorization.go; SessionStore
--   has the records of sessions and their statements; Sessions is
--   LoadActiveSessionClaims, UpdateStepUp, ValidateFrame and the expiry of session.go, with the
--   children Requests (requests one after the other), Frames, Counters and Once (what they do to the
--   stored counters), Loading and StepUp. validate_frame is given the store that its read of the row
--   sees and the store that its update meets, which are two statements in the source; what is shown of
--   runs is about requests one after the other, where these are the same.
-- Approval: internal/approval, with the statements of internal/db/approval_store.go. Types has the
--   records; Store the statements and transactions (ApproveRequestWithArtifacts is
--   approve_with_artifacts); Tokens is tokens.go; Matchers and Allowlist are allowlist.go and
--   allowlist_keys.go, with its search; Evaluate is evaluate.go and request_create.go; Autopilot is
--   runner_autopilot.go and EvaluateRunnerPermission, with what its rules leave over in Rules; Requests is requests.go. Machine has the
--   statements as steps of one store, in any order, and what every run of them keeps.
-- Pairing: internal/approval/pairing.go and devices.go, with the statements of
--   internal/db/approval_store.go and auth_store.go. Types has the records, Tables the statements,
--   Devices devices.go, Requests the creation and resolution of requests, Exchange ExchangePairingCode.
--   Machine has the operations as steps of one store, in which an exchange is its compare and swap and,
--   any steps later, the rest of its code; Claims and Once have what a run keeps of a code, Rows and
--   Tokens what the device table keeps, Rotation and Exchanged what a rotation and an exchange
--   leave.
-- Cron: internal/cron/cron.go. Types has jobs, schedules and payloads; Clocks the Go timers and the
--   cron library as an interface; Schedule validation, NormalizePayload, nextRunMS and
--   prepareJobLocked; Service the state and its loading and saving, with arming and unarming; Edits and
--   Operations Add, Update, SetEnabled and Remove; Runs runJobByID (its part before and its part after
--   the runner's call), Start, Stop, Status and List; Sqlite the store in SQLite, Saved and Stored
--   its round trip. Sound, Arming, ArmKeeps, JobList, Enabled, Keeps, KeepsRuns, KeepsStart and Machine have the
--   service's invariant over all operations; Outcomes, Apart, Running, Live, Liveness and NextRun what
--   single operations come to.
-- Log: internal/log/buffer.go and level.go. Entries has entries, filters and normalizeEntry, Buffer the
--   buffer, Refine the buffer beside a log of everything, Redacted what it keeps out.
-- Jobs: internal/jobs/registry.go. Events has the data and the channels, Registry and Publish the
--   operations, Invariant, Upkeep and Traffic the invariant of an entry and the operations that keep
--   it, Steps the registry as a machine, Cleanup the eviction, Heard what a
--   subscriber's channel receives, Life the end of a job and its subscribers.
-- Bus: internal/bus/bus.go. Machine has what every run of its operations keeps, Delivery where the
--   published events go.
-- Examples: the theorems at concrete inputs.
--
-- State and errors. An operation takes the state and gives the state after it beside its result; a Go
-- panic is `none`, an error is a value. Operations take the times that they read. Machine words wrap
-- where the source's do (the replay window's sums are taken modulo 2 ^ 64, a frame's age, a cron
-- job's next due time and a session's counters are int64); the other times, row numbers and the jobs'
-- counters are natural numbers, far below 2 ^ 63. Maps are association lists; where Go's order of iteration could
-- matter, no theorem depends on it.
--
-- Fuel. `evict` has as many rounds as the registry has jobs, each of which deletes one; `search` has
-- one round more than candidates, each of which takes 200 of them. Both are proved to be enough: the
-- results on the cleanup and on the search are about these numbers of rounds.
--
-- Parameters. encoding/json of event data is a function that the registry's operations are given; the
-- encodings, hashes and pattern matching that approvals use are the record Codec; PairingBroker has the
-- hashes, random texts and times of life of pairing; the regular expressions of the log are the record
-- Patterns, the signature of a session's claims is a field of Manager; JobJson is
-- encoding/json on cron jobs; CronLibrary and Calendar are the
-- cron library and the time package's calendar. Whether the cron service's store can be read or written
-- is an argument of its operations. Failures of SQLite itself under the other components, of random
-- numbers and of the audit trail, whose errors the source drops, are left out.
--
-- Not modelled: the start of a session, certificates, the Noise handshake and pairing intents of
-- internal/secureconn; the sink of the standard logger and the level from the environment in
-- internal/log; IsPairedChannelIdentity; the JSON file and the file locks of the cron store; the
-- waiting of jobs' callers; and the other packages, among them internal/runners, internal/memory,
-- internal/channels, internal/config, internal/connect and cmd/or3-intern.
pub mod Base
pub mod SecureConn
pub mod Log
pub mod Jobs
pub mod Bus
pub mod Cron
pub mod Pairing
pub mod Approval
mod Examples
