-- ===== src/Lib.antt =====
-- typeclaw-operator runs TypeClaw Instances on Kubernetes: controllers reconcile the custom resources,
-- a desktop gateway arbitrates the control of personal desktops, and credential runners execute typed
-- operations for an instance that never sees the credential. This library models the parts of the Go
-- code that decide something, and proves what they promise.
--
-- The parts and how they meet:
-- - Control and Gateway: the desktop gateway, internal/desktopgateway. Browsers and agents ask its HTTP
--   handlers (gateway.go, power.go) for the control of a desktop or for its power. The handlers go
--   through one registry (control.go), which keeps the lease of each desktop, its quarantine, its
--   takeover and its power operation, and they dispatch power operations to KubeVirt (kubevirt.go).
-- - Update: the rollouts of the managed runtime. The auto-update controller
--   (internal/controller/autoupdate_controller.go) picks a release tag (internal/update/registry.go),
--   promotes it on the workload, and confirms it or rolls it back; the instance controller renders the
--   workload with the image of EffectiveRuntimeImage (internal/resources/effective.go).
-- - Credential: the execution of credentials. The policy and the typed operation
--   (internal/credential/operation.go) authorize a request, and the credential controller
--   (internal/controller/credential_controller.go) consumes its ticket, runs its Job and records the
--   outcome.
-- - Backup: the backup controller (internal/controller/backup_controller.go) reports the snapshots of an
--   instance in a condition and restores one when an annotation asks for it.
-- - Relay: the relay (internal/relay/watch.go) restarts the Pod of an instance when its runtime drops a
--   restart request into a directory, and records in the status what changed in typeclaw.json
--   (internal/relay/config.go, with the observer of cmd/relay/main.go).
--
-- The files:
-- - Prelude and its children: tests on native numbers, lists, Go maps as association lists (Maps), and
--   strings that the code walks as lists of bytes (Text). Ints: signed integers, int64 and Atoi.
-- - Control/Defs: controlRegistry and what it holds; the heap of leases is a function of pointers.
--   Control/Actions and Control/Power: one function per region under the mutex, so that acquire is
--   acquire_begin and acquire_finish, and release is release_locked and close_done; beginPower,
--   finishPower and revokeAll. Control/Steps: the registry's events, and the states that sequences of
--   them reach. The other files of Control prove: Invariant and its children the invariant of every
--   interleaving, and each of Quarantine, Leases, Generations, Takeover, Drain and Expiry what it is
--   named for.
-- - Gateway/Config and Gateway/Load: LoadConfig (config.go), over a record of the functions of Go's net,
--   net/url, strings and time that it calls. Gateway/Auth: the authentication of each listener and the
--   origins that may mutate (auth.go). Gateway/Listeners: the handlers of the listeners that mutate,
--   authentication included. Gateway/Configured, SignIn, Origins and Owners: their properties.
-- - Gateway/KubeVirt: the client, an interface whose answers are arbitrary. Gateway/Power:
--   dispatchPower and its classification of errors. Gateway/Handlers: handlePower before and after its
--   dispatch, handleControlAcquire, handleControlRelease and handleAgentAction. Gateway/Outcomes and
--   Gateway/Safety: their properties.
-- - Conditions: setCondition and removeCondition; Conditions/Updates: what a reader
--   sees after an update. Update/Versions: parseVersion, compareVersion, PickVersion. Update/Rollout: UpdateStatus and the rules for images, deadlines and the backup gate.
--   Update/Advance: advanceRollout and patchRuntimeImage. Update/Reconcile: Reconcile and sequences of
--   reconciles. Update/Order, Courses, Safety, Confirmation, Current and Rounds: their properties.
-- - Credential/Policy: AuthorizePolicy and the checks it makes, and DecodeRunnerResult.
--   Credential/Requests: the request, what a reconcile reads, and scripts of writes.
--   Credential/Reconcile and Credential/Execute: Reconcile as such a script. Credential/FailClosed,
--   Stages, Quiet, Fits, Scripts, OneRunner, Justified, Permits, Creation and Settled: their properties.
-- - Credential/Identity and Credential/Broker: the broker, ServeHTTP (internal/credential/broker.go),
--   which stores the requests. Credential/Paths, Asked, Served and Retries: their properties.
--   Credential/Handover: the first reconcile of a request of the broker.
-- - Backup/Jobs: which snapshot Job is the latest. Backup/Reconcile: Reconcile, the restore Jobs that it
--   creates included. Backup/Latest, Restores, Once and Restless: their properties.
-- - Desktop/Spec: the declaration of a Personal Desktop, Validate and the gate on the runtime's version
--   (internal/desktop/preconditions.go and defaults.go). Desktop/Objects: Names, desktopCleanup and the
--   calls of applyDesktop, each a kind and a place. Desktop/Reconcile: Reconcile and convergeDesktop, with
--   the answer of every call as an argument. Desktop/Disks and Keeping: what becomes of a
--   disk. Desktop/Cleanup: what has been deleted
--   when the finalizer goes. Desktop/Coverage: the list of the cleanup against what a desktop writes.
-- - Relay/Watch: consume and pollOnce of restart requests. Relay/Delivery: what
--   a poll makes of a valid request. Relay/Markers: what a marker of a consumed request stands for.
--   Relay/Config: pollOnce and the observer of typeclaw.json. Relay/Changes: changedKeys against a
--   reference. Relay/Status: what the stored status says.
-- - Tests and its children: runs at concrete inputs.
--
-- Conventions. The API server, KubeVirt, the registry of images and the clock are outside of the code:
-- their answers are arguments of the definitions, and every theorem is for all of them. A pointer is a
-- number. Times and durations are in nanoseconds; the generation of a lease is a uint64 that wraps, and
-- a time.Duration an int64 that wraps. No definition has fuel: loops are structural on a list, and what
-- repeats for ever in the code (expireLoop, the reconciles) is a sequence of rounds of any length.
--
-- Not modelled: the HTTP exchange with the registry of images, JSON, SHA-256 and base64, which are
-- libraries'; the screenshots and the guest proxy of the gateway; the rendering of resources; the
-- guest's Python and the TypeScript extension. The expiry of a credential request is kept in whole
-- seconds, as the API server stores it. Reads of the API server are current: a stale read of the cached
-- client is not modelled.
pub mod Prelude
pub mod Ints
pub mod Conditions
pub mod Control
pub mod Gateway
pub mod Update
pub mod Backup
pub mod Desktop
pub mod Credential
pub mod Relay
mod Tests
