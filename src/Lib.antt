-- ===== src/Lib.antt =====
-- The DNSSEC key-rotation controller: a model of its state machines.
--
-- The program keeps a persisted state (internal/model/model.go) in a store (internal/state/store.go)
-- and, on every tick, walks the zones of a PowerDNS server (internal/controller/controller.go): it
-- lists a zone's keys, records zones that are new, and advances the one workflow of the zone that is
-- in progress by one handler. A handler reads evidence through DNS, may change keys at PowerDNS or
-- the parent through the registrar, and ends by a write of the state, which may schedule the next
-- action.
--
-- Files:
--   Base        Boolean tests, lists, Go maps as association lists, and the text functions of Go's
--               strings package, on ASCII letters.
--   Errors      Go errors as formats with their arguments, the result type and its sequencing.
--   Model       internal/model/model.go: keys, zones, workflows, notifications, the state.
--   Config      internal/config/config.go: the part of the configuration that the controller reads, the
--               rest in Settings; Validate and Mail check it, Valid says what the check guarantees.
--   Api         what the controller is given: pdns.API, autodns.API, dnsprobe.Observer, the clock, the
--               notifier, the file writes, and the libraries miekg/dns and crypto/sha256.
--   Exec        how a method runs: a state beside a result, which for the controller is the world of
--               state, disk and calls so far; Keeps and Finds are the rules for what a method preserves
--               and establishes.
--   Store       Snapshot, Update and writeAtomic of internal/state/store.go.
--   Inventory   the pure checks on a zone's keys: keyScheme, validatedKeyRole,
--               validatePrepublishInventory, validateSplitMutationInventory, retirementInventory,
--               validateEnrollmentInventory, sameMaterial, maxTTL and the rest.
--   Dnsprobe    internal/dnsprobe/probe.go: Message (what it reads of a reply), Network (query), Checks
--               (verifyDNSKEYSet, verifySignature, exactDS), Denial (verifyNoDS, verifyNoDSProof),
--               Referral (referralServers, delegatedNS), Evidence (dnskeyEvidence, DSEvidence, the
--               method verifySignature), Parent (the lookups from the root) and Observer (the methods
--               of the interface); their children say what has been answered when they pass.
--   Controller  the handlers, one file per phase or two: Moves (transition, block, complete, start),
--               Candidates and Prepublish, Publish, Signature, Parent, Retire, Evidence, Enroll and
--               EnrollParent, Notify, Scope (selected, selectedEnrollment), Bootstrap (bootstrap) and Schedule (advance,
--               reconcileZone, Tick); and the requests of an operator:
--               Requests (what they share), Arm (ArmEnrollment), Trigger, Resume and Reconcile
--               (ReconcileSplitSignerTransition); and what an operator looks at: Views (Plan, Zones,
--               Status) and Audit.
--   Control     internal/control/server.go: the handlers of the control socket.
--   Progress    how the persisted state moves: the graph of phases, runs along it, discovery and its
--               limits, starts and completions, requests and what they leave.
--   Safety      which calls may follow which: Conditions says what each change of keys or of the parent
--               wants of the calls before it, fresh evidence and a written intent; one file per
--               handler or two shows that it is met, Advance joins them, and Tick is the whole round.
--   Tests       a controller, a network and a configuration to which the theorems are applied.
--
-- How the code is read:
--   * A method with an error result is an action on the world: the published state, the state on disk
--     and the calls so far. What was written before an error stays written.
--   * Every reply of a server, of the registrar, of the observer, of the clock and of the disk is a
--     function of all earlier calls, so a theorem holds for all of their behaviours. A write ends in
--     one of three ways: done, failed before the rename, failed after it.
--   * Key ids, attempts and TTLs are natural numbers: no negative id is modelled, and a test
--     `<= 0` is a test for zero. Durations and times are natural numbers of nanoseconds, times since
--     Go's zero time, without the overflow of int64, which is 292 years away.
--   * A loop over a Go map runs in the order of the association list. The texts of errors are not
--     rendered. The hash of a rendered format is a parameter.
--   * The mutexes of the store and of the controller serialise the calls, so the model is sequential.
--     Trigger takes the store's mutex alone, for its update, which tests the idempotency key and the
--     active workflows again; trigger_state is that update, on whatever state it finds.
--   * A loop over a list is structural recursion. The two bounded loops of the probe recurse on the
--     number of rounds that the code has: three attempts of a query, and twelve referrals from the
--     root. Running out of rounds is the error that the code returns there.
--   * The probe has a log of its own, of its exchanges and readings of the clock. Every reply is a
--     function of that log. What miekg/dns computes (key tags, digests, signatures, NSEC3 hashes,
--     relations of names), the JSON decoder of the control socket, and the parsers of paths, URLs and
--     addresses are parameters without hypotheses. A Go panic on a missing resolver is an error.
--
-- Not modelled: the HTTP and LMTP clients behind the interfaces (internal/pdns, internal/autodns,
-- internal/lmtp), the socket of internal/control itself and its client, the command line, logging, the
-- loading of the configuration and of secrets, and the opening of the store with its JSON form.
mod Base
pub mod Errors
pub mod Model
pub mod Config
pub mod Api
pub mod Exec
pub mod Store
pub mod Inventory
pub mod Dnsprobe
pub mod Controller
pub mod Control
pub mod Progress
pub mod Safety
mod Tests
