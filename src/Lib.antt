-- ===== src/Lib.antt =====
-- Verification of proxyfleet, a gateway that spreads client traffic over many proxy nodes.
--
-- These parts of the Go program are modelled, from the code.
--
-- * The health of one node, which every pool that holds the node shares
--   (internal/outbound/pool/shared_state.go, `sharedMemberState`). Pool/Member/State holds the state
--   and the steps that the operations share (publishBlacklist, scheduleBlacklistExpiry,
--   scheduleCooldownExpiry, persistTransitionLocked), Failure models recordFailureWithSource, Expiry
--   the look-ups isBlacklisted, isCoolingDown and isBlocked and the timers' callbacks, Success
--   recordSuccess, releaseAfterProbe, forceRelease and blacklistSharedMember, Watch
--   subscribeBlacklist, and Retire owners, connections, retirement and acquireSharedState. Run puts
--   them together: each of them holds `transitionMu` from start to end (the counter of incActive
--   alone is atomic), so what concurrent callers can see is a sequence of whole operations. The
--   state tells the node's monitor entry (internal/monitor/manager.go, Monitor/Entry) about each
--   change; when a node that fails is probed again is in Monitor/Backoff
--   (internal/monitor/adaptive.go).
-- * The pool's routing (internal/outbound/pool): the index of the members that may be selected,
--   which the watchers of the health state keep (pool.go, `memberSet` and setMemberEligible,
--   Pool/Eligible), which eligible member a request gets and how many it may try (Pool/Selection),
--   which node a client comes back to (sticky.go, Pool/Sticky), how these make up the choice of a
--   member for a dial (pickMemberExcludingForTarget, Pool/Pick) with releaseIfAllBlacklisted
--   (Pool/Release), the retry loop of DialContext with
--   its deferred calls (Pool/Dial), and the admission slot that a probe shares with its dial
--   callbacks (probe_lifetime.go, Pool/Lifetime).
-- * The monitor (internal/monitor): which nodes a round of adaptive probing takes (adaptive.go,
--   selectAdaptiveEntries, Monitor/Adaptive), as many as the hourly and daily caps leave
--   (reserveProbeBudget, Monitor/Budget), in shares by priority (Monitor/Picks); which results of
--   probes an entry still accepts (manager.go, markProbeResultGeneration, executeProbeGeneration,
--   ApplyValidatedProbe, Monitor/Probes); the ring buffer of the log view (logbuffer.go,
--   Monitor/LogBuffer); and the list of nodes, its filters, order and pages (query.go,
--   parseNodeQuery in Monitor/Query/Request, queryNodes in Monitor/Query and Listing,
--   summarizeNodes in Summary).
-- * The validation of jobs (internal/config/jobs.go): session names and the credentials that carry
--   them (Config/Sessions), and NormalizeJobs (Config/Jobs, with the rules from the ingress on in
--   Rules and the loop in Loop), with PrimaryEndpoint of config.go.
-- * The saving of configuration files (internal/config/node_transaction.go and the writers of
--   config.go): images of files and RestoreFileSnapshotsCAS (Config/Files), SaveNodesTransaction and
--   SaveSubscriptionStateTransaction (Config/Files/Transaction).
-- * The region router (internal/geoip/router.go, Geoip/Router): who may use it, and which pool
--   ServeHTTP chooses; and how Start and Stop, which concurrent calls interleave, bring it up and
--   down (Geoip/Lifecycle).
-- * The session store of jobs (internal/jobs). Jobs/Store/Config is what it reads of a job
--   (internal/config/jobs.go), Lease and State its data and saveLocked, Bindings Acquire, Migrate
--   and Release (store.go), Activity Hold, SweepIdle and FlushActivity (activity.go), Failover
--   BeginFailover and Commit Commit and Abort (failover.go). `Store.mu` is held throughout each
--   operation, so an operation is a function on the store.
--
-- Conventions. An instant is a number of nanoseconds, and 0 is Go's zero time; the clock is an
-- argument, one for each reading where an operation decides by more than one. A duration from the
-- caller may be negative and is an integer; adding one to an instant stops at 0. A lock that a
-- function takes and returns is left out. A timer is the deadline that it was armed with, a
-- watcher what it was last told. A reservation for failover is an object that several attempts
-- share: the store keeps it under a number and the map holds the number. Maps are association
-- lists (Base/Maps); only the order of iteration, on which nothing modelled depends, is lost.
-- Random choices (the start of a scan, `rand.Text()`) are arguments. How a write of the state file
-- ends is an argument as well; one that fails leaves the old file or, where only syncing the
-- directory fails, the new one. The readings of the clock within one pick of a member, one saved
-- health record or one restoration are taken as one.
--
-- Taken as parameters: the digest of a lease without a revision and the size of the encoded leases
-- (`Codec`, for the SHA-256 and JSON libraries), and whether an error is transient; the floating-
-- point arithmetic of the probe bucket (`Floats`) and the start of the local day; the text, URL
-- and duration functions that NormalizeJobs calls (`Texts`), and lower-casing in the router; what
-- a transaction makes of a file's content, Go's functions on paths (`Paths`) and which operations
-- on files fail (`Faults`, `Trouble`); the text functions, the shown region and the order of
-- scores of the list of nodes. What the calls inside the retry loop answer is arbitrary (`Round`):
-- the choice of a member is modelled on its own, dialing is another program's.
--
-- Bounds. The eviction of the affinity cache runs on fuel, one round for each entry and one more,
-- and a round removes an entry. The picking of a probe batch runs on fuel, four rounds for each
-- node wanted, since the four shares visit every group. The retry loop runs on the attempts left.
-- Counters are unbounded numbers or integers: connections and failures stay far below 2^31. The
-- cursor of the picking and the version of the eligible index wrap at 2^64, the counter of the
-- round robin at 2^32. The backoff is bounded by its maximum, so that Go's int64 does not overflow
-- while the maximum fits.
--
-- Left out: the global map of shared states and its reset, the error texts and latency averages of
-- an entry, the admission slots and deadlines of probes, topNodes, the file locks, quality
-- selection (floating point), the choice of a job session, the measurements of jobs, reading the
-- state file, the cached transports of the router, the retry loop of packets, and all network and
-- HTTP code; the loading of the configuration, the box manager, the builder, subscriptions, the
-- region database and the web interface are other parts of the repository that nothing here
-- describes.
pub mod Base
pub mod Monitor
pub mod Geoip
pub mod Config
pub mod Pool
pub mod Jobs
pub mod Examples
