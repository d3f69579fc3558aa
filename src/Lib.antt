-- ===== src/Lib.antt =====
-- A verification library for netconnpool, a pool of network connections in Go.
--
-- A Pool keeps a map of its connections, two channels of idle ones (TCP and UDP), five queues of
-- waiters, a flag that it is closed, and counters. Get takes an idle connection or creates one
-- through a callback of the configuration, and waits when the pool is full; Put gives a connection
-- back, to an idle channel and to a waiter; Close shuts everything down. All of pool.go works on
-- connection.go, stats.go and config.go, and finds the kind of a socket with protocol.go and
-- ipversion.go.
--
-- The parts:
--   Errors (errors.go), Mode (mode.go), Protocol (protocol.go), IpVersion (ipversion.go): the
--     constants, String and the parsers, and the detection of a socket's kind. Net/Addr has what of
--     the package net the source reads.
--   Parsing: the parsers on the texts of String.
--   Config (config.go): Config, the defaults, Validate in its order. Config/Acceptable,
--     Config/Validate: what it accepts.
--     Config/Kept: what it leaves alone. Config/Accepting, Config/Lost: defaultAcceptor, as the steps of
--     its two goroutines.
--   Connection (connection.go): the object; each method is one step.
--   Stats (stats.go): the counters; an int64 is its 64-bit pattern and wraps.
--   Udp (udp_utils.go): ClearUDPReadBuffer and HasUDPDataInBuffer on a UDP socket; the loop runs on the
--     packets left to it. Udp/Background: ClearUDPReadBufferNonBlocking and its semaphore.
--   Manager (cleanup.go, health.go, leak.go): Start, Stop and the loop of the three managers, which have
--     one shape. Manager/Cycles: sequences of Start and Stop.
--   Pool/State (pool.go): the fields of Pool, and World, the answers of the callbacks (Dialer,
--     Acceptor, OnCreated, CloseConn), of the clock, of select and of make, by the number of the
--     question; so a theorem holds whatever they answer, unless it says more. Dialer and Acceptor may
--     answer with a nil socket and no error; SocketsOnly of Pool/Active is that they do not, and Prompt
--     that no question takes longer than a connection lives. The panic of conn.Close() on a nil socket
--     in createConnection is the flag crashed of Pool: it ends the program, and the states that the
--     model has after it, where the creation returns the error, are none of the program's. A pointer to
--     a Connection is its ID.
--   Pool/Discard: closeConnection and Connection.Close. Pool/Notify: notifyWaitQueue.
--   Pool/Put: Put. Pool/Create: createConnection. Pool/Borrow: what the Gets share.
--   Pool/Get, Pool/GetProtocol, Pool/GetVersion: GetWithTimeout, GetWithProtocol, GetWithIPVersion. A
--     call that starts to wait ends with the outcome waits, and goes on in Pool/Wait: the three
--     waitForConnection methods by the cases of their selects.
--   Pool/Shutdown: Close. Pool/WarmUp: warmUp. Pool/Run: the steps of a running pool.
--   Pool/Shortcuts: Get, GetIPv4, GetIPv6, GetTCP, GetUDP and the small readers of the state.
--   Pool/Startup: NewPool as a whole, with startBackgroundTasks, and Close with the Stops of the
--     managers. Pool/Started: what they do.
--   Pool/Leak (leak.go): detectLeaks. Pool/Health (health.go): performCheck, readProbeCheck and
--     checkConnection. Pool/Cleanup (cleanup.go): performCleanup and enforceMaxIdleConnections.
--   Pool/Core: the invariant of the map. Pool/Lent: what a Get returns. Pool/Sharing: Put with a
--     waiter. Pool/Closing: Close.
--   Pool/Lending: an abstract machine, whose state is the set of lent connections and whose events are
--     lends and returns, and its refinement by the pool.
--   Pool/Racing: creations that overlap. Pool/Waiters: the places of the waiters in the queues.
--     Pool/Order: which waiter a notification chooses.
--     Pool/Refused: a closed pool. Pool/Uncrashed: the warm-up does not crash. Pool/Drift: the counter
--     of connections in use after the warm-up.
--     Pool/IdleCounts: the counters of idle connections. Pool/Silent: the check of a silent
--     connection. Pool/Stale: an idle connection that is no longer valid.
--   Pool/Threads: goroutines in GetWithTimeout with createConnection, Put, closeConnection, a round of
--     performCleanup and Close, which interleave an access to the shared state at a time. Defs: where
--     a goroutine can stand. Act: what it does next. System: the goroutines of a pool. Owned, Sockets,
--     Placed: who has a connection in its hands. Alone: a goroutine that is not disturbed does what
--     the definitions above do in one piece. Duo, Overlaps, Swept, Outlived, Overtaken: two that disturb
--     each other. Queued, Dead, Spins: a wait queue that is closed.
--   Pool/Invariance: a principle of invariance for the Gets and warmUp; a predicate that their parts
--     keep, they keep.
--   Pool/LeakCounts: the leak detector. Pool/Cleaning: the cleanup.
--   Examples: concrete pools and configurations.
--
-- Bounds and fuel: the loop of GetWithTimeout runs on one more round than there are idle
-- connections, since every round but the last takes one; the other two loops have the source's ten
-- attempts. A number of connections is a natural number; that the machine makes no channel of a size
-- out of its range is makes_channel of World. IDs are natural numbers; the source's 64-bit generator
-- wraps only after 2^64 connections.
--
-- Not modelled: interleavings within the other methods. Outside Pool/Threads, Put, the Gets up to a
-- wait, and the parts of Close are one step each, so the limit on the map is that of creations that
-- do not overlap; Pool/Racing has the creations that do. Waiters and the parts of Close interleave
-- freely. In Pool/Threads a call to a hook and the method of Connection or of the statistics that goes
-- with it are one access, a Close starts without the Stops of the managers, a Get that has to wait
-- ends there, and a goroutine that has panicked stops alone, but for the panic of the flag crashed. OnBorrow, OnReturn
-- and the clearing of a UDP buffer are recorded as effects. A pass of a manager of cleanup.go,
-- health.go or leak.go is one step, at any time; a ticker is only its interval. Where a UDP buffer
-- is cleared is an effect of the pool; what the clearing does is Udp, and no theorem runs both.
-- The map is a list, where Go's order of iteration is arbitrary. examples/, test/ and docs/ have
-- no part of the library.
pub mod Prelude
pub mod Errors
pub mod Net
pub mod Protocol
pub mod IpVersion
pub mod Mode
pub mod Config
pub mod Parsing
pub mod Connection
pub mod Stats
pub mod Udp
pub mod Manager
pub mod Pool
pub mod Examples
