-- ===== src/Pool/Threads/Defs.antt =====
-- pool.go, cleanup.go: `GetWithTimeout` with `createConnection`, `Put`, `closeConnection`, `Close`
-- and the rounds of `performCleanup`, an access to the shared state at a time. A thread is where its
-- goroutine stands, with the variables that are live there.
use netconnpool.Prelude.{
  ℕ, suc, ◌-◌, Option, none, some, Bool, true, false, List, ◌∷◌, ◌++◌, if◌then◌else◌,
}
use netconnpool.Errors.{Error, Result, ok, err}
use netconnpool.Net.Addr.{NetConn}
use netconnpool.Connection.{Connection}
use netconnpool.Pool.Create.{close_unapproved}
use netconnpool.Pool.State.{Pool, World, Queue, any, v4, v6, tcp, udp, asks, update_at, set_queue}
use netconnpool.Pool.Notify.{protocol_queue, version_queue}
use netconnpool.Pool.Put.{is_tcp_connection}
use netconnpool.Pool.Borrow.{Outcome, failed, waits, take_any, count_connection_error}
use netconnpool.Pool.Create.{close_unapproved}
use netconnpool.Pool.State.{queue_eq}
use netconnpool.Prelude.{◌&&◌}
use netconnpool.Prelude.{[]}

-- The pool, with what only shows when methods overlap: the permits of `createSemaphore` that are
-- taken, `closeOnce`, and which channels `Close` has closed.
pub record Shared : Type 0 where
  pub pool : Pool
  pub permits : ℕ
  pub once : Bool
  pub tcp_shut : Bool
  pub udp_shut : Bool
  pub queue_shut : Queue → Bool

-- What a thread does after `closeConnection`: it starts its next round, or returns.
pub data After : Type 0 where
  next_round : (started : ℕ) → After
  returns_error returns_nothing : After

-- In `GetWithTimeout`. A thread in it keeps the time of its start, for the deferred `RecordGetTime`.
pub data Getting : Type 0 where
  get_starts get_tests get_takes get_measures : Getting
  get_checks get_reuses get_lends : ℕ → Getting
  get_ends : Outcome → Getting

-- In `createConnection`, which `GetWithTimeout` has called.
pub data Creating : Type 0 where
  create_acquires create_tests create_measures create_dials : Creating
  create_asks create_makes : Option NetConn → Creating
  create_inserts create_counts : ℕ → Creating
  create_ends : Result ℕ → Creating

-- In `closeConnection`.
pub data Discarding : Type 0 where
  discard_marks discard_deletes : ℕ → Discarding
  discard_closes : ℕ → (exists : Bool) → Discarding
  discard_counts : ℕ → (exists : Bool) → Option Error → Discarding

-- In `Put`, with the queues of `notifyWaitQueue` that are left, and the waiter that
-- `notifySpecificWaitQueue` has received.
pub data Putting : Type 0 where
  put_tests put_checks put_returns put_sends put_counts : ℕ → Putting
  put_notifies : ℕ → List Queue → Putting
  put_offers : ℕ → (ch : ℕ) → List Queue → Putting

-- In a round of the loop of `performCleanup`.
pub data Sweeping : Type 0 where
  sweep_tests sweep_judges sweep_marks sweep_retests : ℕ → Sweeping

-- In `Close`, with the connections or the queues that are left to close, and the first error.
pub data Shutting : Type 0 where
  shut_starts shut_snapshots : Shutting
  shut_closes : List ℕ → Option Error → Shutting
  shut_drains : List Queue → Option Error → Shutting
  shut_idle_tcp shut_idle_udp : Option Error → Shutting

-- A thread that calls nothing, is in a method, or has come to the end of one.
pub data Thread : Type 0 where
  idle : Thread
  gets : (started : ℕ) → Getting → Thread
  creates : (started : ℕ) → Creating → Thread
  discards : Discarding → After → Thread
  puts : Putting → Thread
  sweeps : Sweeping → Thread
  shuts : Shutting → Thread
  gave : Outcome → Thread
  returned : Option Error → Thread
  panicked : Thread

abbrev pub with_pool : Shared → Pool → Shared
with_pool s p = record s { pool = p }

abbrev pub release : Shared → Shared
release s = record s { permits = s.permits - 1 }

abbrev pub idle_shut : ℕ → Shared → Bool
idle_shut id s = if is_tcp_connection s.pool id then s.tcp_shut else s.udp_shut

-- The queues that `notifyWaitQueue` tries, in its order.
abbrev pub some_queue : Option Queue → List Queue
some_queue none = []
some_queue (some q) = q ∷ []

abbrev pub queues_for : Connection → List Queue
queues_for c =
    some_queue (protocol_queue c.protocol) ++ (some_queue (version_queue c.ip_version) ++ any ∷ [])

abbrev pub all_queues : List Queue
all_queues = any ∷ v4 ∷ v6 ∷ tcp ∷ udp ∷ []

abbrev pub after : After → Option Error → Thread
after (next_round started) e = gets started get_tests
after returns_error e = returned e
after returns_nothing e = returned none

-- The `select` of `GetWithTimeout` over the idle channels takes a connection, or none.
abbrev pub taken : (started : ℕ) → Shared → Option (ℕ × Pool) → Shared × Thread
taken started s none = (s, gets started get_measures)
taken started s (some (id, p)) = (with_pool s p, gets started (get_checks id))

-- A closed channel is always ready and gives nil; `Close` closes that for TCP first.
abbrev pub select_idle : (started : ℕ) → World → Shared → Shared × Thread
select_idle started w s =
    if s.tcp_shut && w.prefers_tcp s.pool.asked
    then (with_pool s (record s.pool { asked = suc s.pool.asked }), gets started get_measures)
    else taken started s (take_any w s.pool)

-- The answer of Dialer or Acceptor.
abbrev pub dial_answered : (started : ℕ) → Shared → Result (Option NetConn) → Shared × Thread
dial_answered started s (err e) = (s, creates started (create_ends (err e)))
dial_answered started s (ok socket) =
    if s.pool.config.on_created
    then (s, creates started (create_asks socket))
    else (s, creates started (create_makes socket))

-- The answer of OnCreated.
abbrev pub hook_answered :
    (started : ℕ) → World → Shared → Option NetConn → Option Error → Shared × Thread
hook_answered started w s socket none =
    (with_pool s (asks w s.pool), creates started (create_makes socket))
hook_answered started w s socket (some e) =
    (with_pool s (asks w (close_unapproved socket s.pool)), creates started (create_ends (err e)))

-- How `GetWithTimeout` goes on after `createConnection`.
abbrev pub creation_ended : (started : ℕ) → Shared → Result ℕ → Shared × Thread
creation_ended started s (ok id) = (release s, gets started (get_lends id))
creation_ended started s (err Error.max_connections_reached) =
    (with_pool (release s) (count_connection_error s.pool), gets started (get_ends (waits any)))
creation_ended started s (err e) =
    (with_pool (release s) (count_connection_error s.pool), gets started (get_ends (failed e)))

-- `case waitChan := <-waitQueue` of a queue; a closed one gives nil, to which nothing is ever sent.
abbrev pub notified : Shared → ℕ → Queue → List Queue → List ℕ → Shared × Thread
notified s id q qs [] =
    if s.queue_shut q then (s, puts (put_notifies id (q ∷ qs))) else (s, puts (put_notifies id qs))
notified s id q qs (ch ∷ rest) =
    (with_pool s (set_queue q rest s.pool), puts (put_offers id ch (q ∷ qs)))

-- `case waitChan <- conn`
abbrev pub offered : Shared → ℕ → (ch : ℕ) → List Queue → Bool → Shared × Thread
offered s id ch qs true = (
  with_pool s (record s.pool {
    chan = update_at s.pool.chan ch (record { buffer = some id; is_closed = false });
  }),
  returned none,
)
offered s id ch qs false = (s, puts (put_notifies id qs))

abbrev pub shut_queue : Queue → Shared → Shared
shut_queue q s = record s { queue_shut = λ r. if queue_eq q r then true else s.queue_shut r }

-- A round of `closeWaitQueue`.
abbrev pub drained : Shared → Queue → List Queue → Option Error → List ℕ → Shared × Thread
drained s q qs e [] = (shut_queue q s, shuts (shut_drains qs e))
drained s q qs e (ch ∷ rest) = (
  with_pool s (
      set_queue q rest (record s.pool {
        chan =
            update_at s.pool.chan ch
              (record { buffer = (s.pool.chan ch).buffer; is_closed = true });
      })),
  shuts (shut_drains (q ∷ qs) e),
)

-- A round of `closeIdleChan`.
abbrev pub idle_tcp_drained : Shared → Option Error → List ℕ → Shared × Thread
idle_tcp_drained s e [] = (record s { tcp_shut = true }, shuts (shut_idle_udp e))
idle_tcp_drained s e (id ∷ ids) =
    (with_pool s (record s.pool { idle_tcp = ids }), shuts (shut_idle_tcp e))

abbrev pub idle_udp_drained : Shared → Option Error → List ℕ → Shared × Thread
idle_udp_drained s e [] = (record s { udp_shut = true }, returned e)
idle_udp_drained s e (id ∷ ids) =
    (with_pool s (record s.pool { idle_udp = ids }), shuts (shut_idle_udp e))
