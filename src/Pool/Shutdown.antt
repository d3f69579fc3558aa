-- ===== src/Pool/Shutdown.antt =====
-- pool.go: `Close`, without the `Stop`s of the three managers. Its first part sets
-- `closed` and closes `closeChan`; a waiter may wake between that and `closeWaitQueue`.
use netconnpool.Prelude.{ℕ, Option, none, some, true, List, [], ◌∷◌, if◌then◌else◌}
use netconnpool.Errors.{Error}
use netconnpool.Stats.{increment_total_connections_closed}
use netconnpool.Pool.State.{
  Pool, World, Queue, any, v4, v6, tcp, udp, WaitChan, with_stats, update_at, set_queue,
}
use netconnpool.Pool.Discard.{connection_close}

-- `p.closed = true` and `close(p.closeChan)`.
unfoldable pub begin_close : Pool → Pool
begin_close p = record p { closed = true }

-- The first error.
abbrev pub first_error : Option Error → Option Error → Option Error
first_error (some e) e' = some e
first_error none e' = e'

-- The loop over the connections that were in the map.
unfoldable pub close_all : World → List ℕ → Option Error → Pool → Pool × Option Error
close_all w [] e p = (p, e)
close_all w (id ∷ ids) e p =
    let (p1, e1) = connection_close w p id in
    close_all w ids (first_error e e1) (with_stats increment_total_connections_closed p1)

unfoldable pub close_connections : World → Pool → Pool × Option Error
close_connections w p = close_all w p.connections none (record p { connections = [] })

-- `closeWaitQueue`: every waiter's channel is closed; closing a closed one panics, which `recover`
-- takes.
unfoldable pub close_chans : List ℕ → (ℕ → WaitChan) → ℕ → WaitChan
close_chans [] chan = chan
close_chans (ch ∷ rest) chan =
    close_chans rest (update_at chan ch (record { buffer = (chan ch).buffer; is_closed = true }))

unfoldable pub close_wait_queue : Queue → Pool → Pool
close_wait_queue q p = set_queue q [] (record p { chan = close_chans (p.queue q) p.chan })

unfoldable pub close_wait_queues : Pool → Pool
close_wait_queues p =
    close_wait_queue udp
      (close_wait_queue tcp (close_wait_queue v6 (close_wait_queue v4 (close_wait_queue any p))))

-- `closeIdleChan`, of both channels.
unfoldable pub close_idle : Pool → Pool
close_idle p = record p { idle_tcp = []; idle_udp = [] }

-- `Close`: `closeOnce` lets the first call through only.
unfoldable pub close : World → Pool → Pool × Option Error
close w p =
    if p.closed
    then (p, none)
    else let (p1, e) = close_connections w (begin_close p) in (close_idle (close_wait_queues p1), e)
