-- ===== src/Pool/Threads/Alone/Drains.antt =====
-- pool.go: what `Close` does to the connections and the wait queues, alone.
use netconnpool.Prelude.{ℕ, ◌≡◌, refl, ap, sym, subst, Option, true, List, ◌∷◌}
use netconnpool.Errors.{Error}
use netconnpool.Stats.{increment_total_connections_closed}
use netconnpool.Pool.State.{Pool, World, Queue, with_stats, set_queue, update_at}
use netconnpool.Pool.Discard.{connection_close}
use netconnpool.Pool.Shutdown.{first_error, close_all, close_chans, close_wait_queue}
use netconnpool.Pool.Threads.Queues.{set_queue_same, set_queue_twice, set_queue-queue}
use netconnpool.Pool.Threads.Act.{act}
use netconnpool.Pool.Threads.Alone.{Runs, done, step}
use netconnpool.Pool.Threads.Defs.{
  Shared, Thread, shuts, shut_closes, shut_drains, with_pool, all_queues, shut_queue,
}
use netconnpool.Prelude.{[]}

-- Where `Close` stands with the queues.
abbrev pub draining : List Queue → Option Error → Shared → Shared × Thread
draining qs e s = (s, shuts (shut_drains qs e))

module _ (w : World) where
  pub closes-Runs :
      (s : Shared) (ids : List ℕ) (e : Option Error) (p : Pool)
      → Runs w
          (with_pool s p, shuts (shut_closes ids e))
          (
            with_pool s (close_all w ids e p).0,
            shuts (shut_drains all_queues (close_all w ids e p).1),
          )
  unfolding act close_all
  closes-Runs s [] e p = step (done _)
  closes-Runs s (id ∷ ids) e p = step (
      closes-Runs s ids (first_error e (connection_close w p id).1)
        (with_stats increment_total_connections_closed (connection_close w p id).0))

  no_waiter :
      (s : Shared) (q : Queue) (qs : List Queue) (e : Option Error) (p : Pool)
      → p.queue q ≡ []
      → act w (with_pool s p) (shuts (shut_drains (q ∷ qs) e))
        ≡ draining qs e (shut_queue q (with_pool s (set_queue q [] p)))
  unfolding act
  no_waiter s q qs e p h = rw h (
      ap (λ (r : Pool). draining qs e (shut_queue q (with_pool s r)))
        (sym (set_queue_same q [] p h)))

  abbrev without_first : Queue → ℕ → List ℕ → Pool → Pool
  without_first q ch rest p = set_queue q rest (record p {
    chan = update_at p.chan ch (record { buffer = (p.chan ch).buffer; is_closed = true });
  })

  first_waiter :
      (s : Shared) (q : Queue) (qs : List Queue) (e : Option Error) (ch : ℕ) (rest : List ℕ)
      (p : Pool)
      → p.queue q ≡ ch ∷ rest
      → act w (with_pool s p) (shuts (shut_drains (q ∷ qs) e))
        ≡ draining (q ∷ qs) e (with_pool s (without_first q ch rest p))
  unfolding act
  first_waiter s q qs e ch rest p h = rw h refl

  abbrev emptied : Queue → List ℕ → Pool → Pool
  emptied q chans p = set_queue q [] (record p { chan = close_chans chans p.chan })

  waiters-Runs :
      (s : Shared) (q : Queue) (qs : List Queue) (e : Option Error) (chans : List ℕ) (p : Pool)
      → p.queue q ≡ chans
      → Runs w
          (draining (q ∷ qs) e (with_pool s p))
          (draining qs e (shut_queue q (with_pool s (emptied q chans p))))
  unfolding close_chans
  waiters-Runs s q qs e [] p h = step (rw (no_waiter s q qs e p h) (done _))
  waiters-Runs s q qs e (ch ∷ rest) p h = step (
      rw (first_waiter s q qs e ch rest p h) (
        subst
          (λ (r : Pool).
            Runs w (draining (q ∷ qs) e (with_pool s (without_first q ch rest p)))
              (draining qs e (shut_queue q (with_pool s r))))
          (set_queue_twice q [] rest (record p { chan = close_chans (ch ∷ rest) p.chan }))
          (waiters-Runs s q qs e rest (without_first q ch rest p) (
            set_queue-queue q rest (record p {
              chan = update_at p.chan ch (record { buffer = (p.chan ch).buffer; is_closed = true });
            })))))

  pub queue-Runs :
      (s : Shared) (q : Queue) (qs : List Queue) (e : Option Error) (p : Pool)
      → Runs w
          (draining (q ∷ qs) e (with_pool s p))
          (draining qs e (shut_queue q (with_pool s (close_wait_queue q p))))
  unfolding close_wait_queue
  queue-Runs s q qs e p = waiters-Runs s q qs e (p.queue q) p refl
