-- ===== src/Pool/Threads/Alone/Closes.antt =====
-- pool.go: `Close`, alone.
use netconnpool.Prelude.{
  ℕ, ◌≡◌, refl, ap, sym, subst, fun_ext, Option, none, Bool, true, false, List, ◌∷◌, if◌then◌else◌,
}
use netconnpool.Errors.{Error}
use netconnpool.Pool.State.{Pool, World, Queue, any, v4, v6, tcp, udp}
use netconnpool.Pool.Shutdown.{
  begin_close, close_all, close_connections, close_wait_queue, close_wait_queues, close_idle, close,
}
use netconnpool.Pool.Threads.Act.{act}
use netconnpool.Pool.Threads.Alone.{Runs, done, step, Runs-trans}
use netconnpool.Pool.Threads.Defs.{
  Shared, Thread, shuts, returned, shut_starts, shut_snapshots, shut_idle_tcp, shut_idle_udp,
  with_pool, all_queues, shut_queue,
}
use netconnpool.Prelude.{[]}
use netconnpool.Pool.Threads.Alone.Drains.{draining, closes-Runs, queue-Runs}

module _ (w : World) where
  -- The idle channels, from which everything is received before they are closed.
  abbrev tcp_done : Shared → Option Error → Pool → Shared × Thread
  tcp_done s e p = (record s { pool = p; tcp_shut = true }, shuts (shut_idle_udp e))

  tcp-Runs :
      (s : Shared) (e : Option Error) (ids : List ℕ) (p : Pool)
      → p.idle_tcp ≡ ids
      → Runs w (with_pool s p, shuts (shut_idle_tcp e)) (tcp_done s e (record p { idle_tcp = [] }))
  unfolding act
  tcp-Runs s e [] p h = step (
      rw h (
        subst
          (λ (xs : List ℕ).
            Runs w (tcp_done s e (record p { idle_tcp = xs }))
              (tcp_done s e (record p { idle_tcp = [] })))
          (sym h) (done _)))
  tcp-Runs s e (id ∷ ids) p h = step (rw h (tcp-Runs s e ids (record p { idle_tcp = ids }) refl))

  abbrev udp_done : Shared → Option Error → Pool → Shared × Thread
  udp_done s e p = (record s { pool = p; udp_shut = true }, returned e)

  udp-Runs :
      (s : Shared) (e : Option Error) (ids : List ℕ) (p : Pool)
      → p.idle_udp ≡ ids
      → Runs w (with_pool s p, shuts (shut_idle_udp e)) (udp_done s e (record p { idle_udp = [] }))
  unfolding act
  udp-Runs s e [] p h = step (
      rw h (
        subst
          (λ (xs : List ℕ).
            Runs w (udp_done s e (record p { idle_udp = xs }))
              (udp_done s e (record p { idle_udp = [] })))
          (sym h) (done _)))
  udp-Runs s e (id ∷ ids) p h = step (rw h (udp-Runs s e ids (record p { idle_udp = ids }) refl))

  queues-Runs :
      (s : Shared) (e : Option Error) (p : Pool)
      → Runs w (draining all_queues e (with_pool s p)) (
          draining [] e (
            with_pool
              (shut_queue udp (shut_queue tcp (shut_queue v6 (shut_queue v4 (shut_queue any s)))))
              (close_wait_queues p)))
  unfolding close_wait_queues
  queues-Runs s e p =
      let s1 = shut_queue any s in
      let s2 = shut_queue v4 s1 in
      let s3 = shut_queue v6 s2 in
      let s4 = shut_queue tcp s3 in
      let p1 = close_wait_queue any p in
      let p2 = close_wait_queue v4 p1 in
      let p3 = close_wait_queue v6 p2 in
      let p4 = close_wait_queue tcp p3 in
      Runs-trans (queue-Runs w s any (v4 ∷ v6 ∷ tcp ∷ udp ∷ []) e p) (
        Runs-trans (queue-Runs w s1 v4 (v6 ∷ tcp ∷ udp ∷ []) e p1) (
          Runs-trans (queue-Runs w s2 v6 (tcp ∷ udp ∷ []) e p2)
            (Runs-trans (queue-Runs w s3 tcp (udp ∷ []) e p3) (queue-Runs w s4 udp [] e p4))))

  -- Every channel of the pool is closed.
  abbrev pub all_shut : Shared → Pool → Shared
  all_shut s p = record s {
    pool = p;
    once = true;
    tcp_shut = true;
    udp_shut = true;
    queue_shut = λ q. true;
  }

  every_queue :
      (s : Shared)
      → (shut_queue udp
          (shut_queue tcp (shut_queue v6 (shut_queue v4 (shut_queue any s))))).queue_shut
        ≡ (λ q. true)
  every_queue s = fun_ext every
    where
      every :
          (q : Queue)
          → (shut_queue udp
                (shut_queue tcp (shut_queue v6 (shut_queue v4 (shut_queue any s))))).queue_shut
              q
            ≡ true
      every any = refl
      every v4 = refl
      every v6 = refl
      every tcp = refl
      every udp = refl

  -- The part of `close` behind `closeOnce`.
  abbrev closing : Pool → Pool × Option Error
  closing p =
      let (q, e) = close_connections w (begin_close p) in (close_idle (close_wait_queues q), e)

  close_opened : (p : Pool) → p.closed ≡ false → close w p ≡ closing p
  unfolding close
  close_opened p h = ap (λ (b : Bool). if b then (p, none) else closing p) h

  -- The last part of `Close`.
  idle-Runs :
      (s : Shared) (e : Option Error) (p : Pool)
      → Runs w
          (draining [] e (with_pool s p))
          (record s { pool = close_idle p; tcp_shut = true; udp_shut = true }, returned e)
  unfolding act close_idle
  idle-Runs s e p = step (
      Runs-trans (tcp-Runs s e p.idle_tcp p refl)
        (udp-Runs (record s { tcp_shut = true }) e p.idle_udp (record p { idle_tcp = [] }) refl))

  closing-Runs :
      (s : Shared) (p : Pool)
      → Runs w
          (record s { once = true; pool = begin_close p }, shuts shut_snapshots)
          (all_shut s (closing p).0, returned (closing p).1)
  unfolding act close_connections
  closing-Runs s p =
      let s0 = record s { once = true } in
      let q = begin_close p in
      let r = close_all w q.connections none (record q { connections = [] }) in
      let shut =
        shut_queue udp (shut_queue tcp (shut_queue v6 (shut_queue v4 (shut_queue any s0)))) in
      step (
        Runs-trans (closes-Runs w s0 q.connections none (record q { connections = [] })) (
          Runs-trans (queues-Runs s0 r.1 r.0) (
            subst
              (λ (f : Queue → Bool).
                Runs w (draining [] r.1 (with_pool shut (close_wait_queues r.0))) (
                  record (all_shut s (close_idle (close_wait_queues r.0))) { queue_shut = f },
                  returned r.1,
                ))
              (every_queue s0) (idle-Runs shut r.1 (close_wait_queues r.0)))))

  -- `Close` after its first access.
  pub begun-Runs :
      (s : Shared)
      → s.once ≡ false
      → s.pool.closed ≡ false
      → Runs w
          (act w s (shuts shut_starts))
          (all_shut s (close w s.pool).0, returned (close w s.pool).1)
  unfolding act
  begun-Runs s o c =
      subst
        (λ (r : Pool × Option Error).
          Runs w (act w s (shuts shut_starts)) (all_shut s r.0, returned r.1))
        (sym (close_opened s.pool c))
        (subst
          (λ (b : Bool).
            Runs w
              (if b
                then (s, if s.udp_shut then returned none else shuts shut_starts)
                else (record s { once = true; pool = begin_close s.pool }, shuts shut_snapshots))
              (all_shut s (closing s.pool).0, returned (closing s.pool).1))
          (sym o) (closing-Runs s s.pool))

  pub close-Runs :
      (s : Shared)
      → s.once ≡ false
      → s.pool.closed ≡ false
      → Runs w (s, shuts shut_starts) (all_shut s (close w s.pool).0, returned (close w s.pool).1)
  close-Runs s o c = step (begun-Runs s o c)
