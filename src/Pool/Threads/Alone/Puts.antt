-- ===== src/Pool/Threads/Alone/Puts.antt =====
-- pool.go: `Put`, alone.
use netconnpool.Prelude.{
  ℕ, ◌≡◌, refl, subst, Option, none, some, Bool, false, not, length, ltb, if_cases,
}
use netconnpool.Errors.{Error}
use netconnpool.Connection.{Connection}
use netconnpool.Pool.State.{Pool, World, Queue, is_connection_valid}
use netconnpool.Pool.Notify.{notify_wait_queue}
use netconnpool.Pool.Put.{
  put, to_idle, hand_back, idle_chan, idle_capacity, send_idle, count_idle, is_tcp_connection,
}
use netconnpool.Pool.Threads.Act.{act}
use netconnpool.Pool.Threads.Alone.{Runs, if-Runs, step}
use netconnpool.Pool.Threads.Alone.Discards.{discards-Runs}
use netconnpool.Pool.Threads.Alone.Notices.{notices-Runs}
use netconnpool.Pool.Threads.Defs.{
  Shared, Thread, puts, returned, put_tests, put_sends, put_counts, put_notifies, returns_error,
  with_pool, idle_shut, queues_for,
}

send_idle-object : (id : ℕ) (p : Pool) → (send_idle id p).object id ≡ p.object id
send_idle-object id p =
    if_cases (λ (q : Pool). q.object id ≡ p.object id) (is_tcp_connection p id) (λ h. refl)
      (λ h. refl)

-- No channel of the pool is closed.
pub record Unshut (s : Shared) : Type 0 where
  pub tcp_open : s.tcp_shut ≡ false
  pub udp_open : s.udp_shut ≡ false
  pub queues_open : (q : Queue) → s.queue_shut q ≡ false

module _ (w : World) (s : Shared) (u : Unshut s) (id : ℕ) where
  pub idle_open : (p : Pool) → idle_shut id (with_pool s p) ≡ false
  idle_open p =
      if_cases (λ (b : Bool). b ≡ false) (is_tcp_connection p id) (λ h. u.tcp_open)
        (λ h. u.udp_open)

  -- The thread has returned what the method does.
  abbrev returns_as : Pool × Option Error → Shared × Thread
  returns_as r = (with_pool s r.0, returned r.1)

  counted-Runs :
      (p : Pool)
      → Runs w
          (with_pool s (send_idle id p), puts (put_counts id))
          (returns_as (notify_wait_queue id (count_idle 1 (p.object id) (send_idle id p)), none))
  unfolding act
  counted-Runs p = step (
      subst
        (λ (c : Connection).
          Runs w
            (
              with_pool s (count_idle 1 ((send_idle id p).object id) (send_idle id p)),
              puts (put_notifies id (queues_for ((send_idle id p).object id))),
            )
            (returns_as (notify_wait_queue id (count_idle 1 c (send_idle id p)), none)))
        (send_idle-object id p)
        (notices-Runs w s u.queues_open id
          (count_idle 1 ((send_idle id p).object id) (send_idle id p))))

  sends-Runs :
      (p : Pool) → Runs w (with_pool s p, puts (put_sends id)) (returns_as (to_idle w id p))
  unfolding act to_idle
  sends-Runs p = step (
      rw (idle_open p) (
        if-Runs returns_as (ltb (length (idle_chan id p)) (idle_capacity p)) (counted-Runs p)
          (discards-Runs w (with_pool s p) id returns_error)))

  pub put-Runs : Runs w (s, puts (put_tests id)) (returns_as (put w s.pool (some id)))
  unfolding act put
  put-Runs = step (
      if-Runs returns_as s.pool.closed (discards-Runs w s id returns_error) (
        step (
          if-Runs returns_as (not (is_connection_valid s.pool id))
            (discards-Runs w s id returns_error) (step (sends-Runs (hand_back id s.pool))))))
