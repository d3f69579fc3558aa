-- ===== src/Pool/Threads/Dead.antt =====
-- pool.go: what the accesses of a thread make of a wait queue that `Close` has closed.
use netconnpool.Prelude.{
  ℕ, ◌≡◌, refl, Option, none, some, Bool, true, false, not, ◌&&◌, List, [], ◌∷◌, length, ltb, arith,
  Bool-cases, if_cases, if◌then◌else◌, inl, inr,
}
use netconnpool.Errors.{Error, Result, ok, err}
use netconnpool.Net.Addr.{NetConn}
use netconnpool.Pool.State.{
  Pool, World, Queue, queue_eq, asks, at_limit, is_connection_valid, set_queue, update_at,
}
use netconnpool.Pool.Notify.{can_send}
use netconnpool.Pool.Put.{idle_capacity, idle_chan}
use netconnpool.Pool.Create.{lacks_source}
use netconnpool.Pool.Borrow.{take_any}
use netconnpool.Pool.Shutdown.{begin_close}
use netconnpool.Pool.Cleanup.{should_close}
use netconnpool.Pool.Racing.{permits}
use netconnpool.Pool.Closing.{connection_close-queue}
use netconnpool.Pool.Threads.Queues.{queue_of_eq}
use netconnpool.Pool.Threads.Act.{
  get_act, create_act, discard_act, put_act, sweep_act, shut_act, act,
}
use netconnpool.Pool.Threads.Defs.{
  Shared, Thread, After, Getting, Creating, Discarding, Putting, Sweeping, Shutting, idle, gets,
  creates, discards, puts, sweeps, shuts, gave, returned, panicked, get_starts, get_tests,
  get_takes, get_measures, get_checks, get_reuses, get_lends, get_ends, create_acquires,
  create_tests, create_measures, create_dials, create_asks, create_makes, create_inserts,
  create_counts, create_ends, discard_marks, discard_deletes, discard_closes, discard_counts,
  put_tests, put_checks, put_returns, put_sends, put_counts, put_notifies, put_offers, sweep_tests,
  sweep_judges, sweep_marks, sweep_retests, shut_starts, shut_snapshots, shut_closes, shut_drains,
  shut_idle_tcp, shut_idle_udp, with_pool, idle_shut, taken, dial_answered, hook_answered,
  creation_ended, notified, offered, drained, idle_tcp_drained, idle_udp_drained,
}
use netconnpool.Pool.Threads.Queued.{
  lend_idle-queue, lend_new-queue, hand_back-queue, insert-queue, finish_get-queue, TakenQueue,
  take_any-queue, send_idle-queue,
}

-- A closed queue stays closed, and an empty one empty.
pub record Dead (q : Queue) (s : Shared) (r : Shared × Thread) : Type 0 where
  pub stays_shut : s.queue_shut q ≡ true → r.0.queue_shut q ≡ true
  pub stays_empty : s.pool.queue q ≡ [] → r.0.pool.queue q ≡ []

module _ {q : Queue} {s : Shared} where
  same :
      {p : Pool} {t : Thread} {n : ℕ} {a b c : Bool}
      → p.queue ≡ s.pool.queue
      → Dead q s (
        record {
          pool = p;
          permits = n;
          once = a;
          tcp_shut = b;
          udp_shut = c;
          queue_shut = s.queue_shut;
        },
        t,
      )
  same {p} e = record { stays_shut = λ h. h; stays_empty = λ h. rw e h }

  quiet : {t : Thread} → Dead q s (s, t)
  quiet = record { stays_shut = λ h. h; stays_empty = λ h. h }

  if-Dead :
      (b : Bool) {x y : Shared × Thread} → Dead q s x → Dead q s y → Dead q s (if b then x else y)
  if-Dead true h k = h
  if-Dead false h k = k

  -- A queue that loses its first waiter.
  shorter :
      (r : Queue) (ch : ℕ) (rest : List ℕ) (p : Pool) {t : Thread}
      → s.pool.queue r ≡ ch ∷ rest
      → p.queue ≡ s.pool.queue
      → Dead q s (with_pool s (set_queue r rest p), t)
  shorter r ch rest p e f = record {
    stays_shut = λ h. h;
    stays_empty = λ h. elim (Bool-cases (queue_eq r q)) [
      | inl k ↦ cc (queue_of_eq r q k)
      | inr k ↦ rw (k, f) h
    ];
  }

  taken-Dead :
      (started : ℕ) (o : Option (ℕ × Pool)) → TakenQueue s.pool o → Dead q s (taken started s o)
  taken-Dead started none h = quiet
  taken-Dead started (some (id, p)) h = same h

  get_act-Dead : (w : World) (started : ℕ) (t : Getting) → Dead q s (get_act w started s t)
  get_act-Dead w started get_starts = if-Dead s.pool.closed quiet (same refl)
  get_act-Dead w started get_tests = if-Dead s.pool.closed quiet quiet
  get_act-Dead w started get_takes =
      if-Dead (s.tcp_shut && w.prefers_tcp s.pool.asked) (same refl)
        (taken-Dead started (take_any w s.pool) (take_any-queue w s.pool))
  get_act-Dead w started get_measures = if-Dead (at_limit s.pool) quiet quiet
  get_act-Dead w started (get_checks id) = if-Dead (is_connection_valid s.pool id) quiet quiet
  get_act-Dead w started (get_reuses id) = same (lend_idle-queue id s.pool)
  get_act-Dead w started (get_lends id) = same (lend_new-queue id s.pool)
  get_act-Dead w started (get_ends o) = same (finish_get-queue started s.pool o)

  discard_act-Dead : (w : World) (a : After) (t : Discarding) → Dead q s (discard_act w a s t)
  discard_act-Dead w a (discard_marks id) = same refl
  discard_act-Dead w a (discard_deletes id) = same (ground arith)
  discard_act-Dead w a (discard_closes id exists) = same (connection_close-queue w s.pool id)
  discard_act-Dead w a (discard_counts id exists e) = same (ground arith)

  sweep_act-Dead : (w : World) (t : Sweeping) → Dead q s (sweep_act w s t)
  sweep_act-Dead w (sweep_tests id) = if-Dead (s.pool.object id).in_use quiet quiet
  sweep_act-Dead w (sweep_judges id) =
      if-Dead (should_close s.pool.config s.pool.now (s.pool.object id)) quiet quiet
  sweep_act-Dead w (sweep_marks id) = same refl
  sweep_act-Dead w (sweep_retests id) = if-Dead (s.pool.object id).in_use quiet quiet

  creation_ended-Dead : (started : ℕ) (r : Result ℕ) → Dead q s (creation_ended started s r)
  creation_ended-Dead started (ok id) = same refl
  creation_ended-Dead started (err Error.max_connections_reached) = same refl
  creation_ended-Dead started (err e) = same refl

  dial_answered-Dead :
      (started : ℕ) (p : Pool) (o : Result (Option NetConn))
      → p.queue ≡ s.pool.queue
      → Dead q s (dial_answered started (with_pool s p) o)
  dial_answered-Dead started p (err e) h = same h
  dial_answered-Dead started p (ok socket) h = if-Dead p.config.on_created (same h) (same h)

  hook_answered-Dead :
      (started : ℕ) (w : World) (socket : Option NetConn) (o : Option Error)
      → Dead q s (hook_answered started w s socket o)
  hook_answered-Dead started w socket none = same refl
  hook_answered-Dead started w none (some e) = same refl
  hook_answered-Dead started w (some socket) (some e) = same refl

  create_act-Dead : (w : World) (started : ℕ) (t : Creating) → Dead q s (create_act w started s t)
  create_act-Dead w started create_acquires =
      if-Dead (w.done s.pool.asked) (same refl) (if-Dead (ltb s.permits permits) (same refl) quiet)
  create_act-Dead w started create_tests = if-Dead s.pool.closed quiet quiet
  create_act-Dead w started create_measures = if-Dead (at_limit s.pool) quiet quiet
  create_act-Dead w started create_dials =
      if-Dead (lacks_source s.pool.config.mode s.pool.config) quiet
        (dial_answered-Dead started (asks w s.pool) (w.dial s.pool.asked) refl)
  create_act-Dead w started (create_asks socket) =
      hook_answered-Dead started w socket (w.on_created s.pool.asked)
  create_act-Dead w started (create_makes socket) = same refl
  create_act-Dead w started (create_inserts id) = same (insert-queue id s.pool)
  create_act-Dead w started (create_counts id) = same refl
  create_act-Dead w started (create_ends r) = creation_ended-Dead started r

  notified-Dead :
      (id : ℕ) (r : Queue) (qs : List Queue) (chans : List ℕ)
      → s.pool.queue r ≡ chans
      → Dead q s (notified s id r qs chans)
  notified-Dead id r qs [] e = if-Dead (s.queue_shut r) quiet quiet
  notified-Dead id r qs (ch ∷ rest) e = shorter r ch rest s.pool e refl

  offered-Dead : (id ch : ℕ) (qs : List Queue) (b : Bool) → Dead q s (offered s id ch qs b)
  offered-Dead id ch qs true = same refl
  offered-Dead id ch qs false = quiet

  put_act-Dead : (w : World) (t : Putting) → Dead q s (put_act w s t)
  put_act-Dead w (put_tests id) = if-Dead s.pool.closed quiet quiet
  put_act-Dead w (put_checks id) = if-Dead (not (is_connection_valid s.pool id)) quiet quiet
  put_act-Dead w (put_returns id) = same (hand_back-queue id s.pool)
  put_act-Dead w (put_sends id) = if-Dead (idle_shut id s) quiet (
      if-Dead (ltb (length (idle_chan id s.pool)) (idle_capacity s.pool))
        (same (send_idle-queue id s.pool)) quiet)
  put_act-Dead w (put_counts id) = same refl
  put_act-Dead w (put_notifies id []) = quiet
  put_act-Dead w (put_notifies id (r ∷ qs)) = notified-Dead id r qs (s.pool.queue r) refl
  put_act-Dead w (put_offers id ch qs) = offered-Dead id ch qs (can_send (s.pool.chan ch))

  drained-Dead :
      (r : Queue) (qs : List Queue) (e : Option Error) (chans : List ℕ)
      → s.pool.queue r ≡ chans
      → Dead q s (drained s r qs e chans)
  drained-Dead r qs e [] h = record {
    stays_shut = λ k. if_cases (λ (b : Bool). b ≡ true) (queue_eq r q) (λ _. refl) (λ _. k);
    stays_empty = λ k. k;
  }
  drained-Dead r qs e (ch ∷ rest) h =
      shorter r ch rest
        (record s.pool {
          chan =
              update_at s.pool.chan ch
                (record { buffer = (s.pool.chan ch).buffer; is_closed = true });
        })
        h refl

  idle_tcp-Dead : (e : Option Error) (ids : List ℕ) → Dead q s (idle_tcp_drained s e ids)
  idle_tcp-Dead e [] = same refl
  idle_tcp-Dead e (id ∷ ids) = same refl

  idle_udp-Dead : (e : Option Error) (ids : List ℕ) → Dead q s (idle_udp_drained s e ids)
  idle_udp-Dead e [] = same refl
  idle_udp-Dead e (id ∷ ids) = same refl

  shut_act-Dead : (w : World) (t : Shutting) → Dead q s (shut_act w s t)
  unfolding begin_close
  shut_act-Dead w shut_starts = if-Dead s.once quiet (same refl)
  shut_act-Dead w shut_snapshots = same refl
  shut_act-Dead w (shut_closes [] e) = quiet
  shut_act-Dead w (shut_closes (id ∷ ids) e) = same (connection_close-queue w s.pool id)
  shut_act-Dead w (shut_drains [] e) = quiet
  shut_act-Dead w (shut_drains (r ∷ qs) e) = drained-Dead r qs e (s.pool.queue r) refl
  shut_act-Dead w (shut_idle_tcp e) = idle_tcp-Dead e s.pool.idle_tcp
  shut_act-Dead w (shut_idle_udp e) = idle_udp-Dead e s.pool.idle_udp

  pub act-Dead : (w : World) (t : Thread) → Dead q s (act w s t)
  unfolding act
  act-Dead w idle = quiet
  act-Dead w (gets started t) = get_act-Dead w started t
  act-Dead w (creates started t) = create_act-Dead w started t
  act-Dead w (discards t a) = discard_act-Dead w a t
  act-Dead w (puts t) = put_act-Dead w t
  act-Dead w (sweeps t) = sweep_act-Dead w t
  act-Dead w (shuts t) = shut_act-Dead w t
  act-Dead w (gave o) = quiet
  act-Dead w (returned e) = quiet
  act-Dead w panicked = quiet
