-- ===== src/Pool/Threads/Alone/Gets.antt =====
-- pool.go: `GetWithTimeout`, alone.
use netconnpool.Prelude.{ℕ, zero, suc, ◌≡◌, refl, Option, none, some, true, false, ltb, arith}
use netconnpool.Errors.{Error, Result, ok, err}
use netconnpool.Stats.{increment_total_get_requests}
use netconnpool.Pool.State.{Pool, World, with_stats, at_limit, is_connection_valid}
use netconnpool.Pool.Create.{create_connection}
use netconnpool.Pool.Borrow.{Outcome, got, failed, waits, stuck, Turn, again, stop, take_any}
use netconnpool.Pool.Get.{
  timeout_created, timeout_pick, timeout_turn, timeout_loop, timeout_fuel, finish_get,
  get_with_timeout,
}
use netconnpool.Pool.Lent.Lends.{Ends}
use netconnpool.Pool.Lent.Timeout.{timeout_loop-Ends, Handed}
use netconnpool.Pool.Racing.{permits}
use netconnpool.Pool.Threads.Act.{act}
use netconnpool.Pool.Threads.Alone.{Runs, if-Runs, done, step, Runs-trans}
use netconnpool.Pool.Threads.Alone.Discards.{discards-Runs}
use netconnpool.Pool.Threads.Alone.Creations.{settled, create-Runs}
use netconnpool.Pool.Threads.Defs.{
  Shared, Thread, gets, gave, get_starts, get_tests, get_takes, get_ends, next_round, with_pool,
  taken,
}

abbrev Finished : Outcome → Type 0
Finished stuck = ⊥
Finished _ = Unit {0}

module _ (w : World) (s : Shared) (open_ : s.tcp_shut ≡ false)
    (free : ltb s.permits permits ≡ true) where
  -- Where a round of the loop leads, and the whole loop.
  abbrev turned : ℕ → Turn → Shared × Thread
  turned started (again p) = (with_pool s p, gets started get_tests)
  turned started (stop p o) = (with_pool s p, gets started (get_ends o))

  abbrev looped : ℕ → Pool × Outcome → Shared × Thread
  looped started r = (with_pool s r.0, gets started (get_ends r.1))

  lends-Runs :
      (started : ℕ) (r : Pool × Result ℕ)
      → Runs w (settled w started s r) (turned started (timeout_created r))
  unfolding act timeout_created
  lends-Runs started (p, ok id) = step (done _)
  lends-Runs started (p, err Error.max_connections_reached) = done _
  lends-Runs started (p, err e) = done _

  picks-Runs :
      (started : ℕ) (p : Pool) (o : Option (ℕ × Pool))
      → Runs w (taken started (with_pool s p) o) (turned started (timeout_pick w o p))
  unfolding act timeout_pick
  picks-Runs started p none = step (
      if-Runs (turned started) (at_limit p) (done _)
        (Runs-trans (create-Runs w started s free p) (lends-Runs started (create_connection w p))))
  picks-Runs started p (some (id, q)) = step (
      if-Runs (turned started) (is_connection_valid q id) (step (done _))
        (discards-Runs w (with_pool s q) id (next_round started)))

  selects :
      (started : ℕ) (p : Pool)
      → act w (with_pool s p) (gets started get_takes)
        ≡ taken started (with_pool s p) (take_any w p)
  unfolding act
  selects started p = rw open_ refl

  turn-Runs :
      (started : ℕ) (p : Pool)
      → Runs w (with_pool s p, gets started get_tests) (turned started (timeout_turn w p))
  unfolding act timeout_turn
  turn-Runs started p = step (
      if-Runs (turned started) p.closed (done _)
        (step (rw (selects started p) (picks-Runs started p (take_any w p)))))

  -- What the rest of the loop makes of a round.
  abbrev rest_of : (Pool → Pool × Outcome) → Turn → Pool × Outcome
  rest_of loop (again p) = loop p
  rest_of loop (stop p o) = (p, o)

  rest-Runs :
      (started : ℕ) (loop : Pool → Pool × Outcome)
      → ((p : Pool)
          → Finished (loop p).1
          → Runs w (with_pool s p, gets started get_tests) (looped started (loop p)))
      → (t : Turn) → Finished (rest_of loop t).1
      → Runs w (turned started t) (looped started (rest_of loop t))
  rest-Runs started loop h (again p) f = h p f
  rest-Runs started loop h (stop p o) f = done _

  rest_of_turn :
      (loop : Pool → Pool × Outcome) (t : Turn)
      → elim t [ again p ↦ loop p | stop p o ↦ (p, o) ] ≡ rest_of loop t
  rest_of_turn loop (again p) = refl
  rest_of_turn loop (stop p o) = refl

  loop_turn :
      (fuel : ℕ) (p : Pool)
      → timeout_loop w (suc fuel) p ≡ rest_of (timeout_loop w fuel) (timeout_turn w p)
  unfolding timeout_loop
  loop_turn fuel p = rest_of_turn (timeout_loop w fuel) (timeout_turn w p)

  loop-Runs :
      (started fuel : ℕ) (p : Pool)
      → Finished (timeout_loop w fuel p).1
      → Runs w (with_pool s p, gets started get_tests) (looped started (timeout_loop w fuel p))
  unfolding timeout_loop
  loop-Runs started zero p f = absurd f
  loop-Runs started (suc fuel) p f =
      let e = loop_turn fuel p in
      rw e (
        Runs-trans (turn-Runs started p) (
          rest-Runs started (timeout_loop w fuel) (loop-Runs started fuel) (timeout_turn w p)
            (rw e at f)))

  finishes : (started : ℕ) (r : Pool × Outcome) → (finish_get started r).1 ≡ r.1
  finishes started (p, got id) = refl
  finishes started (p, failed e) = refl
  finishes started (p, waits q) = refl
  finishes started (p, stuck) = refl

  ends-Runs :
      (started : ℕ) (r : Pool × Outcome)
      → Runs w
          (looped started r)
          (with_pool s (finish_get started r).0, gave (finish_get started r).1)
  unfolding act
  ends-Runs started r = rw (finishes started r) (step (done _))

  Ends-Finished : (r : Pool × Outcome) → Ends (Handed w) r → Finished r.1
  Ends-Finished (p, got id) h = tt
  Ends-Finished (p, failed e) h = tt
  Ends-Finished (p, waits q) h = tt
  Ends-Finished (p, stuck) h = h

  pub get-Runs :
      Runs w
        (s, gets 0 get_starts)
        (with_pool s (get_with_timeout w s.pool).0, gave (get_with_timeout w s.pool).1)
  unfolding act get_with_timeout
  get-Runs =
      let p = with_stats increment_total_get_requests s.pool in
      step (
        if-Runs (λ (r : Pool × Outcome). (with_pool s r.0, gave r.1)) s.pool.closed (done _)
          (Runs-trans
            (loop-Runs s.pool.now (timeout_fuel p) p
              (Ends-Finished _ (timeout_loop-Ends w _ p (omega arith))))
            (ends-Runs s.pool.now (timeout_loop w (timeout_fuel p) p))))
