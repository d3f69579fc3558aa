-- ===== src/Pool/Lending/Rounds.antt =====
-- `GetWithTimeout` obeys the machine of lendings.
use netconnpool.Prelude.{ℕ, zero, suc, refl, Option, none, some, if_cases}
use netconnpool.Errors.{Error, Result, ok, err}
use netconnpool.Stats.{Stats, increment_total_get_requests, record_get_time, increment_failed_gets}
use netconnpool.Pool.State.{Pool, World, any, at_limit, is_connection_valid, with_stats}
use netconnpool.Pool.Create.{create_connection}
use netconnpool.Pool.Borrow.{
  Outcome, got, failed, waits, stuck, Turn, again, stop, take_any, count_failure,
  count_connection_error,
}
use netconnpool.Pool.Get.{
  timeout_created, timeout_pick, timeout_turn, timeout_loop, finish_get, get_with_timeout,
}
use netconnpool.Pool.Lending.Defs.{Once}
use netconnpool.Pool.Lending.Steady.{with_stats-Steady}
use netconnpool.Pool.Lending.Moves.{Takes, take_any-Takes, lend_idle-Hands, lend_new-Hands}
use netconnpool.Pool.Lending.Puts.{Created, create_connection-Created}
use netconnpool.Pool.Lending.Calls.{
  Obeys, Calm-Obeys, Obeys-Calm, Calm-fails, Calm-waits, take_close,
}
use netconnpool.Pool.Lending.Returns.{
  Calm, Calm-refl, Calm-trans, Steady-Calm, take_lends, make_lends,
}
use netconnpool.Prelude.{◌-◌}
use netconnpool.Stats.{increment_connection_errors}

pub stats-Calm : (f : ℕ → Stats → Stats) (p : Pool) → Once p → Calm p (with_stats f p)
stats-Calm f p o = Steady-Calm o (with_stats-Steady f p)

then_stats : (f : ℕ → Stats → Stats) {p q : Pool} → Calm p q → Calm p (with_stats f q)
then_stats f c = Calm-trans c (stats-Calm f _ c.calm_once)

-- The counters of a failed call.
pub then_failure : {p q : Pool} → Calm p q → Calm p (count_failure q)
then_failure c = then_stats increment_failed_gets c

pub then_error : {p q : Pool} → Calm p q → Calm p (count_connection_error q)
then_error c = then_stats increment_connection_errors (then_failure c)

pub finish_get-Obeys :
    (started : ℕ) (p q : Pool) (o : Outcome) → Obeys p (q, o) → Obeys p (finish_get started (q, o))
finish_get-Obeys started p q (got id) h =
    Obeys-Calm p (got id) h (stats-Calm (λ now. record_get_time (now - started) now) q h.0)
finish_get-Obeys started p q (failed e) h =
    Obeys-Calm p (failed e) h (stats-Calm (λ now. record_get_time (now - started) now) q h.0)
finish_get-Obeys started p q (waits k) h = h
finish_get-Obeys started p q stuck h =
    Obeys-Calm p stuck h (stats-Calm (λ now. record_get_time (now - started) now) q h.0)

-- `GetWithTimeout`
abbrev Round : Pool → Turn → Type 0
Round p (again q) = Calm p q
Round p (stop q o) = Obeys p (q, o)

timeout_created-Round :
    (p q : Pool) (r : Result ℕ) → Once p → Created p (q, r) → Round p (timeout_created (q, r))
unfolding timeout_created
timeout_created-Round p q (ok id) o c = make_lends id o c (lend_new-Hands id q)
timeout_created-Round p q (err Error.max_connections_reached) o c =
    Calm-waits any (then_error (Steady-Calm o c))
timeout_created-Round p q (err e) o c = Calm-fails e (then_error (Steady-Calm o c))

module _ (w : World) where
  timeout_pick-Round :
      (p : Pool) (t : Option (ℕ × Pool)) → Once p → Takes p t → Round p (timeout_pick w t p)
  unfolding timeout_pick
  timeout_pick-Round p (some (id, q)) o t =
      if_cases (Round p) (is_connection_valid q id) (λ _. take_lends id o t (lend_idle-Hands id q))
        (λ _. take_close w id o t)
  timeout_pick-Round p none o t =
      if_cases (Round p) (at_limit p) (λ _. Calm-waits any (Calm-refl p o))
        λ _.
          timeout_created-Round p (create_connection w p).0 (create_connection w p).1 o
            (create_connection-Created w p)

  timeout_turn-Round : (p : Pool) → Once p → Round p (timeout_turn w p)
  unfolding timeout_turn
  timeout_turn-Round p o =
      if_cases (Round p) p.closed (λ _. Calm-fails Error.pool_closed (Calm-refl p o))
        (λ _. timeout_pick-Round p (take_any w p) o (take_any-Takes w p))

  timeout_loop-Obeys : (n : ℕ) (p : Pool) → Once p → Obeys p (timeout_loop w n p)
  unfolding timeout_loop
  timeout_loop-Obeys zero p o = (o, λ j. refl)
  timeout_loop-Obeys (suc n) p o =
      go (timeout_turn w p) (timeout_turn-Round p o) (timeout_loop-Obeys n)
    where
      go :
          (t : Turn)
          → Round p t
          → ((q : Pool) → Once q → Obeys q (timeout_loop w n q))
          → Obeys p (elim t [ again p' ↦ timeout_loop w n p' | stop p' o' ↦ (p', o') ])
      go (again q) c ih = Calm-Obeys (timeout_loop w n q) c (ih q c.calm_once)
      go (stop q o') h ih = h

  pub get_with_timeout-Obeys : (p : Pool) → Once p → Obeys p (get_with_timeout w p)
  unfolding get_with_timeout
  get_with_timeout-Obeys p o =
      if_cases (Obeys p) p.closed (λ _. Calm-fails Error.pool_closed (Calm-refl p o))
        λ _.
          let c = stats-Calm increment_total_get_requests p o in
          finish_get-Obeys p.now p _ _ (Calm-Obeys _ c (timeout_loop-Obeys _ _ c.calm_once))
