-- ===== src/Pool/Lending/Waits.antt =====
-- `warmUp` and the waiters, among the holders of connections.
use netconnpool.Prelude.{ℕ, zero, suc, ◌≡◌, refl, Option, none, some, if_cases}
use netconnpool.Errors.{Error, Result, ok, err}
use netconnpool.Mode.{PoolMode, client, server, other}
use netconnpool.Stats.{increment_connection_errors, increment_timeout_gets}
use netconnpool.Pool.State.{
  Pool, World, Queue, any, v4, v6, tcp, udp, with_stats, is_connection_valid,
}
use netconnpool.Pool.Borrow.{Outcome, got, failed}
use netconnpool.Pool.Create.{create_connection}
use netconnpool.Pool.WarmUp.{warm_one, warm_loop, warm_mode, warm_up}
use netconnpool.Pool.Wait.{
  Wake, waiting, returned, panicked, join, leave, drain, empty_buffer, delivered, receive, give_up,
  pool_gone, accept, serves,
}
use netconnpool.Pool.Lending.Defs.{occurrences, tokens, Once, lent}
use netconnpool.Pool.Lending.Steady.{Steady-trans, with_stats-Steady, close_connection-Steady}
use netconnpool.Pool.Lending.Puts.{create_connection-Created, Created, Makes-asks}
use netconnpool.Pool.Lending.Calls.{make_put}
use netconnpool.Pool.Lending.Returns.{Calm, Calm-refl, Calm-trans, Steady-Calm}
use netconnpool.Prelude.{◌&&◌}

-- Only the holders count.
pub same-Calm :
    {p q : Pool}
    → q.idle_tcp ≡ p.idle_tcp
    → q.idle_udp ≡ p.idle_udp
    → q.next_id ≡ p.next_id
    → ((j : ℕ) → lent q j ≡ lent p j)
    → Once p
    → Calm p q
unfolding tokens occurrences
same-Calm a b c u o = record {
  calm_once = record { one_holder = λ j. simp (a, b, c, u j) (o.one_holder j) };
  calm_use = u;
}

module _ (w : World) where
  warm_one-Calm :
      (p q : Pool) (r : Result ℕ) → Once p → Created p (q, r) → Calm p (warm_one w (q, r))
  unfolding warm_one
  warm_one-Calm p q (err e) o c =
      Steady-Calm o (Steady-trans c (with_stats-Steady increment_connection_errors q))
  warm_one-Calm p q (ok id) o c = make_put w id o (Makes-asks w c)

  warm_loop-Calm : (n : ℕ) (p : Pool) → Once p → Calm p (warm_loop w n p)
  unfolding warm_loop
  warm_loop-Calm zero p o = Calm-refl p o
  warm_loop-Calm (suc n) p o =
      let c =
        warm_one-Calm p (create_connection w p).0 (create_connection w p).1 o
          (create_connection-Created w p) in
      Calm-trans c (warm_loop-Calm n _ c.calm_once)

  warm_mode-Calm : (m : PoolMode) (p : Pool) → Once p → Calm p (warm_mode w m p)
  unfolding warm_mode
  warm_mode-Calm server p o = Calm-refl p o
  warm_mode-Calm client p o = warm_loop-Calm _ p o
  warm_mode-Calm (other n) p o = warm_loop-Calm _ p o

  pub warm_up-Calm : (p : Pool) → Once p → Calm p (warm_up w p)
  unfolding warm_up
  warm_up-Calm p o = warm_mode-Calm p.config.mode p o

pub join-Calm : (q : Queue) (p : Pool) → Once p → Calm p (join q p)
unfolding join
join-Calm q p o = same-Calm refl refl refl (λ j. refl) o

-- What a waiter leaves, unless it takes a connection.
abbrev pub Waits : Pool → Wake → Type 0
Waits p (waiting q) = Calm p q
Waits p (returned q o) = Unit
Waits p panicked = Unit

abbrev pub Leaves : Pool → Wake → Type 0
Leaves p (waiting q) = Unit
Leaves p (returned q o) = Calm p q
Leaves p panicked = Unit

leave-Leaves :
    (started ch : ℕ) {p : Pool} (q : Pool) (o : Outcome)
    → Calm p q
    → Leaves p (leave started ch q o)
unfolding leave
leave-Leaves started ch {p} q o c =
    if_cases (Leaves p) (q.chan ch).is_closed (λ _. tt)
      (λ _. Calm-trans c (same-Calm refl refl refl (λ j. refl) c.calm_once))

drain-Calm : (q : Queue) (ch : ℕ) (p : Pool) → Once p → Calm p (drain q ch p)
unfolding drain empty_buffer
drain-Calm any ch p o = same-Calm refl refl refl (λ j. refl) o
drain-Calm tcp ch p o = same-Calm refl refl refl (λ j. refl) o
drain-Calm udp ch p o = same-Calm refl refl refl (λ j. refl) o
drain-Calm v4 ch p o = Calm-refl p o
drain-Calm v6 ch p o = Calm-refl p o

pub give_up-Leaves :
    (q : Queue) (started ch : ℕ) (p : Pool) → Once p → Leaves p (give_up q started ch p)
unfolding give_up
give_up-Leaves q started ch p o =
    let c = drain-Calm q ch p o in
    leave-Leaves started ch (with_stats increment_timeout_gets (drain q ch p))
      (failed Error.get_connection_timeout)
      (Calm-trans c
        (Steady-Calm c.calm_once (with_stats-Steady increment_timeout_gets (drain q ch p))))

pub pool_gone-Leaves :
    (q : Queue) (started ch : ℕ) (p : Pool) → Once p → Leaves p (pool_gone q started ch p)
unfolding pool_gone
pool_gone-Leaves q started ch p o = leave-Leaves started ch _ _ (drain-Calm q ch p o)

leave-Waits : (started ch : ℕ) (p r : Pool) (o : Outcome) → Waits p (leave started ch r o)
unfolding leave
leave-Waits started ch p r o = if_cases (Waits p) (r.chan ch).is_closed (λ _. tt) (λ _. tt)

delivered-Waits :
    (w : World) (q : Queue) (started ch id : ℕ) (p : Pool)
    → Once p
    → Waits p (delivered w q started ch id p)
unfolding delivered empty_buffer
delivered-Waits w q started ch id p o =
    let p1 = empty_buffer ch p in
    if_cases (Waits p) (serves q (p1.object id) && is_connection_valid p1 id)
      (λ _. leave-Waits started ch p (accept q id p1) (got id))
      λ _.
        let c : Calm p p1 = same-Calm refl refl refl (λ j. refl) o in
        Calm-trans c (Steady-Calm c.calm_once (close_connection-Steady w p1 id))

pub receive-Waits :
    (w : World) (q : Queue) (started ch : ℕ) (p : Pool)
    → Once p
    → Waits p (receive w q started ch p)
unfolding receive
receive-Waits w q started ch p o = go (p.chan ch).buffer
  where
    go :
        (b : Option ℕ)
        → Waits p (elim b [ some id ↦ delivered w q started ch id p | none ↦ waiting p ])
    go (some id) = delivered-Waits w q started ch id p o
    go none = Calm-refl p o
