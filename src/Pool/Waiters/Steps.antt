-- ===== src/Pool/Waiters/Steps.antt =====
-- No step of a running pool gives weight to a waiter.
use netconnpool.Prelude.{
  ℕ, ◌≤◌, ◌≡◌, refl, subst, Option, none, some, ◌&&◌, true, ◌==◌, List, [], ◌∷◌, count, arith,
  if_cases, if◌then◌else◌,
}
use netconnpool.Config.{Config}
use netconnpool.Stats.{increment_timeout_gets}
use netconnpool.Pool.State.{
  Pool, World, Queue, any, v4, v6, tcp, udp, WaitChan, new_pool, is_connection_valid,
}
use netconnpool.Pool.Borrow.{Outcome}
use netconnpool.Pool.Wait.{
  Wake, waiting, returned, panicked, join, leave, empty_buffer, accept, count_delivery, serves,
  delivered, receive, drain, give_up, pool_gone,
}
use netconnpool.Pool.Shutdown.{
  close_connections, close_chans, close_wait_queue, close_wait_queues, begin_close, close_idle,
}
use netconnpool.Pool.Put.{put}
use netconnpool.Pool.Run.{
  Step, warms, gets, gets_protocol, gets_version, puts, joins, receives, waits_on, gives_up,
  finds_closed, turns_away, shuts_out, detects, checks, cleans, begins_close, closes_connections,
  closes_queues, closes_idle, passes, Reach, start, next,
}
use netconnpool.Pool.Invariance.Timeouts.{get_with_timeout-Stable}
use netconnpool.Pool.Invariance.Protocols.{get_with_protocol-Stable}
use netconnpool.Pool.Invariance.Versions.{get_with_ip_version-Stable, warm_up-Stable}
use netconnpool.Pool.Lending.Moves.{count-append}
use netconnpool.Pool.Lending.Steady.{close_connection-Steady, with_stats-Steady}
use netconnpool.Pool.Lending.Others.{
  detect_leaks-Steady, check_connection-Steady, perform_cleanup-Steady, close_all-Steady,
}
use netconnpool.Pool.Waiters.Weights.{
  places, full, weight, Falls, Falls-refl, Falls-trans, same-Falls, Steady-Falls,
}
use netconnpool.Pool.Waiters.Calls.{Falls-Stable, put-Falls}

-- The new channel is in one queue, and empty.
join-Falls : (q : Queue) (p : Pool) → Falls p (join q p)
unfolding join weight places count
join-Falls any p = record {
  falls = λ ch. ground (arith, count-append (λ x. x == ch) (p.queue any) (p.next_chan ∷ []));
}
join-Falls v4 p = record {
  falls = λ ch. ground (arith, count-append (λ x. x == ch) (p.queue v4) (p.next_chan ∷ []));
}
join-Falls v6 p = record {
  falls = λ ch. ground (arith, count-append (λ x. x == ch) (p.queue v6) (p.next_chan ∷ []));
}
join-Falls tcp p = record {
  falls = λ ch. ground (arith, count-append (λ x. x == ch) (p.queue tcp) (p.next_chan ∷ []));
}
join-Falls udp p = record {
  falls = λ ch. ground (arith, count-append (λ x. x == ch) (p.queue udp) (p.next_chan ∷ []));
}

-- What a waiter leaves.
abbrev WakeFalls : Pool → Wake → Type 0
WakeFalls p (waiting q) = Falls p q
WakeFalls p (returned q o) = Falls p q
WakeFalls p panicked = Unit

leave-Falls :
    (started ch : ℕ) {p : Pool} (q : Pool) (o : Outcome)
    → Falls p q
    → WakeFalls p (leave started ch q o)
unfolding leave weight
leave-Falls started ch {p} q o f =
    if_cases (WakeFalls p) (q.chan ch).is_closed (λ _. tt)
      (λ _. Falls-trans f (record { falls = λ j. ground arith }))

pub empty_buffer-Falls : (ch : ℕ) (p : Pool) → Falls p (empty_buffer ch p)
unfolding empty_buffer weight
empty_buffer-Falls ch p = record { falls = λ j. ground arith }

accept-Falls : (q : Queue) (id : ℕ) (p : Pool) → Falls p (accept q id p)
unfolding accept count_delivery
accept-Falls any id p = same-Falls (ground arith) (ground arith) (ground arith)
accept-Falls v4 id p = same-Falls (ground arith) (ground arith) (ground arith)
accept-Falls v6 id p = same-Falls (ground arith) (ground arith) (ground arith)
accept-Falls tcp id p = same-Falls (ground arith) (ground arith) (ground arith)
accept-Falls udp id p = same-Falls (ground arith) (ground arith) (ground arith)

delivered-Falls :
    (w : World) (q : Queue) (started ch id : ℕ) (p : Pool)
    → WakeFalls p (delivered w q started ch id p)
unfolding delivered
delivered-Falls w q started ch id p =
    let p1 = empty_buffer ch p in
    let f = empty_buffer-Falls ch p in
    if_cases (WakeFalls p) (serves q (p1.object id) && is_connection_valid p1 id)
      (λ _. leave-Falls started ch _ (Outcome.got id) (Falls-trans f (accept-Falls q id p1)))
      (λ _. Falls-trans f (Steady-Falls (close_connection-Steady w p1 id)))

receive-Falls :
    (w : World) (q : Queue) (started ch : ℕ) (p : Pool) → WakeFalls p (receive w q started ch p)
unfolding receive
receive-Falls w q started ch p = go (p.chan ch).buffer
  where
    go :
        (b : Option ℕ)
        → WakeFalls p (elim b [ some id ↦ delivered w q started ch id p | none ↦ waiting p ])
    go (some id) = delivered-Falls w q started ch id p
    go none = Falls-refl p

drain-Falls : (q : Queue) (ch : ℕ) (p : Pool) → Falls p (drain q ch p)
unfolding drain
drain-Falls any ch p = empty_buffer-Falls ch p
drain-Falls tcp ch p = empty_buffer-Falls ch p
drain-Falls udp ch p = empty_buffer-Falls ch p
drain-Falls v4 ch p = Falls-refl p
drain-Falls v6 ch p = Falls-refl p

give_up-Falls : (q : Queue) (started ch : ℕ) (p : Pool) → WakeFalls p (give_up q started ch p)
unfolding give_up
give_up-Falls q started ch p =
    leave-Falls started ch _ _
      (Falls-trans (drain-Falls q ch p) (Steady-Falls (with_stats-Steady increment_timeout_gets _)))

pool_gone-Falls : (q : Queue) (started ch : ℕ) (p : Pool) → WakeFalls p (pool_gone q started ch p)
unfolding pool_gone
pool_gone-Falls q started ch p = leave-Falls started ch _ _ (drain-Falls q ch p)

full-close_chans :
    (ids : List ℕ) (chan : ℕ → WaitChan) (ch : ℕ) → full (close_chans ids chan ch) ≡ full (chan ch)
unfolding close_chans
full-close_chans [] chan ch = refl
full-close_chans (i ∷ ids) chan ch = ground (
  arith,
  full-close_chans ids
      (λ j. if i == j then record { buffer = (chan i).buffer; is_closed = true } else chan j) ch,
)

close_wait_queue-Falls : (q : Queue) (p : Pool) → Falls p (close_wait_queue q p)
unfolding close_wait_queue weight places count
close_wait_queue-Falls any p = record {
  falls = λ ch. omega (arith, full-close_chans (p.queue any) p.chan ch);
}
close_wait_queue-Falls v4 p = record {
  falls = λ ch. omega (arith, full-close_chans (p.queue v4) p.chan ch);
}
close_wait_queue-Falls v6 p = record {
  falls = λ ch. omega (arith, full-close_chans (p.queue v6) p.chan ch);
}
close_wait_queue-Falls tcp p = record {
  falls = λ ch. omega (arith, full-close_chans (p.queue tcp) p.chan ch);
}
close_wait_queue-Falls udp p = record {
  falls = λ ch. omega (arith, full-close_chans (p.queue udp) p.chan ch);
}

close_wait_queues-Falls : (p : Pool) → Falls p (close_wait_queues p)
unfolding close_wait_queues
close_wait_queues-Falls p = Falls-trans (close_wait_queue-Falls any p) (
    Falls-trans (close_wait_queue-Falls v4 _) (
      Falls-trans (close_wait_queue-Falls v6 _)
        (Falls-trans (close_wait_queue-Falls tcp _) (close_wait_queue-Falls udp _))))

close_connections-Falls : (w : World) (p : Pool) → Falls p (close_connections w p).0
unfolding close_connections
close_connections-Falls w p =
    Falls-trans (same-Falls refl refl refl) (Steady-Falls (close_all-Steady w p.connections none _))

pub Step-Falls : {w : World} {p q : Pool} → Step w p q → Falls p q
unfolding put begin_close close_idle
Step-Falls {w} (warms p) = warm_up-Stable (Falls-Stable w p) p (Falls-refl p)
Step-Falls {w} (gets p) = get_with_timeout-Stable (Falls-Stable w p) p (Falls-refl p)
Step-Falls {w} (gets_protocol k p) = get_with_protocol-Stable (Falls-Stable w p) k p (Falls-refl p)
Step-Falls {w} (gets_version v p) = get_with_ip_version-Stable (Falls-Stable w p) v p (Falls-refl p)
Step-Falls {w} (puts none p) = Falls-refl p
Step-Falls {w} (puts (some id) p) = put-Falls w p id
Step-Falls {w} (joins q p room) = join-Falls q p
Step-Falls (turns_away started p) = same-Falls refl refl refl
Step-Falls (shuts_out started p shut) = same-Falls refl refl refl
Step-Falls {w} (receives {p} q started ch e) =
    subst (WakeFalls p) e (receive-Falls w q started ch p)
Step-Falls {w} (waits_on {p} q started ch e) =
    subst (WakeFalls p) e (receive-Falls w q started ch p)
Step-Falls {w} (gives_up {p} q started ch e) = subst (WakeFalls p) e (give_up-Falls q started ch p)
Step-Falls {w} (finds_closed {p} q started ch shut e) =
    subst (WakeFalls p) e (pool_gone-Falls q started ch p)
Step-Falls (detects p open_) = Steady-Falls (detect_leaks-Steady p)
Step-Falls (checks id answer p m) = Steady-Falls (check_connection-Steady id answer p)
Step-Falls {w} (cleans p open_) = Steady-Falls (perform_cleanup-Steady w p)
Step-Falls (begins_close p open_) = same-Falls refl refl refl
Step-Falls {w} (closes_connections p shut) = close_connections-Falls w p
Step-Falls (closes_queues p shut) = close_wait_queues-Falls p
Step-Falls (closes_idle p shut) = same-Falls refl refl refl
Step-Falls (passes t p) = same-Falls refl refl refl

weight-new_pool : (config : Config) (now ch : ℕ) → weight ch (new_pool config now) ≡ 1
unfolding weight places count
weight-new_pool config now ch = ground arith

pub Reach_weight :
    {w : World} {config : Config} {p : Pool} → Reach w config p → (ch : ℕ) → weight ch p ≤ 1
Reach_weight (start now) ch = omega (arith, weight-new_pool _ now ch)
Reach_weight (next r s) ch = omega (arith, Reach_weight r ch, (Step-Falls s).falls ch)
