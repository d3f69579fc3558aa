-- ===== src/Pool/Waiters/Calls.antt =====
-- The parts of the requests, among the waiters.
use netconnpool.Prelude.{ℕ, refl, Option, some, not, if_cases, length, ltb}
use netconnpool.Errors.{Error, Result, ok, err}
use netconnpool.Pool.State.{Pool, World, is_connection_valid}
use netconnpool.Pool.Create.{create_connection}
use netconnpool.Pool.Put.{
  put, to_idle, hand_back, idle_chan, idle_capacity, count_idle, send_idle, is_tcp_connection,
}
use netconnpool.Pool.Invariance.{Stable}
use netconnpool.Pool.Lending.Steady.{close_connection-Steady}
use netconnpool.Pool.Lending.Moves.{
  lend_idle-Hands, lend_idle_of_protocol-Hands, lend_new-Hands, hand_back-Hands, Hands,
}
use netconnpool.Pool.Lending.Puts.{Created, create_connection-Created}
use netconnpool.Pool.Waiters.Weights.{Falls, Falls-trans, same-Falls, Steady-Falls}
use netconnpool.Pool.Waiters.Offers.{notify_wait_queue-Falls}
use netconnpool.Prelude.{Bool}

Hands-Falls : {id : ℕ} {held : Bool} {p q : Pool} → Hands id held p q → Falls p q
Hands-Falls h = same-Falls h.hands_queue h.hands_chan h.hands_next_chan

Created-Falls : {p q : Pool} (r : Result ℕ) → Created p (q, r) → Falls p q
Created-Falls (err e) c = Steady-Falls c
Created-Falls (ok id) c = same-Falls c.made_queue c.made_chan c.made_next_chan

send-Falls : (id : ℕ) (p : Pool) → Falls p (count_idle 1 (p.object id) (send_idle id p))
send-Falls id p =
    if_cases (λ q. Falls p (count_idle 1 (p.object id) q)) (is_tcp_connection p id)
      (λ _. same-Falls refl refl refl) (λ _. same-Falls refl refl refl)

to_idle-Falls : (w : World) (id : ℕ) (p : Pool) → Falls p (to_idle w id p).0
unfolding to_idle
to_idle-Falls w id p =
    if_cases (λ (r : Pool × Option Error). Falls p r.0)
      (ltb (length (idle_chan id p)) (idle_capacity p))
      (λ _. Falls-trans (send-Falls id p) (notify_wait_queue-Falls id _))
      (λ _. Steady-Falls (close_connection-Steady w p id))

pub put-Falls : (w : World) (p : Pool) (id : ℕ) → Falls p (put w p (some id)).0
unfolding put
put-Falls w p id =
    let c = Steady-Falls (close_connection-Steady w p id) in
    if_cases (λ (r : Pool × Option Error). Falls p r.0) p.closed (λ _. c)
      λ _.
        if_cases (λ (r : Pool × Option Error). Falls p r.0) (not (is_connection_valid p id))
          (λ _. c)
          λ _.
            Falls-trans (Hands-Falls (hand_back-Hands id p)) (to_idle-Falls w id (hand_back id p))

-- What has fallen from `p` falls on.
pub Falls-Stable : (w : World) (p : Pool) → Stable w (Falls p)
Falls-Stable w p = record {
  stable_elsewhere = λ q f. Falls-trans f (same-Falls refl refl refl);
  stable_lend_idle = λ id q f. Falls-trans f (Hands-Falls (lend_idle-Hands id q));
  stable_lend_idle_of_protocol =
      λ id q f. Falls-trans f (Hands-Falls (lend_idle_of_protocol-Hands id q));
  stable_lend_new = λ id q f. Falls-trans f (Hands-Falls (lend_new-Hands id q));
  stable_failure = λ q f. Falls-trans f (same-Falls refl refl refl);
  stable_connection_error = λ q f. Falls-trans f (same-Falls refl refl refl);
  stable_warm_error = λ q f. Falls-trans f (same-Falls refl refl refl);
  stable_request = λ q f. Falls-trans f (same-Falls refl refl refl);
  stable_time = λ started q f. Falls-trans f (same-Falls refl refl refl);
  stable_close = λ q id f. Falls-trans f (Steady-Falls (close_connection-Steady w q id));
  stable_create = λ q f.
      Falls-trans f (Created-Falls (create_connection w q).1 (create_connection-Created w q));
  stable_put = λ q id f. Falls-trans f (put-Falls w q id);
}
