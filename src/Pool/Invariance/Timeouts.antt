-- ===== src/Pool/Invariance/Timeouts.antt =====
-- `GetWithTimeout` keeps what its parts keep.
use netconnpool.Prelude.{ℕ, zero, suc, Option, none, some, if_cases, List, [], ◌∷◌}
use netconnpool.Errors.{Error, Result, ok, err}
use netconnpool.Pool.State.{Pool, World, at_limit, is_connection_valid}
use netconnpool.Pool.Create.{create_connection}
use netconnpool.Pool.Borrow.{
  Outcome, got, failed, waits, stuck, Turn, again, stop, take_any, take_both,
}
use netconnpool.Pool.Get.{
  timeout_turn, timeout_loop, timeout_created, timeout_pick, get_with_timeout, finish_get,
}
use netconnpool.Pool.Invariance.{Stable, Left, First}

-- The state that a round leaves.
abbrev TurnLeaves : (P : Pool → Type 0) → Turn → Type 0
TurnLeaves P (again p) = P p
TurnLeaves P (stop p o) = P p

module _ {w : World} {P : Pool → Type 0} (k : Stable w P) where
  take_both-Left : (xs ys : List ℕ) (p : Pool) → P p → Left P (take_both w xs ys p)
  unfolding take_both
  take_both-Left [] [] p c = tt
  take_both-Left (x ∷ xs) [] p c = k.stable_elsewhere p c
  take_both-Left [] (y ∷ ys) p c = k.stable_elsewhere p c
  take_both-Left (x ∷ xs) (y ∷ ys) p c =
      if_cases (λ (r : ℕ × Pool). P r.1) (w.prefers_tcp p.asked) (λ _. k.stable_elsewhere p c)
        (λ _. k.stable_elsewhere p c)

  pub take_any-Left : (p : Pool) → P p → Left P (take_any w p)
  unfolding take_any
  take_any-Left p c = take_both-Left p.idle_tcp p.idle_udp p c

  timeout_created-Stable : (p : Pool) (r : Result ℕ) → P p → TurnLeaves P (timeout_created (p, r))
  unfolding timeout_created
  timeout_created-Stable p (ok id) c = k.stable_lend_new id p c
  timeout_created-Stable p (err Error.max_connections_reached) c = k.stable_connection_error p c
  timeout_created-Stable p (err e) c = k.stable_connection_error p c

  timeout_pick-Stable :
      (o : Option (ℕ × Pool)) (p : Pool) → P p → Left P o → TurnLeaves P (timeout_pick w o p)
  unfolding timeout_pick
  timeout_pick-Stable (some (id, q)) p c t =
      if_cases (TurnLeaves P) (is_connection_valid q id) (λ _. k.stable_lend_idle id q t)
        (λ _. k.stable_close q id t)
  timeout_pick-Stable none p c t =
      if_cases (TurnLeaves P) (at_limit p) (λ _. c)
        (λ _.
          timeout_created-Stable (create_connection w p).0 (create_connection w p).1
            (k.stable_create p c))

  timeout_turn-Stable : (p : Pool) → P p → TurnLeaves P (timeout_turn w p)
  unfolding timeout_turn
  timeout_turn-Stable p c =
      if_cases (TurnLeaves P) p.closed (λ _. c)
        (λ _. timeout_pick-Stable (take_any w p) p c (take_any-Left p c))

  timeout_loop-Stable : (fuel : ℕ) (p : Pool) → P p → P (timeout_loop w fuel p).0
  unfolding timeout_loop
  timeout_loop-Stable zero p c = c
  timeout_loop-Stable (suc fuel) p c =
      next (timeout_turn w p) (timeout_turn-Stable p c) (timeout_loop-Stable fuel)
    where
      next :
          (t : Turn)
          → TurnLeaves P t
          → ((q : Pool) → P q → P (timeout_loop w fuel q).0)
          → First P {A = Outcome} (elim t [ again q ↦ timeout_loop w fuel q | stop q o ↦ (q, o) ])
      next (again q) d ih = ih q d
      next (stop q o) d ih = d

  pub finish_get-Stable :
      (started : ℕ) (p : Pool) (o : Outcome) → P p → P (finish_get started (p, o)).0
  finish_get-Stable started p (waits q) c = c
  finish_get-Stable started p (got id) c = k.stable_time started p c
  finish_get-Stable started p (failed e) c = k.stable_time started p c
  finish_get-Stable started p stuck c = k.stable_time started p c

  -- `GetWithTimeout` keeps the invariant, whatever it returns.
  pub get_with_timeout-Stable : (p : Pool) → P p → P (get_with_timeout w p).0
  unfolding get_with_timeout
  get_with_timeout-Stable p c =
      if_cases (First P) p.closed (λ _. c)
        λ _. finish_get-Stable p.now _ _ (timeout_loop-Stable _ _ (k.stable_request p c))
