-- ===== src/Pool/Waiters/Starved.antt =====
-- What becomes of a waiter that was handed a connection that it cannot use.
use netconnpool.Prelude.{
  ℕ, ◌+◌, ◌≤◌, ◌≡◌, sym, ap, ◌∙◌, subst, Option, none, some, ◌&&◌, arith, if_cases,
}
use netconnpool.Config.{Config}
use netconnpool.Pool.State.{Pool, World, Queue, is_connection_valid}
use netconnpool.Pool.Borrow.{Outcome}
use netconnpool.Pool.Wait.{
  Wake, waiting, returned, panicked, leave, empty_buffer, accept, serves, delivered, receive,
}
use netconnpool.Pool.Run.{Step, Reach}
use netconnpool.Pool.Lending.Steady.{close_connection-Steady}
use netconnpool.Pool.Waiters.Weights.{places, full, weight, Steady-Falls}
use netconnpool.Pool.Waiters.Steps.{Step-Falls, Reach_weight}

-- In every state that a pool reaches, a waiter's channel stands at most once in all five queues
-- together, and in none while it holds a connection.
pub Reach_places :
    {w : World} {config : Config} {p : Pool} (ch : ℕ)
    → Reach w config p
    → places ch p.queue + full (p.chan ch) ≤ 1
unfolding weight
Reach_places ch r = omega (arith, Reach_weight r ch)

-- The states that follow.
pub data Later (w : World) : Pool → Pool → Type 0 where
  here : (p : Pool) → Later w p p
  then : {p q r : Pool} → Later w p q → Step w q r → Later w p r

Later-weight : {w : World} {p q : Pool} (ch : ℕ) → Later w p q → weight ch q ≤ weight ch p
Later-weight ch (here p) = omega arith
Later-weight ch (then l s) = omega (arith, Later-weight ch l, (Step-Falls s).falls ch)

-- Taking the connection out of the channel takes its weight.
weight-empty_buffer :
    (ch : ℕ) (p : Pool) → weight ch (empty_buffer ch p) + full (p.chan ch) ≡ weight ch p
unfolding weight empty_buffer
weight-empty_buffer ch p = ground arith

-- A waiter that waits on has emptied its channel.
abbrev Spent : ℕ → Pool → Wake → Type 0
Spent ch p (waiting q) = weight ch q ≤ weight ch (empty_buffer ch p)
Spent ch p (returned q o) = Unit
Spent ch p panicked = Unit

leave-Spent : (started ch : ℕ) (p q : Pool) (o : Outcome) → Spent ch p (leave started ch q o)
unfolding leave
leave-Spent started ch p q o = if_cases (Spent ch p) (q.chan ch).is_closed (λ _. tt) (λ _. tt)

delivered-Spent :
    (w : World) (q : Queue) (started ch id : ℕ) (p : Pool)
    → Spent ch p (delivered w q started ch id p)
unfolding delivered
delivered-Spent w q started ch id p =
    let p1 = empty_buffer ch p in
    if_cases (Spent ch p) (serves q (p1.object id) && is_connection_valid p1 id)
      (λ _. leave-Spent started ch p (accept q id p1) (Outcome.got id))
      (λ _. (Steady-Falls (close_connection-Steady w p1 id)).falls ch)

module _ (w : World) (q : Queue) (started ch : ℕ) (p : Pool) where
  -- `receive` by what the channel holds.
  received :
      (b : Option ℕ)
      → (p.chan ch).buffer ≡ b
      → receive w q started ch p
        ≡ elim b [ some id ↦ delivered w q started ch id p | none ↦ waiting p ]
  unfolding receive
  received b e =
      ap
        (λ (b : Option ℕ). elim b as (λ _. Wake) [
          | some id ↦ delivered w q started ch id p
          | none ↦ waiting p
        ])
        e

empty_of_weight :
    (ch : ℕ) (p : Pool) → weight ch p ≡ 0 → (places ch p.queue ≡ 0) × ((p.chan ch).buffer ≡ none)
unfolding weight
empty_of_weight ch p h = (omega arith, ground arith)

-- A waiter that receives a connection and waits on, since the connection is of another kind or not
-- valid, waits in vain: in every later state its channel is in none of the queues, so that no
-- notification reaches it, and nothing is received from it.
pub receive_starves :
    {w : World} {config : Config} {p r s : Pool} (q : Queue) (started ch id : ℕ)
    → Reach w config p
    → (p.chan ch).buffer ≡ some id
    → receive w q started ch p ≡ waiting r
    → Later w r s
    → (places ch s.queue ≡ 0) × (receive w q started ch s ≡ waiting s)
receive_starves {w} {p} {r} {s} q started ch id reach holds waits later =
    let a =
      subst (Spent ch p) (sym (received w q started ch p (some id) holds) ∙ waits)
        (delivered-Spent w q started ch id p) in
    let full_ =
      ap (λ (b : Option ℕ). full (record { buffer = b; is_closed = (p.chan ch).is_closed }))
        holds in
    let zero_ : weight ch s ≡ 0 =
      omega
        (arith, a, full_, weight-empty_buffer ch p, Reach_weight reach ch, Later-weight ch later) in
    let (x, y) = empty_of_weight ch s zero_ in (x, received w q started ch s none y)
