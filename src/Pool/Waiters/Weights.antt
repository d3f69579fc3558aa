-- ===== src/Pool/Waiters/Weights.antt =====
-- How often a waiter's channel can still be given a connection or holds one.
use netconnpool.Prelude.{
  ℕ, ◌+◌, ◌≤◌, ◌≡◌, ap, none, some, ◌==◌, ltb, if◌then◌else◌, List, count, arith,
}
use netconnpool.Pool.State.{Pool, Queue, any, v4, v6, tcp, udp, WaitChan}
use netconnpool.Pool.Lending.Steady.{Steady}

-- The places of a channel in the queues.
unfoldable pub places : ℕ → (Queue → List ℕ) → ℕ
places ch queue =
    count (λ x. x == ch) (queue any)
    + count (λ x. x == ch) (queue v4)
    + count (λ x. x == ch) (queue v6)
    + count (λ x. x == ch) (queue tcp)
    + count (λ x. x == ch) (queue udp)

-- A channel that holds a connection.
abbrev pub full : WaitChan → ℕ
full c = elim c.buffer [ none ↦ 0 | some id ↦ 1 ]

abbrev pub unborn : (ch next : ℕ) → ℕ
unborn ch next = if ltb ch next then 0 else 1

-- A channel that is not made yet counts once more.
unfoldable pub weight : ℕ → Pool → ℕ
weight ch p = places ch p.queue + full (p.chan ch) + unborn ch p.next_chan

-- No channel gains weight.
pub record Falls (p q : Pool) : Type 0 where
  pub falls : (ch : ℕ) → weight ch q ≤ weight ch p

pub Falls-refl : (p : Pool) → Falls p p
Falls-refl p = record { falls = λ ch. omega arith }

pub Falls-trans : {p q r : Pool} → Falls p q → Falls q r → Falls p r
Falls-trans s t = record { falls = λ ch. omega (arith, s.falls ch, t.falls ch) }

-- The queues, the channels and their number stay.
pub same-Falls :
    {p q : Pool} → q.queue ≡ p.queue → q.chan ≡ p.chan → q.next_chan ≡ p.next_chan → Falls p q
unfolding weight
same-Falls a b c = record {
  falls = λ ch.
      let x = ap (places ch) a in
      let y = ap (λ (f : ℕ → WaitChan). full (f ch)) b in let z = ap (unborn ch) c in omega arith;
}

pub Steady-Falls : {p q : Pool} → Steady p q → Falls p q
Steady-Falls s = same-Falls s.same_queue s.same_chan s.same_next_chan
