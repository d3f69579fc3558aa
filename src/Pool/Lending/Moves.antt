-- ===== src/Pool/Lending/Moves.antt =====
-- The steps that move a connection between the channels and a caller.
use netconnpool.Prelude.{
  ℕ, suc, ◌+◌, ◌≡◌, refl, Option, none, some, Bool, true, false, ◌==◌, if◌then◌else◌, List, [], ◌∷◌,
  ◌++◌, count, arith, if_cases,
}
use netconnpool.Protocol.{Protocol}
use netconnpool.Pool.State.{Pool, World}
use netconnpool.Pool.Borrow.{
  take_both, take_any, take_tcp, take_udp, take_protocol, lend_idle, lend_idle_of_protocol,
  lend_new,
}
use netconnpool.Pool.Put.{hand_back}
use netconnpool.Pool.Lending.Defs.{occurrences, tokens, Once, lent}
use netconnpool.Pool.Lending.Steady.{Steady}

pub count-append : (f : ℕ → Bool) (xs ys : List ℕ) → count f (xs ++ ys) ≡ count f xs + count f ys
unfolding count
count-append f [] ys = omega arith
count-append f (x ∷ xs) ys = omega (arith, count-append f xs ys)

-- A step that is steady leaves every holder in place.
pub tokens-Steady : {p q : Pool} → Steady p q → (id : ℕ) → tokens q id ≡ tokens p id
unfolding tokens occurrences
tokens-Steady s id = simp (s.same_use id, s.same_tcp, s.same_udp) refl

pub occurrences-Steady : {p q : Pool} → Steady p q → (id : ℕ) → occurrences q id ≡ occurrences p id
unfolding occurrences
occurrences-Steady s id = simp (s.same_tcp, s.same_udp) refl

pub Steady-Once : {p q : Pool} → Steady p q → Once p → Once q
Steady-Once s o = record {
  one_holder = λ id. simp (tokens-Steady s id, s.same_next_id) (o.one_holder id);
}

-- `id` is taken from an idle channel.
pub record Taken (id : ℕ) (p q : Pool) : Type 0 where
  pub taken_use : (j : ℕ) → lent q j ≡ lent p j
  pub taken_next : q.next_id ≡ p.next_id
  pub taken_token : (j : ℕ) → tokens p j ≡ (if id == j then 1 else 0) + tokens q j
  pub taken_queue : q.queue ≡ p.queue
  pub taken_chan : q.chan ≡ p.chan
  pub taken_next_chan : q.next_chan ≡ p.next_chan
  pub taken_config : q.config ≡ p.config
  pub taken_closed : q.closed ≡ p.closed

abbrev pub Takes : Pool → Option (ℕ × Pool) → Type 0
Takes p none = Unit
Takes p (some (id, q)) = Taken id p q

Taken-tcp :
    (p : Pool) (x k : ℕ) (xs : List ℕ)
    → p.idle_tcp ≡ x ∷ xs
    → Taken x p (record p { idle_tcp = xs; asked = k })
unfolding tokens occurrences count
Taken-tcp p x k xs e = record {
  taken_use = λ j. refl;
  taken_next = refl;
  taken_token = λ j. simp e (omega arith);
  taken_queue = refl;
  taken_chan = refl;
  taken_next_chan = refl;
  taken_config = refl;
  taken_closed = refl;
}

Taken-udp :
    (p : Pool) (x k : ℕ) (xs : List ℕ)
    → p.idle_udp ≡ x ∷ xs
    → Taken x p (record p { idle_udp = xs; asked = k })
unfolding tokens occurrences count
Taken-udp p x k xs e = record {
  taken_use = λ j. refl;
  taken_next = refl;
  taken_token = λ j. simp e (omega arith);
  taken_queue = refl;
  taken_chan = refl;
  taken_next_chan = refl;
  taken_config = refl;
  taken_closed = refl;
}

take_both-Takes :
    (w : World) (p : Pool) (xs ys : List ℕ)
    → p.idle_tcp ≡ xs
    → p.idle_udp ≡ ys
    → Takes p (take_both w xs ys p)
unfolding take_both
take_both-Takes w p [] [] e f = tt
take_both-Takes w p (x ∷ xs) [] e f = Taken-tcp p x p.asked xs e
take_both-Takes w p [] (y ∷ ys) e f = Taken-udp p y p.asked ys f
take_both-Takes w p (x ∷ xs) (y ∷ ys) e f =
    if_cases (λ r. Takes p (some r)) (w.prefers_tcp p.asked) (λ _. Taken-tcp p x (suc p.asked) xs e)
      (λ _. Taken-udp p y (suc p.asked) ys f)

pub take_any-Takes : (w : World) (p : Pool) → Takes p (take_any w p)
unfolding take_any
take_any-Takes w p = take_both-Takes w p p.idle_tcp p.idle_udp refl refl

take_tcp-Takes : (p : Pool) (xs : List ℕ) → p.idle_tcp ≡ xs → Takes p (take_tcp xs p)
unfolding take_tcp
take_tcp-Takes p [] e = tt
take_tcp-Takes p (x ∷ xs) e = Taken-tcp p x p.asked xs e

take_udp-Takes : (p : Pool) (xs : List ℕ) → p.idle_udp ≡ xs → Takes p (take_udp xs p)
unfolding take_udp
take_udp-Takes p [] e = tt
take_udp-Takes p (x ∷ xs) e = Taken-udp p x p.asked xs e

pub take_protocol-Takes : (k : Protocol) (p : Pool) → Takes p (take_protocol k p)
unfolding take_protocol
take_protocol-Takes Protocol.tcp p = take_tcp-Takes p p.idle_tcp refl
take_protocol-Takes Protocol.udp p = take_udp-Takes p p.idle_udp refl
take_protocol-Takes Protocol.unknown p = take_udp-Takes p p.idle_udp refl

-- The channels and the waiters are as before, and `id` alone changes hands: to a caller (`true`) or
-- from one.
pub record Hands (id : ℕ) (held : Bool) (p q : Pool) : Type 0 where
  pub hands_use : (j : ℕ) → lent q j ≡ (if id == j then held else lent p j)
  pub hands_occurrences : (j : ℕ) → occurrences q j ≡ occurrences p j
  pub hands_next : q.next_id ≡ p.next_id
  pub hands_queue : q.queue ≡ p.queue
  pub hands_chan : q.chan ≡ p.chan
  pub hands_next_chan : q.next_chan ≡ p.next_chan
  pub hands_config : q.config ≡ p.config
  pub hands_closed : q.closed ≡ p.closed

module _ (id : ℕ) (p : Pool) where
  pub lend_idle-Hands : Hands id true p (lend_idle id p)
  unfolding lend_idle occurrences
  lend_idle-Hands = ground arith

  pub lend_idle_of_protocol-Hands : Hands id true p (lend_idle_of_protocol id p)
  unfolding lend_idle_of_protocol occurrences
  lend_idle_of_protocol-Hands = ground arith

  pub lend_new-Hands : Hands id true p (lend_new id p)
  unfolding lend_new occurrences
  lend_new-Hands = ground arith

  pub hand_back-Hands : Hands id false p (hand_back id p)
  unfolding hand_back occurrences
  hand_back-Hands = ground arith
