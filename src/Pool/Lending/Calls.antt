-- ===== src/Pool/Lending/Calls.antt =====
-- What a round of a `Get`, or a `Put`, does to the holders of connections.
use netconnpool.Prelude.{
  ℕ, ◌≡◌, sym, ap, ◌∙◌, some, Bool, true, false, ◌==◌, if◌then◌else◌, arith, eq_of_==,
}
use netconnpool.Errors.{Error}
use netconnpool.Pool.State.{Pool, World, Queue}
use netconnpool.Pool.Discard.{close_connection}
use netconnpool.Pool.Put.{put}
use netconnpool.Pool.Borrow.{Outcome, got, failed, waits, stuck}
use netconnpool.Pool.Lending.Defs.{Once, lent, Event, lends, silent, Spec}
use netconnpool.Pool.Lending.Steady.{close_connection-Steady}
use netconnpool.Pool.Lending.Moves.{Taken, Steady-Once}
use netconnpool.Pool.Lending.Puts.{Makes}
use netconnpool.Pool.Lending.Returns.{
  Calm, Makes-Held, Taken-Held, Taken-free, made_free, put-PutBack,
}

abbrev pub event_of : Outcome → Event
event_of (got id) = lends id
event_of (failed e) = silent
event_of (waits q) = silent
event_of stuck = silent

abbrev pub Obeys : Pool → Pool × Outcome → Type 0
Obeys p (q, o) = Once q × Spec (event_of o) (lent p) (lent q)

pub Calm-Obeys : {p q : Pool} (r : Pool × Outcome) → Calm p q → Obeys q r → Obeys p r
Calm-Obeys (r, got id) c (o, (f, u)) =
    (o, (sym (c.calm_use id) ∙ f, λ j. u j ∙ ap (λ b. if id == j then true else b) (c.calm_use j)))
Calm-Obeys (r, failed e) c (o, u) = (o, λ j. u j ∙ c.calm_use j)
Calm-Obeys (r, waits q) c (o, u) = (o, λ j. u j ∙ c.calm_use j)
Calm-Obeys (r, stuck) c (o, u) = (o, λ j. u j ∙ c.calm_use j)

pub Obeys-Calm : (p : Pool) {q r : Pool} (o : Outcome) → Obeys p (q, o) → Calm q r → Obeys p (r, o)
Obeys-Calm p (got id) (h, (f, u)) c = (c.calm_once, (f, λ j. c.calm_use j ∙ u j))
Obeys-Calm p (failed e) (h, u) c = (c.calm_once, λ j. c.calm_use j ∙ u j)
Obeys-Calm p (waits q) (h, u) c = (c.calm_once, λ j. c.calm_use j ∙ u j)
Obeys-Calm p stuck (h, u) c = (c.calm_once, λ j. c.calm_use j ∙ u j)

-- A call that ends without a connection.
pub Calm-fails : {p q : Pool} (e : Error) → Calm p q → Obeys p (q, failed e)
Calm-fails e c = (c.calm_once, c.calm_use)

pub Calm-waits : {p q : Pool} (k : Queue) → Calm p q → Obeys p (q, waits k)
Calm-waits k c = (c.calm_once, c.calm_use)

free_at : (l : ℕ → Bool) (id j : ℕ) → l id ≡ false → (id == j) ≡ true → l j ≡ false
free_at l id j f e = sym (ap l (eq_of_== id j e)) ∙ f

-- A connection that nobody holds goes back to the pool, or is closed.
pub take_put :
    (w : World) {p q : Pool} (id : ℕ) → Once p → Taken id p q → Calm p (put w q (some id)).0
take_put w {p} {q} id o t =
    let b = put-PutBack w q id (Taken-Held id o t) in
    record {
      calm_once = b.put_once;
      calm_use = λ j.
          ground (arith, b.put_use j, t.taken_use j, free_at (lent p) id j (Taken-free id o t));
    }

pub make_put :
    (w : World) {p q : Pool} (id : ℕ) → Once p → Makes id p q → Calm p (put w q (some id)).0
make_put w {p} {q} id o t =
    let b = put-PutBack w q id (Makes-Held id o t) in
    record {
      calm_once = b.put_once;
      calm_use =
          λ j. ground (arith, b.put_use j, t.made_use j, free_at (lent p) id j (made_free id o t));
    }

pub take_close :
    (w : World) {p q : Pool} (id : ℕ) → Once p → Taken id p q → Calm p (close_connection w q id).0
take_close w {p} {q} id o t = record {
  calm_once = Steady-Once (close_connection-Steady w q id) (Taken-Held id o t).held_once;
  calm_use = λ j. (close_connection-Steady w q id).same_use j ∙ t.taken_use j;
}
