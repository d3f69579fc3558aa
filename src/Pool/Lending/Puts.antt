-- ===== src/Pool/Lending/Puts.antt =====
-- `createConnection` and `Put` among the holders of connections.
use netconnpool.Prelude.{
  ℕ, suc, ◌+◌, ◌≤◌, ◌≡◌, refl, ap, ◌∙◌, Option, none, some, true, false, ◌==◌, leb, ltb, length,
  if◌then◌else◌, [], ◌∷◌, count, arith, if_cases,
}
use netconnpool.Errors.{Error, Result, ok, err}
use netconnpool.Net.Addr.{NetConn}
use netconnpool.Pool.State.{Pool, World, Queue, any, asks, at_limit}
use netconnpool.Pool.Notify.{
  notify_wait_queue, try_queue, notify_specific_wait_queue, protocol_queue, version_queue,
}
use netconnpool.Pool.Put.{
  to_idle, count_idle, send_idle, idle_chan, idle_capacity, is_tcp_connection,
}
use netconnpool.Pool.Create.{create_connection, dialed, created, approved, register, lacks_source}
use netconnpool.Pool.Lending.Defs.{occurrences, tokens, Once, lent}
use netconnpool.Pool.Lending.Steady.{Steady, Steady-refl, Steady-trans, close_connection-Steady}
use netconnpool.Pool.Lending.Moves.{count-append, occurrences-Steady}

-- A new connection, held by nobody yet.
pub record Makes (id : ℕ) (p q : Pool) : Type 0 where
  pub made_id : id ≡ suc p.next_id
  pub made_next : q.next_id ≡ suc p.next_id
  pub made_use : (j : ℕ) → lent q j ≡ (if id == j then false else lent p j)
  pub made_occurrences : (j : ℕ) → occurrences q j ≡ occurrences p j
  pub made_queue : q.queue ≡ p.queue
  pub made_chan : q.chan ≡ p.chan
  pub made_next_chan : q.next_chan ≡ p.next_chan
  pub made_config : q.config ≡ p.config
  pub made_closed : q.closed ≡ p.closed

abbrev pub Created : Pool → Pool × Result ℕ → Type 0
Created p (q, err e) = Steady p q
Created p (q, ok id) = Makes id p q

register-Created :
    (w : World) (socket : Option NetConn) (p : Pool) → Created p (register w socket p)
unfolding register occurrences
register-Created w socket p = ground arith

Steady-Created : {p q : Pool} (r : Pool × Result ℕ) → Steady p q → Created q r → Created p r
Steady-Created (r, err e) s c = Steady-trans s c
Steady-Created (r, ok id) s c = record {
  made_id = c.made_id ∙ ap suc s.same_next_id;
  made_next = c.made_next ∙ ap suc s.same_next_id;
  made_use = λ j. simp (← s.same_use j) (c.made_use j);
  made_occurrences = λ j. c.made_occurrences j ∙ occurrences-Steady s j;
  made_queue = c.made_queue ∙ s.same_queue;
  made_chan = c.made_chan ∙ s.same_chan;
  made_next_chan = c.made_next_chan ∙ s.same_next_chan;
  made_config = c.made_config ∙ s.same_config;
  made_closed = c.made_closed ∙ s.same_closed;
}

asks-Steady : (w : World) (p : Pool) → Steady p (asks w p)
asks-Steady w p = ground arith

-- Time passes after a creation.
pub Makes-asks : {id : ℕ} {p q : Pool} (w : World) → Makes id p q → Makes id p (asks w q)
unfolding occurrences
Makes-asks w c = record {
  made_id = c.made_id;
  made_next = c.made_next;
  made_use = c.made_use;
  made_occurrences = c.made_occurrences;
  made_queue = c.made_queue;
  made_chan = c.made_chan;
  made_next_chan = c.made_next_chan;
  made_config = c.made_config;
  made_closed = c.made_closed;
}

approved-Created :
    (w : World) (socket : Option NetConn) (o : Option Error) (p : Pool)
    → Created p (approved w socket o p)
unfolding approved
approved-Created w socket (some e) p = ground arith
approved-Created w socket none p =
    Steady-Created (register w socket (asks w p)) (asks-Steady w p)
      (register-Created w socket (asks w p))

created-Created : (w : World) (socket : Option NetConn) (p : Pool) → Created p (created w socket p)
unfolding created
created-Created w socket p =
    if_cases (Created p) p.config.on_created
      (λ _. approved-Created w socket (w.on_created p.asked) p) (λ _. register-Created w socket p)

dialed-Created : (w : World) (r : Result (Option NetConn)) (p : Pool) → Created p (dialed w r p)
unfolding dialed
dialed-Created w (err e) p = Steady-refl p
dialed-Created w (ok socket) p = created-Created w socket p

pub create_connection-Created : (w : World) (p : Pool) → Created p (create_connection w p)
unfolding create_connection
create_connection-Created w p =
    if_cases (Created p) (w.done p.asked) (λ _. Steady-refl p)
      λ _.
        if_cases (Created p) p.closed (λ _. Steady-refl p)
          λ _.
            if_cases (Created p) (at_limit p) (λ _. Steady-refl p)
              λ _.
                if_cases (Created p) (lacks_source p.config.mode p.config) (λ _. Steady-refl p)
                  λ _.
                    Steady-Created (dialed w (w.dial p.asked) (asks w p)) (asks-Steady w p)
                      (dialed-Created w (w.dial p.asked) (asks w p))

-- `id` may be put: nobody else has it, and it was given out.
pub record Held (id : ℕ) (p : Pool) : Type 0 where
  pub held_once : Once p
  pub held_alone : occurrences p id ≡ 0
  pub held_old : leb id p.next_id ≡ true

pub lent-Held : (p : Pool) (id : ℕ) → Once p → lent p id ≡ true → Held id p
unfolding tokens
lent-Held p id o u = record {
  held_once = o;
  held_alone = ground (arith, o.one_holder id);
  held_old = ground (arith, o.one_holder id);
}

-- The idle channel of a connection, where it has room, gets it.
pub record Parks (id : ℕ) (p q : Pool) : Type 0 where
  pub parks_use : (j : ℕ) → lent q j ≡ lent p j
  pub parks_occurrences : (j : ℕ) → occurrences q j ≤ (if id == j then 1 else 0) + occurrences p j
  pub parks_next : q.next_id ≡ p.next_id
  pub parks_config : q.config ≡ p.config
  pub parks_closed : q.closed ≡ p.closed

-- A notification moves no connection between the idle channels and the callers.
record Elsewhere (p q : Pool) : Type 0 where
  same_object : q.object ≡ p.object
  same_tcp : q.idle_tcp ≡ p.idle_tcp
  same_udp : q.idle_udp ≡ p.idle_udp
  same_next_id : q.next_id ≡ p.next_id
  same_config : q.config ≡ p.config
  same_closed : q.closed ≡ p.closed

Elsewhere-refl : (p : Pool) → Elsewhere p p
Elsewhere-refl p = ground arith

Elsewhere-trans : {p q r : Pool} → Elsewhere p q → Elsewhere q r → Elsewhere p r
Elsewhere-trans s t = record {
  same_object = t.same_object ∙ s.same_object;
  same_tcp = t.same_tcp ∙ s.same_tcp;
  same_udp = t.same_udp ∙ s.same_udp;
  same_next_id = t.same_next_id ∙ s.same_next_id;
  same_config = t.same_config ∙ s.same_config;
  same_closed = t.same_closed ∙ s.same_closed;
}

notify_specific-Elsewhere :
    (q : Queue) (id : ℕ) (p : Pool) → Elsewhere p (notify_specific_wait_queue q id p).0
unfolding notify_specific_wait_queue
notify_specific-Elsewhere q id p = record {
  same_object = refl;
  same_tcp = refl;
  same_udp = refl;
  same_next_id = refl;
  same_config = refl;
  same_closed = refl;
}

try_queue-Elsewhere : (q : Option Queue) (id : ℕ) (p : Pool) → Elsewhere p (try_queue q id p).0
unfolding try_queue
try_queue-Elsewhere none id p = Elsewhere-refl p
try_queue-Elsewhere (some q) id p = notify_specific-Elsewhere q id p

notify_wait_queue-Elsewhere : (id : ℕ) (p : Pool) → Elsewhere p (notify_wait_queue id p)
unfolding notify_wait_queue
notify_wait_queue-Elsewhere id p =
    let first = try_queue (protocol_queue (p.object id).protocol) id p in
    let second = try_queue (version_queue (p.object id).ip_version) id first.0 in
    let k = try_queue-Elsewhere (protocol_queue (p.object id).protocol) id p in
    let l = try_queue-Elsewhere (version_queue (p.object id).ip_version) id first.0 in
    if_cases (Elsewhere p) first.1 (λ _. k)
      λ _.
        if_cases (Elsewhere p) second.1 (λ _. Elsewhere-trans k l)
          λ _. Elsewhere-trans k (Elsewhere-trans l (notify_specific-Elsewhere any id second.0))

send-Parks : (id : ℕ) (p : Pool) → Parks id p (count_idle 1 (p.object id) (send_idle id p))
unfolding occurrences count
send-Parks id p =
    if_cases (λ q. Parks id p (count_idle 1 (p.object id) q)) (is_tcp_connection p id)
      (λ _. record {
        parks_use = λ j. refl;
        parks_occurrences = λ j. omega (arith, count-append (λ x. x == j) p.idle_tcp (id ∷ []));
        parks_next = refl;
        parks_config = refl;
        parks_closed = refl;
      })
      (λ _. record {
        parks_use = λ j. refl;
        parks_occurrences = λ j. omega (arith, count-append (λ x. x == j) p.idle_udp (id ∷ []));
        parks_next = refl;
        parks_config = refl;
        parks_closed = refl;
      })

Parks-Elsewhere : (id : ℕ) {p q r : Pool} → Parks id p q → Elsewhere q r → Parks id p r
unfolding occurrences
Parks-Elsewhere id s e = record {
  parks_use = λ j. ap (λ o. (o j).in_use) e.same_object ∙ s.parks_use j;
  parks_occurrences = λ j. simp (e.same_tcp, e.same_udp) (s.parks_occurrences j);
  parks_next = e.same_next_id ∙ s.parks_next;
  parks_config = e.same_config ∙ s.parks_config;
  parks_closed = e.same_closed ∙ s.parks_closed;
}

Steady-Parks : (id : ℕ) {p q : Pool} → Steady p q → Parks id p q
Steady-Parks id s = record {
  parks_use = s.same_use;
  parks_occurrences = λ j. omega (arith, occurrences-Steady s j);
  parks_next = s.same_next_id;
  parks_config = s.same_config;
  parks_closed = s.same_closed;
}

pub to_idle-Parks : (w : World) (id : ℕ) (p : Pool) → Parks id p (to_idle w id p).0
unfolding to_idle
to_idle-Parks w id p =
    if_cases (λ (r : Pool × Option Error). Parks id p r.0)
      (ltb (length (idle_chan id p)) (idle_capacity p))
      (λ _. Parks-Elsewhere id (send-Parks id p) (notify_wait_queue-Elsewhere id _))
      (λ _. Steady-Parks id (close_connection-Steady w p id))
