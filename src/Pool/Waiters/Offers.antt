-- ===== src/Pool/Waiters/Offers.antt =====
-- A notification takes waiters from a queue, and fills the channel of one of them at most.
use netconnpool.Prelude.{
  ℕ, ◌+◌, ◌≤◌, Option, none, some, ◌==◌, List, [], ◌∷◌, count, arith, if_cases,
}
use netconnpool.Pool.State.{Pool, Queue, any, v4, v6, tcp, udp, WaitChan}
use netconnpool.Pool.Notify.{
  offer, notify_specific_wait_queue, try_queue, notify_wait_queue, protocol_queue, version_queue,
}
use netconnpool.Pool.Waiters.Weights.{places, full, weight, Falls, Falls-refl, Falls-trans}

offer_weight :
    (chan : ℕ → WaitChan) (id ch : ℕ) (ids : List ℕ)
    → count (λ x. x == ch) (offer chan id ids).0 + full ((offer chan id ids).1 ch)
      ≤ count (λ x. x == ch) ids + full (chan ch)
unfolding offer count
offer_weight chan id ch [] = omega arith
offer_weight chan id ch (c ∷ rest) = ground (arith, offer_weight chan id ch rest)

notify_specific-Falls :
    (q : Queue) (id : ℕ) (p : Pool) → Falls p (notify_specific_wait_queue q id p).0
unfolding notify_specific_wait_queue weight places
notify_specific-Falls any id p = record {
  falls = λ ch. omega (arith, offer_weight p.chan id ch (p.queue any));
}
notify_specific-Falls v4 id p = record {
  falls = λ ch. omega (arith, offer_weight p.chan id ch (p.queue v4));
}
notify_specific-Falls v6 id p = record {
  falls = λ ch. omega (arith, offer_weight p.chan id ch (p.queue v6));
}
notify_specific-Falls tcp id p = record {
  falls = λ ch. omega (arith, offer_weight p.chan id ch (p.queue tcp));
}
notify_specific-Falls udp id p = record {
  falls = λ ch. omega (arith, offer_weight p.chan id ch (p.queue udp));
}

try_queue-Falls : (q : Option Queue) (id : ℕ) (p : Pool) → Falls p (try_queue q id p).0
unfolding try_queue
try_queue-Falls none id p = Falls-refl p
try_queue-Falls (some q) id p = notify_specific-Falls q id p

pub notify_wait_queue-Falls : (id : ℕ) (p : Pool) → Falls p (notify_wait_queue id p)
unfolding notify_wait_queue
notify_wait_queue-Falls id p =
    let first = try_queue (protocol_queue (p.object id).protocol) id p in
    let second = try_queue (version_queue (p.object id).ip_version) id first.0 in
    let k = try_queue-Falls (protocol_queue (p.object id).protocol) id p in
    let l = try_queue-Falls (version_queue (p.object id).ip_version) id first.0 in
    if_cases (Falls p) first.1 (λ _. k)
      λ _.
        if_cases (Falls p) second.1 (λ _. Falls-trans k l)
          λ _. Falls-trans k (Falls-trans l (notify_specific-Falls any id second.0))
