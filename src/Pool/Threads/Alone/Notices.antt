-- ===== src/Pool/Threads/Alone/Notices.antt =====
-- pool.go: `notifyWaitQueue`, alone.
use netconnpool.Prelude.{
  ℕ, ◌≡◌, refl, ap, sym, subst, Option, none, some, Bool, true, false, List, ◌∷◌, ◌++◌,
  if◌then◌else◌, Bool-cases, inl, inr,
}
use netconnpool.Pool.State.{Pool, World, Queue, any, WaitChan, set_queue, update_at}
use netconnpool.Pool.Notify.{
  offer, can_send, try_queue, notify_specific_wait_queue, notify_wait_queue, protocol_queue,
  version_queue,
}
use netconnpool.Pool.Threads.Queues.{set_queue_same, set_queue_twice, set_queue-queue}
use netconnpool.Pool.Threads.Act.{act}
use netconnpool.Pool.Threads.Alone.{Runs, done, step, Runs-trans}
use netconnpool.Pool.Threads.Defs.{
  Shared, Thread, puts, returned, put_notifies, put_offers, with_pool, some_queue, queues_for,
}
use netconnpool.Prelude.{[]}

module _ (chan : ℕ → WaitChan) (id ch : ℕ) (rest : List ℕ) where
  offer_taken :
      can_send (chan ch) ≡ true
      → offer chan id (ch ∷ rest)
        ≡ (rest, update_at chan ch (record { buffer = some id; is_closed = false }), true)
  unfolding offer
  offer_taken h =
      ap
        (λ b. elim b as (λ _. List ℕ × (ℕ → WaitChan) × Bool) [
          | true ↦ (rest, update_at chan ch (record { buffer = some id; is_closed = false }), true)
          | false ↦ offer chan id rest
        ])
        h

  offer_refused : can_send (chan ch) ≡ false → offer chan id (ch ∷ rest) ≡ offer chan id rest
  unfolding offer
  offer_refused h =
      ap
        (λ b. elim b as (λ _. List ℕ × (ℕ → WaitChan) × Bool) [
          | true ↦ (rest, update_at chan ch (record { buffer = some id; is_closed = false }), true)
          | false ↦ offer chan id rest
        ])
        h

-- The queue, with what is left of it.
abbrev left : Queue → Pool → List ℕ × (ℕ → WaitChan) × Bool → Pool × Bool
left q p o = (set_queue q o.0 (record p { chan = o.1 }), o.2)

left_twice :
    (q : Queue) (xs : List ℕ) (p : Pool) (o : List ℕ × (ℕ → WaitChan) × Bool)
    → left q (set_queue q xs p) o ≡ left q p o
left_twice q xs p o =
    ap (λ (r : Pool). (r, o.2)) (set_queue_twice q o.0 xs (record p { chan = o.1 }))

-- What the thread does next, once it has tried a queue.
abbrev tried : Shared → ℕ → List Queue → Pool × Bool → Shared × Thread
tried s id qs r = (with_pool s r.0, if r.1 then returned none else puts (put_notifies id qs))

module _ (w : World) (s : Shared) (open_ : (q : Queue) → s.queue_shut q ≡ false) where
  abbrev at_queues : ℕ → List Queue → Pool → Shared × Thread
  at_queues id qs p = (with_pool s p, puts (put_notifies id qs))

  no_waiter :
      (id : ℕ) (q : Queue) (qs : List Queue) (p : Pool)
      → p.queue q ≡ []
      → act w (with_pool s p) (puts (put_notifies id (q ∷ qs))) ≡ at_queues id qs (set_queue q [] p)
  unfolding act
  no_waiter id q qs p e = rw (e, open_ q) (ap (at_queues id qs) (sym (set_queue_same q [] p e)))

  next_waiter :
      (id ch : ℕ) (q : Queue) (qs : List Queue) (rest : List ℕ) (p : Pool)
      → p.queue q ≡ ch ∷ rest
      → act w (with_pool s p) (puts (put_notifies id (q ∷ qs)))
        ≡ (with_pool s (set_queue q rest p), puts (put_offers id ch (q ∷ qs)))
  unfolding act
  next_waiter id ch q qs rest p e = rw e refl

  offers :
      (id : ℕ) (q : Queue) (qs : List Queue) (chans : List ℕ) (p : Pool)
      → p.queue q ≡ chans
      → Runs w
          (with_pool s p, puts (put_notifies id (q ∷ qs)))
          (tried s id qs (left q p (offer p.chan id chans)))
  unfolding offer act
  offers id q qs [] p e = step (
      subst (λ r. Runs w r (at_queues id qs (set_queue q [] p))) (sym (no_waiter id q qs p e))
        (done _))
  offers id q qs (ch ∷ rest) p e = step (
      rw (next_waiter id ch q qs rest p e) (
        step (elim (Bool-cases (can_send (p.chan ch))) [
          | inl h ↦ rw (h, offer_taken p.chan id ch rest h) (done _)
          | inr h ↦
              rw (h, offer_refused p.chan id ch rest h)
                (subst
                  (λ (r : Pool × Bool).
                    Runs w (at_queues id (q ∷ qs) (set_queue q rest p)) (tried s id qs r))
                  (left_twice q rest p (offer p.chan id rest))
                  (offers id q qs rest (set_queue q rest p) (set_queue-queue q rest p)))
        ])))

  pub specific_queue-Runs :
      (id : ℕ) (q : Queue) (qs : List Queue) (p : Pool)
      → Runs w (at_queues id (q ∷ qs) p) (tried s id qs (notify_specific_wait_queue q id p))
  unfolding notify_specific_wait_queue
  specific_queue-Runs id q qs p = offers id q qs (p.queue q) p refl

  try_queue-Runs :
      (id : ℕ) (o : Option Queue) (qs : List Queue) (p : Pool)
      → Runs w (at_queues id (some_queue o ++ qs) p) (tried s id qs (try_queue o id p))
  unfolding try_queue
  try_queue-Runs id none qs p = done _
  try_queue-Runs id (some q) qs p = specific_queue-Runs id q qs p

  -- A queue is tried, and if no waiter took the connection the others are.
  or_else :
      (id : ℕ) (qs : List Queue) (r : Pool × Bool) {q : Pool}
      → Runs w (at_queues id qs r.0) (with_pool s q, returned none)
      → Runs w (tried s id qs r) (with_pool s (if r.1 then r.0 else q), returned none)
  or_else id qs (p, true) h = done _
  or_else id qs (p, false) h = h

  all_tried : (id : ℕ) (r : Pool × Bool) → Runs w (tried s id [] r) (with_pool s r.0, returned none)
  unfolding act
  all_tried id (p, true) = done _
  all_tried id (p, false) = step (done _)

  pub notices-Runs :
      (id : ℕ) (p : Pool)
      → Runs w
          (at_queues id (queues_for (p.object id)) p)
          (with_pool s (notify_wait_queue id p), returned none)
  unfolding notify_wait_queue act
  notices-Runs id p =
      let first = try_queue (protocol_queue (p.object id).protocol) id p in
      let second = try_queue (version_queue (p.object id).ip_version) id first.0 in
      Runs-trans (try_queue-Runs id (protocol_queue (p.object id).protocol) _ p) (
        or_else id _ first (
          Runs-trans (try_queue-Runs id (version_queue (p.object id).ip_version) _ first.0) (
            or_else id _ second (
              Runs-trans (specific_queue-Runs id any [] second.0)
                (all_tried id (notify_specific_wait_queue any id second.0))))))
