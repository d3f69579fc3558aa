-- ===== src/Pool/Threads/Queued.antt =====
-- pool.go: the parts of the methods that leave the wait queues alone.
use netconnpool.Prelude.{ℕ, ◌≡◌, refl, Option, none, some, List, [], ◌∷◌, arith, if_cases}
use netconnpool.Pool.State.{Pool, World}
use netconnpool.Pool.Put.{clear_udp, send_idle, hand_back}
use netconnpool.Pool.Create.{insert_connection}
use netconnpool.Pool.Borrow.{
  Outcome, got, failed, waits, stuck, take_any, take_both, lend_idle, lend_new,
}
use netconnpool.Pool.Get.{finish_get}

pub lend_idle-queue : (id : ℕ) (p : Pool) → (lend_idle id p).queue ≡ p.queue
unfolding lend_idle
lend_idle-queue id p = ground arith

pub lend_new-queue : (id : ℕ) (p : Pool) → (lend_new id p).queue ≡ p.queue
unfolding lend_new
lend_new-queue id p = ground arith

pub hand_back-queue : (id : ℕ) (p : Pool) → (hand_back id p).queue ≡ p.queue
unfolding hand_back
hand_back-queue id p = ground arith

pub insert-queue : (id : ℕ) (p : Pool) → (insert_connection id (clear_udp id p)).queue ≡ p.queue
insert-queue id p = ground arith

pub finish_get-queue :
    (started : ℕ) (p : Pool) (o : Outcome) → (finish_get started (p, o)).0.queue ≡ p.queue
finish_get-queue started p (got id) = refl
finish_get-queue started p (failed e) = refl
finish_get-queue started p (waits q) = refl
finish_get-queue started p stuck = refl

abbrev pub TakenQueue : Pool → Option (ℕ × Pool) → Type 0
TakenQueue p none = Unit {0}
TakenQueue p (some (id, r)) = r.queue ≡ p.queue

pub take_both-queue : (w : World) (xs ys : List ℕ) (p : Pool) → TakenQueue p (take_both w xs ys p)
unfolding take_both
take_both-queue w [] [] p = tt
take_both-queue w (x ∷ xs) [] p = refl
take_both-queue w [] (y ∷ ys) p = refl
take_both-queue w (x ∷ xs) (y ∷ ys) p =
    if_cases (λ (r : ℕ × Pool). r.1.queue ≡ p.queue) (w.prefers_tcp p.asked) (λ h. refl) (λ h. refl)

pub take_any-queue : (w : World) (p : Pool) → TakenQueue p (take_any w p)
unfolding take_any
take_any-queue w p = take_both-queue w p.idle_tcp p.idle_udp p

pub send_idle-queue : (id : ℕ) (p : Pool) → (send_idle id p).queue ≡ p.queue
send_idle-queue id p = ground arith
