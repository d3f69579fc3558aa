-- ===== src/Pool/Threads/Queues.antt =====
-- Writing a wait queue of the pool twice, or with what it holds.
use netconnpool.Prelude.{
  ℕ, ◌≡◌, refl, ap, sym, ◌∙◌, fun_ext, Bool, true, false, List, if◌then◌else◌, if_cases,
}
use netconnpool.Pool.State.{Pool, Queue, any, v4, v6, tcp, udp, queue_eq, set_queue}

queue_eq_refl : (q : Queue) → queue_eq q q ≡ true
queue_eq_refl any = refl
queue_eq_refl v4 = refl
queue_eq_refl v6 = refl
queue_eq_refl tcp = refl
queue_eq_refl udp = refl

pub queue_of_eq : (q r : Queue) → queue_eq q r ≡ true → q ≡ r
queue_of_eq any any e = refl
queue_of_eq v4 v4 e = refl
queue_of_eq v6 v6 e = refl
queue_of_eq tcp tcp e = refl
queue_of_eq udp udp e = refl
queue_of_eq _ _ e = cc

abbrev replaced : Queue → List ℕ → (Queue → List ℕ) → Queue → List ℕ
replaced q xs f r = if queue_eq q r then xs else f r

-- What a queue holds already, or holds no longer.
pub set_queue_same : (q : Queue) (xs : List ℕ) (p : Pool) → p.queue q ≡ xs → set_queue q xs p ≡ p
set_queue_same q xs p e =
    ap (λ (f : Queue → List ℕ). record p { queue = f })
      (fun_ext {f = replaced q xs p.queue} (λ r.
        if_cases (λ (ys : List ℕ). ys ≡ p.queue r) (queue_eq q r)
          (λ h. sym e ∙ ap p.queue (queue_of_eq q r h)) (λ h. refl)))

pub set_queue_twice :
    (q : Queue) (xs ys : List ℕ) (p : Pool) → set_queue q xs (set_queue q ys p) ≡ set_queue q xs p
set_queue_twice q xs ys p =
    ap (λ (f : Queue → List ℕ). record p { queue = f })
      (fun_ext {f = replaced q xs (replaced q ys p.queue)} {g = replaced q xs p.queue}
        (λ r. twice (p.queue r) (queue_eq q r)))
  where
    twice :
        (zs : List ℕ) (b : Bool)
        → (if b then xs else (if b then ys else zs)) ≡ (if b then xs else zs)
    twice zs true = refl
    twice zs false = refl

pub set_queue-queue : (q : Queue) (xs : List ℕ) (p : Pool) → (set_queue q xs p).queue q ≡ xs
set_queue-queue q xs p = rw (queue_eq_refl q) refl
