-- ===== src/Pool/Threads/Spins.antt =====
-- pool.go: `notifySpecificWaitQueue` at a wait queue that `Close` has closed.
use netconnpool.Prelude.{
  ℕ, ◌≡◌, ap, sym, subst, ◌∙◌, Bool, true, false, List, [], ◌∷◌, ◌==◌, ==_refl, eq_of_==,
  if◌then◌else◌, Bool-cases, inl, inr,
}
use netconnpool.Pool.State.{World, Queue}
use netconnpool.Pool.Threads.Act.{act}
use netconnpool.Pool.Threads.System.{
  System, Move, acts, starts, passes, Moves, here, next, moved, at_rest,
}
use netconnpool.Pool.Threads.Dead.{act-Dead}
use netconnpool.Pool.Threads.Defs.{Shared, Thread, puts, put_notifies, notified}

-- A thread of `notifySpecificWaitQueue` at a queue that is closed and empty.
pub record Spins (i id : ℕ) (q : Queue) (qs : List Queue) (y : System) : Type 0 where
  pub stands : y.thread i ≡ puts (put_notifies id (q ∷ qs))
  pub shut : y.shared.queue_shut q ≡ true
  pub empty : y.shared.pool.queue q ≡ []

act_spins :
    (w : World) (id : ℕ) (q : Queue) (qs : List Queue) (s : Shared)
    → s.queue_shut q ≡ true
    → s.pool.queue q ≡ []
    → act w s (puts (put_notifies id (q ∷ qs))) ≡ (s, puts (put_notifies id (q ∷ qs)))
unfolding act
act_spins w id q qs s h e =
    ap (notified s id q qs) e
    ∙ ap
        (λ (b : Bool).
          if b then (s, puts (put_notifies id (q ∷ qs))) else (s, puts (put_notifies id qs)))
        h

module _ {i id : ℕ} {q : Queue} {qs : List Queue} where
  stays_at_queue :
      (w : World) (y : System)
      → Spins i id q qs y
      → (moved y i (act w y.shared (y.thread i))).thread i ≡ puts (put_notifies id (q ∷ qs))
  stays_at_queue w y h = rw (==_refl i) (
      ap (λ (t : Thread). (act w y.shared t).1) h.stands
      ∙ ap (λ (r : Shared × Thread). r.1) (act_spins w id q qs y.shared h.shut h.empty))

  acts-Spins :
      (w : World) (y : System) (j : ℕ)
      → Spins i id q qs y
      → Spins i id q qs (moved y j (act w y.shared (y.thread j)))
  acts-Spins w y j h =
      let d = act-Dead {q = q} {s = y.shared} w (y.thread j) in
      record {
        stands = elim (Bool-cases (j == i)) [
          | inl e ↦
              subst
                (λ (k : ℕ).
                  (moved y k (act w y.shared (y.thread k))).thread i
                  ≡ puts (put_notifies id (q ∷ qs)))
                (sym (eq_of_== j i e)) (stays_at_queue w y h)
          | inr e ↦ rw e h.stands
        ];
        shut = d.stays_shut h.shut;
        empty = d.stays_empty h.empty;
      }

  pub never_rests : (y : System) → Spins i id q qs y → at_rest (y.thread i) ≡ false
  never_rests y h = ap at_rest h.stands

  Move-Spins : {w : World} {y z : System} → Move w y z → Spins i id q qs y → Spins i id q qs z
  Move-Spins {w} (acts y j) h = acts-Spins w y j h
  Move-Spins (starts y j c e) h = record {
    stands = elim (Bool-cases (j == i)) [
      | inl k ↦ cc (eq_of_== j i k, never_rests y h)
      | inr k ↦ rw k h.stands
    ];
    shut = h.shut;
    empty = h.empty;
  }
  Move-Spins (passes y t) h = record { stands = h.stands; shut = h.shut; empty = h.empty }

  pub Moves-Spins : {w : World} {y z : System} → Moves w y z → Spins i id q qs y → Spins i id q qs z
  Moves-Spins (here y) h = h
  Moves-Spins (next ms m) h = Move-Spins m (Moves-Spins ms h)
