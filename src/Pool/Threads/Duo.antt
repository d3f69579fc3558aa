-- ===== src/Pool/Threads/Duo.antt =====
-- Two threads of a system that take turns while the others stand still.
use netconnpool.Prelude.{ℕ, ◌≡◌, ap₂, false, ◌==◌, ==_refl}
use netconnpool.Pool.State.{World}
use netconnpool.Pool.Threads.Defs.{Shared, Thread}
use netconnpool.Pool.Threads.Act.{act}
use netconnpool.Pool.Threads.System.{System, acts, Moves, next, moved}
use netconnpool.Pool.Threads.Alone.{Runs, done, step}
use netconnpool.Prelude.{arith}

-- The shared state and where the two stand.
pub record Duo : Type 0 where
  pub common : Shared
  pub left : Thread
  pub right : Thread

pub data Turns (w : World) : Duo → Duo → Type 0 where
  stop : (d : Duo) → Turns w d d
  left_acts :
      {s : Shared} {t u : Thread} {e : Duo}
      → Turns w (record { common = (act w s t).0; left = (act w s t).1; right = u }) e
      → Turns w (record { common = s; left = t; right = u }) e
  right_acts :
      {s : Shared} {t u : Thread} {e : Duo}
      → Turns w (record { common = (act w s u).0; left = t; right = (act w s u).1 }) e
      → Turns w (record { common = s; left = t; right = u }) e

-- A system in which two threads stand as in the pair.
pub record Stands (y : System) (i k : ℕ) (d : Duo) : Type 0 where
  pub shared_is : y.shared ≡ d.common
  pub left_is : y.thread i ≡ d.left
  pub right_is : y.thread k ≡ d.right

pub left-Turns :
    {w : World} {a b : Shared × Thread} {u : Thread} {e : Duo}
    → Runs w a b
    → Turns w (record { common = b.0; left = b.1; right = u }) e
    → Turns w (record { common = a.0; left = a.1; right = u }) e
left-Turns (done a) h = h
left-Turns (step r) h = left_acts (left-Turns r h)

pub right-Turns :
    {w : World} {a b : Shared × Thread} {t : Thread} {e : Duo}
    → Runs w a b
    → Turns w (record { common = b.0; left = t; right = b.1 }) e
    → Turns w (record { common = a.0; left = t; right = a.1 }) e
right-Turns (done a) h = h
right-Turns (step r) h = right_acts (right-Turns r h)

module _ (i k : ℕ) (apart : (i == k) ≡ false) (w : World) where
  apart_too : (k == i) ≡ false
  apart_too = ground arith

  left_moved :
      (y : System) (s : Shared) (t u : Thread)
      → Stands y i k (record { common = s; left = t; right = u })
      → Stands
          (moved y i (act w y.shared (y.thread i)))
          i
          k
          (record { common = (act w s t).0; left = (act w s t).1; right = u })
  left_moved y s t u h = record {
    shared_is = ap₂ (λ (x : Shared) (v : Thread). (act w x v).0) h.shared_is h.left_is;
    left_is =
        rw (==_refl i) (ap₂ (λ (x : Shared) (v : Thread). (act w x v).1) h.shared_is h.left_is);
    right_is = rw apart h.right_is;
  }

  right_moved :
      (y : System) (s : Shared) (t u : Thread)
      → Stands y i k (record { common = s; left = t; right = u })
      → Stands
          (moved y k (act w y.shared (y.thread k)))
          i
          k
          (record { common = (act w s u).0; left = t; right = (act w s u).1 })
  right_moved y s t u h = record {
    shared_is = ap₂ (λ (x : Shared) (v : Thread). (act w x v).0) h.shared_is h.right_is;
    left_is = rw apart_too h.left_is;
    right_is =
        rw (==_refl k) (ap₂ (λ (x : Shared) (v : Thread). (act w x v).1) h.shared_is h.right_is);
  }

  -- The two threads of the system come to where the pair comes.
  pub Turns-Moves :
      {d e : Duo} {x : System} (y : System)
      → Turns w d e
      → Stands y i k d
      → Moves w x y
      → (z : System) × Moves w x z × Stands z i k e
  Turns-Moves y (stop d) h m = (y, m, h)
  Turns-Moves y (left_acts {s} {t} {u} r) h m =
      Turns-Moves _ r (left_moved y s t u h) (next m (acts y i))
  Turns-Moves y (right_acts {s} {t} {u} r) h m =
      Turns-Moves _ r (right_moved y s t u h) (next m (acts y k))
