-- ===== src/Pool/Threads/Alone.antt =====
-- A thread that runs while the others stand still does what the method does in one piece.
use netconnpool.Prelude.{◌≡◌, sym, subst, Bool, true, false, if◌then◌else◌}
use netconnpool.Pool.State.{World}
use netconnpool.Pool.Threads.Defs.{Shared, Thread}
use netconnpool.Pool.Threads.Act.{act}
pub mod Discards
pub mod Notices
pub mod Puts
pub mod Creations
pub mod Gets
pub mod Drains
pub mod Closes
pub mod Sweeps
pub mod Agrees

-- One access after the other.
pub data Runs (w : World) : Shared × Thread → Shared × Thread → Type 0 where
  done : (a : Shared × Thread) → Runs w a a
  step : {s : Shared} {t : Thread} {b : Shared × Thread} → Runs w (act w s t) b → Runs w (s, t) b

pub Runs-trans : {w : World} {a b c : Shared × Thread} → Runs w a b → Runs w b c → Runs w a c
Runs-trans (done a) k = k
Runs-trans (step h) k = step (Runs-trans h k)

-- A branch of the thread is one of the method.
pub if-Runs {ℓ} :
    {w : World} {A : Type ℓ} (f : A → Shared × Thread) (c : Bool) {a b : Shared × Thread} {x y : A}
    → Runs w a (f x)
    → Runs w b (f y)
    → Runs w (if c then a else b) (f (if c then x else y))
if-Runs f true h k = h
if-Runs f false h k = k

-- The branch that is taken.
pub then-Runs :
    {w : World} {c : Bool} {a x : Shared × Thread} (b : Shared × Thread)
    → c ≡ true
    → Runs w a x
    → Runs w (if c then a else b) x
then-Runs {w} {c} {a} {x} b e h = subst (λ (d : Bool). Runs w (if d then a else b) x) (sym e) h

pub else-Runs :
    {w : World} {c : Bool} {b x : Shared × Thread} (a : Shared × Thread)
    → c ≡ false
    → Runs w b x
    → Runs w (if c then a else b) x
else-Runs {w} {c} {b} {x} a e h = subst (λ (d : Bool). Runs w (if d then a else b) x) (sym e) h
