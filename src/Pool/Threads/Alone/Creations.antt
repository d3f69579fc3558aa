-- ===== src/Pool/Threads/Alone/Creations.antt =====
-- pool.go: `createConnection` as `GetWithTimeout` calls it, alone.
use netconnpool.Prelude.{ℕ, suc, ◌-◌, ◌≡◌, ap, sym, subst, Option, none, some, true, ltb, arith}
use netconnpool.Errors.{Error, Result, ok, err}
use netconnpool.Net.Addr.{NetConn}
use netconnpool.Pool.State.{Pool, World, any, asks, at_limit}
use netconnpool.Pool.Create.{create_connection, dialed, created, approved, register, lacks_source}
use netconnpool.Pool.Borrow.{failed, waits, count_connection_error}
use netconnpool.Pool.Racing.{permits}
use netconnpool.Pool.Threads.Act.{act}
use netconnpool.Pool.Threads.Alone.{Runs, if-Runs, done, step}
use netconnpool.Pool.Threads.Defs.{
  Shared, Thread, Creating, gets, creates, get_lends, get_ends, create_acquires, create_makes,
  create_ends, with_pool, dial_answered, hook_answered,
}

module _ (w : World) (started : ℕ) (s : Shared) where
  -- How the call of `createConnection` goes on, with its permit given back.
  abbrev pub settled : Pool × Result ℕ → Shared × Thread
  settled (p, ok id) = (with_pool s p, gets started (get_lends id))
  settled (p, err Error.max_connections_reached) =
      (with_pool s (count_connection_error p), gets started (get_ends (waits any)))
  settled (p, err e) = (with_pool s (count_connection_error p), gets started (get_ends (failed e)))

  -- A creation under way, with a permit.
  abbrev creating : Pool → Creating → Shared × Thread
  creating p t = (record s { pool = p; permits = suc s.permits }, creates started t)

  released : (p : Pool) → record s { pool = p; permits = suc s.permits - 1 } ≡ with_pool s p
  released p = ap (λ (n : ℕ). record s { pool = p; permits = n }) (omega arith)

  resumes :
      (p : Pool) (t : Thread)
      → Runs w (record s { pool = p; permits = suc s.permits - 1 }, t) (with_pool s p, t)
  resumes p t = subst (λ (x : Shared). Runs w (x, t) (with_pool s p, t)) (sym (released p)) (done _)

  ended : (p : Pool) (r : Result ℕ) → Runs w (creating p (create_ends r)) (settled (p, r))
  unfolding act
  ended p (ok id) = step (resumes p _)
  ended p (err Error.max_connections_reached) = step (resumes (count_connection_error p) _)
  ended p (err e) = step (resumes (count_connection_error p) _)

  pub registers-Runs :
      (p : Pool) (socket : Option NetConn)
      → Runs w (creating p (create_makes socket)) (settled (register w socket p))
  unfolding act register
  registers-Runs p socket = step (step (step (ended _ _)))

  approved-Runs :
      (p : Pool) (socket : Option NetConn) (o : Option Error)
      → Runs w
          (hook_answered started w (record s { pool = p; permits = suc s.permits }) socket o)
          (settled (approved w socket o p))
  unfolding approved
  approved-Runs p socket none = registers-Runs (asks w p) socket
  approved-Runs p socket (some e) = ended _ (err e)

  dialed-Runs :
      (p : Pool) (o : Result (Option NetConn))
      → Runs w
          (dial_answered started (record s { pool = p; permits = suc s.permits }) o)
          (settled (dialed w o p))
  unfolding dialed created act
  dialed-Runs p (err e) = ended p (err e)
  dialed-Runs p (ok socket) =
      if-Runs settled p.config.on_created (step (approved-Runs p socket (w.on_created p.asked)))
        (registers-Runs p socket)

  pub create-Runs :
      ltb s.permits permits ≡ true
      → (p : Pool)
      → Runs w (with_pool s p, creates started create_acquires) (settled (create_connection w p))
  unfolding act create_connection
  create-Runs free p = step (
      if-Runs settled (w.done p.asked) (done _) (
        rw free (
          step (
            if-Runs settled p.closed (ended p _) (
              step (
                if-Runs settled (at_limit p) (ended p _) (
                  step (
                    if-Runs settled (lacks_source p.config.mode p.config) (ended p _)
                      (dialed-Runs (asks w p) (w.dial p.asked))))))))))
