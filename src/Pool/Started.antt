-- ===== src/Pool/Started.antt =====
-- What `NewPool` and `Close` make of the pool and of its managers.
use netconnpool.Prelude.{
  ℕ, ◌≡◌, ◌↔◌, refl, ap, ◌∙◌, Option, none, some, Bool, true, false, not, ◌&&◌, if_cases,
  if◌then◌else◌, arith,
}
use netconnpool.Prelude.Int.{is_pos}
use netconnpool.Prelude.Int.{pos_part}
use netconnpool.Prelude.{◌⊎◌, inl, inr, Bool-cases}
use netconnpool.Pool.Active.{SocketsOnly}
use netconnpool.Pool.Uncrashed.{warm_up-crashed}
use netconnpool.Errors.{Error}
use netconnpool.Config.{Config, validate}
use netconnpool.Prelude.{subst, sym}
use netconnpool.Pool.Shutdown.{
  close, close_connections, close_idle, close_wait_queues, close_wait_queue, begin_close,
}
use netconnpool.Pool.Lending.Others.{close_all-Steady}
use netconnpool.Config.Kept.{validate_keeps}
use netconnpool.Config.Validate.{validate_iff, validate-IsNormal}
use netconnpool.Config.Acceptable.{IsAcceptable, IsNormal}
use netconnpool.Manager.{Manager, new_manager, start, stop, serving}
use netconnpool.Pool.State.{Pool, World, new_pool}
use netconnpool.Pool.WarmUp.{warm_up}
use netconnpool.Pool.Startup.{
  Made, Running, panicked, made, after_warm_up, start_background_tasks, build, make_pool,
  close_running,
}
use netconnpool.Pool.Core.{Core}
use netconnpool.Pool.Core.Reached.{Reach-Core}
use netconnpool.Pool.Run.{start as start_run, next, warms}
use netconnpool.Prelude.{[]}
use netconnpool.Manager.{wait_loops}
use netconnpool.Manager.{loop_ends}
use netconnpool.Pool.Stays.{warm_up-Stays}

abbrev pub started : Bool → Manager
started b = if b then record { running = true; stopped = false; loops = 1 } else new_manager

-- The ticker of the health checks has no positive interval.
abbrev pub NoTicker : Config → Type 0
NoTicker c = (c.enable_health_check ≡ true) × (is_pos c.health_check_interval ≡ false)

abbrev no_ticker : Config → Bool
no_ticker c = c.enable_health_check && not (is_pos c.health_check_interval)

abbrev pub with_managers : Pool → Running
with_managers p = record {
  pool = p;
  health = started p.config.enable_health_check;
  cleanup = started true;
  leak = started (is_pos p.config.connection_leak_timeout);
}

start_background_tasks_lem :
    (p : Pool)
    → start_background_tasks p ≡ (if no_ticker p.config then panicked else made (with_managers p))
unfolding start_background_tasks start
start_background_tasks_lem p = ground arith

-- The idle channels cannot be made.
abbrev pub TooManyIdle : World → Config → Type 0
TooManyIdle w c = w.makes_channel (pos_part c.max_idle_connections) ≡ false

unharmed : (p : Pool) → p.crashed ≡ false → after_warm_up p ≡ start_background_tasks p
unharmed p h = ap (λ (b : Bool). if b then panicked else start_background_tasks p) h

after_warm_up_made :
    (p : Pool) (r : Running) → after_warm_up p ≡ made r → start_background_tasks p ≡ made r
after_warm_up_made p r h = elim (Bool-cases p.crashed) [
  | inl k ↦
      let e = ap (λ (b : Bool). if b then panicked else start_background_tasks p) k in cc (e, h)
  | inr k ↦ sym (unharmed p k) ∙ h
]

channel_made :
    (b : Bool) {m : Made} {r : Running} → (if b then m else panicked) ≡ made r → m ≡ made r
channel_made true h = h
channel_made false h = cc

after_warm_up_lem :
    (w : World) (c : Config) (now : ℕ)
    → SocketsOnly w
    → after_warm_up (warm_up w (new_pool c now))
      ≡ (if no_ticker c then panicked else made (with_managers (warm_up w (new_pool c now))))
after_warm_up_lem w c now n =
    let p = new_pool c now in
    unharmed (warm_up w p) (warm_up-crashed w n p)
    ∙ start_background_tasks_lem (warm_up w p)
    ∙ ap (λ (d : Config). if no_ticker d then panicked else made (with_managers (warm_up w p)))
        (warm_up-Stays w p).stays_config

no_ticker_panics :
    (c : Config) (r : Running)
    → ((if no_ticker c then panicked else made r) ≡ panicked) ↔ NoTicker c
no_ticker_panics c r = (λ h. ground arith, λ h. ground arith)

build_panics :
    (w : World) (now : ℕ) (v : Config × Option Error)
    → SocketsOnly w
    → (build w now v ≡ panicked) ↔ ((v.1 ≡ none) × (NoTicker v.0 ⊎ TooManyIdle w v.0))
unfolding build
build_panics w now (c, some e) n = (λ h. cc, λ h. cc)
build_panics w now (c, none) n =
    let e = after_warm_up_lem w c now n in
    let (f, g) = no_ticker_panics c (with_managers (warm_up w (new_pool c now))) in
    elim (Bool-cases (w.makes_channel (pos_part c.max_idle_connections))) [
      | inl m ↦
          rw m (rw e (λ h. (refl, inl (f h)), λ h. elim h.1 [ inl t ↦ g t | inr u ↦ absurd cc ]))
      | inr m ↦ rw m (λ h. (refl, inr refl), λ h. refl)
    ]

-- Where Dialer and Acceptor answer with a socket or an error: `NewPool` panics exactly on a
-- configuration that `Validate` accepts, and in which health checks are enabled and
-- HealthCheckInterval is not positive, or of which the MaxIdleConnections that `Validate` leaves is a
-- size that the runtime makes no channel of.
pub make_pool_panics :
    (w : World) (config : Config) (now : ℕ)
    → SocketsOnly w
    → (make_pool w config now ≡ panicked)
      ↔ (IsAcceptable config × (NoTicker config ⊎ TooManyIdle w (validate config).0))
unfolding make_pool
make_pool_panics w config now n =
    let (f, g) = build_panics w now (validate config) n in
    let (a, b) = validate_keeps config in
    let (x, y) = validate_iff config in
    (
      λ h.
          let (z, t) = f h in
          (x z, elim t [ inl t ↦ inl (sym a ∙ t.0, sym (ap is_pos b) ∙ t.1) | inr u ↦ inr u ]),
      λ h. g (y h.0, elim h.1 [ inl t ↦ inl (a ∙ t.0, ap is_pos b ∙ t.1) | inr u ↦ inr u ]),
    )

made_if : (b : Bool) {r s : Running} → (if b then panicked else made s) ≡ made r → r ≡ s
made_if true h = cc
made_if false h = cc

build_made :
    (w : World) (now : ℕ) (v : Config × Option Error) (r : Running)
    → build w now v ≡ made r
    → (v.1 ≡ none) × (r ≡ with_managers (warm_up w (new_pool v.0 now)))
unfolding build
build_made w now (c, some e) r h = cc
build_made w now (c, none) r h =
    let p = warm_up w (new_pool c now) in
    let b = start_background_tasks_lem p in
    let e =
      after_warm_up_made p r (channel_made (w.makes_channel (pos_part c.max_idle_connections)) h) in
    (refl, made_if (no_ticker p.config) (sym b ∙ e))

-- Where `NewPool` returns a pool, the invariant of the map holds in it, its configuration is one that
-- `Validate` leaves, it is open, and the cleanup, and the health checks and the leak detector where
-- the configuration asks for them and only there, have a goroutine in their loop that goes on.
pub make_pool_made :
    (w : World) (config : Config) (now : ℕ) (r : Running)
    → make_pool w config now ≡ made r
    → Core r.pool
      × (r.pool.config ≡ (validate config).0)
      × IsNormal r.pool.config
      × (r.pool.closed ≡ false)
      × (serving r.health ≡ r.pool.config.enable_health_check)
      × (serving r.cleanup ≡ true)
      × (serving r.leak ≡ is_pos r.pool.config.connection_leak_timeout)
unfolding make_pool
make_pool_made w config now r h =
    let (a, e) = build_made w now (validate config) r h in
    let s = warm_up-Stays w (new_pool (validate config).0 now) in
    subst
      (λ r.
        Core r.pool
        × (r.pool.config ≡ (validate config).0)
        × IsNormal r.pool.config
        × (r.pool.closed ≡ false)
        × (serving r.health ≡ r.pool.config.enable_health_check)
        × (serving r.cleanup ≡ true)
        × (serving r.leak ≡ is_pos r.pool.config.connection_leak_timeout))
      (sym e)
      (
        Reach-Core (next (start_run now) (warms (new_pool (validate config).0 now))),
        s.stays_config,
        subst IsNormal (sym s.stays_config) (validate-IsNormal config a),
        s.stays_closed,
        ground arith,
        refl,
        ground arith,
      )

pub closed-close : (w : World) (p : Pool) → (close w p).0.closed ≡ true
unfolding close close_connections close_idle close_wait_queues close_wait_queue begin_close
closed-close w p =
    if_cases (λ (r : Pool × Option Error). r.0.closed ≡ true) p.closed (λ c. c)
      λ _.
        (close_all-Steady w p.connections none
          (record p { closed = true; connections = [] })).same_closed

abbrev ended : Bool → Manager
ended b = if b then record { running = false; stopped = true; loops = 0 } else new_manager

stop-started : (b : Bool) → stop (started b) ≡ some (ended b)
unfolding stop wait_loops loop_ends
stop-started true = refl
stop-started false = refl

ended_quiet : (b : Bool) → ((ended b).running ≡ false) × ((ended b).loops ≡ 0)
ended_quiet true = (refl, refl)
ended_quiet false = (refl, refl)

module _ (w : World) (r : Running) where
  abbrev with_ended : Bool → Bool → Bool → Running
  with_ended b c d = record {
    pool = (close w r.pool).0;
    health = ended b;
    cleanup = ended c;
    leak = ended d;
  }

  close_running_ended :
      (b c d : Bool)
      → r.pool.closed ≡ false
      → r.health ≡ started b
      → r.cleanup ≡ started c
      → r.leak ≡ started d
      → close_running w r ≡ some (with_ended b c d, (close w r.pool).1)
  unfolding close_running
  close_running_ended b c d o x y z =
      simp (o, x, y, z, stop-started b, stop-started c, stop-started d)

  close_running_again : r.pool.closed ≡ true → close_running w r ≡ some (r, none)
  unfolding close_running
  close_running_again h = rw h refl

-- `Close` of an open pool, whose managers are as `NewPool` has started them: it does not panic, the
-- pool is closed, no manager serves or has a loop left, and a second `Close` does nothing.
pub close_running_once :
    (w : World) (r : Running) (b c d : Bool)
    → r.pool.closed ≡ false
    → r.health ≡ started b
    → r.cleanup ≡ started c
    → r.leak ≡ started d
    → (s : Running) × (e : Option Error) × (close_running w r ≡ some (s, e))
      × (s.pool ≡ (close w r.pool).0)
      × (s.pool.closed ≡ true)
      × (s.health.running ≡ false)
      × (s.health.loops ≡ 0)
      × (s.cleanup.running ≡ false)
      × (s.cleanup.loops ≡ 0)
      × (s.leak.running ≡ false)
      × (s.leak.loops ≡ 0)
      × (close_running w s ≡ some (s, none))
close_running_once w r b c d o x y z =
    let s = with_ended w r b c d in
    (
      s,
      (close w r.pool).1,
      close_running_ended w r b c d o x y z,
      refl,
      closed-close w r.pool,
      (ended_quiet b).0,
      (ended_quiet b).1,
      (ended_quiet c).0,
      (ended_quiet c).1,
      (ended_quiet d).0,
      (ended_quiet d).1,
      close_running_again w s (closed-close w r.pool),
    )
