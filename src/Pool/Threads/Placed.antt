-- ===== src/Pool/Threads/Placed.antt =====
-- In any interleaving, a connection with an open socket is in the map or in the hands of a thread.
use netconnpool.Prelude.{
  ℕ, ◌≤◌, ◌≡◌, refl, true, false, ◌==◌, ◌⊎◌, inl, inr, member, Distinct, arith, Bool-cases,
  eq_of_==, ==_refl, if_cases,
}
use netconnpool.Config.{Config}
use netconnpool.Pool.State.{World}
use netconnpool.Pool.Threads.Defs.{
  Shared, Thread, creates, discards, discard_closes, shut_closes, shuts, create_inserts,
}
use netconnpool.Pool.Threads.System.{
  System, Move, acts, starts, passes, Moves, here, next, moved, new_system, at_rest, entry, Call,
  calls_get, calls_put, calls_sweep, calls_close,
}
use netconnpool.Pool.Threads.Owned.{
  owns, owns_nothing, InsertsBelow, Allocated, opened, Placed, Handles, calm, SameMap-refl,
  empty_handed,
}
use netconnpool.Pool.Threads.Sockets.{act-Handles}

-- The IDs in the map are distinct and were given out, and so was that which a thread is about to put
-- there; an open socket is in the map, or in the hands of a thread.
pub record Sound (y : System) : Type 0 where
  pub distinct : Distinct y.shared.pool.connections
  pub allocated : Allocated y.shared.pool
  pub inserts : (i : ℕ) → InsertsBelow y.shared.pool.next_id (y.thread i)
  pub placed :
      (j : ℕ)
      → opened y.shared.pool j ≡ true
      → (member j y.shared.pool.connections ≡ true) ⊎ ((i : ℕ) × (owns (y.thread i) j ≡ true))

InsertsBelow-le : (m n : ℕ) → m ≤ n → (t : Thread) → InsertsBelow m t → InsertsBelow n t
unfolding InsertsBelow
InsertsBelow-le m n l (creates started (create_inserts id)) b = omega arith
InsertsBelow-le m n l _ b = tt

module _ (y : System) (i : ℕ) (r : Shared × Thread) (h : Handles y.shared (y.thread i) r)
    (c : Sound y) where
  others_insert : (k : ℕ) → InsertsBelow r.0.pool.next_id ((moved y i r).thread k)
  others_insert k =
      if_cases (InsertsBelow r.0.pool.next_id) (i == k)
        (λ e. (h.allocated c.allocated (c.inserts i)).1)
        (λ e. InsertsBelow-le _ _ h.grows (y.thread k) (c.inserts k))

  still_owned :
      (j k : ℕ)
      → owns (y.thread i) j ≡ false
      → owns (y.thread k) j ≡ true
      → owns ((moved y i r).thread k) j ≡ true
  still_owned j k n o = elim (Bool-cases (i == k)) [ inl e ↦ cc (eq_of_== i k e) | inr e ↦ rw e o ]

  still_somewhere :
      (j : ℕ)
      → Placed y.shared (y.thread i) r j
      → (member j r.0.pool.connections ≡ true)
        ⊎ ((k : ℕ) × (owns ((moved y i r).thread k) j ≡ true))
  still_somewhere j (inl o) = inr (i, rw (==_refl i) o)
  still_somewhere j (inr (inl m)) = inl m
  still_somewhere j (inr (inr (o, m, n))) = elim (c.placed j o) [
    | inl l ↦ cc
    | inr (k, l) ↦ inr (k, still_owned j k n l)
  ]

  moved-Sound : Sound (moved y i r)
  moved-Sound = record {
    distinct = h.distinct c.distinct;
    allocated = (h.allocated c.allocated (c.inserts i)).0;
    inserts = others_insert;
    placed = λ j o. still_somewhere j (h.placed j o);
  }

at_rest-empty : (t : Thread) → at_rest t ≡ true → empty_handed t ≡ true
at_rest-empty (creates started (create_inserts id)) e = cc
at_rest-empty (discards (discard_closes id exists) a) e = cc
at_rest-empty (shuts (shut_closes ids e')) e = cc
at_rest-empty _ e = refl

entry-empty : (c : Call) → empty_handed (entry c) ≡ true
entry-empty calls_get = refl
entry-empty calls_close = refl
entry-empty (calls_put id) = refl
entry-empty (calls_sweep id) = refl

Move-Sound : {w : World} {y z : System} → Move w y z → Sound y → Sound z
Move-Sound {w} (acts y i) c = moved-Sound y i _ (act-Handles w (y.thread i)) c
Move-Sound {w} (starts y i call e) c =
    moved-Sound y i _
      (calm (SameMap-refl y.shared.pool) (at_rest-empty (y.thread i) e) (entry-empty call)) c
Move-Sound {w} (passes y t) c = record {
  distinct = c.distinct;
  allocated = c.allocated;
  inserts = c.inserts;
  placed = c.placed;
}

new_system-Sound : (config : Config) (now : ℕ) → Sound (new_system config now)
unfolding member InsertsBelow
new_system-Sound config now = record {
  distinct = tt;
  allocated = λ id m. cc;
  inserts = λ i. tt;
  placed = λ j h. cc;
}

kept_along : {w : World} {y z : System} → Moves w y z → Sound y → Sound z
kept_along (here y) c = c
kept_along (next ms m) c = Move-Sound m (kept_along ms c)

-- From the literal of `NewPool` on, however the accesses of the goroutines follow each other: the IDs
-- in the map are distinct and were given out, and a connection with an open socket is in the map or in
-- the hands of a thread that is about to put it there or to close it.
pub Moves-Sound :
    {w : World} {config : Config} {now : ℕ} {y : System}
    → Moves w (new_system config now) y
    → Sound y
Moves-Sound {w} {config} {now} ms = kept_along ms (new_system-Sound config now)

-- When all threads are at rest, then, every open socket is in the map.
pub rest_listed :
    {w : World} {config : Config} {now : ℕ} {y : System} (j : ℕ)
    → Moves w (new_system config now) y
    → ((i : ℕ) → at_rest (y.thread i) ≡ true)
    → opened y.shared.pool j ≡ true
    → member j y.shared.pool.connections ≡ true
rest_listed {w} {config} {now} {y} j ms r o = elim ((Moves-Sound ms).placed j o) [
  | inl m ↦ m
  | inr (i, h) ↦ cc (owns_nothing (y.thread i) (at_rest-empty (y.thread i) (r i)) j)
]
