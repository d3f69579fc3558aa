-- ===== src/Pool/Cleaning/Sweep.antt =====
-- What the loop of a cleanup closes.
use netconnpool.Prelude.{
  true_is_false, ℕ, ◌≤◌, ◌≡◌, refl, ap, ◌∙◌, sym, true, false, ◌==◌, List, [], ◌∷◌, member, erase,
  Distinct, arith, Bool-cases, inl, inr, if_cases, member-erase_self, erase-Distinct,
}
use netconnpool.Prelude.{eq_of_==, member_of_member-erase}
use netconnpool.Pool.State.{Pool, World}
use netconnpool.Pool.Cleanup.{should_close, sweep_one, sweep}
use netconnpool.Pool.Cleaning.Drop.{
  drop, doomed, object-drop, drop_rest, connections-drop, sweep_one_lem,
}

-- What is closed stays out of the map.
module _ (w : World) (j : ℕ) where
  Out : Pool → Type 0
  Out p = member j p.connections ≡ false

  -- The connection as the pass found it, at that time or later.
  record Seen (p q : Pool) : Type 0 where
    seen_object : q.object j ≡ p.object j
    seen_config : q.config ≡ p.config
    later : p.now ≤ q.now
    seen_distinct : Distinct q.connections

  doomed_later :
      (p q : Pool)
      → Seen p q
      → (p.object j).in_use ≡ false
      → should_close p.config p.now (p.object j) ≡ true
      → doomed q j ≡ true
  doomed_later p q s f h = simp (s.seen_object, s.seen_config) (ground (arith, s.later))

  drop-Out : (id : ℕ) (p : Pool) → Out p → Out (drop w id p)
  unfolding Out
  drop-Out id p o =
      rw (connections-drop w p id) (elim (Bool-cases (member j (erase id p.connections))) [
        | inl m ↦ (true_is_false (sym (member_of_member-erase j id p.connections m) ∙ o))
        | inr m ↦ m
      ])

  sweep_one-Out : (id : ℕ) (p : Pool) → Out p → Out (sweep_one w id p)
  sweep_one-Out id p o =
      rw (sweep_one_lem w id p) (if_cases Out (doomed p id) (λ _. drop-Out id p o) (λ _. o))

  sweep-Out : (ids : List ℕ) (p : Pool) → Out p → Out (sweep w ids p)
  unfolding sweep
  sweep-Out [] p o = o
  sweep-Out (id ∷ ids) p o = sweep-Out ids (sweep_one w id p) (sweep_one-Out id p o)

  drop_self : (id : ℕ) (p : Pool) → (id == j) ≡ true → Distinct p.connections → Out (drop w id p)
  unfolding Out
  drop_self id p e d =
      rw (connections-drop w p id, eq_of_== id j e) (member-erase_self j p.connections d)

  drop-Seen : (p q : Pool) (id : ℕ) → (id == j) ≡ false → Seen p q → Seen p (drop w id q)
  drop-Seen p q id e s = record {
    seen_object = object-drop w q id j e ∙ s.seen_object;
    seen_config = (drop_rest w q id).1 ∙ s.seen_config;
    later = omega (arith, s.later, (drop_rest w q id).0);
    seen_distinct = rw (connections-drop w q id) (erase-Distinct id q.connections s.seen_distinct);
  }

  sweep_one-Seen : (p q : Pool) (id : ℕ) → (id == j) ≡ false → Seen p q → Seen p (sweep_one w id q)
  sweep_one-Seen p q id e s =
      rw (sweep_one_lem w id q)
        (if_cases (Seen p) (doomed q id) (λ _. drop-Seen p q id e s) (λ _. s))

  module _ (p : Pool) (free : (p.object j).in_use ≡ false)
      (due : should_close p.config p.now (p.object j) ≡ true) where
    sweep_one_self : (id : ℕ) (q : Pool) → (id == j) ≡ true → Seen p q → Out (sweep_one w id q)
    sweep_one_self id q e s = rw (sweep_one_lem w id q) (
        if_cases Out (doomed q id) (λ _. drop_self id q e s.seen_distinct)
          (λ n.
            (true_is_false
              (sym (doomed_later p q s free due) ∙ ap (doomed q) (sym (eq_of_== id j e)) ∙ n))))

    sweep_finds : (ids : List ℕ) (q : Pool) → member j ids ≡ true → Seen p q → Out (sweep w ids q)
    unfolding sweep member
    sweep_finds [] q m s = (true_is_false (sym m))
    sweep_finds (id ∷ ids) q m s = elim (Bool-cases (id == j)) [
      | inl e ↦ sweep-Out ids (sweep_one w id q) (sweep_one_self id q e s)
      | inr e ↦ sweep_finds ids (sweep_one w id q) (ground arith) (sweep_one-Seen p q id e s)
    ]

-- The loop of `performCleanup`, on a map of distinct IDs, takes every connection out of the map that
-- is not in use and that is expired, idle for too long, or, where health checks are enabled,
-- unhealthy, at the time when the loop starts.
pub sweep_removes :
    (w : World) (p : Pool) (j : ℕ)
    → Distinct p.connections
    → (p.object j).in_use ≡ false
    → should_close p.config p.now (p.object j) ≡ true
    → member j (sweep w p.connections p).connections ≡ false
unfolding Out
sweep_removes w p j d f h = elim (Bool-cases (member j p.connections)) [
  | inl m ↦
      sweep_finds w j p f h p.connections p m
        (record { seen_object = refl; seen_config = refl; later = omega arith; seen_distinct = d })
  | inr m ↦ sweep-Out w j p.connections p m
]
