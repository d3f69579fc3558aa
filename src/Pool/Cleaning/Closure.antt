-- ===== src/Pool/Cleaning/Closure.antt =====
-- A relation that holds across the parts of a cleanup holds across the whole of it.
use netconnpool.Prelude.{
  arith, ◌≡◌, ℕ, ◌-◌, ◌%◌, ◌^◌, Option, none, some, false, List, [], ◌∷◌, length, ltb, if_cases,
}
use netconnpool.Prelude.Int.{pos, leb_ℤ}
use netconnpool.Connection.{get_idle_time}
use netconnpool.Stats.{Stats, increment_current_idle_connections}
use netconnpool.Pool.State.{Pool, World, with_stats}
use netconnpool.Pool.Cleanup.{
  sweep, sweep_one, not_in_use, choose, excess_of, close_one, close_chosen, count_closed_idle,
  close_excess, enforce_max_idle_connections, perform_cleanup,
}
use netconnpool.Pool.Cleaning.Drop.{drop, doomed, sweep_one_lem}

module _ {ℓ} (w : World) (R : Pool → Pool → Type ℓ) (R_refl : (p : Pool) → R p p)
    (R_trans : (p q r : Pool) → R p q → R q r → R p r)
    (R_drop : (id : ℕ) (p : Pool) → (p.object id).in_use ≡ false → R p (drop w id p))
    (R_stats : (n : ℕ) (p : Pool) → R p (with_stats (increment_current_idle_connections n) p)) where
  sweep_one_closed : (id : ℕ) (p : Pool) → R p (sweep_one w id p)
  sweep_one_closed id p =
      rw (sweep_one_lem w id p)
        (if_cases (R p) (doomed p id) (λ d. R_drop id p (ground arith)) (λ _. R_refl p))

  sweep_closed : (ids : List ℕ) (p : Pool) → R p (sweep w ids p)
  unfolding sweep
  sweep_closed [] p = R_refl p
  sweep_closed (id ∷ ids) p =
      R_trans p (sweep_one w id p) _ (sweep_one_closed id p) (sweep_closed ids (sweep_one w id p))

  close_one_closed : (id : ℕ) (r : Pool × ℕ) → R r.0 (close_one w id r).0
  unfolding close_one
  close_one_closed id (p, n) =
      if_cases (λ (r : Pool × ℕ). R p r.0) (p.object id).in_use (λ _. R_refl p) (λ f. R_drop id p f)

  close_chosen_closed : (ids : List ℕ) (r : Pool × ℕ) → R r.0 (close_chosen w ids r).0
  unfolding close_chosen
  close_chosen_closed [] r = R_refl r.0
  close_chosen_closed (id ∷ ids) r =
      R_trans r.0 (close_one w id r).0 _ (close_one_closed id r)
        (close_chosen_closed ids (close_one w id r))

  count_closed_idle_closed : (r : Pool × ℕ) → R r.0 (count_closed_idle r)
  unfolding count_closed_idle
  count_closed_idle_closed (p, n) =
      if_cases (R p) (ltb 0 n) (λ _. R_stats ((2 ^ 64 - n % 2 ^ 64) % 2 ^ 64) p) (λ _. R_refl p)

  close_excess_closed : (idle : List ℕ) (p : Pool) → R p (close_excess w idle p)
  unfolding close_excess
  close_excess_closed idle p =
      let chosen =
        choose (λ id. get_idle_time p.now (p.object id))
          (excess_of p.config.max_idle_connections (length idle)) idle in
      if_cases (R p) (leb_ℤ (pos (length idle)) p.config.max_idle_connections) (λ _. R_refl p)
        λ _.
          R_trans p (close_chosen w chosen (p, 0)).0 _ (close_chosen_closed chosen (p, 0))
            (count_closed_idle_closed (close_chosen w chosen (p, 0)))

  enforce_closed : (p : Pool) → R p (enforce_max_idle_connections w p)
  unfolding enforce_max_idle_connections
  enforce_closed p = go p.stats
    where
      go :
          (s : Option Stats)
          → R p (elim s [ none ↦ p | some t ↦ close_excess w (not_in_use p p.connections) p ])
      go none = R_refl p
      go (some t) = close_excess_closed (not_in_use p p.connections) p

  pub perform_cleanup_closed : (p : Pool) → R p (perform_cleanup w p)
  unfolding perform_cleanup
  perform_cleanup_closed p =
      R_trans p (sweep w p.connections p) _ (sweep_closed p.connections p)
        (enforce_closed (sweep w p.connections p))
