-- ===== src/Pool/Stays.antt =====
-- What the warm-up leaves alone: the configuration and the flag.
use netconnpool.Prelude.{ℕ, zero, suc, ◌≡◌, refl, ◌∙◌, Option, some, not, if_cases}
use netconnpool.Errors.{Error, Result, ok, err}
use netconnpool.Mode.{PoolMode, client, server, other}
use netconnpool.Pool.State.{Pool, World, is_connection_valid}
use netconnpool.Pool.Create.{create_connection}
use netconnpool.Pool.Put.{put, hand_back}
use netconnpool.Pool.WarmUp.{warm_one, warm_loop, warm_mode, warm_up}
use netconnpool.Pool.Lending.Steady.{Steady, close_connection-Steady}
use netconnpool.Pool.Lending.Moves.{hand_back-Hands}
use netconnpool.Pool.Lending.Puts.{Created, create_connection-Created, to_idle-Parks}
use netconnpool.Pool.State.{asks}

-- The configuration and the flag stay.
pub record Stays (p q : Pool) : Type 0 where
  pub stays_config : q.config ≡ p.config
  pub stays_closed : q.closed ≡ p.closed

Stays-trans : {p q r : Pool} → Stays p q → Stays q r → Stays p r
Stays-trans s t = record {
  stays_config = t.stays_config ∙ s.stays_config;
  stays_closed = t.stays_closed ∙ s.stays_closed;
}

Steady-Stays : {p q : Pool} → Steady p q → Stays p q
Steady-Stays s = record { stays_config = s.same_config; stays_closed = s.same_closed }

asks-Stays : (w : World) (p : Pool) → Stays p (asks w p)
asks-Stays w p = record { stays_config = refl; stays_closed = refl }

put-Stays : (w : World) (p : Pool) (id : ℕ) → Stays p (put w p (some id)).0
unfolding put
put-Stays w p id =
    if_cases (λ (r : Pool × Option Error). Stays p r.0) p.closed
      (λ _. Steady-Stays (close_connection-Steady w p id))
      λ _.
        if_cases (λ (r : Pool × Option Error). Stays p r.0) (not (is_connection_valid p id))
          (λ _. Steady-Stays (close_connection-Steady w p id))
          λ _.
            let a = hand_back-Hands id p in
            let b = to_idle-Parks w id (hand_back id p) in
            record {
              stays_config = b.parks_config ∙ a.hands_config;
              stays_closed = b.parks_closed ∙ a.hands_closed;
            }

Created-Stays : {p q : Pool} (r : Result ℕ) → Created p (q, r) → Stays p q
Created-Stays (err e) c = Steady-Stays c
Created-Stays (ok id) c = record { stays_config = c.made_config; stays_closed = c.made_closed }

module _ (w : World) where
  warm_one-Stays : (q : Pool) (r : Result ℕ) → Stays q (warm_one w (q, r))
  unfolding warm_one
  warm_one-Stays q (err e) = record { stays_config = refl; stays_closed = refl }
  warm_one-Stays q (ok id) = Stays-trans (asks-Stays w q) (put-Stays w (asks w q) id)

  warm_loop-Stays : (n : ℕ) (p : Pool) → Stays p (warm_loop w n p)
  unfolding warm_loop
  warm_loop-Stays zero p = record { stays_config = refl; stays_closed = refl }
  warm_loop-Stays (suc n) p =
      let c = create_connection w p in
      Stays-trans (Created-Stays c.1 (create_connection-Created w p))
        (Stays-trans (warm_one-Stays c.0 c.1) (warm_loop-Stays n (warm_one w c)))

  pub warm_up-Stays : (p : Pool) → Stays p (warm_up w p)
  unfolding warm_up warm_mode
  warm_up-Stays p = go p.config.mode
    where
      go : (m : PoolMode) → Stays p (warm_mode w m p)
      go server = record { stays_config = refl; stays_closed = refl }
      go client = warm_loop-Stays _ p
      go (other n) = warm_loop-Stays _ p
