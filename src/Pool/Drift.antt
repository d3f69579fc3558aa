-- ===== src/Pool/Drift.antt =====
-- `warmUp` and the counter of the connections in use.
use netconnpool.Prelude.{
  ℕ, suc, ◌+◌, ◌%◌, ◌^◌, ◌≡◌, refl, ap, ◌∙◌, subst, sym, Option, none, some, true, false, arith,
  zero,
}
use netconnpool.Prelude.Word.{add64}
use netconnpool.Errors.{Error, Result, ok, err}
use netconnpool.Mode.{PoolMode, client, server, other}
use netconnpool.Config.{Config}
use netconnpool.Stats.{Stats}
use netconnpool.Pool.State.{Pool, World, new_pool, asks}
use netconnpool.Pool.Put.{hand_back}
use netconnpool.Pool.Create.{create_connection}
use netconnpool.Pool.WarmUp.{warm_one, warm_loop, warm_mode, warm_up}
use netconnpool.Pool.Lending.{lent}
use netconnpool.Pool.Lending.Moves.{hand_back-Hands}
use netconnpool.Pool.Lending.Puts.{Created, create_connection-Created, to_idle-Parks}
use netconnpool.Pool.Lending.Waits.{warm_up-Calm}
use netconnpool.Pool.Lending.Traces.{new_pool-Once}
use netconnpool.Pool.Active.{
  Fresh, active, active-hand_back, active-to_idle, active-warm_error, create_connection-Fresh,
  lowered, put_valid, SocketsOnly, Prompt,
}

-- There are statistics, and their counter and the number of connections ever made cancel out.
abbrev Cancels : Option ℕ → ℕ → Type 0
Cancels none n = ⊥
Cancels (some a) n = (a + n) % 2 ^ 64 ≡ 0

Cancels-lowered : (o : Option ℕ) (n : ℕ) → Cancels o n → Cancels (lowered o) (suc n)
unfolding add64
Cancels-lowered none n c = absurd c
Cancels-lowered (some a) n c = omega arith

record Drifts (config : Config) (p : Pool) : Type 0 where
  drifts_of : p.config ≡ config
  drifts_open : p.closed ≡ false
  drifts : Cancels (active p.stats) p.next_id

module _ (w : World) (config : Config) (sockets : SocketsOnly w) (prompt : Prompt w config) where
  warm_one-Drifts :
      (p q : Pool) (r : Result ℕ)
      → Drifts config p
      → Created p (q, r)
      → Fresh w p (q, r)
      → Drifts config (warm_one w (q, r))
  unfolding warm_one
  warm_one-Drifts p q (err e) d c f = record {
    drifts_of = c.same_config ∙ d.drifts_of;
    drifts_open = c.same_closed ∙ d.drifts_open;
    drifts = simp (active-warm_error q ∙ f, c.same_next_id) d.drifts;
  }
  warm_one-Drifts p q (ok id) d c f =
      let a = asks w q in
      let h = hand_back-Hands id a in
      let k = to_idle-Parks w id (hand_back id a) in
      let o = c.made_closed ∙ d.drifts_open in
      let e = put_valid w id a o f.1 in
      subst (λ (x : Pool × Option Error). Drifts config x.0) (sym e)
        (record {
          drifts_of = k.parks_config ∙ h.hands_config ∙ c.made_config ∙ d.drifts_of;
          drifts_open = k.parks_closed ∙ h.hands_closed ∙ o;
          drifts =
              simp
                (
                  active-to_idle w id (hand_back id a) ∙ active-hand_back id a ∙ ap lowered f.0,
                  k.parks_next ∙ h.hands_next ∙ c.made_next,
                )
                (Cancels-lowered (active p.stats) p.next_id d.drifts);
        })

  warm_loop-Drifts : (n : ℕ) (p : Pool) → Drifts config p → Drifts config (warm_loop w n p)
  unfolding warm_loop
  warm_loop-Drifts zero p d = d
  warm_loop-Drifts (suc n) p d =
      let c = create_connection w p in
      warm_loop-Drifts n (warm_one w c) (
        warm_one-Drifts p c.0 c.1 d (create_connection-Created w p)
          (create_connection-Fresh w sockets p (subst (Prompt w) (sym d.drifts_of) prompt)))

  warm_up-Drifts : (p : Pool) → Drifts config p → Drifts config (warm_up w p)
  unfolding warm_up warm_mode
  warm_up-Drifts p d = go p.config.mode
    where
      go : (m : PoolMode) → Drifts config (warm_mode w m p)
      go server = d
      go client = warm_loop-Drifts _ p d
      go (other n) = warm_loop-Drifts _ p d

new_pool-Drifts :
    (config : Config) (now : ℕ) → config.enable_stats ≡ true → Drifts config (new_pool config now)
new_pool-Drifts config now e = record { drifts_of = refl; drifts_open = refl; drifts = simp e refl }

stats_of_Cancels :
    (o : Option Stats) (n : ℕ)
    → Cancels (active o) n
    → (s : Stats) × (o ≡ some s) × ((s.current_active_connections + n) % 2 ^ 64 ≡ 0)
stats_of_Cancels none n c = absurd c
stats_of_Cancels (some s) n c = (s, refl, c)

-- After the warm-up of a new pool with statistics, whose Dialer answers with a socket or an error,
-- and where no question takes longer than a connection lives: CurrentActiveConnections is minus the
-- number of connections that the warm-up has made, modulo 2 ^ 64, though no connection is in use.
pub warm_up_drifts :
    (w : World) (config : Config) (now : ℕ)
    → config.enable_stats ≡ true
    → SocketsOnly w
    → Prompt w config
    → (s : Stats) × ((warm_up w (new_pool config now)).stats ≡ some s)
      × ((s.current_active_connections + (warm_up w (new_pool config now)).next_id) % 2 ^ 64 ≡ 0)
      × ((id : ℕ) → lent (warm_up w (new_pool config now)) id ≡ false)
warm_up_drifts w config now e n h =
    let p = new_pool config now in
    let d = warm_up-Drifts w config n h p (new_pool-Drifts config now e) in
    let (s, x, y) = stats_of_Cancels (warm_up w p).stats (warm_up w p).next_id d.drifts in
    (s, x, y, (warm_up-Calm w p (new_pool-Once config now)).calm_use)
