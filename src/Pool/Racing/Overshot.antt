-- ===== src/Pool/Racing/Overshot.antt =====
-- Creations that overlap do go over the limit.
use netconnpool.Prelude.{ℕ, zero, suc, ◌+◌, ◌≤◌, ◌<◌, ◌≡◌, refl, true, false, length, arith, member}
use netconnpool.Prelude.Int.{is_pos, pos_part}
use netconnpool.Errors.{ok}
use netconnpool.Net.Addr.{NetConn}
use netconnpool.Mode.{client}
use netconnpool.Config.{Config}
use netconnpool.Pool.State.{Pool, World, asks, new_pool}
use netconnpool.Pool.Create.{dialed, created}
use netconnpool.Pool.Core.Registered.{register-connections, register-fields}
use netconnpool.Pool.Racing.{Racing, begins, ends, Races, start, next, may_create, permits}
use netconnpool.Prelude.{◌-◌}
use netconnpool.Prelude.{◌∙◌}
use netconnpool.Pool.Core.Registered.{registered}
use netconnpool.Prelude.{ap}
use netconnpool.Prelude.{◌∷◌}
use netconnpool.Prelude.Int.{ℤ}
use netconnpool.Prelude.{member_beyond}
use netconnpool.Prelude.{some}

no_connections :
    (config : Config) (id : ℕ) → member id (new_pool config 0).connections ≡ true → id ≤ 0
unfolding member
no_connections config id h = cc

is_pos_lt : (z : ℤ) → is_pos z ≡ true → 0 < pos_part z
is_pos_lt z h = ground arith

module _ (w : World) (socket : ℕ → NetConn)
    (answers : (n : ℕ) → w.dial n ≡ ok (some (socket n))) where
  module _ (config : Config) (is_client : config.mode ≡ client) (has_dialer : config.dialer ≡ true)
      (no_hook : config.on_created ≡ false) where
    -- A pool of the configuration that can create connections up to the limit.
    record Ready (p : Pool) : Type 0 where
      ready_config : p.config ≡ config
      ready_open : p.closed ≡ false
      ready_ids : (id : ℕ) → member id p.connections ≡ true → id ≤ p.next_id

    abbrev dials : Pool → Pool
    dials p = (dialed w (w.dial p.asked) (asks w p)).0

    abbrev at_rest : Pool → ℕ → Racing
    at_rest p n = record { pool = p; dialing = n }

    dials_registers :
        (p : Pool) → Ready p → dials p ≡ registered w (some (socket p.asked)) (asks w p)
    unfolding dialed created
    dials_registers p r =
        let h = ap (λ (c : Config). c.on_created) r.ready_config ∙ no_hook in
        ap (λ o. (dialed w o (asks w p)).0) (answers p.asked) ∙ simp h

    ids_register :
        (p : Pool)
        → Ready p
        → (id : ℕ) → member id (suc p.next_id ∷ p.connections) ≡ true
        → id ≤ suc p.next_id
    unfolding member
    ids_register p r id m = ground (arith, r.ready_ids id)

    dials-Ready :
        (p : Pool)
        → Ready p
        → Ready (dials p) × (length (dials p).connections ≡ suc (length p.connections))
    dials-Ready p r =
        let f = register-fields w (some (socket p.asked)) (asks w p) in
        let c =
          register-connections w (some (socket p.asked)) (asks w p)
            (member_beyond p.next_id p.connections r.ready_ids) in
        rw (dials_registers p r) (
          record {
            ready_config = f.0 ∙ r.ready_config;
            ready_open = f.2 ∙ r.ready_open;
            ready_ids = rw (c, f.1) (ids_register p r);
          },
          ap length c,
        )

    may_create_below :
        (p : Pool)
        → Ready p
        → length p.connections < pos_part config.max_connections
        → may_create p ≡ true
    may_create_below p r l =
        let c = r.ready_config in
        let o = r.ready_open in ground (arith, c, o, is_client, has_dialer)

    -- One creation after the other.
    fill :
        (n : ℕ)
        → n < pos_part config.max_connections
        → (p : Pool) × Races w config (at_rest p 0) × Ready p × (length p.connections ≡ n)
    fill zero l = (
      new_pool config 0,
      start 0,
      record { ready_config = refl; ready_open = refl; ready_ids = no_connections config },
      refl,
    )
    fill (suc n) l =
        let (p, t, r, e) = fill n (omega arith) in
        let (r', e') = dials-Ready p r in
        (
          dials p,
          next (next t (begins _ (omega arith) (may_create_below p r (omega arith)))) (ends p 0),
          r',
          omega arith,
        )

    begin_all :
        (p : Pool)
        → may_create p ≡ true
        → Races w config (at_rest p 0)
        → (n : ℕ) → n ≤ permits
        → Races w config (at_rest p n)
    begin_all p m t zero l = t
    begin_all p m t (suc n) l = next (begin_all p m t n (omega arith)) (begins _ (omega arith) m)

    end_all :
        (n : ℕ) (p : Pool)
        → Ready p
        → Races w config (at_rest p n)
        → (q : Pool) × Races w config (at_rest q 0)
          × (length q.connections ≡ length p.connections + n)
    end_all zero p r t = (p, t, omega arith)
    end_all (suc n) p r t =
        let (r', e) = dials-Ready p r in
        let (q, u, e') = end_all n (dials p) r' (next t (ends p n)) in (q, u, omega arith)

-- A limit on the connections of a client, whose dialer answers every call with a socket, is
-- overshot: the pool comes to a state with four connections more than MaxConnections.
pub Races_overshoot :
    (w : World) (config : Config) (socket : ℕ → NetConn)
    → ((n : ℕ) → w.dial n ≡ ok (some (socket n)))
    → config.mode ≡ client
    → config.dialer ≡ true
    → config.on_created ≡ false
    → is_pos config.max_connections ≡ true
    → (p : Pool) × Races w config (record { pool = p; dialing = 0 })
      × (length p.connections ≡ pos_part config.max_connections + 4)
Races_overshoot w config socket answers c d h l =
    let k = pos_part config.max_connections - 1 in
    let (p, t, r, e) =
      fill w socket answers config c d h k (omega (arith, is_pos_lt config.max_connections l)) in
    let m =
      may_create_below w socket answers config c d h p r
        (omega (arith, e, is_pos_lt config.max_connections l)) in
    let u = begin_all w socket answers config c d h p m t permits (omega arith) in
    let (q, v, e') = end_all w socket answers config c d h permits p r u in
    (q, v, omega (arith, is_pos_lt config.max_connections l))
