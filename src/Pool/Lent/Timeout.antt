-- ===== src/Pool/Lent/Timeout.antt =====
-- What `GetWithTimeout` returns, and that its loop ends.
use netconnpool.Prelude.{
  ℕ, zero, suc, ◌+◌, ◌<◌, ◌≡◌, refl, Option, none, some, if_cases, List, [], ◌∷◌, length, arith,
}
use netconnpool.Errors.{Error, Result, ok, err}
use netconnpool.Stats.{increment_total_get_requests}
use netconnpool.Pool.State.{Pool, World, at_limit, is_connection_valid, with_stats}
use netconnpool.Pool.Borrow.{Turn, again, stop, take_any, take_both}
use netconnpool.Pool.Get.{
  timeout_created, timeout_pick, timeout_turn, timeout_loop, get_with_timeout,
}
use netconnpool.Pool.Core.Closings.{idle-close_connection}
use netconnpool.Pool.Lent.Lends.{
  lend_idle-Lent, lend_new-Lent, Fresh, create_connection-Fresh, Ends, finish_get-Ends, GivesNil,
  OfNoKind,
}
use netconnpool.Pool.State.{has_socket}
use netconnpool.Prelude.{◌⊎◌, inl, inr, true, subst, sym, ap, ◌∙◌}
use netconnpool.Pool.Borrow.{lend_idle, lend_new}
use netconnpool.Connection.{Connection}
use netconnpool.Pool.Core.Kept.{lend_new-Keeps}

abbrev idle_count : Pool → ℕ
idle_count p = length p.idle_tcp + length p.idle_udp

-- The connection is marked as in use; and it has its socket, or is of no known kind where Dialer or
-- Acceptor answers a question with neither a socket nor an error.
pub record Handed (w : World) (p : Pool) (id : ℕ) : Type 0 where
  pub handed_in_use : (p.object id).in_use ≡ true
  pub handed_open : (has_socket (p.object id).conn ≡ true) ⊎ (GivesNil w × OfNoKind (p.object id))

lend_idle-Handed :
    (w : World) (id : ℕ) (p : Pool) → is_connection_valid p id ≡ true → Handed w (lend_idle id p) id
lend_idle-Handed w id p v =
    let l = lend_idle-Lent id p v in record { handed_in_use = l.in_use; handed_open = inl l.open_ }

lend_new-Handed : (w : World) (id : ℕ) (p : Pool) → Fresh w (p, ok id) → Handed w (lend_new id p) id
unfolding lend_new
lend_new-Handed w id p (inl o) =
    let l = lend_new-Lent id p o in record { handed_in_use = l.in_use; handed_open = inl l.open_ }
lend_new-Handed w id p (inr (g, k)) =
    let s = lend_new-Keeps id p in
    record {
      handed_in_use = ground arith;
      handed_open = inr (g, (s.same_protocol id ∙ k.0, s.same_version id ∙ k.1));
    }

-- A round returns as it should, or has taken an idle connection away.
abbrev Round : World → Pool → Turn → Type 0
Round w p (again q) = idle_count q < idle_count p
Round w p (stop q o) = Ends (Handed w) (q, o)

timeout_created-Round :
    (w : World) (p q : Pool) (r : Result ℕ) → Fresh w (q, r) → Round w p (timeout_created (q, r))
unfolding timeout_created
timeout_created-Round w p q (ok id) f = lend_new-Handed w id q f
timeout_created-Round w p q (err Error.max_connections_reached) f = tt
timeout_created-Round w p q (err e) f = tt

-- An idle connection that is taken leaves one fewer.
abbrev Shrinks : Pool → Option (ℕ × Pool) → Type 0
Shrinks p none = Unit {0}
Shrinks p (some (id, q)) = idle_count q < idle_count p

take_both-Shrinks :
    (w : World) (xs ys : List ℕ) (p : Pool)
    → p.idle_tcp ≡ xs
    → p.idle_udp ≡ ys
    → Shrinks p (take_both w xs ys p)
unfolding take_both
take_both-Shrinks w [] [] p e f = tt
take_both-Shrinks w (x ∷ xs) [] p e f = ground arith
take_both-Shrinks w [] (y ∷ ys) p e f = ground arith
take_both-Shrinks w (x ∷ xs) (y ∷ ys) p e f = ground arith

take_any-Shrinks : (w : World) (p : Pool) → Shrinks p (take_any w p)
unfolding take_any
take_any-Shrinks w p = take_both-Shrinks w p.idle_tcp p.idle_udp p refl refl

timeout_pick-Round :
    (w : World) (o : Option (ℕ × Pool)) (p : Pool) → Shrinks p o → Round w p (timeout_pick w o p)
unfolding timeout_pick
timeout_pick-Round w (some (id, q)) p s =
    if_cases (Round w p) (is_connection_valid q id) (λ v. lend_idle-Handed w id q v)
      (λ _. rw (idle-close_connection w q id).0 (rw (idle-close_connection w q id).1 s))
timeout_pick-Round w none p s =
    if_cases (Round w p) (at_limit p) (λ _. tt)
      (λ _. timeout_created-Round w p _ _ (create_connection-Fresh w p))

timeout_turn-Round : (w : World) (p : Pool) → Round w p (timeout_turn w p)
unfolding timeout_turn
timeout_turn-Round w p =
    if_cases (Round w p) p.closed (λ _. tt) (λ _. timeout_pick-Round w _ p (take_any-Shrinks w p))

-- The fuel is enough: the loop ends by itself.
pub timeout_loop-Ends :
    (w : World) (fuel : ℕ) (p : Pool)
    → idle_count p < fuel
    → Ends (Handed w) (timeout_loop w fuel p)
unfolding timeout_loop
timeout_loop-Ends w zero p h = absurd (omega arith)
timeout_loop-Ends w (suc fuel) p h =
    next (timeout_turn w p) (timeout_turn-Round w p) (timeout_loop-Ends w fuel)
  where
    next :
        (t : Turn)
        → Round w p t
        → ((q : Pool) → idle_count q < fuel → Ends (Handed w) (timeout_loop w fuel q))
        → Ends (Handed w) (elim t [ again q ↦ timeout_loop w fuel q | stop q o ↦ (q, o) ])
    next (again q) d ih = ih q (omega arith)
    next (stop q o) d ih = d

objects-Handed :
    (w : World) (p q : Pool) (id : ℕ) → q.object ≡ p.object → Handed w p id → Handed w q id
objects-Handed w p q id e h = record {
  handed_in_use = ap (λ (g : ℕ → Connection). (g id).in_use) e ∙ h.handed_in_use;
  handed_open =
      subst
        (λ (g : ℕ → Connection). (has_socket (g id).conn ≡ true) ⊎ (GivesNil w × OfNoKind (g id)))
        (sym e) h.handed_open;
}

-- `GetWithTimeout` ends, whatever is idle and whatever the callbacks answer: it returns an error,
-- goes on to wait, or returns a connection that is marked as in use and that has an open socket, or
-- is of no known kind where Dialer or Acceptor answers a question with neither a socket nor an error.
pub get_with_timeout-Ends : (w : World) (p : Pool) → Ends (Handed w) (get_with_timeout w p)
unfolding get_with_timeout
get_with_timeout-Ends w p =
    if_cases (Ends (Handed w)) p.closed (λ _. tt)
      λ _.
        finish_get-Ends (Handed w) p.now _ _ (objects-Handed w _)
          (timeout_loop-Ends w _ (with_stats increment_total_get_requests p) (omega arith))
