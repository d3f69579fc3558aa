-- ===== src/Pool/Cleaning/Limit.antt =====
-- How many idle connections `enforceMaxIdleConnections` leaves.
use netconnpool.Prelude.{
  ℕ, ◌+◌, ◌≤◌, ◌<◌, ◌≡◌, refl, ap, ◌∙◌, sym, none, some, true, false, not, ◌==◌, if◌then◌else◌, leb,
  ltb, List, [], ◌∷◌, length, member, erase, Distinct, arith, Bool-cases, inl, inr, if_cases,
  ==_refl, eq_of_==, true_is_false, count, count_congr, count-erase, member-erase_self,
  member-erase_ne, erase-Distinct,
}
use netconnpool.Prelude.Int.{ℤ, negsuc, neg_part, pos, pos_part, leb_ℤ, ◌≤ℤ◌}
use netconnpool.Connection.{get_idle_time}
use netconnpool.Stats.{Stats}
use netconnpool.Pool.State.{Pool, World}
use netconnpool.Pool.Cleanup.{
  not_in_use, choose, excess_of, close_one, close_chosen, count_closed_idle, close_excess,
  enforce_max_idle_connections,
}
use netconnpool.Pool.Cleaning.Drop.{drop, object-drop, connections-drop}
use netconnpool.Pool.Cleaning.Chosen.{
  member_of_member-choose, choose-Distinct, length-choose, member-not_in_use, not_in_use-Distinct,
  length-not_in_use,
}
use netconnpool.Prelude.{subst}

-- The connections in the map that are not in use.
abbrev pub free : Pool → ℕ
free p = count (λ id. not (p.object id).in_use) p.connections

-- `ids` are distinct connections in the map, none of them in use.
record Closable (p : Pool) (ids : List ℕ) : Type 0 where
  map_distinct : Distinct p.connections
  distinct : Distinct ids
  idle : (x : ℕ) → member x ids ≡ true → (p.object x).in_use ≡ false
  listed : (x : ℕ) → member x ids ≡ true → member x p.connections ≡ true

module _ (w : World) where
  free-drop :
      (p : Pool) (id : ℕ)
      → Distinct p.connections
      → (p.object id).in_use ≡ false
      → member id p.connections ≡ true
      → free p ≡ 1 + free (drop w id p)
  free-drop p id d f m =
      count-erase (λ j. not (p.object j).in_use) id p.connections m
      ∙ ap
          (λ b.
            (if not b then 1 else 0)
            + count (λ j. not (p.object j).in_use) (erase id p.connections))
          f
      ∙ ap (λ n. 1 + n) (sym same)
    where
      other : (j : ℕ) → member j (erase id p.connections) ≡ true → (id == j) ≡ false
      other j n = elim (Bool-cases (id == j)) [
        | inl e ↦ true_is_false (
            sym n
            ∙ ap (λ x. member x (erase id p.connections)) (sym (eq_of_== id j e))
            ∙ member-erase_self id p.connections d)
        | inr e ↦ e
      ]

      same : free (drop w id p) ≡ count (λ j. not (p.object j).in_use) (erase id p.connections)
      same =
          ap (count (λ j. not ((drop w id p).object j).in_use)) (connections-drop w p id)
          ∙ count_congr _ _ (erase id p.connections)
              (λ j n. ap (λ c. not c.in_use) (object-drop w p id j (other j n)))

  close_one_lem :
      (id : ℕ) (r : Pool × ℕ)
      → (r.0.object id).in_use ≡ false
      → (close_one w id r).0 ≡ drop w id r.0
  unfolding close_one
  close_one_lem id (p, n) f =
      if_cases (λ (q : Pool × ℕ). q.0 ≡ drop w id p) (p.object id).in_use
        (λ u. true_is_false (sym u ∙ f)) (λ _. refl)

  drop-Closable :
      (p : Pool) (id : ℕ) (ids : List ℕ) → Closable p (id ∷ ids) → Closable (drop w id p) ids
  unfolding member
  drop-Closable p id ids c = record {
    map_distinct = rw (connections-drop w p id) (erase-Distinct id p.connections c.map_distinct);
    distinct = c.distinct.1;
    idle = λ x m. ap (λ k. k.in_use) (object-drop w p id x (other x m)) ∙ c.idle x (ground arith);
    listed = λ x m.
        ap (member x) (connections-drop w p id)
        ∙ member-erase_ne x id p.connections (other x m)
        ∙ c.listed x (ground arith);
  }
    where
      other : (x : ℕ) → member x ids ≡ true → (id == x) ≡ false
      other x m = elim (Bool-cases (id == x)) [
        | inl e ↦
            true_is_false (sym m ∙ ap (λ y. member y ids) (sym (eq_of_== id x e)) ∙ c.distinct.0)
        | inr e ↦ e
      ]

  free-close_chosen :
      (ids : List ℕ) (r : Pool × ℕ)
      → Closable r.0 ids
      → free r.0 ≡ length ids + free (close_chosen w ids r).0
  unfolding close_chosen member
  free-close_chosen [] r c = omega arith
  free-close_chosen (id ∷ ids) r c =
      let f = c.idle id (ground (arith, ==_refl id)) in
      let e = close_one_lem id r f in
      let k = free-drop r.0 id c.map_distinct f (c.listed id (ground (arith, ==_refl id))) in
      let l =
        free-close_chosen ids (close_one w id r)
          (subst (λ q. Closable q ids) (sym e) (drop-Closable r.0 id ids c)) in
      omega (arith, k, l, ap free e)

  free-count_closed_idle : (r : Pool × ℕ) → free (count_closed_idle r) ≡ free r.0
  unfolding count_closed_idle
  free-count_closed_idle (p, n) =
      if_cases (λ (q : Pool). free q ≡ free p) (ltb 0 n) (λ _. refl) (λ _. refl)

neg_part_lem : (m : ℤ) → pos 0 ≤ℤ m → neg_part m ≡ 0
neg_part_lem (pos n) h = refl
neg_part_lem (negsuc n) h = absurd (omega (arith, h))

excess_lem :
    (m : ℤ) (n : ℕ)
    → pos 0 ≤ℤ m
    → leb_ℤ (pos n) m ≡ false
    → (excess_of m n ≤ n) × (pos_part m + excess_of m n ≡ n) × (pos_part m < n)
excess_lem m n h e =
    let z = neg_part_lem m h in (ground (arith, z), ground (arith, z), ground (arith, z))

within_lem : (m : ℤ) (n : ℕ) → pos 0 ≤ℤ m → leb_ℤ (pos n) m ≡ true → n ≤ pos_part m
within_lem m n h e = let z = neg_part_lem m h in ground (arith, z)

-- The smaller of the two.
abbrev pub smaller : ℕ → ℕ → ℕ
smaller a b = if leb a b then a else b

module _ (w : World) (p : Pool) (d : Distinct p.connections)
    (h : pos 0 ≤ℤ p.config.max_idle_connections) where
  abbrev idle_ids : List ℕ
  idle_ids = not_in_use p p.connections

  chosen_Closable : (f : ℕ → ℕ) (n : ℕ) → Closable p (choose f n idle_ids)
  chosen_Closable f n = record {
    map_distinct = d;
    distinct = choose-Distinct f n idle_ids (not_in_use-Distinct p p.connections d);
    idle =
        λ x m. (member-not_in_use p x p.connections (member_of_member-choose f x n idle_ids m)).0;
    listed =
        λ x m. (member-not_in_use p x p.connections (member_of_member-choose f x n idle_ids m)).1;
  }

  free-close_excess :
      free (close_excess w idle_ids p) ≡ smaller (free p) (pos_part p.config.max_idle_connections)
  unfolding close_excess
  free-close_excess =
      let m = p.config.max_idle_connections in
      let f = λ (id : ℕ). get_idle_time p.now (p.object id) in
      let n = excess_of m (length idle_ids) in
      let e = length-not_in_use p p.connections in
      if_cases (λ (q : Pool). free q ≡ smaller (free p) (pos_part m))
        (leb_ℤ (pos (length idle_ids)) m)
        (λ t. ground (arith, within_lem m (length idle_ids) h t, e))
        λ t.
          let (b, k, l) = excess_lem m (length idle_ids) h t in
          free-count_closed_idle w (close_chosen w (choose f n idle_ids) (p, 0))
          ∙ ground (
            arith,
            e,
            b,
            k,
            l,
            free-close_chosen w (choose f n idle_ids) (p, 0) (chosen_Closable f n),
            length-choose f n idle_ids b,
          )

-- After `enforceMaxIdleConnections`, with statistics, a map of distinct IDs and a MaxIdleConnections
-- that is not negative, as many connections of the map are not in use as before, but at most
-- MaxIdleConnections.
pub free-enforce_max_idle_connections :
    (w : World) (p : Pool) (s : Stats)
    → p.stats ≡ some s
    → Distinct p.connections
    → pos 0 ≤ℤ p.config.max_idle_connections
    → free (enforce_max_idle_connections w p)
      ≡ smaller (free p) (pos_part p.config.max_idle_connections)
unfolding enforce_max_idle_connections
free-enforce_max_idle_connections w p s e d h =
    ap (λ o. free (elim o [ none ↦ p | some t ↦ close_excess w (not_in_use p p.connections) p ])) e
    ∙ free-close_excess w p d h
