-- ===== src/Pool/Cleaning/Spares.antt =====
-- What a cleanup leaves alone.
use netconnpool.Prelude.{
  ==_false, ℕ, ◌≡◌, refl, ap, ◌∙◌, true, false, ◌==◌, member, member-erase_ne,
}
use netconnpool.Pool.State.{Pool, World}
use netconnpool.Pool.Cleanup.{perform_cleanup}
use netconnpool.Pool.Cleaning.Closure.{perform_cleanup_closed}
use netconnpool.Pool.Cleaning.Drop.{drop, object-drop, connections-drop}

-- A connection in use is not touched.
record Spares (j : ℕ) (p q : Pool) : Type 0 where
  same_object : (p.object j).in_use ≡ true → q.object j ≡ p.object j
  same_member : (p.object j).in_use ≡ true → member j q.connections ≡ member j p.connections

Spares-refl : (j : ℕ) (p : Pool) → Spares j p p
Spares-refl j p = record { same_object = λ _. refl; same_member = λ _. refl }

Spares-trans : {j : ℕ} {p q r : Pool} → Spares j p q → Spares j q r → Spares j p r
Spares-trans s t = record {
  same_object = λ u. t.same_object (ap (λ c. c.in_use) (s.same_object u) ∙ u) ∙ s.same_object u;
  same_member = λ u. t.same_member (ap (λ c. c.in_use) (s.same_object u) ∙ u) ∙ s.same_member u;
}

other_id :
    (p : Pool) (id j : ℕ)
    → (p.object id).in_use ≡ false
    → (p.object j).in_use ≡ true
    → (id == j) ≡ false
other_id p id j f u = ==_false id j (λ e. cc)

drop-Spares :
    (w : World) (p : Pool) (id j : ℕ) → (p.object id).in_use ≡ false → Spares j p (drop w id p)
drop-Spares w p id j f = record {
  same_object = λ u. object-drop w p id j (other_id p id j f u);
  same_member = λ u.
      ap (member j) (connections-drop w p id)
      ∙ member-erase_ne j id p.connections (other_id p id j f u);
}

-- A pass of the cleanup leaves a connection in use as it is, and in the map if it was there.
pub perform_cleanup_spares :
    (w : World) (p : Pool) (j : ℕ)
    → (p.object j).in_use ≡ true
    → ((perform_cleanup w p).object j ≡ p.object j)
      × (member j (perform_cleanup w p).connections ≡ member j p.connections)
perform_cleanup_spares w p j u =
    let s =
      perform_cleanup_closed w (Spares j) (Spares-refl j) (λ p q r. Spares-trans)
        (λ id q. drop-Spares w q id j)
        (λ n q. record { same_object = λ _. refl; same_member = λ _. refl }) p in
    (s.same_object u, s.same_member u)
