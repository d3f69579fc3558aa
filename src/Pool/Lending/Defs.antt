-- ===== src/Pool/Lending/Defs.antt =====
-- The abstract machine of lendings, and the invariant under which the pool implements it.
use netconnpool.Prelude.{
  ℕ, ◌+◌, ◌≤◌, ◌≡◌, Bool, true, false, ◌==◌, leb, if◌then◌else◌, List, [], ◌∷◌, count,
}
use netconnpool.Pool.State.{Pool}

-- Which connections are lent.
abbrev pub Lendings : Type 0
Lendings = ℕ → Bool

pub data Event : Type 0 where
  lends returns : ℕ → Event
  silent : Event

-- A connection is lent only while nobody has it, and given back only by who has it.
abbrev pub Spec : Event → Lendings → Lendings → Type 0
Spec (lends id) l m = (l id ≡ false) × ((j : ℕ) → m j ≡ (if id == j then true else l j))
Spec (returns id) l m = (l id ≡ true) × ((j : ℕ) → m j ≡ (if id == j then false else l j))
Spec silent l m = (j : ℕ) → m j ≡ l j

-- The runs of the machine, latest event first.
pub data Runs : List Event → Lendings → Type 0 where
  start : Runs [] (λ _. false)
  next : {es : List Event} {l m : Lendings} (e : Event) → Runs es l → Spec e l m → Runs (e ∷ es) m

abbrev pub lent : Pool → Lendings
lent p id = (p.object id).in_use

-- How often the idle channels hold a connection.
unfoldable pub occurrences : Pool → ℕ → ℕ
occurrences p id = count (λ x. x == id) p.idle_tcp + count (λ x. x == id) p.idle_udp

-- The holders of a connection: its borrower, and its places in the idle channels.
unfoldable pub tokens : Pool → ℕ → ℕ
tokens p id = (if (p.object id).in_use then 1 else 0) + occurrences p id

-- At most one, and none before the connection is made.
pub record Once (p : Pool) : Type 0 where
  pub one_holder : (id : ℕ) → tokens p id ≤ (if leb id p.next_id then 1 else 0)
