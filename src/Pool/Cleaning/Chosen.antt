-- ===== src/Pool/Cleaning/Chosen.antt =====
-- Which connections `enforceMaxIdleConnections` chooses to close.
use netconnpool.Prelude.{
  ℕ, zero, suc, ◌≤◌, ◌≡◌, refl, ap, ◌∙◌, sym, true, false, ◌==◌, if◌then◌else◌, not, List, [], ◌∷◌,
  length, ltb, member, erase, Distinct, arith, Bool-cases, inl, inr, ==_refl, eq_of_==, if_cases,
  true_is_false, member_of_member-erase, member-erase_self, erase-Distinct, length-erase, count,
}
use netconnpool.Pool.State.{Pool}
use netconnpool.Pool.Cleanup.{not_in_use, longest_idle, choose}
use netconnpool.Prelude.{subst}

-- The choice is one of the connections.
member-longest_idle :
    (f : ℕ → ℕ) (best : ℕ) (ids : List ℕ) → member (longest_idle f best ids) (best ∷ ids) ≡ true
unfolding longest_idle member
member-longest_idle f best [] = ground (arith, ==_refl best)
member-longest_idle f best (id ∷ ids) =
    ground (
      arith,
      ==_refl best,
      ==_refl id,
      member-longest_idle f best ids,
      member-longest_idle f id ids,
    )

longest_idle-bound : (f : ℕ → ℕ) (best : ℕ) (ids : List ℕ) → f best ≤ f (longest_idle f best ids)
unfolding longest_idle
longest_idle-bound f best [] = omega arith
longest_idle-bound f best (id ∷ ids) =
    ground (arith, longest_idle-bound f best ids, longest_idle-bound f id ids)

longest_idle-least :
    (f : ℕ → ℕ) (best : ℕ) (ids : List ℕ) (x : ℕ)
    → member x (best ∷ ids) ≡ true
    → f x ≤ f (longest_idle f best ids)
unfolding longest_idle member
longest_idle-least f best [] x m =
    subst (λ y. f y ≤ f best) (eq_of_== best x (ground arith)) (omega arith)
longest_idle-least f best (id ∷ ids) x m = elim (Bool-cases (best == x)) [
  | inl e ↦
      subst (λ y. f y ≤ f (longest_idle f best (id ∷ ids))) (eq_of_== best x e)
        (longest_idle-bound f best (id ∷ ids))
  | inr e ↦ elim (Bool-cases (id == x)) [
    | inl i ↦
        subst (λ y. f y ≤ f (longest_idle f best (id ∷ ids))) (eq_of_== id x i)
          (ground (arith, longest_idle-bound f best ids, longest_idle-bound f id ids))
    | inr i ↦ longest_idle-least f (if ltb (f best) (f id) then id else best) ids x (ground arith)
  ]
]

-- The connection that a round of the loop of `enforceMaxIdleConnections` moves to `toClose` is one
-- of those left, and none of them has been idle for longer.
pub longest_idle-max :
    (f : ℕ → ℕ) (best : ℕ) (ids : List ℕ)
    → (member (longest_idle f best ids) (best ∷ ids) ≡ true)
      × ((x : ℕ) → member x (best ∷ ids) ≡ true → f x ≤ f (longest_idle f best ids))
longest_idle-max f best ids = (member-longest_idle f best ids, longest_idle-least f best ids)

module _ (f : ℕ → ℕ) where
  pub member_of_member-choose :
      (x n : ℕ) (ids : List ℕ) → member x (choose f n ids) ≡ true → member x ids ≡ true
  unfolding choose member
  member_of_member-choose x zero ids m = true_is_false (sym m)
  member_of_member-choose x (suc n) [] m = m
  member_of_member-choose x (suc n) (id ∷ ids) m =
      let best = longest_idle f id ids in
      elim (Bool-cases (best == x)) [
        | inl e ↦
            ap (λ y. member y (id ∷ ids)) (sym (eq_of_== best x e)) ∙ member-longest_idle f id ids
        | inr e ↦
            member_of_member-erase x best (id ∷ ids)
              (member_of_member-choose x n (erase best (id ∷ ids)) (ground arith))
      ]

  pub choose-Distinct : (n : ℕ) (ids : List ℕ) → Distinct ids → Distinct (choose f n ids)
  unfolding choose
  choose-Distinct zero ids d = tt
  choose-Distinct (suc n) [] d = tt
  choose-Distinct (suc n) (id ∷ ids) d =
      let best = longest_idle f id ids in
      let rest = erase best (id ∷ ids) in
      (
        elim (Bool-cases (member best (choose f n rest))) [
          | inl m ↦
              true_is_false
                (sym (member_of_member-choose best n rest m) ∙ member-erase_self best (id ∷ ids) d)
          | inr m ↦ m
        ],
        choose-Distinct n rest (erase-Distinct best (id ∷ ids) d),
      )

  pub length-choose : (n : ℕ) (ids : List ℕ) → n ≤ length ids → length (choose f n ids) ≡ n
  unfolding choose
  length-choose zero ids h = refl
  length-choose (suc n) [] h = omega (arith, h)
  length-choose (suc n) (id ∷ ids) h =
      let best = longest_idle f id ids in
      let e = length-erase best (id ∷ ids) (member-longest_idle f id ids) in
      ap suc (length-choose n (erase best (id ∷ ids)) (omega (arith, h, e)))

-- The connections that are not in use.
pub member-not_in_use :
    (p : Pool) (x : ℕ) (ids : List ℕ)
    → member x (not_in_use p ids) ≡ true
    → ((p.object x).in_use ≡ false) × (member x ids ≡ true)
unfolding not_in_use member
member-not_in_use p x [] m = true_is_false (sym m)
member-not_in_use p x (id ∷ ids) m = elim (Bool-cases (p.object id).in_use) [
  | inl u ↦ (ground (arith, member-not_in_use p x ids), ground (arith, member-not_in_use p x ids))
  | inr f ↦ elim (Bool-cases (id == x)) [
    | inl e ↦ (ap (λ i. (p.object i).in_use) (sym (eq_of_== id x e)) ∙ f, ground arith)
    | inr e ↦ (ground (arith, member-not_in_use p x ids), ground (arith, member-not_in_use p x ids))
  ]
]

pub not_in_use-Distinct : (p : Pool) (ids : List ℕ) → Distinct ids → Distinct (not_in_use p ids)
unfolding not_in_use
not_in_use-Distinct p [] d = tt
not_in_use-Distinct p (id ∷ ids) d =
    if_cases Distinct (p.object id).in_use (λ _. not_in_use-Distinct p ids d.1)
      λ _. (
        elim (Bool-cases (member id (not_in_use p ids))) [
          | inl m ↦ true_is_false (sym (member-not_in_use p id ids m).1 ∙ d.0)
          | inr m ↦ m
        ],
        not_in_use-Distinct p ids d.1,
      )

pub length-not_in_use :
    (p : Pool) (ids : List ℕ)
    → length (not_in_use p ids) ≡ count (λ id. not (p.object id).in_use) ids
unfolding not_in_use count
length-not_in_use p [] = refl
length-not_in_use p (id ∷ ids) = ground (arith, length-not_in_use p ids)
