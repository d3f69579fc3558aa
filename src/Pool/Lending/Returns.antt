-- ===== src/Pool/Lending/Returns.antt =====
-- What a `Put` of a held connection does to the holders, and how calls follow each other.
use netconnpool.Prelude.{
  ℕ, ◌≡◌, refl, sym, ap, ◌∙◌, some, Bool, true, false, not, ◌&&◌, ◌==◌, if◌then◌else◌, arith,
  Bool-cases, inl, inr, ==_refl, eq_of_==,
}
use netconnpool.Pool.State.{Pool, World, is_connection_valid}
use netconnpool.Pool.Put.{put, hand_back}
use netconnpool.Pool.Lending.Defs.{occurrences, tokens, Once, lent, lends, Spec}
use netconnpool.Pool.Lending.Steady.{Steady, close_connection-Steady}
use netconnpool.Pool.Lending.Moves.{Hands, hand_back-Hands, Taken, Steady-Once}
use netconnpool.Pool.Lending.Puts.{Makes, Held, Parks, to_idle-Parks}

-- Nobody is lent a connection, or gives one back.
pub record Calm (p q : Pool) : Type 0 where
  pub calm_once : Once q
  pub calm_use : (j : ℕ) → lent q j ≡ lent p j

pub Calm-refl : (p : Pool) → Once p → Calm p p
Calm-refl p o = record { calm_once = o; calm_use = λ j. refl }

pub Calm-trans : {p q r : Pool} → Calm p q → Calm q r → Calm p r
Calm-trans s t = record { calm_once = t.calm_once; calm_use = λ j. t.calm_use j ∙ s.calm_use j }

pub Steady-Calm : {p q : Pool} → Once p → Steady p q → Calm p q
Steady-Calm o s = record { calm_once = Steady-Once s o; calm_use = s.same_use }

abbrev pub put_ok : Pool → ℕ → Bool
put_ok p id = not p.closed && is_connection_valid p id

pub record PutBack (id : ℕ) (p q : Pool) : Type 0 where
  pub put_once : Once q
  pub put_use : (j : ℕ) → lent q j ≡ (if put_ok p id && (id == j) then false else lent p j)

Steady-PutBack : (id : ℕ) {p q : Pool} → put_ok p id ≡ false → Once p → Steady p q → PutBack id p q
Steady-PutBack id f o s = record {
  put_once = Steady-Once s o;
  put_use = λ j. simp f (s.same_use j);
}

parked-Once : (id : ℕ) {p q r : Pool} → Held id p → Hands id false p q → Parks id q r → Once r
unfolding tokens
parked-Once id {p} h a b = record {
  one_holder = λ j. elim (Bool-cases (id == j)) [
    | inl e ↦
        let f = eq_of_== id j e in
        ground (
          arith,
          f,
          b.parks_next,
          a.hands_next,
          b.parks_occurrences j,
          a.hands_occurrences j,
          b.parks_use j,
          a.hands_use j,
          sym (ap (occurrences p) f) ∙ h.held_alone,
        )
    | inr e ↦ ground (
      arith,
      e,
      b.parks_next,
      a.hands_next,
      b.parks_occurrences j,
      a.hands_occurrences j,
      b.parks_use j,
      a.hands_use j,
      h.held_once.one_holder j,
    )
  ];
}

parked-PutBack :
    (id : ℕ) {p q r : Pool}
    → put_ok p id ≡ true
    → Held id p
    → Hands id false p q
    → Parks id q r
    → PutBack id p r
parked-PutBack id v h a b = record {
  put_once = parked-Once id h a b;
  put_use = λ j. simp v (b.parks_use j ∙ a.hands_use j);
}

pub put-PutBack : (w : World) (p : Pool) (id : ℕ) → Held id p → PutBack id p (put w p (some id)).0
unfolding put
put-PutBack w p id h = elim (Bool-cases p.closed) [
  | inl c ↦ simp c (Steady-PutBack id (ground arith) h.held_once (close_connection-Steady w p id))
  | inr c ↦ elim (Bool-cases (is_connection_valid p id)) [
    | inl v ↦
        simp (c, v)
          (parked-PutBack id (ground arith) h (hand_back-Hands id p)
            (to_idle-Parks w id (hand_back id p)))
    | inr v ↦
        simp (c, v) (Steady-PutBack id (ground arith) h.held_once (close_connection-Steady w p id))
  ]
]

pub Taken-Held : {p q : Pool} (id : ℕ) → Once p → Taken id p q → Held id q
unfolding tokens
Taken-Held id o t = record {
  held_once = record {
    one_holder = λ j. ground (arith, o.one_holder j, t.taken_token j, t.taken_use j, t.taken_next);
  };
  held_alone = ground (arith, o.one_holder id, t.taken_token id, ==_refl id);
  held_old = ground (arith, o.one_holder id, t.taken_token id, t.taken_next, ==_refl id);
}

pub Taken-free : {p q : Pool} (id : ℕ) → Once p → Taken id p q → lent p id ≡ false
unfolding tokens
Taken-free id o t = ground (arith, o.one_holder id, t.taken_token id, t.taken_use id, ==_refl id)

pub Makes-Held : {p q : Pool} (id : ℕ) → Once p → Makes id p q → Held id q
unfolding tokens
Makes-Held id o t = record {
  held_once = record {
    one_holder =
        λ j. ground (arith, o.one_holder j, t.made_occurrences j, t.made_use j, t.made_next);
  };
  held_alone = ground (arith, o.one_holder id, t.made_occurrences id, t.made_id);
  held_old = ground (arith, t.made_id, t.made_next);
}

pub made_free : {p q : Pool} (id : ℕ) → Once p → Makes id p q → lent p id ≡ false
unfolding tokens
made_free id o t = ground (arith, o.one_holder id, t.made_id)

-- A connection that nobody else has is lent.
Hands-Once : {p q : Pool} (id : ℕ) → Held id p → Hands id true p q → Once q
unfolding tokens
Hands-Once {p} id h a = record {
  one_holder = λ j. elim (Bool-cases (id == j)) [
    | inl e ↦
        let f = eq_of_== id j e in
        ground (
          arith,
          f,
          a.hands_next,
          a.hands_occurrences j,
          a.hands_use j,
          sym (ap (occurrences p) f) ∙ h.held_alone,
        )
    | inr e ↦
        ground
          (arith, e, a.hands_next, a.hands_occurrences j, a.hands_use j, h.held_once.one_holder j)
  ];
}

pub take_lends :
    {p q r : Pool} (id : ℕ)
    → Once p
    → Taken id p q
    → Hands id true q r
    → Once r × Spec (lends id) (lent p) (lent r)
take_lends id o t a =
    let h = Taken-Held id o t in
    (
      Hands-Once id h a,
      (
        Taken-free id o t,
        λ j. a.hands_use j ∙ ap (λ b. if id == j then true else b) (t.taken_use j),
      ),
    )

pub make_lends :
    {p q r : Pool} (id : ℕ)
    → Once p
    → Makes id p q
    → Hands id true q r
    → Once r × Spec (lends id) (lent p) (lent r)
make_lends id o t a =
    let h = Makes-Held id o t in
    (Hands-Once id h a, (made_free id o t, λ j. ground (arith, a.hands_use j, t.made_use j)))

-- The event that a call of a `Get` is.
