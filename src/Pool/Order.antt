-- ===== src/Pool/Order.antt =====
-- The order in which a notification serves the waiters of a queue.
use netconnpool.Prelude.{
  ℕ, ◌≡◌, refl, ap, ◌∙◌, some, Bool, true, false, ◌⊎◌, inl, inr, List, [], ◌∷◌, ◌++◌, Bool-cases,
}
use netconnpool.Pool.State.{WaitChan, update_at, Pool, Queue, any, v4, v6, tcp, udp}
use netconnpool.Pool.Notify.{offer, can_send, notify_specific_wait_queue}

-- None of the channels can be sent to.
abbrev pub Refusing : (ℕ → WaitChan) → List ℕ → Type 0
Refusing chan [] = Unit
Refusing chan (ch ∷ rest) = (can_send (chan ch) ≡ false) × Refusing chan rest

-- The first channel of the queue that can be sent to, with those before and after it.
pub record Chosen (chan : ℕ → WaitChan) (ids : List ℕ) : Type 0 where
  pub before : List ℕ
  pub ch : ℕ
  pub rest : List ℕ
  pub split : ids ≡ before ++ ch ∷ rest
  pub refused : Refusing chan before
  pub taken : can_send (chan ch) ≡ true

abbrev Served : (ℕ → WaitChan) → ℕ → List ℕ → Type 0
Served chan id ids =
    (c : Chosen chan ids) × (offer chan id ids
      ≡ (c.rest, update_at chan c.ch (record { buffer = some id; is_closed = false }), true))

offer_cons :
    (chan : ℕ → WaitChan) (id ch : ℕ) (rest : List ℕ) (b : Bool)
    → can_send (chan ch) ≡ b
    → offer chan id (ch ∷ rest) ≡ elim b [
      | true ↦ (rest, update_at chan ch (record { buffer = some id; is_closed = false }), true)
      | false ↦ offer chan id rest
    ]
unfolding offer
offer_cons chan id ch rest b e =
    ap
      (λ (b : Bool). elim b as (λ _. List ℕ × (ℕ → WaitChan) × Bool) [
        | true ↦ (rest, update_at chan ch (record { buffer = some id; is_closed = false }), true)
        | false ↦ offer chan id rest
      ])
      e

offer-Served :
    (chan : ℕ → WaitChan) (id : ℕ) (ids : List ℕ)
    → Served chan id ids ⊎ (Refusing chan ids × (offer chan id ids ≡ ([], chan, false)))
unfolding offer
offer-Served chan id [] = inr (tt, refl)
offer-Served chan id (c ∷ rest) = elim (Bool-cases (can_send (chan c))) [
  | inl e ↦ inl (
    record { before = []; ch = c; rest = rest; split = refl; refused = tt; taken = e },
    offer_cons chan id c rest true e,
  )
  | inr e ↦ elim (offer-Served chan id rest) [
    | inl (d, h) ↦ inl (
      record {
        before = c ∷ d.before;
        ch = d.ch;
        rest = d.rest;
        split = ap (λ xs. c ∷ xs) d.split;
        refused = (e, d.refused);
        taken = d.taken;
      },
      offer_cons chan id c rest false e ∙ h,
    )
    | inr (n, h) ↦ inr ((e, n), offer_cons chan id c rest false e ∙ h)
  ]
]

queue_self :
    (q : Queue) (id : ℕ) (p : Pool)
    → (notify_specific_wait_queue q id p).0.queue q ≡ (offer p.chan id (p.queue q)).0
unfolding notify_specific_wait_queue
queue_self any id p = refl
queue_self v4 id p = refl
queue_self v6 id p = refl
queue_self tcp id p = refl
queue_self udp id p = refl

-- A notification gives the connection to the first waiter of the queue whose channel can be sent to,
-- takes that one and those before it out of the queue, and leaves the others in their order; if there
-- is none, it empties the queue, changes no channel and says so.
pub notify_first :
    (q : Queue) (id : ℕ) (p : Pool)
    → ((c : Chosen p.chan (p.queue q)) × ((notify_specific_wait_queue q id p).1 ≡ true)
        × ((notify_specific_wait_queue q id p).0.queue q ≡ c.rest)
        × ((notify_specific_wait_queue q id p).0.chan
            ≡ update_at p.chan c.ch (record { buffer = some id; is_closed = false })))
      ⊎ (Refusing p.chan (p.queue q)
          × ((notify_specific_wait_queue q id p).1 ≡ false)
          × ((notify_specific_wait_queue q id p).0.queue q ≡ [])
          × ((notify_specific_wait_queue q id p).0.chan ≡ p.chan))
unfolding notify_specific_wait_queue
notify_first q id p = elim (offer-Served p.chan id (p.queue q)) [
  | inl (c, h) ↦ inl (
    c,
    ap (λ (r : List ℕ × (ℕ → WaitChan) × Bool). r.2) h,
    queue_self q id p ∙ ap (λ (r : List ℕ × (ℕ → WaitChan) × Bool). r.0) h,
    ap (λ (r : List ℕ × (ℕ → WaitChan) × Bool). r.1) h,
  )
  | inr (n, h) ↦ inr (
    n,
    ap (λ (r : List ℕ × (ℕ → WaitChan) × Bool). r.2) h,
    queue_self q id p ∙ ap (λ (r : List ℕ × (ℕ → WaitChan) × Bool). r.0) h,
    ap (λ (r : List ℕ × (ℕ → WaitChan) × Bool). r.1) h,
  )
]
