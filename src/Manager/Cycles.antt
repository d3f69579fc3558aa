-- ===== src/Manager/Cycles.antt =====
-- The sequences of calls of `Start` and `Stop` that a manager survives.
use netconnpool.Prelude.{
  ℕ, zero, suc, ◌-◌, ◌≤◌, ◌≡◌, ◌↔◌, refl, Option, none, some, Bool, true, false, ◌||◌, List, [],
  ◌∷◌, if◌then◌else◌, arith, Bool-cases, inl, inr,
}
use netconnpool.Prelude.Int.{ℤ, is_pos}
use netconnpool.Manager.{Manager, new_manager, start, stop, loop_ends, wait_loops, serving}
use netconnpool.Prelude.{not, ◌&&◌}
use netconnpool.Prelude.{◌==◌}
use netconnpool.Prelude.{◌<◌}

pub data Call : Type 0 where
  starts stops : Call

abbrev pub call : (interval : ℤ) → Call → Manager → Option Manager
call interval starts m = start true interval m
call interval stops m = stop m

unfoldable pub calls : (interval : ℤ) → List Call → Manager → Option Manager
calls interval [] m = some m
calls interval (c ∷ cs) m = elim (call interval c m) [
  | none ↦ none
  | some m' ↦ calls interval cs m'
]

-- The stops that find the manager running, by the sequence alone.
unfoldable pub cycles : (running : Bool) → List Call → ℕ
cycles running [] = 0
cycles running (starts ∷ cs) = cycles true cs
cycles true (stops ∷ cs) = suc (cycles false cs)
cycles false (stops ∷ cs) = cycles false cs

-- Whether the sequence starts the manager at all.
unfoldable pub has_start : List Call → Bool
has_start [] = false
has_start (starts ∷ cs) = true
has_start (stops ∷ cs) = has_start cs

-- A panicked manager does not serve.
abbrev pub serves : Option Manager → Bool
serves none = false
serves (some m) = serving m

-- A manager that runs and was not stopped has its goroutine in the loop.
abbrev WellRun : Manager → Type 0
WellRun m = m.running ≡ true → m.stopped ≡ false → 0 < m.loops

-- What a wait leaves.
wait_loops_lem :
    (n : ℕ) (m : Manager)
    → m.stopped ≡ true
    → ((wait_loops n m).running ≡ m.running)
      × ((wait_loops n m).stopped ≡ true)
      × ((wait_loops n m).loops ≡ m.loops - n)
unfolding wait_loops loop_ends
wait_loops_lem zero m h = (refl, h, omega arith)
wait_loops_lem (suc n) m h =
    let (a, b, c) = wait_loops_lem n (loop_ends m) (ground arith) in
    (ground (arith, a), b, ground (arith, c))

module _ (interval : ℤ) (positive : is_pos interval ≡ true) where
  start_lem :
      (m : Manager)
      → (m' : Manager) × (start true interval m ≡ some m')
        × (m'.running ≡ true)
        × (m'.stopped ≡ m.stopped)
        × (WellRun m → WellRun m')
  unfolding start
  start_lem m = elim (Bool-cases m.running) [
    | inl r ↦ (m, ground arith, r, refl, λ h. h)
    | inr r ↦ (
      record m { running = true; loops = suc m.loops },
      ground arith,
      refl,
      refl,
      λ h _ _. omega arith,
    )
  ]

  -- `Stop` of a running manager, by whether its channel is closed.
  stop_running :
      (m : Manager)
      → m.running ≡ true
      → m.stopped ≡ false
      → (m' : Manager) × (stop m ≡ some m')
        × (m'.running ≡ false)
        × (m'.stopped ≡ true)
        × (m'.loops ≡ 0)
  unfolding stop
  stop_running m r s =
      let (a, b, c) = wait_loops_lem m.loops (record m { running = false; stopped = true }) refl in
      (
        wait_loops m.loops (record m { running = false; stopped = true }),
        simp (r, s) refl,
        a,
        b,
        omega (arith, c),
      )

  stop_again : (m : Manager) → m.running ≡ true → m.stopped ≡ true → stop m ≡ none
  unfolding stop
  stop_again m r s = simp (r, s) refl

  stop_idle : (m : Manager) → m.running ≡ false → stop m ≡ some m
  unfolding stop
  stop_idle m r = simp r refl

  -- The closings of `stopChan` that are left before the one that panics.
  abbrev left : Bool → ℕ
  left stopped = if stopped then 1 else 2

  calls-none :
      (cs : List Call) (m : Manager)
      → (calls interval cs m ≡ none) ↔ (left m.stopped ≤ cycles m.running cs)
  unfolding calls cycles
  calls-none [] m = (λ h. cc, λ h. absurd (ground arith))
  calls-none (starts ∷ cs) m =
      let (m', e, r, s, _) = start_lem m in
      let i = calls-none cs m' in (λ h. ground (arith, e, r, s, i), λ h. ground (arith, e, r, s, i))
  calls-none (stops ∷ cs) m = elim (Bool-cases m.running) [
    | inl r ↦ elim (Bool-cases m.stopped) [
      | inl s ↦
          let e = stop_again m r s in (λ h. ground (arith, e, r, s), λ h. ground (arith, e, r, s))
      | inr s ↦
          let (m', e, r', s', l) = stop_running m r s in
          let i = calls-none cs m' in
          (λ h. ground (arith, e, r, s, r', s', i), λ h. ground (arith, e, r, s, r', s', i))
    ]
    | inr r ↦
        let e = stop_idle m r in
        let i = calls-none cs m in (λ h. ground (arith, e, r, i), λ h. ground (arith, e, r, i))
  ]

  calls_done :
      (m : Manager) → WellRun m → serving m ≡ (not m.stopped && true && (m.running || false))
  calls_done m h = elim (Bool-cases m.running) [
    | inl r ↦ elim (Bool-cases m.stopped) [
      | inl s ↦ ground (arith, r, s)
      | inr s ↦ let l = h r s in ground (arith, r, s, l)
    ]
    | inr r ↦ ground (arith, r)
  ]

  calls-serves :
      (cs : List Call) (m : Manager)
      → WellRun m
      → serves (calls interval cs m)
        ≡ (not m.stopped && (cycles m.running cs == 0) && (m.running || has_start cs))
  unfolding calls cycles has_start
  calls-serves [] m h = calls_done m h
  calls-serves (starts ∷ cs) m h =
      let (m', e, r, s, k) = start_lem m in ground (arith, e, r, s, calls-serves cs m' (k h))
  calls-serves (stops ∷ cs) m h = elim (Bool-cases m.running) [
    | inl r ↦ elim (Bool-cases m.stopped) [
      | inl s ↦ ground (arith, stop_again m r s, r, s)
      | inr s ↦
          let (m', e, r', s', l) = stop_running m r s in
          ground (arith, e, r, s, r', s', calls-serves cs m' λ a _. absurd (cc (a, r')))
    ]
    | inr r ↦ ground (arith, stop_idle m r, r, calls-serves cs m h)
  ]

-- A new manager with a positive interval panics under a sequence of calls of `Start` and `Stop`
-- exactly when the sequence stops it twice while it runs; and it serves at the end, with a goroutine
-- in its loop that goes on, exactly when it was started and was never stopped while it ran, so that no start after a stop makes it serve again.
pub calls_panic :
    (interval : ℤ) (cs : List Call)
    → is_pos interval ≡ true
    → ((calls interval cs new_manager ≡ none) ↔ (2 ≤ cycles false cs))
      × (serves (calls interval cs new_manager) ≡ ((cycles false cs == 0) && has_start cs))
calls_panic interval cs p =
    (calls-none interval p cs new_manager, calls-serves interval p cs new_manager (λ r _. cc))
