-- ===== src/Examples/Cycled.antt =====
-- A manager that is started, stopped and started again.
use netconnpool.Prelude.{◌≡◌, ◌≤◌, ◌↔◌, none, [], ◌∷◌, refl}
use netconnpool.Prelude.Int.{pos}
use netconnpool.Manager.{new_manager}
use netconnpool.Manager.Cycles.{starts, stops, calls, cycles, calls_panic, serves, has_start}
use netconnpool.Prelude.{false}
use netconnpool.Prelude.{◌==◌}
use netconnpool.Prelude.{◌&&◌}

calls_panic_example :
    ((calls (pos 1) (starts ∷ stops ∷ starts ∷ stops ∷ []) new_manager ≡ none)
      ↔ (2 ≤ cycles false (starts ∷ stops ∷ starts ∷ stops ∷ [])))
    × (serves (calls (pos 1) (starts ∷ stops ∷ starts ∷ stops ∷ []) new_manager) ≡ (
        (cycles false (starts ∷ stops ∷ starts ∷ stops ∷ []) == 0)
        && has_start (starts ∷ stops ∷ starts ∷ stops ∷ [])))
calls_panic_example = calls_panic (pos 1) (starts ∷ stops ∷ starts ∷ stops ∷ []) refl
