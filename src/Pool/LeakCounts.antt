-- ===== src/Pool/LeakCounts.antt =====
-- What a pass of the leak detector counts and marks.
use netconnpool.Prelude.{
  ℕ, ◌+◌, ◌*◌, ◌%◌, ◌^◌, ◌≡◌, refl, ap, ◌∙◌, Option, none, some, Bool, true, false, ◌&&◌, ◌||◌,
  ◌==◌, if◌then◌else◌, List, [], ◌∷◌, count, count_congr, member, arith,
}
use netconnpool.Prelude.Word.{add64}
use netconnpool.Stats.{Stats}
use netconnpool.Pool.State.{Pool}
use netconnpool.Pool.Leak.{leaks, detect_one, detect_all, detect_leaks}

abbrev pub leaked_count : Option Stats → Option ℕ
leaked_count none = none
leaked_count (some s) = some (s.leaked_connections % 2 ^ 64)

abbrev pub raised : ℕ → Option ℕ → Option ℕ
raised n none = none
raised n (some k) = some ((k + n) % 2 ^ 64)

raised-raised : (m n : ℕ) (o : Option ℕ) → raised m (raised n o) ≡ raised (n + m) o
raised-raised m n none = refl
raised-raised m n (some k) = ap some (omega arith)

leaks-detect_one : (id : ℕ) (p : Pool) (j : ℕ) → leaks (detect_one id p) j ≡ leaks p j
unfolding detect_one
leaks-detect_one id p j = ground arith

leaks-detect_all : (ids : List ℕ) (p : Pool) (j : ℕ) → leaks (detect_all ids p) j ≡ leaks p j
unfolding detect_all
leaks-detect_all [] p j = refl
leaks-detect_all (id ∷ ids) p j = leaks-detect_all ids (detect_one id p) j ∙ leaks-detect_one id p j

stats_raised :
    (b : Bool) (o : Option Stats) (f : Stats → Stats)
    → ((s : Stats) → (f s).leaked_connections % 2 ^ 64 ≡ (s.leaked_connections + 1) % 2 ^ 64)
    → leaked_count (if b then elim o [ none ↦ none | some s ↦ some (f s) ] else o)
      ≡ raised (if b then 1 else 0) (leaked_count o)
stats_raised true none f h = refl
stats_raised true (some s) f h = ap some (omega (arith, h s))
stats_raised false none f h = refl
stats_raised false (some s) f h = ap some (omega arith)

detect_one-count :
    (id : ℕ) (p : Pool)
    → leaked_count (detect_one id p).stats
      ≡ raised (if leaks p id then 1 else 0) (leaked_count p.stats)
unfolding detect_one add64
detect_one-count id p = ground arith

raised_zero : (o : Option Stats) → leaked_count o ≡ raised 0 (leaked_count o)
raised_zero none = refl
raised_zero (some s) = ap some (omega arith)

detect_all-count :
    (ids : List ℕ) (p : Pool)
    → leaked_count (detect_all ids p).stats ≡ raised (count (leaks p) ids) (leaked_count p.stats)
unfolding detect_all count
detect_all-count [] p = raised_zero p.stats
detect_all-count (id ∷ ids) p =
    detect_all-count ids (detect_one id p)
    ∙ ap (λ n. raised n (leaked_count (detect_one id p).stats))
        (count_congr _ _ ids (λ j m. leaks-detect_one id p j))
    ∙ ap (raised (count (leaks p) ids)) (detect_one-count id p)
    ∙ raised-raised (count (leaks p) ids) (if leaks p id then 1 else 0) (leaked_count p.stats)

connections-detect_one : (id : ℕ) (p : Pool) → (detect_one id p).connections ≡ p.connections
unfolding detect_one
connections-detect_one id p = ground arith

connections-detect_all : (ids : List ℕ) (p : Pool) → (detect_all ids p).connections ≡ p.connections
unfolding detect_all
connections-detect_all [] p = refl
connections-detect_all (id ∷ ids) p =
    connections-detect_all ids (detect_one id p) ∙ connections-detect_one id p

-- A pass of `detectLeaks` raises LeakedConnections, where there are statistics, by the number of
-- connections in the map that are in use and leaked; a second pass at the same time raises it by the
-- same number again, for the same connections.
pub detect_leaks_recounts :
    (p : Pool)
    → (leaked_count (detect_leaks p).stats
        ≡ raised (count (leaks p) p.connections) (leaked_count p.stats))
      × (leaked_count (detect_leaks (detect_leaks p)).stats
          ≡ raised (2 * count (leaks p) p.connections) (leaked_count p.stats))
unfolding detect_leaks
detect_leaks_recounts p = (
  detect_all-count p.connections p,
  simp (connections-detect_all p.connections p) (
      detect_all-count p.connections (detect_all p.connections p)
      ∙ ap (λ n. raised n (leaked_count (detect_all p.connections p).stats))
          (count_congr _ _ p.connections (λ j m. leaks-detect_all p.connections p j))
      ∙ ap (raised (count (leaks p) p.connections)) (detect_all-count p.connections p)
      ∙ raised-raised _ _ (leaked_count p.stats)
      ∙ ap (λ n. raised n (leaked_count p.stats)) (omega arith)),
)

detect_one_mark :
    (id j : ℕ) (p : Pool)
    → ((detect_one j p).object id).leak_detected
      ≡ ((p.object id).leak_detected || ((j == id) && leaks p id))
unfolding detect_one
detect_one_mark id j p = ground arith

detect_all_mark :
    (id : ℕ) (ids : List ℕ) (p : Pool)
    → ((detect_all ids p).object id).leak_detected
      ≡ ((p.object id).leak_detected || (member id ids && leaks p id))
unfolding detect_all member
detect_all_mark id [] p = ground arith
detect_all_mark id (j ∷ ids) p = ground (
  arith,
  detect_all_mark id ids (detect_one j p),
  detect_one_mark id j p,
  leaks-detect_one j p id,
)

-- After a pass of `detectLeaks`, a connection is marked exactly when it was marked before, or is in
-- the map, in use and leaked.
pub detect_leaks_marks :
    (p : Pool) (id : ℕ)
    → ((detect_leaks p).object id).leak_detected
      ≡ ((p.object id).leak_detected || (member id p.connections && leaks p id))
unfolding detect_leaks
detect_leaks_marks p id = detect_all_mark id p.connections p
