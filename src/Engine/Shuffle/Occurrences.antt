-- ===== src/Engine/Shuffle/Occurrences.antt =====
-- How often an index stands in a bag of internal/engine/shuffle.go.
use annoybots.Base.{
  ℕ, zero, suc, ◌+◌, ◌&&◌, ◌≡◌, refl, [], ◌∷◌, ◌++◌, List, Option, none, some, arith, leb, ltb,
  ◌==◌, if◌then◌else◌,
}
use annoybots.Engine.Shuffle.{count_up, last_of, but_last, swap_ends, turned}

unfoldable pub occ : ℕ → List ℕ → ℕ
occ k [] = 0
occ k (x ∷ xs) = if x == k then suc (occ k xs) else occ k xs

pub occ-append : (k : ℕ) (xs ys : List ℕ) → occ k (xs ++ ys) ≡ occ k xs + occ k ys
unfolding occ
occ-append k [] ys = omega arith
occ-append k (x ∷ xs) ys = ground (arith, occ-append k xs ys)

pub occ-count_up : (k i n : ℕ) → occ k (count_up i n) ≡ (if leb i k && ltb k (i + n) then 1 else 0)
unfolding occ count_up
occ-count_up k i zero = ground arith
occ-count_up k i (suc n) = ground (arith, occ-count_up k (suc i) n)

pub occ-last_of :
    (k y : ℕ) (ys : List ℕ) → occ k (but_last y ys ++ last_of y ys ∷ []) ≡ occ k (y ∷ ys)
unfolding occ last_of but_last
occ-last_of k y [] = refl
occ-last_of k y (z ∷ ys) = ground (arith, occ-last_of k z ys)

pub occ-swap_ends : (k : ℕ) (xs : List ℕ) → occ k (swap_ends xs) ≡ occ k xs
unfolding swap_ends occ
occ-swap_ends k [] = refl
occ-swap_ends k (x ∷ []) = refl
occ-swap_ends k (x ∷ (y ∷ ys)) = ground (
  arith,
  occ-last_of k y ys,
  occ-append k (but_last y ys) (x ∷ []),
  occ-append k (but_last y ys) (last_of y ys ∷ []),
)

pub occ-turned : (k n : ℕ) (last : Option ℕ) (f : List ℕ) → occ k (turned n last f) ≡ occ k f
unfolding turned
occ-turned k n none f = refl
occ-turned k n (some last) [] = refl
occ-turned k n (some last) (x ∷ xs) = ground (arith, occ-swap_ends k (x ∷ xs))
