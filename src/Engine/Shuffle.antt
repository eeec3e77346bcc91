-- ===== src/Engine/Shuffle.antt =====
-- internal/engine/shuffle.go: the bags from which lines are dealt. A bag is a list with the index that
-- is dealt next, the last of the Go slice, at its head. rand.Shuffle is the parameter `mix`.
use annoybots.Base.{
  ℕ, zero, suc, Bool, true, false, ◌&&◌, [], ◌∷◌, ◌++◌, List, Option, none, some, Text, Map, lookup,
  insert, or_zero, leb, ◌==◌, if◌then◌else◌,
}
pub mod Occurrences
pub mod Once
mod Tests

pub record Bags : Type 0 where
  pub bags : Map (List ℕ)
  pub last_pick : Map ℕ

-- i, i + 1, and so on, n numbers.
unfoldable pub count_up : ℕ → ℕ → List ℕ
count_up i zero = []
count_up i (suc n) = i ∷ count_up (suc i) n

unfoldable pub last_of : ℕ → List ℕ → ℕ
last_of x [] = x
last_of x (y ∷ ys) = last_of y ys

unfoldable pub but_last : ℕ → List ℕ → List ℕ
but_last x [] = []
but_last x (y ∷ ys) = x ∷ but_last y ys

-- `bag[0], bag[n-1] = bag[n-1], bag[0]`.
unfoldable pub swap_ends : List ℕ → List ℕ
swap_ends [] = []
swap_ends (x ∷ []) = x ∷ []
swap_ends (x ∷ (y ∷ ys)) = last_of y ys ∷ (but_last y ys ++ x ∷ [])

-- A fresh shuffle, turned round where it would begin with the line dealt last.
unfoldable pub turned : ℕ → Option ℕ → List ℕ → List ℕ
turned n none f = f
turned n (some last) [] = []
turned n (some last) (x ∷ xs) = if leb 2 n && (x == last) then swap_ends (x ∷ xs) else x ∷ xs

module _ (mix : List ℕ → List ℕ) where
  -- The bag to deal from: the one there is, or a fresh one.
  unfoldable pub filled : List ℕ → ℕ → Option ℕ → List ℕ
  filled [] n last = turned n last (mix (count_up 0 n))
  filled (x ∷ xs) n last = x ∷ xs

  unfoldable pub next_from_bag : Bags → Text → ℕ → Bags × ℕ
  next_from_bag b key zero = (b, 0)
  next_from_bag b key (suc n) =
      elim (filled (or_zero [] (lookup key b.bags)) (suc n) (lookup key b.last_pick)) [
        | [] ↦ (b, 0)
        | (idx ∷ rest) ↦
            (record { bags = insert key rest b.bags; last_pick = insert key idx b.last_pick }, idx)
      ]

  -- The next m lines dealt under a key.
  unfoldable pub deal : Bags → Text → ℕ → ℕ → List ℕ
  deal b key n zero = []
  deal b key n (suc m) = let (after, idx) = next_from_bag b key n in idx ∷ deal after key n m
