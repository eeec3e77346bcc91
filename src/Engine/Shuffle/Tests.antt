-- ===== src/Engine/Shuffle/Tests.antt =====
-- Bags at concrete inputs, with the shuffle that changes nothing.
use annoybots.Base.{
  ℕ, ◌≤◌, ◌≡◌, ◌≢◌, refl, [], ◌∷◌, List, some, Text, arith, codes, lookup, or_zero, length, ltb,
  if◌then◌else◌, text_eq,
}
use annoybots.Engine.Shuffle.{Bags, next_from_bag, deal}
use annoybots.Engine.Shuffle.Occurrences.{occ}
use annoybots.Engine.Shuffle.Once.{IsDealing, next_from_bag-apart, deal-once}

abbrev keep_order : List ℕ → List ℕ
keep_order xs = xs

keeps : (k : ℕ) (xs : List ℕ) → occ k (keep_order xs) ≡ occ k xs
keeps k xs = refl

abbrev pool : Text
pool = codes "quotes"

-- The bag is empty, and line 0 was dealt last.
abbrev dealt_zero : Bags
dealt_zero = record { bags = []; last_pick = (pool, 0) ∷ [] }

turned_run : deal keep_order dealt_zero pool 3 4 ≡ 2 ∷ (1 ∷ (0 ∷ (2 ∷ [])))
unfolding annoybots.Base.insert annoybots.Engine.Shuffle.but_last annoybots.Engine.Shuffle.count_up
    annoybots.Engine.Shuffle.filled annoybots.Engine.Shuffle.last_of
    annoybots.Engine.Shuffle.swap_ends annoybots.Engine.Shuffle.turned deal lookup next_from_bag
    text_eq
turned_run = refl

no_bag : or_zero [] (lookup pool dealt_zero.bags) ≡ []
unfolding lookup
no_bag = refl

dealing : IsDealing dealt_zero pool
unfolding lookup occ
dealing = record { once = λ k. ground arith; apart = λ l at. ground arith }

next_from_bag-apart_example :
    ((l : ℕ)
      → lookup pool dealt_zero.last_pick ≡ some l
      → (next_from_bag keep_order dealt_zero pool 3).1 ≢ l)
    × (lookup pool (next_from_bag keep_order dealt_zero pool 3).0.last_pick
        ≡ some (next_from_bag keep_order dealt_zero pool 3).1)
    × IsDealing (next_from_bag keep_order dealt_zero pool 3).0 pool
next_from_bag-apart_example =
    next_from_bag-apart keep_order dealt_zero pool 3 keeps (omega arith) dealing

deal-once_example : occ 2 (deal keep_order dealt_zero pool 3 3) ≡ (if ltb 2 3 then 1 else 0)
deal-once_example = deal-once keep_order dealt_zero pool 3 2 keeps (λ xs. refl) (omega arith) no_bag
