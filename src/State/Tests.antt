-- ===== src/State/Tests.antt =====
-- Runs of the store, and its theorems at concrete inputs.
use mathlib.Core.List.{Perm}
use annoybots.Base.{
  ◌≤◌, ◌≡◌, refl, ◌⊎◌, true, [], ◌∷◌, ◌++◌, List, Text, codes, lookup, text_eq, length,
}
use annoybots.Base.Int.{ℤ, pos, pos_part, ltb_ℤ}
use annoybots.State.{MemStore, z_top, rank, place, ranks_before, text_lt}
use annoybots.State.Ranking.{IsRanked, board, z_top_lem}

abbrev scores : MemStore
scores = record {
  counters = [];
  zsets = (codes "b", (codes "al", pos 3) ∷ (codes "bo", pos 7) ∷ (codes "cy", pos 7) ∷ []) ∷ [];
  hashes = [];
  strs = [];
  lists = [];
}

z_top_run : z_top scores (codes "b") (pos 2) ≡ (codes "bo", pos 7) ∷ (codes "cy", pos 7) ∷ []
unfolding z_top rank place ranks_before text_lt lookup text_eq
z_top_run = refl

z_top_lem_example :
    (rest : List (Text × ℤ)) × Perm
      (board scores (codes "b"))
      (z_top scores (codes "b") (pos 2) ++ rest)
    × IsRanked (z_top scores (codes "b") (pos 2) ++ rest)
    × ((rest ≡ [])
        ⊎ ((ltb_ℤ (pos 0) (pos 2) ≡ true)
            × (◌≡◌ {A = ℤ} (pos 2) (pos (length (z_top scores (codes "b") (pos 2)))))))
    × (ltb_ℤ (pos 0) (pos 2) ≡ true → length (z_top scores (codes "b") (pos 2)) ≤ pos_part (pos 2))
z_top_lem_example = z_top_lem scores (codes "b") (pos 2)
