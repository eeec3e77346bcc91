-- ===== src/Cooldown/Tests.antt =====
-- Uses of two keys, and the theorem at a concrete input.
use annoybots.Base.{◌≡◌, refl, [], ◌∷◌, List, none, Text, codes, lookup}
use annoybots.Base.Int.{ℤ, pos}
use annoybots.Cooldown.{Last, uses_of}
use annoybots.Cooldown.Spacing.{IsSpaced, uses_of-IsSpaced}

abbrev some_calls : List (Text × ℤ)
some_calls =
    (codes "a", pos 0) ∷ ((codes "b", pos 1) ∷ ((codes "a", pos 4) ∷ ((codes "a", pos 5) ∷ [])))

uses_run : uses_of (codes "a") (pos 5) [] some_calls ≡ pos 0 ∷ (pos 5 ∷ [])
unfolding annoybots.Base.Int.◌-ℤ◌ annoybots.Base.insert annoybots.Base.text_eq
    annoybots.Cooldown.use_key lookup uses_of
uses_run = refl

uses_of-IsSpaced_example :
    IsSpaced (pos 5) (lookup (codes "a") []) (uses_of (codes "a") (pos 5) [] some_calls)
uses_of-IsSpaced_example = uses_of-IsSpaced (codes "a") (pos 5) [] some_calls
