-- ===== src/Cooldown.antt =====
-- internal/cooldown/cooldown.go: the last use of each key. Times and durations are integers, and the
-- saturation of time.Time.Sub after 292 years is left out. The clock is an argument.
use annoybots.Base.{
  Bool, true, false, not, [], ◌∷◌, List, Option, none, some, Text, Map, lookup, insert, text_eq,
  ◌&&◌, if◌then◌else◌,
}
use annoybots.Base.Int.{ℤ, ◌-ℤ◌, ltb_ℤ}
pub mod Spacing
mod Tests

abbrev pub Last : Type 0
Last = Map ℤ

unfoldable pub ready : Last → Text → ℤ → ℤ → Bool
ready m key d now = elim (lookup key m) [ none ↦ true | some t ↦ not (ltb_ℤ (now -ℤ t) d) ]

-- `Use`.
unfoldable pub use_key : Last → Text → ℤ → ℤ → Last × Bool
use_key m key d now = elim (lookup key m) [
  | none ↦ (insert key now m, true)
  | some t ↦ if ltb_ℤ (now -ℤ t) d then (m, false) else (insert key now m, true)
]

-- The times at which the uses of key k succeed, in a sequence of uses of keys at times.
unfoldable pub uses_of : Text → ℤ → Last → List (Text × ℤ) → List ℤ
uses_of k d m [] = []
uses_of k d m ((key, now) ∷ calls) =
    let (after, ok) = use_key m key d now in
    let rest = uses_of k d after calls in if ok && text_eq key k then now ∷ rest else rest
