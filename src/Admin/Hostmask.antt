-- ===== src/Admin/Hostmask.antt =====
-- internal/admin/hostmask.go: the glob matcher behind hostmask admins. An index into the pattern
-- or the text is the rest of it from there; `none` is a run that is out of fuel.
pub mod Pattern
pub mod Correct
pub mod Ends
use annoybots.Base.{
  ℕ, zero, suc, ◌+◌, ◌*◌, Bool, true, false, ◌||◌, List, [], ◌∷◌, Option, none, some, Text, length,
  ◌==◌, if◌then◌else◌, to_lower, or_zero,
}

-- `p[pi] == '?' || p[pi] == s[si]`.
unfoldable pub fits : ℕ → ℕ → Bool
fits x c = x == b'?' || x == c

-- The loop after the text has ended: only stars may be left.
unfoldable pub only_stars : Text → Bool
only_stars [] = true
only_stars (x ∷ p) = if x == b'*' then only_stars p else false

abbrev pub tail : Text → Text
tail [] = []
tail (c ∷ s) = s

-- `star` and `ss`: the pattern behind the last star, and the text from where it was met.
abbrev pub Mark : Type 0
Mark = Option (Text × Text)

-- The last two cases of the switch.
unfoldable pub backtrack : Mark → (Text → Text → Mark → Option Bool) → Option Bool
backtrack none next = some false
backtrack (some (bp, bs)) next = next bp (tail bs) (some (bp, tail bs))

unfoldable pub scan : ℕ → Text → Text → Mark → Option Bool
unfolding fits only_stars backtrack
scan zero p s mark = none
scan (suc f) p [] mark = some (only_stars p)
scan (suc f) [] (c ∷ s) mark = backtrack mark (scan f)
scan (suc f) (x ∷ p) (c ∷ s) mark =
    let both = scan f p s mark in
    let star = scan f p (c ∷ s) (some (p, c ∷ s)) in
    let again = backtrack mark (scan f) in
    if fits x c then both else if x == b'*' then star else again

-- Rounds that are enough: see Hostmask/Ends.
abbrev pub rounds : Text → Text → ℕ
rounds p s = (length s + 1) * (length p + 1)

unfoldable pub wildcard : Text → Text → Bool
unfolding scan
wildcard p s = or_zero false (scan (rounds p s) p s none)

unfoldable pub wildcard_match_fold : Text → Text → Bool
unfolding wildcard
wildcard_match_fold p s = wildcard (to_lower p) (to_lower s)
