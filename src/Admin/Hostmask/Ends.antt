-- ===== src/Admin/Hostmask/Ends.antt =====
-- The rounds of the loop of `wildcard` in internal/admin/hostmask.go, and stars in the text.
use annoybots.Base.{
  ℕ, zero, suc, ◌+◌, ◌*◌, ◌≤◌, ◌<◌, Bool, false, ◌≡◌, refl, ◌≢◌, inl, inr, [], ◌∷◌, Option, none,
  some, Text, arith, length, ◌==◌, Bool-cases,
}
use annoybots.Admin.Hostmask.{fits, Mark, backtrack, scan, rounds, wildcard}
use annoybots.Admin.Hostmask.Pattern.{Matches, done, skip, eat}

module _ (k : ℕ) where
  abbrev MarkBound : ℕ → Text → Mark → Type 0
  MarkBound m s none = Unit {0}
  MarkBound m s (some (bp, bs)) = (length s ≤ length bs) × (length bs ≤ m) × (length bp < k)

  record Bound (f m : ℕ) (p s : Text) (mark : Mark) : Type 0 where
    mark_bound : MarkBound m s mark
    text_bound : length s ≤ m
    pattern_bound : length p < k
    fuel : m * k + length p < f

  MarkBound-tail :
      (m c : ℕ) (s : Text) (mark : Mark) → MarkBound m (c ∷ s) mark → MarkBound m s mark
  MarkBound-tail m c s none h = tt
  MarkBound-tail m c s (some (bp, bs)) h = omega arith

  backtrack_ends :
      {f c : ℕ} {p s : Text} (m : ℕ) (mark : Mark) (next : Text → Text → Mark → Option Bool)
      → ((m' : ℕ) (p' s' : Text) (b : Mark) → Bound f m' p' s' b → next p' s' b ≢ none)
      → Bound (suc f) m p (c ∷ s) mark
      → backtrack mark next ≢ none
  unfolding backtrack
  backtrack_ends m none next ih i = λ e. cc
  backtrack_ends m (some (bp, [])) next ih i = absurd (omega arith)
  backtrack_ends zero (some (bp, x ∷ bs)) next ih i = absurd (omega arith)
  backtrack_ends (suc m) (some (bp, x ∷ bs)) next ih i = ih m bp bs (some (bp, bs)) (record {
    mark_bound = omega arith;
    text_bound = omega arith;
    pattern_bound = omega arith;
    fuel = omega arith;
  })

  scan_ends : (f m : ℕ) (p s : Text) (mark : Mark) → Bound f m p s mark → scan f p s mark ≢ none
  unfolding scan
  scan_ends zero m p s mark i = absurd (omega arith)
  scan_ends (suc f) m p [] mark i = λ e. cc
  scan_ends (suc f) m [] (c ∷ s) mark i = backtrack_ends m mark (scan f) (scan_ends f) i
  scan_ends (suc f) m (x ∷ p) (c ∷ s) mark i = elim (Bool-cases (fits x c)) [
    | inl h ↦ rw h (
        scan_ends f m p s mark (record {
          mark_bound = MarkBound-tail m c s mark i.mark_bound;
          text_bound = omega arith;
          pattern_bound = omega arith;
          fuel = omega arith;
        }))
    | inr h ↦ elim (Bool-cases (x == b'*')) [
      | inl e ↦
          rw (h, e)
            (scan_ends f m p (c ∷ s) (some (p, c ∷ s)) (record {
              mark_bound = omega arith;
              text_bound = i.text_bound;
              pattern_bound = omega arith;
              fuel = omega arith;
            }))
      | inr e ↦ rw (h, e) (backtrack_ends m mark (scan f) (scan_ends f) i)
    ]
  ]

-- The loop ends within (length s + 1) * (length p + 1) rounds, on every pattern p and text s.
pub scan-rounds : (p s : Text) → scan (rounds p s) p s none ≢ none
scan-rounds p s = scan_ends (length p + 1) (rounds p s) (length s) p s none (record {
  mark_bound = tt;
  text_bound = omega arith;
  pattern_bound = omega arith;
  fuel = omega arith;
})

Matches-star : (s : Text) → Matches (b'*' ∷ []) s
Matches-star [] = skip refl done
Matches-star (c ∷ s) = eat refl (Matches-star s)

rounds-literal_star :
    (c : ℕ) (s : Text) → rounds (b'*' ∷ []) (b'*' ∷ c ∷ s) ≡ suc (suc (length s * 2 + 4))
rounds-literal_star c s = omega arith

-- The loop takes a star at the start of the text for a literal match: it refuses each text that
-- begins with a star and goes on, though the glob "*" matches that text.
pub wildcard-literal_star :
    (c : ℕ) (s : Text)
    → (wildcard (b'*' ∷ []) (b'*' ∷ c ∷ s) ≡ false) × Matches (b'*' ∷ []) (b'*' ∷ c ∷ s)
unfolding wildcard
wildcard-literal_star c s = (rw (rounds-literal_star c s, scan), Matches-star (b'*' ∷ c ∷ s))
