-- ===== src/Admin/Hostmask/Correct.antt =====
-- The loop of `wildcard` in internal/admin/hostmask.go against the meaning of a glob.
use annoybots.Base.{
  ℕ, zero, suc, ◌+◌, ◌*◌, ◌≤◌, ◌<◌, Bool, true, false, ◌≡◌, refl, sym, subst, ◌≢◌, ◌↔◌, inl, inr,
  [], ◌∷◌, Option, none, some, Text, arith, length, All, ◌==◌, ==_iff, Bool-cases,
}
use annoybots.Admin.Hostmask.{fits, only_stars, Mark, backtrack, scan, rounds, wildcard}
use annoybots.Admin.Hostmask.Pattern.{
  Matches, same, skip, eat, same_inv, star_at_end, must_eat, two_stars, drop_one, only_stars_sound,
  only_stars_complete,
}

abbrev pub NoStar : Text → Type 0
NoStar = All (λ c. c ≢ b'*')

abbrev Decides : Type 0 → Option Bool → Type 0
Decides G (some true) = G
Decides G (some false) = ¬ G
Decides G none = ⊥

some-Decides : {G : Type 0} (b : Bool) → (b ≡ true → G) → (G → b ≡ true) → Decides G (some b)
some-Decides true sound complete = sound refl
some-Decides false sound complete = λ g. cc (complete g)

same_byte : (x c : ℕ) → fits x c ≡ true → c ≢ b'*' → x ≢ b'*'
unfolding fits
same_byte x c h n = ground arith

-- G is the question asked at the start, and each pattern in play is shorter than k.
module _ (G : Type 0) (k : ℕ) where
  abbrev Saved : ℕ → Text → Text → Mark → Type 0
  Saved m p s none = G → Matches p s
  Saved m p s (some (bp, bs)) =
      (G → Matches (b'*' ∷ bp) bs)
      × (Matches (b'*' ∷ bp) bs → G)
      × (Matches bp bs → Matches p s)
      × NoStar bs
      × (length s ≤ length bs)
      × (length bs ≤ m)
      × (length bp < k)

  record Inv (f m : ℕ) (p s : Text) (mark : Mark) : Type 0 where
    plain : NoStar s
    now : Matches p s → G
    later : G → Matches (b'*' ∷ p) s
    saved : Saved m p s mark
    text_bound : length s ≤ m
    pattern_bound : length p < k
    fuel : m * k + length p < f

  -- A start at a star, whose question is the whole question.
  Inv-star :
      {f m : ℕ} {p s : Text}
      → NoStar s
      → (G → Matches (b'*' ∷ p) s)
      → (Matches (b'*' ∷ p) s → G)
      → length s ≤ m
      → length p < k
      → m * k + length p < f
      → Inv f m p s (some (p, s))
  Inv-star plain into out hs hp hf = record {
    plain = plain;
    now = λ d. out (skip refl d);
    later = into;
    saved = (into, out, λ d. d, plain, omega arith, hs, hp);
    text_bound = hs;
    pattern_bound = hp;
    fuel = hf;
  }

  Saved-both :
      (m x c : ℕ) (p s : Text) (mark : Mark)
      → x ≢ b'*'
      → Saved m (x ∷ p) (c ∷ s) mark
      → Saved m p s mark
  Saved-both m x c p s none n h = λ g. (same_inv n (h g)).1
  Saved-both m x c p s (some (bp, bs)) n (into, out, down, plain, shorter, hs, hp) =
      (into, out, λ d. (same_inv n (down d)).1, plain, omega arith, hs, hp)

  Inv-both :
      {f m x c : ℕ} {p s : Text} {mark : Mark}
      → Inv (suc f) m (x ∷ p) (c ∷ s) mark
      → fits x c ≡ true
      → Inv f m p s mark
  Inv-both {m} {x} {c} {p} {s} {mark} i h = record {
    plain = i.plain.1;
    now = λ d. i.now (same (same_byte x c h i.plain.0) h d);
    later = λ g. drop_one s refl (same_byte x c h i.plain.0) (i.later g);
    saved = Saved-both m x c p s mark (same_byte x c h i.plain.0) i.saved;
    text_bound = omega arith;
    pattern_bound = omega arith;
    fuel = omega arith;
  }

  backtrack-Decides :
      {f c : ℕ} {p s : Text} (m : ℕ) (mark : Mark) (next : Text → Text → Mark → Option Bool)
      → ((m' : ℕ) (p' s' : Text) (b : Mark) → Inv f m' p' s' b → Decides G (next p' s' b))
      → Inv (suc f) m p (c ∷ s) mark
      → (Matches p (c ∷ s) → ⊥)
      → Decides G (backtrack mark next)
  unfolding backtrack
  backtrack-Decides m none next ih i stuck = λ g. stuck (i.saved g)
  backtrack-Decides m (some (bp, [])) next ih i stuck = absurd (omega arith)
  backtrack-Decides zero (some (bp, x ∷ bs)) next ih i stuck = absurd (omega arith)
  backtrack-Decides (suc m) (some (bp, x ∷ bs)) next ih i stuck =
      let (into, out, down, plain, _, _, _) = i.saved in
      ih m bp bs (some (bp, bs)) (
        Inv-star plain.1 (λ g. must_eat refl (into g) (λ d. stuck (down d))) (λ d. out (eat refl d))
          (omega arith) (omega arith) (omega arith))

  at_star :
      {f m x c : ℕ} {p s : Text} {mark : Mark}
      → Inv (suc f) m (x ∷ p) (c ∷ s) mark
      → x ≡ b'*'
      → Inv f m p (c ∷ s) (some (p, c ∷ s))
  at_star {c} {p} {s} i e =
      Inv-star i.plain (λ g. two_stars refl e (i.later g))
        (λ d. i.now (subst (λ z. Matches (z ∷ p) (c ∷ s)) (sym e) d)) i.text_bound (omega arith)
        (omega arith)

  mismatch : {x c : ℕ} {p s : Text} → fits x c ≡ false → x ≢ b'*' → Matches (x ∷ p) (c ∷ s) → ⊥
  mismatch h n d = cc (same_inv n d).0

  scan-Decides :
      (f m : ℕ) (p s : Text) (mark : Mark) → Inv f m p s mark → Decides G (scan f p s mark)
  unfolding scan
  scan-Decides zero m p s mark i = absurd (omega arith)
  scan-Decides (suc f) m p [] mark i =
      some-Decides (only_stars p) (λ h. i.now (only_stars_sound p h))
        (λ g. only_stars_complete p (star_at_end refl (i.later g)))
  scan-Decides (suc f) m [] (c ∷ s) mark i =
      backtrack-Decides m mark (scan f) (scan-Decides f) i λ d. elim d [ ]
  scan-Decides (suc f) m (x ∷ p) (c ∷ s) mark i = elim (Bool-cases (fits x c)) [
    | inl h ↦ rw h (scan-Decides f m p s mark (Inv-both i h))
    | inr h ↦ elim (Bool-cases (x == b'*')) [
      | inl e ↦
          rw (h, e) (scan-Decides f m p (c ∷ s) (some (p, c ∷ s)) (at_star i ((==_iff x b'*').0 e)))
      | inr e ↦
          rw (h, e)
            (backtrack-Decides m mark (scan f) (scan-Decides f) i
              (mismatch h (λ q. cc ((==_iff x b'*').1 q))))
    ]
  ]

scan-Matches : (p s : Text) → NoStar s → Decides (Matches p s) (scan (rounds p s) p s none)
scan-Matches p s plain =
    scan-Decides (Matches p s) (length p + 1) (rounds p s) (length s) p s none (record {
      plain = plain;
      now = λ d. d;
      later = skip refl;
      saved = λ d. d;
      text_bound = omega arith;
      pattern_bound = omega arith;
      fuel = omega arith;
    })

-- On a text with no star byte in it, `wildcard` answers true exactly when the glob matches it.
pub wildcard-Matches : (p s : Text) → NoStar s → (wildcard p s ≡ true) ↔ Matches p s
unfolding wildcard
wildcard-Matches p s plain =
    (ground (arith, scan-Matches p s plain), ground (arith, scan-Matches p s plain))
