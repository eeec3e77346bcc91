-- ===== src/Admin/Hostmask/Pattern.antt =====
-- What a hostmask glob means, with no search order in it.
use annoybots.Base.{ℕ, true, ◌≡◌, refl, sym, subst, ◌∙◌, ◌≢◌, [], ◌∷◌, Text, arith}
use annoybots.Admin.Hostmask.{fits, only_stars}

pub data Matches : Text → Text → Type 0 where
  done : Matches [] []
  same : {x c : ℕ} {p s : Text} → x ≢ b'*' → fits x c ≡ true → Matches p s → Matches (x ∷ p) (c ∷ s)
  skip : {x : ℕ} {p s : Text} → x ≡ b'*' → Matches p s → Matches (x ∷ p) s
  eat : {x c : ℕ} {p s : Text} → x ≡ b'*' → Matches (x ∷ p) s → Matches (x ∷ p) (c ∷ s)

-- A byte that is no star takes one byte of the text.
pub same_inv :
    {x c : ℕ} {p s : Text} → x ≢ b'*' → Matches (x ∷ p) (c ∷ s) → (fits x c ≡ true) × Matches p s
same_inv n (same m h d) = (h, d)
same_inv n (skip e d) = absurd (n e)
same_inv n (eat e d) = absurd (n e)

pub star_at_end : {x : ℕ} {p : Text} → x ≡ b'*' → Matches (x ∷ p) [] → Matches p []
star_at_end e (skip _ d) = d

not-Matches-nil : {x : ℕ} {p : Text} → x ≢ b'*' → Matches (x ∷ p) [] → ⊥
not-Matches-nil n (skip e d) = n e

-- A star that cannot end here takes the next byte.
pub must_eat :
    {x c : ℕ} {p s : Text}
    → x ≡ b'*'
    → Matches (x ∷ p) (c ∷ s)
    → (Matches p (c ∷ s) → ⊥)
    → Matches (x ∷ p) s
must_eat e (same m h d) n = absurd (m e)
must_eat e (skip _ d) n = absurd (n d)
must_eat e (eat _ d) n = d

-- Two stars are one.
pub two_stars :
    {x y : ℕ} {p s : Text} → x ≡ b'*' → y ≡ b'*' → Matches (x ∷ y ∷ p) s → Matches (x ∷ p) s
two_stars e f (same m h d) = absurd (m e)
two_stars {p} {s} e f (skip _ d) = subst (λ z. Matches (z ∷ p) s) (f ∙ sym e) d
two_stars e f (eat _ d) = eat e (two_stars e f d)

-- Behind a star, a pattern byte and the text's first byte can be dropped together.
pub drop_one :
    {x y c : ℕ} {p : Text} (s : Text)
    → x ≡ b'*'
    → y ≢ b'*'
    → Matches (x ∷ y ∷ p) (c ∷ s)
    → Matches (x ∷ p) s
drop_one s e n (same m h d) = absurd (m e)
drop_one s e n (skip _ d) = skip e (same_inv n d).1
drop_one [] e n (eat _ d) = absurd (not-Matches-nil n (star_at_end e d))
drop_one (c ∷ s) e n (eat _ d) = eat e (drop_one s e n d)

pub only_stars_sound : (p : Text) → only_stars p ≡ true → Matches p []
unfolding only_stars
only_stars_sound [] h = done
only_stars_sound (x ∷ p) h = skip (ground arith) (only_stars_sound p (ground arith))

pub only_stars_complete : (p : Text) → Matches p [] → only_stars p ≡ true
unfolding only_stars
only_stars_complete [] d = refl
only_stars_complete (x ∷ p) (skip e d) = ground (arith, only_stars_complete p d)
