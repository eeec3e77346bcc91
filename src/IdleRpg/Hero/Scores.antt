-- ===== src/IdleRpg/Hero/Scores.antt =====
-- The ability scores of internal/idlerpg/abilities.go.
use annoybots.Base.{ℕ, ◌+◌, ◌-◌, ◌<◌, ◌≤◌, ◌≡◌, arith, leb, leb→le, ◌/◌, Bool-cases, inl, inr, min}
use annoybots.Base.Int.{
  ℤ, pos, negsuc, pos_part, neg_part, sub_ℕ, neg, ◌+ℤ◌, ◌-ℤ◌, ◌≤ℤ◌, quot, add64, sub64, wrap64,
}
use annoybots.IdleRpg.Hero.{ability_mod, roll_4d6_drop_lowest}

sub_ten : (n : ℕ) → n < 1000000000 → sub64 (pos n) (pos 10) ≡ sub_ℕ n 10
unfolding sub64 wrap64 ◌-ℤ◌
sub_ten n h = ground arith

sub_ten_neg : (n : ℕ) → n < 1000000000 → sub64 (negsuc n) (pos 10) ≡ negsuc (n + 10)
unfolding sub64 wrap64 ◌-ℤ◌
sub_ten_neg n h = ground arith

-- The branch of a negative difference -(d + 1).
down :
    (d : ℕ)
    → d < 2000000000
    → sub64 (pos 0) (quot (add64 (sub64 (pos 0) (negsuc d)) (pos 1)) 2) ≡ neg (pos ((d + 2) / 2))
unfolding sub64 add64 wrap64 ◌-ℤ◌ ◌+ℤ◌ quot
down d h = ground arith

mod_high : (n : ℕ) → n < 1000000000 → 10 ≤ n → ability_mod (pos n) ≡ pos ((n - 10) / 2)
unfolding ability_mod quot
mod_high n h k =
    let e : sub64 (pos n) (pos 10) ≡ pos (n - 10) = ground (arith, sub_ten n h) in
    rw e (ground arith)

mod_low : (n : ℕ) → n < 10 → ability_mod (pos n) ≡ neg (pos ((9 - n + 2) / 2))
unfolding ability_mod
mod_low n h =
    let e : sub64 (pos n) (pos 10) ≡ negsuc (9 - n) = ground (arith, sub_ten n (omega arith)) in
    rw e (ground (arith, down (9 - n) (omega arith)))

mod_neg : (n : ℕ) → n < 1000000000 → ability_mod (negsuc n) ≡ neg (pos ((n + 10 + 2) / 2))
unfolding ability_mod
mod_neg n h = rw (sub_ten_neg n h) (ground (arith, down (n + 10) (omega arith)))

-- The modifier of a score is half of the score less ten, rounded down, for every score below a billion
-- and above minus a billion.
pub ability_mod_floor :
    (score : ℤ)
    → pos_part score < 1000000000
    → neg_part score < 1000000000
    → (ability_mod score +ℤ ability_mod score ≤ℤ score -ℤ pos 10)
      × (score -ℤ pos 10 ≤ℤ ability_mod score +ℤ ability_mod score +ℤ pos 1)
unfolding ◌+ℤ◌ ◌-ℤ◌
ability_mod_floor (pos n) h k = elim (Bool-cases (leb 10 n)) [
  | inl high ↦ rw (mod_high n h (leb→le 10 n high)) (ground arith, ground arith)
  | inr low ↦ rw (mod_low n (ground (arith, low))) (ground arith, ground arith)
]
ability_mod_floor (negsuc n) h k = rw (mod_neg n (omega arith)) (ground arith, ground arith)

-- Four six-sided dice with the lowest dropped: the sum less the least, from 3 to 18.
pub roll_4d6_drop_lowest_lem :
    (a b c d : ℕ)
    → a < 6
    → b < 6
    → c < 6
    → d < 6
    → (roll_4d6_drop_lowest a b c d ≡ pos (a + b + c + d + 4 - (min (min a b) (min c d) + 1)))
      × (3 ≤ pos_part (roll_4d6_drop_lowest a b c d))
      × (pos_part (roll_4d6_drop_lowest a b c d) ≤ 18)
unfolding roll_4d6_drop_lowest
roll_4d6_drop_lowest_lem a b c d ha hb hc hd = (ground arith, ground arith, ground arith)
