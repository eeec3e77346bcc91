-- ===== src/IdleRpg/Gear/Affixes.antt =====
-- The masks of internal/idlerpg/affix.go: what a drop rolls and what enchanting awakens.
use annoybots.Base.{
  ℕ, zero, suc, ◌+◌, ◌*◌, ◌≤◌, ◌<◌, ◌≡◌, refl, ◌==◌, ==_iff, Bool, true, not, ◌||◌, ◌&&◌, [], ◌∷◌,
  List, All, take, length, ltb, leb, arith, if◌then◌else◌, Bool-cases, inl, inr,
}
use annoybots.Base.Int.{pos}
use annoybots.IdleRpg.Gear.{
  affix_bits, bit_set, count_bits, missing_bits, awaken_affix, with_bit, fill_affixes, roll_affixes,
}

-- Whether a test holds of the first n numbers.
abbrev first_pass : (ℕ → Bool) → ℕ → Bool
first_pass ok zero = true
first_pass ok (suc n) = first_pass ok n && ok n

first_pass-at : (ok : ℕ → Bool) (n k : ℕ) → k < n → first_pass ok n ≡ true → ok k ≡ true
first_pass-at ok zero k below every = absurd (omega arith)
first_pass-at ok (suc n) k below every = ground (arith, first_pass-at ok n k)

-- Whether `next` has the bits of `mask`.
abbrev pub keeps : ℕ → ℕ → Bool
keeps mask next = first_pass (λ k. not (bit_set (pos mask) k) || bit_set (pos next) k) 6

awakened_ok : ℕ → ℕ → Bool
awakened_ok mask draw =
    let next = awaken_affix mask draw in
    ltb next 64
    && keeps mask next
    && (count_bits next == (
        if ltb (count_bits mask) 4 && ltb draw (length (missing_bits mask affix_bits))
        then count_bits mask + 1
        else count_bits mask))

awakened_table : first_pass (λ mask. first_pass (awakened_ok mask) 6) 64 ≡ true
unfolding awakened_ok awaken_affix
awakened_table = refl

with_bit_ok : ℕ → ℕ → Bool
with_bit_ok mask k =
    let next = with_bit mask k in
    ltb next 64
    && keeps mask next
    && bit_set (pos next) k
    && leb (count_bits next) (count_bits mask + 1)

with_bit_table : first_pass (λ mask. first_pass (with_bit_ok mask) 6) 64 ≡ true
unfolding with_bit_ok with_bit count_bits
with_bit_table = refl

-- Enchanting an item with the six known properties keeps all that it has and, where it has fewer than
-- four and the draw picks one that it lacks, adds exactly one; otherwise it changes nothing in number.
pub awaken_affix-count :
    (mask draw : ℕ)
    → mask < 64
    → draw < 6
    → (awaken_affix mask draw < 64)
      × (keeps mask (awaken_affix mask draw) ≡ true)
      × (count_bits (awaken_affix mask draw) ≡ (
          if ltb (count_bits mask) 4 && ltb draw (length (missing_bits mask affix_bits))
          then count_bits mask + 1
          else count_bits mask))
unfolding awakened_ok
awaken_affix-count mask draw h k = ground (
  arith,
  ==_iff (count_bits (awaken_affix mask draw)) (
      if ltb (count_bits mask) 4 && ltb draw (length (missing_bits mask affix_bits))
      then count_bits mask + 1
      else count_bits mask),
  first_pass-at (awakened_ok mask) 6 draw k
      (first_pass-at (λ x. first_pass (awakened_ok x) 6) 64 mask h awakened_table),
)

with_bit-count :
    (mask k : ℕ)
    → mask < 64
    → k < 6
    → (with_bit mask k < 64) × (count_bits (with_bit mask k) ≤ count_bits mask + 1)
unfolding with_bit_ok
with_bit-count mask k h l = ground (
  arith,
  first_pass-at (with_bit_ok mask) 6 k l
      (first_pass-at (λ x. first_pass (with_bit_ok x) 6) 64 mask h with_bit_table),
)

fill_affixes-le :
    (want mask : ℕ) (draws : List ℕ)
    → mask < 64
    → count_bits mask ≤ want
    → All (λ k. k < 6) draws
    → (fill_affixes want mask draws < 64) × (count_bits (fill_affixes want mask draws) ≤ want)
unfolding fill_affixes
fill_affixes-le want mask [] h c d = (h, c)
fill_affixes-le want mask (k ∷ draws) h c d = elim (Bool-cases (ltb (count_bits mask) want)) [
  | inl more ↦
      let next = with_bit-count mask k h d.0 in
      rw more (fill_affixes-le want (with_bit mask k) draws next.0 (ground (arith, next.1)) d.1)
  | inr full ↦ rw full (h, c)
]

All-take : {A : Type 0} (P : A → Type 0) (n : ℕ) (xs : List A) → All P xs → All P (take n xs)
All-take P zero xs h = tt
All-take P (suc n) [] h = tt
All-take P (suc n) (x ∷ xs) h = (h.0, All-take P n xs h.1)

-- What a drop rolls has known properties only, and no more of them than its rarity gives it.
pub roll_affixes-le :
    (want : ℕ) (draws : List ℕ)
    → All (λ k. k < 6) draws
    → (roll_affixes want draws < 64) × (count_bits (roll_affixes want draws) ≤ want)
unfolding roll_affixes count_bits
roll_affixes-le want draws h =
    fill_affixes-le want 0 (take (want * 4) draws) (omega arith) (rw count_none (omega arith))
      (All-take (λ k. k < 6) (want * 4) draws h)
  where
    count_none : count_bits 0 ≡ 0
    count_none = refl
