-- ===== src/IdleRpg/Gear.antt =====
-- internal/idlerpg/loot.go and affix.go: rarities and magical properties of equipment, and itemSum of
-- idlerpg.go. The draws are arguments.
use Prim.Native.Nat.{bit_and}
use annoybots.Base.{
  ℕ, zero, suc, ◌+◌, ◌-◌, ◌*◌, ◌/◌, ◌%◌, ◌^◌, ◌≡◌, ◌==◌, Bool, true, false, not, ◌||◌, ◌&&◌, [],
  ◌∷◌, List, Option, none, some, Text, get_elem?, length, take, ltb, leb, if◌then◌else◌,
}
use annoybots.Base.Int.{ℤ, pos, negsuc, pos_part, eq_ℤ, leb_ℤ, ltb_ℤ, add64, mul64, quot}
use annoybots.IdleRpg.{item_slots, item_field, rarity_field, affix_field}
use annoybots.IdleRpg.Quest.{hundredth}
use annoybots.IdleRpg.Hero.{Sheet}
pub mod Affixes
mod Tests

pub record Rarity : Type 0 where
  pub weight : ℕ
  pub mult : ℤ
  pub named : Bool

-- Common, uncommon, rare, epic and legendary.
abbrev pub rarities : List Rarity
rarities =
    record { weight = 690; mult = pos 100; named = false }
    ∷ record { weight = 200; mult = pos 130; named = false }
    ∷ record { weight = 80; mult = pos 170; named = false }
    ∷ record { weight = 25; mult = pos 220; named = true }
    ∷ record { weight = 5; mult = pos 300; named = true }
    ∷ []

abbrev pub legendary : ℕ
legendary = 4

unfoldable pub rarity_mult : ℤ → ℤ
rarity_mult (negsuc n) = pos 100
rarity_mult (pos n) = elim (get_elem? rarities n) [ none ↦ pos 100 | some r ↦ r.mult ]

-- The first tier whose weights, with those before it, exceed the roll.
unfoldable pub tier_of : ℕ → ℕ → ℕ → List Rarity → ℕ
tier_of roll acc i [] = length rarities - 1
tier_of roll acc i (r ∷ rest) =
    if ltb roll (acc + r.weight) then i else tier_of roll (acc + r.weight) (i + 1) rest

-- `pickRarity`, for a level that is not negative and the result of `roll(1000)`.
unfoldable pub pick_rarity : ℕ → ℕ → ℕ
unfolding tier_of
pick_rarity level draw =
    let roll = draw + level * 4 in tier_of (if ltb 999 roll then 999 else roll) 0 0 rarities

-- An item's power.
unfoldable pub power : ℤ → ℤ → ℤ
power level tier = hundredth (mul64 level (rarity_mult tier))

unfoldable pub item_sum_of : Sheet → List Text → ℤ
item_sum_of sheet [] = pos 0
item_sum_of sheet (slot ∷ rest) =
    let lvl = sheet (item_field slot) in
    let sum = item_sum_of sheet rest in
    if ltb_ℤ (pos 0) lvl then add64 sum (power lvl (sheet (rarity_field slot))) else sum

unfoldable pub item_sum : Sheet → ℤ
item_sum sheet = item_sum_of sheet item_slots

-- The bits of the properties: vampiric, thorned, keen, vital, warded and swift.
abbrev pub affix_bits : List ℕ
affix_bits = 0 ∷ 1 ∷ 2 ∷ 3 ∷ 4 ∷ 5 ∷ []

-- `mask & (1 << k) != 0`, with the two's complement of a negative mask.
unfoldable pub bit_set : ℤ → ℕ → Bool
bit_set (pos n) k = n / 2 ^ k % 2 == 1
bit_set (negsuc n) k = n / 2 ^ k % 2 == 0

pub record AffixMods : Type 0 where
  pub lifesteal : ℤ
  pub thorns : ℤ
  pub keen : ℤ
  pub vital : ℤ
  pub warded : ℤ
  pub swift : ℤ

abbrev pub no_affixes : AffixMods
no_affixes = record {
  lifesteal = pos 0;
  thorns = pos 0;
  keen = pos 0;
  vital = pos 0;
  warded = pos 0;
  swift = pos 0;
}

unfoldable pub gain : Bool → ℤ → ℤ → ℤ
gain on total tier = if on then add64 total tier else total

-- The properties of one item with the bits of a mask.
unfoldable pub add_affixes : ℤ → ℤ → AffixMods → AffixMods
add_affixes mask tier am = record {
  lifesteal = gain (bit_set mask 0) am.lifesteal tier;
  thorns = gain (bit_set mask 1) am.thorns tier;
  keen = gain (bit_set mask 2) am.keen tier;
  vital = gain (bit_set mask 3) am.vital (mul64 tier (pos 3));
  warded = gain (bit_set mask 4) am.warded tier;
  swift = gain (bit_set mask 5) am.swift tier;
}

-- One round of the loop of `affixesOf`.
unfoldable pub slot_affixes : Sheet → AffixMods → Text → AffixMods
slot_affixes sheet am slot =
    let mask = sheet (affix_field slot) in
    if eq_ℤ mask (pos 0) || leb_ℤ (sheet (item_field slot)) (pos 0)
    then am
    else add_affixes mask (add64 (sheet (rarity_field slot)) (pos 1)) am

unfoldable pub affixes_from : Sheet → AffixMods → List Text → AffixMods
affixes_from sheet am [] = am
affixes_from sheet am (slot ∷ rest) = affixes_from sheet (slot_affixes sheet am slot) rest

unfoldable pub affixes_of : Sheet → AffixMods
affixes_of sheet =
    let am = affixes_from sheet no_affixes item_slots in
    if ltb_ℤ (pos 4) am.keen then record am { keen = pos 4 } else am

-- `countBits`: each round clears the lowest bit, so 63 rounds clear a mask that is not negative.
unfoldable pub count_loop : ℕ → ℕ → ℕ
count_loop zero mask = 0
count_loop (suc rounds) mask =
    let rest = count_loop rounds (bit_and mask (mask - 1)) in if mask == 0 then 0 else suc rest

unfoldable pub count_bits : ℕ → ℕ
unfolding count_loop
count_bits mask = count_loop 63 mask

-- `affixCount`, with the result of `roll(2)`.
unfoldable pub affix_count : ℕ → ℕ → ℕ
affix_count tier draw =
    if tier == 1
    then draw
    else if tier == 2
    then 1
    else if tier == 3
    then 1 + draw
    else if tier == 4
    then 2 + draw
    else 0

-- `mask |= 1 << k`, for a mask that is not negative.
unfoldable pub with_bit : ℕ → ℕ → ℕ
unfolding bit_set
with_bit mask k = if bit_set (pos mask) k then mask else mask + 2 ^ k

-- The loop of `rollAffixes`, with a draw of a property for each round.
unfoldable pub fill_affixes : ℕ → ℕ → List ℕ → ℕ
fill_affixes want mask [] = mask
fill_affixes want mask (k ∷ draws) =
    if ltb (count_bits mask) want then fill_affixes want (with_bit mask k) draws else mask

-- `rollAffixes`: at most four rounds for each property that is wanted.
unfoldable pub roll_affixes : ℕ → List ℕ → ℕ
unfolding fill_affixes
roll_affixes want draws = fill_affixes want 0 (take (want * 4) draws)

abbrev pub affix_cap : ℕ
affix_cap = 4

-- The bits of the properties that a mask lacks.
unfoldable pub missing_bits : ℕ → List ℕ → List ℕ
missing_bits mask [] = []
missing_bits mask (k ∷ rest) =
    let more = missing_bits mask rest in if bit_set (pos mask) k then more else 2 ^ k ∷ more

-- `awakenAffix`, for a mask that is not negative: the bit that is drawn is not in the mask, so the
-- union is a sum.
unfoldable pub awaken_affix : ℕ → ℕ → ℕ
unfolding missing_bits count_bits bit_set
awaken_affix mask draw =
    if leb affix_cap (count_bits mask)
    then mask
    else elim (get_elem? (missing_bits mask affix_bits) draw) [
      | none ↦ mask
      | some bit ↦ mask + bit
    ]
