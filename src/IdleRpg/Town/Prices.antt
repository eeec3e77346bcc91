-- ===== src/IdleRpg/Town/Prices.antt =====
-- The prices of internal/idlerpg: what they are for the levels that the game reaches.
use annoybots.Base.{ℕ, zero, suc, ◌+◌, ◌*◌, ◌<◌, ◌≡◌, arith}
use annoybots.Base.Int.{pos, add64, mul64, wrap64, ◌+ℤ◌}
use annoybots.IdleRpg.Town.{
  shop_price, potion_price, mount_price, bless_price, revive_price, enchant_cost,
}

-- A billion.
abbrev pub high : ℕ
high = 1000000000

add_pos : (a b : ℕ) → a + b < 9223372036854775808 → add64 (pos a) (pos b) ≡ pos (a + b)
unfolding add64 wrap64 ◌+ℤ◌
add_pos a b h = ground arith

mul_pos : (a b : ℕ) → a * b < 9223372036854775808 → mul64 (pos a) (pos b) ≡ pos (a * b)
unfolding mul64 wrap64
mul_pos a b h = ground arith

pub price_lem :
    (n : ℕ)
    → n < high
    → (shop_price (pos n) ≡ pos (8 * n + 8))
      × (potion_price (pos n) ≡ pos (2 * n + 15))
      × (mount_price (pos n) ≡ pos (8 * n + 400))
      × (bless_price (pos n) ≡ pos (3 * n + 25))
      × (revive_price (pos n) ≡ pos (4 * n + 15))
unfolding shop_price potion_price mount_price bless_price revive_price add64 mul64 wrap64 ◌+ℤ◌
price_lem n h = (ground arith, ground arith, ground arith, ground arith, ground arith)

-- The cost of the next tier of an item grows with the square of the tier.
pub enchant_cost_lem :
    (n t : ℕ)
    → n < high
    → t < 4
    → enchant_cost (pos n) (pos t) ≡ pos ((n + 5) * ((t + 1) * (t + 1)) * 25)
unfolding enchant_cost add64 mul64 wrap64 ◌+ℤ◌
enchant_cost_lem n zero h k = ground arith
enchant_cost_lem n (suc zero) h k = ground arith
enchant_cost_lem n (suc (suc zero)) h k = ground arith
enchant_cost_lem n (suc (suc (suc zero))) h k = ground arith
enchant_cost_lem n (suc (suc (suc (suc t)))) h k = absurd (omega arith)
