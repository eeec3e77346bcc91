-- ===== src/IdleRpg/Town/Tests.antt =====
-- A purchase at the market of Quietford, and the theorem there.
use annoybots.Base.{ℕ, ◌≡◌, refl, [], ◌∷◌, ◌++◌, Option, some, none, Text, codes, arith}
use annoybots.Base.Int.{ℤ, pos, negsuc, pos_part, neg_part, ◌+ℤ◌}
use annoybots.State.{MemStore}
use annoybots.IdleRpg.{sheet_key, item_field, rarity_field}
use annoybots.IdleRpg.Sheet.{stat}
use annoybots.IdleRpg.Samples.{ann}
use annoybots.IdleRpg.Trade.{Sender, gold}
use annoybots.IdleRpg.Rebirth.{level}
use annoybots.IdleRpg.Hero.{key_of}
use annoybots.IdleRpg.Town.{TownReply, paid, town_command, mx, my}
use annoybots.IdleRpg.Town.Solvent.{Served}
use annoybots.IdleRpg.Town.Commands.{IsModest, town_command-Served}

-- ann, of level 3, stands in Quietford with 100 gold.
abbrev wealthy : MemStore
wealthy = record {
  counters = [];
  zsets = [];
  hashes =
      (sheet_key ann, (level, pos 3) ∷ (gold, pos 100) ∷ (mx, pos 130) ∷ (my, pos 150) ∷ []) ∷ [];
  strs = [];
  lists = [];
}

abbrev says : Sender
says = record { network = codes "libera"; account = []; nick = codes "ann" }

-- The distance of axis-parallel steps.
abbrev steps : ℤ → ℤ → ℤ
steps x y = pos (pos_part x) +ℤ pos (neg_part x) +ℤ pos (pos_part y) +ℤ pos (neg_part y)

bought : MemStore × TownReply
bought = elim (town_command steps wealthy says [] 0 [] (codes "buy") (codes "weapon" ∷ [])) [
  | none ↦ (wealthy, paid (pos 0))
  | some r ↦ r
]

price_run : bought.1 ≡ paid (pos 32)
unfolding annoybots.Account.identity annoybots.Account.resolve annoybots.Base.Int.add64
    annoybots.Base.Int.mul64 annoybots.Base.Int.sub64 annoybots.Base.Int.wrap64
    annoybots.Base.Int.◌-ℤ◌ annoybots.Base.equal_fold annoybots.Base.lookup
    annoybots.Base.lower_byte annoybots.Base.text_eq annoybots.Base.to_lower
    annoybots.IdleRpg.Gear.power annoybots.IdleRpg.Gear.rarity_mult
    annoybots.IdleRpg.Quest.hundredth annoybots.IdleRpg.Town.at_town annoybots.IdleRpg.Town.buy
    annoybots.IdleRpg.Town.dist annoybots.IdleRpg.Town.enrolled annoybots.IdleRpg.Town.first_near
    annoybots.IdleRpg.Town.same_service annoybots.IdleRpg.Town.sell_item
    annoybots.IdleRpg.Town.shop_price annoybots.IdleRpg.Town.town_of
    annoybots.IdleRpg.Town.town_service annoybots.IdleRpg.is_item_slot annoybots.State.Fields.field
    annoybots.State.get_str annoybots.State.h_get_all bought item_field rarity_field sheet_key stat
    town_command ◌+ℤ◌
price_run = refl

bought_run :
    town_command steps wealthy says [] 0 [] (codes "buy") (codes "weapon" ∷ []) ≡ some bought
unfolding annoybots.Base.text_eq bought town_command
bought_run = refl

modest : IsModest wealthy (key_of wealthy says)
unfolding annoybots.Account.identity annoybots.Account.resolve annoybots.Base.lookup
    annoybots.Base.lower_byte annoybots.Base.text_eq annoybots.Base.to_lower
    annoybots.State.Fields.field annoybots.State.get_str annoybots.State.h_get_all item_field
    rarity_field sheet_key stat
modest = record {
  coins = 100;
  rank = 3;
  item = λ slot. 0;
  tier = λ slot. 0;
  has_coins = refl;
  small = omega arith;
  has_rank = refl;
  low = omega arith;
  has_item = λ slot. refl;
  light = λ slot. omega arith;
  has_tier = λ slot. refl;
}

town_command-Served_example : Served wealthy (key_of wealthy says) bought
town_command-Served_example =
    town_command-Served steps wealthy says modest [] 0 [] (codes "buy") (codes "weapon" ∷ []) bought
      bought_run
