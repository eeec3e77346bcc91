-- ===== src/IdleRpg/Town.antt =====
-- internal/idlerpg/towns.go, with enchant.go, mounts.go, bless of statuses.go and buyPotion of
-- potions.go: what gold buys. The rounded hypotenuse of package math is the parameter `hypot`, the
-- names of magic items are an argument, and so are the draws.
use annoybots.Base.{
  ℕ, zero, suc, ◌+◌, Bool, true, false, not, ◌||◌, ◌&&◌, [], ◌∷◌, ◌++◌, List, Option, none, some,
  Text, codes, text_eq, to_lower, trim_space, equal_fold, join_space, get_elem?, lookup, has,
  if◌then◌else◌,
}
use annoybots.Base.Int.{ℤ, pos, neg, pos_part, leb_ℤ, ltb_ℤ, eq_ℤ, add64, sub64, mul64}
use annoybots.State.{MemStore, h_set, h_incr, h_get_all, get_str, set_str, del}
use annoybots.IdleRpg.{
  sheet_key, class_key, name_key, item_field, rarity_field, affix_field, is_item_slot, no_sheet,
}
use annoybots.IdleRpg.Sheet.{stat}
use annoybots.IdleRpg.Trade.{Sender, gold}
use annoybots.IdleRpg.Rebirth.{level}
use annoybots.IdleRpg.Hero.{Sheet, key_of}
use annoybots.IdleRpg.Gear.{rarity_mult, power, awaken_affix, legendary}
use annoybots.IdleRpg.Feats.{hail_legendary}
use annoybots.IdleRpg.Health.{dmg, bless, pots, is_downed, mend, poisoned, blessed, bless_ticks}
pub mod Prices
pub mod Solvent
pub mod Commands
mod Tests

pub data Service : Type 0 where
  inn market temple : Service

pub record Town : Type 0 where
  pub name : Text
  pub x : ℤ
  pub y : ℤ
  pub service : Service
  pub terrain : Text

abbrev town_at : Text → ℕ → ℕ → Service → Text → Town
town_at name x y service terrain = record {
  name = name;
  x = pos x;
  y = pos y;
  service = service;
  terrain = terrain;
}

abbrev pub towns : List Town
towns =
    town_at (codes "Idlecrest") 250 250 temple (codes "plains")
    ∷ town_at (codes "Lurk Harbor") 70 410 market (codes "coast")
    ∷ town_at (codes "Mount AFK") 420 90 inn (codes "mountain")
    ∷ town_at (codes "Quietford") 130 150 market (codes "forest")
    ∷ town_at (codes "The Lag Marsh") 360 380 temple (codes "swamp")
    ∷ town_at (codes "Tab-Away Tavern") 200 60 inn (codes "plains")
    ∷ []

abbrev pub town_radius : ℤ
town_radius = pos 25

abbrev pub mx : Text
mx = codes "mx"

abbrev pub my : Text
my = codes "my"

abbrev pub dest : Text
dest = codes "dest"

unfoldable pub same_service : Service → Service → Bool
same_service inn inn = true
same_service market market = true
same_service temple temple = true
same_service inn market = false
same_service inn temple = false
same_service market inn = false
same_service market temple = false
same_service temple inn = false
same_service temple market = false

unfoldable pub town_named : Text → ℕ → List Town → Option (ℕ × Town)
town_named name i [] = none
town_named name i (t ∷ rest) =
    if text_eq (to_lower t.name) name then some (i, t) else town_named name (i + 1) rest

unfoldable pub town_by_name : Text → Option (ℕ × Town)
town_by_name name = town_named (to_lower (trim_space name)) 0 towns

unfoldable pub mount_key : Text → Text
mount_key player = codes "rpg:mount:" ++ player

unfoldable pub shop_price : ℤ → ℤ
shop_price lvl = mul64 (add64 lvl (pos 1)) (pos 8)

unfoldable pub potion_price : ℤ → ℤ
potion_price lvl = add64 (pos 15) (mul64 lvl (pos 2))

unfoldable pub mount_price : ℤ → ℤ
mount_price lvl = add64 (pos 400) (mul64 lvl (pos 8))

unfoldable pub bless_price : ℤ → ℤ
bless_price lvl = add64 (pos 25) (mul64 lvl (pos 3))

unfoldable pub revive_price : ℤ → ℤ
revive_price lvl = add64 (pos 15) (mul64 lvl (pos 4))

-- `enchantCost`.
unfoldable pub enchant_cost : ℤ → ℤ → ℤ
enchant_cost lvl tier =
    let target = add64 tier (pos 1) in
    mul64 (mul64 (mul64 (add64 lvl (pos 5)) target) target) (pos 25)

pub data TownReply : Type 0 where
  usage no_town not_playing healthy shown already blessed_already not_downed nothing_there :
      TownReply
  better at_the_top : TownReply
  no_service : Service → TownReply
  too_poor : ℤ → TownReply
  travelling : Town → TownReply
  paid : ℤ → TownReply

-- `sheet["level"]` is there.
unfoldable pub enrolled : MemStore → Text → Bool
enrolled m key = has (lookup level (h_get_all m (sheet_key key)))

unfoldable pub pay : MemStore → Text → ℤ → MemStore
pay m key price = (h_incr m (sheet_key key) gold (neg price)).0

-- `setTravel`, with the words after the verb.
unfoldable pub set_travel : MemStore → Sender → List Text → MemStore × TownReply
set_travel m msg [] = (m, usage)
set_travel m msg (w ∷ words) = elim (town_by_name (join_space (w ∷ words))) [
  | none ↦ (m, no_town)
  | some (i, t) ↦
      let key = key_of m msg in
      if no_sheet m key
      then (m, not_playing)
      else (h_set m (sheet_key key) dest (add64 (pos i) (pos 1)), travelling t)
]

-- What a service does for the character of a key.
abbrev pub Serve : Type 0
Serve = MemStore → Text → MemStore × TownReply

unfoldable pub at_rest : Serve
at_rest m key =
    if eq_ℤ (stat m key dmg) (pos 0) && not (poisoned (stat m key))
    then (m, healthy)
    else (mend m key, paid (pos 0))

unfoldable pub show_shop : Serve
show_shop m key = (m, shown)

unfoldable pub sell_potion : Serve
sell_potion m key =
    let price = potion_price (stat m key level) in
    if ltb_ℤ (stat m key gold) price
    then (m, too_poor price)
    else ((h_incr (pay m key price) (sheet_key key) pots (pos 1)).0, paid price)

unfoldable pub sell_mount : Text → Serve
sell_mount mount m key =
    let price = mount_price (stat m key level) in
    if not (text_eq (get_str m (mount_key key)) [])
    then (m, already)
    else if ltb_ℤ (stat m key gold) price
    then (m, too_poor price)
    else (set_str (pay m key price) (mount_key key) mount, paid price)

unfoldable pub sell_item : Text → Serve
sell_item slot m key =
    let price = shop_price (stat m key level) in
    let new_level = add64 (stat m key level) (pos 1) in
    if ltb_ℤ (stat m key gold) price
    then (m, too_poor price)
    else if leb_ℤ new_level (power (stat m key (item_field slot)) (stat m key (rarity_field slot)))
    then (m, better)
    else (
      del
          (h_set (h_set (pay m key price) (sheet_key key) (item_field slot) new_level)
            (sheet_key key) (rarity_field slot) (pos 0))
          (name_key key slot),
      paid price,
    )

unfoldable pub sell_blessing : Serve
sell_blessing m key =
    let price = bless_price (stat m key level) in
    if blessed (stat m key)
    then (m, blessed_already)
    else if ltb_ℤ (stat m key gold) price
    then (m, too_poor price)
    else (h_set (pay m key price) (sheet_key key) bless bless_ticks, paid price)

unfoldable pub raise_dead : Serve
raise_dead m key =
    let price = revive_price (stat m key level) in
    if not (is_downed (stat m key) (get_str m (class_key key)))
    then (m, not_downed)
    else if ltb_ℤ (stat m key gold) price
    then (m, too_poor price)
    else (mend (pay m key price) key, paid price)

-- What a new tier brings: an epic or a legendary item is named, and a legendary one is celebrated.
unfoldable pub christen : MemStore → Text → Text → ℤ → Text → MemStore
christen m key slot tier name =
    let named = if leb_ℤ (pos 3) tier then set_str m (name_key key slot) name else m in
    if leb_ℤ (pos legendary) tier then hail_legendary named key else named

-- `enchant` at the market, with the draw of the new property and the new name.
unfoldable pub enchant_item : Text → ℕ → Text → Serve
enchant_item slot draw name m key =
    let lvl = stat m key (item_field slot) in
    let tier = stat m key (rarity_field slot) in
    let cost = enchant_cost lvl tier in
    let next = add64 tier (pos 1) in
    if leb_ℤ lvl (pos 0)
    then (m, nothing_there)
    else if leb_ℤ (pos legendary) tier
    then (m, at_the_top)
    else if ltb_ℤ (stat m key gold) cost
    then (m, too_poor cost)
    else (
      christen
          (h_set (h_set (pay m key cost) (sheet_key key) (rarity_field slot) next) (sheet_key key)
            (affix_field slot) (pos (awaken_affix (pos_part (stat m key (affix_field slot))) draw)))
          key slot next name,
      paid cost,
    )

module _ (hypot : ℤ → ℤ → ℤ) where
  unfoldable pub dist : ℤ → ℤ → Town → ℤ
  dist x y t = hypot (sub64 x t.x) (sub64 y t.y)

  unfoldable pub first_near : ℤ → ℤ → List Town → Option Town
  first_near x y [] = none
  first_near x y (t ∷ rest) = if leb_ℤ (dist x y t) town_radius then some t else first_near x y rest

  unfoldable pub at_town : ℤ → ℤ → Option Town
  at_town x y = first_near x y towns

  unfoldable pub nearer : ℤ → ℤ → Town → List Town → Town
  nearer x y best [] = best
  nearer x y best (t ∷ rest) =
      nearer x y (if ltb_ℤ (dist x y t) (dist x y best) then t else best) rest

  unfoldable pub nearest_town : ℤ → ℤ → Town
  nearest_town x y = elim towns [
    | [] ↦ record { name = []; x = pos 0; y = pos 0; service = inn; terrain = [] }
    | (t ∷ rest) ↦ nearer x y t rest
  ]

  -- `biomeOf`.
  unfoldable pub biome_of : ℤ → ℤ → Text
  biome_of x y = (nearest_town x y).terrain

  -- Where a placed character stands.
  unfoldable pub town_of : Sheet → Option Town
  town_of sheet =
      if eq_ℤ (sheet mx) (pos 0) || eq_ℤ (sheet my) (pos 0)
      then none
      else at_town (sheet mx) (sheet my)

  -- `townService`.
  unfoldable pub town_service : MemStore → Sender → Service → Serve → MemStore × TownReply
  town_service m msg service serve =
      let key = key_of m msg in
      if not (enrolled m key) then (m, not_playing) else elim (town_of (stat m key)) [
        | none ↦ (m, no_service service)
        | some t ↦ if same_service t.service service then serve m key else (m, no_service service)
      ]

  unfoldable pub rest : MemStore → Sender → MemStore × TownReply
  rest m msg = town_service m msg inn at_rest

  unfoldable pub shop : MemStore → Sender → MemStore × TownReply
  shop m msg = town_service m msg market show_shop

  unfoldable pub buy_potion : MemStore → Sender → MemStore × TownReply
  buy_potion m msg = town_service m msg market sell_potion

  unfoldable pub buy_mount : MemStore → Sender → Text → MemStore × TownReply
  buy_mount m msg mount = town_service m msg market (sell_mount mount)

  unfoldable pub bless_at : MemStore → Sender → MemStore × TownReply
  bless_at m msg = town_service m msg temple sell_blessing

  unfoldable pub revive : MemStore → Sender → MemStore × TownReply
  revive m msg = town_service m msg temple raise_dead

  -- `buy`, with the words after the verb and the mount that the draw picks.
  unfoldable pub buy : MemStore → Sender → Text → List Text → MemStore × TownReply
  buy m msg mount [] = (m, usage)
  buy m msg mount (word ∷ words) =
      if equal_fold word (codes "potion")
      then buy_potion m msg
      else if equal_fold word (codes "mount")
      then buy_mount m msg mount
      else if not (is_item_slot word)
      then (m, usage)
      else town_service m msg market (sell_item (to_lower word))

  unfoldable pub enchant : MemStore → Sender → ℕ → Text → List Text → MemStore × TownReply
  enchant m msg draw name [] = (m, usage)
  enchant m msg draw name (word ∷ words) =
      if not (is_item_slot word)
      then (m, usage)
      else town_service m msg market (enchant_item (to_lower word) draw name)

  -- The verbs of `command` that a town serves, `none` for another verb.
  unfoldable pub town_command :
      MemStore → Sender → Text → ℕ → Text → Text → List Text → Option (MemStore × TownReply)
  town_command m msg mount draw name verb words =
      if text_eq verb (codes "travel")
      then some (set_travel m msg words)
      else if text_eq verb (codes "rest")
      then some (rest m msg)
      else if text_eq verb (codes "shop")
      then some (shop m msg)
      else if text_eq verb (codes "buy")
      then some (buy m msg mount words)
      else if text_eq verb (codes "enchant")
      then some (enchant m msg draw name words)
      else if text_eq verb (codes "revive")
      then some (revive m msg)
      else if text_eq verb (codes "bless")
      then some (bless_at m msg)
      else none
