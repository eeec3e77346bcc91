-- ===== src/IdleRpg/Loot.antt =====
-- findItem of internal/idlerpg/idlerpg.go, with recordFind of bestiary.go: an item that a character
-- comes upon. The draws, the properties rolled and the magic name are arguments.
use annoybots.Base.{
  ℕ, ◌++◌, [], ◌∷◌, List, none, some, Text, codes, get_elem?, leb, ◌==◌, if◌then◌else◌,
}
use annoybots.Base.Int.{ℤ, pos, leb_ℤ, ltb_ℤ, add64, quot}
use annoybots.State.{MemStore, h_set, h_incr, set_str, del}
use annoybots.IdleRpg.{sheet_key, name_key, item_field, rarity_field, affix_field}
use annoybots.IdleRpg.Sheet.{stat}
use annoybots.IdleRpg.Trade.{gold}
use annoybots.IdleRpg.Feats.{bump_stat, hail_legendary}
use annoybots.IdleRpg.Gear.{power, legendary}

unfoldable pub collection_key : Text → Text
collection_key player = codes "rpg:coll:" ++ player

-- The names of the tiers, which the collection log has for its fields.
abbrev pub rarity_names : List Text
rarity_names =
    codes "common" ∷ codes "uncommon" ∷ codes "rare" ∷ codes "epic" ∷ codes "legendary" ∷ []

-- `rarityName`, for a tier that is not negative.
unfoldable pub rarity_name : ℕ → Text
rarity_name tier = elim (get_elem? rarity_names tier) [ none ↦ codes "common" | some name ↦ name ]

unfoldable pub record_find : MemStore → Text → ℕ → MemStore
record_find m key tier = (h_incr m (collection_key key) (rarity_name tier) (pos 1)).0

-- An item that is come upon: its slot, its level, its tier, its properties, and its name if its tier
-- has one.
pub record Find : Type 0 where
  pub slot : Text
  pub found : ℤ
  pub tier : ℕ
  pub mask : ℤ
  pub name : Text

-- The gold for the item that is replaced.
unfoldable pub scrap_for : ℤ → ℤ
scrap_for cur_pow = if ltb_ℤ (pos 0) cur_pow then add64 (quot cur_pow 3) (pos 1) else pos 0

unfoldable pub salvage : MemStore → Text → ℤ → MemStore
salvage m key cur_pow =
    if ltb_ℤ (pos 0) cur_pow
    then bump_stat (h_incr m (sheet_key key) gold (scrap_for cur_pow)).0 (codes "gold")
        (scrap_for cur_pow)
    else m

unfoldable pub don : MemStore → Text → Find → MemStore
don m key f =
    let m1 = h_set m (sheet_key key) (item_field f.slot) f.found in
    let m2 = h_set m1 (sheet_key key) (rarity_field f.slot) (pos f.tier) in
    let m3 = h_set m2 (sheet_key key) (affix_field f.slot) f.mask in
    if leb 3 f.tier then set_str m3 (name_key key f.slot) f.name else del m3 (name_key key f.slot)

-- The power of what is worn in the slot.
unfoldable pub worn_power : MemStore → Text → Text → ℤ
worn_power m key slot = power (stat m key (item_field slot)) (stat m key (rarity_field slot))

unfoldable pub find_item : MemStore → Text → Find → MemStore
find_item m key f =
    let cur_pow = worn_power m key f.slot in
    if leb_ℤ (power f.found (pos f.tier)) cur_pow
    then m
    else (let m1 = record_find (don (salvage m key cur_pow) key f) key f.tier in
        if f.tier == legendary then hail_legendary m1 key else m1)
