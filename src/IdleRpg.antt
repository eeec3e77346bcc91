-- ===== src/IdleRpg.antt =====
-- internal/idlerpg: the idle game, over the store. This file has the keys and fields of a character
-- sheet (idlerpg.go, loot.go, affix.go, stash.go, classes in the sheet's strings).
use annoybots.Base.{
  ℕ, Bool, true, false, ◌||◌, [], ◌∷◌, ◌++◌, List, Option, none, some, Text, Map, codes, text_eq,
  to_lower,
}
use annoybots.Base.Int.{ℤ, pos}
use annoybots.State.{MemStore, h_get_all, h_set}
pub mod Sheet
pub mod Stash
pub mod Trade
pub mod Feats
pub mod Guild
pub mod Quest
pub mod Rebirth
pub mod Hero
pub mod Gear
pub mod Health
pub mod Town
pub mod Loot
pub mod Fight
pub mod Game
pub mod Weather
pub mod Omens
pub mod Bestiary
pub mod Luck
pub mod Roam
pub mod Samples

abbrev pub item_slots : List Text
item_slots =
    codes "ring"
    ∷ codes "amulet"
    ∷ codes "charm"
    ∷ codes "weapon"
    ∷ codes "helm"
    ∷ codes "tunic"
    ∷ codes "gloves"
    ∷ codes "leggings"
    ∷ codes "shield"
    ∷ codes "boots"
    ∷ []

unfoldable pub item_field : Text → Text
item_field slot = codes "item:" ++ slot

unfoldable pub rarity_field : Text → Text
rarity_field slot = codes "ir:" ++ slot

unfoldable pub affix_field : Text → Text
affix_field slot = codes "af:" ++ slot

unfoldable pub sheet_key : Text → Text
sheet_key player = codes "rpg:p:" ++ player

unfoldable pub stash_key : Text → Text
stash_key player = codes "rpg:stash:" ++ player

unfoldable pub name_key : Text → Text → Text
name_key player slot = codes "rpg:in:" ++ player ++ (b':' ∷ slot)

unfoldable pub class_key : Text → Text
class_key player = codes "rpg:class:" ++ player

abbrev pub board_key : Text
board_key = codes "rpg:lvl"

abbrev pub guilds_key : Text
guilds_key = codes "rpg:guilds"

abbrev pub quest_key : Text
quest_key = codes "rpg:quest"

abbrev is_one : List Text → Text → Bool
is_one [] s = false
is_one (slot ∷ rest) s = text_eq slot s || is_one rest s

-- `isItemSlot`.
unfoldable pub is_item_slot : Text → Bool
is_item_slot s = is_one item_slots (to_lower s)

abbrev pub is_nil {ℓ} : {A : Type ℓ} → List A → Bool
is_nil [] = true
is_nil (x ∷ xs) = false

-- `len(sheet) == 0`: the player has no character.
unfoldable pub no_sheet : MemStore → Text → Bool
no_sheet m player = is_nil (h_get_all m (sheet_key player))
