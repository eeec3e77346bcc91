-- ===== src/IdleRpg/Bestiary.antt =====
-- The tables of foes of internal/idlerpg/monsters.go, with recordKill and charBestiary of bestiary.go.
use annoybots.Base.{
  ℕ, ◌+◌, Bool, true, false, ◌||◌, [], ◌∷◌, ◌++◌, List, Text, codes, text_eq, if◌then◌else◌,
}
use annoybots.Base.Int.{pos, ltb_ℤ}
use annoybots.State.{MemStore, h_incr}
use annoybots.State.Fields.{field}
use annoybots.IdleRpg.Fight.{Foe}

abbrev foe_of : Text → ℕ → ℕ → ℕ → ℕ → ℕ → ℕ → Bool → Text → Foe
foe_of name low ac atk die hp gold boss biome = record {
  name = name;
  min_level = pos low;
  ac = pos ac;
  atk = pos atk;
  die = die;
  hp = pos hp;
  gold = pos gold;
  boss = boss;
  biome = biome;
}

abbrev pub bestiary : List Foe
bestiary =
    foe_of (codes "a giant rat") 0 10 0 4 4 1 false []
    ∷ foe_of (codes "a goblin") 1 12 2 6 7 3 false []
    ∷ foe_of (codes "a kobold warren-scout") 2 12 3 4 6 4 false []
    ∷ foe_of (codes "an orc") 4 13 4 8 16 8 false []
    ∷ foe_of (codes "a gnoll pack-hunter") 6 14 4 8 24 12 false []
    ∷ foe_of (codes "an ogre") 9 11 5 10 38 22 false []
    ∷ foe_of (codes "a wyvern") 13 15 6 8 55 45 false []
    ∷ foe_of (codes "a young dragon") 18 17 7 12 85 110 false []
    ∷ foe_of (codes "a giant crab") 2 14 2 6 10 5 false (codes "coast")
    ∷ foe_of (codes "a sahuagin raider") 5 13 4 6 18 11 false (codes "coast")
    ∷ foe_of (codes "a griffon") 8 14 5 8 30 18 false (codes "mountain")
    ∷ foe_of (codes "a stone giant") 12 12 6 12 50 30 false (codes "mountain")
    ∷ foe_of (codes "a dire wolf") 3 13 3 8 14 6 false (codes "forest")
    ∷ foe_of (codes "a green hag") 10 15 5 8 36 24 false (codes "forest")
    ∷ foe_of (codes "a bog zombie") 4 9 3 6 20 7 false (codes "swamp")
    ∷ foe_of (codes "a will-o'-wisp") 7 16 4 6 22 16 false (codes "swamp")
    ∷ foe_of (codes "a bandit raider") 2 13 3 6 11 6 false (codes "plains")
    ∷ foe_of (codes "a manticore") 11 14 5 8 44 26 false (codes "plains")
    ∷ foe_of (codes "a skeleton warrior") 3 13 3 6 12 5 false []
    ∷ foe_of (codes "a harpy") 7 14 4 6 26 14 false []
    ∷ foe_of (codes "a basilisk") 10 15 5 8 40 28 false []
    ∷ foe_of (codes "a chimera") 15 16 6 10 64 60 false []
    ∷ foe_of (codes "an elder treant") 12 16 5 12 58 34 false (codes "forest")
    ∷ foe_of (codes "a frost giant") 14 15 6 12 70 52 false (codes "mountain")
    ∷ foe_of (codes "a drowned revenant") 9 12 4 8 34 20 false (codes "coast")
    ∷ foe_of (codes "a hydra") 16 16 6 10 80 75 false (codes "swamp")
    ∷ foe_of (codes "a centaur marauder") 8 14 4 8 30 18 false (codes "plains")
    ∷ []

abbrev pub bosses : List Foe
bosses =
    foe_of (codes "the Tarrasque") 12 18 8 12 160 200 true []
    ∷ foe_of (codes "the Kraken of the Sunless Deep") 16 18 9 12 210 280 true (codes "coast")
    ∷ foe_of (codes "the Lich-King Vol'kresh") 20 19 9 10 240 360 true (codes "swamp")
    ∷ foe_of (codes "Tiamat, Queen of Dragons") 25 20 10 12 300 480 true (codes "mountain")
    ∷ foe_of (codes "Asmodeus, Lord of the Nine Hells") 30 20 11 12 360 640 true []
    ∷ foe_of (codes "the Bog-Mother Grymalkin") 18 19 9 12 230 320 true (codes "swamp")
    ∷ foe_of (codes "Ymir the Frost Titan") 22 19 10 12 280 420 true (codes "mountain")
    ∷ foe_of (codes "Leviathan of the Tides") 28 20 11 12 340 580 true (codes "coast")
    ∷ []

-- `rpg:bt:`, for a player.
unfoldable pub bestiary_key : Text → Text
bestiary_key player = codes "rpg:bt:" ++ player

abbrev pub realm_bestiary_key : Text
realm_bestiary_key = codes "rpg:bt:realm"

unfoldable pub named_in : Text → List Foe → Bool
named_in name [] = false
named_in name (f ∷ rest) = text_eq f.name name || named_in name rest

-- `isSpecies`.
unfoldable pub is_species : Text → Bool
is_species name = named_in name bestiary

unfoldable pub record_kill : MemStore → Text → Text → MemStore
record_kill m key name =
    if is_species name
    then (h_incr (h_incr m (bestiary_key key) name (pos 1)).0 realm_bestiary_key name (pos 1)).0
    else m

-- The species of a table that a character has slain, each counted once.
unfoldable pub seen_of : MemStore → Text → List Foe → ℕ
seen_of m key [] = 0
seen_of m key (f ∷ rest) =
    let more = seen_of m key rest in
    if named_in f.name rest
    then more
    else if ltb_ℤ (pos 0) (field m (bestiary_key key) f.name)
    then more + 1
    else more

unfoldable pub species_of : List Foe → ℕ
species_of [] = 0
species_of (f ∷ rest) =
    let more = species_of rest in if named_in f.name rest then more else more + 1

-- `charBestiary`.
unfoldable pub char_bestiary : MemStore → Text → ℕ × ℕ
char_bestiary m key = (seen_of m key bestiary, species_of bestiary)
