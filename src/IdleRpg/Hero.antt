-- ===== src/IdleRpg/Hero.antt =====
-- internal/idlerpg/abilities.go, classes.go, races.go and alignment.go, with setClass, setRace and
-- setAlign of idlerpg.go: what a character is. The dice are arguments, as the results of `roll`.
use annoybots.Base.{
  ℕ, ◌+◌, ◌≡◌, Bool, true, false, not, ◌||◌, ◌&&◌, [], ◌∷◌, ◌++◌, List, Option, none, some, Text,
  Map, codes, text_eq, to_lower, trim_space, leb, drop, has, if◌then◌else◌,
}
use annoybots.Base.Int.{ℤ, pos, negsuc, eq_ℤ, leb_ℤ, ltb_ℤ, add64, sub64, quot}
use annoybots.State.{MemStore, h_set, h_incr, set_str, get_str}
use annoybots.Account.{resolve}
use annoybots.IdleRpg.{sheet_key, class_key, no_sheet}
use annoybots.IdleRpg.Sheet.{stat}
use annoybots.IdleRpg.Trade.{Sender}
pub mod Scores
mod Tests

-- A sheet that has been read: a missing field reads 0.
abbrev pub Sheet : Type 0
Sheet = Text → ℤ

abbrev pub abilities : List Text
abilities = codes "str" ∷ codes "dex" ∷ codes "con" ∷ codes "int" ∷ codes "wis" ∷ codes "cha" ∷ []

-- `sort.Ints`.
unfoldable pub place_int : ℕ → List ℕ → List ℕ
place_int x [] = x ∷ []
place_int x (y ∷ ys) = if leb x y then x ∷ (y ∷ ys) else y ∷ place_int x ys

unfoldable pub sort_ints : List ℕ → List ℕ
unfolding place_int
sort_ints [] = []
sort_ints (x ∷ xs) = place_int x (sort_ints xs)

unfoldable pub sum : List ℕ → ℕ
sum [] = 0
sum (x ∷ xs) = x + sum xs

-- `roll4d6DropLowest`, with the four results of `roll(6)`.
unfoldable pub roll_4d6_drop_lowest : ℕ → ℕ → ℕ → ℕ → ℤ
unfolding sort_ints sum
roll_4d6_drop_lowest a b c d =
    pos (sum (drop 1 (sort_ints ((a + 1) ∷ (b + 1) ∷ (c + 1) ∷ (d + 1) ∷ []))))

unfoldable pub ability_mod : ℤ → ℤ
ability_mod score =
    let d = sub64 score (pos 10) in
    if leb_ℤ (pos 0) d then quot d 2 else sub64 (pos 0) (quot (add64 (sub64 (pos 0) d) (pos 1)) 2)

-- The score that the dice give each ability, written in order.
unfoldable pub write_scores : MemStore → Text → (Text → ℤ) → List Text → MemStore
write_scores m key dice [] = m
write_scores m key dice (a ∷ rest) = write_scores (h_set m (sheet_key key) a (dice a)) key dice rest

unfoldable pub ensure_abilities : MemStore → Text → (Text → ℤ) → MemStore
ensure_abilities m key dice =
    if not (eq_ℤ (stat m key (codes "str")) (pos 0)) then m else write_scores m key dice abilities

pub record ClassDef : Type 0 where
  pub name : Text
  pub primary : Text
  pub hit_die : ℤ
  pub ability : Text

abbrev class_def : Text → Text → ℤ → Text → ClassDef
class_def name primary hit_die ability = record {
  name = name;
  primary = primary;
  hit_die = hit_die;
  ability = ability;
}

abbrev pub classes : List ClassDef
classes =
    class_def (codes "fighter") (codes "str") (pos 10) (codes "Extra Attack")
    ∷ class_def (codes "ranger") (codes "dex") (pos 10) (codes "Hunter's Mark")
    ∷ class_def (codes "rogue") (codes "dex") (pos 8) (codes "Sneak Attack")
    ∷ class_def (codes "cleric") (codes "wis") (pos 8) (codes "Healing Word")
    ∷ class_def (codes "bard") (codes "cha") (pos 8) (codes "Cutting Words")
    ∷ class_def (codes "wizard") (codes "int") (pos 6) (codes "Arcane Bolt")
    ∷ []

unfoldable pub class_named : Text → List ClassDef → Option ClassDef
class_named name [] = none
class_named name (c ∷ rest) = if text_eq c.name name then some c else class_named name rest

unfoldable pub class_of : Text → Option ClassDef
class_of name = class_named (to_lower (trim_space name)) classes

unfoldable pub class_attack_mod : Sheet → Text → ℤ
class_attack_mod sheet class = elim (class_of class) [
  | none ↦ pos 0
  | some c ↦ ability_mod (sheet c.primary)
]

pub record CombatMods : Type 0 where
  pub extra_attacks : ℕ
  pub bonus_on_hit : ℤ
  pub auto_dmg : ℤ
  pub self_heal : ℤ
  pub negate_chance : ℕ

abbrev pub no_mods : CombatMods
no_mods = record {
  extra_attacks = 0;
  bonus_on_hit = pos 0;
  auto_dmg = pos 0;
  self_heal = pos 0;
  negate_chance = 0;
}

unfoldable pub non_neg : ℤ → ℤ
non_neg v = if ltb_ℤ v (pos 0) then pos 0 else v

-- `base` and the modifier of an ability, never below 0.
unfoldable pub boost : ℕ → Sheet → Text → ℤ
unfolding non_neg
boost base sheet ability = non_neg (add64 (pos base) (ability_mod (sheet ability)))

unfoldable pub mods_of : ClassDef → Sheet → CombatMods
mods_of c sheet =
    if text_eq c.name (codes "fighter")
    then record no_mods { extra_attacks = 1 }
    else if text_eq c.name (codes "wizard")
    then record no_mods { auto_dmg = boost 2 sheet (codes "int") }
    else if text_eq c.name (codes "rogue")
    then record no_mods { bonus_on_hit = boost 3 sheet (codes "dex") }
    else if text_eq c.name (codes "ranger")
    then record no_mods { bonus_on_hit = boost 2 sheet (codes "dex") }
    else if text_eq c.name (codes "cleric")
    then record no_mods { self_heal = boost 1 sheet (codes "wis") }
    else if text_eq c.name (codes "bard")
    then record no_mods { negate_chance = 3 }
    else no_mods

unfoldable pub class_combat : Text → Sheet → CombatMods
class_combat class sheet = elim (class_of class) [ none ↦ no_mods | some c ↦ mods_of c sheet ]

pub record RaceDef : Type 0 where
  pub name : Text
  pub mods : Map ℤ

abbrev race_def : Text → Text → ℕ → Text → RaceDef
race_def name first bonus second = record {
  name = name;
  mods = (first, pos bonus) ∷ (second, pos 1) ∷ [];
}

abbrev pub races : List RaceDef
races =
    race_def (codes "human") (codes "con") 1 (codes "cha")
    ∷ race_def (codes "elf") (codes "dex") 2 (codes "int")
    ∷ race_def (codes "dwarf") (codes "con") 2 (codes "wis")
    ∷ race_def (codes "halfling") (codes "dex") 2 (codes "cha")
    ∷ race_def (codes "half-orc") (codes "str") 2 (codes "con")
    ∷ race_def (codes "gnome") (codes "int") 2 (codes "dex")
    ∷ race_def (codes "tiefling") (codes "cha") 2 (codes "int")
    ∷ []

unfoldable pub race_key : Text → Text
race_key player = codes "rpg:race:" ++ player

unfoldable pub race_named : Text → List RaceDef → Option RaceDef
race_named name [] = none
race_named name (r ∷ rest) = if text_eq r.name name then some r else race_named name rest

unfoldable pub race_of : Text → Option RaceDef
race_of name = race_named (to_lower (trim_space name)) races

unfoldable pub add_mods : MemStore → Text → Map ℤ → MemStore
add_mods m key [] = m
add_mods m key ((f, bonus) ∷ rest) = add_mods (h_incr m (sheet_key key) f bonus).0 key rest

-- `parseEthic` and `parseMoral`.
unfoldable pub parse_ethic : Text → Option ℤ
parse_ethic s =
    let w = to_lower s in
    if text_eq w (codes "lawful")
    then some (pos 1)
    else if text_eq w (codes "chaotic")
    then some (pos 2)
    else if text_eq w (codes "neutral") || text_eq w (codes "true")
    then some (pos 0)
    else none

unfoldable pub parse_moral : Text → Option ℤ
parse_moral s =
    let w = to_lower s in
    if text_eq w (codes "good")
    then some (pos 1)
    else if text_eq w (codes "evil")
    then some (pos 2)
    else if text_eq w (codes "neutral")
    then some (pos 0)
    else none

pub data Reply : Type 0 where
  usage not_playing unknown already_set : Reply
  class_set : ClassDef → Reply
  race_set : RaceDef → Reply
  align_set : ℤ → ℤ → Reply

-- The key of a sender.
abbrev pub key_of : MemStore → Sender → Text
key_of m msg = resolve m msg.network msg.account msg.nick

unfoldable pub set_class : MemStore → Sender → List Text → MemStore × Reply
set_class m msg [] = (m, usage)
set_class m msg (word ∷ rest) = elim (class_of word) [
  | none ↦ (m, unknown)
  | some c ↦
      let key = key_of m msg in
      if no_sheet m key then (m, not_playing) else (set_str m (class_key key) c.name, class_set c)
]

unfoldable pub set_race : MemStore → Sender → (Text → ℤ) → List Text → MemStore × Reply
set_race m msg dice [] = (m, usage)
set_race m msg dice (word ∷ rest) = elim (race_of word) [
  | none ↦ (m, unknown)
  | some r ↦
      let key = key_of m msg in
      if no_sheet m key
      then (m, not_playing)
      else if not (text_eq (get_str m (race_key key)) [])
      then (m, already_set)
      else (
        set_str (add_mods (ensure_abilities m key dice) key r.mods) (race_key key) r.name,
        race_set r,
      )
]

-- The writes of `setAlign` for the words after the verb, `none` where they are wrong.
unfoldable pub aligned : MemStore → Text → List Text → Option MemStore
aligned m key [] = none
aligned m key (word ∷ []) = elim (parse_moral word) [
  | some moral ↦ some (h_set m (sheet_key key) (codes "align") moral)
  | none ↦ elim (parse_ethic word) [
    | some law ↦ some (h_set m (sheet_key key) (codes "law") law)
    | none ↦ none
  ]
]
aligned m key (ethic ∷ (word ∷ rest)) = elim (parse_ethic ethic) [
  | none ↦ none
  | some law ↦ elim (parse_moral word) [
    | none ↦ none
    | some moral ↦
        some
          (h_set (h_set m (sheet_key key) (codes "law") law) (sheet_key key) (codes "align") moral)
  ]
]

unfoldable pub set_align : MemStore → Sender → List Text → MemStore × Reply
set_align m msg [] = (m, usage)
set_align m msg (word ∷ rest) =
    let key = key_of m msg in
    if no_sheet m key then (m, not_playing) else elim (aligned m key (word ∷ rest)) [
      | none ↦ (m, usage)
      | some after ↦
          (after, align_set (stat after key (codes "law")) (stat after key (codes "align")))
    ]
