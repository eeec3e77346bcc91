-- ===== src/IdleRpg/Fight.antt =====
-- internal/idlerpg/monsters.go: an encounter with a foe, round by round. The dice are arguments, as
-- results of `roll`.
use annoybots.Base.{
  ℕ, zero, suc, ◌+◌, ◌≡◌, Bool, true, false, not, ◌||◌, ◌&&◌, ◌==◌, [], ◌∷◌, List, Option, none,
  some, Text, codes, text_eq, get_elem?, leb, ltb, if◌then◌else◌,
}
use annoybots.Base.Int.{ℤ, pos, neg, leb_ℤ, ltb_ℤ, eq_ℤ, add64, sub64, mul64, quot}
use annoybots.IdleRpg.Hero.{Sheet, CombatMods, ability_mod, class_attack_mod, class_combat}
use annoybots.IdleRpg.Rebirth.{level}
use annoybots.IdleRpg.Gear.{AffixMods, affixes_of}
use annoybots.IdleRpg.Health.{cur_hp, blessed}
pub mod Ends
pub mod Foes
pub mod Rounds
pub mod Settle
pub mod Wounds
mod Tests

pub record Foe : Type 0 where
  pub name : Text
  pub min_level : ℤ
  pub ac : ℤ
  pub atk : ℤ
  pub die : ℕ
  pub hp : ℤ
  pub gold : ℤ
  pub boss : Bool
  pub biome : Text

-- The foes of a table that a level and a terrain allow.
unfoldable pub eligible : ℤ → Text → List Foe → List Foe
eligible lvl biome [] = []
eligible lvl biome (f ∷ rest) =
    let more = eligible lvl biome rest in
    if leb_ℤ f.min_level lvl && (text_eq f.biome [] || text_eq f.biome biome)
    then f ∷ more
    else more

-- `pickBoss`, with the results of its two rolls.
unfoldable pub pick_boss : List Foe → ℤ → Text → ℕ → ℕ → Option Foe
pick_boss bosses lvl biome chance draw =
    if chance == 0 then get_elem? (eligible lvl biome bosses) draw else none

-- `pickMonster`: the first foe of the bestiary where none is allowed.
unfoldable pub pick_monster : Foe → List Foe → ℤ → Text → ℕ → Foe
pick_monster rat more lvl biome draw = elim (get_elem? (eligible lvl biome (rat ∷ more)) draw) [
  | none ↦ rat
  | some f ↦ f
]

-- What a companion adds.
pub record Pet : Type 0 where
  pub atk : ℤ
  pub dmg : ℤ

-- The numbers that stay the same through a fight.
pub record Arena : Type 0 where
  pub start_hp : ℤ
  pub ac : ℤ
  pub atk : ℤ
  pub bonus : ℤ
  pub mods : CombatMods
  pub gear : AffixMods
  pub foe_ac : ℤ
  pub foe_atk : ℤ

abbrev when : Bool → ℤ → ℤ
when b n = if b then n else pos 0

abbrev law : Text
law = codes "law"

unfoldable pub pet_part : (Pet → ℤ) → Option Pet → ℤ
pet_part f none = pos 0
pet_part f (some p) = f p

-- The set-up of `resolveFight`.
unfoldable pub arena : Sheet → Text → Text → Option Pet → ℤ → Foe → Arena
unfolding pet_part
arena sheet class sky pet might foe =
    let gear = affixes_of sheet in
    let atk = add64 (add64 (pos 2) (quot (sheet level) 4)) (class_attack_mod sheet class) in
    let reckless = add64 atk (when (eq_ℤ (sheet law) (pos 2)) (pos 1)) in
    let sighted = sub64 reckless (when (text_eq sky (codes "fog")) (pos 2)) in
    let tamed = add64 sighted (pet_part (λ p. p.atk) pet) in
    let holy = add64 tamed (when (blessed sheet) (pos 2)) in
    let sharp = class_attack_mod sheet class in
    record {
      start_hp = cur_hp sheet class;
      ac =
          add64 (add64 (pos 10) (ability_mod (sheet (codes "dex"))))
            (when (eq_ℤ (sheet law) (pos 1)) (pos 1));
      atk = add64 (add64 holy gear.swift) might;
      bonus =
          add64 (add64 (if ltb_ℤ sharp (pos 0) then pos 0 else sharp) (pet_part (λ p. p.dmg) pet))
            (when (blessed sheet) (pos 1));
      mods = class_combat class sheet;
      gear = gear;
      foe_ac = foe.ac;
      foe_atk = add64 foe.atk (when (text_eq sky (codes "storm")) (pos 2));
    }

pub record Bout : Type 0 where
  pub hp : ℤ
  pub foe_hp : ℤ

-- The rolls of one round: a d20 and a d8 for each swing, whether the foe's attack is spoiled, its d20
-- and its damage die.
pub record RoundDice : Type 0 where
  pub first : ℕ × ℕ
  pub extra : ℕ → ℕ × ℕ
  pub spoil : ℕ
  pub claw : ℕ
  pub hurt : ℕ

-- Hit points given back, never above those at the start.
unfoldable pub mend_to : ℤ → ℤ → ℤ → ℤ
mend_to start hp amt =
    if ltb_ℤ (pos 0) amt && ltb_ℤ hp start
    then (let up = add64 hp amt in if ltb_ℤ start up then start else up)
    else hp

unfoldable pub blow : Arena → ℕ → ℕ → ℤ
blow a face cut =
    let dmg = add64 (pos (cut + 1)) a.bonus in
    if leb_ℤ (sub64 (pos 20) a.gear.keen) (pos (face + 1)) then mul64 dmg (pos 2) else dmg

-- One weapon attack, and whether it landed.
unfoldable pub swing : Arena → Bout → ℕ × ℕ → Bout × Bool
swing a b (face, cut) = if ltb_ℤ (add64 (pos (face + 1)) a.atk) a.foe_ac then (b, false) else (
  record {
    hp = mend_to a.start_hp b.hp a.gear.lifesteal;
    foe_hp = sub64 b.foe_hp (blow a face cut);
  },
  true,
)

-- The extra swings, with the count that is left.
unfoldable pub swings : Arena → (ℕ → ℕ × ℕ) → Bout → Bool → ℕ → Bout × Bool
swings a dice b hit zero = (b, hit)
swings a dice b hit (suc left) =
    swings a dice (swing a b (dice left)).0 ((swing a b (dice left)).1 || hit) left

unfoldable pub lose_foe_hp : Bool → Bout → ℤ → Bout
lose_foe_hp cond b amt =
    if cond && ltb_ℤ (pos 0) amt then record b { foe_hp = sub64 b.foe_hp amt } else b

-- The hero's half of a round.
unfoldable pub attack : Arena → Bout → RoundDice → Bout
attack a b d =
    let (b1, hit1) = swing a b d.first in
    let (b2, hit) = swings a d.extra b1 hit1 a.mods.extra_attacks in
    lose_foe_hp true (lose_foe_hp hit b2 a.mods.bonus_on_hit) a.mods.auto_dmg

-- What a blow of the foe takes.
unfoldable pub wound : Arena → ℕ → ℤ
wound a hurt = let w = sub64 (pos (hurt + 1)) a.gear.warded in if ltb_ℤ w (pos 1) then pos 1 else w

-- The foe's half, and the cleric's word.
unfoldable pub riposte : Arena → Bout → RoundDice → Bout
riposte a b d =
    let struck =
      if ltb 0 a.mods.negate_chance && d.spoil == 0
      then b
      else if leb_ℤ a.ac (add64 (pos (d.claw + 1)) a.foe_atk)
      then record { hp = sub64 b.hp (wound a d.hurt); foe_hp = sub64 b.foe_hp a.gear.thorns }
      else b in
    record struck { hp = mend_to a.start_hp struck.hp a.mods.self_heal }

unfoldable pub fighting : Bout → Bool
fighting b = ltb_ℤ (pos 0) b.hp && ltb_ℤ (pos 0) b.foe_hp

unfoldable pub round : Arena → Bout → RoundDice → Bout
round a b d = let b1 = attack a b d in if leb_ℤ b1.foe_hp (pos 0) then b1 else riposte a b1 d

-- The loop, with the rounds that are left and the dice of those rounds.
unfoldable pub rounds : Arena → ℕ → (ℕ → RoundDice) → Bout → Bout
rounds a zero dice b = b
rounds a (suc left) dice b =
    let rest = rounds a left dice (round a b (dice left)) in if fighting b then rest else b

abbrev pub max_rounds : ℕ
max_rounds = 30

unfoldable pub fight : Arena → ℤ → (ℕ → RoundDice) → Bout
fight a foe_hp dice = rounds a max_rounds dice (record { hp = a.start_hp; foe_hp = foe_hp })
