-- ===== src/IdleRpg/Fight/Tests.antt =====
-- A fight with loaded dice, and the theorem on it.
use annoybots.Base.{Bool, false, [], ◌∷◌, Option, none, Text, codes, ℕ, ◌≡◌, refl, arith}
use annoybots.Base.Int.{leb_ℤ, ℤ, pos, negsuc, ◌≤ℤ◌}
use annoybots.IdleRpg.Hero.{no_mods}
use annoybots.IdleRpg.Gear.{no_affixes}
use annoybots.State.{MemStore, get_str}
use annoybots.IdleRpg.{sheet_key, class_key}
use annoybots.IdleRpg.Sheet.{stat}
use annoybots.IdleRpg.Samples.{ann}
use annoybots.IdleRpg.Quest.{World}
use annoybots.IdleRpg.Quest.Samples.{plain_quest}
use annoybots.IdleRpg.Health.{max_hp, cur_hp, is_downed, dmg}
use annoybots.IdleRpg.Loot.{Find}
use annoybots.IdleRpg.Fight.Settle.{Spoils, fight_monster}
use annoybots.IdleRpg.Fight.Wounds.{IsTame, arena_of, at_least_0, fight_monster-hp}
use annoybots.IdleRpg.Fight.{Foe, Arena, RoundDice, fight}
use annoybots.IdleRpg.Fight.Rounds.{IsAlive, IsUsual}
use annoybots.IdleRpg.Fight.Foes.{IsMatched, IsHurt}
use annoybots.IdleRpg.Fight.Ends.{Stands, fight_lem}

abbrev ring : Arena
ring = record {
  start_hp = pos 30;
  ac = pos 12;
  atk = pos 4;
  bonus = pos 2;
  mods = no_mods;
  gear = no_affixes;
  foe_ac = pos 14;
  foe_atk = pos 5;
}

abbrev loaded : ℕ → RoundDice
loaded i = record { first = (12, 3); extra = λ j. (0, 0); spoil = 1; claw = 9; hurt = 6 }

won_run : (fight ring (pos 20) loaded).hp ≡ pos 9
unfolding annoybots.Base.Int.add64 annoybots.Base.Int.mul64 annoybots.Base.Int.residue64
    annoybots.Base.Int.sub64 annoybots.Base.Int.wrap64 annoybots.Base.Int.◌+ℤ◌
    annoybots.Base.Int.◌-ℤ◌ annoybots.IdleRpg.Fight.attack annoybots.IdleRpg.Fight.blow
    annoybots.IdleRpg.Fight.fighting annoybots.IdleRpg.Fight.lose_foe_hp
    annoybots.IdleRpg.Fight.mend_to annoybots.IdleRpg.Fight.riposte annoybots.IdleRpg.Fight.round
    annoybots.IdleRpg.Fight.rounds annoybots.IdleRpg.Fight.swing annoybots.IdleRpg.Fight.swings
    annoybots.IdleRpg.Fight.wound fight
won_run = refl

usual : IsUsual ring loaded
usual = record {
  start = omega arith;
  small = omega arith;
  ward = omega arith;
  low_ward = omega arith;
  drink = omega arith;
  word = omega arith;
  hurts = λ i. omega arith;
}

matched : IsMatched ring (pos 20) loaded
matched = record {
  least = omega arith;
  most = omega arith;
  no_malus = omega arith;
  bonus = omega arith;
  sneak = omega arith;
  bolt = omega arith;
  no_balm = omega arith;
  thorns = omega arith;
  flurry = omega arith;
  cuts = λ i. omega arith;
  more_cuts = λ i j. omega arith;
}

fight_lem_example :
    IsAlive ring (negsuc 999) (fight ring (pos 20) loaded)
    × IsHurt (pos 20) 4006000 (fight ring (pos 20) loaded).foe_hp
    × Stands ring (fight ring (pos 20) loaded)
fight_lem_example = fight_lem ring (pos 20) loaded usual matched

-- A goblin, which ann of level 2 meets.
abbrev goblin : Foe
goblin = record {
  name = codes "a goblin";
  min_level = pos 1;
  ac = pos 12;
  atk = pos 2;
  die = 6;
  hp = pos 700;
  gold = pos 3;
  boss = false;
  biome = [];
}

abbrev wild : World
wild = record {
  store = record {
    counters = [];
    zsets = [];
    hashes = (sheet_key ann, (codes "level", pos 2) ∷ []) ∷ [];
    strs = [];
    lists = [];
  };
  quest = none;
}

abbrev ring_find : Find
ring_find = record { slot = codes "ring"; found = pos 1; tier = 0; mask = pos 0; name = [] }

abbrev spoils : Spoils
spoils = record {
  pct = 0;
  first = ring_find;
  second = ring_find;
  drops = false;
  tamed = 1;
  kind = 0;
}

abbrev bite : ℕ → RoundDice
bite i = record { first = (1, 3); extra = λ j. (0, 0); spoil = 1; claw = 19; hurt = 0 }

start_run : (arena_of wild [] ann [] goblin).start_hp ≡ pos 11
unfolding annoybots.Base.Int.add64 annoybots.Base.Int.mul64 annoybots.Base.Int.quot
    annoybots.Base.Int.residue64 annoybots.Base.Int.sub64 annoybots.Base.Int.wrap64
    annoybots.Base.Int.◌+ℤ◌ annoybots.Base.Int.◌-ℤ◌ annoybots.Base.is_space annoybots.Base.lookup
    annoybots.Base.lower_byte annoybots.Base.text_eq annoybots.Base.to_lower
    annoybots.Base.trim_left annoybots.Base.trim_space annoybots.IdleRpg.Fight.arena
    annoybots.IdleRpg.Fight.pet_part annoybots.IdleRpg.Gear.add_affixes
    annoybots.IdleRpg.Gear.affixes_from annoybots.IdleRpg.Gear.affixes_of
    annoybots.IdleRpg.Gear.bit_set annoybots.IdleRpg.Gear.gain annoybots.IdleRpg.Gear.slot_affixes
    annoybots.IdleRpg.Health.blessed annoybots.IdleRpg.Health.hit_die
    annoybots.IdleRpg.Hero.ability_mod annoybots.IdleRpg.Hero.boost
    annoybots.IdleRpg.Hero.class_attack_mod annoybots.IdleRpg.Hero.class_combat
    annoybots.IdleRpg.Hero.class_named annoybots.IdleRpg.Hero.class_of
    annoybots.IdleRpg.Hero.mods_of annoybots.IdleRpg.Hero.non_neg annoybots.IdleRpg.affix_field
    annoybots.IdleRpg.item_field annoybots.IdleRpg.rarity_field annoybots.State.Fields.field
    annoybots.State.h_get_all cur_hp get_str max_hp sheet_key stat
start_run = refl

gear_run : (arena_of wild [] ann [] goblin).gear ≡ no_affixes
unfolding annoybots.Base.lookup annoybots.Base.text_eq annoybots.IdleRpg.Fight.arena
    annoybots.IdleRpg.Gear.affixes_from annoybots.IdleRpg.Gear.affixes_of
    annoybots.IdleRpg.Gear.slot_affixes annoybots.IdleRpg.affix_field annoybots.State.Fields.field
    annoybots.State.h_get_all sheet_key stat
gear_run = refl

mods_run : (arena_of wild [] ann [] goblin).mods ≡ no_mods
unfolding annoybots.Base.lookup annoybots.Base.text_eq annoybots.Base.to_lower
    annoybots.Base.trim_left annoybots.Base.trim_space annoybots.IdleRpg.Fight.arena
    annoybots.IdleRpg.Hero.class_combat annoybots.IdleRpg.Hero.class_named
    annoybots.IdleRpg.Hero.class_of get_str
mods_run = refl

in_the_wild : IsUsual (arena_of wild [] ann [] goblin) bite
in_the_wild = record {
  start = rw start_run (omega arith);
  small = rw start_run (omega arith);
  ward = rw gear_run (omega arith);
  low_ward = rw gear_run (omega arith);
  drink = rw gear_run (omega arith);
  word = rw mods_run (omega arith);
  hurts = λ i. omega arith;
}

max_run : max_hp (stat wild.store ann) (get_str wild.store (class_key ann)) ≡ pos 11
unfolding annoybots.Base.Int.add64 annoybots.Base.Int.mul64 annoybots.Base.Int.quot
    annoybots.Base.Int.residue64 annoybots.Base.Int.sub64 annoybots.Base.Int.wrap64
    annoybots.Base.Int.◌+ℤ◌ annoybots.Base.Int.◌-ℤ◌ annoybots.Base.is_space annoybots.Base.lookup
    annoybots.Base.lower_byte annoybots.Base.text_eq annoybots.Base.to_lower
    annoybots.Base.trim_left annoybots.Base.trim_space annoybots.IdleRpg.Gear.add_affixes
    annoybots.IdleRpg.Gear.affixes_from annoybots.IdleRpg.Gear.affixes_of
    annoybots.IdleRpg.Gear.bit_set annoybots.IdleRpg.Gear.gain annoybots.IdleRpg.Gear.slot_affixes
    annoybots.IdleRpg.Health.hit_die annoybots.IdleRpg.Hero.ability_mod
    annoybots.IdleRpg.Hero.class_named annoybots.IdleRpg.Hero.class_of annoybots.IdleRpg.affix_field
    annoybots.IdleRpg.item_field annoybots.IdleRpg.rarity_field annoybots.State.Fields.field
    annoybots.State.h_get_all class_key get_str max_hp sheet_key stat
max_run = refl

dmg_run : stat wild.store ann dmg ≡ pos 0
unfolding annoybots.Base.lookup annoybots.Base.text_eq annoybots.State.Fields.field
    annoybots.State.h_get_all sheet_key stat
dmg_run = refl

max_hp-IsTame : IsTame (max_hp (stat wild.store ann) (get_str wild.store (class_key ann)))
max_hp-IsTame = rw max_run (omega arith, omega arith)

dmg-IsTame : IsTame (stat wild.store ann dmg)
dmg-IsTame = rw dmg_run (omega arith, omega arith)

survives : leb_ℤ (fight (arena_of wild [] ann [] goblin) (pos 700) bite).foe_hp (pos 0) ≡ false
unfolding annoybots.Base.Int.add64 annoybots.Base.Int.mul64 annoybots.Base.Int.quot
    annoybots.Base.Int.residue64 annoybots.Base.Int.sub64 annoybots.Base.Int.wrap64
    annoybots.Base.Int.◌+ℤ◌ annoybots.Base.Int.◌-ℤ◌ annoybots.Base.is_space annoybots.Base.lookup
    annoybots.Base.lower_byte annoybots.Base.text_eq annoybots.Base.to_lower
    annoybots.Base.trim_left annoybots.Base.trim_space annoybots.IdleRpg.Fight.Settle.pet_of
    annoybots.IdleRpg.Fight.arena annoybots.IdleRpg.Fight.attack annoybots.IdleRpg.Fight.blow
    annoybots.IdleRpg.Fight.fighting annoybots.IdleRpg.Fight.lose_foe_hp
    annoybots.IdleRpg.Fight.mend_to annoybots.IdleRpg.Fight.pet_part annoybots.IdleRpg.Fight.riposte
    annoybots.IdleRpg.Fight.round annoybots.IdleRpg.Fight.rounds annoybots.IdleRpg.Fight.swing
    annoybots.IdleRpg.Fight.swings annoybots.IdleRpg.Fight.wound annoybots.IdleRpg.Gear.add_affixes
    annoybots.IdleRpg.Gear.affixes_from annoybots.IdleRpg.Gear.affixes_of
    annoybots.IdleRpg.Gear.bit_set annoybots.IdleRpg.Gear.gain annoybots.IdleRpg.Gear.slot_affixes
    annoybots.IdleRpg.Guild.Perks.guild_might annoybots.IdleRpg.Guild.Perks.perk_level
    annoybots.IdleRpg.Guild.guild_of annoybots.IdleRpg.Health.blessed
    annoybots.IdleRpg.Health.hit_die annoybots.IdleRpg.Hero.ability_mod annoybots.IdleRpg.Hero.boost
    annoybots.IdleRpg.Hero.class_attack_mod annoybots.IdleRpg.Hero.class_combat
    annoybots.IdleRpg.Hero.class_named annoybots.IdleRpg.Hero.class_of
    annoybots.IdleRpg.Hero.mods_of annoybots.IdleRpg.Hero.non_neg annoybots.IdleRpg.affix_field
    annoybots.IdleRpg.item_field annoybots.IdleRpg.rarity_field annoybots.State.Fields.field
    annoybots.State.h_get_all cur_hp fight get_str max_hp sheet_key stat
survives = refl

fight_monster-hp_example :
    (let b = fight (arena_of wild [] ann [] goblin) (pos 700) bite in
      let after =
        (fight_monster plain_quest wild [] none ann [] goblin bite spoils (λ k. 0)).store in
      (cur_hp (stat after ann) (get_str after (class_key ann)) ≡ at_least_0 b.hp)
      × (is_downed (stat after ann) (get_str after (class_key ann)) ≡ leb_ℤ b.hp (pos 0)))
fight_monster-hp_example =
    fight_monster-hp plain_quest wild [] none ann [] goblin bite spoils (λ k. 0) in_the_wild
      max_hp-IsTame dmg-IsTame survives
