-- ===== src/IdleRpg/Health/Tests.antt =====
-- A wounded character at rest and at a draught, and the theorems there.
use annoybots.Base.{◌≡◌, refl, Bool, true, false, [], ◌∷◌, Text, codes}
use annoybots.Base.Int.{ℤ, pos, leb_ℤ, ltb_ℤ}
use annoybots.State.{MemStore, get_str}
use annoybots.IdleRpg.{sheet_key, class_key}
use annoybots.IdleRpg.Sheet.{stat}
use annoybots.IdleRpg.Samples.{ann}
use annoybots.IdleRpg.Trade.{Sender}
use annoybots.IdleRpg.Rebirth.{level}
use annoybots.IdleRpg.Hero.{key_of}
use annoybots.IdleRpg.Health.{tick_hp, is_downed, quaff, quaffed, max_hp, dmg, pots, poison}
use annoybots.IdleRpg.Health.Healing.{tick_hp-downed}
use annoybots.IdleRpg.Health.Draught.{Restored, quaff-restores}

-- ann, of level 2, has lost 40 hit points, is poisoned, and holds two potions.
abbrev hurt : MemStore
hurt = record {
  counters = [];
  zsets = [];
  hashes =
      (sheet_key ann, (level, pos 2) ∷ (dmg, pos 40) ∷ (pots, pos 2) ∷ (poison, pos 3) ∷ []) ∷ [];
  strs = [];
  lists = [];
}

abbrev says : Sender
says = record { network = codes "libera"; account = []; nick = codes "ann" }

downed_run : (tick_hp hurt ann).1 ≡ true
unfolding annoybots.Base.Int.add64 annoybots.Base.Int.mul64 annoybots.Base.Int.quot
    annoybots.Base.Int.residue64 annoybots.Base.Int.sub64 annoybots.Base.Int.wrap64
    annoybots.Base.Int.◌+ℤ◌ annoybots.Base.Int.◌-ℤ◌ annoybots.Base.insert annoybots.Base.is_space
    annoybots.Base.lookup annoybots.Base.lower_byte annoybots.Base.text_eq annoybots.Base.to_lower
    annoybots.Base.trim_left annoybots.Base.trim_space annoybots.IdleRpg.Gear.add_affixes
    annoybots.IdleRpg.Gear.affixes_from annoybots.IdleRpg.Gear.affixes_of
    annoybots.IdleRpg.Gear.bit_set annoybots.IdleRpg.Gear.gain annoybots.IdleRpg.Gear.slot_affixes
    annoybots.IdleRpg.Health.heal annoybots.IdleRpg.Health.healed annoybots.IdleRpg.Health.hit_die
    annoybots.IdleRpg.Health.regen annoybots.IdleRpg.Hero.ability_mod
    annoybots.IdleRpg.Hero.class_named annoybots.IdleRpg.Hero.class_of annoybots.IdleRpg.affix_field
    annoybots.IdleRpg.item_field annoybots.IdleRpg.rarity_field annoybots.State.Fields.field
    annoybots.State.bump annoybots.State.h_get_all annoybots.State.h_incr annoybots.State.h_set
    class_key get_str max_hp sheet_key stat tick_hp
downed_run = refl

tick_hp-downed_example :
    (tick_hp hurt ann).1
    ≡ is_downed (stat (tick_hp hurt ann).0 ann) (get_str (tick_hp hurt ann).0 (class_key ann))
tick_hp-downed_example = tick_hp-downed hurt ann

drink_run : quaff hurt says ≡ ((quaff hurt says).0, quaffed (pos 1) true)
unfolding annoybots.Account.identity annoybots.Account.link_key annoybots.Account.resolve
    annoybots.Base.Int.add64 annoybots.Base.Int.mul64 annoybots.Base.Int.quot
    annoybots.Base.Int.residue64 annoybots.Base.Int.sub64 annoybots.Base.Int.wrap64
    annoybots.Base.Int.◌+ℤ◌ annoybots.Base.Int.◌-ℤ◌ annoybots.Base.insert annoybots.Base.is_space
    annoybots.Base.lookup annoybots.Base.lower_byte annoybots.Base.text_eq annoybots.Base.to_lower
    annoybots.Base.trim_left annoybots.Base.trim_space annoybots.IdleRpg.Gear.add_affixes
    annoybots.IdleRpg.Gear.affixes_from annoybots.IdleRpg.Gear.affixes_of
    annoybots.IdleRpg.Gear.bit_set annoybots.IdleRpg.Gear.gain annoybots.IdleRpg.Gear.slot_affixes
    annoybots.IdleRpg.Health.cur_hp annoybots.IdleRpg.Health.cure_poison
    annoybots.IdleRpg.Health.hit_die annoybots.IdleRpg.Health.mend annoybots.IdleRpg.Health.poisoned
    annoybots.IdleRpg.Hero.ability_mod annoybots.IdleRpg.Hero.class_named
    annoybots.IdleRpg.Hero.class_of annoybots.IdleRpg.affix_field annoybots.IdleRpg.item_field
    annoybots.IdleRpg.no_sheet annoybots.IdleRpg.rarity_field annoybots.State.Fields.field
    annoybots.State.bump annoybots.State.h_get_all annoybots.State.h_incr annoybots.State.h_set
    class_key get_str max_hp quaff sheet_key stat
drink_run = refl

has_hp :
    leb_ℤ
      (pos 0)
      (max_hp (stat hurt (key_of hurt says)) (get_str hurt (class_key (key_of hurt says))))
    ≡ true
unfolding annoybots.Account.identity annoybots.Account.resolve annoybots.Base.Int.add64
    annoybots.Base.Int.mul64 annoybots.Base.Int.quot annoybots.Base.Int.residue64
    annoybots.Base.Int.sub64 annoybots.Base.Int.wrap64 annoybots.Base.Int.◌+ℤ◌
    annoybots.Base.Int.◌-ℤ◌ annoybots.Base.is_space annoybots.Base.lookup annoybots.Base.lower_byte
    annoybots.Base.text_eq annoybots.Base.to_lower annoybots.Base.trim_left
    annoybots.Base.trim_space annoybots.IdleRpg.Gear.add_affixes annoybots.IdleRpg.Gear.affixes_from
    annoybots.IdleRpg.Gear.affixes_of annoybots.IdleRpg.Gear.bit_set annoybots.IdleRpg.Gear.gain
    annoybots.IdleRpg.Gear.slot_affixes annoybots.IdleRpg.Health.hit_die
    annoybots.IdleRpg.Hero.ability_mod annoybots.IdleRpg.Hero.class_named
    annoybots.IdleRpg.Hero.class_of annoybots.IdleRpg.affix_field annoybots.IdleRpg.item_field
    annoybots.IdleRpg.rarity_field annoybots.State.Fields.field annoybots.State.h_get_all class_key
    get_str max_hp sheet_key stat
has_hp = refl

quaff-restores_example :
    (ltb_ℤ (pos 0) (stat hurt (key_of hurt says) pots) ≡ true)
    × Restored hurt (key_of hurt says) (quaff hurt says).0
quaff-restores_example = quaff-restores hurt says (quaff hurt says).0 (pos 1) true drink_run has_hp
