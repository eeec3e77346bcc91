-- ===== src/IdleRpg/Guild/Perks.antt =====
-- internal/idlerpg/guildperk.go and the call of a raid in guildraid.go: what the vault pays for. The
-- name of the raid's foe, which is drawn at random, and the time are arguments.
use annoybots.Base.{
  [], ◌∷◌, List, Option, none, some, Text, codes, lookup, insert, or_zero, text_eq, to_lower,
  trim_space, if◌then◌else◌,
}
use annoybots.Base.Int.{ℤ, pos, leb_ℤ, ltb_ℤ, eq_ℤ, add64, sub64, mul64, quot}
use annoybots.State.{MemStore}
use annoybots.IdleRpg.Sheet.{stat}
use annoybots.IdleRpg.Guild.{
  Guild, Book, BookCodec, Realm, guild_of, on_guild_of, save_guilds, raid_cost, raid_duration,
}

pub record PerkDef : Type 0 where
  pub name : Text
  pub base : ℤ
  pub max : ℤ

abbrev pub perk_list : List PerkDef
perk_list =
    record { name = codes "swiftness"; base = pos 800; max = pos 5 }
    ∷ record { name = codes "fortune"; base = pos 600; max = pos 5 }
    ∷ record { name = codes "might"; base = pos 1000; max = pos 3 }
    ∷ []

unfoldable pub perk_in : List PerkDef → Text → Option PerkDef
perk_in [] name = none
perk_in (p ∷ rest) name = if text_eq p.name name then some p else perk_in rest name

unfoldable pub perk_by_name : Text → Option PerkDef
perk_by_name name = perk_in perk_list (to_lower (trim_space name))

unfoldable pub perk_cost : PerkDef → ℤ → ℤ
perk_cost p level = mul64 p.base (add64 level (pos 1))

unfoldable pub perk_of : Guild → Text → ℤ
perk_of g perk = or_zero (pos 0) (lookup perk g.perks)

unfoldable pub perk_level : Book → Text → Text → ℤ
perk_level b k perk = elim (guild_of b k) [ none ↦ pos 0 | some g ↦ perk_of g perk ]

-- `guildSwiftness`, `guildMight` and `guildFortune`.
unfoldable pub guild_swiftness : Book → Text → ℤ
guild_swiftness b k = mul64 (perk_level b k (codes "swiftness")) (pos 2)

unfoldable pub guild_might : Book → Text → ℤ
guild_might b k = perk_level b k (codes "might")

unfoldable pub guild_fortune : Book → Text → ℤ → ℤ
guild_fortune b k gold =
    let lvl = perk_level b k (codes "fortune") in
    if eq_ℤ lvl (pos 0) then gold else quot (mul64 gold (add64 (pos 100) (mul64 lvl (pos 5)))) 100

abbrev pub buy : PerkDef → ℤ → Guild → Guild
buy p cost g = record g {
  vault = sub64 g.vault cost;
  perks = insert p.name (add64 (perk_of g p.name) (pos 1)) g.perks;
}

pub data PerkReply : Type 0 where
  no_guild listed no_such_perk mastered : PerkReply
  vault_short : ℤ → ℤ → PerkReply
  raised : Text → ℤ → ℤ → PerkReply

pub data RaidReply : Type 0 where
  no_guild already_fighting : RaidReply
  vault_short : ℤ → RaidReply
  called : ℤ → RaidReply

-- `lvlSum`: the members' levels, each counted one higher.
unfoldable pub level_sum : MemStore → List Text → ℤ
level_sum m [] = pos 0
level_sum m (member ∷ rest) =
    add64 (add64 (stat m member (codes "level")) (pos 1)) (level_sum m rest)

abbrev pub start_raid : Text → ℤ → ℤ → Guild → Guild
start_raid foe hp now g = record g {
  vault = sub64 g.vault raid_cost;
  raid = some (record {
    foe = foe;
    hp = hp;
    max_hp = hp;
    deadline = add64 now raid_duration;
    damage = [];
    last_pct = pos 100;
  });
}

unfoldable pub raid_hp : ℤ → ℤ
raid_hp sum = add64 (pos 300) (mul64 sum (pos 30))

module _ (json : BookCodec) where
  -- `perkCmd`, with `fields[3]` where there is one.
  unfoldable pub perk_cmd : Realm → Text → Option Text → Realm × PerkReply
  perk_cmd r k arg = elim (guild_of r.book k) [
    | none ↦ (r, PerkReply.no_guild)
    | some g ↦ elim arg [
      | none ↦ (r, listed)
      | some name ↦ elim (perk_by_name name) [
        | none ↦ (r, no_such_perk)
        | some p ↦
            let lvl = perk_of g p.name in
            if leb_ℤ p.max lvl
            then (r, mastered)
            else if ltb_ℤ g.vault (perk_cost p lvl)
            then (r, PerkReply.vault_short (perk_cost p lvl) g.vault)
            else (
              save_guilds json (record r { book = on_guild_of r.book k (buy p (perk_cost p lvl)) }),
              raised p.name (add64 lvl (pos 1)) (perk_cost p lvl),
            )
      ]
    ]
  ]

  unfoldable pub call_raid : Realm → Text → Text → ℤ → Realm × RaidReply
  call_raid r k foe now = elim (guild_of r.book k) [
    | none ↦ (r, RaidReply.no_guild)
    | some g ↦ elim g.raid [
      | some raid ↦ (r, already_fighting)
      | none ↦
          let hp = raid_hp (level_sum r.store g.members) in
          if ltb_ℤ g.vault raid_cost then (r, RaidReply.vault_short g.vault) else (
            save_guilds json (record r { book = on_guild_of r.book k (start_raid foe hp now) }),
            called hp,
          )
    ]
  ]
