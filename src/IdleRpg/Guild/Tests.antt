-- ===== src/IdleRpg/Guild/Tests.antt =====
-- Runs of the guild commands, and their theorems at concrete inputs.
use annoybots.Base.{
  ℕ, zero, suc, ◌≤◌, ◌||◌, false, Bool, ◌≡◌, ◌≢◌, refl, [], ◌∷◌, List, Option, none, some, Text,
  arith, codes, length, text_eq, parse_int, has as is_some, if◌then◌else◌,
}
use annoybots.Base.Int.{ℤ, pos, ◌+ℤ◌, ◌≤ℤ◌, IsInt64}
use annoybots.IdleRpg.Sheet.{stat}
use annoybots.IdleRpg.Samples.{ann, bob}
use annoybots.IdleRpg.Guild.Samples.{plain_book, owls_realm}
use annoybots.IdleRpg.Guild.{
  Guild, Realm, guild_of, guild_pct, purse, guild_create, guild_join, guild_leave, guild_deposit,
  founded, joined, deposited, found, save_guilds,
}
use annoybots.IdleRpg.Guild.Seats.{seats, count, AllSound}
use annoybots.IdleRpg.Guild.Fair.{IsFair}
use annoybots.IdleRpg.Guild.Command.{guild_cmd, guild_reply}
use annoybots.IdleRpg.Guild.Dispatch.{guild_cmd-IsFair}
use annoybots.IdleRpg.Guild.Saved.{IsSaved, guild_commands-IsSaved}
use annoybots.IdleRpg.Guild.Perks.{perk_of, perk_cmd, call_raid, raised}

abbrev owls : Guild
owls = record {
  name = codes "Owls";
  founder = ann;
  members = ann ∷ [];
  vault = pos 900;
  perks = [];
  raid = none;
}

join_run : (guild_join plain_book owls_realm bob (codes "OWLS")).1 ≡ joined (codes "Owls")
unfolding annoybots.Base.fields annoybots.Base.is_space annoybots.Base.join_space
    annoybots.Base.lookup annoybots.Base.lower_byte annoybots.Base.to_lower
    annoybots.IdleRpg.Guild.guild_slug annoybots.IdleRpg.Guild.is_member
    annoybots.IdleRpg.Guild.save_guilds found guild_join guild_of owls_realm text_eq
join_run = refl

deposit_run :
    (guild_deposit plain_book owls_realm ann (some (codes "250"))).1 ≡ deposited (pos 1150)
unfolding annoybots.Base.Int.add64 annoybots.Base.Int.residue64 annoybots.Base.Int.wrap64
    annoybots.Base.digits_from annoybots.Base.insert annoybots.Base.lookup annoybots.Base.signed
    annoybots.IdleRpg.Guild.is_member annoybots.IdleRpg.Guild.on_guild_of
    annoybots.IdleRpg.Guild.save_guilds annoybots.IdleRpg.sheet_key annoybots.State.Fields.field
    annoybots.State.bump annoybots.State.h_get_all annoybots.State.h_incr annoybots.State.h_set
    annoybots.State.new_mem annoybots.State.set_str found guild_deposit guild_of owls_realm
    parse_int stat text_eq ◌+ℤ◌
deposit_run = refl

perk_run :
    (perk_cmd plain_book owls_realm ann (some (codes "Swiftness"))).1
    ≡ raised (codes "swiftness") (pos 1) (pos 800)
unfolding annoybots.Base.Int.add64 annoybots.Base.Int.mul64 annoybots.Base.Int.residue64
    annoybots.Base.Int.sub64 annoybots.Base.Int.wrap64 annoybots.Base.Int.◌-ℤ◌ annoybots.Base.insert
    annoybots.Base.is_space annoybots.Base.lookup annoybots.Base.lower_byte annoybots.Base.to_lower
    annoybots.Base.trim_left annoybots.Base.trim_space annoybots.IdleRpg.Guild.Perks.perk_by_name
    annoybots.IdleRpg.Guild.Perks.perk_cost annoybots.IdleRpg.Guild.Perks.perk_in
    annoybots.IdleRpg.Guild.is_member annoybots.IdleRpg.Guild.on_guild_of
    annoybots.IdleRpg.Guild.save_guilds annoybots.IdleRpg.sheet_key annoybots.State.h_set
    annoybots.State.new_mem annoybots.State.set_str found guild_of owls_realm perk_cmd perk_of
    text_eq ◌+ℤ◌
perk_run = refl

owls_of_ann : guild_of owls_realm.book ann ≡ some owls
unfolding annoybots.IdleRpg.Guild.is_member annoybots.IdleRpg.Guild.save_guilds found guild_of
    owls_realm text_eq
owls_of_ann = refl

one_guild : (k : Text) → seats k owls_realm.book ≤ 1
unfolding seats count owls_realm save_guilds found
one_guild k = ground arith

owls_sound : AllSound owls_realm.book
unfolding annoybots.IdleRpg.Guild.save_guilds count found owls_realm text_eq
owls_sound = ((omega arith, omega arith), tt)

fair : IsFair owls_realm.book
fair = record { one_seat = one_guild; sound = owls_sound }

saved : IsSaved plain_book owls_realm
unfolding annoybots.Base.insert annoybots.Base.lookup annoybots.IdleRpg.Guild.Saved.at_start
    annoybots.IdleRpg.Guild.load_guilds annoybots.IdleRpg.Guild.save_guilds annoybots.State.get_str
    annoybots.State.h_set annoybots.State.new_mem annoybots.State.set_str found owls_realm text_eq
saved = refl

guild_cmd-IsFair_example :
    IsFair
      (guild_cmd plain_book owls_realm bob
        (codes "the Sunken Titan")
        (pos 7)
        (codes "Join" ∷ (codes "owls" ∷ []))).0.book
guild_cmd-IsFair_example =
    guild_cmd-IsFair plain_book owls_realm bob (codes "the Sunken Titan") (pos 7)
      (codes "Join" ∷ (codes "owls" ∷ [])) fair

cmd_run :
    (guild_cmd plain_book owls_realm bob
      (codes "the Sunken Titan")
      (pos 7)
      (codes "Join" ∷ (codes "owls" ∷ []))).1
    ≡ guild_reply (joined (codes "Owls"))
unfolding annoybots.Base.Int.add64 annoybots.Base.Int.mul64 annoybots.Base.Int.residue64
    annoybots.Base.Int.sub64 annoybots.Base.Int.wrap64 annoybots.Base.Int.◌-ℤ◌
    annoybots.Base.digits_from annoybots.Base.fields annoybots.Base.fields_from
    annoybots.Base.insert annoybots.Base.is_space annoybots.Base.join_space annoybots.Base.lookup
    annoybots.Base.lower_byte annoybots.Base.signed annoybots.Base.to_lower annoybots.Base.trim_left
    annoybots.Base.trim_space annoybots.IdleRpg.Feats.award_feat
    annoybots.IdleRpg.Guild.Command.create_with_feat annoybots.IdleRpg.Guild.Command.run_verb
    annoybots.IdleRpg.Guild.Perks.level_sum annoybots.IdleRpg.Guild.Perks.perk_by_name
    annoybots.IdleRpg.Guild.Perks.perk_cost annoybots.IdleRpg.Guild.Perks.perk_in
    annoybots.IdleRpg.Guild.Perks.raid_hp annoybots.IdleRpg.Guild.drop_from_guild
    annoybots.IdleRpg.Guild.drop_member annoybots.IdleRpg.Guild.guild_slug
    annoybots.IdleRpg.Guild.is_member annoybots.IdleRpg.Guild.on_guild_of
    annoybots.IdleRpg.Guild.on_slug annoybots.IdleRpg.Guild.without_member
    annoybots.IdleRpg.no_sheet annoybots.IdleRpg.sheet_key annoybots.State.Fields.field
    annoybots.State.bump annoybots.State.h_get_all annoybots.State.h_incr annoybots.State.h_set
    annoybots.State.new_mem annoybots.State.set_str call_raid found guild_cmd guild_create
    guild_deposit guild_join guild_leave guild_of owls_realm parse_int perk_cmd perk_of save_guilds
    stat text_eq ◌+ℤ◌
cmd_run = refl

guild_commands-IsSaved_example :
    IsSaved plain_book (guild_create plain_book owls_realm ann (codes "Bats")).0
    × IsSaved plain_book (guild_join plain_book owls_realm ann (codes "Bats")).0
    × IsSaved plain_book (guild_leave plain_book owls_realm ann).0
    × IsSaved plain_book (guild_deposit plain_book owls_realm ann (some (codes "5"))).0
    × IsSaved plain_book (perk_cmd plain_book owls_realm ann (some (codes "5"))).0
    × IsSaved plain_book (call_raid plain_book owls_realm ann (codes "the Sunken Titan") (pos 7)).0
guild_commands-IsSaved_example =
    guild_commands-IsSaved plain_book owls_realm ann (codes "Bats") (codes "the Sunken Titan")
      (some (codes "5")) (pos 7) saved
