-- ===== src/IdleRpg/Guild/Command.antt =====
-- guildCmd of internal/idlerpg/guild.go: the `!rpg guild` family, with the feat for founding a guild.
-- `words` are the fields after the first two.
use annoybots.Base.{
  ℕ, not, ◌||◌, ◌&&◌, [], ◌∷◌, List, Option, none, some, Text, codes, has as is_some, text_eq,
  to_lower, join_space, if◌then◌else◌,
}
use annoybots.Base.Int.{ℤ}
use annoybots.IdleRpg.{no_sheet}
use annoybots.IdleRpg.Guild.{
  Realm, BookCodec, GuildReply, guild_of, guild_create, guild_join, guild_leave, guild_deposit,
}
use annoybots.IdleRpg.Feats.{award_feat}
use annoybots.IdleRpg.Guild.Perks.{PerkReply, RaidReply, perk_cmd, call_raid}

abbrev pub founder_feat : ℕ
founder_feat = 512

pub data CmdReply : Type 0 where
  not_playing status : CmdReply
  guild_reply : GuildReply → CmdReply
  raid_reply : RaidReply → CmdReply
  perk_reply : PerkReply → CmdReply

abbrev pub next_word : List Text → Option Text
next_word [] = none
next_word (w ∷ ws) = some w

module _ (json : BookCodec) where
  unfoldable pub create_with_feat : Realm → Text → Text → Realm × CmdReply
  create_with_feat r k name =
      let (after, reply) = guild_create json r k name in
      if not (is_some (guild_of r.book k)) && is_some (guild_of after.book k)
      then (record after { store = award_feat after.store k founder_feat }, guild_reply reply)
      else (after, guild_reply reply)

  -- The command that a verb names.
  unfoldable pub run_verb : Realm → Text → Text → ℤ → Text → List Text → Realm × CmdReply
  run_verb r k foe now verb rest =
      if text_eq verb (codes "create") || text_eq verb (codes "found")
      then create_with_feat r k (join_space rest)
      else if text_eq verb (codes "join")
      then (let (after, reply) = guild_join json r k (join_space rest) in
          (after, guild_reply reply))
      else if text_eq verb (codes "leave")
      then (let (after, reply) = guild_leave json r k in (after, guild_reply reply))
      else if text_eq verb (codes "deposit") || text_eq verb (codes "donate")
      then (let (after, reply) = guild_deposit json r k (next_word rest) in
          (after, guild_reply reply))
      else if text_eq verb (codes "raid")
      then (let (after, reply) = call_raid json r k foe now in (after, raid_reply reply))
      else if text_eq verb (codes "perk") || text_eq verb (codes "perks")
      then (let (after, reply) = perk_cmd json r k (next_word rest) in (after, perk_reply reply))
      else (r, status)

  unfoldable pub guild_cmd : Realm → Text → Text → ℤ → List Text → Realm × CmdReply
  guild_cmd r k foe now words = if no_sheet r.store k then (r, not_playing) else elim words [
    | [] ↦ (r, status)
    | (verb ∷ rest) ↦ run_verb r k foe now (to_lower verb) rest
  ]
