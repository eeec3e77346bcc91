-- ===== src/Lib.antt =====
-- annoybots: bots for IRC and Discord, in Go, with a shared store and an idle game.
--
-- A bot reads lines from its networks. The admin console takes the operators' commands, the account
-- registry links the identities of a person across networks into one player key, the notes and the
-- games answer in the channels, and the idle game keeps a sheet, a stash, a guild and a quest for
-- each player key. Accounts and the idle game keep their state in the store; guilds and the quest
-- are also held in memory and written through to the store as JSON.
--
-- The files, and the code that they model:
--   Base and its children: numbers, lists, Go strings of ASCII text, maps as association lists, and
--     int64 with its wrap-around.
--   State: internal/state/state.go, memStore. One function per method; Fields says what each write
--     shows to each read, Ranking is about ZTop.
--   Admin/Hostmask: internal/admin/hostmask.go (wildcard); Pattern is what a glob means.
--   Admin/Flags: internal/admin/flags.go and the sessions and throttle of admin.go; the record
--     Console is the state of admin.Manager.
--   Admin/Console: Handle, handleLogin, handleClaim, applyAdminAdd, applyAdminDel of
--     internal/admin/commands.go and rebuild of admin.go.
--   Account: internal/account/account.go (Resolve, register, link, whoami, unlink, Handle).
--   IdleRpg: the keys of internal/idlerpg; Sheet has the laws of the store at those keys.
--   IdleRpg/Stash: internal/idlerpg/stash.go (stash, equip, readStash, writeStash).
--   IdleRpg/Trade: internal/idlerpg/trade.go (give, giveItem), which resolves players by Account.
--   IdleRpg/Guild: internal/idlerpg/guild.go; Guild/Perks is guildperk.go (perkCmd) and callRaid of
--     guildraid.go, Guild/Command is guildCmd. Seats counts in how many
--     guilds a player sits.
--   IdleRpg/Quest: internal/idlerpg/quest.go; Steps has the step relation of ticks, kills and strays.
--   IdleRpg/Rebirth: internal/idlerpg/rebirth.go.
--   Tell: internal/tell/tell.go. Games/Hangman: internal/games/hangman.go.
--   IdleRpg/Feats: awardFeat of internal/idlerpg/feats.go and bumpStat of stats.go.
--   IdleRpg/Hero: abilities.go, classes.go, races.go and alignment.go of internal/idlerpg, with
--     setClass, setRace and setAlign of idlerpg.go.
--   IdleRpg/Gear: loot.go and affix.go of internal/idlerpg. IdleRpg/Loot: findItem of idlerpg.go.
--   IdleRpg/Health: hp.go, statuses.go and quaff of potions.go of internal/idlerpg.
--   IdleRpg/Town: towns.go, enchant.go, mounts.go, bless of statuses.go and buyPotion of potions.go of
--     internal/idlerpg, with the tables of world.go. Solvent is about one purchase each, Commands
--     about them all.
--   IdleRpg/Fight: the choice of a foe and the rounds of resolveFight of internal/idlerpg/monsters.go;
--     Fight/Rounds is about the hero's hit points, Fight/Foes about the foe's, Fight/Ends about both.
--     Fight/Settle is what a fight leaves, with checkCombatFeats of feats.go and pets.go.
--   IdleRpg/Bestiary: the tables of monsters.go, with recordKill and charBestiary of bestiary.go.
--   IdleRpg/Weather: weather.go. IdleRpg/Omens: worldevent.go, both of internal/idlerpg.
--   IdleRpg/Luck: maybeEvent and battle of internal/idlerpg/idlerpg.go, and merchant.go.
--   IdleRpg/Roam: moveOnMap of internal/idlerpg/world.go.
--   IdleRpg/Game: presence, talk, enrolment and the clock of internal/idlerpg/idlerpg.go; Game/Gods is
--     adminVerb, Game/Verb is Handle and the verbs of command, Game/Course has the step relation of
--     all these.
--   Botnet: auth.go and bus.go of internal/botnet. Botnet/Coordinator: coordinator.go and skit.go of
--     internal/botnet. Botnet/Fleet has the step relation of a family of bots that share a bus which
--     may lose and delay events.
--   Dispatch: internal/event/event.go.
--   Engine/Shuffle: internal/engine/shuffle.go (nextFromBag). Cooldown: internal/cooldown/cooldown.go.
-- The modules called Tests and Samples hold runs and concrete inputs.
--
-- Each operation is a function from the state to the new state and a reply; a reply is a constructor,
-- and its wording is left out. A mutex makes an operation one step. Strings are lists of bytes, and
-- case and white space are those of ASCII. int64 sums, differences and products wrap around; lengths
-- and counts are natural numbers. The store's errors are left out, since memStore returns none.
--
-- Parameters, for code that is not in the repository or is not exact: the check of a password
-- (bcrypt), JSON (the records Codec, BookCodec, QuestCodec, SkyCodec and OmenCodec, whose only laws are that decoding gives
-- back what was encoded and that no encoding is empty), rand.Shuffle, the float64 step of
-- stepToward, the float64 power that gives a level its time, the rounded hypotenuse of package math,
-- and HMAC-SHA256 with the JSON of an event. Random draws, dice and the time are arguments.
--
-- Fuel: only the loop of wildcard has it, (length s + 1) * (length p + 1) rounds,
-- since every round takes a byte of the pattern or of the text, or moves on the place in the text
-- that the last star goes back to. A fight has 30 rounds in the code as well. The binary powers of
-- affix masks have the six bits that the table names.
--
-- Not modelled: the Redis store, the network clients, the Redis client of the bus, files, HTTP and the main program, since
-- they are I/O; the banter engine apart from its bags; of the idle game, duels,
-- dungeons, the world boss and the whole of a tick in its order; the float64 token bucket.
pub mod Account
pub mod Admin
pub mod Base
pub mod Botnet
pub mod Cooldown
pub mod Dispatch
pub mod Engine
pub mod Games
pub mod IdleRpg
pub mod State
pub mod Tell
