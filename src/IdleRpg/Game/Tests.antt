-- ===== src/IdleRpg/Game/Tests.antt =====
-- A realm in which ann enrols, climbs a level, is promoted and leaves, and the theorem on it.
use annoybots.Base.{
  true, is_space, ℕ, ◌≡◌, refl, false, [], ◌∷◌, ◌++◌, Option, some, none, Text, codes, length,
  text_eq, arith,
}
use annoybots.Base.Int.{ℤ, pos}
use annoybots.State.{MemStore, new_mem, z_score}
use annoybots.IdleRpg.{board_key}
use annoybots.IdleRpg.Sheet.{stat}
use annoybots.IdleRpg.Samples.{ann}
use annoybots.IdleRpg.Trade.{Sender}
use annoybots.IdleRpg.Guild.Samples.{plain_book}
use annoybots.IdleRpg.Quest.Samples.{plain_quest}
use annoybots.IdleRpg.Game.{Game, Event, parts, on_event, play, run_clock}
use annoybots.IdleRpg.Game.Gods.{set_level}
use annoybots.IdleRpg.Game.Board.{IsBoard}
use annoybots.IdleRpg.Game.Verb.{handle, does, to_top_board, panics, handle-panics}
use annoybots.IdleRpg.Game.Course.{
  Rules, Reach, here, next, events, plays, clocks, promotes, Reach-IsBoard,
}

abbrev says : Sender
says = record { network = codes "libera"; account = []; nick = codes "ann" }

abbrev parting : Event
parting = record {
  kind = parts;
  network = codes "libera";
  account = [];
  nick = codes "ann";
  channel = codes "#c";
  text = [];
}

abbrev flat : ℤ → ℤ
flat n = pos 600

abbrev fresh : Game
fresh = record { store = new_mem; online = []; quest = none; book = []; paused = false }

abbrev played : Game
played = play flat fresh says (codes "#c") (λ a. pos 10)

abbrev climbed : Game
climbed = record played { store = run_clock flat played.store ann (pos 700) }

abbrev promoted : Game
promoted = (set_level flat climbed ann (codes "41")).0

abbrev gone : Game
gone = on_event promoted parting (λ key. 0)

climbed_run : z_score climbed.store board_key ann ≡ pos 1
unfolding annoybots.Account.identity annoybots.Account.link_key annoybots.Account.resolve
    annoybots.Base.Int.add64 annoybots.Base.Int.mul64 annoybots.Base.Int.residue64
    annoybots.Base.Int.sub64 annoybots.Base.Int.wrap64 annoybots.Base.Int.◌+ℤ◌
    annoybots.Base.Int.◌-ℤ◌ annoybots.Base.insert annoybots.Base.lookup annoybots.Base.lower_byte
    annoybots.Base.to_lower annoybots.IdleRpg.Game.enrol annoybots.IdleRpg.Game.level_up
    annoybots.IdleRpg.Game.okey annoybots.IdleRpg.Game.set_online
    annoybots.IdleRpg.Hero.ensure_abilities annoybots.IdleRpg.Hero.write_scores
    annoybots.IdleRpg.Quest.hundredth annoybots.IdleRpg.Rebirth.reb_speed
    annoybots.IdleRpg.Rebirth.ttl_for_reb annoybots.IdleRpg.Town.enrolled
    annoybots.IdleRpg.sheet_key annoybots.State.Fields.field annoybots.State.bump
    annoybots.State.get_str annoybots.State.h_get_all annoybots.State.h_incr annoybots.State.h_set
    annoybots.State.z_incr new_mem play run_clock stat text_eq z_score
climbed_run = refl

fresh-IsBoard : IsBoard fresh.store
unfolding annoybots.Base.lookup annoybots.State.Fields.field annoybots.State.h_get_all new_mem stat
    z_score
fresh-IsBoard = record { shown = λ k. refl; ranged = λ k. (omega arith, omega arith) }

-- A compass that is never needed here.
abbrev rules : Rules
rules = record {
  ttl_for = flat;
  compass = λ step dx dy. none;
  books = plain_book;
  quests = plain_quest;
}

course : Reach rules fresh gone
course =
    next
      (next (next (next here (plays says (codes "#c") (λ a. pos 10))) (clocks ann (pos 700)))
        (promotes ann (codes "41")))
      (events parting (λ key. 0))

Reach-IsBoard_example : IsBoard gone.store
Reach-IsBoard_example = Reach-IsBoard rules course fresh-IsBoard

verb_run : handle false (codes "!RPG Top kills") ≡ does to_top_board
unfolding annoybots.Base.fields annoybots.Base.lookup annoybots.Base.lower_byte
    annoybots.Base.to_lower annoybots.IdleRpg.Game.Verb.command_of
    annoybots.IdleRpg.Game.Verb.handle_words handle is_space text_eq
verb_run = refl

blank : is_space 32 ≡ true
unfolding is_space
blank = refl

handle-panics_example : handle false (codes "  ") ≡ panics
handle-panics_example = handle-panics 32 (codes " ") (blank, (blank, tt))
