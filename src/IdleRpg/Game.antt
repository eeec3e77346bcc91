-- ===== src/IdleRpg/Game.antt =====
-- internal/idlerpg/idlerpg.go: who is online, what talking and leaving cost, enrolment, and the climb
-- of a level. `ttl_for` is the float64 power of ttlFor. The draws of a ruined quest are an argument, as
-- are the ability scores of a new character.
use annoybots.Base.{
  ℕ, ◌+◌, ◌≡◌, Bool, true, false, not, ◌&&◌, ◌||◌, [], ◌∷◌, ◌++◌, List, Option, none, some, Text,
  Map, codes, text_eq, to_lower, fields, lookup, insert, delete, has, length, if◌then◌else◌,
}
use annoybots.Base.Int.{ℤ, pos, neg, leb_ℤ, ltb_ℤ, add64, sub64, mul64, quot}
use annoybots.State.{MemStore, h_set, h_incr, z_incr}
use annoybots.Account.{resolve}
use annoybots.IdleRpg.{sheet_key, board_key}
use annoybots.IdleRpg.Sheet.{stat}
use annoybots.IdleRpg.Trade.{Sender}
use annoybots.IdleRpg.Quest.{Player, Quest, World, ttl, quest_violation}
use annoybots.IdleRpg.Rebirth.{level, reb, ttl_for_reb}
use annoybots.IdleRpg.Guild.{Book, guild_pct}
use annoybots.IdleRpg.Guild.Perks.{guild_swiftness}
use annoybots.IdleRpg.Hero.{ensure_abilities}
use annoybots.IdleRpg.Town.{enrolled}
pub mod Gods
pub mod Board
pub mod Climb
pub mod Steps
pub mod Verb
pub mod Verbs
pub mod Finds
pub mod Battles
pub mod Course
mod Tests

-- The parts of `Manager` that these handlers read and write.
pub record Game : Type 0 where
  pub store : MemStore
  pub online : Map Player
  pub quest : Option Quest
  pub book : Book
  pub paused : Bool

pub data EventKind : Type 0 where
  joins parts quits kicks renames present : EventKind

-- What this package reads of `event.Event`.
pub record Event : Type 0 where
  pub kind : EventKind
  pub network : Text
  pub account : Text
  pub nick : Text
  pub channel : Text
  pub text : Text

unfoldable pub okey : Text → Text → Text
okey network nick = to_lower network ++ (b'|' ∷ to_lower nick)

unfoldable pub set_online : Game → Text → Text → Text → Text → Game
set_online g network nick channel key = record g {
  online =
      insert (okey network nick)
        (record { key = key; nick = nick; network = network; channel = channel }) g.online;
}

unfoldable pub online_player : Game → Text → Text → Option Player
online_player g network nick = lookup (okey network nick) g.online

-- `markPresent`, for a join or a name in the list of a channel.
unfoldable pub mark_present : Game → Event → Game
mark_present g ev =
    let key = resolve g.store ev.network ev.account ev.nick in
    if enrolled g.store key then set_online g ev.network ev.nick ev.channel key else g

abbrev pub part_penalty : ℤ
part_penalty = pos 200

abbrev pub quit_penalty : ℤ
quit_penalty = pos 20

abbrev pub nick_penalty : ℤ
nick_penalty = pos 30

abbrev pub kick_penalty : ℤ
kick_penalty = pos 250

unfoldable pub penalize_online : Game → Text → Text → ℤ → Game
penalize_online g network nick secs = elim (online_player g network nick) [
  | none ↦ g
  | some p ↦ record g { store = (h_incr g.store (sheet_key p.key) ttl secs).0 }
]

-- The quest is ruined if a key is on it.
unfoldable pub violate : Game → Text → (Text → ℕ) → Game
violate g key draw =
    let w = quest_violation (record { store = g.store; quest = g.quest }) key draw in
    record g { store = w.store; quest = w.quest }

unfoldable pub fail_quest_by : Game → Text → Text → (Text → ℕ) → Game
unfolding violate
fail_quest_by g network nick draw = violate g (resolve g.store network [] nick) draw

unfoldable pub on_leave : Game → Text → Text → Game
on_leave g network nick = record g { online = delete (okey network nick) g.online }

-- `OnPart`, `OnQuit` and `OnKick`.
unfoldable pub depart : Game → Event → ℤ → (Text → ℕ) → Game
depart g ev secs draw =
    on_leave (fail_quest_by (penalize_online g ev.network ev.nick secs) ev.network ev.nick draw)
      ev.network ev.nick

-- The player follows to the new nick.
unfoldable pub follow : Game → Event → Game
follow g ev = elim (online_player g ev.network ev.nick) [
  | none ↦ g
  | some p ↦ record g {
    online =
        insert (okey ev.network ev.text) (record p { nick = ev.text })
          (delete (okey ev.network ev.nick) g.online);
  }
]

unfoldable pub on_nick : Game → Event → (Text → ℕ) → Game
on_nick g ev draw =
    follow
      (fail_quest_by (penalize_online g ev.network ev.nick nick_penalty) ev.network ev.nick draw) ev

-- The handlers of an event, by its kind.
unfoldable pub on_event_of : EventKind → Game → Event → (Text → ℕ) → Game
on_event_of joins g ev draw = mark_present g ev
on_event_of present g ev draw = mark_present g ev
on_event_of parts g ev draw = depart g ev part_penalty draw
on_event_of quits g ev draw = depart g ev quit_penalty draw
on_event_of kicks g ev draw = depart g ev kick_penalty draw
on_event_of renames g ev draw = on_nick g ev draw

unfoldable pub on_event : Game → Event → (Text → ℕ) → Game
unfolding on_event_of
on_event g ev draw = on_event_of ev.kind g ev draw

abbrev pub talk_char_cap : ℤ
talk_char_cap = pos 40

abbrev least : ℤ → ℤ → ℤ
least a b = if ltb_ℤ b a then b else a

abbrev most : ℤ → ℤ → ℤ
most a b = if ltb_ℤ a b then b else a

module _ (ttl_for : ℤ → ℤ) where
  unfoldable pub talk_penalty : ℤ → ℤ → ℤ
  talk_penalty lvl msg_len =
      let long = most (least msg_len talk_char_cap) (pos 1) in
      let pen = mul64 long (add64 (pos 1) (quot lvl 4)) in
      let level_time = ttl_for lvl in
      let raised = most pen (quot level_time 300) in
      let cap = quot level_time 20 in
      most (if ltb_ℤ (pos 0) cap then least raised cap else raised) (pos 1)

  -- A message that is not a command.
  unfoldable pub talk : Game → Sender → Text → (Text → ℕ) → Game
  talk g msg text draw = elim (online_player g msg.network msg.nick) [
    | none ↦ g
    | some p ↦
        let pen = talk_penalty (stat g.store p.key level) (pos (length text)) in
        violate (record g { store = (h_incr g.store (sheet_key p.key) ttl pen).0 }) p.key draw
  ]

  -- The writes of an enrolment.
  unfoldable pub enrol : MemStore → Text → (Text → ℤ) → MemStore
  enrol m key scores =
      let m1 = h_set m (sheet_key key) level (pos 0) in
      let m2 = h_set m1 (sheet_key key) ttl (ttl_for (pos 0)) in
      ensure_abilities (z_incr m2 board_key key (pos 0)).0 key scores

  -- `!rpg` without a verb: enrolment, or the player's standing.
  unfoldable pub play : Game → Sender → Text → (Text → ℤ) → Game
  play g msg channel scores =
      let key = resolve g.store msg.network msg.account msg.nick in
      let store = if enrolled g.store key then g.store else enrol g.store key scores in
      set_online (record g { store = store }) msg.network msg.nick channel key

  -- The time that a tick of `step` seconds takes off a player's clock.
  unfoldable pub player_step : Book → ℤ → List Text → Text → ℤ
  player_step book step roster key =
      quot (mul64 step (add64 (pos (guild_pct book key roster)) (guild_swiftness book key))) 100

  -- The level that a clock at 0 brings.
  unfoldable pub level_up : MemStore → Text → MemStore
  level_up m key =
      let (m1, lvl) = h_incr m (sheet_key key) level (pos 1) in
      let m2 = h_set m1 (sheet_key key) ttl (ttl_for_reb ttl_for lvl (stat m1 key reb)) in
      (z_incr m2 board_key key (pos 1)).0

  -- The clock of a player who is not downed, in the loop of `Tick`.
  unfoldable pub run_clock : MemStore → Text → ℤ → MemStore
  run_clock m key pstep =
      let (m1, left) = h_incr m (sheet_key key) ttl (neg pstep) in
      if ltb_ℤ (pos 0) left then m1 else level_up m1 key

-- `fellowshipPct` of fellowship.go.
unfoldable pub fellowship_pct : ℕ → ℤ
fellowship_pct n =
    if leb_ℤ (pos n) (pos 1)
    then pos 100
    else (let bonus = mul64 (sub64 (pos n) (pos 1)) (pos 5) in
        add64 (pos 100) (if ltb_ℤ (pos 30) bonus then pos 30 else bonus))
