-- ===== src/IdleRpg/Game/Course.antt =====
-- A realm in play, as a step relation: the handlers of internal/idlerpg/idlerpg.go, in any order.
use annoybots.Base.{Option, ℕ, Text}
use annoybots.Base.Int.{ℤ}
use annoybots.IdleRpg.Quest.{QuestCodec}
use annoybots.IdleRpg.Omens.{WorldEvent}
use annoybots.IdleRpg.Loot.{Find, find_item}
use annoybots.IdleRpg.Roam.{move_on_map}
use annoybots.IdleRpg.Luck.{LuckDraws, BattleDraws, visit, battle}
use annoybots.IdleRpg.Fight.{Foe, RoundDice}
use annoybots.IdleRpg.Fight.Settle.{Spoils, fight_monster}
use annoybots.IdleRpg.Game.Finds.{
  find_item-IsQuiet, visit-IsQuiet, battle-IsQuiet, move_on_map-IsQuiet,
}
use annoybots.IdleRpg.Game.Battles.{fight_monster-IsQuiet}
use annoybots.IdleRpg.Trade.{Sender}
use annoybots.IdleRpg.Guild.{BookCodec}
use annoybots.IdleRpg.Rebirth.{rebirth}
use annoybots.IdleRpg.Game.{Game, Event, on_event, talk, play, run_clock}
use annoybots.IdleRpg.Game.Gods.{hand_of_god, push, set_gold, set_level, reset_one}
use annoybots.IdleRpg.Game.Board.{IsBoard, quiet-IsBoard}
use annoybots.IdleRpg.Game.Climb.{run_clock-IsBoard}
use annoybots.IdleRpg.Game.Steps.{on_event_of-IsQuiet, talk-IsQuiet}
use annoybots.IdleRpg.Game.Verbs.{
  hand_of_god-IsQuiet, push-IsQuiet, set_gold-IsQuiet, set_level-IsBoard, play-IsBoard,
  reset_one-IsBoard, rebirth-IsBoard,
}

-- What the handlers take from other code: the time of a level, the steps of a journey and JSON.
pub record Rules : Type 0 where
  pub ttl_for : ℤ → ℤ
  pub compass : ℤ → ℤ → ℤ → Option (ℤ × ℤ)
  pub books : BookCodec
  pub quests : QuestCodec

-- A fight changes the store and the quest.
unfoldable pub fights :
    Rules
    → Game
    → Option WorldEvent
    → Text
    → Text
    → Foe
    → (ℕ → RoundDice)
    → Spoils
    → (Text → ℕ)
    → Game
fights r g event key sky foe dice d draw =
    let w =
      fight_monster r.quests (record { store = g.store; quest = g.quest }) g.book event key sky foe
        dice d draw in
    record g { store = w.store; quest = w.quest }

pub data Step (r : Rules) (g : Game) : Game → Type 0 where
  events : (ev : Event) (draw : Text → ℕ) → Step r g (on_event g ev draw)
  talks : (msg : Sender) (text : Text) (draw : Text → ℕ) → Step r g (talk r.ttl_for g msg text draw)
  plays :
      (msg : Sender) (channel : Text) (scores : Text → ℤ)
      → Step r g (play r.ttl_for g msg channel scores)
  clocks :
      (key : Text) (pstep : ℤ)
      → Step r g (record g { store = run_clock r.ttl_for g.store key pstep })
  rebirths : (key : Text) → Step r g (record g { store = (rebirth r.ttl_for g.store key).0 })
  touches :
      (key : Text) (pct coin : ℕ) → Step r g (record g { store = hand_of_god g.store key pct coin })
  pushes : (key num : Text) → Step r g (push g key num).0
  pays : (key num : Text) → Step r g (set_gold g key num).0
  promotes : (key num : Text) → Step r g (set_level r.ttl_for g key num).0
  moves :
      (key sky : Text) (dx dy : ℕ)
      → Step r g (record g { store = move_on_map r.compass g.store key sky dx dy })
  finds : (key : Text) (f : Find) → Step r g (record g { store = find_item g.store key f })
  battles : (key : Text) (d : BattleDraws) → Step r g (record g { store = battle g.store key d })
  visits : (key : Text) (d : LuckDraws) → Step r g (record g { store = visit g.store key d })
  encounters :
      (event : Option WorldEvent) (key sky : Text) (foe : Foe) (dice : ℕ → RoundDice) (d : Spoils)
      (draw : Text → ℕ)
      → Step r g (fights r g event key sky foe dice d draw)
  resets : (key : Text) → Step r g (reset_one r.books g key).0

pub data Reach (r : Rules) (g : Game) : Game → Type 0 where
  here : Reach r g g
  next : {h i : Game} → Reach r g h → Step r h i → Reach r g i

module _ (r : Rules) where
  Step-IsBoard : {g h : Game} → Step r g h → IsBoard g.store → IsBoard h.store
  unfolding on_event fights
  Step-IsBoard {g} (events ev draw) b = quiet-IsBoard (on_event_of-IsQuiet ev.kind g ev draw) b
  Step-IsBoard {g} (talks msg text draw) b =
      quiet-IsBoard (talk-IsQuiet r.ttl_for g msg text draw) b
  Step-IsBoard {g} (plays msg channel scores) b = play-IsBoard r.ttl_for g msg channel scores b
  Step-IsBoard {g} (clocks key pstep) b = run_clock-IsBoard r.ttl_for g.store key pstep b
  Step-IsBoard {g} (rebirths key) b = rebirth-IsBoard r.ttl_for g.store key b
  Step-IsBoard {g} (touches key pct coin) b =
      quiet-IsBoard (hand_of_god-IsQuiet g.store key pct coin) b
  Step-IsBoard {g} (pushes key num) b = quiet-IsBoard (push-IsQuiet g key num) b
  Step-IsBoard {g} (pays key num) b = quiet-IsBoard (set_gold-IsQuiet g key num) b
  Step-IsBoard {g} (promotes key num) b = set_level-IsBoard r.ttl_for g key num b
  Step-IsBoard {g} (moves key sky dx dy) b =
      quiet-IsBoard (move_on_map-IsQuiet r.compass g.store key sky dx dy) b
  Step-IsBoard {g} (finds key f) b = quiet-IsBoard (find_item-IsQuiet g.store key f) b
  Step-IsBoard {g} (battles key d) b = quiet-IsBoard (battle-IsQuiet g.store key d) b
  Step-IsBoard {g} (visits key d) b = quiet-IsBoard (visit-IsQuiet g.store key d) b
  Step-IsBoard {g} (encounters event key sky foe dice d draw) b =
      quiet-IsBoard
        (fight_monster-IsQuiet r.quests (record { store = g.store; quest = g.quest }) g.book event
          key sky foe dice d draw)
        b
  Step-IsBoard {g} (resets key) b = reset_one-IsBoard r.books g key b

-- However joins, departures, talk, enrolments, clocks, journeys, finds, battles, fights, strokes of
-- luck, rebirths and an operator's verbs on one player follow each other, the board shows every
-- player's level and the levels stay int64 values, if that held at first. This holds for any time of
-- the levels, any steps of a journey and any draws.
pub Reach-IsBoard : (r : Rules) {g h : Game} → Reach r g h → IsBoard g.store → IsBoard h.store
Reach-IsBoard r here b = b
Reach-IsBoard r (next p s) b = Step-IsBoard r s (Reach-IsBoard r p b)
