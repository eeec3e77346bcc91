-- ===== src/IdleRpg/Omens.antt =====
-- internal/idlerpg/worldevent.go: the event that changes the rules of the realm for a while. JSON is
-- the record OmenCodec, and the draws are arguments.
use annoybots.Base.{
  ℕ, ◌≡◌, Bool, true, false, [], ◌∷◌, List, Option, none, some, Text, codes, text_eq, get_elem?,
  if◌then◌else◌,
}
use annoybots.Base.Int.{ℤ, pos, leb_ℤ, add64, mul64, quot}
use annoybots.State.{MemStore, set_str, get_str, del}
use annoybots.IdleRpg.Quest.{Player}
pub mod Restart
mod Tests

abbrev pub world_event_duration : ℤ
world_event_duration = pos 1800

abbrev pub event_key : Text
event_key = codes "rpg:wevent"

pub record WorldEvent : Type 0 where
  pub kind : Text
  pub name : Text
  pub desc : Text
  pub deadline : ℤ
  pub network : Text
  pub channel : Text

pub record OmenCodec : Type 0 where
  pub encode : WorldEvent → Text
  pub decode : Text → Option WorldEvent
  pub decode-encode : (e : WorldEvent) → decode (encode e) ≡ some e
  pub encode-ne-nil : (e : WorldEvent) → text_eq (encode e) [] ≡ false

abbrev event_of : Text → Text → Text → WorldEvent
event_of kind name desc = record {
  kind = kind;
  name = name;
  desc = desc;
  deadline = pos 0;
  network = [];
  channel = [];
}

abbrev pub world_event_kinds : List WorldEvent
world_event_kinds =
    event_of (codes "bloodmoon") (codes "a Blood Moon")
      (codes "monsters prowl in far greater numbers")
    ∷ event_of (codes "harvest") (codes "the Harvest Festival")
        (codes "every coin earned is worth half again")
    ∷ event_of (codes "tempest") (codes "a Storm of Fate") (codes "the gods meddle far more often")
    ∷ []

-- The store and the event in memory.
pub record Omens : Type 0 where
  pub store : MemStore
  pub wevent : Option WorldEvent

unfoldable pub event_kind : Option WorldEvent → Text
event_kind none = []
event_kind (some e) = e.kind

unfoldable pub harvest_gold : Option WorldEvent → ℤ → ℤ
harvest_gold e g = if text_eq (event_kind e) (codes "harvest") then quot (mul64 g (pos 3)) 2 else g

unfoldable pub clear_world_event : Omens → Omens
clear_world_event o = record { store = del o.store event_key; wevent = none }

module _ (json : OmenCodec) where
  unfoldable pub load_world_event : Omens → Omens
  load_world_event o =
      let blob = get_str o.store event_key in
      if text_eq blob []
      then o
      else elim (json.decode blob) [ none ↦ o | some e ↦ record o { wevent = some e } ]

  unfoldable pub save_world_event : MemStore → WorldEvent → MemStore
  save_world_event m e = set_str m event_key (json.encode e)

  -- A new event of the kind that is drawn, where the player who is drawn is.
  unfoldable pub begin_world_event : Omens → ℤ → Option Player → ℕ → Omens
  begin_world_event o now who pick = elim who [
    | none ↦ o
    | some p ↦ elim (get_elem? world_event_kinds pick) [
      | none ↦ o
      | some e ↦
          let ev = record e {
            deadline = add64 now world_event_duration;
            network = p.network;
            channel = p.channel;
          } in
          record { store = save_world_event o.store ev; wevent = some ev }
    ]
  ]

  -- `worldEventTick`, with whether the roll begins an event.
  unfoldable pub world_event_tick : Omens → ℤ → Bool → Option Player → ℕ → Omens
  world_event_tick o now begins who pick = elim o.wevent [
    | some e ↦ if leb_ℤ e.deadline now then clear_world_event o else o
    | none ↦ if begins then begin_world_event o now who pick else o
  ]
