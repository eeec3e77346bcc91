-- ===== src/IdleRpg/Omens/Tests.antt =====
-- A codec for world events that round-trips, a Blood Moon, and the theorem on it.
use annoybots.Base.{◌≡◌, refl, false, true, [], ◌∷◌, Option, none, some, Text, codes, text_eq}
use annoybots.Base.Int.{pos}
use annoybots.State.{new_mem}
use annoybots.IdleRpg.Samples.{
  ann, code_int, code_text, read_int, read_text, read_int-code, read_text-code,
}
use annoybots.IdleRpg.Quest.{Player}
use annoybots.IdleRpg.Omens.{WorldEvent, OmenCodec, Omens, event_kind, world_event_tick}
use annoybots.IdleRpg.Omens.Restart.{IsKept, world_event_tick-IsKept}

abbrev code_event : WorldEvent → Text
code_event e =
    0
    ∷ code_text e.kind (
        code_text e.name
          (code_text e.desc (code_int e.deadline (code_text e.network (code_text e.channel [])))))

abbrev read_event : Text → Option WorldEvent
read_event [] = none
read_event (n ∷ t) =
    read_text
      (λ kind. read_text (λ name. read_text (λ desc. read_int (λ deadline. read_text (λ network.
        read_text (λ channel s. some (record {
          kind = kind;
          name = name;
          desc = desc;
          deadline = deadline;
          network = network;
          channel = channel;
        })))))))
      t

read_event-code : (e : WorldEvent) → read_event (code_event e) ≡ some e
read_event-code e =
    rw
      (
        read_text-code _ e.kind _,
        read_text-code _ e.name _,
        read_text-code _ e.desc _,
        read_int-code _ e.deadline _,
        read_text-code _ e.network _,
      )
      (read_text-code (λ channel s. some (record e { channel = channel })) e.channel [])

some_bytes : (e : WorldEvent) → text_eq (code_event e) [] ≡ false
unfolding text_eq
some_bytes e = refl

plain_event : OmenCodec
plain_event = record {
  encode = code_event;
  decode = read_event;
  decode-encode = read_event-code;
  encode-ne-nil = some_bytes;
}

abbrev calm : Omens
calm = record { store = new_mem; wevent = none }

abbrev someone : Player
someone = record { key = ann; nick = codes "ann"; network = codes "libera"; channel = codes "#c" }

moon_run :
    event_kind (world_event_tick plain_event calm (pos 100) true (some someone) 0).wevent
    ≡ codes "bloodmoon"
unfolding annoybots.IdleRpg.Omens.begin_world_event event_kind plain_event world_event_tick
moon_run = refl

calm-IsKept : IsKept plain_event calm
unfolding annoybots.Base.lookup annoybots.IdleRpg.Omens.load_world_event annoybots.State.get_str
    new_mem plain_event text_eq
calm-IsKept = refl

world_event_tick-IsKept_example :
    IsKept plain_event (world_event_tick plain_event calm (pos 100) true (some someone) 0)
world_event_tick-IsKept_example =
    world_event_tick-IsKept plain_event calm (pos 100) true (some someone) 0 calm-IsKept
