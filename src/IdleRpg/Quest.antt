-- ===== src/IdleRpg/Quest.antt =====
-- internal/idlerpg/quest.go: the one active quest of the realm. encoding/json is the parameter
-- `json`; the float64 arithmetic of stepToward (math.Hypot, math.Round) is the parameter `compass`:
-- nothing within one step of the goal, otherwise the step made. Random draws and the time are
-- arguments, with a draw for each member where every member gets one.
use annoybots.Base.{
  ℕ, zero, suc, ◌+◌, ◌*◌, ◌/◌, Bool, true, false, ◌&&◌, not, ◌==◌, ◌≡◌, [], ◌∷◌, ◌++◌, List, Option,
  none, some, Text, Map, codes, lookup, insert, has as is_some, text_eq, length, take, ltb, leb,
  if◌then◌else◌,
}
use annoybots.Base.Int.{ℤ, pos, negsuc, neg, leb_ℤ, ltb_ℤ, add64, sub64, mul64}
use annoybots.State.{MemStore, h_incr, get_str, set_str, del}
use annoybots.IdleRpg.{sheet_key, quest_key}
use annoybots.IdleRpg.Sheet.{stat}
pub mod Life
pub mod Steps
pub mod Samples
pub mod Rewards
mod Tests

abbrev pub party_max : ℕ
party_max = 4

abbrev pub party_min : ℕ
party_min = 2

pub data QuestKind : Type 0 where
  time_quest map_quest hunt_quest : QuestKind

-- What a quest reads of a player who is online.
pub record Player : Type 0 where
  pub key : Text
  pub nick : Text
  pub network : Text
  pub channel : Text

pub record Quest : Type 0 where
  pub kind : QuestKind
  pub network : Text
  pub channel : Text
  pub deadline : ℤ
  pub members : Map Text
  pub desc : ℕ
  pub at : ℤ × ℤ
  pub first : ℤ × ℤ
  pub second : ℤ × ℤ
  pub stage : ℕ
  pub target : ℤ
  pub progress : ℤ

pub record QuestCodec : Type 0 where
  pub encode : Quest → Text
  pub decode : Text → Option Quest
  pub decode-encode : (q : Quest) → decode (encode q) ≡ some q
  pub encode-ne-nil : (q : Quest) → text_eq (encode q) [] ≡ false

-- The store and the quest in memory.
pub record World : Type 0 where
  pub store : MemStore
  pub quest : Option Quest

-- The draws of a new quest.
pub record Draws : Type 0 where
  pub kind : ℕ
  pub desc : ℕ
  pub at : ℤ × ℤ
  pub first : ℤ × ℤ
  pub second : ℤ × ℤ

abbrev pub ttl : Text
ttl = codes "ttl"

-- Division by 100, which rounds towards 0.
unfoldable pub hundredth : ℤ → ℤ
hundredth (pos n) = pos (n / 100)
hundredth (negsuc n) = neg (pos (suc n / 100))

-- `pctOfTTL`, with `pct` drawn.
unfoldable pub pct_of_ttl : MemStore → Text → ℕ → ℤ
pct_of_ttl m key pct =
    let left = stat m key ttl in
    if leb_ℤ left (pos 0)
    then pos 0
    else (let amt = hundredth (mul64 left (pos pct)) in if ltb_ℤ amt (pos 1) then pos 1 else amt)

-- Every member's clock goes back: a reward of `lo` percent and what is drawn for the member.
unfoldable pub speed_up : MemStore → ℕ → (Text → ℕ) → Map Text → MemStore
speed_up m lo draw [] = m
speed_up m lo draw ((key, nick) ∷ rest) =
    speed_up (h_incr m (sheet_key key) ttl (neg (pct_of_ttl m key (lo + draw key)))).0 lo draw rest

-- Every member's clock goes forward.
unfoldable pub slow_down : MemStore → ℕ → (Text → ℕ) → Map Text → MemStore
slow_down m lo draw [] = m
slow_down m lo draw ((key, nick) ∷ rest) =
    slow_down (h_incr m (sheet_key key) ttl (pct_of_ttl m key (lo + draw key))).0 lo draw rest

unfoldable pub complete_quest : World → (Text → ℕ) → World
complete_quest w draw = elim w.quest [
  | none ↦ w
  | some q ↦ record { store = speed_up (del w.store quest_key) 20 draw q.members; quest = none }
]

unfoldable pub fail_hunt_quest : World → World
fail_hunt_quest w = elim w.quest [
  | none ↦ w
  | some q ↦ record { store = del w.store quest_key; quest = none }
]

unfoldable pub quest_violation : World → Text → (Text → ℕ) → World
quest_violation w key draw = elim w.quest [
  | none ↦ w
  | some q ↦
      if is_some (lookup key q.members)
      then record { store = slow_down (del w.store quest_key) 10 draw q.members; quest = none }
      else w
]

-- Drafted keys are not drafted twice.
unfoldable pub undrafted : List Player → Text → Bool
undrafted [] key = true
undrafted (p ∷ rest) key = not (text_eq p.key key) && undrafted rest key

unfoldable pub enlist_all : Map Text → List Player → Map Text
enlist_all members [] = members
enlist_all members (p ∷ rest) = enlist_all (insert p.key p.nick members) rest

unfoldable pub new_quest : QuestKind → Draws → Player → List Player → Quest
new_quest kind d leader party = record {
  kind = kind;
  network = leader.network;
  channel = leader.channel;
  deadline = pos 0;
  members = enlist_all [] (leader ∷ party);
  desc = d.desc;
  at = (pos 0, pos 0);
  first = (pos 0, pos 0);
  second = (pos 0, pos 0);
  stage = 0;
  target = pos 0;
  progress = pos 0;
}

-- The quest of a drafted party: a journey, a hunt or a wait, by the draw.
unfoldable pub drafted : Draws → ℤ → ℤ → Player → List Player → Quest
drafted d now duration leader party =
    if d.kind == 0
    then record (new_quest map_quest d leader party) {
      at = d.at;
      first = d.first;
      second = d.second;
    }
    else if d.kind == 1
    then record (new_quest hunt_quest d leader party) {
      deadline = add64 now duration;
      target = pos (length (leader ∷ party) * 4 + 6);
    }
    else record (new_quest time_quest d leader party) { deadline = add64 now duration }

-- The members of a roster, each key once, in order.
unfoldable pub dedup : List Player → List Player → List Player
dedup seen [] = []
dedup seen (p ∷ rest) =
    let skip = dedup seen rest in
    let pick = p ∷ dedup (p ∷ seen) rest in if undrafted seen p.key then pick else skip

-- `draftParty`, with the order that the draws of the shuffle gave.
unfoldable pub draft_party : (List Player → List Player) → List Player → List Player
draft_party shuffle roster = take party_max (shuffle (dedup [] roster))

unfoldable pub step_toward : (ℤ → ℤ → Option (ℤ × ℤ)) → ℤ × ℤ → ℤ × ℤ → (ℤ × ℤ) × Bool
step_toward compass (x, y) (tx, ty) = elim (compass (sub64 tx x) (sub64 ty y)) [
  | none ↦ ((tx, ty), true)
  | some (dx, dy) ↦ ((add64 x dx, add64 y dy), false)
]

module _ (json : QuestCodec) where
  unfoldable pub load_quest : World → World
  load_quest w =
      let blob = get_str w.store quest_key in
      if text_eq blob []
      then w
      else elim (json.decode blob) [ none ↦ w | some q ↦ record w { quest = some q } ]

  unfoldable pub save_quest : MemStore → Quest → MemStore
  save_quest m q = set_str m quest_key (json.encode q)

  unfoldable pub activate : World → Quest → World
  activate w q = record { store = save_quest w.store q; quest = some q }

  unfoldable pub start_quest : World → Draws → ℤ → ℤ → List Player → World
  start_quest w d now duration [] = w
  start_quest w d now duration (leader ∷ []) = w
  start_quest w d now duration (leader ∷ (p ∷ party)) =
      activate w (drafted d now duration leader (p ∷ party))

  unfoldable pub quest_kill_credit : World → Text → (Text → ℕ) → World
  quest_kill_credit w key draw = elim w.quest [
    | none ↦ w
    | some q ↦ elim q.kind [
      | time_quest ↦ w
      | map_quest ↦ w
      | hunt_quest ↦
          if not (is_some (lookup key q.members))
          then w
          else (let q1 = record q { progress = add64 q.progress (pos 1) } in
              let w1 = activate w q1 in
              if leb_ℤ q1.target q1.progress then complete_quest w1 draw else w1)
    ]
  ]

  module _ (compass : ℤ → ℤ → Option (ℤ × ℤ)) where
    unfoldable pub advance_map_quest : World → (Text → ℕ) → World
    advance_map_quest w draw = elim w.quest [
      | none ↦ w
      | some q ↦
          let (at, reached) =
            step_toward compass q.at (if q.stage == 0 then q.first else q.second) in
          let q1 = record q { at = at } in
          if not reached
          then activate w q1
          else if q.stage == 0
          then activate w (record q1 { stage = 1 })
          else complete_quest (record w { quest = some q1 }) draw
    ]

    -- `questTick`, with the party that a new quest would draft and whether one is to start.
    unfoldable pub quest_tick : World → ℤ → ℤ → Bool → Draws → List Player → (Text → ℕ) → World
    quest_tick w now duration starts d party draw = elim w.quest [
      | none ↦ if starts then start_quest w d now duration party else w
      | some q ↦ elim q.kind [
        | map_quest ↦ advance_map_quest w draw
        | hunt_quest ↦ if leb_ℤ q.deadline now then fail_hunt_quest w else w
        | time_quest ↦ if leb_ℤ q.deadline now then complete_quest w draw else w
      ]
    ]
