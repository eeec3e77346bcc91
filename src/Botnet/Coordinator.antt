-- ===== src/Botnet/Coordinator.antt =====
-- internal/botnet/coordinator.go and skit.go: one bot of a fleet that performs skits. The state has, for
-- each nonce, the goroutine `perform` that runs (`active` and `waiters` have the same keys). Chances
-- are in millionths, and a draw of the generator is a number of millionths; the draws, the clock and the
-- nonce are arguments.
use annoybots.Base.{
  ℕ, zero, suc, ◌+◌, ◌≡◌, Bool, true, false, not, ◌&&◌, ◌||◌, [], ◌∷◌, ◌++◌, List, Option, none,
  some, Text, Map, map, lookup, insert, delete, or_zero, has, codes, text_eq, to_lower, equal_fold,
  fields, trim_space, length, take, get_elem?, ltb, leb, ◌==◌, if◌then◌else◌,
}
use annoybots.Base.Int.{ℤ, pos, eq_ℤ, ltb_ℤ, leb_ℤ}
use annoybots.Cooldown.{Last, use_key}
use annoybots.Botnet.{Event}
pub mod Leads

pub record SkitStep : Type 0 where
  pub bot : Text
  pub line : Text
  pub delay : ℤ
  pub action : Bool

pub record Skit : Type 0 where
  pub name : Text
  pub chance : ℤ
  pub cooldown : ℤ
  pub steps : List SkitStep

abbrev pub no_skit : Skit
no_skit = record { name = []; chance = pos 0; cooldown = pos 0; steps = [] }

unfoldable pub lead : Skit → Text
lead s = elim s.steps [ [] ↦ [] | (step ∷ rest) ↦ step.bot ]

-- The goroutine of `perform`: the event that began it, its skit, the index of the loop and what waits
-- in the channel `advance`.
pub record Performance : Type 0 where
  pub start : Event
  pub skit : Skit
  pub at : ℕ
  pub advance : List ℤ

pub record Coordinator : Type 0 where
  pub name : Text
  pub skits : Map Skit
  pub order : List Text
  pub cool : Last
  pub active : Map Performance

-- What a bot says in a channel.
pub record Line : Type 0 where
  pub network : Text
  pub channel : Text
  pub text : Text
  pub action : Bool

-- What this package reads of `engine.Message`.
pub record Message : Type 0 where
  pub network : Text
  pub channel : Text
  pub text : Text
  pub private : Bool

unfoldable pub skit_map : List Skit → Map Skit → Map Skit
skit_map [] m = m
skit_map (s ∷ skits) m = skit_map skits (insert (to_lower s.name) s m)

unfoldable pub skit_keys : List Skit → List Text
skit_keys = map (λ (s : Skit). to_lower s.name)

unfoldable pub new_coordinator : Text → List Skit → Coordinator
new_coordinator name skits = record {
  name = to_lower name;
  skits = skit_map skits [];
  order = skit_keys skits;
  cool = [];
  active = [];
}

unfoldable pub set_skits : Coordinator → List Skit → Coordinator
set_skits c skits = record c { skits = skit_map skits []; order = skit_keys skits }

unfoldable pub get_skit : Coordinator → Text → Option Skit
get_skit c name = lookup (to_lower name) c.skits

abbrev pub skit_start : Text
skit_start = codes "skit_start"

abbrev pub skit_advance : Text
skit_advance = codes "skit_advance"

unfoldable pub blank_event : Event
blank_event = record {
  kind = [];
  from = [];
  network = [];
  channel = [];
  skit = [];
  step = pos 0;
  nonce = [];
  pack = [];
  line = [];
  account = [];
  admin_net = [];
  flags = [];
  text = [];
  nick = [];
  ts = pos 0;
  sig = [];
}

unfoldable pub begin_perform : Coordinator → Event → Coordinator
begin_perform c e = elim (get_skit c e.skit) [
  | none ↦ c
  | some s ↦ if length s.steps == 0 || has (lookup e.nonce c.active) then c else record c {
    active = insert e.nonce (record { start = e; skit = s; at = 0; advance = [] }) c.active;
  }
]

-- The send to a waiter, which is skipped where its channel is full.
unfoldable pub offer : Performance → ℤ → Performance
offer p step =
    if ltb (length p.advance) (length p.skit.steps)
    then record p { advance = p.advance ++ step ∷ [] }
    else p

unfoldable pub on_event : Coordinator → Event → Coordinator
on_event c e =
    if text_eq e.kind skit_start
    then begin_perform c e
    else if text_eq e.kind skit_advance
    then (if text_eq e.from c.name then c else elim (lookup e.nonce c.active) [
      | none ↦ c
      | some p ↦ record c { active = insert e.nonce (offer p e.step) c.active }
    ])
    else c

-- What a wait sees beside its channel: nothing, its timer, or the end of the context.
pub data Signal : Type 0 where
  quiet timer_fired cancelled : Signal

-- What one turn of the loop of `perform` comes to: the goroutine ends, a line is said and its advance
-- published, a number is taken from the channel, or it goes on waiting.
pub data Turn : Type 0 where
  ended : Turn
  speaks : Line → Event → Performance → Turn
  heard : Performance → Turn
  blocked : Turn

unfoldable pub said_line : Event → SkitStep → Line
said_line start step = record {
  network = start.network;
  channel = start.channel;
  text = step.line;
  action = step.action;
}

unfoldable pub advance_event : Text → Performance → Event
advance_event name p = record blank_event {
  kind = skit_advance;
  from = name;
  network = p.start.network;
  channel = p.start.channel;
  skit = p.start.skit;
  step = pos p.at;
  nonce = p.start.nonce;
}

-- One receive of `waitForStep`: another step's number is thrown away.
unfoldable pub take_advance : Performance → Turn
take_advance p = elim p.advance [
  | [] ↦ blocked
  | (s ∷ rest) ↦ heard (
      if eq_ℤ s (pos p.at)
      then record p { at = p.at + 1; advance = rest }
      else record p { advance = rest })
]

unfoldable pub wait_for_step : Signal → Performance → Turn
wait_for_step quiet p = take_advance p
wait_for_step timer_fired p = ended
wait_for_step cancelled p = ended

unfoldable pub is_cancelled : Signal → Bool
is_cancelled quiet = false
is_cancelled timer_fired = false
is_cancelled cancelled = true

unfoldable pub perform_turn : Text → Signal → Performance → Turn
perform_turn name signal p = elim (get_elem? p.skit.steps p.at) [
  | none ↦ ended
  | some step ↦
      if equal_fold step.bot name
      then (if ltb_ℤ (pos 0) step.delay && is_cancelled signal
          then ended
          else speaks (said_line p.start step) (advance_event name p) (record p { at = p.at + 1 }))
      else wait_for_step signal p
]

unfoldable pub run_turn : Coordinator → Text → Turn → Coordinator × List Line × List Event
run_turn c nonce ended = (record c { active = delete nonce c.active }, [], [])
run_turn c nonce (speaks line e after) =
    (record c { active = insert nonce after c.active }, line ∷ [], e ∷ [])
run_turn c nonce (heard after) = (record c { active = insert nonce after c.active }, [], [])
run_turn c nonce blocked = (c, [], [])

-- A turn of the goroutine of a nonce.
unfoldable pub perform : Coordinator → Text → Signal → Coordinator × List Line × List Event
perform c nonce signal = elim (lookup nonce c.active) [
  | none ↦ (c, [], [])
  | some p ↦ run_turn c nonce (perform_turn c.name signal p)
]

-- The skits that this bot leads, in order.
unfoldable pub led_of : Coordinator → List Text → List Skit
led_of c [] = []
led_of c (key ∷ keys) =
    let rest = led_of c keys in
    elim (get_skit c key) [
      | none ↦ rest
      | some s ↦ if equal_fold (lead s) c.name then s ∷ rest else rest
    ]

unfoldable pub random_led_skit : Coordinator → ℕ → Option Skit
random_led_skit c draw = get_elem? (led_of c c.order) draw

unfoldable pub cool_key : Text → Text → Text
cool_key network channel = codes "skit:" ++ network ++ (b':' ∷ channel)

-- Five minutes, in nanoseconds.
abbrev pub default_cooldown : ℤ
default_cooldown = pos 300000000000

unfoldable pub cooldown_of : Skit → ℤ
cooldown_of s = if leb_ℤ s.cooldown (pos 0) then default_cooldown else s.cooldown

unfoldable pub start_event : Coordinator → Text → Text → Text → Skit → Event
start_event c nonce network channel s = record blank_event {
  kind = skit_start;
  from = c.name;
  network = network;
  channel = channel;
  skit = s.name;
  nonce = nonce;
}

unfoldable pub try_start :
    Coordinator → ℤ → ℕ → Text → Text → Text → Text → Coordinator × List Event
try_start c now draw nonce network channel name =
    let pick = if text_eq name [] then random_led_skit c draw else get_skit c name in
    elim pick [
      | none ↦ (c, [])
      | some s ↦
          if length s.steps == 0 || not (equal_fold (lead s) c.name)
          then (c, [])
          else (let (cool, ready) = use_key c.cool (cool_key network channel) (cooldown_of s) now in
              if ready
              then (record c { cool = cool }, start_event c nonce network channel s ∷ [])
              else (c, []))
    ]

-- `roll`, with a draw below 1,000,000.
unfoldable pub roll : ℤ → ℕ → Bool
roll chance draw = leb_ℤ (pos 1000000) chance || ltb_ℤ (pos draw) chance

-- The loop of `maybeAutoStart`: the first skit that this bot leads and whose draw succeeds.
unfoldable pub auto_pick : Coordinator → (ℕ → ℕ) → List Text → Option Skit
auto_pick c draws [] = none
auto_pick c draws (key ∷ keys) =
    let rest = auto_pick c draws keys in
    elim (get_skit c key) [
      | none ↦ rest
      | some s ↦
          if leb_ℤ s.chance (pos 0) || not (equal_fold (lead s) c.name)
          then rest
          else if roll s.chance (draws (length keys))
          then some s
          else rest
    ]

unfoldable pub maybe_auto_start :
    Coordinator → ℤ → (ℕ → ℕ) → ℕ → Text → Text → Text → Coordinator × List Event
maybe_auto_start c now draws draw nonce network channel = elim (auto_pick c draws c.order) [
  | none ↦ (c, [])
  | some s ↦ try_start c now draw nonce network channel s.name
]

abbrev pub skit_command : Text
skit_command = codes "!skit"

unfoldable pub skit_name : List Text → Text
skit_name (w ∷ (name ∷ rest)) = name
skit_name (w ∷ []) = []
skit_name [] = []

unfoldable pub on_message :
    Coordinator → ℤ → (ℕ → ℕ) → ℕ → Text → Message → Coordinator × List Event
on_message c now draws draw nonce msg =
    let text = trim_space msg.text in
    if msg.private
    then (c, [])
    else if text_eq (take 5 (to_lower text)) skit_command
    then try_start c now draw nonce msg.network msg.channel (skit_name (fields text))
    else maybe_auto_start c now draws draw nonce msg.network msg.channel
