-- ===== src/Botnet/Fleet.antt =====
-- A fleet of the bots of internal/botnet that perform one skit over the bus. A step is one turn of a
-- bot's goroutine, whose events go on the wire to every bot, or the delivery or the loss of the next
-- event that is on the wire to a bot.
use annoybots.Base.{
  ℕ, ◌≡◌, ◌<◌, ◌≤◌, ◌++◌, [], ◌∷◌, List, Option, none, some, Text, map, ◌==◌, take, length,
  to_lower, if◌then◌else◌,
}
use annoybots.Botnet.{Event}
use annoybots.Botnet.Coordinator.{Coordinator, Skit, Line, Signal, said_line, on_event, perform}
pub mod Pace
pub mod Lockstep

pub record Fleet : Type 0 where
  pub bot : ℕ → Coordinator
  pub wire : ℕ → List Event
  pub said : List Line

abbrev pub update {ℓ} : {A : Type ℓ} → (ℕ → A) → ℕ → A → ℕ → A
update f i a j = if i == j then a else f j

-- Bot i's goroutine of the nonce makes a turn.
unfoldable pub turn : Text → Signal → ℕ → Fleet → Fleet
turn nonce signal i f =
    let (c, lines, events) = perform (f.bot i) nonce signal in
    record { bot = update f.bot i c; wire = λ j. f.wire j ++ events; said = f.said ++ lines }

unfoldable pub deliver : ℕ → Event → List Event → Fleet → Fleet
deliver i e rest f = record f {
  bot = update f.bot i (on_event (f.bot i) e);
  wire = update f.wire i rest;
}

unfoldable pub lose : ℕ → List Event → Fleet → Fleet
lose i rest f = record f { wire = update f.wire i rest }

pub data Step (nonce : Text) (f : Fleet) : Fleet → Type 0 where
  turns : (i : ℕ) (signal : Signal) → Step nonce f (turn nonce signal i f)
  delivers :
      (i : ℕ) (e : Event) (rest : List Event)
      → f.wire i ≡ e ∷ rest
      → Step nonce f (deliver i e rest f)
  loses :
      (i : ℕ) (e : Event) (rest : List Event) → f.wire i ≡ e ∷ rest → Step nonce f (lose i rest f)

pub data Reach (nonce : Text) (f : Fleet) : Fleet → Type 0 where
  here : Reach nonce f f
  next : {g h : Fleet} → Reach nonce f g → Step nonce g h → Reach nonce f h

-- The lines of a skit, as its start event has them said.
unfoldable pub script : Event → Skit → List Line
script start s = map (said_line start) s.steps
