-- ===== src/Dispatch.antt =====
-- internal/event/event.go: the dispatcher of normalised events. A handler is a change of the state S
-- that the handlers share, and Emit calls handlers on its caller's goroutine, so it is one step.
use annoybots.Base.{
  ℕ, Bool, true, false, ◌==◌, [], ◌∷◌, ◌++◌, List, Option, none, some, Text, codes, if◌then◌else◌,
}
pub mod Order
mod Tests

pub data Kind : Type 0 where
  message join part quit nick mode kick present : Kind

-- `String`, for the kinds that there are.
unfoldable pub kind_name : Kind → Text
kind_name message = codes "message"
kind_name join = codes "join"
kind_name part = codes "part"
kind_name quit = codes "quit"
kind_name nick = codes "nick"
kind_name mode = codes "mode"
kind_name kick = codes "kick"
kind_name present = codes "present"

-- The number of a kind.
unfoldable pub kind_number : Kind → ℕ
kind_number message = 0
kind_number join = 1
kind_number part = 2
kind_number quit = 3
kind_number nick = 4
kind_number mode = 5
kind_number kick = 6
kind_number present = 7

pub record Event : Type 0 where
  pub kind : Kind
  pub network : Text
  pub channel : Text
  pub who : Text
  pub ident : Text
  pub host : Text
  pub account : Text
  pub actor : Text
  pub text : Text

unfoldable pub same_kind : Kind → Kind → Bool
unfolding kind_number
same_kind a b = kind_number a == kind_number b

-- A handler that changes a state of the type S.
abbrev pub Handler : Type 0 → Type 0
Handler S = Event → S → S

-- The handlers of each kind, in the order of their subscription.
abbrev pub Dispatcher : Type 0 → Type 0
Dispatcher S = Kind → List (Handler S)

module _ {S : Type 0} where
  unfoldable pub new_dispatcher : Dispatcher S
  new_dispatcher kind = []

  unfoldable pub subscribe : Dispatcher S → Kind → Handler S → Dispatcher S
  subscribe d kind h k = if same_kind kind k then d k ++ h ∷ [] else d k

  unfoldable pub run_all : List (Handler S) → Event → S → S
  run_all [] e s = s
  run_all (h ∷ rest) e s = run_all rest e (h e s)

  -- `Emit`.
  unfoldable pub emit : Dispatcher S → Event → S → S
  emit d e s = run_all (d e.kind) e s

-- The text before the first byte c, and the text after it.
unfoldable pub cut_at : ℕ → Text → Option (Text × Text)
cut_at c [] = none
cut_at c (b ∷ s) =
    let rest = cut_at c s in
    if b == c then some ([], s) else elim rest [ none ↦ none | some (x, y) ↦ some (b ∷ x, y) ]

unfoldable pub split_user_host : Text → Text × Text
split_user_host source = elim (cut_at b'!' source) [
  | none ↦ ([], [])
  | some (name, rest) ↦ elim (cut_at b'@' rest) [ none ↦ (rest, []) | some (u, h) ↦ (u, h) ]
]
