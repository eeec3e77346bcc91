-- ===== src/Tell.antt =====
-- internal/tell/tell.go: notes that wait for a nick until it speaks or joins. The lines that the bot
-- says are values; the time of a note is an argument.
use annoybots.Base.{
  ℕ, zero, suc, Bool, true, false, not, [], ◌∷◌, ◌++◌, List, Option, none, some, Text, Map, codes,
  map, lookup, insert, delete, or_zero, text_eq, to_lower, fields, join_space, length, take, ltb,
  leb, if◌then◌else◌,
}
mod Inbox
pub mod Notes
mod Tests

abbrev pub max_per_target : ℕ
max_per_target = 10

abbrev pub max_text_len : ℕ
max_text_len = 300

pub record Note : Type 0 where
  pub from : Text
  pub text : Text
  pub at : ℕ

-- What this package reads of `engine.Message`.
pub record Message : Type 0 where
  pub network : Text
  pub channel : Text
  pub nick : Text
  pub text : Text
  pub private : Bool

abbrev pub Pending : Type 0
Pending = Map (List Note)

pub data Said : Type 0 where
  told : Text → Text → Text → Said
  usage : Said
  inbox_full : Text → Said
  will_tell : Text → Text → Said

unfoldable pub key : Text → Text → Text → Text
key network channel nick = to_lower network ++ (b'|' ∷ (to_lower channel ++ (b'|' ∷ to_lower nick)))

-- The notes that wait under a key.
unfoldable pub inbox : Pending → Text → List Note
inbox m k = or_zero [] (lookup k m)

unfoldable pub deliver : Pending → Text → Text → Text → Pending × List Said
deliver m network channel nick =
    let k = key network channel nick in
    (delete k m, map (λ (n : Note). told nick n.from n.text) (inbox m k))

-- The text of a note, cut where it is too long.
unfoldable pub note_text : List Text → Text
note_text words =
    let text = join_space words in
    if ltb max_text_len (length text) then take max_text_len text else text

-- `!message <target> <words>`, after the speaker's own notes have been delivered.
unfoldable pub leave : Pending → ℕ → Message → Text → List Text → Pending × Said
leave m now msg target words =
    let k = key msg.network msg.channel target in
    if leb max_per_target (length (inbox m k)) then (m, inbox_full target) else (
      insert k (inbox m k ++ record { from = msg.nick; text = note_text words; at = now } ∷ []) m,
      will_tell msg.nick target,
    )

-- The words of a message after delivery: the lines said, and whether it was consumed.
unfoldable pub command : Pending → ℕ → Message → List Text → Pending × List Said × Bool
command m now msg [] = (m, [], false)
command m now msg (cmd ∷ args) =
    if not (text_eq (to_lower cmd) (codes "!message")) then (m, [], false) else elim args [
      | [] ↦ (m, usage ∷ [], true)
      | (target ∷ words) ↦
          if leb 1 (length words)
          then (let (left, said) = leave m now msg target words in (left, said ∷ [], true))
          else (m, usage ∷ [], true)
    ]

-- `Handle`.
unfoldable pub handle : Pending → ℕ → Message → Pending × List Said × Bool
handle m now msg =
    if msg.private
    then (m, [], false)
    else (let (rest, heard) = deliver m msg.network msg.channel msg.nick in
        let (after, said, used) = command rest now msg (fields msg.text) in
        (after, heard ++ said, used))

-- `OnJoin`, for an event that is a join or another kind.
unfoldable pub on_join : Pending → Bool → Text → Text → Text → Pending × List Said
on_join m join network channel nick = if join then deliver m network channel nick else (m, [])
