-- ===== src/Tell/Notes.antt =====
-- Inboxes and the delivery of notes of internal/tell/tell.go.
use annoybots.Base.{
  ℕ, ◌≤◌, ◌<◌, Bool, true, false, codes, ◌≡◌, refl, ap, ◌∙◌, [], ◌∷◌, ◌++◌, List, Text, arith, map,
  text_eq, text_eq_refl, to_lower, fields, join_space, length, take, if◌then◌else◌, length-append,
}
use annoybots.Tell.{
  max_per_target, Note, Message, Pending, Said, note_text, told, will_tell, key, inbox, deliver,
  leave, command, handle, on_join,
}
use annoybots.Tell.Inbox.{
  deliver_again, handle_keeps, if_within, inbox-deliver, inbox-insert, key_fold, map-append,
  note_of, said-deliver, speaks, waits,
}

-- No inbox holds more than ten notes.
abbrev pub IsBounded : Pending → Type 0
IsBounded m = (k : Text) → length (inbox m k) ≤ max_per_target

pub deliver-IsBounded :
    (m : Pending) (network channel nick : Text)
    → IsBounded m
    → IsBounded (deliver m network channel nick).0
deliver-IsBounded m network channel nick v k = ground (
  arith,
  v k,
  inbox-deliver m network channel nick k,
  ap (λ (xs : List Note). length xs) (inbox-deliver m network channel nick k),
)

leave-IsBounded :
    (m : Pending) (now : ℕ) (msg : Message) (target : Text) (words : List Text)
    → IsBounded m
    → IsBounded (leave m now msg target words).0
unfolding leave
leave-IsBounded m now msg target words v j =
    let k = key msg.network msg.channel target in
    let n : Note = record { from = msg.nick; text = note_text words; at = now } in
    ground
      (arith, v j, inbox-insert m k j (inbox m k ++ n ∷ []), length-append (inbox m k) (n ∷ []))

command-IsBounded :
    (m : Pending) (now : ℕ) (msg : Message) (words : List Text)
    → IsBounded m
    → IsBounded (command m now msg words).0
unfolding command
command-IsBounded m now msg [] v j = ground (arith, v j)
command-IsBounded m now msg (cmd ∷ []) v j = ground (arith, v j)
command-IsBounded m now msg (cmd ∷ (target ∷ words)) v j =
    ground (arith, v j, leave-IsBounded m now msg target words v j)

-- Neither a message nor a join makes any inbox larger than ten notes, if none was before.
pub handle-IsBounded :
    (m : Pending) (now : ℕ) (msg : Message) (join : Bool) (network channel nick : Text)
    → IsBounded m
    → IsBounded (handle m now msg).0 × IsBounded (on_join m join network channel nick).0
unfolding handle on_join
handle-IsBounded m now msg join network channel nick v = (
  λ j. ground (
    arith,
    v j,
    command-IsBounded (deliver m msg.network msg.channel msg.nick).0 now msg (fields msg.text)
        (deliver-IsBounded m msg.network msg.channel msg.nick v) j,
  ),
  λ j. ground (arith, v j, deliver-IsBounded m network channel nick v j),
)

-- `!message`, a target and some words, in a channel where fewer than ten notes wait for the target:
-- the speaker is told its own notes, the answer is that the target will be told, and the message is
-- consumed. When the target joins, under any letter case of its nick and of the channel and the
-- network, it is told all that waited before and then the new note, cut to 300 bytes; an event that
-- is not a join tells and changes nothing. When it speaks instead, it is told the same and then what
-- its words come to where it has no notes. Told once, it is not told again, and no other inbox
-- changes than the speaker's own.
pub leave_then_deliver :
    (m : Pending) (now later : ℕ) (msg reply : Message) (cmd target word : Text) (words : List Text)
    → msg.private ≡ false
    → fields msg.text ≡ cmd ∷ (target ∷ (word ∷ words))
    → text_eq (to_lower cmd) (codes "!message") ≡ true
    → length (waits m msg (key msg.network msg.channel target)) < 10
    → reply.private ≡ false
    → to_lower reply.network ≡ to_lower msg.network
    → to_lower reply.channel ≡ to_lower msg.channel
    → to_lower reply.nick ≡ to_lower target
    → let k = key msg.network msg.channel target in
      let kept = (handle m now msg).0 in
      let lines =
        map (λ (n : Note). told reply.nick n.from n.text) (waits m msg k)
        ++ told reply.nick msg.nick (take 300 (join_space (word ∷ words))) ∷ [] in
      let joined = on_join kept true reply.network reply.channel reply.nick in
      let spoken = handle kept later reply in
      ((handle m now msg).1
        ≡ map
            (λ (n : Note). told msg.nick n.from n.text)
            (inbox m (key msg.network msg.channel msg.nick))
          ++ will_tell msg.nick target ∷ [])
      × ((handle m now msg).2 ≡ true)
      × (joined.1 ≡ lines)
      × (on_join kept false reply.network reply.channel reply.nick ≡ (kept, []))
      × (spoken.0 ≡ (handle joined.0 later reply).0)
      × (spoken.1 ≡ lines ++ (handle joined.0 later reply).1)
      × ((on_join joined.0 true reply.network reply.channel reply.nick).1 ≡ [])
      × ((j : Text) → inbox joined.0 j ≡ (if text_eq k j then [] else waits m msg j))
unfolding on_join
leave_then_deliver m now later msg reply cmd target word words shown parsed asked room heard hn hc
      ha =
    let k = key msg.network msg.channel target in
    let say : Note → Said = λ n. told reply.nick n.from n.text in
    let notes = waits m msg k ++ note_of now msg (word ∷ words) ∷ [] in
    let rest = (deliver m msg.network msg.channel msg.nick).0 in
    let kept = (handle m now msg).0 in
    let n = reply.network in
    let c = reply.channel in
    let a = reply.nick in
    let fed = (deliver kept n c a).0 in
    let whole = handle_keeps m now msg cmd target word words shown parsed asked room in
    let same : key n c a ≡ k = key_fold n c a msg.network msg.channel target hn hc ha in
    let stored : (j : Text) → inbox kept j ≡ (if text_eq k j then notes else inbox rest j) =
      λ j. ap (λ r. inbox r.0 j) whole ∙ inbox-insert rest k j notes in
    let lines : (deliver kept n c a).1
        ≡ map say (waits m msg k) ++ say (note_of now msg (word ∷ words)) ∷ [] =
      said-deliver kept n c a
      ∙ ap (λ j. map say (inbox kept j)) same
      ∙ ap (map say) (stored k ∙ rw (text_eq_refl k) refl)
      ∙ map-append say (waits m msg k) (note_of now msg (word ∷ words) ∷ []) in
    let after = speaks kept later reply heard in
    (
      ap (λ r. r.1) whole
          ∙ ap (λ ls. ls ++ will_tell msg.nick target ∷ [])
              (said-deliver m msg.network msg.channel msg.nick),
      ap (λ r. r.2) whole,
      lines,
      refl,
      ap (λ r. r.0) after,
      ap (λ r. r.1) after ∙ ap (λ ls. ls ++ (handle fed later reply).1) lines,
      ap (λ r. r.1) (deliver_again kept n c a),
      λ j.
          inbox-deliver kept n c a j
          ∙ ap (λ i. if text_eq i j then [] else inbox kept j) same
          ∙ ap (λ ns. if text_eq k j then [] else ns) (stored j)
          ∙ if_within (text_eq k j) [] notes (inbox rest j)
          ∙ ap (λ ns. if text_eq k j then [] else ns)
              (inbox-deliver m msg.network msg.channel msg.nick j),
    )
