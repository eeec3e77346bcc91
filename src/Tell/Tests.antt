-- ===== src/Tell/Tests.antt =====
-- Runs of the notes, and their theorems at concrete inputs.
use annoybots.Base.{
  ℕ, zero, suc, ◌≤◌, Bool, true, false, ◌≡◌, refl, [], ◌∷◌, ◌++◌, List, Text, arith, map, codes,
  text_eq, to_lower, fields, take, join_space, ◌<◌, if◌then◌else◌, length, or_zero, lookup,
}
use annoybots.Tell.{
  Note, Message, Pending, Said, told, will_tell, key, inbox, deliver, leave, handle, on_join,
  note_text, max_text_len,
}
use annoybots.Tell.Inbox.{waits}
use annoybots.Tell.Notes.{IsBounded, handle-IsBounded, leave_then_deliver}

abbrev from_ann : Message
from_ann = record {
  network = codes "libera";
  channel = codes "#bots";
  nick = codes "ann";
  text = codes "!message Bob the build is green";
  private = false;
}

abbrev words : List Text
words = codes "build" ∷ (codes "is" ∷ (codes "green" ∷ []))

-- The target speaks, with another letter case, and leaves a note itself.
abbrev from_bob : Message
from_bob = record {
  network = codes "Libera";
  channel = codes "#BOTS";
  nick = codes "BOB";
  text = codes "!message ann thanks";
  private = false;
}

abbrev waiting : Pending
waiting =
    (codes "libera|#bots|bob", record { from = codes "zed"; text = codes "hi"; at = 3 } ∷ []) ∷ []

handled : (handle waiting 7 from_ann).1 ≡ will_tell (codes "ann") (codes "Bob") ∷ []
unfolding annoybots.Base.delete annoybots.Base.fields annoybots.Base.is_space
    annoybots.Base.lower_byte annoybots.Tell.command deliver handle inbox key leave lookup text_eq
    to_lower
handled = refl

parsed : fields from_ann.text ≡ codes "!message" ∷ (codes "Bob" ∷ (codes "the" ∷ words))
unfolding annoybots.Base.is_space fields
parsed = refl

asked : text_eq (to_lower (codes "!message")) (codes "!message") ≡ true
unfolding annoybots.Base.lower_byte text_eq to_lower
asked = refl

room : length (waits waiting from_ann (key (codes "libera") (codes "#bots") (codes "Bob"))) < 10
unfolding annoybots.Base.lower_byte inbox key lookup text_eq to_lower
room = omega arith

same_network : to_lower from_bob.network ≡ to_lower from_ann.network
unfolding annoybots.Base.lower_byte to_lower
same_network = refl

same_channel : to_lower from_bob.channel ≡ to_lower from_ann.channel
unfolding annoybots.Base.lower_byte to_lower
same_channel = refl

same_nick : to_lower from_bob.nick ≡ to_lower (codes "Bob")
unfolding annoybots.Base.lower_byte to_lower
same_nick = refl

bounded : IsBounded waiting
unfolding inbox lookup text_eq
bounded k = ground arith

handle-IsBounded_example :
    IsBounded (handle waiting 7 from_ann).0
    × IsBounded (on_join waiting true (codes "libera") (codes "#bots") (codes "bob")).0
handle-IsBounded_example =
    handle-IsBounded waiting 7 from_ann true (codes "libera") (codes "#bots") (codes "bob") bounded

leave_then_deliver_example :
    let k = key (codes "libera") (codes "#bots") (codes "Bob") in
    let kept = (handle waiting 7 from_ann).0 in
    let lines =
      map (λ (n : Note). told (codes "BOB") n.from n.text) (waits waiting from_ann k)
      ++ told (codes "BOB") (codes "ann") (take 300 (join_space (codes "the" ∷ words))) ∷ [] in
    let joined = on_join kept true (codes "Libera") (codes "#BOTS") (codes "BOB") in
    let spoken = handle kept 9 from_bob in
    ((handle waiting 7 from_ann).1
      ≡ map
          (λ (n : Note). told (codes "ann") n.from n.text)
          (inbox waiting (key (codes "libera") (codes "#bots") (codes "ann")))
        ++ will_tell (codes "ann") (codes "Bob") ∷ [])
    × ((handle waiting 7 from_ann).2 ≡ true)
    × (joined.1 ≡ lines)
    × (on_join kept false (codes "Libera") (codes "#BOTS") (codes "BOB") ≡ (kept, []))
    × (spoken.0 ≡ (handle joined.0 9 from_bob).0)
    × (spoken.1 ≡ lines ++ (handle joined.0 9 from_bob).1)
    × ((on_join joined.0 true (codes "Libera") (codes "#BOTS") (codes "BOB")).1 ≡ [])
    × ((j : Text) → inbox joined.0 j ≡ (if text_eq k j then [] else waits waiting from_ann j))
leave_then_deliver_example =
    leave_then_deliver waiting 7 9 from_ann from_bob (codes "!message") (codes "Bob") (codes "the")
      words refl parsed asked room refl same_network same_channel same_nick
