-- ===== src/Tell/Inbox.antt =====
-- Single inboxes under the operations of internal/tell/tell.go.
use annoybots.Base.{
  ℕ, zero, suc, ◌≤◌, ◌<◌, Bool, true, false, codes, Bool-cases, inl, inr, sym, subst, ◌≡◌, refl, ap,
  ◌∙◌, [], ◌∷◌, ◌++◌, List, Text, arith, map, insert, delete, lookup-insert, lookup-delete, text_eq,
  text_eq_refl, to_lower, fields, join_space, length, take, ltb, if◌then◌else◌,
}
use annoybots.Tell.{
  max_text_len, Note, Message, Pending, Said, note_text, told, will_tell, key, inbox, deliver,
  leave, command, handle,
}

pub inbox-deliver :
    (m : Pending) (network channel nick k : Text)
    → inbox (deliver m network channel nick).0 k
      ≡ (if text_eq (key network channel nick) k then [] else inbox m k)
unfolding inbox deliver
inbox-deliver m network channel nick k =
    ground (arith, lookup-delete (key network channel nick) k m)

pub inbox-insert :
    (m : Pending) (k j : Text) (notes : List Note)
    → inbox (insert k notes m) j ≡ (if text_eq k j then notes else inbox m j)
unfolding inbox
inbox-insert m k j notes = ground (arith, lookup-insert k j notes m)

pub map-append {ℓ κ} :
    {A : Type ℓ} {B : Type κ} (f : A → B) (xs ys : List A) → map f (xs ++ ys) ≡ map f xs ++ map f ys
map-append f [] ys = refl
map-append f (x ∷ xs) ys = rw (map-append f xs ys)

pub said-deliver :
    (m : Pending) (network channel nick : Text)
    → (deliver m network channel nick).1
      ≡ map (λ (n : Note). told nick n.from n.text) (inbox m (key network channel nick))
unfolding deliver
said-deliver m network channel nick = refl

take_all {ℓ} : {A : Type ℓ} (n : ℕ) (xs : List A) → length xs ≤ n → take n xs ≡ xs
take_all zero [] h = refl
take_all zero (x ∷ xs) h = elim h [ ]
take_all (suc n) [] h = refl
take_all (suc n) (x ∷ xs) h = rw (take_all n xs (omega arith)) refl

note_text-cut : (words : List Text) → note_text words ≡ take 300 (join_space words)
unfolding note_text
note_text-cut words = elim (Bool-cases (ltb max_text_len (length (join_space words)))) [
  | inl long ↦ rw long refl
  | inr short ↦ rw short (sym (take_all 300 (join_space words) (ground (arith, short))))
]

-- The notes under a key once the speaker of a message has been told its own.
abbrev pub waits : Pending → Message → Text → List Note
waits m msg k = if text_eq (key msg.network msg.channel msg.nick) k then [] else inbox m k

-- The note that the words of a message are kept as.
abbrev pub note_of : ℕ → Message → List Text → Note
note_of now msg words = record { from = msg.nick; text = take 300 (join_space words); at = now }

leave_room :
    (m : Pending) (now : ℕ) (msg : Message) (target : Text) (words : List Text)
    → length (inbox m (key msg.network msg.channel target)) < 10
    → let k = key msg.network msg.channel target in
      leave m now msg target words
      ≡ (insert k (inbox m k ++ note_of now msg words ∷ []) m, will_tell msg.nick target)
unfolding leave
leave_room m now msg target words h = rw (note_text-cut words) (ground (arith, h))

handle_shown :
    (m : Pending) (now : ℕ) (msg : Message)
    → msg.private ≡ false
    → let (rest, heard) = deliver m msg.network msg.channel msg.nick in
      let (after, said, used) = command rest now msg (fields msg.text) in
      handle m now msg ≡ (after, heard ++ said, used)
unfolding handle
handle_shown m now msg shown = ground (arith, shown)

command_leaves :
    (m : Pending) (now : ℕ) (msg : Message) (cmd target word : Text) (words : List Text)
    → text_eq (to_lower cmd) (codes "!message") ≡ true
    → let (left, said) = leave m now msg target (word ∷ words) in
      command m now msg (cmd ∷ (target ∷ (word ∷ words))) ≡ (left, said ∷ [], true)
unfolding command
command_leaves m now msg cmd target word words asked = ground (arith, asked)

-- A message that leaves a note: what is kept and what is said.
pub handle_keeps :
    (m : Pending) (now : ℕ) (msg : Message) (cmd target word : Text) (words : List Text)
    → msg.private ≡ false
    → fields msg.text ≡ cmd ∷ (target ∷ (word ∷ words))
    → text_eq (to_lower cmd) (codes "!message") ≡ true
    → length (waits m msg (key msg.network msg.channel target)) < 10
    → let k = key msg.network msg.channel target in
      let (rest, heard) = deliver m msg.network msg.channel msg.nick in
      handle m now msg ≡ (
        insert k (waits m msg k ++ note_of now msg (word ∷ words) ∷ []) rest,
        heard ++ will_tell msg.nick target ∷ [],
        true,
      )
handle_keeps m now msg cmd target word words shown parsed asked room =
    let k = key msg.network msg.channel target in
    let rest = (deliver m msg.network msg.channel msg.nick).0 in
    let heard = (deliver m msg.network msg.channel msg.nick).1 in
    let waiting : inbox rest k ≡ waits m msg k =
      inbox-deliver m msg.network msg.channel msg.nick k in
    let left =
      leave_room rest now msg target (word ∷ words)
        (subst (λ ns. length ns < 10) (sym waiting) room) in
    let answer : Pending × List Said × Bool → Pending × List Said × Bool =
      λ r. (r.0, heard ++ r.1, r.2) in
    let spoken : Pending × Said → Pending × List Said × Bool =
      λ r. (r.0, heard ++ r.1 ∷ [], true) in
    handle_shown m now msg shown
    ∙ ap (λ ws. answer (command rest now msg ws)) parsed
    ∙ ap answer (command_leaves rest now msg cmd target word words asked)
    ∙ ap spoken left
    ∙ ap
        (λ ns. (
          insert k (ns ++ note_of now msg (word ∷ words) ∷ []) rest,
          heard ++ will_tell msg.nick target ∷ [],
          true,
        ))
        waiting

delete-delete : (k : Text) (m : Pending) → delete k (delete k m) ≡ delete k m
unfolding delete
delete-delete k [] = refl
delete-delete k ((j, ns) ∷ m) = ground (arith, delete-delete k m)

pub deliver_again :
    (m : Pending) (network channel nick : Text)
    → deliver (deliver m network channel nick).0 network channel nick
      ≡ ((deliver m network channel nick).0, [])
unfolding deliver
deliver_again m network channel nick =
    let k = key network channel nick in
    let say : Note → Said = λ n. told nick n.from n.text in
    let empty : inbox (delete k m) k ≡ [] =
      inbox-deliver m network channel nick k ∙ rw (text_eq_refl k) refl in
    ap (λ ns. (delete k (delete k m), map say ns)) empty ∙ ap (λ d. (d, [])) (delete-delete k m)

pub if_within {ℓ} :
    {A : Type ℓ} (b : Bool) (x y z : A)
    → (if b then x else if b then y else z) ≡ (if b then x else z)
if_within true x y z = refl
if_within false x y z = refl

-- Speaking is being told what waits and then speaking with nothing waiting.
pub speaks :
    (m : Pending) (now : ℕ) (msg : Message)
    → msg.private ≡ false
    → let (rest, heard) = deliver m msg.network msg.channel msg.nick in
      let (after, said, used) = handle rest now msg in
      handle m now msg ≡ (after, heard ++ said, used)
speaks m now msg shown =
    let (rest, heard) = deliver m msg.network msg.channel msg.nick in
    let words = fields msg.text in
    let words_of : Pending × List Said → Pending × List Said × Bool =
      λ d. let r = command d.0 now msg words in (r.0, d.1 ++ r.1, r.2) in
    let alone : handle rest now msg ≡ command rest now msg words =
      handle_shown rest now msg shown
      ∙ ap words_of (deliver_again m msg.network msg.channel msg.nick) in
    handle_shown m now msg shown
    ∙ ap (λ (r : Pending × List Said × Bool). (r.0, heard ++ r.1, r.2)) (sym alone)

-- The name under which a message's inbox is kept does not depend on letter case.
pub key_fold :
    (n c a n' c' a' : Text)
    → to_lower n ≡ to_lower n'
    → to_lower c ≡ to_lower c'
    → to_lower a ≡ to_lower a'
    → key n c a ≡ key n' c' a'
unfolding key
key_fold n c a n' c' a' hn hc ha = cc
