-- ===== src/Account.antt =====
-- internal/account/account.go: identities linked into accounts, over the store. bcrypt is not code
-- of this repository: `hashed` is what GenerateFromPassword returned for the password, and `check`
-- is CompareHashAndPassword. A reply is a constructor.
use annoybots.Base.{
  ℕ, zero, suc, Bool, true, false, ◌&&◌, ◌||◌, not, [], ◌∷◌, ◌++◌, List, Option, none, some, Text,
  Map, codes, text_eq, to_lower, trim_space, fields, length, ltb, leb, ◌==◌, if◌then◌else◌,
}
use annoybots.Base.Int.{ℤ, pos}
use annoybots.State.{MemStore, get_str, set_str, h_set, h_get_all, del}
pub mod Keys
pub mod Linking
mod Tests

pub record Message : Type 0 where
  pub network : Text
  pub account : Text
  pub nick : Text
  pub text : Text
  pub private : Bool

unfoldable pub identity : Text → Text → Text → Text
identity network account nick =
    to_lower network ++ (b'|' ∷ to_lower (if text_eq account [] then nick else account))

unfoldable pub link_key : Text → Text
link_key id = codes "acct:id:" ++ id

unfoldable pub pw_key : Text → Text
pw_key name = codes "acct:pw:" ++ name

unfoldable pub mem_key : Text → Text
mem_key name = codes "acct:links:" ++ name

abbrev pub id_of : Message → Text
id_of msg = identity msg.network msg.account msg.nick

unfoldable pub resolve : MemStore → Text → Text → Text → Text
resolve m network account nick =
    let id = identity network account nick in
    let acct = get_str m (link_key id) in if text_eq acct [] then id else acct

-- `normName`: lower-case letters, digits, _ and -, at most 32.
unfoldable pub name_byte : ℕ → Bool
name_byte r = (leb b'a' r && leb r b'z') || (leb b'0' r && leb r b'9') || r == b'_' || r == b'-'

unfoldable pub name_bytes : Text → Bool
name_bytes [] = true
name_bytes (r ∷ s) = if name_byte r then name_bytes s else false

unfoldable pub norm_name : Text → Text
norm_name s =
    let t = to_lower (trim_space s) in
    if text_eq t [] || ltb 32 (length t) then [] else if name_bytes t then t else []

pub data Reply : Type 0 where
  usage bad_name name_taken no_hash : Reply
  already_linked registered : Text → Reply
  no_account wrong_password not_linked : Reply
  linked unlinked : Text → Reply
  links : Text → Map ℤ → Reply

-- The writes with which `register` and `link` join an identity to an account.
unfoldable pub join : MemStore → Text → Text → MemStore
join m id name = h_set (set_str m (link_key id) name) (mem_key name) id (pos 1)

unfoldable pub register : MemStore → Message → Text → Text → Option Text → MemStore × Reply
register m msg raw_name password hashed =
    let name = norm_name raw_name in
    let existing = get_str m (link_key (id_of msg)) in
    if text_eq name []
    then (m, bad_name)
    else if not (text_eq (get_str m (pw_key name)) [])
    then (m, name_taken)
    else if not (text_eq existing [])
    then (m, already_linked existing)
    else elim hashed [
      | none ↦ (m, no_hash)
      | some hash ↦ (join (set_str m (pw_key name) hash) (id_of msg) name, registered name)
    ]

unfoldable pub link : (Text → Text → Bool) → MemStore → Message → Text → Text → MemStore × Reply
link check m msg raw_name password =
    let name = norm_name raw_name in
    let hash = get_str m (pw_key name) in
    if text_eq hash []
    then (m, no_account)
    else if not (check hash password)
    then (m, wrong_password)
    else (join m (id_of msg) name, linked name)

-- The entries of `whoami` whose value is 1, with their values.
unfoldable pub live_links : Map ℤ → Map ℤ
live_links [] = []
live_links ((k, pos n) ∷ m) = if n == 1 then (k, pos n) ∷ live_links m else live_links m
live_links ((k, _) ∷ m) = live_links m

unfoldable pub whoami : MemStore → Message → Reply
whoami m msg =
    let name = get_str m (link_key (id_of msg)) in
    if text_eq name [] then not_linked else links name (live_links (h_get_all m (mem_key name)))

unfoldable pub unlink : MemStore → Message → MemStore × Reply
unlink m msg =
    let id = id_of msg in
    let name = get_str m (link_key id) in
    if text_eq name []
    then (m, not_linked)
    else (h_set (del m (link_key id)) (mem_key name) id (pos 0), unlinked name)

-- `fields[1]` and `fields[2]`, where there are three fields or more.
unfoldable pub with_two {ℓ} : {A : Type ℓ} → List Text → (Text → Text → A) → A → A
with_two [] f d = d
with_two (a ∷ []) f d = d
with_two (a ∷ (b ∷ rest)) f d = f a b

abbrev register_with : MemStore → Message → Option Text → Text → Text → MemStore × Reply
register_with m msg hashed a b = register m msg a b hashed

-- `Handle`: the reply where it consumed the message.
unfoldable pub command :
    (Text → Text → Bool) → MemStore → Message → Option Text → List Text → MemStore × Option Reply
command check m msg hashed [] = (m, none)
command check m msg hashed (w ∷ args) =
    let cmd = to_lower w in
    let (registered_m, registered_reply) = with_two args (register_with m msg hashed) (m, usage) in
    let (linked_m, linked_reply) = with_two args (link check m msg) (m, usage) in
    let (unlinked_m, unlinked_reply) = unlink m msg in
    if text_eq cmd (codes "!register")
    then (registered_m, some registered_reply)
    else if text_eq cmd (codes "!link")
    then (linked_m, some linked_reply)
    else if text_eq cmd (codes "!whoami")
    then (m, some (whoami m msg))
    else if text_eq cmd (codes "!unlink")
    then (unlinked_m, some unlinked_reply)
    else (m, none)

unfoldable pub handle :
    (Text → Text → Bool) → MemStore → Message → Option Text → MemStore × Option Reply
handle check m msg hashed =
    if not msg.private then (m, none) else command check m msg hashed (fields msg.text)
