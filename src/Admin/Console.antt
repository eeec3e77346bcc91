-- ===== src/Admin/Console.antt =====
-- internal/admin/admin.go and commands.go: the admin list, logins, the bootstrap claim, and the
-- gate of `Handle`. Bus messages and the state file are left out; a reply is a constructor.
use annoybots.Base.{
  ℕ, zero, suc, Bool, true, false, ◌&&◌, ◌||◌, not, [], ◌∷◌, ◌++◌, List, Option, none, some, Text,
  Map, lookup, insert, has as is_some, ◌==◌, codes, text_eq, to_lower, trim_space, fields,
  if◌then◌else◌,
}
use annoybots.Admin.Flags.{
  flag_owner, flag_master, flag_op, flag_friend, Message, MaskAdmin, Identity, Console, key,
  normalize_flags, has, grant_session, clear_session, throttled, record_fail,
}
pub mod Registry
pub mod Login

-- `rebuild`: the config's keys, then the runtime admins over them.
unfoldable pub add_runtime : List Identity → Map Text → Map Text
add_runtime [] m = m
add_runtime (a ∷ rest) m =
    add_runtime rest (insert (key a.network a.account) (normalize_flags a.flags (flag_op ∷ [])) m)

unfoldable pub rebuild : Console → Console
rebuild m = record m { admins = add_runtime m.runtime m.config_keys; mask_admins = m.config_masks }

unfoldable pub apply_admin_add : Console → Identity → Console × Bool
apply_admin_add m id =
    if text_eq id.account []
    then (m, false)
    else if is_some (lookup (key id.network id.account) m.admins)
    then (m, false)
    else (rebuild (record m { runtime = m.runtime ++ id ∷ []; claim_code = [] }), true)

-- The loop of `applyAdminDel`: what stays, and whether something went.
unfoldable pub without : Text → List Identity → List Identity × Bool
without k [] = ([], false)
without k (a ∷ rest) =
    let (out, removed) = without k rest in
    if text_eq (key a.network a.account) k then (out, true) else (a ∷ out, removed)

unfoldable pub apply_admin_del : Console → Identity → Console × Bool
apply_admin_del m id =
    let k = key id.network id.account in
    let (out, removed) = without k m.runtime in
    let m' = record m { runtime = out } in
    if is_some (lookup k m.config_keys)
    then (m, false)
    else (if removed then rebuild m' else m', removed)

-- `tailAfter(text, 1)`: what follows the first word, with the blanks before it cut.
unfoldable pub is_blank : ℕ → Bool
is_blank c = c == b' ' || c == 9

unfoldable pub from_blank : Text → Text
from_blank [] = []
from_blank (c ∷ s) = if is_blank c then c ∷ s else from_blank s

unfoldable pub trim_blanks : Text → Text
trim_blanks [] = []
trim_blanks (c ∷ s) = if is_blank c then trim_blanks s else c ∷ s

unfoldable pub tail_after_one : Text → Text
tail_after_one text = trim_blanks (from_blank (trim_space text))

pub data Reply : Type 0 where
  login_disabled too_many_attempts authenticated nope : Reply
  claim_unavailable cannot_verify claimed : Reply
  logged_out refused : Reply

unfoldable pub handle_login : Console → ℕ → Message → Text → Console × Reply
handle_login m now msg text =
    let (m', limited) = throttled m now msg in
    let pass = tail_after_one text in
    if text_eq m.password []
    then (m, login_disabled)
    else if limited
    then (m', too_many_attempts)
    else if not (text_eq pass []) && text_eq pass m.password
    then (grant_session m' now msg, authenticated)
    else (record_fail m' now msg, nope)

unfoldable pub handle_claim : Console → ℕ → Message → Text → Console × Reply
handle_claim m now msg text =
    let (m', limited) = throttled m now msg in
    let got = tail_after_one text in
    let id : Identity = record {
      network = msg.network;
      account = msg.account;
      flags = flag_owner ∷ [];
    } in
    if text_eq m.claim_code []
    then (m, claim_unavailable)
    else if limited
    then (m', too_many_attempts)
    else if text_eq got [] || not (text_eq got m.claim_code)
    then (record_fail m' now msg, nope)
    else if text_eq msg.account []
    then (m', cannot_verify)
    else ((apply_admin_add m' id).0, claimed)

-- `cmdFlags` and `requiredFlag`.
unfoldable pub one_of : List Text → Text → Bool
one_of [] w = false
one_of (v ∷ vs) w = text_eq v w || one_of vs w

abbrev pub friend_commands : List Text
friend_commands =
    codes "!help" ∷ codes "!admin" ∷ codes "!party" ∷ codes "!unparty" ∷ codes "!networks" ∷ []

abbrev pub op_commands : List Text
op_commands = codes "!say" ∷ codes "!act" ∷ codes "!addquote" ∷ codes "!delquote" ∷ []

abbrev pub master_commands : List Text
master_commands =
    codes "!join"
    ∷ codes "!part"
    ∷ codes "!invite"
    ∷ codes "!joinall"
    ∷ codes "!partall"
    ∷ codes "!identify"
    ∷ codes "!bridge"
    ∷ codes "!unbridge"
    ∷ codes "!admins"
    ∷ codes "!reload"
    ∷ []

abbrev pub owner_commands : List Text
owner_commands = codes "!addadmin" ∷ codes "!deladmin" ∷ []

unfoldable pub required_flag : Text → ℕ
required_flag cmd =
    if one_of friend_commands cmd
    then flag_friend
    else if one_of op_commands cmd
    then flag_op
    else if one_of owner_commands cmd
    then flag_owner
    else flag_master

-- `adminCommands`.
unfoldable pub is_command : Text → Bool
is_command cmd =
    one_of friend_commands cmd
    || one_of op_commands cmd
    || one_of master_commands cmd
    || one_of owner_commands cmd
    || one_of (codes "!login" ∷ codes "!logout" ∷ codes "!claim" ∷ []) cmd

-- What `Handle` does with a message: not its business, a line for the party line, an answer, or a
-- command that it runs.
pub data Outcome : Type 0 where
  passed relayed : Outcome
  answered : Reply → Outcome
  runs : Text → Outcome

-- `Handle` on a direct message with a first word.
unfoldable pub dispatch : Console → ℕ → Message → Text → Text → Console × Outcome
dispatch m now msg cmd text =
    let (after_login, login_reply) = handle_login m now msg text in
    let (after_claim, claim_reply) = handle_claim m now msg text in
    if text_eq cmd (codes "!login")
    then (after_login, answered login_reply)
    else if text_eq cmd (codes "!logout")
    then (clear_session m msg, answered logged_out)
    else if text_eq cmd (codes "!claim")
    then (after_claim, answered claim_reply)
    else if not (has m now msg (required_flag cmd))
    then (m, answered refused)
    else (m, runs cmd)

-- `Handle`; `member` is `isPartyMember(msg)`.
unfoldable pub handle : Console → ℕ → Message → Bool → Bool → Text → Console × Outcome
handle m now msg private member text =
    if not private then (m, passed) else elim (fields (trim_space text)) [
      | [] ↦ (m, passed)
      | w ∷ ws ↦
          if is_command (to_lower w)
          then dispatch m now msg (to_lower w) (trim_space text)
          else if member
          then (m, relayed)
          else (m, passed)
    ]

-- `normNet`.
unfoldable pub norm_net : Text → Text
norm_net s = if text_eq s (codes "*") || text_eq (to_lower s) (codes "any") then [] else s
