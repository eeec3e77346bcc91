-- ===== src/Admin/Flags.antt =====
-- internal/admin/flags.go: access flags, their order, and where a sender's flags come from; with
-- the sessions and the login throttle of internal/admin/admin.go.
use annoybots.Base.{
  ℕ, zero, suc, ◌+◌, ◌≤◌, Bool, true, false, ◌&&◌, not, [], ◌∷◌, ◌++◌, List, Option, none, some,
  Text, Map, lookup, insert, delete, or_zero, has as is_some, length, keep, ltb, leb, ◌==◌, codes,
  text_eq, to_lower, equal_fold, if◌then◌else◌,
}
use annoybots.Admin.Hostmask.{wildcard_match_fold}
pub mod Order
pub mod Normal
pub mod Sources

-- The owner, master, op, voice and friend flags, and `flagOrder`.
abbrev pub flag_owner : ℕ
flag_owner = b'n'

abbrev pub flag_master : ℕ
flag_master = b'm'

abbrev pub flag_op : ℕ
flag_op = b'o'

abbrev pub flag_voice : ℕ
flag_voice = b'v'

abbrev pub flag_friend : ℕ
flag_friend = b'f'

abbrev pub flag_order : Text
flag_order = codes "nmovf"

-- `strings.IndexByte`, with `none` for -1.
unfoldable pub index_byte : Text → ℕ → Option ℕ
index_byte [] f = none
index_byte (c ∷ s) f = elim (c == f) [
  | true ↦ some 0
  | false ↦ elim (index_byte s f) [ none ↦ none | some r ↦ some (suc r) ]
]

unfoldable pub flag_rank : ℕ → Option ℕ
flag_rank f = index_byte flag_order f

-- `r := flagRank(have[i]); r >= 0 && r <= wr`.
unfoldable pub reaches : ℕ → Option ℕ → Bool
reaches wr none = false
reaches wr (some r) = leb r wr

unfoldable pub holds_rank : Text → ℕ → Bool
holds_rank [] wr = false
holds_rank (c ∷ have) wr = if reaches wr (flag_rank c) then true else holds_rank have wr

unfoldable pub has_flag : Text → ℕ → Bool
has_flag have want = elim (flag_rank want) [ none ↦ false | some wr ↦ holds_rank have wr ]

-- The loop of `normalizeFlags`, with the bytes written so far.
unfoldable pub normalize_loop : Text → Text → Text
normalize_loop [] out = out
normalize_loop (c ∷ f) out =
    normalize_loop f
      (if is_some (flag_rank c) && not (is_some (index_byte out c)) then out ++ c ∷ [] else out)

unfoldable pub normalize_flags : Text → Text → Text
normalize_flags f def = elim (normalize_loop f []) [ [] ↦ def | c ∷ out ↦ c ∷ out ]

-- The fields of engine.Message that the console reads.
pub record Message : Type 0 where
  pub network : Text
  pub nick : Text
  pub account : Text
  pub ident : Text
  pub host : Text

pub record MaskAdmin : Type 0 where
  pub network : Text
  pub mask : Text
  pub flags : Text

pub record Identity : Type 0 where
  pub network : Text
  pub account : Text
  pub flags : Text

-- The console's state, less its quotes, party line and file. Times are nanoseconds.
pub record Console : Type 0 where
  pub password : Text
  pub config_keys : Map Text
  pub config_masks : List MaskAdmin
  pub runtime : List Identity
  pub claim_code : Text
  pub admins : Map Text
  pub mask_admins : List MaskAdmin
  pub sessions : Map ℕ
  pub fails : Map (List ℕ)
  pub ttl : ℕ

unfoldable pub key : Text → Text → Text
key network account = to_lower network ++ (b'|' ∷ to_lower account)

unfoldable pub hostmask : Message → Text
hostmask msg = msg.nick ++ (b'!' ∷ msg.ident ++ (b'@' ∷ msg.host))

unfoldable pub sess_key : Message → Text
sess_key msg = key msg.network msg.nick ++ (b'|' ∷ to_lower (msg.ident ++ (b'@' ∷ msg.host)))

-- The loop over the hostmask admins: the flags of the first entry that fits.
unfoldable pub mask_flags : List MaskAdmin → Text → Text → Option Text
mask_flags [] network hm = none
mask_flags (a ∷ rest) network hm =
    if not (text_eq a.network []) && not (equal_fold a.network network)
    then mask_flags rest network hm
    else if wildcard_match_fold a.mask hm
    then some a.flags
    else mask_flags rest network hm

-- Step 1 of `flagsFor`: the network's entry, then the entry for any network.
unfoldable pub account_flags : Console → Message → Option Text
account_flags m msg =
    if text_eq msg.account [] then none else elim (lookup (key msg.network msg.account) m.admins) [
      | some f ↦ some f
      | none ↦ lookup (key [] msg.account) m.admins
    ]

-- Step 2: a hostmask entry.
unfoldable pub host_flags : Console → Message → Option Text
host_flags m msg =
    if text_eq msg.host [] then none else mask_flags m.mask_admins msg.network (hostmask msg)

-- Step 3: a session that has not run out.
unfoldable pub session_flags : Console → ℕ → Message → Text
session_flags m now msg = elim (lookup (sess_key msg) m.sessions) [
  | some exp ↦ if ltb now exp then flag_master ∷ [] else []
  | none ↦ []
]

unfoldable pub flags_for : Console → ℕ → Message → Text
flags_for m now msg = elim (account_flags m msg) [
  | some f ↦ f
  | none ↦ elim (host_flags m msg) [ some f ↦ f | none ↦ session_flags m now msg ]
]

unfoldable pub has : Console → ℕ → Message → ℕ → Bool
has m now msg flag = has_flag (flags_for m now msg) flag

-- `isAdmin` and `IsAdmin`.
unfoldable pub is_master : Console → ℕ → Message → Bool
is_master m now msg = has m now msg flag_master

unfoldable pub is_op : Console → ℕ → Message → Bool
is_op m now msg = has m now msg flag_op

unfoldable pub grant_session : Console → ℕ → Message → Console
grant_session m now msg = record m { sessions = insert (sess_key msg) (now + m.ttl) m.sessions }

unfoldable pub clear_session : Console → Message → Console
clear_session m msg = record m { sessions = delete (sess_key msg) m.sessions }

abbrev pub max_failed_logins : ℕ
max_failed_logins = 5

abbrev pub fail_window : ℕ
fail_window = 60000000000

-- `t.After(now - window)`, for the failed logins that still count.
unfoldable pub recent : ℕ → List ℕ → List ℕ
recent now = keep (λ t. ltb now (t + fail_window))

unfoldable pub throttled : Console → ℕ → Message → Console × Bool
throttled m now msg =
    let k = key msg.network msg.nick in
    let kept = recent now (or_zero [] (lookup k m.fails)) in
    (record m { fails = insert k kept m.fails }, leb max_failed_logins (length kept))

unfoldable pub record_fail : Console → ℕ → Message → Console
record_fail m now msg =
    let k = key msg.network msg.nick in
    record m { fails = insert k (or_zero [] (lookup k m.fails) ++ now ∷ []) m.fails }
