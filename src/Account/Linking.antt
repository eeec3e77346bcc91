-- ===== src/Account/Linking.antt =====
-- Register, link and unlink of internal/account/account.go: who resolves to which account, and the
-- membership records behind it.
use annoybots.Base.{
  Bool, true, false, ◌&&◌, ◌||◌, ◌≡◌, refl, sym, ◌∙◌, ◌≢◌, [], Option, none, some, Text, arith,
  text_eq, text_eq_iff, text_eq_refl, if◌then◌else◌, Bool-cases, inl, inr,
}
use annoybots.Base.Int.{pos}
use annoybots.State.{MemStore, get_str, set_str, del}
use annoybots.State.Fields.{
  field, field-h_set, field-set_str, field-del, get_str-set_str, get_str-del, get_str-h_set,
}
use annoybots.Account.{
  Message, Reply, no_hash, registered, linked, identity, id_of, link_key, pw_key, mem_key, resolve,
  norm_name, join, register, link, unlink,
}
use annoybots.Account.Keys.{link_key_inj, mem_key_inj, pw-ne-link, link-ne-pw, link-ne-mem}

-- The account of an identity, empty where it has none, and the key that it plays under.
abbrev pub account_of : MemStore → Text → Text
account_of m id = get_str m (link_key id)

abbrev pub plays_as : MemStore → Text → Text
plays_as m id = if text_eq (account_of m id) [] then id else account_of m id

resolve-plays_as :
    (m : MemStore) (network account nick : Text)
    → resolve m network account nick ≡ plays_as m (identity network account nick)
unfolding resolve
resolve-plays_as m network account nick = refl

account_of-join :
    (m : MemStore) (id j name : Text)
    → account_of (join m id name) j ≡ (if text_eq id j then name else account_of m j)
unfolding join
account_of-join m id j name = ground (
  arith,
  get_str-h_set (set_str m (link_key id) name) (mem_key name) (link_key j) id (pos 1),
  get_str-set_str m (link_key id) (link_key j) name,
  link_key_inj id j,
)

account_of-pw :
    (m : MemStore) (name hash j : Text)
    → account_of (set_str m (pw_key name) hash) j ≡ account_of m j
account_of-pw m name hash j =
    ground (arith, get_str-set_str m (pw_key name) (link_key j) hash, pw-ne-link name j)

hash-join :
    (m : MemStore) (id name k : Text) → get_str (join m id name) (pw_key k) ≡ get_str m (pw_key k)
unfolding join
hash-join m id name k = ground (
  arith,
  get_str-h_set (set_str m (link_key id) name) (mem_key name) (pw_key k) id (pos 1),
  get_str-set_str m (link_key id) (pw_key k) name,
  link-ne-pw id k,
)

account_of-unlink :
    (m : MemStore) (msg : Message) (j : Text)
    → account_of (unlink m msg).0 j ≡ (if text_eq (id_of msg) j then [] else account_of m j)
unfolding unlink
account_of-unlink m msg j = ground (
  arith,
  text_eq_iff (account_of m (id_of msg)) [],
  text_eq_iff (id_of msg) j,
  get_str-h_set (del m (link_key (id_of msg))) (mem_key (account_of m (id_of msg))) (link_key j)
      (id_of msg) (pos 0),
  get_str-del m (link_key (id_of msg)) (link_key j),
  link_key_inj (id_of msg) j,
)

registered_inv :
    (m : MemStore) (msg : Message) (raw password hash name : Text)
    → (register m msg raw password (some hash)).1 ≡ registered name
    → (norm_name raw ≢ [])
      × ((register m msg raw password (some hash)).0
          ≡ join (set_str m (pw_key (norm_name raw)) hash) (id_of msg) (norm_name raw))
unfolding register
registered_inv m msg raw password hash name h =
    (ground (arith, text_eq_iff (norm_name raw) []), ground arith)

link_opens :
    (check : Text → Text → Bool) (m : MemStore) (msg : Message) (raw password : Text)
    → get_str m (pw_key (norm_name raw)) ≢ []
    → check (get_str m (pw_key (norm_name raw))) password ≡ true
    → (link check m msg raw password).0 ≡ join m (id_of msg) (norm_name raw)
unfolding link
link_opens check m msg raw password n h =
    ground (arith, text_eq_iff (get_str m (pw_key (norm_name raw))) [])

-- One sender registers an account, with a hash that is not empty, and another links to it with a
-- password that the check accepts for the hash: both then resolve to the account, and every other
-- identity resolves as before.
pub register_then_link :
    (check : Text → Text → Bool) (m : MemStore) (msg other : Message)
    (raw password hash name j : Text)
    → (register m msg raw password (some hash)).1 ≡ registered name
    → hash ≢ []
    → check hash password ≡ true
    → plays_as (link check (register m msg raw password (some hash)).0 other raw password).0 j
      ≡ (if text_eq (id_of other) j || text_eq (id_of msg) j then norm_name raw else plays_as m j)
register_then_link check m msg other raw password hash name j done full good = ground (
  arith,
  inv.0,
  inv.1,
  text_eq_iff (norm_name raw) [],
  link_opens check m1 other raw password (λ e. full (sym stored ∙ e)) (rw stored good),
  account_of-join m1 (id_of other) j (norm_name raw),
  account_of-join (set_str m (pw_key (norm_name raw)) hash) (id_of msg) j (norm_name raw),
  account_of-pw m (norm_name raw) hash j,
)
  where
    m1 : MemStore
    m1 = (register m msg raw password (some hash)).0

    inv :
        (norm_name raw ≢ [])
        × ((register m msg raw password (some hash)).0
            ≡ join (set_str m (pw_key (norm_name raw)) hash) (id_of msg) (norm_name raw))
    inv = registered_inv m msg raw password hash name done

    stored : get_str m1 (pw_key (norm_name raw)) ≡ hash
    stored = ground (
      arith,
      inv.1,
      hash-join (set_str m (pw_key (norm_name raw)) hash) (id_of msg) (norm_name raw)
          (norm_name raw),
      get_str-set_str m (pw_key (norm_name raw)) (pw_key (norm_name raw)) hash,
      text_eq_refl (pw_key (norm_name raw)),
    )

-- After `!unlink` the identity plays as itself, and every other identity resolves as before.
pub plays_as-unlink :
    (m : MemStore) (msg : Message) (j : Text)
    → plays_as (unlink m msg).0 j ≡ (if text_eq (id_of msg) j then j else plays_as m j)
plays_as-unlink m msg j =
    ground (arith, account_of-unlink m msg j, text_eq_iff (account_of (unlink m msg).0 j) [])

-- An identity that has an account is on that account's list.
abbrev pub IsListed : MemStore → Type 0
IsListed m = (j : Text) → account_of m j ≢ [] → field m (mem_key (account_of m j)) j ≡ pos 1

field-join :
    (m : MemStore) (id name j k : Text)
    → field (join m id name) (mem_key k) j
      ≡ (if text_eq name k && text_eq id j then pos 1 else field m (mem_key k) j)
unfolding join
field-join m id name j k = ground (
  arith,
  field-h_set (set_str m (link_key id) name) (mem_key name) (mem_key k) id j (pos 1),
  field-set_str m (link_key id) (mem_key k) name j,
  mem_key_inj name k,
)

pub join-IsListed : (m : MemStore) (id name : Text) → IsListed m → IsListed (join m id name)
join-IsListed m id name v j n = ground (
  arith,
  v j,
  account_of-join m id j name,
  field-join m id name j (account_of (join m id name) j),
  text_eq_refl name,
)

field-unlink :
    (m : MemStore) (msg : Message) (j k : Text)
    → text_eq (id_of msg) j ≡ false
    → field (unlink m msg).0 (mem_key k) j ≡ field m (mem_key k) j
unfolding unlink
field-unlink m msg j k n = ground (
  arith,
  field-h_set (del m (link_key (id_of msg))) (mem_key (account_of m (id_of msg))) (mem_key k)
      (id_of msg) j (pos 0),
  field-del m (link_key (id_of msg)) (mem_key k) j,
  link-ne-mem (id_of msg) k,
)

pub pw-IsListed :
    (m : MemStore) (name hash : Text) → IsListed m → IsListed (set_str m (pw_key name) hash)
pw-IsListed m name hash v j n = ground (
  arith,
  v j,
  account_of-pw m name hash j,
  field-set_str m (pw_key name) (mem_key (account_of (set_str m (pw_key name) hash) j)) hash j,
)

-- `register` and `link` leave the store alone or join the identity to the account.
register_cases {ℓ} :
    (P : MemStore → Type ℓ) (m : MemStore) (msg : Message) (raw password : Text)
    (hashed : Option Text)
    → P m
    → ((hash : Text)
        → P (join (set_str m (pw_key (norm_name raw)) hash) (id_of msg) (norm_name raw)))
    → P (register m msg raw password hashed).0
unfolding register
register_cases P m msg raw password hashed keeps joins =
    elim (Bool-cases (text_eq (norm_name raw) [])) [
      | inl a ↦ rw (a, register) keeps
      | inr a ↦ elim (Bool-cases (text_eq (get_str m (pw_key (norm_name raw))) [])) [
        | inr b ↦ rw (a, b, register) keeps
        | inl b ↦ elim (Bool-cases (text_eq (account_of m (id_of msg)) [])) [
          | inr c ↦ rw (a, b, c, register) keeps
          | inl c ↦ rw (a, b, c, register) (hashes hashed)
        ]
      ]
    ]
  where
    hashes :
        (o : Option Text)
        → P
            (elim o as (λ _. MemStore × Reply) [
              | none ↦ (m, no_hash)
              | some hash ↦ (
                join (set_str m (pw_key (norm_name raw)) hash) (id_of msg) (norm_name raw),
                registered (norm_name raw),
              )
            ]).0
    hashes none = keeps
    hashes (some hash) = joins hash

link_cases {ℓ} :
    (P : MemStore → Type ℓ) (check : Text → Text → Bool) (m : MemStore) (msg : Message)
    (raw password : Text)
    → P m
    → P (join m (id_of msg) (norm_name raw))
    → P (link check m msg raw password).0
unfolding link
link_cases P check m msg raw password keeps joins =
    elim (Bool-cases (text_eq (get_str m (pw_key (norm_name raw))) [])) [
      | inl a ↦ rw (a, link) keeps
      | inr a ↦ elim (Bool-cases (check (get_str m (pw_key (norm_name raw))) password)) [
        | inl b ↦ rw (a, b, link) joins
        | inr b ↦ rw (a, b, link) keeps
      ]
    ]

-- `!register`, `!link` and `!unlink` keep every linked identity on its account's list, if they all
-- were before.
pub commands-IsListed :
    (check : Text → Text → Bool) (m : MemStore) (msg : Message) (raw password : Text)
    (hashed : Option Text)
    → IsListed m
    → IsListed (register m msg raw password hashed).0
      × IsListed (link check m msg raw password).0
      × IsListed (unlink m msg).0
commands-IsListed check m msg raw password hashed v = (by_register, by_link, by_unlink)
  where
    by_register : IsListed (register m msg raw password hashed).0
    by_register =
        register_cases IsListed m msg raw password hashed v
          (λ hash. join-IsListed _ _ _ (pw-IsListed m (norm_name raw) hash v))

    by_link : IsListed (link check m msg raw password).0
    by_link =
        link_cases IsListed check m msg raw password v
          (join-IsListed m (id_of msg) (norm_name raw) v)

    by_unlink : IsListed (unlink m msg).0
    by_unlink j n =
        ground (arith, v j, account_of-unlink m msg j, field-unlink m msg j (account_of m j))

-- `!link` of an identity that is linked and listed to another account does not leave the account
-- that the identity had: it stays on the old account's list.
pub link_keeps_old :
    (check : Text → Text → Bool) (m : MemStore) (msg : Message) (raw password name old : Text)
    → IsListed m
    → account_of m (id_of msg) ≡ old
    → old ≢ []
    → old ≢ norm_name raw
    → (link check m msg raw password).1 ≡ linked name
    → (account_of (link check m msg raw password).0 (id_of msg) ≡ norm_name raw)
      × (field (link check m msg raw password).0 (mem_key old) (id_of msg) ≡ pos 1)
unfolding link
link_keeps_old check m msg raw password name old v e n o h = (
  ground
      (arith, account_of-join m (id_of msg) (id_of msg) (norm_name raw), text_eq_refl (id_of msg)),
  ground (
    arith,
    v (id_of msg),
    field-join m (id_of msg) (norm_name raw) (id_of msg) old,
    text_eq_iff (norm_name raw) old,
  ),
)
