-- ===== src/Admin/Console/Login.antt =====
-- The login throttle and the bootstrap claim of internal/admin (handleLogin, handleClaim).
use annoybots.Base.{
  ℕ, ◌+◌, ◌≤◌, false, ◌≡◌, refl, ◌∙◌, ap, ◌≢◌, [], ◌∷◌, ◌++◌, List, none, some, Text, arith, lookup,
  lookup-insert, text_eq, text_eq_iff, if◌then◌else◌, or_zero, length, length-append,
  length-keep-le, text_eq_refl, leb,
}
use annoybots.Admin.Flags.{
  flag_owner, flag_op, Message, Identity, Console, key, normalize_flags, normalize_loop, flag_rank,
  index_byte, recent, throttled, record_fail, grant_session, max_failed_logins,
}
use annoybots.Admin.Console.{
  add_runtime, too_many_attempts, claim_unavailable, claimed, apply_admin_add, rebuild,
  handle_login, handle_claim,
}
use annoybots.Admin.Console.Registry.{IsSynced, lookup-apply_admin_add}

-- The failed attempts on record for a key.
abbrev pub failures : Console → Text → ℕ
failures m k = length (or_zero [] (lookup k m.fails))

abbrev pub FailsBounded : Console → Type 0
FailsBounded m = (k : Text) → failures m k ≤ max_failed_logins

abbrev sender : Message → Text
sender msg = key msg.network msg.nick

failures-record_fail :
    (m : Console) (now : ℕ) (msg : Message) (k : Text)
    → failures (record_fail m now msg) k
      ≡ (if text_eq (sender msg) k then failures m (sender msg) + 1 else failures m k)
unfolding record_fail
failures-record_fail m now msg k = ground (
  arith,
  lookup-insert (sender msg) k (or_zero [] (lookup (sender msg) m.fails) ++ now ∷ []) m.fails,
  length-append (or_zero [] (lookup (sender msg) m.fails)) (now ∷ []),
)

-- The throttle drops what is too old and lets a sender with fewer than five failures pass.
throttled-failures :
    (m : Console) (now : ℕ) (msg : Message) (k : Text)
    → (failures (throttled m now msg).0 k ≡ (
        if text_eq (sender msg) k
        then length (recent now (or_zero [] (lookup (sender msg) m.fails)))
        else failures m k))
      × ((throttled m now msg).1
          ≡ leb max_failed_logins (length (recent now (or_zero [] (lookup (sender msg) m.fails)))))
unfolding throttled
throttled-failures m now msg k = (
  ground (
    arith,
    lookup-insert (sender msg) k (recent now (or_zero [] (lookup (sender msg) m.fails))) m.fails,
  ),
  refl,
)

recent-le : (now : ℕ) (ts : List ℕ) → length (recent now ts) ≤ length ts
unfolding recent
recent-le now ts = length-keep-le _ ts

throttled-FailsBounded :
    (m : Console) (now : ℕ) (msg : Message) → FailsBounded m → FailsBounded (throttled m now msg).0
throttled-FailsBounded m now msg v k = ground (
  arith,
  throttled-failures m now msg k,
  v k,
  v (sender msg),
  recent-le now (or_zero [] (lookup (sender msg) m.fails)),
)

record_fail-FailsBounded :
    (m : Console) (now : ℕ) (msg : Message)
    → FailsBounded m
    → (throttled m now msg).1 ≡ false
    → FailsBounded (record_fail (throttled m now msg).0 now msg)
record_fail-FailsBounded m now msg v free k = ground (
  arith,
  failures-record_fail (throttled m now msg).0 now msg k,
  throttled-failures m now msg (sender msg),
  throttled-FailsBounded m now msg v k,
  text_eq_refl (sender msg),
)

fails-apply_admin_add : (m : Console) (id : Identity) → (apply_admin_add m id).0.fails ≡ m.fails
unfolding apply_admin_add rebuild
fails-apply_admin_add m id = ground arith

fails-grant_session :
    (m : Console) (now : ℕ) (msg : Message) → (grant_session m now msg).fails ≡ m.fails
unfolding grant_session
fails-grant_session m now msg = refl

-- An attempt to log in or to claim, with any text, leaves at most five failures on record for any
-- key, if there were at most five before.
pub attempt-FailsBounded :
    (m : Console) (now : ℕ) (msg : Message) (text : Text)
    → FailsBounded m
    → FailsBounded (handle_login m now msg text).0 × FailsBounded (handle_claim m now msg text).0
unfolding handle_login handle_claim
attempt-FailsBounded m now msg text v = (λ k. login k, λ k. claim k)
  where
    login : (k : Text) → failures (handle_login m now msg text).0 k ≤ max_failed_logins
    login k = ground (
      arith,
      v k,
      throttled-FailsBounded m now msg v k,
      λ (o : (throttled m now msg).1 ≡ false). record_fail-FailsBounded m now msg v o k,
      fails-grant_session (throttled m now msg).0 now msg,
    )

    claim : (k : Text) → failures (handle_claim m now msg text).0 k ≤ max_failed_logins
    claim k = ground (
      arith,
      v k,
      throttled-FailsBounded m now msg v k,
      λ (o : (throttled m now msg).1 ≡ false). record_fail-FailsBounded m now msg v o k,
      fails-apply_admin_add (throttled m now msg).0
          (record { network = msg.network; account = msg.account; flags = flag_owner ∷ [] }),
    )

-- Where a password and a claim code are set, a sender with five failures in the last minute is
-- refused by !login and !claim with any text, the right password included.
pub throttle_blocks :
    (m : Console) (now : ℕ) (msg : Message) (text : Text)
    → max_failed_logins
      ≤ length (recent now (or_zero [] (lookup (key msg.network msg.nick) m.fails)))
    → m.password ≢ []
    → m.claim_code ≢ []
    → ((handle_login m now msg text).1 ≡ too_many_attempts)
      × ((handle_claim m now msg text).1 ≡ too_many_attempts)
unfolding handle_login handle_claim
throttle_blocks m now msg text full set code = ground (
  arith,
  throttled-failures m now msg (sender msg),
  text_eq_iff m.password [],
  text_eq_iff m.claim_code [],
)

same_but_fails :
    (m : Console) (now : ℕ) (msg : Message) → IsSynced m → IsSynced (throttled m now msg).0
unfolding throttled
same_but_fails m now msg v = record {
  combined = v.combined;
  masks = v.masks;
  unclaimed = v.unclaimed;
}

abbrev claimant : Message → Identity
claimant msg = record { network = msg.network; account = msg.account; flags = flag_owner ∷ [] }

admins-throttled :
    (m : Console) (now : ℕ) (msg : Message) → (throttled m now msg).0.admins ≡ m.admins
unfolding throttled
admins-throttled m now msg = refl

lookup-nil : (j : Text) → lookup {V = Text} j [] ≡ none
unfolding lookup
lookup-nil j = refl

claim_closed :
    (m : Console) (now : ℕ) (msg : Message) (text : Text)
    → m.claim_code ≡ []
    → handle_claim m now msg text ≡ (m, claim_unavailable)
unfolding handle_claim
claim_closed m now msg text h = ground (arith, text_eq_iff m.claim_code [])

claimed_inv :
    (m : Console) (now : ℕ) (msg : Message) (text : Text)
    → (handle_claim m now msg text).1 ≡ claimed
    → (m.claim_code ≢ [])
      × (msg.account ≢ [])
      × ((handle_claim m now msg text).0
          ≡ (apply_admin_add
              (throttled m now msg).0
              (record { network = msg.network; account = msg.account; flags = flag_owner ∷ [] })).0)
unfolding handle_claim
claimed_inv m now msg text h = (
  ground (arith, text_eq_iff m.claim_code []),
  ground (arith, text_eq_iff msg.account []),
  ground arith,
)

owner_flags : normalize_flags (flag_owner ∷ []) (flag_op ∷ []) ≡ flag_owner ∷ []
unfolding normalize_flags normalize_loop flag_rank index_byte
owner_flags = refl

code_spent :
    (m : Console) (id : Identity)
    → id.account ≢ []
    → lookup (key id.network id.account) m.admins ≡ none
    → (apply_admin_add m id).0.claim_code ≡ []
unfolding apply_admin_add rebuild
code_spent m id n e = ground (arith, text_eq_iff id.account [])

no_admins : (m : Console) → IsSynced m → m.claim_code ≢ [] → m.admins ≡ []
unfolding add_runtime
no_admins m v n = ground (arith, v.combined, v.unclaimed n)

-- On a console whose lists are in step, a claim that is accepted makes the sender's account the
-- owner, gives nobody else an account entry, and spends the code: no later claim, by anybody with
-- any text, is looked at.
pub claim_once :
    (m : Console) (now later : ℕ) (msg other : Message) (text again : Text)
    → IsSynced m
    → (handle_claim m now msg text).1 ≡ claimed
    → ((j : Text)
        → lookup j (handle_claim m now msg text).0.admins
          ≡ (if text_eq (key msg.network msg.account) j then some (flag_owner ∷ []) else none))
      × (handle_claim (handle_claim m now msg text).0 later other again
          ≡ ((handle_claim m now msg text).0, claim_unavailable))
claim_once m now later msg other text again v h = (λ j. entry j, spent)
  where
    inv :
        (m.claim_code ≢ [])
        × (msg.account ≢ [])
        × ((handle_claim m now msg text).0
            ≡ (apply_admin_add (throttled m now msg).0 (claimant msg)).0)
    inv = claimed_inv m now msg text h

    nobody : (j : Text) → lookup j (throttled m now msg).0.admins ≡ none
    nobody j = rw (admins-throttled m now msg, no_admins m v inv.0) (lookup-nil j)

    entry :
        (j : Text)
        → lookup j (handle_claim m now msg text).0.admins
          ≡ (if text_eq (key msg.network msg.account) j then some (flag_owner ∷ []) else none)
    entry j = ground (
      arith,
      inv.2,
      lookup-apply_admin_add (throttled m now msg).0 (claimant msg) j (same_but_fails m now msg v)
          inv.1 (nobody (key msg.network msg.account)),
      nobody j,
      owner_flags,
    )

    spent :
        handle_claim (handle_claim m now msg text).0 later other again
        ≡ ((handle_claim m now msg text).0, claim_unavailable)
    spent = claim_closed _ later other again (
        ap (λ (c : Console). c.claim_code) inv.2
        ∙ code_spent (throttled m now msg).0 (claimant msg) inv.1
            (nobody (key msg.network msg.account)))
