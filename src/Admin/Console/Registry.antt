-- ===== src/Admin/Console/Registry.antt =====
-- applyAdminAdd and applyAdminDel of internal/admin/commands.go, on the combined admin list.
use annoybots.Base.{
  true, false, ◌≡◌, refl, ◌∙◌, ◌≢◌, inl, inr, [], ◌∷◌, ◌++◌, List, none, some, Text, Map, arith,
  lookup, lookup-insert, text_eq, text_eq_iff, Bool-cases, has as is_some, if◌then◌else◌,
}
use annoybots.Admin.Flags.{flag_op, Identity, Console, key, normalize_flags}
use annoybots.Admin.Console.{add_runtime, rebuild, apply_admin_add, without, apply_admin_del}

-- The admin list is the config's with the runtime admins over it, and an open claim code means
-- that nobody is an admin yet.
pub record IsSynced (m : Console) : Type 0 where
  pub combined : m.admins ≡ add_runtime m.runtime m.config_keys
  pub masks : m.mask_admins ≡ m.config_masks
  pub unclaimed : m.claim_code ≢ [] → (m.runtime ≡ []) × (m.config_keys ≡ [])

abbrev identity_key : Identity → Text
identity_key id = key id.network id.account

lookup-add_runtime_snoc :
    (rs : List Identity) (id : Identity) (j : Text) (m : Map Text)
    → lookup j (add_runtime (rs ++ id ∷ []) m) ≡ (
        if text_eq (identity_key id) j
        then some (normalize_flags id.flags (flag_op ∷ []))
        else lookup j (add_runtime rs m))
unfolding add_runtime
lookup-add_runtime_snoc [] id j m = lookup-insert (identity_key id) j _ m
lookup-add_runtime_snoc (a ∷ rs) id j m = lookup-add_runtime_snoc rs id j _

-- On a console whose lists are in step, an admin that is new, under a name that is not empty, gets
-- its flags; nobody else's change.
pub lookup-apply_admin_add :
    (m : Console) (id : Identity) (j : Text)
    → IsSynced m
    → id.account ≢ []
    → lookup (key id.network id.account) m.admins ≡ none
    → lookup j (apply_admin_add m id).0.admins ≡ (
        if text_eq (key id.network id.account) j
        then some (normalize_flags id.flags (flag_op ∷ []))
        else lookup j m.admins)
unfolding apply_admin_add rebuild
lookup-apply_admin_add m id j v named new = ground (
  arith,
  text_eq_iff id.account [],
  v.combined,
  lookup-add_runtime_snoc m.runtime id j m.config_keys,
)

-- Two maps that agree at j still do with the same runtime admins over them.
add_runtime_agree :
    (rs : List Identity) (j : Text) (m n : Map Text)
    → lookup j m ≡ lookup j n
    → lookup j (add_runtime rs m) ≡ lookup j (add_runtime rs n)
unfolding add_runtime
add_runtime_agree [] j m n h = h
add_runtime_agree (a ∷ rs) j m n h = add_runtime_agree rs j _ _ (
    ground (
      arith,
      h,
      lookup-insert (identity_key a) j (normalize_flags a.flags (flag_op ∷ [])) m,
      lookup-insert (identity_key a) j (normalize_flags a.flags (flag_op ∷ [])) n,
    ))

-- What is left without k gives k the config's flags.
lookup-without_self :
    (rs : List Identity) (k : Text) (m : Map Text)
    → lookup k (add_runtime (without k rs).0 m) ≡ lookup k m
unfolding add_runtime without
lookup-without_self [] k m = refl
lookup-without_self (a ∷ rs) k m = elim (Bool-cases (text_eq (identity_key a) k)) [
  | inl h ↦ rw h (lookup-without_self rs k m)
  | inr h ↦ rw h (
      lookup-without_self rs k _
      ∙ lookup-insert (identity_key a) k (normalize_flags a.flags (flag_op ∷ [])) m
      ∙ rw h)
]

-- Removing k leaves every other key.
lookup-without_other :
    (rs : List Identity) (k j : Text) (m : Map Text)
    → text_eq k j ≡ false
    → lookup j (add_runtime (without k rs).0 m) ≡ lookup j (add_runtime rs m)
unfolding add_runtime without
lookup-without_other [] k j m n = refl
lookup-without_other (a ∷ rs) k j m n = elim (Bool-cases (text_eq (identity_key a) k)) [
  | inl h ↦ rw h (
      lookup-without_other rs k j m n
      ∙ add_runtime_agree rs j m _ (
          ground (
            arith,
            text_eq_iff (identity_key a) k,
            lookup-insert (identity_key a) j (normalize_flags a.flags (flag_op ∷ [])) m,
          )))
  | inr h ↦ rw h (lookup-without_other rs k j _ n)
]

without_unchanged :
    (k : Text) (rs : List Identity) → (without k rs).1 ≡ false → (without k rs).0 ≡ rs
unfolding without
without_unchanged k [] h = refl
without_unchanged k (a ∷ rs) h = ground (arith, without_unchanged k rs)

without_nil : (k : Text) → without k [] ≡ ([], false)
unfolding without
without_nil k = refl

-- Removing an admin on a console whose lists are in step: a config admin stays, with nothing
-- changed; any other key is an admin no more, and every other admin keeps the flags they had.
pub lookup-apply_admin_del :
    (m : Console) (id : Identity)
    → IsSynced m
    → (is_some (lookup (key id.network id.account) m.config_keys) ≡ true
        → (apply_admin_del m id).0 ≡ m)
      × (lookup (key id.network id.account) m.config_keys ≡ none
          → (lookup (key id.network id.account) (apply_admin_del m id).0.admins ≡ none)
            × ((j : Text)
                → text_eq (key id.network id.account) j ≡ false
                → lookup j (apply_admin_del m id).0.admins ≡ lookup j m.admins))
unfolding apply_admin_del rebuild
lookup-apply_admin_del m id v = (λ h. ground arith, λ h. (gone h, λ j n. others h j n))
  where
    gone :
        lookup (identity_key id) m.config_keys ≡ none
        → lookup (identity_key id) (apply_admin_del m id).0.admins ≡ none
    gone h = ground (
      arith,
      v.combined,
      without_unchanged (identity_key id) m.runtime,
      lookup-without_self m.runtime (identity_key id) m.config_keys,
    )

    others :
        lookup (identity_key id) m.config_keys ≡ none
        → (j : Text) → text_eq (identity_key id) j ≡ false
        → lookup j (apply_admin_del m id).0.admins ≡ lookup j m.admins
    others h j n =
        ground
          (arith, v.combined, lookup-without_other m.runtime (identity_key id) j m.config_keys n)

-- Adding and removing an admin keep the admin list in step with its sources.
pub apply_admin-IsSynced :
    (m : Console) (id : Identity)
    → IsSynced m
    → IsSynced (apply_admin_add m id).0 × IsSynced (apply_admin_del m id).0
unfolding apply_admin_add apply_admin_del rebuild
apply_admin-IsSynced m id v = (added, removed)
  where
    added : IsSynced (apply_admin_add m id).0
    added = record {
      combined = ground (arith, v.combined);
      masks = ground (arith, v.masks);
      unclaimed = ground (arith, v.unclaimed);
    }

    dropped :
        (apply_admin_del m id).0.claim_code ≢ []
        → ((apply_admin_del m id).0.runtime ≡ []) × ((apply_admin_del m id).0.config_keys ≡ [])
    dropped n = ground (arith, v.unclaimed, without_nil (identity_key id))

    removed : IsSynced (apply_admin_del m id).0
    removed = record {
      combined = ground (arith, v.combined, without_unchanged (identity_key id) m.runtime);
      masks = ground (arith, v.masks);
      unclaimed = λ n. dropped n;
    }
