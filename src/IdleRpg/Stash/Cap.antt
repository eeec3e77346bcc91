-- ===== src/IdleRpg/Stash/Cap.antt =====
-- The size of a stash of internal/idlerpg/stash.go.
use annoybots.Base.{
  ℕ, zero, suc, ◌≤◌, ◌<◌, ◌≡◌, inl, inr, [], ◌∷◌, List, Option, none, some, Text, arith,
  text_eq_iff, to_lower, length, get_elem?, remove_at, Option-cases, parse_int, length-append,
  length-remove_at,
}
use annoybots.Base.Int.{ℤ, pos, negsuc}
use annoybots.State.{MemStore}
use annoybots.IdleRpg.Stash.{
  StashItem, Codec, worn, read_stash, stash, pick, swapped, equip, stash_cap,
}
use annoybots.IdleRpg.Stash.Banking.{read_stash-bank, read_stash-take_out}

pub get_elem?-bound {ℓ} :
    {A : Type ℓ} (xs : List A) (i : ℕ) (a : A) → get_elem? xs i ≡ some a → i < length xs
get_elem?-bound [] i a h = cc
get_elem?-bound (x ∷ xs) zero a h = omega arith
get_elem?-bound (x ∷ xs) (suc i) a h = omega (arith, get_elem?-bound xs i a h)

-- A picked item stands in the list at the index.
pub pick_inv :
    (items : List StashItem) (n : Option ℤ) (i : ℕ) (it : StashItem)
    → pick items n ≡ some (i, it)
    → (get_elem? items i ≡ some it) × (n ≡ some (pos (suc i)))
unfolding pick
pick_inv items (some (pos (suc j))) i it h = elim (Option-cases (get_elem? items j)) [
  | inl e ↦ ground (arith, e)
  | inr (x, e) ↦ ground (arith, e)
]
pick_inv items (some (pos zero)) i it h = ground arith
pick_inv items (some (negsuc k)) i it h = ground arith
pick_inv items none i it h = ground arith

length-swapped :
    (json : Codec) (m : MemStore) (p : Text) (i : ℕ) (it : StashItem)
    → get_elem? (read_stash json m p) i ≡ some it
    → length (swapped json m p i it) ≤ length (read_stash json m p)
unfolding swapped
length-swapped json m p i it h =
    let rest = remove_at i (read_stash json m p) in
    ground (
      arith,
      length-append rest (worn m p it.slot ∷ []),
      length-remove_at i (read_stash json m p),
      get_elem?-bound (read_stash json m p) i it h,
    )

module _ (json : Codec) (m : MemStore) (p q : Text) where
  pub stash_cap_lem :
      (arg : Option Text)
      → length (read_stash json m q) ≤ stash_cap
      → length (read_stash json (stash json m p arg).0 q) ≤ stash_cap
  unfolding stash
  stash_cap_lem none h = ground arith
  stash_cap_lem (some arg) h = ground (
    arith,
    read_stash-bank json m p q (to_lower arg),
    length-append (read_stash json m p) (worn m p (to_lower arg) ∷ []),
    text_eq_iff p q,
  )

  pub equip_cap :
      (arg : Option Text)
      → length (read_stash json m q) ≤ stash_cap
      → length (read_stash json (equip json m p arg).0 q) ≤ stash_cap
  unfolding equip
  equip_cap none h = ground arith
  equip_cap (some arg) h = elim (Option-cases (pick (read_stash json m p) (parse_int arg))) [
    | inl e ↦ ground (arith, e)
    | inr ((i, it), e) ↦ ground (
      arith,
      e,
      pick_inv (read_stash json m p) (parse_int arg) i it,
      length-swapped json m p i it,
      read_stash-take_out json m p i it q,
      text_eq_iff p q,
    )
  ]
