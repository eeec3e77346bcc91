-- ===== src/IdleRpg/Stash/Banking.antt =====
-- stash and equip of internal/idlerpg/stash.go, one after the other.
use annoybots.Base.{
  ℕ, suc, ◌<◌, false, ◌≡◌, refl, ◌∙◌, ap, [], ◌∷◌, ◌++◌, List, some, Text, arith, text_eq,
  text_eq_iff, text_eq_refl, to_lower, length, get_elem?, remove_at, if◌then◌else◌, parse_int,
}
use annoybots.Base.Int.{pos}
use annoybots.State.{MemStore}
use annoybots.IdleRpg.{item_field, no_sheet}
use annoybots.IdleRpg.Sheet.{stat}
use annoybots.IdleRpg.Stash.{
  StashItem, Codec, banked, bare, worn, read_stash, write_stash, bank, stash, pick, swapped,
  take_out, equip, stash_cap,
}
use annoybots.IdleRpg.Stash.Frame.{
  worn-wear, read_stash-write, read_stash-wear, worn-write_stash, no_sheet-wear,
}

get_elem?-end {ℓ} :
    {A : Type ℓ} (xs : List A) (x : A) → get_elem? (xs ++ x ∷ []) (length xs) ≡ some x
get_elem?-end [] x = refl
get_elem?-end (y ∷ xs) x = get_elem?-end xs x

remove_at-end {ℓ} : {A : Type ℓ} (xs : List A) (x : A) → remove_at (length xs) (xs ++ x ∷ []) ≡ xs
remove_at-end [] x = refl
remove_at-end (y ∷ xs) x = rw (remove_at-end xs x)

pub stat_of_worn : (m : MemStore) (p s : Text) → stat m p (item_field s) ≡ (worn m p s).level
unfolding worn
stat_of_worn m p s = refl

module _ (json : Codec) (m : MemStore) (p : Text) where
  pub read_stash-bank :
      (q slot : Text)
      → read_stash json (bank json m p slot) q
        ≡ (if text_eq p q then read_stash json m p ++ worn m p slot ∷ [] else read_stash json m q)
  unfolding bank
  read_stash-bank q slot =
      read_stash-wear json (write_stash json m p (read_stash json m p ++ worn m p slot ∷ [])) p q
        (bare slot)
      ∙ read_stash-write json m p q (read_stash json m p ++ worn m p slot ∷ [])

  pub worn-bank :
      (slot s : Text)
      → worn (bank json m p slot) p s ≡ (if text_eq slot s then bare slot else worn m p s)
  unfolding bank
  worn-bank slot s = ground (
    arith,
    worn-wear (write_stash json m p (read_stash json m p ++ worn m p slot ∷ [])) p s (bare slot),
    worn-write_stash json m p p s (read_stash json m p ++ worn m p slot ∷ []),
  )

  pub read_stash-take_out :
      (i : ℕ) (it : StashItem) (q : Text)
      → read_stash json (take_out json m p i it) q
        ≡ (if text_eq p q then swapped json m p i it else read_stash json m q)
  unfolding take_out
  read_stash-take_out i it q =
      read_stash-wear json (write_stash json m p (swapped json m p i it)) p q it
      ∙ read_stash-write json m p q (swapped json m p i it)

  pub worn-take_out :
      (i : ℕ) (it : StashItem) (s : Text)
      → worn (take_out json m p i it) p s ≡ (if text_eq it.slot s then it else worn m p s)
  unfolding take_out
  worn-take_out i it s = ground (
    arith,
    worn-wear (write_stash json m p (swapped json m p i it)) p s it,
    worn-write_stash json m p p s (swapped json m p i it),
  )

banked_inv :
    (json : Codec) (m : MemStore) (p arg slot : Text) (n : ℕ)
    → (stash json m p (some arg)).1 ≡ banked slot n
    → (slot ≡ to_lower arg)
      × (n ≡ suc (length (read_stash json m p)))
      × ((stash json m p (some arg)).0 ≡ bank json m p slot)
      × (length (read_stash json m p) < stash_cap)
unfolding stash
banked_inv json m p arg slot n h = ground arith

no_sheet-bank :
    (json : Codec) (m : MemStore) (p slot : Text) → no_sheet (bank json m p slot) p ≡ false
unfolding bank
no_sheet-bank json m p slot = no_sheet-wear _ p (bare slot)

-- Equipping the last item of a stash whose slot is bare takes it out again.
swapped-end :
    (json : Codec) (m : MemStore) (p : Text) (it : StashItem) (xs : List StashItem)
    → read_stash json m p ≡ xs ++ it ∷ []
    → worn m p it.slot ≡ bare it.slot
    → swapped json m p (length xs) it ≡ xs
unfolding swapped
swapped-end json m p it xs r b =
    ground (arith, remove_at-end xs it, stat_of_worn m p it.slot, ap (λ (w : StashItem). w.level) b)

equip-end :
    (json : Codec) (m : MemStore) (p num : Text) (it : StashItem) (xs : List StashItem)
    → no_sheet m p ≡ false
    → read_stash json m p ≡ xs ++ it ∷ []
    → parse_int num ≡ some (pos (suc (length xs)))
    → (equip json m p (some num)).0 ≡ take_out json m p (length xs) it
unfolding equip pick
equip-end json m p num it xs h r e = ground (arith, get_elem?-end xs it)

-- The store after a banked item has been equipped again.
bank-take_out :
    (json : Codec) (m : MemStore) (p slot num : Text)
    → parse_int num ≡ some (pos (suc (length (read_stash json m p))))
    → (equip json (bank json m p slot) p (some num)).0
      ≡ take_out json (bank json m p slot) p (length (read_stash json m p)) (worn m p slot)
bank-take_out json m p slot num e =
    equip-end json (bank json m p slot) p num (worn m p slot) (read_stash json m p)
      (no_sheet-bank json m p slot)
      (ground (arith, read_stash-bank json m p p slot, text_eq_refl p)) e

slot_of_worn : (m : MemStore) (p s : Text) → (worn m p s).slot ≡ s
unfolding worn
slot_of_worn m p s = refl

bank-swapped :
    (json : Codec) (m : MemStore) (p slot : Text)
    → swapped json (bank json m p slot) p (length (read_stash json m p)) (worn m p slot)
      ≡ read_stash json m p
bank-swapped json m p slot =
    swapped-end json (bank json m p slot) p (worn m p slot) (read_stash json m p)
      (ground (arith, read_stash-bank json m p p slot, text_eq_refl p))
      (ground (
        arith,
        worn-bank json m p slot (worn m p slot).slot,
        slot_of_worn m p slot,
        text_eq_refl slot,
      ))

-- A banked item that is equipped again by the number that the bot answered gives back every slot
-- and every stash as they were.
pub bank_then_equip :
    (json : Codec) (m : MemStore) (p arg slot num : Text) (n : ℕ)
    → (stash json m p (some arg)).1 ≡ banked slot n
    → parse_int num ≡ some (pos n)
    → let m2 = (equip json (stash json m p (some arg)).0 p (some num)).0 in
      ((s : Text) → worn m2 p s ≡ worn m p s)
      × ((q : Text) → read_stash json m2 q ≡ read_stash json m q)
bank_then_equip json m p arg slot num n h e =
    let inv = banked_inv json m p arg slot n h in
    let m1 = bank json m p slot in
    let xs = read_stash json m p in
    let it = worn m p slot in
    let back = bank-take_out json m p slot num (e ∙ ap (λ (k : ℕ). some (pos k)) inv.1) in
    let all : (equip json (stash json m p (some arg)).0 p (some num)).0
        ≡ take_out json m1 p (length xs) it =
      rw inv.2 back in
    (
      λ s. rw all (
          ground (
            arith,
            worn-take_out json m1 p (length xs) it s,
            worn-bank json m p slot s,
            slot_of_worn m p slot,
            text_eq_iff slot s,
          )),
      λ q. rw all (
          ground (
            arith,
            read_stash-take_out json m1 p (length xs) it q,
            read_stash-bank json m p q slot,
            bank-swapped json m p slot,
            text_eq_iff p q,
          )),
    )
