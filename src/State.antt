-- ===== src/State.antt =====
-- internal/state/state.go: the in-memory store. Its operations return no error, so the error
-- result and the context argument are left out; the mutex makes each one a single step.
use annoybots.Base.{
  ℕ, zero, suc, Bool, true, false, ◌&&◌, not, [], ◌∷◌, List, Option, none, some, Text, Map, lookup,
  insert, delete, or_zero, length, take, ltb, ◌==◌, if◌then◌else◌,
}
use annoybots.Base.Int.{ℤ, pos, pos_part, neg_part, add64, ltb_ℤ, eq_ℤ}
pub mod Fields
pub mod Ranking
mod Tests

pub record MemStore : Type 0 where
  pub counters : Map ℤ
  pub zsets : Map (Map ℤ)
  pub hashes : Map (Map ℤ)
  pub strs : Map Text
  pub lists : Map (List Text)

-- `NewMem`.
unfoldable pub new_mem : MemStore
new_mem = record { counters = []; zsets = []; hashes = []; strs = []; lists = [] }

unfoldable pub get : MemStore → Text → ℤ
get m key = or_zero (pos 0) (lookup key m.counters)

unfoldable pub incr : MemStore → Text → ℤ → MemStore × ℤ
incr m key delta =
    let v = add64 (or_zero (pos 0) (lookup key m.counters)) delta in
    (record m { counters = insert key v m.counters }, v)

-- `z[member] += delta` in the map at a key, which is made if it is missing.
unfoldable pub bump : Map (Map ℤ) → Text → Text → ℤ → Map (Map ℤ) × ℤ
bump t key member delta =
    let z = or_zero [] (lookup key t) in
    let v = add64 (or_zero (pos 0) (lookup member z)) delta in (insert key (insert member v z) t, v)

unfoldable pub z_incr : MemStore → Text → Text → ℤ → MemStore × ℤ
unfolding bump
z_incr m key member delta =
    let (t, v) = bump m.zsets key member delta in (record m { zsets = t }, v)

unfoldable pub z_score : MemStore → Text → Text → ℤ
z_score m key member = or_zero (pos 0) (lookup member (or_zero [] (lookup key m.zsets)))

-- `a < b` on Go strings.
unfoldable pub text_lt : Text → Text → Bool
text_lt [] [] = false
text_lt [] (y ∷ ys) = true
text_lt (x ∷ xs) [] = false
text_lt (x ∷ xs) (y ∷ ys) = if ltb x y then true else (x == y) && text_lt xs ys

-- The order of `ZTop`: the higher score first, and on a tie the smaller member.
unfoldable pub ranks_before : Text × ℤ → Text × ℤ → Bool
ranks_before (a, s) (b, t) = if eq_ℤ s t then text_lt a b else ltb_ℤ t s

-- `sort.Slice` by that order.
unfoldable pub place : Text × ℤ → List (Text × ℤ) → List (Text × ℤ)
place e [] = e ∷ []
place e (f ∷ fs) = if ranks_before f e then f ∷ place e fs else e ∷ (f ∷ fs)

unfoldable pub rank : List (Text × ℤ) → List (Text × ℤ)
unfolding place
rank [] = []
rank (e ∷ es) = place e (rank es)

unfoldable pub z_top : MemStore → Text → ℤ → List (Text × ℤ)
unfolding rank
z_top m key n =
    let out = rank (or_zero [] (lookup key m.zsets)) in
    if ltb_ℤ (pos 0) n && ltb (pos_part n) (length out) then take (pos_part n) out else out

unfoldable pub z_rem : MemStore → Text → Text → MemStore
z_rem m key member = elim (lookup key m.zsets) [
  | none ↦ m
  | some z ↦ record m { zsets = insert key (delete member z) m.zsets }
]

unfoldable pub h_incr : MemStore → Text → Text → ℤ → MemStore × ℤ
unfolding bump
h_incr m key field delta =
    let (t, v) = bump m.hashes key field delta in (record m { hashes = t }, v)

unfoldable pub h_set : MemStore → Text → Text → ℤ → MemStore
h_set m key field value = record m {
  hashes = insert key (insert field value (or_zero [] (lookup key m.hashes))) m.hashes;
}

unfoldable pub h_get_all : MemStore → Text → Map ℤ
h_get_all m key = or_zero [] (lookup key m.hashes)

unfoldable pub set_str : MemStore → Text → Text → MemStore
set_str m key value = record m { strs = insert key value m.strs }

unfoldable pub get_str : MemStore → Text → Text
get_str m key = or_zero [] (lookup key m.strs)

unfoldable pub del : MemStore → Text → MemStore
del m key = record {
  counters = delete key m.counters;
  zsets = delete key m.zsets;
  hashes = delete key m.hashes;
  strs = delete key m.strs;
  lists = delete key m.lists;
}

-- Newest first, cut to `limit` where that is positive.
unfoldable pub list_push : MemStore → Text → Text → ℤ → MemStore
list_push m key value limit =
    let l = value ∷ or_zero [] (lookup key m.lists) in
    let cut = ltb_ℤ (pos 0) limit && ltb (pos_part limit) (length l) in
    record m { lists = insert key (if cut then take (pos_part limit) l else l) m.lists }

unfoldable pub list_range : MemStore → Text → ℤ → List Text
list_range m key n =
    let l = or_zero [] (lookup key m.lists) in
    if ltb_ℤ (pos 0) n && ltb (pos_part n) (length l) then take (pos_part n) l else l
