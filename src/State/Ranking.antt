-- ===== src/State/Ranking.antt =====
-- ZTop of internal/state/state.go.
use mathlib.Core.List.{Perm}
use mathlib.Core.List.Perm
use annoybots.Base.{
  ℕ, zero, suc, ◌≤◌, ◌<◌, true, false, ◌&&◌, ◌≡◌, refl, sym, subst, ◌⊎◌, inl, inr, [], ◌∷◌, ◌++◌,
  List, Text, Map, arith, lookup, or_zero, All, length, take, drop, ltb, Bool-cases, if◌then◌else◌,
}
use annoybots.Base.Int.{ℤ, pos, negsuc, pos_part, ltb_ℤ, ◌≤ℤ◌}
use annoybots.State.{MemStore, text_lt, ranks_before, place, rank, z_top}

text_lt-asymm : (a b : Text) → text_lt a b ≡ true → text_lt b a ≡ false
unfolding text_lt
text_lt-asymm [] [] h = cc
text_lt-asymm [] (y ∷ b) h = refl
text_lt-asymm (x ∷ a) [] h = cc
text_lt-asymm (x ∷ a) (y ∷ b) h = ground (arith, text_lt-asymm a b)

text_lt-neg_trans : (a b c : Text) → text_lt a b ≡ false → text_lt b c ≡ false → text_lt a c ≡ false
unfolding text_lt
text_lt-neg_trans [] [] c h k = k
text_lt-neg_trans [] (y ∷ b) c h k = cc
text_lt-neg_trans (x ∷ a) [] [] h k = refl
text_lt-neg_trans (x ∷ a) [] (z ∷ c) h k = cc
text_lt-neg_trans (x ∷ a) (y ∷ b) [] h k = refl
text_lt-neg_trans (x ∷ a) (y ∷ b) (z ∷ c) h k = ground (arith, text_lt-neg_trans a b c)

before-asymm : (e f : Text × ℤ) → ranks_before e f ≡ true → ranks_before f e ≡ false
unfolding ranks_before
before-asymm (a, s) (b, t) h = ground (arith, text_lt-asymm a b)

before-neg_trans :
    (e f g : Text × ℤ)
    → ranks_before e f ≡ false
    → ranks_before f g ≡ false
    → ranks_before e g ≡ false
unfolding ranks_before
before-neg_trans (a, s) (b, t) (c, u) h k = ground (arith, text_lt-neg_trans a b c)

-- No entry stands behind one that it should precede.
abbrev IsSorted : List (Text × ℤ) → Type 0
IsSorted [] = Unit
IsSorted (e ∷ es) = All (λ f. ranks_before f e ≡ false) es × IsSorted es

All-place :
    (P : Text × ℤ → Type 0) (e : Text × ℤ) (es : List (Text × ℤ))
    → P e
    → All P es
    → All P (place e es)
unfolding place
All-place P e [] h k = (h, tt)
All-place P e (f ∷ fs) h k = elim (Bool-cases (ranks_before f e)) [
  | inl b ↦ rw b (k.0, All-place P e fs h k.1)
  | inr b ↦ rw b (h, k)
]

All-behind :
    (e f : Text × ℤ) (fs : List (Text × ℤ))
    → ranks_before f e ≡ false
    → All (λ g. ranks_before g f ≡ false) fs
    → All (λ g. ranks_before g e ≡ false) fs
All-behind e f [] h k = tt
All-behind e f (g ∷ fs) h k = (before-neg_trans g f e k.0 h, All-behind e f fs h k.1)

place-IsSorted : (e : Text × ℤ) (es : List (Text × ℤ)) → IsSorted es → IsSorted (place e es)
unfolding place
place-IsSorted e [] r = (tt, tt)
place-IsSorted e (f ∷ fs) r = elim (Bool-cases (ranks_before f e)) [
  | inl b ↦ rw b (
    All-place (λ g. ranks_before g f ≡ false) e fs (before-asymm f e b) r.0,
    place-IsSorted e fs r.1,
  )
  | inr b ↦ rw b ((b, All-behind e f fs b r.0), r)
]

rank-IsSorted : (es : List (Text × ℤ)) → IsSorted (rank es)
unfolding rank
rank-IsSorted [] = tt
rank-IsSorted (e ∷ es) = place-IsSorted e (rank es) (rank-IsSorted es)

-- The score falls, and on a tie the names rise.
abbrev pub StandsBefore : Text × ℤ → Text × ℤ → Type 0
StandsBefore (a, s) (b, t) = (t ≤ℤ s) × (s ≡ t → text_lt b a ≡ false)

abbrev pub IsRanked : List (Text × ℤ) → Type 0
IsRanked [] = Unit
IsRanked (e ∷ es) = All (StandsBefore e) es × IsRanked es

StandsBefore-order : (e f : Text × ℤ) → ranks_before f e ≡ false → StandsBefore e f
unfolding ranks_before
StandsBefore-order (a, s) (b, t) h = (ground arith, λ same. ground (arith, same))

All-StandsBefore :
    (e : Text × ℤ) (es : List (Text × ℤ))
    → All (λ f. ranks_before f e ≡ false) es
    → All (StandsBefore e) es
All-StandsBefore e [] h = tt
All-StandsBefore e (f ∷ es) h = (StandsBefore-order e f h.0, All-StandsBefore e es h.1)

IsRanked-sorted : (es : List (Text × ℤ)) → IsSorted es → IsRanked es
IsRanked-sorted [] h = tt
IsRanked-sorted (e ∷ es) h = (All-StandsBefore e es h.0, IsRanked-sorted es h.1)

place-perm : (e : Text × ℤ) (es : List (Text × ℤ)) → Perm (e ∷ es) (place e es)
unfolding place
place-perm e [] = Perm.refl _
place-perm e (f ∷ fs) = elim (Bool-cases (ranks_before f e)) [
  | inl b ↦ rw b (Perm.trans (Perm.swap f e fs) (Perm.cons f (place-perm e fs)))
  | inr b ↦ rw b (Perm.refl _)
]

rank-perm : (es : List (Text × ℤ)) → Perm es (rank es)
unfolding rank
rank-perm [] = Perm.refl []
rank-perm (e ∷ es) = Perm.trans (Perm.cons e (rank-perm es)) (place-perm e (rank es))

abbrev pub board : MemStore → Text → Map ℤ
board m key = or_zero [] (lookup key m.zsets)

-- The entries that `ZTop` leaves out.
left_out : MemStore → Text → ℤ → List (Text × ℤ)
left_out m key n =
    let out = rank (board m key) in
    if ltb_ℤ (pos 0) n && ltb (pos_part n) (length out) then drop (pos_part n) out else []

take-append-drop {ℓ} : {A : Type ℓ} (n : ℕ) (xs : List A) → take n xs ++ drop n xs ≡ xs
take-append-drop zero xs = refl
take-append-drop (suc n) [] = refl
take-append-drop (suc n) (x ∷ xs) = rw (take-append-drop n xs)

append_nil {ℓ} : {A : Type ℓ} (xs : List A) → xs ++ [] ≡ xs
append_nil [] = refl
append_nil (x ∷ xs) = rw (append_nil xs)

split-rank :
    (m : MemStore) (key : Text) (n : ℤ) → z_top m key n ++ left_out m key n ≡ rank (board m key)
unfolding z_top left_out
split-rank m key n =
    ground
      (arith, take-append-drop (pos_part n) (rank (board m key)), append_nil (rank (board m key)))

length-take_le {ℓ} : {A : Type ℓ} (n : ℕ) (xs : List A) → n < length xs → length (take n xs) ≡ n
length-take_le zero xs h = omega arith
length-take_le (suc n) [] h = elim h [ ]
length-take_le (suc n) (x ∷ xs) h = omega (arith, length-take_le n xs)

module _ (m : MemStore) (key : Text) where
  reached :
      (n : ℤ)
      → (left_out m key n ≡ []) ⊎ ((ltb_ℤ (pos 0) n ≡ true) × (n ≡ pos (length (z_top m key n))))
  unfolding z_top left_out
  reached (pos k) = ground (arith, length-take_le k (rank (board m key)))
  reached (negsuc k) = ground arith

  bounded : (n : ℤ) → ltb_ℤ (pos 0) n ≡ true → length (z_top m key n) ≤ pos_part n
  unfolding z_top
  bounded (pos k) h = ground (arith, length-take_le k (rank (board m key)))
  bounded (negsuc k) h = ground arith

-- The result and the entries left out are together the board, ranked by falling score and then by
-- name. Entries are left out only for a positive n, and then the result has exactly n entries; a
-- positive n bounds the result in any case.
pub z_top_lem :
    (m : MemStore) (key : Text) (n : ℤ)
    → (rest : List (Text × ℤ)) × Perm (board m key) (z_top m key n ++ rest)
      × IsRanked (z_top m key n ++ rest)
      × ((rest ≡ []) ⊎ ((ltb_ℤ (pos 0) n ≡ true) × (n ≡ pos (length (z_top m key n)))))
      × (ltb_ℤ (pos 0) n ≡ true → length (z_top m key n) ≤ pos_part n)
z_top_lem m key n = (
  left_out m key n,
  subst (Perm (board m key)) (sym (split-rank m key n)) (rank-perm (board m key)),
  subst IsRanked (sym (split-rank m key n))
      (IsRanked-sorted (rank (board m key)) (rank-IsSorted (board m key))),
  reached m key n,
  bounded m key n,
)
