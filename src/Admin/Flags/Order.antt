-- ===== src/Admin/Flags/Order.antt =====
-- hasFlag of internal/admin/flags.go, and the order of the access flags.
use annoybots.Base.{
  ℕ, ◌≤◌, true, ◌||◌, ◌≡◌, refl, [], ◌∷◌, ◌++◌, Option, none, some, Text, arith, ==_iff,
  Option-cases, inl, inr, has as is_some,
}
use annoybots.Admin.Flags.{index_byte, flag_rank, reaches, holds_rank, has_flag, normalize_loop}

reaches_mono : (a b : ℕ) (r : Option ℕ) → a ≤ b → reaches a r ≡ true → reaches b r ≡ true
unfolding reaches
reaches_mono a b none h e = e
reaches_mono a b (some r) h e = ground arith

holds_rank_mono :
    (have : Text) (a b : ℕ) → a ≤ b → holds_rank have a ≡ true → holds_rank have b ≡ true
unfolding holds_rank
holds_rank_mono [] a b h e = e
holds_rank_mono (c ∷ have) a b h e =
    ground (arith, reaches_mono a b (flag_rank c), holds_rank_mono have a b h)

-- A flag set that holds x also holds every flag that x grants.
pub has_flag_trans :
    (have : Text) (x want : ℕ)
    → has_flag have x ≡ true
    → has_flag (x ∷ []) want ≡ true
    → has_flag have want ≡ true
unfolding has_flag holds_rank reaches
has_flag_trans have x want h k = go (flag_rank x) refl (flag_rank want) refl
  where
    go :
        (r : Option ℕ)
        → flag_rank x ≡ r
        → (w : Option ℕ) → flag_rank want ≡ w
        → has_flag have want ≡ true
    go none e w d = cc (rw (e, has_flag) at h)
    go (some r) e none d = cc (rw (d, has_flag) at k)
    go (some r) e (some w) d = ground (arith, holds_rank_mono have r w)

holds_rank-append :
    (xs ys : Text) (wr : ℕ) → holds_rank (xs ++ ys) wr ≡ (holds_rank xs wr || holds_rank ys wr)
unfolding holds_rank
holds_rank-append [] ys wr = ground arith
holds_rank-append (c ∷ xs) ys wr = ground (arith, holds_rank-append xs ys wr)

holds_rank_of_index :
    (xs : Text) (c wr : ℕ)
    → is_some (index_byte xs c) ≡ true
    → reaches wr (flag_rank c) ≡ true
    → holds_rank xs wr ≡ true
unfolding holds_rank index_byte
holds_rank_of_index [] c wr h k = cc
holds_rank_of_index (x ∷ xs) c wr h k = ground (arith, ==_iff x c, holds_rank_of_index xs c wr)

pub holds_rank-normalize_loop :
    (f out : Text) (wr : ℕ)
    → holds_rank (normalize_loop f out) wr ≡ (holds_rank out wr || holds_rank f wr)
unfolding normalize_loop holds_rank reaches
holds_rank-normalize_loop [] out wr = ground arith
holds_rank-normalize_loop (c ∷ f) out wr = elim (Option-cases (flag_rank c)) [
  | inl e ↦ ground (arith, holds_rank-normalize_loop f out wr)
  | inr (r, e) ↦ ground (
    arith,
    holds_rank-normalize_loop f out wr,
    holds_rank-normalize_loop f (out ++ c ∷ []) wr,
    holds_rank-append out (c ∷ []) wr,
    holds_rank_of_index out c wr,
  )
]
