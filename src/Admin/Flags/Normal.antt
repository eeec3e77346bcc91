-- ===== src/Admin/Flags/Normal.antt =====
-- normalizeFlags of internal/admin/flags.go.
use annoybots.Base.{
  ℕ, true, false, ◌&&◌, not, if◌then◌else◌, ◌≡◌, refl, ◌≢◌, [], ◌∷◌, ◌++◌, Option, none, some, Text,
  arith, All, ◌==◌, has as is_some, ap,
}
use annoybots.Admin.Flags.{
  flag_friend, index_byte, flag_rank, reaches, holds_rank, has_flag, normalize_loop,
  normalize_flags,
}
use annoybots.Admin.Flags.Order.{holds_rank-normalize_loop}

abbrev pub AllKnown : Text → Type 0
AllKnown = All (λ c. is_some (flag_rank c) ≡ true)

-- No byte stands twice.
abbrev pub NoRepeat : Text → Type 0
NoRepeat [] = Unit
NoRepeat (c ∷ s) = (index_byte s c ≡ none) × NoRepeat s

pub record IsNormal (out : Text) : Type 0 where
  pub known : AllKnown out
  pub once : NoRepeat out

AllKnown-snoc :
    (out : Text) (c : ℕ) → AllKnown out → is_some (flag_rank c) ≡ true → AllKnown (out ++ c ∷ [])
AllKnown-snoc [] c h k = (k, tt)
AllKnown-snoc (x ∷ out) c h k = (h.0, AllKnown-snoc out c h.1 k)

index_byte-snoc :
    (out : Text) (c x : ℕ)
    → index_byte out x ≡ none
    → (c == x) ≡ false
    → index_byte (out ++ c ∷ []) x ≡ none
unfolding index_byte
index_byte-snoc [] c x h k = ground arith
index_byte-snoc (y ∷ out) c x h k = ground (arith, index_byte-snoc out c x)

NoRepeat-snoc :
    (out : Text) (c : ℕ) → NoRepeat out → index_byte out c ≡ none → NoRepeat (out ++ c ∷ [])
unfolding index_byte
NoRepeat-snoc [] c h k = (refl, tt)
NoRepeat-snoc (x ∷ out) c h k =
    (index_byte-snoc out c x h.0 (ground arith), NoRepeat-snoc out c h.1 (ground arith))

-- One round of the loop.
IsNormal-round :
    (c : ℕ) (out : Text)
    → IsNormal out
    → IsNormal
        (if is_some (flag_rank c) && not (is_some (index_byte out c)) then out ++ c ∷ [] else out)
IsNormal-round c out n = go (flag_rank c) refl (index_byte out c) refl
  where
    go :
        (r : Option ℕ)
        → flag_rank c ≡ r
        → (i : Option ℕ) → index_byte out c ≡ i
        → IsNormal (
            if is_some (flag_rank c) && not (is_some (index_byte out c))
            then out ++ c ∷ []
            else out)
    go none e i d = rw e n
    go (some r) e (some i) d = rw (e, d) n
    go (some r) e none d =
        rw (e, d)
          (record {
            known = AllKnown-snoc out c n.known (ap is_some e);
            once = NoRepeat-snoc out c n.once d;
          })

normalize_loop-IsNormal : (f out : Text) → IsNormal out → IsNormal (normalize_loop f out)
unfolding normalize_loop
normalize_loop-IsNormal [] out n = n
normalize_loop-IsNormal (c ∷ f) out n = normalize_loop-IsNormal f _ (IsNormal-round c out n)

-- A known flag is a friend at least.
known_friend : (c : ℕ) → is_some (flag_rank c) ≡ true → reaches 4 (flag_rank c) ≡ true
unfolding flag_rank index_byte reaches
known_friend c h = ground arith

friend_of_known : (out : Text) → AllKnown out → out ≢ [] → holds_rank out 4 ≡ true
unfolding holds_rank
friend_of_known [] h n = absurd (n refl)
friend_of_known (c ∷ out) h n = ground (arith, known_friend c h.0)

friend_lem : (f : Text) → has_flag f flag_friend ≡ holds_rank f 4
unfolding has_flag flag_rank index_byte
friend_lem f = refl

-- A flag set grants by the ranks that it holds.
has_flag_of_ranks :
    (f g : Text) (want : ℕ)
    → ((wr : ℕ) → holds_rank f wr ≡ holds_rank g wr)
    → has_flag f want ≡ has_flag g want
unfolding has_flag
has_flag_of_ranks f g want h = go (flag_rank want) refl
  where
    go : (r : Option ℕ) → flag_rank want ≡ r → has_flag f want ≡ has_flag g want
    go none e = rw (e, has_flag)
    go (some r) e = rw (e, has_flag) (h r)

none_held : (f : Text) → holds_rank [] 4 ≡ holds_rank f 4 → holds_rank f 4 ≡ true → ⊥
unfolding holds_rank
none_held f e h = cc

some_held :
    (f g : Text)
    → holds_rank g 4 ≡ true
    → holds_rank g 4 ≡ holds_rank f 4
    → holds_rank f 4 ≡ false
    → ⊥
some_held f g k e h = cc

kept_ranks : (f : Text) (wr : ℕ) → holds_rank (normalize_loop f []) wr ≡ holds_rank f wr
unfolding holds_rank
kept_ranks f wr = holds_rank-normalize_loop f [] wr

-- A flag set with a known flag in it is replaced by known flags, each once, that grant exactly
-- what it grants; a flag set without one is replaced by the default.
pub normalize_flags_lem :
    (f def : Text)
    → (has_flag f flag_friend ≡ true
        → IsNormal (normalize_flags f def)
          × ((want : ℕ) → has_flag (normalize_flags f def) want ≡ has_flag f want))
      × (has_flag f flag_friend ≡ false → normalize_flags f def ≡ def)
unfolding normalize_flags
normalize_flags_lem f def = rw (friend_lem f) (go (normalize_loop f []) refl)
  where
    normal : IsNormal (normalize_loop f [])
    normal = normalize_loop-IsNormal f [] (record { known = tt; once = tt })

    go :
        (out : Text)
        → normalize_loop f [] ≡ out
        → (holds_rank f 4 ≡ true
            → IsNormal (normalize_flags f def)
              × ((want : ℕ) → has_flag (normalize_flags f def) want ≡ has_flag f want))
          × (holds_rank f 4 ≡ false → normalize_flags f def ≡ def)
    go [] e = (λ h. absurd (none_held f (rw e at (kept_ranks f 4)) h), λ _. rw (e, normalize_flags))
    go (c ∷ out) e = (
      λ h.
          rw (e, normalize_flags)
            (
              rw e at normal,
              λ want. has_flag_of_ranks (c ∷ out) f want (λ wr. rw e at (kept_ranks f wr)),
            ),
      λ h. absurd (
          some_held f (c ∷ out) (friend_of_known (c ∷ out) (rw e at normal).known (λ q. cc))
            (rw e at (kept_ranks f 4)) h),
    )
