-- ===== src/Base/Strings.antt =====
-- Go strings of ASCII text, as lists of bytes, with what the program uses of package strings.
use Prim.Native.Nat.{ℕ, ◌+◌, ◌-◌, ◌*◌}
use Prim.Native.Char.{code}
use Prim.Native.String.{String}
use mathlib.Core.Path.{◌≡◌, refl}
use mathlib.Core.Logic.{◌↔◌, inl, inr}
use mathlib.Core.Bool.{Bool, true, false, ◌&&◌, ◌||◌}
use mathlib.Core.List.{List, [], ◌∷◌, ◌++◌, map, reverse}
use native.Mathlib.Omega.{arith}
use annoybots.Base.Int.{ℤ, pos, negsuc, neg, two63, pos_part, neg_part, IsInt64}
use mathlib.Core.Option.{Option, none, some}
use annoybots.Base.Tests.{Bool-cases, ltb, leb, ◌==◌, if◌then◌else◌}

abbrev pub Text : Type 0
Text = List ℕ

-- The bytes of a literal.
abbrev pub codes : String → Text
codes String.[] = []
codes (String.◌∷◌ c s) = code c ∷ codes s

unfoldable pub text_eq : Text → Text → Bool
text_eq [] [] = true
text_eq [] (y ∷ ys) = false
text_eq (x ∷ xs) [] = false
text_eq (x ∷ xs) (y ∷ ys) = x == y && text_eq xs ys

pub text_eq_sound : (s t : Text) → text_eq s t ≡ true → s ≡ t
unfolding text_eq
text_eq_sound [] [] h = refl
text_eq_sound [] (y ∷ ys) h = cc
text_eq_sound (x ∷ xs) [] h = cc
text_eq_sound (x ∷ xs) (y ∷ ys) h = ground (arith, text_eq_sound xs ys)

pub text_eq_refl : (s : Text) → text_eq s s ≡ true
unfolding text_eq
text_eq_refl [] = refl
text_eq_refl (x ∷ xs) = ground (arith, text_eq_refl xs)

pub text_eq_iff : (s t : Text) → (text_eq s t ≡ true) ↔ (s ≡ t)
text_eq_iff s t = (text_eq_sound s t, λ e. rw e (text_eq_refl t))

pub text_eq-append : (p s t : Text) → text_eq (p ++ s) (p ++ t) ≡ text_eq s t
unfolding text_eq
text_eq-append [] s t = refl
text_eq-append (x ∷ p) s t = ground (arith, text_eq-append p s t)

-- `strings.ToLower` on one ASCII byte and on a text.
unfoldable pub lower_byte : ℕ → ℕ
lower_byte c = if leb b'A' c && leb c b'Z' then c + 32 else c

unfoldable pub to_lower : Text → Text
to_lower = map lower_byte

pub lower_byte_idem : (c : ℕ) → lower_byte (lower_byte c) ≡ lower_byte c
unfolding lower_byte
lower_byte_idem c = ground arith

pub to_lower_idem : (s : Text) → to_lower (to_lower s) ≡ to_lower s
unfolding to_lower
to_lower_idem [] = refl
to_lower_idem (c ∷ s) = cc (lower_byte_idem c, to_lower_idem s)

-- `strings.EqualFold`, which on ASCII compares the lower-case forms.
unfoldable pub equal_fold : Text → Text → Bool
equal_fold s t = text_eq (to_lower s) (to_lower t)

-- ASCII white space, as `strings.Fields` and `strings.TrimSpace` read it.
unfoldable pub is_space : ℕ → Bool
is_space c = c == 32 || (leb 9 c && leb c 13)

unfoldable pub trim_left : Text → Text
trim_left [] = []
trim_left (c ∷ s) = if is_space c then trim_left s else c ∷ s

unfoldable pub trim_space : Text → Text
trim_space s = reverse (trim_left (reverse (trim_left s)))

-- The words of a text: `word` holds the bytes of the open word.
unfoldable pub fields_from : Text → Text → List Text
fields_from [] [] = []
fields_from (w ∷ ws) [] = (w ∷ ws) ∷ []
fields_from [] (c ∷ s) = fields_from (if is_space c then [] else c ∷ []) s
fields_from (w ∷ ws) (c ∷ s) =
    let split = (w ∷ ws) ∷ fields_from [] s in
    let grow = fields_from (w ∷ ws ++ c ∷ []) s in if is_space c then split else grow

-- `strings.Fields`.
unfoldable pub fields : Text → List Text
unfolding fields_from
fields s = fields_from [] s

-- `strings.Join(l, " ")`.
unfoldable pub join_space : List Text → Text
join_space [] = []
join_space (w ∷ []) = w
join_space (w ∷ (v ∷ ws)) = w ++ (32 ∷ join_space (v ∷ ws))

-- The value of a text of decimal digits, `none` where another byte stands in it.
unfoldable pub digits_from : ℕ → Text → Option ℕ
digits_from n [] = some n
digits_from n (c ∷ s) =
    if leb b'0' c && leb c b'9' then digits_from (n * 10 + (c - b'0')) s else none

unfoldable pub signed : ℤ → ℕ → Option ℤ
signed z bound = if ltb bound (pos_part z + neg_part z) then none else some z

-- `strconv.ParseInt(s, 10, 64)` and `strconv.Atoi`, `none` for their errors.
unfoldable pub parse_int : Text → Option ℤ
parse_int [] = none
parse_int (c ∷ []) = if leb b'0' c && leb c b'9' then some (pos (c - b'0')) else none
parse_int (c ∷ (d ∷ s)) =
    if c == b'-'
    then elim (digits_from 0 (d ∷ s)) [ none ↦ none | some n ↦ signed (neg (pos n)) two63 ]
    else if c == b'+'
    then elim (digits_from 0 (d ∷ s)) [ none ↦ none | some n ↦ signed (pos n) (two63 - 1) ]
    else elim (digits_from 0 (c ∷ (d ∷ s))) [ none ↦ none | some n ↦ signed (pos n) (two63 - 1) ]

one_digit : (c : ℕ) (z : ℤ) → parse_int (c ∷ []) ≡ some z → IsInt64 z
unfolding parse_int
one_digit c (pos n) h = ground arith
one_digit c (negsuc n) h = ground arith

above : (n : ℕ) (x : ℤ) → signed (pos n) (two63 - 1) ≡ some x → IsInt64 x
unfolding signed
above n (pos k) h = ground arith
above n (negsuc k) h = ground arith

below : (n : ℕ) (x : ℤ) → signed (neg (pos n)) two63 ≡ some x → IsInt64 x
unfolding signed
below n x h = ground arith

none-some : (x : ℤ) → none ≡ some x → IsInt64 x
none-some (pos k) h = ground arith
none-some (negsuc k) h = ground arith

above_of :
    (o : Option ℕ) (x : ℤ)
    → (elim o [ none ↦ none | some n ↦ signed (pos n) (two63 - 1) ]) ≡ some x
    → IsInt64 x
above_of none x h = none-some x h
above_of (some n) x h = above n x h

below_of :
    (o : Option ℕ) (x : ℤ)
    → (elim o [ none ↦ none | some n ↦ signed (neg (pos n)) two63 ]) ≡ some x
    → IsInt64 x
below_of none x h = none-some x h
below_of (some n) x h = below n x h

-- A text that parses is an int64.
pub parse_int-IsInt64 : (s : Text) (z : ℤ) → parse_int s ≡ some z → IsInt64 z
unfolding parse_int
parse_int-IsInt64 [] z h = none-some z h
parse_int-IsInt64 (c ∷ []) z h = one_digit c z h
parse_int-IsInt64 (c ∷ (d ∷ s)) z h = elim (Bool-cases (c == b'-')) [
  | inl minus ↦ below_of (digits_from 0 (d ∷ s)) z (rw minus at h)
  | inr other ↦ elim (Bool-cases (c == b'+')) [
    | inl plus ↦ above_of (digits_from 0 (d ∷ s)) z (rw (other, plus) at h)
    | inr bare ↦ above_of (digits_from 0 (c ∷ (d ∷ s))) z (rw (other, bare) at h)
  ]
]
