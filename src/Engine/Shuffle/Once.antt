-- ===== src/Engine/Shuffle/Once.antt =====
-- What nextFromBag of internal/engine/shuffle.go deals.
use annoybots.Base.{
  ℕ, zero, suc, ◌+◌, ◌≤◌, ◌≡◌, ◌≢◌, sym, ap, ◌∙◌, refl, inl, inr, [], ◌∷◌, ◌++◌, List, Option, none,
  some, Text, arith, lookup, insert, lookup-insert, or_zero, text_eq_refl, length, ltb,
  if◌then◌else◌, List-cases,
}
use annoybots.Engine.Shuffle.{
  Bags, count_up, last_of, but_last, swap_ends, turned, filled, next_from_bag, deal,
}
use annoybots.Engine.Shuffle.Occurrences.{occ-append, occ-count_up, occ-last_of, occ-turned, occ}

-- A bag has no line twice, and not the line dealt last.
pub record IsDealing (b : Bags) (key : Text) : Type 0 where
  pub once : (k : ℕ) → occ k (or_zero [] (lookup key b.bags)) ≤ 1
  pub apart : (l : ℕ) → lookup key b.last_pick ≡ some l → occ l (or_zero [] (lookup key b.bags)) ≡ 0

occ-last : (y : ℕ) (ys : List ℕ) → 1 ≤ occ (last_of y ys) (y ∷ ys)
unfolding occ
occ-last y ys = ground (
  arith,
  occ-last_of (last_of y ys) y ys,
  occ-append (last_of y ys) (but_last y ys) (last_of y ys ∷ []),
)

-- The head of a fresh bag of two lines or more is not the line dealt last.
turned_apart :
    (n l idx : ℕ) (f rest : List ℕ)
    → 2 ≤ n
    → ((k : ℕ) → occ k f ≤ 1)
    → occ 0 f ≡ 1
    → occ 1 f ≡ 1
    → turned n (some l) f ≡ idx ∷ rest
    → idx ≢ l
unfolding turned occ swap_ends
turned_apart n l idx [] rest two once zero_in one_in e = ground arith
turned_apart n l idx (x ∷ []) rest two once zero_in one_in e = ground arith
turned_apart n l idx (x ∷ (y ∷ ys)) rest two once zero_in one_in e =
    λ same. ground (arith, same, e, once x, occ-last y ys)

module _ (mix : List ℕ → List ℕ) (mixes : (k : ℕ) (xs : List ℕ) → occ k (mix xs) ≡ occ k xs) where
  occ-filled :
      (k n : ℕ) (last : Option ℕ) → occ k (filled mix [] n last) ≡ (if ltb k n then 1 else 0)
  unfolding filled
  occ-filled k n last =
      ground (
        arith,
        occ-turned k n last (mix (count_up 0 n)),
        mixes k (count_up 0 n),
        occ-count_up k 0 n,
      )

  filled_once :
      (bag : List ℕ) (n : ℕ) (last : Option ℕ)
      → ((k : ℕ) → occ k bag ≤ 1)
      → (k : ℕ) → occ k (filled mix bag n last) ≤ 1
  unfolding filled
  filled_once [] n last once k = ground (arith, occ-filled k n last)
  filled_once (x ∷ xs) n last once k = once k

  filled_apart :
      (bag rest : List ℕ) (n l idx : ℕ)
      → 2 ≤ n
      → ((k : ℕ) → occ k bag ≤ 1)
      → occ l bag ≡ 0
      → filled mix bag n (some l) ≡ idx ∷ rest
      → idx ≢ l
  unfolding filled occ
  filled_apart [] rest n l idx two once out e =
      turned_apart n l idx (mix (count_up 0 n)) rest two
        (λ k. ground (arith, mixes k (count_up 0 n), occ-count_up k 0 n))
        (ground (arith, mixes 0 (count_up 0 n), occ-count_up 0 0 n))
        (ground (arith, mixes 1 (count_up 0 n), occ-count_up 1 0 n)) e
  filled_apart (x ∷ xs) rest n l idx two once out e = λ same. ground (arith, same, e, out)

  filled-cons :
      (x : ℕ) (xs : List ℕ) (n : ℕ) (last : Option ℕ) → filled mix (x ∷ xs) n last ≡ x ∷ xs
  unfolding filled
  filled-cons x xs n last = refl

  filled_some : (bag : List ℕ) (n : ℕ) (last : Option ℕ) → 1 ≤ n → filled mix bag n last ≢ []
  unfolding filled occ
  filled_some [] n last some_n e = ground (arith, occ-filled 0 n last, ap (occ 0) e)
  filled_some (x ∷ xs) n last some_n e = ground (arith, e)

  dealt :
      (b : Bags) (key : Text) (n idx : ℕ) (rest : List ℕ)
      → 1 ≤ n
      → filled mix (or_zero [] (lookup key b.bags)) n (lookup key b.last_pick) ≡ idx ∷ rest
      → next_from_bag mix b key n
        ≡ (record { bags = insert key rest b.bags; last_pick = insert key idx b.last_pick }, idx)
  unfolding next_from_bag
  dealt b key zero idx rest n e = ground arith
  dealt b key (suc n) idx rest some_n e = ground (arith, e)

  head_out : (idx : ℕ) (rest : List ℕ) → ((k : ℕ) → occ k (idx ∷ rest) ≤ 1) → occ idx rest ≡ 0
  unfolding occ
  head_out idx rest once = ground (arith, once idx)

  tail_once :
      (idx : ℕ) (rest : List ℕ) → ((k : ℕ) → occ k (idx ∷ rest) ≤ 1) → (k : ℕ) → occ k rest ≤ 1
  unfolding occ
  tail_once idx rest once k = ground (arith, once k)

  dealt-IsDealing :
      (b : Bags) (key : Text) (idx : ℕ) (rest : List ℕ)
      → ((k : ℕ) → occ k (idx ∷ rest) ≤ 1)
      → IsDealing
          (record { bags = insert key rest b.bags; last_pick = insert key idx b.last_pick })
          key
  dealt-IsDealing b key idx rest once = record {
    once = λ k.
        ground
          (arith, lookup-insert key key rest b.bags, text_eq_refl key, tail_once idx rest once k);
    apart = λ l at. ground (
      arith,
      at,
      lookup-insert key key rest b.bags,
      lookup-insert key key idx b.last_pick,
      text_eq_refl key,
      head_out idx rest once,
    );
  }

-- If the shuffle only reorders, the pool has two lines or more, and the bag has no line twice and
-- not the line dealt last, then the next line is not the one before it, also across two shuffles,
-- and the bag stays like this.
pub next_from_bag-apart :
    (mix : List ℕ → List ℕ) (b : Bags) (key : Text) (n : ℕ)
    → ((k : ℕ) (xs : List ℕ) → occ k (mix xs) ≡ occ k xs)
    → 2 ≤ n
    → IsDealing b key
    → let next = next_from_bag mix b key n in
      ((l : ℕ) → lookup key b.last_pick ≡ some l → next.1 ≢ l)
      × (lookup key next.0.last_pick ≡ some next.1)
      × IsDealing next.0 key
next_from_bag-apart mix b key n mixes two v =
    let bag = or_zero [] (lookup key b.bags) in
    let last = lookup key b.last_pick in
    elim (List-cases (filled mix bag n last)) [
      | inl e ↦ elim (filled_some mix mixes bag n last (omega (arith, two)) e) [ ]
      | inr ((idx, rest), e) ↦
          let once : (k : ℕ) → occ k (idx ∷ rest) ≤ 1 =
            λ k. ground (arith, ap (occ k) e, filled_once mix mixes bag n last v.once k) in
          rw (dealt mix mixes b key n idx rest (omega (arith, two)) e) (
            λ l at.
                filled_apart mix mixes bag rest n l idx two v.once (v.apart l at)
                  (ap (filled mix bag n) (sym at) ∙ e),
            ground (arith, lookup-insert key key idx b.last_pick, text_eq_refl key),
            dealt-IsDealing mix mixes b key idx rest once,
          )
    ]

length-but_last : (x : ℕ) (xs ys : List ℕ) → length (but_last x xs ++ ys) ≡ length xs + length ys
unfolding but_last
length-but_last x [] ys = omega arith
length-but_last x (y ∷ xs) ys = omega (arith, length-but_last y xs ys)

length-turned : (n : ℕ) (last : Option ℕ) (f : List ℕ) → length (turned n last f) ≡ length f
unfolding turned swap_ends
length-turned n none f = refl
length-turned n (some last) [] = refl
length-turned n (some last) (x ∷ []) = ground arith
length-turned n (some last) (x ∷ (y ∷ ys)) = ground (arith, length-but_last y ys (x ∷ []))

length-count_up : (i n : ℕ) → length (count_up i n) ≡ n
unfolding count_up
length-count_up i zero = refl
length-count_up i (suc n) = omega (arith, length-count_up (suc i) n)

module _ (mix : List ℕ → List ℕ) (mixes : (k : ℕ) (xs : List ℕ) → occ k (mix xs) ≡ occ k xs) where
  deal_bag :
      (b : Bags) (key : Text) (n : ℕ) (xs : List ℕ)
      → 1 ≤ n
      → or_zero [] (lookup key b.bags) ≡ xs
      → deal mix b key n (length xs) ≡ xs
  unfolding deal
  deal_bag b key n [] some_n e = refl
  deal_bag b key n (x ∷ xs) some_n e =
      let after : Bags = record {
        bags = insert key xs b.bags;
        last_pick = insert key x b.last_pick;
      } in
      let next = dealt mix mixes b key n x xs some_n (full e) in
      rw next (
        ap (λ (ys : List ℕ). x ∷ ys)
          (deal_bag after key n xs some_n
            (ground (arith, lookup-insert key key xs b.bags, text_eq_refl key))))
    where
      full :
          or_zero [] (lookup key b.bags) ≡ x ∷ xs
          → filled mix (or_zero [] (lookup key b.bags)) n (lookup key b.last_pick) ≡ x ∷ xs
      full f =
          ap (λ (bag : List ℕ). filled mix bag n (lookup key b.last_pick)) f
          ∙ filled-cons mix mixes x xs n (lookup key b.last_pick)

fresh_deal :
    (mix : List ℕ → List ℕ) (mixes : (k : ℕ) (xs : List ℕ) → occ k (mix xs) ≡ occ k xs) (b : Bags)
    (key : Text) (n m idx : ℕ) (rest : List ℕ)
    → 1 ≤ n
    → or_zero [] (lookup key b.bags) ≡ []
    → filled mix [] n (lookup key b.last_pick) ≡ idx ∷ rest
    → length rest ≡ m
    → deal mix b key n (suc m) ≡ idx ∷ rest
unfolding deal
fresh_deal mix mixes b key n m idx rest some_n empty e l =
    let after : Bags = record {
      bags = insert key rest b.bags;
      last_pick = insert key idx b.last_pick;
    } in
    let full = ap (λ (bag : List ℕ). filled mix bag n (lookup key b.last_pick)) empty ∙ e in
    rw (dealt mix mixes b key n idx rest some_n full) (
      ap (λ (ys : List ℕ). idx ∷ ys)
        (ap (deal mix after key n) (sym l)
          ∙ deal_bag mix mixes after key n rest some_n
              (ground (arith, lookup-insert key key rest b.bags, text_eq_refl key))))

-- If the shuffle only reorders, the n lines that are dealt from an empty bag are each line of the
-- pool once, whatever line was dealt before.
pub deal-once :
    (mix : List ℕ → List ℕ) (b : Bags) (key : Text) (n k : ℕ)
    → ((j : ℕ) (xs : List ℕ) → occ j (mix xs) ≡ occ j xs)
    → ((xs : List ℕ) → length (mix xs) ≡ length xs)
    → 1 ≤ n
    → or_zero [] (lookup key b.bags) ≡ []
    → occ k (deal mix b key n n) ≡ (if ltb k n then 1 else 0)
unfolding filled
deal-once mix b key zero k mixes long some_n empty = ground arith
deal-once mix b key (suc m) k mixes long some_n empty =
    let last = lookup key b.last_pick in
    elim (List-cases (filled mix [] (suc m) last)) [
      | inl e ↦ elim (filled_some mix mixes [] (suc m) last some_n e) [ ]
      | inr ((idx, rest), e) ↦
          let l : length rest ≡ m = omega (
            arith,
            ap (λ (xs : List ℕ). length xs) e,
            length-turned (suc m) last (mix (count_up 0 (suc m))),
            long (count_up 0 (suc m)),
            length-count_up 0 (suc m),
          ) in
          ap (occ k) (fresh_deal mix mixes b key (suc m) m idx rest some_n empty e l)
          ∙ ap (occ k) (sym e)
          ∙ occ-filled mix mixes k (suc m) last
    ]
