-- ===== src/Cooldown/Spacing.antt =====
-- Sequences of calls of Use in internal/cooldown/cooldown.go.
use annoybots.Base.{
  true, false, ◌&&◌, ◌≡◌, sym, subst, refl, inl, inr, [], ◌∷◌, List, Option, none, some, Text,
  arith, lookup, lookup-insert, text_eq, text_eq_sound, if◌then◌else◌, Option-cases, Bool-cases,
}
use annoybots.Base.Int.{ℤ, ◌-ℤ◌, ltb_ℤ}
use annoybots.Cooldown.{Last, ready, use_key, uses_of}

-- Each time is at least d after the one before it, and after t if there is one.
abbrev pub IsSpaced : ℤ → Option ℤ → List ℤ → Type 0
IsSpaced d o [] = Unit
IsSpaced d none (x ∷ xs) = IsSpaced d (some x) xs
IsSpaced d (some t) (x ∷ xs) = (ltb_ℤ (x -ℤ t) d ≡ false) × IsSpaced d (some x) xs

-- What a use does to the key and to the others.
pub use_key-ready :
    (m : Last) (key k : Text) (d now : ℤ)
    → ((use_key m key d now).1 ≡ ready m key d now)
      × (lookup k (use_key m key d now).0
          ≡ (if ready m key d now && text_eq key k then some now else lookup k m))
unfolding use_key ready
use_key-ready m key k d now = elim (Option-cases (lookup key m)) [
  | inl e ↦ ground (arith, e, lookup-insert key k now m)
  | inr (t, e) ↦ ground (arith, e, lookup-insert key k now m)
]

IsSpaced-on :
    (d now : ℤ) (o : Option ℤ) (m : Last) (key : Text) (xs : List ℤ)
    → lookup key m ≡ o
    → ready m key d now ≡ true
    → IsSpaced d (some now) xs
    → IsSpaced d o (now ∷ xs)
unfolding ready
IsSpaced-on d now none m key xs e r s = s
IsSpaced-on d now (some t) m key xs e r s = (ground (arith, e, r), s)

uses_nil : (k : Text) (d : ℤ) (m : Last) → uses_of k d m [] ≡ []
unfolding uses_of
uses_nil k d m = refl

uses_cons :
    (k : Text) (d : ℤ) (m : Last) (key : Text) (now : ℤ) (calls : List (Text × ℤ))
    → let rest = uses_of k d (use_key m key d now).0 calls in
      uses_of k d m ((key, now) ∷ calls)
      ≡ (if ready m key d now && text_eq key k then now ∷ rest else rest)
unfolding uses_of
uses_cons k d m key now calls = ground (arith, use_key-ready m key k d now)

counted :
    (k : Text) (d now : ℤ) (m : Last) (key : Text) (xs : List ℤ)
    → (ready m key d now && text_eq key k) ≡ true
    → IsSpaced d (some now) xs
    → IsSpaced d (lookup k m) (now ∷ xs)
counted k d now m key xs b s =
    let same : key ≡ k = text_eq_sound key k (ground (arith, b)) in
    subst (λ (j : Text). IsSpaced d (lookup j m) (now ∷ xs)) same
      (IsSpaced-on d now (lookup key m) m key xs refl (ground (arith, b)) s)

-- Whatever keys are used and when, the uses of one key that succeed are each at least the cooldown
-- after the one before it, the first one after the last use on record.
pub uses_of-IsSpaced :
    (k : Text) (d : ℤ) (m : Last) (calls : List (Text × ℤ))
    → IsSpaced d (lookup k m) (uses_of k d m calls)
uses_of-IsSpaced k d m [] = subst (IsSpaced d (lookup k m)) (sym (uses_nil k d m)) tt
uses_of-IsSpaced k d m ((key, now) ∷ calls) =
    let after = (use_key m key d now).0 in
    let later = uses_of k d after calls in
    let rest = uses_of-IsSpaced k d after calls in
    let cons = uses_cons k d m key now calls in
    let at = (use_key-ready m key k d now).1 in
    elim (Bool-cases (ready m key d now && text_eq key k)) [
      | inl b ↦
          let here : uses_of k d m ((key, now) ∷ calls) ≡ now ∷ later = ground (arith, cons, b) in
          let last : lookup k after ≡ some now = ground (arith, at, b) in
          subst (IsSpaced d (lookup k m)) (sym here)
            (counted k d now m key later b (subst (λ (o : Option ℤ). IsSpaced d o later) last rest))
      | inr b ↦
          let here : uses_of k d m ((key, now) ∷ calls) ≡ later = ground (arith, cons, b) in
          let last : lookup k after ≡ lookup k m = ground (arith, at, b) in
          subst (IsSpaced d (lookup k m)) (sym here)
            (subst (λ (o : Option ℤ). IsSpaced d o later) last rest)
    ]
