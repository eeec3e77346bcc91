-- ===== src/State/Fields.antt =====
-- What each write of internal/state/state.go shows to each read: hash fields, strings and scores.
use annoybots.Base.{
  ◌&&◌, ◌≡◌, refl, [], Text, arith, lookup, insert, delete, lookup-insert, lookup-delete, or_zero,
  text_eq, text_eq_iff, if◌then◌else◌,
}
use annoybots.Base.Int.{ℤ, pos, add64}
use annoybots.State.{
  MemStore, z_incr, z_score, z_rem, h_incr, h_set, h_get_all, set_str, get_str, del,
}

-- A field of a hash, 0 where it is missing.
unfoldable pub field : MemStore → Text → Text → ℤ
field m key f = or_zero (pos 0) (lookup f (h_get_all m key))

module _ (m : MemStore) (key k : Text) where
  pub field-h_set :
      (f g : Text) (v : ℤ)
      → field (h_set m key f v) k g ≡ (if text_eq key k && text_eq f g then v else field m k g)
  unfolding field h_set h_get_all
  field-h_set f g v = ground (
    arith,
    text_eq_iff key k,
    lookup-insert key k (insert f v (or_zero [] (lookup key m.hashes))) m.hashes,
    lookup-insert f g v (or_zero [] (lookup key m.hashes)),
  )

  pub field-h_incr :
      (f g : Text) (d : ℤ)
      → field (h_incr m key f d).0 k g
        ≡ (if text_eq key k && text_eq f g then add64 (field m key f) d else field m k g)
  unfolding field h_incr h_get_all
  field-h_incr f g d = ground (
    arith,
    text_eq_iff key k,
    lookup-insert key k (insert f (add64 (field m key f) d) (or_zero [] (lookup key m.hashes)))
        m.hashes,
    lookup-insert f g (add64 (field m key f) d) (or_zero [] (lookup key m.hashes)),
  )

  pub field-set_str : (v g : Text) → field (set_str m key v) k g ≡ field m k g
  unfolding field set_str h_get_all
  field-set_str v g = refl

  pub field-del :
      (g : Text) → field (del m key) k g ≡ (if text_eq key k then pos 0 else field m k g)
  unfolding field del h_get_all lookup
  field-del g = ground (arith, lookup-delete key k m.hashes)

  pub field-z_incr : (e g : Text) (d : ℤ) → field (z_incr m key e d).0 k g ≡ field m k g
  unfolding field z_incr h_get_all
  field-z_incr e g d = refl

  pub get_str-set_str :
      (v : Text) → get_str (set_str m key v) k ≡ (if text_eq key k then v else get_str m k)
  unfolding get_str set_str
  get_str-set_str v = ground (arith, lookup-insert key k v m.strs)

  pub get_str-del : get_str (del m key) k ≡ (if text_eq key k then [] else get_str m k)
  unfolding get_str del
  get_str-del = ground (arith, lookup-delete key k m.strs)

  pub get_str-h_set : (f : Text) (v : ℤ) → get_str (h_set m key f v) k ≡ get_str m k
  unfolding get_str h_set
  get_str-h_set f v = refl

  pub get_str-h_incr : (f : Text) (d : ℤ) → get_str (h_incr m key f d).0 k ≡ get_str m k
  unfolding get_str h_incr
  get_str-h_incr f d = refl

  pub z_score-z_incr :
      (e g : Text) (d : ℤ)
      → z_score (z_incr m key e d).0 k g
        ≡ (if text_eq key k && text_eq e g then add64 (z_score m key e) d else z_score m k g)
  unfolding z_score z_incr
  z_score-z_incr e g d = ground (
    arith,
    text_eq_iff key k,
    lookup-insert key k (insert e (add64 (z_score m key e) d) (or_zero [] (lookup key m.zsets)))
        m.zsets,
    lookup-insert e g (add64 (z_score m key e) d) (or_zero [] (lookup key m.zsets)),
  )

  pub z_score-z_rem :
      (e g : Text)
      → z_score (z_rem m key e) k g
        ≡ (if text_eq key k && text_eq e g then pos 0 else z_score m k g)
  unfolding z_score z_rem lookup
  z_score-z_rem e g = ground (
    arith,
    text_eq_iff key k,
    lookup-insert key k (delete e (or_zero [] (lookup key m.zsets))) m.zsets,
    lookup-delete e g (or_zero [] (lookup key m.zsets)),
  )

  pub z_score-del :
      (g : Text) → z_score (del m key) k g ≡ (if text_eq key k then pos 0 else z_score m k g)
  unfolding z_score del lookup
  z_score-del g = ground (arith, lookup-delete key k m.zsets)

  pub z_score-h_set : (f g : Text) (v : ℤ) → z_score (h_set m key f v) k g ≡ z_score m k g
  unfolding z_score h_set
  z_score-h_set f g v = refl

  pub z_score-h_incr : (f g : Text) (d : ℤ) → z_score (h_incr m key f d).0 k g ≡ z_score m k g
  unfolding z_score h_incr
  z_score-h_incr f g d = refl

-- The value that an increment returns is the one it stores.
pub h_incr-field :
    (m : MemStore) (key f : Text) (d : ℤ) → (h_incr m key f d).1 ≡ add64 (field m key f) d
unfolding h_incr field h_get_all
h_incr-field m key f d = refl
