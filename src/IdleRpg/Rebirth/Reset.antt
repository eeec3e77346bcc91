-- ===== src/IdleRpg/Rebirth/Reset.antt =====
-- rebirth of internal/idlerpg/rebirth.go, on the sheet and on the board.
use annoybots.Base.{
  false, ◌&&◌, ◌≡◌, sym, subst, ◌∙◌, ◌⊎◌, refl, inl, inr, Text, arith, text_eq, text_eq_refl,
  if◌then◌else◌,
}
use annoybots.Base.Int.{ℤ, pos, negsuc, neg, ◌≤ℤ◌, ◌+ℤ◌, add64, add64_of_range}
use annoybots.State.{MemStore, h_incr, h_set, z_incr, z_score}
use annoybots.State.Fields.{
  field-z_incr, h_incr-field, z_score-z_incr, z_score-h_set, z_score-h_incr,
}
use annoybots.IdleRpg.{sheet_key, board_key}
use annoybots.IdleRpg.Sheet.{stat, stat-h_set, stat-h_incr}
use annoybots.IdleRpg.Quest.{ttl}
use annoybots.IdleRpg.Rebirth.{level, reb, reb_speed, ttl_for_reb, reset, rebirth, reborn}

-- The board shows each player's level.
abbrev pub IsShown : MemStore → Type 0
IsShown m = (k : Text) → z_score m board_key k ≡ stat m k level

stat-z_incr :
    (m : MemStore) (e k g : Text) (d : ℤ) → stat (z_incr m board_key e d).0 k g ≡ stat m k g
unfolding stat
stat-z_incr m e k g d = field-z_incr m board_key (sheet_key k) e g d

module _ (ttl_for : ℤ → ℤ) (m : MemStore) (key : Text) where
  pub stat-reset :
      (k g : Text)
      → stat (reset ttl_for m key) k g ≡ (
          if text_eq key k && text_eq ttl g
          then ttl_for_reb ttl_for (pos 0) (h_incr m (sheet_key key) reb (pos 1)).1
          else if text_eq key k && text_eq level g
          then pos 0
          else if text_eq key k && text_eq reb g
          then add64 (stat m key reb) (pos 1)
          else stat m k g)
  unfolding reset
  stat-reset k g =
      let m1 = (h_incr m (sheet_key key) reb (pos 1)).0 in
      let m2 = h_set m1 (sheet_key key) level (pos 0) in
      let t = ttl_for_reb ttl_for (pos 0) (h_incr m (sheet_key key) reb (pos 1)).1 in
      let m3 = h_set m2 (sheet_key key) ttl t in
      stat-z_incr m3 key k g (neg (stat m key level))
      ∙ ground (
        arith,
        stat-h_set m2 key k ttl g t,
        stat-h_set m1 key k level g (pos 0),
        stat-h_incr m key k reb g (pos 1),
      )

  z_score-reset :
      (k : Text)
      → z_score (reset ttl_for m key) board_key k ≡ (
          if text_eq key k
          then add64 (z_score m board_key key) (neg (stat m key level))
          else z_score m board_key k)
  unfolding reset
  z_score-reset k =
      let m1 = (h_incr m (sheet_key key) reb (pos 1)).0 in
      let m2 = h_set m1 (sheet_key key) level (pos 0) in
      let t = ttl_for_reb ttl_for (pos 0) (h_incr m (sheet_key key) reb (pos 1)).1 in
      let m3 = h_set m2 (sheet_key key) ttl t in
      let same : (j : Text) → z_score m3 board_key j ≡ z_score m board_key j = λ j.
        z_score-h_set m2 (sheet_key key) board_key ttl j t
        ∙ z_score-h_set m1 (sheet_key key) board_key level j (pos 0)
        ∙ z_score-h_incr m (sheet_key key) board_key reb j (pos 1) in
      ground (
        arith,
        text_eq_refl board_key,
        z_score-z_incr m3 board_key board_key key k (neg (stat m key level)),
        same k,
        same key,
      )

cancel : (x : ℤ) → x +ℤ neg x ≡ pos 0
unfolding ◌+ℤ◌
cancel (pos n) = ground arith
cancel (negsuc n) = ground arith

add64-neg : (x : ℤ) → add64 x (neg x) ≡ pos 0
add64-neg x = add64_of_range x (neg x) (ground (arith, cancel x)) ∙ cancel x

rebirth_inv :
    (ttl_for : ℤ → ℤ) (m : MemStore) (key : Text) (r : ℤ)
    → (rebirth ttl_for m key).1 ≡ reborn r
    → ((rebirth ttl_for m key).0 ≡ reset ttl_for m key)
      × (r ≡ (h_incr m (sheet_key key) reb (pos 1)).1)
unfolding rebirth
rebirth_inv ttl_for m key r h = ground arith

pub rebirth_cases :
    (ttl_for : ℤ → ℤ) (m : MemStore) (key : Text)
    → ((rebirth ttl_for m key).0 ≡ m) ⊎ ((rebirth ttl_for m key).0 ≡ reset ttl_for m key)
unfolding rebirth
rebirth_cases ttl_for m key = ground arith

level-ne-ttl : text_eq ttl level ≡ false
unfolding text_eq
level-ne-ttl = refl

reb-ne : (text_eq ttl reb ≡ false) × (text_eq level reb ≡ false)
unfolding text_eq
reb-ne = (refl, refl)

counted :
    (m : MemStore) (key : Text)
    → (h_incr m (sheet_key key) reb (pos 1)).1 ≡ add64 (stat m key reb) (pos 1)
unfolding stat
counted m key = h_incr-field m (sheet_key key) reb (pos 1)

at_least_half : (r : ℤ) → pos 50 ≤ℤ reb_speed r
unfolding reb_speed
at_least_half r = ground arith

others :
    (ttl_for : ℤ → ℤ) (m : MemStore) (key k g : Text)
    → (text_eq key k ≡ false)
      ⊎ (text_eq ttl g ≡ false) × (text_eq level g ≡ false) × (text_eq reb g ≡ false)
    → stat (reset ttl_for m key) k g ≡ stat m k g
others ttl_for m key k g n = ground (arith, stat-reset ttl_for m key k g, n)

reset-IsShown :
    (ttl_for : ℤ → ℤ) (m : MemStore) (key : Text) → IsShown m → IsShown (reset ttl_for m key)
reset-IsShown ttl_for m key v k = ground (
  arith,
  z_score-reset ttl_for m key k,
  stat-reset ttl_for m key k level,
  v k,
  v key,
  add64-neg (stat m key level),
  text_eq_refl level,
  level-ne-ttl,
)

-- A rebirth keeps the board in step with the levels. One that the bot announces counts the rebirth,
-- sets the level to 0, and leaves every other field but the clock, and every other player, alone;
-- the speed that it earns is never below half.
pub rebirth-IsShown :
    (ttl_for : ℤ → ℤ) (m : MemStore) (key : Text)
    → IsShown m
    → IsShown (rebirth ttl_for m key).0
      × ((r : ℤ)
          → (rebirth ttl_for m key).1 ≡ reborn r
          → (r ≡ add64 (stat m key reb) (pos 1))
            × (stat (rebirth ttl_for m key).0 key reb ≡ r)
            × (stat (rebirth ttl_for m key).0 key level ≡ pos 0)
            × (pos 50 ≤ℤ reb_speed r)
            × ((k g : Text)
                → (text_eq key k ≡ false)
                  ⊎ (text_eq ttl g ≡ false) × (text_eq level g ≡ false) × (text_eq reb g ≡ false)
                → stat (rebirth ttl_for m key).0 k g ≡ stat m k g))
rebirth-IsShown ttl_for m key v = (shown, λ r h. announced r h)
  where
    shown : IsShown (rebirth ttl_for m key).0
    shown = elim (rebirth_cases ttl_for m key) [
      | inl e ↦ subst IsShown (sym e) v
      | inr e ↦ subst IsShown (sym e) (reset-IsShown ttl_for m key v)
    ]

    announced :
        (r : ℤ)
        → (rebirth ttl_for m key).1 ≡ reborn r
        → (r ≡ add64 (stat m key reb) (pos 1))
          × (stat (rebirth ttl_for m key).0 key reb ≡ r)
          × (stat (rebirth ttl_for m key).0 key level ≡ pos 0)
          × (pos 50 ≤ℤ reb_speed r)
          × ((k g : Text)
              → (text_eq key k ≡ false)
                ⊎ (text_eq ttl g ≡ false) × (text_eq level g ≡ false) × (text_eq reb g ≡ false)
              → stat (rebirth ttl_for m key).0 k g ≡ stat m k g)
    announced r h =
        let (store, count) = rebirth_inv ttl_for m key r h in
        let one : r ≡ add64 (stat m key reb) (pos 1) = count ∙ counted m key in
        (
          one,
          rw (store, one)
              (ground (
                arith,
                stat-reset ttl_for m key key reb,
                text_eq_refl key,
                text_eq_refl reb,
                reb-ne,
              )),
          rw store (
              ground (
                arith,
                stat-reset ttl_for m key key level,
                text_eq_refl key,
                text_eq_refl level,
                level-ne-ttl,
              )),
          at_least_half r,
          λ k g n. rw store (others ttl_for m key k g n),
        )
