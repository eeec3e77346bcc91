-- ===== src/IdleRpg/Roam/Bounds.antt =====
-- Where moveOnMap of internal/idlerpg/world.go leaves a character.
use annoybots.Base.{
  ℕ, zero, suc, subst, All, ◌-◌, ◌≡◌, ◌<◌, ◌≤◌, true, ◌||◌, [], ◌∷◌, List, Option, some, Text,
  text_eq, text_eq_refl, arith, get_elem?, Bool-cases, Option-cases, inl, inr, ◌⊎◌,
}
use annoybots.Base.Int.{
  ℤ, pos, negsuc, ltb_ℤ, eq_ℤ, add64, sub64, wrap64, ◌≤ℤ◌, ◌+ℤ◌, ◌-ℤ◌, pos_part, neg_part,
}
use annoybots.State.{MemStore, h_set}
use annoybots.IdleRpg.{sheet_key}
use annoybots.IdleRpg.Sheet.{stat, stat-h_set}
use annoybots.IdleRpg.Quest.{step_toward}
use annoybots.IdleRpg.Town.{Town, towns, mx, my, dest}
use annoybots.IdleRpg.Roam.{clamp_world, place, bound_for, stride, drift, travel, move_on_map}

-- A coordinate on the map.
abbrev pub IsInside : ℤ → Type 0
IsInside v = (pos 1 ≤ℤ v) × (v ≤ℤ pos 500)

-- A step of a compass, for a stride of 2 or more, goes no further than the way that is left, on each
-- axis.
abbrev pub IsShort : (ℤ → ℤ → ℤ → Option (ℤ × ℤ)) → Type 0
IsShort compass =
    (step dx dy a b : ℤ)
    → pos 2 ≤ℤ step
    → compass step dx dy ≡ some (a, b)
    → (pos_part a ≤ pos_part dx)
      × (neg_part a ≤ neg_part dx)
      × (pos_part b ≤ pos_part dy)
      × (neg_part b ≤ neg_part dy)

clamp_world-IsInside : (v : ℤ) → IsInside (clamp_world v)
unfolding clamp_world
clamp_world-IsInside v = ground arith

towards :
    (x t a : ℤ)
    → IsInside x
    → IsInside t
    → pos_part a ≤ pos_part (sub64 t x)
    → neg_part a ≤ neg_part (sub64 t x)
    → IsInside (add64 x a)
unfolding add64 sub64 wrap64 ◌+ℤ◌ ◌-ℤ◌
towards (pos x) (pos t) (pos a) h k p n = ground arith
towards (pos x) (pos t) (negsuc a) h k p n = ground arith
towards (negsuc x) t a h k p n = absurd (omega arith)
towards (pos x) (negsuc t) a h k p n = absurd (omega arith)

All-at :
    {A : Type 0} (P : A → Type 0) (xs : List A) (i : ℕ) (a : A)
    → All P xs
    → get_elem? xs i ≡ some a
    → P a
All-at P [] i a every h = absurd (cc h)
All-at P (x ∷ xs) zero a every h = subst P (cc h) every.0
All-at P (x ∷ xs) (suc i) a every h = All-at P xs i a every.1 h

abbrev Inside : Town → Type 0
Inside t = IsInside t.x × IsInside t.y

towns-Inside : All Inside towns
towns-Inside = omega arith

town-IsInside : (d : ℤ) (t : Town) → bound_for d ≡ some t → IsInside t.x × IsInside t.y
unfolding bound_for
town-IsInside d t h = elim (Bool-cases (ltb_ℤ (pos 0) d)) [
  | inl there ↦ All-at Inside towns (pos_part d - 1) t towns-Inside (rw there at h)
  | inr nowhere ↦ absurd (cc (rw nowhere at h))
]

stat-place :
    (m : MemStore) (key : Text) (x y : ℤ)
    → (stat (place m key x y) key mx ≡ x) × (stat (place m key x y) key my ≡ y)
unfolding place text_eq
stat-place m key x y =
    let m1 = h_set m (sheet_key key) mx x in
    (
      ground (arith, stat-h_set m1 key key my mx y, stat-h_set m key key mx mx x, text_eq_refl key),
      ground (arith, stat-h_set m1 key key my my y, text_eq_refl key),
    )

abbrev pub IsPlaced : MemStore → Text → Type 0
IsPlaced m key = IsInside (stat m key mx) × IsInside (stat m key my)

place-IsPlaced :
    (m : MemStore) (key : Text) (x y : ℤ) → IsInside x → IsInside y → IsPlaced (place m key x y) key
place-IsPlaced m key x y h k = let (ex, ey) = stat-place m key x y in (rw ex h, rw ey k)

stride-least : (m : MemStore) (key sky : Text) → pos 2 ≤ℤ stride m key sky
unfolding stride
stride-least m key sky = ground arith

module _ (compass : ℤ → ℤ → ℤ → Option (ℤ × ℤ)) (short : IsShort compass) where
  walk-IsInside :
      (step : ℤ) (at to : ℤ × ℤ)
      → pos 2 ≤ℤ step
      → IsInside at.0 × IsInside at.1
      → IsInside to.0 × IsInside to.1
      → IsInside (step_toward (compass step) at to).0.0
        × IsInside (step_toward (compass step) at to).0.1
  unfolding step_toward
  walk-IsInside step (x, y) (tx, ty) far h k =
      elim (Option-cases (compass step (sub64 tx x) (sub64 ty y))) [
        | inl there ↦ rw (there, step_toward) k
        | inr ((a, b), e) ↦
            let s = short step (sub64 tx x) (sub64 ty y) a b far e in
            rw (e, step_toward) (towards x tx a h.0 k.0 s.0 s.1, towards y ty b h.1 k.1 s.2 s.3)
      ]

  travel-IsPlaced :
      (m : MemStore) (key sky : Text) (t : Town)
      → IsPlaced m key
      → IsInside t.x × IsInside t.y
      → IsPlaced (travel compass m key sky t) key
  unfolding travel text_eq
  travel-IsPlaced m key sky t h k =
      let ((nx, ny), reached) =
        step_toward (compass (stride m key sky)) (stat m key mx, stat m key my) (t.x, t.y) in
      let (ix, iy) =
        walk-IsInside (stride m key sky) (stat m key mx, stat m key my) (t.x, t.y)
          (stride-least m key sky) h k in
      let walked = place-IsPlaced m key nx ny ix iy in
      let n = place m key nx ny in
      elim (Bool-cases reached) [
        | inr far ↦ rw (far, travel) walked
        | inl there ↦
            rw (there, travel)
              (rw
                (
                  stat-h_set n key key dest mx (pos 0),
                  stat-h_set n key key dest my (pos 0),
                  text_eq_refl key,
                )
                walked)
      ]

  -- A character on the map stays on it, whether it drifts or walks to a town, and one that was not
  -- placed yet is put on it: both coordinates are from 1 to 500 afterwards. The draws of a new place are
  -- below 500, and a step of the compass, for a stride of 2 or more, goes no further than the way that
  -- is left.
  pub move_on_map-IsPlaced :
      (m : MemStore) (key sky : Text) (dx dy : ℕ)
      → dx < 500
      → dy < 500
      → IsPlaced m key ⊎ ((eq_ℤ (stat m key mx) (pos 0) || eq_ℤ (stat m key my) (pos 0)) ≡ true)
      → IsPlaced (move_on_map compass m key sky dx dy) key
  unfolding move_on_map drift
  move_on_map-IsPlaced m key sky dx dy lx ly known =
      elim (Bool-cases (eq_ℤ (stat m key mx) (pos 0) || eq_ℤ (stat m key my) (pos 0))) [
        | inl new ↦
            rw (new, move_on_map)
              (place-IsPlaced m key _ _ (omega arith, omega arith) (omega arith, omega arith))
        | inr placed ↦
            let h : IsPlaced m key = elim known [
              | inl on ↦ on
              | inr off ↦ absurd (cc (off, placed))
            ] in
            elim (Option-cases (bound_for (stat m key dest))) [
              | inl idle ↦
                  rw (placed, idle, move_on_map)
                    (place-IsPlaced m key _ _ (clamp_world-IsInside _) (clamp_world-IsInside _))
              | inr (t, e) ↦
                  rw (placed, e, move_on_map) (travel-IsPlaced m key sky t h (town-IsInside _ t e))
            ]
      ]
