-- ===== src/IdleRpg/Guild/Seats.antt =====
-- How often a player sits in the guilds of a book of internal/idlerpg/guild.go, and the shape of
-- each guild.
use annoybots.Base.{
  List-cases, ap, sym, subst, ◌∙◌, ◌⊎◌, ℕ, suc, ◌+◌, ◌≤◌, ◌<◌, false, not, ◌≡◌, refl, inl, inr, [],
  ◌∷◌, ◌++◌, List, Option, none, some, Text, arith, lookup, insert, has as is_some, text_eq,
  text_eq_iff, text_eq_refl, length, keep, length-append, length-keep-le, if◌then◌else◌, leb,
  Option-cases, Bool-cases,
}
use annoybots.IdleRpg.Guild.{
  Guild, Book, is_member, guild_of, on_guild_of, on_slug, without_member, drop_member, found,
  enlist, max_size,
}

unfoldable pub count : Text → List Text → ℕ
count k [] = 0
count k (member ∷ rest) = if text_eq member k then suc (count k rest) else count k rest

unfoldable pub seats : Text → Book → ℕ
seats k [] = 0
seats k ((slug, g) ∷ b) = count k g.members + seats k b

pub count-append : (k : Text) (xs ys : List Text) → count k (xs ++ ys) ≡ count k xs + count k ys
unfolding count
count-append k [] ys = omega arith
count-append k (x ∷ xs) ys = ground (arith, count-append k xs ys)

is_member-count : (xs : List Text) (k : Text) → is_member xs k ≡ leb 1 (count k xs)
unfolding is_member count
is_member-count [] k = refl
is_member-count (x ∷ xs) k = ground (arith, is_member-count xs k)

count-keep :
    (k j : Text) (xs : List Text)
    → count j (keep (λ member. not (text_eq member k)) xs) ≡ (if text_eq k j then 0 else count j xs)
unfolding count
count-keep k j [] = ground arith
count-keep k j (x ∷ xs) =
    ground (arith, text_eq_iff x k, text_eq_iff k j, text_eq_iff x j, count-keep k j xs)

-- A player is in a guild exactly when the player has a seat.
pub guild_of-seats : (b : Book) (k : Text) → is_some (guild_of b k) ≡ leb 1 (seats k b)
unfolding guild_of seats
guild_of-seats [] k = refl
guild_of-seats ((slug, g) ∷ b) k = ground (arith, is_member-count g.members k, guild_of-seats b k)

pub seats-on_guild_of :
    (b : Book) (k j : Text) (f : Guild → Guild)
    → ((g : Guild) → (f g).members ≡ g.members)
    → seats j (on_guild_of b k f) ≡ seats j b
unfolding seats on_guild_of
seats-on_guild_of [] k j f same = refl
seats-on_guild_of ((slug, g) ∷ b) k j f same =
    ground (arith, same g, seats-on_guild_of b k j f same)

pub seats-enlist :
    (b : Book) (s k j : Text) (g : Guild)
    → lookup s b ≡ some g
    → seats j (on_slug b s (enlist k)) ≡ (if text_eq k j then suc (seats j b) else seats j b)
unfolding seats on_slug lookup count
seats-enlist [] s k j g e = ground arith
seats-enlist ((slug, h) ∷ b) s k j g e =
    ground (arith, count-append j h.members (k ∷ []), seats-enlist b s k j g)

pub seats-found :
    (b : Book) (s k j name : Text)
    → lookup s b ≡ none
    → seats j (insert s (found name k) b) ≡ (if text_eq k j then suc (seats j b) else seats j b)
unfolding seats insert lookup found count
seats-found [] s k j name e = ground arith
seats-found ((slug, h) ∷ b) s k j name e = ground (arith, seats-found b s k j name)

members-without_member :
    (k : Text) (g : Guild) (o : Option Guild)
    → without_member k g ≡ o
    → keep (λ member. not (text_eq member k)) g.members ≡ elim o [ none ↦ [] | some h ↦ h.members ]
unfolding without_member
members-without_member k g o e =
    elim (List-cases (keep (λ member. not (text_eq member k)) g.members)) [
      | inl n ↦ ground (arith, n, sym e)
      | inr ((first, rest), n) ↦ ground (arith, n, sym e)
    ]

founder-without_member :
    (k : Text) (g h : Guild)
    → without_member k g ≡ some h
    → (h.founder ≡ g.founder) × (text_eq g.founder k ≡ false)
      ⊎ ((rest : List Text) × (h.members ≡ h.founder ∷ rest))
unfolding without_member
founder-without_member k g h e =
    elim (List-cases (keep (λ member. not (text_eq member k)) g.members)) [
      | inl n ↦ ground (arith, n, e)
      | inr ((first, rest), n) ↦ elim (Bool-cases (text_eq g.founder k)) [
        | inl t ↦ inr (rest, ground (arith, n, e, t))
        | inr t ↦ inl (ground (arith, n, e, t), t)
      ]
    ]

nobody : (k : Text) → count k [] ≡ 0
unfolding count
nobody k = refl

drop_member-nil : (k : Text) → drop_member k [] ≡ []
unfolding drop_member
drop_member-nil k = refl

pub drop_member-cons :
    (k slug : Text) (g : Guild) (b : Book) (o : Option Guild)
    → without_member k g ≡ o
    → drop_member k ((slug, g) ∷ b)
      ≡ elim o [ none ↦ drop_member k b | some h ↦ (slug, h) ∷ drop_member k b ]
unfolding drop_member
drop_member-cons k slug g b o e =
    ap
      (λ (x : Option Guild). elim x [
        | none ↦ drop_member k b
        | some h ↦ (slug, h) ∷ drop_member k b
      ])
      e

pub seats-drop_member :
    (b : Book) (k j : Text) → seats j (drop_member k b) ≡ (if text_eq k j then 0 else seats j b)
unfolding seats
seats-drop_member [] k j = ap (seats j) (drop_member-nil k) ∙ ground arith
seats-drop_member ((slug, g) ∷ b) k j = elim (Option-cases (without_member k g)) [
  | inl e ↦
      let same = ap (count j) (members-without_member k g none e) in
      ap (seats j) (drop_member-cons k slug g b none e)
      ∙ ground (arith, same, count-keep k j g.members, nobody j, seats-drop_member b k j)
  | inr (h, e) ↦
      let same = ap (count j) (members-without_member k g (some h) e) in
      ap (seats j) (drop_member-cons k slug g b (some h) e)
      ∙ ground (arith, same, count-keep k j g.members, seats-drop_member b k j)
]

-- What every guild has: its founder among its members, and room for twelve at most.
abbrev pub IsSound : Guild → Type 0
IsSound g = (1 ≤ count g.founder g.members) × (length g.members ≤ max_size)

abbrev pub AllSound : Book → Type 0
AllSound [] = Unit
AllSound ((slug, g) ∷ b) = IsSound g × AllSound b

pub AllSound-on_guild_of :
    (b : Book) (k : Text) (f : Guild → Guild)
    → ((g : Guild) → IsSound g → IsSound (f g))
    → AllSound b
    → AllSound (on_guild_of b k f)
unfolding on_guild_of
AllSound-on_guild_of [] k f keeps v = v
AllSound-on_guild_of ((slug, g) ∷ b) k f keeps v = elim (Bool-cases (is_member g.members k)) [
  | inl e ↦ rw e (keeps g v.0, v.1)
  | inr e ↦ rw e (v.0, AllSound-on_guild_of b k f keeps v.1)
]

pub AllSound-enlist :
    (b : Book) (s k : Text) (g : Guild)
    → lookup s b ≡ some g
    → length g.members < max_size
    → AllSound b
    → AllSound (on_slug b s (enlist k))
unfolding on_slug lookup
AllSound-enlist [] s k g e room v = v
AllSound-enlist ((slug, h) ∷ b) s k g e room v = elim (Bool-cases (text_eq slug s)) [
  | inl t ↦
      let same : h ≡ g = ground (arith, t, e) in
      rw t (
        (
          ground (arith, v.0, count-append h.founder h.members (k ∷ [])),
          ground (arith, same, room, length-append h.members (k ∷ [])),
        ),
        v.1,
      )
  | inr t ↦ rw t (v.0, AllSound-enlist b s k g (ground (arith, t, e)) room v.1)
]

pub AllSound-found :
    (b : Book) (s k name : Text) → AllSound b → AllSound (insert s (found name k) b)
unfolding insert found count
AllSound-found [] s k name v = ((ground (arith, text_eq_refl k), omega arith), tt)
AllSound-found ((slug, h) ∷ b) s k name v = elim (Bool-cases (text_eq slug s)) [
  | inl t ↦ rw t ((ground (arith, text_eq_refl k), omega arith), v.1)
  | inr t ↦ rw t (v.0, AllSound-found b s k name v.1)
]

without_member-IsSound :
    (k : Text) (g h : Guild) → without_member k g ≡ some h → IsSound g → IsSound h
unfolding count
without_member-IsSound k g h e v =
    let same = members-without_member k g (some h) e in
    (
      elim (founder-without_member k g h e) [
        | inl (f, n) ↦ ground (
          arith,
          v.0,
          f,
          n,
          ap (count g.founder) same,
          count-keep k g.founder g.members,
          text_eq_iff k g.founder,
          text_eq_iff g.founder k,
        )
        | inr (rest, n) ↦ ground (arith, ap (count h.founder) n, text_eq_refl h.founder)
      ],
      ground (
        arith,
        v.1,
        ap (λ (xs : List Text). length xs) same,
        length-keep-le (λ member. not (text_eq member k)) g.members,
      ),
    )

pub AllSound-drop_member : (b : Book) (k : Text) → AllSound b → AllSound (drop_member k b)
AllSound-drop_member [] k v = subst AllSound (sym (drop_member-nil k)) v
AllSound-drop_member ((slug, g) ∷ b) k v = elim (Option-cases (without_member k g)) [
  | inl e ↦ subst AllSound (sym (drop_member-cons k slug g b none e)) (AllSound-drop_member b k v.1)
  | inr (h, e) ↦
      subst AllSound (sym (drop_member-cons k slug g b (some h) e))
        (without_member-IsSound k g h e v.0, AllSound-drop_member b k v.1)
]
