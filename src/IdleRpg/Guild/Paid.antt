-- ===== src/IdleRpg/Guild/Paid.antt =====
-- perkCmd of internal/idlerpg/guildperk.go: the prices of perks, and what the vault pays.
use annoybots.Base.{
  ℕ, suc, ◌*◌, ◌≤◌, ◌<◌, false, ◌≡◌, sym, ap, ◌∙◌, refl, ◌⊎◌, inl, inr, some, Text, arith,
  lookup-insert, text_eq_refl, Option-cases,
}
use annoybots.Base.Int.{
  ℤ, pos, negsuc, leb_ℤ, ltb_ℤ, add64, sub64, mul64, wrap64, residue64, IsInt64, ◌+ℤ◌, ◌-ℤ◌, ◌≤ℤ◌,
  -ℤ_parts, +ℤ_parts, eq_of_parts, wrap64_of_IsInt64, one_part,
}
use annoybots.IdleRpg.Guild.{Guild, Book, BookCodec, Realm, guild_of, on_guild_of, save_guilds}
use annoybots.IdleRpg.Guild.Perks.{
  PerkDef, perk_by_name, perk_in, perk_cost, perk_of, buy, perk_cmd, raised,
}
use annoybots.IdleRpg.Guild.Vault.{book-save, guild_of-on_guild_of}

is_perk :
    (name : Text) (p : PerkDef)
    → perk_by_name name ≡ some p
    → (p.base ≡ pos 800) × (p.max ≡ pos 5)
      ⊎ (p.base ≡ pos 600) × (p.max ≡ pos 5)
      ⊎ (p.base ≡ pos 1000) × (p.max ≡ pos 3)
unfolding perk_by_name perk_in
is_perk name p e = ground arith

next_level : (n : ℕ) → n < 5 → add64 (pos n) (pos 1) ≡ pos (suc n)
unfolding add64 wrap64 residue64 ◌+ℤ◌
next_level n h = ground arith

times_800 : (n : ℕ) → n ≤ 5 → mul64 (pos 800) (pos n) ≡ pos (800 * n)
unfolding mul64 wrap64 residue64
times_800 n h = ground arith

times_600 : (n : ℕ) → n ≤ 5 → mul64 (pos 600) (pos n) ≡ pos (600 * n)
unfolding mul64 wrap64 residue64
times_600 n h = ground arith

times_1000 : (n : ℕ) → n ≤ 5 → mul64 (pos 1000) (pos n) ≡ pos (1000 * n)
unfolding mul64 wrap64 residue64
times_1000 n h = ground arith

-- A perk below its maximum costs gold.
perk_cost-positive :
    (name : Text) (p : PerkDef) (level : ℤ)
    → perk_by_name name ≡ some p
    → pos 0 ≤ℤ level
    → leb_ℤ p.max level ≡ false
    → (pos 1 ≤ℤ perk_cost p level) × IsInt64 (perk_cost p level)
unfolding perk_cost
perk_cost-positive name p (negsuc n) e l h = ground arith
perk_cost-positive name p (pos n) e l h = elim (is_perk name p e) [
  | inl (b, m) ↦ ground (arith, b, m, next_level n, times_800 (suc n))
  | inr (inl (b, m)) ↦ ground (arith, b, m, next_level n, times_600 (suc n))
  | inr (inr (b, m)) ↦ ground (arith, b, m, next_level n, times_1000 (suc n))
]

-- Taking a positive amount from a vault that holds it is exact.
sub64_exact :
    (a b : ℤ)
    → IsInt64 a
    → pos 1 ≤ℤ b
    → ltb_ℤ a b ≡ false
    → (sub64 a b +ℤ b ≡ a) × (pos 0 ≤ℤ sub64 a b)
unfolding sub64
sub64_exact (negsuc x) b r p h = ground arith
sub64_exact a (negsuc y) r p h = ground arith
sub64_exact (pos x) (pos y) r p h =
    let d = pos x -ℤ pos y in
    ground (
      arith,
      -ℤ_parts (pos x) (pos y),
      wrap64_of_IsInt64 d,
      one_part d,
      +ℤ_parts d (pos y),
      eq_of_parts (d +ℤ pos y) (pos x),
    )

perk_inv :
    (json : BookCodec) (r : Realm) (k arg name : Text) (lvl cost : ℤ) (g : Guild)
    → (perk_cmd json r k (some arg)).1 ≡ raised name lvl cost
    → guild_of r.book k ≡ some g
    → (p : PerkDef) × (perk_by_name arg ≡ some p)
      × (p.name ≡ name)
      × (leb_ℤ p.max (perk_of g p.name) ≡ false)
      × (ltb_ℤ g.vault cost ≡ false)
      × (cost ≡ perk_cost p (perk_of g p.name))
      × (lvl ≡ add64 (perk_of g p.name) (pos 1))
      × ((perk_cmd json r k (some arg)).0
          ≡ save_guilds json (record r { book = on_guild_of r.book k (buy p cost) }))
unfolding perk_cmd
perk_inv json r k arg name lvl cost g h f = elim (Option-cases (perk_by_name arg)) [
  | inl e ↦ ground (arith, e, f)
  | inr (p, e) ↦ (
    p,
    e,
    ground (arith, e, f),
    ground (arith, e, f),
    ground (arith, e, f),
    ground (arith, e, f),
    ground (arith, e, f),
    ground (arith, e, f),
  )
]

level_up :
    (arg : Text) (p : PerkDef) (l : ℤ)
    → perk_by_name arg ≡ some p
    → pos 0 ≤ℤ l
    → leb_ℤ p.max l ≡ false
    → (add64 l (pos 1) ≡ l +ℤ pos 1) × (add64 l (pos 1) ≤ℤ pos 5)
unfolding add64 wrap64 residue64 ◌+ℤ◌
level_up arg p (negsuc n) e low h = ground arith
level_up arg p (pos n) e low h = elim (is_perk arg p e) [
  | inl (b, m) ↦ ground (arith, m)
  | inr (inl (b, m)) ↦ ground (arith, m)
  | inr (inr (b, m)) ↦ ground (arith, m)
]

perk_of-buy :
    (p : PerkDef) (cost : ℤ) (g : Guild)
    → perk_of (buy p cost g) p.name ≡ add64 (perk_of g p.name) (pos 1)
unfolding perk_of
perk_of-buy p cost g = ground (
  arith,
  text_eq_refl p.name,
  lookup-insert p.name p.name (add64 (perk_of g p.name) (pos 1)) g.perks,
)

-- A purchase of a perk that the bot announces raises that perk of the player's guild by one level,
-- to five at most, and the vault pays exactly the price, without falling below 0, if the vault was
-- an int64 and the level was not negative.
pub perk-paid :
    (json : BookCodec) (r : Realm) (k arg name : Text) (lvl cost : ℤ) (g : Guild)
    → (perk_cmd json r k (some arg)).1 ≡ raised name lvl cost
    → guild_of r.book k ≡ some g
    → IsInt64 g.vault
    → pos 0 ≤ℤ perk_of g name
    → (h : Guild) × (guild_of (perk_cmd json r k (some arg)).0.book k ≡ some h)
      × (perk_of h name ≡ lvl)
      × (lvl ≡ perk_of g name +ℤ pos 1)
      × (lvl ≤ℤ pos 5)
      × (h.vault +ℤ cost ≡ g.vault)
      × (pos 0 ≤ℤ h.vault)
perk-paid json r k arg name lvl cost g h f rv low =
    let (p, known, named, below, rich, price, level, store) =
      perk_inv json r k arg name lvl cost g h f in
    let low_p : pos 0 ≤ℤ perk_of g p.name = ground (arith, low, named) in
    let price_ok = perk_cost-positive arg p (perk_of g p.name) known low_p below in
    let up = level_up arg p (perk_of g p.name) known low_p below in
    let exact = sub64_exact g.vault cost rv (ground (arith, price, price_ok.0)) rich in
    let after : guild_of (perk_cmd json r k (some arg)).0.book k ≡ some (buy p cost g) = rw store (
      ap (λ (b : Book). guild_of b k)
        (book-save json (record r { book = on_guild_of r.book k (buy p cost) }))
      ∙ guild_of-on_guild_of r.book k (buy p cost) g (λ x. refl) f) in
    (
      buy p cost g,
      after,
      ap (perk_of (buy p cost g)) (sym named) ∙ perk_of-buy p cost g ∙ sym level,
      level ∙ up.0 ∙ ap (λ (n : Text). perk_of g n +ℤ pos 1) named,
      ground (arith, level, up.1),
      exact.0,
      exact.1,
    )
