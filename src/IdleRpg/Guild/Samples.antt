-- ===== src/IdleRpg/Guild/Samples.antt =====
-- A codec for guild books that round-trips, and a realm with one guild, for the runs in the tests.
use annoybots.Base.{
  ℕ, zero, suc, false, ◌≡◌, ◌∙◌, refl, [], ◌∷◌, List, Option, none, some, Text, codes, length,
  text_eq,
}
use annoybots.Base.Int.{ℤ, pos}
use annoybots.State.{new_mem, h_set}
use annoybots.IdleRpg.{sheet_key}
use annoybots.IdleRpg.Samples.{
  code_int, code_text, read_int, read_text, read_int-code, read_text-code, ann, bob,
}
use annoybots.IdleRpg.Guild.{Guild, GuildRaid, Book, BookCodec, Realm, found, save_guilds}

module _ {A : Type 0} (code : A → Text → Text) where
  abbrev pub code_each : List A → Text → Text
  code_each [] t = t
  code_each (x ∷ xs) t = code x (code_each xs t)

  abbrev pub code_list : List A → Text → Text
  code_list xs t = length xs ∷ code_each xs t

module _ {A B : Type 0} (read : (A → Text → Option B) → Text → Option B) where
  abbrev pub read_each : ℕ → (List A → Text → Option B) → Text → Option B
  read_each zero k s = k [] s
  read_each (suc n) k s = read (λ x. read_each n (λ xs. k (x ∷ xs))) s

  abbrev pub read_list : (List A → Text → Option B) → Text → Option B
  read_list k [] = none
  read_list k (n ∷ s) = read_each n k s

pub read_each-code :
    {A B : Type 0} (code : A → Text → Text) (read : (A → Text → Option B) → Text → Option B)
    → ((k : A → Text → Option B) (x : A) (t : Text) → read k (code x t) ≡ k x t)
    → (k : List A → Text → Option B) (xs : List A) (t : Text)
    → read_each read (length xs) k (code_each code xs t) ≡ k xs t
read_each-code code read e k [] t = refl
read_each-code code read e k (x ∷ xs) t =
    e (λ y. read_each read (length xs) (λ ys. k (y ∷ ys))) x (code_each code xs t)
    ∙ read_each-code code read e (λ ys. k (x ∷ ys)) xs t

abbrev code_score : Text × ℤ → Text → Text
code_score (name, n) t = code_text name (code_int n t)

abbrev read_score : {B : Type 0} → (Text × ℤ → Text → Option B) → Text → Option B
read_score k = read_text (λ name. read_int (λ n. k (name, n)))

read_score-code :
    {B : Type 0} (k : Text × ℤ → Text → Option B) (x : Text × ℤ) (t : Text)
    → read_score k (code_score x t) ≡ k x t
read_score-code k (name, n) t =
    read_text-code (λ a. read_int (λ b. k (a, b))) name (code_int n t)
    ∙ read_int-code (λ b. k (name, b)) n t

abbrev code_raid : Option GuildRaid → Text → Text
code_raid none t = 0 ∷ t
code_raid (some r) t =
    1
    ∷ code_text r.foe (
        code_int r.hp (
          code_int r.max_hp
            (code_int r.deadline (code_list code_score r.damage (code_int r.last_pct t)))))

abbrev read_raid : {B : Type 0} → (Option GuildRaid → Text → Option B) → Text → Option B
read_raid k [] = none
read_raid k (zero ∷ s) = k none s
read_raid k (suc n ∷ s) =
    read_text
      (λ foe. read_int (λ hp. read_int (λ max_hp. read_int (λ deadline.
        read_list read_score (λ damage. read_int (λ last_pct. k (
          some (record {
            foe = foe;
            hp = hp;
            max_hp = max_hp;
            deadline = deadline;
            damage = damage;
            last_pct = last_pct;
          }))))))))
      s

read_raid-code :
    {B : Type 0} (k : Option GuildRaid → Text → Option B) (o : Option GuildRaid) (t : Text)
    → read_raid k (code_raid o t) ≡ k o t
read_raid-code k none t = refl
read_raid-code k (some r) t =
    rw
      (
        read_text-code _ r.foe _,
        read_int-code _ r.hp _,
        read_int-code _ r.max_hp _,
        read_int-code _ r.deadline _,
        read_each-code code_score read_score read_score-code _ r.damage _,
      )
      (read_int-code (λ n. k (some (record r { last_pct = n }))) r.last_pct t)

abbrev code_entry : Text × Guild → Text → Text
code_entry (slug, g) t = code_text slug (
    code_text g.name (
      code_text g.founder (
        code_list code_text g.members
          (code_int g.vault (code_list code_score g.perks (code_raid g.raid t))))))

abbrev read_entry : {B : Type 0} → (Text × Guild → Text → Option B) → Text → Option B
read_entry k = read_text (λ slug. read_text (λ name. read_text (λ founder.
    read_list read_text (λ members. read_int (λ vault. read_list read_score (λ perks.
      read_raid (λ raid. k (
        slug,
        record {
          name = name;
          founder = founder;
          members = members;
          vault = vault;
          perks = perks;
          raid = raid;
        },
      ))))))))

read_entry-code :
    {B : Type 0} (k : Text × Guild → Text → Option B) (x : Text × Guild) (t : Text)
    → read_entry k (code_entry x t) ≡ k x t
read_entry-code k (slug, g) t =
    rw
      (
        read_text-code _ slug _,
        read_text-code _ g.name _,
        read_text-code _ g.founder _,
        read_each-code code_text read_text read_text-code _ g.members _,
        read_int-code _ g.vault _,
        read_each-code code_score read_score read_score-code _ g.perks _,
      )
      (read_raid-code (λ o. k (slug, record g { raid = o })) g.raid t)

pub read_book-code :
    (b : Book)
    → read_each read_entry (length b) (λ xs s. some xs) (code_each code_entry b []) ≡ some b
read_book-code b = read_each-code code_entry read_entry read_entry-code (λ xs s. some xs) b []

pub some_bytes : (b : Book) → text_eq (length b ∷ code_each code_entry b []) [] ≡ false
unfolding text_eq
some_bytes b = refl

abbrev pub plain_book : BookCodec
plain_book = record {
  encode = λ b. length b ∷ code_each code_entry b [];
  decode = λ s. elim s [ [] ↦ none | (n ∷ t) ↦ read_each read_entry n (λ xs u. some xs) t ];
  decode-encode = read_book-code;
  encode-ne-nil = some_bytes;
}

-- ann, with 900 gold, has founded the Owls, whose vault holds 900 gold; bob has 50 gold.
unfoldable pub owls_realm : Realm
owls_realm = save_guilds plain_book (record {
  store =
      h_set (h_set new_mem (sheet_key ann) (codes "gold") (pos 900)) (sheet_key bob) (codes "gold")
        (pos 50);
  book = (codes "owls", record (found (codes "Owls") ann) { vault = pos 900 }) ∷ [];
})
