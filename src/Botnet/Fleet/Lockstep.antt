-- ===== src/Botnet/Fleet/Lockstep.antt =====
-- The lines of a skit that a fleet has said, whatever the wire loses and whoever gives up.
use annoybots.Base.{
  ℕ, zero, suc, ◌+◌, ◌≤◌, ◌≡◌, refl, sym, subst, ap, ◌∙◌, true, false, [], ◌∷◌, ◌++◌, List, some,
  Text, map, text_eq_refl, lookup, insert, delete, lookup-insert, lookup-delete, equal_fold, length,
  take, get_elem?, All, ◌==◌, ==_iff, arith, Bool-cases, Option-cases, inl, inr,
}
use mathlib.Core.List.{append-nil}
use annoybots.Botnet.{Event}
use annoybots.Botnet.Coordinator.{
  Coordinator, Skit, SkitStep, Line, Signal, Turn, Performance, ended, speaks, heard, blocked,
  said_line, skit_advance, perform_turn, run_turn, perform, begin_perform, on_event,
}
use annoybots.Botnet.Fleet.{
  Fleet, update, turn, deliver, lose, Step, turns, delivers, loses, Reach, here, next, script,
}
use annoybots.Botnet.Fleet.Pace.{
  IsBelow, IsLate, All-append, All-weaken, some_inj, advance-cases, KeepsPace, Owns, Outcome,
  KeepsPace-offer, KeepsPace-suc, perform_turn-Outcome,
}

get_elem?-lt :
    {A : Type 0} (xs : List A) (k : ℕ) (x : A) → get_elem? xs k ≡ some x → k + 1 ≤ length xs
get_elem?-lt [] k x h = cc
get_elem?-lt (y ∷ ys) zero x h = omega arith
get_elem?-lt (y ∷ ys) (suc k) x h = omega (arith, get_elem?-lt ys k x h)

take-suc :
    {A B : Type 0} (f : A → B) (xs : List A) (k : ℕ) (x : A)
    → get_elem? xs k ≡ some x
    → take (suc k) (map f xs) ≡ take k (map f xs) ++ f x ∷ []
take-suc f [] k x h = cc
take-suc f (y ∷ ys) zero x h = cc
take-suc f (y ∷ ys) (suc k) x h = rw (take-suc f ys k x h)

take_next :
    {A B : Type 0} (f : A → B) (xs : List A) (k : ℕ) (x : A)
    → get_elem? xs k ≡ some x
    → take (k + 1) (map f xs) ≡ take k (map f xs) ++ f x ∷ []
take_next f xs k x h = let e : k + 1 ≡ suc k = omega arith in rw e (take-suc f xs k x h)

update_all :
    {A : Type 0} (P : ℕ → A → Type 0) (f : ℕ → A) (i : ℕ) (a : A)
    → ((j : ℕ) → (i == j) ≡ false → P j (f j))
    → P i a
    → (j : ℕ) → P j (update f i a j)
update_all P f i a h p j = elim (Bool-cases (i == j)) [
  | inl same ↦ rw same (subst (λ (n : ℕ). P n a) ((==_iff i j).0 same) p)
  | inr other ↦ rw other (h j other)
]

on_event-name : (c : Coordinator) (e : Event) → c.name ≡ (on_event c e).name
unfolding on_event begin_perform
on_event-name c e = ground arith

module _ (nonce : Text) (start : Event) (s : Skit) (names : ℕ → Text) where
  -- What holds of a fleet that has said the first k lines.
  pub record IsInStep (k : ℕ) (f : Fleet) : Type 0 where
    pub fits : k ≤ length s.steps
    pub lines : f.said ≡ take k (script start s)
    pub named : (i : ℕ) → (f.bot i).name ≡ names i
    pub paces :
        (i : ℕ) (p : Performance)
        → lookup nonce (f.bot i).active ≡ some p
        → KeepsPace start s k (names i) p
    pub wires : (i : ℕ) → All (IsLate k) (f.wire i)

  -- No two bots answer to one name, letter case aside.
  abbrev pub IsDistinct : Type 0
  IsDistinct =
      (i j : ℕ) (bot : Text)
      → equal_fold bot (names i) ≡ true
      → equal_fold bot (names j) ≡ true
      → i ≡ j

  advance-KeepsPace :
      (k : ℕ) (name : Text) (c : Coordinator) (e : Event)
      → e.kind ≡ skit_advance
      → IsBelow k e.step
      → ((p : Performance) → lookup nonce c.active ≡ some p → KeepsPace start s k name p)
      → (p : Performance) → lookup nonce (on_event c e).active ≡ some p
      → KeepsPace start s k name p
  advance-KeepsPace k name c e kind below h p found = elim (advance-cases nonce c e kind) [
    | inl same ↦ h p (sym same ∙ found)
    | inr (q, was, now) ↦
        subst (KeepsPace start s k name) (some_inj (sym now ∙ found))
          (KeepsPace-offer start s k name q e.step below (h q was))
  ]

  tail-IsLate :
      (k i : ℕ) (e : Event) (rest : List Event) (f : Fleet)
      → f.wire i ≡ e ∷ rest
      → IsInStep k f
      → IsLate k e × ((j : ℕ) → All (IsLate k) (update f.wire i rest j))
  tail-IsLate k i e rest f head h =
      let both : IsLate k e × All (IsLate k) rest = subst (All (IsLate k)) head (h.wires i) in
      (both.0, update_all (λ _. All (IsLate k)) f.wire i rest (λ j _. h.wires j) both.1)

  lose-IsInStep :
      (k i : ℕ) (e : Event) (rest : List Event) (f : Fleet)
      → f.wire i ≡ e ∷ rest
      → IsInStep k f
      → IsInStep k (lose i rest f)
  unfolding lose
  lose-IsInStep k i e rest f head h = record {
    fits = h.fits;
    lines = h.lines;
    named = h.named;
    paces = h.paces;
    wires = (tail-IsLate k i e rest f head h).1;
  }

  -- What holds of one bot of such a fleet.
  abbrev Paced : ℕ → ℕ → Coordinator → Type 0
  Paced k i c =
      (c.name ≡ names i)
      × ((p : Performance) → lookup nonce c.active ≡ some p → KeepsPace start s k (names i) p)

  paced : (k : ℕ) (f : Fleet) → IsInStep k f → (i : ℕ) → Paced k i (f.bot i)
  paced k f h i = (h.named i, h.paces i)

  deliver-IsInStep :
      (k i : ℕ) (e : Event) (rest : List Event) (f : Fleet)
      → f.wire i ≡ e ∷ rest
      → IsInStep k f
      → IsInStep k (deliver i e rest f)
  unfolding deliver
  deliver-IsInStep k i e rest f head h = record {
    fits = h.fits;
    lines = h.lines;
    named = λ j. (after j).0;
    paces = λ j. (after j).1;
    wires = (tail-IsLate k i e rest f head h).1;
  }
    where
      late : IsLate k e
      late = (tail-IsLate k i e rest f head h).0

      after : (j : ℕ) → Paced k j (update f.bot i (on_event (f.bot i) e) j)
      after =
          update_all (Paced k) f.bot i (on_event (f.bot i) e) (λ j _. paced k f h j)
            (
              sym (on_event-name (f.bot i) e) ∙ h.named i,
              advance-KeepsPace k (names i) (f.bot i) e late.0 late.1 (h.paces i),
            )

  -- A turn, from what it does to bot i.
  turned :
      (k i : ℕ) (signal : Signal) (f : Fleet)
      → k ≤ length s.steps
      → f.said ++ (perform (f.bot i) nonce signal).1 ≡ take k (script start s)
      → Paced k i (perform (f.bot i) nonce signal).0
      → ((j : ℕ) → (i == j) ≡ false → Paced k j (f.bot j))
      → ((j : ℕ) → All (IsLate k) (f.wire j ++ (perform (f.bot i) nonce signal).2))
      → IsInStep k (turn nonce signal i f)
  unfolding turn
  turned k i signal f fits lines mine others wires = record {
    fits = fits;
    lines = lines;
    named = λ j. (after j).0;
    paces = λ j. (after j).1;
    wires = wires;
  }
    where
      after : (j : ℕ) → Paced k j (update f.bot i (perform (f.bot i) nonce signal).0 j)
      after = update_all (Paced k) f.bot i (perform (f.bot i) nonce signal).0 others mine

  insert-Paced :
      (k i : ℕ) (c : Coordinator) (p : Performance)
      → c.name ≡ names i
      → KeepsPace start s k (names i) p
      → Paced k i (record c { active = insert nonce p c.active })
  insert-Paced k i c p h kp =
      (h, λ q found. subst (KeepsPace start s k (names i)) (some_inj (sym stored ∙ found)) kp)
    where
      stored : lookup nonce (insert nonce p c.active) ≡ some p
      stored = rw (lookup-insert nonce nonce p c.active, text_eq_refl nonce) refl

  delete-Paced :
      (k i : ℕ) (c : Coordinator)
      → Paced k i c
      → Paced k i (record c { active = delete nonce c.active })
  delete-Paced k i c h = (
    h.0,
    λ q found. ground (arith, found, lookup-delete nonce nonce c.active, text_eq_refl nonce),
  )

  still :
      (k i : ℕ) (signal : Signal) (f : Fleet) (c : Coordinator)
      → perform (f.bot i) nonce signal ≡ (c, [], [])
      → Paced k i c
      → IsInStep k f
      → IsInStep k (turn nonce signal i f)
  still k i signal f c e pc h =
      turned k i signal f h.fits (rw e (rw (append-nil f.said) h.lines))
        (subst (Paced k i) (ap (λ (o : Coordinator × List Line × List Event). o.0) (sym e)) pc)
        (λ j _. paced k f h j) (λ j. rw e (rw (append-nil (f.wire j)) (h.wires j)))

  -- A bot that does not own line k keeps pace when it has been said.
  overheard :
      (k i : ℕ) (line : Line) (f : Fleet)
      → IsDistinct
      → Owns start s k (names i) line
      → IsInStep k f
      → (j : ℕ) → (i == j) ≡ false
      → Paced (k + 1) j (f.bot j)
  overheard k i line f distinct (step, e, own, _) h j apart = (
    h.named j,
    λ p found.
        KeepsPace-suc start s k (names j) p (λ other at. not_owned other (some_inj (sym e ∙ at)))
          (h.paces j p found),
  )
    where
      not_owned : (other : SkitStep) → step ≡ other → equal_fold other.bot (names j) ≡ false
      not_owned other same = elim (Bool-cases (equal_fold other.bot (names j))) [
        | inl his ↦
            let one : i ≡ j = distinct i j other.bot (rw (← same) own) his in
            absurd (ground (arith, one))
        | inr no_his ↦ no_his
      ]

  spoken_turn :
      (k i : ℕ) (signal : Signal) (f : Fleet) (line : Line) (ev : Event) (p : Performance)
      → IsDistinct
      → perform (f.bot i) nonce signal ≡ run_turn (f.bot i) nonce (speaks line ev p)
      → Outcome start s k (names i) (speaks line ev p)
      → IsInStep k f
      → IsInStep (k + 1) (turn nonce signal i f)
  unfolding run_turn script
  spoken_turn k i signal f line ev p distinct e ((step, at, own, text), kind, now, kp) h =
      turned (k + 1) i signal f (get_elem?-lt s.steps k step at)
        (rw e (rw (h.lines, text) (sym (take_next (said_line start) s.steps k step at))))
        (subst (Paced (k + 1) i) (ap (λ (o : Coordinator × List Line × List Event). o.0) (sym e))
          (insert-Paced (k + 1) i (f.bot i) p (h.named i) kp))
        (overheard k i line f distinct (step, at, own, text) h)
        (λ j. rw e (
          All-append (IsLate (k + 1)) (f.wire j) ev
            (All-weaken (IsLate k) (IsLate (k + 1)) (f.wire j) (λ z l. (l.0, ground (arith, l.1)))
              (h.wires j))
            (kind, ground (arith, now))))

  turn-IsInStep :
      (k i : ℕ) (signal : Signal) (f : Fleet)
      → IsDistinct
      → IsInStep k f
      → (n : ℕ) × IsInStep n (turn nonce signal i f)
  unfolding perform run_turn
  turn-IsInStep k i signal f distinct h = elim (Option-cases (lookup nonce (f.bot i).active)) [
    | inl idle ↦ (k, still k i signal f (f.bot i) (ground (arith, idle)) (paced k f h i) h)
    | inr (p, found) ↦
        go (perform_turn (names i) signal p) (ground (arith, found, h.named i))
          (perform_turn-Outcome start s k (names i) signal p (h.paces i p found))
  ]
    where
      go :
          (t : Turn)
          → perform (f.bot i) nonce signal ≡ run_turn (f.bot i) nonce t
          → Outcome start s k (names i) t
          → (n : ℕ) × IsInStep n (turn nonce signal i f)
      go ended e o = (k, still k i signal f _ e (delete-Paced k i (f.bot i) (paced k f h i)) h)
      go blocked e o = (k, still k i signal f _ e (paced k f h i) h)
      go (heard p) e o = (k, still k i signal f _ e (insert-Paced k i (f.bot i) p (h.named i) o) h)
      go (speaks line ev p) e o = (k + 1, spoken_turn k i signal f line ev p distinct e o h)

  Step-IsInStep :
      (k : ℕ) {f g : Fleet} → IsDistinct → Step nonce f g → IsInStep k f → (n : ℕ) × IsInStep n g
  Step-IsInStep k {f} distinct (turns i signal) h = turn-IsInStep k i signal f distinct h
  Step-IsInStep k {f} distinct (delivers i e rest head) h =
      (k, deliver-IsInStep k i e rest f head h)
  Step-IsInStep k {f} distinct (loses i e rest head) h = (k, lose-IsInStep k i e rest f head h)

  Reach-IsInStep :
      {f g : Fleet} → IsDistinct → IsInStep 0 f → Reach nonce f g → (n : ℕ) × IsInStep n g
  Reach-IsInStep distinct h here = (0, h)
  Reach-IsInStep distinct h (next r st) =
      let (k, kept) = Reach-IsInStep distinct h r in Step-IsInStep k distinct st kept

  -- No line said, nothing on the wire, and the bots that take part at the first step of the skit.
  pub record IsStart (f : Fleet) : Type 0 where
    pub unsaid : f.said ≡ []
    pub named : (i : ℕ) → (f.bot i).name ≡ names i
    pub idle : (i : ℕ) → f.wire i ≡ []
    pub ready :
        (i : ℕ) (p : Performance)
        → lookup nonce (f.bot i).active ≡ some p
        → p ≡ record { start = start; skit = s; at = 0; advance = [] }

  IsStart-IsInStep : (f : Fleet) → IsStart f → IsInStep 0 f
  IsStart-IsInStep f h = record {
    fits = omega arith;
    lines = h.unsaid;
    named = h.named;
    paces = λ i p found. subst (KeepsPace start s 0 (names i)) (sym (h.ready i p found)) (record {
      plays = refl;
      since = refl;
      behind = omega arith;
      queued = tt;
      spoken = λ j step lt e own. absurd (omega arith);
    });
    wires = λ i. rw (h.idle i) tt;
  }

  -- In a fleet of bots with distinct names that begin a skit together, the lines said at any time are
  -- the first lines of the skit, in order and each once, whatever order the bots' turns and the
  -- deliveries come in, whatever the wire loses, and whoever times out or stops.
  pub Reach-IsScripted :
      {f g : Fleet}
      → IsDistinct
      → IsStart f
      → Reach nonce f g
      → (k : ℕ) × (k ≤ length s.steps) × (g.said ≡ take k (script start s))
  Reach-IsScripted {f} distinct h r =
      let (k, kept) = Reach-IsInStep distinct (IsStart-IsInStep f h) r in (k, kept.fits, kept.lines)
