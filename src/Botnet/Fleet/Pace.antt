-- ===== src/Botnet/Fleet/Pace.antt =====
-- One bot of a fleet: how far its goroutine of internal/botnet/coordinator.go has come in a skit.
use annoybots.Base.{
  ℕ, ◌+◌, ◌≤◌, ◌<◌, ◌≡◌, refl, sym, subst, ap, true, false, ◌&&◌, [], ◌∷◌, ◌++◌, List, none, some,
  Text, text_eq, text_eq_refl, lookup, insert, lookup-insert, equal_fold, length, get_elem?, All,
  ltb, ltb→lt, ◌==◌, text_eq_sound, arith, if◌then◌else◌, Bool-cases, Option-cases, List-cases, inl,
  inr, ◌⊎◌,
}
use annoybots.Base.Int.{ℤ, pos, eq_ℤ, ltb_ℤ}
use annoybots.Botnet.{Event}
use annoybots.Botnet.Coordinator.{
  Coordinator, Skit, SkitStep, Line, Signal, Turn, Performance, ended, speaks, heard, blocked,
  quiet, timer_fired, cancelled, said_line, advance_event, skit_advance, offer, take_advance,
  wait_for_step, is_cancelled, perform_turn, on_event,
}

pub some_inj : {A : Type 0} {a b : A} → some a ≡ some b → a ≡ b
some_inj h = cc

abbrev pub IsBelow : ℕ → ℤ → Type 0
IsBelow k z = ltb_ℤ z (pos k) ≡ true

pub All-append :
    {A : Type 0} (P : A → Type 0) (xs : List A) (x : A) → All P xs → P x → All P (xs ++ x ∷ [])
All-append P [] x h p = (p, tt)
All-append P (y ∷ ys) x h p = (h.0, All-append P ys x h.1 p)

pub All-weaken :
    {A : Type 0} (P Q : A → Type 0) (xs : List A) → ((x : A) → P x → Q x) → All P xs → All Q xs
All-weaken P Q [] f h = tt
All-weaken P Q (x ∷ xs) f h = (f x h.0, All-weaken P Q xs f h.1)

abbrev pub IsLate : ℕ → Event → Type 0
IsLate k e = (e.kind ≡ skit_advance) × IsBelow k e.step

module _ (start : Event) (s : Skit) where
  -- A goroutine that has kept up with the first k lines of the skit.
  pub record KeepsPace (k : ℕ) (name : Text) (p : Performance) : Type 0 where
    pub plays : p.skit ≡ s
    pub since : p.start ≡ start
    pub behind : p.at ≤ k
    pub queued : All (IsBelow k) p.advance
    pub spoken :
        (j : ℕ) (step : SkitStep)
        → j < k
        → get_elem? s.steps j ≡ some step
        → equal_fold step.bot name ≡ true
        → j < p.at

  -- The line k of the skit is this bot's.
  abbrev pub Owns : ℕ → Text → Line → Type 0
  Owns k name line =
      (step : SkitStep) × (get_elem? s.steps k ≡ some step)
      × (equal_fold step.bot name ≡ true)
      × (line ≡ said_line start step)

  abbrev pub Outcome : ℕ → Text → Turn → Type 0
  Outcome k name ended = Unit
  Outcome k name blocked = Unit
  Outcome k name (heard p) = KeepsPace k name p
  Outcome k name (speaks line e p) =
      Owns k name line × (e.kind ≡ skit_advance) × (e.step ≡ pos k) × KeepsPace (k + 1) name p

  pub KeepsPace-offer :
      (k : ℕ) (name : Text) (p : Performance) (z : ℤ)
      → IsBelow k z
      → KeepsPace k name p
      → KeepsPace k name (offer p z)
  unfolding offer
  KeepsPace-offer k name p z b h =
      elim (Bool-cases (ltb (length p.advance) (length p.skit.steps))) [
        | inl room ↦ rw room (record {
          plays = h.plays;
          since = h.since;
          behind = h.behind;
          queued = All-append (IsBelow k) p.advance z h.queued b;
          spoken = h.spoken;
        })
        | inr full ↦ rw full h
      ]

  pub KeepsPace-suc :
      (k : ℕ) (name : Text) (p : Performance)
      → ((step : SkitStep) → get_elem? s.steps k ≡ some step → equal_fold step.bot name ≡ false)
      → KeepsPace k name p
      → KeepsPace (k + 1) name p
  KeepsPace-suc k name p other h = record {
    plays = h.plays;
    since = h.since;
    behind = omega (arith, h.behind);
    queued = All-weaken (IsBelow k) (IsBelow (k + 1)) p.advance (λ z b. ground arith) h.queued;
    spoken = λ j step lt e own. elim (Bool-cases (j == k)) [
      | inl now ↦
          ground (arith, other step, ap (get_elem? s.steps) (let q : j ≡ k = ground arith in q))
      | inr past ↦ h.spoken j step (ground arith) e own
    ];
  }

  take_advance-Outcome :
      (k : ℕ) (name : Text) (p : Performance) → KeepsPace k name p → Outcome k name (take_advance p)
  unfolding take_advance
  take_advance-Outcome k name p h = elim (List-cases p.advance) [
    | inl none_left ↦ rw none_left tt
    | inr ((z, rest), e) ↦
        let below : IsBelow k z × All (IsBelow k) rest = subst (All (IsBelow k)) e h.queued in
        elim (Bool-cases (eq_ℤ z (pos p.at))) [
          | inl mine ↦
              rw (e, mine)
                (record {
                  plays = h.plays;
                  since = h.since;
                  behind = ground (arith, below.0);
                  queued = below.1;
                  spoken = λ j step lt own his. omega (arith, h.spoken j step lt own his);
                })
          | inr other ↦
              rw (e, other)
                (record {
                  plays = h.plays;
                  since = h.since;
                  behind = h.behind;
                  queued = below.1;
                  spoken = h.spoken;
                })
        ]
  ]

  wait-Outcome :
      (signal : Signal) (k : ℕ) (name : Text) (p : Performance)
      → KeepsPace k name p
      → Outcome k name (wait_for_step signal p)
  unfolding wait_for_step
  wait-Outcome quiet k name p h = take_advance-Outcome k name p h
  wait-Outcome timer_fired k name p h = tt
  wait-Outcome cancelled k name p h = tt

  -- A bot that has kept pace speaks the next line of the skit or none.
  speaks-Outcome :
      (k : ℕ) (name : Text) (p : Performance) (step : SkitStep)
      → KeepsPace k name p
      → get_elem? s.steps p.at ≡ some step
      → equal_fold step.bot name ≡ true
      → Outcome k name
          (speaks (said_line p.start step) (advance_event name p) (record p { at = p.at + 1 }))
  unfolding advance_event
  speaks-Outcome k name p step h e own = elim (Bool-cases (ltb p.at k)) [
    | inl late ↦ absurd (omega (arith, h.spoken p.at step (ltb→lt p.at k late) e own))
    | inr ready ↦
        let now : p.at ≡ k = ground (arith, h.behind) in
        (
          (step, rw (← now) e, own, rw h.since refl),
          refl,
          ap pos now,
          record {
            plays = h.plays;
            since = h.since;
            behind = omega (arith, now);
            queued =
                All-weaken (IsBelow k) (IsBelow (k + 1)) p.advance (λ z b. ground arith) h.queued;
            spoken = λ j other lt own his. omega (arith, now);
          },
        )
  ]

  pub perform_turn-Outcome :
      (k : ℕ) (name : Text) (signal : Signal) (p : Performance)
      → KeepsPace k name p
      → Outcome k name (perform_turn name signal p)
  unfolding perform_turn
  perform_turn-Outcome k name signal p h = elim (Option-cases (get_elem? p.skit.steps p.at)) [
    | inl past ↦
        let e : perform_turn name signal p ≡ ended = ground (arith, past) in
        subst (Outcome k name) (sym e) tt
    | inr (step, at) ↦ elim (Bool-cases (equal_fold step.bot name)) [
      | inl own ↦ elim (Bool-cases (ltb_ℤ (pos 0) step.delay && is_cancelled signal)) [
        | inl cut ↦
            let e : perform_turn name signal p ≡ ended = ground (arith, at, own, cut) in
            subst (Outcome k name) (sym e) tt
        | inr runs ↦
            let e : perform_turn name signal p
                ≡ speaks (said_line p.start step) (advance_event name p)
                    (record p { at = p.at + 1 }) =
              ground (arith, at, own, runs) in
            subst (Outcome k name) (sym e) (
              speaks-Outcome k name p step h
                (subst (λ (q : Skit). get_elem? q.steps p.at ≡ some step) h.plays at) own)
      ]
      | inr other ↦
          let e : perform_turn name signal p ≡ wait_for_step signal p = ground (arith, at, other) in
          subst (Outcome k name) (sym e) (wait-Outcome signal k name p h)
    ]
  ]

pub on_advance :
    (c : Coordinator) (e : Event)
    → e.kind ≡ skit_advance
    → on_event c e ≡ (
        if text_eq e.from c.name then c else elim (lookup e.nonce c.active) [
          | none ↦ c
          | some p ↦ record c { active = insert e.nonce (offer p e.step) c.active }
        ])
unfolding on_event text_eq
on_advance c e kind = ground (arith, kind, text_eq_refl skit_advance)

-- What an advance does to the goroutine of a nonce.
pub advance-cases :
    (nonce : Text) (c : Coordinator) (e : Event)
    → e.kind ≡ skit_advance
    → (lookup nonce (on_event c e).active ≡ lookup nonce c.active)
      ⊎ ((q : Performance) × (lookup nonce c.active ≡ some q)
          × (lookup nonce (on_event c e).active ≡ some (offer q e.step)))
advance-cases nonce c e kind = elim (Bool-cases (text_eq e.from c.name)) [
  | inl own ↦ inl (ground (arith, own, on_advance c e kind))
  | inr other ↦ elim (Option-cases (lookup e.nonce c.active)) [
    | inl idle ↦ inl (ground (arith, other, idle, on_advance c e kind))
    | inr (q, e') ↦ elim (Bool-cases (text_eq e.nonce nonce)) [
      | inl same ↦
          let at : e.nonce ≡ nonce = text_eq_sound e.nonce nonce same in
          inr (
            q,
            rw (← at) e',
            ground (
              arith,
              other,
              e',
              same,
              on_advance c e kind,
              lookup-insert e.nonce nonce (offer q e.step) c.active,
            ),
          )
      | inr apart ↦ inl (
          ground (
            arith,
            other,
            e',
            apart,
            on_advance c e kind,
            lookup-insert e.nonce nonce (offer q e.step) c.active,
          ))
    ]
  ]
]
