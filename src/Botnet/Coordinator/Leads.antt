-- ===== src/Botnet/Coordinator/Leads.antt =====
-- Who starts a skit: OnMessage, tryStart and maybeAutoStart of internal/botnet/coordinator.go.
use annoybots.Base.{
  ℕ, zero, suc, ◌≡◌, refl, subst, get_elem?, true, false, not, ◌||◌, ◌==◌, [], ◌∷◌, List, Option,
  none, some, Text, All, text_eq, text_eq_sound, to_lower, equal_fold, take, trim_space, fields,
  length, arith, if◌then◌else◌, Bool-cases, Option-cases, inl, inr, ◌⊎◌,
}
use annoybots.Base.Int.{ℤ}
use annoybots.Cooldown.{use_key}
use annoybots.Botnet.{Event}
use annoybots.Botnet.Coordinator.{
  Coordinator, Skit, Message, lead, get_skit, skit_start, skit_command, skit_name, random_led_skit,
  led_of, start_event, try_start, auto_pick, maybe_auto_start, on_message, cool_key, cooldown_of,
}

-- A start event for a channel, of a loaded skit with steps that this bot leads.
abbrev pub IsLed : Coordinator → Text → Text → Event → Type 0
IsLed c network channel e =
    (name : Text) × (s : Skit) × (get_skit c name ≡ some s)
    × (equal_fold (lead s) c.name ≡ true)
    × ((length s.steps == 0) ≡ false)
    × (e.kind ≡ skit_start)
    × (e.skit ≡ s.name)
    × (e.from ≡ c.name)
    × (e.network ≡ network)
    × (e.channel ≡ channel)

start_skit : Coordinator → ℤ → Text → Text → Text → Option Skit → Coordinator × List Event
start_skit c now nonce network channel none = (c, [])
start_skit c now nonce network channel (some s) =
    if length s.steps == 0 || not (equal_fold (lead s) c.name)
    then (c, [])
    else (let (cool, ready) = use_key c.cool (cool_key network channel) (cooldown_of s) now in
        if ready
        then (record c { cool = cool }, start_event c nonce network channel s ∷ [])
        else (c, []))

try_start_lem :
    (c : Coordinator) (now : ℤ) (draw : ℕ) (nonce network channel name : Text)
    → try_start c now draw nonce network channel name
      ≡ start_skit c now nonce network channel
          (if text_eq name [] then random_led_skit c draw else get_skit c name)
unfolding try_start start_skit
try_start_lem c now draw nonce network channel name = ground arith

-- A skit is found under a name.
abbrev IsLoaded : Coordinator → Skit → Type 0
IsLoaded c s = (name : Text) × (get_skit c name ≡ some s)

first_or {ℓ} :
    {A : Type 0} (P : A → Type ℓ) (x : A) (xs : List A) (i : ℕ) (y : A)
    → P x
    → ((j : ℕ) (z : A) → get_elem? xs j ≡ some z → P z)
    → get_elem? (x ∷ xs) i ≡ some y
    → P y
first_or P x xs zero y h k e = let same : x ≡ y = cc e in subst P same h
first_or P x xs (suc i) y h k e = k i y e

led_of-IsLoaded :
    (c : Coordinator) (keys : List Text) (i : ℕ) (s : Skit)
    → get_elem? (led_of c keys) i ≡ some s
    → IsLoaded c s
unfolding led_of
led_of-IsLoaded c [] i s h = ground arith
led_of-IsLoaded c (key ∷ keys) i s h = elim (Option-cases (get_skit c key)) [
  | inl missing ↦ led_of-IsLoaded c keys i s (ground (arith, missing, h))
  | inr (t, e) ↦ elim (Bool-cases (equal_fold (lead t) c.name)) [
    | inl mine ↦
        first_or (IsLoaded c) t (led_of c keys) i s (key, e) (led_of-IsLoaded c keys)
          (ground (arith, e, mine, h))
    | inr other ↦ led_of-IsLoaded c keys i s (ground (arith, e, other, h))
  ]
]

picked-IsLoaded :
    (c : Coordinator) (draw : ℕ) (name : Text) (s : Skit)
    → (if text_eq name [] then random_led_skit c draw else get_skit c name) ≡ some s
    → IsLoaded c s
unfolding random_led_skit
picked-IsLoaded c draw name s h = elim (Bool-cases (text_eq name [])) [
  | inl blank ↦ led_of-IsLoaded c c.order draw s (ground (arith, blank, h))
  | inr named ↦ (name, ground (arith, named, h))
]

start_skit-IsLed :
    (c : Coordinator) (now : ℤ) (nonce network channel : Text) (o : Option Skit)
    → ((s : Skit) → o ≡ some s → IsLoaded c s)
    → All (IsLed c network channel) (start_skit c now nonce network channel o).1
unfolding start_skit start_event
start_skit-IsLed c now nonce network channel none loaded = tt
start_skit-IsLed c now nonce network channel (some s) loaded =
    elim (Bool-cases (length s.steps == 0)) [
      | inl empty ↦ rw empty tt
      | inr steps ↦ elim (Bool-cases (equal_fold (lead s) c.name)) [
        | inr other ↦ rw (steps, other) tt
        | inl mine ↦
            elim (Bool-cases (use_key c.cool (cool_key network channel) (cooldown_of s) now).1) [
              | inl ready ↦
                  rw (steps, mine, ready)
                    (let (name, found) = loaded s refl in
                      ((name, s, found, mine, steps, refl, refl, refl, refl, refl), tt))
              | inr cold ↦ rw (steps, mine, cold) tt
            ]
      ]
    ]

try_start-IsLed :
    (c : Coordinator) (now : ℤ) (draw : ℕ) (nonce network channel name : Text)
    → All (IsLed c network channel) (try_start c now draw nonce network channel name).1
try_start-IsLed c now draw nonce network channel name =
    rw (try_start_lem c now draw nonce network channel name)
      (start_skit-IsLed c now nonce network channel _ (picked-IsLoaded c draw name))

auto-IsLed :
    (c : Coordinator) (now : ℤ) (draws : ℕ → ℕ) (draw : ℕ) (nonce network channel : Text)
    → All (IsLed c network channel) (maybe_auto_start c now draws draw nonce network channel).1
unfolding maybe_auto_start
auto-IsLed c now draws draw nonce network channel =
    elim (Option-cases (auto_pick c draws c.order)) [
      | inl idle ↦ rw (idle, maybe_auto_start) tt
      | inr (s, e) ↦
          rw (e, maybe_auto_start) (try_start-IsLed c now draw nonce network channel s.name)
    ]

with_fact : {A Q : Type 0} (P : A → Type 0) (q : Q) (xs : List A) → All P xs → All (λ x. P x × Q) xs
with_fact P q [] h = tt
with_fact P q (x ∷ xs) h = ((h.0, q), with_fact P q xs h.1)

-- Whatever a message says, the events that a bot publishes for it start skits that are loaded, have
-- steps and are led by this bot, in the channel of the message, and there are none for a private
-- message.
pub on_message-IsLed :
    (c : Coordinator) (now : ℤ) (draws : ℕ → ℕ) (draw : ℕ) (nonce : Text) (msg : Message)
    → All
        (λ (e : Event). IsLed c msg.network msg.channel e × (msg.private ≡ false))
        (on_message c now draws draw nonce msg).1
unfolding on_message
on_message-IsLed c now draws draw nonce msg = elim (Bool-cases msg.private) [
  | inl hidden ↦ rw (hidden, on_message) tt
  | inr shown ↦ elim (Bool-cases (text_eq (take 5 (to_lower (trim_space msg.text))) skit_command)) [
    | inl asked ↦
        rw (shown, asked, on_message)
          (with_fact _ refl _ (
            try_start-IsLed c now draw nonce msg.network msg.channel
              (skit_name (fields (trim_space msg.text)))))
    | inr plain ↦
        rw (shown, plain, on_message)
          (with_fact _ refl _ (auto-IsLed c now draws draw nonce msg.network msg.channel))
  ]
]

not_led :
    (c : Coordinator) (now : ℤ) (nonce network channel : Text) (s : Skit)
    → equal_fold (lead s) c.name ≡ false
    → (start_skit c now nonce network channel (some s)).1 ≡ []
unfolding start_skit
not_led c now nonce network channel s other = ground (arith, other)

one_name :
    (lead a b : Text)
    → equal_fold lead a ≡ true
    → text_eq (to_lower a) (to_lower b) ≡ false
    → equal_fold lead b ≡ false
unfolding equal_fold
one_name lead a b his apart = rw (text_eq_sound (to_lower lead) (to_lower a) his) apart

-- Of two bots with the same skits whose names differ in more than letter case, at most one starts a
-- skit that a message names.
pub try_start-one :
    (c d : Coordinator) (now now' : ℤ) (draw draw' : ℕ) (nonce nonce' network channel name : Text)
    → c.skits ≡ d.skits
    → text_eq (to_lower c.name) (to_lower d.name) ≡ false
    → text_eq name [] ≡ false
    → ((try_start c now draw nonce network channel name).1 ≡ [])
      ⊎ ((try_start d now' draw' nonce' network channel name).1 ≡ [])
unfolding start_skit get_skit
try_start-one c d now now' draw draw' nonce nonce' network channel name skits apart named =
    rw
      (
        try_start_lem c now draw nonce network channel name,
        try_start_lem d now' draw' nonce' network channel name,
        named,
      )
      (elim (Option-cases (get_skit c name)) [
        | inl missing ↦ inl (ground (arith, missing))
        | inr (s, e) ↦ elim (Bool-cases (equal_fold (lead s) c.name)) [
          | inr other ↦ inl (rw e (not_led c now nonce network channel s other))
          | inl mine ↦
              let same : get_skit d name ≡ some s = rw (← skits) e in
              inr (
                rw same (
                  not_led d now' nonce' network channel s
                    (one_name (lead s) c.name d.name mine apart)))
        ]
      ])
