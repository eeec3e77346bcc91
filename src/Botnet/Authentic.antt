-- ===== src/Botnet/Authentic.antt =====
-- Who can reach a bot over a bus with a secret: the checks of internal/botnet/auth.go.
use annoybots.Base.{
  ℕ, ◌+◌, ◌-◌, ◌≤◌, ◌<◌, ◌≡◌, true, false, not, ◌&&◌, [], none, some, Text, text_eq, text_eq_iff,
  text_eq_sound, sym, ap, ◌∙◌, leb→le, text_eq_refl, leb, arith, if◌then◌else◌, Bool-cases, inl,
  inr, Option-cases,
}
use annoybots.Base.Int.{
  ℤ, pos, negsuc, pos_part, neg_part, add64, sub64, mul64, eq_ℤ, ltb_ℤ, leb_ℤ, wrap64, ◌-ℤ◌,
}
use annoybots.Botnet.{
  Event, EventCodec, RedisBus, second, auth_window, sign_event, verify_event, stamped, publish,
  receive,
}

-- The distance of two times, in seconds.
abbrev pub gap : ℤ → ℤ → ℕ
gap a b =
    pos_part a
    + neg_part b
    - (pos_part b + neg_part a)
    + (pos_part b + neg_part a - (pos_part a + neg_part b))

-- `drift` without its sign.
abbrev far : ℤ → ℤ → ℤ
far now ts = let drift = sub64 now ts in if ltb_ℤ drift (pos 0) then sub64 (pos 0) drift else drift

far-gap : (now ts : ℤ) → gap now ts < 9223372036854775808 → far now ts ≡ pos (gap now ts)
unfolding sub64 wrap64 ◌-ℤ◌
far-gap (pos a) (pos b) h = ground arith
far-gap (pos a) (negsuc b) h = ground arith
far-gap (negsuc a) (pos b) h = ground arith
far-gap (negsuc a) (negsuc b) h = ground arith

fresh_near : (n : ℕ) → n < 9223372037 → leb_ℤ (mul64 (pos n) second) auth_window ≡ leb n 300
unfolding mul64 wrap64
fresh_near n h = ground arith

-- Past 2^63 nanoseconds the product turns negative, and up to twice that it stays so.
overflow_near :
    (n : ℕ) → 9223372036 < n → n < 18446744074 → leb_ℤ (mul64 (pos n) second) auth_window ≡ true
unfolding mul64 wrap64
overflow_near n h k = ground arith

module _ (mac : Text → Text → Text) (json : EventCodec) where
  verified :
      (e : Event) (secret : Text) (now : ℤ)
      → verify_event mac json e secret now ≡ (
          not (text_eq e.sig [])
          && text_eq (sign_event mac json e secret) e.sig
          && not (eq_ℤ e.ts (pos 0))
          && leb_ℤ (mul64 (far now e.ts) second) auth_window)
  unfolding verify_event
  verified e secret now = ground (
    arith,
    text_eq_iff (sign_event mac json e secret) e.sig,
    text_eq_iff e.sig [],
    text_eq_iff (sign_event mac json e secret) [],
  )

  accepted :
      (b : RedisBus) (now : ℤ) (payload : Text) (e : Event)
      → text_eq b.secret [] ≡ false
      → (receive mac json b now payload).1 ≡ some e
      → (json.decode payload ≡ some e) × (verify_event mac json e b.secret now ≡ true)
  unfolding receive
  accepted b now payload e secret h = elim (Option-cases (json.decode payload)) [
    | inl bad ↦ ground (arith, bad)
    | inr (d, e') ↦ elim (Bool-cases (verify_event mac json d b.secret now)) [
      | inl ok ↦ ground (arith, e', ok)
      | inr no_ok ↦ ground (arith, e', no_ok)
    ]
  ]

  near :
      (now ts : ℤ)
      → leb_ℤ (mul64 (far now ts) second) auth_window ≡ true
      → gap now ts < 9223372037
      → gap now ts ≤ 300
  near now ts h k = leb→le (gap now ts) 300 (
      sym (fresh_near (gap now ts) k)
      ∙ ap (λ (z : ℤ). leb_ℤ (mul64 z second) auth_window) (sym (far-gap now ts (omega arith)))
      ∙ h)

  -- Whatever the payload, an event that a bus with a secret hands on is the one in the payload, has the
  -- signature that the secret gives its other fields, and a time stamp other than 0. If the stamp is
  -- less than 292 years from the clock, it is at most 300 seconds from it.
  pub received-Authentic :
      (b : RedisBus) (now : ℤ) (payload : Text) (e : Event)
      → text_eq b.secret [] ≡ false
      → (receive mac json b now payload).1 ≡ some e
      → (json.decode payload ≡ some e)
        × (e.sig ≡ sign_event mac json e b.secret)
        × (eq_ℤ e.ts (pos 0) ≡ false)
        × (gap now e.ts < 9223372037 → gap now e.ts ≤ 300)
  unfolding receive
  received-Authentic b now payload e secret h =
      let (sent, ok) = accepted b now payload e secret h in
      let all = sym (verified e b.secret now) ∙ ok in
      (
        sent,
        sym (text_eq_sound (sign_event mac json e b.secret) e.sig (ground (arith, all))),
        ground (arith, all),
        near now e.ts (ground (arith, all)),
      )

  unfoldable pub signed : Event → ℤ → Text → Event
  signed e sent secret = record e {
    ts = sent;
    sig = sign_event mac json (record e { ts = sent }) secret;
  }

  verify-signed :
      (e : Event) (sent now : ℤ) (secret : Text)
      → ((k s : Text) → text_eq (mac k s) [] ≡ false)
      → eq_ℤ sent (pos 0) ≡ false
      → verify_event mac json (signed e sent secret) secret now
        ≡ leb_ℤ (mul64 (far now sent) second) auth_window
  unfolding verify_event signed sign_event
  verify-signed e sent now secret digits clock =
      let sig : Text = mac secret (json.encode (record e { ts = sent; sig = [] })) in
      ground
        (arith, digits secret (json.encode (record e { ts = sent; sig = [] })), text_eq_refl sig)

  -- The event of one bus as another receives it: with one secret, a clock that is not 0 and a delay of
  -- less than 292 years, it arrives signed if the delay is at most 300 seconds, and is dropped and counted if it is
  -- longer. That `mac` is never empty is a hypothesis: it is 64 digits.
  pub receive-publish :
      (b c : RedisBus) (sent now : ℤ) (e : Event)
      → ((k s : Text) → text_eq (mac k s) [] ≡ false)
      → text_eq b.secret [] ≡ false
      → b.secret ≡ c.secret
      → eq_ℤ sent (pos 0) ≡ false
      → gap now sent < 9223372037
      → receive mac json c now (publish mac json b sent e) ≡ (
          if leb (gap now sent) 300
          then (c, some (stamped mac json b sent e))
          else (record c { dropped = add64 c.dropped (pos 1) }, none))
  unfolding receive publish stamped signed
  receive-publish b c sent now e digits secret same clock delay = ground (
    arith,
    json.decode-encode (signed e sent b.secret),
    verify-signed e sent now b.secret digits clock,
    ap (λ (z : ℤ). leb_ℤ (mul64 z second) auth_window) (far-gap now sent (omega arith)),
    fresh_near (gap now sent) delay,
  )

  -- A signature of an event whose time stamp is between 9,223,372,037 and 18,446,744,073 seconds (292
  -- to 584 years) from the receiver's clock, before or after it, verifies: the drift in nanoseconds
  -- wraps round to a negative int64, and so is below the window.
  pub verify-overflow :
      (e : Event) (sent now : ℤ) (secret : Text)
      → ((k s : Text) → text_eq (mac k s) [] ≡ false)
      → eq_ℤ sent (pos 0) ≡ false
      → 9223372036 < gap now sent
      → gap now sent < 18446744074
      → verify_event mac json (signed e sent secret) secret now ≡ true
  verify-overflow e sent now secret digits clock old older =
      verify-signed e sent now secret digits clock
      ∙ ap (λ (z : ℤ). leb_ℤ (mul64 z second) auth_window) (far-gap now sent (omega arith))
      ∙ overflow_near (gap now sent) old older
