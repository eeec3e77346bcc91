-- ===== src/Botnet.antt =====
-- internal/botnet/bus.go and auth.go: the events that bots send to one another, and the signatures on
-- them. encoding/json is the parameter `json` and HMAC-SHA256 in hexadecimal is `mac`, which takes the
-- secret and the text. Redis carries the payloads; the clocks are arguments, in seconds since 1970.
use annoybots.Base.{
  ℕ, ◌+◌, ◌≡◌, Bool, true, false, not, ◌&&◌, ◌||◌, [], ◌∷◌, ◌++◌, List, Option, none, some, Text,
  map, text_eq, length, ltb, if◌then◌else◌,
}
use annoybots.Base.Int.{ℤ, pos, eq_ℤ, ltb_ℤ, leb_ℤ, add64, sub64, mul64}
pub mod Authentic
pub mod Coordinator
pub mod Fleet
mod Tests

pub record Event : Type 0 where
  pub kind : Text
  pub from : Text
  pub network : Text
  pub channel : Text
  pub skit : Text
  pub step : ℤ
  pub nonce : Text
  pub pack : Text
  pub line : Text
  pub account : Text
  pub admin_net : Text
  pub flags : Text
  pub text : Text
  pub nick : Text
  pub ts : ℤ
  pub sig : Text

pub record EventCodec : Type 0 where
  pub encode : Event → Text
  pub decode : Text → Option Event
  pub decode-encode : (e : Event) → decode (encode e) ≡ some e

-- As a time.Duration, in nanoseconds.
abbrev pub auth_window : ℤ
auth_window = pos 300000000000

abbrev pub second : ℤ
second = pos 1000000000

-- `RedisBus`, with the count of rejected events.
pub record RedisBus : Type 0 where
  pub secret : Text
  pub dropped : ℤ

unfoldable pub new_redis : RedisBus
new_redis = record { secret = []; dropped = pos 0 }

unfoldable pub set_secret : RedisBus → Text → RedisBus
set_secret b secret = record b { secret = secret }

module _ (mac : Text → Text → Text) (json : EventCodec) where
  unfoldable pub sign_event : Event → Text → Text
  sign_event e secret = mac secret (json.encode (record e { sig = [] }))

  unfoldable pub verify_event : Event → Text → ℤ → Bool
  verify_event e secret now =
      if text_eq e.sig []
      then false
      else (let want = sign_event e secret in
          if text_eq want [] || not (text_eq want e.sig)
          then false
          else if eq_ℤ e.ts (pos 0)
          then false
          else (let drift = sub64 now e.ts in
              let far = if ltb_ℤ drift (pos 0) then sub64 (pos 0) drift else drift in
              leb_ℤ (mul64 far second) auth_window))

  -- The event as `Publish` sends it.
  unfoldable pub stamped : RedisBus → ℤ → Event → Event
  stamped b now e =
      if text_eq b.secret []
      then e
      else (let dated = record e { ts = now } in record dated { sig = sign_event dated b.secret })

  unfoldable pub publish : RedisBus → ℤ → Event → Text
  publish b now e = json.encode (stamped b now e)

  -- One payload in the loop of `Subscribe`: the event that the bot then acts on.
  unfoldable pub receive : RedisBus → ℤ → Text → RedisBus × Option Event
  receive b now payload = elim (json.decode payload) [
    | none ↦ (b, none)
    | some e ↦
        if not (text_eq b.secret []) && not (verify_event e b.secret now)
        then (record b { dropped = add64 b.dropped (pos 1) }, none)
        else (b, some e)
  ]

-- `MemBus`: what waits for each subscriber, in buffers of 64 events.
abbrev pub buffer : ℕ
buffer = 64

abbrev pub MemBus : Type 0
MemBus = List (List Event)

unfoldable pub mem_subscribe : MemBus → MemBus
mem_subscribe subs = subs ++ [] ∷ []

unfoldable pub mem_publish : Event → MemBus → MemBus
mem_publish e = map (λ (q : List Event). if ltb (length q) buffer then q ++ e ∷ [] else q)
