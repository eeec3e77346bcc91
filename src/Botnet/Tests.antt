-- ===== src/Botnet/Tests.antt =====
-- Runs of the bus and of a fleet of two bots, on concrete inputs.
use annoybots.Base.{
  ℕ, zero, suc, ◌+◌, ◌≡◌, refl, Bool, true, false, [], ◌∷◌, ◌++◌, List, Option, none, some, Text,
  codes, text_eq, equal_fold, take, to_lower, ◌≤◌, arith, All, ◌⊎◌, map, if◌then◌else◌, leb,
  text_eq_sound, ◌==◌, ap, sym, ◌∙◌, ◌<◌, length, lookup,
}
use annoybots.Base.Int.{ℤ, pos, add64, eq_ℤ}
use annoybots.IdleRpg.Samples.{
  code_int, code_text, read_int, read_text, read_int-code, read_text-code,
}
use annoybots.Botnet.{
  Event, EventCodec, RedisBus, new_redis, set_secret, publish, receive, verify_event, stamped,
  mem_subscribe, mem_publish, sign_event,
}
use annoybots.Botnet.Authentic.{gap, received-Authentic, receive-publish, verify-overflow, signed}
use annoybots.Botnet.Coordinator.{
  Coordinator, Skit, SkitStep, Line, Message, new_coordinator, blank_event, start_event,
  begin_perform, on_event, perform, on_message, try_start, quiet, said_line,
}
use annoybots.Botnet.Coordinator.Leads.{on_message-IsLed, IsLed}
use annoybots.Botnet.Fleet.{Fleet, turn, Reach, here, next, turns, script}
use annoybots.Botnet.Fleet.Pace.{some_inj}
use annoybots.Botnet.Fleet.Lockstep.{IsDistinct, IsStart, Reach-IsScripted}

abbrev greet : Skit
greet = record {
  name = codes "Greet";
  chance = pos 0;
  cooldown = pos 0;
  steps =
      record { bot = codes "A"; line = codes "hi"; delay = pos 0; action = false }
      ∷ record { bot = codes "aa"; line = codes "yo"; delay = pos 0; action = true }
      ∷ record { bot = codes "a"; line = codes "bye"; delay = pos 5; action = false }
      ∷ [];
}

abbrev one : Coordinator
one = new_coordinator (codes "A") (greet ∷ [])

abbrev two : Coordinator
two = new_coordinator (codes "Aa") (greet ∷ [])

abbrev hello : Message
hello = record {
  network = codes "n";
  channel = codes "#c";
  text = codes " !SKIT greet";
  private = false;
}

abbrev begun : Event
begun = start_event one (codes "x1") (codes "n") (codes "#c") greet

abbrev name_of : ℕ → Text
name_of zero = []
name_of (suc i) = b'a' ∷ name_of i

length-to_lower : (s : Text) → length (to_lower s) ≡ length s
unfolding to_lower
length-to_lower [] = refl
length-to_lower (c ∷ s) = omega (arith, length-to_lower s)

length-name_of : (i : ℕ) → length (name_of i) ≡ i
length-name_of zero = refl
length-name_of (suc i) = omega (arith, length-name_of i)

length-bot : (i : ℕ) (bot : Text) → equal_fold bot (name_of i) ≡ true → length bot ≡ i
unfolding equal_fold
length-bot i bot h = omega (
  arith,
  length-to_lower bot,
  length-to_lower (name_of i),
  length-name_of i,
  ap (length {A = ℕ}) (text_eq_sound (to_lower bot) (to_lower (name_of i)) h),
)

name_of-IsDistinct : IsDistinct (codes "x1") begun greet name_of
name_of-IsDistinct i j bot p q = omega (arith, length-bot i bot p, length-bot j bot q)

abbrev ready : Fleet
ready = record {
  bot = λ i. begin_perform (record one { name = name_of i }) begun;
  wire = λ i. [];
  said = [];
}

begun_lem :
    (i : ℕ)
    → begin_perform (record one { name = name_of i }) begun ≡ record one {
      name = name_of i;
      active = (codes "x1", record { start = begun; skit = greet; at = 0; advance = [] }) ∷ [];
    }
unfolding annoybots.Base.insert annoybots.Base.lower_byte annoybots.Botnet.Coordinator.get_skit
    annoybots.Botnet.Coordinator.skit_map begin_perform lookup new_coordinator start_event text_eq
    to_lower
begun_lem i = refl

ready-IsStart : IsStart (codes "x1") begun greet name_of ready
unfolding lookup text_eq
ready-IsStart = record {
  unsaid = refl;
  named = λ i. ap (λ (c : Coordinator). c.name) (begun_lem i);
  idle = λ i. refl;
  ready = λ i p found.
      some_inj (sym (found) ∙ ap (λ (c : Coordinator). lookup (codes "x1") c.active) (begun_lem i));
}

-- Bot 1 says the first line, bot 2 hears of it and says the second.
abbrev one_line : Fleet
one_line = turn (codes "x1") quiet 1 ready

reach_two : Reach (codes "x1") ready (turn (codes "x1") quiet 1 ready)
reach_two = next here (turns 1 quiet)

asked : (on_message one (pos 0) (λ _. 0) 0 (codes "x1") hello).1 ≡ begun ∷ []
unfolding annoybots.Base.Int.◌-ℤ◌ annoybots.Base.fields annoybots.Base.fields_from
    annoybots.Base.insert annoybots.Base.is_space annoybots.Base.lower_byte annoybots.Base.trim_left
    annoybots.Base.trim_space annoybots.Botnet.Coordinator.auto_pick
    annoybots.Botnet.Coordinator.cool_key annoybots.Botnet.Coordinator.cooldown_of
    annoybots.Botnet.Coordinator.get_skit annoybots.Botnet.Coordinator.lead
    annoybots.Botnet.Coordinator.led_of annoybots.Botnet.Coordinator.maybe_auto_start
    annoybots.Botnet.Coordinator.random_led_skit annoybots.Botnet.Coordinator.roll
    annoybots.Botnet.Coordinator.skit_keys annoybots.Botnet.Coordinator.skit_map
    annoybots.Botnet.Coordinator.skit_name annoybots.Cooldown.use_key blank_event equal_fold lookup
    new_coordinator on_message start_event text_eq to_lower try_start
asked = refl

Reach-IsScripted_example :
    (k : ℕ) × (k ≤ length greet.steps) × (one_line.said ≡ take k (script begun greet))
Reach-IsScripted_example =
    Reach-IsScripted (codes "x1") begun greet name_of name_of-IsDistinct ready-IsStart reach_two

decode_event : Text → Option Event
decode_event = read_text (λ x_kind. read_text (λ x_from. read_text (λ x_network.
    read_text (λ x_channel. read_text (λ x_skit. read_int (λ x_step. read_text (λ x_nonce.
      read_text (λ x_pack. read_text (λ x_line. read_text (λ x_account. read_text (λ x_admin_net.
        read_text (λ x_flags. read_text (λ x_text. read_text (λ x_nick. read_int (λ x_ts.
          read_text (λ x_sig. λ _. some (record {
            kind = x_kind;
            from = x_from;
            network = x_network;
            channel = x_channel;
            skit = x_skit;
            step = x_step;
            nonce = x_nonce;
            pack = x_pack;
            line = x_line;
            account = x_account;
            admin_net = x_admin_net;
            flags = x_flags;
            text = x_text;
            nick = x_nick;
            ts = x_ts;
            sig = x_sig;
          })))))))))))))))))

encode_event : Event → Text
encode_event e = code_text e.kind (
    code_text e.from (
      code_text e.network (
        code_text e.channel (
          code_text e.skit (
            code_int e.step (
              code_text e.nonce (
                code_text e.pack (
                  code_text e.line (
                    code_text e.account (
                      code_text e.admin_net (
                        code_text e.flags (
                          code_text e.text
                            (code_text e.nick (code_int e.ts (code_text e.sig [])))))))))))))))

decode-encode_event : (e : Event) → decode_event (encode_event e) ≡ some e
unfolding decode_event encode_event
decode-encode_event e = rw (
  read_text-code _ e.kind _,
  read_text-code _ e.from _,
  read_text-code _ e.network _,
  read_text-code _ e.channel _,
  read_text-code _ e.skit _,
  read_int-code _ e.step _,
  read_text-code _ e.nonce _,
  read_text-code _ e.pack _,
  read_text-code _ e.line _,
  read_text-code _ e.account _,
  read_text-code _ e.admin_net _,
  read_text-code _ e.flags _,
  read_text-code _ e.text _,
  read_text-code _ e.nick _,
  read_int-code _ e.ts _,
  read_text-code _ e.sig _,
)

abbrev plain_event : EventCodec
plain_event = record {
  encode = encode_event;
  decode = decode_event;
  decode-encode = decode-encode_event;
}

-- A stand-in for the message authentication code.
abbrev tag : Text → Text → Text
tag secret text = b'#' ∷ (secret ++ text)

abbrev sealed : RedisBus
sealed = record { secret = codes "k"; dropped = pos 0 }

abbrev on_the_wire : Event
on_the_wire = stamped tag plain_event sealed (pos 1000) begun

heard_in_time :
    receive tag plain_event sealed (pos 1100) (publish tag plain_event sealed (pos 1000) begun)
    ≡ (sealed, some on_the_wire)
unfolding text_eq
heard_in_time =
    receive-publish tag plain_event sealed sealed (pos 1000) (pos 1100) begun (λ k s. refl) refl
      refl refl (omega arith)

received-Authentic_example :
    (plain_event.decode (publish tag plain_event sealed (pos 1000) begun) ≡ some on_the_wire)
    × (on_the_wire.sig ≡ sign_event tag plain_event on_the_wire (codes "k"))
    × (eq_ℤ on_the_wire.ts (pos 0) ≡ false)
    × (gap (pos 1100) on_the_wire.ts < 9223372037 → gap (pos 1100) on_the_wire.ts ≤ 300)
unfolding text_eq
received-Authentic_example =
    received-Authentic tag plain_event sealed (pos 1100)
      (publish tag plain_event sealed (pos 1000) begun) on_the_wire refl
      (ap (λ (r : RedisBus × Option Event). r.1) heard_in_time)

receive-publish_example :
    receive tag plain_event sealed (pos 1301) (publish tag plain_event sealed (pos 1000) begun)
    ≡ (record sealed { dropped = add64 (pos 0) (pos 1) }, none)
unfolding text_eq
receive-publish_example =
    receive-publish tag plain_event sealed sealed (pos 1000) (pos 1301) begun (λ k s. refl) refl
      refl refl (omega arith)

verify-overflow_example :
    verify_event tag plain_event
      (signed tag plain_event begun (pos 1000) (codes "k"))
      (codes "k")
      (pos 10000000000)
    ≡ true
unfolding text_eq
verify-overflow_example =
    verify-overflow tag plain_event begun (pos 1000) (pos 10000000000) (codes "k") (λ k s. refl)
      refl (omega arith) (omega arith)

on_message-IsLed_example :
    All
      (λ (e : Event). IsLed one (codes "n") (codes "#c") e × (hello.private ≡ false))
      (on_message one (pos 0) (λ _. 0) 0 (codes "x1") hello).1
on_message-IsLed_example = on_message-IsLed one (pos 0) (λ _. 0) 0 (codes "x1") hello
