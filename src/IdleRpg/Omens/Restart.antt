-- ===== src/IdleRpg/Omens/Restart.antt =====
-- The world event of internal/idlerpg/worldevent.go through a restart.
use annoybots.Base.{
  ℕ, ◌≡◌, refl, Bool, [], Option, none, some, text_eq, text_eq_refl, arith, get_elem?, Bool-cases,
  Option-cases, inl, inr,
}
use annoybots.Base.Int.{ℤ, leb_ℤ}
use annoybots.State.{MemStore, set_str, get_str, del}
use annoybots.State.Fields.{get_str-set_str, get_str-del}
use annoybots.IdleRpg.Quest.{Player}
use annoybots.IdleRpg.Omens.{
  WorldEvent, OmenCodec, Omens, event_key, world_event_kinds, clear_world_event, load_world_event,
  save_world_event, begin_world_event, world_event_tick,
}

-- The process before its first tick: the same store, and nothing in memory.
abbrev pub restarted : Omens → Omens
restarted o = record { store = o.store; wevent = none }

-- What is in memory is what a restart reads back.
abbrev pub IsKept : OmenCodec → Omens → Type 0
IsKept json o = (load_world_event json (restarted o)).wevent ≡ o.wevent

-- What is read back of the key that was written, and of the key that was deleted.
gone : (m : MemStore) → get_str (del m event_key) event_key ≡ []
gone m = ground (arith, get_str-del m event_key event_key, text_eq_refl event_key)

module _ (json : OmenCodec) where
  kept :
      (m : MemStore) (e : WorldEvent)
      → get_str (set_str m event_key (json.encode e)) event_key ≡ json.encode e
  kept m e =
      ground (arith, get_str-set_str m event_key event_key (json.encode e), text_eq_refl event_key)

  saved-IsKept :
      (m : MemStore) (e : WorldEvent)
      → IsKept json (record { store = save_world_event json m e; wevent = some e })
  unfolding load_world_event save_world_event
  saved-IsKept m e = rw (kept m e, json.encode-ne-nil e, json.decode-encode e) refl

  cleared-IsKept : (o : Omens) → IsKept json (clear_world_event o)
  unfolding load_world_event clear_world_event text_eq
  cleared-IsKept o = rw (gone o.store) refl

  begin-IsKept :
      (o : Omens) (now : ℤ) (who : Option Player) (pick : ℕ)
      → IsKept json o
      → IsKept json (begin_world_event json o now who pick)
  unfolding begin_world_event
  begin-IsKept o now none pick k = k
  begin-IsKept o now (some p) pick k = elim (Option-cases (get_elem? world_event_kinds pick)) [
    | inl out ↦ rw (out, begin_world_event) k
    | inr (e, at) ↦ rw (at, begin_world_event) (saved-IsKept o.store _)
  ]

  -- A tick keeps the event in memory equal to the one that a restart would read from the store,
  -- whether it ends an event, begins one, or does neither.
  pub world_event_tick-IsKept :
      (o : Omens) (now : ℤ) (begins : Bool) (who : Option Player) (pick : ℕ)
      → IsKept json o
      → IsKept json (world_event_tick json o now begins who pick)
  unfolding world_event_tick
  world_event_tick-IsKept o now begins who pick k = elim (Option-cases o.wevent) [
    | inl idle ↦ elim (Bool-cases begins) [
      | inl on ↦ rw (idle, on, world_event_tick) (begin-IsKept o now who pick k)
      | inr off ↦ rw (idle, off, world_event_tick) k
    ]
    | inr (e, at) ↦ elim (Bool-cases (leb_ℤ e.deadline now)) [
      | inl past ↦ rw (at, past, world_event_tick) (cleared-IsKept o)
      | inr early ↦ rw (at, early, world_event_tick) k
    ]
  ]
