-- ===== src/Event/Tests.antt =====
-- A registration, a removal, and a registration again.
use fnsproxy.Base.{
  ◌++◌, length, ◌+◌, ◌%◌, ◌≡◌, ◌≤◌, refl, [], ◌∷◌, true, false, some, u32_mod, arith,
}
use fnsproxy.Event.{Registered, modify, regis, event_of}
use fnsproxy.Event.Loop.{Round, ready, interrupted, tick_at, handled, stopped, running, event_loop}
use fnsproxy.Event.Loop.Ticks.{ticks, Apart, GoesOn, event_loop-Apart, event_loop-ticks}
use fnsproxy.Event.Registration.{after, adds, removes, regis-adds}

abbrev fresh : Registered
fresh = record { added = false; fd_count = 0 }

regis-modify :
    (regis (after (1 ∷ 0 ∷ []) fresh) 1).0
    ≡ some (record { op = modify; reads = true; writes = false })
unfolding after regis
regis-modify = refl

regis-adds_example :
    (adds (1 ∷ 0 ∷ 1 ∷ []) fresh ≤ 1)
    × (fresh.added ≡ true → adds (1 ∷ 0 ∷ 1 ∷ []) fresh ≡ 0)
    × (((after (1 ∷ 0 ∷ 1 ∷ []) fresh).fd_count + removes (1 ∷ 0 ∷ 1 ∷ []) fresh) % u32_mod
        ≡ (fresh.fd_count + adds (1 ∷ 0 ∷ 1 ∷ []) fresh) % u32_mod)
regis-adds_example = regis-adds (1 ∷ 0 ∷ 1 ∷ []) fresh (omega arith)

-- A wait that is interrupted early, and one with a descriptor to read after twelve milliseconds.
abbrev early : Round
early = record { wait = interrupted; now = 5000; stops = false }

abbrev late : Round
late = record {
  wait = ready (record { hup = false; rdhup = false; readable = true; writable = true } ∷ []);
  now = 12000;
  stops = false;
}

one_tick : event_loop 10 0 false (early ∷ late ∷ []) ≡ (tick_at 12000 ∷ handled 1 ∷ [], running)
unfolding event_loop event_of
one_tick = refl

-- What is ready in the round in which the loop is stopped is handled.
handled_at_stop :
    event_loop 10 0 false (record late { stops = true } ∷ early ∷ [])
    ≡ (tick_at 12000 ∷ handled 1 ∷ [], stopped)
unfolding event_loop event_of
handled_at_stop = refl

event_loop-Apart_example : Apart 10 0 (ticks (event_loop 10 0 false (early ∷ late ∷ [])).0)
event_loop-Apart_example = event_loop-Apart 10 0 false (early ∷ late ∷ []) (omega arith)

late-GoesOn : GoesOn ((early ∷ []) ++ late ∷ [])
late-GoesOn = (refl, λ e. absurd (ground arith), (refl, λ e. absurd (ground arith), tt))

event_loop-ticks_example : 1 ≤ length (ticks (event_loop 10 0 false ((early ∷ []) ++ late ∷ [])).0)
event_loop-ticks_example = event_loop-ticks 10 0 (early ∷ []) late late-GoesOn (omega arith)
