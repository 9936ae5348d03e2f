-- ===== src/Event/Loop/Ticks.antt =====
-- When the loop of event.c calls its tick.
use mathlib.Core.List.{map}
use fnsproxy.Base.{
  ℕ, ◌+◌, ◌*◌, ◌≡◌, ◌≢◌, ◌≤◌, refl, sym, subst, inl, inr, Bool, true, false, List, [], ◌∷◌, ◌++◌,
  none, if◌then◌else◌, arith, length, Bool-cases, Option-cases,
}
use fnsproxy.Event.Loop.{
  Round, Ready, Call, tick_at, handled, is_due, round_calls, event_loop, handle, served,
}

-- The times of the ticks among the calls.
unfoldable pub ticks : List Call → List ℕ
ticks [] = []
ticks (tick_at e ∷ calls) = e ∷ ticks calls
ticks (handled event ∷ calls) = ticks calls

-- From one to the next, and from `t` to the first, there are at least `interval` milliseconds.
abbrev pub Apart : (interval t : ℕ) → List ℕ → Type 0
Apart interval t [] = Unit {0}
Apart interval t (e ∷ times) = (t + interval * 1000 ≤ e) × Apart interval e times

ticks-handle : (rs : List Ready) (calls : List Call) → ticks (map handle rs ++ calls) ≡ ticks calls
unfolding ticks
ticks-handle [] calls = refl
ticks-handle (r ∷ rs) calls = ticks-handle rs calls

ticks-round_calls :
    (t interval now : ℕ) (rs : List Ready) (calls : List Call)
    → ticks (round_calls t interval now rs ++ calls)
      ≡ (if is_due t now interval then now ∷ ticks calls else ticks calls)
unfolding ticks round_calls
ticks-round_calls t interval now rs calls = elim (Bool-cases (is_due t now interval)) [
  | inl due ↦ rw (due, ticks-handle rs calls) refl
  | inr early ↦ rw (early, ticks-handle rs calls) refl
]

is_due-apart :
    (t e interval : ℕ) → 1 ≤ interval → is_due t e interval ≡ true → t + interval * 1000 ≤ e
unfolding is_due
is_due-apart t e interval positive due = ground arith

is_due-late : (t e interval : ℕ) → t + interval * 1000 ≤ e → is_due t e interval ≡ true
unfolding is_due
is_due-late t e interval late = ground arith

abbrev next_t : (t now interval : ℕ) → ℕ
next_t t now interval = if is_due t now interval then now else t

-- A round adds its tick, where one is due, to the ticks of the rounds that follow.
round-Apart :
    (interval t : ℕ) (now : ℕ) (rs : List Ready) (calls : List Call)
    → 1 ≤ interval
    → Apart interval (next_t t now interval) (ticks calls)
    → Apart interval t (ticks (round_calls t interval now rs ++ calls))
round-Apart interval t now rs calls positive apart =
    subst (Apart interval t) (sym (ticks-round_calls t interval now rs calls))
      (elim (Bool-cases (is_due t now interval)) [
        | inl due ↦ rw due (is_due-apart t now interval positive due, rw due at apart)
        | inr early ↦ rw early (rw early at apart)
      ])

-- With a positive interval, from the start of the loop to its first tick, and from each tick to the next,
-- at least the interval passes, whatever the rounds and the clock.
pub event_loop-Apart :
    (interval t : ℕ) (stop : Bool) (rounds : List Round)
    → 1 ≤ interval
    → Apart interval t (ticks (event_loop interval t stop rounds).0)
unfolding event_loop ticks
event_loop-Apart interval t true [] positive = tt
event_loop-Apart interval t false [] positive = tt
event_loop-Apart interval t true (r ∷ rounds) positive = tt
event_loop-Apart interval t false (r ∷ rounds) positive =
    let later = event_loop-Apart interval (next_t t r.now interval) r.stops rounds positive in
    elim (Option-cases (served r.wait)) [
      | inl gone ↦ rw gone tt
      | inr (rs, here) ↦ rw here (round-Apart interval t r.now rs _ positive later)
    ]

-- The loop goes on through these rounds.
abbrev pub GoesOn : List Round → Type 0
GoesOn [] = Unit {0}
GoesOn (r ∷ rounds) = (r.stops ≡ false) × (served r.wait ≢ none) × GoesOn rounds

-- Where nothing stops the loop, the tick is called by the first round whose time is the interval or more
-- after the start, `EINTR` or not: the calls of the rounds up to it have a tick.
pub event_loop-ticks :
    (interval t : ℕ) (rounds : List Round) (r : Round)
    → GoesOn (rounds ++ r ∷ [])
    → t + interval * 1000 ≤ r.now
    → 1 ≤ length (ticks (event_loop interval t false (rounds ++ r ∷ [])).0)
unfolding event_loop ticks
event_loop-ticks interval t [] r on late = elim (Option-cases (served r.wait)) [
  | inl gone ↦ absurd (on.1 gone)
  | inr (rs, here) ↦ rw here (
      rw (ticks-round_calls t interval r.now rs [], is_due-late t r.now interval late)
        (omega arith))
]
event_loop-ticks interval t (first ∷ rounds) r on late = elim (Option-cases (served first.wait)) [
  | inl gone ↦ absurd (on.1 gone)
  | inr (rs, here) ↦
      let calls = (event_loop interval (next_t t first.now interval) false (rounds ++ r ∷ [])).0 in
      elim (Bool-cases (is_due t first.now interval)) [
        | inl due ↦
            rw (here, on.0, ticks-round_calls t interval first.now rs calls, due) (omega arith)
        | inr early ↦
            rw (here, on.0, ticks-round_calls t interval first.now rs calls, early)
              (event_loop-ticks interval t rounds r on.2 late)
      ]
]
