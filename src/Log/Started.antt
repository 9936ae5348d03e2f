-- ===== src/Log/Started.antt =====
-- What log_init leaves when it returns 0.
use fnsproxy.Base.{
  ℕ, ◌≡◌, refl, ap, subst, inl, inr, Bool, true, false, not, ◌&&◌, ◌||◌, Option, none, some, ltb,
  leb, arith, Text, Bool-cases,
}
use fnsproxy.Log.{Target, Log, log_max_size, log_max_number, log_level_all}
use fnsproxy.Log.Start.{log_init, is_used, paths_fit, with_settings}

-- The log is started with these settings, and none of its files is open.
pub record IsStarted (log_level log_size log_number : ℕ) (log_multi : Bool) (log : Log)
    : Type 0 where
  pub has_init : log.has_init ≡ true
  pub buffer : log.buffer ≡ true
  pub level : log.level ≡ log_level
  pub size : log.size ≡ log_size
  pub number : log.number ≡ log_number
  pub multi : log.multi ≡ log_multi
  pub closed : (i : ℕ) → is_used log_multi i ≡ true → (log.files i).is_open ≡ false

module _ (disk : Text → Target) (writable mapped : Bool) (dir filename : Text) (level size n : ℕ)
    (multi : Bool) (log log' : Log) where
  log_of : Option (Bool × Log) → Log
  log_of none = log'
  log_of (some (ok, l)) = l

  started : Log
  started = record (with_settings disk dir filename level size n multi log) {
    has_init = true;
    buffer = true;
  }

  started-IsStarted : IsStarted level size n multi started
  unfolding started
  started-IsStarted = record {
    has_init = refl;
    buffer = refl;
    level = refl;
    size = refl;
    number = refl;
    multi = refl;
    closed = λ i used. rw used refl;
  }

  -- A log that `log_init` starts was not started before, and is started then, with its files closed.
  pub log_init-IsStarted :
      log_init disk writable mapped dir filename level size n multi log ≡ some (true, log')
      → (log.has_init ≡ false) × IsStarted level size n multi log'
  unfolding log_init started log_of
  log_init-IsStarted e =
      elim (Bool-cases
        (leb level log_level_all && leb size log_max_size && ltb 0 n && leb n log_max_number)) [
          | inr bad ↦ absurd (ground (arith, rw (bad, log_init) at e))
          | inl good ↦ elim (Bool-cases (log.has_init || not writable)) [
            | inl refused ↦ absurd (ground (arith, rw (good, refused, log_init) at e))
            | inr allowed ↦ elim (Bool-cases (paths_fit dir filename multi)) [
              | inr long ↦ absurd (ground (arith, rw (good, allowed, long, log_init) at e))
              | inl fits ↦ elim (Bool-cases (log.buffer || mapped)) [
                | inr unmapped ↦
                    absurd (ground (arith, rw (good, allowed, fits, unmapped, log_init) at e))
                | inl buffered ↦
                    let same : started ≡ log' =
                      ap log_of (rw (good, allowed, fits, buffered, log_init) at e) in
                    (
                      ground (arith, allowed),
                      subst (IsStarted level size n multi) same started-IsStarted,
                    )
              ]
            ]
          ]
        ]
