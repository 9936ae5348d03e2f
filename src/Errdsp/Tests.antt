-- ===== src/Errdsp/Tests.antt =====
-- Messages to a terminal and to a file.
use fnsproxy.Base.{
  ℕ, ◌+◌, ◌/◌, ◌%◌, ◌≡◌, ◌≤◌, ◌<◌, refl, true, false, [], ◌∷◌, ◌++◌, none, some, ltb, if◌then◌else◌,
  Text, codes, length, arith,
}
use fnsproxy.Errdsp.{ed_debug, ed_error, buf_size, snprintf, err_notify, msg_display}
use fnsproxy.Errdsp.Whole.{level_mode, whole_modes, reason, printed, err_notify-whole}

abbrev digits : ℕ → Text
digits n = if ltb n 10 then (48 + n) ∷ [] else (48 + n / 10) ∷ (48 + n % 10) ∷ []

digits_short : (n : ℕ) → n < 100 → length (digits n) ≤ 2
digits_short n h = ground arith

-- A fatal error and a debug message on no terminal, and a message with a level that is none.
printed_error :
    err_notify digits false 38 2 ed_error (codes "ENOENT") (codes "open")
    ≡ some (codes "[error] open: ENOENT" ++ 10 ∷ [])
unfolding err_notify
printed_error = refl

printed_debug :
    err_notify digits false 38 2 ed_debug (codes "ENOENT") (codes "open")
    ≡ some (codes "[debug] open" ++ 10 ∷ [])
unfolding err_notify
printed_debug = refl

printed_none : err_notify digits true 38 2 7 (codes "ENOENT") (codes "open") ≡ none
unfolding err_notify
printed_none = refl

-- In red on a terminal; without an end of the line elsewhere.
displayed :
    msg_display digits true 1 (codes "a")
    ≡ 27 ∷ (codes "[0;31ma" ++ (27 ∷ (codes "[0m" ++ 10 ∷ [])))
unfolding msg_display
displayed = refl

displayed_to_file : msg_display digits false 1 (codes "a") ≡ codes "a"
unfolding msg_display
displayed_to_file = refl

err_notify-whole_example :
    err_notify digits true 38 2 ed_error (codes "ENOENT") (codes "open")
    ≡ printed true
        (snprintf buf_size (codes "open") ++ (reason 38 2 ed_error (codes "ENOENT") ++ 10 ∷ []))
        (whole_modes digits (level_mode ed_error))
err_notify-whole_example =
    err_notify-whole digits digits_short true 38 2 ed_error (codes "ENOENT") (codes "open")
      (omega arith)
