-- ===== src/Errdsp/Whole.antt =====
-- The buffers of errdsp.c are large enough.
use fnsproxy.Base.{
  length-append, ℕ, zero, suc, ◌+◌, ◌-◌, ◌≡◌, ◌≢◌, ◌≤◌, ◌<◌, refl, ap, Bool, ◌||◌, [], ◌∷◌, ◌++◌,
  Option, none, some, ◌==◌, if◌then◌else◌, take, Text, codes, length, arith, Bool-cases, inl, inr,
}
use fnsproxy.Errdsp.{
  ed_debug, ed_alert, ed_error, ed_fatal, ed_red, ed_green, ed_yellow, ed_blue, ed_reset, ed_bright,
  buf_size, msg_size, snprintf, coloured, modes, message, err_notify,
}

-- A text that fits is left whole.
take_all : (n : ℕ) (text : Text) → length text ≤ n → take n text ≡ text
take_all zero [] h = refl
take_all zero (c ∷ text) h = absurd (omega arith)
take_all (suc n) [] h = refl
take_all (suc n) (c ∷ text) h = ap (λ (t : Text). c ∷ t) (take_all n text (omega arith))

length-take_most : (n : ℕ) (text : Text) → length (take n text) ≤ n
length-take_most zero text = omega arith
length-take_most (suc n) [] = omega arith
length-take_most (suc n) (c ∷ text) = omega (arith, length-take_most n text)

pub snprintf_all : (size : ℕ) (text : Text) → length text < size → snprintf size text ≡ text
unfolding snprintf
snprintf_all size text h = take_all (size - 1) text (omega arith)

pub length-snprintf : (size : ℕ) (text : Text) → size ≢ 0 → length (snprintf size text) < size
unfolding snprintf
length-snprintf size text set = omega (arith, length-take_most (size - 1) text)

-- What follows the text of a message.
abbrev pub reason : (enosys errno level : ℕ) (strerror : Text) → Text
reason enosys errno level strerror =
    if errno == 0 || errno == enosys || level == ed_debug then [] else b':' ∷ b' ' ∷ strerror

-- The colour and the name of a level.
abbrev pub level_mode : (level : ℕ) → Option (ℕ × Text)
level_mode level =
    if level == ed_debug
    then some (ed_blue, codes "debug")
    else if level == ed_alert
    then some (ed_green, codes "alert")
    else if level == ed_error
    then some (ed_yellow, codes "error")
    else if level == ed_fatal
    then some (ed_red, codes "fatal")
    else none

message-whole :
    (enosys errno level : ℕ) (strerror expanded : Text)
    → length strerror < 1022
    → message enosys errno level strerror expanded
      ≡ snprintf buf_size expanded ++ (reason enosys errno level strerror ++ 10 ∷ [])
unfolding message
message-whole enosys errno level strerror expanded h =
    let buf = snprintf buf_size expanded in
    let most = length-snprintf buf_size expanded (ground arith) in
    elim (Bool-cases (errno == 0 || errno == enosys || level == ed_debug)) [
      | inl silent ↦ rw (silent) (
          snprintf_all msg_size (buf ++ 10 ∷ []) (omega (arith, most, length-append buf (10 ∷ []))))
      | inr told ↦ rw told (
          snprintf_all msg_size (buf ++ (b':' ∷ b' ' ∷ (strerror ++ 10 ∷ [])))
            (omega (arith, most, length-append {0})))
    ]

-- The text of a level on a terminal, and elsewhere.
abbrev pub whole_modes : (decimal : ℕ → Text) → Option (ℕ × Text) → Option (Text × Text)
whole_modes decimal none = none
whole_modes decimal (some (color, name)) =
    some (coloured decimal color name, b'[' ∷ (name ++ b']' ∷ []))

-- The mode, a blank and the message.
abbrev pub printed : (tty : Bool) (text : Text) → Option (Text × Text) → Option Text
printed tty text modes = elim modes [
  | none ↦ none
  | some (pmode, lmode) ↦ some ((if tty then pmode else lmode) ++ b' ' ∷ text)
]

module _ (decimal : ℕ → Text) (short : (n : ℕ) → n < 100 → length (decimal n) ≤ 2) where
  length-coloured :
      (color : ℕ) (name : Text)
      → color ≤ 7
      → length name ≡ 5
      → length (coloured decimal color name) < 64
  unfolding coloured
  length-coloured color name few five =
      let bright = short ed_bright (omega arith) in
      let hue = short (color + 30) (omega arith) in
      let reset = short ed_reset (omega arith) in
      omega (arith, length-append {0}, bright, hue, reset)

  fits :
      (color : ℕ) (name : Text)
      → color ≤ 7
      → length name ≡ 5
      → ◌≡◌ {A = Option (Text × Text)}
          (some (snprintf 64 (coloured decimal color name), b'[' ∷ (name ++ b']' ∷ [])))
          (some (coloured decimal color name, b'[' ∷ (name ++ b']' ∷ [])))
  fits color name few five =
      ap (λ (t : Text). some (t, b'[' ∷ (name ++ b']' ∷ [])))
        (snprintf_all 64 (coloured decimal color name) (length-coloured color name few five))

  modes-whole_modes : (level : ℕ) → modes decimal level ≡ whole_modes decimal (level_mode level)
  unfolding modes
  modes-whole_modes level = elim (Bool-cases (level == ed_debug)) [
    | inl e ↦ rw e (fits ed_blue (codes "debug") (omega arith) refl)
    | inr d ↦ elim (Bool-cases (level == ed_alert)) [
      | inl e ↦ rw (d, e) (fits ed_green (codes "alert") (omega arith) refl)
      | inr a ↦ elim (Bool-cases (level == ed_error)) [
        | inl e ↦ rw (d, a, e) (fits ed_yellow (codes "error") (omega arith) refl)
        | inr r ↦ elim (Bool-cases (level == ed_fatal)) [
          | inl e ↦ rw (d, a, r, e) (fits ed_red (codes "fatal") (omega arith) refl)
          | inr f ↦ rw (d, a, r, f) refl
        ]
      ]
    ]
  ]

  -- `err_notify` with a level that it knows prints the level, in colour on a terminal, and the whole message,
  -- of which the text is cut to 4095 bytes, with the reason if there is one, and a line break: the
  -- buffers of 64 and 5120 bytes are large enough. With another level it prints what the stack held. A
  -- number below 100 has two digits at most, and what `strerror` returns has less than 1022 bytes.
  pub err_notify-whole :
      (tty : Bool) (enosys errno level : ℕ) (strerror expanded : Text)
      → length strerror < 1022
      → err_notify decimal tty enosys errno level strerror expanded
        ≡ printed tty
            (snprintf buf_size expanded ++ (reason enosys errno level strerror ++ 10 ∷ []))
            (whole_modes decimal (level_mode level))
  unfolding err_notify
  err_notify-whole tty enosys errno level strerror expanded h = λ i.
      printed tty (message-whole enosys errno level strerror expanded h i)
        (modes-whole_modes level i)
