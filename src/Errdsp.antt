-- ===== src/Errdsp.antt =====
-- errdsp.c: the messages to the terminal.
-- What `vsnprintf` would write of the format is an argument, as are `errno`, the text of `strerror`, and
-- whether the stream is a terminal. `decimal` is the `%d` of `snprintf`.
pub mod Whole
mod Tests
use fnsproxy.Base.{
  ℕ, ◌+◌, ◌-◌, Bool, true, false, ◌||◌, List, [], ◌∷◌, ◌++◌, Option, none, some, ◌==◌,
  if◌then◌else◌, take, Text, codes,
}

-- The levels.
abbrev pub ed_debug : ℕ
ed_debug = 0

abbrev pub ed_alert : ℕ
ed_alert = 1

abbrev pub ed_error : ℕ
ed_error = 2

abbrev pub ed_fatal : ℕ
ed_fatal = 3

-- The colours of the levels.
abbrev pub ed_red : ℕ
ed_red = 1

abbrev pub ed_green : ℕ
ed_green = 2

abbrev pub ed_yellow : ℕ
ed_yellow = 3

abbrev pub ed_blue : ℕ
ed_blue = 4

-- The modes of the terminal.
abbrev pub ed_reset : ℕ
ed_reset = 0

abbrev pub ed_bright : ℕ
ed_bright = 1

-- `BUF_SIZE`
abbrev pub buf_size : ℕ
buf_size = 4096

-- The size of `msg`, `BUF_SIZE + 1024`.
abbrev pub msg_size : ℕ
msg_size = 5120

-- What `snprintf` leaves in a buffer: all but one of its bytes are for the text.
unfoldable pub snprintf : (size : ℕ) → Text → Text
snprintf size text = take (size - 1) text

-- `0x1B`
abbrev pub escape : ℕ
escape = 27

-- `msg` of `__v_message`.
unfoldable pub message : (enosys errno level : ℕ) (strerror expanded : Text) → Text
unfolding snprintf
message enosys errno level strerror expanded =
    let buf = snprintf buf_size expanded in
    if errno == 0 || errno == enosys || level == ed_debug
    then snprintf msg_size (buf ++ 10 ∷ [])
    else snprintf msg_size (buf ++ (b':' ∷ b' ' ∷ (strerror ++ 10 ∷ [])))

module _ (decimal : ℕ → Text) where
  -- `pmode`: the name of a level, in brackets and in colour.
  unfoldable pub coloured : (color : ℕ) (name : Text) → Text
  coloured color name =
      b'['
      ∷ escape
      ∷ b'['
      ∷ (decimal ed_bright
          ++ (b';'
              ∷ (decimal (color + 30)
                  ++ (b'm'
                      ∷ (name ++ (escape ∷ b'[' ∷ (decimal ed_reset ++ (b'm' ∷ b']' ∷ []))))))))

  -- The `switch` of `__v_message`: `pmode` and `lmode`; without a case they hold what the stack held.
  unfoldable pub modes : (level : ℕ) → Option (Text × Text)
  unfolding coloured snprintf
  modes level =
      if level == ed_debug
      then some (snprintf 64 (coloured ed_blue (codes "debug")), codes "[debug]")
      else if level == ed_alert
      then some (snprintf 64 (coloured ed_green (codes "alert")), codes "[alert]")
      else if level == ed_error
      then some (snprintf 64 (coloured ed_yellow (codes "error")), codes "[error]")
      else if level == ed_fatal
      then some (snprintf 64 (coloured ed_red (codes "fatal")), codes "[fatal]")
      else none

  -- `err_notify`: what it prints; `none` where it prints what the stack held.
  unfoldable pub err_notify :
      (tty : Bool) (enosys errno level : ℕ) (strerror expanded : Text) → Option Text
  unfolding modes message
  err_notify tty enosys errno level strerror expanded = elim (modes level) [
    | none ↦ none
    | some (pmode, lmode) ↦
        some ((if tty then pmode else lmode) ++ b' ' ∷ message enosys errno level strerror expanded)
  ]

  -- `msg_display`: on no terminal the line is not ended.
  unfoldable pub msg_display : (tty : Bool) (color : ℕ) (expanded : Text) → Text
  unfolding snprintf
  msg_display tty color expanded =
      let buf = snprintf buf_size expanded in
      if tty
      then snprintf msg_size (
          escape
          ∷ b'['
          ∷ (decimal ed_reset
              ++ (b';'
                  ∷ (decimal (color + 30)
                      ++ (b'm'
                          ∷ (buf ++ (escape ∷ b'[' ∷ (decimal ed_reset ++ (b'm' ∷ 10 ∷ [])))))))))
      else buf
