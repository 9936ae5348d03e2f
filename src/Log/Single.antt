-- ===== src/Log/Single.antt =====
-- A log with one numbered file: the loop of log_rotate that frees a number has no round.
use mathlib.Core.List.{append_assoc, append-nil}
use fnsproxy.Base.{
  ℕ, ◌≡◌, ◌∙◌, refl, sym, ap, inl, inr, true, ltb, List, [], ◌∷◌, ◌++◌, some, arith, length, take,
  Text, Bool-cases,
}
use fnsproxy.Log.{Target, Calls, content, log_rotate, write_line}
use fnsproxy.Log.Bounds.{writes}

-- What comes to the file of these lines.
unfoldable pub all_written : List (Calls × Text) → Text
all_written [] = []
all_written ((calls, line) ∷ rest) = take calls.written line ++ all_written rest

-- Each `open` succeeds.
abbrev pub AllOpen : List (Calls × Text) → Type 0
AllOpen [] = Unit {0}
AllOpen ((calls, line) ∷ rest) = (calls.opened ≡ true) × AllOpen rest

module _ (calls : Calls) (log_size : ℕ) (line archived : Text) (t : Target)
    (there : t.numbered 0 ≡ some archived) where
  log_rotate-same : (log_rotate calls.stat log_size 1 t).1 ≡ t
  unfolding log_rotate
  log_rotate-same = elim (Bool-cases calls.stat) [
    | inr unknown ↦ rw unknown refl
    | inl known ↦ elim (Bool-cases (ltb log_size (length (content t.current)))) [
      | inl long ↦ rw (known, long, there) refl
      | inr fine ↦ rw (known, fine) refl
    ]
  ]

  write_line-appends :
      calls.opened ≡ true
      → let t' = write_line calls log_size 1 line t in
        (t'.numbered 0 ≡ some archived)
        × (content t'.current ≡ content t.current ++ take calls.written line)
  unfolding write_line
  write_line-appends opened = elim (Bool-cases t.is_open) [
    | inl on ↦ rw (on, opened) (ground (arith, log_rotate-same))
    | inr off ↦ rw (off, opened) (there, refl)
  ]

-- With a `log_number` of 1, which log_init allows, once path.0 is there the log file is never rotated again,
-- whatever its size and `log_size`: where each `open` succeeds, it holds after any number of writes what
-- it held, and then each line as far as it was written.
pub writes-all_written :
    (log_size : ℕ) (calls : List (Calls × Text)) (archived : Text) (t : Target)
    → t.numbered 0 ≡ some archived
    → AllOpen calls
    → content (writes log_size 1 calls t).current ≡ content t.current ++ all_written calls
unfolding writes all_written
writes-all_written log_size [] archived t there opened = sym (append-nil _)
writes-all_written log_size ((c, line) ∷ rest) archived t there opened =
    let (still, appended) = write_line-appends c log_size line archived t there opened.0 in
    writes-all_written log_size rest archived (write_line c log_size 1 line t) still opened.1
    ∙ (ap (λ (text : Text). text ++ all_written rest) appended
        ∙ append_assoc (content t.current) (take c.written line) (all_written rest))
