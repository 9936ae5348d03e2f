-- ===== src/Log/Bounds.antt =====
-- How large the current file of a log becomes over any number of writes.
use fnsproxy.Base.{
  ℕ, ◌+◌, ◌*◌, ◌≡◌, ◌≤◌, ◌<◌, ◌⊎◌, ◌∙◌, refl, ap, inl, inr, true, false, List, [], ◌∷◌, ◌++◌,
  Option, none, some, Bool, if◌then◌else◌, ltb, arith, length, take, length-append, length-take,
  Text, Bool-cases,
}
use fnsproxy.Log.{Target, Calls, content, write_line, log_buffer_size}
use fnsproxy.Log.Rotate.{dropped, queue_rotate}
use fnsproxy.Log.Write.{Queue, queue_write, before_write, Represents, write_line-queue_write}

-- The calls of `log_write` that come to the file, in order.
unfoldable pub writes : (log_size log_number : ℕ) → List (Calls × Text) → Target → Target
writes log_size log_number [] t = t
writes log_size log_number ((calls, line) ∷ rest) t =
    writes log_size log_number rest (write_line calls log_size log_number line t)

-- `fstat` succeeds, and the line is one of the buffer.
abbrev pub Fit : List (Calls × Text) → Type 0
Fit [] = Unit {0}
Fit ((calls, line) ∷ rest) = (calls.stat ≡ true) × (length line ≤ log_buffer_size) × Fit rest

-- How long the file may become by the line that opens it, and by the one for which a number has to be freed first.
abbrev pub reach : (log_number : ℕ) → Queue → ℕ
reach log_number q =
    length (content q.current)
    + (if q.is_open then 0 else log_buffer_size)
    + (if ltb (length q.texts) log_number then 0 else log_buffer_size)

length-dropped-less : (texts : List Text) → 2 ≤ length texts → length (dropped texts) < length texts
unfolding dropped
length-dropped-less [] le = absurd (omega (arith, le))
length-dropped-less (x ∷ []) le = absurd (omega (arith, le))
length-dropped-less (x ∷ y ∷ texts) le = omega arith

-- What is left to grow by is two lines at most.
reach-le :
    (log_number size : ℕ) (texts : List Text) (current : Option Text) (is_open : Bool)
    → length (content current) + (if is_open then 0 else log_buffer_size) ≤ size + log_buffer_size
    → reach log_number (record { texts = texts; current = current; is_open = is_open })
      ≤ size + 2 * log_buffer_size
reach-le log_number size texts current is_open le =
    elim (Bool-cases (ltb (length texts) log_number)) [
      | inl room ↦ rw room (omega (arith, le))
      | inr full ↦ rw full (omega (arith, le))
    ]

module _ (calls : Calls) (log_size log_number bound : ℕ) (line : Text) (q : Queue)
    (known : calls.stat ≡ true) (fits : length line ≤ log_buffer_size) (two_files : 2 ≤ log_number)
    (within : length q.texts ≤ log_number) (large : log_size + 2 * log_buffer_size ≤ bound)
    (near : reach log_number q ≤ bound) where
  queue_write-reach : reach log_number (queue_write calls log_size log_number line q) ≤ bound
  unfolding queue_write before_write queue_rotate
  queue_write-reach =
      let bytes = length-take calls.written line in
      let longer = length-append (content q.current) (take calls.written line) in
      let fewer = length-dropped-less q.texts in
      elim (Bool-cases q.is_open) [
        | inr off ↦ elim (Bool-cases calls.opened) [
          | inl o ↦ rw (off, o) (omega (arith, bytes, longer, rw off at near))
          | inr o ↦ rw (off, o) (rw off at near)
        ]
        | inl on ↦ elim (Bool-cases (ltb log_size (length (content q.current)))) [
          | inr fine ↦
              let le : length (content q.current) ≤ log_size = ground arith in
              rw (on, known, fine)
                (omega (
                  arith,
                  large,
                  reach-le log_number log_size q.texts
                      (some (content q.current ++ take calls.written line)) true
                      (omega (arith, bytes, longer)),
                ))
          | inl long ↦ elim (Bool-cases (ltb (length q.texts) log_number)) [
            | inl room ↦ elim (Bool-cases calls.opened) [
              | inl o ↦
                  rw (on, known, long, room, o)
                    (omega (
                      arith,
                      large,
                      reach-le log_number log_size (q.texts ++ content q.current ∷ [])
                          (some (take calls.written line)) true (omega (arith, bytes)),
                    ))
              | inr o ↦
                  rw (on, known, long, room, o)
                    (omega (
                      arith,
                      large,
                      reach-le log_number log_size (q.texts ++ content q.current ∷ []) none false
                          (omega arith),
                    ))
            ]
            | inr full ↦
                let most : length q.texts ≡ log_number = ground arith in
                let room : ltb (length (dropped q.texts)) log_number ≡ true =
                  ground (arith, fewer, most, two_files) in
                rw (on, known, long, full, room)
                  (omega (arith, bytes, longer, rw (on, full) at near))
          ]
        ]
      ]

-- With two numbered files or more, without a gap in their numbers, where each line is one of the buffer and
-- `fstat` does not fail, the file never grows beyond a bound, over any number of writes and failures
-- of `open` and `write`. The bound is `log_size` and two lines at least; what the file holds at the start
-- stays below it by a line where the file is closed, and by one more where each number is in use.
pub writes-bounded :
    (log_size log_number bound : ℕ) (calls : List (Calls × Text)) (t : Target) (q : Queue)
    → 2 ≤ log_number
    → log_size + 2 * log_buffer_size ≤ bound
    → Represents log_number t q
    → reach log_number q ≤ bound
    → Fit calls
    → length (content (writes log_size log_number calls t).current) ≤ bound
unfolding writes
writes-bounded log_size log_number bound [] t q two_files large is near fit =
    rw (ap (λ (f : Option Text). length (content f)) is.current) (omega (arith, near))
writes-bounded log_size log_number bound ((c, line) ∷ rest) t q two_files large is near fit =
    writes-bounded log_size log_number bound rest (write_line c log_size log_number line t)
      (queue_write c log_size log_number line q) two_files large
      (write_line-queue_write c log_size log_number t q (omega arith) is line)
      (queue_write-reach c log_size log_number bound line q fit.0 fit.1 two_files is.holds.0 large
        near)
      fit.2

module _ (first second : Calls) (log_size log_number : ℕ) (line1 line2 : Text) (t : Target)
    (q : Queue)
    (works : (first.stat ≡ true)
      × (first.opened ≡ true)
      × (second.stat ≡ true)
      × (second.opened ≡ true))
    (two_files : 2 ≤ log_number) (is : Represents log_number t q) (on : q.is_open ≡ true)
    (long : log_size < length (content q.current)) where
  t1 : Target
  t1 = write_line first log_size log_number line1 t

  q1 : Queue
  q1 = queue_write first log_size log_number line1 q

  is1 : Represents log_number t1 q1
  unfolding t1 q1
  is1 = write_line-queue_write first log_size log_number t q (omega arith) is line1

  -- Where two numbers or more are allowed, and `open` and `fstat` succeed, a file that is open and too long
  -- is archived by the second write at the latest: then it holds one line.
  pub write_line-archived :
      let t' = write_line first log_size log_number line1 t in
      let t'' = write_line second log_size log_number line2 t' in
      (t'.current ≡ some (take first.written line1))
      ⊎ (t''.current ≡ some (take second.written line2))
  unfolding t1 queue_write before_write queue_rotate q1
  write_line-archived =
      let large : ltb log_size (length (content q.current)) ≡ true = ground arith in
      elim (Bool-cases (ltb (length q.texts) log_number)) [
        | inl room ↦ inl (is1.current ∙ rw (on, works.0, works.1, large, room) refl)
        | inr full ↦
            let is2 =
              write_line-queue_write second log_size log_number t1 q1 (omega arith) is1 line2 in
            let most : length q.texts ≡ log_number = ground (arith, is.holds.0) in
            let room : ltb (length (dropped q.texts)) log_number ≡ true =
              ground (arith, length-dropped-less q.texts, most, two_files) in
            let grown : ltb log_size (length (content q.current ++ take first.written line1))
                ≡ true =
              ground (arith, length-append (content q.current) (take first.written line1), long) in
            inr (is2.current ∙ rw (on, works.0, large, full, works.2, works.3, grown, room) refl)
      ]
