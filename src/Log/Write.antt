-- ===== src/Log/Write.antt =====
-- The end of log_write, on the queue of texts that the files of a log are.
use fnsproxy.Base.{
  ℕ, ◌≡◌, ◌≤◌, ◌∙◌, refl, sym, ap, subst, inl, inr, Bool, true, false, not, ◌&&◌, ◌||◌, List, ◌++◌,
  Option, some, if◌then◌else◌, arith, take, Text, Bool-cases,
}
use fnsproxy.Log.{Target, Calls, content, log_rotate, write_line}
use fnsproxy.Log.Rotate.{Holds, queue_rotate, log_rotate-queue_rotate}

-- The log without its numbers: the texts of the numbered files, the oldest first, and the current file.
pub record Queue : Type 0 where
  pub texts : List Text
  pub current : Option Text
  pub is_open : Bool

-- The rotation that a write begins with: whether the file is to be opened anew, the texts and the file.
unfoldable pub before_write :
    Calls → (log_size log_number : ℕ) → Queue → Bool × List Text × Option Text
unfolding queue_rotate
before_write calls log_size log_number q =
    if q.is_open
    then if calls.stat
      then queue_rotate log_size log_number q.texts (content q.current)
      else (true, q.texts, q.current)
    else (false, q.texts, q.current)

unfoldable pub queue_write : Calls → (log_size log_number : ℕ) → (line : Text) → Queue → Queue
unfolding before_write
queue_write calls log_size log_number line q =
    let (anew, texts, current) = before_write calls log_size log_number q in
    if q.is_open && not anew || calls.opened
    then record {
      texts = texts;
      current = some (content current ++ take calls.written line);
      is_open = true;
    }
    else record { texts = texts; current = current; is_open = false }

-- The files hold the queue, and a file that is open is there.
pub record Represents (number : ℕ) (t : Target) (q : Queue) : Type 0 where
  pub holds : Holds number t q.texts
  pub current : t.current ≡ q.current
  pub is_open : t.is_open ≡ q.is_open
  pub there : q.is_open ≡ true → q.current ≡ some (content q.current)

-- The rotation that `write_line` begins with.
abbrev moved : Calls → (log_size log_number : ℕ) → Target → Bool × Target
moved calls log_size log_number t =
    if t.is_open then log_rotate calls.stat log_size log_number t else (false, t)

module _ (calls : Calls) (log_size log_number : ℕ) (t : Target) (q : Queue)
    (some_files : 1 ≤ log_number) (is : Represents log_number t q) where
  shown : {b : Bool} → q.is_open ≡ b → t.is_open ≡ b
  shown e = is.is_open ∙ e

  -- The files `r` are what `before_write` says.
  Agrees : Bool × Target → Type 0
  unfolding before_write
  Agrees r =
      let (anew, texts, current) = before_write calls log_size log_number q in
      (r.0 ≡ anew)
      × Holds log_number r.1 texts
      × (r.1.current ≡ current)
      × (r.1.is_open ≡ q.is_open)

  moved-before_write : Agrees (moved calls log_size log_number t)
  unfolding Agrees before_write
  moved-before_write = elim (Bool-cases q.is_open) [
    | inr closed ↦
        let run : moved calls log_size log_number t ≡ (false, t) =
          ap (λ (b : Bool). if b then log_rotate calls.stat log_size log_number t else (false, t))
            (shown closed) in
        subst Agrees (sym run) (rw closed (refl, is.holds, is.current, shown closed))
    | inl opened ↦
        let run : moved calls log_size log_number t ≡ log_rotate calls.stat log_size log_number t =
          ap (λ (b : Bool). if b then log_rotate calls.stat log_size log_number t else (false, t))
            (shown opened) in
        subst Agrees (sym run) (elim (Bool-cases calls.stat) [
          | inr unknown ↦
              let kept : log_rotate calls.stat log_size log_number t ≡ (true, t) =
                rw unknown (unfold log_rotate in refl) in
              subst Agrees (sym kept)
                (rw (opened, unknown) (refl, is.holds, is.current, shown opened))
          | inl known ↦
              let (same, holds, current, still) =
                log_rotate-queue_rotate log_size log_number t q.texts (content q.current) some_files
                  is.holds (is.current ∙ is.there opened) in
              rw (opened, known) (same, holds, current, still ∙ shown opened)
        ])
  ]

  -- With a number of files of at least one, what `log_write` does to its file is what it does to the queue:
  -- the rotation that the queue says, then the line at the end of the file, opened anew where it has to
  -- be, and nothing where that fails.
  pub write_line-queue_write :
      (line : Text)
      → Represents log_number
          (write_line calls log_size log_number line t)
          (queue_write calls log_size log_number line q)
  unfolding write_line queue_write Agrees
  write_line-queue_write line =
      let (rotated, holds, current, still) = moved-before_write in
      let (anew, texts, file) = before_write calls log_size log_number q in
      let m = moved calls log_size log_number t in
      let ready : (m.1.is_open && not m.0 || calls.opened)
          ≡ (q.is_open && not anew || calls.opened) =
        λ i. still i && not (rotated i) || calls.opened in
      elim (Bool-cases (q.is_open && not anew || calls.opened)) [
        | inl on ↦
            rw (ready ∙ on, on)
              (record {
                holds = holds;
                current =
                    ap (λ (f : Option Text). some (content f ++ take calls.written line)) current;
                is_open = refl;
                there = λ e. refl;
              })
        | inr off ↦
            rw (ready ∙ off, off)
              (record {
                holds = holds;
                current = current;
                is_open = refl;
                there = λ e. absurd (ground arith);
              })
      ]
