-- ===== src/Log/Kept.antt =====
-- What a write to a log keeps of what was written.
use mathlib.Core.List.{append_assoc, append-nil}
use fnsproxy.Base.{
  ℕ, ◌≡◌, ◌≤◌, ◌∙◌, sym, ap, inl, inr, Bool, true, not, ◌&&◌, List, [], ◌∷◌, ◌++◌, Option, some,
  ltb, if◌then◌else◌, length, take, Text, Bool-cases,
}
use fnsproxy.Log.{Target, Calls, content, write_line}
use fnsproxy.Log.Rotate.{dropped, queue_rotate}
use fnsproxy.Log.Write.{Queue, queue_write, before_write, Represents, write_line-queue_write}

unfoldable pub joined : List Text → Text
joined [] = []
joined (text ∷ texts) = text ++ joined texts

-- All that the files hold, from the oldest text on.
unfoldable pub whole : List Text → Option Text → Text
unfolding joined
whole texts current = joined texts ++ content current

joined-push : (texts : List Text) (text : Text) → joined (texts ++ text ∷ []) ≡ joined texts ++ text
unfolding joined
joined-push [] text = append-nil text
joined-push (x ∷ texts) text =
    ap (λ (r : Text). x ++ r) (joined-push texts text) ∙ sym (append_assoc x (joined texts) text)

-- The line as far as it is written.
abbrev pub appended : Calls → (line : Text) → (is_open : Bool) → Text
appended calls line is_open = if is_open then take calls.written line else []

-- The texts that a write keeps: all, or all but the oldest where the file is too long and each number is in use.
abbrev pub kept : (log_size log_number : ℕ) → Queue → List Text
kept log_size log_number q =
    if q.is_open
      && ltb log_size (length (content q.current))
      && not (ltb (length q.texts) log_number)
    then dropped q.texts
    else q.texts

module _ (calls : Calls) (log_size log_number : ℕ) (line : Text) (q : Queue) where
  whole-push :
      (texts : List Text) (text : Option Text) (w : Text)
      → whole texts (some (content text ++ w)) ≡ whole texts text ++ w
  unfolding whole
  whole-push texts text w = sym (append_assoc (joined texts) (content text) w)

  whole-archived :
      (texts : List Text) (text : Option Text) (w : Text)
      → whole (texts ++ content text ∷ []) (some w) ≡ whole texts text ++ w
  unfolding whole
  whole-archived texts text w = ap (λ (r : Text). r ++ w) (joined-push texts (content text))

  queue_write-whole :
      calls.stat ≡ true
      → let q' = queue_write calls log_size log_number line q in
        whole q'.texts q'.current
        ≡ whole (kept log_size log_number q) q.current ++ appended calls line q'.is_open
  unfolding queue_write before_write queue_rotate whole
  queue_write-whole known =
      let w = take calls.written line in
      let still : whole q.texts q.current ≡ whole q.texts q.current ++ [] = sym (append-nil _) in
      elim (Bool-cases q.is_open) [
        | inr off ↦ elim (Bool-cases calls.opened) [
          | inl o ↦ rw (off, o) (whole-push q.texts q.current w)
          | inr o ↦ rw (off, o) still
        ]
        | inl on ↦ elim (Bool-cases (ltb log_size (length (content q.current)))) [
          | inr fine ↦ rw (on, known, fine) (whole-push q.texts q.current w)
          | inl long ↦ elim (Bool-cases (ltb (length q.texts) log_number)) [
            | inr full ↦ rw (on, known, long, full) (whole-push (dropped q.texts) q.current w)
            | inl room ↦ elim (Bool-cases calls.opened) [
              | inl o ↦ rw (on, known, long, room, o) (whole-archived q.texts q.current w)
              | inr o ↦ rw (on, known, long, room, o) (whole-archived q.texts q.current [])
            ]
          ]
        ]
      ]

-- Where `fstat` succeeds, a number of files of one or more is allowed, and there is no gap in the numbers of
-- the files that are there, a write keeps what the files held, in order, but for the oldest text where the
-- file is too long and each number is in use, and what is written of the line comes at the end: the
-- files are again numbered without a gap, and are those of a queue with that content.
pub write_line-whole :
    (calls : Calls) (log_size log_number : ℕ) (line : Text) (t : Target) (q : Queue)
    → 1 ≤ log_number
    → calls.stat ≡ true
    → Represents log_number t q
    → (q' : Queue) × Represents log_number (write_line calls log_size log_number line t) q'
      × (whole q'.texts q'.current
          ≡ whole (kept log_size log_number q) q.current ++ appended calls line q'.is_open)
write_line-whole calls log_size log_number line t q some_files known is = (
  queue_write calls log_size log_number line q,
  write_line-queue_write calls log_size log_number t q some_files is line,
  queue_write-whole calls log_size log_number line q known,
)
