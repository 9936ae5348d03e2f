-- ===== src/Log/Tests.antt =====
-- A log of two numbered files whose files are full.
use fnsproxy.Base.{
  ℕ, ◌+◌, ◌*◌, ◌≡◌, ◌≤◌, ◌<◌, ◌⊎◌, refl, zero, suc, true, false, [], ◌∷◌, ◌++◌, none, some, ◌==◌,
  if◌then◌else◌, arith, length, take, get_elem?, Text, codes,
}
use fnsproxy.Log.{Target, Calls, content, log_rotate, write_line, log_buffer_size}
use fnsproxy.Log.Rotate.{Holds, queue_rotate, log_rotate-queue_rotate}
use fnsproxy.Log.Write.{Queue, queue_write, Represents, write_line-queue_write}
use fnsproxy.Log.Bounds.{writes, writes-bounded, write_line-archived}
use fnsproxy.Log.Single.{all_written, writes-all_written}
use fnsproxy.Log.Kept.{whole, kept, appended, write_line-whole}

abbrev line : Text
line = codes "line"

-- The current file and the numbered ones.
abbrev full : Target
full = record {
  current = some line;
  numbered = λ i. if i == 0 then some (codes "a") else if i == 1 then some (codes "b") else none;
  is_open = true;
}

abbrev queue : Queue
queue = record { texts = codes "a" ∷ codes "b" ∷ []; current = some line; is_open = true }

full-Holds : Holds 2 full queue.texts
full-Holds = (omega arith, at)
  where
    at : (i : ℕ) → i < 2 → full.numbered i ≡ get_elem? queue.texts i
    at zero lt = refl
    at (suc zero) lt = refl
    at (suc (suc i)) lt = absurd (omega (arith, lt))

full-Represents : Represents 2 full queue
full-Represents = record { holds = full-Holds; current = refl; is_open = refl; there = λ e. refl }

abbrev works : Calls
works = record { mapped = true; stat = true; opened = true; written = 5 }

-- The first write drops the oldest text, the second archives the file.
after_two : (writes 3 2 ((works, line) ∷ (works, line) ∷ []) full).current ≡ some line
unfolding writes write_line
after_two = refl

after_two_archived :
    (writes 3 2 ((works, line) ∷ (works, line) ∷ []) full).numbered 1 ≡ some (line ++ line)
unfolding writes write_line
after_two_archived = refl

-- The loop of the shift does nothing for one number, so that the file stays for ever.
one_number : (log_rotate true 3 1 full) ≡ (false, full)
unfolding log_rotate
one_number = refl

log_rotate-queue_rotate_example :
    let (rotated, t') = log_rotate true 3 2 full in
    let (anew, texts', current) = queue_rotate 3 2 queue.texts line in
    (rotated ≡ anew) × Holds 2 t' texts' × (t'.current ≡ current) × (t'.is_open ≡ full.is_open)
log_rotate-queue_rotate_example =
    log_rotate-queue_rotate 3 2 full queue.texts line (omega arith) full-Holds refl

write_line-queue_write_example :
    Represents 2 (write_line works 3 2 line full) (queue_write works 3 2 line queue)
write_line-queue_write_example =
    write_line-queue_write works 3 2 full queue (omega arith) full-Represents line

-- The same files, after a start: the file is there, and closed.
abbrev restarted : Target
restarted = record full { is_open = false }

restarted-Represents : Represents 2 restarted (record queue { is_open = false })
restarted-Represents = record {
  holds = full-Holds;
  current = refl;
  is_open = refl;
  there = λ e. absurd (ground arith);
}

writes-bounded_example :
    length (content (writes 3 2 ((works, line) ∷ (works, line) ∷ []) restarted).current)
    ≤ 4 + 2 * log_buffer_size
writes-bounded_example =
    writes-bounded 3 2 (4 + 2 * log_buffer_size) ((works, line) ∷ (works, line) ∷ []) restarted
      (record queue { is_open = false }) (omega arith) (omega arith) restarted-Represents
      (omega arith) (refl, omega arith, (refl, omega arith, tt))

write_line-archived_example :
    let t' = write_line works 3 2 line full in
    let t'' = write_line works 3 2 line t' in
    (t'.current ≡ some (take works.written line)) ⊎ (t''.current ≡ some (take works.written line))
write_line-archived_example =
    write_line-archived works works 3 2 line line full queue (refl, refl, refl, refl) (omega arith)
      full-Represents refl (omega arith)

write_line-whole_example :
    (q' : Queue) × Represents 2 (write_line works 3 2 line full) q'
    × (whole q'.texts q'.current
        ≡ whole (kept 3 2 queue) queue.current ++ appended works line q'.is_open)
write_line-whole_example =
    write_line-whole works 3 2 line full queue (omega arith) refl full-Represents

-- With one number, the file grows by each line though it is too long.
writes-all_written_example :
    content (writes 3 1 ((works, line) ∷ (works, line) ∷ []) full).current
    ≡ line ++ all_written ((works, line) ∷ (works, line) ∷ [])
writes-all_written_example =
    writes-all_written 3 ((works, line) ∷ (works, line) ∷ []) (codes "a") full refl
      (refl, (refl, tt))
