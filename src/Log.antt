-- ===== src/Log.antt =====
-- log.c: the log files, their rotation, and the lines that are written to them.
-- A file is what it holds, `none` where there is none. Nothing else renames or deletes the files, and the
-- names with a number are shorter than `LOG_PATH_MAX`. The time, the process and the expansion of a
-- format are the texts that they give.
pub mod Rotate
pub mod Write
pub mod Bounds
pub mod Kept
pub mod Single
pub mod Start
pub mod Started
mod Tests
use fnsproxy.Base.{
  ℕ, zero, suc, ◌+◌, ◌-◌, Bool, true, false, not, ◌||◌, ◌&&◌, List, [], ◌∷◌, ◌++◌, Option, none,
  some, ◌==◌, ltb, leb, if◌then◌else◌, length, take, update, Text, codes,
}

-- `log_files[i]` and its files: `path` and `path`.n, and whether `fd` is not -1.
pub record Target : Type 0 where
  pub current : Option Text
  pub numbered : ℕ → Option Text
  pub is_open : Bool

abbrev pub content : Option Text → Text
content none = []
content (some text) = text

-- `rename (path, temppath)`
abbrev pub archive : ℕ → Target → Target
archive i t = elim t.current [
  | none ↦ t
  | some text ↦ record t { current = none; numbered = update t.numbered i (some text) }
]

-- `rename (temppath, temppath2)`; it fails where there is no such file.
abbrev pub rename : (from to : ℕ) → Target → Target
rename from to t = elim (t.numbered from) [
  | none ↦ t
  | some text ↦ record t { numbered = update (update t.numbered to (some text)) from none }
]

-- The first loop of `log_rotate`: the first number from `i` on without a file.
pub first_free : (rounds i : ℕ) → Target → Option ℕ
first_free zero i t = none
first_free (suc rounds) i t =
    let later = first_free rounds (suc i) t in
    elim (t.numbered i) [ none ↦ some i | some text ↦ later ]

-- The second loop.
pub shift : (rounds i : ℕ) → Target → Target
shift zero i t = t
shift (suc rounds) i t = shift rounds (suc i) (rename i (i - 1) t)

-- `log_rotate`: whether it returns 0, and the files; `stat` says whether `fstat` succeeds.
pub log_rotate : (stat : Bool) (log_size log_number : ℕ) → Target → Bool × Target
unfolding first_free shift
log_rotate stat log_size log_number t =
    if not stat
    then (true, t)
    else if ltb log_size (length (content t.current))
    then elim (first_free log_number 0 t) [
      | some i ↦ (true, archive i t)
      | none ↦ (false, shift (log_number - 1) 1 t)
    ]
    else (false, t)

-- What the calls of `log_write` return: whether `mmap`, `fstat` and `open` succeed, and how much `write`
-- writes.
pub record Calls : Type 0 where
  pub mapped : Bool
  pub stat : Bool
  pub opened : Bool
  pub written : ℕ

-- The end of `log_write`: the file of the level is rotated and closed, opened and appended to.
pub write_line : Calls → (log_size log_number : ℕ) → (line : Text) → Target → Target
unfolding log_rotate
write_line calls log_size log_number line t =
    let (rotated, moved) =
      if t.is_open then log_rotate calls.stat log_size log_number t else (false, t) in
    let ready = moved.is_open && not rotated in
    if ready || calls.opened
    then record moved {
      current = some (content moved.current ++ take calls.written line);
      is_open = true;
    }
    else record moved { is_open = false }

-- `LOG_BUFFER_SIZE`, `LOG_PATH_MAX`, `LOG_MAX_SIZE`, `LOG_MAX_NUMBER` and `LOG_LEVEL_ALL`.
abbrev pub log_buffer_size : ℕ
log_buffer_size = 4096

abbrev pub log_path_max : ℕ
log_path_max = 1024

abbrev pub log_max_size : ℕ
log_max_size = 1073741824

abbrev pub log_max_number : ℕ
log_max_number = 100

abbrev pub log_level_all : ℕ
log_level_all = 4

-- The static variables of log.c.
pub record Log : Type 0 where
  pub has_init : Bool
  pub level : ℕ
  pub size : ℕ
  pub number : ℕ
  pub multi : Bool
  pub buffer : Bool
  pub files : ℕ → Target

-- The line in the buffer; `none` where its end would be written behind the buffer.
pub line_of : (prefix message : Text) → Option Text
line_of prefix message =
    if ltb (length prefix + length message) log_buffer_size
    then some (prefix ++ message ++ 10 ∷ [])
    else none

-- `log_write`; `none` is a write behind the buffer.
pub log_write : Calls → (level : ℕ) (prefix message : Text) → Log → Option Log
unfolding write_line line_of
log_write calls level prefix message log =
    if ltb log.level level
    then some log
    else if not (log.buffer || calls.mapped)
    then some log
    else elim (line_of prefix message) [
      | none ↦ none
      | some line ↦
          let index = if log.multi then level else 0 in
          some (record log {
            buffer = true;
            files =
                update log.files index
                  (write_line calls log.size log.number line (log.files index));
          })
    ]
