-- ===== src/Log/Start.antt =====
-- log.c: the start and the end of a log, and the messages of the start.
-- `disk` gives the files of a path; whether the directory can be written to is an argument.
use mathlib.Core.List.{append_assoc, append-nil}
use fnsproxy.Base.{
  ℕ, zero, suc, ◌-◌, ◌≡◌, ◌≤◌, ◌∙◌, refl, ap, inl, inr, Bool, true, false, not, ◌&&◌, ◌||◌, [], ◌∷◌,
  ◌++◌, Option, none, some, ◌==◌, ltb, leb, if◌then◌else◌, arith, length, take, get_elem?,
  length-append, Text, codes, Bool-cases,
}
use fnsproxy.Log.{Target, Log, log_path_max, log_max_size, log_max_number, log_level_all}

-- `SCREEN_COLS` and `CONTENT_COLS`
abbrev screen_cols : ℕ
screen_cols = 80

abbrev pub content_cols : ℕ
content_cols = 65

-- `log_level_text`
pub level_text : ℕ → Text
level_text level =
    if level == 0
    then codes "FATAL  "
    else if level == 1
    then codes "ERROR  "
    else if level == 2
    then codes "WARNING"
    else if level == 3
    then codes "NOTICE "
    else codes "DEBUG  "

-- The byte of a C string at an index up to its length.
abbrev byte_at : Text → ℕ → ℕ
byte_at text i = elim (get_elem? text i) [ none ↦ 0 | some c ↦ c ]

-- The path of `log_files[i]`.
pub path_of : (dir filename : Text) (multi : Bool) → ℕ → Text
unfolding level_text
path_of dir filename multi i =
    dir
    ++ (if byte_at dir (length dir) == 47 then [] else 47 ∷ [])
    ++ filename
    ++ (if multi then codes "_" ++ level_text i else [])

-- Whether `log_files[i]` is used.
abbrev pub is_used : (multi : Bool) → ℕ → Bool
is_used multi i = if multi then leb i log_level_all else i == 0

-- Whether the paths are shorter than the arrays for them; the texts of the levels have the same length.
pub paths_fit : (dir filename : Text) (multi : Bool) → Bool
unfolding path_of
paths_fit dir filename multi = ltb (length (path_of dir filename multi 0)) log_path_max

-- What `log_init` sets before it maps the buffer.
abbrev pub with_settings :
    (disk : Text → Target) (dir filename : Text) (level size n : ℕ) (multi : Bool) → Log → Log
with_settings disk dir filename level size n multi log = record log {
  level = level;
  size = size;
  number = n;
  multi = multi;
  files = λ i.
      if is_used multi i
      then record (disk (path_of dir filename multi i)) { is_open = false }
      else log.files i;
}

-- `log_init`: whether it returns 0, and the log; `none` is a failed assertion, or a path that is
-- written behind its array.
unfoldable pub log_init :
    (disk : Text → Target) (writable mapped : Bool) (dir filename : Text) (level size n : ℕ)
    (multi : Bool)
    → Log
    → Option (Bool × Log)
unfolding path_of paths_fit
log_init disk writable mapped dir filename level size n multi log =
    if not (leb level log_level_all && leb size log_max_size && ltb 0 n && leb n log_max_number)
    then none
    else if log.has_init || not writable
    then some (false, log)
    else if not (paths_fit dir filename multi)
    then none
    else if log.buffer || mapped
    then some (
      true,
      record (with_settings disk dir filename level size n multi log) {
        has_init = true;
        buffer = true;
      },
    )
    else some (false, with_settings disk dir filename level size n multi log)

-- `log_close`
pub log_close : Log → Log
log_close log = record log {
  has_init = false;
  files =
      λ i. if is_used log.multi i then record (log.files i) { is_open = false } else log.files i;
}

-- `OK_STATUS` and `FAILED_STATUS`
pub status : (tty ok : Bool) → Text
status true ok =
    27 ∷ codes "[1m["
    ++ 27 ∷ (if ok then codes "[32m  OK  " else codes "[31mFAILED")
    ++ 27 ∷ codes "[37m]"
    ++ 27 ∷ codes "[m"
status false ok = if ok then codes "[  OK  ]" else codes "[FAILED]"

abbrev spaces : ℕ → Text
spaces zero = []
spaces (suc n) = 32 ∷ spaces n

-- `%-*.*s`
abbrev pub column : (width : ℕ) → Text → Text
column width text = take width text ++ spaces (width - length (take width text))

-- What `boot_notify` prints before the status; `message` is the expansion of the format, of which the
-- buffer holds `SCREEN_COLS` bytes with the 0.
pub boot_content : (message : Text) → Text
boot_content message =
    let buffer = take (screen_cols - 1) message in
    if ltb content_cols (length message)
    then column (content_cols - 5) buffer ++ codes " ... "
    else column content_cols buffer

-- `boot_notify`, once the buffer is mapped.
pub boot_notify : (tty ok : Bool) (message : Text) → Text
unfolding boot_content status
boot_notify tty ok message = boot_content message ++ status tty ok ++ codes "\n"

-- A directory's path gets a slash in any case, one that ends in a slash too.
pub path_of-slash : (dir filename : Text) → path_of dir filename false 0 ≡ dir ++ 47 ∷ filename
unfolding path_of
path_of-slash dir filename =
    rw (past dir, byte_at) (append-nil _ ∙ append_assoc dir (47 ∷ []) filename)
  where
    past : (text : Text) → get_elem? text (length text) ≡ none
    past [] = refl
    past (c ∷ text) = past text

length-spaces : (n : ℕ) → length (spaces n) ≡ n
length-spaces zero = refl
length-spaces (suc n) = omega (arith, length-spaces n)

length-take_min :
    (n : ℕ) (text : Text) → length (take n text) ≡ (if leb n (length text) then n else length text)
length-take_min zero text = ground arith
length-take_min (suc n) [] = ground arith
length-take_min (suc n) (c ∷ text) = ground (arith, length-take_min n text)

take-all : (n : ℕ) (text : Text) → length text ≤ n → take n text ≡ text
take-all zero [] le = refl
take-all zero (c ∷ text) le = absurd (omega (arith, le))
take-all (suc n) [] le = refl
take-all (suc n) (c ∷ text) le = ap (λ (r : Text). c ∷ r) (take-all n text (omega (arith, le)))

length-column : (width : ℕ) (text : Text) → length (column width text) ≡ width
length-column width text = ground (
  arith,
  length-append (take width text) (spaces (width - length (take width text))),
  length-spaces (width - length (take width text)),
  length-take_min width text,
)

-- Before its status a message takes `CONTENT_COLS` columns, and one that fits stands there whole.
pub boot_content-width :
    (message : Text)
    → (length (boot_content message) ≡ content_cols)
      × (length message ≤ content_cols
          → boot_content message ≡ message ++ spaces (content_cols - length message))
unfolding boot_content
boot_content-width message =
    let buffer = take (screen_cols - 1) message in
    elim (Bool-cases (ltb content_cols (length message))) [
      | inl long ↦ rw long (
        omega (
          arith,
          length-append (column (content_cols - 5) buffer) (codes " ... "),
          length-column (content_cols - 5) buffer,
        ),
        λ le. absurd (ground arith),
      )
      | inr short ↦ rw short (
        length-column content_cols buffer,
        λ le.
            let all : buffer ≡ message = take-all 79 message (omega arith) in
            rw (all, take-all 65 message le) refl,
      )
    ]
