-- ===== src/Log/Rotate.antt =====
-- The numbered files of log.c as a queue of at most `log_number` texts, the oldest first.
use fnsproxy.Base.{
  length-append, ℕ, zero, suc, ◌+◌, ◌-◌, ◌≡◌, ◌≤◌, ◌<◌, ◌∙◌, refl, ap, inl, inr, Bool, true, false,
  not, List, [], ◌∷◌, ◌++◌, Option, none, some, ◌==◌, ltb, leb, ◌&&◌, if◌then◌else◌, arith, length,
  update, get_elem?, Text, Bool-cases,
}
use fnsproxy.Log.{Target, content, archive, rename, first_free, shift, log_rotate}

-- The numbered files hold these texts, and there is no further one.
abbrev pub Holds : (number : ℕ) → Target → List Text → Type 0
Holds number t texts =
    (length texts ≤ number) × ((i : ℕ) → i < number → t.numbered i ≡ get_elem? texts i)

-- What a full queue drops, and what the rotation makes of queue and current file.
unfoldable pub dropped : List Text → List Text
dropped [] = []
dropped (oldest ∷ []) = oldest ∷ []
dropped (oldest ∷ second ∷ rest) = second ∷ rest

get_elem-short : (texts : List Text) (i : ℕ) → length texts ≤ i → get_elem? texts i ≡ none
get_elem-short [] i le = refl
get_elem-short (x ∷ texts) zero le = absurd (omega (arith, le))
get_elem-short (x ∷ texts) (suc i) le = get_elem-short texts i (omega (arith, le))

get_elem-some :
    (texts : List Text) (i : ℕ) → i < length texts → (text : Text) × (get_elem? texts i ≡ some text)
get_elem-some [] i lt = absurd (omega (arith, lt))
get_elem-some (x ∷ texts) zero lt = (x, refl)
get_elem-some (x ∷ texts) (suc i) lt = get_elem-some texts i (omega (arith, lt))

get_elem-push :
    (texts : List Text) (text : Text) (i : ℕ)
    → get_elem? (texts ++ text ∷ []) i ≡ update (get_elem? texts) (length texts) (some text) i
get_elem-push [] text zero = refl
get_elem-push [] text (suc i) = ground arith
get_elem-push (x ∷ texts) text zero = ground arith
get_elem-push (x ∷ texts) text (suc i) = ground (arith, get_elem-push texts text i)

module _ (number : ℕ) (t : Target) (texts : List Text) (holds : Holds number t texts) where
  -- The first number that is free is that behind the queue.
  free_behind :
      (rounds i : ℕ)
      → rounds + i ≡ number
      → i ≤ length texts
      → first_free rounds i t ≡ (if ltb (length texts) number then some (length texts) else none)
  unfolding first_free
  free_behind zero i all le = ground (arith, holds.0)
  free_behind (suc rounds) i all le = elim (Bool-cases (ltb i (length texts))) [
    | inl used ↦
        let (text, there) = get_elem-some texts i (ground arith) in
        let here : t.numbered i ≡ some text = holds.1 i (omega arith) ∙ there in
        rw (here, first_free) (free_behind rounds (suc i) (omega arith) (ground arith))
    | inr behind ↦
        let here : t.numbered i ≡ none =
          holds.1 i (omega arith) ∙ get_elem-short texts i (ground arith) in
        rw (here, first_free) (ground arith)
  ]

-- What the numbered files are after the shift.
abbrev shifted : (rounds i : ℕ) → (ℕ → Option Text) → ℕ → Option Text
shifted rounds i files j =
    if leb i (j + 1) && ltb (j + 1) (i + rounds)
    then files (j + 1)
    else if not (rounds == 0) && j + 1 == i + rounds
    then none
    else files j

shift-shifted :
    (rounds i : ℕ) (t : Target)
    → ((j : ℕ) → suc i ≤ j → j < suc i + rounds → (text : Text) × (t.numbered j ≡ some text))
    → ((shift rounds (suc i) t).current ≡ t.current)
      × ((shift rounds (suc i) t).is_open ≡ t.is_open)
      × ((j : ℕ) → (shift rounds (suc i) t).numbered j ≡ shifted rounds (suc i) t.numbered j)
unfolding shift
shift-shifted zero i t full = (refl, refl, λ j. ground arith)
shift-shifted (suc rounds) i t full =
    let (text, here) = full (suc i) (omega arith) (omega arith) in
    let t1 : Target = record t {
      numbered = update (update t.numbered i (some text)) (suc i) none;
    } in
    let before : suc i - 1 ≡ i = omega arith in
    let moved : shift (suc rounds) (suc i) t ≡ shift rounds (suc (suc i)) t1 =
      ap (λ (k : ℕ). shift rounds (suc (suc i)) (rename (suc i) k t)) before
      ∙ ap (shift rounds (suc (suc i))) (rw (here, rename) refl) in
    let still : (j : ℕ)
        → suc (suc i) ≤ j
        → j < suc (suc i) + rounds
        → (text' : Text) × (t1.numbered j ≡ some text') =
      λ j lo hi. let (text', there) = full j (omega arith) (omega arith) in (text', ground arith) in
    let (kept, open_still, later) = shift-shifted rounds (suc i) t1 still in
    (
      ap (λ (t' : Target). t'.current) moved ∙ kept,
      ap (λ (t' : Target). t'.is_open) moved ∙ open_still,
      λ j. ap (λ (t' : Target). t'.numbered j) moved ∙ (later j ∙ ground arith),
    )

-- The rotation of a queue and a current file: whether the file is to be opened anew, and both after it.
unfoldable pub queue_rotate :
    (log_size log_number : ℕ) → List Text → (text : Text) → Bool × List Text × Option Text
unfolding dropped
queue_rotate log_size log_number texts text =
    if ltb log_size (length text)
    then if ltb (length texts) log_number
      then (true, texts ++ text ∷ [], none)
      else (false, dropped texts, some text)
    else (false, texts, some text)

dropped-get_elem :
    (texts : List Text) (i : ℕ)
    → i < length texts
    → shifted (length texts - 1) 1 (get_elem? texts) i ≡ get_elem? (dropped texts) i
unfolding dropped
dropped-get_elem [] i lt = absurd (omega (arith, lt))
dropped-get_elem (x ∷ []) zero lt = ground arith
dropped-get_elem (x ∷ []) (suc i) lt = absurd (omega (arith, lt))
dropped-get_elem (x ∷ y ∷ texts) i lt =
    let at : get_elem? (x ∷ y ∷ texts) (i + 1) ≡ get_elem? (y ∷ texts) i =
      let e : i + 1 ≡ suc i = omega arith in ap (get_elem? (x ∷ y ∷ texts)) e in
    ground (arith, at, get_elem-short (y ∷ texts) i)

pub length-dropped : (texts : List Text) → length (dropped texts) ≤ length texts
unfolding dropped
length-dropped [] = omega arith
length-dropped (x ∷ []) = omega arith
length-dropped (x ∷ y ∷ texts) = omega arith

module _ (number : ℕ) (t : Target) (texts : List Text) (text : Text) (holds : Holds number t texts)
    (current : t.current ≡ some text) where
  archived : Target
  archived = record t { current = none; numbered = update t.numbered (length texts) (some text) }

  archive-archived : archive (length texts) t ≡ archived
  unfolding archived
  archive-archived = rw (current, archive) refl

  archive-Holds : length texts < number → Holds number archived (texts ++ text ∷ [])
  unfolding archived
  archive-Holds room = (
    omega (arith, length-append texts (text ∷ [])),
    λ i lt. ground (arith, holds.1 i, get_elem-push texts text i),
  )

module _ (number : ℕ) (t : Target) (texts : List Text) (holds : Holds number t texts) where
  dropped-Holds :
      length texts ≡ number
      → 1 ≤ number
      → let t' = shift (number - 1) 1 t in
        Holds number t' (dropped texts) × (t'.current ≡ t.current) × (t'.is_open ≡ t.is_open)
  dropped-Holds full some_files =
      let (current, open_still, files) = shift-shifted (number - 1) 0 t (λ j lo hi.
        let (text, there) = get_elem-some texts j (omega arith) in
        (text, holds.1 j (omega arith) ∙ there)) in
      (
        (
          omega (arith, length-dropped texts),
          λ i lt.
              let after : i + 1 < number → t.numbered (i + 1) ≡ get_elem? texts (i + 1) =
                holds.1 (i + 1) in
              let rounds : length texts - 1 ≡ number - 1 = omega arith in
              let wanted : shifted (number - 1) 1 (get_elem? texts) i
                  ≡ get_elem? (dropped texts) i =
                rw (← rounds) (dropped-get_elem texts i (omega arith)) in
              files i ∙ (ground (arith, holds.1 i, after) ∙ wanted),
        ),
        current,
        open_still,
      )

-- With a number of files of at least one, `log_rotate` does to the files what the queue says: a file that
-- is not too long stays, a longer one is put behind the queue where there is room, and is to be opened
-- anew; where there is none, it stays and the oldest text is dropped, if there are two texts or more.
pub log_rotate-queue_rotate :
    (log_size log_number : ℕ) (t : Target) (texts : List Text) (text : Text)
    → 1 ≤ log_number
    → Holds log_number t texts
    → t.current ≡ some text
    → let (rotated, t') = log_rotate true log_size log_number t in
      let (anew, texts', current) = queue_rotate log_size log_number texts text in
      (rotated ≡ anew)
      × Holds log_number t' texts'
      × (t'.current ≡ current)
      × (t'.is_open ≡ t.is_open)
unfolding log_rotate queue_rotate archived
log_rotate-queue_rotate log_size log_number t texts text some_files holds current =
    let same : length (content t.current) ≡ length text =
      ap (λ (c : Option Text). length (content c)) current in
    elim (Bool-cases (ltb log_size (length text))) [
      | inr fits ↦
          let small : ltb log_size (length (content t.current)) ≡ false = rw same fits in
          rw (small, fits) (refl, holds, current, refl)
      | inl long ↦
          let large : ltb log_size (length (content t.current)) ≡ true = rw same long in
          let free =
            free_behind log_number t texts holds log_number 0 (omega arith) (omega arith) in
          elim (Bool-cases (ltb (length texts) log_number)) [
            | inl room ↦
                rw (large, free, room, long, archive-archived log_number t texts text holds current)
                  (
                    refl,
                    archive-Holds log_number t texts text holds current (ground arith),
                    refl,
                    refl,
                  )
            | inr full ↦
                let (holds', still, open_still) =
                  dropped-Holds log_number t texts holds (ground (arith, holds.0)) some_files in
                rw (large, free, full, long) (refl, holds', still ∙ current, open_still)
          ]
    ]
