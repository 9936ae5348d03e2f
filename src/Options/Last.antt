-- ===== src/Options/Last.antt =====
-- The settings after the options of a command line, each by itself.
use fnsproxy.Base.{
  ℕ, ◌≡◌, ◌≢◌, ◌∙◌, refl, sym, ap, subst, inl, inr, ◌⊎◌, Bool, true, false, ◌||◌, List, [], ◌∷◌,
  Option, none, some, if◌then◌else◌, arith, Text, Bool-cases, Option-cases,
}
use fnsproxy.Options.{
  Config, Flag, opt_o, opt_d, opt_r, opt_p, opt_l, opt_n, opt_a, opt_u, opt_g, opt_v, opt_h,
  opt_other, Opt, Parsed, config, exits, number, apply, option_parse,
}

-- The text of the last option with a flag, or what was set before.
unfoldable pub last_text : (is_flag : Flag → Bool) → List Opt → Option Text → Option Text
last_text is_flag [] before = before
last_text is_flag (o ∷ opts) before =
    last_text is_flag opts (if is_flag o.flag then some o.arg else before)

-- The number of the last option with a flag, or what was set before.
unfoldable pub last_number :
    (number : Text → Option ℕ) (is_flag : Flag → Bool) → List Opt → (before : ℕ) → ℕ
last_number number is_flag [] before = before
last_number number is_flag (o ∷ opts) before =
    last_number number is_flag opts
      (if is_flag o.flag then elim (number o.arg) [ none ↦ before | some n ↦ n ] else before)

-- Whether there is an option with a flag.
unfoldable pub given : (is_flag : Flag → Bool) → List Opt → Bool
given is_flag [] = false
given is_flag (o ∷ opts) = is_flag o.flag || given is_flag opts

abbrev pub is_o : Flag → Bool
is_o f = elim f [ opt_o ↦ true | _ ↦ false ]

abbrev pub is_d : Flag → Bool
is_d f = elim f [ opt_d ↦ true | _ ↦ false ]

abbrev pub is_r : Flag → Bool
is_r f = elim f [ opt_r ↦ true | _ ↦ false ]

abbrev pub is_p : Flag → Bool
is_p f = elim f [ opt_p ↦ true | _ ↦ false ]

abbrev pub is_l : Flag → Bool
is_l f = elim f [ opt_l ↦ true | _ ↦ false ]

abbrev pub is_n : Flag → Bool
is_n f = elim f [ opt_n ↦ true | _ ↦ false ]

abbrev pub is_a : Flag → Bool
is_a f = elim f [ opt_a ↦ true | _ ↦ false ]

abbrev pub is_u : Flag → Bool
is_u f = elim f [ opt_u ↦ true | _ ↦ false ]

abbrev pub is_g : Flag → Bool
is_g f = elim f [ opt_g ↦ true | _ ↦ false ]

-- Whether an option ends the program.
abbrev pub is_end : Flag → Bool
is_end f = elim f [ opt_v ↦ true | opt_h ↦ true | opt_other ↦ true | _ ↦ false ]

-- The settings `c'` are those that the options make of `c`.
pub record IsLast (strtol : Text → ℕ × ℕ) (opts : List Opt) (c c' : Config) : Type 0 where
  pub port : c'.port ≡ last_number (number strtol) is_p opts c.port
  pub addr : c'.addr ≡ last_text is_l opts c.addr
  pub user : c'.user ≡ last_text is_u opts c.user
  pub geo_file : c'.geo_file ≡ last_text is_g opts c.geo_file
  pub geo_range : c'.geo_range ≡ (given is_r opts || c.geo_range)
  pub log_file : c'.log_file ≡ last_text is_o opts c.log_file
  pub daemon : c'.daemon ≡ (given is_d opts || c.daemon)
  pub dns_addr : c'.dns_addr ≡ last_text is_a opts c.dns_addr
  pub dns_port : c'.dns_port ≡ last_number (number strtol) is_n opts c.dns_port
  pub goes_on : given is_end opts ≡ false

or_swap : (a b c : Bool) → (a || (b || c)) ≡ (b || a || c)
or_swap true true c = refl
or_swap true false c = refl
or_swap false true c = refl
or_swap false false c = refl

module _ (strtol : Text → ℕ × ℕ) (arg : Text) (c : Config) where
  -- The settings after an option, each by itself.
  abbrev chosen : Flag → Config
  chosen flag = record {
    port = if is_p flag then elim (number strtol arg) [ none ↦ c.port | some n ↦ n ] else c.port;
    addr = if is_l flag then some arg else c.addr;
    user = if is_u flag then some arg else c.user;
    geo_file = if is_g flag then some arg else c.geo_file;
    geo_range = is_r flag || c.geo_range;
    log_file = if is_o flag then some arg else c.log_file;
    daemon = is_d flag || c.daemon;
    dns_addr = if is_a flag then some arg else c.dns_addr;
    dns_port =
        if is_n flag
        then elim (number strtol arg) [ none ↦ c.dns_port | some n ↦ n ]
        else c.dns_port;
  }

abbrev config_of : Config → Parsed → Config
config_of c (config c') = c'
config_of c (exits status) = c

exits-config : (status : ℕ) (c : Config) → exits status ≢ config c
exits-config status c e = ground arith

Parsed-cases : (p : Parsed) → ((c : Config) × (p ≡ config c)) ⊎ ((status : ℕ) × (p ≡ exits status))
Parsed-cases (config c) = inl (c, refl)
Parsed-cases (exits status) = inr (status, refl)

module _ (strtol : Text → ℕ × ℕ) (arg : Text) (memory : Bool) (c c1 : Config) where
  copied :
      (flag : Flag) (c' : Config)
      → c' ≡ chosen strtol arg c flag
      → (if memory then config c' else exits 1) ≡ config c1
      → c1 ≡ chosen strtol arg c flag
  copied flag c' e run = elim (Bool-cases memory) [
    | inl ok ↦ sym (ap (config_of c) (rw ok at run)) ∙ e
    | inr failed ↦ absurd (exits-config 1 c1 (rw failed at run))
  ]

  apply-chosen :
      (flag : Flag)
      → apply strtol flag arg memory c ≡ config c1
      → (c1 ≡ chosen strtol arg c flag) × (is_end flag ≡ false)
  unfolding apply
  apply-chosen opt_o run = (copied opt_o _ refl run, refl)
  apply-chosen opt_d run = (sym (ap (config_of c) run), refl)
  apply-chosen opt_r run = (sym (ap (config_of c) run), refl)
  apply-chosen opt_p run = elim (Option-cases (number strtol arg)) [
    | inl bad ↦ absurd (exits-config 1 c1 (rw (bad, apply) at run))
    | inr (n, good) ↦ (rw good (sym (ap (config_of c) (rw (good, apply) at run))), refl)
  ]
  apply-chosen opt_l run = (copied opt_l _ refl run, refl)
  apply-chosen opt_n run = elim (Option-cases (number strtol arg)) [
    | inl bad ↦ absurd (exits-config 1 c1 (rw (bad, apply) at run))
    | inr (n, good) ↦ (rw good (sym (ap (config_of c) (rw (good, apply) at run))), refl)
  ]
  apply-chosen opt_a run = (copied opt_a _ refl run, refl)
  apply-chosen opt_u run = (copied opt_u _ refl run, refl)
  apply-chosen opt_g run = (copied opt_g _ refl run, refl)
  apply-chosen opt_v run = absurd (exits-config 0 c1 run)
  apply-chosen opt_h run = absurd (exits-config 0 c1 run)
  apply-chosen opt_other run = absurd (exits-config 1 c1 run)

module _ (strtol : Text → ℕ × ℕ) (further : Bool) where
  chosen-IsLast :
      (o : Opt) (opts : List Opt) (c c' : Config)
      → is_end o.flag ≡ false
      → IsLast strtol opts (chosen strtol o.arg c o.flag) c'
      → IsLast strtol (o ∷ opts) c c'
  unfolding last_text last_number given
  chosen-IsLast o opts c c' stays is = record {
    port = is.port;
    addr = is.addr;
    user = is.user;
    geo_file = is.geo_file;
    geo_range = is.geo_range ∙ or_swap (given is_r opts) (is_r o.flag) c.geo_range;
    log_file = is.log_file;
    daemon = is.daemon ∙ or_swap (given is_d opts) (is_d o.flag) c.daemon;
    dns_addr = is.dns_addr;
    dns_port = is.dns_port;
    goes_on = rw (stays, is.goes_on) refl;
  }

  nothing : (c : Config) → IsLast strtol [] c c
  unfolding last_text last_number given
  nothing c = record {
    port = refl;
    addr = refl;
    user = refl;
    geo_file = refl;
    geo_range = refl;
    log_file = refl;
    daemon = refl;
    dns_addr = refl;
    dns_port = refl;
    goes_on = refl;
  }

  -- Where the parsing ends with settings, no option was one that ends the program and no argument was left,
  -- and each setting is what the last option for it says, or what it was without one.
  pub option_parse-IsLast :
      (opts : List Opt) (c c' : Config)
      → option_parse strtol further opts c ≡ config c'
      → IsLast strtol opts c c' × (further ≡ false)
  unfolding option_parse
  option_parse-IsLast [] c c' run = elim (Bool-cases further) [
    | inl left ↦ absurd (exits-config 1 c' (rw left at run))
    | inr none_left ↦
        let same : c ≡ c' = ap (config_of c) (rw none_left at run) in
        (subst (IsLast strtol [] c) same (nothing c), none_left)
  ]
  option_parse-IsLast (o ∷ opts) c c' run =
      elim (Parsed-cases (apply strtol o.flag o.arg o.memory c)) [
        | inr (status, ended) ↦ absurd (exits-config status c' (rw (ended, option_parse) at run))
        | inl (c1, step) ↦
            let (same, stays) = apply-chosen strtol o.arg o.memory c c1 o.flag step in
            let (is, none_left) = option_parse-IsLast opts c1 c' (rw (step, option_parse) at run) in
            (chosen-IsLast o opts c c' stays (rw same at is), none_left)
      ]
