-- ===== src/Options/Tests.antt =====
-- Command lines, with a `strtol` that reads one digit.
use fnsproxy.Base.{
  ℕ, ◌-◌, ◌≡◌, refl, true, false, ◌&&◌, List, [], ◌∷◌, some, leb, if◌then◌else◌, Text, codes,
}
use fnsproxy.Options.{
  srv_init, opt_d, opt_p, opt_o, opt_v, Config, Opt, config, exits, option_parse,
}
use fnsproxy.Options.Last.{IsLast, option_parse-IsLast}

abbrev strtol : Text → ℕ × ℕ
strtol [] = (0, 0)
strtol (c ∷ text) = if leb 48 c && leb c 57 then (c - 48, 1) else (0, 0)

abbrev line : List Opt
line =
    record { flag = opt_p; arg = codes "7"; memory = true }
    ∷ record { flag = opt_o; arg = codes "a.log"; memory = true }
    ∷ record { flag = opt_d; arg = []; memory = true }
    ∷ record { flag = opt_p; arg = codes "9"; memory = true }
    ∷ []

abbrev settings : Config
settings = record srv_init { port = 9; log_file = some (codes "a.log"); daemon = true }

line-settings : option_parse strtol false line srv_init ≡ config settings
unfolding option_parse
line-settings = refl

-- A text that is no number, and an option that only prints, end the program.
not_a_port :
    option_parse strtol false
      (record { flag = opt_p; arg = codes "x"; memory = true } ∷ line)
      srv_init
    ≡ exits 1
unfolding option_parse
not_a_port = refl

version_only :
    option_parse strtol true (record { flag = opt_v; arg = []; memory = true } ∷ line) srv_init
    ≡ exits 0
unfolding option_parse
version_only = refl

option_parse-IsLast_example : IsLast strtol line srv_init settings × (false ≡ false)
option_parse-IsLast_example = option_parse-IsLast strtol false line srv_init settings line-settings
