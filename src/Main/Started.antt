-- ===== src/Main/Started.antt =====
-- The server that main starts.
use fnsproxy.Base.{
  ℕ, ◌≡◌, refl, ap, subst, Bool, true, false, ◌&&◌, inl, inr, ◌⊎◌, List, Text, arith, Bool-cases,
}
use fnsproxy.Log.{Log}
use fnsproxy.Options.{Config, srv_init, Opt, Parsed, config, exits, option_parse}
use fnsproxy.Options.Last.{IsLast, option_parse-IsLast}
use fnsproxy.Srv
use fnsproxy.Srv.{World, Server, Served, srv_serve}
use fnsproxy.Srv.Serve.{IsReady, srv_serve-IsReady}
use fnsproxy.Main.{Run, serves, fails, endless, set_sig_handlers, start}

Parsed-cases : (p : Parsed) → ((c : Config) × (p ≡ config c)) ⊎ ((status : ℕ) × (p ≡ exits status))
Parsed-cases (config c) = inl (c, refl)
Parsed-cases (exits status) = inr (status, refl)

-- The settings and the server of a run, where it serves.
server_of : Config × Server → Run → Config × Server
server_of default (serves c s) = (c, s)
server_of default other = default

module _ (rounds fuel : ℕ) (w : World) (log : Log) where
  served-srv_serve :
      (r : Served) (c c' : Config) (s : Server)
      → (elim r as (λ _. Run) [
        | Srv.serves s' ↦ serves c s'
        | Srv.exits ↦ fails
        | Srv.endless ↦ endless
      ])
        ≡ serves c' s
      → (c ≡ c') × (r ≡ Srv.serves s)
  unfolding server_of
  served-srv_serve (Srv.serves s') c c' s e =
      let same = ap (server_of (c, s)) e in
      (ap (λ (p : Config × Server). p.0) same, ap (λ (p : Config × Server). Srv.serves p.1) same)
  served-srv_serve Srv.exits c c' s e = absurd (ground arith)
  served-srv_serve Srv.endless c c' s e = absurd (ground arith)

  -- Where `main` comes to the loop of the server, no option ended the program and no argument was left over,
  -- the signal handlers are set, each setting is what the last option for it says, or the
  -- default without one, and the server is ready with these settings: its socket is bound, event_regis
  -- succeeded on it, the settings are those of the file, and the log is started.
  pub start-IsReady :
      (strtol : Text → ℕ × ℕ) (further : Bool) (opts : List Opt) (sigemptyset sigaction : Bool)
      (c : Config) (s : Server)
      → start strtol further opts sigemptyset sigaction rounds fuel w log ≡ serves c s
      → IsLast strtol opts srv_init c
        × (further ≡ false)
        × (sigemptyset && sigaction ≡ true)
        × IsReady rounds fuel w c s
  unfolding start set_sig_handlers
  start-IsReady strtol further opts sigemptyset sigaction c s run =
      elim (Parsed-cases (option_parse strtol further opts srv_init)) [
        | inr (status, left) ↦ absurd (ground (arith, rw (left, start) at run))
        | inl (c', parsed) ↦ elim (Bool-cases (set_sig_handlers sigemptyset sigaction)) [
          | inr unset ↦ absurd (ground (arith, rw (parsed, unset, start) at run))
          | inl handled ↦
              let (same, served) =
                served-srv_serve (srv_serve rounds fuel w c' log) c' c s
                  (rw (parsed, handled, start) at run) in
              let (last, none_left) = option_parse-IsLast strtol further opts srv_init c' parsed in
              (
                subst (IsLast strtol opts srv_init) same last,
                none_left,
                ground arith,
                subst (λ x. IsReady rounds fuel w x s) same
                    (srv_serve-IsReady rounds fuel w c' log s served),
              )
        ]
      ]
