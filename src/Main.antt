-- ===== src/Main.antt =====
-- main.c: the program from its start to the loop of the server.
-- What `sigemptyset` and `sigaction` return is an argument, as is all that the parts take.
pub mod Started
mod Tests
use fnsproxy.Base.{ℕ, Bool, true, false, not, ◌&&◌, List, Text, if◌then◌else◌}
use fnsproxy.Event.Loop.{Round, Call, End, exited, stopped, running, event_loop}
use fnsproxy.Log.{Log}
use fnsproxy.Options.{Config, srv_init, Opt, Parsed, config, exits, option_parse}
use fnsproxy.Srv
use fnsproxy.Srv.{World, Server, Served, srv_serve}

-- How `main` goes on: with the loop of the server, by `exit` of the options, by `exit (1)` or `assert` of a
-- later part, or not at all.
pub data Run : Type 0 where
  serves : Config → Server → Run
  leaves : (status : ℕ) → Run
  fails endless : Run

-- `set_sig_handlers`: whether it returns.
unfoldable pub set_sig_handlers : (sigemptyset sigaction : Bool) → Bool
set_sig_handlers sigemptyset sigaction = if not sigemptyset then false else sigaction

module _ (strtol : Text → ℕ × ℕ) (further : Bool) (opts : List Opt) (sigemptyset sigaction : Bool)
    (rounds fuel : ℕ) (w : World) (log : Log) where
  -- `main` up to the loop.
  unfoldable pub start : Run
  unfolding set_sig_handlers
  start = elim (option_parse strtol further opts srv_init) [
    | exits status ↦ leaves status
    | config c ↦
        if not (set_sig_handlers sigemptyset sigaction)
        then fails
        else elim (srv_serve rounds fuel w c log) [
          | Srv.serves s ↦ serves c s
          | Srv.exits ↦ fails
          | Srv.endless ↦ endless
        ]
  ]
