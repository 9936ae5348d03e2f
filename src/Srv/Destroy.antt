-- ===== src/Srv/Destroy.antt =====
-- srv.c: srv_destroy.
use fnsproxy.Base.{ℕ, List, [], ◌∷◌, ◌++◌, Option, none, some, Text}
use fnsproxy.Memory.{Ptr, Command, endless, pure, ◌>>=◌}
use fnsproxy.Dlist
use fnsproxy.Dlist.{Dlist}
use fnsproxy.Event.Loop.{Event, event_destroy}
use fnsproxy.Geo.Release.{Held, Unloaded, geo_unload}
use fnsproxy.Log.{Log}
use fnsproxy.Log.Start.{log_close}
use fnsproxy.Options.{Config}

-- What `srv_destroy` frees and closes: the texts of the options, the descriptor of the loop, the values of the
-- list of clients, and the settings; and the loop and the log then.
pub record Destroyed : Type 0 where
  pub texts : List Text
  pub closed : Option ℕ
  pub evt : Event
  pub values : List ℕ
  pub settings : Option Unloaded
  pub log : Log

-- `if (text) free (text);`
abbrev pub text_freed : Option Text → List Text
text_freed none = []
text_freed (some text) = text ∷ []

-- The settings, where there are any.
unfoldable pub settings_freed : Option (Ptr × Held) → Option (Option Unloaded)
unfolding geo_unload
settings_freed none = some none
settings_freed (some (g, held)) = elim (geo_unload g held) [
  | none ↦ none
  | some unloaded ↦ some (some unloaded)
]

-- `srv_destroy`
unfoldable pub srv_destroy :
    Config → Event → (clis : Dlist) → (geo : Option (Ptr × Held)) → Log → Command Destroyed
unfolding settings_freed
srv_destroy c evt clis geo log = do
  values ← Dlist.destroy clis
  elim (settings_freed geo) [
    | none ↦ λ _. endless
    | some settings ↦ pure record {
      texts =
          text_freed c.addr
          ++ (text_freed c.user
              ++ (text_freed c.geo_file ++ (text_freed c.dns_addr ++ text_freed c.log_file)));
      closed = (event_destroy evt).0;
      evt = (event_destroy evt).1;
      values = values;
      settings = settings;
      log = log_close log;
    }
  ]
