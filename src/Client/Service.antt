-- ===== src/Client/Service.antt =====
-- The clients and their server: what a server sends for the loops of its clients.
use forwarding_explorer.Base.{ℕ, suc, List, [], ◌∷◌, ◌++◌}
use forwarding_explorer.Base.Int.{ℤ}
use forwarding_explorer.Server.Types.{Request, op_read, op_write}
use forwarding_explorer.Server.Env.{Env}
use forwarding_explorer.Server.System.{Server}
use forwarding_explorer.Server.Service.{write_events, read_events, written, was_read}
use forwarding_explorer.Identifiers.{generate_identifier}
use forwarding_explorer.Server.Step.{Event}
use forwarding_explorer.Workload.{Layout}
use forwarding_explorer.Client.{buffer_of, io_request}

module _ (to_double : ℕ → ℕ) (l : Layout) (env : Env) (handles : ℕ → ℤ) where
  -- The requests of client `r`, which is the process `suc r`, behind the one server.
  abbrev pub asked : (operation r i : ℕ) → Request
  asked operation r i = io_request to_double l [] r [] (handles r) operation i

  abbrev pub after_writes : List (ℕ × ℕ) → Server env → Server env
  after_writes [] s = s
  after_writes ((r, i) ∷ order) s =
      after_writes order (written env (suc r) (asked op_write r i) (buffer_of l.request_size r) s)

  abbrev pub write_order : List (ℕ × ℕ) → Server env → List Event
  write_order [] s = []
  write_order ((r, i) ∷ order) s =
      write_events (suc r) (generate_identifier s.global_id) (asked op_write r i)
        (buffer_of l.request_size r)
      ++ write_order order (written env (suc r) (asked op_write r i) (buffer_of l.request_size r) s)

  abbrev pub after_reads : (r : ℕ) → List ℕ → Server env → Server env
  after_reads r [] s = s
  after_reads r (i ∷ rounds) s = after_reads r rounds (was_read env (suc r) (asked op_read r i) s)

  abbrev pub read_order : (r : ℕ) → List ℕ → Server env → List Event
  read_order r [] s = []
  read_order r (i ∷ rounds) s =
      read_events (suc r) (generate_identifier s.global_id) (asked op_read r i)
      ++ read_order r rounds (was_read env (suc r) (asked op_read r i) s)
