-- ===== src/Proxy/Machine.antt =====
-- internal/proxy/proxy.go: `New` and `Run`, the goroutines and the channel between them.
--
-- A goroutine that handles messages is at work on a line, with the lines in its outbox still to be
-- sent to the channel, or it has finished. A handler sends nothing before it has done everything
-- else, so what it changes is one step, and each line that it sends is another, which waits while the
-- channel is full. A handler locks the pending table at most once, and uses the cache and the statistics behind
-- that, and the steps of two handlers on different ones of these commute. The proxy of a machine keeps
-- no sent lines: they go to the outbox. A write to the upstream server or to standard output ends.
pub mod Trace
pub mod Moves
pub mod Keeps
pub mod Output
pub mod Work
pub mod Ends
use mcp_content_guard.Base.{ℕ, ◌<◌, ◌≡◌, Bool, true, false, List, [], ◌∷◌, ◌++◌, length}
use mcp_content_guard.Base.Bytes.{Bytes}
use mcp_content_guard.Json.{Message}
use mcp_content_guard.Intercept.{State, Environment, Setup}
use mcp_content_guard.Proxy.{Proxy, read_lines, handle_client_message, handle_upstream_message}

-- The lines of an input, and whether it ends behind them. A read of an input that stays open waits.
pub data Input : Type 0 where
  ended open_forever : Input
  line : Bytes → Input → Input

pub data Worker : Type 0 where
  busy : List Bytes → Worker
  finished : Worker

pub record Machine : Type 0 where
  pub proxy : Proxy
  pub client_input : Input
  pub upstream_input : Input
  -- goroutine A and goroutine B
  pub client : Worker
  pub upstream : Worker
  -- the channel `out`
  pub buffered : List Bytes
  pub closed : Bool
  -- standard output, and whether `Run` returns
  pub written : List Bytes
  pub returned : Bool

abbrev pub capacity : ℕ
capacity = 64

-- `New`, for a cache and statistics, and the start of `Run`.
unfoldable pub start : State → Input → Input → Machine
start shared client_input upstream_input = record {
  proxy = record { shared = shared; pending = []; to_client = []; to_upstream = [] };
  client_input = client_input;
  upstream_input = upstream_input;
  client = busy [];
  upstream = busy [];
  buffered = [];
  closed = false;
  written = [];
  returned = false;
}

-- The input that the bytes of a pipe make, which end.
pub to_input : List Bytes → Input
to_input [] = ended
to_input (l ∷ ls) = line l (to_input ls)

unfoldable pub input_of : Bytes → Input
unfolding to_input
input_of bytes = to_input (read_lines [] bytes)

-- The proxy behind a handler, with no sent lines, and the lines that the handler sends.
abbrev pub emptied : Proxy → Proxy
emptied p = record p { to_client = [] }

-- One step of one goroutine.
pub data Step (setup : Setup) (tool : Bytes) (m : Machine) : Machine → Type 0 where
  client_line :
      (env : Environment) (l : Bytes) (rest : Input)
      → m.client ≡ busy []
      → m.client_input ≡ line l rest
      → Step setup tool m (record m {
        proxy = emptied (handle_client_message setup tool env l m.proxy);
        client_input = rest;
        client = busy (handle_client_message setup tool env l m.proxy).to_client;
      })
  upstream_line :
      (env : Environment) (l : Bytes) (rest : Input)
      → m.upstream ≡ busy []
      → m.upstream_input ≡ line l rest
      → Step setup tool m (record m {
        proxy = emptied (handle_upstream_message setup tool env l m.proxy);
        upstream_input = rest;
        upstream = busy (handle_upstream_message setup tool env l m.proxy).to_client;
      })
  client_send :
      (b : Bytes) (bs : List Bytes)
      → m.client ≡ busy (b ∷ bs)
      → length m.buffered < capacity
      → Step setup tool m (record m { client = busy bs; buffered = m.buffered ++ (b ∷ []) })
  upstream_send :
      (b : Bytes) (bs : List Bytes)
      → m.upstream ≡ busy (b ∷ bs)
      → length m.buffered < capacity
      → Step setup tool m (record m { upstream = busy bs; buffered = m.buffered ++ (b ∷ []) })
  client_ends :
      m.client ≡ busy []
      → m.client_input ≡ ended
      → Step setup tool m (record m { client = finished })
  upstream_ends :
      m.upstream ≡ busy []
      → m.upstream_input ≡ ended
      → Step setup tool m (record m { upstream = finished })
  -- the goroutine that waits for both
  closes :
      m.client ≡ finished
      → m.upstream ≡ finished
      → m.closed ≡ false
      → Step setup tool m (record m { closed = true })
  -- the writer
  writes :
      (b : Bytes) (bs : List Bytes)
      → m.buffered ≡ b ∷ bs
      → Step setup tool m (record m { buffered = bs; written = m.written ++ (b ∷ []) })
  returns :
      m.buffered ≡ []
      → m.closed ≡ true
      → m.returned ≡ false
      → Step setup tool m (record m { returned = true })

-- Executions.
pub data Steps (setup : Setup) (tool : Bytes) (m : Machine) : Machine → Type 0 where
  none_left : Steps setup tool m m
  then_step : {n o : Machine} → Steps setup tool m n → Step setup tool n o → Steps setup tool m o
