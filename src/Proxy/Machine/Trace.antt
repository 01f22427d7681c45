-- ===== src/Proxy/Machine/Trace.antt =====
-- Executions of `Run` as a schedule of handler calls: what has been read, and who sends what.
use mcp_content_guard.Base.{◌≡◌, refl, ap, true, List, [], ◌∷◌, ◌++◌}
use mcp_content_guard.Base.Bytes.{Bytes}
use mcp_content_guard.Intercept.{Setup}
use mcp_content_guard.Proxy.{Proxy, handle_client_message, handle_upstream_message}
use mcp_content_guard.Proxy.Schedule.{Event, from_client, from_upstream}
use mcp_content_guard.Proxy.Machine.{Input, ended, line, Worker, busy, finished, Machine, emptied}

-- The third list is sent from the first two, each in its order.
pub data Shuffle : List Bytes → List Bytes → List Bytes → Type 0 where
  nothing : Shuffle [] [] []
  from_first :
      {a b c : List Bytes} (x : Bytes) → Shuffle a b c → Shuffle (a ++ (x ∷ [])) b (c ++ (x ∷ []))
  from_second :
      {a b c : List Bytes} (x : Bytes) → Shuffle a b c → Shuffle a (b ++ (x ∷ [])) (c ++ (x ∷ []))

abbrev pub outbox : Worker → List Bytes
outbox (busy l) = l
outbox finished = []

-- Lines in front of an input.
abbrev pub before : List Bytes → Input → Input
before [] i = i
before (l ∷ ls) i = line l (before ls i)

pub before-snoc :
    (ls : List Bytes) (l : Bytes) (i : Input) → before (ls ++ (l ∷ [])) i ≡ before ls (line l i)
before-snoc [] l i = refl
before-snoc (k ∷ ls) l i = ap (line k) (before-snoc ls l i)

-- The lines of the client and of the upstream server in a schedule, whose latest call stands first.
abbrev pub client_lines : List Event → List Bytes
client_lines [] = []
client_lines (from_client env l ∷ es) = client_lines es ++ (l ∷ [])
client_lines (from_upstream env l ∷ es) = client_lines es

abbrev pub upstream_lines : List Event → List Bytes
upstream_lines [] = []
upstream_lines (from_client env l ∷ es) = upstream_lines es
upstream_lines (from_upstream env l ∷ es) = upstream_lines es ++ (l ∷ [])

module _ (setup : Setup) (tool : Bytes) where
  abbrev call : Event → Proxy → Proxy
  call (from_client env l) p = handle_client_message setup tool env l p
  call (from_upstream env l) p = handle_upstream_message setup tool env l p

  -- The proxy behind the calls of a schedule.
  abbrev pub after : List Event → Proxy → Proxy
  after [] p = p
  after (e ∷ es) p = emptied (call e (after es p))

  -- What the handler of the client's lines sends, and the handler of the upstream server's.
  abbrev pub replies : List Event → Proxy → List Bytes
  replies [] p = []
  replies (from_client env l ∷ es) p =
      replies es p ++ (call (from_client env l) (after es p)).to_client
  replies (from_upstream env l ∷ es) p = replies es p

  abbrev pub relays : List Event → Proxy → List Bytes
  relays [] p = []
  relays (from_client env l ∷ es) p = relays es p
  relays (from_upstream env l ∷ es) p =
      relays es p ++ (call (from_upstream env l) (after es p)).to_client

  -- A machine that runs from a proxy on two inputs, as far as a schedule.
  pub record Tracks (p : Proxy) (client_input upstream_input : Input) (m : Machine) : Type 0 where
    pub calls : List Event
    pub replied : List Bytes
    pub relayed : List Bytes
    pub proxy : m.proxy ≡ after calls p
    pub replies_of : replied ++ outbox m.client ≡ replies calls p
    pub relays_of : relayed ++ outbox m.upstream ≡ relays calls p
    pub shuffled : Shuffle replied relayed (m.written ++ m.buffered)
    pub client_read : before (client_lines calls) m.client_input ≡ client_input
    pub upstream_read : before (upstream_lines calls) m.upstream_input ≡ upstream_input
    pub client_over : m.client ≡ finished → m.client_input ≡ ended
    pub upstream_over : m.upstream ≡ finished → m.upstream_input ≡ ended
    pub closed : m.closed ≡ true → (m.client ≡ finished) × (m.upstream ≡ finished)
    pub returned : m.returned ≡ true → (m.closed ≡ true) × (m.buffered ≡ [])
