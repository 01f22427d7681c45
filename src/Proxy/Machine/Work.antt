-- ===== src/Proxy/Machine/Work.antt =====
-- The work that is left for `Run`, which every step reduces, and the inputs that end.
use mcp_content_guard.Base.{
  ℕ, ◌+◌, ◌*◌, ◌≤◌, ◌<◌, ◌≡◌, refl, ap, Bool, true, false, [], ◌∷◌, length, length-append, arith,
  inl, inr, Bool-cases,
}
use mcp_content_guard.Base.Bytes.{Bytes}
use mcp_content_guard.Intercept.{Environment, Setup}
use mcp_content_guard.Proxy.{Proxy, handle_client_message, handle_upstream_message}
use mcp_content_guard.Proxy.Traffic.{
  is_seek, handle_client_message-Answered, handle_client_message-Forwarded,
}
use mcp_content_guard.Proxy.Relay.{handle_upstream_message-Relayed}
use mcp_content_guard.Proxy.Machine.{
  Input, ended, open_forever, line, Worker, busy, finished, Machine, Step, client_line,
  upstream_line, client_send, upstream_send, client_ends, upstream_ends, closes, writes, returns,
}

-- An input that ends.
abbrev pub Ends : Input → Type 0
Ends ended = Unit
Ends open_forever = ⊥
Ends (line l i) = Ends i

-- Work that is left: a line that is not read is worth more than the line that its handler sends, and
-- that more than one in the channel.
input_work : Input → ℕ
input_work ended = 0
input_work open_forever = 0
input_work (line l i) = 3 + input_work i

worker_work : Worker → ℕ
worker_work (busy l) = 1 + 2 * length l
worker_work finished = 0

flag_work : Bool → ℕ
flag_work true = 0
flag_work false = 1

pub work : Machine → ℕ
unfolding input_work worker_work flag_work
work m =
    input_work m.client_input
    + input_work m.upstream_input
    + worker_work m.client
    + worker_work m.upstream
    + length m.buffered
    + flag_work m.closed
    + flag_work m.returned

length-client :
    (setup : Setup) (tool : Bytes) (env : Environment) (l : Bytes) (p : Proxy)
    → p.to_client ≡ []
    → length (handle_client_message setup tool env l p).to_client ≤ 1
length-client setup tool env l p h = elim (Bool-cases (is_seek setup tool l)) [
  | inl seek ↦
      let r = handle_client_message-Answered setup tool env l p seek in
      omega (
        arith,
        ap (length {0}) r.to_client,
        length-append {0} p.to_client (r.reply ∷ []),
        ap (length {0}) h,
      )
  | inr other ↦
      let r = handle_client_message-Forwarded setup tool env l p other in
      omega (arith, ap (length {0}) r.to_client, ap (length {0}) h)
]

length-upstream :
    (setup : Setup) (tool : Bytes) (env : Environment) (l : Bytes) (p : Proxy)
    → p.to_client ≡ []
    → length (handle_upstream_message setup tool env l p).to_client ≤ 1
length-upstream setup tool env l p h =
    let r = handle_upstream_message-Relayed setup tool env l p in
    omega (
      arith,
      ap (length {0}) r.to_client,
      length-append {0} p.to_client (r.line ∷ []),
      ap (length {0}) h,
    )

module _ (setup : Setup) (tool : Bytes) where
  -- Two inputs that end, and no sent lines in the proxy.
  pub record CanEnd (m : Machine) : Type 0 where
    pub client : Ends m.client_input
    pub upstream : Ends m.upstream_input
    pub empty : m.proxy.to_client ≡ []

  Ends-rest : (i : Input) (l : Bytes) (rest : Input) → i ≡ line l rest → Ends i → Ends rest
  Ends-rest ended l rest e h = cc
  Ends-rest open_forever l rest e h = absurd h
  Ends-rest (line k i) l rest e h = ground (arith, e, h)

  pub step-CanEnd : (m n : Machine) → Step setup tool m n → CanEnd m → CanEnd n
  step-CanEnd m n (client_line env l rest w i) c = record {
    client = Ends-rest m.client_input l rest i c.client;
    upstream = c.upstream;
    empty = refl;
  }
  step-CanEnd m n (upstream_line env l rest w i) c = record {
    client = c.client;
    upstream = Ends-rest m.upstream_input l rest i c.upstream;
    empty = refl;
  }
  step-CanEnd m n (client_send b bs w room) c = record {
    client = c.client;
    upstream = c.upstream;
    empty = c.empty;
  }
  step-CanEnd m n (upstream_send b bs w room) c = record {
    client = c.client;
    upstream = c.upstream;
    empty = c.empty;
  }
  step-CanEnd m n (client_ends w i) c = record {
    client = c.client;
    upstream = c.upstream;
    empty = c.empty;
  }
  step-CanEnd m n (upstream_ends w i) c = record {
    client = c.client;
    upstream = c.upstream;
    empty = c.empty;
  }
  step-CanEnd m n (closes w v x) c = record {
    client = c.client;
    upstream = c.upstream;
    empty = c.empty;
  }
  step-CanEnd m n (writes b bs w) c = record {
    client = c.client;
    upstream = c.upstream;
    empty = c.empty;
  }
  step-CanEnd m n (returns w x r) c = record {
    client = c.client;
    upstream = c.upstream;
    empty = c.empty;
  }

  pub step-work : (m n : Machine) → Step setup tool m n → m.proxy.to_client ≡ [] → work n < work m
  unfolding work input_work worker_work flag_work
  step-work m n (client_line env l rest w i) h =
      omega (arith, ap worker_work w, ap input_work i, length-client setup tool env l m.proxy h)
  step-work m n (upstream_line env l rest w i) h =
      omega (arith, ap worker_work w, ap input_work i, length-upstream setup tool env l m.proxy h)
  step-work m n (client_send b bs w room) h =
      omega (arith, ap worker_work w, length-append {0} m.buffered (b ∷ []))
  step-work m n (upstream_send b bs w room) h =
      omega (arith, ap worker_work w, length-append {0} m.buffered (b ∷ []))
  step-work m n (client_ends w i) h = omega (arith, ap worker_work w)
  step-work m n (upstream_ends w i) h = omega (arith, ap worker_work w)
  step-work m n (closes w v x) h = omega (arith, ap flag_work x)
  step-work m n (writes b bs w) h = omega (arith, ap (length {0}) w)
  step-work m n (returns w x r) h = omega (arith, ap flag_work r)
