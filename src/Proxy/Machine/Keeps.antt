-- ===== src/Proxy/Machine/Keeps.antt =====
-- Every step of `Run` keeps to the schedule of its handler calls.
use mcp_content_guard.Base.{
  ◌≡◌, refl, sym, ap, ◌∙◌, subst, Bool, true, List, [], ◌∷◌, ◌++◌, append_assoc, arith,
}
use mcp_content_guard.Base.Bytes.{Bytes}
use mcp_content_guard.Intercept.{State, Setup}
use mcp_content_guard.Proxy.{Proxy}
use mcp_content_guard.Proxy.Machine.{
  Input, ended, busy, finished, Machine, start, Step, client_line, upstream_line, client_send,
  upstream_send, client_ends, upstream_ends, closes, writes, returns, Steps, none_left, then_step,
}
use mcp_content_guard.Proxy.Machine.Moves.{
  client_line-Tracks, upstream_line-Tracks, client_send-Tracks, upstream_send-Tracks,
}
use mcp_content_guard.Proxy.Machine.Trace.{Shuffle, nothing, outbox, Tracks}

module _ (setup : Setup) (tool : Bytes) where
  module _ (p : Proxy) (ci ui : Input) (m : Machine) (t : Tracks setup tool p ci ui m) where
    client_ends-Tracks :
        m.client ≡ busy []
        → m.client_input ≡ ended
        → Tracks setup tool p ci ui (record m { client = finished })
    client_ends-Tracks w i = record {
      calls = t.calls;
      replied = t.replied;
      relayed = t.relayed;
      proxy = t.proxy;
      replies_of = ap (λ v. t.replied ++ outbox v) (sym w) ∙ t.replies_of;
      relays_of = t.relays_of;
      shuffled = t.shuffled;
      client_read = t.client_read;
      upstream_read = t.upstream_read;
      client_over = λ e. i;
      upstream_over = t.upstream_over;
      closed = λ e. (refl, (t.closed e).1);
      returned = t.returned;
    }

    upstream_ends-Tracks :
        m.upstream ≡ busy []
        → m.upstream_input ≡ ended
        → Tracks setup tool p ci ui (record m { upstream = finished })
    upstream_ends-Tracks w i = record {
      calls = t.calls;
      replied = t.replied;
      relayed = t.relayed;
      proxy = t.proxy;
      replies_of = t.replies_of;
      relays_of = ap (λ v. t.relayed ++ outbox v) (sym w) ∙ t.relays_of;
      shuffled = t.shuffled;
      client_read = t.client_read;
      upstream_read = t.upstream_read;
      client_over = t.client_over;
      upstream_over = λ e. i;
      closed = λ e. ((t.closed e).0, refl);
      returned = t.returned;
    }

    -- A step that changes neither the proxy, nor the goroutines that handle messages, nor what is sent.
    writer-Tracks :
        (buffered written : List Bytes) (closed' returned' : Bool)
        → written ++ buffered ≡ m.written ++ m.buffered
        → (closed' ≡ true → (m.client ≡ finished) × (m.upstream ≡ finished))
        → (returned' ≡ true → (closed' ≡ true) × (buffered ≡ []))
        → Tracks setup tool p ci ui (record m {
          buffered = buffered;
          written = written;
          closed = closed';
          returned = returned';
        })
    writer-Tracks buffered written closed' returned' same c r = record {
      calls = t.calls;
      replied = t.replied;
      relayed = t.relayed;
      proxy = t.proxy;
      replies_of = t.replies_of;
      relays_of = t.relays_of;
      shuffled = subst (Shuffle t.replied t.relayed) (sym same) t.shuffled;
      client_read = t.client_read;
      upstream_read = t.upstream_read;
      client_over = t.client_over;
      upstream_over = t.upstream_over;
      closed = c;
      returned = r;
    }

  step-Tracks :
      (p : Proxy) (ci ui : Input) (m n : Machine)
      → Step setup tool m n
      → Tracks setup tool p ci ui m
      → Tracks setup tool p ci ui n
  step-Tracks p ci ui m n (client_line env l rest w i) t =
      client_line-Tracks setup tool p ci ui m t env l rest w i
  step-Tracks p ci ui m n (upstream_line env l rest w i) t =
      upstream_line-Tracks setup tool p ci ui m t env l rest w i
  step-Tracks p ci ui m n (client_send b bs w room) t =
      client_send-Tracks setup tool p ci ui m t b bs w
  step-Tracks p ci ui m n (upstream_send b bs w room) t =
      upstream_send-Tracks setup tool p ci ui m t b bs w
  step-Tracks p ci ui m n (client_ends w i) t = client_ends-Tracks p ci ui m t w i
  step-Tracks p ci ui m n (upstream_ends w i) t = upstream_ends-Tracks p ci ui m t w i
  step-Tracks p ci ui m n (closes w v c) t =
      writer-Tracks p ci ui m t m.buffered m.written true m.returned refl (λ e. (w, v))
        (λ e. (refl, (t.returned e).1))
  step-Tracks p ci ui m n (writes b bs w) t =
      writer-Tracks p ci ui m t bs (m.written ++ (b ∷ [])) m.closed m.returned
        (append_assoc m.written (b ∷ []) bs ∙ ap (◌++◌ m.written) (sym w)) t.closed
        (λ e. absurd (ground (arith, t.returned e)))
  step-Tracks p ci ui m n (returns w c r) t =
      writer-Tracks p ci ui m t m.buffered m.written m.closed true refl t.closed (λ e. (c, w))

  start-Tracks :
      (shared : State) (ci ui : Input)
      → Tracks setup tool (start shared ci ui).proxy ci ui (start shared ci ui)
  unfolding start
  start-Tracks shared ci ui = record {
    calls = [];
    replied = [];
    relayed = [];
    proxy = refl;
    replies_of = refl;
    relays_of = refl;
    shuffled = nothing;
    client_read = refl;
    upstream_read = refl;
    client_over = λ e. cc;
    upstream_over = λ e. cc;
    closed = λ e. cc;
    returned = λ e. cc;
  }

  pub steps-Tracks :
      (shared : State) (ci ui : Input) (m : Machine)
      → Steps setup tool (start shared ci ui) m
      → Tracks setup tool (start shared ci ui).proxy ci ui m
  steps-Tracks shared ci ui m none_left = start-Tracks shared ci ui
  steps-Tracks shared ci ui m (then_step s e) =
      step-Tracks (start shared ci ui).proxy ci ui _ m e (steps-Tracks shared ci ui _ s)
