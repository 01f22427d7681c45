-- ===== src/Proxy/Machine/Moves.antt =====
-- A handler call and a send keep the trace of `Run`.
use mcp_content_guard.Base.{
  ◌≡◌, sym, ap, ap₂, ◌∙◌, subst, List, [], ◌∷◌, ◌++◌, append_assoc, append-nil, arith,
}
use mcp_content_guard.Base.Bytes.{Bytes}
use mcp_content_guard.Intercept.{Environment, Setup}
use mcp_content_guard.Proxy.{Proxy, handle_client_message, handle_upstream_message}
use mcp_content_guard.Proxy.Schedule.{from_client, from_upstream}
use mcp_content_guard.Proxy.Machine.{Input, line, Worker, busy, Machine, emptied}
use mcp_content_guard.Proxy.Machine.Trace.{
  Shuffle, from_first, from_second, outbox, before, before-snoc, client_lines, upstream_lines,
  Tracks,
}

module _ (setup : Setup) (tool : Bytes) where
  sent_one :
      (replied sent : List Bytes) (w : Worker) (b : Bytes) (bs : List Bytes)
      → replied ++ outbox w ≡ sent
      → w ≡ busy (b ∷ bs)
      → (replied ++ (b ∷ [])) ++ bs ≡ sent
  sent_one replied sent w b bs h e =
      append_assoc replied (b ∷ []) bs ∙ ap (λ v. replied ++ outbox v) (sym e) ∙ h

  idle_sent :
      (replied sent : List Bytes) (w : Worker)
      → replied ++ outbox w ≡ sent
      → w ≡ busy []
      → replied ≡ sent
  idle_sent replied sent w h e =
      sym (append-nil replied) ∙ ap (λ v. replied ++ outbox v) (sym e) ∙ h

  one_more :
      (written buffered : List Bytes) (b : Bytes)
      → (written ++ buffered) ++ (b ∷ []) ≡ written ++ (buffered ++ (b ∷ []))
  one_more written buffered b = append_assoc written buffered (b ∷ [])

  line_read :
      (lines : List Bytes) (l : Bytes) (rest i whole : Input)
      → before lines i ≡ whole
      → i ≡ line l rest
      → before (lines ++ (l ∷ [])) rest ≡ whole
  line_read lines l rest i whole h e = before-snoc lines l rest ∙ ap (before lines) (sym e) ∙ h

  module _ (p : Proxy) (ci ui : Input) (m : Machine) (t : Tracks setup tool p ci ui m) where
    pub client_line-Tracks :
        (env : Environment) (l : Bytes) (rest : Input)
        → m.client ≡ busy []
        → m.client_input ≡ line l rest
        → Tracks setup tool p ci ui (record m {
          proxy = emptied (handle_client_message setup tool env l m.proxy);
          client_input = rest;
          client = busy (handle_client_message setup tool env l m.proxy).to_client;
        })
    client_line-Tracks env l rest w i = record {
      calls = from_client env l ∷ t.calls;
      replied = t.replied;
      relayed = t.relayed;
      proxy = ap (λ q. emptied (handle_client_message setup tool env l q)) t.proxy;
      replies_of =
          ap₂ ◌++◌ (idle_sent t.replied _ m.client t.replies_of w)
            (ap (λ q. (handle_client_message setup tool env l q).to_client) t.proxy);
      relays_of = t.relays_of;
      shuffled = t.shuffled;
      client_read = line_read (client_lines t.calls) l rest m.client_input ci t.client_read i;
      upstream_read = t.upstream_read;
      client_over = λ e. cc;
      upstream_over = t.upstream_over;
      closed = λ e. absurd (ground (arith, t.closed e));
      returned = t.returned;
    }

    pub upstream_line-Tracks :
        (env : Environment) (l : Bytes) (rest : Input)
        → m.upstream ≡ busy []
        → m.upstream_input ≡ line l rest
        → Tracks setup tool p ci ui (record m {
          proxy = emptied (handle_upstream_message setup tool env l m.proxy);
          upstream_input = rest;
          upstream = busy (handle_upstream_message setup tool env l m.proxy).to_client;
        })
    upstream_line-Tracks env l rest w i = record {
      calls = from_upstream env l ∷ t.calls;
      replied = t.replied;
      relayed = t.relayed;
      proxy = ap (λ q. emptied (handle_upstream_message setup tool env l q)) t.proxy;
      replies_of = t.replies_of;
      relays_of =
          ap₂ ◌++◌ (idle_sent t.relayed _ m.upstream t.relays_of w)
            (ap (λ q. (handle_upstream_message setup tool env l q).to_client) t.proxy);
      shuffled = t.shuffled;
      client_read = t.client_read;
      upstream_read =
          line_read (upstream_lines t.calls) l rest m.upstream_input ui t.upstream_read i;
      client_over = t.client_over;
      upstream_over = λ e. cc;
      closed = λ e. absurd (ground (arith, t.closed e));
      returned = t.returned;
    }

    pub client_send-Tracks :
        (b : Bytes) (bs : List Bytes)
        → m.client ≡ busy (b ∷ bs)
        → Tracks setup tool p ci ui
            (record m { client = busy bs; buffered = m.buffered ++ (b ∷ []) })
    client_send-Tracks b bs w = record {
      calls = t.calls;
      replied = t.replied ++ (b ∷ []);
      relayed = t.relayed;
      proxy = t.proxy;
      replies_of = sent_one t.replied _ m.client b bs t.replies_of w;
      relays_of = t.relays_of;
      shuffled =
          subst (Shuffle (t.replied ++ (b ∷ [])) t.relayed) (one_more m.written m.buffered b)
            (from_first b t.shuffled);
      client_read = t.client_read;
      upstream_read = t.upstream_read;
      client_over = λ e. cc;
      upstream_over = t.upstream_over;
      closed = λ e. absurd (ground (arith, t.closed e));
      returned = λ e. absurd (ground (arith, t.returned e, t.closed (t.returned e).0));
    }

    pub upstream_send-Tracks :
        (b : Bytes) (bs : List Bytes)
        → m.upstream ≡ busy (b ∷ bs)
        → Tracks setup tool p ci ui
            (record m { upstream = busy bs; buffered = m.buffered ++ (b ∷ []) })
    upstream_send-Tracks b bs w = record {
      calls = t.calls;
      replied = t.replied;
      relayed = t.relayed ++ (b ∷ []);
      proxy = t.proxy;
      replies_of = t.replies_of;
      relays_of = sent_one t.relayed _ m.upstream b bs t.relays_of w;
      shuffled =
          subst (Shuffle t.replied (t.relayed ++ (b ∷ []))) (one_more m.written m.buffered b)
            (from_second b t.shuffled);
      client_read = t.client_read;
      upstream_read = t.upstream_read;
      client_over = t.client_over;
      upstream_over = λ e. cc;
      closed = λ e. absurd (ground (arith, t.closed e));
      returned = λ e. absurd (ground (arith, t.returned e, t.closed (t.returned e).0));
    }
