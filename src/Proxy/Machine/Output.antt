-- ===== src/Proxy/Machine/Output.antt =====
-- What `Run` has read and written when it returns.
use mcp_content_guard.Base.{
  ℕ, suc, ◌+◌, ◌≡◌, refl, sym, ap, ◌∙◌, subst, true, List, [], ◌∷◌, ◌++◌, append_assoc, append-nil,
  length, length-append, arith, inl, inr, Bool-cases, if◌then◌else◌,
}
use mcp_content_guard.Base.Bytes.{Bytes}
use mcp_content_guard.Intercept.{State, Setup}
use mcp_content_guard.Proxy.{Proxy}
use mcp_content_guard.Proxy.Schedule.{Event, from_client, from_upstream}
use mcp_content_guard.Proxy.Traffic.{
  is_seek, handle_client_message-Answered, handle_client_message-Forwarded,
}
use mcp_content_guard.Proxy.Relay.{handle_upstream_message-Relayed}
use mcp_content_guard.Proxy.Machine.{Input, ended, line, to_input, Machine, start, Steps}
use mcp_content_guard.Proxy.Machine.Trace.{
  Shuffle, outbox, before, client_lines, upstream_lines, after, replies, relays,
}
use mcp_content_guard.Proxy.Machine.Keeps.{steps-Tracks}

module _ (setup : Setup) (tool : Bytes) where
  -- The lines that are no `seek_result` calls, and the number of those that are.
  pub others : List Bytes → List Bytes
  others [] = []
  others (l ∷ ls) = let rest = others ls in if is_seek setup tool l then rest else l ∷ rest

  pub seeks : List Bytes → ℕ
  seeks [] = 0
  seeks (l ∷ ls) = let rest = seeks ls in if is_seek setup tool l then suc rest else rest

  others-snoc :
      (ls : List Bytes) (l : Bytes)
      → others (ls ++ (l ∷ [])) ≡ others ls ++ (if is_seek setup tool l then [] else l ∷ [])
  unfolding others
  others-snoc [] l = ground arith
  others-snoc (k ∷ ls) l = ground (arith, others-snoc ls l)

  seeks-snoc :
      (ls : List Bytes) (l : Bytes)
      → seeks (ls ++ (l ∷ [])) ≡ seeks ls + (if is_seek setup tool l then 1 else 0)
  unfolding seeks
  seeks-snoc [] l = ground arith
  seeks-snoc (k ∷ ls) l = ground (arith, seeks-snoc ls l)

  to_client-after :
      (es : List Event) (p : Proxy) → p.to_client ≡ [] → (after setup tool es p).to_client ≡ []
  to_client-after [] p h = h
  to_client-after (from_client env l ∷ es) p h = refl
  to_client-after (from_upstream env l ∷ es) p h = refl

  to_upstream-after :
      (es : List Event) (p : Proxy)
      → (after setup tool es p).to_upstream ≡ p.to_upstream ++ others (client_lines es)
  unfolding others
  to_upstream-after [] p = sym (append-nil p.to_upstream)
  to_upstream-after (from_upstream env l ∷ es) p =
      (handle_upstream_message-Relayed setup tool env l (after setup tool es p)).to_upstream
      ∙ to_upstream-after es p
  to_upstream-after (from_client env l ∷ es) p =
      let sent = others-snoc (client_lines es) l in
      elim (Bool-cases (is_seek setup tool l)) [
        | inl seek ↦
            (handle_client_message-Answered setup tool env l (after setup tool es p)
              seek).to_upstream
            ∙ to_upstream-after es p
            ∙ ap (◌++◌ p.to_upstream) (sym (sent ∙ rw seek (append-nil (others (client_lines es)))))
        | inr other ↦
            (handle_client_message-Forwarded setup tool env l (after setup tool es p)
              other).to_upstream
            ∙ ap (λ u. u ++ (l ∷ [])) (to_upstream-after es p)
            ∙ append_assoc p.to_upstream (others (client_lines es)) (l ∷ [])
            ∙ ap (◌++◌ p.to_upstream) (sym (sent ∙ rw other))
      ]

  length-replies :
      (es : List Event) (p : Proxy)
      → p.to_client ≡ []
      → length (replies setup tool es p) ≡ seeks (client_lines es)
  unfolding seeks
  length-replies [] p h = refl
  length-replies (from_upstream env l ∷ es) p h = length-replies es p h
  length-replies (from_client env l ∷ es) p h =
      let q = after setup tool es p in
      let none_yet = ap (length {0}) (to_client-after es p h) in
      elim (Bool-cases (is_seek setup tool l)) [
        | inl seek ↦
            let r = handle_client_message-Answered setup tool env l q seek in
            rw (seeks-snoc (client_lines es) l, seek)
              (omega (
                arith,
                length-replies es p h,
                none_yet,
                ap (length {0}) r.to_client,
                length-append {0} q.to_client (r.reply ∷ []),
                length-append {0} (replies setup tool es p) _,
              ))
        | inr other ↦
            let r = handle_client_message-Forwarded setup tool env l q other in
            rw (seeks-snoc (client_lines es) l, other)
              (omega (
                arith,
                length-replies es p h,
                none_yet,
                ap (length {0}) r.to_client,
                length-append {0} (replies setup tool es p) _,
              ))
      ]

  length-relays :
      (es : List Event) (p : Proxy)
      → p.to_client ≡ []
      → length (relays setup tool es p) ≡ length (upstream_lines es)
  length-relays [] p h = refl
  length-relays (from_client env l ∷ es) p h = length-relays es p h
  length-relays (from_upstream env l ∷ es) p h =
      let q = after setup tool es p in
      let r = handle_upstream_message-Relayed setup tool env l q in
      omega (
        arith,
        length-relays es p h,
        ap (length {0}) (to_client-after es p h),
        ap (length {0}) r.to_client,
        length-append {0} q.to_client (r.line ∷ []),
        length-append {0} (relays setup tool es p) _,
        length-append {0} (upstream_lines es) (l ∷ []),
      )

  before-ended : (ls : List Bytes) → before ls ended ≡ to_input ls
  unfolding to_input
  before-ended [] = refl
  before-ended (l ∷ ls) = ap (line l) (before-ended ls)

  -- All that a `Run` has done when it returns.
  pub record IsComplete (shared : State) (client_input upstream_input : Input) (m : Machine)
      : Type 0 where
    pub calls : List Event
    pub replied : List Bytes
    pub relayed : List Bytes
    pub client_read : to_input (client_lines calls) ≡ client_input
    pub upstream_read : to_input (upstream_lines calls) ≡ upstream_input
    pub replies_of :
        replied ≡ replies setup tool calls (start shared client_input upstream_input).proxy
    pub relays_of :
        relayed ≡ relays setup tool calls (start shared client_input upstream_input).proxy
    pub written : Shuffle replied relayed m.written
    pub one_reply_each : length replied ≡ seeks (client_lines calls)
    pub one_relay_each : length relayed ≡ length (upstream_lines calls)
    pub to_upstream : m.proxy.to_upstream ≡ others (client_lines calls)

  -- When `Run` returns, both inputs have been read to their ends; the upstream server has got the
  -- client's lines in order, without the `seek_result` calls; and what has been written to the client
  -- is one reply for each of these calls, and one line for each line of the server, nothing lost and
  -- nothing twice, both in the order of their handler calls, whatever order the goroutines ran in.
  pub returned-IsComplete :
      (shared : State) (client_input upstream_input : Input) (m : Machine)
      → Steps setup tool (start shared client_input upstream_input) m
      → m.returned ≡ true
      → IsComplete shared client_input upstream_input m
  unfolding start
  returned-IsComplete shared ci ui m steps r =
      let t = steps-Tracks setup tool shared ci ui m steps in
      let p = (start shared ci ui).proxy in
      let (is_closed, empty) = t.returned r in
      let (client_done, upstream_done) = t.closed is_closed in
      let replied_all : t.replied ≡ replies setup tool t.calls p =
        sym (append-nil t.replied)
        ∙ ap (λ w. t.replied ++ outbox w) (sym client_done)
        ∙ t.replies_of in
      let relayed_all : t.relayed ≡ relays setup tool t.calls p =
        sym (append-nil t.relayed)
        ∙ ap (λ w. t.relayed ++ outbox w) (sym upstream_done)
        ∙ t.relays_of in
      record {
        calls = t.calls;
        replied = t.replied;
        relayed = t.relayed;
        client_read =
            sym (before-ended (client_lines t.calls))
            ∙ ap (before (client_lines t.calls)) (sym (t.client_over client_done))
            ∙ t.client_read;
        upstream_read =
            sym (before-ended (upstream_lines t.calls))
            ∙ ap (before (upstream_lines t.calls)) (sym (t.upstream_over upstream_done))
            ∙ t.upstream_read;
        replies_of = replied_all;
        relays_of = relayed_all;
        written =
            subst (Shuffle t.replied t.relayed) (ap (◌++◌ m.written) empty ∙ append-nil m.written)
              t.shuffled;
        one_reply_each = ap (length {0}) replied_all ∙ length-replies t.calls p refl;
        one_relay_each = ap (length {0}) relayed_all ∙ length-relays t.calls p refl;
        to_upstream = ap (λ (q : Proxy). q.to_upstream) t.proxy ∙ to_upstream-after t.calls p;
      }
