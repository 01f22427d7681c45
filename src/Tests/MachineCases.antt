-- ===== src/Tests/MachineCases.antt =====
-- `Run` of internal/proxy on a small exchange: a notification, a seek and a line from the server.
use mcp_content_guard.Base.{◌≡◌, refl, subst, true, [], ◌∷◌, arith}
use mcp_content_guard.Base.Bytes.{Bytes, codes, bytes_eq}
use mcp_content_guard.Rpc.{is_nil, is_notification, is_request}
use mcp_content_guard.Cache.{hex}
use mcp_content_guard.Tests.Fixtures.{random, seek}
use mcp_content_guard.Intercept.{seek_result}
use mcp_content_guard.Proxy.{Proxy, seek_params, handle_client_message, handle_upstream_message}
use mcp_content_guard.Proxy.Machine.{
  Input, ended, line, busy, finished, Machine, start, emptied, Step, client_line, upstream_line,
  client_send, upstream_send, client_ends, upstream_ends, closes, writes, returns, Steps, none_left,
  then_step,
}
use mcp_content_guard.Proxy.Machine.Ends.{Inevitably, HasReturned, start-HasReturned}
use mcp_content_guard.Proxy.Machine.Output.{IsComplete, returned-IsComplete}
use mcp_content_guard.Tests.ProxyCases.{tool, setup, env, state}

abbrev client_input : Input
client_input = line (codes "note") (line (codes "seek") ended)

abbrev upstream_input : Input
upstream_input = line (codes "junk") ended

start-HasReturned_example :
    Inevitably setup tool (HasReturned setup tool) (start state client_input upstream_input)
start-HasReturned_example = start-HasReturned setup tool state client_input upstream_input tt tt

abbrev begun : Machine
begun = start state client_input upstream_input

-- After each call of a handler.
abbrev forwarded : Proxy
forwarded = emptied (handle_client_message setup tool env (codes "note") begun.proxy)

abbrev relayed : Proxy
relayed = emptied (handle_upstream_message setup tool env (codes "junk") forwarded)

abbrev sought : Proxy
sought = handle_client_message setup tool env (codes "seek") relayed

abbrev reply : Bytes
reply = (seek_result setup env seek (hex random) (codes "head:2") state).1

nothing_sent : (handle_client_message setup tool env (codes "note") begun.proxy).to_client ≡ []
unfolding start handle_client_message bytes_eq is_notification is_nil
nothing_sent = refl

line_sent :
    (handle_upstream_message setup tool env (codes "junk") forwarded).to_client ≡ codes "junk" ∷ []
unfolding handle_upstream_message bytes_eq
line_sent = refl

reply_sent : sought.to_client ≡ reply ∷ []
unfolding handle_client_message handle_upstream_message start bytes_eq is_notification is_request
    is_nil seek_params seek_result
reply_sent = refl

-- The note is read, then the line of the server, then the seek.
abbrev noted : Machine
noted = record begun {
  proxy = forwarded;
  client_input = line (codes "seek") ended;
  client = busy [];
}

abbrev heard : Machine
heard = record noted {
  proxy = relayed;
  upstream_input = ended;
  upstream = busy (codes "junk" ∷ []);
}

abbrev asked : Machine
asked = record heard { proxy = emptied sought; client_input = ended; client = busy (reply ∷ []) }

notes : Step setup tool begun noted
unfolding start
notes =
    subst (λ s. Step setup tool begun (record noted { client = busy s })) nothing_sent
      (client_line env (codes "note") (line (codes "seek") ended) refl refl)

hears : Step setup tool noted heard
unfolding start
hears =
    subst (λ s. Step setup tool noted (record heard { upstream = busy s })) line_sent
      (upstream_line env (codes "junk") ended refl refl)

asks : Step setup tool heard asked
unfolding start
asks =
    subst (λ s. Step setup tool heard (record asked { client = busy s })) reply_sent
      (client_line env (codes "seek") ended refl refl)

-- Both goroutines end, with the reply of goroutine A in the channel first.
abbrev over : Machine
over = record asked {
  client = finished;
  upstream = finished;
  buffered = [];
  closed = true;
  written = reply ∷ codes "junk" ∷ [];
  returned = true;
}

runs : Steps setup tool begun over
unfolding start
runs =
    then_step
      (then_step
        (then_step
          (then_step
            (then_step
              (then_step
                (then_step
                  (then_step (then_step (then_step (then_step none_left notes) hears) asks)
                    (client_send reply [] refl (omega arith)))
                  (upstream_send (codes "junk") [] refl (omega arith)))
                (client_ends refl refl))
              (writes reply (codes "junk" ∷ []) refl))
            (upstream_ends refl refl))
          (closes refl refl refl))
        (writes (codes "junk") [] refl))
      (returns refl refl refl)

returned-IsComplete_example : IsComplete setup tool state client_input upstream_input over
returned-IsComplete_example =
    returned-IsComplete setup tool state client_input upstream_input over runs refl
