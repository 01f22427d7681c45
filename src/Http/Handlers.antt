-- ===== src/Http/Handlers.antt =====
-- internal/httpserver/server.go: the handlers, from `ServeHTTP` to the requests to the upstream
-- server.
use mcp_content_guard.Base.{
  ℕ, Bool, ◌&&◌, ◌||◌, Option, none, some, List, [], ◌∷◌, ◌++◌, ltb, leb, drop, if◌then◌else◌,
}
use mcp_content_guard.Base.Bytes.{Bytes, codes, bytes_eq, has_prefix}
use mcp_content_guard.Base.Lines.{split}
use mcp_content_guard.Json.{Result, ok, err, Message, CallParams}
use mcp_content_guard.Rpc.{is_request, is_response}
use mcp_content_guard.Schema.{inject_seek_result}
use mcp_content_guard.Intercept.{State, Environment, Setup, maybe_cache, seek_result}
use mcp_content_guard.Http.{
  Header, Body, Request, Outgoing, Answer, Reply, Network, Server, Outcome, too_large, unread,
  complete, read_body, limited, drop_return, has_long_line, header_get, header_set, add_all,
  upstream_header, direct, http_error, write_json, copy_response,
}

-- What the handlers read and do not change.
pub record Context : Type 0 where
  pub setup : Setup
  pub seek_result_tool : Bytes
  pub canonical : Bytes → Bytes
  pub server : Server

-- What `doUpstream` returns beside an error.
pub record Collected : Type 0 where
  pub status : ℕ
  pub header : Header
  pub body : Bytes

module _ (context : Context) where
  open context use {setup, seek_result_tool, canonical, server}
  open setup use {codec}

  -- The data of a line, if it is a response.
  unfoldable pub response_data : Bytes → Option Bytes
  response_data line =
      let data' = drop 6 line in
      if has_prefix line (codes "data: ")
      then (elim (codec.decode_message data') [
        | none ↦ none
        | some probe ↦ if is_response probe then some data' else none
      ])
      else none

  -- The loop of `collectSSE`.
  unfoldable pub collect_last : List Bytes → Option Bytes → Option Bytes
  unfolding response_data
  collect_last [] last = last
  collect_last (line ∷ lines) last =
      collect_last lines
        (elim (response_data (drop_return line)) [ none ↦ last | some data' ↦ some data' ])

  unfoldable pub collect_sse : Body → Result Bytes
  unfolding collect_last
  collect_sse b =
      let lines = split 10 b.text in
      if has_long_line lines then err (codes "bufio.Scanner: token too long") else (elim b.failure [
        | some e ↦ err e
        | none ↦ elim (collect_last lines none) [ none ↦ ok (codes "{}") | some last ↦ ok last ]
      ])

  -- `doUpstream` from the answer on.
  unfoldable pub collect : Answer → Result Collected
  unfolding collect_sse
  collect resp =
      let body = limited server.max_body_bytes resp.body in
      if has_prefix (header_get canonical (codes "Content-Type") resp.header)
        (codes "text/event-stream")
      then (elim (collect_sse body) [
        | err e ↦ err (codes "read SSE: " ++ e)
        | ok collected ↦ ok (record {
          status = resp.status;
          header =
              header_set canonical (codes "Content-Type") (codes "application/json") resp.header;
          body = collected;
        })
      ])
      else (elim body.failure [
        | some e ↦ err e
        | none ↦ ok (record { status = resp.status; header = resp.header; body = body.text })
      ])

  unfoldable pub outgoing : Request → Bytes → Outgoing
  outgoing r body = record {
    header = upstream_header canonical server.headers r.header;
    body = body;
  }

  -- The second component is what was sent.
  unfoldable pub do_upstream : Network → Request → Bytes → Result Collected × List Outgoing
  unfolding outgoing collect
  do_upstream net r body = elim net.request_error [
    | some e ↦ (err e, [])
    | none ↦ (
      (elim (net.exchange (outgoing r body)) [ err e ↦ err e | ok resp ↦ collect resp ]),
      outgoing r body ∷ [],
    )
  ]

  unfoldable pub forward_raw : Network → Request → Bytes → Reply × List Outgoing
  forward_raw net r body =
      let out : Outgoing = record { header = add_all canonical r.header []; body = body } in
      elim net.request_error [
        | some e ↦ (http_error canonical 502 e, [])
        | none ↦ elim (net.exchange out) [
          | err e ↦ (http_error canonical 502 e, out ∷ [])
          | ok resp ↦ (
            copy_response canonical resp.status resp.header
                (limited server.max_body_bytes resp.body).text,
            out ∷ [],
          )
        ]
      ]

  -- The parameters of a request to call `seek_result`.
  unfoldable pub seek_request : Message → Option CallParams
  seek_request msg =
      let params : Option CallParams = elim (codec.decode_params msg.params) [
        | none ↦ none
        | some params ↦ if bytes_eq params.name (codes "seek_result") then some params else none
      ] in
      if is_request msg && bytes_eq msg.method (codes "tools/call") then params else none

  -- What the body of the reply becomes, for an answer that is a response.
  unfoldable pub intercept_response :
      Environment → Message → Message → Bytes → State → State × Bytes
  intercept_response env msg resp body s =
      let (s', stub) = maybe_cache setup env resp s in
      if bytes_eq msg.method (codes "tools/list")
      then (elim (inject_seek_result codec seek_result_tool resp.result) [
        | err e ↦ (s, body)
        | ok modified ↦ elim (codec.encode_message (record resp { result = modified })) [
          | none ↦ (s, body)
          | some b ↦ (s, b)
        ]
      ])
      else if bytes_eq msg.method (codes "tools/call")
      then (elim stub [ none ↦ (s', body) | some b ↦ (s', b) ])
      else (s, body)

  -- `handleMCPPost` from the answer of `doUpstream` on.
  unfoldable pub finish_post : Environment → Message → Collected → State → State × Reply
  unfolding intercept_response
  finish_post env msg resp s =
      let copied = copy_response canonical resp.status resp.header resp.body in
      if ltb resp.status 200 || leb 300 resp.status
      then (s, copied)
      else (elim (codec.decode_message resp.body) [
        | none ↦ (s, copied)
        | some resp_msg ↦
            let (s', b) = intercept_response env msg resp_msg resp.body s in
            if is_response resp_msg
            then (s', write_json canonical b)
            else (s, write_json canonical resp.body)
      ])

  unfoldable pub post_upstream : Environment → Network → Request → Message → Bytes → State → Outcome
  unfolding do_upstream finish_post
  post_upstream env net r msg body s =
      let (collected, sent) = do_upstream net r body in
      elim collected [
        | err e ↦ record { shared = s; reply = http_error canonical 502 e; sent = sent }
        | ok resp ↦
            let (s', reply) = finish_post env msg resp s in
            record { shared = s'; reply = reply; sent = sent }
      ]

  unfoldable pub post_message : Environment → Network → Request → Message → Bytes → State → Outcome
  unfolding post_upstream seek_request
  post_message env net r msg body s = elim (seek_request msg) [
    | some params ↦
        let (s', b) = seek_result setup env msg params.id params.filter s in
        record { shared = s'; reply = write_json canonical b; sent = [] }
    | none ↦ post_upstream env net r msg body s
  ]

  unfoldable pub handle_mcp_post : Environment → Network → Request → State → Outcome
  unfolding post_message forward_raw
  handle_mcp_post env net r s = elim (read_body server.max_body_bytes r.body) [
    | too_large ↦ record {
      shared = s;
      reply = http_error canonical 413 (codes "request body too large");
      sent = [];
    }
    | unread ↦ record {
      shared = s;
      reply = http_error canonical 400 (codes "read body");
      sent = [];
    }
    | complete body ↦ elim (codec.decode_message body) [
      | none ↦
          let (reply, sent) = forward_raw net r body in
          record { shared = s; reply = reply; sent = sent }
      | some msg ↦ post_message env net r msg body s
    ]
  ]

  unfoldable pub is_mcp_post : Request → Bool
  is_mcp_post r =
      bytes_eq r.method (codes "POST")
      && (bytes_eq r.path server.mcp_path
          && has_prefix (header_get canonical (codes "Content-Type") r.header)
              (codes "application/json"))

  -- Any other request goes through the director to the reverse proxy.
  unfoldable pub serve_http : Environment → Network → Request → State → Outcome
  unfolding is_mcp_post handle_mcp_post direct
  serve_http env net r s =
      let relayed = net.relay (record r { header = direct canonical server.headers r.header }) in
      if is_mcp_post r
      then handle_mcp_post env net r s
      else record { shared = s; reply = relayed; sent = [] }
