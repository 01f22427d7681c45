-- ===== src/Proxy/Answers.antt =====
-- A `seek_result` call over stdio is answered with a response that has the id of the call.
use mcp_content_guard.Base.{
  ◌≡◌, refl, Bool, true, false, Option, none, some, [], ◌++◌, arith, if◌then◌else◌,
}
use mcp_content_guard.Base.Bytes.{Bytes, codes, bytes_eq}
use mcp_content_guard.Json.{Result, ok, err, Message, CallParams, Codec, Value}
use mcp_content_guard.Rpc.{
  is_request, is_response, text_result, error_result, encode_or_nil, encode_text_result,
  encode_error_result,
}
use mcp_content_guard.Filter.Total.{apply}
use mcp_content_guard.Stats.{record_seek}
use mcp_content_guard.Cache
use mcp_content_guard.Intercept.{State, Environment, Setup, seek_result}
use mcp_content_guard.Proxy.{Proxy, send, handle_client_message}
use mcp_content_guard.Proxy.Retrieve.{IsSeekCall, seek_response}
use mcp_content_guard.Proxy.Replies.{IsReply, Replied}

module _ (codec : Codec) where
  -- A value that json.Marshal writes, and that is read back with an id and without a method.
  pub record ReadsBack (id v : Value) : Type 0 where
    pub line : Bytes
    pub encoded : codec.encode_value v ≡ some line
    pub message : Message
    pub decoded : codec.decode_message line ≡ some message
    pub same_id : message.id ≡ id
    pub no_method : message.method ≡ []

  -- json.Marshal writes the replies for a decoded id, and they are read back with it.
  abbrev pub ReadsReplies : Type 0
  ReadsReplies =
      (read : Bytes) (m : Message)
      → codec.decode_message read ≡ some m
      → (text : Bytes)
      → ReadsBack m.id (text_result m.id text) × ReadsBack m.id (error_result m.id text)

  response_same :
      (msg reply : Message)
      → is_request msg ≡ true
      → reply.id ≡ msg.id
      → reply.method ≡ []
      → is_response reply ≡ true
  unfolding is_request is_response bytes_eq
  response_same msg reply r i k = rw (k, is_response) (rw (i, is_response) (ground arith))

  ReadsBack-IsReply :
      (msg : Message) (v : Value)
      → is_request msg ≡ true
      → ReadsBack msg.id v
      → IsReply codec (encode_or_nil codec v) msg
  unfolding encode_or_nil
  ReadsBack-IsReply msg v r b =
      rw (b.encoded, encode_or_nil)
        (record {
          reply = b.message;
          decoded = b.decoded;
          same_id = b.same_id;
          response = response_same msg b.message r b.same_id b.no_method;
        })

module _ (setup : Setup) (tool : Bytes) (reads : ReadsReplies setup.codec) where
  open setup use {codec, engines, limit}

  module _ (read : Bytes) (msg : Message) (decoded : codec.decode_message read ≡ some msg)
      (request : is_request msg ≡ true) where
    text-IsReply : (text : Bytes) → IsReply codec (encode_text_result codec msg.id text) msg
    unfolding encode_text_result
    text-IsReply text = ReadsBack-IsReply codec msg _ request (reads read msg decoded text).0

    error-IsReply : (text : Bytes) → IsReply codec (encode_error_result codec msg.id text) msg
    unfolding encode_error_result
    error-IsReply text = ReadsBack-IsReply codec msg _ request (reads read msg decoded text).1

    filtered-IsReply :
        (env : Environment) (s : State) (filtered : Result Bytes)
        → IsReply codec
            (elim filtered as (λ x. State × Bytes) [
              | err e ↦ (s, encode_error_result codec msg.id (codes "filter error: " ++ e))
              | ok text ↦ (
                record s { stats = record_seek setup.totals_codec env.disk s.stats },
                encode_text_result codec msg.id text,
              )
            ]).1
            msg
    filtered-IsReply env s (err e) = error-IsReply _
    filtered-IsReply env s (ok text) = text-IsReply text

    found-IsReply :
        (env : Environment) (id filter_expr : Bytes) (s : State) (found : Option Bytes)
        → IsReply codec
            (elim found as (λ x. State × Bytes) [
              | none ↦ (
                s,
                encode_error_result codec msg.id
                    (codes "no cached result with id " ++ engines.quote id),
              )
              | some content ↦ elim (apply codec engines limit env.expired content filter_expr) [
                | err e ↦ (s, encode_error_result codec msg.id (codes "filter error: " ++ e))
                | ok text ↦ (
                  record s { stats = record_seek setup.totals_codec env.disk s.stats },
                  encode_text_result codec msg.id text,
                )
              ]
            ]).1
            msg
    found-IsReply env id filter_expr s none = error-IsReply _
    found-IsReply env id filter_expr s (some content) =
        filtered-IsReply env s (apply codec engines limit env.expired content filter_expr)

    if-IsReply :
        (b : Bool) (x y : State × Bytes)
        → IsReply codec x.1 msg
        → IsReply codec y.1 msg
        → IsReply codec (if b then x else y).1 msg
    if-IsReply true x y h k = h
    if-IsReply false x y h k = k

    -- The reply to a call is a response with the id of the call on every branch.
    pub seek_result-IsReply :
        (env : Environment) (id filter_expr : Bytes) (s : State)
        → IsReply codec (seek_result setup env msg id filter_expr s).1 msg
    unfolding seek_result
    seek_result-IsReply env id filter_expr s =
        if-IsReply (bytes_eq id []) _ _ (error-IsReply (codes "seek_result: id is required")) (
          found-IsReply env id filter_expr (record s { cache = (Cache.get id s.cache).0 })
            (Cache.get id s.cache).1)

  -- Every `seek_result` call is answered to the client with one line that decodes to a response
  -- with the id of the call, whether the id of the cache entry is missing, unknown or found and
  -- whether the filter fails or not, and nothing goes to the server. The hypothesis is that
  -- json.Marshal writes the replies and json.Unmarshal reads the id back from them.
  pub handle_client_message-Replied :
      (env : Environment) (line : Bytes) (msg : Message) (params : CallParams) (p : Proxy)
      → IsSeekCall setup tool line msg params
      → Replied setup tool p (handle_client_message setup tool env line p) msg
        × ((handle_client_message setup tool env line p).to_upstream ≡ p.to_upstream)
  unfolding send
  handle_client_message-Replied env line msg params p h =
      rw (seek_response setup tool env line msg params p h) (
        record {
          line = (seek_result setup env msg params.id params.filter p.shared).1;
          to_client = refl;
          reply =
              seek_result-IsReply line msg h.decoded h.request env params.id params.filter p.shared;
        },
        refl,
      )
