-- ===== src/Intercept.antt =====
-- internal/intercept/intercept.go: a large `tools/call` response becomes a stub, and a `seek_result`
-- call is answered from the cache. Both transports share this code, the cache and the statistics.
pub mod Cached
pub mod Changed
pub mod Outcomes
pub mod Seek
pub mod Touches
use mcp_content_guard.Base.{
  ℕ, Bool, true, false, Option, none, some, List, [], ◌∷◌, ◌++◌, length, if◌then◌else◌,
}
use mcp_content_guard.Base.Bytes.{Bytes, codes, bytes_eq}
use mcp_content_guard.Base.Int64.{Int64, lt64, len64}
use mcp_content_guard.Base.Decimal.{show}
use mcp_content_guard.Base.Dictionary.{Dictionary, lookup, put}
use mcp_content_guard.Json.{
  Result, ok, err, Message, Codec, string, array, object, nil, cons, end, member,
}
use mcp_content_guard.Cache.{Cache}
use mcp_content_guard.Cache
use mcp_content_guard.Filter.{Engines}
use mcp_content_guard.Filter.Total.{apply}
use mcp_content_guard.Rpc.{encode_text_result, encode_error_result}
use mcp_content_guard.Schema.{or_empty}
use mcp_content_guard.Stats.{TotalsCodec, Session, Disk, record_cache, record_seek}

-- What the two handlers share and change.
pub record State : Type 0 where
  pub cache : Cache
  pub stats : Option Session

-- What one call meets: the random bytes, the disk of a flush, and the checks of the deadline.
pub record Environment : Type 0 where
  pub random : Option Bytes
  pub disk : Disk
  pub expired : ℕ → Option Bytes

-- The parts of the program that do not change.
pub record Setup : Type 0 where
  pub codec : Codec
  pub totals_codec : TotalsCodec
  pub engines : Engines
  -- `filter.MaxJQResults`
  pub limit : ℕ
  pub threshold : Int64

infixl 5 ◌>>=◌
abbrev pub ◌>>=◌ : {A B : Type 0} → Option A → (A → Option B) → Option B
none >>= f = none
some a >>= f = f a

module _ (setup : Setup) where
  open setup use {codec, totals_codec, engines, limit, threshold}

  -- The text of a stub; the dash is three bytes of UTF-8.
  unfoldable pub stub_text : Bytes → Bytes → Bytes
  stub_text id content =
      codes "[cached id="
      ++ (engines.quote id
          ++ (codes " ("
              ++ (show (length content)
                  ++ (codes " bytes) "
                      ++ (0xE2 ∷ 0x80 ∷ 0x94 ∷ codes " call seek_result to read]")))))

  -- The response with the stub for its content; a map is written with its keys sorted.
  unfoldable pub stub_message : Message → Dictionary Bytes → Bytes → Bytes → Option Bytes
  unfolding stub_text
  stub_message msg result id content = do
    content_json ← codec.encode_value (
        array (
          cons
            (object (
              member (codes "text") (string (stub_text id content))
                (member (codes "type") (string (codes "text")) end)))
            nil))
    result_json ← codec.encode_map (put (codes "content") content_json result)
    codec.encode_message (record msg { result = result_json })

  -- An `isError` member that decodes to true.
  unfoldable pub is_error : Dictionary Bytes → Bool
  is_error result = elim (lookup (codes "isError") result) [
    | none ↦ false
    | some raw ↦ elim (codec.decode_bool raw) [ none ↦ false | some b ↦ b ]
  ]

  -- `MaybeCache` from the call of `Store` on.
  unfoldable pub cache_content :
      Environment → Message → Dictionary Bytes → Bytes → State → State × Option Bytes
  unfolding stub_message
  cache_content env msg result content s =
      let (cache', stored) = Cache.store env.random content s.cache in
      let s' = record s { cache = cache' } in
      elim stored [
        | none ↦ (s', none)
        | some id ↦ elim (stub_message msg result id content) [
          | none ↦ (s', none)
          | some b ↦ (
            record s' {
              stats =
                  record_cache totals_codec env.disk (len64 content) (len64 (stub_text id content))
                    s.stats;
            },
            some b,
          )
        ]
      ]

  -- `none` means that the message is forwarded as it is.
  unfoldable pub maybe_cache : Environment → Message → State → State × Option Bytes
  unfolding cache_content is_error
  maybe_cache env msg s = elim (codec.decode_map msg.result) [
    | err e ↦ (s, none)
    | ok map ↦
        let result = or_empty map in
        if is_error result then (s, none) else (elim (lookup (codes "content") result) [
          | none ↦ (s, none)
          | some content ↦
              if lt64 (len64 content) threshold
              then (s, none)
              else cache_content env msg result content s
        ])
  ]

  unfoldable pub seek_result : Environment → Message → Bytes → Bytes → State → State × Bytes
  seek_result env req id filter_expr s =
      let (cache', found) = Cache.get id s.cache in
      let s' = record s { cache = cache' } in
      if bytes_eq id []
      then (s, encode_error_result codec req.id (codes "seek_result: id is required"))
      else (elim found [
        | none ↦ (
          s',
          encode_error_result codec req.id (codes "no cached result with id " ++ engines.quote id),
        )
        | some content ↦ elim (apply codec engines limit env.expired content filter_expr) [
          | err e ↦ (s', encode_error_result codec req.id (codes "filter error: " ++ e))
          | ok text ↦ (
            record s' { stats = record_seek totals_codec env.disk s.stats },
            encode_text_result codec req.id text,
          )
        ]
      ])
