-- ===== src/Intercept/Outcomes.antt =====
-- Everything that `MaybeCache` can do with a message.
use mcp_content_guard.Base.{◌≡◌, true, false, Option, none, some}
use mcp_content_guard.Base.Bytes.{Bytes, codes}
use mcp_content_guard.Base.Int64.{lt64, len64}
use mcp_content_guard.Base.Dictionary.{Dictionary, lookup}
use mcp_content_guard.Json.{ok, err, Message}
use mcp_content_guard.Cache
use mcp_content_guard.Cache.{hex}
use mcp_content_guard.Schema.{or_empty}
use mcp_content_guard.Stats.{record_cache}
use mcp_content_guard.Intercept.{State, Environment, Setup, stub_message, stub_text}

module _ (setup : Setup) where
  open setup use {codec, totals_codec, threshold}

  -- A result with a member "isError" that decodes to true.
  pub record IsMarked (result : Dictionary Bytes) : Type 0 where
    pub raw : Bytes
    pub present : lookup (codes "isError") result ≡ some raw
    pub decoded : codec.decode_bool raw ≡ some true

  -- Why a message is forwarded with nothing changed.
  pub data IsForwarded (env : Environment) (msg : Message) : Type 0 where
    no_object : (e : Bytes) → codec.decode_map msg.result ≡ err e → IsForwarded env msg
    marked :
        (map : Option (Dictionary Bytes))
        → codec.decode_map msg.result ≡ ok map
        → IsMarked (or_empty map)
        → IsForwarded env msg
    no_content :
        (map : Option (Dictionary Bytes))
        → codec.decode_map msg.result ≡ ok map
        → lookup (codes "content") (or_empty map) ≡ none
        → IsForwarded env msg
    small :
        (map : Option (Dictionary Bytes)) (content : Bytes)
        → codec.decode_map msg.result ≡ ok map
        → lookup (codes "content") (or_empty map) ≡ some content
        → lt64 (len64 content) threshold ≡ true
        → IsForwarded env msg
    no_random : env.random ≡ none → IsForwarded env msg

  -- What is stored, and under which random bytes.
  pub record IsStored (env : Environment) (msg : Message) (result : Dictionary Bytes)
      (content random : Bytes) : Type 0 where
    pub map : Option (Dictionary Bytes)
    pub decoded : codec.decode_map msg.result ≡ ok map
    pub result_of : result ≡ or_empty map
    pub unmarked : ¬ IsMarked result
    pub present : lookup (codes "content") result ≡ some content
    pub large : lt64 (len64 content) threshold ≡ false
    pub drawn : env.random ≡ some random

  -- What happens, with the state and the stub behind it.
  pub data Outcome (env : Environment) (msg : Message) (s : State)
      : State × Option Bytes → Type 0 where
    forwarded : IsForwarded env msg → Outcome env msg s (s, none)
    unencoded :
        (result : Dictionary Bytes) (content random : Bytes)
        → IsStored env msg result content random
        → stub_message setup msg result (hex random) content ≡ none
        → Outcome env msg s
            (record s { cache = (Cache.store (some random) content s.cache).0 }, none)
    replaced :
        (result : Dictionary Bytes) (content random stub : Bytes)
        → IsStored env msg result content random
        → stub_message setup msg result (hex random) content ≡ some stub
        → Outcome env msg s (
          record {
            cache = (Cache.store (some random) content s.cache).0;
            stats =
                record_cache totals_codec env.disk
                  (len64 content)
                  (len64 (stub_text setup (hex random) content))
                  s.stats;
          },
          some stub,
        )
